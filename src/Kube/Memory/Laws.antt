-- ===== src/Kube/Memory/Laws.antt =====
-- The cluster in memory keeps what the API promises.
use virtwork.Base.{
  String, Bool, true, false, Option, none, some, List, [], ◌∷◌, Result, ok, ◌≡◌, refl, sym, ◌==◌,
  ◌&&◌, In, subst, All, if◌then◌else◌, Bool-cases, inl, inr, eq_iff, eq_refl, ap, ◌∙◌, ◌⊎◌,
}
use virtwork.Base.Assoc.{lookup}
use virtwork.Kube.{Labels, ApiError, not_found}
use virtwork.Kube.Client.{
  Object, virtual_machine, service, secret, data_volume, persistent_volume_claim, namespace, Kind,
  Meta, Matches, ListsSelected, ListsFound, DeletesSelected,
}
use virtwork.Kube.Memory.{
  create_object, meta_of, Cluster, same_kind, is_text, carries, select, is_object, exists, remove,
  delete_object, memory,
}

and-true : (a b : Bool) → (a && b) ≡ true → (a ≡ true) × (b ≡ true)
and-true true b h = (refl, h)
and-true false b h = cc

is_text-true : (v : String) (o : Option String) → is_text v o ≡ true → o ≡ some v
is_text-true v none h = cc
is_text-true v (some w) h = ap some ((eq_iff w v).0 h)

true-ne-false : true ≡ false → ⊥
true-ne-false e = cc

pub ok-injective : {a b : List Meta} → ◌≡◌ {A = Result ApiError (List Meta)} (ok a) (ok b) → b ≡ a
ok-injective e = cc

carries-Matches :
    (selector labels : Labels) → carries selector labels ≡ true → Matches selector labels
unfolding carries
carries-Matches [] labels h = tt
carries-Matches ((k, v) ∷ selector) labels h =
    let (first, others) = and-true (is_text v (lookup k labels)) (carries selector labels) h in
    (is_text-true v (lookup k labels) first, carries-Matches selector labels others)

-- the object is selected
abbrev picks : Kind → String → Labels → Kind → Meta → Bool
picks k ns selector j m = same_kind j k && ((m.namespace == ns) && carries selector m.labels)

picks-selected :
    (k j : Kind) (ns : String) (selector : Labels) (m : Meta)
    → picks k ns selector j m ≡ true
    → (m.namespace ≡ ns) × Matches selector m.labels
picks-selected k j ns selector m h =
    let (kind, others) =
      and-true (same_kind j k) ((m.namespace == ns) && carries selector m.labels) h in
    let (same, labels) = and-true (m.namespace == ns) (carries selector m.labels) others in
    ((eq_iff m.namespace ns).0 same, carries-Matches selector m.labels labels)

select-selected :
    (k : Kind) (ns : String) (selector : Labels) (objects : List (Kind × Meta))
    → All
        (λ (m : Meta). (m.namespace ≡ ns) × Matches selector m.labels)
        (select k ns selector objects)
unfolding select
select-selected k ns selector [] = tt
select-selected k ns selector ((j, m) ∷ objects) = elim (Bool-cases (picks k ns selector j m)) [
  | inl t ↦ rw t (picks-selected k j ns selector m t, select-selected k ns selector objects)
  | inr f ↦ rw f (select-selected k ns selector objects)
]

pub memory-ListsSelected : ListsSelected memory
memory-ListsSelected = record {
  selected = λ k ns selector c. select-selected k ns selector c.objects;
}

-- an item of the list, or of a shorter one
In-pick :
    (b : Bool) (x y : Meta) (xs ys : List Meta)
    → (In x xs → In x ys)
    → In x (if b then y ∷ xs else xs)
    → In x (if b then y ∷ ys else ys)
In-pick true x y xs ys f (inl e) = inl e
In-pick true x y xs ys f (inr i) = inr (f i)
In-pick false x y xs ys f i = f i

In-skip : (b : Bool) (x y : Meta) (ys : List Meta) → In x ys → In x (if b then y ∷ ys else ys)
In-skip true x y ys i = inr i
In-skip false x y ys i = i

select-remove :
    (j k : Kind) (ns in_ns name : String) (selector : Labels) (objects : List (Kind × Meta))
    (x : Meta)
    → In x (select j ns selector (remove k in_ns name objects))
    → In x (select j ns selector objects)
unfolding select remove
select-remove j k ns in_ns name selector [] x i = i
select-remove j k ns in_ns name selector ((l, m) ∷ objects) x i =
    go (is_object k in_ns name (l, m)) i (select-remove j k ns in_ns name selector objects x)
  where
    go :
        (b : Bool)
        → In x (
            select j ns selector
              (if b then remove k in_ns name objects else (l, m) ∷ remove k in_ns name objects))
        → (In x (select j ns selector (remove k in_ns name objects))
            → In x (select j ns selector objects))
        → In x (select j ns selector ((l, m) ∷ objects))
    go true i f = In-skip (picks j ns selector l m) x m _ (f i)
    go false i f = In-pick (picks j ns selector l m) x m _ _ f i

In-pick_cases :
    (b : Bool) (x y : Meta) (xs : List Meta)
    → In x (if b then y ∷ xs else xs)
    → ((b ≡ true) × (x ≡ y)) ⊎ In x xs
In-pick_cases true x y xs (inl e) = inl (refl, e)
In-pick_cases true x y xs (inr i) = inr i
In-pick_cases false x y xs i = inr i

is_object-true :
    (k l : Kind) (in_ns name : String) (m x : Meta)
    → same_kind l k ≡ true
    → x ≡ m
    → x.namespace ≡ in_ns
    → x.name ≡ name
    → is_object k in_ns name (l, m) ≡ true
is_object-true k l in_ns name m x s e n h =
    let ns : m.namespace ≡ in_ns = ap (λ (y : Meta). y.namespace) (sym e) ∙ n in
    let nm : m.name ≡ name = ap (λ (y : Meta). y.name) (sym e) ∙ h in
    rw (s, (eq_iff m.namespace in_ns).1 ns, (eq_iff m.name name).1 nm) refl

-- an object of this kind, namespace and name is not left
select-removed :
    (k : Kind) (ns in_ns name : String) (selector : Labels) (objects : List (Kind × Meta))
    (x : Meta)
    → x.namespace ≡ in_ns
    → x.name ≡ name
    → ¬ In x (select k ns selector (remove k in_ns name objects))
unfolding select remove
select-removed k ns in_ns name selector [] x n e = λ i. i
select-removed k ns in_ns name selector ((l, m) ∷ objects) x n e = λ i.
    go (is_object k in_ns name (l, m)) refl i
      (select-removed k ns in_ns name selector objects x n e)
  where
    go :
        (b : Bool)
        → is_object k in_ns name (l, m) ≡ b
        → In x (
            select k ns selector
              (if b then remove k in_ns name objects else (l, m) ∷ remove k in_ns name objects))
        → ¬ In x (select k ns selector (remove k in_ns name objects))
        → ⊥
    go true h i f = f i
    go false h i f = elim (In-pick_cases (picks k ns selector l m) x m _ i) [
      | inl (p, s) ↦ true-ne-false (
          sym (
            is_object-true k l in_ns name m x
              (and-true (same_kind l k) ((m.namespace == ns) && carries selector m.labels) p).0 s n
              e)
          ∙ h)
      | inr j ↦ f j
    ]

-- an object that does not exist is not selected
select-absent :
    (k : Kind) (ns in_ns name : String) (selector : Labels) (objects : List (Kind × Meta))
    (x : Meta)
    → x.namespace ≡ in_ns
    → x.name ≡ name
    → exists k in_ns name objects ≡ false
    → ¬ In x (select k ns selector objects)
unfolding select exists
select-absent k ns in_ns name selector [] x n e a = λ i. i
select-absent k ns in_ns name selector ((l, m) ∷ objects) x n e a = λ i.
    go (is_object k in_ns name (l, m)) refl a i
      (select-absent k ns in_ns name selector objects x n e)
  where
    go :
        (b : Bool)
        → is_object k in_ns name (l, m) ≡ b
        → (if b then true else exists k in_ns name objects) ≡ false
        → In x (select k ns selector ((l, m) ∷ objects))
        → (exists k in_ns name objects ≡ false → ¬ In x (select k ns selector objects))
        → ⊥
    go true h a₁ i f = cc
    go false h a₁ i f = elim (In-pick_cases (picks k ns selector l m) x m _ i) [
      | inl (p, s) ↦ true-ne-false (
          sym (
            is_object-true k l in_ns name m x
              (and-true (same_kind l k) ((m.namespace == ns) && carries selector m.labels) p).0 s n
              e)
          ∙ h)
      | inr j ↦ f a₁ j
    ]

abbrev after : Kind → String → String → Cluster → Bool → Bool → Option ApiError × Cluster
after k ns name c b d =
    if b
    then (if d then (none, c) else (none, record c { objects = remove k ns name c.objects }))
    else (some not_found, c)

pub delete-shrinks :
    (j k : Kind) (ns in_ns name : String) (selector : Labels) (dry : Bool) (c : Cluster) (x : Meta)
    → In x (select j ns selector (delete_object k in_ns name dry c).1.objects)
    → In x (select j ns selector c.objects)
unfolding delete_object
delete-shrinks j k ns in_ns name selector dry c x i = go (exists k in_ns name c.objects) dry i
  where
    go :
        (b d : Bool)
        → In x (select j ns selector (after k in_ns name c b d).1.objects)
        → In x (select j ns selector c.objects)
    go false d i = i
    go true true i = i
    go true false i = select-remove j k ns in_ns name selector c.objects x i

pub delete-removes :
    (k : Kind) (ns : String) (selector : Labels) (m : Meta) (c : Cluster)
    → ¬ In m (select k ns selector (delete_object k m.namespace m.name false c).1.objects)
unfolding delete_object
delete-removes k ns selector m c = elim (Bool-cases (exists k m.namespace m.name c.objects)) [
  | inl t ↦ rw t (select-removed k ns m.namespace m.name selector c.objects m refl refl)
  | inr f ↦ rw f (select-absent k ns m.namespace m.name selector c.objects m refl refl f)
]

abbrev pub memory_lists : (ns : String) (selector : Labels) → ListsFound memory ns selector
memory_lists ns selector = record {
  found = λ k c. select k ns selector c.objects;
  shows = λ k c items e. ok-injective e;
  keeps = λ j k c. refl;
}

abbrev pub memory_deletes : (ns : String) (selector : Labels) → DeletesSelected memory ns selector
memory_deletes ns selector = record {
  live = λ k c. select k ns selector c.objects;
  shows = λ k c items e x i. subst (λ l. In x l) (sym (ok-injective e)) i;
  keeps = λ j k c. refl;
  shrinks = λ j k in_ns name dry c x i. delete-shrinks j k ns in_ns name selector dry c x i;
  ends = λ k m c g. delete-removes k ns selector m c;
}

-- an object does not exist after its removal
pub exists-remove :
    (k : Kind) (ns name : String) (objects : List (Kind × Meta))
    → exists k ns name (remove k ns name objects) ≡ false
unfolding exists remove
exists-remove k ns name [] = refl
exists-remove k ns name (o ∷ objects) = elim (Bool-cases (is_object k ns name o)) [
  | inl t ↦ rw t (exists-remove k ns name objects)
  | inr f ↦ rw (f, f) (exists-remove k ns name objects)
]

abbrev pub Exists : Kind → String → String → Cluster → Type 0
Exists k ns name c = exists k ns name c.objects ≡ true

found : (b rest : Bool) → rest ≡ true → (if b then true else rest) ≡ true
found true rest h = refl
found false rest h = h

same_kind_self : (k : Kind) → same_kind k k ≡ true
same_kind_self virtual_machine = refl
same_kind_self service = refl
same_kind_self secret = refl
same_kind_self data_volume = refl
same_kind_self persistent_volume_claim = refl
same_kind_self namespace = refl

-- an object that is put in front is found, and hides none
exists-cons_self :
    (k : Kind) (m : Meta) (objects : List (Kind × Meta))
    → exists k m.namespace m.name ((k, m) ∷ objects) ≡ true
unfolding exists
exists-cons_self k m objects = rw (same_kind_self k, eq_refl m.namespace, eq_refl m.name) refl

exists-cons :
    (k : Kind) (ns name : String) (o : Kind × Meta) (objects : List (Kind × Meta))
    → exists k ns name objects ≡ true
    → exists k ns name (o ∷ objects) ≡ true
unfolding exists
exists-cons k ns name o objects h = found (is_object k ns name o) _ h

-- An object exists after its creation, also where that fails since it existed.
pub create_object-makes :
    (o : Object) (c : Cluster)
    → Exists (meta_of o).0 (meta_of o).1.namespace (meta_of o).1.name (create_object o c).1
unfolding create_object
create_object-makes o c =
    elim (Bool-cases (exists (meta_of o).0 (meta_of o).1.namespace (meta_of o).1.name c.objects)) [
      | inl t ↦ rw t t
      | inr f ↦ rw f (exists-cons_self (meta_of o).0 (meta_of o).1 c.objects)
    ]

-- A creation removes no object.
pub create_object-keeps :
    (k : Kind) (ns name : String) (o : Object) (c : Cluster)
    → Exists k ns name c
    → Exists k ns name (create_object o c).1
unfolding create_object
create_object-keeps k ns name o c h =
    elim (Bool-cases (exists (meta_of o).0 (meta_of o).1.namespace (meta_of o).1.name c.objects)) [
      | inl t ↦ rw t h
      | inr f ↦ rw f (exists-cons k ns name (meta_of o) c.objects h)
    ]
