-- ===== src/Kube/Memory/Patches.antt =====
-- The cluster in memory keeps what the API promises of the labels of a namespace.
use virtwork.Base.{
  String, Bool, true, false, Option, none, some, List, [], ◌∷◌, ◌++◌, Result, ok, err, ◌≡◌, refl,
  ap, ◌∙◌, sym, ◌==◌, ◌&&◌, ◌||◌, Bool-cases, inl, inr, eq_iff, eq_refl,
}
use virtwork.Base.Assoc.{lookup, keys}
use virtwork.Kube.{Labels, ApiError, already_exists}
use virtwork.Kube.Client.{Kind, namespace, Meta, a_namespace, merged, LabelsNamespace}
use virtwork.Kube.Memory.{
  Cluster, same_kind, exists, create_object, labels_of, put_label, merge_keys, merge_labels,
  patch_objects, patched, memory,
}

unfoldable has : String → List String → Bool
has j [] = false
has j (k ∷ ks) = (j == k) || has j ks

abbrev keep : Bool → Option String → Option String
keep true o = o
keep false o = none

keep-none : (b : Bool) (o : Option String) → none ≡ o → keep b o ≡ none
keep-none true o e = sym e
keep-none false o e = refl

lookup-put_label :
    (j k : String) (o x : Option String) (b : Bool) (rest : Labels)
    → lookup j rest ≡ keep b x
    → (j ≡ k → o ≡ x)
    → lookup j (put_label k o rest) ≡ keep ((j == k) || b) x
unfolding lookup
lookup-put_label j k none x b rest h e = elim (Bool-cases (j == k)) [
  | inl t ↦ rw t (h ∙ keep-none b x (e ((eq_iff j k).0 t)) ∙ e ((eq_iff j k).0 t))
  | inr f ↦ rw f h
]
lookup-put_label j k (some v) x b rest h e = elim (Bool-cases (j == k)) [
  | inl t ↦ rw t (e ((eq_iff j k).0 t))
  | inr f ↦ rw f h
]

or-false : (a b : Bool) → (a || b) ≡ false → (a ≡ false) × (b ≡ false)
or-false true b h = absurd (cc)
or-false false b h = (refl, h)

-- a key that is in neither list has no value
has-keys :
    (j : String) (m : Labels) (ks : List String)
    → has j (keys m ++ ks) ≡ false
    → (lookup j m ≡ none) × (has j ks ≡ false)
unfolding has lookup
has-keys j [] ks h = (refl, h)
has-keys j ((k, v) ∷ m) ks h =
    let (f, g) = or-false (j == k) (has j (keys m ++ ks)) h in
    let (absent, rest) = has-keys j m ks g in (rw f absent, rest)

has-none : (j : String) (m : Labels) → has j (keys m) ≡ false → lookup j m ≡ none
unfolding has lookup
has-none j [] h = refl
has-none j ((k, v) ∷ m) h =
    let (f, g) = or-false (j == k) (has j (keys m)) h in rw f (has-none j m g)

merged-none :
    (base modified current : Option String)
    → modified ≡ none
    → current ≡ none
    → merged base modified current ≡ none
merged-none none none current e c = c
merged-none (some u) none current e c = refl
merged-none base (some v) current e c = absurd (cc)

module _ (base modified current : Labels) where
  abbrev value : String → Option String
  value k = merged (lookup k base) (lookup k modified) (lookup k current)

  lookup-merge_keys :
      (j : String) (ks : List String)
      → lookup j (merge_keys base modified current ks) ≡ keep (has j ks) (value j)
  unfolding merge_keys has lookup
  lookup-merge_keys j [] = refl
  lookup-merge_keys j (k ∷ ks) =
      lookup-put_label j k (value k) (value j) (has j ks) (merge_keys base modified current ks)
        (lookup-merge_keys j ks) (λ e. ap value (sym e))

  lookup-merge_labels : (j : String) → lookup j (merge_labels base modified current) ≡ value j
  lookup-merge_labels j = elim (Bool-cases (has j (keys modified ++ keys current))) [
    | inl t ↦ lookup-merge_keys j (keys modified ++ keys current) ∙ ap (λ b. keep b (value j)) t
    | inr f ↦
        let (absent, rest) = has-keys j modified (keys current) f in
        lookup-merge_keys j (keys modified ++ keys current)
        ∙ ap (λ b. keep b (value j)) f
        ∙ sym (
            merged-none (lookup j base) (lookup j modified) (lookup j current) absent
              (has-none j current rest))
  ]

abbrev label_in : String → Result ApiError Labels → Option String
label_in k (ok labels) = lookup k labels
label_in k (err e) = none

abbrev merged_in : (base modified : Labels) → String → Result ApiError Labels → Option String
merged_in base modified k (ok labels) = merged (lookup k base) (lookup k modified) (lookup k labels)
merged_in base modified k (err e) = none

module _ (name : String) where
  labels_of-patch_objects :
      (base modified : Labels) (objects : List (Kind × Meta)) (j : String)
      → label_in j (labels_of name (patch_objects name base modified objects))
        ≡ merged_in base modified j (labels_of name objects)
  unfolding labels_of patch_objects
  labels_of-patch_objects base modified [] j = refl
  labels_of-patch_objects base modified ((k, m) ∷ objects) j =
      elim (Bool-cases (same_kind k namespace && (m.name == name))) [
        | inl t ↦ rw t (rw t (lookup-merge_labels base modified m.labels j))
        | inr f ↦ rw f (rw f (labels_of-patch_objects base modified objects j))
      ]

  abbrev label : String → Cluster → Option String
  label k c = label_in k (labels_of name c.objects)

  made :
      (labels : Labels) (c : Cluster) (k : String)
      → (create_object (a_namespace name labels) c).0 ≡ none
      → label k (create_object (a_namespace name labels) c).1 ≡ lookup k labels
  unfolding create_object labels_of
  made labels c k = elim (Bool-cases (exists namespace "" name c.objects)) [
    | inl t ↦ rw t (λ e. absurd (cc))
    | inr f ↦ rw f (λ e. rw (eq_refl name) refl)
  ]

  refused :
      (labels : Labels) (c : Cluster) (k : String)
      → (create_object (a_namespace name labels) c).0 ≡ some already_exists
      → label k (create_object (a_namespace name labels) c).1 ≡ label k c
  unfolding create_object labels_of
  refused labels c k = elim (Bool-cases (exists namespace "" name c.objects)) [
    | inl t ↦ rw t (λ e. refl)
    | inr f ↦ rw f (λ e. absurd (cc))
  ]

  patched-merged :
      (base modified : Labels) (c : Cluster) (k : String) (r : Result ApiError Labels)
      → r ≡ labels_of name c.objects
      → (patched name base modified c r).0 ≡ none
      → label k (patched name base modified c r).1
        ≡ merged (lookup k base) (lookup k modified) (label k c)
  patched-merged base modified c k (err e) h n = absurd (cc)
  patched-merged base modified c k (ok labels) h n =
      labels_of-patch_objects base modified c.objects k
      ∙ ap (merged_in base modified k) (sym h)
      ∙ ap (λ r. merged (lookup k base) (lookup k modified) (label_in k r)) h

  pub memory_labels : LabelsNamespace memory name
  memory_labels = record {
    label = label;
    makes = λ labels c e k. made labels c k e;
    refuses = λ labels c e k. refused labels c k e;
    reads = λ labels c e k. (ap (label_in k) e, refl);
    merges =
        λ base modified c e k. patched-merged base modified c k (labels_of name c.objects) refl e;
  }
