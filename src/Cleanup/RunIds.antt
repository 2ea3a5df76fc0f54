-- ===== src/Cleanup/RunIds.antt =====
-- The run ids that a cleanup reports.
use virtwork.Base.{
  String, Bool, true, false, Option, none, some, List, [], ◌∷◌, Result, ok, err, ◌≡◌, ◌≢◌, refl,
  All, In, Distinct, Bool-cases, text-cases, inl, inr, ◌⊎◌, if◌then◌else◌, eq_iff, ne→beq, subst,
  sym, ◌∙◌,
}
use virtwork.Base.Assoc.{lookup}
use virtwork.Constants.{label_run_id, label_managed_by, managed_by_value}
use virtwork.Config.{Config}
use virtwork.Kube.{Labels, ApiError}
use virtwork.Kube.Client.{
  Client, Kind, namespace, virtual_machine, service, secret, data_volume, persistent_volume_claim,
  Meta, Matches, ListsSelected, AreSelected,
}
use virtwork.Vm.Retry.{is_not_found}
use virtwork.Cleanup.{
  CleanupError, Progress, delete_items, delete_kinds, delete_namespace, finish, cleanup_all,
  managed_labels, cleanup_order, CleanupResult, start, after_list, settle, record_deleted,
  add_to_set, add_run_id, collect_run_id,
}

add_to_set-In : (x id : String) (set : List String) → In x (add_to_set id set) → (x ≡ id) ⊎ In x set
unfolding add_to_set
add_to_set-In x id [] h = h
add_to_set-In x id (y ∷ set) h = elim (text-cases id y) [
  | inl e ↦
      inr (subst (λ b. In x (if b then y ∷ set else y ∷ add_to_set id set)) ((eq_iff id y).1 e) h)
  | inr n ↦
      later (subst (λ b. In x (if b then y ∷ set else y ∷ add_to_set id set)) (ne→beq id y n) h)
        (add_to_set-In x id set)
]
  where
    later :
        In x (y ∷ add_to_set id set)
        → (In x (add_to_set id set) → (x ≡ id) ⊎ In x set)
        → (x ≡ id) ⊎ In x (y ∷ set)
    later (inl e) f = inr (inl e)
    later (inr i) f = elim (f i) [ inl e ↦ inl e | inr j ↦ inr (inr j) ]

add_to_set-Distinct :
    (id : String) (set : List String) → Distinct set → Distinct (add_to_set id set)
unfolding add_to_set
add_to_set-Distinct id [] d = ((λ i. i), tt)
add_to_set-Distinct id (y ∷ set) (fresh, d) = elim (text-cases id y) [
  | inl e ↦ rw ((eq_iff id y).1 e) (fresh, d)
  | inr n ↦ rw (ne→beq id y n) (
    (λ i. elim (add_to_set-In y id set i) [ inl e ↦ n (sym e) | inr j ↦ fresh j ]),
    add_to_set-Distinct id set d,
  )
]

add_to_set-All :
    (Q : String → Type 0) (id : String) (set : List String)
    → Q id
    → All Q set
    → All Q (add_to_set id set)
unfolding add_to_set
add_to_set-All Q id [] q h = (q, tt)
add_to_set-All Q id (y ∷ set) q (h, hs) = elim (text-cases id y) [
  | inl e ↦ rw ((eq_iff id y).1 e) (h, hs)
  | inr n ↦ rw (ne→beq id y n) (h, add_to_set-All Q id set q hs)
]

-- A run id that is not empty, and that is the one asked for if one is.
abbrev pub IsReportedId : String → String → Type 0
IsReportedId run_id id = (id ≢ "") × (run_id ≢ "" → id ≡ run_id)

abbrev pub AreRunIds : String → List String → Type 0
AreRunIds run_id ids = Distinct ids × All (IsReportedId run_id) ids

-- labels that the selector finds carry the run id
managed_labels-run_id :
    (run_id : String) (labels : Labels)
    → Matches (managed_labels run_id) labels
    → run_id ≢ ""
    → lookup label_run_id labels ≡ some run_id
unfolding managed_labels
managed_labels-run_id run_id labels m n =
    (subst
      (λ b.
        Matches
          (if b
            then (label_managed_by, managed_by_value) ∷ []
            else (label_managed_by, managed_by_value) ∷ (label_run_id, run_id) ∷ [])
          labels)
      (ne→beq run_id "" n) m).1.0

some-injective : {a b : String} → ◌≡◌ {A = Option String} (some a) (some b) → a ≡ b
some-injective e = cc

add_run_id-AreRunIds :
    (run_id : String) (label : Option String) (set : List String)
    → (run_id ≢ "" → label ≡ some run_id)
    → AreRunIds run_id set
    → AreRunIds run_id (add_run_id label set)
unfolding add_run_id
add_run_id-AreRunIds run_id none set h a = a
add_run_id-AreRunIds run_id (some id) set h (d, a) = elim (text-cases id "") [
  | inl z ↦ rw ((eq_iff id "").1 z) (d, a)
  | inr n ↦ rw (ne→beq id "" n) (
    add_to_set-Distinct id set d,
    add_to_set-All (IsReportedId run_id) id set (n, λ r. some-injective (h r)) a,
  )
]

collect_run_id-AreRunIds :
    (run_id : String) (labels : Labels) (set : List String)
    → Matches (managed_labels run_id) labels
    → AreRunIds run_id set
    → AreRunIds run_id (collect_run_id labels set)
unfolding collect_run_id
collect_run_id-AreRunIds run_id labels set m a =
    add_run_id-AreRunIds run_id (lookup label_run_id labels) set
      (managed_labels-run_id run_id labels m) a

module _ {W : Type 0} (client : Client W) (cfg : Config) (run_id : String) where
  delete_items-AreRunIds :
      (k : Kind) (items : List Meta) (p : Progress W)
      → All
          (λ (m : Meta). (m.namespace ≡ cfg.namespace) × Matches (managed_labels run_id) m.labels)
          items
      → AreRunIds run_id p.run_id_set
      → AreRunIds run_id (delete_items client cfg k items p).run_id_set
  unfolding delete_items
  delete_items-AreRunIds k [] p h i = i
  delete_items-AreRunIds k (m ∷ items) p ((n, s), h) i =
      delete_items-AreRunIds k items _ h (collect_run_id-AreRunIds run_id m.labels p.run_id_set s i)

  after_list-AreRunIds :
      (k : Kind) (rest : Progress W → Progress W × Option CleanupError)
      (r : Result ApiError (List Meta) × W) (p : Progress W)
      → AreSelected cfg.namespace (managed_labels run_id) r.0
      → AreRunIds run_id p.run_id_set
      → ((q : Progress W) → AreRunIds run_id q.run_id_set → AreRunIds run_id (rest q).0.run_id_set)
      → AreRunIds run_id (after_list client cfg k rest r p).0.run_id_set
  unfolding after_list
  after_list-AreRunIds k rest (err e, w) p s i h = i
  after_list-AreRunIds k rest (ok items, w) p s i h =
      h _ (delete_items-AreRunIds k items (record p { world = w }) s i)

  delete_kinds-AreRunIds :
      ListsSelected client
      → (kinds : List Kind) (p : Progress W) → AreRunIds run_id p.run_id_set
      → AreRunIds run_id (delete_kinds client cfg (managed_labels run_id) kinds p).0.run_id_set
  unfolding delete_kinds
  delete_kinds-AreRunIds law [] p i = i
  delete_kinds-AreRunIds law (k ∷ kinds) p i =
      after_list-AreRunIds k _ (client.list k cfg.namespace (managed_labels run_id) p.world) p
        (law.selected k cfg.namespace (managed_labels run_id) p.world) i
        (λ q. delete_kinds-AreRunIds law kinds q)

  -- the result lists the run ids of the set, or none where a list failed
  record_deleted-run_ids :
      (k : Kind) (name : String) (r : CleanupResult) → (record_deleted k name r).run_ids ≡ r.run_ids
  unfolding record_deleted
  record_deleted-run_ids virtual_machine name r = refl
  record_deleted-run_ids service name r = refl
  record_deleted-run_ids secret name r = refl
  record_deleted-run_ids data_volume name r = refl
  record_deleted-run_ids persistent_volume_claim name r = refl
  record_deleted-run_ids namespace name r = refl

  settle-run_ids :
      (k : Kind) (name : String) (failure : Option ApiError) (r : CleanupResult)
      → (settle k name failure r).run_ids ≡ r.run_ids
  unfolding settle
  settle-run_ids k name none r = record_deleted-run_ids k name r
  settle-run_ids k name (some e) r = elim (Bool-cases (is_not_found e)) [
    | inl t ↦ rw t refl
    | inr f ↦ rw f refl
  ]

  delete_items-run_ids :
      (k : Kind) (items : List Meta) (p : Progress W)
      → (delete_items client cfg k items p).result.run_ids ≡ p.result.run_ids
  unfolding delete_items
  delete_items-run_ids k [] p = refl
  delete_items-run_ids k (m ∷ items) p =
      delete_items-run_ids k items _ ∙ settle-run_ids k m.name _ p.result

  after_list-run_ids :
      (k : Kind) (rest : Progress W → Progress W × Option CleanupError)
      (r : Result ApiError (List Meta) × W) (p : Progress W)
      → ((q : Progress W) → (rest q).0.result.run_ids ≡ q.result.run_ids)
      → (after_list client cfg k rest r p).0.result.run_ids ≡ p.result.run_ids
  unfolding after_list
  after_list-run_ids k rest (err e, w) p h = refl
  after_list-run_ids k rest (ok items, w) p h =
      h _ ∙ delete_items-run_ids k items (record p { world = w })

  delete_kinds-run_ids :
      (kinds : List Kind) (p : Progress W)
      → (delete_kinds client cfg (managed_labels run_id) kinds p).0.result.run_ids
        ≡ p.result.run_ids
  unfolding delete_kinds
  delete_kinds-run_ids [] p = refl
  delete_kinds-run_ids (k ∷ kinds) p =
      after_list-run_ids k _ (client.list k cfg.namespace (managed_labels run_id) p.world) p
        (λ q. delete_kinds-run_ids kinds q)

  delete_namespace-run_ids :
      (asked : Bool) (r : CleanupResult) (w : W)
      → (delete_namespace client cfg asked r w).0.run_ids ≡ r.run_ids
  unfolding delete_namespace
  delete_namespace-run_ids false r w = refl
  delete_namespace-run_ids true r w = settle-run_ids namespace cfg.namespace _ r

  finish-AreRunIds :
      (asked : Bool) (r : Progress W × Option CleanupError)
      → AreRunIds run_id r.0.result.run_ids
      → AreRunIds run_id r.0.run_id_set
      → AreRunIds run_id (finish client cfg asked r).0.0.run_ids
  unfolding finish
  finish-AreRunIds asked (p, some e) h i = h
  finish-AreRunIds asked (p, none) h i =
      subst (AreRunIds run_id) (sym (delete_namespace-run_ids asked _ p.world)) i

  -- Where a list returns only what its options select: the run ids of the result are distinct and not
  -- empty, and all of them are the run id that the cleanup was asked for, if it was asked for one.
  pub cleanup_all-AreRunIds :
      (asked : Bool) (w : W)
      → ListsSelected client
      → AreRunIds run_id (cleanup_all client cfg asked run_id w).0.0.run_ids
  unfolding cleanup_all
  cleanup_all-AreRunIds asked w law =
      finish-AreRunIds asked _
        (subst (AreRunIds run_id) (sym (delete_kinds-run_ids cleanup_order (start w))) (tt, tt))
        (delete_kinds-AreRunIds law cleanup_order (start w) (tt, tt))
