-- ===== src/Cleanup/Sweep.antt =====
-- A cleanup that reports no error leaves nothing alive.
use virtwork.Base.{
  String, Bool, true, false, Option, none, some, List, [], ◌∷◌, ◌++◌, Result, ok, err, ◌≡◌, refl,
  In, All, All-In, All-map_of, subst, sym, ◌∙◌,
}
use virtwork.Config.{Config}
use virtwork.Kube.{
  Labels, ApiError, already_exists, not_found, too_many_requests, server_timeout,
  service_unavailable, internal_error, other_error,
}
use virtwork.Kube.Client.{
  Client, Kind, namespace, virtual_machine, service, secret, data_volume, persistent_volume_claim,
  Meta, DeletesSelected, IsGone,
}
use virtwork.Cleanup.{
  CleanupError, Progress, delete_items, delete_kinds, delete_namespace, finish, cleanup_all,
  managed_labels, cleanup_order, CleanupResult, start, after_list, settle, record_deleted,
}

append-nil : {A : Type 0} (xs : List A) (x : A) → xs ++ (x ∷ []) ≡ [] → ⊥
append-nil [] x e = cc
append-nil (y ∷ ys) x e = cc

record_deleted-errors :
    (k : Kind) (name : String) (r : CleanupResult) → (record_deleted k name r).errors ≡ r.errors
unfolding record_deleted
record_deleted-errors virtual_machine name r = refl
record_deleted-errors service name r = refl
record_deleted-errors secret name r = refl
record_deleted-errors data_volume name r = refl
record_deleted-errors persistent_volume_claim name r = refl
record_deleted-errors namespace name r = refl

settle-errors :
    (k : Kind) (name : String) (failure : Option ApiError) (r : CleanupResult)
    → (settle k name failure r).errors ≡ []
    → IsGone failure × (r.errors ≡ [])
unfolding settle
settle-errors k name none r h = (tt, sym (record_deleted-errors k name r) ∙ h)
settle-errors k name (some not_found) r h = (tt, h)
settle-errors k name (some already_exists) r h = absurd (append-nil r.errors _ h)
settle-errors k name (some too_many_requests) r h = absurd (append-nil r.errors _ h)
settle-errors k name (some server_timeout) r h = absurd (append-nil r.errors _ h)
settle-errors k name (some service_unavailable) r h = absurd (append-nil r.errors _ h)
settle-errors k name (some internal_error) r h = absurd (append-nil r.errors _ h)
settle-errors k name (some (other_error e)) r h = absurd (append-nil r.errors _ h)

module _ {W : Type 0} (client : Client W) (cfg : Config) (selector : Labels)
    (law : DeletesSelected client cfg.namespace selector) where
  delete_items-shrinks :
      (k j : Kind) (items : List Meta) (p : Progress W) (x : Meta)
      → In x (law.live j (delete_items client cfg k items p).world)
      → In x (law.live j p.world)
  unfolding delete_items
  delete_items-shrinks k j [] p x h = h
  delete_items-shrinks k j (m ∷ items) p x h =
      law.shrinks j k m.namespace m.name cfg.dry_run p.world x
        (delete_items-shrinks k j items _ x h)

  delete_items-errors :
      (k : Kind) (items : List Meta) (p : Progress W)
      → (delete_items client cfg k items p).result.errors ≡ []
      → p.result.errors ≡ []
  unfolding delete_items
  delete_items-errors k [] p h = h
  delete_items-errors k (m ∷ items) p h =
      (settle-errors k m.name (client.delete k m.namespace m.name cfg.dry_run p.world).0 p.result
        (delete_items-errors k items _ h)).1

  -- a deletion that is no dry run
  removed :
      (k : Kind) (m : Meta) (w : W)
      → cfg.dry_run ≡ false
      → IsGone (client.delete k m.namespace m.name cfg.dry_run w).0
      → ¬ In m (law.live k (client.delete k m.namespace m.name cfg.dry_run w).1)
  removed k m w wet = rw wet (law.ends k m w)

  delete_items-removes :
      (k : Kind) (items : List Meta) (p : Progress W)
      → cfg.dry_run ≡ false
      → (delete_items client cfg k items p).result.errors ≡ []
      → All (λ (m : Meta). ¬ In m (law.live k (delete_items client cfg k items p).world)) items
  unfolding delete_items
  delete_items-removes k [] p wet h = tt
  delete_items-removes k (m ∷ items) p wet h = (
    (λ i.
        removed k m p.world wet
          (settle-errors k m.name _ p.result (delete_items-errors k items _ h)).0
          (delete_items-shrinks k k items _ m i)),
    delete_items-removes k items _ wet h,
  )

  -- no object of the kind is live
  abbrev IsSwept : W → Kind → Type 0
  IsSwept w k = (x : Meta) → ¬ In x (law.live k w)

  -- Without an error, the objects that are live in the end were live before, no object of these kinds
  -- is live, and there was no error before.
  abbrev Sweeps : Progress W → List Kind → Progress W × Option CleanupError → Type 0
  Sweeps p kinds (q, some e) = Unit
  Sweeps p kinds (q, none) =
      q.result.errors ≡ []
      → (p.result.errors ≡ [])
        × All (λ (k : Kind). IsSwept q.world k) kinds
        × ((j : Kind) (x : Meta) → In x (law.live j q.world) → In x (law.live j p.world))

  abbrev IsShown : Kind → Result ApiError (List Meta) × W → Type 0
  IsShown k (err e, w) = Unit
  IsShown k (ok items, w) = (x : Meta) → In x (law.live k w) → In x items

  step :
      (k : Kind) (kinds : List Kind) (p q : Progress W) (r : Progress W × Option CleanupError)
      → (q.result.errors ≡ [] → (p.result.errors ≡ []) × IsSwept q.world k)
      → ((j : Kind) (x : Meta) → In x (law.live j q.world) → In x (law.live j p.world))
      → Sweeps q kinds r
      → Sweeps p (k ∷ kinds) r
  step k kinds p q (q', some e) one shrink rest = tt
  step k kinds p q (q', none) one shrink rest = λ h.
      let (clean, swept, fewer) = rest h in
      let (before, gone) = one clean in
      (before, (λ x i. gone x (fewer k x i), swept), λ j x i. shrink j x (fewer j x i))

  after_list-Sweeps :
      (k : Kind) (kinds : List Kind) (rest : Progress W → Progress W × Option CleanupError)
      (r : Result ApiError (List Meta) × W) (p : Progress W)
      → cfg.dry_run ≡ false
      → IsShown k r
      → ((j : Kind) → law.live j r.1 ≡ law.live j p.world)
      → ((q : Progress W) → Sweeps q kinds (rest q))
      → Sweeps p (k ∷ kinds) (after_list client cfg k rest r p)
  unfolding after_list
  after_list-Sweeps k kinds rest (err e, w) p wet shown same h = tt
  after_list-Sweeps k kinds rest (ok items, w) p wet shown same h =
      let p₁ : Progress W = record p { world = w } in
      let q : Progress W = delete_items client cfg k items p₁ in
      step k kinds p q (rest q)
        (λ clean. (
          delete_items-errors k items p₁ clean,
          λ x i.
              All-In (λ (m : Meta). ¬ In m (law.live k q.world)) items x
                (delete_items-removes k items p₁ wet clean)
                (shown x (delete_items-shrinks k k items p₁ x i)) i,
        ))
        (λ j x i. subst (λ l. In x l) (same j) (delete_items-shrinks k j items p₁ x i)) (h q)

  shown : (k : Kind) (w : W) → IsShown k (client.list k cfg.namespace selector w)
  shown k w =
      is_shown (client.list k cfg.namespace selector w)
        (λ items e x i. law.shows k w items e x (subst (λ l. In x l) (law.keeps k k w) i))
    where
      is_shown :
          (r : Result ApiError (List Meta) × W)
          → ((items : List Meta) → r.0 ≡ ok items → (x : Meta) → In x (law.live k r.1) → In x items)
          → IsShown k r
      is_shown (err e, v) h = tt
      is_shown (ok items, v) h = h items refl

  delete_kinds-Sweeps :
      (kinds : List Kind) (p : Progress W)
      → cfg.dry_run ≡ false
      → Sweeps p kinds (delete_kinds client cfg selector kinds p)
  unfolding delete_kinds
  delete_kinds-Sweeps [] p wet = λ h. (h, tt, λ j x i. i)
  delete_kinds-Sweeps (k ∷ kinds) p wet =
      after_list-Sweeps k kinds _ (client.list k cfg.namespace selector p.world) p wet
        (shown k p.world) (λ j. law.keeps j k p.world) (λ q. delete_kinds-Sweeps kinds q wet)

  -- the namespace is deleted last
  delete_namespace-shrinks :
      (asked : Bool) (r : CleanupResult) (w : W) (k : Kind)
      → IsSwept w k
      → IsSwept (delete_namespace client cfg asked r w).1 k
  unfolding delete_namespace
  delete_namespace-shrinks false r w k h = h
  delete_namespace-shrinks true r w k h =
      λ x i. h x (law.shrinks k namespace "" cfg.namespace false w x i)

  delete_namespace-errors :
      (asked : Bool) (r : CleanupResult) (w : W)
      → (delete_namespace client cfg asked r w).0.errors ≡ []
      → r.errors ≡ []
  unfolding delete_namespace
  delete_namespace-errors false r w h = h
  delete_namespace-errors true r w h = (settle-errors namespace cfg.namespace _ r h).1

  finish-Sweeps :
      (kinds : List Kind) (asked : Bool) (p : Progress W) (r : Progress W × Option CleanupError)
      → Sweeps p kinds r
      → (finish client cfg asked r).0.1 ≡ none
      → (finish client cfg asked r).0.0.errors ≡ []
      → All (λ (k : Kind). IsSwept (finish client cfg asked r).1 k) kinds
  unfolding finish
  finish-Sweeps kinds asked p (q, some e) s n h = cc
  finish-Sweeps kinds asked p (q, none) s n h =
      let (clean, swept, fewer) = s (delete_namespace-errors asked _ q.world h) in
      All-map_of kinds (λ k. delete_namespace-shrinks asked _ q.world k) swept

module _ {W : Type 0} (client : Client W) (cfg : Config) where
  -- Where a list shows at least the objects that are live, which have no deletion timestamp, and a
  -- deletion makes none live and ends the life of its object if it is accepted or does not find it:
  -- after a cleanup that is no dry run, returns nil and reports no errors, no virtual machine,
  -- service, secret, data volume or claim in the namespace that carries the labels of the cleanup is
  -- live: each is gone, or is being deleted.
  pub cleanup_all-sweeps :
      (asked : Bool) (run_id : String) (w : W)
      → (law : DeletesSelected client cfg.namespace (managed_labels run_id)) → cfg.dry_run ≡ false
      → (cleanup_all client cfg asked run_id w).0.1 ≡ none
      → (cleanup_all client cfg asked run_id w).0.0.errors ≡ []
      → All
          (λ (k : Kind). (x : Meta) → ¬ In x (law.live k (cleanup_all client cfg asked run_id w).1))
          cleanup_order
  unfolding cleanup_all
  cleanup_all-sweeps asked run_id w law wet n h =
      finish-Sweeps client cfg (managed_labels run_id) law cleanup_order asked (start w) _
        (delete_kinds-Sweeps client cfg (managed_labels run_id) law cleanup_order (start w) wet) n h
