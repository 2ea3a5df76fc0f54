-- ===== src/Cleanup/Counts.antt =====
-- The counts of a cleanup's result, and the errors that it lists.
use virtwork.Base.{
  String, Bool, true, false, Option, none, some, List, [], ◌∷◌, Result, ok, err, ◌≡◌, refl, All,
  All-append, arith, Bool-cases, inl, inr, length, length-append,
}
use virtwork.Config.{Config}
use virtwork.Kube.{Labels, ApiError}
use virtwork.Kube.Client.{
  Client, Kind, namespace, virtual_machine, service, secret, data_volume, persistent_volume_claim,
  Meta,
}
use virtwork.Vm.Retry.{is_not_found}
use virtwork.Cleanup.{
  CleanupError, Progress, delete_items, delete_kinds, delete_namespace, finish, cleanup_all,
  managed_labels, cleanup_order, listing, deleting, CleanupResult, start, after_list, settle,
  record_deleted,
}

-- an error of a deletion that did not find the object is not listed
abbrev pub IsReported : CleanupError → Type 0
IsReported (listing k e) = ⊥
IsReported (deleting k name e) = is_not_found e ≡ false

-- Each count is the number of the names, and the errors are those of deletions.
abbrev pub IsAccounted : CleanupResult → Type 0
IsAccounted r =
    (r.vms_deleted ≡ length r.deleted_vm_names)
    × (r.services_deleted ≡ length r.deleted_service_names)
    × (r.secrets_deleted ≡ length r.deleted_secret_names)
    × (r.dvs_deleted ≡ length r.deleted_dv_names)
    × (r.pvcs_deleted ≡ length r.deleted_pvc_names)
    × All IsReported r.errors

-- the run stops early only at a list that failed
abbrev pub IsListing : Option CleanupError → Type 0
IsListing none = Unit
IsListing (some (listing k e)) = Unit
IsListing (some (deleting k name e)) = ⊥

record_deleted-IsAccounted :
    (k : Kind) (name : String) (r : CleanupResult)
    → IsAccounted r
    → IsAccounted (record_deleted k name r)
unfolding record_deleted
record_deleted-IsAccounted virtual_machine name r (v, s, c, d, p, e) =
    (omega (arith, length-append r.deleted_vm_names (name ∷ [])), s, c, d, p, e)
record_deleted-IsAccounted service name r (v, s, c, d, p, e) =
    (v, omega (arith, length-append r.deleted_service_names (name ∷ [])), c, d, p, e)
record_deleted-IsAccounted secret name r (v, s, c, d, p, e) =
    (v, s, omega (arith, length-append r.deleted_secret_names (name ∷ [])), d, p, e)
record_deleted-IsAccounted data_volume name r (v, s, c, d, p, e) =
    (v, s, c, omega (arith, length-append r.deleted_dv_names (name ∷ [])), p, e)
record_deleted-IsAccounted persistent_volume_claim name r (v, s, c, d, p, e) =
    (v, s, c, d, omega (arith, length-append r.deleted_pvc_names (name ∷ [])), e)
record_deleted-IsAccounted namespace name r h = h

settle-IsAccounted :
    (k : Kind) (name : String) (failure : Option ApiError) (r : CleanupResult)
    → IsAccounted r
    → IsAccounted (settle k name failure r)
unfolding settle
settle-IsAccounted k name none r h = record_deleted-IsAccounted k name r h
settle-IsAccounted k name (some e) r (v, s, c, d, p, es) = elim (Bool-cases (is_not_found e)) [
  | inl t ↦ rw t (v, s, c, d, p, es)
  | inr f ↦ rw f (v, s, c, d, p, All-append IsReported r.errors (deleting k name e ∷ []) es (f, tt))
]

module _ {W : Type 0} (client : Client W) (cfg : Config) where
  delete_items-IsAccounted :
      (k : Kind) (items : List Meta) (p : Progress W)
      → IsAccounted p.result
      → IsAccounted (delete_items client cfg k items p).result
  unfolding delete_items
  delete_items-IsAccounted k [] p h = h
  delete_items-IsAccounted k (m ∷ items) p h =
      delete_items-IsAccounted k items _ (settle-IsAccounted k m.name _ p.result h)

  after_list-IsAccounted :
      (k : Kind) (rest : Progress W → Progress W × Option CleanupError)
      (r : Result ApiError (List Meta) × W) (p : Progress W)
      → IsAccounted p.result
      → ((q : Progress W)
          → IsAccounted q.result
          → IsAccounted (rest q).0.result × IsListing (rest q).1)
      → IsAccounted (after_list client cfg k rest r p).0.result
        × IsListing (after_list client cfg k rest r p).1
  unfolding after_list
  after_list-IsAccounted k rest (err e, w) p a h = (a, tt)
  after_list-IsAccounted k rest (ok items, w) p a h =
      h _ (delete_items-IsAccounted k items (record p { world = w }) a)

  delete_kinds-IsAccounted :
      (selector : Labels) (kinds : List Kind) (p : Progress W)
      → IsAccounted p.result
      → IsAccounted (delete_kinds client cfg selector kinds p).0.result
        × IsListing (delete_kinds client cfg selector kinds p).1
  unfolding delete_kinds
  delete_kinds-IsAccounted selector [] p h = (h, tt)
  delete_kinds-IsAccounted selector (k ∷ kinds) p h =
      after_list-IsAccounted k _ (client.list k cfg.namespace selector p.world) p h
        (λ q. delete_kinds-IsAccounted selector kinds q)

  delete_namespace-IsAccounted :
      (asked : Bool) (r : CleanupResult) (w : W)
      → IsAccounted r
      → IsAccounted (delete_namespace client cfg asked r w).0
  unfolding delete_namespace
  delete_namespace-IsAccounted false r w h = h
  delete_namespace-IsAccounted true r w h = settle-IsAccounted namespace cfg.namespace _ r h

  finish-IsAccounted :
      (asked : Bool) (r : Progress W × Option CleanupError)
      → IsAccounted r.0.result
      → IsListing r.1
      → IsAccounted (finish client cfg asked r).0.0 × IsListing (finish client cfg asked r).0.1
  unfolding finish
  finish-IsAccounted asked (p, some e) h l = (h, l)
  finish-IsAccounted asked (p, none) h l = (delete_namespace-IsAccounted asked _ p.world h, tt)

  -- Whatever the client answers: each count of the result is the number of the names that it lists
  -- for that kind, each listed error is of a deletion that failed for another reason than that the
  -- object was not found, and the error that is returned, if any, is of a list: no failed deletion
  -- ends the cleanup.
  pub cleanup_all-IsAccounted :
      (asked : Bool) (run_id : String) (w : W)
      → IsAccounted (cleanup_all client cfg asked run_id w).0.0
        × IsListing (cleanup_all client cfg asked run_id w).0.1
  unfolding cleanup_all
  cleanup_all-IsAccounted asked run_id w =
      let (a, l) =
        delete_kinds-IsAccounted (managed_labels run_id) cleanup_order (start w)
          (refl, refl, refl, refl, refl, tt) in
      finish-IsAccounted asked _ a l
