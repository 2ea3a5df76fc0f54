-- ===== src/Orchestrator/Execute.antt =====
-- internal/orchestrator/cleanup.go: `Preview`, `Execute` and `markDeletionsInAudit`.
pub mod Scope
use virtwork.Base.{ℕ, String, Bool, true, false, Option, none, some, List, [], ◌∷◌, Result, ok, err}
use virtwork.Config.{Config}
use virtwork.Audit.{Auditor, EventRecord}
use virtwork.Kube.Client.{Client}
use virtwork.Cleanup.{CleanupError, CleanupResult, CleanupPreview, cleanup_all, preview_cleanup}

-- The texts of the two events, which `fmt` formats, are arguments.
module _ {W : Type 0} (started : String → String → String) (completed : CleanupResult → String)
    (client : Client W) (auditor : Auditor W) (cfg : Config) where
  unfoldable pub preview : String → W → Result CleanupError CleanupPreview × W
  preview run_id w = preview_cleanup client cfg run_id w

  abbrev pub event : String → String → EventRecord
  event type message = record {
    vm_id = none;
    workload_id = none;
    event_type = type;
    message = message;
    error_detail = "";
  }

  -- `len(names) > 0 && len(result.RunIDs) > 0`
  unfoldable pub mark_vms : (names run_ids : List String) → W → W
  mark_vms [] run_ids w = w
  mark_vms (n ∷ names) [] w = w
  mark_vms (n ∷ names) (r ∷ run_ids) w =
      (auditor.mark_vms_deleted_by_name (n ∷ names) cfg.namespace (r ∷ run_ids) w).1

  unfoldable pub mark_resources : String → (names run_ids : List String) → W → W
  mark_resources type [] run_ids w = w
  mark_resources type (n ∷ names) [] w = w
  mark_resources type (n ∷ names) (r ∷ run_ids) w =
      (auditor.mark_resources_deleted_by_name type (n ∷ names) cfg.namespace (r ∷ run_ids) w).1

  unfoldable pub mark_deletions_in_audit : CleanupResult → W → W
  mark_deletions_in_audit r w =
      mark_resources "PersistentVolumeClaim" r.deleted_pvc_names r.run_ids (
        mark_resources "DataVolume" r.deleted_dv_names r.run_ids (
          mark_resources "Secret" r.deleted_secret_names r.run_ids (
            mark_resources "Service" r.deleted_service_names r.run_ids
              (mark_vms r.deleted_vm_names r.run_ids w))))

  unfoldable pub link_runs : ℕ → List String → W → W
  link_runs exec_id [] w = w
  link_runs exec_id (r ∷ run_ids) w = (auditor.link_cleanup_to_runs exec_id (r ∷ run_ids) w).1

  unfoldable pub record_counts : ℕ → CleanupResult → W → W
  record_counts exec_id r w =
      (auditor.record_cleanup_counts exec_id r.vms_deleted r.services_deleted r.secrets_deleted
        r.dvs_deleted r.pvcs_deleted r.namespace_deleted w).1

  -- what follows on the cleanup
  unfoldable pub after_cleanup :
      ℕ → (CleanupResult × Option CleanupError) × W → Result CleanupError CleanupResult × W
  after_cleanup exec_id ((r, some e), w) = (err e, w)
  after_cleanup exec_id ((r, none), w) = (
    ok r,
    (auditor.record_event exec_id (event "cleanup_completed" (completed r))
        (record_counts exec_id r (mark_deletions_in_audit r (link_runs exec_id r.run_ids w)))).1,
  )

  unfoldable pub execute : ℕ → Bool → String → W → Result CleanupError CleanupResult × W
  execute exec_id asked run_id w = after_cleanup exec_id (
      cleanup_all client cfg asked run_id
        (auditor.record_event exec_id (event "cleanup_started" (started cfg.namespace run_id)) w).1)
