-- ===== src/Orchestrator/Create.antt =====
-- internal/orchestrator/orchestrator.go: `createResources`.
pub mod Services
use virtwork.Base.{
  ℕ, zero, suc, String, Bool, true, false, Option, none, some, List, [], ◌∷◌, Result, ok, err,
  if◌then◌else◌,
}
use virtwork.Base.Assoc.{Assoc, insert}
use virtwork.Config.{Config}
use virtwork.Constants.{label_managed_by, managed_by_value, label_run_id}
use virtwork.Audit.{Auditor, EventRecord, ResourceRecord}
use virtwork.Kube.{Labels, Service}
use virtwork.Kube.Client.{Client}
use virtwork.Workloads.Contract.{Workload}
use virtwork.Resources.{ResourceError, ensure_namespace, create_service}

-- the errors of the creation, with the name in their messages
pub data CreateError : Type 0 where
  ensuring_namespace creating_service : String → ResourceError → CreateError

-- `svc.Labels[constants.LabelRunID] = runID`; no labels are the empty map
abbrev pub with_run_id : String → Service → Service
with_run_id run_id svc = record svc { labels = insert label_run_id run_id svc.labels }

-- the service of a workload that requires one
abbrev pub required_service : Workload → Option Service
required_service w = if w.requires_service then w.service_spec else none

abbrev pub namespace_labels : Labels
namespace_labels = (label_managed_by, managed_by_value) ∷ []

-- `created_text` is the text of the event, which `fmt` formats.
module _ {W : Type 0} (created_text : String → String) (client : Client W) (auditor : Auditor W)
    (cfg : Config) (exec_id : ℕ) (run_id : String) where
  -- the two entries in the audit database, whose errors are only logged
  unfoldable pub record_service : Service → W → W
  record_service svc w =
      let (id, w') =
        auditor.record_resource exec_id
          (record {
            resource_type = "Service";
            resource_name = svc.name;
            resource_namespace = svc.namespace;
          })
          w in
      (auditor.record_event exec_id
        (record {
          vm_id = none;
          workload_id = none;
          event_type = "service_created";
          message = created_text svc.name;
          error_detail = "";
        })
        w').1

  -- the rest of the loop after the creation of a service
  unfoldable pub after_service :
      String
      → Service
      → Option ResourceError × W
      → (W → Result CreateError ℕ × W)
      → Result CreateError ℕ × W
  after_service name svc (some e, w) rest = (err (creating_service name e), w)
  after_service name svc (none, w) rest = rest (record_service svc w)

  -- a round of the loop, with the count so far
  unfoldable pub create_next :
      String
      → Option Service
      → (ℕ → W → Result CreateError ℕ × W)
      → ℕ
      → W
      → Result CreateError ℕ × W
  create_next name none rest services w = rest services w
  create_next name (some svc) rest services w =
      after_service name (with_run_id run_id svc) (create_service client (with_run_id run_id svc) w)
        (λ w'. rest (suc services) w')

  unfoldable pub create_services : Assoc Workload → ℕ → W → Result CreateError ℕ × W
  create_services [] services w = (ok services, w)
  create_services ((name, workload) ∷ instances) services w =
      create_next name (required_service workload) (λ n w'. create_services instances n w') services
        w

  -- what follows on the namespace
  unfoldable pub after_namespace :
      Assoc Workload → Option ResourceError × W → Result CreateError ℕ × W
  after_namespace instances (some e, w) = (err (ensuring_namespace cfg.namespace e), w)
  after_namespace instances (none, w) = create_services instances 0 w

  unfoldable pub create_resources : Assoc Workload → W → Result CreateError ℕ × W
  create_resources instances w =
      after_namespace instances (ensure_namespace client cfg.namespace namespace_labels w)
