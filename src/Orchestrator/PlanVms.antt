-- ===== src/Orchestrator/PlanVms.antt =====
-- The loop of `planVMs` of internal/orchestrator/orchestrator.go over the workloads of a run.
use Prim.Native.String
use virtwork.Base.{
  ℕ, String, Bool, true, false, none, some, List, [], ◌∷◌, ◌++◌, map, Result, ok, err, then_ok,
  wrap, if◌then◌else◌, length, ltb,
}
use virtwork.Base.Int.{ℤ}
use virtwork.Base.Assoc.{Assoc, insert}
use virtwork.Config.{Config, WorkloadConfig}
use virtwork.Kube.{DataVolumeTemplate}
use virtwork.Audit.{Auditor, EventRecord, WorkloadRecord}
use virtwork.Workloads.Contract.{Workload}
use virtwork.Workloads.Registry.{Registry, RegistryOption, get, validate_params}
use virtwork.Orchestrator.{VmPlan}
use virtwork.Orchestrator.Plan.{
  PlanError, invalid_params, creating_workload, building_templates, workload_config, is_disabled,
  plan_workload,
}

-- what the loop collects
pub record Planned : Type 0 where
  pub plans : List VmPlan
  pub vm_names : List String
  pub workload_instances : Assoc Workload
  pub audit_workload_ids : Assoc ℕ

abbrev pub nothing_planned : Planned
nothing_planned = record {
  plans = [];
  vm_names = [];
  workload_instances = [];
  audit_workload_ids = [];
}

abbrev pub is_empty {ℓ} : {A : Type ℓ} → List A → Bool
is_empty [] = true
is_empty (x ∷ xs) = false

abbrev pub plan_names : List VmPlan → List String
plan_names plans = map (λ (p : VmPlan). p.vm_name) plans

-- the continuation of a step, which an error ends
unfoldable pub and_then :
    {W : Type 0}
    → Result PlanError Planned × W
    → (Planned → W → Result PlanError Planned × W)
    → Result PlanError Planned × W
and_then (err e, w) rest = (err e, w)
and_then (ok p, w) rest = rest p w

-- `quote` is the verb %q of `fmt`.
module _ {W : Type 0} (quote : String → String) (auditor : Auditor W) (cfg : Config) (exec_id : ℕ)
    (run_id : String) (vm_count_flag : ℤ) (registry : Registry)
    (options : List RegistryOption) where
  unfoldable pub check_workload : String → WorkloadConfig → Result PlanError Workload
  check_workload name c =
      if is_empty c.params then created else elim (validate_params registry name c.params) [
        | some e ↦ err (invalid_params name e)
        | none ↦ created
      ]
    where
      created : Result PlanError Workload
      created = wrap (creating_workload name) (get registry name c options)

  abbrev workload_record : String → Workload → List DataVolumeTemplate → WorkloadRecord
  workload_record name w dvts = record {
    workload_type = name;
    enabled = true;
    vm_count = w.workload_vm_count;
    cpu_cores = w.vm_resources.res_cpu_cores;
    memory = w.vm_resources.res_memory;
    has_data_disk = ltb 0 (length dvts);
    data_disk_size = cfg.data_disk_size;
    requires_service = w.requires_service;
  }

  abbrev add_plans : Planned → List VmPlan → Planned
  add_plans p plans = record p {
    plans = p.plans ++ plans;
    vm_names = p.vm_names ++ plan_names plans;
  }

  -- from the audit record of the workload on
  unfoldable pub plan_recorded :
      String
      → Workload
      → Result PlanError (List DataVolumeTemplate)
      → Planned
      → W
      → Result PlanError Planned × W
  plan_recorded name w (err e) p world = (err e, world)
  plan_recorded name w (ok dvts) p world =
      let ((id, failure), world') =
        auditor.record_workload exec_id (workload_record name w dvts) world in
      let p' : Planned = record p { audit_workload_ids = insert name id p.audit_workload_ids } in
      (then_ok (plan_workload cfg run_id name w) (λ plans. ok (add_plans p' plans)), world')

  unfoldable pub plan_checked :
      String → Result PlanError Workload → Planned → W → Result PlanError Planned × W
  plan_checked name (err e) p world = (err e, world)
  plan_checked name (ok w) p world =
      plan_recorded name w (wrap (building_templates name) w.data_volume_templates)
        (record p { workload_instances = insert name w p.workload_instances }) world

  abbrev skipped : String → EventRecord
  skipped name = record {
    vm_id = none;
    workload_id = none;
    event_type = "workload_skipped";
    message =
        String.◌++◌ "Workload " (String.◌++◌ (quote name) " disabled via config (enabled: false)");
    error_detail = "";
  }

  -- one round of the loop
  unfoldable pub plan_next : String → Planned → W → Result PlanError Planned × W
  plan_next name p world =
      if is_disabled cfg name
      then (ok p, (auditor.record_event exec_id (skipped name) world).1)
      else plan_checked name (check_workload name (workload_config cfg vm_count_flag name)) p world

  unfoldable pub plan_vms : List String → Planned → W → Result PlanError Planned × W
  plan_vms [] p world = (ok p, world)
  plan_vms (name ∷ names) p world =
      and_then (plan_next name p world) (λ p' world'. plan_vms names p' world')
