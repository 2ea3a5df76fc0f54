-- ===== src/Orchestrator/Launch.antt =====
-- internal/orchestrator/orchestrator.go: `createSecrets` and `createVMs`, which create the objects
-- of the plans in a group of goroutines.
pub mod Secrets
pub mod Vms
use Prim.Native.String
use virtwork.Base.{
  ℕ, suc, ◌<◌, String, Bool, true, false, Option, none, some, List, [], ◌∷◌, map, length, Result,
  ok, err, not, ltb,
}
use virtwork.Base.Assoc.{Assoc, lookup}
use virtwork.Config.{Config}
use virtwork.Audit.{Auditor, EventRecord, ResourceRecord, VmRecord}
use virtwork.Kube.{VirtualMachine}
use virtwork.Kube.Client.{Client}
use virtwork.Vm.{SpecError, build_vm_spec}
use virtwork.Vm.Retry.{Context, RetryError}
use virtwork.Vm.Calls.{create_vm}
use virtwork.Resources.{ResourceError, create_cloud_init_secret}
use virtwork.Goroutines.{Task, finished, call, perform, Runs, IsResult, Waits}
use virtwork.Orchestrator.{VmPlan}
use virtwork.Orchestrator.Objects.{secret_name, secret_labels, with_secret, opts_of}

-- the errors, with the plan's VM in their messages
pub data LaunchError : Type 0 where
  creating_secret : String → ResourceError → LaunchError
  building_vm_spec : String → SpecError → LaunchError
  creating_vm : String → RetryError → LaunchError

abbrev pub id_or_zero : Option ℕ → ℕ
id_or_zero none = 0
id_or_zero (some id) = id

-- `len(templates) > 0`
abbrev pub has_items {ℓ} : {A : Type ℓ} → List A → Bool
has_items [] = false
has_items (x ∷ xs) = true

-- how many goroutines returned nil
abbrev pub count_nil : {E : Type 0} → List (Option E) → ℕ
count_nil [] = 0
count_nil (none ∷ rs) = suc (count_nil rs)
count_nil (some e ∷ rs) = count_nil rs

-- The texts of the events, which `fmt` formats, and those of errors are arguments. A call of the
-- package vm or resources is one step of the goroutine.
module _ {W : Type 0} (is_quantity : String → Bool) (created_text failed_text : String → String)
    (error_text : RetryError → String) (client : Client W) (ctx : Context W) (auditor : Auditor W)
    (cfg : Config) (exec_id : ℕ) (run_id : String) where
  -- what follows on `CreateCloudInitSecret`
  unfoldable pub after_secret : VmPlan → Option ResourceError → Task W LaunchError
  after_secret p (some e) = finished (some (creating_secret p.vm_name e))
  after_secret p none =
      perform
        (auditor.record_resource exec_id (record {
          resource_type = "Secret";
          resource_name = secret_name p;
          resource_namespace = cfg.namespace;
        }))
        (λ _. finished none)

  -- the goroutine of `createSecrets` for a plan
  unfoldable pub secret_task : VmPlan → Task W LaunchError
  secret_task p =
      perform
        (create_cloud_init_secret client (secret_name p) cfg.namespace p.vm_spec.cloud_init_userdata
          (secret_labels run_id p))
        (after_secret p)

  abbrev pub vm_event : String → String → String → EventRecord
  vm_event type message detail = record {
    vm_id = none;
    workload_id = none;
    event_type = type;
    message = message;
    error_detail = detail;
  }

  abbrev pub vm_record : VmPlan → VmRecord
  vm_record p = record {
    vm_name = p.vm_name;
    vm_namespace = cfg.namespace;
    vm_component = p.component;
    vm_role = p.role;
    vm_cpu_cores = p.vm_spec.cpu_cores;
    vm_memory = p.vm_spec.memory;
    vm_container_disk_image = p.vm_spec.container_disk_image;
    vm_has_data_disk = has_items p.vm_spec.data_volume_templates;
    vm_data_disk_size = cfg.data_disk_size;
  }

  -- what follows on `CreateVM`
  unfoldable pub after_vm : Assoc ℕ → VmPlan → Option RetryError → Task W LaunchError
  after_vm workload_ids p (some e) =
      perform
        (auditor.record_event exec_id (vm_event "vm_failed" (failed_text p.vm_name) (error_text e)))
        (λ _. finished (some (creating_vm p.vm_name e)))
  after_vm workload_ids p none =
      perform
        (auditor.record_vm exec_id (id_or_zero (lookup p.component workload_ids)) (vm_record p))
        (λ _.
          perform (auditor.record_event exec_id (vm_event "vm_created" (created_text p.vm_name) ""))
            (λ _. finished none))

  -- what follows on `BuildVMSpec`
  unfoldable pub launch_vm : Assoc ℕ → VmPlan → Result SpecError VirtualMachine → Task W LaunchError
  launch_vm workload_ids p (err e) = finished (some (building_vm_spec p.vm_name e))
  launch_vm workload_ids p (ok vm) = perform (create_vm client ctx vm) (after_vm workload_ids p)

  -- the goroutine of `createVMs` for a plan
  unfoldable pub vm_task : Assoc ℕ → VmPlan → Task W LaunchError
  vm_task workload_ids p = launch_vm workload_ids p (build_vm_spec is_quantity (opts_of p))

  -- `createSecrets` returns this, in this world. Each goroutine that returns nil has counted its
  -- secret.
  pub data CreatesSecrets (outside : W → W → Type 0) (plans : List VmPlan) (w : W)
      : Result LaunchError ℕ → W → Type 0 where
    secrets_created :
        {v : W} (rs : List (Option LaunchError))
        → Runs outside (map secret_task plans) w (map finished rs) v
        → IsResult rs none
        → CreatesSecrets outside plans w (ok (count_nil rs)) v
    secret_failed :
        {e : LaunchError} {v : W}
        → Waits outside (map secret_task plans) w (some e) v
        → CreatesSecrets outside plans w (err e) v

  -- `createVMs` returns this, in this world
  abbrev pub CreatesVms :
      (W → W → Type 0) → List VmPlan → Assoc ℕ → W → Option LaunchError → W → Type 0
  CreatesVms outside plans workload_ids w r v =
      Waits outside (map (vm_task workload_ids) plans) w r v
