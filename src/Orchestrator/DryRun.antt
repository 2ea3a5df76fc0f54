-- ===== src/Orchestrator/DryRun.antt =====
-- internal/orchestrator/orchestrator.go: `printDryRun`.
pub mod Prints
use Prim.Native.String
use virtwork.Base.{
  ℕ, zero, suc, String, Bool, Option, none, some, List, [], ◌∷◌, map, length, Result, ok, err,
}
use virtwork.Base.Assoc.{Assoc, lookup}
use virtwork.Config.{Config}
use virtwork.Constants.{
  label_app_name, label_managed_by, managed_by_value, label_component, label_run_id,
  secret_key_userdata,
}
use virtwork.Kube.{Labels, Service, Secret, VirtualMachine}
use virtwork.Vm.{VmSpecOpts, SpecError, build_vm_spec}
use virtwork.Workloads.Contract.{Workload}
use virtwork.Orchestrator.{VmPlan}
use virtwork.Orchestrator.Objects.{secret_name, secret_labels, with_secret, opts_of}
use virtwork.Orchestrator.Create.{with_run_id, required_service}

-- what is printed, with the names in the line above it
pub data Document : Type 0 where
  service_document : (workload : String) → Service → Document
  secret_document : (workload : String) → Secret → Document
  vm_document : (vm_name workload : String) → VirtualMachine → Document

-- the errors, with the name in their messages
pub data DryRunError : Type 0 where
  marshaling_service marshaling_secret marshaling_vm : String → String → DryRunError
  building_vm : String → SpecError → DryRunError

abbrev pub Outcome : Type 0 → Type 0
Outcome W = Result DryRunError (ℕ × ℕ) × W

-- the secret of a plan's VM
abbrev pub secret_of : Config → String → VmPlan → Secret
secret_of cfg run_id p = record {
  name = secret_name p;
  namespace = cfg.namespace;
  labels = secret_labels run_id p;
  string_data = (secret_key_userdata, p.vm_spec.cloud_init_userdata) ∷ [];
}

-- `marshal` is the YAML library's; `write` prints a document and its text, its errors are ignored.
module _ {W : Type 0} (is_quantity : String → Bool) (marshal : Document → Result String String)
    (write : Document → String → W → W) (cfg : Config) (run_id : String) where
  -- what follows on `Marshal` of a document
  unfoldable pub print_document :
      Document → (String → DryRunError) → Result String String → (W → Outcome W) → W → Outcome W
  print_document d failure (err e) rest w = (err (failure e), w)
  print_document d failure (ok text) rest w = rest (write d text w)

  -- a round of the loop over the workloads, with the count so far
  unfoldable pub print_service : String → Option Service → ℕ → (ℕ → W → Outcome W) → W → Outcome W
  print_service name none services rest w = rest services w
  print_service name (some svc) services rest w =
      print_document (service_document name (with_run_id run_id svc)) (marshaling_service name)
        (marshal (service_document name (with_run_id run_id svc))) (λ w'. rest (suc services) w') w

  unfoldable pub print_services : Assoc Workload → ℕ → (ℕ → W → Outcome W) → W → Outcome W
  print_services [] services rest w = rest services w
  print_services ((name, workload) ∷ instances) services rest w =
      print_service name (required_service workload) services
        (λ n w'. print_services instances n rest w') w

  unfoldable pub print_secrets : List VmPlan → (W → Outcome W) → W → Outcome W
  print_secrets [] rest w = rest w
  print_secrets (p ∷ plans) rest w =
      print_document (secret_document p.component (secret_of cfg run_id p))
        (marshaling_secret p.vm_name)
        (marshal (secret_document p.component (secret_of cfg run_id p)))
        (λ w'. print_secrets plans rest w') w

  -- what follows on `BuildVMSpec`
  unfoldable pub print_vm :
      VmPlan → Result SpecError VirtualMachine → (W → Outcome W) → W → Outcome W
  print_vm p (err e) rest w = (err (building_vm p.vm_name e), w)
  print_vm p (ok vm) rest w =
      print_document (vm_document p.vm_name p.component vm) (marshaling_vm p.vm_name)
        (marshal (vm_document p.vm_name p.component vm)) rest w

  unfoldable pub print_vms : List VmPlan → (W → Outcome W) → W → Outcome W
  print_vms [] rest w = rest w
  print_vms (p ∷ plans) rest w =
      print_vm p (build_vm_spec is_quantity (opts_of p)) (λ w'. print_vms plans rest w') w

  -- the counts of the services and of the secrets
  unfoldable pub print_dry_run : List VmPlan → Assoc Workload → W → Outcome W
  print_dry_run plans instances w =
      print_services instances 0
        (λ services w'.
          print_secrets plans
            (λ w''.
              print_vms (map with_secret plans) (λ last. (ok (services, length plans), last)) w'')
            w')
        w
