-- ===== src/Tests/Run.antt =====
-- A run (`Run` of internal/orchestrator/orchestrator.go) in a cluster in memory.
use virtwork.Base.{
  String, Bool, true, false, Option, none, some, List, [], ◌∷◌, ◌≡◌, refl, Result, ok, err, length,
  then_ok, inl,
}
use virtwork.Base.Int.{pos}
use virtwork.Base.Text.Bytes.{bytes}
use virtwork.Base.Text.Decimal.{itoa}
use virtwork.Base.Assoc.{lookup, insert}
use virtwork.Audit.{no_op}
use virtwork.Config.{Config}
use virtwork.Kube.{ApiError, not_found, Service}
use virtwork.Kube.Client.{Client, Kind, virtual_machine, service, secret, a_service, a_secret}
use virtwork.Kube.Memory.{Cluster, memory, exists, create_object}
use virtwork.Kube.Memory.Laws.{Exists, create_object-makes, create_object-keeps}
use virtwork.Workloads.Contract.{Workload}
use virtwork.Workloads.Registry.{Registry, get}
use virtwork.Vm.{build_vm_spec}
use virtwork.Vm.Retry.{retry_on_transient, attempts, round, handle, backoff}
use virtwork.Vm.Calls.{create_vm, forgive}
use virtwork.Resources.{create_cloud_init_secret, ensure_namespace, create_service, after_create}
use virtwork.Goroutines.{start, move, here, waits}
use virtwork.Wait.Group.{AreResults, after_read, check_task, rounds_task, wait_task, all_returned}
use virtwork.Orchestrator.{namespace_data_volumes}
use virtwork.Orchestrator.Plan.{
  PlanError, workload_config, is_disabled, plan_workload, plan_kind, plan_single, plan_range,
  plan_vm,
}
use virtwork.Orchestrator.PlanVms.{
  Planned, nothing_planned, plan_vms, and_then, plan_next, plan_checked, plan_recorded,
  check_workload,
}
use virtwork.Orchestrator.Objects.{secret_name}
use virtwork.Orchestrator.DryRun.{secret_of}
use virtwork.Orchestrator.Create.{
  create_resources, create_services, create_next, after_service, record_service, after_namespace,
}
use virtwork.Orchestrator.Launch.{
  secret_task, after_secret, vm_task, launch_vm, after_vm, secrets_created,
}
use virtwork.Orchestrator.Ready.{
  check_results, record_results, record_result, tally, conclude, waited,
}
use virtwork.Orchestrator.Run.{
  Launches, launched, Texts, Surroundings, RunError, RunResult, run_plans, load_entries, RunReturns,
  printed, run,
}
use virtwork.Orchestrator.Create.Services.{Made}
use virtwork.Orchestrator.Run.Returned.{RunMeans, run-RunMeans}
use virtwork.Orchestrator.Run.Dry.{run-dry_run}
use virtwork.Orchestrator.Run.Endures.{Endures}
use virtwork.Tests.Cleanup.{sample}
use virtwork.Tests.Planning.{network}
use virtwork.Tests.Creation.{server}
use virtwork.Tests.DryRun.{is_quantity}
use virtwork.Tests.Launch.{
  never_done, empty, Outside, Outside-keeps, vm_made, HasSecret, HasVm, makes-Creates,
}

-- a workload with a service and one VM
abbrev web : Workload
web = record network {
  requires_service = true;
  service_spec = some server;
  workload_vm_count = pos 1;
  multi = none;
}

abbrev registry : Registry
registry = ("web", record { factory = λ cfg opts. web; param_schema = [] }) ∷ []

abbrev texts : Texts
texts = record {
  quote = λ s. s;
  planned = λ n m. "planned";
  service_created = λ s. s;
  vm_created = λ s. s;
  vm_failed = λ s. s;
  vm_not_ready = λ s. s;
  vm_ready = λ s. s;
  retry_error = λ e. "failed";
  wait_error = λ e. "failed";
}

-- a VM runs as soon as it exists
abbrev phase_of : Bool → Result ApiError String
phase_of true = ok "Running"
phase_of false = err not_found

abbrev running_client : Client Cluster
running_client = record memory {
  get_phase = λ name ns c. (phase_of (exists virtual_machine ns name c.objects), c);
}

abbrev surroundings : Surroundings Cluster
surroundings = record {
  texts = texts;
  is_quantity = is_quantity;
  marshal = λ d. ok "yaml";
  write = λ d text c. c;
  load = λ name. err "no catalog";
  client = running_client;
  ctx = never_done;
  now = λ c. c.created;
  auditor = no_op;
}

abbrev names : List String
names = "web" ∷ []

abbrev dry : Config
dry = record sample { dry_run = true }

-- what `planVMs` gives
abbrev plan_of : Result PlanError Planned × Cluster → Planned
plan_of (ok p, c) = p
plan_of (err e, c) = nothing_planned

abbrev planned : Planned
planned =
    plan_of (run_plans surroundings Outside sample registry 1 "r1" (pos 1) names registry empty)

planned_run :
    run_plans surroundings Outside sample registry 1 "r1" (pos 1) names registry empty
    ≡ (ok planned, empty)
unfolding plan_vms and_then plan_next plan_checked plan_recorded check_workload workload_config
    is_disabled get plan_workload plan_kind plan_single plan_range plan_vm namespace_data_volumes
    lookup then_ok
planned_run = refl

abbrev result : RunResult
result = record { run_id = "r1"; vm_count = 1; service_count = 1; secret_count = 1 }

-- each VM runs when it is looked at
ready : AreResults planned.vm_names (none ∷ []) (("virtwork-web-0", none) ∷ [])
unfolding plan_vms and_then plan_next plan_checked plan_recorded check_workload workload_config
    is_disabled get plan_workload plan_kind plan_single plan_range plan_vm namespace_data_volumes
    lookup then_ok itoa
ready = record { distinct = ((λ i. i), tt); written = (inl refl, tt); complete = (inl refl, tt) }

launched_run :
    (c : Cluster) × Launches surroundings Outside sample registry 1 "r1"
      (pos 1)
      planned
      empty
      (ok result)
      c
unfolding plan_vms and_then plan_next plan_checked plan_recorded check_workload workload_config
    is_disabled get plan_workload plan_kind plan_single plan_range plan_vm namespace_data_volumes
    lookup then_ok create_resources create_services create_next after_service record_service
    after_namespace ensure_namespace create_service after_create create_object exists secret_task
    after_secret create_cloud_init_secret bytes vm_task launch_vm after_vm build_vm_spec create_vm
    retry_on_transient attempts round handle backoff forgive wait_task rounds_task check_task
    after_read check_results record_results record_result tally conclude insert itoa
launched_run = (
  _,
  launched refl (secrets_created (none ∷ []) (move (move start here) here) (refl, tt))
      (waits (none ∷ []) (move (move (move start here) here) here) (refl, tt))
      (waited refl
        (all_returned 1 (none ∷ []) (move (move (move start here) here) here)
          ((λ h. absurd (cc)), tt) ready)
        refl),
)

run_returned :
    RunReturns surroundings Outside sample registry 1 "r1"
      (pos 1)
      names
      empty
      (ok result)
      launched_run.0
unfolding load_entries
run_returned = run {r = registry} {p = planned} refl planned_run refl launched_run.1

Exists-Endures : (k : Kind) (ns name : String) → Endures surroundings Outside 1 (Exists k ns name)
Exists-Endures k ns name = record {
  created = λ o c. create_object-keeps k ns name o c;
  read = λ n m c h. h;
  paused = λ n c h. h;
  resource = λ r c h. h;
  vm = λ id r c h. h;
  event = λ e c h. h;
  status = λ id t c h. h;
  meanwhile = λ c d o. Outside-keeps k ns name c d o;
}

abbrev HasService : Service → Cluster → Type 0
HasService svc c = Exists service svc.namespace svc.name c

abbrev HasVmNamed : String → Cluster → Type 0
HasVmNamed n c = Exists virtual_machine "virtwork" n c

makes-Made : (P : Cluster → Type 0) (r : Option ApiError × Cluster) → P r.1 → Made P r
makes-Made P (none, c) h = h
makes-Made P (some e, c) h = λ t. h

runs-exist : (b : Bool) → ◌≡◌ {A = Result ApiError String} (phase_of b) (ok "Running") → b ≡ true
runs-exist true e = refl
runs-exist false e = absurd (cc)

run-RunMeans_example :
    RunMeans surroundings Outside sample registry 1 "r1"
      (pos 1)
      HasService
      HasSecret
      HasVm
      HasVmNamed
      names
      empty
      (ok result)
      launched_run.0
run-RunMeans_example =
    run-RunMeans surroundings Outside sample registry 1 "r1" (pos 1) HasService HasSecret HasVm
      HasVmNamed (λ svc. Exists-Endures service svc.namespace svc.name)
      (λ p. Exists-Endures secret "virtwork" (secret_name p))
      (λ p. Exists-Endures virtual_machine p.vm_spec.namespace p.vm_spec.name)
      (λ n. Exists-Endures virtual_machine "virtwork" n)
      (λ svc c. makes-Made (HasService svc) _ (create_object-makes (a_service svc) c))
      (λ p c.
        makes-Creates (HasSecret p) c (length (bytes p.vm_spec.cloud_init_userdata)) _
          (create_object-makes (a_secret (secret_of sample "r1" p)) c))
      vm_made (λ n c. runs-exist (exists virtual_machine "virtwork" n c.objects)) names empty refl
      run_returned

-- a dry run plans the VM, and leaves the cluster as it is
dry_planned :
    run_plans surroundings Outside dry registry 1 "r1" (pos 1) names registry empty
    ≡ (ok planned, empty)
unfolding plan_vms and_then plan_next plan_checked plan_recorded check_workload workload_config
    is_disabled get plan_workload plan_kind plan_single plan_range plan_vm namespace_data_volumes
    lookup then_ok
dry_planned = refl

dry_returned :
    (r : Result RunError RunResult) × (c : Cluster) × RunReturns surroundings Outside dry registry 1
      "r1"
      (pos 1)
      names
      empty
      r
      c
unfolding load_entries
dry_returned = (_, _, printed {r = registry} {p = planned} refl dry_planned refl)

run-dry_run_example : dry_returned.1.objects ≡ []
run-dry_run_example =
    run-dry_run surroundings Outside dry registry 1 "r1" (pos 1) (λ c. c.objects ≡ []) (λ r c h. h)
      (λ e c h. h) (λ d t c h. h) names empty refl dry_returned.2 refl
