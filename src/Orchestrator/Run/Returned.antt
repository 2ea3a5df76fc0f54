-- ===== src/Orchestrator/Run/Returned.antt =====
-- What `Run` has brought about when it returns.
use virtwork.Base.{ℕ, String, false, List, Result, ok, err, ◌≡◌, refl, ◌⊎◌, inl, inr, length}
use virtwork.Base.Int.{ℤ}
use virtwork.Base.Text.Bytes.{bytes}
use virtwork.Config.{Config}
use virtwork.Kube.{Service, VirtualMachine}
use virtwork.Kube.Client.{a_vm, a_secret, a_service}
use virtwork.Vm.{build_vm_spec}
use virtwork.Vm.Retry.{is_already_exists}
use virtwork.Vm.Calls.{unversioned, Establishes}
use virtwork.Resources.Laws.{Creates}
use virtwork.Workloads.Registry.{Registry}
use virtwork.Orchestrator.{VmPlan}
use virtwork.Orchestrator.Objects.{opts_of}
use virtwork.Orchestrator.DryRun.{secret_of}
use virtwork.Orchestrator.Plan.{PlanError}
use virtwork.Orchestrator.PlanVms.{Planned}
use virtwork.Orchestrator.Create.Services.{Made}
use virtwork.Orchestrator.Run.{
  RunError, planning, RunResult, Surroundings, load_entries, run_plans, record_started, all_names,
  RunReturns, not_loaded, not_planned, printed, run,
}
use virtwork.Orchestrator.Run.Endures.{Endures}
use virtwork.Orchestrator.Run.Launched.{LaunchMeans, launches-LaunchMeans}

module _ {W : Type 0} (s : Surroundings W) (outside : W → W → Type 0) (cfg : Config)
    (registry : Registry) (exec_id : ℕ) (run_id : String) (vm_count_flag : ℤ)
    (S : Service → W → Type 0) (T V : VmPlan → W → Type 0) (R : String → W → Type 0) where
  -- what follows on the registry with the catalog's entries: the VMs are not planned, or they are,
  -- and the result says what it says for this plan
  abbrev pub PlanMeans : List String → W → Registry → Result RunError RunResult → W → Type 0
  PlanMeans names w r result v =
      ((e : PlanError) × (result ≡ err (planning e))
        × (run_plans s outside cfg registry exec_id run_id vm_count_flag
              (all_names s outside cfg registry exec_id run_id vm_count_flag names) r w
            ≡ (err e, v)))
      ⊎ ((p : Planned) × (u : W) × (run_plans s outside cfg registry exec_id run_id vm_count_flag
              (all_names s outside cfg registry exec_id run_id vm_count_flag names) r w
            ≡ (ok p, u))
          × LaunchMeans s outside cfg registry exec_id run_id vm_count_flag S T V R p result v)

  abbrev pub RunMeans : List String → W → Result RunError RunResult → W → Type 0
  RunMeans names w result v =
      ((e : RunError) × (result ≡ err e) × (load_entries s.load cfg.from_catalog registry ≡ err e))
      ⊎ ((r : Registry) × (load_entries s.load cfg.from_catalog registry ≡ ok r)
          × PlanMeans names w r result v)

  -- Where `S`, `T` and `V` hold after the creation of a service, of a plan's secret and of its VM, if
  -- it succeeds or finds that the object exists, `R` holds of a VM after its phase is read as
  -- Running, and no call of a run and nothing outside undoes them: a run that is not dry either does
  -- not get a registry or a plan, or its result says this of the plan that planVMs gives. No error:
  -- the counts are those of the services that the workloads require and of the plan's VMs, `S` holds
  -- of each of these services, `T` and `V` of each of the VMs and, if the run is to wait, `R` as
  -- well, whatever the order in which goroutines ran. An error of the creation is one of the
  -- namespace, a service, a secret or a VM of the plan.
  pub run-RunMeans :
      ((x : Service) → Endures s outside exec_id (S x))
      → ((x : VmPlan) → Endures s outside exec_id (T x))
      → ((x : VmPlan) → Endures s outside exec_id (V x))
      → ((x : String) → Endures s outside exec_id (R x))
      → ((x : Service) (w : W) → Made (S x) (s.client.create (a_service x) w))
      → ((x : VmPlan) (w : W)
          → Creates
              (T x)
              w
              (length (bytes x.vm_spec.cloud_init_userdata))
              (s.client.create (a_secret (secret_of cfg run_id x)) w))
      → ((x : VmPlan) (vm : VirtualMachine) (w : W)
          → build_vm_spec s.is_quantity (opts_of x) ≡ ok vm
          → Establishes (V x) is_already_exists (s.client.create (a_vm (unversioned vm)) w))
      → ((x : String) (w : W)
          → (s.client.get_phase x cfg.namespace w).0 ≡ ok "Running"
          → R x (s.client.get_phase x cfg.namespace w).1)
      → (names : List String) (w : W) {result : Result RunError RunResult} {v : W}
      → cfg.dry_run ≡ false
      → RunReturns s outside cfg registry exec_id run_id vm_count_flag names w result v
      → RunMeans names w result v
  run-RunMeans ls lt lv lr ms mt mv running names w dry (not_loaded {e = e} l) = inl (e, refl, l)
  run-RunMeans ls lt lv lr ms mt mv running names w dry (not_planned {r = r} {e = e} l q) =
      inr (r, l, inl (e, refl, q))
  run-RunMeans ls lt lv lr ms mt mv running names w dry (printed l q d) = absurd (cc)
  run-RunMeans ls lt lv lr ms mt mv running names w dry
        (run {r = r} {p = p} {v = u} {u = v} {result = result} l q d h) =
      inr (
        r,
        l,
        inr (
          p,
          u,
          q,
          launches-LaunchMeans s outside cfg registry exec_id run_id vm_count_flag S T V R ls lt lv
              lr ms mt mv running p
              (record_started s outside cfg registry exec_id run_id vm_count_flag
                (all_names s outside cfg registry exec_id run_id vm_count_flag names) p u)
              result v h,
        ),
      )
