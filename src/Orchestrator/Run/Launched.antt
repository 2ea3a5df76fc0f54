-- ===== src/Orchestrator/Run/Launched.antt =====
-- What `Run` has brought about when it returns.
use virtwork.Base.{
  All-map_of, ℕ, zero, suc, String, true, Option, none, some, List, [], ◌∷◌, map, length, All, In,
  Result, ok, err, ◌≡◌, refl, sym, subst, inl, inr, ap, arith,
}
use virtwork.Base.Int.{ℤ}
use virtwork.Base.Assoc.{Assoc, keys}
use virtwork.Base.Text.Bytes.{bytes}
use virtwork.Config.{Config}
use virtwork.Kube.{Service, VirtualMachine}
use virtwork.Kube.Client.{a_vm, a_secret, a_service}
use virtwork.Vm.{build_vm_spec}
use virtwork.Vm.Retry.{is_already_exists}
use virtwork.Vm.Calls.{unversioned, Establishes}
use virtwork.Resources.Laws.{Creates}
use virtwork.Wait.{WaitError}
use virtwork.Wait.Group.Ready.{ResultMeans, wait_for_all-ResultMeans}
use virtwork.Goroutines.Together.{Brought}
use virtwork.Workloads.Registry.{Registry}
use virtwork.Orchestrator.{VmPlan}
use virtwork.Orchestrator.Objects.{with_secret, opts_of}
use virtwork.Orchestrator.DryRun.{secret_of}
use virtwork.Orchestrator.PlanVms.{Planned}
use virtwork.Orchestrator.Create.{CreateError}
use virtwork.Orchestrator.Create.Services.{
  run_services, Made, IsFailure, AllMade, create_resources-AllMade,
}
use virtwork.Orchestrator.Launch.{LaunchError}
use virtwork.Orchestrator.Launch.Secrets.{
  IsSecretFault, SecretsBrought, create_secrets-SecretsBrought,
}
use virtwork.Orchestrator.Launch.Vms.{IsVmFault, create_vms-Brought}
use virtwork.Orchestrator.Ready.{
  ReadinessError, Tally, conclude, check_results, not_waiting, waited, default_poll_interval,
  seconds, vm_to_component,
}
use virtwork.Orchestrator.Ready.Statuses.{none_failed, record_results-count}
use virtwork.Orchestrator.Run.{
  RunError, creating_resources, creating_secrets, creating_vms, not_ready, RunResult, Surroundings,
  result_of, CreatesRunSecrets, CreatesRunVms, WaitsForRun, Launches, resources_failed,
  secrets_failed, vms_failed, readiness_failed, launched, creates_resources,
}
use virtwork.Orchestrator.Run.Endures.{Endures}
use virtwork.Orchestrator.Run.Endures.Steps.{
  secrets-keep, vms-keep, update_statuses-keeps, end-keeps, check_results-keeps,
}

-- `S`, `T`, `V` and `R` are what the creation of a service, of a plan's secret and of its VM and the
-- phase Running bring about.
module _ {W : Type 0} (s : Surroundings W) (outside : W → W → Type 0) (cfg : Config)
    (registry : Registry) (exec_id : ℕ) (run_id : String) (vm_count_flag : ℤ)
    (S : Service → W → Type 0) (T V : VmPlan → W → Type 0) (R : String → W → Type 0) where
  -- What the result of `Run` says, once the VMs are planned.
  abbrev pub LaunchMeans : Planned → Result RunError RunResult → W → Type 0
  LaunchMeans p (ok r) v =
      (r
        ≡ result_of s outside cfg registry exec_id run_id vm_count_flag p
            (length (run_services run_id p.workload_instances)) (length p.plans))
      × All (λ x. S x v) (run_services run_id p.workload_instances)
      × All (λ x. T x v) p.plans
      × All (λ x. V x v) (map with_secret p.plans)
      × (cfg.wait_for_ready ≡ true → All (λ x. R x v) p.vm_names)
  LaunchMeans p (err (creating_resources e)) v = IsFailure cfg e
  LaunchMeans p (err (creating_secrets e)) v = (q : VmPlan) × In q p.plans × IsSecretFault q e
  LaunchMeans p (err (creating_vms e)) v =
      (q : VmPlan) × In q (map with_secret p.plans) × IsVmFault s.is_quantity q e
  LaunchMeans p (err (not_ready e)) v = cfg.wait_for_ready ≡ true
  LaunchMeans p (err _) v = ⊥

  module _ (lasting_S : (x : Service) → Endures s outside exec_id (S x))
      (lasting_T : (x : VmPlan) → Endures s outside exec_id (T x))
      (lasting_V : (x : VmPlan) → Endures s outside exec_id (V x))
      (lasting_R : (x : String) → Endures s outside exec_id (R x))
      (makes_S : (x : Service) (w : W) → Made (S x) (s.client.create (a_service x) w))
      (makes_T : (x : VmPlan) (w : W)
        → Creates
            (T x)
            w
            (length (bytes x.vm_spec.cloud_init_userdata))
            (s.client.create (a_secret (secret_of cfg run_id x)) w))
      (makes_V : (x : VmPlan) (vm : VirtualMachine) (w : W)
        → build_vm_spec s.is_quantity (opts_of x) ≡ ok vm
        → Establishes (V x) is_already_exists (s.client.create (a_vm (unversioned vm)) w))
      (running : (x : String) (w : W)
        → (s.client.get_phase x cfg.namespace w).0 ≡ ok "Running"
        → R x (s.client.get_phase x cfg.namespace w).1) where
    resources :
        (p : Planned) (w v : W) (r : Result CreateError ℕ)
        → creates_resources s outside cfg registry exec_id run_id vm_count_flag p w ≡ (r, v)
        → AllMade cfg S
            (run_services run_id p.workload_instances)
            (length (run_services run_id p.workload_instances))
            (r, v)
    resources p w v r e =
        subst
          (AllMade cfg S (run_services run_id p.workload_instances)
            (length (run_services run_id p.workload_instances)))
          e
          (create_resources-AllMade s.texts.service_created s.client s.auditor cfg exec_id run_id S
            makes_S (λ x t w'. (lasting_S x).created (a_service t) w') (λ x. (lasting_S x).resource)
            (λ x. (lasting_S x).event) p.workload_instances w)

    secrets :
        (p : Planned) (w v : W) (r : Result LaunchError ℕ)
        → CreatesRunSecrets s outside cfg registry exec_id run_id vm_count_flag p w r v
        → SecretsBrought T p.plans r v
    secrets p w v r c =
        create_secrets-SecretsBrought s.is_quantity s.texts.vm_created s.texts.vm_failed
          s.texts.retry_error s.client s.ctx s.auditor cfg exec_id run_id outside T makes_T
          (λ x q w'. (lasting_T x).created (a_secret (secret_of cfg run_id q)) w')
          (λ x. (lasting_T x).resource) (λ w' v' o x. (lasting_T x).meanwhile w' v' o) p.plans w c

    vms :
        (p : Planned) (w v : W) (r : Option LaunchError)
        → CreatesRunVms s outside cfg registry exec_id run_id vm_count_flag p w r v
        → Brought V (IsVmFault s.is_quantity) (map with_secret p.plans) r v
    vms p w v r c =
        create_vms-Brought s.is_quantity s.texts.vm_created s.texts.vm_failed s.texts.retry_error
          s.client s.ctx s.auditor cfg exec_id run_id outside V makes_V
          (λ x vm w'. (lasting_V x).created (a_vm (unversioned vm)) w') (λ x. (lasting_V x).paused)
          (λ x. (lasting_V x).vm) (λ x. (lasting_V x).event)
          (λ w' v' o x. (lasting_V x).meanwhile w' v' o) p.audit_workload_ids
          (map with_secret p.plans) w c

    conclude-none :
        (f g : String → String) (t : WaitError → String) (m : ℕ) (ids : Assoc ℕ) (n : ℕ)
        (failed : List String) (w u : W)
        → conclude f g t s.auditor exec_id m ids n failed w ≡ (none, u)
        → n ≡ 0
    unfolding conclude
    conclude-none f g t m ids zero failed w u e = refl
    conclude-none f g t m ids (suc n) failed w u e =
        let h = ap (λ (x : Option ReadinessError × W). x.0) e in absurd (cc)

    check_results-none :
        (f g : String → String) (t : WaitError → String) (names : List String) (plans : List VmPlan)
        (ids : Assoc ℕ) (results : Assoc (Option WaitError)) (w u : W)
        → check_results f g t s.auditor exec_id names plans ids results w ≡ (none, u)
        → All (λ (x : String × Option WaitError). x.1 ≡ none) results
    unfolding check_results
    check_results-none f g t names plans ids results w u e =
        let y : Tally = record { failures = 0; failed_workloads = [] } in
        let n = conclude-none f g t _ ids _ _ _ u e in
        let c =
          record_results-count f g t s.auditor exec_id (vm_to_component plans []) results y w in
        none_failed f g t s.auditor exec_id results (omega arith)

    result_at :
        (results : Assoc (Option WaitError)) (w : W) (n : String)
        → All (ResultMeans R w) results
        → All (λ (x : String × Option WaitError). x.1 ≡ none) results
        → In n (keys results)
        → R n w
    result_at [] w n h k i = absurd i
    result_at ((m, none) ∷ results) w n (h, hs) (k, ks) (inl e) = subst (λ x. R x w) (sym e) h
    result_at ((m, some x) ∷ results) w n (h, hs) (k, ks) (inl e) = absurd (cc)
    result_at ((m, o) ∷ results) w n (h, hs) (k, ks) (inr i) = result_at results w n hs ks i

    readiness :
        (p : Planned) (w v : W)
        → WaitsForRun s outside cfg registry exec_id run_id vm_count_flag p w none v
        → cfg.wait_for_ready ≡ true
        → All (λ x. R x v) p.vm_names
    readiness p w v (not_waiting e) t = absurd (cc)
    readiness p w v (waited {results = results} {v = u} e all r) t =
        let (complete, means) =
          wait_for_all-ResultMeans s.client s.ctx s.now cfg.namespace default_poll_interval
            (seconds cfg.ready_timeout_seconds) outside R running
            (λ m name. (lasting_R m).read name cfg.namespace)
            (λ m. (lasting_R m).paused default_poll_interval)
            (λ w' v' o m. (lasting_R m).meanwhile w' v' o) p.vm_names w all in
        let nones =
          check_results-none s.texts.vm_not_ready s.texts.vm_ready s.texts.wait_error p.vm_names
            p.plans p.audit_workload_ids results u v r in
        All-map_of p.vm_names
          (λ n i.
            subst (λ (x : Option ReadinessError × W). R n x.1) r
              (check_results-keeps s outside cfg exec_id run_id (R n) (lasting_R n)
                s.texts.vm_not_ready s.texts.vm_ready s.texts.wait_error p.vm_names p.plans
                p.audit_workload_ids results u (result_at results u n means nones i)))
          complete

    pub launches-LaunchMeans :
        (p : Planned) (w : W) (r : Result RunError RunResult) (v : W)
        → Launches s outside cfg registry exec_id run_id vm_count_flag p w r v
        → LaunchMeans p r v
    launches-LaunchMeans p w r v (resources_failed e) = resources p w _ _ e
    launches-LaunchMeans p w r v (secrets_failed e c) = secrets p _ _ _ c
    launches-LaunchMeans p w r v (vms_failed e c d) = vms p _ _ _ d
    launches-LaunchMeans p w r v (readiness_failed e c d (waited t all q)) = t
    launches-LaunchMeans p w r v
          (launched {services = n} {secrets = m} {v = v1} {u = v2} {t = v3} {x = v4} e c d f) =
        let (count, there) = resources p w v1 _ e in
        let (counted, secret) = secrets p v1 v2 _ c in
        let made = vms p v2 v3 _ d in
        let ready = readiness p v3 v4 f in
        (
          rw (count, counted) refl,
          All-map_of _
              (λ x k.
                end-keeps s outside cfg registry exec_id run_id vm_count_flag (S x) (lasting_S x) p
                  v3 v4 f
                  (vms-keep s outside cfg registry exec_id run_id vm_count_flag (S x) (lasting_S x)
                    p v2 v3 d
                    (secrets-keep s outside cfg registry exec_id run_id vm_count_flag (S x)
                      (lasting_S x) p m v1 v2 c k)))
              there,
          All-map_of p.plans
              (λ x k.
                end-keeps s outside cfg registry exec_id run_id vm_count_flag (T x) (lasting_T x) p
                  v3 v4 f
                  (vms-keep s outside cfg registry exec_id run_id vm_count_flag (T x) (lasting_T x)
                    p v2 v3 d k))
              secret,
          All-map_of (map with_secret p.plans)
              (λ x.
                end-keeps s outside cfg registry exec_id run_id vm_count_flag (V x) (lasting_V x) p
                  v3 v4 f)
              made,
          (λ t.
              All-map_of p.vm_names
                (λ x k.
                  update_statuses-keeps s outside cfg registry exec_id run_id vm_count_flag (R x)
                    (lasting_R x) "created" p.audit_workload_ids v4 k)
                (ready t)),
        )
