-- ===== src/Orchestrator/Run/Endures/Steps.antt =====
-- What the steps of a run leave alone, one after the other.
use virtwork.Base.{ℕ, zero, suc, String, Option, none, some, List, [], ◌∷◌, map, ok, subst}
use virtwork.Base.Int.{ℤ}
use virtwork.Base.Assoc.{Assoc}
use virtwork.Config.{Config}
use virtwork.Wait.{WaitError}
use virtwork.Wait.Group.{WaitsForAll, all_returned}
use virtwork.Goroutines.{waits}
use virtwork.Goroutines.Quiet.{Runs-keeps, All-IsQuiet}
use virtwork.Orchestrator.{VmPlan}
use virtwork.Orchestrator.Objects.{with_secret}
use virtwork.Orchestrator.PlanVms.{Planned}
use virtwork.Orchestrator.Launch.{secrets_created}
use virtwork.Orchestrator.Ready.{
  ReadinessError, Tally, record_result, record_results, settle_workloads, conclude, check_results,
  not_waiting, waited, default_poll_interval, seconds,
}
use virtwork.Workloads.Registry.{Registry}
use virtwork.Orchestrator.Run.Endures.{
  Endures, secret_task-IsQuiet, vm_task-IsQuiet, wait_task-IsQuiet,
}
use virtwork.Orchestrator.Run.{
  Surroundings, update_statuses, CreatesRunSecrets, CreatesRunVms, WaitsForRun,
}

module _ {W : Type 0} (s : Surroundings W) (outside : W → W → Type 0) (cfg : Config) (exec_id : ℕ)
    (run_id : String) (P : W → Type 0) (h : Endures s outside exec_id P) where
  record_result-keeps :
      (f g : String → String) (t : WaitError → String) (name : String) (r : Option WaitError)
      (w : W)
      → P w
      → P (record_result f g t s.auditor exec_id name r w)
  unfolding record_result
  record_result-keeps f g t name none w p = h.event _ w p
  record_result-keeps f g t name (some e) w p = h.event _ w p

  record_results-keeps :
      (f g : String → String) (t : WaitError → String) (components : Assoc String)
      (results : Assoc (Option WaitError)) (y : Tally) (w : W)
      → P w
      → P (record_results f g t s.auditor exec_id components results y w).1
  unfolding record_results
  record_results-keeps f g t components [] y w p = p
  record_results-keeps f g t components ((name, r) ∷ results) y w p =
      record_results-keeps f g t components results _ _ (record_result-keeps f g t name r w p)

  settle_workloads-keeps :
      (f g : String → String) (t : WaitError → String) (failed : List String) (ids : Assoc ℕ)
      (w : W)
      → P w
      → P (settle_workloads f g t s.auditor exec_id failed ids w)
  unfolding settle_workloads
  settle_workloads-keeps f g t failed [] w p = p
  settle_workloads-keeps f g t failed ((c, id) ∷ ids) w p =
      settle_workloads-keeps f g t failed ids _ (h.status id _ w p)

  conclude-keeps :
      (f g : String → String) (t : WaitError → String) (vms : ℕ) (ids : Assoc ℕ) (n : ℕ)
      (failed : List String) (w : W)
      → P w
      → P (conclude f g t s.auditor exec_id vms ids n failed w).1
  unfolding conclude
  conclude-keeps f g t vms ids zero failed w p = p
  conclude-keeps f g t vms ids (suc n) failed w p = settle_workloads-keeps f g t failed ids w p

  pub check_results-keeps :
      (f g : String → String) (t : WaitError → String) (names : List String) (plans : List VmPlan)
      (ids : Assoc ℕ) (results : Assoc (Option WaitError)) (w : W)
      → P w
      → P (check_results f g t s.auditor exec_id names plans ids results w).1
  unfolding check_results
  check_results-keeps f g t names plans ids results w p =
      conclude-keeps f g t _ ids _ _ _ (record_results-keeps f g t _ results _ w p)

  wait_for_all-keeps :
      (names : List String) (namespace : String) (interval : ℕ) (timeout : ℤ) (w v : W)
      (results : Assoc (Option WaitError))
      → WaitsForAll s.client s.ctx s.now namespace interval timeout outside names w results v
      → P w
      → P v
  wait_for_all-keeps names namespace interval timeout w v results (all_returned fuel rs runs f are)
        p =
      Runs-keeps P outside h.meanwhile runs
        (All-IsQuiet P _ names (λ n.
          wait_task-IsQuiet s outside cfg exec_id run_id P h namespace interval timeout n fuel))
        p

module _ {W : Type 0} (s : Surroundings W) (outside : W → W → Type 0) (cfg : Config)
    (registry : Registry) (exec_id : ℕ) (run_id : String) (vm_count_flag : ℤ) where
  module _ (P : W → Type 0) (h : Endures s outside exec_id P) where
    pub secrets-keep :
        (p : Planned) (n : ℕ) (w v : W)
        → CreatesRunSecrets s outside cfg registry exec_id run_id vm_count_flag p w (ok n) v
        → P w
        → P v
    secrets-keep p n w v (secrets_created rs runs g) k =
        Runs-keeps P outside h.meanwhile runs
          (All-IsQuiet P _ p.plans (
            secret_task-IsQuiet s outside cfg exec_id run_id P h s.texts.vm_created
              s.texts.vm_failed s.texts.retry_error))
          k

    pub vms-keep :
        (p : Planned) (w v : W)
        → CreatesRunVms s outside cfg registry exec_id run_id vm_count_flag p w none v
        → P w
        → P v
    vms-keep p w v (waits rs runs g) k =
        Runs-keeps P outside h.meanwhile runs
          (All-IsQuiet P _ (map with_secret p.plans) (
            vm_task-IsQuiet s outside cfg exec_id run_id P h s.texts.vm_created s.texts.vm_failed
              s.texts.retry_error p.audit_workload_ids))
          k

    pub readiness-keeps :
        (p : Planned) (w v : W)
        → WaitsForRun s outside cfg registry exec_id run_id vm_count_flag p w none v
        → P w
        → P v
    readiness-keeps p w v (not_waiting e) k = k
    readiness-keeps p w v (waited {results = results} {v = u} e all r) k =
        subst (λ (x : Option ReadinessError × W). P x.1) r
          (check_results-keeps s outside cfg exec_id run_id P h s.texts.vm_not_ready
            s.texts.vm_ready s.texts.wait_error p.vm_names p.plans p.audit_workload_ids results u
            (wait_for_all-keeps s outside cfg exec_id run_id P h p.vm_names cfg.namespace
              default_poll_interval (seconds cfg.ready_timeout_seconds) w u results all k))

    pub update_statuses-keeps :
        (status : String) (ids : Assoc ℕ) (w : W)
        → P w
        → P (update_statuses s outside cfg registry exec_id run_id vm_count_flag status ids w)
    unfolding update_statuses
    update_statuses-keeps status [] w k = k
    update_statuses-keeps status ((name, id) ∷ ids) w k =
        update_statuses-keeps status ids _ (h.status id status w k)

    -- from the creation of the VMs to the end of the run
    pub end-keeps :
        (p : Planned) (w v : W)
        → WaitsForRun s outside cfg registry exec_id run_id vm_count_flag p w none v
        → P w
        → P (
            update_statuses s outside cfg registry exec_id run_id vm_count_flag "created"
              p.audit_workload_ids v)
    end-keeps p w v f k =
        update_statuses-keeps "created" p.audit_workload_ids v (readiness-keeps p w v f k)
