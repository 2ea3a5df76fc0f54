-- ===== src/Orchestrator/Run/Endures.antt =====
-- What the steps of a run leave alone.
pub mod Steps
use virtwork.Base.{
  ℕ, zero, suc, String, Bool, true, false, Option, none, some, List, [], ◌∷◌, map, length, All,
  Result, ok, err, ◌≡◌, refl, subst, Bool-cases, inl, inr, ◌==◌, ltb,
}
use virtwork.Base.Int.{ℤ}
use virtwork.Base.Assoc.{Assoc}
use virtwork.Base.Text.Bytes.{bytes}
use virtwork.Constants.{max_secret_data_size}
use virtwork.Config.{Config}
use virtwork.Audit.{EventRecord, ResourceRecord, VmRecord}
use virtwork.Kube.{ApiError, VirtualMachine}
use virtwork.Kube.Client.{Object, a_vm, a_secret}
use virtwork.Vm.{SpecError, build_vm_spec}
use virtwork.Vm.Retry.{Context, RetryError, is_not_found, is_already_exists, default_max_retries}
use virtwork.Vm.Retry.Keeps.{retry_on_transient-keeps}
use virtwork.Vm.Calls.{unversioned, create_vm, forgive}
use virtwork.Resources.{ResourceError, created, create_cloud_init_secret}
use virtwork.Wait.{WaitError}
use virtwork.Wait.Group.{
  Stop, is_late, after_pause, pause_task, after_read, check_task, rounds_task, wait_task,
  WaitsForAll, all_returned,
}
use virtwork.Goroutines.{Task, Waits, waits}
use virtwork.Goroutines.Quiet.{IsQuiet, Runs-keeps, All-IsQuiet}
use virtwork.Orchestrator.{VmPlan}
use virtwork.Orchestrator.Objects.{secret_name, secret_labels, with_secret, opts_of}
use virtwork.Orchestrator.DryRun.{secret_of}
use virtwork.Orchestrator.PlanVms.{Planned}
use virtwork.Orchestrator.Launch.{
  LaunchError, after_secret, secret_task, after_vm, launch_vm, vm_task, secrets_created,
  secret_failed,
}
use virtwork.Orchestrator.Ready.{
  ReadinessError, Tally, record_result, record_results, settle_workloads, conclude, check_results,
  not_waiting, waited, default_poll_interval, seconds,
}
use virtwork.Orchestrator.Run.{
  Surroundings, update_statuses, CreatesRunSecrets, CreatesRunVms, WaitsForRun,
}

-- Once there, `P` is there to stay: no call that a run makes undoes it, nor what happens outside.
pub record Endures {W : Type 0} (s : Surroundings W) (outside : W → W → Type 0) (exec_id : ℕ)
    (P : W → Type 0) : Type 0 where
  pub created : (o : Object) (w : W) → P w → P (s.client.create o w).1
  pub read : (name ns : String) (w : W) → P w → P (s.client.get_phase name ns w).1
  pub paused : (n : ℕ) (w : W) → P w → P (s.ctx.pause n w).1
  pub resource : (r : ResourceRecord) (w : W) → P w → P (s.auditor.record_resource exec_id r w).1
  pub vm : (id : ℕ) (r : VmRecord) (w : W) → P w → P (s.auditor.record_vm exec_id id r w).1
  pub event : (e : EventRecord) (w : W) → P w → P (s.auditor.record_event exec_id e w).1
  pub status :
      (id : ℕ) (status : String) (w : W) → P w → P (s.auditor.update_workload_status id status w).1
  pub meanwhile : (w v : W) → outside w v → P w → P v

module _ {W : Type 0} (s : Surroundings W) (outside : W → W → Type 0) (cfg : Config) (exec_id : ℕ)
    (run_id : String) (P : W → Type 0) (h : Endures s outside exec_id P) where
  created-keeps : (r : Option ApiError × W) → P r.1 → P (created r).1
  created-keeps (none, w) p = p
  created-keeps (some e, w) p = p

  forgive-keeps : (r : Option ApiError × W) → P r.1 → P (forgive is_already_exists r).1
  unfolding forgive
  forgive-keeps (none, w) p = p
  forgive-keeps (some e, w) p = p

  create_secret-keeps :
      (p : VmPlan) (w : W)
      → P w
      → P
          (create_cloud_init_secret s.client
            (secret_name p)
            cfg.namespace
            p.vm_spec.cloud_init_userdata
            (secret_labels run_id p)
            w).1
  unfolding create_cloud_init_secret
  create_secret-keeps p w k =
      elim (Bool-cases (ltb max_secret_data_size (length (bytes p.vm_spec.cloud_init_userdata)))) [
        | inl t ↦ rw t k
        | inr f ↦ rw f (
            created-keeps (s.client.create (a_secret (secret_of cfg run_id p)) w) (h.created _ w k))
      ]

  create_vm-keeps : (vm : VirtualMachine) (w : W) → P w → P (create_vm s.client s.ctx vm w).1
  unfolding create_vm
  create_vm-keeps vm w k =
      retry_on_transient-keeps s.ctx
        (λ v. forgive is_already_exists (s.client.create (a_vm (unversioned vm)) v))
        default_max_retries P
        (λ v q.
          forgive-keeps (s.client.create (a_vm (unversioned vm)) v)
            (h.created (a_vm (unversioned vm)) v q))
        h.paused w k

  module _ (vm_created vm_failed : String → String) (error_text : RetryError → String) where
    after_secret-IsQuiet :
        (p : VmPlan) (o : Option ResourceError)
        → IsQuiet P (
            after_secret s.is_quantity vm_created vm_failed error_text s.client s.ctx s.auditor cfg
              exec_id run_id p o)
    unfolding after_secret
    after_secret-IsQuiet p none = λ w. (h.resource _ w, tt)
    after_secret-IsQuiet p (some e) = tt

    pub secret_task-IsQuiet :
        (p : VmPlan)
        → IsQuiet P (
            secret_task s.is_quantity vm_created vm_failed error_text s.client s.ctx s.auditor cfg
              exec_id run_id p)
    unfolding secret_task
    secret_task-IsQuiet p = λ w. (create_secret-keeps p w, after_secret-IsQuiet p _)

    after_vm-IsQuiet :
        (ids : Assoc ℕ) (p : VmPlan) (o : Option RetryError)
        → IsQuiet P (
            after_vm s.is_quantity vm_created vm_failed error_text s.client s.ctx s.auditor cfg
              exec_id run_id ids p o)
    unfolding after_vm
    after_vm-IsQuiet ids p none = λ w. (h.vm _ _ w, (λ v. (h.event _ v, tt)))
    after_vm-IsQuiet ids p (some e) = λ w. (h.event _ w, tt)

    launch_vm-IsQuiet :
        (ids : Assoc ℕ) (p : VmPlan) (r : Result SpecError VirtualMachine)
        → IsQuiet P (
            launch_vm s.is_quantity vm_created vm_failed error_text s.client s.ctx s.auditor cfg
              exec_id run_id ids p r)
    unfolding launch_vm
    launch_vm-IsQuiet ids p (err e) = tt
    launch_vm-IsQuiet ids p (ok vm) = λ w. (create_vm-keeps vm w, after_vm-IsQuiet ids p _)

    pub vm_task-IsQuiet :
        (ids : Assoc ℕ) (p : VmPlan)
        → IsQuiet P (
            vm_task s.is_quantity vm_created vm_failed error_text s.client s.ctx s.auditor cfg
              exec_id run_id ids p)
    unfolding vm_task
    vm_task-IsQuiet ids p = launch_vm-IsQuiet ids p _

  module _ (namespace : String) (interval : ℕ) (timeout : ℤ) (name : String) where
    pause_task-IsQuiet :
        (rest : Task W Stop)
        → IsQuiet P rest
        → IsQuiet P (pause_task s.client s.ctx s.now namespace interval timeout name rest)
    unfolding pause_task after_pause
    pause_task-IsQuiet rest g = λ w. (
      h.paused interval w,
      elim (Bool-cases (s.ctx.pause interval w).0) [ inl d ↦ rw d tt | inr d ↦ rw d g ],
    )

    after_read-IsQuiet :
        (rest : Task W Stop) (r : Result ApiError String)
        → IsQuiet P rest
        → IsQuiet P (after_read s.client s.ctx s.now namespace interval timeout name rest r)
    unfolding after_read
    after_read-IsQuiet rest (err e) g = elim (Bool-cases (is_not_found e)) [
      | inl t ↦ rw t (pause_task-IsQuiet rest g)
      | inr f ↦ rw f tt
    ]
    after_read-IsQuiet rest (ok phase) g = elim (Bool-cases (phase == "Running")) [
      | inl t ↦ rw t tt
      | inr f ↦ rw f (pause_task-IsQuiet rest g)
    ]

    check_task-IsQuiet :
        (is_done is_past : Bool) (rest : Task W Stop)
        → IsQuiet P rest
        → IsQuiet P
            (check_task s.client s.ctx s.now namespace interval timeout name is_done is_past rest)
    unfolding check_task
    check_task-IsQuiet is_done is_past rest g = elim (Bool-cases is_done) [
      | inl d ↦ rw d tt
      | inr d ↦ elim (Bool-cases is_past) [
        | inl l ↦ rw (d, l) tt
        | inr l ↦ rw (d, l) (λ w. (h.read name namespace w, after_read-IsQuiet rest _ g))
      ]
    ]

    rounds_task-IsQuiet :
        (fuel start : ℕ)
        → IsQuiet P (rounds_task s.client s.ctx s.now namespace interval timeout name fuel start)
    unfolding rounds_task
    rounds_task-IsQuiet zero start = tt
    rounds_task-IsQuiet (suc fuel) start =
        λ w. ((λ p. p), check_task-IsQuiet _ _ _ (rounds_task-IsQuiet fuel start))

    pub wait_task-IsQuiet :
        (fuel : ℕ) → IsQuiet P (wait_task s.client s.ctx s.now namespace interval timeout name fuel)
    unfolding wait_task
    wait_task-IsQuiet fuel = λ w. ((λ p. p), rounds_task-IsQuiet fuel _)
