-- ===== src/Orchestrator/Launch/Vms.antt =====
-- The VMs of a run are there when `createVMs` returns nil.
use virtwork.Base.{
  ℕ, String, Bool, true, false, Option, none, some, List, [], ◌∷◌, map, Result, ok, err, ◌≡◌, refl,
}
use virtwork.Base.Assoc.{Assoc}
use virtwork.Config.{Config}
use virtwork.Audit.{Auditor, EventRecord, VmRecord}
use virtwork.Kube.{ApiError, VirtualMachine}
use virtwork.Kube.Client.{Client, a_vm}
use virtwork.Vm.{SpecError, build_vm_spec}
use virtwork.Vm.Retry.{
  Context, RetryError, cancelled, cancelled_in_backoff, api, retries_exceeded, is_already_exists,
  is_transient_error, default_max_retries,
}
use virtwork.Vm.Retry.Bounds.{Means}
use virtwork.Vm.Retry.Keeps.{retry_on_transient-keeps}
use virtwork.Vm.Calls.{unversioned, create_vm, create_vm-idempotent, Establishes, forgive}
use virtwork.Goroutines.{Task}
use virtwork.Goroutines.Together.{IsPolite, Attains, Each, Brought, Waits-Brought}
use virtwork.Orchestrator.{VmPlan}
use virtwork.Orchestrator.Objects.{opts_of}
use virtwork.Orchestrator.Launch.{
  LaunchError, creating_secret, building_vm_spec, creating_vm, after_vm, launch_vm, vm_task,
  CreatesVms,
}

-- What an error after all retries says: it is not transient, or it is the last of the attempts that
-- are allowed, or the context was cancelled.
abbrev pub IsFinal : RetryError → Type 0
IsFinal cancelled = Unit
IsFinal cancelled_in_backoff = Unit
IsFinal (api e) = is_transient_error e ≡ false
IsFinal (retries_exceeded n last) =
    (n ≡ default_max_retries) × ((e : ApiError) × (last ≡ some e) × (is_transient_error e ≡ true))

-- The error of a VM: BuildVMSpec refuses its plan, or its creation failed after all retries.
abbrev pub IsVmFault : (String → Bool) → VmPlan → LaunchError → Type 0
IsVmFault is_quantity p (building_vm_spec name e) =
    (name ≡ p.vm_name) × (build_vm_spec is_quantity (opts_of p) ≡ err e)
IsVmFault is_quantity p (creating_vm name e) = (name ≡ p.vm_name) × IsFinal e
IsVmFault is_quantity p (creating_secret name e) = ⊥

Means-IsFinal :
    {W : Type 0} (P : W → Type 0) (e : RetryError) (w : W)
    → Means W P default_max_retries (some e, w)
    → IsFinal e
Means-IsFinal P cancelled w m = m
Means-IsFinal P cancelled_in_backoff w m = m
Means-IsFinal P (api e) w m = m
Means-IsFinal P (retries_exceeded n last) w m = m

module _ {W : Type 0} (is_quantity : String → Bool) (created_text failed_text : String → String)
    (error_text : RetryError → String) (client : Client W) (ctx : Context W) (auditor : Auditor W)
    (cfg : Config) (exec_id : ℕ) (run_id : String) (outside : W → W → Type 0)
    (P : VmPlan → W → Type 0)
    (made : (p : VmPlan) (vm : VirtualMachine) (w : W)
      → build_vm_spec is_quantity (opts_of p) ≡ ok vm
      → Establishes (P p) is_already_exists (client.create (a_vm (unversioned vm)) w))
    (kept : (p : VmPlan) (vm : VirtualMachine) (w : W)
      → P p w
      → P p (client.create (a_vm (unversioned vm)) w).1)
    (paused : (p : VmPlan) (n : ℕ) (w : W) → P p w → P p (ctx.pause n w).1)
    (recorded : (p : VmPlan) (id : ℕ) (r : VmRecord) (w : W)
      → P p w
      → P p (auditor.record_vm exec_id id r w).1)
    (event : (p : VmPlan) (e : EventRecord) (w : W)
      → P p w
      → P p (auditor.record_event exec_id e w).1)
    (stays : (w v : W) → outside w v → (p : VmPlan) → P p w → P p v) where
  abbrev IsFault : VmPlan → LaunchError → Type 0
  IsFault = IsVmFault is_quantity

  abbrev task : Assoc ℕ → VmPlan → Task W LaunchError
  task =
      vm_task is_quantity created_text failed_text error_text client ctx auditor cfg exec_id run_id

  forgive-keeps :
      (p : VmPlan) (r : Option ApiError × W) → P p r.1 → P p (forgive is_already_exists r).1
  unfolding forgive
  forgive-keeps p (none, w) h = h
  forgive-keeps p (some e, w) h = h

  create_vm-keeps :
      (p : VmPlan) (vm : VirtualMachine) (w : W) → P p w → P p (create_vm client ctx vm w).1
  unfolding create_vm
  create_vm-keeps p vm w h =
      retry_on_transient-keeps ctx
        (λ v. forgive is_already_exists (client.create (a_vm (unversioned vm)) v))
        default_max_retries (P p)
        (λ v k. forgive-keeps p (client.create (a_vm (unversioned vm)) v) (kept p vm v k))
        (paused p) w h

  after_vm-IsPolite :
      (ids : Assoc ℕ) (p : VmPlan) (o : Option RetryError)
      → IsPolite P IsFault (
          after_vm is_quantity created_text failed_text error_text client ctx auditor cfg exec_id
            run_id ids p o)
  unfolding after_vm
  after_vm-IsPolite ids p (some e) = λ w. ((λ q h. event q _ w h), tt)
  after_vm-IsPolite ids p none =
      λ w. ((λ q h. recorded q _ _ w h), (λ v. ((λ q h. event q _ v h), tt)))

  after_vm-Attains :
      (ids : Assoc ℕ) (p : VmPlan) (r : Option RetryError × W)
      → Means W (P p) default_max_retries r
      → Attains P IsFault p
          (after_vm is_quantity created_text failed_text error_text client ctx auditor cfg exec_id
            run_id ids p r.0)
          r.1
  unfolding after_vm
  after_vm-Attains ids p (some e, w) m = λ v k. (refl, Means-IsFinal (P p) e w m)
  after_vm-Attains ids p (none, w) m = λ v k u l. event p _ u (l p (recorded p _ _ v (k p m)))

  launch_vm-Attains :
      (ids : Assoc ℕ) (p : VmPlan) (r : Result SpecError VirtualMachine) (w : W)
      → build_vm_spec is_quantity (opts_of p) ≡ r
      → Attains P IsFault p
          (launch_vm is_quantity created_text failed_text error_text client ctx auditor cfg exec_id
            run_id ids p r)
          w
  unfolding launch_vm
  launch_vm-Attains ids p (err e) w b = (refl, b)
  launch_vm-Attains ids p (ok vm) w b = λ v k.
      after_vm-Attains ids p (create_vm client ctx vm v)
        (create_vm-idempotent client ctx (P p) vm v (λ u. made p vm u b))

  launch_vm-IsPolite :
      (ids : Assoc ℕ) (p : VmPlan) (r : Result SpecError VirtualMachine)
      → IsPolite P IsFault (
          launch_vm is_quantity created_text failed_text error_text client ctx auditor cfg exec_id
            run_id ids p r)
  unfolding launch_vm
  launch_vm-IsPolite ids p (err e) = tt
  launch_vm-IsPolite ids p (ok vm) =
      λ w. ((λ q h. create_vm-keeps q vm w h), after_vm-IsPolite ids p _)

  tasks-Each :
      (ids : Assoc ℕ) (plans : List VmPlan) (w : W) → Each P IsFault plans (map (task ids) plans) w
  unfolding vm_task
  tasks-Each ids [] w = tt
  tasks-Each ids (p ∷ plans) w =
      (launch_vm-Attains ids p _ w refl, launch_vm-IsPolite ids p _, tasks-Each ids plans w)

  pub create_vms-Brought :
      (ids : Assoc ℕ) (plans : List VmPlan) (w : W) {r : Option LaunchError} {v : W}
      → CreatesVms is_quantity created_text failed_text error_text client ctx auditor cfg exec_id
          run_id outside plans ids w r v
      → Brought P (IsVmFault is_quantity) plans r v
  create_vms-Brought ids plans w returned =
      Waits-Brought P IsFault outside plans stays (tasks-Each ids plans w) returned
