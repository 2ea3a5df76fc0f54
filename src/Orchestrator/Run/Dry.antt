-- ===== src/Orchestrator/Run/Dry.antt =====
-- A dry run leaves the cluster as it is.
use virtwork.Base.{
  ℕ, suc, String, Bool, true, Option, none, some, List, [], ◌∷◌, map, Result, ok, err, ◌≡◌, subst,
  Bool-cases, inl, inr,
}
use virtwork.Base.Int.{ℤ}
use virtwork.Base.Assoc.{Assoc}
use virtwork.Config.{Config}
use virtwork.Kube.{Service, VirtualMachine, DataVolumeTemplate}
use virtwork.Vm.{SpecError}
use virtwork.Audit.{Auditor, EventRecord, WorkloadRecord}
use virtwork.Workloads.Contract.{Workload}
use virtwork.Workloads.Registry.{Registry, RegistryOption}
use virtwork.Orchestrator.{VmPlan}
use virtwork.Orchestrator.Objects.{with_secret}
use virtwork.Orchestrator.Create.{required_service}
use virtwork.Orchestrator.Plan.{PlanError, is_disabled}
use virtwork.Orchestrator.PlanVms.{
  Planned, nothing_planned, plan_recorded, plan_checked, plan_next, plan_vms, and_then,
}
use virtwork.Orchestrator.DryRun.{
  Document, DryRunError, Outcome, print_document, print_service, print_services, print_secrets,
  print_vm, print_vms, print_dry_run,
}
use virtwork.Orchestrator.Run.{
  RunError, RunResult, Surroundings, after_print, dry_run_planned, RunReturns, not_loaded,
  not_planned, printed, run,
}

-- What the planning keeps.
module _ {W : Type 0} (quote : String → String) (auditor : Auditor W) (cfg : Config) (exec_id : ℕ)
    (run_id : String) (vm_count_flag : ℤ) (registry : Registry) (options : List RegistryOption)
    (P : W → Type 0)
    (workload : (r : WorkloadRecord) (w : W) → P w → P (auditor.record_workload exec_id r w).1)
    (event : (e : EventRecord) (w : W) → P w → P (auditor.record_event exec_id e w).1) where
  plan_recorded-keeps :
      (name : String) (wl : Workload) (dvts : Result PlanError (List DataVolumeTemplate))
      (p : Planned) (w : W)
      → P w
      → P
          (plan_recorded quote auditor cfg exec_id run_id vm_count_flag registry options name wl
            dvts p w).1
  unfolding plan_recorded
  plan_recorded-keeps name wl (err e) p w h = h
  plan_recorded-keeps name wl (ok dvts) p w h = workload _ w h

  plan_checked-keeps :
      (name : String) (r : Result PlanError Workload) (p : Planned) (w : W)
      → P w
      → P
          (plan_checked quote auditor cfg exec_id run_id vm_count_flag registry options name r p
            w).1
  unfolding plan_checked
  plan_checked-keeps name (err e) p w h = h
  plan_checked-keeps name (ok wl) p w h = plan_recorded-keeps name wl _ _ w h

  plan_next-keeps :
      (name : String) (p : Planned) (w : W)
      → P w
      → P (plan_next quote auditor cfg exec_id run_id vm_count_flag registry options name p w).1
  unfolding plan_next
  plan_next-keeps name p w h = elim (Bool-cases (is_disabled cfg name)) [
    | inl d ↦ rw d (event _ w h)
    | inr d ↦ rw d (plan_checked-keeps name _ p w h)
  ]

  and_then-keeps :
      (r : Result PlanError Planned × W) (rest : Planned → W → Result PlanError Planned × W)
      → P r.1
      → ((p : Planned) (w : W) → P w → P (rest p w).1)
      → P (and_then r rest).1
  unfolding and_then
  and_then-keeps (ok p, w) rest h k = k p w h
  and_then-keeps (err e, w) rest h k = h

  plan_vms-keeps :
      (names : List String) (p : Planned) (w : W)
      → P w
      → P (plan_vms quote auditor cfg exec_id run_id vm_count_flag registry options names p w).1
  unfolding plan_vms
  plan_vms-keeps [] p w h = h
  plan_vms-keeps (name ∷ names) p w h =
      and_then-keeps _ _ (plan_next-keeps name p w h) (λ q v k. plan_vms-keeps names q v k)

-- What the printing keeps.
module _ {W : Type 0} (is_quantity : String → Bool) (marshal : Document → Result String String)
    (write : Document → String → W → W) (cfg : Config) (run_id : String) (P : W → Type 0)
    (written : (d : Document) (text : String) (w : W) → P w → P (write d text w)) where
  -- what a continuation keeps
  abbrev RestKeeps : (W → Outcome W) → Type 0
  RestKeeps rest = (w : W) → P w → P (rest w).1

  print_document-keeps :
      (d : Document) (f : String → DryRunError) (r : Result String String) (rest : W → Outcome W)
      → RestKeeps rest
      → RestKeeps (print_document is_quantity marshal write cfg run_id d f r rest)
  unfolding print_document
  print_document-keeps d f (err e) rest k w h = h
  print_document-keeps d f (ok text) rest k w h = k _ (written d text w h)

  print_service-keeps :
      (name : String) (o : Option Service) (n : ℕ) (rest : ℕ → W → Outcome W)
      → ((m : ℕ) → RestKeeps (rest m))
      → RestKeeps (print_service is_quantity marshal write cfg run_id name o n rest)
  unfolding print_service
  print_service-keeps name none n rest k w h = k n w h
  print_service-keeps name (some svc) n rest k w h =
      print_document-keeps _ _ _ (rest (suc n)) (k (suc n)) w h

  print_services-keeps :
      (instances : Assoc Workload) (n : ℕ) (rest : ℕ → W → Outcome W)
      → ((m : ℕ) → RestKeeps (rest m))
      → RestKeeps (print_services is_quantity marshal write cfg run_id instances n rest)
  unfolding print_services
  print_services-keeps [] n rest k w h = k n w h
  print_services-keeps ((name, wl) ∷ instances) n rest k w h =
      print_service-keeps name (required_service wl) n _
        (λ m. print_services-keeps instances m rest k) w h

  print_secrets-keeps :
      (plans : List VmPlan) (rest : W → Outcome W)
      → RestKeeps rest
      → RestKeeps (print_secrets is_quantity marshal write cfg run_id plans rest)
  unfolding print_secrets
  print_secrets-keeps [] rest k w h = k w h
  print_secrets-keeps (p ∷ plans) rest k w h =
      print_document-keeps _ _ _ _ (print_secrets-keeps plans rest k) w h

  print_vm-keeps :
      (p : VmPlan) (r : Result SpecError VirtualMachine) (rest : W → Outcome W)
      → RestKeeps rest
      → RestKeeps (print_vm is_quantity marshal write cfg run_id p r rest)
  unfolding print_vm
  print_vm-keeps p (err e) rest k w h = h
  print_vm-keeps p (ok vm) rest k w h = print_document-keeps _ _ _ rest k w h

  print_vms-keeps :
      (plans : List VmPlan) (rest : W → Outcome W)
      → RestKeeps rest
      → RestKeeps (print_vms is_quantity marshal write cfg run_id plans rest)
  unfolding print_vms
  print_vms-keeps [] rest k w h = k w h
  print_vms-keeps (p ∷ plans) rest k w h = print_vm-keeps p _ _ (print_vms-keeps plans rest k) w h

  print_dry_run-keeps :
      (plans : List VmPlan) (instances : Assoc Workload)
      → RestKeeps (print_dry_run is_quantity marshal write cfg run_id plans instances)
  unfolding print_dry_run
  print_dry_run-keeps plans instances w h =
      print_services-keeps instances 0 _
        (λ m. print_secrets-keeps plans _ (print_vms-keeps (map with_secret plans) _ (λ v k. k))) w
        h

module _ {W : Type 0} (s : Surroundings W) (outside : W → W → Type 0) (cfg : Config)
    (registry : Registry) (exec_id : ℕ) (run_id : String) (vm_count_flag : ℤ) where
  after_print-world :
      (P : W → Type 0) (p : Planned) (r : Outcome W)
      → P r.1
      → P (after_print s outside cfg registry exec_id run_id vm_count_flag p r).1
  unfolding after_print
  after_print-world P p (err e, w) h = h
  after_print-world P p (ok (n, m), w) h = h

  -- A dry run changes nothing that its entries in the audit database and its output leave alone,
  -- whatever it returns: nothing in the cluster is created, changed or deleted.
  pub run-dry_run :
      (P : W → Type 0)
      → ((r : WorkloadRecord) (w : W) → P w → P (s.auditor.record_workload exec_id r w).1)
      → ((e : EventRecord) (w : W) → P w → P (s.auditor.record_event exec_id e w).1)
      → ((d : Document) (text : String) (w : W) → P w → P (s.write d text w))
      → (names : List String) (w : W) {r : Result RunError RunResult} {v : W} → cfg.dry_run ≡ true
      → RunReturns s outside cfg registry exec_id run_id vm_count_flag names w r v
      → P w
      → P v
  unfolding dry_run_planned
  run-dry_run P workload event written names w dry (not_loaded e) h = h
  run-dry_run P workload event written names w dry (not_planned l e) h =
      subst (λ (x : Result PlanError Planned × W). P x.1) e
        (plan_vms-keeps s.texts.quote s.auditor cfg exec_id run_id vm_count_flag _ _ P workload
          event _ nothing_planned w h)
  run-dry_run P workload event written names w dry (printed {p = p} l e d) h =
      after_print-world P p _ (
        print_dry_run-keeps s.is_quantity s.marshal s.write cfg run_id P written p.plans
          p.workload_instances _
          (event _ _ (
            subst (λ (x : Result PlanError Planned × W). P x.1) e
              (plan_vms-keeps s.texts.quote s.auditor cfg exec_id run_id vm_count_flag _ _ P
                workload event _ nothing_planned w h))))
  run-dry_run P workload event written names w dry (run l e d launches) h = absurd (cc)
