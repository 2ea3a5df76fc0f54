-- ===== src/Orchestrator/Selected.antt =====
-- A cleanup with the run's id finds what a run plans.
use virtwork.Base.{
  ℕ, zero, suc, String, Option, none, some, List, [], ◌∷◌, ◌++◌, Result, ok, err, then_ok-OnOk,
  then_ok-each, OnOk, ◌≡◌, refl, sym, ap, ◌∙◌, All, All-append, ◌==◌, Bool-cases, inl, inr,
}
use virtwork.Base.Int.{ℤ, rounds}
use virtwork.Base.Assoc.{lookup, insert}
use virtwork.Config.{Config}
use virtwork.Kube.{DataVolumeTemplate}
use virtwork.Kube.Client.{Matches}
use virtwork.Cleanup.{managed_labels}
use virtwork.Workloads.Contract.{Workload, MultiVm, RoleSpec}
use virtwork.Audit.{Auditor}
use virtwork.Workloads.Registry.{Registry, RegistryOption}
use virtwork.Orchestrator.{VmPlan}
use virtwork.Orchestrator.PlanVms.{
  Planned, nothing_planned, plan_names, and_then, plan_recorded, plan_checked, plan_next, plan_vms,
}
use virtwork.Orchestrator.Plan.{
  PlanError, VmSource, plan_labels, plan_vm, plan_range, plan_single, plan_role, plan_roles,
  plan_kind, plan_workload, is_disabled, single_source, role_source, label_role,
}

module _ (cfg : Config) (run_id : String) where
  -- The plan's VM lies in the configured namespace, has the plan's name, and carries the labels by
  -- which a cleanup selects.
  abbrev pub IsFound : VmPlan → Type 0
  IsFound p =
      (p.vm_spec.namespace ≡ cfg.namespace)
      × (p.vm_spec.name ≡ p.vm_name)
      × Matches (managed_labels run_id) p.vm_spec.labels

  plan_labels-Matches : (name : String) → Matches (managed_labels run_id) (plan_labels name run_id)
  unfolding managed_labels lookup
  plan_labels-Matches name = elim (Bool-cases (run_id == "")) [
    | inl e ↦ rw e (refl, tt)
    | inr e ↦ rw e (refl, (refl, tt))
  ]

  role_labels-Matches :
      (name role : String)
      → Matches (managed_labels run_id) (plan_labels name run_id ++ ((label_role, role) ∷ []))
  unfolding managed_labels lookup
  role_labels-Matches name role = elim (Bool-cases (run_id == "")) [
    | inl e ↦ rw e (refl, tt)
    | inr e ↦ rw e (refl, (refl, tt))
  ]

  module _ (name : String) (w : Workload) where
    plan_vm-IsFound :
        (s : VmSource)
        → Matches (managed_labels run_id) s.source_labels
        → OnOk IsFound (plan_vm cfg name w s)
    unfolding plan_vm
    plan_vm-IsFound s m = then_ok-each IsFound _ _ (λ dvts. (refl, refl, m))

    plan_range-IsFound :
        (source : ℕ → VmSource)
        → ((i : ℕ) → Matches (managed_labels run_id) (source i).source_labels)
        → (left i : ℕ) → OnOk (All IsFound) (plan_range cfg name w source left i)
    unfolding plan_range
    plan_range-IsFound source m zero i = tt
    plan_range-IsFound source m (suc left) i =
        then_ok-OnOk IsFound (All IsFound) _ _ (plan_vm-IsFound (source i) (m i)) (λ p h.
          then_ok-OnOk (All IsFound) (All IsFound) _ _ (plan_range-IsFound source m left (suc i))
            (λ rest hs. (h, hs)))

    plan_single-IsFound : OnOk (All IsFound) (plan_single cfg run_id name w)
    unfolding plan_single
    plan_single-IsFound = then_ok-each (All IsFound) _ _ (λ userdata.
        plan_range-IsFound (single_source cfg run_id name w userdata)
          (λ i. plan_labels-Matches name) (rounds w.workload_vm_count) 0)

    plan_role-IsFound :
        (m : MultiVm) (rs : RoleSpec) → OnOk (All IsFound) (plan_role cfg run_id name w m rs)
    unfolding plan_role
    plan_role-IsFound m rs = then_ok-each (All IsFound) _ _ (λ userdata.
        plan_range-IsFound (role_source cfg run_id name w rs.role userdata)
          (λ i. role_labels-Matches name rs.role) (rounds rs.role_vm_count) 0)

    plan_roles-IsFound :
        (m : MultiVm) (roles : List RoleSpec)
        → OnOk (All IsFound) (plan_roles cfg run_id name w m roles)
    unfolding plan_roles
    plan_roles-IsFound m [] = tt
    plan_roles-IsFound m (rs ∷ roles) =
        then_ok-OnOk (All IsFound) (All IsFound) _ _ (plan_role-IsFound m rs) (λ plans h.
          then_ok-OnOk (All IsFound) (All IsFound) _ _ (plan_roles-IsFound m roles)
            (λ rest hs. All-append IsFound plans rest h hs))

    plan_kind-IsFound : (o : Option MultiVm) → OnOk (All IsFound) (plan_kind cfg run_id name w o)
    unfolding plan_kind
    plan_kind-IsFound none = plan_single-IsFound
    plan_kind-IsFound (some m) = plan_roles-IsFound m m.role_distribution

  plan_workload-IsFound :
      (name : String) (w : Workload) → OnOk (All IsFound) (plan_workload cfg run_id name w)
  unfolding plan_workload
  plan_workload-IsFound name w = plan_kind-IsFound name w w.multi

module _ {W : Type 0} (quote : String → String) (auditor : Auditor W) (cfg : Config) (exec_id : ℕ)
    (run_id : String) (vm_count_flag : ℤ) (registry : Registry)
    (options : List RegistryOption) where
  -- what holds of the plans so far
  abbrev pub AreFound : Planned → Type 0
  AreFound p = All (IsFound cfg run_id) p.plans × (p.vm_names ≡ plan_names p.plans)

  plan_names-append : (xs ys : List VmPlan) → plan_names (xs ++ ys) ≡ plan_names xs ++ plan_names ys
  plan_names-append [] ys = refl
  plan_names-append (x ∷ xs) ys = ap (λ l. x.vm_name ∷ l) (plan_names-append xs ys)

  abbrev IsLeft : Result PlanError Planned × W → Type 0
  IsLeft r = OnOk AreFound (r.0)

  plan_recorded-AreFound :
      (name : String) (w : Workload) (r : Result PlanError (List DataVolumeTemplate)) (p : Planned)
      (world : W)
      → AreFound p
      → IsLeft (
          plan_recorded quote auditor cfg exec_id run_id vm_count_flag registry options name w r p
            world)
  unfolding plan_recorded
  plan_recorded-AreFound name w (err e) p world h = tt
  plan_recorded-AreFound name w (ok dvts) p world (found, names) =
      then_ok-OnOk (All (IsFound cfg run_id)) AreFound _ _ (plan_workload-IsFound cfg run_id name w)
        (λ plans h. (
          All-append (IsFound cfg run_id) p.plans plans found h,
          ap (λ l. l ++ plan_names plans) names ∙ sym (plan_names-append p.plans plans),
        ))

  plan_checked-AreFound :
      (name : String) (r : Result PlanError Workload) (p : Planned) (world : W)
      → AreFound p
      → IsLeft (
          plan_checked quote auditor cfg exec_id run_id vm_count_flag registry options name r p
            world)
  unfolding plan_checked
  plan_checked-AreFound name (err e) p world h = tt
  plan_checked-AreFound name (ok w) p world h =
      plan_recorded-AreFound name w _
        (record p { workload_instances = insert name w p.workload_instances }) world h

  plan_next-AreFound :
      (name : String) (p : Planned) (world : W)
      → AreFound p
      → IsLeft
          (plan_next quote auditor cfg exec_id run_id vm_count_flag registry options name p world)
  unfolding plan_next
  plan_next-AreFound name p world h = elim (Bool-cases (is_disabled cfg name)) [
    | inl d ↦ rw d h
    | inr d ↦ rw d (plan_checked-AreFound name _ p world h)
  ]

  and_then-AreFound :
      (r : Result PlanError Planned × W) (rest : Planned → W → Result PlanError Planned × W)
      → OnOk AreFound r.0
      → ((p : Planned) (w : W) → AreFound p → OnOk AreFound (rest p w).0)
      → OnOk AreFound (and_then r rest).0
  unfolding and_then
  and_then-AreFound (err e, w) rest h f = tt
  and_then-AreFound (ok p, w) rest h f = f p w h

  plan_vms-AreFound :
      (names : List String) (p : Planned) (world : W)
      → AreFound p
      → IsLeft
          (plan_vms quote auditor cfg exec_id run_id vm_count_flag registry options names p world)
  unfolding plan_vms
  plan_vms-AreFound [] p world h = h
  plan_vms-AreFound (name ∷ names) p world h =
      and_then-AreFound _ _ (plan_next-AreFound name p world h)
        (λ p' w'. plan_vms-AreFound names p' w')

  -- If the planning of a run succeeds, each planned VM lies in the configured namespace and carries
  -- the labels that a cleanup with the run's id selects by, and so does a cleanup of all runs; and the
  -- list of the names has the VMs of the plans in their order.
  pub plan_vms-selected :
      (names : List String) (world : W)
      → OnOk
          (λ (p : Planned). All (IsFound cfg run_id) p.plans × (p.vm_names ≡ plan_names p.plans))
          (plan_vms quote auditor cfg exec_id run_id vm_count_flag registry options names
            nothing_planned world).0
  plan_vms-selected names world = plan_vms-AreFound names nothing_planned world (tt, refl)
