-- ===== src/Orchestrator/Selectors.antt =====
-- Which of the VMs that a run plans the services of the workloads select.

use virtwork.Base.{
  ne→beq, All-map_of, ℕ, zero, suc, String, Option, none, some, List, [], ◌∷◌, ◌++◌, then_ok-OnOk,
  then_ok-each, OnOk, OnOk-map, ◌≡◌, ◌≢◌, ◌↔◌, refl, All, All-append,
}
use virtwork.Base.Int.{rounds}
use virtwork.Base.Assoc.{lookup}
use virtwork.Config.{Config}
use virtwork.Kube.{Service}
use virtwork.Kube.Client.{Matches}
use virtwork.Catalog.{ServiceDefinition, build_catalog_service_spec}
use virtwork.Workloads.Contract.{Workload, MultiVm, RoleSpec}
use virtwork.Workloads.BuiltIn.{network_service, tps_service}
use virtwork.Orchestrator.{VmPlan}
use virtwork.Orchestrator.Plan.{
  plan_labels, plan_vm, plan_range, plan_role, plan_roles, plan_kind, plan_workload, role_source,
  label_role,
}

abbrev IsSelected : Service → VmPlan → Type 0
IsSelected svc p = Matches svc.selector p.vm_spec.labels

-- the selection of a service that may not be there
abbrev pub IsSelectedBy : Option Service → VmPlan → Type 0
IsSelectedBy none p = ⊥
IsSelectedBy (some svc) p = Matches svc.selector p.vm_spec.labels

-- Which services select the VM: that of the workload network, that of tps, and that of a catalog entry
-- whose service is for a role.
abbrev pub IsServed : String → String → VmPlan → Type 0
IsServed namespace name p =
    (Matches (network_service namespace).selector p.vm_spec.labels ↔ (p.role ≡ "server"))
    × (Matches (tps_service namespace).selector p.vm_spec.labels
        ↔ ((p.role ≡ "server") × (name ≡ "tps")))
    × ((entry : String) (def : ServiceDefinition)
        → def.selector_role ≢ ""
        → IsSelectedBy (build_catalog_service_spec entry namespace (some def)) p
          ↔ (p.role ≡ def.selector_role))

module _ (cfg : Config) (run_id name : String) where
  -- the labels of a VM with a role
  abbrev HasRole : VmPlan → Type 0
  HasRole p = p.vm_spec.labels ≡ plan_labels name run_id ++ ((label_role, p.role) ∷ [])

  HasRole-IsServed : (namespace : String) (p : VmPlan) → HasRole p → IsServed namespace name p
  unfolding lookup build_catalog_service_spec
  HasRole-IsServed namespace p h = rw h (
      (
        ((λ (e, u). cc), (λ e. (cc, tt))),
        ((λ (e, (f, u)). (cc, cc)), (λ (e, f). (cc, (cc, tt)))),
        (λ entry def n. rw (ne→beq def.selector_role "" n) ((λ (e, u). cc), (λ e. (cc, tt)))),
      ))

  module _ (w : Workload) where
    plan_vm-HasRole :
        (role userdata : String) (i : ℕ)
        → OnOk HasRole (plan_vm cfg name w (role_source cfg run_id name w role userdata i))
    unfolding plan_vm
    plan_vm-HasRole role userdata i = then_ok-each HasRole _ _ (λ dvts. refl)

    plan_range-HasRole :
        (role userdata : String) (left i : ℕ)
        → OnOk
            (All HasRole)
            (plan_range cfg name w (role_source cfg run_id name w role userdata) left i)
    unfolding plan_range
    plan_range-HasRole role userdata zero i = tt
    plan_range-HasRole role userdata (suc left) i =
        then_ok-OnOk HasRole (All HasRole) _ _ (plan_vm-HasRole role userdata i) (λ p h.
          then_ok-OnOk (All HasRole) (All HasRole) _ _
            (plan_range-HasRole role userdata left (suc i)) (λ rest hs. (h, hs)))

    plan_role-HasRole :
        (m : MultiVm) (rs : RoleSpec) → OnOk (All HasRole) (plan_role cfg run_id name w m rs)
    unfolding plan_role
    plan_role-HasRole m rs =
        then_ok-each (All HasRole) _ _
          (λ userdata. plan_range-HasRole rs.role userdata (rounds rs.role_vm_count) 0)

    plan_roles-HasRole :
        (m : MultiVm) (roles : List RoleSpec)
        → OnOk (All HasRole) (plan_roles cfg run_id name w m roles)
    unfolding plan_roles
    plan_roles-HasRole m [] = tt
    plan_roles-HasRole m (rs ∷ roles) =
        then_ok-OnOk (All HasRole) (All HasRole) _ _ (plan_role-HasRole m rs) (λ ps hs.
          then_ok-OnOk (All HasRole) (All HasRole) _ _ (plan_roles-HasRole m roles)
            (λ qs ks. All-append HasRole ps qs hs ks))

    plan_kind-IsServed :
        (o : Option MultiVm) (m : MultiVm) (namespace : String)
        → o ≡ some m
        → OnOk (All (IsServed namespace name)) (plan_kind cfg run_id name w o)
    unfolding plan_kind
    plan_kind-IsServed none m namespace e = absurd (cc)
    plan_kind-IsServed (some n) m namespace e =
        OnOk-map _ (plan_roles-HasRole n n.role_distribution)
          (λ ps h. All-map_of ps (HasRole-IsServed namespace) h)

    -- Of the VMs that are planned for a workload with roles, whatever its name: the service of
    -- "network" selects those of the role "server", that of "tps" selects those of the role "server"
    -- if the workload is "tps", and that of a catalog entry, if it is for a role, those of this role.
    pub plan_workload-IsServed :
        (m : MultiVm) (namespace : String)
        → w.multi ≡ some m
        → OnOk (All (IsServed namespace name)) (plan_workload cfg run_id name w)
    unfolding plan_workload
    plan_workload-IsServed m namespace e = plan_kind-IsServed w.multi m namespace e
