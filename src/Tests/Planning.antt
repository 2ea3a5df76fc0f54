-- ===== src/Tests/Planning.antt =====
-- The planning of a run (internal/orchestrator/orchestrator.go).
use virtwork.Base.{
  String, true, false, none, some, List, [], ◌∷◌, ◌≡◌, ◌↔◌, ok, OnOk, All, Distinct, inl, inr,
  length, eq_iff, refl,
}
use virtwork.Base.Int.{pos}
use virtwork.Audit.{no_op}
use virtwork.Workloads.Params.{param_int}
use virtwork.Workloads.Contract.{Workload, MultiVm}
use virtwork.Workloads.Registry.{Registry, validate_params}
use virtwork.Workloads.Registry.Laws.{AreParams, validate_params_iff}
use virtwork.Orchestrator.{VmPlan}
use virtwork.Orchestrator.Plan.{plan_workload}
use virtwork.Orchestrator.PlanVms.{Planned, nothing_planned, plan_names, plan_vms}
use virtwork.Orchestrator.Selected.{IsFound, plan_vms-selected}
use virtwork.Orchestrator.Selectors.{IsServed, plan_workload-IsServed}
use virtwork.Orchestrator.Names.{plan_workload-names}
use virtwork.Tests.Cleanup.{sample}

abbrev network_roles : MultiVm
network_roles = record {
  role_distribution =
      record { role = "server"; role_vm_count = pos 1 }
      ∷ record { role = "client"; role_vm_count = pos 2 }
      ∷ [];
  userdata_for_role = λ role ns. ok "#cloud-config";
}

abbrev pub network : Workload
network = record {
  cloud_init_userdata = ok "#cloud-config";
  vm_resources = record { res_cpu_cores = pos 2; res_memory = "2Gi" };
  extra_volumes = [];
  extra_disks = [];
  data_volume_templates = ok [];
  requires_service = false;
  service_spec = none;
  workload_vm_count = pos 3;
  multi = some network_roles;
}

abbrev registry : Registry
registry =
    (
      "network",
      record {
        factory = λ cfg opts. network;
        param_schema =
            record { key = "parallel-streams"; type = param_int; default = "4"; desc = "" } ∷ [];
      },
    )
    ∷ []

abbrev params : List (String × String)
params = ("parallel-streams", "8") ∷ []

validate_params_iff_example :
    (validate_params registry "network" params ≡ none) ↔ AreParams registry "network" params
validate_params_iff_example = validate_params_iff registry "network" params

abbrev roles : List String
roles = "server" ∷ "client" ∷ []

roles-Distinct : Distinct roles
roles-Distinct = ((λ i. elim i [ inl e ↦ clash e | inr j ↦ j ]), ((λ i. i), tt))
  where
    clash : ◌≡◌ {A = String} "server" "client" → ⊥
    clash e = let same : false ≡ true = (eq_iff "server" "client").1 e in absurd (cc)

plan_workload-names_example :
    OnOk
      (λ (plans : List VmPlan). Distinct (plan_names plans) × (length plans ≡ 3))
      (plan_workload sample "r1" "network" network)
plan_workload-names_example = plan_workload-names sample "r1" "network" network roles-Distinct

plan_vms-selected_example :
    OnOk
      (λ (p : Planned). All (IsFound sample "r1") p.plans × (p.vm_names ≡ plan_names p.plans))
      (plan_vms
        (λ s. s)
        no_op
        sample
        1
        "r1"
        (pos 1)
        registry
        []
        ("network" ∷ [])
        nothing_planned
        tt).0
plan_vms-selected_example =
    plan_vms-selected (λ s. s) no_op sample 1 "r1" (pos 1) registry [] ("network" ∷ []) tt

plan_workload-IsServed_example :
    OnOk (All (IsServed "virtwork" "network")) (plan_workload sample "r1" "network" network)
plan_workload-IsServed_example =
    plan_workload-IsServed sample "r1" "network" network network_roles "virtwork" refl
