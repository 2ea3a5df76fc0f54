-- ===== src/Orchestrator/Plan.antt =====
-- `planVMs` of internal/orchestrator/orchestrator.go
use Prim.Native.String
use virtwork.Base.{
  ℕ, zero, suc, String, Bool, true, false, Option, none, some, List, [], ◌∷◌, ◌++◌, ◌==◌, Result,
  ok, then_ok, wrap, if◌then◌else◌,
}
use virtwork.Base.Int.{ℤ, below, rounds}
use virtwork.Base.Assoc.{lookup}
use virtwork.Base.Text.Decimal.{itoa}
use virtwork.Constants.{
  label_app_name, label_managed_by, managed_by_value, label_component, label_run_id,
}
use virtwork.Config.{Config, WorkloadConfig}
use virtwork.Kube.{Labels}
use virtwork.Vm.{SpecError}
use virtwork.Workloads.Contract.{Workload, MultiVm, RoleSpec, UserdataError}
use virtwork.Workloads.Registry.{RegistryError}
use virtwork.Orchestrator.{VmPlan, namespace_data_volumes}

pub data PlanError : Type 0 where
  invalid_params : String → RegistryError → PlanError
  creating_workload : String → RegistryError → PlanError
  building_templates : String → SpecError → PlanError
  building_vm_templates : String → String → SpecError → PlanError
  generating_cloud_init : String → UserdataError → PlanError
  generating_role_cloud_init : String → String → UserdataError → PlanError

abbrev pub app_name : String → String
app_name name = String.◌++◌ "virtwork-" name

-- `fmt.Sprintf("virtwork-%s-%d", name, i)`
abbrev pub vm_name_of : String → ℕ → String
vm_name_of name i = String.◌++◌ (app_name name) (String.◌++◌ "-" (itoa i))

-- `fmt.Sprintf("virtwork-%s-%s-%d", name, role, i)`
abbrev pub role_vm_name_of : String → String → ℕ → String
role_vm_name_of name role i =
    String.◌++◌ (String.◌++◌ (app_name name) (String.◌++◌ "-" role)) (String.◌++◌ "-" (itoa i))

abbrev pub plan_labels : String → String → Labels
plan_labels name run_id =
    (label_app_name, app_name name)
    ∷ (label_managed_by, managed_by_value)
    ∷ (label_component, name)
    ∷ (label_run_id, run_id)
    ∷ []

abbrev pub label_role : String
label_role = "virtwork/role"

-- the settings of a workload: those of the command line and the configuration, and those of its own
-- section where they are given
unfoldable pub workload_config : Config → ℤ → String → WorkloadConfig
workload_config cfg vm_count_flag name = merged (lookup name cfg.workloads)
  where
    merged : Option WorkloadConfig → WorkloadConfig
    merged none = record {
      enabled = some true;
      vm_count = vm_count_flag;
      cpu_cores = cfg.cpu_cores;
      memory = cfg.memory;
      params = [];
    }
    merged (some file) = record {
      enabled = some true;
      vm_count = if below file.vm_count 1 then vm_count_flag else file.vm_count;
      cpu_cores = if below file.cpu_cores 1 then cfg.cpu_cores else file.cpu_cores;
      memory = if file.memory == "" then cfg.memory else file.memory;
      params = file.params;
    }

-- `fileCfg.Enabled != nil && !*fileCfg.Enabled`
unfoldable pub is_disabled : Config → String → Bool
is_disabled cfg name = disabled (lookup name cfg.workloads)
  where
    is_false : Option Bool → Bool
    is_false (some false) = true
    is_false _ = false

    disabled : Option WorkloadConfig → Bool
    disabled none = false
    disabled (some file) = is_false file.enabled

-- What one VM of a workload is planned from.
pub record VmSource : Type 0 where
  pub source_vm_name : String
  pub source_role : String
  pub source_labels : Labels
  pub source_userdata : String

module _ (cfg : Config) (name : String) (w : Workload) where
  unfoldable pub plan_vm : VmSource → Result PlanError VmPlan
  plan_vm s =
      then_ok (wrap (building_vm_templates name s.source_vm_name) w.data_volume_templates) (λ dvts.
        let (templates, volumes) = namespace_data_volumes dvts w.extra_volumes s.source_vm_name in
        ok (record {
          workload_name = name;
          vm_name = s.source_vm_name;
          component = name;
          role = s.source_role;
          vm_spec = record {
            name = s.source_vm_name;
            namespace = cfg.namespace;
            container_disk_image = cfg.container_disk_image;
            cloud_init_userdata = s.source_userdata;
            cloud_init_secret_name = "";
            cpu_cores = w.vm_resources.res_cpu_cores;
            memory = w.vm_resources.res_memory;
            labels = s.source_labels;
            extra_disks = w.extra_disks;
            extra_volumes = volumes;
            data_volume_templates = templates;
          };
        }))

  -- `for i := range n`, with the rounds that are left and `i`
  unfoldable pub plan_range : (ℕ → VmSource) → (left i : ℕ) → Result PlanError (List VmPlan)
  plan_range source zero i = ok []
  plan_range source (suc left) i =
      then_ok (plan_vm (source i))
        (λ plan. then_ok (plan_range source left (suc i)) (λ plans. ok (plan ∷ plans)))

module _ (cfg : Config) (run_id name : String) (w : Workload) where
  abbrev pub single_source : String → ℕ → VmSource
  single_source userdata i = record {
    source_vm_name = vm_name_of name i;
    source_role = "";
    source_labels = plan_labels name run_id;
    source_userdata = userdata;
  }

  abbrev pub role_source : String → String → ℕ → VmSource
  role_source role userdata i = record {
    source_vm_name = role_vm_name_of name role i;
    source_role = role;
    source_labels = plan_labels name run_id ++ ((label_role, role) ∷ []);
    source_userdata = userdata;
  }

  -- the branch for a workload that is not a `MultiVMWorkload`
  unfoldable pub plan_single : Result PlanError (List VmPlan)
  plan_single =
      then_ok (wrap (generating_cloud_init name) w.cloud_init_userdata)
        (λ userdata. plan_range cfg name w (single_source userdata) (rounds w.workload_vm_count) 0)

  unfoldable pub plan_role : MultiVm → RoleSpec → Result PlanError (List VmPlan)
  plan_role m rs =
      then_ok
        (wrap (generating_role_cloud_init name rs.role) (m.userdata_for_role rs.role cfg.namespace))
        (λ userdata.
          plan_range cfg name w (role_source rs.role userdata) (rounds rs.role_vm_count) 0)

  unfoldable pub plan_roles : MultiVm → List RoleSpec → Result PlanError (List VmPlan)
  plan_roles m [] = ok []
  plan_roles m (rs ∷ roles) =
      then_ok (plan_role m rs) (λ plans. then_ok (plan_roles m roles) (λ rest. ok (plans ++ rest)))

  unfoldable pub plan_kind : Option MultiVm → Result PlanError (List VmPlan)
  plan_kind none = plan_single
  plan_kind (some m) = plan_roles m m.role_distribution

  unfoldable pub plan_workload : Result PlanError (List VmPlan)
  plan_workload = plan_kind w.multi
