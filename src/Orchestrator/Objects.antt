-- ===== src/Orchestrator/Objects.antt =====
-- internal/orchestrator/orchestrator.go: what `createSecrets`, `createVMs` and `printDryRun` build from
-- a plan.
use Prim.Native.String
use virtwork.Base.{String, Option, none, some, [], ◌∷◌}
use virtwork.Base.Assoc.{lookup}
use virtwork.Constants.{
  label_app_name, label_managed_by, managed_by_value, label_component, label_run_id,
}
use virtwork.Kube.{Labels}
use virtwork.Vm.{VmSpecOpts}
use virtwork.Orchestrator.{VmPlan}

abbrev pub secret_name : VmPlan → String
secret_name p = String.◌++◌ p.vm_name "-cloudinit"

-- a map's value, which is empty for a missing key
abbrev pub or_empty : Option String → String
or_empty none = ""
or_empty (some value) = value

-- `plans[i].VMSpec.CloudInitSecretName = secretName`
abbrev pub with_secret : VmPlan → VmPlan
with_secret p = record p { vm_spec = record (p.vm_spec) { cloud_init_secret_name = secret_name p } }

abbrev pub opts_of : VmPlan → VmSpecOpts
opts_of p = record {
  name = p.vm_spec.name;
  namespace = p.vm_spec.namespace;
  container_disk_image = p.vm_spec.container_disk_image;
  cloud_init_secret_name = p.vm_spec.cloud_init_secret_name;
  cpu_cores = p.vm_spec.cpu_cores;
  memory = p.vm_spec.memory;
  labels = p.vm_spec.labels;
  extra_disks = p.vm_spec.extra_disks;
  extra_volumes = p.vm_spec.extra_volumes;
  data_volume_templates = p.vm_spec.data_volume_templates;
}

abbrev pub secret_labels : String → VmPlan → Labels
secret_labels run_id p =
    (label_app_name, or_empty (lookup label_app_name p.vm_spec.labels))
    ∷ (label_managed_by, managed_by_value)
    ∷ (label_component, p.component)
    ∷ (label_run_id, run_id)
    ∷ []
