-- ===== src/Orchestrator.antt =====
-- internal/orchestrator/types.go: the plans, and the names of their data volumes.
pub mod Plan
pub mod PlanVms
pub mod Execute
pub mod Create
pub mod Objects
pub mod DryRun
pub mod Launch
pub mod Ready
pub mod Run
pub mod Volumes
pub mod Selected
pub mod Selectors
pub mod Names
use Prim.Native.String
use virtwork.Base.{String, Option, none, some, List, [], ◌∷◌, map}
use virtwork.Base.Int.{ℤ}
use virtwork.Base.Assoc.{Assoc, lookup, insert}
use virtwork.Kube.{
  Labels, Disk, Volume, VolumeSource, container_disk, cloud_init_no_cloud, data_volume,
  DataVolumeTemplate,
}

pub record VmSpecInput : Type 0 where
  pub name : String
  pub namespace : String
  pub container_disk_image : String
  pub cloud_init_userdata : String
  pub cloud_init_secret_name : String
  pub cpu_cores : ℤ
  pub memory : String
  pub labels : Labels
  pub extra_disks : List Disk
  pub extra_volumes : List Volume
  pub data_volume_templates : List DataVolumeTemplate

pub record VmPlan : Type 0 where
  pub workload_name : String
  pub vm_name : String
  pub component : String
  pub role : String
  pub vm_spec : VmSpecInput

-- the new name of a data volume
abbrev pub namespaced : String → String → String
namespaced vm_name old = String.◌++◌ old (String.◌++◌ "-" vm_name)

-- `nameMap` after the loop over the templates
unfoldable pub name_map : String → List DataVolumeTemplate → Assoc String → Assoc String
name_map vm_name [] m = m
name_map vm_name (t ∷ templates) m =
    name_map vm_name templates (insert t.name (namespaced vm_name t.name) m)

unfoldable pub rename_volume : Assoc String → Volume → Volume
rename_volume m v = record v { source = rename_source m v.source }
  where
    renamed : String → Option String → VolumeSource
    renamed old none = data_volume old
    renamed old (some new) = data_volume new

    rename_source : Assoc String → VolumeSource → VolumeSource
    rename_source m (container_disk image) = container_disk image
    rename_source m (cloud_init_no_cloud secret) = cloud_init_no_cloud secret
    rename_source m (data_volume old) = renamed old (lookup old m)

unfoldable pub namespace_data_volumes :
    List DataVolumeTemplate → List Volume → String → List DataVolumeTemplate × List Volume
namespace_data_volumes [] volumes vm_name = ([], volumes)
namespace_data_volumes (t ∷ ts) volumes vm_name = (
  map (λ (u : DataVolumeTemplate). record u { name = namespaced vm_name u.name }) (t ∷ ts),
  map (rename_volume (name_map vm_name (t ∷ ts) [])) volumes,
)
