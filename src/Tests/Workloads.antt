-- ===== src/Tests/Workloads.antt =====
-- Params, suggestions, manifests and configurations (internal/workloads, internal/config).
use virtwork.Base.{
  ℕ, String, Bool, none, some, List, [], ◌∷◌, ◌≡◌, ◌≤◌, ◌↔◌, refl, ok, OnOk, ◌==◌, not,
}
use virtwork.Base.Int.{pos}
use virtwork.Base.Text.Bytes.{bytes}
use virtwork.Config.{validate_config}
use virtwork.Config.Laws.{IsConfig, validate_config_iff}
use virtwork.Workloads.Params.{ParamDef, param_int, validate}
use virtwork.Workloads.Params.Values.{Accepts}
use virtwork.Workloads.Params.Laws.{validate_iff}
use virtwork.Workloads.Distance.{levenshtein}
use virtwork.Workloads.Distance.Edits.{Edit}
use virtwork.Workloads.Distance.Laws.{levenshtein_least}
use virtwork.Workloads.Suggest.{closest_match}
use virtwork.Workloads.Suggest.Laws.{IsClosest, closest_match-IsClosest}
use virtwork.Kube.{Volume, data_volume, DataVolumeTemplate}
use virtwork.Vm.{VmSpecOpts, build_vm_spec}
use virtwork.Catalog.{
  CatalogManifest, validate_manifest, storage_templates, check_storages, check_storage, is_seen,
  check_service,
}
use virtwork.Catalog.Manifest.{IsManifest, validate_manifest_iff}
use virtwork.Catalog.Storage.{IsConsistent, storage_opts, catalog_vm-IsConsistent}
use virtwork.Orchestrator.{namespace_data_volumes, namespaced}
use virtwork.Orchestrator.Volumes.{
  Resolves, template_names, volume_names, namespace_data_volumes-Resolves,
}
use virtwork.Base.{All, map, inl}
use virtwork.Tests.Cleanup.{sample}

-- the quantities of the examples
abbrev is_quantity : String → Bool
is_quantity s = not (s == "")

validate_config_iff_example :
    (validate_config is_quantity sample ≡ none) ↔ IsConfig is_quantity sample
validate_config_iff_example = validate_config_iff is_quantity sample

abbrev streams : ParamDef
streams = record { key = "parallel-streams"; type = param_int; default = "4"; desc = "" }

validate_iff_example : (validate streams "4k" ≡ none) ↔ Accepts param_int "4k"
validate_iff_example = validate_iff streams "4k"

levenshtein_least_example :
    (d : ℕ) × (levenshtein (bytes "cup") (bytes "cpu") ≡ some d)
    × Edit (bytes "cup") (bytes "cpu") d
    × ((k : ℕ) → Edit (bytes "cup") (bytes "cpu") k → d ≤ k)
levenshtein_least_example = levenshtein_least (bytes "cup") (bytes "cpu")

closest_match-IsClosest_example :
    (best : String) × (closest_match "dsik" ("cpu" ∷ "disk" ∷ []) ≡ some best)
    × IsClosest "dsik" ("cpu" ∷ "disk" ∷ []) best
closest_match-IsClosest_example = closest_match-IsClosest "dsik" ("cpu" ∷ "disk" ∷ [])

abbrev manifest : CatalogManifest
manifest = record {
  description = "a database";
  packages = [];
  params = [];
  roles = [];
  storage =
      record { name = "data"; size = "5Gi"; serial = "virtwork-data"; mount = "/var/lib/data" }
      ∷ [];
  service = none;
}

validate_manifest_iff_example :
    (validate_manifest is_quantity manifest ≡ none) ↔ IsManifest is_quantity manifest
validate_manifest_iff_example = validate_manifest_iff is_quantity manifest

abbrev opts : VmSpecOpts
opts = record {
  name = "virtwork-db-0";
  namespace = "virtwork";
  container_disk_image = "quay.io/fedora";
  cloud_init_secret_name = "virtwork-db-0-cloudinit";
  cpu_cores = pos 2;
  memory = "2Gi";
  labels = [];
  extra_disks = [];
  extra_volumes = [];
  data_volume_templates = [];
}

manifest_accepted : validate_manifest is_quantity manifest ≡ none
unfolding validate_manifest check_storages check_storage is_seen check_service bytes
manifest_accepted = refl

catalog_vm-IsConsistent_example :
    (ts : List DataVolumeTemplate) × (storage_templates is_quantity manifest.storage ≡ ok ts)
    × OnOk IsConsistent
        (build_vm_spec is_quantity (storage_opts is_quantity manifest "virtwork-db-0" opts ts))
catalog_vm-IsConsistent_example =
    catalog_vm-IsConsistent is_quantity manifest "virtwork-db-0" opts manifest_accepted

abbrev template : DataVolumeTemplate
template = record { name = "virtwork-disk-data"; storage = "10Gi" }

abbrev volume : Volume
volume = record { name = "datadisk"; source = data_volume "virtwork-disk-data" }

namespace_data_volumes-Resolves_example :
    let (ts, vs) = namespace_data_volumes (template ∷ []) (volume ∷ []) "virtwork-disk-0" in
    All (Resolves (template_names ts)) vs
    × (template_names ts ≡ map (namespaced "virtwork-disk-0") (template_names (template ∷ [])))
    × (volume_names vs ≡ volume_names (volume ∷ []))
namespace_data_volumes-Resolves_example =
    namespace_data_volumes-Resolves (template ∷ []) (volume ∷ []) "virtwork-disk-0" (inl refl, tt)
