-- ===== src/Vm.antt =====
-- internal/vm/vm.go: the VirtualMachine that is built from a plan.
pub mod Retry
pub mod Calls
use virtwork.Base.{
  ℕ, ◌%◌, ◌^◌, ◌-◌, String, Bool, true, false, List, [], ◌∷◌, ◌++◌, ◌==◌, if◌then◌else◌, Result, ok,
  err,
}
use virtwork.Base.Int.{ℤ, pos, negsuc, below}
use virtwork.Kube.{
  Labels, Disk, Volume, container_disk, cloud_init_no_cloud, DataVolumeTemplate, VirtualMachine,
}
use virtwork.Constants.{
  disk_name_container_disk, disk_name_cloud_init, disk_bus_virtio, network_name_default,
}

pub record VmSpecOpts : Type 0 where
  pub name : String
  pub namespace : String
  pub container_disk_image : String
  pub cloud_init_secret_name : String
  pub cpu_cores : ℤ
  pub memory : String
  pub labels : Labels
  pub extra_disks : List Disk
  pub extra_volumes : List Volume
  pub data_volume_templates : List DataVolumeTemplate

pub data SpecError : Type 0 where
  invalid_name invalid_namespace : SpecError
  invalid_cpu_cores : ℤ → SpecError
  invalid_container_disk_image invalid_cloud_init_secret_name : SpecError
  invalid_memory : String → SpecError
  invalid_disk_size : String → SpecError

-- `uint32(n)`
to_uint32 : ℤ → ℕ
to_uint32 (pos n) = n % 2 ^ 32
to_uint32 (negsuc n) = 2 ^ 32 - 1 - n % 2 ^ 32

-- the disks that each VM has
abbrev pub base_disks : List Disk
base_disks =
    record { name = disk_name_container_disk; serial = ""; bus = disk_bus_virtio }
    ∷ record { name = disk_name_cloud_init; serial = ""; bus = disk_bus_virtio }
    ∷ []

abbrev pub base_volumes : String → String → List Volume
base_volumes image secret =
    record { name = disk_name_container_disk; source = container_disk image }
    ∷ record { name = disk_name_cloud_init; source = cloud_init_no_cloud secret }
    ∷ []

-- `resource.ParseQuantity` is a library's: `is_quantity` says whether it parses a text.
module _ (is_quantity : String → Bool) where
  unfoldable pub build_vm_spec : VmSpecOpts → Result SpecError VirtualMachine
  unfolding to_uint32
  build_vm_spec opts =
      if opts.name == ""
      then err invalid_name
      else if opts.namespace == ""
      then err invalid_namespace
      else if below opts.cpu_cores 1
      then err (invalid_cpu_cores opts.cpu_cores)
      else if opts.container_disk_image == ""
      then err invalid_container_disk_image
      else if opts.cloud_init_secret_name == ""
      then err invalid_cloud_init_secret_name
      else if is_quantity opts.memory
      then ok (record {
        name = opts.name;
        namespace = opts.namespace;
        labels = opts.labels;
        template_labels = opts.labels;
        cores = to_uint32 opts.cpu_cores;
        memory = opts.memory;
        disks = base_disks ++ opts.extra_disks;
        interfaces = network_name_default ∷ [];
        networks = network_name_default ∷ [];
        volumes =
            base_volumes opts.container_disk_image opts.cloud_init_secret_name
            ++ opts.extra_volumes;
        data_volume_templates = opts.data_volume_templates;
        resource_version = "";
      })
      else err (invalid_memory opts.memory)

  unfoldable pub build_data_volume_template : String → String → Result SpecError DataVolumeTemplate
  build_data_volume_template name size =
      if is_quantity size
      then ok (record { name = name; storage = size })
      else err (invalid_disk_size size)
