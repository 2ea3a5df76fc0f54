-- ===== src/Config.antt =====
-- internal/config/config.go: the settings that the other parts read.
pub mod Laws
pub mod Params
use virtwork.Base.{String, Bool, Option, none, some, List, ◌==◌, if◌then◌else◌, ◌&&◌, not}
use virtwork.Base.Int.{ℤ, below}
use virtwork.Base.Assoc.{Assoc}
use virtwork.Base.Text.Fold.{trim_space}

pub record WorkloadConfig : Type 0 where
  -- none where the setting is absent
  pub enabled : Option Bool
  pub vm_count : ℤ
  pub cpu_cores : ℤ
  pub memory : String
  pub params : Assoc String

pub record Config : Type 0 where
  pub namespace : String
  pub container_disk_image : String
  pub data_disk_size : String
  pub cpu_cores : ℤ
  pub memory : String
  pub workloads : Assoc WorkloadConfig
  pub kubeconfig_path : String
  pub cluster_context : String
  pub cleanup_mode : String
  pub wait_for_ready : Bool
  pub ready_timeout_seconds : ℤ
  pub dry_run : Bool
  pub verbose : Bool
  pub ssh_user : String
  pub ssh_password : String
  pub ssh_authorized_keys : List String
  pub audit_enabled : Bool
  pub audit_db_path : String
  pub vm_concurrency : ℤ
  pub catalog_dir : String
  pub from_catalog : List String

pub data ConfigError : Type 0 where
  invalid_namespace : ConfigError
  invalid_cpu_cores : ℤ → ConfigError
  invalid_memory invalid_disk_size : String → ConfigError
  invalid_timeout : ℤ → ConfigError

-- `Config.Validate`; `is_quantity` says whether `resource.ParseQuantity` parses a text.
unfoldable pub validate_config : (is_quantity : String → Bool) → Config → Option ConfigError
validate_config is_quantity c =
    if trim_space c.namespace == ""
    then some invalid_namespace
    else if below c.cpu_cores 1
    then some (invalid_cpu_cores c.cpu_cores)
    else if not (is_quantity c.memory)
    then some (invalid_memory c.memory)
    else if not (is_quantity c.data_disk_size)
    then some (invalid_disk_size c.data_disk_size)
    else if c.wait_for_ready && below c.ready_timeout_seconds 1
    then some (invalid_timeout c.ready_timeout_seconds)
    else none
