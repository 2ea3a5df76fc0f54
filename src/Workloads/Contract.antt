-- ===== src/Workloads/Contract.antt =====
-- internal/workloads/workload.go: what a workload gives to the orchestrator, and the defaults of
-- `BaseWorkload`.
use virtwork.Base.{String, Bool, Option, none, some, List, [], ◌∷◌, ◌==◌, Result, if◌then◌else◌}
use virtwork.Base.Int.{ℤ, pos, below}
use virtwork.Base.Assoc.{Assoc, lookup}
use virtwork.Config.{WorkloadConfig}
use virtwork.Kube.{Disk, Volume, DataVolumeTemplate, Service}
use virtwork.Vm.{SpecError}
use virtwork.Workloads.Params.{ParamSchema}

pub record VmResourceSpec : Type 0 where
  pub res_cpu_cores : ℤ
  pub res_memory : String

pub record RoleSpec : Type 0 where
  pub role : String
  pub role_vm_count : ℤ

-- The errors of cloud-init userdata: a role that the workload does not have, a key of `Extra` that
-- is reserved, and an error of the YAML library.
pub data UserdataError : Type 0 where
  unknown_role : String → UserdataError
  reserved_key : String → UserdataError
  marshaling : String → UserdataError

-- the further methods of a `MultiVMWorkload`
pub record MultiVm : Type 0 where
  pub role_distribution : List RoleSpec
  pub userdata_for_role : String → String → Result UserdataError String

-- The interface `Workload`. Its implementations are pure data producers, so each method is the
-- value that it returns; `multi` is the type assertion to `MultiVMWorkload`.
pub record Workload : Type 0 where
  pub cloud_init_userdata : Result UserdataError String
  pub vm_resources : VmResourceSpec
  pub extra_volumes : List Volume
  pub extra_disks : List Disk
  pub data_volume_templates : Result SpecError (List DataVolumeTemplate)
  pub requires_service : Bool
  pub service_spec : Option Service
  pub workload_vm_count : ℤ
  pub multi : Option MultiVm

-- `BaseWorkload.GetParam`; `none` is the panic on a key that the schema does not declare
unfoldable pub get_param : ParamSchema → Assoc String → String → Option String
get_param [] params key = none
get_param (d ∷ schema) params key =
    if d.key == key then some (given d.default (lookup key params)) else get_param schema params key
  where
    given : String → Option String → String
    given default none = default
    given default (some value) = if value == "" then default else value

-- `BaseWorkload.VMResources`
abbrev pub base_vm_resources : WorkloadConfig → VmResourceSpec
base_vm_resources c = record { res_cpu_cores = c.cpu_cores; res_memory = c.memory }

-- `BaseWorkload.VMCount`
abbrev pub base_vm_count : WorkloadConfig → ℤ
base_vm_count c = if below c.vm_count 1 then pos 1 else c.vm_count
