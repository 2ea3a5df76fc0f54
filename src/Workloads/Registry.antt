-- ===== src/Workloads/Registry.antt =====
-- internal/workloads/registry.go: the registry of the workloads.
pub mod Laws
use virtwork.Base.{
  String, Bool, true, false, Option, none, some, List, [], ◌∷◌, ◌==◌, map, Result, ok, err,
  if◌then◌else◌, length, ltb,
}
use virtwork.Base.Assoc.{Assoc, lookup, keys}
use virtwork.Config.{WorkloadConfig}
use virtwork.Constants.{default_disk_size}
use virtwork.Workloads.Params.{ParamSchema, ParamDef, ParamError, find, validate}
use virtwork.Workloads.Contract.{Workload}
use virtwork.Workloads.Suggest.{closest_match}

pub record RegistryOpts : Type 0 where
  pub opts_namespace : String
  pub opts_data_disk_size : String
  pub opts_ssh_user : String
  pub opts_ssh_password : String
  pub opts_ssh_authorized_keys : List String
  pub opts_catalog_dir : String

pub record RegistryEntry : Type 0 where
  pub factory : WorkloadConfig → RegistryOpts → Workload
  pub param_schema : ParamSchema

abbrev pub Registry : Type 0
Registry = Assoc RegistryEntry

-- The errors, with what their messages name; the suggestion is none where there is none to make,
-- and `Option` around it is the outcome of its computation.
pub data RegistryError : Type 0 where
  workload_not_found : String → RegistryError
  unknown_workload : String → RegistryError
  unknown_param : String → String → Option String → RegistryError
  invalid_param : String → String → ParamError → RegistryError

abbrev pub no_opts : RegistryOpts
no_opts = record {
  opts_namespace = "";
  opts_data_disk_size = default_disk_size;
  opts_ssh_user = "";
  opts_ssh_password = "";
  opts_ssh_authorized_keys = [];
  opts_catalog_dir = "";
}

abbrev pub RegistryOption : Type 0
RegistryOption = RegistryOpts → RegistryOpts

abbrev pub with_namespace : String → RegistryOption
with_namespace ns o = record o { opts_namespace = ns }

abbrev pub with_ssh_credentials : String → String → List String → RegistryOption
with_ssh_credentials user password keys o = record o {
  opts_ssh_user = user;
  opts_ssh_password = password;
  opts_ssh_authorized_keys = keys;
}

abbrev pub with_catalog_dir : String → RegistryOption
with_catalog_dir dir o = record o { opts_catalog_dir = dir }

abbrev pub with_data_disk_size : String → RegistryOption
with_data_disk_size size o = record o { opts_data_disk_size = size }

abbrev pub apply_options : List RegistryOption → RegistryOpts → RegistryOpts
apply_options [] o = o
apply_options (opt ∷ opts) o = apply_options opts (opt o)

abbrev construct :
    String
    → WorkloadConfig
    → List RegistryOption
    → Option RegistryEntry
    → Result RegistryError Workload
construct name cfg opts none = err (workload_not_found name)
construct name cfg opts (some entry) = ok (entry.factory cfg (apply_options opts no_opts))

-- `Registry.Get`
unfoldable pub get :
    Registry → String → WorkloadConfig → List RegistryOption → Result RegistryError Workload
get r name cfg opts = construct name cfg opts (lookup name r)

abbrev pub invalid : String → String → Option ParamError → Option RegistryError
invalid key workload none = none
invalid key workload (some e) = some (invalid_param key workload e)

-- what the check of a param says of the declaration that was found
abbrev pub check_found :
    ParamSchema → String → String → String → Option ParamDef → Option RegistryError
check_found schema workload key val none =
    some (unknown_param key workload (closest_match key (map (λ (d : ParamDef). d.key) schema)))
check_found schema workload key val (some d) = invalid key workload (validate d val)

unfoldable pub check_param : ParamSchema → String → String → String → Option RegistryError
check_param schema workload key val = check_found schema workload key val (find schema key)

-- the first error, where there is one
abbrev pub first_error : Option RegistryError → Option RegistryError → Option RegistryError
first_error (some e) other = some e
first_error none other = other

unfoldable pub check_params : ParamSchema → String → Assoc String → Option RegistryError
check_params schema workload [] = none
check_params schema workload ((key, val) ∷ params) =
    first_error (check_param schema workload key val) (check_params schema workload params)

abbrev pub check_entry : String → Assoc String → Option RegistryEntry → Option RegistryError
check_entry workload params none = some (unknown_workload workload)
check_entry workload params (some entry) = check_params entry.param_schema workload params

-- `Registry.ValidateParams`
unfoldable pub validate_params : Registry → String → Assoc String → Option RegistryError
validate_params r workload params = check_entry workload params (lookup workload r)
