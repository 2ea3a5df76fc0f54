-- ===== src/Catalog.antt =====
-- internal/workloads/catalog.go: the manifests of catalog entries, and what is built from them.
pub mod Manifest
pub mod Storage
use Prim.Native.Char.{code}
use Prim.Native.String
use virtwork.Base.{
  ℕ, String, Bool, true, false, not, ◌&&◌, ◌||◌, Option, none, some, List, [], ◌∷◌, map, ◌==◌,
  if◌then◌else◌, ltb, length, Result, ok, err, eqb, then_ok, wrap,
}
use virtwork.Base.Int.{ℤ, pos, negsuc, below}
use virtwork.Base.Assoc.{Assoc}
use virtwork.Base.Text.Bytes.{bytes}
use virtwork.Base.Text.Fold.{codes, to_lower, to_upper, same_codes}
use virtwork.Constants.{
  disk_name_container_disk, disk_name_cloud_init, disk_name_data, disk_bus_virtio, label_app_name,
  label_managed_by, label_component, managed_by_value,
}
use virtwork.Kube.{
  Disk, Volume, data_volume, DataVolumeTemplate, Service, ServicePort, Protocol, tcp, udp,
}
use virtwork.Vm.{SpecError, build_data_volume_template}
use virtwork.Workloads.Params.{
  ParamType, param_string, param_int, param_bool, param_list, param_dict, ParamDef, ParamSchema,
}

pub record RoleDefinition : Type 0 where
  pub role_name : String
  pub role_vm_count : ℤ

pub record StorageDefinition : Type 0 where
  pub name : String
  pub size : String
  pub serial : String
  pub mount : String

pub record CatalogServicePort : Type 0 where
  pub port_name : String
  pub port : ℤ
  pub protocol : String

pub record ServiceDefinition : Type 0 where
  pub ports : List CatalogServicePort
  pub selector_role : String

pub record CatalogParamDef : Type 0 where
  pub key : String
  pub type_name : String
  pub default : String
  pub desc : String

pub record CatalogManifest : Type 0 where
  pub description : String
  pub packages : List String
  pub params : List CatalogParamDef
  pub roles : List RoleDefinition
  pub storage : List StorageDefinition
  pub service : Option ServiceDefinition

-- the errors, with what their messages name
pub data ManifestError : Type 0 where
  storage_name_empty : ManifestError
  storage_name_reserved storage_name_duplicate storage_size_invalid : String → ManifestError
  storage_serial_empty : ManifestError
  storage_serial_too_long storage_mount_not_absolute : String → ManifestError
  service_ports_empty : ManifestError
  service_port_range : ℤ → ManifestError
  service_protocol : String → ManifestError

abbrev pub parse_param_type : String → ParamType
parse_param_type s =
    let lower = to_lower s in
    if same_codes lower (codes "int")
    then param_int
    else if same_codes lower (codes "bool")
    then param_bool
    else if same_codes lower (codes "list")
    then param_list
    else if same_codes lower (codes "dict")
    then param_dict
    else param_string

-- `CatalogEntry.Schema`
abbrev pub schema_of : List CatalogParamDef → ParamSchema
schema_of params =
    map
      (λ (p : CatalogParamDef). record {
        key = p.key;
        type = parse_param_type p.type_name;
        default = p.default;
        desc = p.desc;
      })
      params

-- `reservedDiskNames`
abbrev pub is_reserved : String → Bool
is_reserved name =
    (name == disk_name_container_disk) || (name == disk_name_cloud_init) || (name == disk_name_data)

-- `seen[name]`
unfoldable pub is_seen : String → List String → Bool
is_seen name [] = false
is_seen name (s ∷ seen) = (name == s) || is_seen name seen

-- `filepath.IsAbs` on Unix
abbrev pub is_abs : String → Bool
is_abs String.[] = false
is_abs (String.◌∷◌ c s) = eqb (code c) b'/'

-- the first error, where there is one
abbrev pub or_else : Option ManifestError → Option ManifestError → Option ManifestError
or_else (some e) other = some e
or_else none other = other

-- `resource.ParseQuantity` is a library's: `is_quantity` says whether it parses a text.
module _ (is_quantity : String → Bool) where
  -- one round of the loop over the storage
  unfoldable pub check_storage : List String → StorageDefinition → Option ManifestError
  check_storage seen s =
      if s.name == ""
      then some storage_name_empty
      else if is_reserved s.name
      then some (storage_name_reserved s.name)
      else if is_seen s.name seen
      then some (storage_name_duplicate s.name)
      else if not (is_quantity s.size)
      then some (storage_size_invalid s.size)
      else if s.serial == ""
      then some storage_serial_empty
      else if ltb 20 (length (bytes s.serial))
      then some (storage_serial_too_long s.serial)
      else if not (is_abs s.mount)
      then some (storage_mount_not_absolute s.mount)
      else none

  unfoldable pub check_storages : List String → List StorageDefinition → Option ManifestError
  check_storages seen [] = none
  check_storages seen (s ∷ storage) =
      or_else (check_storage seen s) (check_storages (s.name ∷ seen) storage)

-- `p.Port < 1 || p.Port > 65535`
abbrev pub out_of_range : ℤ → Bool
out_of_range (pos n) = ltb n 1 || ltb 65535 n
out_of_range (negsuc n) = true

unfoldable pub check_port : CatalogServicePort → Option ManifestError
check_port p =
    let proto = to_upper p.protocol in
    if out_of_range p.port
    then some (service_port_range p.port)
    else if not (same_codes proto [])
        && not (same_codes proto (codes "TCP"))
        && not (same_codes proto (codes "UDP"))
    then some (service_protocol p.protocol)
    else none

unfoldable pub check_ports : List CatalogServicePort → Option ManifestError
check_ports [] = none
check_ports (p ∷ ports) = or_else (check_port p) (check_ports ports)

unfoldable pub check_service : Option ServiceDefinition → Option ManifestError
check_service none = none
check_service (some def) = check_declared def.ports
  where
    check_declared : List CatalogServicePort → Option ManifestError
    check_declared [] = some service_ports_empty
    check_declared (p ∷ ports) = check_ports (p ∷ ports)

unfoldable pub validate_manifest :
    (is_quantity : String → Bool) → CatalogManifest → Option ManifestError
validate_manifest is_quantity m =
    or_else (check_storages is_quantity [] m.storage) (check_service m.service)

-- the number of a port, which the manifest's check has found to be positive
abbrev port_number : ℤ → ℕ
port_number (pos n) = n
port_number (negsuc n) = 0

abbrev pub convert_service_ports : List CatalogServicePort → List ServicePort
convert_service_ports ports =
    map
      (λ (p : CatalogServicePort). record {
        name = p.port_name;
        port = port_number p.port;
        target_port = port_number p.port;
        protocol = if same_codes (to_upper p.protocol) (codes "UDP") then udp else tcp;
      })
      ports

unfoldable pub build_catalog_service_spec :
    String → String → Option ServiceDefinition → Option Service
build_catalog_service_spec name namespace none = none
build_catalog_service_spec name namespace (some def) = some (record {
  name = String.◌++◌ "virtwork-" name;
  namespace = namespace;
  labels =
      (label_app_name, managed_by_value)
      ∷ (label_managed_by, managed_by_value)
      ∷ (label_component, name)
      ∷ [];
  selector =
      if def.selector_role == ""
      then (label_app_name, String.◌++◌ "virtwork-" name) ∷ []
      else ("virtwork/role", def.selector_role) ∷ [];
  ports = convert_service_ports def.ports;
})

-- What `GenericWorkload` and `GenericMultiWorkload` build from the storage, each in the same way.
module _ (is_quantity : String → Bool) where
  unfoldable pub storage_templates :
      List StorageDefinition → Result SpecError (List DataVolumeTemplate)
  storage_templates [] = ok []
  storage_templates (s ∷ storage) =
      then_ok (build_data_volume_template is_quantity s.name s.size)
        (λ t. then_ok (storage_templates storage) (λ ts. ok (t ∷ ts)))

abbrev pub storage_disks : List StorageDefinition → List Disk
storage_disks storage =
    map
      (λ (s : StorageDefinition). record {
        name = s.name;
        serial = s.serial;
        bus = disk_bus_virtio;
      })
      storage

abbrev pub storage_volumes : List StorageDefinition → List Volume
storage_volumes storage =
    map (λ (s : StorageDefinition). record { name = s.name; source = data_volume s.name }) storage
