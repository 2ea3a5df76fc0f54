-- ===== src/Catalog/Manifest.antt =====
-- The manifests that `validateManifest` accepts.
use virtwork.Base.{
  ℕ, ◌≤◌, String, Bool, true, false, Option, none, some, List, [], ◌∷◌, ◌≡◌, ◌≢◌, ◌⊎◌, ◌↔◌, inl,
  inr, refl, sym, map, All, In, Distinct, arith, eq_iff, length,
}
use virtwork.Base.Int.{ℤ, pos, negsuc}
use virtwork.Base.Text.Bytes.{bytes}
use virtwork.Base.Text.Fold.{codes, to_upper}
use virtwork.Base.Text.Fold.Codes.{same_codes_sound, same_codes_complete}
use virtwork.Constants.{disk_name_container_disk, disk_name_cloud_init, disk_name_data}
use virtwork.Catalog.{
  StorageDefinition, CatalogServicePort, ServiceDefinition, CatalogManifest, ManifestError, is_seen,
  is_abs, or_else, check_storage, check_storages, check_port, check_ports, check_service,
  validate_manifest, out_of_range,
}

abbrev pub storage_names : List StorageDefinition → List String
storage_names storage = map (λ (s : StorageDefinition). s.name) storage

-- the name of none of the disks that the program adds itself
abbrev pub IsFree : String → Type 0
IsFree name =
    (name ≢ disk_name_container_disk) × (name ≢ disk_name_cloud_init) × (name ≢ disk_name_data)

or_else_iff : (a b : Option ManifestError) → (or_else a b ≡ none) ↔ ((a ≡ none) × (b ≡ none))
or_else_iff none b = ((λ h. (refl, h)), (λ h. h.1))
or_else_iff (some e) b = ((λ h. absurd (cc)), (λ h. absurd (cc)))

module _ (is_quantity : String → Bool) where
  abbrev pub IsStorage : StorageDefinition → Type 0
  IsStorage s =
      (s.name ≢ "")
      × IsFree s.name
      × (is_quantity s.size ≡ true)
      × (s.serial ≢ "")
      × (length (bytes s.serial) ≤ 20)
      × (is_abs s.mount ≡ true)

  check_storage_iff :
      (seen : List String) (s : StorageDefinition)
      → (check_storage is_quantity seen s ≡ none) ↔ (IsStorage s × (is_seen s.name seen ≡ false))
  unfolding check_storage
  check_storage_iff seen s = ground (
    arith,
    eq_iff s.name "",
    eq_iff s.name disk_name_container_disk,
    eq_iff s.name disk_name_cloud_init,
    eq_iff s.name disk_name_data,
    eq_iff s.serial "",
  )

  abbrev AreUnseen : List String → List StorageDefinition → Type 0
  AreUnseen seen storage = All (λ (s : StorageDefinition). is_seen s.name seen ≡ false) storage

  unseen_split :
      (n : String) (seen : List String) (storage : List StorageDefinition)
      → AreUnseen (n ∷ seen) storage ↔ (AreUnseen seen storage × (¬ In n (storage_names storage)))
  unfolding is_seen
  unseen_split n seen storage = (to storage, from storage)
    where
      to :
          (ss : List StorageDefinition)
          → AreUnseen (n ∷ seen) ss
          → AreUnseen seen ss × (¬ In n (storage_names ss))
      to [] h = (tt, λ i. i)
      to (s ∷ ss) (h, hs) =
          let (fewer, fresh) = to ss hs in
          (
            (ground (arith, eq_iff s.name n), fewer),
            (λ i. elim i [ inl e ↦ ground (arith, eq_iff s.name n) | inr j ↦ fresh j ]),
          )

      from :
          (ss : List StorageDefinition)
          → AreUnseen seen ss × (¬ In n (storage_names ss))
          → AreUnseen (n ∷ seen) ss
      from [] h = tt
      from (s ∷ ss) ((h, hs), f) =
          let other : s.name ≢ n = λ e. f (inl (sym e)) in
          (ground (arith, eq_iff s.name n, other), from ss (hs, λ i. f (inr i)))

  check_storages_iff :
      (seen : List String) (storage : List StorageDefinition)
      → (check_storages is_quantity seen storage ≡ none)
        ↔ (All IsStorage storage × Distinct (storage_names storage) × AreUnseen seen storage)
  unfolding check_storages
  check_storages_iff seen [] = ((λ h. (tt, tt, tt)), (λ h. refl))
  check_storages_iff seen (s ∷ storage) =
      let both =
        or_else_iff (check_storage is_quantity seen s)
          (check_storages is_quantity (s.name ∷ seen) storage) in
      let here = check_storage_iff seen s in
      let rest = check_storages_iff (s.name ∷ seen) storage in
      let split = unseen_split s.name seen storage in
      (
        (λ h.
            let (a, b) = both.0 h in
            let (valid, unseen) = here.0 a in
            let (all, distinct, others) = rest.0 b in
            let (fewer, fresh) = split.0 others in
            ((valid, all), (fresh, distinct), (unseen, fewer))),
        (λ ((valid, all), (fresh, distinct), (unseen, fewer)).
            both.1 (here.1 (valid, unseen), rest.1 (all, distinct, split.1 (fewer, fresh)))),
      )

-- the transport protocol of a port: TCP, UDP, or none, which means TCP
abbrev pub IsProtocol : String → Type 0
IsProtocol p = (to_upper p ≡ []) ⊎ ((to_upper p ≡ codes "TCP") ⊎ (to_upper p ≡ codes "UDP"))

abbrev pub IsPort : CatalogServicePort → Type 0
IsPort p = ((n : ℕ) × (p.port ≡ pos n) × (1 ≤ n) × (n ≤ 65535)) × IsProtocol p.protocol

abbrev pub IsService : Option ServiceDefinition → Type 0
IsService none = Unit
IsService (some def) = (def.ports ≢ []) × All IsPort def.ports

pos-injective : (m n : ℕ) → pos m ≡ pos n → m ≡ n
pos-injective m n e = cc

in_range_iff : (z : ℤ) → (out_of_range z ≡ false) ↔ ((n : ℕ) × (z ≡ pos n) × (1 ≤ n) × (n ≤ 65535))
in_range_iff (pos n) = (
  (λ h. (n, refl, ground arith, ground arith)),
  (λ (m, e, l, u). let same = pos-injective n m e in ground arith),
)
in_range_iff (negsuc n) = ((λ h. absurd (cc)), (λ (m, e, l, u). absurd (cc)))

check_port_iff : (p : CatalogServicePort) → (check_port p ≡ none) ↔ IsPort p
unfolding check_port
check_port_iff p =
    let range = in_range_iff p.port in
    let proto = to_upper p.protocol in
    (
      (λ h. (
        range.0 (ground arith),
        ground (
          arith,
          same_codes_sound proto [],
          same_codes_sound proto (codes "TCP"),
          same_codes_sound proto (codes "UDP"),
        ),
      )),
      (λ (r, q).
          let inside = range.1 r in
          ground (
            arith,
            same_codes_complete proto [],
            same_codes_complete proto (codes "TCP"),
            same_codes_complete proto (codes "UDP"),
          )),
    )

check_ports_iff : (ports : List CatalogServicePort) → (check_ports ports ≡ none) ↔ All IsPort ports
unfolding check_ports
check_ports_iff [] = ((λ h. tt), (λ h. refl))
check_ports_iff (p ∷ ports) =
    let both = or_else_iff (check_port p) (check_ports ports) in
    let here = check_port_iff p in
    let rest = check_ports_iff ports in
    ((λ h. let (a, b) = both.0 h in (here.0 a, rest.0 b)), (λ (a, b). both.1 (here.1 a, rest.1 b)))

check_service_iff : (def : Option ServiceDefinition) → (check_service def ≡ none) ↔ IsService def
unfolding check_service
check_service_iff none = ((λ h. tt), (λ h. refl))
check_service_iff (some def) = by_ports def.ports
  where
    by_ports :
        (ports : List CatalogServicePort)
        → (check_service (some (record def { ports = ports })) ≡ none)
          ↔ ((ports ≢ []) × All IsPort ports)
    by_ports [] = ((λ h. absurd (cc)), (λ (n, h). absurd (n refl)))
    by_ports (p ∷ ports) = (
      (λ h. ((λ e. cc), (check_ports_iff (p ∷ ports)).0 h)),
      (λ (n, h). (check_ports_iff (p ∷ ports)).1 h),
    )

-- A manifest with storage under distinct names that are free, with sizes that are quantities, serials
-- of at most 20 bytes and absolute mounts, and with a service, if it has one, whose ports are numbers
-- from 1 to 65535.
abbrev pub IsManifest : (String → Bool) → CatalogManifest → Type 0
IsManifest is_quantity m =
    All (IsStorage is_quantity) m.storage × Distinct (storage_names m.storage) × IsService m.service

none_unseen :
    (storage : List StorageDefinition)
    → All (λ (s : StorageDefinition). is_seen s.name [] ≡ false) storage
unfolding is_seen
none_unseen [] = tt
none_unseen (s ∷ storage) = (refl, none_unseen storage)

-- `validateManifest` returns no error exactly on these manifests: each storage has a name that is
-- neither empty nor one of the program's own disks, a size that parses as a quantity, a serial of 1
-- to 20 bytes and an absolute mount, no two storages share a name, and a service has at least one
-- port, each from 1 to 65535 with the protocol TCP, UDP or none, in any case.
pub validate_manifest_iff :
    (is_quantity : String → Bool) (m : CatalogManifest)
    → (validate_manifest is_quantity m ≡ none) ↔ IsManifest is_quantity m
unfolding validate_manifest
validate_manifest_iff is_quantity m =
    let both = or_else_iff (check_storages is_quantity [] m.storage) (check_service m.service) in
    let storage = check_storages_iff is_quantity [] m.storage in
    let service = check_service_iff m.service in
    (
      (λ h.
          let (a, b) = both.0 h in
          let (all, distinct, z) = storage.0 a in (all, distinct, service.0 b)),
      (λ (all, distinct, s).
          both.1 (storage.1 (all, distinct, none_unseen m.storage), service.1 s)),
    )
