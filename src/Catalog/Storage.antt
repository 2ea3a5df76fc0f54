-- ===== src/Catalog/Storage.antt =====
-- The VM of an accepted catalog entry has each of its disks backed by a volume.
use virtwork.Base.{
  String, Bool, true, false, none, List, [], ◌∷◌, ◌++◌, map, ok, OnOk, OnOk-if, OnOk-map, then_ok,
  ◌≡◌, refl, sym, ap, ◌∙◌, subst, All, All-append, In, Distinct, Distinct-append, inl, inr, eq_iff,
  ◌==◌,
}
use virtwork.Base.Int.{below}
use virtwork.Constants.{disk_name_container_disk, disk_name_cloud_init}
use virtwork.Kube.{Disk, Volume, DataVolumeTemplate, VirtualMachine}
use virtwork.Vm.{VmSpecOpts, base_disks, base_volumes, build_vm_spec, build_data_volume_template}
use virtwork.Orchestrator.{namespace_data_volumes}
use virtwork.Orchestrator.Volumes.{
  Resolves, template_names, volume_names, namespace_data_volumes-Resolves,
}
use virtwork.Catalog.{
  StorageDefinition, CatalogManifest, storage_templates, storage_disks, storage_volumes,
  validate_manifest,
}
use virtwork.Catalog.Manifest.{storage_names, IsStorage, IsFree, IsManifest, validate_manifest_iff}

abbrev pub disk_names : List Disk → List String
disk_names disks = map (λ (d : Disk). d.name) disks

-- Each disk has its volume, in the same order, no two disks share a name, and each volume of a data
-- volume has its template.
abbrev pub IsConsistent : VirtualMachine → Type 0
IsConsistent vm =
    Distinct (disk_names vm.disks)
    × (volume_names vm.volumes ≡ disk_names vm.disks)
    × All (Resolves (template_names vm.data_volume_templates)) vm.volumes

module _ (is_quantity : String → Bool) where
  -- the storage of an accepted manifest gets its templates
  storage_templates-names :
      (storage : List StorageDefinition)
      → All (IsStorage is_quantity) storage
      → (ts : List DataVolumeTemplate) × (storage_templates is_quantity storage ≡ ok ts)
        × (template_names ts ≡ storage_names storage)
  unfolding storage_templates build_data_volume_template then_ok
  storage_templates-names [] h = ([], refl, refl)
  storage_templates-names (s ∷ storage) (h, hs) =
      let (filled, free, size, serial, short, mounted) = h in
      let (ts, e, n) = storage_templates-names storage hs in
      (record { name = s.name; storage = s.size } ∷ ts, rw (size, e) refl, ap (λ l. s.name ∷ l) n)

  Built : VmSpecOpts → VirtualMachine → Type 0
  Built opts vm =
      (vm.disks ≡ base_disks ++ opts.extra_disks)
      × (vm.volumes
          ≡ base_volumes opts.container_disk_image opts.cloud_init_secret_name
            ++ opts.extra_volumes)
      × (vm.data_volume_templates ≡ opts.data_volume_templates)

  build_vm_spec-Built : (opts : VmSpecOpts) → OnOk (Built opts) (build_vm_spec is_quantity opts)
  unfolding build_vm_spec Built
  build_vm_spec-Built opts = OnOk-if _ (opts.name == "") _ _ tt (
      OnOk-if _ (opts.namespace == "") _ _ tt (
        OnOk-if _ (below opts.cpu_cores 1) _ _ tt (
          OnOk-if _ (opts.container_disk_image == "") _ _ tt (
            OnOk-if _ (opts.cloud_init_secret_name == "") _ _ tt
              (OnOk-if _ (is_quantity opts.memory) _ _ (refl, refl, refl) tt)))))

  template_names-volumes :
      (storage all : List StorageDefinition)
      → ((x : String) → In x (storage_names storage) → In x (storage_names all))
      → All (Resolves (storage_names all)) (storage_volumes storage)
  template_names-volumes [] all h = tt
  template_names-volumes (s ∷ storage) all h =
      (h s.name (inl refl), template_names-volumes storage all (λ x i. h x (inr i)))

names-append : (xs ys : List Disk) → disk_names (xs ++ ys) ≡ disk_names xs ++ disk_names ys
names-append [] ys = refl
names-append (x ∷ xs) ys = ap (λ l. x.name ∷ l) (names-append xs ys)

volumes-append :
    (xs ys : List Volume) → volume_names (xs ++ ys) ≡ volume_names xs ++ volume_names ys
volumes-append [] ys = refl
volumes-append (x ∷ xs) ys = ap (λ l. x.name ∷ l) (volumes-append xs ys)

disks-names :
    (storage : List StorageDefinition) → disk_names (storage_disks storage) ≡ storage_names storage
disks-names [] = refl
disks-names (s ∷ storage) = ap (λ l. s.name ∷ l) (disks-names storage)

volumes-names :
    (storage : List StorageDefinition)
    → volume_names (storage_volumes storage) ≡ storage_names storage
volumes-names [] = refl
volumes-names (s ∷ storage) = ap (λ l. s.name ∷ l) (volumes-names storage)

names-IsFree :
    (is_quantity : String → Bool) (x : String) (storage : List StorageDefinition)
    → All (IsStorage is_quantity) storage
    → In x (storage_names storage)
    → IsFree x
names-IsFree is_quantity x [] h i = absurd i
names-IsFree is_quantity x (s ∷ storage) ((filled, free, size, serial, short, mounted), hs)
      (inl e) =
    subst IsFree (sym e) free
names-IsFree is_quantity x (s ∷ storage) (h, hs) (inr i) = names-IsFree is_quantity x storage hs i

abbrev base_names : List String
base_names = disk_name_container_disk ∷ disk_name_cloud_init ∷ []

clash : disk_name_container_disk ≡ disk_name_cloud_init → ⊥
clash e =
    let same : false ≡ true = (eq_iff disk_name_container_disk disk_name_cloud_init).1 e in
    absurd (cc)

base_names-Distinct : Distinct base_names
base_names-Distinct = ((λ i. elim i [ inl e ↦ clash e | inr j ↦ j ]), ((λ i. i), tt))

disks-Distinct :
    (is_quantity : String → Bool) (storage : List StorageDefinition)
    → All (IsStorage is_quantity) storage
    → Distinct (storage_names storage)
    → Distinct (disk_names (base_disks ++ storage_disks storage))
disks-Distinct is_quantity storage h d =
    subst Distinct
      (sym (
        names-append base_disks (storage_disks storage)
        ∙ ap (λ l. base_names ++ l) (disks-names storage)))
      (Distinct-append base_names (storage_names storage) base_names-Distinct d apart)
  where
    apart : (a : String) → In a base_names → In a (storage_names storage) → ⊥
    apart a (inl e) i = (names-IsFree is_quantity a storage h i).0 e
    apart a (inr (inl e)) i = (let (c, o, d) = names-IsFree is_quantity a storage h i in o e)
    apart a (inr (inr z)) i = z

base_volumes-resolve :
    (names : List String) (image secret : String) → All (Resolves names) (base_volumes image secret)
base_volumes-resolve names image secret = (tt, (tt, tt))

module _ (is_quantity : String → Bool) (m : CatalogManifest) (vm_name : String) (opts : VmSpecOpts)
    (ts : List DataVolumeTemplate) where
  -- the options with the disks, volumes and templates of the manifest's storage
  abbrev pub storage_opts : VmSpecOpts
  storage_opts =
      let (templates, volumes) = namespace_data_volumes ts (storage_volumes m.storage) vm_name in
      record opts {
        extra_disks = storage_disks m.storage;
        extra_volumes = volumes;
        data_volume_templates = templates;
      }

  Built-IsConsistent :
      IsManifest is_quantity m
      → template_names ts ≡ storage_names m.storage
      → (vm : VirtualMachine) → Built is_quantity storage_opts vm
      → IsConsistent vm
  unfolding Built
  Built-IsConsistent (all, distinct, s) names vm (d, v, t) =
      let own = template_names-volumes is_quantity m.storage m.storage (λ x i. i) in
      let (resolve, renamed, kept) =
        namespace_data_volumes-Resolves ts (storage_volumes m.storage) vm_name
          (subst (λ l. All (Resolves l) (storage_volumes m.storage)) (sym names) own) in
      (
        subst (λ l. Distinct (disk_names l)) (sym d)
            (disks-Distinct is_quantity m.storage all distinct),
        ap volume_names v
            ∙ volumes-append
                (base_volumes storage_opts.container_disk_image storage_opts.cloud_init_secret_name)
                storage_opts.extra_volumes
            ∙ ap (λ l. base_names ++ l)
                (kept ∙ volumes-names m.storage ∙ sym (disks-names m.storage))
            ∙ sym (names-append base_disks (storage_disks m.storage))
            ∙ ap disk_names (sym d),
        subst (λ l. All (Resolves l) vm.volumes) (sym (ap template_names t))
            (subst (All (Resolves (template_names storage_opts.data_volume_templates))) (sym v) (
              All-append (Resolves (template_names storage_opts.data_volume_templates))
                (base_volumes storage_opts.container_disk_image storage_opts.cloud_init_secret_name)
                storage_opts.extra_volumes
                (base_volumes-resolve (template_names storage_opts.data_volume_templates)
                  storage_opts.container_disk_image storage_opts.cloud_init_secret_name)
                resolve)),
      )

-- For a manifest that `validateManifest` accepts, the templates of its storage can be built; and a
-- VM that is built with them, with its disks and with its volumes under the VM's own names, has
-- disks with distinct names, for each disk a volume of the same name in the same order, and for each
-- volume of a data volume a template of that name.
pub catalog_vm-IsConsistent :
    (is_quantity : String → Bool) (m : CatalogManifest) (vm_name : String) (opts : VmSpecOpts)
    → validate_manifest is_quantity m ≡ none
    → (ts : List DataVolumeTemplate) × (storage_templates is_quantity m.storage ≡ ok ts)
      × OnOk IsConsistent (build_vm_spec is_quantity (storage_opts is_quantity m vm_name opts ts))
catalog_vm-IsConsistent is_quantity m vm_name opts h =
    let valid = (validate_manifest_iff is_quantity m).0 h in
    let (all, distinct, service) = valid in
    let (ts, e, names) = storage_templates-names is_quantity m.storage all in
    (
      ts,
      e,
      OnOk-map (build_vm_spec is_quantity (storage_opts is_quantity m vm_name opts ts))
          (build_vm_spec-Built is_quantity (storage_opts is_quantity m vm_name opts ts))
          (λ vm b. Built-IsConsistent is_quantity m vm_name opts ts valid names vm b),
    )
