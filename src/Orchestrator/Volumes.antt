-- ===== src/Orchestrator/Volumes.antt =====
-- The data volumes of a VM keep what they belong to under their new names.

use virtwork.Base.{
  String, some, List, [], ◌∷◌, map, ◌≡◌, refl, sym, ap, ◌∙◌, subst, In, All, In-map, text-cases,
  ne→beq, eq_iff, inl, inr, ◌⊎◌,
}
use virtwork.Base.Assoc.{Assoc, lookup, insert, lookup-insert}
use virtwork.Kube.{
  Volume, data_volume, container_disk, cloud_init_no_cloud, DataVolumeTemplate, VolumeSource,
}
use virtwork.Orchestrator.{name_map, namespaced, rename_volume, namespace_data_volumes}

abbrev pub template_names : List DataVolumeTemplate → List String
template_names ts = map (λ (t : DataVolumeTemplate). t.name) ts

insert-kept :
    (vm d t : String) (m : Assoc String)
    → (lookup d m ≡ some (namespaced vm d)) ⊎ (d ≡ t)
    → lookup d (insert t (namespaced vm t) m) ≡ some (namespaced vm d)
insert-kept vm d t m h = elim (text-cases d t) [
  | inl e ↦
      lookup-insert d t (namespaced vm t) m
      ∙ (rw ((eq_iff d t).1 e) (ap (λ x. some (namespaced vm x)) (sym e)))
  | inr n ↦
      let left : lookup d m ≡ some (namespaced vm d) = elim h [
        | inl l ↦ l
        | inr e ↦ absurd (n e)
      ] in
      lookup-insert d t (namespaced vm t) m ∙ (rw (ne→beq d t n) left)
]

name_map-kept :
    (vm d : String) (ts : List DataVolumeTemplate) (m : Assoc String)
    → (lookup d m ≡ some (namespaced vm d)) ⊎ In d (template_names ts)
    → lookup d (name_map vm ts m) ≡ some (namespaced vm d)
unfolding name_map
name_map-kept vm d [] m (inl e) = e
name_map-kept vm d [] m (inr i) = absurd i
name_map-kept vm d (t ∷ ts) m (inl e) =
    name_map-kept vm d ts _ (inl (insert-kept vm d t.name m (inl e)))
name_map-kept vm d (t ∷ ts) m (inr (inl e)) =
    name_map-kept vm d ts _ (inl (insert-kept vm d t.name m (inr e)))
name_map-kept vm d (t ∷ ts) m (inr (inr i)) = name_map-kept vm d ts _ (inr i)

-- A volume of a data volume stands for one of these.
abbrev pub SourceResolves : List String → VolumeSource → Type 0
SourceResolves names (container_disk image) = Unit
SourceResolves names (cloud_init_no_cloud secret) = Unit
SourceResolves names (data_volume d) = In d names

abbrev pub Resolves : List String → Volume → Type 0
Resolves names v = SourceResolves names v.source

abbrev pub volume_names : List Volume → List String
volume_names vs = map (λ (v : Volume). v.name) vs

module _ (vm : String) (ts : List DataVolumeTemplate) where
  abbrev renamed_templates : List DataVolumeTemplate
  renamed_templates = map (λ (u : DataVolumeTemplate). record u { name = namespaced vm u.name }) ts

  template_names-renamed :
      (us : List DataVolumeTemplate)
      → template_names
          (map (λ (u : DataVolumeTemplate). record u { name = namespaced vm u.name }) us)
        ≡ map (namespaced vm) (template_names us)
  template_names-renamed [] = refl
  template_names-renamed (u ∷ us) = ap (λ l. namespaced vm u.name ∷ l) (template_names-renamed us)

  rename-Resolves :
      (v : Volume)
      → Resolves (template_names ts) v
      → Resolves (map (namespaced vm) (template_names ts)) (rename_volume (name_map vm ts []) v)
  unfolding rename_volume
  rename-Resolves v h = go v.source h
    where
      go :
          (s : VolumeSource)
          → SourceResolves (template_names ts) s
          → Resolves
              (map (namespaced vm) (template_names ts))
              (rename_volume (name_map vm ts []) (record v { source = s }))
      go (container_disk image) i = tt
      go (cloud_init_no_cloud secret) i = tt
      go (data_volume d) i =
          rw (name_map-kept vm d ts [] (inr i)) (In-map (namespaced vm) d (template_names ts) i)

  renames-resolve :
      (vs : List Volume)
      → All (Resolves (template_names ts)) vs
      → All
          (Resolves (map (namespaced vm) (template_names ts)))
          (map (rename_volume (name_map vm ts [])) vs)
  renames-resolve [] h = tt
  renames-resolve (v ∷ vs) (h, hs) = (rename-Resolves v h, renames-resolve vs hs)

  renames-names :
      (vs : List Volume)
      → volume_names (map (rename_volume (name_map vm ts [])) vs) ≡ volume_names vs
  unfolding rename_volume
  renames-names [] = refl
  renames-names (v ∷ vs) = ap (λ l. v.name ∷ l) (renames-names vs)

-- Where each volume that refers to a data volume refers to one of the templates, it refers to one of
-- the renamed templates afterwards; the templates are renamed one by one, and the volumes keep their
-- names.
pub namespace_data_volumes-Resolves :
    (ts : List DataVolumeTemplate) (vs : List Volume) (vm : String)
    → All (Resolves (template_names ts)) vs
    → let (ts', vs') = namespace_data_volumes ts vs vm in
      All (Resolves (template_names ts')) vs'
      × (template_names ts' ≡ map (namespaced vm) (template_names ts))
      × (volume_names vs' ≡ volume_names vs)
unfolding namespace_data_volumes
namespace_data_volumes-Resolves [] vs vm h = (h, refl, refl)
namespace_data_volumes-Resolves (t ∷ ts) vs vm h =
    let names = template_names-renamed vm (t ∷ ts) (t ∷ ts) in
    (
      subst (λ l. All (Resolves l) (map (rename_volume (name_map vm (t ∷ ts) [])) vs)) (sym names)
          (renames-resolve vm (t ∷ ts) vs h),
      names,
      renames-names vm (t ∷ ts) vs,
    )
