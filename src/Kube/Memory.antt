-- ===== src/Kube/Memory.antt =====
-- A cluster in memory, as a client that the examples run on: objects with their kinds, a clock, and
-- the namespaces' labels.
pub mod Laws
pub mod Patches
use virtwork.Base.{
  ℕ, suc, ◌+◌, String, Bool, true, false, Option, none, some, List, [], ◌∷◌, Result, ok, err, ◌==◌,
  ◌&&◌, if◌then◌else◌, ◌++◌,
}
use virtwork.Base.Assoc.{Assoc, lookup, keys}
use virtwork.Kube.{Labels, ApiError, already_exists, not_found, VirtualMachine, Service, Secret}
use virtwork.Kube.Client.{
  Client, Kind, virtual_machine, service, secret, data_volume, persistent_volume_claim, namespace,
  Meta, Object, a_vm, a_service, a_secret, a_namespace, merged,
}

pub record Cluster : Type 0 where
  pub objects : List (Kind × Meta)
  -- the calls of create that were made
  pub created : ℕ

abbrev pub same_kind : Kind → Kind → Bool
same_kind virtual_machine virtual_machine = true
same_kind service service = true
same_kind secret secret = true
same_kind data_volume data_volume = true
same_kind persistent_volume_claim persistent_volume_claim = true
same_kind namespace namespace = true
same_kind _ _ = false

abbrev pub is_text : String → Option String → Bool
is_text v none = false
is_text v (some w) = w == v

unfoldable pub carries : Labels → Labels → Bool
carries [] labels = true
carries ((k, v) ∷ selector) labels = is_text v (lookup k labels) && carries selector labels

unfoldable pub select : Kind → String → Labels → List (Kind × Meta) → List Meta
select k ns selector [] = []
select k ns selector ((j, m) ∷ objects) =
    let rest = select k ns selector objects in
    if same_kind j k && ((m.namespace == ns) && carries selector m.labels) then m ∷ rest else rest

abbrev pub is_object : Kind → String → String → Kind × Meta → Bool
is_object k ns name (j, m) = same_kind j k && ((m.namespace == ns) && (m.name == name))

unfoldable pub exists : Kind → String → String → List (Kind × Meta) → Bool
exists k ns name [] = false
exists k ns name (o ∷ objects) = if is_object k ns name o then true else exists k ns name objects

unfoldable pub remove : Kind → String → String → List (Kind × Meta) → List (Kind × Meta)
remove k ns name [] = []
remove k ns name (o ∷ objects) =
    let rest = remove k ns name objects in if is_object k ns name o then rest else o ∷ rest

abbrev pub meta_of : Object → Kind × Meta
meta_of (a_vm vm) =
    (virtual_machine, record { name = vm.name; namespace = vm.namespace; labels = vm.labels })
meta_of (a_service svc) =
    (service, record { name = svc.name; namespace = svc.namespace; labels = svc.labels })
meta_of (a_secret s) =
    (secret, record { name = s.name; namespace = s.namespace; labels = s.labels })
meta_of (a_namespace name labels) =
    (namespace, record { name = name; namespace = ""; labels = labels })

unfoldable pub delete_object : Kind → String → String → Bool → Cluster → Option ApiError × Cluster
delete_object k ns name dry c =
    if exists k ns name c.objects
    then (if dry then (none, c) else (none, record c { objects = remove k ns name c.objects }))
    else (some not_found, c)

unfoldable pub create_object : Object → Cluster → Option ApiError × Cluster
create_object o c =
    let (k, m) = meta_of o in
    if exists k m.namespace m.name c.objects
    then (some already_exists, record c { created = suc c.created })
    else (none, record { objects = (k, m) ∷ c.objects; created = suc c.created })

unfoldable pub labels_of : String → List (Kind × Meta) → Result ApiError Labels
labels_of name [] = err not_found
labels_of name ((k, m) ∷ objects) =
    if same_kind k namespace && (m.name == name) then ok m.labels else labels_of name objects

abbrev pub put_label : String → Option String → Labels → Labels
put_label k none labels = labels
put_label k (some v) labels = (k, v) ∷ labels

-- the labels after a merge patch, for the keys
unfoldable pub merge_keys : (base modified current : Labels) → List String → Labels
merge_keys base modified current [] = []
merge_keys base modified current (k ∷ ks) =
    put_label k (merged (lookup k base) (lookup k modified) (lookup k current))
      (merge_keys base modified current ks)

abbrev pub merge_labels : (base modified current : Labels) → Labels
merge_labels base modified current =
    merge_keys base modified current (keys modified ++ keys current)

unfoldable pub patch_objects :
    String → (base modified : Labels) → List (Kind × Meta) → List (Kind × Meta)
patch_objects name base modified [] = []
patch_objects name base modified ((k, m) ∷ objects) =
    if same_kind k namespace && (m.name == name)
    then (k, record m { labels = merge_labels base modified m.labels }) ∷ objects
    else (k, m) ∷ patch_objects name base modified objects

-- a patch, by whether the namespace is found
abbrev pub patched :
    String → (base modified : Labels) → Cluster → Result ApiError Labels → Option ApiError × Cluster
patched name base modified c (err e) = (some e, c)
patched name base modified c (ok labels) =
    (none, record c { objects = patch_objects name base modified c.objects })

abbrev pub memory : Client Cluster
memory = record {
  list = λ k ns selector c. (ok (select k ns selector c.objects), c);
  delete = delete_object;
  create = create_object;
  get_namespace = λ name c. (labels_of name c.objects, c);
  patch_namespace = λ name base modified c. patched name base modified c (labels_of name c.objects);
  get_phase = λ name ns c. (ok "Running", c);
}
