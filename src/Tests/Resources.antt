-- ===== src/Tests/Resources.antt =====
-- The namespace and the secrets (internal/resources/resources.go).
use virtwork.Base.{String, true, none, [], ◌∷◌, ◌≡◌, refl, length, ok, ◌++◌}
use virtwork.Base.Text.Bytes.{bytes}
use virtwork.Constants.{label_managed_by, managed_by_value}
use virtwork.Kube.{Labels}
use virtwork.Kube.Client.{secret, namespace, a_secret}
use virtwork.Kube.Memory.{
  Cluster, memory, create_object, exists, labels_of, patch_objects, merge_keys,
}
use virtwork.Base.Assoc.{lookup, insert}
use virtwork.Resources.{
  ensure_namespace, create_cloud_init_secret, after_create, on_create_error, patch_existing,
  copy_labels,
}
use virtwork.Resources.Laws.{
  SecretMeans, Creates, cloud_init_secret, create_cloud_init_secret-SecretMeans,
}

abbrev managed : Labels
managed = (label_managed_by, managed_by_value) ∷ []

-- a cluster where the namespace exists with other labels
abbrev cluster : Cluster
cluster = record {
  objects =
      (namespace, record { name = "virtwork"; namespace = ""; labels = ("team", "perf") ∷ [] })
      ∷ [];
  created = 0;
}

patched_run :
    let (failure, c) = ensure_namespace memory "virtwork" managed cluster in
    (failure ≡ none)
    × (labels_of "virtwork" c.objects ≡ ok (("team", "perf") ∷ managed ++ (("team", "perf") ∷ [])))
unfolding ensure_namespace after_create on_create_error patch_existing copy_labels create_object
    exists labels_of patch_objects merge_keys lookup insert
patched_run = (refl, refl)

abbrev HasSecret : Cluster → Type 0
HasSecret c = exists secret "virtwork" "virtwork-cpu-0-cloudinit" c.objects ≡ true

abbrev userdata : String
userdata = "#cloud-config"

secret-Creates : Creates HasSecret cluster (length (bytes userdata)) (
    create_object
      (a_secret (cloud_init_secret "virtwork-cpu-0-cloudinit" "virtwork" userdata managed))
      cluster)
unfolding create_object exists
secret-Creates = refl

create_cloud_init_secret-SecretMeans_example :
    SecretMeans Cluster HasSecret cluster (length (bytes userdata)) (
      create_cloud_init_secret memory "virtwork-cpu-0-cloudinit" "virtwork" userdata managed
        cluster)
create_cloud_init_secret-SecretMeans_example =
    create_cloud_init_secret-SecretMeans memory HasSecret "virtwork-cpu-0-cloudinit" "virtwork"
      userdata managed cluster secret-Creates
