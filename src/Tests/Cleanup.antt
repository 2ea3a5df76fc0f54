-- ===== src/Tests/Cleanup.antt =====
-- A cleanup of a cluster in memory (internal/cleanup/cleanup.go).
use virtwork.Base.{
  String, Bool, true, false, none, [], ◌∷◌, ◌≡◌, refl, ◌∙◌, All, In, Bool-cases, inl, inr,
}
use virtwork.Base.Assoc.{lookup}
use virtwork.Base.Int.{pos}
use virtwork.Constants.{label_managed_by, managed_by_value, label_run_id}
use virtwork.Config.{Config}
use virtwork.Kube.Client.{Kind, virtual_machine, secret, service, namespace, Meta}
use virtwork.Kube.Memory.{Cluster, memory, select, exists, remove, delete_object, carries}
use virtwork.Kube.Memory.Laws.{memory-ListsSelected, memory_lists, memory_deletes}
use virtwork.Cleanup.{
  cleanup_all, preview_cleanup, managed_labels, cleanup_order, after_list, delete_kinds,
  delete_items, finish, delete_namespace, settle, record_deleted, collect_run_id, add_run_id,
  add_to_set,
}
use virtwork.Cleanup.Sweep.{cleanup_all-sweeps}
use virtwork.Cleanup.Frame.{cleanup_all-frame}
use virtwork.Cleanup.Counts.{cleanup_all-IsAccounted, IsAccounted, IsListing}
use virtwork.Cleanup.RunIds.{cleanup_all-AreRunIds, AreRunIds}
use virtwork.Cleanup.Preview.{preview_cleanup-Previews, Previews}

abbrev pub sample : Config
sample = record {
  namespace = "virtwork";
  container_disk_image = "quay.io/fedora";
  data_disk_size = "10Gi";
  cpu_cores = pos 2;
  memory = "2Gi";
  workloads = [];
  kubeconfig_path = "";
  cluster_context = "";
  cleanup_mode = "";
  wait_for_ready = true;
  ready_timeout_seconds = pos 600;
  dry_run = false;
  verbose = false;
  ssh_user = "virtwork";
  ssh_password = "";
  ssh_authorized_keys = [];
  audit_enabled = true;
  audit_db_path = "virtwork.db";
  vm_concurrency = pos 10;
  catalog_dir = "";
  from_catalog = [];
}

abbrev own : String → Meta
own name = record {
  name = name;
  namespace = "virtwork";
  labels = (label_managed_by, managed_by_value) ∷ (label_run_id, "r1") ∷ [];
}

abbrev foreign : Meta
foreign = record { name = "db"; namespace = "virtwork"; labels = ("app", "db") ∷ [] }

abbrev cluster : Cluster
cluster = record {
  objects =
      (virtual_machine, own "virtwork-cpu-0")
      ∷ (service, foreign)
      ∷ (secret, own "virtwork-cpu-0-cloudinit")
      ∷ [];
  created = 0;
}

-- the run of a cleanup with the id "r1": what it deletes, that it returns nil, and no errors
cleanup_all_run :
    let r = (cleanup_all memory sample false "r1" cluster).0 in
    (r.0.deleted_vm_names ≡ "virtwork-cpu-0" ∷ []) × (r.1 ≡ none) × (r.0.errors ≡ [])
unfolding cleanup_all delete_kinds after_list delete_items finish delete_namespace settle
    record_deleted collect_run_id add_run_id add_to_set managed_labels select exists remove
    delete_object carries lookup
cleanup_all_run = (refl, refl, refl)

cleanup_all-sweeps_example :
    All
      (λ (k : Kind).
        (x : Meta)
        → ¬ In x (
            select k "virtwork"
              (managed_labels "r1")
              (cleanup_all memory sample false "r1" cluster).1.objects))
      cleanup_order
cleanup_all-sweeps_example =
    cleanup_all-sweeps memory sample false "r1" cluster
      (memory_deletes "virtwork" (managed_labels "r1")) refl cleanup_all_run.1 cleanup_all_run.2

delete-created :
    (k : Kind) (ns name : String) (dry : Bool) (c : Cluster)
    → (delete_object k ns name dry c).1.created ≡ c.created
unfolding delete_object
delete-created k ns name true c = elim (Bool-cases (exists k ns name c.objects)) [
  | inl t ↦ rw t refl
  | inr f ↦ rw f refl
]
delete-created k ns name false c = elim (Bool-cases (exists k ns name c.objects)) [
  | inl t ↦ rw t refl
  | inr f ↦ rw f refl
]

cleanup_all-frame_example : (cleanup_all memory sample true "r1" cluster).1.created ≡ 0
cleanup_all-frame_example =
    cleanup_all-frame memory sample (λ (c : Cluster). c.created ≡ 0) true "r1" cluster
      memory-ListsSelected (λ k c p. p)
      (λ k m c n l p. delete-created k m.namespace m.name false c ∙ p)
      (λ asked c p. delete-created namespace "" "virtwork" false c ∙ p) refl

cleanup_all-IsAccounted_example :
    IsAccounted (cleanup_all memory sample false "r1" cluster).0.0
    × IsListing (cleanup_all memory sample false "r1" cluster).0.1
cleanup_all-IsAccounted_example = cleanup_all-IsAccounted memory sample false "r1" cluster

cleanup_all-AreRunIds_example :
    AreRunIds "r1" (cleanup_all memory sample false "r1" cluster).0.0.run_ids
cleanup_all-AreRunIds_example =
    cleanup_all-AreRunIds memory sample "r1" false cluster memory-ListsSelected

preview_cleanup-Previews_example :
    Previews memory sample
      (managed_labels "r1")
      (memory_lists "virtwork" (managed_labels "r1"))
      cluster
      (preview_cleanup memory sample "r1" cluster)
    × ((preview_cleanup memory sample "r1" cluster).1 ≡ cluster)
preview_cleanup-Previews_example =
    preview_cleanup-Previews memory sample "r1" cluster
      (memory_lists "virtwork" (managed_labels "r1")) (λ c. c ≡ cluster) (λ k c p. p) refl
