-- ===== src/Cleanup.antt =====
-- internal/cleanup/cleanup.go
pub mod Frame
pub mod Sweep
pub mod Counts
pub mod RunIds
pub mod Preview
use virtwork.Base.{
  ℕ, suc, ◌+◌, String, Bool, true, false, Option, none, some, List, [], ◌∷◌, ◌++◌, ◌==◌, length,
  if◌then◌else◌, Result, ok, err,
}
use virtwork.Base.Assoc.{lookup}
use virtwork.Constants.{label_managed_by, managed_by_value, label_run_id}
use virtwork.Config.{Config}
use virtwork.Kube.{Labels, ApiError}
use virtwork.Kube.Client.{
  Client, Kind, virtual_machine, service, secret, data_volume, persistent_volume_claim, namespace,
  Meta,
}
use virtwork.Vm.Retry.{is_not_found}

pub data CleanupError : Type 0 where
  listing : Kind → ApiError → CleanupError
  deleting : Kind → String → ApiError → CleanupError

pub record CleanupResult : Type 0 where
  pub vms_deleted : ℕ
  pub services_deleted : ℕ
  pub secrets_deleted : ℕ
  pub dvs_deleted : ℕ
  pub pvcs_deleted : ℕ
  pub namespace_deleted : Bool
  pub errors : List CleanupError
  pub run_ids : List String
  pub deleted_vm_names : List String
  pub deleted_service_names : List String
  pub deleted_secret_names : List String
  pub deleted_dv_names : List String
  pub deleted_pvc_names : List String

abbrev pub no_result : CleanupResult
no_result = record {
  vms_deleted = 0;
  services_deleted = 0;
  secrets_deleted = 0;
  dvs_deleted = 0;
  pvcs_deleted = 0;
  namespace_deleted = false;
  errors = [];
  run_ids = [];
  deleted_vm_names = [];
  deleted_service_names = [];
  deleted_secret_names = [];
  deleted_dv_names = [];
  deleted_pvc_names = [];
}

pub record CleanupPreview : Type 0 where
  pub vm_count : ℕ
  pub service_count : ℕ
  pub secret_count : ℕ
  pub dv_count : ℕ
  pub pvc_count : ℕ
  pub preview_run_ids : List String
  pub total_count : ℕ

-- the selector of the objects to delete
unfoldable pub managed_labels : String → Labels
managed_labels run_id =
    if run_id == ""
    then (label_managed_by, managed_by_value) ∷ []
    else (label_managed_by, managed_by_value) ∷ (label_run_id, run_id) ∷ []

-- `set[id] = struct{}{}`: the set in the order of its first insertions
unfoldable pub add_to_set : String → List String → List String
add_to_set id [] = id ∷ []
add_to_set id (x ∷ set) = if id == x then x ∷ set else x ∷ add_to_set id set

-- the label's value, if there is one and it is not empty, is put into the set
unfoldable pub add_run_id : Option String → List String → List String
add_run_id none set = set
add_run_id (some id) set = if id == "" then set else add_to_set id set

unfoldable pub collect_run_id : Labels → List String → List String
collect_run_id labels set = add_run_id (lookup label_run_id labels) set

-- the count and the name of a deleted object; for the namespace, the flag
unfoldable pub record_deleted : Kind → String → CleanupResult → CleanupResult
record_deleted virtual_machine name r = record r {
  vms_deleted = suc r.vms_deleted;
  deleted_vm_names = r.deleted_vm_names ++ (name ∷ []);
}
record_deleted service name r = record r {
  services_deleted = suc r.services_deleted;
  deleted_service_names = r.deleted_service_names ++ (name ∷ []);
}
record_deleted secret name r = record r {
  secrets_deleted = suc r.secrets_deleted;
  deleted_secret_names = r.deleted_secret_names ++ (name ∷ []);
}
record_deleted data_volume name r = record r {
  dvs_deleted = suc r.dvs_deleted;
  deleted_dv_names = r.deleted_dv_names ++ (name ∷ []);
}
record_deleted persistent_volume_claim name r = record r {
  pvcs_deleted = suc r.pvcs_deleted;
  deleted_pvc_names = r.deleted_pvc_names ++ (name ∷ []);
}
record_deleted namespace name r = record r { namespace_deleted = true }

-- what the outcome of a deletion adds to the result
unfoldable pub settle : Kind → String → Option ApiError → CleanupResult → CleanupResult
settle k name none r = record_deleted k name r
settle k name (some e) r =
    if is_not_found e then r else record r { errors = r.errors ++ (deleting k name e ∷ []) }

-- the order in which CleanupAll and PreviewCleanup go through the kinds
abbrev pub cleanup_order : List Kind
cleanup_order = virtual_machine ∷ service ∷ secret ∷ data_volume ∷ persistent_volume_claim ∷ []

abbrev pub no_preview : CleanupPreview
no_preview = record {
  vm_count = 0;
  service_count = 0;
  secret_count = 0;
  dv_count = 0;
  pvc_count = 0;
  preview_run_ids = [];
  total_count = 0;
}

unfoldable pub collect_run_ids : List Meta → List String → List String
collect_run_ids [] set = set
collect_run_ids (m ∷ items) set = collect_run_ids items (collect_run_id m.labels set)

-- the count of a kind, and the run ids of its objects
unfoldable pub record_listed : Kind → List Meta → CleanupPreview → CleanupPreview
record_listed k items p =
    set_count k (record p { preview_run_ids = collect_run_ids items p.preview_run_ids })
  where
    set_count : Kind → CleanupPreview → CleanupPreview
    set_count virtual_machine q = record q { vm_count = length items }
    set_count service q = record q { service_count = length items }
    set_count secret q = record q { secret_count = length items }
    set_count data_volume q = record q { dv_count = length items }
    set_count persistent_volume_claim q = record q { pvc_count = length items }
    set_count namespace q = q

abbrev pub total : CleanupPreview → ℕ
total p = p.vm_count + p.service_count + p.secret_count + p.dv_count + p.pvc_count

-- the result so far, the set of the run ids and the world
pub record Progress (W : Type 0) : Type 0 where
  pub result : CleanupResult
  pub run_id_set : List String
  pub world : W

abbrev pub start : {W : Type 0} → W → Progress W
start w = record { result = no_result; run_id_set = []; world = w }

module _ {W : Type 0} (client : Client W) (cfg : Config) where
  -- The loop over the listed objects of a kind.
  unfoldable pub delete_items : Kind → List Meta → Progress W → Progress W
  delete_items k [] p = p
  delete_items k (m ∷ items) p =
      let (failure, w) = client.delete k m.namespace m.name cfg.dry_run p.world in
      delete_items k items (record {
        result = settle k m.name failure p.result;
        run_id_set = collect_run_id m.labels p.run_id_set;
        world = w;
      })

  -- what a section does with the outcome of its list; an error ends CleanupAll
  unfoldable pub after_list :
      Kind
      → (Progress W → Progress W × Option CleanupError)
      → Result ApiError (List Meta) × W
      → Progress W
      → Progress W × Option CleanupError
  after_list k rest (err e, w) p = (record p { world = w }, some (listing k e))
  after_list k rest (ok items, w) p = rest (delete_items k items (record p { world = w }))

  -- The sections for the kinds.
  unfoldable pub delete_kinds : Labels → List Kind → Progress W → Progress W × Option CleanupError
  delete_kinds selector [] p = (p, none)
  delete_kinds selector (k ∷ kinds) p =
      after_list k (λ q. delete_kinds selector kinds q)
        (client.list k cfg.namespace selector p.world) p

  -- the last section
  unfoldable pub delete_namespace : Bool → CleanupResult → W → CleanupResult × W
  delete_namespace false r w = (r, w)
  delete_namespace true r w =
      let (failure, w') = client.delete namespace "" cfg.namespace false w in
      (settle namespace cfg.namespace failure r, w')

  unfoldable pub finish :
      Bool → Progress W × Option CleanupError → (CleanupResult × Option CleanupError) × W
  finish asked (p, some e) = ((p.result, some e), p.world)
  finish asked (p, none) =
      let (r, w) = delete_namespace asked (record p.result { run_ids = p.run_id_set }) p.world in
      ((r, none), w)

  -- CleanupAll: the result, and the error where a list failed
  unfoldable pub cleanup_all : Bool → String → W → (CleanupResult × Option CleanupError) × W
  cleanup_all asked run_id w =
      finish asked (delete_kinds (managed_labels run_id) cleanup_order (start w))

  unfoldable pub after_count :
      Kind
      → (CleanupPreview → W → Result CleanupError CleanupPreview × W)
      → Result ApiError (List Meta) × W
      → CleanupPreview
      → Result CleanupError CleanupPreview × W
  after_count k rest (err e, w) p = (err (listing k e), w)
  after_count k rest (ok items, w) p = rest (record_listed k items p) w

  -- The sections of PreviewCleanup: the counts so far and the set of the run ids.
  unfoldable pub count_kinds :
      Labels → List Kind → CleanupPreview → W → Result CleanupError CleanupPreview × W
  count_kinds selector [] p w = (ok (record p { total_count = total p }), w)
  count_kinds selector (k ∷ kinds) p w =
      after_count k (λ q w'. count_kinds selector kinds q w')
        (client.list k cfg.namespace selector w) p

  unfoldable pub preview_cleanup : String → W → Result CleanupError CleanupPreview × W
  preview_cleanup run_id w = count_kinds (managed_labels run_id) cleanup_order no_preview w
