-- ===== src/Resources.antt =====
-- internal/resources/resources.go
pub mod Laws
use virtwork.Base.{
  ℕ, suc, String, Bool, true, false, Option, none, some, List, [], ◌∷◌, ◌++◌, Result, ok, err,
  if◌then◌else◌, ltb, length,
}
use virtwork.Base.Assoc.{Assoc, insert}
use virtwork.Base.Text.Bytes.{bytes}
use virtwork.Constants.{max_secret_data_size, secret_key_userdata}
use virtwork.Kube.{Labels, Service, Secret, ApiError}
use virtwork.Kube.Client.{Client, Kind, Meta, Object, a_service, a_secret, a_namespace}
use virtwork.Vm.Retry.{is_already_exists, is_not_found}

-- the errors, with what their messages name
pub data ResourceError : Type 0 where
  fetching_namespace : String → ApiError → ResourceError
  cloud_init_too_large : String → ℕ → ResourceError
  listing : Kind → String → ApiError → ResourceError
  deleting : Kind → String → ApiError → ResourceError
  api : ApiError → ResourceError

abbrev pub as_error : Option ApiError → Option ResourceError
as_error none = none
as_error (some e) = some (api e)

-- `maps.Copy(existing, labels)`
unfoldable pub copy_labels : Labels → Labels → Labels
copy_labels existing [] = existing
copy_labels existing ((k, v) ∷ labels) = copy_labels (insert k v existing) labels

-- an error that says that the object exists counts as success
abbrev pub created : {W : Type 0} → Option ApiError × W → Option ResourceError × W
created (none, w) = (none, w)
created (some e, w) = (if is_already_exists e then none else some (api e), w)

module _ {W : Type 0} (client : Client W) where
  -- What follows on the `Get` of an existing namespace: the base of the patch is a deep copy, made
  -- before the labels are copied in.
  unfoldable pub patch_existing :
      String → Labels → Result ApiError Labels × W → Option ResourceError × W
  patch_existing name labels (err e, w) = (some (fetching_namespace name e), w)
  patch_existing name labels (ok existing, w) =
      let base = existing in
      let modified = copy_labels existing labels in
      let (failure, w') = client.patch_namespace name base modified w in (as_error failure, w')

  -- the branch on whether the namespace exists
  unfoldable pub on_create_error : Bool → String → Labels → ApiError → W → Option ResourceError × W
  on_create_error true name labels e w = patch_existing name labels (client.get_namespace name w)
  on_create_error false name labels e w = (some (api e), w)

  unfoldable pub after_create : String → Labels → Option ApiError × W → Option ResourceError × W
  after_create name labels (none, w) = (none, w)
  after_create name labels (some e, w) = on_create_error (is_already_exists e) name labels e w

  unfoldable pub ensure_namespace : String → Labels → W → Option ResourceError × W
  ensure_namespace name labels w =
      after_create name labels (client.create (a_namespace name labels) w)

  unfoldable pub create_service : Service → W → Option ResourceError × W
  create_service svc w = created (client.create (a_service svc) w)

  unfoldable pub create_cloud_init_secret :
      (name namespace userdata : String) → Labels → W → Option ResourceError × W
  create_cloud_init_secret name namespace userdata labels w =
      if ltb max_secret_data_size (length (bytes userdata))
      then (some (cloud_init_too_large name (length (bytes userdata))), w)
      else created (
          client.create
            (a_secret (record {
              name = name;
              namespace = namespace;
              labels = labels;
              string_data = (secret_key_userdata, userdata) ∷ [];
            }))
            w)

  -- the loop of the managed deletions, with the count and the errors so far
  unfoldable pub delete_each :
      Kind → List Meta → ℕ → List ResourceError → W → (ℕ × List ResourceError) × W
  delete_each k [] deleted errs w = ((deleted, errs), w)
  delete_each k (m ∷ items) deleted errs w =
      let (failure, w') = client.delete k m.namespace m.name false w in
      let (n, es) = settled k m.name failure deleted errs in delete_each k items n es w'
    where
      settled : Kind → String → Option ApiError → ℕ → List ResourceError → ℕ × List ResourceError
      settled k name none n es = (suc n, es)
      settled k name (some e) n es =
          (n, if is_not_found e then es else es ++ (deleting k name e ∷ []))

  unfoldable pub after_listing :
      Kind → String → Result ApiError (List Meta) × W → (ℕ × List ResourceError) × W
  after_listing k namespace (err e, w) = ((0, listing k namespace e ∷ []), w)
  after_listing k namespace (ok items, w) = delete_each k items 0 [] w

  -- `DeleteManagedSecrets` and `DeleteManagedServices`, by the kind; the errors are joined
  unfoldable pub delete_managed : Kind → String → Labels → W → (ℕ × List ResourceError) × W
  delete_managed k namespace labels w = after_listing k namespace (client.list k namespace labels w)
