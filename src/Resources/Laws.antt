-- ===== src/Resources/Laws.antt =====
-- What the resources are when a call returns nil.
use virtwork.Base.{
  ℕ, ◌≤◌, ◌<◌, ◌^◌, String, true, false, Option, none, some, List, [], ◌∷◌, ◌≡◌, refl, In, arith,
  Bool-cases, inl, inr, ltb, length, map, ◌⊎◌, All,
}
use virtwork.Base.Text.Bytes.{bytes}
use virtwork.Constants.{max_secret_data_size, secret_key_userdata}
use virtwork.Kube.{Labels, ApiError, Secret}
use virtwork.Kube.Client.{Client, a_namespace, a_secret, LabelsNamespace}
use virtwork.Vm.Retry.{is_already_exists}
use virtwork.Resources.{
  ResourceError, fetching_namespace, cloud_init_too_large, listing, deleting, api, created,
  create_cloud_init_secret,
}

abbrev pub label_keys : Labels → List String
label_keys labels = map (λ (e : String × String). e.0) labels

module _ {W : Type 0} (client : Client W) (name : String) (laws : LabelsNamespace client name)
    (labels : Labels) (w : W) where
  -- The namespace has each label that was asked for. It has been created, or else its other labels
  -- are the ones it had in `w`.
  abbrev pub Ensures : Option ResourceError × W → Type 0
  Ensures (none, u) =
      All (λ (e : String × String). laws.label e.0 u ≡ some e.1) labels
      × (((client.create (a_namespace name labels) w).0 ≡ none)
          ⊎ ((k : String) → (¬ In k (label_keys labels)) → laws.label k u ≡ laws.label k w))
  Ensures (some e, u) = Unit

-- What a result of CreateCloudInitSecret says: nil, and the userdata is at most 1 MiB and `P` holds;
-- the userdata is larger, and nothing was called; or an error of the API, which is not that the
-- secret exists.
abbrev pub SecretMeans : (W : Type 0) → (W → Type 0) → W → ℕ → Option ResourceError × W → Type 0
SecretMeans W P w size (none, w') = (size ≤ 2 ^ 20) × P w'
SecretMeans W P w size (some (cloud_init_too_large name n), w') =
    (2 ^ 20 < size) × (n ≡ size) × (w' ≡ w)
SecretMeans W P w size (some (api e), w') = is_already_exists e ≡ false
SecretMeans W P w size (some (fetching_namespace name e), w') = ⊥
SecretMeans W P w size (some (listing k name e), w') = ⊥
SecretMeans W P w size (some (deleting k name e), w') = ⊥

module _ {W : Type 0} (P : W → Type 0) (w : W) (size : ℕ) where
  -- `P` holds after the call, if it succeeds or finds that the object exists
  abbrev pub Creates : Option ApiError × W → Type 0
  Creates (none, w') = P w'
  Creates (some e, w') = is_already_exists e ≡ true → P w'

  created-SecretMeans :
      (r : Option ApiError × W) → size ≤ 2 ^ 20 → Creates r → SecretMeans W P w size (created r)
  created-SecretMeans (none, w') small h = (small, h)
  created-SecretMeans (some e, w') small h = elim (Bool-cases (is_already_exists e)) [
    | inl t ↦ rw t (small, h t)
    | inr f ↦ rw f f
  ]

-- the secret that holds the userdata
abbrev pub cloud_init_secret : (name namespace userdata : String) → Labels → Secret
cloud_init_secret name namespace userdata labels = record {
  name = name;
  namespace = namespace;
  labels = labels;
  string_data = (secret_key_userdata, userdata) ∷ [];
}

-- Where `P` holds after the creation of the secret with the userdata, if it succeeds or finds that
-- the secret exists: when CreateCloudInitSecret returns nil, the userdata is at most 1 MiB and `P`
-- holds; it returns the size error only for larger userdata, and then without a call; and no other
-- error than one of the creation, which is not that the secret exists.
pub create_cloud_init_secret-SecretMeans :
    {W : Type 0} (client : Client W) (P : W → Type 0) (name namespace userdata : String)
    (labels : Labels) (w : W)
    → Creates P w
        (length (bytes userdata))
        (client.create (a_secret (cloud_init_secret name namespace userdata labels)) w)
    → SecretMeans W P w
        (length (bytes userdata))
        (create_cloud_init_secret client name namespace userdata labels w)
unfolding create_cloud_init_secret
create_cloud_init_secret-SecretMeans client P name namespace userdata labels w h =
    elim (Bool-cases (ltb max_secret_data_size (length (bytes userdata)))) [
      | inl t ↦ rw t (ground arith, refl, refl)
      | inr f ↦ rw f (
          created-SecretMeans P w (length (bytes userdata))
            (client.create (a_secret (cloud_init_secret name namespace userdata labels)) w)
            (ground arith) h)
    ]
