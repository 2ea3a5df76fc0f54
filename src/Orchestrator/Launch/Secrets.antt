-- ===== src/Orchestrator/Launch/Secrets.antt =====
-- The secrets of a run are there when `createSecrets` returns nil.
use virtwork.Base.{
  ℕ, suc, ◌<◌, ◌^◌, String, Bool, false, Option, none, some, List, [], ◌∷◌, map, length, Result, ok,
  err, ◌≡◌, refl, All, In, Bool-cases, inl, inr, ltb, ap,
}
use virtwork.Base.Text.Bytes.{bytes}
use virtwork.Constants.{max_secret_data_size}
use virtwork.Config.{Config}
use virtwork.Audit.{Auditor, ResourceRecord}
use virtwork.Kube.{ApiError}
use virtwork.Kube.Client.{Client, a_secret}
use virtwork.Vm.Retry.{Context, RetryError, is_already_exists}
use virtwork.Resources.{
  ResourceError, api, cloud_init_too_large, fetching_namespace, listing, deleting, created,
  create_cloud_init_secret,
}
use virtwork.Resources.Laws.{SecretMeans, create_cloud_init_secret-SecretMeans, Creates}
use virtwork.Goroutines.{Task, finished, IsResult}
use virtwork.Goroutines.Together.{IsPolite, Attains, Each, Runs-Each, Each-Brought, Waits-Brought}
use virtwork.Orchestrator.{VmPlan}
use virtwork.Orchestrator.Objects.{secret_name, secret_labels}
use virtwork.Orchestrator.DryRun.{secret_of}
use virtwork.Orchestrator.Launch.{
  LaunchError, creating_secret, after_secret, secret_task, count_nil, CreatesSecrets,
  secrets_created, secret_failed,
}

abbrev userdata_size : VmPlan → ℕ
userdata_size p = length (bytes p.vm_spec.cloud_init_userdata)

-- The error of a secret: its userdata is larger than 1 MiB, or the API refused it, which did not say
-- that it exists.
abbrev pub IsSecretFault : VmPlan → LaunchError → Type 0
IsSecretFault p (creating_secret name (cloud_init_too_large s n)) =
    (name ≡ p.vm_name) × (2 ^ 20 < length (bytes p.vm_spec.cloud_init_userdata))
IsSecretFault p (creating_secret name (api e)) = (name ≡ p.vm_name) × (is_already_exists e ≡ false)
IsSecretFault p _ = ⊥

-- What the result says: the number of the plans, and `P` of each; or an error of one of the plans.
abbrev pub SecretsBrought :
    {W : Type 0} → (VmPlan → W → Type 0) → List VmPlan → Result LaunchError ℕ → W → Type 0
SecretsBrought P plans (ok n) w = (n ≡ length plans) × All (λ p. P p w) plans
SecretsBrought P plans (err e) w = (p : VmPlan) × In p plans × IsSecretFault p e

module _ {W : Type 0} (is_quantity : String → Bool) (created_text failed_text : String → String)
    (error_text : RetryError → String) (client : Client W) (ctx : Context W) (auditor : Auditor W)
    (cfg : Config) (exec_id : ℕ) (run_id : String) (outside : W → W → Type 0)
    (P : VmPlan → W → Type 0)
    (made : (p : VmPlan) (w : W)
      → Creates
          (P p)
          w
          (length (bytes p.vm_spec.cloud_init_userdata))
          (client.create (a_secret (secret_of cfg run_id p)) w))
    (kept : (p q : VmPlan) (w : W)
      → P p w
      → P p (client.create (a_secret (secret_of cfg run_id q)) w).1)
    (recorded : (p : VmPlan) (r : ResourceRecord) (w : W)
      → P p w
      → P p (auditor.record_resource exec_id r w).1)
    (stays : (w v : W) → outside w v → (p : VmPlan) → P p w → P p v) where
  abbrev task : VmPlan → Task W LaunchError
  task p =
      secret_task is_quantity created_text failed_text error_text client ctx auditor cfg exec_id
        run_id p

  created-keeps : (p : VmPlan) (r : Option ApiError × W) → P p r.1 → P p (created r).1
  created-keeps p (none, w) h = h
  created-keeps p (some e, w) h = h

  create-keeps :
      (p q : VmPlan) (w : W)
      → P p w
      → P p
          (create_cloud_init_secret client
            (secret_name q)
            cfg.namespace
            q.vm_spec.cloud_init_userdata
            (secret_labels run_id q)
            w).1
  unfolding create_cloud_init_secret
  create-keeps p q w h =
      elim (Bool-cases (ltb max_secret_data_size (length (bytes q.vm_spec.cloud_init_userdata)))) [
        | inl t ↦ rw t h
        | inr f ↦
            rw f
              (created-keeps p (client.create (a_secret (secret_of cfg run_id q)) w) (kept p q w h))
      ]

  after_secret-IsPolite :
      (p : VmPlan) (o : Option ResourceError)
      → IsPolite P IsSecretFault (
          after_secret is_quantity created_text failed_text error_text client ctx auditor cfg
            exec_id run_id p o)
  unfolding after_secret
  after_secret-IsPolite p (some e) = tt
  after_secret-IsPolite p none = λ w. ((λ q h. recorded q _ w h), tt)

  after_secret-Attains :
      (p : VmPlan) (w : W) (r : Option ResourceError × W)
      → SecretMeans W (P p) w (userdata_size p) r
      → Attains P IsSecretFault p
          (after_secret is_quantity created_text failed_text error_text client ctx auditor cfg
            exec_id run_id p r.0)
          r.1
  unfolding after_secret
  after_secret-Attains p w (none, v) (small, h) = λ u k. recorded p _ u (k p h)
  after_secret-Attains p w (some (cloud_init_too_large s n), v) (large, same, unchanged) =
      (refl, large)
  after_secret-Attains p w (some (api e), v) m = (refl, m)
  after_secret-Attains p w (some (fetching_namespace s e), v) m = m
  after_secret-Attains p w (some (listing k s e), v) m = m
  after_secret-Attains p w (some (deleting k s e), v) m = m

  tasks-Each : (plans : List VmPlan) (w : W) → Each P IsSecretFault plans (map task plans) w
  unfolding secret_task
  tasks-Each [] w = tt
  tasks-Each (p ∷ plans) w = (
    (λ v k. after_secret-Attains p v _ (
        create_cloud_init_secret-SecretMeans client (P p) (secret_name p) cfg.namespace
          p.vm_spec.cloud_init_userdata (secret_labels run_id p) v (made p v))),
    (λ v. ((λ q h. create-keeps q p v h), after_secret-IsPolite p _)),
    tasks-Each plans w,
  )

  count_nil-all :
      (plans : List VmPlan) (rs : List (Option LaunchError)) (w : W)
      → Each P IsSecretFault plans (map finished rs) w
      → IsResult rs none
      → count_nil rs ≡ length plans
  count_nil-all [] [] w h g = refl
  count_nil-all [] (r ∷ rs) w h g = absurd h
  count_nil-all (p ∷ plans) [] w h g = absurd h
  count_nil-all (p ∷ plans) (none ∷ rs) w (h, q, hs) (g, gs) =
      ap suc (count_nil-all plans rs w hs gs)
  count_nil-all (p ∷ plans) (some e ∷ rs) w (h, q, hs) (g, gs) = absurd (cc)

  -- Where `P` of a plan holds after the creation of its secret, if that succeeds or finds that the
  -- secret exists, and neither another creation, nor an entry in the audit database, nor what happens
  -- outside undoes it: in whatever order the goroutines run, when createSecrets returns no error, it
  -- has counted the plans and `P` holds of each. An error is that of a plan whose userdata is larger
  -- than 1 MiB, or of one whose secret the API refused other than by saying that it exists.
  pub create_secrets-SecretsBrought :
      (plans : List VmPlan) (w : W) {r : Result LaunchError ℕ} {v : W}
      → CreatesSecrets is_quantity created_text failed_text error_text client ctx auditor cfg
          exec_id run_id outside plans w r v
      → SecretsBrought P plans r v
  create_secrets-SecretsBrought plans w {v = v} (secrets_created rs runs g) =
      let h = Runs-Each P IsSecretFault outside plans stays runs (tasks-Each plans w) in
      (count_nil-all plans rs v h g, Each-Brought P IsSecretFault plans rs none v h g)
  create_secrets-SecretsBrought plans w (secret_failed returned) =
      Waits-Brought P IsSecretFault outside plans stays (tasks-Each plans w) returned
