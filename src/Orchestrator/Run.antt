-- ===== src/Orchestrator/Run.antt =====
-- internal/orchestrator/orchestrator.go: `Run`.
pub mod Dry
pub mod Endures
pub mod Launched
pub mod Returned
use virtwork.Base.{
  ℕ, String, Bool, true, false, Option, none, some, List, [], ◌∷◌, ◌++◌, map, length, Result, ok,
  err, ◌≡◌,
}
use virtwork.Base.Int.{ℤ}
use virtwork.Base.Assoc.{Assoc, lookup, insert}
use virtwork.Config.{Config}
use virtwork.Audit.{Auditor}
use virtwork.Kube.Client.{Client}
use virtwork.Vm.Retry.{Context, RetryError}
use virtwork.Wait.{WaitError}
use virtwork.Workloads.Registry.{
  Registry, RegistryEntry, RegistryOption, with_namespace, with_ssh_credentials, with_catalog_dir,
  with_data_disk_size,
}
use virtwork.Orchestrator.Plan.{PlanError}
use virtwork.Orchestrator.PlanVms.{Planned, nothing_planned, plan_vms}
use virtwork.Orchestrator.Objects.{with_secret}
use virtwork.Orchestrator.DryRun.{Document, DryRunError, print_dry_run}
use virtwork.Orchestrator.Create.{CreateError, create_resources}
use virtwork.Orchestrator.Launch.{LaunchError, CreatesSecrets, CreatesVms}
use virtwork.Orchestrator.Ready.{ReadinessError, WaitsForReadiness}

pub record RunResult : Type 0 where
  pub run_id : String
  pub vm_count : ℕ
  pub service_count : ℕ
  pub secret_count : ℕ

-- the errors of `Run`, by the step that they come from
pub data RunError : Type 0 where
  catalog_name_conflict : String → RunError
  loading_entry : String → String → RunError
  planning : PlanError → RunError
  printing : DryRunError → RunError
  creating_resources : CreateError → RunError
  creating_secrets creating_vms : LaunchError → RunError
  not_ready : ReadinessError → RunError

-- The registry with the catalog's entries. `load` is `LoadCatalogEntry` in the configured directory.
module _ (load : String → Result String RegistryEntry) where
  -- what follows on the look-up and the loading of an entry
  unfoldable pub after_load :
      String
      → Registry
      → Option RegistryEntry
      → Result String RegistryEntry
      → Result RunError Registry
  after_load name registry (some entry) r = err (catalog_name_conflict name)
  after_load name registry none (err e) = err (loading_entry name e)
  after_load name registry none (ok entry) = ok (insert name entry registry)

  abbrev pub and_load :
      Result RunError Registry → (Registry → Result RunError Registry) → Result RunError Registry
  and_load (err e) rest = err e
  and_load (ok registry) rest = rest registry

  unfoldable pub load_entries : List String → Registry → Result RunError Registry
  load_entries [] registry = ok registry
  load_entries (name ∷ names) registry =
      and_load (after_load name registry (lookup name registry) (load name))
        (λ r. load_entries names r)

abbrev pub registry_options : Config → List RegistryOption
registry_options cfg =
    with_namespace cfg.namespace
    ∷ with_ssh_credentials cfg.ssh_user cfg.ssh_password cfg.ssh_authorized_keys
    ∷ with_data_disk_size cfg.data_disk_size
    ∷ with_catalog_dir cfg.catalog_dir
    ∷ []

-- The texts that `fmt` formats, by what they are about.
pub record Texts : Type 0 where
  pub quote : String → String
  pub planned : (vms workloads : ℕ) → String
  pub service_created : String → String
  pub vm_created : String → String
  pub vm_failed : String → String
  pub vm_not_ready : String → String
  pub vm_ready : String → String
  pub retry_error : RetryError → String
  pub wait_error : WaitError → String

-- What `Run` uses of the libraries, the machine and the cluster.
pub record Surroundings (W : Type 0) : Type 0 where
  pub texts : Texts
  pub is_quantity : String → Bool
  pub marshal : Document → Result String String
  pub write : Document → String → W → W
  pub load : String → Result String RegistryEntry
  pub client : Client W
  pub ctx : Context W
  pub now : W → ℕ
  pub auditor : Auditor W

-- `outside` is what else happens in the world while the goroutines of a group run.
module _ {W : Type 0} (s : Surroundings W) (outside : W → W → Type 0) (cfg : Config)
    (registry : Registry) (exec_id : ℕ) (run_id : String) (vm_count_flag : ℤ) where
  -- a loop over the ids of the workloads in the audit database
  unfoldable pub update_statuses : String → Assoc ℕ → W → W
  update_statuses status [] w = w
  update_statuses status ((name, id) ∷ ids) w =
      update_statuses status ids (s.auditor.update_workload_status id status w).1

  abbrev pub run_plans : List String → Registry → W → Result PlanError Planned × W
  run_plans names r w =
      plan_vms s.texts.quote s.auditor cfg exec_id run_id vm_count_flag r (registry_options cfg)
        names nothing_planned w

  abbrev pub record_started : List String → Planned → W → W
  record_started names p w =
      (s.auditor.record_event exec_id
        (record {
          vm_id = none;
          workload_id = none;
          event_type = "execution_started";
          message = s.texts.planned (length p.plans) (length names);
          error_detail = "";
        })
        w).1

  abbrev pub result_of : Planned → (services secrets : ℕ) → RunResult
  result_of p services secrets = record {
    run_id = run_id;
    vm_count = length p.plans;
    service_count = services;
    secret_count = secrets;
  }

  -- the end of a dry run
  unfoldable pub after_print :
      Planned → Result DryRunError (ℕ × ℕ) × W → Result RunError RunResult × W
  after_print p (err e, w) = (err (printing e), w)
  after_print p (ok (services, secrets), w) = (ok (result_of p services secrets), w)

  unfoldable pub dry_run_planned : Planned → W → Result RunError RunResult × W
  dry_run_planned p w =
      after_print p
        (print_dry_run s.is_quantity s.marshal s.write cfg run_id p.plans p.workload_instances w)

  abbrev pub creates_resources : Planned → W → Result CreateError ℕ × W
  creates_resources p w =
      create_resources s.texts.service_created s.client s.auditor cfg exec_id run_id
        p.workload_instances w

  abbrev pub CreatesRunSecrets : Planned → W → Result LaunchError ℕ → W → Type 0
  CreatesRunSecrets p =
      CreatesSecrets s.is_quantity s.texts.vm_created s.texts.vm_failed s.texts.retry_error s.client
        s.ctx s.auditor cfg exec_id run_id outside p.plans

  -- the plans have the names of their secrets from `createSecrets` on
  abbrev pub CreatesRunVms : Planned → W → Option LaunchError → W → Type 0
  CreatesRunVms p =
      CreatesVms s.is_quantity s.texts.vm_created s.texts.vm_failed s.texts.retry_error s.client
        s.ctx s.auditor cfg exec_id run_id outside (map with_secret p.plans) p.audit_workload_ids

  abbrev pub WaitsForRun : Planned → W → Option ReadinessError → W → Type 0
  WaitsForRun p =
      WaitsForReadiness s.texts.vm_not_ready s.texts.vm_ready s.texts.wait_error s.auditor exec_id
        s.client s.ctx s.now cfg outside p.vm_names p.audit_workload_ids p.plans

  -- What `Run` returns after the planning of a run that is not dry, in which world.
  pub data Launches (p : Planned) (w : W) : Result RunError RunResult → W → Type 0 where
    resources_failed :
        {e : CreateError} {v : W}
        → creates_resources p w ≡ (err e, v)
        → Launches p w (err (creating_resources e)) v
    secrets_failed :
        {services : ℕ} {e : LaunchError} {v u : W}
        → creates_resources p w ≡ (ok services, v)
        → CreatesRunSecrets p v (err e) u
        → Launches p w (err (creating_secrets e)) u
    vms_failed :
        {services secrets : ℕ} {e : LaunchError} {v u t : W}
        → creates_resources p w ≡ (ok services, v)
        → CreatesRunSecrets p v (ok secrets) u
        → CreatesRunVms p u (some e) t
        → Launches p w (err (creating_vms e)) (update_statuses "failed" p.audit_workload_ids t)
    readiness_failed :
        {services secrets : ℕ} {e : ReadinessError} {v u t x : W}
        → creates_resources p w ≡ (ok services, v)
        → CreatesRunSecrets p v (ok secrets) u
        → CreatesRunVms p u none t
        → WaitsForRun p t (some e) x
        → Launches p w (err (not_ready e)) x
    launched :
        {services secrets : ℕ} {v u t x : W}
        → creates_resources p w ≡ (ok services, v)
        → CreatesRunSecrets p v (ok secrets) u
        → CreatesRunVms p u none t
        → WaitsForRun p t none x
        → Launches p w
            (ok (result_of p services secrets))
            (update_statuses "created" p.audit_workload_ids x)

  abbrev pub all_names : List String → List String
  all_names names = names ++ cfg.from_catalog

  -- `Run` returns this, in this world
  pub data RunReturns (names : List String) (w : W) : Result RunError RunResult → W → Type 0 where
    not_loaded :
        {e : RunError}
        → load_entries s.load cfg.from_catalog registry ≡ err e
        → RunReturns names w (err e) w
    not_planned :
        {r : Registry} {e : PlanError} {v : W}
        → load_entries s.load cfg.from_catalog registry ≡ ok r
        → run_plans (all_names names) r w ≡ (err e, v)
        → RunReturns names w (err (planning e)) v
    printed :
        {r : Registry} {p : Planned} {v : W}
        → load_entries s.load cfg.from_catalog registry ≡ ok r
        → run_plans (all_names names) r w ≡ (ok p, v)
        → cfg.dry_run ≡ true
        → RunReturns names w
            (dry_run_planned p (record_started (all_names names) p v)).0
            (dry_run_planned p (record_started (all_names names) p v)).1
    run :
        {r : Registry} {p : Planned} {v u : W} {result : Result RunError RunResult}
        → load_entries s.load cfg.from_catalog registry ≡ ok r
        → run_plans (all_names names) r w ≡ (ok p, v)
        → cfg.dry_run ≡ false
        → Launches p (record_started (all_names names) p v) result u
        → RunReturns names w result u
