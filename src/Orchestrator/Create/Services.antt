-- ===== src/Orchestrator/Create/Services.antt =====
-- The services of a run exist after they are created.
use virtwork.Base.{
  ◌∙◌, ℕ, suc, ◌+◌, String, true, false, Option, none, some, List, [], ◌∷◌, Result, ok, err, ◌≡◌,
  refl, All, length, arith, Bool-cases, inl, inr,
}
use virtwork.Base.Assoc.{Assoc}
use virtwork.Config.{Config}
use virtwork.Audit.{Auditor, EventRecord, ResourceRecord}
use virtwork.Kube.{ApiError, Service}
use virtwork.Kube.Client.{Client, a_service}
use virtwork.Vm.Retry.{is_already_exists}
use virtwork.Workloads.Contract.{Workload}
use virtwork.Resources.{api, ResourceError, created, create_service, ensure_namespace}
use virtwork.Orchestrator.Create.{
  CreateError, ensuring_namespace, creating_service, with_run_id, required_service,
  namespace_labels, record_service, after_service, create_next, create_services, after_namespace,
  create_resources,
}

abbrev pub add : String → Option Service → List Service → List Service
add run_id none rest = rest
add run_id (some svc) rest = with_run_id run_id svc ∷ rest

-- the services that the workloads require, with the label of the run
abbrev pub run_services : String → Assoc Workload → List Service
run_services run_id [] = []
run_services run_id ((name, workload) ∷ instances) =
    add run_id (required_service workload) (run_services run_id instances)

-- `P` holds after the call, if it succeeds or finds that the object exists
abbrev pub Made : {W : Type 0} → (W → Type 0) → Option ApiError × W → Type 0
Made P (none, w) = P w
Made P (some e, w) = is_already_exists e ≡ true → P w

-- an error of the API, which is not that the object exists
abbrev pub Denied : ResourceError → Type 0
Denied (api e) = is_already_exists e ≡ false
Denied _ = ⊥

-- What an error says: the namespace that could not be ensured is that of the configuration, or the
-- API refused a service, which did not exist.
abbrev pub IsFailure : Config → CreateError → Type 0
IsFailure cfg (ensuring_namespace name e) = name ≡ cfg.namespace
IsFailure cfg (creating_service name e) = Denied e

-- If there is no error: the count is `n`, and `P` holds of each service.
abbrev pub AllMade :
    {W : Type 0}
    → Config
    → (Service → W → Type 0)
    → List Service
    → ℕ
    → Result CreateError ℕ × W
    → Type 0
AllMade cfg P services n (ok count, w) = (count ≡ n) × All (λ s. P s w) services
AllMade cfg P services n (err e, w) = IsFailure cfg e

-- what a call that may fail says when it does
abbrev MayDeny : Option ResourceError → Type 0
MayDeny none = Unit
MayDeny (some e) = Denied e

created-MayDeny : {W : Type 0} (r : Option ApiError × W) → MayDeny (created r).0
created-MayDeny (none, w) = tt
created-MayDeny (some e, w) = elim (Bool-cases (is_already_exists e)) [
  | inl t ↦ rw t tt
  | inr f ↦ rw f f
]

created-Made :
    {W : Type 0} (P : W → Type 0) (r : Option ApiError × W)
    → Made P r
    → (created r).0 ≡ none
    → P (created r).1
created-Made P (none, w) m = λ h. m
created-Made P (some e, w) m = elim (Bool-cases (is_already_exists e)) [
  | inl t ↦ rw t (λ h. m t)
  | inr f ↦ rw f (λ h. absurd (cc))
]

module _ {W : Type 0} (created_text : String → String) (client : Client W) (auditor : Auditor W)
    (cfg : Config) (exec_id : ℕ) (run_id : String) (P : Service → W → Type 0)
    (made : (s : Service) (w : W) → Made (P s) (client.create (a_service s) w))
    (kept : (s t : Service) (w : W) → P s w → P s (client.create (a_service t) w).1)
    (resource : (s : Service) (r : ResourceRecord) (w : W)
      → P s w
      → P s (auditor.record_resource exec_id r w).1)
    (event : (s : Service) (e : EventRecord) (w : W)
      → P s w
      → P s (auditor.record_event exec_id e w).1) where
  record_service-keeps :
      (s t : Service) (w : W)
      → P s w
      → P s (record_service created_text client auditor cfg exec_id run_id t w)
  unfolding record_service
  record_service-keeps s t w h = event s _ _ (resource s _ w h)

  created-keeps : (s : Service) (r : Option ApiError × W) → P s r.1 → P s (created r).1
  created-keeps s (none, w) h = h
  created-keeps s (some e, w) h = h

  after_service-keeps :
      (s t : Service) (name : String) (r : Option ResourceError × W)
      (rest : W → Result CreateError ℕ × W)
      → P s r.1
      → ((w : W) → P s w → P s (rest w).1)
      → P s (after_service created_text client auditor cfg exec_id run_id name t r rest).1
  unfolding after_service
  after_service-keeps s t name (some e, w) rest h k = h
  after_service-keeps s t name (none, w) rest h k = k _ (record_service-keeps s t w h)

  create_next-keeps :
      (s : Service) (name : String) (o : Option Service) (rest : ℕ → W → Result CreateError ℕ × W)
      (n : ℕ) (w : W)
      → P s w
      → ((m : ℕ) (w : W) → P s w → P s (rest m w).1)
      → P s (create_next created_text client auditor cfg exec_id run_id name o rest n w).1
  unfolding create_next create_service
  create_next-keeps s name none rest n w h k = k n w h
  create_next-keeps s name (some t) rest n w h k =
      after_service-keeps s (with_run_id run_id t) name _ _
        (created-keeps s (client.create (a_service (with_run_id run_id t)) w)
          (kept s (with_run_id run_id t) w h))
        (k (suc n))

  create_services-keeps :
      (s : Service) (instances : Assoc Workload) (n : ℕ) (w : W)
      → P s w
      → P s (create_services created_text client auditor cfg exec_id run_id instances n w).1
  unfolding create_services
  create_services-keeps s [] n w h = h
  create_services-keeps s ((name, workload) ∷ instances) n w h =
      create_next-keeps s name (required_service workload) _ n w h
        (λ m w'. create_services-keeps s instances m w')

  AllMade-cons :
      (s : Service) (services : List Service) (n : ℕ) (r : Result CreateError ℕ × W)
      → P s r.1
      → AllMade cfg P services n r
      → AllMade cfg P (s ∷ services) n r
  AllMade-cons s services n (ok count, w) h (c, hs) = (c, (h, hs))
  AllMade-cons s services n (err e, w) h hs = hs

  AllMade-count :
      (services : List Service) (m n : ℕ) (r : Result CreateError ℕ × W)
      → m ≡ n
      → AllMade cfg P services m r
      → AllMade cfg P services n r
  AllMade-count services m n (ok count, w) e (c, hs) = (c ∙ e, hs)
  AllMade-count services m n (err _, w) e hs = hs

  after_service-AllMade :
      (s : Service) (services : List Service) (n : ℕ) (name : String) (r : Option ResourceError × W)
      (rest : W → Result CreateError ℕ × W)
      → (r.0 ≡ none → P s r.1)
      → MayDeny r.0
      → ((w : W) → P s w → P s (rest w).1)
      → ((w : W) → AllMade cfg P services n (rest w))
      → AllMade cfg P
          (s ∷ services)
          n
          (after_service created_text client auditor cfg exec_id run_id name s r rest)
  unfolding after_service
  after_service-AllMade s services n name (some e, w) rest h d k a = d
  after_service-AllMade s services n name (none, w) rest h d k a =
      AllMade-cons s services n _ (k _ (record_service-keeps s s w (h refl))) (a _)

  create_next-AllMade :
      (name : String) (o : Option Service) (instances : Assoc Workload) (n : ℕ) (w : W)
      → ((m : ℕ) (w : W)
          → AllMade cfg P
              (run_services run_id instances)
              (m + length (run_services run_id instances))
              (create_services created_text client auditor cfg exec_id run_id instances m w))
      → AllMade cfg P
          (add run_id o (run_services run_id instances))
          (n + length (add run_id o (run_services run_id instances)))
          (create_next created_text client auditor cfg exec_id run_id name o
            (λ m w'. create_services created_text client auditor cfg exec_id run_id instances m w')
            n
            w)
  unfolding create_next create_service
  create_next-AllMade name none instances n w a = a n w
  create_next-AllMade name (some t) instances n w a =
      after_service-AllMade (with_run_id run_id t) (run_services run_id instances)
        (n + suc (length (run_services run_id instances))) name _ _
        (created-Made (P (with_run_id run_id t))
          (client.create (a_service (with_run_id run_id t)) w) (made (with_run_id run_id t) w))
        (created-MayDeny (client.create (a_service (with_run_id run_id t)) w))
        (create_services-keeps (with_run_id run_id t) instances (suc n))
        (λ w'. AllMade-count (run_services run_id instances) _ _ _ (omega arith) (a (suc n) w'))

  create_services-AllMade :
      (instances : Assoc Workload) (n : ℕ) (w : W)
      → AllMade cfg P
          (run_services run_id instances)
          (n + length (run_services run_id instances))
          (create_services created_text client auditor cfg exec_id run_id instances n w)
  unfolding create_services
  create_services-AllMade [] n w = (omega arith, tt)
  create_services-AllMade ((name, workload) ∷ instances) n w =
      create_next-AllMade name (required_service workload) instances n w
        (create_services-AllMade instances)

  after_namespace-AllMade :
      (instances : Assoc Workload) (r : Option ResourceError × W)
      → AllMade cfg P
          (run_services run_id instances)
          (length (run_services run_id instances))
          (after_namespace created_text client auditor cfg exec_id run_id instances r)
  unfolding after_namespace
  after_namespace-AllMade instances (some e, w) = refl
  after_namespace-AllMade instances (none, w) =
      AllMade-count (run_services run_id instances) _ _ _ (omega arith)
        (create_services-AllMade instances 0 w)

  -- Where `P` of a service holds after its creation, if that succeeds or finds that the service
  -- exists, and neither the creation of a service nor an entry in the audit database undoes it: when
  -- createResources returns no error, the count is the number of the workloads that require a
  -- service and have one, and `P` holds of each of these services, with the label of the run. An
  -- error names the configured namespace, or comes with an error of the API for a service, which is
  -- not that the service exists.
  pub create_resources-AllMade :
      (instances : Assoc Workload) (w : W)
      → AllMade cfg P
          (run_services run_id instances)
          (length (run_services run_id instances))
          (create_resources created_text client auditor cfg exec_id run_id instances w)
  unfolding create_resources
  create_resources-AllMade instances w =
      after_namespace-AllMade instances (ensure_namespace client cfg.namespace namespace_labels w)
