-- ===== src/Orchestrator/DryRun/Prints.antt =====
-- What a dry run prints.
use virtwork.Base.{
  ℕ, suc, ◌+◌, String, Bool, Option, none, some, List, [], ◌∷◌, map, length, Result, ok, err, ◌≡◌,
  refl, ◌∙◌, ap, arith,
}
use virtwork.Base.Assoc.{Assoc}
use virtwork.Config.{Config}
use virtwork.Kube.{Service, VirtualMachine}
use virtwork.Vm.{VmSpecOpts, SpecError, build_vm_spec}
use virtwork.Workloads.Contract.{Workload}
use virtwork.Orchestrator.{VmPlan}
use virtwork.Orchestrator.Objects.{with_secret, opts_of}
use virtwork.Orchestrator.Create.{with_run_id, required_service}
use virtwork.Orchestrator.Create.Services.{run_services, add}
use virtwork.Orchestrator.DryRun.{
  Document, service_document, secret_document, vm_document, DryRunError, marshaling_service,
  marshaling_secret, marshaling_vm, building_vm, Outcome, secret_of, print_document, print_service,
  print_services, print_secrets, print_vm, print_vms, print_dry_run,
}

-- a set of sequences of documents
abbrev pub Sequences : Type 1
Sequences = List Document → Type 0

abbrev pub End : Sequences
End [] = Unit
End (d ∷ ds) = ⊥

-- the document, and then a sequence of the set
abbrev pub Then : Document → Sequences → Sequences
Then d S [] = ⊥
Then d S (e ∷ es) = (e ≡ d) × S es

-- the service of a workload, if it requires one
abbrev pub ServiceThen : String → String → Option Service → Sequences → Sequences
ServiceThen run_id name none S = S
ServiceThen run_id name (some svc) S = Then (service_document name (with_run_id run_id svc)) S

abbrev pub ServicesThen : String → Assoc Workload → Sequences → Sequences
ServicesThen run_id [] S = S
ServicesThen run_id ((name, workload) ∷ instances) S =
    ServiceThen run_id name (required_service workload) (ServicesThen run_id instances S)

abbrev pub SecretsThen : Config → String → List VmPlan → Sequences → Sequences
SecretsThen cfg run_id [] S = S
SecretsThen cfg run_id (p ∷ plans) S =
    Then (secret_document p.component (secret_of cfg run_id p)) (SecretsThen cfg run_id plans S)

-- the VM that BuildVMSpec gives for a plan
abbrev pub VmThen : (String → Bool) → VmPlan → Sequences → Sequences
VmThen is_quantity p S ds =
    (vm : VirtualMachine) × (build_vm_spec is_quantity (opts_of p) ≡ ok vm)
    × Then (vm_document p.vm_name p.component vm) S ds

abbrev pub VmsThen : (String → Bool) → List VmPlan → Sequences → Sequences
VmsThen is_quantity [] S = S
VmsThen is_quantity (p ∷ plans) S = λ ds.
    (vm : VirtualMachine) × (build_vm_spec is_quantity (opts_of p) ≡ ok vm)
    × Then (vm_document p.vm_name p.component vm) (VmsThen is_quantity plans S) ds

module _ {W : Type 0} (is_quantity : String → Bool) (marshal : Document → Result String String)
    (write : Document → String → W → W) where
  -- the documents are written one after the other, each with its text
  abbrev pub Written : List Document → W → W → Type 0
  Written [] w w' = w ≡ w'
  Written (d ∷ ds) w w' = (text : String) × (marshal d ≡ ok text) × Written ds (write d text w) w'

  -- an error of the YAML library for a document, or one of BuildVMSpec
  abbrev pub IsCause : DryRunError → Type 0
  IsCause (marshaling_service name e) = (s : Service) × (marshal (service_document name s) ≡ err e)
  IsCause (marshaling_secret name e) = (d : Document) × (marshal d ≡ err e)
  IsCause (marshaling_vm name e) = (d : Document) × (marshal d ≡ err e)
  IsCause (building_vm name e) = (o : VmSpecOpts) × (build_vm_spec is_quantity o ≡ err e)

  -- The counts are `c`, and a sequence of the set was written; or there is a cause for the error.
  abbrev pub DryRunMeans : Sequences → ℕ × ℕ → W → Outcome W → Type 0
  DryRunMeans S c w (ok counts, w') = (counts ≡ c) × (ds : List Document) × S ds × Written ds w w'
  DryRunMeans S c w (err e, w') = IsCause e

  DryRunMeans-Then :
      (S : Sequences) (c : ℕ × ℕ) (d : Document) (text : String) (w : W) (r : Outcome W)
      → marshal d ≡ ok text
      → DryRunMeans S c (write d text w) r
      → DryRunMeans (Then d S) c w r
  DryRunMeans-Then S c d text w (ok counts, w') m (e, ds, s, h) =
      (e, d ∷ ds, (refl, s), (text, m, h))
  DryRunMeans-Then S c d text w (err e, w') m h = h

  DryRunMeans-Vm :
      (S : Sequences) (c : ℕ × ℕ) (p : VmPlan) (vm : VirtualMachine) (w : W) (r : Outcome W)
      → build_vm_spec is_quantity (opts_of p) ≡ ok vm
      → DryRunMeans (Then (vm_document p.vm_name p.component vm) S) c w r
      → DryRunMeans (VmThen is_quantity p S) c w r
  DryRunMeans-Vm S c p vm w (ok counts, w') b (e, ds, s, h) = (e, ds, (vm, b, s), h)
  DryRunMeans-Vm S c p vm w (err e, w') b h = h

  module _ (cfg : Config) (run_id : String) where
    print_document-DryRunMeans :
        (S : Sequences) (c : ℕ × ℕ) (d : Document) (failure : String → DryRunError)
        (r : Result String String) (rest : W → Outcome W) (w : W)
        → marshal d ≡ r
        → ((e : String) → marshal d ≡ err e → IsCause (failure e))
        → ((w' : W) → DryRunMeans S c w' (rest w'))
        → DryRunMeans
            (Then d S)
            c
            w
            (print_document is_quantity marshal write cfg run_id d failure r rest w)
    unfolding print_document
    print_document-DryRunMeans S c d failure (err e) rest w m cause h = cause e m
    print_document-DryRunMeans S c d failure (ok text) rest w m cause h =
        DryRunMeans-Then S c d text w (rest (write d text w)) m (h (write d text w))

    print_service-DryRunMeans :
        (S : Sequences) (c : ℕ × ℕ) (name : String) (o : Option Service) (services : List Service)
        (n : ℕ) (rest : ℕ → W → Outcome W) (w : W)
        → ((k : ℕ) (w' : W)
            → k + length services ≡ n + length (add run_id o services)
            → DryRunMeans S c w' (rest k w'))
        → DryRunMeans
            (ServiceThen run_id name o S)
            c
            w
            (print_service is_quantity marshal write cfg run_id name o n rest w)
    unfolding print_service
    print_service-DryRunMeans S c name none services n rest w h = h n w refl
    print_service-DryRunMeans S c name (some svc) services n rest w h =
        print_document-DryRunMeans S c _ _ _ _ w refl (λ e m. (_, m))
          (λ w'. h (suc n) w' (omega arith))

    print_services-DryRunMeans :
        (S : Sequences) (c : ℕ × ℕ) (instances : Assoc Workload) (n : ℕ) (rest : ℕ → W → Outcome W)
        (w : W)
        → ((k : ℕ) (w' : W)
            → k ≡ n + length (run_services run_id instances)
            → DryRunMeans S c w' (rest k w'))
        → DryRunMeans
            (ServicesThen run_id instances S)
            c
            w
            (print_services is_quantity marshal write cfg run_id instances n rest w)
    unfolding print_services
    print_services-DryRunMeans S c [] n rest w h = h n w (omega arith)
    print_services-DryRunMeans S c ((name, workload) ∷ instances) n rest w h =
        print_service-DryRunMeans (ServicesThen run_id instances S) c name
          (required_service workload) (run_services run_id instances) n _ w
          (λ k w' e.
            print_services-DryRunMeans S c instances k rest w' (λ m w'' e'. h m w'' (e' ∙ e)))

    print_secrets-DryRunMeans :
        (S : Sequences) (c : ℕ × ℕ) (plans : List VmPlan) (rest : W → Outcome W) (w : W)
        → ((w' : W) → DryRunMeans S c w' (rest w'))
        → DryRunMeans
            (SecretsThen cfg run_id plans S)
            c
            w
            (print_secrets is_quantity marshal write cfg run_id plans rest w)
    unfolding print_secrets
    print_secrets-DryRunMeans S c [] rest w h = h w
    print_secrets-DryRunMeans S c (p ∷ plans) rest w h =
        print_document-DryRunMeans _ c _ _ _ _ w refl (λ e m. (_, m))
          (λ w'. print_secrets-DryRunMeans S c plans rest w' h)

    print_vm-DryRunMeans :
        (S : Sequences) (c : ℕ × ℕ) (p : VmPlan) (r : Result SpecError VirtualMachine)
        (rest : W → Outcome W) (w : W)
        → build_vm_spec is_quantity (opts_of p) ≡ r
        → ((w' : W) → DryRunMeans S c w' (rest w'))
        → DryRunMeans
            (VmThen is_quantity p S)
            c
            w
            (print_vm is_quantity marshal write cfg run_id p r rest w)
    unfolding print_vm
    print_vm-DryRunMeans S c p (err e) rest w b h = (_, b)
    print_vm-DryRunMeans S c p (ok vm) rest w b h =
        DryRunMeans-Vm S c p vm w _ b
          (print_document-DryRunMeans S c _ _ _ _ w refl (λ e m. (_, m)) h)

    print_vms-DryRunMeans :
        (S : Sequences) (c : ℕ × ℕ) (plans : List VmPlan) (rest : W → Outcome W) (w : W)
        → ((w' : W) → DryRunMeans S c w' (rest w'))
        → DryRunMeans
            (VmsThen is_quantity plans S)
            c
            w
            (print_vms is_quantity marshal write cfg run_id plans rest w)
    unfolding print_vms
    print_vms-DryRunMeans S c [] rest w h = h w
    print_vms-DryRunMeans S c (p ∷ plans) rest w h =
        print_vm-DryRunMeans (VmsThen is_quantity plans S) c p _ _ w refl
          (λ w'. print_vms-DryRunMeans S c plans rest w' h)

    -- A dry run that succeeds counts the services and the plans, and writes these documents in this
    -- order, each with its text: the services that the creation of the run would create, a secret
    -- for each plan, and for each plan the VM that BuildVMSpec gives for it, which names that
    -- secret. An error has a cause: the YAML library failed for a document, or BuildVMSpec did.
    pub print_dry_run-DryRunMeans :
        (plans : List VmPlan) (instances : Assoc Workload) (w : W)
        → DryRunMeans
            (ServicesThen run_id instances
              (SecretsThen cfg run_id plans (VmsThen is_quantity (map with_secret plans) End)))
            (length (run_services run_id instances), length plans)
            w
            (print_dry_run is_quantity marshal write cfg run_id plans instances w)
    unfolding print_dry_run
    print_dry_run-DryRunMeans plans instances w =
        print_services-DryRunMeans _ _ instances 0 _ w (λ k w' e.
          print_secrets-DryRunMeans _ _ plans _ w' (λ w''.
            print_vms-DryRunMeans End _ (map with_secret plans) _ w''
              (λ last. (ap (λ n. (n, length plans)) (e ∙ omega arith), [], tt, refl))))
