-- ===== src/Tests/Creation.antt =====
-- The services of a run (`createResources` of internal/orchestrator/orchestrator.go).
use virtwork.Base.{
  Bool, eq_refl, ◌==◌, ◌&&◌, if◌then◌else◌, true, false, some, [], ◌∷◌, ◌≡◌, refl, ok, length,
  Bool-cases, inl, inr,
}
use virtwork.Base.Assoc.{Assoc}
use virtwork.Audit.{no_op}
use virtwork.Kube.{Service}
use virtwork.Kube.Client.{service, a_service}
use virtwork.Kube.Memory.{Cluster, memory, exists, create_object}
use virtwork.Workloads.Contract.{Workload}
use virtwork.Resources.{ensure_namespace, create_service, after_create}
use virtwork.Orchestrator.Create.{
  create_resources, create_services, create_next, after_service, record_service, after_namespace,
}
use virtwork.Orchestrator.Create.Services.{Made, AllMade, run_services, create_resources-AllMade}
use virtwork.Tests.Cleanup.{sample}
use virtwork.Tests.Planning.{network}

abbrev pub server : Service
server = record {
  name = "virtwork-network-server";
  namespace = "virtwork";
  labels = [];
  selector = [];
  ports = [];
}

abbrev pub instances : Assoc Workload
instances =
    ("network", record network { requires_service = true; service_spec = some server })
    ∷ ("cpu", record network { requires_service = false })
    ∷ []

abbrev empty : Cluster
empty = record { objects = []; created = 0 }

abbrev Exists : Service → Cluster → Type 0
Exists s c = exists service s.namespace s.name c.objects ≡ true

created_run : (create_resources (λ n. n) memory no_op sample 1 "r1" instances empty).0 ≡ ok 1
unfolding create_resources create_services create_next after_service record_service after_namespace
    ensure_namespace create_service after_create create_object exists
created_run = refl

made : (s : Service) (c : Cluster) → Made (Exists s) (create_object (a_service s) c)
unfolding create_object exists
made s c = elim (Bool-cases (exists service s.namespace s.name c.objects)) [
  | inl t ↦ rw t (λ h. t)
  | inr f ↦ rw (f, eq_refl s.namespace, eq_refl s.name) refl
]

either : (b found : Bool) → found ≡ true → (if b then true else found) ≡ true
either true found h = refl
either false found h = h

kept : (s t : Service) (c : Cluster) → Exists s c → Exists s (create_object (a_service t) c).1
unfolding create_object exists
kept s t c h = elim (Bool-cases (exists service t.namespace t.name c.objects)) [
  | inl y ↦ rw y h
  | inr f ↦ rw f (either (t.namespace == s.namespace && t.name == s.name) _ h)
]

create_resources-AllMade_example :
    AllMade sample Exists
      (run_services "r1" instances)
      (length (run_services "r1" instances))
      (create_resources (λ n. n) memory no_op sample 1 "r1" instances empty)
create_resources-AllMade_example =
    create_resources-AllMade (λ n. n) memory no_op sample 1 "r1" Exists made kept (λ s r w h. h)
      (λ s e w h. h) instances empty
