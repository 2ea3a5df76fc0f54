-- ===== src/Tests/Launch.antt =====
-- The secrets and VMs of a run (`createSecrets` and `createVMs` of
-- internal/orchestrator/orchestrator.go), in a cluster where other objects appear meanwhile.
use virtwork.Vm.Calls.{unversioned}
use virtwork.Base.{
  ℕ, String, Bool, false, none, some, Option, List, [], ◌∷◌, map, ok, ◌≡◌, refl, sym, subst, OnOk,
  OnOk-if, length, ◌==◌,
}
use virtwork.Base.Int.{below}
use virtwork.Base.Text.Bytes.{bytes}
use virtwork.Audit.{no_op}
use virtwork.Kube.{ApiError, VirtualMachine}
use virtwork.Kube.Client.{Kind, Object, virtual_machine, secret, a_vm, a_secret}
use virtwork.Kube.Memory.{Cluster, memory, exists, create_object, meta_of}
use virtwork.Kube.Memory.Laws.{Exists, create_object-makes, create_object-keeps}
use virtwork.Vm.{VmSpecOpts, build_vm_spec}
use virtwork.Vm.Retry.{Context, RetryError, is_already_exists}
use virtwork.Vm.Calls.{Establishes}
use virtwork.Resources.{create_cloud_init_secret}
use virtwork.Resources.Laws.{Creates}
use virtwork.Goroutines.{Task, finished, Runs, start, move, here, there}
use virtwork.Orchestrator.{VmPlan}
use virtwork.Orchestrator.Objects.{secret_name, with_secret, opts_of}
use virtwork.Orchestrator.DryRun.{secret_of}
use virtwork.Orchestrator.Launch.{LaunchError, vm_task, secrets_created, secret_task, after_secret}
use virtwork.Orchestrator.Launch.Secrets.{SecretsBrought, create_secrets-SecretsBrought}
use virtwork.Tests.Cleanup.{sample}
use virtwork.Tests.DryRun.{plan, is_quantity}

abbrev pub never_done : Context Cluster
never_done = record { is_done = λ c. false; pause = λ n c. (false, c) }

abbrev error_text : RetryError → String
error_text e = "failed"

abbrev plans : List VmPlan
plans = plan ∷ record plan { vm_name = "virtwork-cpu-0"; component = "cpu" } ∷ []

abbrev pub empty : Cluster
empty = record { objects = []; created = 0 }

-- what happens Outside: an object is created by someone else
abbrev pub Outside : Cluster → Cluster → Type 0
Outside c d = (o : Object) × (d ≡ (create_object o c).1)

pub Outside-keeps :
    (k : Kind) (ns name : String) (c d : Cluster)
    → Outside c d
    → Exists k ns name c
    → Exists k ns name d
Outside-keeps k ns name c d (o, e) h =
    subst (Exists k ns name) (sym e) (create_object-keeps k ns name o c h)

abbrev pub HasSecret : VmPlan → Cluster → Type 0
HasSecret p c = Exists secret "virtwork" (secret_name p) c

pub makes-Creates :
    (P : Cluster → Type 0) (w : Cluster) (n : ℕ) (r : Option ApiError × Cluster)
    → P r.1
    → Creates P w n r
makes-Creates P w n (none, c) h = h
makes-Creates P w n (some e, c) h = λ t. h

makes-Establishes :
    (P : Cluster → Type 0) (test : ApiError → Bool) (r : Option ApiError × Cluster)
    → P r.1
    → Establishes P test r
makes-Establishes P test (none, c) h = h
makes-Establishes P test (some e, c) h = λ t. h

abbrev secret_tasks : List (Task Cluster LaunchError)
secret_tasks =
    map (secret_task is_quantity (λ n. n) (λ n. n) error_text memory never_done no_op sample 1 "r1")
      plans

abbrev two_secrets : Cluster
two_secrets = record {
  objects =
      meta_of (
        a_secret
          (secret_of sample "r1" (record plan { vm_name = "virtwork-cpu-0"; component = "cpu" })))
      ∷ meta_of (a_secret (secret_of sample "r1" plan))
      ∷ [];
  created = 2;
}

-- both create their secrets before either records its own
interleaved : Runs Outside secret_tasks empty (map finished (none ∷ none ∷ [])) two_secrets
unfolding secret_task after_secret create_cloud_init_secret create_object exists bytes
interleaved = move (move (move (move start here) (there here)) (there here)) here

create_secrets-SecretsBrought_example : SecretsBrought HasSecret plans (ok 2) two_secrets
create_secrets-SecretsBrought_example =
    create_secrets-SecretsBrought is_quantity (λ n. n) (λ n. n) error_text memory never_done no_op
      sample 1 "r1" Outside HasSecret
      (λ p c.
        makes-Creates (HasSecret p) c (length (bytes p.vm_spec.cloud_init_userdata)) _
          (create_object-makes (a_secret (secret_of sample "r1" p)) c))
      (λ p q c.
        create_object-keeps secret "virtwork" (secret_name p) (a_secret (secret_of sample "r1" q))
          c)
      (λ p r c h. h) (λ c d o p. Outside-keeps secret "virtwork" (secret_name p) c d o) plans empty
      (secrets_created (none ∷ none ∷ []) interleaved (refl, (refl, tt)))

abbrev pub HasVm : VmPlan → Cluster → Type 0
HasVm p c = Exists virtual_machine p.vm_spec.namespace p.vm_spec.name c

abbrev Named : VmSpecOpts → VirtualMachine → Type 0
Named opts vm = (vm.namespace ≡ opts.namespace) × (vm.name ≡ opts.name)

build_vm_spec-Named : (opts : VmSpecOpts) → OnOk (Named opts) (build_vm_spec is_quantity opts)
unfolding build_vm_spec
build_vm_spec-Named opts = OnOk-if _ (opts.name == "") _ _ tt (
    OnOk-if _ (opts.namespace == "") _ _ tt (
      OnOk-if _ (below opts.cpu_cores 1) _ _ tt (
        OnOk-if _ (opts.container_disk_image == "") _ _ tt (
          OnOk-if _ (opts.cloud_init_secret_name == "") _ _ tt
            (OnOk-if _ (is_quantity opts.memory) _ _ (refl, refl) tt)))))

pub vm_made :
    (p : VmPlan) (vm : VirtualMachine) (c : Cluster)
    → build_vm_spec is_quantity (opts_of p) ≡ ok vm
    → Establishes (HasVm p) is_already_exists (create_object (a_vm (unversioned vm)) c)
vm_made p vm c b =
    let (ns, name) = subst (OnOk (Named (opts_of p))) b (build_vm_spec-Named (opts_of p)) in
    makes-Establishes (HasVm p) is_already_exists _
      (rw (sym ns, sym name) (create_object-makes (a_vm (unversioned vm)) c))

abbrev one_vm : List VmPlan
one_vm = with_secret plan ∷ []

abbrev vm_tasks : List (Task Cluster LaunchError)
vm_tasks =
    map (vm_task is_quantity (λ n. n) (λ n. n) error_text memory never_done no_op sample 1 "r1" [])
      one_vm

abbrev launched : Cluster
launched = record {
  objects =
      (
        virtual_machine,
        record { name = plan.vm_name; namespace = "virtwork"; labels = plan.vm_spec.labels },
      )
      ∷ [];
  created = 1;
}
