-- ===== src/Tests/Vm.antt =====
-- Retried calls (internal/vm/vm.go).
use virtwork.Vm.Calls.{unversioned}
use virtwork.Base.{
  ℕ, suc, ◌+◌, ◌-◌, ◌*◌, ◌^◌, ◌≤◌, Bool, true, false, Option, none, some, [], ◌∷◌, ◌≡◌, refl, ltb,
  if◌then◌else◌, arith, Bool-cases, inl, inr,
}
use virtwork.Kube.{ApiError, too_many_requests, server_timeout, VirtualMachine}
use virtwork.Kube.Client.{virtual_machine, a_vm}
use virtwork.Kube.Memory.{Cluster, memory, exists, delete_object, create_object, meta_of}
use virtwork.Kube.Memory.Laws.{exists-remove}
use virtwork.Vm.Retry.{
  Context, retry_on_transient, is_already_exists, is_not_found, default_max_retries, attempts,
  round, handle, backoff,
}
use virtwork.Vm.Retry.Bounds.{Means, retry_on_transient-Means}
use virtwork.Vm.Retry.Effort.{retry_on_transient-effort}
use virtwork.Vm.Calls.{
  create_vm, delete_vm, create_vm-idempotent, delete_vm-idempotent, Establishes,
}

-- a world that counts the calls and the nanoseconds
abbrev Counters : Type 0
Counters = ℕ × ℕ

abbrev waiting : Context Counters
waiting = record { is_done = λ w. false; pause = λ n w. (false, (w.0, w.1 + n)) }

-- an API server that is overloaded for ever, and one that is for two calls
abbrev overloaded : Counters → Option ApiError × Counters
overloaded w = (some too_many_requests, (suc (w.0), w.1))

abbrev slow : Counters → Option ApiError × Counters
slow w = (if ltb (w.0) 2 then some server_timeout else none, (suc (w.0), w.1))

retry_run : (retry_on_transient waiting slow 5 (0, 0)).1 ≡ (3, 3000000000)
unfolding retry_on_transient attempts round handle backoff
retry_run = refl

retry_on_transient-Means_example :
    Means Counters (λ w. 1 ≤ w.0) 5 (retry_on_transient waiting slow 5 (0, 0))
retry_on_transient-Means_example =
    retry_on_transient-Means waiting slow 5 (λ w. 1 ≤ w.0) (0, 0) (λ w e. omega arith)

retry_on_transient-effort_example :
    ((retry_on_transient waiting overloaded 5 (0, 0)).1.0 ≤ 0 + 6)
    × ((retry_on_transient waiting overloaded 5 (0, 0)).1.1 ≤ 0 + 10 ^ 9 * (2 ^ 5 - 1))
retry_on_transient-effort_example =
    retry_on_transient-effort waiting overloaded 5 (λ w. w.0) (λ w. w.1) (λ w. (refl, refl))
      (λ n w. (refl, omega arith)) (0, 0)

abbrev cpu_vm : VirtualMachine
cpu_vm = record {
  name = "virtwork-cpu-0";
  namespace = "virtwork";
  labels = [];
  template_labels = [];
  cores = 2;
  memory = "2Gi";
  disks = [];
  interfaces = [];
  networks = [];
  volumes = [];
  data_volume_templates = [];
  resource_version = "7";
}

abbrev empty_cluster : Cluster
empty_cluster = record { objects = []; created = 0 }

abbrev never_done : Context Cluster
never_done = record { is_done = λ c. false; pause = λ n c. (false, c) }

abbrev HasVm : Bool → Cluster → Type 0
HasVm b c = exists virtual_machine "virtwork" "virtwork-cpu-0" c.objects ≡ b

exists-first :
    (c : Cluster)
    → exists virtual_machine "virtwork" "virtwork-cpu-0" (meta_of (a_vm cpu_vm) ∷ c.objects) ≡ true
unfolding exists
exists-first c = refl

create-Establishes :
    (c : Cluster)
    → Establishes (HasVm true) is_already_exists (create_object (a_vm (unversioned cpu_vm)) c)
unfolding create_object
create-Establishes c =
    elim (Bool-cases (exists virtual_machine "virtwork" "virtwork-cpu-0" c.objects)) [
      | inl t ↦ rw t (λ e. t)
      | inr f ↦ rw f (exists-first c)
    ]

create_vm-idempotent_example :
    Means Cluster
      (HasVm true)
      default_max_retries
      (create_vm memory never_done cpu_vm empty_cluster)
create_vm-idempotent_example =
    create_vm-idempotent memory never_done (HasVm true) cpu_vm empty_cluster create-Establishes

delete-Establishes :
    (c : Cluster)
    → Establishes
        (HasVm false)
        is_not_found
        (delete_object virtual_machine "virtwork" "virtwork-cpu-0" false c)
unfolding delete_object
delete-Establishes c =
    elim (Bool-cases (exists virtual_machine "virtwork" "virtwork-cpu-0" c.objects)) [
      | inl t ↦ rw t (exists-remove virtual_machine "virtwork" "virtwork-cpu-0" c.objects)
      | inr f ↦ rw f (λ e. f)
    ]

delete_vm-idempotent_example : Means Cluster (HasVm false) default_max_retries (
    delete_vm memory never_done "virtwork-cpu-0" "virtwork"
      (record { objects = meta_of (a_vm cpu_vm) ∷ []; created = 1 }))
delete_vm-idempotent_example =
    delete_vm-idempotent memory never_done (HasVm false) "virtwork-cpu-0" "virtwork"
      (record { objects = meta_of (a_vm cpu_vm) ∷ []; created = 1 }) delete-Establishes
