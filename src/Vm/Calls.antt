-- ===== src/Vm/Calls.antt =====
-- `CreateVM` and `DeleteVM` of internal/vm/vm.go: the retried calls of the client.
use virtwork.Base.{String, Bool, true, false, Option, none, some, if◌then◌else◌, ◌≡◌, arith}
use virtwork.Kube.{VirtualMachine, ApiError}
use virtwork.Kube.Client.{Client, a_vm, virtual_machine}
use virtwork.Vm.Retry.{
  RetryError, Context, is_already_exists, is_not_found, default_max_retries, retry_on_transient,
}
use virtwork.Vm.Retry.Bounds.{Means, retry_on_transient-Means}

-- an error that counts as success
unfoldable pub forgive :
    {W : Type 0} → (ApiError → Bool) → Option ApiError × W → Option ApiError × W
forgive test (none, w) = (none, w)
forgive test (some e, w) = (if test e then none else some e, w)

-- `vm.ResourceVersion = ""`, which CreateVM does before each attempt
abbrev pub unversioned : VirtualMachine → VirtualMachine
unversioned vm = record vm { resource_version = "" }

module _ {W : Type 0} (client : Client W) (ctx : Context W) where
  unfoldable pub create_vm : VirtualMachine → W → Option RetryError × W
  create_vm vm =
      retry_on_transient ctx
        (λ w. forgive is_already_exists (client.create (a_vm (unversioned vm)) w))
        default_max_retries

  unfoldable pub delete_vm : (name namespace : String) → W → Option RetryError × W
  delete_vm name namespace =
      retry_on_transient ctx
        (λ w. forgive is_not_found (client.delete virtual_machine namespace name false w))
        default_max_retries

module _ {W : Type 0} (P : W → Type 0) (test : ApiError → Bool) where
  -- `P` holds after a call that succeeded or failed with an error that the test accepts.
  abbrev pub Establishes : Option ApiError × W → Type 0
  Establishes (none, w) = P w
  Establishes (some e, w) = test e ≡ true → P w

  forgive-establishes :
      (r : Option ApiError × W) → Establishes r → (forgive test r).0 ≡ none → P (forgive test r).1
  unfolding forgive
  forgive-establishes (none, w) h n = h
  forgive-establishes (some e, w) h n = h (ground arith)

module _ {W : Type 0} (client : Client W) (ctx : Context W) where
  -- Where the API server establishes `P` for the VM, without a resource version, by a successful creation, and `P` holds where
  -- it answers that the VM exists already: `P` holds when create_vm returns nil.
  pub create_vm-idempotent :
      (P : W → Type 0) (vm : VirtualMachine) (w : W)
      → ((w : W) → Establishes P is_already_exists (client.create (a_vm (unversioned vm)) w))
      → Means W P default_max_retries (create_vm client ctx vm w)
  unfolding create_vm
  create_vm-idempotent P vm w h =
      retry_on_transient-Means ctx
        (λ w. forgive is_already_exists (client.create (a_vm (unversioned vm)) w))
        default_max_retries P w
        (λ w₁.
          forgive-establishes P is_already_exists (client.create (a_vm (unversioned vm)) w₁) (h w₁))

  pub delete_vm-idempotent :
      (P : W → Type 0) (name namespace : String) (w : W)
      → ((w : W)
          → Establishes P is_not_found (client.delete virtual_machine namespace name false w))
      → Means W P default_max_retries (delete_vm client ctx name namespace w)
  unfolding delete_vm
  delete_vm-idempotent P name namespace w h =
      retry_on_transient-Means ctx
        (λ w. forgive is_not_found (client.delete virtual_machine namespace name false w))
        default_max_retries P w
        (λ w₁.
          forgive-establishes P is_not_found (client.delete virtual_machine namespace name false w₁)
            (h w₁))
