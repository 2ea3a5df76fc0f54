-- ===== src/Vm/Retry.antt =====
-- `CreateVM`, `DeleteVM`, `retryOnTransient` and `isTransientError` of internal/vm/vm.go.
pub mod Bounds
pub mod Effort
pub mod Keeps
use virtwork.Base.{
  ℕ, zero, suc, ◌+◌, ◌*◌, ◌^◌, String, Bool, true, false, not, Option, none, some, ltb,
  if◌then◌else◌,
}
use virtwork.Kube.{
  ApiError, already_exists, not_found, too_many_requests, server_timeout, service_unavailable,
  internal_error, VirtualMachine,
}

pub data RetryError : Type 0 where
  cancelled cancelled_in_backoff : RetryError
  api : ApiError → RetryError
  -- the last error; it is nil where no attempt was made
  retries_exceeded : ℕ → Option ApiError → RetryError

abbrev pub is_transient_error : ApiError → Bool
is_transient_error too_many_requests = true
is_transient_error server_timeout = true
is_transient_error service_unavailable = true
is_transient_error internal_error = true
is_transient_error _ = false

abbrev pub is_already_exists : ApiError → Bool
is_already_exists already_exists = true
is_already_exists _ = false

abbrev pub is_not_found : ApiError → Bool
is_not_found not_found = true
is_not_found _ = false

abbrev pub default_max_retries : ℕ
default_max_retries = 5

-- `baseRetryBackoff`, in nanoseconds
abbrev pub base_retry_backoff : ℕ
base_retry_backoff = 1000 * 10 ^ 6

-- The context of a call, in a world `W` that holds all that the calls read and change.
pub record Context (W : Type 0) : Type 0 where
  -- `ctx.Err() != nil`
  pub is_done : W → Bool
  -- the `select` on `ctx.Done()` and `time.After(ns)`: true where the context is done first
  pub pause : ℕ → W → Bool × W

-- What a round of the loop comes to: the loop returns, or goes on with the error it met.
pub data Round (W : Type 0) : Type 0 where
  stop : Option RetryError → W → Round W
  again : ApiError → W → Round W

module _ {W : Type 0} (ctx : Context W) (fn : W → Option ApiError × W) (max_retries : ℕ) where
  -- the wait between two attempts
  unfoldable pub backoff : ℕ → ApiError → W → Round W
  backoff attempt e w =
      let (done, w') = ctx.pause (base_retry_backoff * 2 ^ attempt) w in
      if done then stop (some cancelled_in_backoff) w' else again e w'

  -- what the loop does with the result of the call
  unfoldable pub handle : ℕ → Option ApiError × W → Round W
  handle attempt (none, w) = stop none w
  handle attempt (some e, w) =
      if not (is_transient_error e)
      then stop (some (api e)) w
      else if ltb attempt max_retries
      then backoff attempt e w
      else again e w

  unfoldable pub round : ℕ → W → Round W
  round attempt w = if ctx.is_done w then stop (some cancelled) w else handle attempt (fn w)

  -- The loop from `attempt` on, with the number of rounds that are left.
  unfoldable pub attempts : (left attempt : ℕ) → Option ApiError → W → Option RetryError × W
  attempts zero attempt last w = (some (retries_exceeded max_retries last), w)
  attempts (suc left) attempt last w = elim (round attempt w) [
    | stop result w' ↦ (result, w')
    | again e w' ↦ attempts left (suc attempt) (some e) w'
  ]

  unfoldable pub retry_on_transient : W → Option RetryError × W
  retry_on_transient w = attempts (suc max_retries) 0 none w
