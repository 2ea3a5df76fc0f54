-- ===== src/Vm/Retry/Bounds.antt =====
-- How often a call is retried, how long that takes, and what the result means.
use virtwork.Base.{
  ℕ, zero, suc, ◌+◌, ◌*◌, ◌^◌, ◌≡◌, refl, true, false, Option, none, some, arith, Bool-cases, ltb,
  inl, inr,
}
use virtwork.Kube.{ApiError}
use virtwork.Vm.Retry.{
  RetryError, cancelled, cancelled_in_backoff, api, retries_exceeded, is_transient_error, Context,
  base_retry_backoff, attempts, retry_on_transient, Round, stop, again, backoff, handle, round,
}

-- What a result says: nil, and `P` holds of the world, which the call that returned nil left; an
-- error of the API that is not transient; or the last of the errors, which is transient, after all
-- attempts.
abbrev pub Means : (W : Type 0) → (W → Type 0) → ℕ → Option RetryError × W → Type 0
Means W P max_retries (none, w) = P w
Means W P max_retries (some cancelled, w) = Unit
Means W P max_retries (some cancelled_in_backoff, w) = Unit
Means W P max_retries (some (api e), w) = is_transient_error e ≡ false
Means W P max_retries (some (retries_exceeded n last), w) =
    (n ≡ max_retries) × ((e : ApiError) × (last ≡ some e) × (is_transient_error e ≡ true))

-- the last error at the head of a round
abbrev IsLast : ℕ → Option ApiError → Type 0
IsLast zero last = Unit
IsLast (suc attempt) last = (e : ApiError) × (last ≡ some e) × (is_transient_error e ≡ true)

abbrev RoundMeans : (W : Type 0) → (W → Type 0) → ℕ → Round W → Type 0
RoundMeans W P max_retries (stop result w) = Means W P max_retries (result, w)
RoundMeans W P max_retries (again e w) = is_transient_error e ≡ true

module _ {W : Type 0} (ctx : Context W) (fn : W → Option ApiError × W) (max_retries : ℕ) where
  backoff-Means :
      (P : W → Type 0) (attempt : ℕ) (e : ApiError) (w : W)
      → is_transient_error e ≡ true
      → RoundMeans W P max_retries (backoff ctx fn max_retries attempt e w)
  unfolding backoff
  backoff-Means P attempt e w h =
      elim (Bool-cases (ctx.pause (base_retry_backoff * 2 ^ attempt) w).0) [
        | inl d ↦ rw d tt
        | inr d ↦ rw d h
      ]

  handle-Means :
      (P : W → Type 0) (attempt : ℕ) (r : Option ApiError × W)
      → (r.0 ≡ none → P r.1)
      → RoundMeans W P max_retries (handle ctx fn max_retries attempt r)
  unfolding handle
  handle-Means P attempt (none, w) h = h refl
  handle-Means P attempt (some e, w) h = elim (Bool-cases (is_transient_error e)) [
    | inr f ↦ rw f f
    | inl t ↦ elim (Bool-cases (ltb attempt max_retries)) [
      | inl l ↦ rw (t, l) (backoff-Means P attempt e w t)
      | inr l ↦ rw (t, l) t
    ]
  ]

  round-Means :
      (P : W → Type 0) (attempt : ℕ) (w : W)
      → ((w : W) → (fn w).0 ≡ none → P (fn w).1)
      → RoundMeans W P max_retries (round ctx fn max_retries attempt w)
  unfolding round
  round-Means P attempt w h = elim (Bool-cases (ctx.is_done w)) [
    | inl d ↦ rw d tt
    | inr d ↦ rw d (handle-Means P attempt (fn w) (h w))
  ]

  -- A property of the run's result that each way out of the loop establishes.
  attempts-Means :
      (P : W → Type 0)
      → ((w : W) → (fn w).0 ≡ none → P (fn w).1)
      → (left attempt : ℕ) (last : Option ApiError) (w : W) → left + attempt ≡ suc max_retries
      → IsLast attempt last
      → Means W P max_retries (attempts ctx fn max_retries left attempt last w)
  unfolding attempts
  attempts-Means P done zero zero last w e h = absurd (omega arith)
  attempts-Means P done zero (suc attempt) last w e h = (refl, h)
  attempts-Means P done (suc left) attempt last w e h =
      next (round ctx fn max_retries attempt w) (round-Means P attempt w done) (λ e₁ w₁ m.
        attempts-Means P done left (suc attempt) (some e₁) w₁ (omega arith) (e₁, refl, m))
    where
      next :
          (r : Round W)
          → RoundMeans W P max_retries r
          → ((e₁ : ApiError) (w₁ : W)
              → is_transient_error e₁ ≡ true
              → Means W P max_retries (attempts ctx fn max_retries left (suc attempt) (some e₁) w₁))
          → Means W P max_retries (elim r [
            | stop result w' ↦ (result, w')
            | again e₁ w' ↦ attempts ctx fn max_retries left (suc attempt) (some e₁) w'
          ])
      next (stop result w') m rest = m
      next (again e₁ w') m rest = rest e₁ w' m

  -- Whatever `P` holds after each call that returns nil holds when the retried call returns nil; an
  -- error of the API is returned only if it is not transient, and the retries are exceeded only
  -- after an attempt that failed with a transient error.
  pub retry_on_transient-Means :
      (P : W → Type 0) (w : W)
      → ((w : W) → (fn w).0 ≡ none → P (fn w).1)
      → Means W P max_retries (retry_on_transient ctx fn max_retries w)
  unfolding retry_on_transient
  retry_on_transient-Means P w done =
      attempts-Means P done (suc max_retries) 0 none w (omega arith) tt
