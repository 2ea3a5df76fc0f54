-- ===== src/Vm/Retry/Keeps.antt =====
-- What the retried call and the pauses leave alone, the retries leave alone.
use virtwork.Base.{ℕ, zero, suc, ◌*◌, ◌^◌, Option, none, some, Bool-cases, inl, inr, ltb}
use virtwork.Kube.{ApiError}
use virtwork.Vm.Retry.{
  RetryError, is_transient_error, Context, base_retry_backoff, attempts, retry_on_transient, Round,
  stop, again, backoff, handle, round,
}

module _ {W : Type 0} (ctx : Context W) (fn : W → Option ApiError × W) (max_retries : ℕ)
    (P : W → Type 0) (called : (w : W) → P w → P (fn w).1)
    (paused : (n : ℕ) (w : W) → P w → P (ctx.pause n w).1) where
  abbrev RoundKeeps : Round W → Type 0
  RoundKeeps (stop result w) = P w
  RoundKeeps (again e w) = P w

  backoff-keeps :
      (attempt : ℕ) (e : ApiError) (w : W)
      → P w
      → RoundKeeps (backoff ctx fn max_retries attempt e w)
  unfolding backoff
  backoff-keeps attempt e w h =
      elim (Bool-cases (ctx.pause (base_retry_backoff * 2 ^ attempt) w).0) [
        | inl d ↦ rw d (paused _ w h)
        | inr d ↦ rw d (paused _ w h)
      ]

  handle-keeps :
      (attempt : ℕ) (r : Option ApiError × W)
      → P r.1
      → RoundKeeps (handle ctx fn max_retries attempt r)
  unfolding handle
  handle-keeps attempt (none, w) h = h
  handle-keeps attempt (some e, w) h = elim (Bool-cases (is_transient_error e)) [
    | inr f ↦ rw f h
    | inl t ↦ elim (Bool-cases (ltb attempt max_retries)) [
      | inl l ↦ rw (t, l) (backoff-keeps attempt e w h)
      | inr l ↦ rw (t, l) h
    ]
  ]

  round-keeps : (attempt : ℕ) (w : W) → P w → RoundKeeps (round ctx fn max_retries attempt w)
  unfolding round
  round-keeps attempt w h = elim (Bool-cases (ctx.is_done w)) [
    | inl d ↦ rw d h
    | inr d ↦ rw d (handle-keeps attempt (fn w) (called w h))
  ]

  attempts-keeps :
      (left attempt : ℕ) (last : Option ApiError) (w : W)
      → P w
      → P (attempts ctx fn max_retries left attempt last w).1
  unfolding attempts
  attempts-keeps zero attempt last w h = h
  attempts-keeps (suc left) attempt last w h =
      go (round ctx fn max_retries attempt w) (round-keeps attempt w h)
        (λ e w' k. attempts-keeps left (suc attempt) (some e) w' k)
    where
      go :
          (r : Round W)
          → RoundKeeps r
          → ((e : ApiError) (w' : W)
              → P w'
              → P (attempts ctx fn max_retries left (suc attempt) (some e) w').1)
          → P
              (elim r as (λ _. Option RetryError × W) [
                | stop result w' ↦ (result, w')
                | again e w' ↦ attempts ctx fn max_retries left (suc attempt) (some e) w'
              ]).1
      go (stop result w') k rest = k
      go (again e w') k rest = rest e w' k

  pub retry_on_transient-keeps : (w : W) → P w → P (retry_on_transient ctx fn max_retries w).1
  unfolding retry_on_transient
  retry_on_transient-keeps w h = attempts-keeps (suc max_retries) 0 none w h
