-- ===== src/Vm/Retry/Effort.antt =====
-- How often a call is retried, and how long the waits between the attempts take.
use virtwork.Base.{
  ℕ, zero, suc, ◌+◌, ◌*◌, ◌-◌, ◌^◌, ◌≤◌, ◌≡◌, refl, Option, none, some, arith, Bool-cases, ltb, inl,
  inr, if◌then◌else◌,
}
use virtwork.Kube.{ApiError}
use virtwork.Vm.Retry.{
  RetryError, is_transient_error, Context, base_retry_backoff, attempts, retry_on_transient, Round,
  stop, again, backoff, handle, round,
}

abbrev world : (W : Type 0) → Round W → W
world W (stop result w) = w
world W (again e w) = w

module _ {W : Type 0} (ctx : Context W) (fn : W → Option ApiError × W) (max_retries : ℕ)
    (calls waited : W → ℕ)
    (counts : (w : W) → (calls (fn w).1 ≡ suc (calls w)) × (waited (fn w).1 ≡ waited w))
    (waits : (n : ℕ) (w : W)
      → (calls (ctx.pause n w).1 ≡ calls w) × (waited (ctx.pause n w).1 ≤ waited w + n)) where
  -- a round with the wait that it may end with
  abbrev Costs : ℕ → W → Round W → Type 0
  Costs attempt w r =
      (calls (world W r) ≤ suc (calls w))
      × (waited (world W r)
          ≤ waited w + (if ltb attempt max_retries then base_retry_backoff * 2 ^ attempt else 0))

  backoff-Costs :
      (attempt : ℕ) (e : ApiError) (w : W)
      → (calls (world W (backoff ctx fn max_retries attempt e w)) ≡ calls w)
        × (waited (world W (backoff ctx fn max_retries attempt e w))
            ≤ waited w + base_retry_backoff * 2 ^ attempt)
  unfolding backoff
  backoff-Costs attempt e w = elim (Bool-cases (ctx.pause (base_retry_backoff * 2 ^ attempt) w).0) [
    | inl d ↦ rw d (waits (base_retry_backoff * 2 ^ attempt) w)
    | inr d ↦ rw d (waits (base_retry_backoff * 2 ^ attempt) w)
  ]

  handle-Costs :
      (attempt : ℕ) (r : Option ApiError × W) (w : W)
      → calls r.1 ≡ suc (calls w)
      → waited r.1 ≡ waited w
      → Costs attempt w (handle ctx fn max_retries attempt r)
  unfolding handle
  handle-Costs attempt (none, w') w c t = (omega arith, omega arith)
  handle-Costs attempt (some e, w') w c t = elim (Bool-cases (is_transient_error e)) [
    | inr f ↦ rw f (omega arith, omega arith)
    | inl f ↦ elim (Bool-cases (ltb attempt max_retries)) [
      | inl l ↦
          rw (f, l)
            (omega (arith, backoff-Costs attempt e w'), omega (arith, backoff-Costs attempt e w'))
      | inr l ↦ rw (f, l) (omega arith, omega arith)
    ]
  ]

  round-Costs : (attempt : ℕ) (w : W) → Costs attempt w (round ctx fn max_retries attempt w)
  unfolding round
  round-Costs attempt w = elim (Bool-cases (ctx.is_done w)) [
    | inl d ↦ rw d (omega arith, omega arith)
    | inr d ↦ rw d (handle-Costs attempt (fn w) w (counts w).0 (counts w).1)
  ]

  power-doubles : (n : ℕ) → 2 ^ suc n ≡ 2 * 2 ^ n
  power-doubles n = omega arith

  power_le : (n a b : ℕ) → b ≡ n + a → 2 ^ a ≤ 2 ^ b
  power_le zero a b e = let same : b ≡ a = omega arith in rw same omega arith
  power_le (suc n) a b e =
      let same : b ≡ suc (n + a) = omega arith in
      rw same omega (arith, power_le n a (n + a) refl, power-doubles (n + a))

  abbrev CallsAtMost : ℕ → Option RetryError × W → Type 0
  CallsAtMost n r = calls r.1 ≤ n

  attempts-calls :
      (left attempt : ℕ) (last : Option ApiError) (w : W)
      → CallsAtMost (calls w + left) (attempts ctx fn max_retries left attempt last w)
  unfolding attempts
  attempts-calls zero attempt last w = omega arith
  attempts-calls (suc left) attempt last w =
      next (round ctx fn max_retries attempt w) (round-Costs attempt w).0
        (λ e w₁. attempts-calls left (suc attempt) (some e) w₁)
    where
      next :
          (r : Round W)
          → calls (world W r) ≤ suc (calls w)
          → ((e : ApiError) (w₁ : W)
              → CallsAtMost
                  (calls w₁ + left)
                  (attempts ctx fn max_retries left (suc attempt) (some e) w₁))
          → CallsAtMost (calls w + suc left) (elim r [
            | stop result w' ↦ (result, w')
            | again e₁ w' ↦ attempts ctx fn max_retries left (suc attempt) (some e₁) w'
          ])
      next (stop result w') c rest = omega arith
      next (again e₁ w') c rest = omega (arith, rest e₁ w')

  -- the part of the whole wait that lies before the round
  abbrev passed : (left attempt : ℕ) → ℕ
  passed zero attempt = 10 ^ 9 * 2 ^ max_retries
  passed (suc left) attempt = 10 ^ 9 * 2 ^ attempt

  abbrev WaitsWithin : (w : W) (left attempt : ℕ) → Option RetryError × W → Type 0
  WaitsWithin w left attempt r =
      waited r.1 + passed left attempt ≤ waited w + 10 ^ 9 * 2 ^ max_retries

  -- the wait of a round fits between what passed before it and before the next one
  abbrev wait : ℕ → ℕ
  wait attempt = if ltb attempt max_retries then base_retry_backoff * 2 ^ attempt else 0

  wait_le : (attempt : ℕ) → wait attempt ≤ 10 ^ 9 * 2 ^ attempt
  wait_le attempt = elim (Bool-cases (ltb attempt max_retries)) [
    | inl l ↦ rw l omega arith
    | inr l ↦ rw l omega arith
  ]

  wait-last : wait max_retries ≡ 0
  wait-last = elim (Bool-cases (ltb max_retries max_retries)) [
    | inl l ↦ absurd (ground arith)
    | inr l ↦ rw l refl
  ]

  passed-next :
      (left attempt : ℕ)
      → suc left + attempt ≡ suc max_retries
      → 10 ^ 9 * 2 ^ attempt + wait attempt ≤ passed left (suc attempt)
  passed-next zero attempt e =
      let last : attempt ≡ max_retries = omega arith in rw last omega (arith, wait-last)
  passed-next (suc left) attempt e = omega (arith, wait_le attempt, power-doubles attempt)

  passed_le :
      (left attempt : ℕ)
      → left + attempt ≡ suc max_retries
      → passed left attempt ≤ 10 ^ 9 * 2 ^ max_retries
  passed_le zero attempt e = omega arith
  passed_le (suc left) attempt e = omega (arith, power_le left attempt max_retries (omega arith))

  attempts-waited :
      (left attempt : ℕ) (last : Option ApiError) (w : W)
      → left + attempt ≡ suc max_retries
      → WaitsWithin w left attempt (attempts ctx fn max_retries left attempt last w)
  unfolding attempts
  attempts-waited zero attempt last w e = omega arith
  attempts-waited (suc left) attempt last w e =
      next (round ctx fn max_retries attempt w) (round-Costs attempt w).1
        (λ e₁ w₁. attempts-waited left (suc attempt) (some e₁) w₁ (omega arith))
    where
      next :
          (r : Round W)
          → waited (world W r)
            ≤ waited w + (if ltb attempt max_retries then base_retry_backoff * 2 ^ attempt else 0)
          → ((e : ApiError) (w₁ : W)
              → WaitsWithin w₁ left
                  (suc attempt)
                  (attempts ctx fn max_retries left (suc attempt) (some e) w₁))
          → WaitsWithin w (suc left) attempt (elim r [
            | stop result w' ↦ (result, w')
            | again e₁ w' ↦ attempts ctx fn max_retries left (suc attempt) (some e₁) w'
          ])
      next (stop result w') c rest =
          omega (arith, passed-next left attempt e, passed_le left (suc attempt) (omega arith))
      next (again e₁ w') c rest = omega (
        arith,
        rest e₁ w',
        passed-next left attempt e,
        passed_le left (suc attempt) (omega arith),
      )

  -- Where each call of `fn` counts as one and takes no waiting time, and a pause of n nanoseconds
  -- waits for at most n: the retried call makes at most `max_retries + 1` calls, and the waits add
  -- up to at most 10 ^ 9 * (2 ^ max_retries - 1) nanoseconds.
  pub retry_on_transient-effort :
      (w : W)
      → (calls (retry_on_transient ctx fn max_retries w).1 ≤ calls w + suc max_retries)
        × (waited (retry_on_transient ctx fn max_retries w).1
            ≤ waited w + 10 ^ 9 * (2 ^ max_retries - 1))
  unfolding retry_on_transient
  retry_on_transient-effort w = (
    attempts-calls (suc max_retries) 0 none w,
    omega (arith, attempts-waited (suc max_retries) 0 none w (omega arith)),
  )
