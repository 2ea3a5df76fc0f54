-- ===== src/Wait/Ends.antt =====
-- The wait for a VM ends, and what its result says.
use virtwork.Base.{
  ℕ, zero, suc, ◌+◌, ◌*◌, ◌≤◌, ◌<◌, String, false, Option, none, some, Result, ok, err, ◌==◌, ◌≡◌,
  refl, ap, arith, Bool-cases, inl, inr, eq_iff, ltb,
}
use virtwork.Kube.{ApiError}
use virtwork.Kube.Client.{Client}
use virtwork.Vm.Retry.{Context, is_not_found}
use virtwork.Wait.{
  WaitError, cancelled, timed_out, getting, Poll, done, again, sleep, read_phase, poll, after_poll,
  polls, wait_for_vm_ready,
}

-- What a result says: nil, and `P` holds; the time is up; or an error of the API other than that the
-- instance is not there.
abbrev pub WaitMeans : (W : Type 0) → (W → Type 0) → (W → ℕ) → ℕ → Option WaitError × W → Type 0
WaitMeans W P now deadline (none, w) = P w
WaitMeans W P now deadline (some cancelled, w) = Unit
WaitMeans W P now deadline (some timed_out, w) = deadline < now w
WaitMeans W P now deadline (some (getting e), w) = is_not_found e ≡ false

-- The loop has a result, and it says this.
abbrev pub Ends : (W : Type 0) → (W → Type 0) → (W → ℕ) → ℕ → Option (Option WaitError × W) → Type 0
Ends W P now deadline o = (r : Option WaitError × W) × (o ≡ some r) × WaitMeans W P now deadline r

module _ {W : Type 0} (client : Client W) (ctx : Context W) (now : W → ℕ) (name namespace : String)
    (interval : ℕ) (P : W → Type 0)
    (running : (w : W)
      → (client.get_phase name namespace w).0 ≡ ok "Running"
      → P (client.get_phase name namespace w).1)
    (read : (w : W) → now w ≤ now (client.get_phase name namespace w).1)
    (slept : (w : W)
      → (ctx.pause interval w).0 ≡ false
      → now w + interval ≤ now (ctx.pause interval w).1) where
  -- a round that goes on has taken the interval
  abbrev RoundMeans : ℕ → W → Poll W → Type 0
  RoundMeans deadline w (done result w') = WaitMeans W P now deadline (result, w')
  RoundMeans deadline w (again w') = (now w ≤ deadline) × (now w + interval ≤ now w')

  sleep-RoundMeans :
      (deadline : ℕ) (w w' : W)
      → now w ≤ deadline
      → now w ≤ now w'
      → RoundMeans deadline w (sleep client ctx now name namespace interval w')
  unfolding sleep
  sleep-RoundMeans deadline w w' early later = elim (Bool-cases (ctx.pause interval w').0) [
    | inl d ↦ rw d tt
    | inr d ↦ let long = slept w' d in rw d (early, omega arith)
  ]

  read_phase-RoundMeans :
      (deadline : ℕ) (w : W) (r : Result ApiError String × W)
      → now w ≤ deadline
      → now w ≤ now r.1
      → (r.0 ≡ ok "Running" → P r.1)
      → RoundMeans deadline w (read_phase client ctx now name namespace interval r)
  unfolding read_phase
  read_phase-RoundMeans deadline w (err e, w') early later h = elim (Bool-cases (is_not_found e)) [
    | inl t ↦ rw t (sleep-RoundMeans deadline w w' early later)
    | inr f ↦ rw f f
  ]
  read_phase-RoundMeans deadline w (ok phase, w') early later h =
      elim (Bool-cases (phase == "Running")) [
        | inl t ↦ rw t (h (ap ok ((eq_iff phase "Running").0 t)))
        | inr f ↦ rw f (sleep-RoundMeans deadline w w' early later)
      ]

  poll-RoundMeans :
      (deadline : ℕ) (w : W)
      → RoundMeans deadline w (poll client ctx now name namespace interval deadline w)
  unfolding poll
  poll-RoundMeans deadline w = elim (Bool-cases (ctx.is_done w)) [
    | inl d ↦ rw d tt
    | inr d ↦ elim (Bool-cases (ltb deadline (now w))) [
      | inl l ↦ rw (d, l) (ground arith)
      | inr l ↦
          rw (d, l)
            (read_phase-RoundMeans deadline w (client.get_phase name namespace w) (ground arith)
              (read w) (running w))
    ]
  ]

  after_poll-Ends :
      (deadline : ℕ) (w : W) (r : Poll W) (rest : W → Option (Option WaitError × W))
      → RoundMeans deadline w r
      → ((w' : W) → now w ≤ deadline → now w + interval ≤ now w' → Ends W P now deadline (rest w'))
      → Ends W P now deadline (after_poll client ctx now name namespace interval r rest)
  unfolding after_poll
  after_poll-Ends deadline w (done result w') rest m h = ((result, w'), refl, m)
  after_poll-Ends deadline w (again w') rest (early, m) h = h w' early m

  polls-Ends :
      (fuel deadline : ℕ) (w : W)
      → deadline < now w + fuel * interval
      → Ends W P now deadline (polls client ctx now name namespace interval (suc fuel) deadline w)
  unfolding polls
  polls-Ends zero deadline w enough =
      after_poll-Ends deadline w _ _ (poll-RoundMeans deadline w)
        (λ w' early later. absurd (omega arith))
  polls-Ends (suc fuel) deadline w enough =
      after_poll-Ends deadline w _ _ (poll-RoundMeans deadline w)
        (λ w' early later. polls-Ends fuel deadline w' (omega arith))

  -- Where reading the instance does not turn the clock back, and a pause that is not cut short takes
  -- the interval: the wait ends within as many rounds as intervals that outlast the timeout, and one
  -- more. If it returns nil, `P` holds, which holds after the phase Running was read; if it reports a
  -- timeout, the deadline has passed; and any other error but that of a cancelled context is one of
  -- the API, which is not that the instance is missing.
  pub wait_for_vm_ready-Ends :
      (fuel timeout : ℕ) (w : W)
      → timeout < fuel * interval
      → Ends W P now
          (now w + timeout)
          (wait_for_vm_ready client ctx now name namespace interval (suc fuel) timeout w)
  unfolding wait_for_vm_ready
  wait_for_vm_ready-Ends fuel timeout w enough = polls-Ends fuel (now w + timeout) w (omega arith)
