-- ===== src/Wait/Group/Ends.antt =====
-- The goroutines of `WaitForAllVMsReady` end.
use virtwork.Base.{
  ℕ, zero, suc, ◌+◌, ◌*◌, ◌≤◌, ◌<◌, String, Bool, false, Option, none, some, List, [], ◌∷◌, map,
  All, Result, ok, err, ◌≡◌, ◌≢◌, arith, Bool-cases, inl, inr, ◌==◌,
}
use virtwork.Base.Int.{ℤ, pos, negsuc}
use virtwork.Kube.{ApiError}
use virtwork.Kube.Client.{Client}
use virtwork.Vm.Retry.{Context, is_not_found}
use virtwork.Goroutines.{Task, finished, Runs}
use virtwork.Goroutines.Together.{IsPolite, Attains, Each, Runs-Each}
use virtwork.Goroutines.Finish.{Runs-finish, Runs-trans}
use virtwork.Wait.{WaitError}
use virtwork.Wait.Group.{
  Stop, out_of_fuel, stopped, is_late, after_pause, pause_task, after_read, check_task, rounds_task,
  wait_task,
}

-- how long after its start a goroutine may still poll
abbrev pub span : ℤ → ℕ
span (pos n) = n
span (negsuc n) = 0

late-span :
    (timeout : ℤ) (start now : ℕ) → is_late timeout start now ≡ false → now ≤ start + span timeout
late-span (pos n) start now h = ground arith
late-span (negsuc n) start now h = ground arith

module _ {W : Type 0} (client : Client W) (ctx : Context W) (now : W → ℕ) (namespace : String)
    (interval : ℕ) (timeout : ℤ) (outside : W → W → Type 0)
    (read : (name : String) (w : W) → now w ≤ now (client.get_phase name namespace w).1)
    (slept : (w : W)
      → (ctx.pause interval w).0 ≡ false
      → now w + interval ≤ now (ctx.pause interval w).1)
    (paused : (w : W) → now w ≤ now (ctx.pause interval w).1)
    (stays : (w v : W) → outside w v → now w ≤ now v) where
  -- the time has come
  abbrev Past : ℕ → W → Type 0
  Past t w = t ≤ now w

  abbrev IsEnd : ℕ → Stop → Type 0
  IsEnd t e = e ≢ out_of_fuel

  -- from a world on, whatever the others do, the goroutine ends
  abbrev Comes : Task W Stop → W → Type 0
  Comes t w = Attains Past IsEnd 0 t w

  abbrev IsSlow : Task W Stop → Type 0
  IsSlow t = IsPolite Past IsEnd t

  stopped-out_of_fuel : {e : WaitError} → stopped e ≢ out_of_fuel
  stopped-out_of_fuel = λ h. absurd (cc)

  pause_task-Comes :
      (name : String) (rest : Task W Stop) (w : W)
      → ((v : W) → now w + interval ≤ now v → Comes rest v)
      → Comes (pause_task client ctx now namespace interval timeout name rest) w
  unfolding pause_task after_pause
  pause_task-Comes name rest w g = λ v k. elim (Bool-cases (ctx.pause interval v).0) [
    | inl d ↦ rw d stopped-out_of_fuel
    | inr d ↦
        let early = k (now w) (omega arith) in let long = slept v d in rw d (g _ (omega arith))
  ]

  after_read-Comes :
      (name : String) (rest : Task W Stop) (r : Result ApiError String) (w : W)
      → ((v : W) → now w + interval ≤ now v → Comes rest v)
      → Comes (after_read client ctx now namespace interval timeout name rest r) w
  unfolding after_read
  after_read-Comes name rest (err e) w g = elim (Bool-cases (is_not_found e)) [
    | inl t ↦ rw t (pause_task-Comes name rest w g)
    | inr f ↦ rw f stopped-out_of_fuel
  ]
  after_read-Comes name rest (ok phase) w g = elim (Bool-cases (phase == "Running")) [
    | inl t ↦ rw t (omega arith)
    | inr f ↦ rw f (pause_task-Comes name rest w g)
  ]

  check_task-Comes :
      (name : String) (is_done is_past : Bool) (rest : Task W Stop) (w : W)
      → (is_past ≡ false → (v : W) → now w + interval ≤ now v → Comes rest v)
      → Comes (check_task client ctx now namespace interval timeout name is_done is_past rest) w
  unfolding check_task
  check_task-Comes name is_done is_past rest w g = elim (Bool-cases is_done) [
    | inl d ↦ rw d stopped-out_of_fuel
    | inr d ↦ elim (Bool-cases is_past) [
      | inl l ↦ rw (d, l) stopped-out_of_fuel
      | inr l ↦
          rw (d, l)
            (λ v k.
              let early = k (now w) (omega arith) in
              let later = read name v in
              after_read-Comes name rest _ _ (λ u long. g l u (omega arith)))
    ]
  ]

  rounds_task-Comes :
      (name : String) (fuel start : ℕ) (w : W)
      → start + span timeout < now w + fuel * interval
      → Comes (rounds_task client ctx now namespace interval timeout name (suc fuel) start) w
  unfolding rounds_task
  rounds_task-Comes name zero start w enough = λ v k.
      let early = k (now w) (omega arith) in
      check_task-Comes name _ _ _ v
        (λ l u long. let short = late-span timeout start (now v) l in absurd (omega arith))
  rounds_task-Comes name (suc fuel) start w enough = λ v k.
      let early = k (now w) (omega arith) in
      check_task-Comes name _ _ _ v (λ l u long. rounds_task-Comes name fuel start u (omega arith))

  pause_task-IsSlow :
      (name : String) (rest : Task W Stop)
      → IsSlow rest
      → IsSlow (pause_task client ctx now namespace interval timeout name rest)
  unfolding pause_task after_pause
  pause_task-IsSlow name rest g = λ v. (
    (λ t h. let later = paused v in omega arith),
    elim (Bool-cases (ctx.pause interval v).0) [ inl d ↦ rw d tt | inr d ↦ rw d g ],
  )

  after_read-IsSlow :
      (name : String) (rest : Task W Stop) (r : Result ApiError String)
      → IsSlow rest
      → IsSlow (after_read client ctx now namespace interval timeout name rest r)
  unfolding after_read
  after_read-IsSlow name rest (err e) g = elim (Bool-cases (is_not_found e)) [
    | inl t ↦ rw t (pause_task-IsSlow name rest g)
    | inr f ↦ rw f tt
  ]
  after_read-IsSlow name rest (ok phase) g = elim (Bool-cases (phase == "Running")) [
    | inl t ↦ rw t tt
    | inr f ↦ rw f (pause_task-IsSlow name rest g)
  ]

  rounds_task-IsSlow :
      (name : String) (fuel start : ℕ)
      → IsSlow (rounds_task client ctx now namespace interval timeout name fuel start)
  unfolding rounds_task check_task
  rounds_task-IsSlow name zero start = tt
  rounds_task-IsSlow name (suc fuel) start = λ v. (
    (λ t h. h),
    elim (Bool-cases (ctx.is_done v)) [
      | inl d ↦ rw d tt
      | inr d ↦ elim (Bool-cases (is_late timeout start (now v))) [
        | inl l ↦ rw (d, l) tt
        | inr l ↦
            rw (d, l)
              (λ u. (
                (λ t h. let later = read name u in omega arith),
                after_read-IsSlow name _ _ (rounds_task-IsSlow name fuel start),
              ))
      ]
    ],
  )

  tasks-Each :
      (fuel : ℕ) (names : List String) (w : W)
      → span timeout < fuel * interval
      → Each Past IsEnd
          (map (λ n. 0) names)
          (map (λ n. wait_task client ctx now namespace interval timeout n (suc fuel)) names)
          w
  unfolding wait_task
  tasks-Each fuel [] w enough = tt
  tasks-Each fuel (n ∷ names) w enough = (
    (λ v k. rounds_task-Comes n fuel (now v) v (omega arith)),
    (λ v. ((λ t h. h), rounds_task-IsSlow n (suc fuel) (now v))),
    tasks-Each fuel names w enough,
  )

  Each-fuelled :
      (items : List ℕ) (rs : List (Option Stop)) (w : W)
      → Each Past IsEnd items (map finished rs) w
      → All (λ r. r ≢ some out_of_fuel) rs
  Each-fuelled [] [] w h = tt
  Each-fuelled [] (r ∷ rs) w h = absurd h
  Each-fuelled (a ∷ items) [] w h = tt
  Each-fuelled (a ∷ items) (none ∷ rs) w (h, p, hs) =
      ((λ e. absurd (cc)), Each-fuelled items rs w hs)
  Each-fuelled (a ∷ items) (some e ∷ rs) w (h, p, hs) = ((λ q. h (cc)), Each-fuelled items rs w hs)

  -- Where no call and nothing outside turns the clock back, and a pause that is not cut short takes
  -- the interval: with as many rounds as intervals that outlast the timeout, and one more, no
  -- goroutine of WaitForAllVMsReady runs out of rounds, in whatever order they run; and however far
  -- they have run, they can all return.
  pub wait_for_all-ends :
      (fuel : ℕ) (names : List String) (w : W)
      → span timeout < fuel * interval
      → let tasks =
          map (λ n. wait_task client ctx now namespace interval timeout n (suc fuel)) names in
        ((rs : List (Option Stop)) (v : W)
          → Runs outside tasks w (map finished rs) v
          → All (λ r. r ≢ some out_of_fuel) rs)
        × ((us : List (Task W Stop)) (v : W)
            → Runs outside tasks w us v
            → (rs : List (Option Stop)) × (u : W) × Runs outside tasks w (map finished rs) u)
  wait_for_all-ends fuel names w enough = (
    (λ rs v runs. Each-fuelled (map (λ n. 0) names) rs v (
        Runs-Each Past IsEnd outside (map (λ n. 0) names)
          (λ x y o t h. let s = stays x y o in omega arith) runs (tasks-Each fuel names w enough))),
    (λ us v runs.
        let (rs, u, more) = Runs-finish outside us v in (rs, u, Runs-trans outside runs more)),
  )
