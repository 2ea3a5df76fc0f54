-- ===== src/Wait/Group/Ready.antt =====
-- What the results of `WaitForAllVMsReady` say.
use virtwork.Base.{
  ℕ, zero, suc, String, Bool, Option, none, some, List, [], ◌∷◌, map, All, In, Result, ok, err, ◌≡◌,
  ◌≢◌, refl, sym, ap, subst, false, Bool-cases, inl, inr, ◌==◌, eq_iff,
}
use virtwork.Base.Int.{ℤ}
use virtwork.Base.Assoc.{Assoc, keys}
use virtwork.Kube.{ApiError}
use virtwork.Kube.Client.{Client}
use virtwork.Vm.Retry.{Context, is_not_found}
use virtwork.Wait.{WaitError, getting}
use virtwork.Goroutines.{Task, finished}
use virtwork.Goroutines.Together.{IsPolite, Attains, Each, Runs-Each}
use virtwork.Wait.Group.{
  Stop, out_of_fuel, stopped, after_pause, pause_task, after_read, check_task, rounds_task,
  wait_task, entries, WaitsForAll, all_returned,
}

-- an error of a wait is not that the instance is missing
abbrev pub IsWaitError : WaitError → Type 0
IsWaitError (getting e) = is_not_found e ≡ false
IsWaitError _ = Unit

abbrev pub IsStop : String → Stop → Type 0
IsStop name out_of_fuel = Unit
IsStop name (stopped e) = IsWaitError e

-- What an entry of the results says: nil, and `R` holds of the VM; or an error.
abbrev pub ResultMeans :
    {W : Type 0} → (String → W → Type 0) → W → String × Option WaitError → Type 0
ResultMeans R w (name, none) = R name w
ResultMeans R w (name, some e) = IsWaitError e

pub All-In : {A : Type 0} (P : A → Type 0) (xs : List A) (x : A) → All P xs → In x xs → P x
All-In P [] x h i = absurd i
All-In P (y ∷ xs) x (h, hs) (inl e) = subst P (sym e) h
All-In P (y ∷ xs) x (h, hs) (inr i) = All-In P xs x hs i

module _ {W : Type 0} (client : Client W) (ctx : Context W) (now : W → ℕ) (namespace : String)
    (interval : ℕ) (timeout : ℤ) (outside : W → W → Type 0) (R : String → W → Type 0)
    (running : (name : String) (w : W)
      → (client.get_phase name namespace w).0 ≡ ok "Running"
      → R name (client.get_phase name namespace w).1)
    (read : (m name : String) (w : W) → R m w → R m (client.get_phase name namespace w).1)
    (paused : (m : String) (w : W) → R m w → R m (ctx.pause interval w).1)
    (stays : (w v : W) → outside w v → (m : String) → R m w → R m v) where
  -- whatever the others do, a goroutine returns as its result says, and undoes nothing
  abbrev IsGood : String → Task W Stop → W → Type 0
  IsGood name t w = Attains R IsStop name t w × IsPolite R IsStop t

  after_pause-IsGood :
      (name : String) (done : Bool) (rest : Task W Stop) (w : W)
      → IsGood name rest w
      → IsGood name (after_pause client ctx now namespace interval timeout name done rest) w
  unfolding after_pause
  after_pause-IsGood name done rest w g = elim (Bool-cases done) [
    | inl d ↦ rw d (tt, tt)
    | inr d ↦ rw d g
  ]

  pause_task-IsGood :
      (name : String) (rest : Task W Stop) (w : W)
      → ((v : W) → IsGood name rest v)
      → IsGood name (pause_task client ctx now namespace interval timeout name rest) w
  unfolding pause_task
  pause_task-IsGood name rest w g = (
    (λ v k. (after_pause-IsGood name (ctx.pause interval v).0 rest _ (g _)).0),
    (λ v.
        ((λ m h. paused m v h), (after_pause-IsGood name (ctx.pause interval v).0 rest v (g v)).1)),
  )

  after_read-IsGood :
      (name : String) (rest : Task W Stop) (r : Result ApiError String) (w : W)
      → ((v : W) → IsGood name rest v)
      → (r ≡ ok "Running" → R name w)
      → Attains R IsStop name (after_read client ctx now namespace interval timeout name rest r) w
  unfolding after_read
  after_read-IsGood name rest (err e) w g h = elim (Bool-cases (is_not_found e)) [
    | inl t ↦ rw t (pause_task-IsGood name rest w g).0
    | inr f ↦ rw f f
  ]
  after_read-IsGood name rest (ok phase) w g h = elim (Bool-cases (phase == "Running")) [
    | inl t ↦ rw t (h (ap ok ((eq_iff phase "Running").0 t)))
    | inr f ↦ rw f (pause_task-IsGood name rest w g).0
  ]

  after_read-IsPolite :
      (name : String) (rest : Task W Stop) (r : Result ApiError String) (w : W)
      → ((v : W) → IsGood name rest v)
      → IsPolite R IsStop (after_read client ctx now namespace interval timeout name rest r)
  unfolding after_read
  after_read-IsPolite name rest (err e) w g = elim (Bool-cases (is_not_found e)) [
    | inl t ↦ rw t (pause_task-IsGood name rest w g).1
    | inr f ↦ rw f tt
  ]
  after_read-IsPolite name rest (ok phase) w g = elim (Bool-cases (phase == "Running")) [
    | inl t ↦ rw t tt
    | inr f ↦ rw f (pause_task-IsGood name rest w g).1
  ]

  check_task-IsGood :
      (name : String) (is_done is_past : Bool) (rest : Task W Stop) (w : W)
      → ((v : W) → IsGood name rest v)
      → IsGood name
          (check_task client ctx now namespace interval timeout name is_done is_past rest)
          w
  unfolding check_task
  check_task-IsGood name is_done is_past rest w g = elim (Bool-cases is_done) [
    | inl d ↦ rw d (tt, tt)
    | inr d ↦ elim (Bool-cases is_past) [
      | inl l ↦ rw (d, l) (tt, tt)
      | inr l ↦
          rw (d, l)
            (
              (λ v k. after_read-IsGood name rest _ _ g (running name v)),
              (λ v. ((λ m h. read m name v h), after_read-IsPolite name rest _ v g)),
            )
    ]
  ]

  rounds_task-IsGood :
      (name : String) (fuel start : ℕ) (w : W)
      → IsGood name (rounds_task client ctx now namespace interval timeout name fuel start) w
  unfolding rounds_task
  rounds_task-IsGood name zero start w = (tt, tt)
  rounds_task-IsGood name (suc fuel) start w = (
    (λ v k. (check_task-IsGood name _ _ _ v (rounds_task-IsGood name fuel start)).0),
    (λ v. ((λ m h. h), (check_task-IsGood name _ _ _ v (rounds_task-IsGood name fuel start)).1)),
  )

  tasks-Each :
      (fuel : ℕ) (names : List String) (w : W)
      → Each R IsStop names
          (map (λ n. wait_task client ctx now namespace interval timeout n fuel) names)
          w
  unfolding wait_task
  tasks-Each fuel [] w = tt
  tasks-Each fuel (n ∷ names) w = (
    (λ v k. (rounds_task-IsGood n fuel (now v) v).0),
    (λ v. ((λ m h. h), (rounds_task-IsGood n fuel (now v) v).1)),
    tasks-Each fuel names w,
  )

  entries-ResultMeans :
      (names : List String) (rs : List (Option Stop)) (w : W)
      → Each R IsStop names (map finished rs) w
      → All (λ r. r ≢ some out_of_fuel) rs
      → All (ResultMeans R w) (entries names rs)
  entries-ResultMeans [] rs w h g = tt
  entries-ResultMeans (n ∷ names) [] w h g = tt
  entries-ResultMeans (n ∷ names) (none ∷ rs) w (h, p, hs) (g, gs) =
      (h, entries-ResultMeans names rs w hs gs)
  entries-ResultMeans (n ∷ names) (some (stopped e) ∷ rs) w (h, p, hs) (g, gs) =
      (h, entries-ResultMeans names rs w hs gs)
  entries-ResultMeans (n ∷ names) (some out_of_fuel ∷ rs) w (h, p, hs) (g, gs) = absurd (g refl)

  All-all :
      (es es' : Assoc (Option WaitError)) (w : W)
      → All (ResultMeans R w) es
      → All (λ e. In e es) es'
      → All (ResultMeans R w) es'
  All-all es [] w h g = tt
  All-all es (e ∷ es') w h (g, gs) = (All-In (ResultMeans R w) es e h g, All-all es es' w h gs)

  -- Where `R` of a VM holds after the phase Running was read of it, and neither another read, nor a
  -- pause, nor what happens outside undoes it: in whatever order the goroutines run, the map that
  -- WaitForAllVMsReady returns has an entry for each VM; where the entry is nil, `R` holds of the VM;
  -- and no entry is the error that the instance is not found.
  pub wait_for_all-ResultMeans :
      (names : List String) (w : W) {results : Assoc (Option WaitError)} {v : W}
      → WaitsForAll client ctx now namespace interval timeout outside names w results v
      → All (λ n. In n (keys results)) names × All (ResultMeans R v) results
  wait_for_all-ResultMeans names w {results = results} {v = v}
        (all_returned fuel rs runs fuelled are) =
      let h = Runs-Each R IsStop outside names stays runs (tasks-Each fuel names w) in
      (
        are.complete,
        All-all (entries names rs) results v (entries-ResultMeans names rs v h fuelled) are.written,
      )
