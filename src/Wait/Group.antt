-- ===== src/Wait/Group.antt =====
-- `WaitForAllVMsReady` of internal/wait/wait.go: `WaitForVMReady` in a goroutine for each VM.
pub mod Ready
pub mod Ends
use virtwork.Base.{
  ℕ, zero, suc, ◌+◌, String, Bool, Option, none, some, List, [], ◌∷◌, map, All, In, Distinct,
  Result, ok, err, ◌≢◌, ◌==◌, if◌then◌else◌, ltb,
}
use virtwork.Base.Int.{ℤ, pos, negsuc}
use virtwork.Base.Assoc.{Assoc, keys}
use virtwork.Kube.{ApiError}
use virtwork.Kube.Client.{Client}
use virtwork.Vm.Retry.{Context, is_not_found}
use virtwork.Wait.{WaitError, cancelled, timed_out, getting}
use virtwork.Goroutines.{Task, finished, call, perform, Runs}

-- Why a goroutine does not report that its VM is ready: the error, or that the model has no rounds
-- left for it.
pub data Stop : Type 0 where
  out_of_fuel : Stop
  stopped : WaitError → Stop

-- `time.Now().After(deadline)`, for the timeout that the deadline was set by
abbrev pub is_late : (timeout : ℤ) (start now : ℕ) → Bool
is_late (pos n) start now = ltb (start + n) now
is_late (negsuc n) start now = ltb start (now + suc n)

-- The steps of `WaitForVMReady`: a read of the context and the clock, the call of the API, the pause.
module _ {W : Type 0} (client : Client W) (ctx : Context W) (now : W → ℕ) (namespace : String)
    (interval : ℕ) (timeout : ℤ) (name : String) where
  unfoldable pub after_pause : Bool → Task W Stop → Task W Stop
  after_pause done rest = if done then finished (some (stopped cancelled)) else rest

  -- the `select` at the end of a round
  unfoldable pub pause_task : Task W Stop → Task W Stop
  pause_task rest = perform (ctx.pause interval) (λ done. after_pause done rest)

  -- what follows on `Get`
  unfoldable pub after_read : Task W Stop → Result ApiError String → Task W Stop
  after_read rest (err e) =
      if is_not_found e then pause_task rest else finished (some (stopped (getting e)))
  after_read rest (ok phase) = if phase == "Running" then finished none else pause_task rest

  -- a round, by what it finds at its start
  unfoldable pub check_task : (is_done is_past : Bool) → Task W Stop → Task W Stop
  check_task is_done is_past rest =
      if is_done
      then finished (some (stopped cancelled))
      else if is_past
      then finished (some (stopped timed_out))
      else perform (client.get_phase name namespace) (after_read rest)

  unfoldable pub rounds_task : (fuel start : ℕ) → Task W Stop
  rounds_task zero start = finished (some out_of_fuel)
  rounds_task (suc fuel) start =
      call (λ w. w)
        (λ w. check_task (ctx.is_done w) (is_late timeout start (now w)) (rounds_task fuel start))

  -- the goroutine for a VM
  unfoldable pub wait_task : (fuel : ℕ) → Task W Stop
  wait_task fuel = call (λ w. w) (λ w. rounds_task fuel (now w))

-- the error of a goroutine that ended, as its entry in the map
abbrev pub error_of : Option Stop → Option WaitError
error_of (some (stopped e)) = some e
error_of _ = none

-- the VM and the result of each goroutine
abbrev pub entries : List String → List (Option Stop) → Assoc (Option WaitError)
entries [] rs = []
entries (n ∷ names) [] = []
entries (n ∷ names) (r ∷ rs) = (n, error_of r) ∷ entries names rs

-- The map of the results, in any order: it has an entry for each name, each the result of a
-- goroutine. Where two have one name, it is the result of the last to write.
pub record AreResults (names : List String) (rs : List (Option Stop))
    (results : Assoc (Option WaitError)) : Type 0 where
  pub distinct : Distinct (keys results)
  pub written : All (λ e. In e (entries names rs)) results
  pub complete : All (λ n. In n (keys results)) names

-- `WaitForAllVMsReady` returns these results, in this world.
pub data WaitsForAll {W : Type 0} (client : Client W) (ctx : Context W) (now : W → ℕ)
    (namespace : String) (interval : ℕ) (timeout : ℤ) (outside : W → W → Type 0)
    (names : List String) (w : W) : Assoc (Option WaitError) → W → Type 0 where
  all_returned :
      (fuel : ℕ) (rs : List (Option Stop)) {results : Assoc (Option WaitError)} {v : W}
      → Runs outside
          (map (λ name. wait_task client ctx now namespace interval timeout name fuel) names)
          w
          (map finished rs)
          v
      → All (λ r. r ≢ some out_of_fuel) rs
      → AreResults names rs results
      → WaitsForAll client ctx now namespace interval timeout outside names w results v
