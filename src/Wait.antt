-- ===== src/Wait.antt =====
-- `WaitForVMReady` of internal/wait/wait.go
pub mod Ends
pub mod Group
use virtwork.Base.{
  ℕ, zero, suc, ◌+◌, String, Bool, true, false, Option, none, some, Result, ok, err, ◌==◌,
  if◌then◌else◌, ltb,
}
use virtwork.Kube.{ApiError}
use virtwork.Kube.Client.{Client}
use virtwork.Vm.Retry.{Context, is_not_found}

pub data WaitError : Type 0 where
  cancelled timed_out : WaitError
  getting : ApiError → WaitError

-- What a round of the loop comes to: the function returns, or polls again.
pub data Poll (W : Type 0) : Type 0 where
  done : Option WaitError → W → Poll W
  again : W → Poll W

-- `now` is the clock, in nanoseconds; `timeout` and `interval` are as well.
module _ {W : Type 0} (client : Client W) (ctx : Context W) (now : W → ℕ) (name namespace : String)
    (interval : ℕ) where
  -- the wait between two polls
  unfoldable pub sleep : W → Poll W
  sleep w =
      let (stopped, w') = ctx.pause interval w in
      if stopped then done (some cancelled) w' else again w'

  -- what the loop does with the instance that was read
  unfoldable pub read_phase : Result ApiError String × W → Poll W
  read_phase (err e, w) = if is_not_found e then sleep w else done (some (getting e)) w
  read_phase (ok phase, w) = if phase == "Running" then done none w else sleep w

  unfoldable pub poll : (deadline : ℕ) → W → Poll W
  poll deadline w =
      if ctx.is_done w
      then done (some cancelled) w
      else if ltb deadline (now w)
      then done (some timed_out) w
      else read_phase (client.get_phase name namespace w)

  -- the rest of the loop after a round
  unfoldable pub after_poll :
      Poll W → (W → Option (Option WaitError × W)) → Option (Option WaitError × W)
  after_poll (done result w) rest = some (result, w)
  after_poll (again w) rest = rest w

  -- The loop; `none` where the fuel runs out.
  unfoldable pub polls : (fuel deadline : ℕ) → W → Option (Option WaitError × W)
  polls zero deadline w = none
  polls (suc fuel) deadline w = after_poll (poll deadline w) (λ w'. polls fuel deadline w')

  unfoldable pub wait_for_vm_ready : (fuel timeout : ℕ) → W → Option (Option WaitError × W)
  wait_for_vm_ready fuel timeout w = polls fuel (now w + timeout) w
