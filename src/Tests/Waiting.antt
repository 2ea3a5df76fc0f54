-- ===== src/Tests/Waiting.antt =====
-- The wait for a VM (internal/wait/wait.go).
use virtwork.Base.{
  ◌*◌, ◌^◌, ◌-◌, ℕ, suc, ◌+◌, ◌≤◌, String, Bool, true, false, none, some, [], Result, ok, err, ◌≡◌,
  refl, ap, ◌==◌, arith, ltb, if◌then◌else◌, List, ◌∷◌, map, All, In, Distinct, Option, ◌≢◌, eqb,
  sym, inl, inr, eq_iff,
}
use virtwork.Kube.{ApiError, not_found}
use virtwork.Kube.Client.{Client}
use virtwork.Vm.Retry.{Context}
use virtwork.Wait.{wait_for_vm_ready, polls, poll, read_phase, sleep, after_poll}
use virtwork.Wait.{WaitError, timed_out}
use virtwork.Wait.Group.{
  AreResults, Stop, out_of_fuel, after_pause, pause_task, after_read, check_task, rounds_task,
  wait_task, all_returned,
}
use virtwork.Wait.Group.Ready.{ResultMeans, wait_for_all-ResultMeans}
use virtwork.Wait.Group.Ends.{wait_for_all-ends}
use virtwork.Goroutines.{Runs, Task, start, move, here, there, finished}
use virtwork.Base.Assoc.{Assoc, keys, lookup, insert}
use virtwork.Base.Int.{pos, negsuc}
use virtwork.Audit.{Auditor, no_op}
use virtwork.Orchestrator.{VmPlan}
use virtwork.Orchestrator.Ready.{
  seconds, readiness_check, check_results, record_results, record_result, tally, conclude,
  settle_workloads, is_failed, vm_to_component,
}
use virtwork.Orchestrator.Ready.Statuses.{Settled, check_results-Settled}
use virtwork.Tests.DryRun.{plan}
use virtwork.Wait.Ends.{Ends, wait_for_vm_ready-Ends}

-- the phase of a VM that boots for three seconds
abbrev phase_at : ℕ → String
phase_at clock = if ltb clock 3000 then "Scheduling" else "Running"

-- a cluster that is its clock
abbrev booting : Client ℕ
booting = record {
  list = λ k ns l w. (ok [], w);
  delete = λ k ns n d w. (none, w);
  create = λ o w. (none, w);
  get_namespace = λ n w. (err not_found, w);
  patch_namespace = λ n b l w. (none, w);
  get_phase = λ n ns w. (ok (phase_at w), w);
}

abbrev clock : Context ℕ
clock = record { is_done = λ w. false; pause = λ n w. (false, w + n) }

wait_run :
    wait_for_vm_ready booting clock (λ w. w) "virtwork-cpu-0" "virtwork" 2000 6 10000 0
    ≡ some (none, 4000)
unfolding wait_for_vm_ready polls poll read_phase sleep after_poll
wait_run = refl

abbrev is_running : Result ApiError String → Bool
is_running (ok phase) = phase == "Running"
is_running (err e) = false

phase_late : (b : Bool) → ((if b then "Scheduling" else "Running") == "Running") ≡ true → b ≡ false
phase_late true h = absurd (cc)
phase_late false h = refl

booted : (w : ℕ) → ◌≡◌ {A = Result ApiError String} (ok (phase_at w)) (ok "Running") → 3000 ≤ w
booted w e = let late = phase_late (ltb w 3000) (ap is_running e) in ground arith

wait_for_vm_ready-Ends_example :
    Ends ℕ
      (λ w. 3000 ≤ w)
      (λ w. w)
      10000
      (wait_for_vm_ready booting clock (λ w. w) "virtwork-cpu-0" "virtwork" 2000 (suc 6) 10000 0)
wait_for_vm_ready-Ends_example =
    wait_for_vm_ready-Ends booting clock (λ w. w) "virtwork-cpu-0" "virtwork" 2000 (λ w. 3000 ≤ w)
      booted (λ w. omega arith) (λ w e. omega arith) 6 10000 0 (omega arith)

abbrev two : List String
two = "virtwork-cpu-0" ∷ "virtwork-cpu-1" ∷ []

-- The first VM is looked at twice before it runs, and the second one only then.
both_run :
    Runs ◌≤◌
      (map (λ name. wait_task booting clock (λ w. w) "virtwork" 2000 (pos 10000) name 3) two)
      0
      (map finished (none ∷ none ∷ []))
      4000
unfolding wait_task rounds_task check_task after_read pause_task after_pause
both_run =
    move
      (move
        (move
          (move
            (move
              (move
                (move
                  (move (move (move (move (move start here) here) here) (there here)) (there here))
                  here)
                here)
              here)
            here)
          (there here))
        here)
      here

cpus-Distinct : Distinct two
cpus-Distinct = ((λ i. elim i [ inl e ↦ clash e | inr j ↦ j ]), ((λ i. i), tt))
  where
    clash : ◌≡◌ {A = String} "virtwork-cpu-0" "virtwork-cpu-1" → ⊥
    clash e =
        let same : false ≡ true = (eq_iff "virtwork-cpu-0" "virtwork-cpu-1").1 e in absurd (cc)

-- the results, in another order than the names
abbrev both : Assoc (Option WaitError)
both = ("virtwork-cpu-1", none) ∷ ("virtwork-cpu-0", none) ∷ []

both-AreResults : AreResults two (none ∷ none ∷ []) both
both-AreResults = record {
  distinct = ((λ i. elim i [ inl e ↦ cpus-Distinct.0 (inl (sym e)) | inr j ↦ j ]), ((λ i. i), tt));
  written = (inr (inl refl), (inl refl, tt));
  complete = (inr (inl refl), (inl refl, tt));
}

wait_for_all-ResultMeans_example :
    All (λ n. In n (keys both)) two × All (ResultMeans (λ name w. 3000 ≤ w) 4000) both
wait_for_all-ResultMeans_example =
    wait_for_all-ResultMeans booting clock (λ w. w) "virtwork" 2000 (pos 10000) ◌≤◌
      (λ name w. 3000 ≤ w) (λ name w. booted w) (λ m name w h. h) (λ m w h. omega arith)
      (λ w v l m h. omega arith) two 0
      (all_returned 3 (none ∷ none ∷ []) both_run ((λ h. absurd (cc)), ((λ h. absurd (cc)), tt))
        both-AreResults)

wait_for_all-ends_example :
    let tasks =
      map (λ n. wait_task booting clock (λ w. w) "virtwork" 2000 (pos 10000) n (suc 6)) two in
    ((rs : List (Option Stop)) (v : ℕ)
      → Runs ◌≤◌ tasks 0 (map finished rs) v
      → All (λ r. r ≢ some out_of_fuel) rs)
    × ((us : List (Task ℕ Stop)) (v : ℕ)
        → Runs ◌≤◌ tasks 0 us v
        → (rs : List (Option Stop)) × (u : ℕ) × Runs ◌≤◌ tasks 0 (map finished rs) u)
wait_for_all-ends_example =
    wait_for_all-ends booting clock (λ w. w) "virtwork" 2000 (pos 10000) ◌≤◌ (λ name w. omega arith)
      (λ w e. omega arith) (λ w. omega arith) (λ w v l. l) 6 two 0 (omega arith)

-- a database with the statuses of the workloads, by id
abbrev statuses : Auditor (ℕ → String)
statuses = record no_op {
  update_workload_status = λ id s w. (none, λ i. if eqb i id then s else w i);
}

abbrev results : Assoc (Option WaitError)
results = ("virtwork-cpu-0", none) ∷ ("virtwork-network-server-0", some timed_out) ∷ []

abbrev cpu : VmPlan
cpu = record plan { vm_name = "virtwork-cpu-0"; component = "cpu" }

abbrev unset : ℕ → String
unset i = "pending"

failed_text : WaitError → String
failed_text e = "failed"

check_run :
    let (r, w) =
      check_results
        (λ s. s)
        (λ s. s)
        failed_text
        statuses
        1
        two
        (cpu ∷ plan ∷ [])
        (("cpu", 1) ∷ ("network", 2) ∷ [])
        results
        unset in
    (r ≡ some (readiness_check 1 2)) × (w 1 ≡ "created") × (w 2 ≡ "failed")
unfolding check_results record_results record_result tally conclude settle_workloads is_failed
    vm_to_component lookup insert
check_run = (refl, refl, refl)

check_results-Settled_example :
    Settled
      (λ s. s)
      (λ s. s)
      failed_text
      statuses
      1
      (vm_to_component (cpu ∷ plan ∷ []) [])
      results
      2
      (("cpu", 1) ∷ ("network", 2) ∷ [])
      unset
      (check_results
        (λ s. s)
        (λ s. s)
        failed_text
        statuses
        1
        two
        (cpu ∷ plan ∷ [])
        (("cpu", 1) ∷ ("network", 2) ∷ [])
        results
        unset)
check_results-Settled_example =
    check_results-Settled (λ s. s) (λ s. s) failed_text statuses 1 two (cpu ∷ plan ∷ [])
      (("cpu", 1) ∷ ("network", 2) ∷ []) results unset

-- a timeout that overflows is negative
overflow :
    (seconds (pos 600) ≡ pos (600 * 10 ^ 9))
    × (seconds (negsuc 0) ≡ negsuc (10 ^ 9 - 1))
    × (seconds (pos (10 ^ 10)) ≡ negsuc 8446744073709551615)
overflow = (refl, refl, refl)
