-- ===== src/Orchestrator/Ready.antt =====
-- internal/orchestrator/orchestrator.go: `waitForReadiness`.
pub mod Statuses
use virtwork.Base.{
  ℕ, zero, suc, ◌*◌, ◌^◌, String, Bool, true, false, Option, none, some, List, [], ◌∷◌, length,
  ◌==◌, ◌||◌, if◌then◌else◌, ◌≡◌,
}
use virtwork.Base.Int.{ℤ, times_int64}
use virtwork.Base.Assoc.{Assoc, lookup, insert}
use virtwork.Config.{Config}
use virtwork.Audit.{Auditor, EventRecord}
use virtwork.Kube.Client.{Client}
use virtwork.Vm.Retry.{Context}
use virtwork.Wait.{WaitError}
use virtwork.Wait.Group.{WaitsForAll}
use virtwork.Orchestrator.{VmPlan}

-- `DefaultPollInterval`, in nanoseconds
abbrev pub default_poll_interval : ℕ
default_poll_interval = 15 * 10 ^ 9

-- `time.Duration(n) * time.Second`, in nanoseconds: the product of two `int64`
abbrev pub seconds : ℤ → ℤ
seconds n = times_int64 n (10 ^ 9)

-- The error: so many of the VMs failed.
pub data ReadinessError : Type 0 where
  readiness_check : (failures vms : ℕ) → ReadinessError

-- the workload of each VM
unfoldable pub vm_to_component : List VmPlan → Assoc String → Assoc String
vm_to_component [] m = m
vm_to_component (p ∷ plans) m = vm_to_component plans (insert p.vm_name p.component m)

-- a key of the set `failedWorkloads`
unfoldable pub is_failed : String → List String → Bool
is_failed c [] = false
is_failed c (d ∷ failed) = c == d || is_failed c failed

abbrev pub add_failed : Option String → List String → List String
add_failed none failed = failed
add_failed (some c) failed = c ∷ failed

-- what the loop over the results has counted and collected
pub record Tally : Type 0 where
  pub failures : ℕ
  pub failed_workloads : List String

-- The texts of the events and of errors are arguments.
module _ {W : Type 0} (failed_text ready_text : String → String) (error_text : WaitError → String)
    (auditor : Auditor W) (exec_id : ℕ) where
  abbrev readiness_event : String → String → String → EventRecord
  readiness_event type message detail = record {
    vm_id = none;
    workload_id = none;
    event_type = type;
    message = message;
    error_detail = detail;
  }

  -- the entry in the audit database for a result
  unfoldable pub record_result : String → Option WaitError → W → W
  record_result name (some e) w =
      (auditor.record_event exec_id (readiness_event "vm_timeout" (failed_text name) (error_text e))
        w).1
  record_result name none w =
      (auditor.record_event exec_id (readiness_event "vm_ready" (ready_text name) "") w).1

  unfoldable pub tally : Assoc String → Option WaitError → String → Tally → Tally
  tally components none name t = t
  tally components (some e) name t = record {
    failures = suc t.failures;
    failed_workloads = add_failed (lookup name components) t.failed_workloads;
  }

  -- the loop over the results
  unfoldable pub record_results : Assoc String → Assoc (Option WaitError) → Tally → W → Tally × W
  record_results components [] t w = (t, w)
  record_results components ((name, r) ∷ results) t w =
      record_results components results (tally components r name t) (record_result name r w)

  abbrev pub status_of : List String → String → String
  status_of failed component = if is_failed component failed then "failed" else "created"

  -- the status of each workload, after a failure
  unfoldable pub settle_workloads : List String → Assoc ℕ → W → W
  settle_workloads failed [] w = w
  settle_workloads failed ((component, id) ∷ ids) w =
      settle_workloads failed ids
        (auditor.update_workload_status id (status_of failed component) w).1

  -- the end of the function, by the number of failures
  unfoldable pub conclude :
      (vms : ℕ) → Assoc ℕ → (failures : ℕ) → (failed : List String) → W → Option ReadinessError × W
  conclude vms ids zero failed w = (none, w)
  conclude vms ids (suc n) failed w =
      (some (readiness_check (suc n) vms), settle_workloads failed ids w)

  abbrev pub after_results : (vms : ℕ) → Assoc ℕ → Tally × W → Option ReadinessError × W
  after_results vms ids (t, w) = conclude vms ids t.failures t.failed_workloads w

  unfoldable pub check_results :
      (vm_names : List String)
      → List VmPlan
      → Assoc ℕ
      → Assoc (Option WaitError)
      → W
      → Option ReadinessError × W
  check_results vm_names plans ids results w = after_results (length vm_names) ids (
      record_results (vm_to_component plans []) results
        (record { failures = 0; failed_workloads = [] }) w)

  -- `waitForReadiness` returns this, in this world
  pub data WaitsForReadiness (client : Client W) (ctx : Context W) (now : W → ℕ) (cfg : Config)
      (outside : W → W → Type 0) (vm_names : List String) (ids : Assoc ℕ) (plans : List VmPlan)
      (w : W) : Option ReadinessError → W → Type 0 where
    not_waiting :
        cfg.wait_for_ready ≡ false
        → WaitsForReadiness client ctx now cfg outside vm_names ids plans w none w
    waited :
        {results : Assoc (Option WaitError)} {v u : W} {r : Option ReadinessError}
        → cfg.wait_for_ready ≡ true
        → WaitsForAll client ctx now cfg.namespace default_poll_interval
            (seconds cfg.ready_timeout_seconds)
            outside
            vm_names
            w
            results
            v
        → check_results vm_names plans ids results v ≡ (r, u)
        → WaitsForReadiness client ctx now cfg outside vm_names ids plans w r u
