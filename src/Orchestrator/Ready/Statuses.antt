-- ===== src/Orchestrator/Ready/Statuses.antt =====
-- What `waitForReadiness` says of the VMs, and of the workloads in the audit database.
use virtwork.Base.{
  ℕ, zero, suc, ◌+◌, ◌<◌, String, true, Option, none, some, List, [], ◌∷◌, length, All, In, ◌≡◌,
  ◌⊎◌, refl, sym, ap, ◌∙◌, subst, Bool-cases, inl, inr, eq_iff, ◌==◌, ◌||◌, arith,
}
use virtwork.Base.Assoc.{Assoc, lookup}
use virtwork.Audit.{Auditor, EventRecord}
use virtwork.Wait.{WaitError}
use virtwork.Orchestrator.{VmPlan}
use virtwork.Orchestrator.Ready.{
  ReadinessError, readiness_check, vm_to_component, is_failed, add_failed, Tally, tally,
  record_results, record_result, status_of, settle_workloads, conclude, check_results,
}

-- how many of the results are errors
abbrev pub count_failed : Assoc (Option WaitError) → ℕ
count_failed [] = 0
count_failed ((name, none) ∷ results) = count_failed results
count_failed ((name, some e) ∷ results) = suc (count_failed results)

-- a VM of the workload has an error
abbrev pub HasFailed : Assoc String → Assoc (Option WaitError) → String → Type 0
HasFailed components results c =
    (name : String) × (e : WaitError) × In (name, some e) results
    × (lookup name components ≡ some c)

abbrev pub IsStatus : Assoc String → Assoc (Option WaitError) → String → String → Type 0
IsStatus components results c status =
    (HasFailed components results c × (status ≡ "failed"))
    ⊎ ((¬ HasFailed components results c) × (status ≡ "created"))

-- the type of the event for a result
abbrev pub result_type : Option WaitError → String
result_type none = "vm_ready"
result_type (some e) = "vm_timeout"

module _ {W : Type 0} (failed_text ready_text : String → String) (error_text : WaitError → String)
    (auditor : Auditor W) (exec_id : ℕ) where
  is_failed-nil : (c : String) → ¬ (is_failed c [] ≡ true)
  unfolding is_failed
  is_failed-nil c h = absurd (cc)

  add_failed-is_failed :
      (c : String) (o : Option String) (failed : List String)
      → is_failed c (add_failed o failed) ≡ true
      → (o ≡ some c) ⊎ (is_failed c failed ≡ true)
  unfolding is_failed
  add_failed-is_failed c none failed h = inr h
  add_failed-is_failed c (some d) failed h = elim (Bool-cases (c == d)) [
    | inl t ↦ inl (ap some (sym ((eq_iff c d).0 t)))
    | inr f ↦ inr (subst (λ b. (b || is_failed c failed) ≡ true) f h)
  ]

  is_failed-add_failed :
      (c : String) (o : Option String) (failed : List String)
      → (o ≡ some c) ⊎ (is_failed c failed ≡ true)
      → is_failed c (add_failed o failed) ≡ true
  unfolding is_failed
  is_failed-add_failed c none failed (inl e) = absurd (cc)
  is_failed-add_failed c none failed (inr h) = h
  is_failed-add_failed c (some d) failed (inl e) = rw (((eq_iff c d).1 (cc))) refl
  is_failed-add_failed c (some d) failed (inr h) = elim (Bool-cases (c == d)) [
    | inl t ↦ rw t refl
    | inr f ↦ rw f h
  ]

  -- the set of the failed workloads
  record_results-failed :
      (components : Assoc String) (results : Assoc (Option WaitError)) (t : Tally) (w : W)
      (c : String)
      → is_failed c
          (record_results failed_text ready_text error_text auditor exec_id components results t
            w).0.failed_workloads
        ≡ true
      → HasFailed components results c ⊎ (is_failed c t.failed_workloads ≡ true)
  unfolding record_results tally
  record_results-failed components [] t w c h = inr h
  record_results-failed components ((name, none) ∷ results) t w c h =
      elim (record_results-failed components results t _ c h) [
        | inl (n, e, i, l) ↦ inl (n, e, inr i, l)
        | inr g ↦ inr g
      ]
  record_results-failed components ((name, some e) ∷ results) t w c h =
      elim (record_results-failed components results _ _ c h) [
        | inl (n, d, i, l) ↦ inl (n, d, inr i, l)
        | inr g ↦ elim (add_failed-is_failed c (lookup name components) t.failed_workloads g) [
          | inl l ↦ inl (name, e, inl refl, l)
          | inr k ↦ inr k
        ]
      ]

  failed-record_results :
      (components : Assoc String) (results : Assoc (Option WaitError)) (t : Tally) (w : W)
      (c : String)
      → HasFailed components results c ⊎ (is_failed c t.failed_workloads ≡ true)
      → is_failed c
          (record_results failed_text ready_text error_text auditor exec_id components results t
            w).0.failed_workloads
        ≡ true
  unfolding record_results tally
  failed-record_results components [] t w c (inl (n, e, i, l)) = absurd i
  failed-record_results components [] t w c (inr h) = h
  failed-record_results components ((name, none) ∷ results) t w c (inr h) =
      failed-record_results components results t _ c (inr h)
  failed-record_results components ((name, none) ∷ results) t w c (inl (n, e, inl i, l)) =
      absurd (cc)
  failed-record_results components ((name, none) ∷ results) t w c (inl (n, e, inr i, l)) =
      failed-record_results components results t _ c (inl (n, e, i, l))
  failed-record_results components ((name, some e) ∷ results) t w c (inr h) =
      failed-record_results components results _ _ c
        (inr (is_failed-add_failed c (lookup name components) t.failed_workloads (inr h)))
  failed-record_results components ((name, some e) ∷ results) t w c (inl (n, d, inr i, l)) =
      failed-record_results components results _ _ c (inl (n, d, i, l))
  failed-record_results components ((name, some e) ∷ results) t w c (inl (n, d, inl i, l)) =
      failed-record_results components results _ _ c
        (inr (is_failed-add_failed c (lookup name components) t.failed_workloads (inl (cc))))

  pub record_results-count :
      (components : Assoc String) (results : Assoc (Option WaitError)) (t : Tally) (w : W)
      → (record_results failed_text ready_text error_text auditor exec_id components results t
          w).0.failures
        ≡ t.failures + count_failed results
  unfolding record_results tally
  record_results-count components [] t w = omega arith
  record_results-count components ((name, none) ∷ results) t w =
      record_results-count components results t _
  record_results-count components ((name, some e) ∷ results) t w =
      record_results-count components results _ _ ∙ (omega arith)

  pub none_failed :
      (results : Assoc (Option WaitError))
      → count_failed results ≡ 0
      → All (λ (r : String × Option WaitError). r.1 ≡ none) results
  none_failed [] h = tt
  none_failed ((name, none) ∷ results) h = (refl, none_failed results h)
  none_failed ((name, some e) ∷ results) h = absurd (omega arith)

  -- an event for each result, and nothing else, leads from `w` to `u`
  abbrev pub Noted : Assoc (Option WaitError) → W → W → Type 0
  Noted [] w u = u ≡ w
  Noted ((name, r) ∷ results) w u =
      (event : EventRecord) × (event.event_type ≡ result_type r)
      × Noted results (auditor.record_event exec_id event w).1 u

  -- an update of each workload's status, to the one that the results call for, and nothing else,
  -- leads from `w` to `u`
  abbrev pub Updated : Assoc String → Assoc (Option WaitError) → Assoc ℕ → W → W → Type 0
  Updated components results [] w u = u ≡ w
  Updated components results ((c, id) ∷ ids) w u =
      (status : String) × IsStatus components results c status
      × Updated components results ids (auditor.update_workload_status id status w).1 u

  -- What `waitForReadiness` returns and what it has written to the database, when it started in `w`.
  abbrev pub Settled :
      Assoc String → Assoc (Option WaitError) → ℕ → Assoc ℕ → W → Option ReadinessError × W → Type 0
  Settled components results vms ids w (none, u) =
      All (λ (r : String × Option WaitError). r.1 ≡ none) results × Noted results w u
  Settled components results vms ids w (some (readiness_check n m), u) =
      (n ≡ count_failed results)
      × (0 < n)
      × (m ≡ vms)
      × (v : W) × Noted results w v
      × Updated components results ids v u

  record_results-Noted :
      (components : Assoc String) (results : Assoc (Option WaitError)) (t : Tally) (w : W)
      → Noted results w
          (record_results failed_text ready_text error_text auditor exec_id components results t
            w).1
  unfolding record_results record_result
  record_results-Noted components [] t w = refl
  record_results-Noted components ((name, none) ∷ results) t w =
      (_, refl, record_results-Noted components results _ _)
  record_results-Noted components ((name, some e) ∷ results) t w =
      (_, refl, record_results-Noted components results _ _)

  status_of-IsStatus :
      (components : Assoc String) (results : Assoc (Option WaitError)) (failed : List String)
      (c : String)
      → (is_failed c failed ≡ true → HasFailed components results c)
      → (HasFailed components results c → is_failed c failed ≡ true)
      → IsStatus components results c
          (status_of failed_text ready_text error_text auditor exec_id failed c)
  status_of-IsStatus components results failed c to from = elim (Bool-cases (is_failed c failed)) [
    | inl t ↦ inl (to t, rw t refl)
    | inr f ↦ inr ((λ h. let t = from h in absurd (cc)), rw f refl)
  ]

  settle_workloads-Updated :
      (components : Assoc String) (results : Assoc (Option WaitError)) (failed : List String)
      (ids : Assoc ℕ) (w : W)
      → ((c : String)
          → (is_failed c failed ≡ true → HasFailed components results c)
            × (HasFailed components results c → is_failed c failed ≡ true))
      → Updated components results ids w
          (settle_workloads failed_text ready_text error_text auditor exec_id failed ids w)
  unfolding settle_workloads
  settle_workloads-Updated components results failed [] w iff = refl
  settle_workloads-Updated components results failed ((c, id) ∷ ids) w iff = (
    _,
    status_of-IsStatus components results failed c (iff c).0 (iff c).1,
    settle_workloads-Updated components results failed ids _ iff,
  )

  conclude-Settled :
      (components : Assoc String) (results : Assoc (Option WaitError)) (vms : ℕ) (ids : Assoc ℕ)
      (n : ℕ) (failed : List String) (w v : W)
      → Noted results w v
      → n ≡ count_failed results
      → ((c : String)
          → (is_failed c failed ≡ true → HasFailed components results c)
            × (HasFailed components results c → is_failed c failed ≡ true))
      → Settled components results vms ids w
          (conclude failed_text ready_text error_text auditor exec_id vms ids n failed v)
  unfolding conclude
  conclude-Settled components results vms ids zero failed w v noted n iff =
      (none_failed results (sym n), noted)
  conclude-Settled components results vms ids (suc k) failed w v noted n iff =
      (n, omega arith, refl, v, noted, settle_workloads-Updated components results failed ids v iff)

  -- After the wait, waitForReadiness records an event for each result, "vm_timeout" for an error and
  -- "vm_ready" for nil, and returns nil only if no VM has an error. Otherwise its error has the
  -- number of the VMs that have one, which is not zero, and of all VMs; and after the events it has
  -- updated the status of each workload, and nothing else: to "failed" if one of its VMs has an
  -- error, and to "created" if none has.
  pub check_results-Settled :
      (vm_names : List String) (plans : List VmPlan) (ids : Assoc ℕ)
      (results : Assoc (Option WaitError)) (w : W)
      → Settled (vm_to_component plans []) results (length vm_names) ids w (
          check_results failed_text ready_text error_text auditor exec_id vm_names plans ids results
            w)
  unfolding check_results
  check_results-Settled vm_names plans ids results w =
      let components = vm_to_component plans [] in
      let t : Tally = record { failures = 0; failed_workloads = [] } in
      conclude-Settled components results (length vm_names) ids _ _ w _
        (record_results-Noted components results t w)
        (record_results-count components results t w ∙ (omega arith))
        (λ c. (
          (λ h. elim (record_results-failed components results t w c h) [
            | inl g ↦ g
            | inr g ↦ absurd (is_failed-nil c g)
          ]),
          (λ g. failed-record_results components results t w c (inl g)),
        ))
