-- ===== src/Audit/Sqlite/Lifecycle.antt =====
-- The row of a VM in the audit database, from its creation to its deletion.
use virtwork.Base.{
  ℕ, suc, String, Bool, true, false, Option, none, some, List, Result, ok, err, ◌≡◌, refl, ap, sym,
  subst, ◌∙◌, Bool-cases, inl, inr, ◌==◌, ◌&&◌, ◌⊎◌, arith, if◌then◌else◌, eqb,
}
use virtwork.Audit.{AuditError, VmRecord}
use virtwork.Audit.Tables.{VmRow, Db, Table, insert_row, update_id, has_id}
use virtwork.Audit.Tables.Keys.{IsNumbered, update_id-insert_row, insert_row-IsNumbered}
use virtwork.Audit.Statements.{allows, Statement, Sql, Effect, IsAtomic, insert_vm, update_vms}
use virtwork.Audit.Sqlite.{
  failure, inserted, record_vm, update_vm_status, record_vm_deletion, vm_deleted, vm_row,
  status_set,
}

module _ {W : Type 0} (sql : Sql W) (now : W → String) (new_uuid : W → String × W)
    (json : List String → String) (atomic : IsAtomic sql) where
  failure-ok :
      (s : Statement) (w : W) (r : Result AuditError ℕ × W)
      → Effect sql.db s w r
      → (failure r).0 ≡ none
      → (id : ℕ) × (s (sql.db w) ≡ some (sql.db (failure r).1, id))
  failure-ok s w (ok id, u) h e = (id, h)
  failure-ok s w (err f, u) h e = absurd (cc)

  inserted-ok :
      (s : Statement) (w : W) (r : Result AuditError ℕ × W)
      → Effect sql.db s w r
      → (inserted r).0.1 ≡ none
      → s (sql.db w) ≡ some (sql.db (inserted r).1, (inserted r).0.0)
  inserted-ok s w (ok id, u) h e = h
  inserted-ok s w (err f, u) h e = absurd (cc)

  pair_of : Db × ℕ → Option (Db × ℕ) → Db × ℕ
  pair_of p none = p
  pair_of p (some q) = q

  some-pair :
      {d e : Db} {i j : ℕ}
      → ◌≡◌ {A = Option (Db × ℕ)} (some (d, i)) (some (e, j))
      → (e ≡ d) × (j ≡ i)
  unfolding pair_of
  some-pair {d = d} {i = i} h =
      (sym (ap (λ o. (pair_of (d, i) o).0) h), sym (ap (λ o. (pair_of (d, i) o).1) h))

  -- no foreign key of the row is violated, or they are not enforced
  abbrev pub Refers : (audit_id workload_id : ℕ) → Db → Type 0
  Refers audit_id workload_id d =
      (d.foreign_keys ≡ false)
      ⊎ ((has_id audit_id d.audit_log.rows && has_id workload_id d.workload_details.rows) ≡ true)

  allows-Refers :
      (audit_id workload_id : ℕ) (d : Db)
      → allows d (has_id audit_id d.audit_log.rows && has_id workload_id d.workload_details.rows)
        ≡ true
      → Refers audit_id workload_id d
  allows-Refers audit_id workload_id d h = elim (Bool-cases d.foreign_keys) [
    | inl t ↦ inr (ground arith)
    | inr f ↦ inl f
  ]

  insert_vm-some :
      (row : VmRow) (d e : Db) (id : ℕ)
      → insert_vm row d ≡ some (e, id)
      → (e ≡ record d { vm_details = insert_row row d.vm_details })
        × (id ≡ suc d.vm_details.last_id)
        × Refers row.audit_id row.workload_id d
  unfolding insert_vm
  insert_vm-some row d e id =
      elim (Bool-cases (
        allows d (
          has_id row.audit_id d.audit_log.rows
          && has_id row.workload_id d.workload_details.rows))) [
            | inl t ↦ rw t (λ h.
                let (same, last) = some-pair h in
                (same, last, allows-Refers row.audit_id row.workload_id d t))
            | inr f ↦ rw f (λ h. absurd (cc))
          ]

  abbrev pub with_vms : Db → Table VmRow → Db
  with_vms d t = record d { vm_details = t }

  -- an update by the id that was given out last
  updated-last :
      (row : VmRow) (f : VmRow → VmRow) (d e : Db) (id : ℕ)
      → IsNumbered d.vm_details
      → e ≡ with_vms d (insert_row row d.vm_details)
      → id ≡ suc d.vm_details.last_id
      → (v : Db) (j : ℕ) → update_vms (λ j row. eqb j id) f e ≡ some (v, j)
      → v ≡ with_vms d (insert_row (f row) d.vm_details)
  updated-last row f d e id numbered same last v j h =
      (some-pair h).0
      ∙ ap {A = Db} (λ x. with_vms x (update_id id f x.vm_details)) same
      ∙ ap {A = ℕ} (λ i. with_vms d (update_id i f (insert_row row d.vm_details))) last
      ∙ ap {A = Table VmRow} (with_vms d) (update_id-insert_row row f d.vm_details numbered)

  -- What the row of a VM says in the end: what it was recorded with, the last phase, the times at which
  -- it was recorded, became ready, if it did, and was deleted.
  abbrev pub IsDeletedVm :
      (execution_id workload_id : ℕ)
      → VmRecord
      → (phase : String) → (ready : Bool) → (created_time ready_time deleted_time : String) → VmRow
      → Type 0
  IsDeletedVm execution_id workload_id r phase ready created_time ready_time deleted_time row =
      (row.audit_id ≡ execution_id)
      × (row.workload_id ≡ workload_id)
      × (row.vm_name ≡ r.vm_name)
      × (row.namespace ≡ r.vm_namespace)
      × (row.component ≡ r.vm_component)
      × (row.role ≡ (if r.vm_role == "" then none else some r.vm_role))
      × (row.phase ≡ some phase)
      × (row.status ≡ "deleted")
      × (row.created_at ≡ created_time)
      × (row.ready_at ≡ (if ready then some ready_time else none))
      × (row.deleted_at ≡ some deleted_time)

  set-IsDeletedVm :
      (execution_id workload_id : ℕ) (r : VmRecord) (phase status t0 t1 t2 : String) (ready : Bool)
      → IsDeletedVm execution_id workload_id r phase ready t0 t1 t2 (
          vm_deleted sql now new_uuid json t2 (
            status_set sql now new_uuid json ready phase status t1
              (vm_row sql now new_uuid json execution_id workload_id r t0)))
  set-IsDeletedVm execution_id workload_id r phase status t0 t1 t2 true =
      (refl, refl, refl, refl, refl, refl, refl, refl, refl, refl, refl)
  set-IsDeletedVm execution_id workload_id r phase status t0 t1 t2 false =
      (refl, refl, refl, refl, refl, refl, refl, refl, refl, refl, refl)

  module _ (execution_id workload_id : ℕ) (r : VmRecord) (phase status : String) (w : W) where
    -- the three calls
    abbrev pub recorded : (ℕ × Option AuditError) × W
    recorded = record_vm sql now new_uuid json execution_id workload_id r w

    abbrev pub updated : Option AuditError × W
    updated = update_vm_status sql now new_uuid json recorded.0.0 phase status recorded.1

    abbrev pub deleted : Option AuditError × W
    deleted = record_vm_deletion sql now new_uuid json recorded.0.0 updated.1

    -- Where statements are atomic and no id of a VM's row is above the last one given out: a VM that
    -- is recorded, has its status updated and is recorded as deleted, by the id that RecordVM
    -- returned and each without an error, has one new row, with the execution and the workload it
    -- was recorded for, its name, namespace, component and role, the phase given, the status
    -- "deleted" and the times of the three calls, that of the update only if the status given was
    -- "ready". The execution and the workload are in their tables, or foreign keys are not enforced.
    -- All other rows and all other tables are as before, and no id is above the last one.
    pub record_vm-IsDeletedVm :
        IsNumbered (sql.db w).vm_details
        → recorded.0.1 ≡ none
        → updated.0 ≡ none
        → deleted.0 ≡ none
        → (row : VmRow) × IsDeletedVm execution_id workload_id r phase
            (status == "ready")
            (now w)
            (now recorded.1)
            (now updated.1)
            row
          × Refers execution_id workload_id (sql.db w)
          × (sql.db deleted.1 ≡ with_vms (sql.db w) (insert_row row (sql.db w).vm_details))
          × IsNumbered (sql.db deleted.1).vm_details
    unfolding record_vm update_vm_status record_vm_deletion
    record_vm-IsDeletedVm numbered made set gone =
        let row = vm_row sql now new_uuid json execution_id workload_id r (now w) in
        let f =
          status_set sql now new_uuid json (status == "ready") phase status (now recorded.1) in
        let g = vm_deleted sql now new_uuid json (now updated.1) in
        let id = recorded.0.0 in
        let s = insert_vm row in
        let (one, last, refers) =
          insert_vm-some row (sql.db w) (sql.db recorded.1) id
            (inserted-ok s w (sql.exec s w) (atomic.atomic s w) made) in
        let s1 = update_vms (λ j row. eqb j id) f in
        let (i, h1) =
          failure-ok s1 recorded.1 (sql.exec s1 recorded.1) (atomic.atomic s1 recorded.1) set in
        let two =
          updated-last row f (sql.db w) (sql.db recorded.1) id numbered one last (sql.db updated.1)
            i h1 in
        let s2 = update_vms (λ j row. eqb j id) g in
        let (k, h2) =
          failure-ok s2 updated.1 (sql.exec s2 updated.1) (atomic.atomic s2 updated.1) gone in
        let three =
          updated-last (f row) g (sql.db w) (sql.db updated.1) id numbered two last
            (sql.db deleted.1) k h2 in
        (
          g (f row),
          set-IsDeletedVm execution_id workload_id r phase status (now w) (now recorded.1)
              (now updated.1) (status == "ready"),
          refers,
          three,
          subst (λ d. IsNumbered d.vm_details) (sym three)
              (insert_row-IsNumbered (g (f row)) (sql.db w).vm_details numbered),
        )
