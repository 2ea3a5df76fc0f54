-- ===== src/Audit/Sqlite/Deletions.antt =====
-- Which rows the deletions by name mark.
use virtwork.Base.{
  ◌⊎◌, ℕ, String, true, Option, none, some, List, [], ◌∷◌, Result, ok, err, ◌≡◌, refl, ap, subst,
  In, Bool-cases, inl, inr, ◌==◌, ◌||◌, ◌&&◌, eq_iff, arith,
}
use virtwork.Audit.{AuditError}
use virtwork.Audit.Tables.{AuditRow, VmRow, ResourceRow, Db}
use virtwork.Audit.Statements.{Statement, Sql, Effect, IsAtomic, is_in, is_run_of}
use virtwork.Audit.Sqlite.{
  failure, vm_deleted, resource_deleted, mark_deleted_vms, mark_deleted_resources,
  mark_vms_deleted_by_name, mark_resources_deleted_by_name,
}
use virtwork.Audit.Sqlite.Marked.{
  Marked, IsOfRun, is_in-In, In-is_in, and_both, is_run_of-IsOfRun, IsOfRun-is_run_of,
  update_rows-Marked, Marked-none,
}

abbrev pub WantedVm : List (ℕ × AuditRow) → List String → String → List String → VmRow → Type 0
WantedVm audits names ns run_ids row =
    In row.vm_name names × (row.namespace ≡ ns) × IsOfRun audits run_ids row.audit_id

abbrev pub WantedResource :
    List (ℕ × AuditRow) → String → List String → String → List String → ResourceRow → Type 0
WantedResource audits type names ns run_ids row =
    In row.resource_name names
    × (row.namespace ≡ ns)
    × IsOfRun audits run_ids row.audit_id
    × ((type ≡ "") ⊎ (row.resource_type ≡ type))

module _ {W : Type 0} (sql : Sql W) (now : W → String) (new_uuid : W → String × W)
    (json : List String → String) (atomic : IsAtomic sql) where
  -- The rows of the VMs are marked, and the other tables are as before.
  abbrev pub VmsMarked : (names : List String) → String → List String → String → Db → Db → Type 0
  VmsMarked names ns run_ids time d d' =
      Marked (WantedVm d.audit_log.rows names ns run_ids) (vm_deleted sql now new_uuid json time)
        d.vm_details.rows d'.vm_details.rows
      × (d'.audit_log ≡ d.audit_log)
      × (d'.workload_details ≡ d.workload_details)
      × (d'.resource_details ≡ d.resource_details)
      × (d'.events ≡ d.events)

  -- the same for the resources of a type, or of any if it is empty
  abbrev pub ResourcesMarked :
      String → (names : List String) → String → List String → String → Db → Db → Type 0
  ResourcesMarked type names ns run_ids time d d' =
      Marked (WantedResource d.audit_log.rows type names ns run_ids)
        (resource_deleted sql now new_uuid json time) d.resource_details.rows
        d'.resource_details.rows
      × (d'.audit_log ≡ d.audit_log)
      × (d'.workload_details ≡ d.workload_details)
      × (d'.vm_details ≡ d.vm_details)
      × (d'.events ≡ d.events)

  -- nil, and the tables are changed so; or an error, and they are not changed
  abbrev pub DeletionMeans : (Db → Db → Type 0) → W → Option AuditError × W → Type 0
  DeletionMeans Changed w (none, v) = Changed (sql.db w) (sql.db v)
  DeletionMeans Changed w (some e, v) = sql.db v ≡ sql.db w

  vms_sound :
      (audits : List (ℕ × AuditRow)) (names : List String) (ns : String) (run_ids : List String)
      (row : VmRow)
      → (is_in row.vm_name names
          && ((row.namespace == ns) && is_run_of run_ids row.audit_id audits))
        ≡ true
      → WantedVm audits names ns run_ids row
  vms_sound audits names ns run_ids row h =
      let (name, others) = and_both _ _ h in
      let (space, run) = and_both _ _ others in
      (
        is_in-In row.vm_name names name,
        (eq_iff row.namespace ns).0 space,
        is_run_of-IsOfRun run_ids row.audit_id audits run,
      )

  vms_complete :
      (audits : List (ℕ × AuditRow)) (names : List String) (ns : String) (run_ids : List String)
      (row : VmRow)
      → WantedVm audits names ns run_ids row
      → (is_in row.vm_name names
          && ((row.namespace == ns) && is_run_of run_ids row.audit_id audits))
        ≡ true
  vms_complete audits names ns run_ids row (name, space, run) =
      rw
        (
          In-is_in row.vm_name names name,
          (eq_iff row.namespace ns).1 space,
          IsOfRun-is_run_of run_ids row.audit_id audits run,
        )
        refl

  db_after : Db → Option (Db × ℕ) → Db
  db_after d none = d
  db_after d (some (e, id)) = e

  Effect-DeletionMeans :
      (Changed : Db → Db → Type 0) (s : Statement) (w : W) (r : Result AuditError ℕ × W)
      → Changed (sql.db w) (db_after (sql.db w) (s (sql.db w)))
      → Effect sql.db s w r
      → DeletionMeans Changed w (failure r)
  unfolding db_after
  Effect-DeletionMeans Changed s w (err e, v) c h = h
  Effect-DeletionMeans Changed s w (ok id, v) c h =
      subst (Changed (sql.db w)) (ap (db_after (sql.db w)) h) c

  vms-VmsMarked :
      (names : List String) (ns : String) (run_ids : List String) (w : W)
      → DeletionMeans
          (VmsMarked names ns run_ids (now w))
          w
          (mark_vms_deleted_by_name sql now new_uuid json names ns run_ids w)
  unfolding mark_vms_deleted_by_name mark_deleted_vms db_after
  vms-VmsMarked [] ns run_ids w = (Marked-none _ _ _ (λ row h. h.0), refl, refl, refl, refl)
  vms-VmsMarked (n ∷ names) ns [] w = (Marked-none _ _ _ (λ row h. h.2.2), refl, refl, refl, refl)
  vms-VmsMarked (n ∷ names) ns (r ∷ run_ids) w =
      let s = mark_deleted_vms sql now new_uuid json (n ∷ names) ns (r ∷ run_ids) (now w) in
      Effect-DeletionMeans (VmsMarked (n ∷ names) ns (r ∷ run_ids) (now w)) s w (sql.exec s w)
        (
          update_rows-Marked _ _ _ _
              (λ id row. vms_sound (sql.db w).audit_log.rows (n ∷ names) ns (r ∷ run_ids) row)
              (λ id row. vms_complete (sql.db w).audit_log.rows (n ∷ names) ns (r ∷ run_ids) row),
          refl,
          refl,
          refl,
          refl,
        )
        (atomic.atomic s w)

  is_type :
      (type actual : String)
      → ((type == "") || (actual == type)) ≡ true
      → (type ≡ "") ⊎ (actual ≡ type)
  is_type type actual h = elim (Bool-cases (type == "")) [
    | inl e ↦ inl ((eq_iff type "").0 e)
    | inr n ↦ inr ((eq_iff actual type).0 (ground arith))
  ]

  type_is :
      (type actual : String)
      → (type ≡ "") ⊎ (actual ≡ type)
      → ((type == "") || (actual == type)) ≡ true
  type_is type actual (inl e) = rw ((eq_iff type "").1 e) refl
  type_is type actual (inr e) = let h = (eq_iff actual type).1 e in ground arith

  resources_sound :
      (audits : List (ℕ × AuditRow)) (type : String) (names : List String) (ns : String)
      (run_ids : List String) (row : ResourceRow)
      → (is_in row.resource_name names
          && ((row.namespace == ns)
              && (is_run_of run_ids row.audit_id audits
                  && ((type == "") || (row.resource_type == type)))))
        ≡ true
      → WantedResource audits type names ns run_ids row
  resources_sound audits type names ns run_ids row h =
      let (name, others) = and_both _ _ h in
      let (space, rest) = and_both _ _ others in
      let (run, kind) = and_both _ _ rest in
      (
        is_in-In row.resource_name names name,
        (eq_iff row.namespace ns).0 space,
        is_run_of-IsOfRun run_ids row.audit_id audits run,
        is_type type row.resource_type kind,
      )

  resources_complete :
      (audits : List (ℕ × AuditRow)) (type : String) (names : List String) (ns : String)
      (run_ids : List String) (row : ResourceRow)
      → WantedResource audits type names ns run_ids row
      → (is_in row.resource_name names
          && ((row.namespace == ns)
              && (is_run_of run_ids row.audit_id audits
                  && ((type == "") || (row.resource_type == type)))))
        ≡ true
  resources_complete audits type names ns run_ids row (name, space, run, kind) =
      rw
        (
          In-is_in row.resource_name names name,
          (eq_iff row.namespace ns).1 space,
          IsOfRun-is_run_of run_ids row.audit_id audits run,
          type_is type row.resource_type kind,
        )
        refl

  resources-ResourcesMarked :
      (type : String) (names : List String) (ns : String) (run_ids : List String) (w : W)
      → DeletionMeans
          (ResourcesMarked type names ns run_ids (now w))
          w
          (mark_resources_deleted_by_name sql now new_uuid json type names ns run_ids w)
  unfolding mark_resources_deleted_by_name mark_deleted_resources db_after
  resources-ResourcesMarked type [] ns run_ids w =
      (Marked-none _ _ _ (λ row h. h.0), refl, refl, refl, refl)
  resources-ResourcesMarked type (n ∷ names) ns [] w =
      (Marked-none _ _ _ (λ row h. h.2.2), refl, refl, refl, refl)
  resources-ResourcesMarked type (n ∷ names) ns (r ∷ run_ids) w =
      let s =
        mark_deleted_resources sql now new_uuid json type (n ∷ names) ns (r ∷ run_ids) (now w) in
      Effect-DeletionMeans (ResourcesMarked type (n ∷ names) ns (r ∷ run_ids) (now w)) s w
        (sql.exec s w)
        (
          update_rows-Marked _ _ _ _
              (λ id row.
                resources_sound (sql.db w).audit_log.rows type (n ∷ names) ns (r ∷ run_ids) row)
              (λ id row.
                resources_complete (sql.db w).audit_log.rows type (n ∷ names) ns (r ∷ run_ids) row),
          refl,
          refl,
          refl,
          refl,
        )
        (atomic.atomic s w)

  -- Where a statement is carried out whole or changes nothing: when MarkVMsDeletedByName returns nil,
  -- exactly the rows of VMs are marked as deleted, with the time of the call, that have one of the
  -- names, the namespace, and an execution with one of the run ids; all other rows and tables are as
  -- before. MarkResourcesDeletedByName does the same to the rows of resources that have the type too,
  -- or any type if the one that is asked for is empty. An error means that nothing has changed.
  pub mark_deleted_by_name-DeletionMeans :
      (type : String) (names : List String) (ns : String) (run_ids : List String) (w : W)
      → DeletionMeans
          (VmsMarked names ns run_ids (now w))
          w
          (mark_vms_deleted_by_name sql now new_uuid json names ns run_ids w)
        × DeletionMeans
            (ResourcesMarked type names ns run_ids (now w))
            w
            (mark_resources_deleted_by_name sql now new_uuid json type names ns run_ids w)
  mark_deleted_by_name-DeletionMeans type names ns run_ids w =
      (vms-VmsMarked names ns run_ids w, resources-ResourcesMarked type names ns run_ids w)
