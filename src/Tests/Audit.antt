-- ===== src/Tests/Audit.antt =====
-- The audit database (internal/audit/audit.go).
use virtwork.Base.{
  ℕ, String, true, false, Option, none, some, List, [], ◌∷◌, Result, ok, err, ◌≡◌, refl, arith,
}
use virtwork.Base.Int.{pos}
use virtwork.Base.Text.Split.{contains}
use virtwork.Audit.{AuditError, Auditor, WorkloadRecord, VmRecord}
use virtwork.Audit.Tables.{Db, VmRow, empty, insert_row, update_rows, has_id}
use virtwork.Audit.Statements.{
  Statement, Sql, Effect, IsAtomic, has_run, is_in, is_run_of, insert_audit, insert_workload,
  insert_vm,
}
use virtwork.Audit.Sqlite.{
  sqlite, start_execution, record_workload, record_vm, mark_vms_deleted_by_name,
  mark_resources_deleted_by_name, mark_deleted_vms, update_vm_status, record_vm_deletion,
}
use virtwork.Audit.Query.{build_mark_deleted_query}
use virtwork.Audit.Query.Fill.{fill, marked_statement, build_mark_deleted_query-fill}
use virtwork.Audit.Sqlite.Lifecycle.{IsDeletedVm, Refers, with_vms, deleted, record_vm-IsDeletedVm}
use virtwork.Audit.Tables.Keys.{IsNumbered}
use virtwork.Audit.Sqlite.Deletions.{
  DeletionMeans, VmsMarked, ResourcesMarked, mark_deleted_by_name-DeletionMeans,
}
use virtwork.Tests.Cleanup.{sample}

-- the result of a statement that violates no constraint
abbrev carried_out : Db → Option (Db × ℕ) → Result AuditError ℕ × Db
carried_out d none = (err "constraint failed", d)
carried_out d (some (d', id)) = (ok id, d')

-- a database that is its tables
abbrev tables : Sql Db
tables = record { db = λ d. d; exec = λ s d. carried_out d (s d) }

carried_out-Effect :
    (s : Statement) (d : Db) (o : Option (Db × ℕ)) → s d ≡ o → Effect (λ d. d) s d (carried_out d o)
carried_out-Effect s d none e = refl
carried_out-Effect s d (some (d', id)) e = e

tables-IsAtomic : IsAtomic tables
tables-IsAtomic = record { atomic = λ s d. carried_out-Effect s d (s d) refl }

abbrev noon : Db → String
noon d = "2026-01-01T12:00:00Z"

abbrev uuid : Db → String × Db
uuid d = ("r1", d)

abbrev json : List String → String
json l = "[]"

abbrev fresh : Db
fresh = record {
  audit_log = empty;
  workload_details = empty;
  vm_details = empty;
  resource_details = empty;
  events = empty;
  foreign_keys = true;
}

abbrev cpu : WorkloadRecord
cpu = record {
  workload_type = "cpu";
  enabled = true;
  vm_count = pos 1;
  cpu_cores = pos 2;
  memory = "2Gi";
  has_data_disk = false;
  data_disk_size = "";
  requires_service = false;
}

abbrev vm : VmRecord
vm = record {
  vm_name = "virtwork-cpu-0";
  vm_namespace = "virtwork";
  vm_component = "cpu";
  vm_role = "";
  vm_cpu_cores = pos 2;
  vm_memory = "2Gi";
  vm_container_disk_image = "quay.io/fedora";
  vm_has_data_disk = false;
  vm_data_disk_size = "10Gi";
}

abbrev auditor : Auditor Db
auditor = sqlite tables noon uuid json

-- a run with a workload that is recorded, and one VM for it
abbrev prepared : Db
prepared = (auditor.record_workload 1 cpu (auditor.start_execution "run" sample fresh).1).1

abbrev after_session : Db
after_session = (auditor.record_vm 1 1 vm prepared).1

-- what the rows say of the status
statuses : List (ℕ × VmRow) → List (ℕ × String)
statuses [] = []
statuses ((id, row) ∷ rows) = (id, row.status) ∷ statuses rows

-- One row is there: the one of a workload that does not exist is refused.
session_run :
    let d = (auditor.record_vm 1 7 vm after_session).1 in
    let e = (auditor.mark_vms_deleted_by_name ("virtwork-cpu-0" ∷ []) "virtwork" ("r1" ∷ []) d).1 in
    statuses e.vm_details.rows ≡ (1, "deleted") ∷ []
unfolding statuses start_execution record_workload record_vm mark_vms_deleted_by_name
    mark_deleted_vms insert_audit insert_workload insert_vm insert_row update_rows has_run has_id
    is_in is_run_of
session_run = refl

-- a second VM, beside the first one
record_vm-IsDeletedVm_example :
    (row : VmRow) × IsDeletedVm tables noon uuid json tables-IsAtomic 1 1 vm "Running" true
      (noon after_session)
      (noon after_session)
      (noon after_session)
      row
    × Refers tables noon uuid json tables-IsAtomic 1 1 after_session
    × ((deleted tables noon uuid json tables-IsAtomic 1 1 vm "Running" "ready" after_session).1
        ≡ with_vms tables noon uuid json tables-IsAtomic after_session
            (insert_row row after_session.vm_details))
    × IsNumbered
        (deleted tables noon uuid json tables-IsAtomic 1 1 vm "Running" "ready"
          after_session).1.vm_details
unfolding start_execution record_workload record_vm update_vm_status record_vm_deletion insert_audit
    insert_workload insert_vm insert_row has_run has_id
record_vm-IsDeletedVm_example =
    record_vm-IsDeletedVm tables noon uuid json tables-IsAtomic 1 1 vm "Running" "ready"
      after_session (omega arith, tt) refl refl refl

abbrev names : List String
names = "virtwork-cpu-0" ∷ []

mark_deleted_by_name-DeletionMeans_example :
    DeletionMeans tables noon uuid json tables-IsAtomic
      (VmsMarked tables noon uuid json tables-IsAtomic names "virtwork"
        ("r1" ∷ [])
        (noon after_session))
      after_session
      (mark_vms_deleted_by_name tables noon uuid json names "virtwork" ("r1" ∷ []) after_session)
    × DeletionMeans tables noon uuid json tables-IsAtomic
        (ResourcesMarked tables noon uuid json tables-IsAtomic "Secret" names "virtwork"
          ("r1" ∷ [])
          (noon after_session))
        after_session
        (mark_resources_deleted_by_name tables noon uuid json "Secret" names "virtwork"
          ("r1" ∷ [])
          after_session)
mark_deleted_by_name-DeletionMeans_example =
    mark_deleted_by_name-DeletionMeans tables noon uuid json tables-IsAtomic "Secret" names
      "virtwork" ("r1" ∷ []) after_session

build_mark_deleted_query-fill_example :
    fill
      (build_mark_deleted_query "resource_details" "resource_name" "Secret"
        ("a" ∷ "b" ∷ [])
        "virtwork"
        ("r1" ∷ [])
        "noon").0
      (build_mark_deleted_query "resource_details" "resource_name" "Secret"
        ("a" ∷ "b" ∷ [])
        "virtwork"
        ("r1" ∷ [])
        "noon").1
    ≡ marked_statement "resource_details" "resource_name" "Secret"
        ("a" ∷ "b" ∷ [])
        "virtwork"
        ("r1" ∷ [])
        "noon"
unfolding contains
build_mark_deleted_query-fill_example =
    build_mark_deleted_query-fill "resource_details" "resource_name" "Secret" ("a" ∷ "b" ∷ [])
      "virtwork" ("r1" ∷ []) "noon" refl refl

filled :
    (build_mark_deleted_query "vm_details" "vm_name" "" ("a" ∷ []) "virtwork" ("r1" ∷ []) "noon").1
    ≡ "noon" ∷ "a" ∷ "virtwork" ∷ "r1" ∷ []
unfolding build_mark_deleted_query
filled = refl
