-- ===== src/Audit/Statements.antt =====
-- The SQL statements of `SQLiteAuditor` of internal/audit/audit.go, as what they do to the tables, and
-- the database that runs them.
use virtwork.Base.{
  ◌≡◌, ℕ, suc, String, Bool, true, false, Option, none, some, List, [], ◌∷◌, Result, ok, err, ◌==◌,
  ◌||◌, ◌&&◌, eqb, not, if◌then◌else◌,
}
use virtwork.Audit.{AuditError}
use virtwork.Audit.Tables.{
  AuditRow, WorkloadRow, VmRow, ResourceRow, EventRow, insert_row, update_where, update_id, has_id,
  Db,
}

-- A statement's meaning: the tables after it and the last id that it gave out, or none where it
-- violates a constraint of the schema.
abbrev pub Statement : Type 0
Statement = Db → Option (Db × ℕ)

-- The database as `database/sql` gives access to it: a statement may fail for any reason. The ids of
-- inserted rows are read without an error.
pub record Sql (W : Type 0) : Type 0 where
  pub db : W → Db
  pub exec : Statement → W → Result AuditError ℕ × W

-- What a run of a statement does, by its result: it is carried out whole, or it changes nothing.
abbrev pub Effect : {W : Type 0} → (W → Db) → Statement → W → Result AuditError ℕ × W → Type 0
Effect db s w (ok id, w') = s (db w) ≡ some (db w', id)
Effect db s w (err e, w') = db w' ≡ db w

-- What SQLite documents of a statement: it is atomic.
pub record IsAtomic {W : Type 0} (sql : Sql W) : Type 0 where
  pub atomic : (s : Statement) (w : W) → Effect sql.db s w (sql.exec s w)

abbrev pub bool_to_int : Bool → ℕ
bool_to_int true = 1
bool_to_int false = 0

abbrev pub null_if_empty : String → Option String
null_if_empty s = if s == "" then none else some s

-- is the run id there already? It is UNIQUE.
unfoldable pub has_run : String → List (ℕ × AuditRow) → Bool
has_run run [] = false
has_run run ((id, row) ∷ rows) = row.run_id == run || has_run run rows

abbrev pub has_items {ℓ} : {A : Type ℓ} → List A → Bool
has_items [] = false
has_items (x ∷ xs) = true

unfoldable pub is_in : String → List String → Bool
is_in s [] = false
is_in s (t ∷ ts) = s == t || is_in s ts

-- `SELECT id FROM audit_log WHERE run_id IN (…)` has this id
unfoldable pub is_run_of : List String → ℕ → List (ℕ × AuditRow) → Bool
is_run_of run_ids id [] = false
is_run_of run_ids id ((j, row) ∷ rows) =
    (eqb j id && is_in row.run_id run_ids) || is_run_of run_ids id rows

unfoldable pub insert_audit : AuditRow → Statement
insert_audit row db =
    if has_run row.run_id db.audit_log.rows
    then none
    else some (record db { audit_log = insert_row row db.audit_log }, suc db.audit_log.last_id)

-- no foreign key is violated, or they are not enforced
abbrev pub allows : Db → Bool → Bool
allows db present = not db.foreign_keys || present

unfoldable pub insert_workload : WorkloadRow → Statement
insert_workload row db =
    if allows db (has_id row.audit_id db.audit_log.rows)
    then some (
      record db { workload_details = insert_row row db.workload_details },
      suc db.workload_details.last_id,
    )
    else none

unfoldable pub insert_vm : VmRow → Statement
insert_vm row db =
    if allows db
      (has_id row.audit_id db.audit_log.rows && has_id row.workload_id db.workload_details.rows)
    then some (record db { vm_details = insert_row row db.vm_details }, suc db.vm_details.last_id)
    else none

unfoldable pub insert_resource : ResourceRow → Statement
insert_resource row db =
    if allows db (has_id row.audit_id db.audit_log.rows)
    then some (
      record db { resource_details = insert_row row db.resource_details },
      suc db.resource_details.last_id,
    )
    else none

-- a reference that is NULL or the id of a row
abbrev pub refers : {R : Type 0} → Option ℕ → List (ℕ × R) → Bool
refers none rows = true
refers (some id) rows = has_id id rows

unfoldable pub insert_event : EventRow → Statement
insert_event row db =
    if allows db (
      has_id row.audit_id db.audit_log.rows
      && (refers row.vm_id db.vm_details.rows && refers row.workload_id db.workload_details.rows))
    then some (record db { events = insert_row row db.events }, suc db.events.last_id)
    else none

abbrev pub update_audit : ℕ → (AuditRow → AuditRow) → Statement
update_audit id f db = some (record db { audit_log = update_id id f db.audit_log }, 0)

abbrev pub update_workload : ℕ → (WorkloadRow → WorkloadRow) → Statement
update_workload id f db =
    some (record db { workload_details = update_id id f db.workload_details }, 0)

abbrev pub update_vms : (ℕ → VmRow → Bool) → (VmRow → VmRow) → Statement
update_vms test f db = some (record db { vm_details = update_where test f db.vm_details }, 0)

abbrev pub update_resources : (ℕ → ResourceRow → Bool) → (ResourceRow → ResourceRow) → Statement
update_resources test f db =
    some (record db { resource_details = update_where test f db.resource_details }, 0)
