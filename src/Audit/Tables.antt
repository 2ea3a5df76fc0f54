-- ===== src/Audit/Tables.antt =====
-- The tables of internal/audit/schema.go, with the rows that internal/audit/audit.go writes.
pub mod Keys
use virtwork.Base.{
  ℕ, suc, String, Bool, true, false, Option, none, some, List, [], ◌∷◌, map, ◌||◌, eqb,
  if◌then◌else◌,
}
use virtwork.Base.Int.{ℤ}

pub record AuditRow : Type 0 where
  pub run_id : String
  pub linked_run_ids : Option String
  pub command : String
  pub status : String
  pub kubeconfig_path : Option String
  pub cluster_context : Option String
  pub namespace : String
  pub container_disk_image : String
  pub default_cpu_cores : ℤ
  pub default_memory : String
  pub data_disk_size : String
  pub workloads_csv : String
  pub dry_run : ℕ
  pub ssh_auth_configured : ℕ
  pub cleanup_mode : Option String
  pub wait_for_ready : ℕ
  pub ready_timeout_seconds : ℤ
  -- the counts of a cleanup, which are NULL until they are recorded
  pub deleted : Option (ℕ × ℕ × ℕ × ℕ × ℕ × ℕ)
  pub started_at : String
  pub completed_at : Option String
  pub error_summary : Option String

pub record WorkloadRow : Type 0 where
  pub audit_id : ℕ
  pub workload_type : String
  pub enabled : ℕ
  pub vm_count : ℤ
  pub cpu_cores : ℤ
  pub memory : String
  pub has_data_disk : ℕ
  pub data_disk_size : Option String
  pub requires_service : ℕ
  pub status : String

pub record VmRow : Type 0 where
  pub audit_id : ℕ
  pub workload_id : ℕ
  pub vm_name : String
  pub namespace : String
  pub component : String
  pub role : Option String
  pub cpu_cores : ℤ
  pub memory : String
  pub container_disk_image : String
  pub has_data_disk : ℕ
  pub data_disk_size : Option String
  pub phase : Option String
  pub status : String
  pub created_at : String
  pub ready_at : Option String
  pub deleted_at : Option String

pub record ResourceRow : Type 0 where
  pub audit_id : ℕ
  pub resource_type : String
  pub resource_name : String
  pub namespace : String
  pub status : String
  pub created_at : String
  pub deleted_at : Option String

pub record EventRow : Type 0 where
  pub audit_id : ℕ
  pub vm_id : Option ℕ
  pub workload_id : Option ℕ
  pub event_type : String
  pub message : Option String
  pub error_detail : Option String
  pub occurred_at : String

-- A table whose ids are `INTEGER PRIMARY KEY AUTOINCREMENT`: the rows with their ids, the last one
-- first, and the last id that was given out.
pub record Table (R : Type 0) : Type 0 where
  pub rows : List (ℕ × R)
  pub last_id : ℕ

module _ {R : Type 0} where
  abbrev pub empty : Table R
  empty = record { rows = []; last_id = 0 }

  -- `INSERT`
  unfoldable pub insert_row : R → Table R → Table R
  insert_row row t = record { rows = (suc t.last_id, row) ∷ t.rows; last_id = suc t.last_id }

  -- `UPDATE`, by the id and the row
  unfoldable pub update_rows : (ℕ → R → Bool) → (R → R) → List (ℕ × R) → List (ℕ × R)
  update_rows test f [] = []
  update_rows test f ((id, row) ∷ rows) =
      (id, (if test id row then f row else row)) ∷ update_rows test f rows

  abbrev pub update_where : (ℕ → R → Bool) → (R → R) → Table R → Table R
  update_where test f t = record t { rows = update_rows test f t.rows }

  -- `… WHERE id = ?`
  abbrev pub update_id : ℕ → (R → R) → Table R → Table R
  update_id id f t = update_where (λ j row. eqb j id) f t

  -- a row with this id is there
  unfoldable pub has_id : ℕ → List (ℕ × R) → Bool
  has_id id [] = false
  has_id id ((j, row) ∷ rows) = eqb j id || has_id id rows

pub record Db : Type 0 where
  pub audit_log : Table AuditRow
  pub workload_details : Table WorkloadRow
  pub vm_details : Table VmRow
  pub resource_details : Table ResourceRow
  pub events : Table EventRow
  -- whether the connection enforces foreign keys: the pragma of the name it was opened with
  pub foreign_keys : Bool
