-- ===== src/Audit.antt =====
-- internal/audit: the records and the interface `Auditor`.
pub mod Tables
pub mod Statements
pub mod Sqlite
pub mod Query
pub mod Migrate
use virtwork.Base.{ℕ, String, Bool, Option, none, List}
use virtwork.Base.Int.{ℤ}
use virtwork.Config.{Config}

pub record WorkloadRecord : Type 0 where
  pub workload_type : String
  pub enabled : Bool
  pub vm_count : ℤ
  pub cpu_cores : ℤ
  pub memory : String
  pub has_data_disk : Bool
  pub data_disk_size : String
  pub requires_service : Bool

pub record VmRecord : Type 0 where
  pub vm_name : String
  pub vm_namespace : String
  pub vm_component : String
  pub vm_role : String
  pub vm_cpu_cores : ℤ
  pub vm_memory : String
  pub vm_container_disk_image : String
  pub vm_has_data_disk : Bool
  pub vm_data_disk_size : String

pub record ResourceRecord : Type 0 where
  pub resource_type : String
  pub resource_name : String
  pub resource_namespace : String

pub record EventRecord : Type 0 where
  pub vm_id : Option ℕ
  pub workload_id : Option ℕ
  pub event_type : String
  pub message : String
  pub error_detail : String

-- the text of an error
abbrev pub AuditError : Type 0
AuditError = String

-- The interface, over the world that the calls change. A call that makes a row returns its id, which
-- is read whether or not there is an error.
pub record Auditor (W : Type 0) : Type 0 where
  pub start_execution : String → Config → W → ((ℕ × String) × Option AuditError) × W
  pub complete_execution : ℕ → String → String → W → Option AuditError × W
  pub link_cleanup_to_runs : ℕ → List String → W → Option AuditError × W
  pub record_cleanup_counts :
      ℕ → (vms services secrets dvs pvcs : ℕ) → Bool → W → Option AuditError × W
  pub record_workload : ℕ → WorkloadRecord → W → (ℕ × Option AuditError) × W
  pub update_workload_status : ℕ → String → W → Option AuditError × W
  pub record_vm : ℕ → ℕ → VmRecord → W → (ℕ × Option AuditError) × W
  pub update_vm_status : ℕ → (phase status : String) → W → Option AuditError × W
  pub record_vm_deletion : ℕ → W → Option AuditError × W
  pub record_resource : ℕ → ResourceRecord → W → (ℕ × Option AuditError) × W
  pub record_resource_deletion : ℕ → W → Option AuditError × W
  pub mark_vms_deleted_by_name : List String → String → List String → W → Option AuditError × W
  pub mark_resources_deleted_by_name :
      String → List String → String → List String → W → Option AuditError × W
  pub record_event : ℕ → EventRecord → W → Option AuditError × W

-- `NoOpAuditor`, which records nothing
abbrev pub no_op : {W : Type 0} → Auditor W
no_op = record {
  start_execution = λ cmd cfg w. (((0, ""), none), w);
  complete_execution = λ id status summary w. (none, w);
  link_cleanup_to_runs = λ id run_ids w. (none, w);
  record_cleanup_counts = λ id vms services secrets dvs pvcs ns w. (none, w);
  record_workload = λ exec r w. ((0, none), w);
  update_workload_status = λ id status w. (none, w);
  record_vm = λ exec wl r w. ((0, none), w);
  update_vm_status = λ id phase status w. (none, w);
  record_vm_deletion = λ id w. (none, w);
  record_resource = λ exec r w. ((0, none), w);
  record_resource_deletion = λ id w. (none, w);
  mark_vms_deleted_by_name = λ names ns run_ids w. (none, w);
  mark_resources_deleted_by_name = λ type names ns run_ids w. (none, w);
  record_event = λ exec e w. (none, w);
}
