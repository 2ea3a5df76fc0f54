-- ===== src/Audit/Sqlite.antt =====
-- `SQLiteAuditor` of internal/audit/audit.go: its methods, each of which runs one SQL statement.
pub mod Lifecycle
pub mod Marked
pub mod Deletions
use virtwork.Base.{
  ℕ, String, Bool, true, false, Option, none, some, List, [], ◌∷◌, Result, ok, err, ◌==◌, ◌||◌,
  ◌&&◌, not, eqb, if◌then◌else◌,
}
use virtwork.Base.Assoc.{keys}
use virtwork.Base.Text.Split.{join}
use virtwork.Config.{Config}
use virtwork.Audit.{AuditError, Auditor, WorkloadRecord, VmRecord, ResourceRecord, EventRecord}
use virtwork.Audit.Tables.{AuditRow, WorkloadRow, VmRow, ResourceRow, EventRow, Db}
use virtwork.Audit.Statements.{
  Statement, Sql, bool_to_int, null_if_empty, has_items, is_in, is_run_of, insert_audit,
  insert_workload, insert_vm, insert_resource, insert_event, update_audit, update_workload,
  update_vms, update_resources,
}

-- the error of a statement
abbrev pub failure : {W : Type 0} → Result AuditError ℕ × W → Option AuditError × W
failure (ok id, w) = (none, w)
failure (err e, w) = (some e, w)

-- the id of the row that was inserted, and 0 beside an error
abbrev pub inserted : {W : Type 0} → Result AuditError ℕ × W → (ℕ × Option AuditError) × W
inserted (ok id, w) = ((id, none), w)
inserted (err e, w) = ((0, some e), w)

abbrev pub started :
    {W : Type 0} → String → Result AuditError ℕ × W → ((ℕ × String) × Option AuditError) × W
started run (ok id, w) = (((id, run), none), w)
started run (err e, w) = (((0, ""), some e), w)

-- `now` is the clock's time, as text; `new_uuid` is the uuid package's, and `json` the print of a list
-- of texts.
module _ {W : Type 0} (sql : Sql W) (now : W → String) (new_uuid : W → String × W)
    (json : List String → String) where
  abbrev pub audit_row : String → String → Config → String → AuditRow
  audit_row run cmd cfg time = record {
    run_id = run;
    linked_run_ids = none;
    command = cmd;
    status = "in_progress";
    kubeconfig_path = null_if_empty cfg.kubeconfig_path;
    cluster_context = null_if_empty cfg.cluster_context;
    namespace = cfg.namespace;
    container_disk_image = cfg.container_disk_image;
    default_cpu_cores = cfg.cpu_cores;
    default_memory = cfg.memory;
    data_disk_size = cfg.data_disk_size;
    workloads_csv = join "," (keys cfg.workloads);
    dry_run = bool_to_int cfg.dry_run;
    ssh_auth_configured =
        bool_to_int (not (cfg.ssh_password == "") || has_items cfg.ssh_authorized_keys);
    cleanup_mode = null_if_empty cfg.cleanup_mode;
    wait_for_ready = bool_to_int cfg.wait_for_ready;
    ready_timeout_seconds = cfg.ready_timeout_seconds;
    deleted = none;
    started_at = time;
    completed_at = none;
    error_summary = none;
  }

  unfoldable pub start_execution : String → Config → W → ((ℕ × String) × Option AuditError) × W
  start_execution cmd cfg w =
      let (run, w') = new_uuid w in
      started run (sql.exec (insert_audit (audit_row run cmd cfg (now w'))) w')

  unfoldable pub complete_execution : ℕ → (status summary : String) → W → Option AuditError × W
  complete_execution id status summary w = failure (
      sql.exec
        (update_audit id (λ row. record row {
          status = status;
          completed_at = some (now w);
          error_summary = null_if_empty summary;
        }))
        w)

  unfoldable pub link_cleanup_to_runs : ℕ → List String → W → Option AuditError × W
  link_cleanup_to_runs id run_ids w =
      failure
        (sql.exec (update_audit id (λ row. record row { linked_run_ids = some (json run_ids) })) w)

  unfoldable pub record_cleanup_counts :
      ℕ → (vms services secrets dvs pvcs : ℕ) → Bool → W → Option AuditError × W
  record_cleanup_counts id vms services secrets dvs pvcs namespace_deleted w = failure (
      sql.exec
        (update_audit id (λ row. record row {
          deleted = some (vms, services, secrets, dvs, pvcs, bool_to_int namespace_deleted);
        }))
        w)

  unfoldable pub record_workload : ℕ → WorkloadRecord → W → (ℕ × Option AuditError) × W
  record_workload execution_id r w = inserted (
      sql.exec
        (insert_workload (record {
          audit_id = execution_id;
          workload_type = r.workload_type;
          enabled = bool_to_int r.enabled;
          vm_count = r.vm_count;
          cpu_cores = r.cpu_cores;
          memory = r.memory;
          has_data_disk = bool_to_int r.has_data_disk;
          data_disk_size = null_if_empty r.data_disk_size;
          requires_service = bool_to_int r.requires_service;
          status = "pending";
        }))
        w)

  unfoldable pub update_workload_status : ℕ → String → W → Option AuditError × W
  update_workload_status id status w =
      failure (sql.exec (update_workload id (λ row. record row { status = status })) w)

  abbrev pub vm_row : ℕ → ℕ → VmRecord → String → VmRow
  vm_row execution_id workload_id r time = record {
    audit_id = execution_id;
    workload_id = workload_id;
    vm_name = r.vm_name;
    namespace = r.vm_namespace;
    component = r.vm_component;
    role = null_if_empty r.vm_role;
    cpu_cores = r.vm_cpu_cores;
    memory = r.vm_memory;
    container_disk_image = r.vm_container_disk_image;
    has_data_disk = bool_to_int r.vm_has_data_disk;
    data_disk_size = null_if_empty r.vm_data_disk_size;
    phase = none;
    status = "created";
    created_at = time;
    ready_at = none;
    deleted_at = none;
  }

  unfoldable pub record_vm : ℕ → ℕ → VmRecord → W → (ℕ × Option AuditError) × W
  record_vm execution_id workload_id r w =
      inserted (sql.exec (insert_vm (vm_row execution_id workload_id r (now w))) w)

  -- the columns that are set, by whether the status is "ready"
  abbrev pub status_set : Bool → (phase status time : String) → VmRow → VmRow
  status_set true phase status time row = record row {
    phase = some phase;
    status = status;
    ready_at = some time;
  }
  status_set false phase status time row = record row { phase = some phase; status = status }

  unfoldable pub update_vm_status : ℕ → (phase status : String) → W → Option AuditError × W
  update_vm_status id phase status w = failure (
      sql.exec
        (update_vms (λ j row. eqb j id) (status_set (status == "ready") phase status (now w))) w)

  abbrev pub vm_deleted : String → VmRow → VmRow
  vm_deleted time row = record row { status = "deleted"; deleted_at = some time }

  abbrev pub resource_deleted : String → ResourceRow → ResourceRow
  resource_deleted time row = record row { status = "deleted"; deleted_at = some time }

  unfoldable pub record_vm_deletion : ℕ → W → Option AuditError × W
  record_vm_deletion id w =
      failure (sql.exec (update_vms (λ j row. eqb j id) (vm_deleted (now w))) w)

  unfoldable pub record_resource : ℕ → ResourceRecord → W → (ℕ × Option AuditError) × W
  record_resource execution_id r w = inserted (
      sql.exec
        (insert_resource (record {
          audit_id = execution_id;
          resource_type = r.resource_type;
          resource_name = r.resource_name;
          namespace = r.resource_namespace;
          status = "created";
          created_at = now w;
          deleted_at = none;
        }))
        w)

  unfoldable pub record_resource_deletion : ℕ → W → Option AuditError × W
  record_resource_deletion id w =
      failure (sql.exec (update_resources (λ j row. eqb j id) (resource_deleted (now w))) w)

  -- the query of `buildMarkDeletedQuery` for the table vm_details
  unfoldable pub mark_deleted_vms :
      (names : List String) → String → List String → String → Statement
  mark_deleted_vms names namespace run_ids time db =
      update_vms
        (λ id row.
          is_in row.vm_name names
          && ((row.namespace == namespace) && is_run_of run_ids row.audit_id db.audit_log.rows))
        (vm_deleted time) db

  -- the query of `buildMarkDeletedQuery` for the table resource_details; an empty type is any
  unfoldable pub mark_deleted_resources :
      String → (names : List String) → String → List String → String → Statement
  mark_deleted_resources type names namespace run_ids time db =
      update_resources
        (λ id row.
          is_in row.resource_name names
          && ((row.namespace == namespace)
              && (is_run_of run_ids row.audit_id db.audit_log.rows
                  && ((type == "") || (row.resource_type == type)))))
        (resource_deleted time) db

  unfoldable pub mark_vms_deleted_by_name :
      List String → String → List String → W → Option AuditError × W
  mark_vms_deleted_by_name names namespace run_ids w =
      if not (has_items names) || not (has_items run_ids)
      then (none, w)
      else failure (sql.exec (mark_deleted_vms names namespace run_ids (now w)) w)

  unfoldable pub mark_resources_deleted_by_name :
      String → List String → String → List String → W → Option AuditError × W
  mark_resources_deleted_by_name type names namespace run_ids w =
      if not (has_items names) || not (has_items run_ids)
      then (none, w)
      else failure (sql.exec (mark_deleted_resources type names namespace run_ids (now w)) w)

  unfoldable pub record_event : ℕ → EventRecord → W → Option AuditError × W
  record_event execution_id e w = failure (
      sql.exec
        (insert_event (record {
          audit_id = execution_id;
          vm_id = e.vm_id;
          workload_id = e.workload_id;
          event_type = e.event_type;
          message = null_if_empty e.message;
          error_detail = null_if_empty e.error_detail;
          occurred_at = now w;
        }))
        w)

  abbrev pub sqlite : Auditor W
  sqlite = record {
    start_execution = start_execution;
    complete_execution = complete_execution;
    link_cleanup_to_runs = link_cleanup_to_runs;
    record_cleanup_counts = record_cleanup_counts;
    record_workload = record_workload;
    update_workload_status = update_workload_status;
    record_vm = record_vm;
    update_vm_status = update_vm_status;
    record_vm_deletion = record_vm_deletion;
    record_resource = record_resource;
    record_resource_deletion = record_resource_deletion;
    mark_vms_deleted_by_name = mark_vms_deleted_by_name;
    mark_resources_deleted_by_name = mark_resources_deleted_by_name;
    record_event = record_event;
  }
