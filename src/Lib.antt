-- ===== src/Lib.antt =====
-- Virtwork runs synthetic workloads in virtual machines on a Kubernetes cluster with KubeVirt. The
-- command `run` plans the VMs of the workloads that are asked for and creates their services,
-- secrets and VMs, all labelled with the id of the run; `cleanup` finds objects by these labels and
-- deletes them. Both record what they do in an audit database.
--
-- The files and the code that they model:
-- - Constants: the names and labels of internal/constants/constants.go.
-- - Config: `Config`, `WorkloadConfig` and `Validate` of internal/config/config.go; Config.Params
--   is its `ParseParams`.
-- - Kube: the Kubernetes objects that the program builds, with the fields that it sets. Kube.Client
--   is the interface of the controller-runtime client, which is a library's: each call takes and
--   returns the world `W`, which stands for the cluster, the network and the clock, and may fail
--   with any of the errors that the program distinguishes. Records state what the API documents of
--   lists (`ListsSelected`, `ListsFound`), of deletions (`DeletesSelected`: an object that is
--   deleted is gone or has a deletion timestamp and waits for its finalizers) and of a namespace's
--   labels (`LabelsNamespace`: a merge patch sends only the difference from its base). Kube.Memory
--   is a cluster in memory that keeps these promises; the examples run on it.
-- - Vm: internal/vm/vm.go. `build_vm_spec` is `BuildVMSpec`, Vm.Retry is `retryOnTransient`, where
--   the context and the timer are a record over the world, and Vm.Calls has `CreateVM` and
--   `DeleteVM`.
-- - Cleanup: internal/cleanup/cleanup.go. `cleanup_all` is `CleanupAll`: its five sections for
--   virtual machines, services, secrets, data volumes and claims have the same text for another
--   kind, and are one definition over the list `cleanup_order`. `preview_cleanup` is
--   `PreviewCleanup`.
-- - Workloads: internal/workloads. Workloads.Params has the types of parameters (params.go),
--   Workloads.Contract the interface `Workload` (workload.go), Workloads.Registry the registry
--   (registry.go), Workloads.Distance and Workloads.Suggest its "did you mean?". Workloads.BuiltIn
--   has the roles and services of the workloads network and tps.
-- - Catalog: the manifests of catalog entries (internal/workloads/catalog.go) and the storage that
--   generic.go and generic_multi.go build from them.
-- - Orchestrator: internal/orchestrator. Orchestrator.Plan and Orchestrator.PlanVms are `planVMs`,
--   Orchestrator itself has the plans and `NamespaceDataVolumes` (types.go).
-- - Orchestrator.Create: `createResources` of orchestrator.go, the namespace and the services of a
--   run.
-- - Orchestrator.DryRun: `printDryRun` of orchestrator.go. The YAML library is an argument
--   `marshal`, and `write` prints a document with its text.
-- - Orchestrator.Launch: `createSecrets` and `createVMs` of orchestrator.go, whose goroutines
--   create the secrets and the VMs of the plans. Goroutines has the goroutines of a group: a
--   goroutine is a list of calls that each take one step of the world, the steps of the group and
--   of other clients of the cluster are interleaved in any order, and `Waits` is what `errgroup`
--   documents of `Wait`.
-- - Orchestrator.Run: `Run` of orchestrator.go, as a relation between the world before, the result
--   and the world after, since its goroutines may be interleaved in any order. Orchestrator.Ready
--   is its `waitForReadiness`.
-- - Orchestrator.Execute: `CleanupOrchestrator` (internal/orchestrator/cleanup.go), a cleanup with
--   its entries in the audit database.
-- - Resources: internal/resources/resources.go; `DeleteManagedSecrets` and `DeleteManagedServices`
--   have the same text for another kind and are `delete_managed`.
-- - CloudInit: `BuildCloudConfig` of internal/cloudinit/cloudinit.go, with the YAML library as an
--   argument.
-- - Wait: `WaitForVMReady` of internal/wait/wait.go, with the clock as a function of the world.
--   Wait.Group is `WaitForAllVMsReady`, with a goroutine for each VM that takes the steps of
--   `WaitForVMReady`.
-- - Audit: the records and the interface `Auditor` of internal/audit. Audit.Tables has the tables
--   of schema.go, Audit.Statements what the SQL statements do to them, and Audit.Sqlite the methods
--   of `SQLiteAuditor` (audit.go) that run them. Audit.Query is the text and the arguments that
--   `buildMarkDeletedQuery` builds. Audit.Migrate is `migrateDB` (migrate.go).
-- - Base: shared tests, lists, results, integers, association lists for Go's maps, and the text
--   functions of Go's library as far as the program uses them.
-- - Tests: runs on concrete inputs.
--
-- How the code is read. An error is a value of a data type with a constructor for each message; the
-- text of the message is not modelled, nor is what is logged. A Go map is an association list, and
-- a loop over a map runs in the order of the list: what is proved holds for every order. A Go `int`
-- that can be negative is an integer, the conversion of the cores to `uint32` wraps around at 2 ^
-- 32, and the timeout in nanoseconds is an `int64` product that wraps around. A call of an
-- interface's method that only returns data is the data. `resource.ParseQuantity` is a library's: a
-- test `is_quantity` on texts, which every definition that needs it takes as an argument. The
-- quoting verb of `fmt` and the texts of events are arguments as well.
--
-- Bounds. The loop of `retryOnTransient` is recursion on the rounds that are left, which are
-- maxRetries + 1 before the first: the code's own bound on `attempt`, so no run is cut short. The
-- loop of `WaitForVMReady` has no bound of its own but the clock and is recursion on fuel: it gets
-- one round more than there are intervals in a time longer than the timeout, after which the
-- deadline has passed if a pause takes at least its interval. The goroutines of
-- `WaitForAllVMsReady` have fuel for the same reason, and only runs in which it suffices are runs
-- of the function. All other loops run over lists or over a count.
--
-- Goroutines. A call of the packages vm and resources is one step of its goroutine, so what other
-- goroutines do comes before or after it. The limit of a group only leaves some interleavings out.
-- The cancelled context of a group is a part of the world that the calls read. The goroutines of
-- `WaitForAllVMsReady` write their results to a map under a mutex: these writes are not steps of
-- the model, and the map in the end is any list with an entry for each goroutine's result
-- (`AreResults`).
--
-- The database. A statement of SQL is a function from the tables to the tables and the id that it
-- gives out, or none where a constraint of the schema is violated. Whether foreign keys are
-- enforced is a part of the tables' record (`foreign_keys`): the program opens the database with
-- the pragma that turns them on. That a statement is carried out whole or not at all is what SQLite
-- documents, and is a hypothesis (`IsAtomic`, and `IsDurable` for the transactions of the
-- migrations). The clock, the uuid and the text of a JSON list are arguments.
--
-- Not modelled: opening and closing the audit database, the unit files and scripts of the built-in
-- workloads, a panic of a goroutine, the loading of configurations and catalog entries from files,
-- the connection to the cluster and the command line.
pub mod Base
pub mod Constants
pub mod Kube
pub mod Config
pub mod Cleanup
pub mod CloudInit
pub mod Audit
pub mod Orchestrator
pub mod Catalog
pub mod Resources
pub mod Wait
pub mod Tests
pub mod Vm
pub mod Workloads
pub mod Goroutines
