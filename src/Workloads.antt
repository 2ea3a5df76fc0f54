-- ===== src/Workloads.antt =====
-- internal/workloads: the parameters, the registry and its suggestions.
pub mod Params
pub mod Contract
pub mod Registry
pub mod Distance
pub mod Suggest
pub mod BuiltIn
