-- ===== src/Tests.antt =====
-- Runs of the definitions on concrete inputs, and the theorems applied there.
mod Cleanup
mod Vm
mod Waiting
mod Params
mod Workloads
mod Planning
mod Creation
mod DryRun
mod Launch
mod Audit
mod Migrate
mod Resources
mod Run
mod CloudInit
