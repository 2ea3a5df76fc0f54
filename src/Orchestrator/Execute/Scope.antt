-- ===== src/Orchestrator/Execute/Scope.antt =====
-- What a cleanup writes into the audit database.
use virtwork.Config.{Config}
use virtwork.Kube.Client.{Client}
