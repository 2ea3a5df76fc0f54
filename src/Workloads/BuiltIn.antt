-- ===== src/Workloads/BuiltIn.antt =====
-- internal/workloads/network.go and tps.go: the roles and the services of the built-in workloads that
-- have a server and a client.
use virtwork.Base.{ℕ, String, List, [], ◌∷◌}
use virtwork.Config.{WorkloadConfig}
use virtwork.Constants.{label_app_name, label_managed_by, label_component, managed_by_value}
use virtwork.Kube.{Labels, Service, ServicePort, tcp}
use virtwork.Workloads.Params.{ParamSchema, param_int, param_string}
use virtwork.Workloads.Contract.{RoleSpec, base_vm_count}

abbrev pub network_param_schema : ParamSchema
network_param_schema =
    record {
      key = "parallel-streams";
      type = param_int;
      default = "4";
      desc = "Number of parallel iperf3 streams (-P)";
    }
    ∷ record {
      key = "test-duration";
      type = param_int;
      default = "60";
      desc = "Duration in seconds per iperf3 test (-t)";
    }
    ∷ []

abbrev pub tps_param_schema : ParamSchema
tps_param_schema =
    record {
      key = "file-size";
      type = param_string;
      default = "10M";
      desc = "Size of the test file for HTTP transfer (e.g. 10M, 1G)";
    }
    ∷ record {
      key = "iterations";
      type = param_int;
      default = "30";
      desc = "Number of test iterations per cycle";
    }
    ∷ record {
      key = "duration";
      type = param_int;
      default = "60";
      desc = "Duration in seconds per netperf test (-l)";
    }
    ∷ []

-- `RoleDistribution` of both: `max(1, vm-count)` servers and as many clients
abbrev pub server_and_client : WorkloadConfig → List RoleSpec
server_and_client c =
    record { role = "server"; role_vm_count = base_vm_count c }
    ∷ record { role = "client"; role_vm_count = base_vm_count c }
    ∷ []

abbrev pub tcp_port : String → ℕ → ServicePort
tcp_port name port = record { name = name; port = port; target_port = port; protocol = tcp }

abbrev pub component_labels : String → Labels
component_labels component =
    (label_app_name, managed_by_value)
    ∷ (label_managed_by, managed_by_value)
    ∷ (label_component, component)
    ∷ []

-- `NetworkWorkload.ServiceSpec`
abbrev pub network_service : String → Service
network_service namespace = record {
  name = "virtwork-iperf3-server";
  namespace = namespace;
  labels = component_labels "network";
  selector = ("virtwork/role", "server") ∷ [];
  ports = tcp_port "iperf3" 5201 ∷ [];
}

-- `TPSWorkload.ServiceSpec`
abbrev pub tps_service : String → Service
tps_service namespace = record {
  name = "virtwork-tps-server";
  namespace = namespace;
  labels = component_labels "tps";
  selector = ("virtwork/role", "server") ∷ (label_component, "tps") ∷ [];
  ports =
      tcp_port "netperf-ctrl" 12865
      ∷ tcp_port "netperf-data" 12866
      ∷ tcp_port "http-data" 8080
      ∷ [];
}
