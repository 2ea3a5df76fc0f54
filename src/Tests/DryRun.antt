-- ===== src/Tests/DryRun.antt =====
-- A dry run (`printDryRun` of internal/orchestrator/orchestrator.go).
use virtwork.Base.{String, Bool, List, [], ◌∷◌, ◌≡◌, refl, Result, ok, length, map, not, ◌==◌}
use virtwork.Base.Int.{pos}
use virtwork.Vm.{build_vm_spec}
use virtwork.Constants.{label_app_name}
use virtwork.Orchestrator.{VmPlan}
use virtwork.Orchestrator.Objects.{with_secret}
use virtwork.Orchestrator.Create.Services.{run_services}
use virtwork.Orchestrator.DryRun.{
  Document, service_document, secret_document, vm_document, print_dry_run, print_services,
  print_service, print_secrets, print_vms, print_vm, print_document,
}
use virtwork.Orchestrator.DryRun.Prints.{
  DryRunMeans, ServicesThen, SecretsThen, VmsThen, End, print_dry_run-DryRunMeans,
}
use virtwork.Tests.Cleanup.{sample}
use virtwork.Tests.Creation.{instances}

abbrev pub plan : VmPlan
plan = record {
  workload_name = "network";
  vm_name = "virtwork-network-server-0";
  component = "network";
  role = "server";
  vm_spec = record {
    name = "virtwork-network-server-0";
    namespace = "virtwork";
    container_disk_image = "quay.io/fedora";
    cloud_init_userdata = "#cloud-config";
    cloud_init_secret_name = "";
    cpu_cores = pos 2;
    memory = "2Gi";
    labels = (label_app_name, "virtwork-network") ∷ [];
    extra_disks = [];
    extra_volumes = [];
    data_volume_templates = [];
  };
}

abbrev pub is_quantity : String → Bool
is_quantity s = not (s == "")

abbrev marshal : Document → Result String String
marshal (service_document workload svc) = ok svc.name
marshal (secret_document workload s) = ok s.name
marshal (vm_document vm_name workload vm) = ok vm.name

-- the texts that were printed, the last one first
abbrev write : Document → String → List String → List String
write d text printed = text ∷ printed

print_run : print_dry_run is_quantity marshal write sample "r1" (plan ∷ []) instances [] ≡ (
  ok (1, 1),
  "virtwork-network-server-0" ∷ "virtwork-network-server-0-cloudinit" ∷ "virtwork-network-server"
      ∷ [],
)
unfolding print_dry_run print_services print_service print_secrets print_vms print_vm print_document
    build_vm_spec
print_run = refl

print_dry_run-DryRunMeans_example :
    DryRunMeans is_quantity marshal write
      (ServicesThen "r1" instances (
        SecretsThen sample "r1"
          (plan ∷ [])
          (VmsThen is_quantity (map with_secret (plan ∷ [])) End)))
      (length (run_services "r1" instances), 1)
      []
      (print_dry_run is_quantity marshal write sample "r1" (plan ∷ []) instances [])
print_dry_run-DryRunMeans_example =
    print_dry_run-DryRunMeans is_quantity marshal write sample "r1" (plan ∷ []) instances []
