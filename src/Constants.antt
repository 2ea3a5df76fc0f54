-- ===== src/Constants.antt =====
-- internal/constants/constants.go
use virtwork.Base.{ℕ, String, ◌^◌}

abbrev pub default_disk_size : String
default_disk_size = "10Gi"

abbrev pub disk_name_container_disk : String
disk_name_container_disk = "containerdisk"

abbrev pub disk_name_cloud_init : String
disk_name_cloud_init = "cloudinitdisk"

abbrev pub disk_name_data : String
disk_name_data = "datadisk"

abbrev pub disk_bus_virtio : String
disk_bus_virtio = "virtio"

abbrev pub network_name_default : String
network_name_default = "default"

abbrev pub secret_key_userdata : String
secret_key_userdata = "userdata"

abbrev pub label_app_name : String
label_app_name = "app.kubernetes.io/name"

abbrev pub label_managed_by : String
label_managed_by = "app.kubernetes.io/managed-by"

abbrev pub label_component : String
label_component = "app.kubernetes.io/component"

abbrev pub managed_by_value : String
managed_by_value = "virtwork"

abbrev pub label_run_id : String
label_run_id = "virtwork/run-id"

-- 1 MiB
abbrev pub max_secret_data_size : ℕ
max_secret_data_size = 2 ^ 20
