-- ===== src/Tests/CloudInit.antt =====
-- A cloud-init document (internal/cloudinit/cloudinit.go).
use virtwork.Base.{String, [], ◌∷◌, Result, ok, err, ◌≡◌, refl, map}
use virtwork.Base.Assoc.{Assoc, insert, lookup}
use virtwork.Base.Text.Split.{join}
use virtwork.Workloads.Contract.{reserved_key}
use virtwork.CloudInit.{
  CloudConfigOpts, DocValue, build_cloud_config, after_check, first_reserved, copy_extra,
  print_config,
}
use virtwork.CloudInit.Merged.{CloudMeans, build_cloud_config-CloudMeans}

abbrev stress : CloudConfigOpts String
stress = record {
  packages = "stress-ng" ∷ [];
  write_files = [];
  run_cmd = ("systemctl" ∷ "daemon-reload" ∷ []) ∷ [];
  extra = ("timezone", "UTC") ∷ [];
  ssh_user = "virtwork";
  ssh_password = "secret";
  ssh_authorized_keys = [];
}

-- prints the keys
abbrev marshal : Assoc (DocValue String) → Result String String
marshal doc = ok (join "," (map (λ (e : String × DocValue String). e.0) doc))

printed_run :
    build_cloud_config marshal stress
    ≡ ok "#cloud-config\npackages,runcmd,users,ssh_pwauth,timezone"
unfolding build_cloud_config first_reserved after_check copy_extra print_config lookup insert join
printed_run = refl

refused_run :
    build_cloud_config marshal (record stress { extra = ("users", "root") ∷ [] })
    ≡ err (reserved_key "users")
unfolding build_cloud_config first_reserved after_check lookup
refused_run = refl

build_cloud_config-CloudMeans_example :
    CloudMeans marshal stress (build_cloud_config marshal stress)
build_cloud_config-CloudMeans_example = build_cloud_config-CloudMeans marshal stress ((λ i. i), tt)
