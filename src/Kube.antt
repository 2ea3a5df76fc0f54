-- ===== src/Kube.antt =====
-- The Kubernetes objects that the program builds: the fields of the k8s.io, kubevirt.io and CDI
-- types that it sets. A parsed `resource.Quantity` is represented by the text it was parsed from.
pub mod Client
pub mod Memory
use virtwork.Base.{ℕ, String, Bool, Option, List}
use virtwork.Base.Assoc.{Assoc}

abbrev pub Labels : Type 0
Labels = Assoc String

-- `kubevirtv1.Disk` with a `DiskTarget`
pub record Disk : Type 0 where
  pub name : String
  pub serial : String
  pub bus : String

-- `kubevirtv1.VolumeSource`
pub data VolumeSource : Type 0 where
  container_disk : String → VolumeSource
  cloud_init_no_cloud : String → VolumeSource
  data_volume : String → VolumeSource

pub record Volume : Type 0 where
  pub name : String
  pub source : VolumeSource

-- `kubevirtv1.DataVolumeTemplateSpec` for a blank disk
pub record DataVolumeTemplate : Type 0 where
  pub name : String
  pub storage : String

-- `kubevirtv1.VirtualMachine`; the run strategy is Always
pub record VirtualMachine : Type 0 where
  pub name : String
  pub namespace : String
  pub labels : Labels
  pub template_labels : Labels
  pub cores : ℕ
  pub memory : String
  pub disks : List Disk
  pub interfaces : List String
  pub networks : List String
  pub volumes : List Volume
  pub data_volume_templates : List DataVolumeTemplate
  pub resource_version : String

-- `corev1.ServicePort`; the protocol is TCP or UDP
pub data Protocol : Type 0 where
  tcp udp : Protocol

pub record ServicePort : Type 0 where
  pub name : String
  pub port : ℕ
  pub target_port : ℕ
  pub protocol : Protocol

-- `corev1.Service`
pub record Service : Type 0 where
  pub name : String
  pub namespace : String
  pub labels : Labels
  pub selector : Labels
  pub ports : List ServicePort

-- `corev1.Secret` with its string data
pub record Secret : Type 0 where
  pub name : String
  pub namespace : String
  pub labels : Labels
  pub string_data : Assoc String

-- The errors of the API server, by the reason that the `apierrors.Is…` functions look for.
pub data ApiError : Type 0 where
  already_exists not_found too_many_requests server_timeout service_unavailable : ApiError
  internal_error : ApiError
  other_error : String → ApiError
