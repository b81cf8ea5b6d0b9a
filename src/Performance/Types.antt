-- ===== src/Performance/Types.antt =====
-- pkg/apis/performanceprofile/v2/performanceprofile_types.go: the fields that validation reads. A
-- pointer, and a map that is compared with nil, is an option. An int32 or int is given by its bits,
-- since the code only compares it with another or with zero.
use cluster_node_tuning_oper.Base.{ℕ, String, Bool, Option, List}
use cluster_node_tuning_oper.Util.StringsMap.{Labels}

pub record Cpu : Type 0 where
  pub reserved : Option String
  pub isolated : Option String
  pub offlined : Option String
  pub shared : Option String

pub record HardwareTuning : Type 0 where
  pub isolated_cpu_freq : Option ℕ
  pub reserved_cpu_freq : Option ℕ

pub record HugePage : Type 0 where
  pub size : String
  pub count : ℕ
  pub node : Option ℕ

pub record HugePages : Type 0 where
  pub default_huge_pages_size : Option String
  pub pages : List HugePage

pub record Device : Type 0 where
  pub interface_name : Option String
  pub vendor_id : Option String
  pub device_id : Option String

pub record Net : Type 0 where
  pub user_level_networking : Option Bool
  pub devices : List Device

pub record WorkloadHints : Type 0 where
  pub high_power_consumption : Option Bool
  pub real_time : Option Bool
  pub per_pod_power_management : Option Bool
  pub mixed_cpus : Option Bool

-- `numa` and `real_time_kernel` are the one field of NUMA and of RealTimeKernel.
pub record PerformanceProfile : Type 0 where
  pub name : String
  pub cpu : Option Cpu
  pub hardware_tuning : Option HardwareTuning
  pub huge_pages : Option HugePages
  pub machine_config_label : Option Labels
  pub machine_config_pool_selector : Option Labels
  pub node_selector : Option Labels
  pub real_time_kernel : Option (Option Bool)
  pub numa : Option (Option String)
  pub net : Option Net
  pub workload_hints : Option WorkloadHints

-- The errors of a field.ErrorList, one constructor for each message.
pub data FieldErr : Type 0 where
  same_node_selector : String → FieldErr
  cpu_required : FieldErr
  isolated_required : FieldErr
  reserved_required : FieldErr
  reserved_empty : FieldErr
  isolated_empty : FieldErr
  cpus_overlap : String → String → List ℕ → FieldErr
  many_machine_config_labels : FieldErr
  many_pool_selectors : FieldErr
  node_selector_required : FieldErr
  many_node_selectors : FieldErr
  node_selector_unsplittable : FieldErr
  bad_default_size : FieldErr
  bad_page_size : FieldErr
  page_duplicated : String → FieldErr
  page_duplicated_on_node : String → ℕ → FieldErr
  bad_topology_policy : FieldErr
  queues_without_reserved : FieldErr
  empty_device_name : FieldErr
  bad_vendor_id : String → FieldErr
  bad_device_id : String → FieldErr
  device_without_vendor : FieldErr
  real_time_hint_disabled : FieldErr
  power_hints_conflict : FieldErr
  mixed_without_shared : FieldErr
  isolated_freq_zero : FieldErr
  reserved_freq_zero : FieldErr
  freq_missing : FieldErr
