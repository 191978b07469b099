-- ===== src/Capabilities/Examples.antt =====
-- The probe at concrete hosts: a Linux host run by root, and the same one run by a user.
use execgo_runtime.Base.{
  ◌≡◌, refl, true, false, some, none, [], ◌∷◌, if◌then◌else◌, str_eq, String, List,
}
use execgo_runtime.Base.Text.{parse_u64, trim}
use execgo_runtime.Types.Control.{CapabilityMode}
use execgo_runtime.Policy.{resolve_execution_plan}
use execgo_runtime.Policy.Strict.{is_ok}
use execgo_runtime.Policy.Examples.{full_request}
use execgo_runtime.Capabilities.{
  CapabilityProbeInput, Host, probe_runtime_capabilities, data_dir_writable, path_likely_writable,
  current_euid,
}
use execgo_runtime.Capabilities.Isolation.{host_meets, probe_accepts}

abbrev linux_host : Host
linux_host = record {
  os = "linux";
  arch = "x86_64";
  linux = true;
  unix = true;
  process_id = 7;
  euid = 0;
  can_write = λ path. true;
  exists = λ path. true;
  readonly = λ path. some false;
  read_to_string = λ path.
      if str_eq path "/proc/sys/kernel/pid_max" then some "4194304\n" else some "0::/kubepods";
  has_variable = λ name. false;
  physical_pages = 1024;
  page_size = 4096;
  now = 5;
}

abbrev input : CapabilityProbeInput
input = record {
  runtime_id = "r1";
  data_dir = "/data";
  cgroup_root = "/sys/fs/cgroup/execgo-runtime";
  max_running_tasks = 4;
  disable_linux_sandbox = false;
  disable_cgroup = false;
  capacity_memory_bytes = none;
  capacity_pids = none;
}

abbrev user_host : Host
user_host = record linux_host { euid = 1000 }

probes_capacity :
    (probe_runtime_capabilities linux_host input).resources.capacity
    ≡ record { task_slots = 4; memory_bytes = some 4194304; pids = some 4194304 }
unfolding probe_runtime_capabilities parse_u64 trim
probes_capacity = refl

abbrev user_warnings : List String
user_warnings = "linux_sandbox is unavailable without root-equivalent namespace permissions" ∷ []

warns_user : (probe_runtime_capabilities user_host input).warnings ≡ user_warnings
unfolding probe_runtime_capabilities data_dir_writable path_likely_writable current_euid
warns_user = refl

probe_accepts_example :
    is_ok (
      resolve_execution_plan full_request
        (probe_runtime_capabilities user_host input)
        CapabilityMode.adaptive)
    ≡ host_meets user_host input full_request
probe_accepts_example = probe_accepts user_host input full_request CapabilityMode.adaptive refl
