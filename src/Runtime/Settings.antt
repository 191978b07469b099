-- ===== src/Runtime/Settings.antt =====
-- src/runtime.rs and src/cli.rs: the settings of a server from its arguments, and the service that
-- they start.
use execgo_runtime.Base.{
  ℕ, String, Bool, ◌||◌, ◌==◌, Option, none, some, List, [], ◌∷◌, unwrap_or, if◌then◌else◌,
  str_append,
}
use execgo_runtime.Base.Text.{trim, is_empty, is_ascii_alphanumeric}
use execgo_runtime.Base.Dict
use execgo_runtime.Base.Dict.{Dict}
use execgo_runtime.Errors.{AppResult, ok, ◌>>=◌}
use execgo_runtime.Types.Control.{CapabilityMode}
use execgo_runtime.Types.Sandbox.{join}
use execgo_runtime.Types.Capability.{ResourceCapacity}
use execgo_runtime.Capabilities
use execgo_runtime.Capabilities.{CapabilityProbeInput, probe_runtime_capabilities}
use execgo_runtime.Runtime.Service.{Service}
use execgo_runtime.Runtime.TenantQuota.{parse_tenant_quota}
use Prim.Native.Char.{code}

-- `ServeArgs`
pub record ServeArgs : Type 0 where
  pub listen_addr : String
  pub data_dir : String
  pub max_running_tasks : ℕ
  pub max_queued_tasks : ℕ
  pub termination_grace_ms : ℕ
  pub result_retention_secs : ℕ
  pub gc_interval_ms : ℕ
  pub dispatch_poll_interval_ms : ℕ
  pub cgroup_root : String
  pub runtime_id : Option String
  pub default_capability_mode : CapabilityMode
  pub disable_linux_sandbox : Bool
  pub disable_cgroup : Bool
  pub capacity_memory_bytes : Option ℕ
  pub capacity_pids : Option ℕ
  pub tenant_quota : List String

-- The durations in the unit of their arguments.
pub record Settings : Type 0 where
  pub runtime_id : String
  pub listen_addr : String
  pub data_dir : String
  pub tasks_dir : String
  pub database_path : String
  pub max_running_tasks : ℕ
  pub max_queued_tasks : ℕ
  pub termination_grace_ms : ℕ
  pub result_retention_secs : ℕ
  pub gc_interval_ms : ℕ
  pub dispatch_poll_interval_ms : ℕ
  pub cgroup_root : String
  pub default_capability_mode : CapabilityMode
  pub disable_linux_sandbox : Bool
  pub disable_cgroup : Bool
  pub capacity_memory_bytes : Option ℕ
  pub capacity_pids : Option ℕ
  pub tenant_quotas : Dict ResourceCapacity

abbrev pub is_runtime_id_char : ℕ → Bool
is_runtime_id_char c = is_ascii_alphanumeric c || c == b'-' || c == b'_' || c == b'.'

unfoldable pub sanitize_runtime_id : String → String
unfolding is_ascii_alphanumeric
sanitize_runtime_id String.[] = String.[]
sanitize_runtime_id (String.◌∷◌ c s) =
    String.◌∷◌ (if is_runtime_id_char (code c) then c else "-") (sanitize_runtime_id s)

-- `option.filter(|value| !value.trim().is_empty())`
abbrev filter_blank : Option String → Option String
filter_blank none = none
filter_blank (some value) = if is_empty (trim value) then none else some value

-- `default_runtime_id`, with the variable HOSTNAME.
unfoldable pub default_runtime_id : Option String → String → String
unfolding sanitize_runtime_id
default_runtime_id hostname listen_addr =
    str_append (sanitize_runtime_id (unwrap_or "execgo-runtime" (filter_blank hostname)))
      (str_append "-" (sanitize_runtime_id listen_addr))

-- The loop over the quotas: a later one of the same tenant replaces an earlier one.
unfoldable pub read_quotas : List String → Dict ResourceCapacity → AppResult (Dict ResourceCapacity)
read_quotas [] quotas = ok quotas
read_quotas (spec ∷ rest) quotas = do
  parsed ← parse_tenant_quota spec
  read_quotas rest (Dict.put quotas parsed.0 parsed.1)

-- `Settings::from_args`, with the variable HOSTNAME.
unfoldable pub from_args : Option String → ServeArgs → AppResult Settings
unfolding read_quotas default_runtime_id
from_args hostname args = do
  tenant_quotas ← read_quotas args.tenant_quota []
  ok (record {
    runtime_id = unwrap_or (default_runtime_id hostname args.listen_addr) args.runtime_id;
    listen_addr = args.listen_addr;
    data_dir = args.data_dir;
    tasks_dir = join args.data_dir "tasks";
    database_path = join args.data_dir "runtime.db";
    max_running_tasks = args.max_running_tasks;
    max_queued_tasks = args.max_queued_tasks;
    termination_grace_ms = args.termination_grace_ms;
    result_retention_secs = args.result_retention_secs;
    gc_interval_ms = args.gc_interval_ms;
    dispatch_poll_interval_ms = args.dispatch_poll_interval_ms;
    cgroup_root = args.cgroup_root;
    default_capability_mode = args.default_capability_mode;
    disable_linux_sandbox = args.disable_linux_sandbox;
    disable_cgroup = args.disable_cgroup;
    capacity_memory_bytes = args.capacity_memory_bytes;
    capacity_pids = args.capacity_pids;
    tenant_quotas = tenant_quotas;
  })

-- What the service probes with its settings.
abbrev pub probe_input : Settings → CapabilityProbeInput
probe_input settings = record {
  runtime_id = settings.runtime_id;
  data_dir = settings.data_dir;
  cgroup_root = settings.cgroup_root;
  max_running_tasks = settings.max_running_tasks;
  disable_linux_sandbox = settings.disable_linux_sandbox;
  disable_cgroup = settings.disable_cgroup;
  capacity_memory_bytes = settings.capacity_memory_bytes;
  capacity_pids = settings.capacity_pids;
}

-- `RuntimeService::new`, once its directories and its database are there.
unfoldable pub new_service : Capabilities.Host → Settings → Service
new_service host settings = record {
  capabilities = probe_runtime_capabilities host (probe_input settings);
  ledger = record {
    capacity = (probe_runtime_capabilities host (probe_input settings)).resources.capacity;
    tenant_quotas = settings.tenant_quotas;
  };
  default_capability_mode = settings.default_capability_mode;
  max_queued_tasks = settings.max_queued_tasks;
  tasks_dir = settings.tasks_dir;
}
