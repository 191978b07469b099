-- ===== src/Server/Examples.antt =====
-- A server at concrete requests.
use execgo_runtime.Base.{◌≢◌, ◌≡◌, refl, false, some, none, [], ◌∷◌, arith}
use execgo_runtime.Base.Text.{trim, is_ascii_alphanumeric}
use execgo_runtime.Errors.{ok, into_response}
use execgo_runtime.Types.Control
use execgo_runtime.Types.Control.{CapabilityMode, ControlContext}
use execgo_runtime.Repo.Rows.{TaskRecord, find_row, Store}
use execgo_runtime.Repo.Writes.{get_task}
use execgo_runtime.Repo.Examples.{accepted, accepted_row}
use execgo_runtime.Runtime.Kill
use execgo_runtime.Runtime.Reads.{Output}
use execgo_runtime.Runtime.Settings.{ServeArgs, Settings, from_args}
use execgo_runtime.Runtime.Examples.{service, host}
use execgo_runtime.Server.{Server, kill_task, caller_owner, handle}
use execgo_runtime.Server.Owners.{kill_padded_owner}
use execgo_runtime.Server.Refusals.{handle_refused}

abbrev args : ServeArgs
args = record {
  listen_addr = "127.0.0.1:8080";
  data_dir = "/data";
  max_running_tasks = 4;
  max_queued_tasks = 128;
  termination_grace_ms = 5000;
  result_retention_secs = 604800;
  gc_interval_ms = 1000;
  dispatch_poll_interval_ms = 250;
  cgroup_root = "/sys/fs/cgroup/execgo-runtime";
  runtime_id = none;
  default_capability_mode = CapabilityMode.adaptive;
  disable_linux_sandbox = false;
  disable_cgroup = false;
  capacity_memory_bytes = none;
  capacity_pids = none;
  tenant_quota = [];
}

abbrev settings : Settings
settings = record {
  runtime_id = "my-box-127.0.0.1-8080";
  listen_addr = "127.0.0.1:8080";
  data_dir = "/data";
  tasks_dir = "/data/tasks";
  database_path = "/data/runtime.db";
  max_running_tasks = 4;
  max_queued_tasks = 128;
  termination_grace_ms = 5000;
  result_retention_secs = 604800;
  gc_interval_ms = 1000;
  dispatch_poll_interval_ms = 250;
  cgroup_root = "/sys/fs/cgroup/execgo-runtime";
  default_capability_mode = CapabilityMode.adaptive;
  disable_linux_sandbox = false;
  disable_cgroup = false;
  capacity_memory_bytes = none;
  capacity_pids = none;
  tenant_quotas = [];
}

starts : from_args (some "my box") args ≡ ok settings
unfolding from_args trim is_ascii_alphanumeric
starts = refl

abbrev pub server : Server
server = record {
  settings = settings;
  service = service;
  version = "0.1.0";
  started_at = 3;
  host = host;
  clock = λ k. k;
  signal = λ target. none;
  output = λ path. Output.missing;
  now = 9;
  init = ok tt;
}

-- A task that waits and belongs to alice.
abbrev context : ControlContext
context = record {
  control_plane_mode = none;
  tenant = none;
  owner = some "alice";
  expected_runtime_profile = none;
  requires_strict_sandbox = false;
  requires_resource_reservation = false;
  labels = [];
}

abbrev owned : Store
owned = record accepted { tasks = record accepted_row { control_context = some context } ∷ [] }

forbidden : (handle server (kill_task "t1" (some " bob ")) owned).1.0 ≡ 403
unfolding handle Kill.kill_task get_task caller_owner trim into_response
forbidden = refl

handle_refused_example : (handle server (kill_task "t1" (some " bob ")) owned).0 ≡ owned
handle_refused_example =
    handle_refused server owned (kill_task "t1" (some " bob ")) (omega (arith, forbidden))
      (omega (arith, forbidden))

-- A task whose owner begins with a space: the validation of its context accepts it.
abbrev padded_context : ControlContext
padded_context = record context { owner = some " alice" }

abbrev padded_row : TaskRecord
padded_row = record accepted_row { control_context = some padded_context }

abbrev padded : Store
padded = record accepted { tasks = padded_row ∷ [] }

padded_accepted : Control.validate padded_context ≡ ok tt
unfolding Control.validate trim
padded_accepted = refl

padded_found : find_row "t1" padded.tasks ≡ some padded_row
unfolding find_row
padded_found = refl

not_trimmed : trim " alice" ≢ " alice"
unfolding trim
not_trimmed e = cc

kill_padded_owner_example :
    ((handle server (kill_task "t1" (some " alice")) padded).0 ≡ padded)
    × ((handle server (kill_task "t1" (some " alice")) padded).1.0 ≡ 403)
kill_padded_owner_example =
    kill_padded_owner server padded "t1" padded_row " alice" (some " alice") padded_found refl
      not_trimmed
