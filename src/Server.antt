-- ===== src/Server.antt =====
-- src/server.rs: the handlers of the HTTP API over RuntimeService.
pub mod Refusals
pub mod Owners
pub mod Examples
use execgo_runtime.Base.{ℕ, String, Option, none, some, List, str_append}
use execgo_runtime.Base.Text.{filter_filled}
use execgo_runtime.Errors.{AppResult, Checked, ok, err, internal, into_response, ◌>>=◌, ◌>>◌}
use execgo_runtime.Types.Status.{RuntimeErrorInfo}
use execgo_runtime.Types.Capability.{RuntimeCapabilities}
use execgo_runtime.Types.Request.{SubmitTaskRequest, SubmitTaskResponse}
use execgo_runtime.Types.Views.{
  HealthResponse, RuntimeInfoResponse, RuntimeConfigResponse, RuntimeResourcesResponse,
}
use execgo_runtime.Repo.Rows.{TaskRecord, EventRecord, Store, Clock}
use execgo_runtime.Repo.Queries.{metrics_snapshot}
use execgo_runtime.Runtime.Service
use execgo_runtime.Runtime.Service.{Service, submit_task, quiet}
use execgo_runtime.Runtime.Kill
use execgo_runtime.Runtime.Kill.{nobody_else, Signalled, Killer}
use execgo_runtime.Runtime.Settings.{Settings}
use execgo_runtime.Runtime.Reads
use execgo_runtime.Runtime.Reads.{
  TaskStatusResponse, TextResponse, Output, build_status_response, get_task_status,
}
use execgo_runtime.Runtime.Resources

-- A request that the router hands to its handler: with the JSON of a submission, the identifier of
-- the path, and for a kill the header `x-execgo-owner`, where it is there and is text.
pub data Request : Type 0 where
  create_task : SubmitTaskRequest → Request
  get_task : String → Request
  kill_task : String → Option String → Request
  get_events : String → Request
  runtime_info runtime_capabilities runtime_config runtime_resources : Request
  healthz readyz metrics : Request

-- What a response carries.
pub data Body : Type 0 where
  submitted : SubmitTaskResponse → Body
  task_status : TaskStatusResponse → Body
  events : List EventRecord → Body
  info : RuntimeInfoResponse → Body
  capabilities : RuntimeCapabilities → Body
  config : RuntimeConfigResponse → Body
  resources : RuntimeResourcesResponse → Body
  health : HealthResponse → Body
  text : TextResponse → Body
  error : RuntimeErrorInfo → Body

-- A running server: what it was started with, and what it asks of the system: the files of a new
-- task, the clocks, the signals with their errors, the output files, and the tables of its database.
pub record Server : Type 0 where
  pub settings : Settings
  pub service : Service
  pub version : String
  pub started_at : ℕ
  pub host : Service.Host
  pub clock : Clock
  pub signal : Signalled → Option String
  pub output : String → Output
  pub now : ℕ
  pub init : Checked

-- `signal_task_termination`, on the target of the signal.
unfoldable pub signal_task_termination : (Signalled → Option String) → Signalled → Checked
signal_task_termination signal Signalled.nobody = ok tt
signal_task_termination signal (Signalled.group pgid) = elim (signal (Signalled.group pgid)) [
  | none ↦ ok tt
  | some e ↦ err (internal (str_append "signal process group: " e))
]
signal_task_termination signal (Signalled.process pid) = elim (signal (Signalled.process pid)) [
  | none ↦ ok tt
  | some e ↦ err (internal (str_append "signal process: " e))
]

-- The caller of a kill: the trimmed header, where that is not empty.
unfoldable pub caller_owner : Option String → Option String
caller_owner header = filter_filled header

-- A result as a status and a body: `Json` of what it carries, or the response of the error.
abbrev pub respond : AppResult Body → ℕ × Body
respond (ok body) = (200, body)
respond (err e) = ((into_response e).0, error (into_response e).1)

-- `result.map(Json)`
abbrev pub json : {A : Type 0} → (A → Body) → AppResult A → AppResult Body
json f (ok a) = ok (f a)
json f (err e) = err e

module _ (server : Server) where
  -- What a kill asks of the system.
  unfoldable pub killer : Killer
  killer = record {
    clock = server.clock;
    signal = signal_task_termination server.signal;
    read_output = λ task. do
      response ← build_status_response server.output server.now task
      ok tt;
  }

  -- The handler of a submission: the tables that it leaves and its response. No other operation is in
  -- between its transactions, nor in between those of a kill: Program has the interleavings.
  unfoldable pub create : SubmitTaskRequest → Store → Store × (ℕ × Body)
  create payload s = elim (submit_task server.service server.host quiet payload s) [
    | ok p ↦ (p.0, respond (ok (submitted p.1)))
    | err e ↦ (s, respond (err e))
  ]

  -- The handler of a kill. `Kill.kill_task` keeps the record that its response shows.
  unfoldable pub kill : String → Option String → Store → Store × (ℕ × Body)
  unfolding killer
  kill id header s =
      let (t, result) = Kill.kill_task killer nobody_else id (caller_owner header) s in
      (t, respond (json task_status (result >>= build_status_response server.output server.now)))

  -- The handlers: the tables that a request leaves, the status of its response and its body.
  unfoldable pub handle : Request → Store → Store × (ℕ × Body)
  unfolding create kill
  handle (create_task payload) s = create payload s
  handle (get_task id) s =
      (s, respond (json task_status (get_task_status server.output server.now id s)))
  handle (kill_task id header) s = kill id header s
  handle (get_events id) s = (s, respond (ok (events (Reads.get_events id s))))
  handle runtime_info s = (
    s,
    respond (
        ok (
          info (
            Reads.runtime_info server.settings server.service.capabilities server.version
              server.started_at))),
  )
  handle runtime_capabilities s = (s, respond (ok (capabilities server.service.capabilities)))
  handle runtime_config s = (s, respond (ok (config (Reads.runtime_config server.settings))))
  handle runtime_resources s = (
    s,
    respond (
        ok (
          resources
            (Resources.runtime_resources server.settings.runtime_id server.service.ledger s))),
  )
  handle healthz s = (s, respond (ok (health (record { status = "ok"; version = server.version }))))
  handle readyz s = (
    s,
    respond
        (json health (do server.init; ok (record { status = "ready"; version = server.version }))),
  )
  handle metrics s =
      let response = Reads.metrics (ok (metrics_snapshot s)) in
      (s, (response.status, text response))
