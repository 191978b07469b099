-- ===== src/Client.antt =====
-- src/runtime.rs and src/cli.rs: the commands that call a remote server, with the wait for a
-- task and the owner of a kill.
pub mod Commands
pub mod Waiting
mod Examples
use execgo_runtime.Base.{
  ℕ, suc, zero, ◌+◌, String, Bool, true, false, not, Option, none, some, leb, if◌then◌else◌,
  and_then, map_option, unwrap_or, str_append,
}
use execgo_runtime.Base.Text.{trim, trim_end_matches, filter_filled}
use execgo_runtime.Errors.{AppError, AppResult, Checked, ok, err, internal}
use execgo_runtime.Types.Status.{TaskStatus, is_terminal}

-- `trim_server`
unfoldable pub trim_server : String → String
trim_server server = trim_end_matches b'/' server

-- The addresses of the API.
abbrev pub tasks_url : String → String
tasks_url server = str_append (trim_server server) "/api/v1/tasks"

abbrev pub task_url : String → String → String
task_url server id = str_append (tasks_url server) (str_append "/" id)

abbrev pub kill_url : String → String → String
kill_url server id = str_append (task_url server id) "/kill"

-- The header `x-execgo-owner` that `kill_remote` sends.
unfoldable pub owner_header : Option String → Option String
owner_header owner = filter_filled owner

-- `load_request`: the text of a file, or the argument.
unfoldable pub load_text :
    (String → AppResult String) → Option String → Option String → AppResult String
load_text read none json = ok (unwrap_or "" json)
load_text read (some file) json = read file

-- An answer to a request for a task: an error of the transport or of its JSON, a response that is
-- not a success with the text of its status, or the status of the task.
pub data Answer : Type 0 where
  broken : AppError → Answer
  refusal : String → Answer
  shown : TaskStatus → Answer

-- `print_json_response` of a response that is not a success.
abbrev pub refused : String → Checked
refused status = err (internal (str_append "request failed with status " status))

-- The time is up.
abbrev pub timed_out : Option ℕ → ℕ → Bool
timed_out none elapsed = false
timed_out (some timeout) elapsed = leb timeout elapsed

-- `wait_remote` from its poll number `k` on, with the answer to each poll and the time at which its
-- timeout is checked; none where the fuel runs out.
unfoldable pub wait_remote : (ℕ → Answer) → (ℕ → ℕ) → Option ℕ → ℕ → ℕ → Option Checked
wait_remote answer elapsed timeout zero k = none
wait_remote answer elapsed timeout (suc fuel) k =
    let rest = wait_remote answer elapsed timeout fuel (suc k) in
    elim (answer k) [
      | broken e ↦ some (err e)
      | refusal status ↦ some (refused status)
      | shown status ↦
          if is_terminal status
          then some (ok tt)
          else if timed_out timeout (elapsed k)
          then some (err (internal "wait timeout exceeded"))
          else rest
    ]
