-- ===== src/Client/Commands.antt =====
-- src/cli.rs and src/runtime.rs: the arguments of the commands that call a server, the requests that
-- they send, and submit_remote, status_remote, kill_remote and run_remote from the answers on.
use execgo_runtime.Base.{ℕ, String, Option, some}
use execgo_runtime.Errors.{AppError, AppResult, Checked, ok, err, ◌>>=◌}
use execgo_runtime.Types.Request.{SubmitTaskRequest}
use execgo_runtime.Client.{
  Answer, tasks_url, task_url, kill_url, owner_header, load_text, refused, wait_remote,
}

pub record RemoteTaskArgs : Type 0 where
  pub server : String
  pub file : Option String
  pub json : Option String
  pub poll_interval_ms : ℕ
  pub timeout_ms : Option ℕ

pub record StatusArgs : Type 0 where
  pub server : String
  pub task_id : String

pub record KillArgs : Type 0 where
  pub server : String
  pub owner : Option String
  pub task_id : String

pub record WaitArgs : Type 0 where
  pub server : String
  pub task_id : String
  pub timeout_ms : Option ℕ
  pub poll_interval_ms : ℕ

-- A request that a command sends: its address, and the JSON or the owner that goes with it.
pub data HttpRequest : Type 0 where
  get : String → HttpRequest
  post_task : String → SubmitTaskRequest → HttpRequest
  post_kill : String → Option String → HttpRequest

-- `load_request`, with the files of the host and the parsing of serde_json.
unfoldable pub load_request :
    (String → AppResult String)
    → (String → AppResult SubmitTaskRequest)
    → RemoteTaskArgs
    → AppResult SubmitTaskRequest
unfolding load_text
load_request read from_str args = do raw ← load_text read args.file args.json; from_str raw

-- What `submit_remote` and `run_remote` send first.
unfoldable pub submit_request :
    (String → AppResult String)
    → (String → AppResult SubmitTaskRequest)
    → RemoteTaskArgs
    → AppResult HttpRequest
unfolding load_request
submit_request read from_str args = do
  request ← load_request read from_str args
  ok (post_task (tasks_url args.server) request)

-- What `status_remote` sends, and `wait_remote` at each poll.
unfoldable pub status_request : StatusArgs → HttpRequest
status_request args = get (task_url args.server args.task_id)

-- What `kill_remote` sends.
unfoldable pub kill_request : KillArgs → HttpRequest
unfolding owner_header
kill_request args = post_kill (kill_url args.server args.task_id) (owner_header args.owner)

-- A response to a command: an error of the transport or of its text, or a response that is a success
-- or not, with the text of its status.
pub data Response : Type 0 where
  broken : AppError → Response
  success : Response
  failure : String → Response

-- `print_json_response`
unfoldable pub print_json_response : Response → Checked
print_json_response (broken e) = err e
print_json_response success = ok tt
print_json_response (failure status) = refused status

-- A response to the submission of `run_remote`: an error of the transport or of its JSON, a response
-- that is not a success, or the identifier of the task.
pub data Submission : Type 0 where
  broken : AppError → Submission
  failure : String → Submission
  accepted : String → Submission

-- The arguments of the wait of `run_remote`.
abbrev pub wait_args : RemoteTaskArgs → String → WaitArgs
wait_args args id = record {
  server = args.server;
  task_id = id;
  timeout_ms = args.timeout_ms;
  poll_interval_ms = args.poll_interval_ms;
}

-- `run_remote` from the response to its submission on; the polls are answered by the task that they
-- ask for.
unfoldable pub run_remote :
    (WaitArgs → ℕ → Answer) → (ℕ → ℕ) → ℕ → RemoteTaskArgs → Submission → Option Checked
unfolding wait_remote
run_remote answer elapsed fuel args (broken e) = some (err e)
run_remote answer elapsed fuel args (failure status) = some (refused status)
run_remote answer elapsed fuel args (accepted id) =
    wait_remote (answer (wait_args args id)) elapsed args.timeout_ms fuel 0
