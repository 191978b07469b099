-- ===== src/Client/Examples.antt =====
-- The client at concrete answers of a server.
use execgo_runtime.Base.{ℕ, zero, suc, ◌*◌, ◌≡◌, refl, some, none, arith}
use execgo_runtime.Errors.{ok, err, internal}
use execgo_runtime.Base.Text.{trim, trim_end_matches}
use execgo_runtime.Types.Status.{TaskStatus, is_terminal}
use execgo_runtime.Client.{Answer, shown, kill_url, owner_header, wait_remote, trim_server}
use execgo_runtime.Client.Commands.{
  RemoteTaskArgs, HttpRequest, Submission, run_remote, kill_request,
}
use execgo_runtime.Client.Waiting.{Ends, wait_remote-Ends}

-- A task that is seen twice while it runs and then as done, and one that runs on.
abbrev two_polls : ℕ → Answer
two_polls zero = shown TaskStatus.running
two_polls (suc zero) = shown TaskStatus.running
two_polls (suc (suc k)) = shown TaskStatus.success

abbrev running_on : ℕ → Answer
running_on k = shown TaskStatus.running

-- A check of the clock every 500 milliseconds, and an interval that takes no less.
abbrev clock : ℕ → ℕ
clock k = k * 500

done : wait_remote two_polls clock (some 2000) 6 0 ≡ some (ok tt)
unfolding wait_remote is_terminal
done = refl

late : wait_remote running_on clock (some 2000) 6 0 ≡ some (err (internal "wait timeout exceeded"))
unfolding wait_remote is_terminal
late = refl

wait_remote-Ends_example : Ends two_polls clock 2000 6 0
wait_remote-Ends_example =
    wait_remote-Ends two_polls clock 2000 500 (omega arith) (λ k. omega arith)

address : kill_url "http://host:8080//" "t1" ≡ "http://host:8080/api/v1/tasks/t1/kill"
unfolding trim_server trim_end_matches
address = refl

owner : owner_header (some " alice ") ≡ some "alice"
unfolding owner_header trim
owner = refl

blank : owner_header (some "  ") ≡ none
unfolding owner_header trim
blank = refl

-- A run of a task that ends well, and a kill by an owner.
abbrev args : RemoteTaskArgs
args = record {
  server = "http://host:8080/";
  file = none;
  json = some "{}";
  poll_interval_ms = 500;
  timeout_ms = some 2000;
}

runs : run_remote (λ wait. two_polls) clock 6 args (Submission.accepted "t1") ≡ some (ok tt)
unfolding run_remote is_terminal
runs = refl

kills :
    kill_request (record { server = "http://host:8080/"; owner = some " alice "; task_id = "t1" })
    ≡ HttpRequest.post_kill "http://host:8080/api/v1/tasks/t1/kill" (some "alice")
unfolding kill_request trim_server trim_end_matches trim
kills = refl
