-- ===== src/Runtime/Shim.antt =====
-- src/runtime.rs: run_internal_shim, the shim process of a task from its start to the end of the
-- task. The launch of the workload is what the system answers to it.
use execgo_runtime.Base.{
  ℕ, ◌+◌, ◌&&◌, String, Option, none, some, List, is_none, if◌then◌else◌, unwrap_or,
}
use execgo_runtime.Errors.{
  AppError, AppResult, Checked, ok, err, sandbox_setup, launch_failed, to_string,
}
use execgo_runtime.Types.Status.{TaskStatus, ErrorCode, RuntimeErrorInfo, is_terminal}
use execgo_runtime.Types.Plan.{ExecutionPlan, legacy}
use execgo_runtime.Repo.Rows.{TaskRecord, CompletionUpdate, Store, Clock}
use execgo_runtime.Repo.Writes.{get_task, mark_started}
use execgo_runtime.Repo.Finish.{complete_task}
use execgo_runtime.Runtime.Dispatch.{Progress, then_write, then_rest, persist_latest_result}
use execgo_runtime.Runtime.Watch.{Turn, Exit, supervise_wait}

-- `SpawnedProcess`
pub record SpawnedProcess : Type 0 where
  pub pid : ℕ
  pub pgid : ℕ
  pub script_path : Option String
  pub cgroup_dir : Option String

-- What the shim meets: the answer to the launch (`spawn_task_process`), the clock, the result file,
-- and the turns and the end of the watch.
pub record Host : Type 0 where
  pub spawn_task_process : TaskRecord → ExecutionPlan → AppResult SpawnedProcess
  pub clock : Clock
  pub write_result : TaskRecord → Checked
  pub termination_grace_ms : ℕ
  pub turns : List Turn
  pub exit : Exit

-- An end of a task that never ran.
abbrev pub ended_before : TaskStatus → RuntimeErrorInfo → ℕ → CompletionUpdate
ended_before status error now = record {
  status = status;
  finished_at = now;
  duration_ms = some 0;
  exit_code = none;
  exit_signal = none;
  error = some error;
  usage = none;
  result_json = none;
}

abbrev pub cancelled_before_launch : RuntimeErrorInfo
cancelled_before_launch = record {
  code = ErrorCode.cancelled;
  message = "task cancelled before process launch";
  details = none;
}

-- The error of a launch that failed.
unfoldable pub launch_error : AppError → RuntimeErrorInfo
launch_error (sandbox_setup message) = record {
  code = ErrorCode.sandbox_setup_failed;
  message = message;
  details = none;
}
launch_error (launch_failed message) = record {
  code = ErrorCode.launch_failed;
  message = message;
  details = none;
}
launch_error other = record { code = ErrorCode.internal; message = to_string other; details = none }

-- `task.execution_plan.clone().unwrap_or_else(|| legacy_execution_plan(&task))`
abbrev pub plan_of : TaskRecord → ExecutionPlan
plan_of task = unwrap_or (legacy task.sandbox task.limits) task.execution_plan

-- The write of the end, and the result file.
unfoldable pub end_task : Host → String → CompletionUpdate → Store → Progress (Unit {0})
end_task host id u s =
    then_write (complete_task (λ k. host.clock (10 + k)) id u s) s
      λ t. (t, persist_latest_result host.write_result id t)

-- The watch over the workload of a task, as the table has it after the start, and its end.
unfoldable pub watch_task : Host → ExecutionPlan → TaskRecord → Store → Progress (Unit {0})
unfolding end_task
watch_task host plan started s =
    then_rest
      (supervise_wait
        (record {
          start = host.clock 3;
          wall_time_ms = plan.resource_enforcement.wall_time_ms;
          grace_ms = host.termination_grace_ms;
        })
        started.task_id host.turns host.exit s)
      (end_task host started.task_id)

-- The run of a workload that was launched.
unfoldable pub run_spawned : Host → TaskRecord → SpawnedProcess → Store → Progress (Unit {0})
unfolding watch_task
run_spawned host task process s =
    then_write
      (mark_started (λ k. host.clock (1 + k)) task.task_id process.pid process.pgid
        process.script_path s)
      s
      λ t. elim (get_task task.task_id t) [
        | err e ↦ (t, err e)
        | ok started ↦ watch_task host (plan_of task) started t
      ]

-- The launch of a task that waits for its process.
unfoldable pub launch_task : Host → TaskRecord → Store → Progress (Unit {0})
unfolding run_spawned end_task
launch_task host task s = elim (host.spawn_task_process task (plan_of task)) [
  | ok process ↦ run_spawned host task process s
  | err e ↦
      end_task host task.task_id (ended_before TaskStatus.failed (launch_error e) (host.clock 0)) s
]

-- The shim of a task that is in the table.
unfoldable pub run_task : Host → TaskRecord → Store → Progress (Unit {0})
unfolding launch_task end_task
run_task host task s =
    if is_terminal task.status
    then (s, ok tt)
    else if task.kill_requested && is_none task.pid
    then end_task host task.task_id
        (ended_before TaskStatus.cancelled cancelled_before_launch (host.clock 0)) s
    else launch_task host task s

-- `run_internal_shim`
unfoldable pub run_internal_shim : Host → String → Store → Progress (Unit {0})
unfolding run_task
run_internal_shim host id s = elim (get_task id s) [
  | err e ↦ (s, err e)
  | ok task ↦ run_task host task s
]
