-- ===== src/Runtime/Kill.antt =====
-- src/runtime.rs: RuntimeService::kill_task.
use execgo_runtime.Base.{
  ℕ, ◌+◌, false, String, Option, none, some, if◌then◌else◌, and_then, str_append, str_eq, is_some,
}
use execgo_runtime.Errors.{AppResult, Checked, ok, err, guard, ◌>>=◌, ◌>>◌, permission_denied}
use execgo_runtime.Types.Status.{is_terminal}
use execgo_runtime.Types.Control.{ControlContext}
use execgo_runtime.Repo.Rows.{TaskRecord, Store, Clock}
use execgo_runtime.Repo.Writes.{get_task, set_cancel_requested, is_accepted, is_running}
use execgo_runtime.Repo.Finish.{cancel_accepted_task}
use execgo_runtime.Runtime.Dispatch.{Progress, then_write, cancelled_before}

-- The signal that a kill sends to the processes of a running task: whom it goes to.
pub data Signalled : Type 0 where
  group : ℕ → Signalled
  process : ℕ → Signalled
  nobody : Signalled

-- `signal_task_termination`: the group of the task, or its process, or nothing.
unfoldable pub signal_target : TaskRecord → Signalled
signal_target task = elim task.pgid [
  | some pgid ↦ group pgid
  | none ↦ elim task.pid [ some pid ↦ process pid | none ↦ nobody ]
]

abbrev pub owner_of : TaskRecord → Option String
owner_of task = and_then task.control_context λ (c : ControlContext). c.owner

-- The owner check of a kill: a task with an owner wants that caller.
unfoldable pub check_owner : TaskRecord → Option String → Checked
check_owner task caller = elim (owner_of task) [
  | none ↦ ok tt
  | some owner ↦
      guard (elim caller [ none ↦ false | some name ↦ str_eq name owner ])
        (permission_denied (str_append "kill requires owner '" (str_append owner "'")))
]

-- What a kill asks of the system: the clock, a signal, and the output files of the task for the
-- response.
pub record Killer : Type 0 where
  pub clock : Clock
  pub signal : Signalled → Checked
  pub read_output : TaskRecord → Checked

-- `build_status_response`, of which the record of the task is kept.
unfoldable pub respond : Killer → TaskRecord → AppResult TaskRecord
respond killer task = do killer.read_output task; ok task

-- `get_task_status`
unfoldable pub get_task_status : Killer → String → Store → AppResult TaskRecord
unfolding respond
get_task_status killer id s = do task ← get_task id s; respond killer task

-- What the others do to the tables between the transactions of an operation: `between 0` after the
-- first transaction, `between 1` after the second one, and so on.
abbrev pub Others : Type 0
Others = ℕ → Store → Store

-- The others do nothing.
abbrev pub nobody_else : Others
nobody_else k s = s

-- The rest of a kill, after the request is stored: a task that waited when the request was stored is
-- cancelled, any other one is signalled. The tables `s` are those of that time, and the response is
-- read from later ones.
unfoldable pub stop_task : Killer → Others → String → TaskRecord → Store → Progress TaskRecord
unfolding get_task_status signal_target
stop_task killer between id updated s =
    if is_accepted updated
    then then_write (cancel_accepted_task (λ k. killer.clock (2 + k)) id cancelled_before s) s
        (λ t. (t, get_task_status killer id (between 2 t)))
    else (s, (do killer.signal (signal_target updated); get_task_status killer id (between 2 s)))

-- The kill of a task that has not ended.
unfoldable pub request_kill : Killer → Others → String → Store → Progress TaskRecord
unfolding stop_task
request_kill killer between id s = elim (set_cancel_requested killer.clock id s) [
  | ok p ↦ stop_task killer between id p.0 (between 1 p.1)
  | err e ↦ (s, err e)
]

-- The kill of a task that the caller may kill.
unfoldable pub kill_owned : Killer → Others → String → TaskRecord → Store → Progress TaskRecord
unfolding request_kill respond
kill_owned killer between id task s =
    if is_terminal task.status
    then (s, respond killer task)
    else request_kill killer between id (between 0 s)

-- `RuntimeService::kill_task`. The task is read, the request is stored, and a task that waits is
-- cancelled, in one transaction each.
unfoldable pub kill_task : Killer → Others → String → Option String → Store → Progress TaskRecord
unfolding kill_owned check_owner
kill_task killer between id caller s = elim (get_task id s) [
  | err e ↦ (s, err e)
  | ok task ↦ elim (check_owner task caller) [
    | err e ↦ (s, err e)
    | ok x ↦ kill_owned killer between id task s
  ]
]

-- `spawn_escalation`, once the grace period is over: the SIGKILL to a task that still runs, to the
-- group that the kill signalled, or to the group or the process that the table has by then.
unfoldable pub escalate : String → Option ℕ → Store → Signalled
escalate id pgid s = elim (get_task id s) [
  | err e ↦ nobody
  | ok task ↦
      if is_running task
      then signal_target (record task { pgid = if is_some pgid then pgid else task.pgid })
      else nobody
]
