-- ===== src/Runtime/Dispatch.antt =====
-- src/runtime.rs: one cycle of the dispatcher. Every write is a transaction of its own, so that an
-- error ends the cycle with the tables as the last committed write left them: a cycle returns the
-- tables and a result.
use execgo_runtime.Base.{
  ℕ, ◌+◌, not, String, Option, none, some, List, [], ◌∷◌, if◌then◌else◌, and_then, unwrap_or,
  str_append,
}
use execgo_runtime.Base.Dict
use execgo_runtime.Base.Dict.{Dict}
use execgo_runtime.Errors.{AppResult, Checked, ok, err, launch_failed, ◌>>=◌}
use execgo_runtime.Types.Status.{TaskStatus, ErrorCode, RuntimeErrorInfo}
use execgo_runtime.Types.Control.{ControlContext}
use execgo_runtime.Types.Limits.{TaskResourceReservation, from_limits}
use execgo_runtime.Types.Capability.{ResourceCapacity}
use execgo_runtime.Ledger.{
  ResourceLedger, tenant_quota, can_reserve, can_reserve_for_tenant, reserved_capacity,
  zero_if_some, add_reservation, subtract_reservation,
}
use execgo_runtime.Repo.Rows.{TaskRecord, CompletionUpdate, Store, Clock, has_active_reservation}
use execgo_runtime.Repo.Writes.{get_task, mark_dispatched, reserve_resources}
use execgo_runtime.Repo.Finish.{cancel_accepted_task, complete_task}
use execgo_runtime.Repo.Queries.{list_accepted, list_active_reservations}

-- `StdCommand::spawn`: the process id of the shim, or the text of the error.
pub data Spawned : Type 0 where
  spawned : ℕ → Spawned
  refused : String → Spawned

-- What the dispatcher asks of the system while it handles a task: the clock, the path of the
-- executable (the text of an error if it has none), a new process, and a result file.
pub record System : Type 0 where
  pub clock : String → Clock
  pub exe_error : String → Option String
  pub spawn : String → Spawned
  pub write_result : TaskRecord → Checked

-- The locals `current_reserved` and `tenant_reserved`.
pub record Budget : Type 0 where
  pub reserved : ResourceCapacity
  pub tenants : Dict ResourceCapacity

-- The state after a part of a cycle, and its result.
abbrev pub Progress {ℓ} : Type ℓ → Type ℓ
Progress A = Store × AppResult A

-- `write?;`, and then the rest on the tables that it left.
abbrev pub then_write : {A : Type 0} → AppResult Store → Store → (Store → Progress A) → Progress A
then_write (ok t) s rest = rest t
then_write (err e) s rest = (s, err e)

-- `check?;`
abbrev pub then_check : {A : Type 0} → Checked → Store → A → Progress A
then_check (ok x) s a = (s, ok a)
then_check (err e) s a = (s, err e)

-- `persist_latest_result`
unfoldable pub persist_latest_result : (TaskRecord → Checked) → String → Store → Checked
persist_latest_result write_result id s = do task ← get_task id s; write_result task

-- `task.control_context.as_ref().and_then(|c| c.tenant.as_deref())`
abbrev pub tenant_of : TaskRecord → Option String
tenant_of task = and_then task.control_context λ (c : ControlContext). c.tenant

-- The capacity of a tenant that holds nothing, tracked where its quota has a limit.
unfoldable pub empty_tenant_cap : ResourceLedger → String → ResourceCapacity
empty_tenant_cap ledger tenant = record {
  task_slots = 0;
  memory_bytes = zero_if_some (and_then quota λ (q : ResourceCapacity). q.memory_bytes);
  pids = zero_if_some (and_then quota λ (q : ResourceCapacity). q.pids);
}
  where
    quota : Option ResourceCapacity
    quota = tenant_quota ledger tenant

-- `tenant_reserved.entry(tenant).or_insert(..)`, and `add_reservation` on it.
unfoldable pub add_to_tenant :
    ResourceLedger
    → Option String
    → TaskResourceReservation
    → Dict ResourceCapacity
    → Dict ResourceCapacity
add_to_tenant ledger none r tenants = tenants
add_to_tenant ledger (some tenant) r tenants =
    Dict.put tenants tenant
      (add_reservation (unwrap_or (empty_tenant_cap ledger tenant) (Dict.get tenants tenant)) r)

-- The totals of the tenants at the start of a cycle.
unfoldable pub sum_tenants :
    ResourceLedger → List TaskRecord → Dict ResourceCapacity → Dict ResourceCapacity
unfolding add_to_tenant
sum_tenants ledger [] tenants = tenants
sum_tenants ledger (task ∷ rest) tenants = elim task.reservation [
  | none ↦ sum_tenants ledger rest tenants
  | some r ↦ sum_tenants ledger rest (add_to_tenant ledger (tenant_of task) r tenants)
]

-- The update of a task whose shim could not be started.
abbrev pub launch_failure : String → ℕ → CompletionUpdate
launch_failure message now = record {
  status = TaskStatus.failed;
  finished_at = now;
  duration_ms = some 0;
  exit_code = none;
  exit_signal = none;
  error = some (record {
    code = ErrorCode.launch_failed;
    message = str_append "failed to spawn shim: " message;
    details = none;
  });
  usage = none;
  result_json = none;
}

-- The rows of a task after the attempt to start its shim.
unfoldable pub after_spawn :
    System → String → TaskResourceReservation → Budget → Store → Spawned → Progress Budget
unfolding persist_latest_result
after_spawn system id r budget s (spawned pid) =
    then_write (mark_dispatched (λ k. system.clock id (2 + k)) id pid s) s λ t. (t, ok budget)
after_spawn system id r budget s (refused message) =
    then_write
      (complete_task (λ k. system.clock id (3 + k)) id (launch_failure message (system.clock id 2))
        s)
      s
      λ t.
        then_check (persist_latest_result system.write_result id t) t
          (record budget { reserved = subtract_reservation budget.reserved r })

-- The start of the shim of a task whose reservation `r` is in the budget.
unfoldable pub start_shim :
    System → String → TaskResourceReservation → Budget → Store → Progress Budget
unfolding after_spawn
start_shim system id r budget s = elim (system.exe_error id) [
  | some message ↦ (s, err (launch_failed (str_append "resolve current exe: " message)))
  | none ↦ after_spawn system id r budget s (system.spawn id)
]

abbrev pub cancelled_before : RuntimeErrorInfo
cancelled_before = record {
  code = ErrorCode.cancelled;
  message = "task cancelled before execution";
  details = none;
}

-- The reservation that the dispatcher makes for a task.
abbrev pub wanted : TaskRecord → TaskResourceReservation
wanted task = unwrap_or (from_limits task.limits) task.reservation

-- What the tenant of a task holds.
unfoldable pub tenant_total :
    ResourceLedger → Option String → Dict ResourceCapacity → ResourceCapacity
unfolding empty_tenant_cap
tenant_total ledger tenant tenants =
    unwrap_or (empty_tenant_cap ledger (unwrap_or "" tenant)) (and_then tenant (Dict.get tenants))

-- The branch of a task whose kill was requested while it waited.
unfoldable pub cancel_waiting : System → String → Budget → Store → Progress Budget
unfolding persist_latest_result
cancel_waiting system id budget s =
    then_write (cancel_accepted_task (system.clock id) id cancelled_before s) s
      λ t. then_check (persist_latest_result system.write_result id t) t budget

-- The reservation of a task that fits, and the start of its shim.
unfoldable pub reserve_and_start :
    System → ResourceLedger → TaskRecord → Budget → Store → Progress Budget
unfolding start_shim add_to_tenant
reserve_and_start system ledger task budget s =
    then_write
      (reserve_resources (system.clock task.task_id) task.task_id r "task resources reserved" s) s
      λ t.
        start_shim system task.task_id r
          (record {
            reserved = add_reservation budget.reserved r;
            tenants = add_to_tenant ledger (tenant_of task) r budget.tenants;
          })
          t
  where
    r : TaskResourceReservation
    r = wanted task

-- The body of the loop over the accepted tasks.
unfoldable pub dispatch_task :
    System → ResourceLedger → TaskRecord → Budget → Store → Progress Budget
unfolding cancel_waiting reserve_and_start tenant_total
dispatch_task system ledger task budget s =
    if task.kill_requested
    then cancel_waiting system task.task_id budget s
    else if has_active_reservation task
    then (s, ok budget)
    else if not (can_reserve ledger budget.reserved (wanted task))
    then (s, ok budget)
    else if not (
        can_reserve_for_tenant ledger (tenant_of task)
          (tenant_total ledger (tenant_of task) budget.tenants) (wanted task))
    then (s, ok budget)
    else reserve_and_start system ledger task budget s

-- The rest of a loop, which an error ends.
abbrev pub then_rest : {A B : Type 0} → Progress A → (A → Store → Progress B) → Progress B
then_rest (t, ok a) rest = rest a t
then_rest (t, err e) rest = (t, err e)

-- The loop over the accepted tasks.
unfoldable pub dispatch_tasks :
    System → ResourceLedger → List TaskRecord → Budget → Store → Progress Budget
unfolding dispatch_task
dispatch_tasks system ledger [] budget s = (s, ok budget)
dispatch_tasks system ledger (task ∷ rest) budget s =
    then_rest (dispatch_task system ledger task budget s) (dispatch_tasks system ledger rest)

-- The reservations of the tasks in a list.
unfoldable pub reservations : List TaskRecord → List TaskResourceReservation
reservations [] = []
reservations (task ∷ rest) = elim task.reservation [
  | none ↦ reservations rest
  | some r ↦ r ∷ reservations rest
]

-- The budget at the start of a cycle.
unfoldable pub initial_budget : ResourceLedger → List TaskRecord → Budget
unfolding reservations sum_tenants
initial_budget ledger active = record {
  reserved = reserved_capacity ledger (reservations active);
  tenants = sum_tenants ledger active [];
}

-- `RuntimeService::dispatch_once_sync`
unfoldable pub dispatch_once_sync : System → ResourceLedger → ℕ → Store → Progress Budget
unfolding initial_budget dispatch_tasks
dispatch_once_sync system ledger max_queued_tasks s =
    dispatch_tasks system ledger (list_accepted max_queued_tasks s)
      (initial_budget ledger (list_active_reservations s)) s
