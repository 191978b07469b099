-- ===== src/Repo/Columns/Examples.antt =====
-- The columns of a task that has failed.
use execgo_runtime.Base.{String, ◌≡◌, refl, none, some, arith, str_eq, if◌then◌else◌, true}
use execgo_runtime.Errors.{ok}
use execgo_runtime.Types.Status.{TaskStatus, ErrorCode, RuntimeErrorInfo}
use execgo_runtime.Repo.Rows.{TaskRecord, ResourceUsage}
use execgo_runtime.Repo.Examples.{accepted_row, new_task}
use execgo_runtime.Repo.Columns.{Json, Codecs, Reader, row_to_task_record}
use execgo_runtime.Repo.Columns.Represented.{columns_of}
use execgo_runtime.Repo.Columns.Stored.{row_to_task_record-columns_of}
use execgo_runtime.Repo.Columns.Written.{IsNew, row_to_task_record-insert_columns}
use execgo_runtime.Repo.Columns.Statements.{insert_columns, try_i64}
use execgo_runtime.Repo.Writes.{new_row}

-- A JSON that knows one value by one text, and one that knows no value.
abbrev only : {A : Type 0} → String → A → Json A
only text a = record {
  to_json = λ x. text;
  parse = λ raw. if str_eq raw text then some a else none;
}

abbrev no_value : {A : Type 0} → Json A
no_value = record { to_json = λ x. "null"; parse = λ raw. none }

abbrev exit_error : RuntimeErrorInfo
exit_error = record {
  code = ErrorCode.exit_non_zero;
  message = "process exited with status 3";
  details = none;
}

abbrev usage : ResourceUsage
usage = record {
  duration_ms = 12;
  user_cpu_ms = some 5;
  system_cpu_ms = none;
  max_rss_bytes = none;
  memory_peak_bytes = none;
}

abbrev failed_row : TaskRecord
failed_row = record accepted_row {
  status = TaskStatus.failed;
  started_at = some 5;
  finished_at = some 17;
  duration_ms = some 12;
  shim_pid = some 76;
  pid = some 77;
  pgid = some 77;
  exit_code = some 3;
  error_code = some ErrorCode.exit_non_zero;
  error = some exit_error;
  usage = some usage;
  kill_requested = true;
}

abbrev codecs : Codecs
codecs = record {
  execution = only "{\"kind\":\"command\",\"program\":\"/bin/echo\"}" accepted_row.execution;
  limits = only "{}" accepted_row.limits;
  sandbox = only "{\"profile\":\"process\"}" accepted_row.sandbox;
  metadata = only "{}" accepted_row.metadata;
  error = only "{\"code\":\"exit_nonzero\"}" exit_error;
  usage = only "{\"duration_ms\":12}" usage;
  result = no_value;
  plan = only "{\"degraded\":false}" new_task.execution_plan;
  context = no_value;
  reservation = no_value;
}

abbrev reader : Reader
reader = record { codecs = codecs; max_timestamp = 8210266876799999; now = 20 }

row_to_task_record-columns_of_example :
    row_to_task_record reader (columns_of codecs failed_row) ≡ ok failed_row
row_to_task_record-columns_of_example =
    row_to_task_record-columns_of reader failed_row
      (record {
        execution = refl;
        limits = refl;
        sandbox = refl;
        metadata = refl;
        error = refl;
        usage = refl;
        result_json = tt;
        execution_plan = refl;
        control_context = tt;
        reservation = tt;
      })
      (record {
        created_at = omega arith;
        updated_at = omega arith;
        started_at = omega arith;
        finished_at = omega arith;
        kill_requested_at = tt;
        reserved_at = tt;
        released_at = tt;
        shim_pid = omega arith;
        pid = omega arith;
        pgid = omega arith;
        exit_code = omega arith;
        exit_signal = tt;
      })

inserts : insert_columns codecs new_task 4 ≡ ok (columns_of codecs (new_row new_task 4))
unfolding insert_columns try_i64
inserts = refl

row_to_task_record-insert_columns_example :
    (task : TaskRecord) × (row_to_task_record reader (columns_of codecs (new_row new_task 4))
      ≡ ok task)
    × IsNew new_task 4 task
row_to_task_record-insert_columns_example =
    row_to_task_record-insert_columns reader new_task 4 (columns_of codecs (new_row new_task 4))
      inserts
      (record {
        execution = refl;
        limits = refl;
        sandbox = refl;
        metadata = refl;
        plan = refl;
        context = tt;
      })
      (omega arith)
