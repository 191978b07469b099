-- ===== src/Repo/Columns/Written.antt =====
-- What the statements of insert_task and complete_task write to the columns, and what is read of it.
use execgo_runtime.Base.{
  ap, ◌≤◌, ◌∙◌, false, sym, ℕ, String, ◌≡◌, refl, Option, none, some, leb, map_option, Bool-cases,
  inl, inr, i64_max, is_some,
}
use execgo_runtime.Errors.{
  ok_injective, >>=-eq-ok, AppResult, ok, invalid_input, guard, ◌>>=◌, ◌>>◌,
}
use execgo_runtime.Types.Status.{TaskStatus, RuntimeErrorInfo}
use execgo_runtime.Repo.Rows.{TaskRecord, NewTaskRecord, CompletionUpdate}
use execgo_runtime.Repo.Writes.{new_row}
use execgo_runtime.Repo.Finish.{completed_row, fits_i64}
use execgo_runtime.Repo.Codec.{encode_error_code}
use execgo_runtime.Repo.Columns.{row_to_task_record, Reader, pos, Codecs, Columns, transpose}
use execgo_runtime.Repo.Columns.Stored.{row_to_task_record-columns_of}
use execgo_runtime.Repo.Columns.Statements.{insert_columns, complete_columns, try_i64}
use execgo_runtime.Repo.Columns.Represented.{MayParseBack, ParsesBack, columns_of}

-- The guards of the statements, and what they write.
transpose-try_i64 :
    (message : String) (o : Option ℕ)
    → transpose (try_i64 message) o
      ≡ (guard (fits_i64 o) (invalid_input message) >>= λ x. ok (map_option pos o))
unfolding try_i64
transpose-try_i64 message none = refl
transpose-try_i64 message (some n) = elim (Bool-cases (leb n i64_max)) [
  | inl e ↦ rw (try_i64, e) refl
  | inr e ↦ rw (try_i64, e) refl
]

error_code_columns :
    (o : Option RuntimeErrorInfo)
    → map_option (λ (e : RuntimeErrorInfo). encode_error_code e.code) o
      ≡ map_option encode_error_code (map_option (λ (e : RuntimeErrorInfo). e.code) o)
error_code_columns none = refl
error_code_columns (some e) = refl

is_some-map_option :
    {A B : Type 0} (f : A → B) (o : Option A) → is_some (map_option f o) ≡ is_some o
is_some-map_option f none = refl
is_some-map_option f (some a) = refl

-- The columns of the rows that the model writes, behind its guards of the numbers.
abbrev pub inserted : Codecs → NewTaskRecord → ℕ → AppResult Columns
inserted codecs new now = do
  guard (leb new.request.limits.stdout_max_bytes i64_max)
      (invalid_input "stdout_max_bytes is too large")
  guard (leb new.request.limits.stderr_max_bytes i64_max)
      (invalid_input "stderr_max_bytes is too large")
  ok (columns_of codecs (new_row new now))

abbrev pub completed : Codecs → CompletionUpdate → TaskRecord → AppResult Columns
completed codecs update task = do
  guard (fits_i64 update.duration_ms) (invalid_input "duration_ms is too large to persist")
  ok (columns_of codecs (completed_row update task))

module _ (codecs : Codecs) where
  insert_written :
      (new : NewTaskRecord) (now : ℕ) → insert_columns codecs new now ≡ inserted codecs new now
  unfolding insert_columns try_i64
  insert_written new now = elim (Bool-cases (leb new.request.limits.stdout_max_bytes i64_max)) [
    | inr e ↦ rw (insert_columns, try_i64, e) refl
    | inl e ↦ elim (Bool-cases (leb new.request.limits.stderr_max_bytes i64_max)) [
      | inl f ↦ rw (insert_columns, try_i64, e, f) refl
      | inr f ↦ rw (insert_columns, try_i64, e, f) refl
    ]
  ]

  complete_written :
      (update : CompletionUpdate) (task : TaskRecord)
      → complete_columns codecs update (columns_of codecs task) ≡ completed codecs update task
  unfolding complete_columns
  complete_written update task = elim (Bool-cases (fits_i64 update.duration_ms)) [
    | inl e ↦
        rw
          (
            complete_columns,
            transpose-try_i64 "duration_ms is too large to persist" update.duration_ms,
            e,
            is_some-map_option codecs.reservation.to_json task.reservation,
            error_code_columns update.error,
          )
          refl
    | inr e ↦
        rw
          (
            complete_columns,
            transpose-try_i64 "duration_ms is too large to persist" update.duration_ms,
            e,
          )
          refl
  ]

-- What serde_json documents, of the values of a new task.
pub record NewParsesBack (codecs : Codecs) (new : NewTaskRecord) : Type 0 where
  pub execution : ParsesBack codecs.execution new.request.execution
  pub limits : ParsesBack codecs.limits new.request.limits
  pub sandbox : ParsesBack codecs.sandbox new.request.sandbox
  pub metadata : ParsesBack codecs.metadata new.request.metadata
  pub plan : ParsesBack codecs.plan new.execution_plan
  pub context : MayParseBack codecs.context new.control_context

-- A task that has been submitted and has not been dispatched: what it has of its submission, and
-- what it has not yet.
pub record IsNew (new : NewTaskRecord) (now : ℕ) (task : TaskRecord) : Type 0 where
  pub task_id : task.task_id ≡ new.task_id
  pub handle_id : task.handle_id ≡ new.task_id
  pub status : task.status ≡ TaskStatus.accepted
  pub execution : task.execution ≡ new.request.execution
  pub limits : task.limits ≡ new.request.limits
  pub sandbox : task.sandbox ≡ new.request.sandbox
  pub metadata : task.metadata ≡ new.request.metadata
  pub created_at : task.created_at ≡ now
  pub updated_at : task.updated_at ≡ now
  pub task_dir : task.task_dir ≡ new.task_dir
  pub workspace_dir : task.workspace_dir ≡ new.workspace_dir
  pub request_path : task.request_path ≡ new.request_path
  pub result_path : task.result_path ≡ new.result_path
  pub stdout_path : task.stdout_path ≡ new.stdout_path
  pub stderr_path : task.stderr_path ≡ new.stderr_path
  pub script_path : task.script_path ≡ new.script_path
  pub stdout_max_bytes : task.stdout_max_bytes ≡ new.request.limits.stdout_max_bytes
  pub stderr_max_bytes : task.stderr_max_bytes ≡ new.request.limits.stderr_max_bytes
  pub execution_plan : task.execution_plan ≡ some new.execution_plan
  pub control_context : task.control_context ≡ new.control_context
  pub not_started : task.started_at ≡ none
  pub not_finished : task.finished_at ≡ none
  pub not_killed : task.kill_requested ≡ false
  pub not_reserved : task.reservation ≡ none
  pub no_result : task.result_json ≡ none

insert_columns-row :
    (codecs : Codecs) (new : NewTaskRecord) (now : ℕ) (columns : Columns)
    → insert_columns codecs new now ≡ ok columns
    → columns ≡ columns_of codecs (new_row new now)
insert_columns-row codecs new now columns h =
    let written = sym (insert_written codecs new now) ∙ h in
    let (x, p, rest) =
      >>=-eq-ok (guard (leb new.request.limits.stdout_max_bytes i64_max) _) _ columns written in
    let (y, q, last) =
      >>=-eq-ok (guard (leb new.request.limits.stderr_max_bytes i64_max) _) _ columns rest in
    sym (ok_injective last)

-- The columns that the INSERT of a new task writes can be read back, where the JSON texts parse as the
-- values that they were written for and the time is one that chrono has. The task that is read has the
-- identifier, the request, the paths, the plan and the control context of the submission, each in its
-- place; it is accepted, and it has not started or finished, is not killed, and has no reservation and
-- no result.
pub row_to_task_record-insert_columns :
    (reader : Reader) (new : NewTaskRecord) (now : ℕ) (columns : Columns)
    → insert_columns reader.codecs new now ≡ ok columns
    → NewParsesBack reader.codecs new
    → now ≤ reader.max_timestamp
    → (task : TaskRecord) × (row_to_task_record reader columns ≡ ok task) × IsNew new now task
row_to_task_record-insert_columns reader new now columns h back time =
    let same = insert_columns-row reader.codecs new now columns h in
    let read =
      row_to_task_record-columns_of reader (new_row new now)
        (record {
          execution = back.execution;
          limits = back.limits;
          sandbox = back.sandbox;
          metadata = back.metadata;
          error = tt;
          usage = tt;
          result_json = tt;
          execution_plan = back.plan;
          control_context = back.context;
          reservation = tt;
        })
        (record {
          created_at = time;
          updated_at = time;
          started_at = tt;
          finished_at = tt;
          kill_requested_at = tt;
          reserved_at = tt;
          released_at = tt;
          shim_pid = tt;
          pid = tt;
          pgid = tt;
          exit_code = tt;
          exit_signal = tt;
        }) in
    (
      new_row new now,
      ap (row_to_task_record reader) same ∙ read,
      record {
        task_id = refl;
        handle_id = refl;
        status = refl;
        execution = refl;
        limits = refl;
        sandbox = refl;
        metadata = refl;
        created_at = refl;
        updated_at = refl;
        task_dir = refl;
        workspace_dir = refl;
        request_path = refl;
        result_path = refl;
        stdout_path = refl;
        stderr_path = refl;
        script_path = refl;
        stdout_max_bytes = refl;
        stderr_max_bytes = refl;
        execution_plan = refl;
        control_context = refl;
        not_started = refl;
        not_finished = refl;
        not_killed = refl;
        not_reserved = refl;
        no_result = refl;
      },
    )
