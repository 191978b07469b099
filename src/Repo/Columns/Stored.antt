-- ===== src/Repo/Columns/Stored.antt =====
-- The reading of the columns of a task finds the task again.
use execgo_runtime.Base.{
  ℕ, ◌≤◌, ◌≡◌, refl, Bool, true, false, Option, none, some, le→leb, map_option, arith, ap,
}
use execgo_runtime.Errors.{ok, or_err, sqlite}
use execgo_runtime.Types.Status.{ErrorCode}
use execgo_runtime.Repo.Rows.{TaskRecord}
use execgo_runtime.Repo.Codec.{
  encode_error_code, decode_error_code, decode-encode_status, decode-encode_error_code,
}
use execgo_runtime.Repo.Columns.{
  pos, Json, Reader, i32_max, u32_max, is_set, at_least_zero, from_json, transpose, get_i32,
  ts_millis_to_utc, as_u32, row_to_task_record,
}
use execgo_runtime.Repo.Columns.Represented.{
  flag, columns_of, ParsesBack, MayParseBack, AllParseBack, AtMost, Fits,
}

from_json-to_json :
    {A : Type 0} (json : Json A) (a : A)
    → ParsesBack json a
    → from_json json (json.to_json a) ≡ ok a
unfolding from_json
from_json-to_json json a back = rw (from_json, back) refl

transpose-to_json :
    {A : Type 0} (json : Json A) (o : Option A)
    → MayParseBack json o
    → transpose (from_json json) (map_option json.to_json o) ≡ ok o
transpose-to_json json none back = refl
transpose-to_json json (some a) back = rw (from_json-to_json json a back) refl

transpose-error_code :
    (o : Option ErrorCode)
    → transpose
        (λ value. or_err (decode_error_code value) (sqlite "invalid error code"))
        (map_option encode_error_code o)
      ≡ ok o
transpose-error_code none = refl
transpose-error_code (some c) = rw (decode-encode_error_code c) refl

transpose-get_i32 : (o : Option ℕ) → AtMost i32_max o → transpose get_i32 o ≡ ok o
unfolding get_i32
transpose-get_i32 none h = refl
transpose-get_i32 (some n) h = rw (get_i32, le→leb n i32_max h) refl

map_option-back :
    {A B : Type 0} (write : A → B) (read : B → A)
    → ((a : A) → read (write a) ≡ a)
    → (o : Option A) → map_option read (map_option write o) ≡ o
map_option-back write read back none = refl
map_option-back write read back (some a) = ap some (back a)

map_option-as_u32 : (o : Option ℕ) → AtMost u32_max o → map_option as_u32 (map_option pos o) ≡ o
map_option-as_u32 none h = refl
map_option-as_u32 (some n) h = ap some (omega arith)

is_set-flag : (b : Bool) → is_set (flag b) ≡ b
is_set-flag true = refl
is_set-flag false = refl

module _ (reader : Reader) where
  ts_millis_to_utc-same : (n : ℕ) → n ≤ reader.max_timestamp → ts_millis_to_utc reader n ≡ n
  unfolding ts_millis_to_utc
  ts_millis_to_utc-same n h = rw (ts_millis_to_utc, le→leb n reader.max_timestamp h) refl

  map_option-ts_millis_to_utc :
      (o : Option ℕ) → AtMost reader.max_timestamp o → map_option (ts_millis_to_utc reader) o ≡ o
  map_option-ts_millis_to_utc none h = refl
  map_option-ts_millis_to_utc (some n) h = ap some (ts_millis_to_utc-same n h)

  -- The reading of the columns of a task finds the task, where the JSON texts parse as the values that
  -- they were written for, the times are times that chrono has, process numbers fit 32 bits, and the
  -- process group, the exit code and the signal fit a signed number of 32 bits.
  pub row_to_task_record-columns_of :
      (task : TaskRecord)
      → AllParseBack reader.codecs task
      → Fits reader task
      → row_to_task_record reader (columns_of reader.codecs task) ≡ ok task
  unfolding row_to_task_record
  row_to_task_record-columns_of task back fits =
      let codecs = reader.codecs in
      rw
        (
          row_to_task_record,
          decode-encode_status task.status,
          from_json-to_json codecs.execution task.execution back.execution,
          from_json-to_json codecs.limits task.limits back.limits,
          from_json-to_json codecs.sandbox task.sandbox back.sandbox,
          from_json-to_json codecs.metadata task.metadata back.metadata,
          transpose-get_i32 task.pgid fits.pgid,
          transpose-get_i32 task.exit_code fits.exit_code,
          transpose-get_i32 task.exit_signal fits.exit_signal,
          transpose-error_code task.error_code,
          transpose-to_json codecs.error task.error back.error,
          transpose-to_json codecs.usage task.usage back.usage,
          transpose-to_json codecs.result task.result_json back.result_json,
          transpose-to_json codecs.plan task.execution_plan back.execution_plan,
          transpose-to_json codecs.context task.control_context back.control_context,
          transpose-to_json codecs.reservation task.reservation back.reservation,
          ts_millis_to_utc-same task.created_at fits.created_at,
          ts_millis_to_utc-same task.updated_at fits.updated_at,
          map_option-ts_millis_to_utc task.started_at fits.started_at,
          map_option-ts_millis_to_utc task.finished_at fits.finished_at,
          map_option-ts_millis_to_utc task.kill_requested_at fits.kill_requested_at,
          map_option-ts_millis_to_utc task.reserved_at fits.reserved_at,
          map_option-ts_millis_to_utc task.released_at fits.released_at,
          map_option-back pos at_least_zero (λ n. refl) task.duration_ms,
          map_option-as_u32 task.shim_pid fits.shim_pid,
          map_option-as_u32 task.pid fits.pid,
          is_set-flag task.kill_requested,
          is_set-flag task.timeout_triggered,
        )
        refl
