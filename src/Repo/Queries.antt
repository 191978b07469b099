-- ===== src/Repo/Queries.antt =====
-- src/repo.rs: the queries. ORDER BY is a stable sort, so that rows with equal keys come in the
-- order in which they were inserted.
use execgo_runtime.Base.{
  ℕ, suc, Bool, true, false, not, ◌&&◌, ◌||◌, String, Option, none, some, List, [], ◌∷◌, is_some,
  is_none, leb, ◌==◌, if◌then◌else◌, str_eq, i64_max, keep, take, length, sort_by,
}
use execgo_runtime.Base.Dict
use execgo_runtime.Base.Dict.{Dict}
use execgo_runtime.Types.Status.{TaskStatus}
use execgo_runtime.Repo.Rows.{TaskRecord, EventRecord, Store, has_active_reservation}
use execgo_runtime.Repo.Writes.{is_accepted, is_running}
use execgo_runtime.Repo.Codec.{encode_status, encode_error_code}

abbrev pub same_status : TaskStatus → TaskStatus → Bool
same_status TaskStatus.accepted b = elim b [ TaskStatus.accepted ↦ true | _ ↦ false ]
same_status TaskStatus.running b = elim b [ TaskStatus.running ↦ true | _ ↦ false ]
same_status TaskStatus.success b = elim b [ TaskStatus.success ↦ true | _ ↦ false ]
same_status TaskStatus.failed b = elim b [ TaskStatus.failed ↦ true | _ ↦ false ]
same_status TaskStatus.cancelled b = elim b [ TaskStatus.cancelled ↦ true | _ ↦ false ]

-- `Repository::list_events`; the events of a task are stored in the order of their numbers.
unfoldable pub list_events : String → Store → List EventRecord
list_events id s = keep (λ event. str_eq event.task_id id) s.events

-- `Repository::count_by_status`
unfoldable pub count_by_status : TaskStatus → Store → ℕ
count_by_status status s = length (keep (λ task. same_status status task.status) s.tasks)

abbrev pub count_accepted : Store → ℕ
count_accepted = count_by_status TaskStatus.accepted

abbrev pub count_running : Store → ℕ
count_running = count_by_status TaskStatus.running

abbrev pub older : TaskRecord → TaskRecord → Bool
older a b = leb a.created_at b.created_at

-- `LIMIT ?1` with `limit as i64`, of which a negative one is no limit.
abbrev pub limited : ℕ → List TaskRecord → List TaskRecord
limited limit tasks = if leb limit i64_max then take limit tasks else tasks

-- `Repository::list_accepted`
unfoldable pub list_accepted : ℕ → Store → List TaskRecord
list_accepted limit s = limited limit (sort_by older (keep is_accepted s.tasks))

abbrev pub is_open : TaskRecord → Bool
is_open task = is_accepted task || is_running task

-- `Repository::list_non_terminal`
unfoldable pub list_non_terminal : Store → List TaskRecord
list_non_terminal s = sort_by older (keep is_open s.tasks)

-- In an ascending order NULL comes first.
abbrev null_first : Option ℕ → Option ℕ → Bool
null_first none b = true
null_first (some a) none = false
null_first (some a) (some b) = leb a b

abbrev same_time : Option ℕ → Option ℕ → Bool
same_time none none = true
same_time (some a) (some b) = a == b
same_time _ _ = false

-- `ORDER BY reserved_at_ms ASC, created_at_ms ASC`
abbrev pub reserved_first : TaskRecord → TaskRecord → Bool
reserved_first a b =
    if same_time a.reserved_at b.reserved_at
    then older a b
    else null_first a.reserved_at b.reserved_at

-- `Repository::list_active_reservations`
unfoldable pub list_active_reservations : Store → List TaskRecord
list_active_reservations s = sort_by reserved_first (keep has_active_reservation s.tasks)

abbrev is_waiting : TaskRecord → Bool
is_waiting task = is_accepted task && (is_none task.reservation || is_some task.released_at)

-- `Repository::count_accepted_waiting`
unfoldable pub count_accepted_waiting : Store → ℕ
count_accepted_waiting s = length (keep is_waiting s.tasks)

abbrev finished_by : ℕ → Option ℕ → Bool
finished_by cutoff none = false
finished_by cutoff (some time) = leb time cutoff

abbrev pub is_collectable : ℕ → TaskRecord → Bool
is_collectable cutoff task = not (is_open task) && finished_by cutoff task.finished_at

abbrev pub finished_first : TaskRecord → TaskRecord → Bool
finished_first a b = null_first a.finished_at b.finished_at

-- `Repository::list_gc_candidates`
unfoldable pub list_gc_candidates : ℕ → Store → List TaskRecord
list_gc_candidates cutoff s = sort_by finished_first (keep (is_collectable cutoff) s.tasks)

pub record MetricsSnapshot : Type 0 where
  pub by_status : Dict ℕ
  pub by_error_code : Dict ℕ
  pub finished_durations_ms : List ℕ

-- `SELECT key, COUNT(*) .. GROUP BY key`
abbrev count_key : Dict ℕ → String → Dict ℕ
count_key d key = elim (Dict.get d key) [
  | none ↦ Dict.put d key 1
  | some n ↦ Dict.put d key (suc n)
]

count_statuses : List TaskRecord → Dict ℕ → Dict ℕ
unfolding Dict.get Dict.put encode_status
count_statuses [] d = d
count_statuses (task ∷ rest) d = count_statuses rest (count_key d (encode_status task.status))

count_codes : List TaskRecord → Dict ℕ → Dict ℕ
unfolding Dict.get Dict.put encode_error_code
count_codes [] d = d
count_codes (task ∷ rest) d =
    count_codes rest
      (elim task.error_code [ none ↦ d | some code ↦ count_key d (encode_error_code code) ])

durations : List TaskRecord → List ℕ
durations [] = []
durations (task ∷ rest) =
    let more = durations rest in elim task.duration_ms [ none ↦ more | some d ↦ d ∷ more ]

-- `Repository::metrics_snapshot`
unfoldable pub metrics_snapshot : Store → MetricsSnapshot
unfolding count_statuses count_codes durations
metrics_snapshot s = record {
  by_status = count_statuses s.tasks [];
  by_error_code = count_codes s.tasks [];
  finished_durations_ms = durations s.tasks;
}
