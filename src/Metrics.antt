-- ===== src/Metrics.antt =====
-- src/metrics.rs: the snapshot of the metrics as text for Prometheus.
pub mod Buckets
mod Examples
use execgo_runtime.Base.{
  ℕ, suc, String, Bool, Option, none, some, List, [], ◌∷◌, ◌++◌, map, leb, length, sort_by,
  if◌then◌else◌, saturating_add, str_append, unwrap_or,
}
use execgo_runtime.Base.Text.{decimal}
use execgo_runtime.Base.Dict
use execgo_runtime.Base.Dict.{Dict, entries}
use execgo_runtime.Repo.Queries.{MetricsSnapshot}

-- `BUCKETS_MS`
abbrev pub buckets_ms : List ℕ
buckets_ms = 100 ∷ 250 ∷ 500 ∷ 1000 ∷ 5000 ∷ 10000 ∷ 30000 ∷ 60000 ∷ 300000 ∷ []

-- `slice::partition_point` on a slice whose first elements are those that satisfy the predicate.
unfoldable pub partition_point : (ℕ → Bool) → List ℕ → ℕ
partition_point p [] = 0
partition_point p (x ∷ xs) = let rest = suc (partition_point p xs) in if p x then rest else 0

-- `iter().copied().fold(total, u64::saturating_add)`
unfoldable pub saturating_sum : ℕ → List ℕ → ℕ
saturating_sum total [] = total
saturating_sum total (x ∷ xs) = saturating_sum (saturating_add total x) xs

-- The numbers of the histogram: for each bound the durations up to it, their sum, their number.
pub record Histogram : Type 0 where
  pub buckets : List (ℕ × ℕ)
  pub sum : ℕ
  pub count : ℕ

unfoldable pub histogram : List ℕ → Histogram
unfolding partition_point saturating_sum
histogram durations = record {
  buckets = map (λ bucket. (bucket, partition_point (λ d. leb d bucket) sorted)) buckets_ms;
  sum = saturating_sum 0 sorted;
  count = length sorted;
}
  where
    sorted : List ℕ
    sorted = sort_by leb durations

-- The texts of a list, one after the other.
abbrev concat : List String → String
concat [] = ""
concat (x ∷ xs) = str_append x (concat xs)

-- `name{label="key"} value`, for each entry of a map in the order of its keys.
abbrev samples : String → List (String × ℕ) → String
samples head [] = ""
samples head ((key, value) ∷ rest) = str_append head (
    str_append key
      (str_append "\"} " (str_append (decimal value) (str_append "\n" (samples head rest)))))

abbrev bucket_line : ℕ × ℕ → String
bucket_line (bucket, count) = concat (
    "execgo_runtime_task_duration_ms_bucket{le=\""
    ∷ decimal bucket
    ∷ "\"} "
    ∷ decimal count
    ∷ "\n"
    ∷ [])

-- `render_prometheus`
unfoldable pub render_prometheus : MetricsSnapshot → String
unfolding histogram Dict.get decimal
render_prometheus snapshot = concat (
    "# HELP execgo_runtime_tasks_total Total tasks by terminal and in-flight status\n"
    ∷ "# TYPE execgo_runtime_tasks_total counter\n"
    ∷ samples "execgo_runtime_tasks_total{status=\"" (entries snapshot.by_status)
    ∷ "# HELP execgo_runtime_tasks_running Tasks currently running\n"
    ∷ "# TYPE execgo_runtime_tasks_running gauge\n"
    ∷ "execgo_runtime_tasks_running "
    ∷ decimal (unwrap_or 0 (Dict.get snapshot.by_status "running"))
    ∷ "\n"
    ∷ "# HELP execgo_runtime_task_errors_total Total tasks by error code\n"
    ∷ "# TYPE execgo_runtime_task_errors_total counter\n"
    ∷ samples "execgo_runtime_task_errors_total{code=\"" (entries snapshot.by_error_code)
    ∷ "# HELP execgo_runtime_task_duration_ms Task duration histogram in milliseconds\n"
    ∷ "# TYPE execgo_runtime_task_duration_ms histogram\n"
    ∷ concat (map bucket_line h.buckets)
    ∷ "execgo_runtime_task_duration_ms_bucket{le=\"+Inf\"} "
    ∷ decimal h.count
    ∷ "\n"
    ∷ "execgo_runtime_task_duration_ms_sum "
    ∷ decimal h.sum
    ∷ "\n"
    ∷ "execgo_runtime_task_duration_ms_count "
    ∷ decimal h.count
    ∷ "\n"
    ∷ [])
  where
    h : Histogram
    h = histogram snapshot.finished_durations_ms
