-- ===== src/Task/Timing.antt =====
-- src/task/timing.rs, the pure part: the aggregates of run times. The statements that read and write
-- them stand in Task/Tracker.antt. The averages and percentiles are computed by the database: they
-- are the function `summarize` of its environment, on the samples that the query selects.
use dreamscroll.Base.{
  ℕ, Bool, true, false, Option, none, some, List, [], ◌∷◌, ◌&&◌, take, leb, ◌==◌, if◌then◌else◌,
}
use dreamscroll.Base.Int.{ℤ, pos, minus, thousands}
use dreamscroll.Base.Text.{Text, text_eq}
use dreamscroll.Task.Status.{
  TaskRunStatus, submission_failed, queued, in_progress, error_will_retry, complete_success,
  complete_failure,
}
use dreamscroll.Task.Row.{Row, filter}

pub data Measure : Type 0 where
  queue_wait processing_successful : Measure

pub record TaskTimingEstimate : Type 0 where
  pub task_type : Text
  pub sample_count : ℕ
  pub duration_ms_avg : ℕ
  pub duration_ms_p50 : ℕ
  pub duration_ms_p75 : ℕ
  pub duration_ms_p90 : ℕ

abbrev minimum_client_estimate_samples : ℕ
minimum_client_estimate_samples = 5

abbrev timing_sample_limit : ℕ
timing_sample_limit = 30

unfoldable pub client_processing_duration_ms : TaskTimingEstimate → Option ℕ
client_processing_duration_ms e =
    if leb minimum_client_estimate_samples e.sample_count then some e.duration_ms_p50 else none

-- Which aggregate a status refreshes, if any.
unfoldable pub measure_of : TaskRunStatus → Option Measure
measure_of in_progress = some queue_wait
measure_of complete_success = some processing_successful
measure_of submission_failed = none
measure_of queued = none
measure_of error_will_retry = none
measure_of complete_failure = none

is_some {ℓ} : {A : Type ℓ} → Option A → Bool
is_some none = false
is_some (some a) = true

is_relevant : Measure → Text → Row → Bool
unfolding is_some
is_relevant queue_wait task_type r =
    text_eq r.task_type task_type && is_some r.processing_started_at
is_relevant processing_successful task_type r =
    text_eq r.task_type task_type && (r.status_code == 4 && is_some r.success_duration_ms)

insert_by_updated : Row → List Row → List Row
insert_by_updated r [] = r ∷ []
insert_by_updated r (s ∷ rows) =
    if leb s.updated_at r.updated_at then r ∷ s ∷ rows else s ∷ insert_by_updated r rows

-- `ORDER BY updated_at DESC`.
sort_by_updated : List Row → List Row
unfolding insert_by_updated
sort_by_updated [] = []
sort_by_updated (r ∷ rows) = insert_by_updated r (sort_by_updated rows)

waited : ℕ → Option ℕ → ℤ
unfolding minus
waited created_at none = pos 0
waited created_at (some started) = minus started created_at

worked : Option ℤ → ℤ
unfolding thousands
worked none = pos 0
worked (some ms) = thousands ms

-- A sample in microseconds. A relevant row has the column that is read.
sample : Measure → Row → ℤ
unfolding waited worked
sample queue_wait r = waited r.created_at r.processing_started_at
sample processing_successful r = worked r.success_duration_ms

samples_of : Measure → List Row → List ℤ
unfolding sample
samples_of m [] = []
samples_of m (r ∷ rows) = sample m r ∷ samples_of m rows

-- The 30 most recent relevant rows, as samples.
unfoldable pub recent_samples : Measure → Text → List Row → List ℤ
unfolding is_relevant sort_by_updated samples_of filter
recent_samples m task_type rows =
    samples_of m
      (take timing_sample_limit (sort_by_updated (filter (is_relevant m task_type) rows)))
