-- ===== src/Task/Publisher.antt =====
-- src/task/statuspublisher.rs, and the statements of src/task/timing.rs: the estimates and the
-- notifications that follow a write of `task_runs`.
pub mod Effects
use dreamscroll.Base.{
  ℕ, ◌+◌, ◌-◌, ◌/◌, ◌≡◌, Bool, true, false, not, Option, none, some, List, [], ◌∷◌, ◌++◌, ◌&&◌,
  ◌||◌, ◌==◌, if◌then◌else◌, length, take, leb,
}
use mathlib.Core.Option
use dreamscroll.Base.Words.{I32}
use dreamscroll.Base.Int.{ℤ}
use dreamscroll.Base.Text.{Text, codes, text_eq}
use dreamscroll.Base.Results.{Result, ok, err, Exec, pure, raise, lift, map_err, ◌>>=◌, ◌>>◌}
use dreamscroll.Error.{ApiError}
use dreamscroll.Task.Status.{
  TaskRunStatus, queued, in_progress, error_will_retry, complete_success, complete_failure,
  submission_failed, as_i32,
}
use dreamscroll.Task.Definition.{Task, TaskRun}
use dreamscroll.Task.Row.{
  Row, UniqueKey, run_id_key, task_run_key, backfill_task_key, find, filter, latest, same_text,
}
use dreamscroll.Task.Timing.{
  TaskTimingEstimate, Measure, queue_wait, processing_successful, measure_of, recent_samples,
}
use dreamscroll.Task.Database.{
  World, Timing, DbErr, violation, connection, report_of, query, statement, insert_row, update_row,
}
use dreamscroll.Sse.Event.{TaskStatusUpdate, from_row}

same_measure : Measure → Measure → Bool
same_measure queue_wait queue_wait = true
same_measure processing_successful processing_successful = true
same_measure _ _ = false

find_timing : Text → Measure → List Timing → Option TaskTimingEstimate
unfolding same_measure
find_timing task_type m [] = none
find_timing task_type m (t ∷ ts) =
    if text_eq t.estimate.task_type task_type && same_measure t.measure m
    then some t.estimate
    else find_timing task_type m ts

-- A failed query is no estimate.
answer : Result DbErr (Option TaskTimingEstimate) × World → Option TaskTimingEstimate × World
answer (ok found, w) = (found, w)
answer (err e, w) = (none, w)

-- `TimingEstimator::client_estimate`.
unfoldable pub client_estimate : Text → World → Option TaskTimingEstimate × World
unfolding answer find_timing query
client_estimate task_type w =
    answer (query (λ v. find_timing task_type processing_successful v.timings) w)

published_event : TaskStatusUpdate → World → Result DbErr (Unit {0}) × World
published_event event w = (ok tt, record w { published = w.published ++ event ∷ [] })

notify : Option TaskStatusUpdate → World → World
unfolding statement published_event
notify none w = w
notify (some event) w = (statement (published_event event) w).1

announce : Row → Option TaskTimingEstimate × World → World
unfolding notify
announce row (estimate, w) = notify (from_row row estimate) w

-- `StatusPublisher::publish`: best effort, no error comes back.
unfoldable pub publish : Row → World → World
unfolding client_estimate announce
publish row w = if w.env.subscribed then announce row (client_estimate row.task_type w) else w

put_timing : Timing → List Timing → List Timing
unfolding same_measure
put_timing t [] = t ∷ []
put_timing t (s ∷ ts) =
    if text_eq s.estimate.task_type t.estimate.task_type && same_measure s.measure t.measure
    then t ∷ ts
    else s ∷ put_timing t ts

upserted : Measure → Text → List ℤ → World → Result DbErr (Unit {0}) × World
unfolding put_timing
upserted m task_type samples w = (
  ok tt,
  record w {
    timings =
        put_timing (record { measure = m; estimate = w.env.summarize m task_type samples })
          w.timings;
  },
)

-- The upsert, unless there is no sample.
store_timing : Measure → Text → List ℤ → Exec World DbErr (Unit {0})
unfolding upserted statement pure
store_timing m task_type [] = pure tt
store_timing m task_type (s ∷ samples) = statement (upserted m task_type (s ∷ samples))

refresh_measure : Text → Option Measure → Exec World DbErr (Unit {0})
unfolding store_timing query pure
refresh_measure task_type none = pure tt
refresh_measure task_type (some m) = do
  samples ← query (λ w. recent_samples m task_type w.rows)
  store_timing m task_type samples

unfoldable pub refresh_timing_measures : Text → TaskRunStatus → Exec World DbErr (Unit {0})
unfolding refresh_measure
refresh_timing_measures task_type status = refresh_measure task_type (measure_of status)
