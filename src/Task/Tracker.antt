-- ===== src/Task/Tracker.antt =====
-- src/task/taskruntracker.rs: every read and write of `task_runs`.
pub mod Truncation
pub mod Durations
pub mod Writes
pub mod Results
pub mod Totality
pub mod Insertions
use dreamscroll.Base.{
  ℕ, ◌+◌, ◌-◌, ◌/◌, ◌≡◌, Bool, true, false, not, Option, none, some, List, [], ◌∷◌, ◌++◌, ◌&&◌,
  ◌||◌, ◌==◌, if◌then◌else◌, length, take, leb,
}
use mathlib.Core.Option
use dreamscroll.Base.Words.{I32}
use dreamscroll.Base.Int.{ℤ, minus, thousandths}
use dreamscroll.Base.Text.{Text, codes, text_eq}
use dreamscroll.Base.Results.{Result, ok, err, Exec, pure, raise, lift, map_err, ◌>>=◌, ◌>>◌}
use dreamscroll.Error.{ApiError}
use dreamscroll.Task.Status.{
  TaskRunStatus, queued, in_progress, error_will_retry, complete_success, complete_failure,
  submission_failed, as_i32,
}
use dreamscroll.Task.Definition.{Task, TaskRun}
use dreamscroll.Task.Row.{
  Row, UniqueKey, run_id_key, task_run_key, backfill_task_key, find, filter, latest, same_text,
}
use dreamscroll.Task.Timing.{
  TaskTimingEstimate, Measure, queue_wait, processing_successful, measure_of, recent_samples,
}
use dreamscroll.Task.Database.{
  World, Timing, DbErr, violation, connection, report_of, query, statement, insert_row, update_row,
}
use dreamscroll.Task.Publisher.{publish, refresh_timing_measures}
use dreamscroll.Sse.Event.{TaskStatusUpdate, from_row}

abbrev error_message_max_chars : ℕ
error_message_max_chars = 2000

-- The appended character is the ellipsis, U+2026.
pub truncate_error_message : Text → Text
truncate_error_message message =
    if leb (length message) error_message_max_chars
    then message
    else take 1999 message ++ 0x2026 ∷ []

unfoldable pub with_error_columns : ApiError → Row → Row
with_error_columns error row = record row {
  last_error_code = some error.inner_status_code;
  last_error_message = some (truncate_error_message error.error);
}

unfoldable pub with_error : Option ApiError → Row → Row
unfolding with_error_columns
with_error none row = row
with_error (some error) row = with_error_columns error row

-- Only the keys that arbitrate submissions; a clash of run ids stays an error.
unfoldable pub is_submission_conflict : DbErr → Bool
is_submission_conflict (connection report) = false
is_submission_conflict (violation run_id_key report) = false
is_submission_conflict (violation task_run_key report) = true
is_submission_conflict (violation backfill_task_key report) = true

-- Milliseconds since the attempt began, NULL where none did: below 0 if the clock went back, and
-- rounded to the nearest, as a cast to BIGINT does.
unfoldable pub attempt_duration_ms : ℕ → Row → Option ℤ
unfolding thousandths minus
attempt_duration_ms now row =
    Option.map (λ started. thousandths (minus now started)) row.processing_started_at

-- Columns that a write adds to the common ones; the first argument is the time of the statement.
abbrev pub Extras : Type 0
Extras = ℕ → Row → Row

unfoldable pub set_columns : TaskRunStatus → I32 → Extras → Extras
set_columns status attempts extras now row = record (extras now row) {
  status_code = as_i32 status;
  attempts = attempts;
  updated_at = now;
}

unfoldable pub start_columns : Extras
start_columns now row = record row { processing_started_at = some now }

unfoldable pub outcome_columns : TaskRunStatus → Option ApiError → Extras
unfolding with_error attempt_duration_ms
outcome_columns complete_success error now row = record row {
  success_duration_ms = attempt_duration_ms now row;
}
outcome_columns error_will_retry error now row =
    with_error error (record row { last_error_duration_ms = attempt_duration_ms now row })
outcome_columns complete_failure error now row =
    with_error error (record row { last_error_duration_ms = attempt_duration_ms now row })
outcome_columns submission_failed error now row = row
outcome_columns queued error now row = row
outcome_columns in_progress error now row = row

module _ {T : Type 0} (t : Task T) where
  initial_row : TaskRun T → Text → Row
  unfolding as_i32
  initial_row run payload = record {
    id = 0;
    logical_id = run.logical_id;
    run_id = run.run_id;
    run_number = run.run_number;
    backfill_id = run.backfill_id;
    task_type = t.task_type;
    entity_owner_id = t.entity_owner_id run.task;
    entity_type = t.entity_type;
    entity_id = t.entity_id run.task;
    task_payload = some payload;
    status_code = as_i32 queued;
    attempts = 0;
    created_at = 0;
    processing_started_at = none;
    last_error_code = none;
    last_error_message = none;
    last_error_duration_ms = none;
    success_duration_ms = none;
    updated_at = 0;
  }

  pub after_insert : Result DbErr Row × World → Result Text Bool × World
  unfolding publish is_submission_conflict report_of
  after_insert (ok row, w) = (ok true, publish row w)
  after_insert (err e, w) =
      if is_submission_conflict e then (ok false, w) else (err (report_of e), w)

  unfoldable pub insert_run : TaskRun T → Exec World Text Bool
  unfolding initial_row after_insert insert_row lift
  insert_run run = do
    payload ← lift (t.payload run.task)
    λ w. after_insert (insert_row (initial_row run payload) w)

  pub after_write :
      TaskRunStatus → Result DbErr (Option Row) × World → Result Text (Unit {0}) × World
  unfolding publish refresh_timing_measures report_of
  after_write status (err e, w) = (err (report_of e), w)
  after_write status (ok none, w) = (ok tt, w)
  after_write status (ok (some row), w) =
      (ok tt, publish row (refresh_timing_measures t.task_type status w).1)

  unfoldable pub write_status :
      TaskRun T → TaskRunStatus → I32 → Extras → Exec World Text (Unit {0})
  unfolding after_write set_columns update_row
  write_status run status attempts extras w =
      after_write status (update_row run.run_id (set_columns status attempts extras) w)

  unfoldable pub set_status :
      TaskRun T → TaskRunStatus → I32 → Option ApiError → Exec World Text (Unit {0})
  unfolding write_status with_error
  set_status run status attempts error =
      write_status run status attempts (λ now row. with_error error row)

  unfoldable pub mark_in_progress : TaskRun T → I32 → Exec World Text (Unit {0})
  unfolding write_status start_columns
  mark_in_progress run attempts = write_status run in_progress attempts start_columns

  unfoldable pub record_outcome :
      TaskRun T → TaskRunStatus → I32 → Option ApiError → Exec World Text (Unit {0})
  unfolding write_status outcome_columns
  record_outcome run status attempts error =
      write_status run status attempts (outcome_columns status error)

-- An optional filter: absent, it lets every row pass.
passes : Option I32 → I32 → Bool
passes none v = true
passes (some wanted) v = v == wanted

answered : {A : Type 0} → Result DbErr A × World → Result Text A × World
unfolding report_of
answered (r, w) = (map_err report_of r, w)

-- The selections of the queries below.
unfoldable pub latest_run : Text → Option I32 → Option I32 → World → Option Row
unfolding passes filter latest
latest_run logical_id run_number owner w = latest (
    filter
      (λ r.
        text_eq r.logical_id logical_id
        && (passes run_number r.run_number && passes owner r.entity_owner_id))
      w.rows)

unfoldable pub backfill_run : Text → Text → World → Option Row
unfolding find
backfill_run backfill_id logical_id w =
    find (λ r. same_text r.backfill_id (some backfill_id) && text_eq r.logical_id logical_id) w.rows

unfoldable pub run_by_id : Text → Option I32 → World → Option Row
unfolding passes find
run_by_id run_id owner w =
    find (λ r. text_eq r.run_id run_id && passes owner r.entity_owner_id) w.rows

unfoldable pub query_run_status : Text → Option I32 → Option I32 → Exec World Text (Option Row)
unfolding query answered latest_run
query_run_status logical_id run_number owner w =
    answered (query (latest_run logical_id run_number owner) w)

unfoldable pub query_backfill_run : Text → Text → Exec World Text (Option Row)
unfolding query answered backfill_run
query_backfill_run backfill_id logical_id w =
    answered (query (backfill_run backfill_id logical_id) w)

unfoldable pub query_run_by_id : Text → Option I32 → Exec World Text (Option Row)
unfolding query answered run_by_id
query_run_by_id run_id owner w = answered (query (run_by_id run_id owner) w)
