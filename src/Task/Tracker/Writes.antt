-- ===== src/Task/Tracker/Writes.antt =====
-- Every operation of src/task/taskruntracker.rs as a sequence of statements on the table.
use dreamscroll.Base.{ℕ, sym, Bool, true, false, Option, none, some, arith, if◌then◌else◌}
use mathlib.Core.Path.{subst}
use dreamscroll.Base.Words.{I32}
use dreamscroll.Base.Text.{Text}
use dreamscroll.Base.Results.{Result, ok, err, continue}
use dreamscroll.Error.{ApiError}
use dreamscroll.Task.Status.{
  TaskRunStatus, submission_failed, queued, in_progress, error_will_retry, complete_success,
  complete_failure,
}
use dreamscroll.Task.Definition.{Task, TaskRun}
use dreamscroll.Task.Row.{Row, SameIdentity}
use dreamscroll.Task.Table.{Reach, here, Reach-trans, SameIdentity-refl}
use dreamscroll.Task.Database.{World, DbErr, insert_row}
use dreamscroll.Task.Database.Effects.{
  SameTable, SameTable-refl, SameTable-trans, insert_row-Reach, update_row-Reach, query-SameTable,
}
use dreamscroll.Task.Publisher.{refresh_timing_measures}
use dreamscroll.Task.Publisher.Effects.{publish-SameTable, refresh_timing_measures-SameTable}
use dreamscroll.Task.Tracker.{
  Extras, initial_row, after_insert, insert_run, after_write, set_columns, write_status, with_error,
  with_error_columns, set_status, start_columns, mark_in_progress, outcome_columns, record_outcome,
  is_submission_conflict, answered, latest_run, backfill_run, run_by_id, query_run_status,
  query_backfill_run, query_run_by_id,
}

pub SameTable-Reach : {v w : World} → SameTable v w → Reach v.rows w.rows
SameTable-Reach {v} {w} h = subst (Reach v.rows) (sym h.same_rows) here

-- Columns added to a write that are no part of a row's identity.
pub KeepsIdentity : Extras → Type 0
KeepsIdentity extras = (now : ℕ) (r : Row) → SameIdentity (extras now r) r

module _ {T : Type 0} (t : Task T) where
  pub after_insert-SameTable : (x : Result DbErr Row × World) → SameTable x.1 (after_insert t x).1
  unfolding after_insert
  after_insert-SameTable (ok row, w) = publish-SameTable row w
  after_insert-SameTable (err e, w) =
      by_test (is_submission_conflict e) _ _ (SameTable-refl w) (SameTable-refl w)
    where
      by_test :
          (b : Bool) (x y : Result Text Bool × World)
          → SameTable w x.1
          → SameTable w y.1
          → SameTable w (if◌then◌else◌ {A = Result Text Bool × World} b x y).1
      by_test true x y h k = h
      by_test false x y h k = k

  pub insert_run-Reach : (run : TaskRun T) (w : World) → Reach w.rows (insert_run t run w).1.rows
  unfolding insert_run
  insert_run-Reach run w = by_payload (t.payload run.task)
    where
      by_payload :
          (p : Result Text Text)
          → Reach w.rows
              (continue
                (p, w)
                (λ payload v. after_insert t (insert_row (initial_row t run payload) v))).1.rows
      by_payload (ok payload) =
          Reach-trans (insert_row-Reach (initial_row t run payload) w)
            (SameTable-Reach (after_insert-SameTable (insert_row (initial_row t run payload) w)))
      by_payload (err e) = here

  pub after_write-SameTable :
      (status : TaskRunStatus) (x : Result DbErr (Option Row) × World)
      → SameTable x.1 (after_write t status x).1
  unfolding after_write
  after_write-SameTable status (err e, w) = SameTable-refl w
  after_write-SameTable status (ok none, w) = SameTable-refl w
  after_write-SameTable status (ok (some row), w) =
      SameTable-trans (refresh_timing_measures-SameTable t.task_type status w)
        (publish-SameTable row (refresh_timing_measures t.task_type status w).1)

  set_columns-KeepsIdentity :
      (status : TaskRunStatus) (attempts : I32) (extras : Extras)
      → KeepsIdentity extras
      → KeepsIdentity (set_columns status attempts extras)
  unfolding set_columns KeepsIdentity
  set_columns-KeepsIdentity status attempts extras keeps now r =
      let k = keeps now r in
      record {
        same_id_column = k.same_id_column;
        same_logical_id_column = k.same_logical_id_column;
        same_run_id_column = k.same_run_id_column;
        same_run_number_column = k.same_run_number_column;
        same_backfill_id_column = k.same_backfill_id_column;
        same_task_type_column = k.same_task_type_column;
        same_entity_owner_id_column = k.same_entity_owner_id_column;
        same_entity_type_column = k.same_entity_type_column;
        same_entity_id_column = k.same_entity_id_column;
        same_task_payload_column = k.same_task_payload_column;
        same_created_at_column = k.same_created_at_column;
      }

  write_status-Reach :
      (run : TaskRun T) (status : TaskRunStatus) (attempts : I32) (extras : Extras) (w : World)
      → KeepsIdentity extras
      → Reach w.rows (write_status t run status attempts extras w).1.rows
  unfolding write_status
  write_status-Reach run status attempts extras w keeps =
      Reach-trans
        (update_row-Reach run.run_id (set_columns status attempts extras) w
          (unfold KeepsIdentity in set_columns-KeepsIdentity status attempts extras keeps))
        (SameTable-Reach (after_write-SameTable status _))

  with_error-KeepsIdentity :
      (error : Option ApiError) (r : Row) → SameIdentity (with_error error r) r
  unfolding with_error with_error_columns
  with_error-KeepsIdentity none r = SameIdentity-refl r
  with_error-KeepsIdentity (some error) r = ground arith

  pub set_status-Reach :
      (run : TaskRun T) (status : TaskRunStatus) (attempts : I32) (error : Option ApiError)
      (w : World)
      → Reach w.rows (set_status t run status attempts error w).1.rows
  unfolding set_status KeepsIdentity
  set_status-Reach run status attempts error w =
      write_status-Reach run status attempts (λ now row. with_error error row) w
        (λ now r. with_error-KeepsIdentity error r)

  pub mark_in_progress-Reach :
      (run : TaskRun T) (attempts : I32) (w : World)
      → Reach w.rows (mark_in_progress t run attempts w).1.rows
  unfolding mark_in_progress start_columns KeepsIdentity
  mark_in_progress-Reach run attempts w =
      write_status-Reach run in_progress attempts start_columns w (λ now r. ground arith)

  outcome_columns-KeepsIdentity :
      (status : TaskRunStatus) (error : Option ApiError)
      → KeepsIdentity (outcome_columns status error)
  unfolding outcome_columns with_error with_error_columns KeepsIdentity
  outcome_columns-KeepsIdentity complete_success error now r = ground arith
  outcome_columns-KeepsIdentity error_will_retry none now r = ground arith
  outcome_columns-KeepsIdentity error_will_retry (some e) now r = ground arith
  outcome_columns-KeepsIdentity complete_failure none now r = ground arith
  outcome_columns-KeepsIdentity complete_failure (some e) now r = ground arith
  outcome_columns-KeepsIdentity submission_failed error now r = SameIdentity-refl r
  outcome_columns-KeepsIdentity queued error now r = SameIdentity-refl r
  outcome_columns-KeepsIdentity in_progress error now r = SameIdentity-refl r

  pub record_outcome-Reach :
      (run : TaskRun T) (status : TaskRunStatus) (attempts : I32) (error : Option ApiError)
      (w : World)
      → Reach w.rows (record_outcome t run status attempts error w).1.rows
  unfolding record_outcome
  record_outcome-Reach run status attempts error w =
      write_status-Reach run status attempts (outcome_columns status error) w
        (outcome_columns-KeepsIdentity status error)

pub query_run_status-SameTable :
    (logical_id : Text) (run_number owner : Option I32) (w : World)
    → SameTable w (query_run_status logical_id run_number owner w).1
unfolding query_run_status answered
query_run_status-SameTable logical_id run_number owner w =
    query-SameTable (latest_run logical_id run_number owner) w

pub query_backfill_run-SameTable :
    (backfill_id logical_id : Text) (w : World)
    → SameTable w (query_backfill_run backfill_id logical_id w).1
unfolding query_backfill_run answered
query_backfill_run-SameTable backfill_id logical_id w =
    query-SameTable (backfill_run backfill_id logical_id) w

pub query_run_by_id-SameTable :
    (run_id : Text) (owner : Option I32) (w : World)
    → SameTable w (query_run_by_id run_id owner w).1
unfolding query_run_by_id answered
query_run_by_id-SameTable run_id owner w = query-SameTable (run_by_id run_id owner) w
