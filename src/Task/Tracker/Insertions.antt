-- ===== src/Task/Tracker/Insertions.antt =====
-- The insertion of a new run: `insert_run` of src/task/taskruntracker.rs.
use dreamscroll.Base.{
  ℕ, ◌≡◌, refl, ap, ◌∙◌, Bool, true, false, none, some, List, [], ◌∷◌, ◌++◌, if◌then◌else◌,
}
use dreamscroll.Base.Text.{Text}
use dreamscroll.Base.Results.{Result, ok, err, lift, continue}
use dreamscroll.Task.Status.{as_i32}
use dreamscroll.Task.Definition.{Task, TaskRun}
use dreamscroll.Task.Row.{Row, find_violation, same_run_id, same_ordinal, same_backfill}
use dreamscroll.Task.Database.{World, DbErr, insert_row, advance, report_of}
use dreamscroll.Task.Database.Effects.{insert_row-ok}
use dreamscroll.Task.Tracker.{initial_row, after_insert, insert_run, is_submission_conflict}
use dreamscroll.Task.Tracker.Writes.{after_insert-SameTable}

module _ {T : Type 0} (t : Task T) where
  -- The row of a run that waits in the queue.
  abbrev pub waiting : TaskRun T → Text → ℕ → ℕ → Row
  waiting run payload id now = record {
    id = id;
    logical_id = run.logical_id;
    run_id = run.run_id;
    run_number = run.run_number;
    backfill_id = run.backfill_id;
    task_type = t.task_type;
    entity_owner_id = t.entity_owner_id run.task;
    entity_type = t.entity_type;
    entity_id = t.entity_id run.task;
    task_payload = some payload;
    status_code = 1;
    attempts = 0;
    created_at = now;
    processing_started_at = none;
    last_error_code = none;
    last_error_message = none;
    last_error_duration_ms = none;
    success_duration_ms = none;
    updated_at = now;
  }

  -- A run was recorded between two tables, at the end of the second one.
  pub record Recorded (run : TaskRun T) (before after : List Row) : Type 0 where
    pub payload : Text
    pub row_id : ℕ
    pub now : ℕ
    pub serialized : t.payload run.task ≡ ok payload
    pub new : find_violation (waiting run payload row_id now) before ≡ none
    pub written : after ≡ before ++ waiting run payload row_id now ∷ []

  after_insert-created :
      (x : Result DbErr Row × World) → (after_insert t x).0 ≡ ok true → (row : Row) × (x.0 ≡ ok row)
  unfolding after_insert
  after_insert-created (ok row, w) h = (row, refl)
  after_insert-created (err e, w) h = by_test (is_submission_conflict e) h
    where
      by_test :
          (b : Bool)
          → (if◌then◌else◌ {A = Result Text Bool × World} b (ok false, w) (err (report_of e), w)).0
            ≡ ok true
          → (row : Row) × (err e ≡ ok row)
      by_test true k = cc
      by_test false k = cc

  insert-Recorded :
      (run : TaskRun T) (payload : Text) (w : World)
      → t.payload run.task ≡ ok payload
      → (after_insert t (insert_row (initial_row t run payload) w)).0 ≡ ok true
      → Recorded run w.rows (after_insert t (insert_row (initial_row t run payload) w)).1.rows
  unfolding initial_row as_i32 find_violation same_run_id same_ordinal same_backfill
  insert-Recorded run payload w serialized h =
      let x = insert_row (initial_row t run payload) w in
      let (stored, e) = after_insert-created x h in
      let (free, same, grown) = insert_row-ok (initial_row t run payload) w stored e in
      record {
        payload = payload;
        row_id = w.next_id;
        now = (advance w).now;
        serialized = serialized;
        new = free;
        written = (after_insert-SameTable t x).same_rows ∙ grown ∙ ap (λ r. w.rows ++ r ∷ []) same;
      }

  -- An insertion that reports a new run has recorded it, waiting, at the end of the table.
  pub insert_run-created :
      (run : TaskRun T) (w : World)
      → (insert_run t run w).0 ≡ ok true
      → Recorded run w.rows (insert_run t run w).1.rows
  unfolding insert_run lift
  insert_run-created run w = by_payload (t.payload run.task) refl
    where
      by_payload :
          (p : Result Text Text)
          → t.payload run.task ≡ p
          → let y =
              continue
                (p, w)
                (λ payload v. after_insert t (insert_row (initial_row t run payload) v)) in
            y.0 ≡ ok true → Recorded run w.rows y.1.rows
      by_payload (ok payload) e h = insert-Recorded run payload w e h
      by_payload (err report) e h = cc
