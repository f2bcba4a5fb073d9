-- ===== src/Task/Tracker/Results.antt =====
-- What the results of the operations of src/task/taskruntracker.rs say of the table.
use dreamscroll.Base.{◌≡◌, refl, ◌∙◌, ◌⊎◌, inl, inr, Option}
use dreamscroll.Base.Words.{I32}
use dreamscroll.Base.Text.{Text}
use dreamscroll.Base.Results.{Result, ok, err}
use dreamscroll.Task.Status.{TaskRunStatus}
use dreamscroll.Task.Definition.{Task, TaskRun}
use dreamscroll.Task.Row.{Row, update_where}
use dreamscroll.Task.Database.{World, DbErr, connection, query, update_row, advance, report_of}
use dreamscroll.Task.Database.Effects.{update_row-ok, query_cases}
use dreamscroll.Task.Tracker.Writes.{after_write-SameTable}
use dreamscroll.Task.Tracker.{
  Extras, set_columns, after_write, write_status, answered, latest_run, backfill_run, run_by_id,
  query_run_status, query_backfill_run, query_run_by_id,
}

-- A query answers from the table as it stands, or fails.
abbrev pub Answers : {A : Type 0} → Result Text A → A → Type 0
Answers r a = (r ≡ ok a) ⊎ ((report : Text) × (r ≡ err report))

pub answer_is : {A : Type 0} {r : Result Text A} {a b : A} → Answers r a → r ≡ ok b → a ≡ b
answer_is (inl e) h = cc
answer_is (inr (report, e)) h = cc

answered-Answers :
    {A : Type 0} (x : Result DbErr A × World) (a : A) (report : Text)
    → (x.0 ≡ ok a) ⊎ (x.0 ≡ err (connection report))
    → Answers (answered x).0 a
unfolding answered report_of
answered-Answers (r, w) a report (inl e) = inl (rw e)
answered-Answers (r, w) a report (inr e) = inr (report, rw e)

pub query_run_by_id-Answers :
    (run_id : Text) (owner : Option I32) (w : World)
    → Answers (query_run_by_id run_id owner w).0 (run_by_id run_id owner w)
unfolding query_run_by_id run_by_id advance
query_run_by_id-Answers run_id owner w =
    answered-Answers (query (run_by_id run_id owner) w) _ _ (query_cases (run_by_id run_id owner) w)

pub query_backfill_run-Answers :
    (backfill_id logical_id : Text) (w : World)
    → Answers
        (query_backfill_run backfill_id logical_id w).0
        (backfill_run backfill_id logical_id w)
unfolding query_backfill_run backfill_run advance
query_backfill_run-Answers backfill_id logical_id w =
    answered-Answers (query (backfill_run backfill_id logical_id) w) _ _
      (query_cases (backfill_run backfill_id logical_id) w)

pub query_run_status-Answers :
    (logical_id : Text) (run_number owner : Option I32) (w : World)
    → Answers
        (query_run_status logical_id run_number owner w).0
        (latest_run logical_id run_number owner w)
unfolding query_run_status latest_run advance
query_run_status-Answers logical_id run_number owner w =
    answered-Answers (query (latest_run logical_id run_number owner) w) _ _
      (query_cases (latest_run logical_id run_number owner) w)

module _ {T : Type 0} (t : Task T) where
  after_write-ok :
      (status : TaskRunStatus) (x : Result DbErr (Option Row) × World)
      → (after_write t status x).0 ≡ ok tt
      → (found : Option Row) × (x.0 ≡ ok found)
  unfolding after_write
  after_write-ok status (err e, w) h = cc
  after_write-ok status (ok found, w) h = (found, refl)

  -- A status write that reports success has set its columns in the rows of the run, at some time,
  -- and changed nothing else in the table.
  pub write_status-ok :
      (run : TaskRun T) (status : TaskRunStatus) (attempts : I32) (extras : Extras) (w : World)
      → (write_status t run status attempts extras w).0 ≡ ok tt
      → (write_status t run status attempts extras w).1.rows
        ≡ update_where run.run_id (set_columns status attempts extras (advance w).now) w.rows
  unfolding write_status
  write_status-ok run status attempts extras w h =
      let x = update_row run.run_id (set_columns status attempts extras) w in
      let (found, e) = after_write-ok status x h in
      (after_write-SameTable t status x).same_rows
      ∙ update_row-ok run.run_id (set_columns status attempts extras) w found e
