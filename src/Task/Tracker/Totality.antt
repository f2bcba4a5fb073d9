-- ===== src/Task/Tracker/Totality.antt =====
-- Reads and writes on a database that executes every statement: src/task/taskruntracker.rs.
use dreamscroll.Base.{◌≡◌, refl, ap, ◌∙◌, Option, none, some}
use dreamscroll.Base.Words.{I32}
use dreamscroll.Base.Text.{Text}
use dreamscroll.Base.Results.{Result, ok, err}
use dreamscroll.Task.Status.{TaskRunStatus}
use dreamscroll.Task.Definition.{Task, TaskRun}
use dreamscroll.Task.Row.{Row}
use dreamscroll.Task.Database.{World, DbErr, advance, update_row}
use dreamscroll.Task.Database.Effects.{IsCalm, query-executed, update_row-answers, update_row-env}
use dreamscroll.Task.Publisher.{refresh_timing_measures}
use dreamscroll.Task.Publisher.Effects.{publish-SameTable, refresh_timing_measures-SameTable}
use dreamscroll.Task.Tracker.{
  Extras, set_columns, after_write, write_status, answered, run_by_id, query_run_by_id,
}

module _ {T : Type 0} (t : Task T) where
  after_write-answers :
      (status : TaskRunStatus) (x : Result DbErr (Option Row) × World) (found : Option Row)
      → x.0 ≡ ok found
      → (after_write t status x).0 ≡ ok tt
  unfolding after_write
  after_write-answers status (err e, w) found h = cc
  after_write-answers status (ok none, w) found h = refl
  after_write-answers status (ok (some row), w) found h = refl

  pub write_status-IsCalm :
      (run : TaskRun T) (status : TaskRunStatus) (attempts : I32) (extras : Extras) (w : World)
      → IsCalm w
      → (write_status t run status attempts extras w).0 ≡ ok tt
  unfolding write_status
  write_status-IsCalm run status attempts extras w calm =
      let (found, e) = update_row-answers run.run_id (set_columns status attempts extras) w calm in
      after_write-answers status (update_row run.run_id (set_columns status attempts extras) w)
        found e

  after_write-env :
      (status : TaskRunStatus) (x : Result DbErr (Option Row) × World)
      → (after_write t status x).1.env ≡ x.1.env
  unfolding after_write
  after_write-env status (err e, w) = refl
  after_write-env status (ok none, w) = refl
  after_write-env status (ok (some row), w) =
      let v = (refresh_timing_measures t.task_type status w).1 in
      (publish-SameTable row v).same_env
      ∙ (refresh_timing_measures-SameTable t.task_type status w).same_env

  pub write_status-env :
      (run : TaskRun T) (status : TaskRunStatus) (attempts : I32) (extras : Extras) (w : World)
      → (write_status t run status attempts extras w).1.env ≡ w.env
  unfolding write_status
  write_status-env run status attempts extras w =
      let edit = set_columns status attempts extras in
      after_write-env status (update_row run.run_id edit w) ∙ update_row-env run.run_id edit w

pub query_run_by_id-IsCalm :
    (run_id : Text) (owner : Option I32) (w : World)
    → IsCalm w
    → query_run_by_id run_id owner w ≡ (ok (run_by_id run_id owner w), advance w)
unfolding query_run_by_id answered run_by_id advance
query_run_by_id-IsCalm run_id owner w calm =
    ap answered (query-executed (run_by_id run_id owner) w calm)
