-- ===== src/Task/Master/Steps.antt =====
-- The operations of src/task/taskmaster.rs as sequences of statements on the table of runs.
use dreamscroll.Base.{Bool, true, false, Option, none, some}
use dreamscroll.Base.Words.{I32}
use dreamscroll.Base.Text.{Text}
use dreamscroll.Base.Results.{Result, ok, err, Exec, pure, raise, convert, continue, ◌>>=◌}
use dreamscroll.Error.{ApiError, internal}
use dreamscroll.Auth.{Context}
use dreamscroll.Task.Kinds.{IlluminationTask, illumination_task}
use dreamscroll.Task.Status.{TaskRunStatus, complete_success, submission_failed}
use dreamscroll.Task.Definition.{Task, TaskRun}
use dreamscroll.Task.Table.{Reach, here, Reach-trans}
use dreamscroll.Task.Database.{World}
use dreamscroll.Task.Tracker.{
  query_run_status, query_backfill_run, query_run_by_id, insert_run, set_status, mark_in_progress,
  record_outcome,
}
use dreamscroll.Task.Tracker.Writes.{
  SameTable-Reach, insert_run-Reach, set_status-Reach, mark_in_progress-Reach, record_outcome-Reach,
  query_run_status-SameTable, query_backfill_run-SameTable, query_run_by_id-SameTable,
}
use dreamscroll.Task.Master.{
  SubmitOutcome, TaskQueue, return_or, recorded, already_submitted, refuse, after_enqueue, dispatch,
  submit_run, submit_latest, submit_inner, start_attempt, begin_attempt, finish_attempt, outcome_of,
  decide_next_run, decide_next_attempt, checked, internally, ensure_task_submission_allowed,
  submit_illuminate,
}

-- An operation changes the table by statements alone, whatever befalls them.
pub record Steps {E A : Type 0} (m : Exec World E A) : Type 0 where
  pub at : (w : World) → Reach w.rows (m w).1.rows

module _ {E A : Type 0} where
  pub Steps-pure : (a : A) → Steps {E = E} (pure a)
  unfolding pure
  Steps-pure a = record { at = λ w. here }

  pub Steps-raise : (e : E) → Steps {A = A} (raise e)
  unfolding raise
  Steps-raise e = record { at = λ w. here }

module _ {E A B : Type 0} where
  continue-Steps :
      (f : A → Exec World E B) (x : Result E A × World)
      → ((a : A) → Steps (f a))
      → Reach x.1.rows (continue x f).1.rows
  continue-Steps f (ok a, w) h = (h a).at w
  continue-Steps f (err e, w) h = here

  pub Steps-bind :
      (m : Exec World E A) (f : A → Exec World E B)
      → Steps m
      → ((a : A) → Steps (f a))
      → Steps (m >>= f)
  Steps-bind m f h k = record { at = λ w. Reach-trans (h.at w) (continue-Steps f (m w) k) }

pub Steps-convert :
    {E F A : Type 0} (f : E → F) (m : Exec World E A) → Steps m → Steps (λ w. convert f (m w))
Steps-convert f m h = record { at = h.at }

query_backfill_run-Steps :
    (backfill_id logical_id : Text) → Steps (query_backfill_run backfill_id logical_id)
query_backfill_run-Steps backfill_id logical_id = record {
  at = λ w. SameTable-Reach (query_backfill_run-SameTable backfill_id logical_id w);
}

query_run_status-Steps :
    (logical_id : Text) (run_number owner : Option I32)
    → Steps (query_run_status logical_id run_number owner)
query_run_status-Steps logical_id run_number owner = record {
  at = λ w. SameTable-Reach (query_run_status-SameTable logical_id run_number owner w);
}

query_run_by_id-Steps : (run_id : Text) (owner : Option I32) → Steps (query_run_by_id run_id owner)
query_run_by_id-Steps run_id owner = record {
  at = λ w. SameTable-Reach (query_run_by_id-SameTable run_id owner w);
}

already_submitted-Steps :
    (backfill_id : Option Text) (logical_id : Text)
    → Steps (already_submitted backfill_id logical_id)
unfolding already_submitted
already_submitted-Steps none logical_id = Steps-pure none
already_submitted-Steps (some backfill_id) logical_id =
    Steps-bind _ _ (query_backfill_run-Steps backfill_id logical_id)
      (λ row. Steps-pure (recorded row))

refuse-Steps :
    (backfill_id : Option Text) (logical_id : Text) → Steps (refuse backfill_id logical_id)
unfolding refuse
refuse-Steps backfill_id logical_id =
    Steps-bind _ _ (already_submitted-Steps backfill_id logical_id) (λ again. Steps-pure _)

return_or-Steps :
    (o : Option SubmitOutcome) (rest : Exec World Text SubmitOutcome)
    → Steps rest
    → Steps (return_or o rest)
unfolding return_or
return_or-Steps none rest h = h
return_or-Steps (some outcome) rest h = Steps-pure outcome

module _ {T : Type 0} (t : Task T) where
  insert_run-Steps : (run : TaskRun T) → Steps (insert_run t run)
  insert_run-Steps run = record { at = insert_run-Reach t run }

  set_status-Steps :
      (run : TaskRun T) (status : TaskRunStatus) (attempts : I32) (error : Option ApiError)
      → Steps (set_status t run status attempts error)
  set_status-Steps run status attempts error = record {
    at = set_status-Reach t run status attempts error;
  }

  mark_in_progress-Steps :
      (run : TaskRun T) (attempts : I32) → Steps (mark_in_progress t run attempts)
  mark_in_progress-Steps run attempts = record { at = mark_in_progress-Reach t run attempts }

  record_outcome-Steps :
      (run : TaskRun T) (status : TaskRunStatus) (attempts : I32) (error : Option ApiError)
      → Steps (record_outcome t run status attempts error)
  record_outcome-Steps run status attempts error = record {
    at = record_outcome-Reach t run status attempts error;
  }

  after_enqueue-Reach :
      (run : TaskRun T) (x : Result Text (Unit {0}) × World)
      → Reach x.1.rows (after_enqueue t run x).1.rows
  unfolding after_enqueue
  after_enqueue-Reach run (ok _, w) = here
  after_enqueue-Reach run (err error, w) =
      (Steps-bind _ _ (set_status-Steps run submission_failed 0 (some (internal error)))
          (λ _. Steps-raise (internal error).error)).at
        w

  module _ (queue : TaskQueue T) (queued : (run : TaskRun T) → Steps (queue run)) where
    dispatch-Steps : (run : TaskRun T) (created : Bool) → Steps (dispatch t queue run created)
    unfolding dispatch
    dispatch-Steps run false = refuse-Steps run.backfill_id run.logical_id
    dispatch-Steps run true = record {
      at = λ w. Reach-trans ((queued run).at w) (after_enqueue-Reach run (queue run w));
    }

    submit_run-Steps :
        (task : T) (backfill_id : Option Text) (run_id : Text) (next_run : Option I32)
        → Steps (submit_run t queue task backfill_id run_id next_run)
    unfolding submit_run
    submit_run-Steps task backfill_id run_id none = refuse-Steps backfill_id _
    submit_run-Steps task backfill_id run_id (some next_run) =
        Steps-bind _ _ (insert_run-Steps _) (λ created. dispatch-Steps _ created)

    pub submit_inner-Steps :
        (task : T) (backfill_id : Option Text) (run_id : Text)
        → Steps (submit_inner t queue task backfill_id run_id)
    unfolding submit_inner submit_latest
    submit_inner-Steps task backfill_id run_id =
        Steps-bind _ _ (already_submitted-Steps backfill_id _) (λ prior. return_or-Steps prior _ (
          Steps-bind _ _ (query_run_status-Steps _ none none)
            (λ latest. submit_run-Steps task backfill_id run_id (decide_next_run latest))))

  start_attempt-Steps :
      (run : TaskRun T) (attempt : Option I32) → Steps (start_attempt t run attempt)
  unfolding start_attempt
  start_attempt-Steps run none = Steps-pure none
  start_attempt-Steps run (some attempt) =
      Steps-bind _ _ (mark_in_progress-Steps run attempt) (λ _. Steps-pure (some attempt))

  pub begin_attempt-Steps : (run : TaskRun T) → Steps (begin_attempt t run)
  unfolding begin_attempt
  begin_attempt-Steps run =
      Steps-bind _ _ (query_run_by_id-Steps run.run_id none)
        (λ status. start_attempt-Steps run (decide_next_attempt status))

  pub finish_attempt-Steps :
      (max_attempts : I32) (run : TaskRun T) (attempt : I32) (result : Result ApiError (Unit {0}))
      → Steps (finish_attempt t max_attempts run attempt result)
  unfolding finish_attempt
  finish_attempt-Steps max_attempts run attempt (ok _) = record {
    at = λ w.
        (Steps-bind _ _ (record_outcome-Steps run complete_success attempt none)
            (λ _. Steps-pure complete_success)).at
          w;
  }
  finish_attempt-Steps max_attempts run attempt (err error) = record {
    at = λ w.
        let status = outcome_of w.env.is_server_error max_attempts attempt error in
        (Steps-bind _ _ (record_outcome-Steps run status attempt (some error))
            (λ _. Steps-pure status)).at
          w;
  }

checked-Steps :
    {A : Type 0} (r : Result ApiError (Unit {0})) (m : Exec World ApiError A)
    → Steps m
    → Steps (checked r m)
unfolding checked
checked-Steps (ok _) m h = h
checked-Steps (err e) m h = record { at = λ w. here }

pub submit_illuminate-Steps :
    (payload : IlluminationTask → Result Text Text) (queue : TaskQueue IlluminationTask)
    → ((run : TaskRun IlluminationTask) → Steps (queue run))
    → (context : Context) (task : IlluminationTask) (backfill_id : Option Text) (run_id : Text)
    → Steps (submit_illuminate payload queue context task backfill_id run_id)
unfolding submit_illuminate internally
submit_illuminate-Steps payload queue queued context task backfill_id run_id =
    let t = illumination_task payload in
    checked-Steps (ensure_task_submission_allowed t context task) _
      (Steps-convert internal _ (submit_inner-Steps t queue queued task backfill_id run_id))
