-- ===== src/Task/Master/Totality.antt =====
-- Attempts on a database that executes every statement: src/task/taskmaster.rs.
use dreamscroll.Base.{◌≡◌, refl, sym, ◌∙◌, Option, none, some}
use mathlib.Core.Path.{subst}
use dreamscroll.Base.Words.{I32}
use dreamscroll.Base.Text.{Text}
use dreamscroll.Base.Results.{Result, ok, err, pure, continue}
use dreamscroll.Error.{ApiError}
use dreamscroll.Task.Status.{in_progress, complete_success}
use dreamscroll.Task.Definition.{Task, TaskRun}
use dreamscroll.Task.Row.{Row}
use dreamscroll.Task.Database.{World, advance}
use dreamscroll.Task.Database.Effects.{IsCalm}
use dreamscroll.Task.Tracker.{
  start_columns, outcome_columns, mark_in_progress, record_outcome, run_by_id,
}
use dreamscroll.Task.Tracker.Totality.{
  write_status-IsCalm, write_status-env, query_run_by_id-IsCalm,
}
use dreamscroll.Task.Master.{
  decide_next_attempt, decide_will_retry, outcome_of, start_attempt, begin_attempt, finish_attempt,
}
use dreamscroll.Error.{is_retryable}
use dreamscroll.Task.Master.Attempts.{verdict}
use dreamscroll.Task.Master.Expected.{NextAttempt, decide_next_attempt-NextAttempt}

succeeds :
    {A : Type 0} (x : Result Text (Unit {0}) × World) (a : A)
    → x.0 ≡ ok tt
    → (continue x (λ _. pure a)).0 ≡ ok a
unfolding pure
succeeds (ok _, w) a h = refl
succeeds (err e, w) a h = cc

module _ {T : Type 0} (t : Task T) where
  start_attempt-IsCalm :
      (run : TaskRun T) (next : Option I32) (w : World)
      → IsCalm w
      → (start_attempt t run next w).0 ≡ ok next
  unfolding start_attempt pure mark_in_progress
  start_attempt-IsCalm run none w calm = refl
  start_attempt-IsCalm run (some n) w calm =
      succeeds (mark_in_progress t run n w) (some n)
        (write_status-IsCalm t run in_progress n start_columns w calm)

  pub begin_attempt-decides :
      (run : TaskRun T) (w : World)
      → IsCalm w
      → (begin_attempt t run w).0 ≡ ok (decide_next_attempt (run_by_id run.run_id none w))
  unfolding begin_attempt advance
  begin_attempt-decides run w calm =
      subst
        (λ (x : Result Text (Option Row) × World).
          (continue x (λ status. start_attempt t run (decide_next_attempt status))).0
          ≡ ok (decide_next_attempt (run_by_id run.run_id none w)))
        (sym (query_run_by_id-IsCalm run.run_id none w calm))
        (start_attempt-IsCalm run (decide_next_attempt (run_by_id run.run_id none w)) (advance w)
          calm)

  start_attempt-env :
      (run : TaskRun T) (next : Option I32) (w : World) → (start_attempt t run next w).1.env ≡ w.env
  unfolding start_attempt pure mark_in_progress
  start_attempt-env run none w = refl
  start_attempt-env run (some attempt) w =
      then_pure (mark_in_progress t run attempt w)
      ∙ write_status-env t run in_progress attempt start_columns w
    where
      then_pure :
          (x : Result Text (Unit {0}) × World)
          → (continue x (λ _. pure (some attempt))).1.env ≡ x.1.env
      then_pure (ok u, v) = refl
      then_pure (err e, v) = refl

  pub begin_attempt-env :
      (run : TaskRun T) (w : World) → IsCalm w → (begin_attempt t run w).1.env ≡ w.env
  unfolding begin_attempt advance
  begin_attempt-env run w calm =
      subst
        (λ (x : Result Text (Option Row) × World).
          (continue x (λ status. start_attempt t run (decide_next_attempt status))).1.env ≡ w.env)
        (sym (query_run_by_id-IsCalm run.run_id none w calm))
        (start_attempt-env run (decide_next_attempt (run_by_id run.run_id none w)) (advance w))

  -- On a database that executes every statement `begin_attempt` answers: with the number 1 for a run
  -- without a row, with none for a failed submission or a run that completed with success, and for
  -- a row of any other status, complete failure among them, with one more than its attempts.
  pub begin_attempt-IsCalm :
      (run : TaskRun T) (w : World)
      → IsCalm w
      → (number : Option I32) × ((begin_attempt t run w).0 ≡ ok number)
        × NextAttempt (run_by_id run.run_id none w) number
  begin_attempt-IsCalm run w calm =
      let row = run_by_id run.run_id none w in
      (
        decide_next_attempt row,
        begin_attempt-decides run w calm,
        decide_next_attempt-NextAttempt row,
      )

  -- On a database that executes every statement `finish_attempt` answers: with complete success
  -- after a success; after an error with error-will-retry, if the attempt is below the budget and
  -- the error's HTTP status is one of a server error; and with complete failure after any other.
  pub finish_attempt-IsCalm :
      (max_attempts : I32) (run : TaskRun T) (attempt : I32) (result : Result ApiError (Unit {0}))
      (w : World)
      → IsCalm w
      → (finish_attempt t max_attempts run attempt result w).0
        ≡ ok (verdict t w.env.is_server_error max_attempts attempt result)
  unfolding finish_attempt record_outcome outcome_of decide_will_retry is_retryable
  finish_attempt-IsCalm max_attempts run attempt (ok _) w calm =
      succeeds (record_outcome t run complete_success attempt none w) complete_success (
        write_status-IsCalm t run complete_success attempt (outcome_columns complete_success none) w
          calm)
  finish_attempt-IsCalm max_attempts run attempt (err error) w calm =
      let status = outcome_of w.env.is_server_error max_attempts attempt error in
      succeeds (record_outcome t run status attempt (some error) w) status
        (write_status-IsCalm t run status attempt (outcome_columns status (some error)) w calm)
