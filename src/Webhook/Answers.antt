-- ===== src/Webhook/Answers.antt =====
-- A route of src/webhook/ on a database that executes every statement.
use dreamscroll.Base.{ℕ, ◌≡◌, refl, ap, ◌∙◌, Option, none, some}
use dreamscroll.Base.Words.{I32}
use dreamscroll.Base.Results.{ok, map_err, convert, continue-ok, pure}
use dreamscroll.Error.{internal}
use dreamscroll.Task.Definition.{Task, TaskRun}
use dreamscroll.Task.Database.{World}
use dreamscroll.Task.Database.Effects.{IsCalm}
use dreamscroll.Task.Tracker.{run_by_id}
use dreamscroll.Task.Master.{decide_next_attempt, begin_attempt, finish_attempt}
use dreamscroll.Task.Master.Attempts.{verdict}
use dreamscroll.Task.Master.Expected.{NextAttempt, decide_next_attempt-NextAttempt}
use dreamscroll.Task.Master.Totality.{
  begin_attempt-decides, begin_attempt-env, finish_attempt-IsCalm,
}
use dreamscroll.Webhook.{Work, http_status_for_task_run, conclude, attempted, deliver}
use dreamscroll.Webhook.Outcome.{Replies, deliver-Replies}

env-IsCalm : (v w : World) → v.env ≡ w.env → IsCalm w → IsCalm v
env-IsCalm v w same calm n = ap (λ e. (e.moments n).fate) same ∙ calm n

module _ {T : Type 0} (t : Task T) where
  module _ (max_attempts : I32) (exec : Work T) (run : TaskRun T)
      (works : (attempt : I32) (w : World) → IsCalm w → IsCalm (exec run attempt w).1) where
    attempted-answers :
        (number : Option I32) (w : World)
        → IsCalm w
        → (code : ℕ) × ((attempted t max_attempts exec run number w).0 ≡ ok code)
    unfolding attempted conclude pure
    attempted-answers none w calm = (204, refl)
    attempted-answers (some attempt) w calm =
        let (result, v) = exec run attempt w in
        let x = finish_attempt t max_attempts run attempt result v in
        let status = verdict t v.env.is_server_error max_attempts attempt result in
        let done =
          finish_attempt-IsCalm t max_attempts run attempt result v (works attempt w calm) in
        (
          http_status_for_task_run status,
          ap (λ y. y.0)
              (continue-ok (λ s. pure (http_status_for_task_run s)) (convert internal x) status
                (ap (map_err internal) done)),
        )

    deliver-answers :
        (w : World) → IsCalm w → (code : ℕ) × ((deliver t max_attempts exec run w).0 ≡ ok code)
    unfolding deliver
    deliver-answers w calm =
        let x = begin_attempt t run w in
        let number = decide_next_attempt (run_by_id run.run_id none w) in
        let (code, answer) =
          attempted-answers number (convert internal x).1
            (env-IsCalm x.1 w (begin_attempt-env t run w calm) calm) in
        (
          code,
          ap (λ y. y.0)
                (continue-ok (λ a. attempted t max_attempts exec run a) (convert internal x) number
                  (ap (map_err internal) (begin_attempt-decides t run w calm)))
              ∙ answer,
        )

    -- On a database that executes every statement, before the work and behind it, a delivery is
    -- always answered: by 204 where there is no attempt to make, and otherwise by 204, 200 or 500,
    -- and by 500 only if the number of the attempt is below the budget.
    pub deliver-IsCalm :
        (w : World)
        → IsCalm w
        → (attempt : Option I32) × NextAttempt (run_by_id run.run_id none w) attempt
          × (code : ℕ) × ((deliver t max_attempts exec run w).0 ≡ ok code)
          × Replies t max_attempts attempt code
    deliver-IsCalm w calm =
        let row = run_by_id run.run_id none w in
        let (code, answer) = deliver-answers w calm in
        (
          decide_next_attempt row,
          decide_next_attempt-NextAttempt row,
          code,
          answer,
          deliver-Replies t max_attempts exec run w code answer,
        )
