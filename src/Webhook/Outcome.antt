-- ===== src/Webhook/Outcome.antt =====
-- What a route of src/webhook/ answers to the queue that delivered a run.
use dreamscroll.Base.{
  ℕ, ◌≡◌, refl, sym, ap, ◌∙◌, Bool, true, false, Option, none, some, ◌&&◌, if◌then◌else◌,
}
use mathlib.Core.Path.{subst}
use dreamscroll.Base.Words.{I32, lt_i32}
use dreamscroll.Base.Text.{Text}
use dreamscroll.Base.Results.{
  Result, ok, err, Exec, continue, convert, continue-inv, convert-inv, pure-inv, pure,
}
use dreamscroll.Error.{ApiError, new, internal}
use dreamscroll.Task.Status.{complete_failure, error_will_retry}
use dreamscroll.Task.Definition.{Task, TaskRun}
use dreamscroll.Task.Database.{World}
use dreamscroll.Task.Tracker.{run_by_id}
use dreamscroll.Task.Master.{decide_next_attempt, begin_attempt, finish_attempt}
use dreamscroll.Task.Master.Attempts.{verdict, finish_attempt-finished}
use dreamscroll.Task.Master.Expected.{NextAttempt, decide_next_attempt-NextAttempt}
use dreamscroll.Task.Master.Numbers.{begin_attempt-number}
use dreamscroll.Webhook.{Work, http_status_for_task_run, conclude, attempted, deliver}

-- What an answer says of the attempt with this number: done, or given up, or again.
pub data Answer (max_attempts attempt : I32) : ℕ → Type 0 where
  done : Answer max_attempts attempt 204
  given_up : Answer max_attempts attempt 200
  again : lt_i32 attempt max_attempts ≡ true → Answer max_attempts attempt 500

-- An error is an internal one.
IsInternal : {A : Type 0} → Result ApiError A → Type 0
IsInternal (ok a) = Unit
IsInternal (err error) = error.http_status_code ≡ 500

internally-IsInternal :
    {A B : Type 0} (x : Result Text A × World) (f : A → Exec World ApiError B)
    → ((a : A) (w : World) → IsInternal (f a w).0)
    → IsInternal (continue (convert internal x) f).0
unfolding IsInternal internal new
internally-IsInternal (ok a, w) f h = h a w
internally-IsInternal (err report, w) f h = refl

module _ {T : Type 0} (t : Task T) (max_attempts : I32) where
  retry-Answer :
      (is_server_error : ℕ → Bool) (attempt : I32) (error : ApiError) (below retryable : Bool)
      → lt_i32 attempt max_attempts ≡ below
      → Answer max_attempts attempt (
          http_status_for_task_run
            (if below && retryable then error_will_retry else complete_failure))
  unfolding http_status_for_task_run
  retry-Answer is_server_error attempt error true true h = again h
  retry-Answer is_server_error attempt error true false h = given_up
  retry-Answer is_server_error attempt error false retryable h = given_up

  verdict-Answer :
      (is_server_error : ℕ → Bool) (attempt : I32) (result : Result ApiError (Unit {0}))
      → Answer max_attempts attempt
          (http_status_for_task_run (verdict t is_server_error max_attempts attempt result))
  unfolding http_status_for_task_run
  verdict-Answer is_server_error attempt (ok _) = done
  verdict-Answer is_server_error attempt (err error) =
      retry-Answer is_server_error attempt error (lt_i32 attempt max_attempts)
        (is_server_error error.http_status_code) refl

  conclude-Answer :
      (run : TaskRun T) (attempt : I32) (result : Result ApiError (Unit {0})) (w : World) (code : ℕ)
      → (conclude t max_attempts run attempt (result, w)).0 ≡ ok code
      → Answer max_attempts attempt code
  unfolding conclude
  conclude-Answer run attempt result w code h =
      let x = finish_attempt t max_attempts run attempt result w in
      let (status, came, same) =
        continue-inv (λ s. pure (http_status_for_task_run s)) (convert internal x) code h in
      let (told, written) =
        finish_attempt-finished t max_attempts run attempt result w status
          (convert-inv internal x status came) in
      subst (Answer max_attempts attempt)
        (ap http_status_for_task_run (sym told)
          ∙ pure-inv (convert internal x).1 (http_status_for_task_run status) code
              (sym (ap (λ y. y.0) same) ∙ h))
        (verdict-Answer w.env.is_server_error attempt result)

  -- The answer to a delivery whose attempt has the given number, if one began.
  abbrev pub Replies : Option I32 → ℕ → Type 0
  Replies none code = code ≡ 204
  Replies (some attempt) code = Answer max_attempts attempt code

  attempted-Answer :
      (exec : Work T) (run : TaskRun T) (attempt : Option I32) (w : World) (code : ℕ)
      → (attempted t max_attempts exec run attempt w).0 ≡ ok code
      → Replies attempt code
  unfolding attempted
  attempted-Answer exec run none w code h = sym (pure-inv w 204 code h)
  attempted-Answer exec run (some attempt) w code h =
      let (result, v) = exec run attempt w in conclude-Answer run attempt result v code h

  pub deliver-Replies :
      (exec : Work T) (run : TaskRun T) (w : World) (code : ℕ)
      → (deliver t max_attempts exec run w).0 ≡ ok code
      → Replies (decide_next_attempt (run_by_id run.run_id none w)) code
  unfolding deliver
  deliver-Replies exec run w code h =
      let x = begin_attempt t run w in
      let (attempt, came, same) =
        continue-inv (λ a. attempted t max_attempts exec run a) (convert internal x) code h in
      subst (λ a. Replies a code)
        (sym (begin_attempt-number t run w attempt (convert-inv internal x attempt came)))
        (attempted-Answer exec run attempt (convert internal x).1 code
          (sym (ap (λ y. y.0) same) ∙ h))

  -- What comes of a delivery whose attempt has the given number, if one began: an answer, or an
  -- error, which the web framework answers with its HTTP status.
  pub data Delivered (attempt : Option I32) : Result ApiError ℕ → Type 0 where
    answers : (code : ℕ) → Replies attempt code → Delivered attempt (ok code)
    fails : (error : ApiError) → error.http_status_code ≡ 500 → Delivered attempt (err error)

  deliver-IsInternal :
      (exec : Work T) (run : TaskRun T) (w : World)
      → IsInternal (deliver t max_attempts exec run w).0
  unfolding deliver attempted conclude IsInternal pure
  deliver-IsInternal exec run w =
      internally-IsInternal (begin_attempt t run w) (attempted t max_attempts exec run)
        (λ attempt v. attempted-IsInternal attempt v)
    where
      attempted-IsInternal :
          (attempt : Option I32) (v : World)
          → IsInternal (attempted t max_attempts exec run attempt v).0
      attempted-IsInternal none v = tt
      attempted-IsInternal (some attempt) v =
          let (result, u) = exec run attempt v in
          internally-IsInternal (finish_attempt t max_attempts run attempt result u)
            (λ status. pure (http_status_for_task_run status)) (λ status x. tt)

  delivered :
      (attempt : Option I32) (r : Result ApiError ℕ)
      → ((code : ℕ) → r ≡ ok code → Replies attempt code)
      → IsInternal r
      → Delivered attempt r
  unfolding IsInternal
  delivered attempt (ok code) replies internal = answers code (replies code refl)
  delivered attempt (err error) replies internal = fails error internal

  -- Whatever the work does and whatever befalls the statements, a delivery ends in one of two ways.
  -- It is answered: by 204, the work done or there being no attempt to make; by 200, the attempts
  -- given up; or by 500, which has the run delivered again, and then the number of the attempt is
  -- below the budget. Or it ends with an internal error, of status 500, at whatever number. The
  -- number is 1 for a run without a row, and one more than the attempts of its row in 32 bits; none
  -- is made of a failed submission or of a run that completed with success.
  pub deliver-budget :
      (exec : Work T) (run : TaskRun T) (w : World)
      → (attempt : Option I32) × NextAttempt (run_by_id run.run_id none w) attempt
        × Delivered attempt (deliver t max_attempts exec run w).0
  deliver-budget exec run w =
      let row = run_by_id run.run_id none w in
      (
        decide_next_attempt row,
        decide_next_attempt-NextAttempt row,
        delivered (decide_next_attempt row) (deliver t max_attempts exec run w).0
            (deliver-Replies exec run w) (deliver-IsInternal exec run w),
      )
