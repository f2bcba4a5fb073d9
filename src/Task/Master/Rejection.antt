-- ===== src/Task/Master/Rejection.antt =====
-- Submissions that fail: a queue that rejects a run, and a caller without the right to submit, in
-- src/task/taskmaster.rs.
use dreamscroll.Base.{
  ℕ, ◌≡◌, ◌≢◌, refl, sym, ap, ◌∙◌, ◌⊎◌, inl, inr, Bool, true, false, Option, some, List, [], ◌∷◌,
  ◌||◌, ◌==◌, if◌then◌else◌, ==→eq, eq→==,
}
use mathlib.Core.Path.{subst}
use dreamscroll.Base.Words.{I32}
use dreamscroll.Base.Text.{Text, codes}
use dreamscroll.Base.Results.{Result, ok, err, Exec, convert, continue, raise}
use dreamscroll.Error.{ApiError, internal, forbidden, bad_request, new}
use dreamscroll.Auth.{Context, is_admin, user_id}
use dreamscroll.Task.Status.{submission_failed, as_i32}
use dreamscroll.Task.Definition.{Task, TaskRun}
use dreamscroll.Task.Kinds.{SparkTask, spark_task}
use dreamscroll.Task.Row.{Row, update_where}
use dreamscroll.Task.Database.{World, advance}
use dreamscroll.Task.Tracker.{
  truncate_error_message, set_status, set_columns, with_error, with_error_columns,
}
use dreamscroll.Task.Tracker.Results.{write_status-ok}
use dreamscroll.Task.Master.{
  SubmitOutcome, TaskQueue, after_enqueue, dispatch, submit_inner, submit_spark, checked,
  internally, is_empty, ensure_task_submission_allowed,
}

-- The row of a run that the queue rejected with a report.
abbrev pub rejected : Text → ℕ → Row → Row
rejected report now row = record row {
  status_code = 0;
  attempts = 0;
  last_error_code = some 500;
  last_error_message = some (truncate_error_message report);
  updated_at = now;
}

then_raise :
    (B : Type 0) (x : Result Text (Unit {0}) × World) (e : Text)
    → let y = continue x (λ _. raise {A = B} e) in
      ((x.0 ≡ ok tt) × (y.0 ≡ err e) × (y.1 ≡ x.1))
      ⊎ ((report : Text) × (x.0 ≡ err report) × (y.0 ≡ err report))
unfolding raise
then_raise B (ok _, w) e = inl (refl, refl, refl)
then_raise B (err report, w) e = inr (report, refl, refl)

module _ {T : Type 0} (t : Task T) where
  -- The failure of a submission whose run the queue rejected, in the world `v` that it left.
  abbrev pub IsRejection : TaskRun T → Text → World → Result Text SubmitOutcome × World → Type 0
  IsRejection run report v out =
      ((out.0 ≡ err report)
        × ((now : ℕ) × (out.1.rows ≡ update_where run.run_id (rejected report now) v.rows)))
      ⊎ ((other : Text) × ((set_status t run submission_failed 0 (some (internal report)) v).0
            ≡ err other)
          × (out.0 ≡ err other))

  set_status-rejected :
      (run : TaskRun T) (v : World) (report : Text)
      → (set_status t run submission_failed 0 (some (internal report)) v).0 ≡ ok tt
      → (set_status t run submission_failed 0 (some (internal report)) v).1.rows
        ≡ update_where run.run_id (rejected report (advance v).now) v.rows
  unfolding set_status set_columns with_error with_error_columns as_i32 internal new
  set_status-rejected run v report h =
      write_status-ok t run submission_failed 0 (λ now row. with_error (some (internal report)) row)
        v h

  after_enqueue-rejected :
      (run : TaskRun T) (v : World) (report : Text)
      → IsRejection run report v (after_enqueue t run (err report, v))
  unfolding after_enqueue internal new
  after_enqueue-rejected run v report = by_cases (
      then_raise SubmitOutcome (set_status t run submission_failed 0 (some (internal report)) v)
        report)
    where
      by_cases :
          let x = set_status t run submission_failed 0 (some (internal report)) v in
          let y = continue x (λ _. raise {A = SubmitOutcome} report) in
          (((x.0 ≡ ok tt) × (y.0 ≡ err report) × (y.1 ≡ x.1))
            ⊎ ((other : Text) × (x.0 ≡ err other) × (y.0 ≡ err other)))
          → IsRejection run report v y
      by_cases (inl (wrote, told, same)) =
          inl (
            told,
            ((advance v).now, ap (λ w. w.rows) same ∙ set_status-rejected run v report wrote),
          )
      by_cases (inr failed) = inr failed

  -- A queue that rejects a recorded run: the submission fails with the queue's report and the run's
  -- row becomes one of a failed submission with no attempt; or it fails with the report of the
  -- status write that failed.
  pub dispatch-rejected :
      (queue : TaskQueue T) (run : TaskRun T) (w v : World) (report : Text)
      → queue run w ≡ (err report, v)
      → IsRejection run report v (dispatch t queue run true w)
  unfolding dispatch
  dispatch-rejected queue run w v report h =
      subst (λ x. IsRejection run report v (after_enqueue t run x)) (sym h)
        (after_enqueue-rejected run v report)

-- What a caller of `submit_spark` may get: 400 for no captures, 403 without the right, and neither
-- touches the world; or the submission itself.
pub data SparkReply (inner : Result ApiError SubmitOutcome × World) (context : Context)
    (task : SparkTask) (w : World) : Result ApiError SubmitOutcome × World → Type 0 where
  malformed :
      {error : ApiError}
      → task.capture_ids ≡ []
      → error.http_status_code ≡ 400
      → SparkReply inner context task w (err error, w)
  denied :
      {error : ApiError}
      → task.capture_ids ≢ []
      → is_admin context ≡ false
      → user_id context ≢ task.entity_owner_id
      → error.http_status_code ≡ 403
      → SparkReply inner context task w (err error, w)
  admitted :
      task.capture_ids ≢ []
      → (is_admin context ≡ true) ⊎ (user_id context ≡ task.entity_owner_id)
      → SparkReply inner context task w inner

is_empty-true : (ids : List I32) → is_empty ids ≡ true → ids ≡ []
unfolding is_empty
is_empty-true [] h = refl
is_empty-true (i ∷ ids) h = cc

is_empty-false : (ids : List I32) → is_empty ids ≡ false → ids ≢ []
unfolding is_empty
is_empty-false [] h = cc
is_empty-false (i ∷ ids) h = λ e. cc

or_true : (p q : Bool) → (p || q) ≡ true → (p ≡ true) ⊎ (q ≡ true)
or_true true q h = inl refl
or_true false q h = inr h

or_false : (p q : Bool) → (p || q) ≡ false → (p ≡ false) × (q ≡ false)
or_false true q h = cc
or_false false q h = (refl, h)

==-different : (a b : ℕ) → (a == b) ≡ false → a ≢ b
==-different a b h = λ e. let same : (a == b) ≡ true = eq→== a b e in cc

module _ (payload : SparkTask → Result Text Text) (queue : TaskQueue SparkTask) where
  -- A submission of a spark is refused as malformed exactly without captures, and as forbidden
  -- exactly to a caller who is neither an administrator nor the owner of the spark, and a refusal
  -- leaves the world; to every other caller it is the submission itself, whose failures are 500.
  pub submit_spark-admission :
      (context : Context) (task : SparkTask) (backfill_id : Option Text) (run_id : Text) (w : World)
      → SparkReply
          (convert internal (submit_inner (spark_task payload) queue task backfill_id run_id w))
          context
          task
          w
          (submit_spark payload queue context task backfill_id run_id w)
  unfolding submit_spark ensure_task_submission_allowed checked internally bad_request forbidden new
  submit_spark-admission context task backfill_id run_id w =
      by_tests (is_empty task.capture_ids)
        (is_admin context || user_id context == task.entity_owner_id) refl refl
    where
      inner : Exec World Text SubmitOutcome
      inner = submit_inner (spark_task payload) queue task backfill_id run_id

      right :
          (is_admin context ≡ true) ⊎ ((user_id context == task.entity_owner_id) ≡ true)
          → (is_admin context ≡ true) ⊎ (user_id context ≡ task.entity_owner_id)
      right (inl admin) = inl admin
      right (inr owner) = inr (==→eq _ _ owner)

      by_tests :
          (empty allowed : Bool)
          → is_empty task.capture_ids ≡ empty
          → (is_admin context || user_id context == task.entity_owner_id) ≡ allowed
          → SparkReply (convert internal (inner w)) context task w (
              (if◌then◌else◌ {A = Exec World ApiError SubmitOutcome} empty
                  (λ v.
                    (err (bad_request (codes "submit_spark requires at least one capture_id")), v))
                  (checked
                    (if allowed
                      then ok tt
                      else err (
                          forbidden (
                            codes "Only the target entity owner or an admin can submit this task")))
                    (internally inner)))
                w)
      by_tests true allowed e a = malformed (is_empty-true task.capture_ids e) refl
      by_tests false true e a = admitted (is_empty-false task.capture_ids e) (right (or_true _ _ a))
      by_tests false false e a =
          let (admin, owner) = or_false _ _ a in
          denied (is_empty-false task.capture_ids e) admin (==-different _ _ owner) refl
