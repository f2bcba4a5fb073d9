-- ===== src/Task/Master/Attempts.antt =====
-- The attempts of a run: `begin_attempt` and `finish_attempt` of src/task/taskmaster.rs.
use dreamscroll.Base.{
  ℕ, ◌≡◌, refl, sym, ap, ◌∙◌, ◌⊎◌, inl, inr, Bool, true, false, Option, none, some, arith,
  if◌then◌else◌, ◌&&◌,
}
use mathlib.Core.Path.{subst, fun_ext}
use dreamscroll.Base.Words.{I32, lt_i32}
use dreamscroll.Base.Text.{Text}
use dreamscroll.Base.Results.{Result, ok, err, pure, continue}
use dreamscroll.Error.{ApiError, is_retryable}
use dreamscroll.Task.Status.{
  TaskRunStatus, submission_failed, in_progress, error_will_retry, complete_success,
  complete_failure, as_i32,
}
use dreamscroll.Task.Definition.{Task, TaskRun}
use dreamscroll.Task.Row.{Row, update_where}
use dreamscroll.Task.Database.{World, advance}
use dreamscroll.Task.Tracker.{
  Extras, set_columns, start_columns, outcome_columns, attempt_duration_ms, truncate_error_message,
  with_error_columns, mark_in_progress, record_outcome, run_by_id, query_run_by_id,
}
use dreamscroll.Task.Tracker.Writes.{query_run_by_id-SameTable}
use dreamscroll.Task.Tracker.Results.{Answers, query_run_by_id-Answers, write_status-ok}
use dreamscroll.Task.Master.Expected.{NextAttempt, decide_next_attempt-NextAttempt}
use dreamscroll.Task.Master.{
  decide_next_attempt, decide_will_retry, outcome_of, start_attempt, begin_attempt, finish_attempt,
}

-- A settled row: no attempt may start.
abbrev IsSettled : Row → Type 0
IsSettled row =
    (row.status_code ≡ as_i32 complete_success) ⊎ (row.status_code ≡ as_i32 submission_failed)

decide_next_attempt-settled : (row : Row) → IsSettled row → decide_next_attempt (some row) ≡ none
unfolding decide_next_attempt as_i32
decide_next_attempt-settled row (inl e) = ground arith
decide_next_attempt-settled row (inr e) = ground arith

-- A write with a result behind it, where the whole succeeds.
then_pure :
    {A : Type 0} (x : Result Text (Unit {0}) × World) (a b : A)
    → (continue x (λ _. pure a)).0 ≡ ok b
    → (a ≡ b) × (x.0 ≡ ok tt) × ((continue x (λ _. pure a)).1 ≡ x.1)
unfolding pure
then_pure (ok u, w) a b h = (cc, refl, refl)
then_pure (err e, w) a b h = cc

module _ {T : Type 0} (t : Task T) where
  not_started :
      (run : TaskRun T) (row : Row) (x : Result Text (Option Row) × World)
      → IsSettled row
      → Answers x.0 (some row)
      → let y = continue x (λ status. start_attempt t run (decide_next_attempt status)) in
        Answers y.0 none × (y.1.rows ≡ x.1.rows)
  unfolding start_attempt pure
  not_started run row (ok status, v) settled (inl e) =
      let found : status ≡ some row = cc in
      rw (found, decide_next_attempt-settled row settled) (inl refl, refl)
  not_started run row (ok status, v) settled (inr (report, e)) = cc
  not_started run row (err report, v) settled answer = (inr (report, refl), refl)

  -- A delivery of a run that completed with success, or that was never submitted, starts no attempt:
  -- the answer is `none`, or the failure of the one query, and the table stays as it was.
  pub begin_attempt-settled :
      (run : TaskRun T) (w : World) (row : Row)
      → run_by_id run.run_id none w ≡ some row
      → IsSettled row
      → Answers (begin_attempt t run w).0 none × ((begin_attempt t run w).1.rows ≡ w.rows)
  unfolding begin_attempt
  begin_attempt-settled run w row found settled =
      let (answer, same) =
        not_started run row (query_run_by_id run.run_id none w) settled
          (subst (Answers _) found (query_run_by_id-Answers run.run_id none w)) in
      (answer, same ∙ (query_run_by_id-SameTable run.run_id none w).same_rows)

  -- The row of an attempt that has just begun.
  abbrev pub begun : I32 → ℕ → Row → Row
  begun attempt now row = record row {
    status_code = 2;
    attempts = attempt;
    processing_started_at = some now;
    updated_at = now;
  }

  started :
      (run : TaskRun T) (next : Option I32) (v : World) (attempt : I32)
      → (start_attempt t run next v).0 ≡ ok (some attempt)
      → (next ≡ some attempt)
        × ((now : ℕ) × ((start_attempt t run next v).1.rows
              ≡ update_where run.run_id (begun attempt now) v.rows))
  unfolding start_attempt pure mark_in_progress set_columns start_columns as_i32
  started run none v attempt h = cc
  started run (some n) v attempt h =
      let (same, wrote, world) = then_pure (mark_in_progress t run n v) (some n) (some attempt) h in
      let number : n ≡ attempt = cc in
      (
        same,
        (
          (advance v).now,
          ap (λ w. w.rows) world
              ∙ write_status-ok t run in_progress n start_columns v wrote
              ∙ ap (λ k. update_where run.run_id (begun k (advance v).now) v.rows) number,
        ),
      )

  started_after :
      (run : TaskRun T) (row : Option Row) (x : Result Text (Option Row) × World) (attempt : I32)
      → Answers x.0 row
      → let y = continue x (λ status. start_attempt t run (decide_next_attempt status)) in
        y.0 ≡ ok (some attempt)
        → (decide_next_attempt row ≡ some attempt)
          × ((now : ℕ) × (y.1.rows ≡ update_where run.run_id (begun attempt now) x.1.rows))
  started_after run row (err report, v) attempt answer h = cc
  started_after run row (ok status, v) attempt (inr (report, e)) h = cc
  started_after run row (ok status, v) attempt (inl e) h =
      let found : status ≡ row = cc in
      let (next, update) = started run (decide_next_attempt status) v attempt h in
      (ap decide_next_attempt (sym found) ∙ next, update)

  -- An attempt that begins has the number 1, if the run has no row; otherwise the row's status is
  -- neither a failed submission nor complete success, and the number is one more than the attempts
  -- of the row, in 32 bits. The table is the old one with the run in progress at this attempt, from
  -- the time of the write on.
  pub begin_attempt-started :
      (run : TaskRun T) (w : World) (attempt : I32)
      → (begin_attempt t run w).0 ≡ ok (some attempt)
      → NextAttempt (run_by_id run.run_id none w) (some attempt)
        × ((now : ℕ) × ((begin_attempt t run w).1.rows
              ≡ update_where run.run_id (begun attempt now) w.rows))
  unfolding begin_attempt
  begin_attempt-started run w attempt h =
      let (next, (now, update)) =
        started_after run _ (query_run_by_id run.run_id none w) attempt
          (query_run_by_id-Answers run.run_id none w) h in
      (
        subst (NextAttempt (run_by_id run.run_id none w)) next
            (decide_next_attempt-NextAttempt (run_by_id run.run_id none w)),
        (
          now,
          update
              ∙ ap (update_where run.run_id (begun attempt now))
                  (query_run_by_id-SameTable run.run_id none w).same_rows,
        ),
      )

  -- The row of an attempt that has ended.
  abbrev ended : TaskRunStatus → I32 → Option ApiError → Extras
  ended status attempt error = set_columns status attempt (outcome_columns status error)

  -- The status that an attempt ends in.
  abbrev pub verdict : (ℕ → Bool) → I32 → I32 → Result ApiError (Unit {0}) → TaskRunStatus
  verdict is_server_error max_attempts attempt (ok _) = complete_success
  verdict is_server_error max_attempts attempt (err error) =
      if lt_i32 attempt max_attempts && is_server_error error.http_status_code
      then error_will_retry
      else complete_failure

  abbrev reported : Result ApiError (Unit {0}) → Option ApiError
  reported (ok _) = none
  reported (err error) = some error

  finish_attempt-recorded :
      (max_attempts : I32) (run : TaskRun T) (attempt : I32) (result : Result ApiError (Unit {0}))
      (w : World) (status : TaskRunStatus)
      → (finish_attempt t max_attempts run attempt result w).0 ≡ ok status
      → (status ≡ verdict w.env.is_server_error max_attempts attempt result)
        × ((finish_attempt t max_attempts run attempt result w).1.rows
            ≡ update_where run.run_id
                (ended
                  (verdict w.env.is_server_error max_attempts attempt result)
                  attempt
                  (reported result)
                  (advance w).now)
                w.rows)
  unfolding finish_attempt record_outcome outcome_of decide_will_retry is_retryable
  finish_attempt-recorded max_attempts run attempt (ok _) w status h =
      let (same, wrote, world) =
        then_pure (record_outcome t run complete_success attempt none w) complete_success status
          h in
      (
        sym same,
        ap (λ v. v.rows) world
            ∙ write_status-ok t run complete_success attempt (outcome_columns complete_success none)
                w wrote,
      )
  finish_attempt-recorded max_attempts run attempt (err error) w status h =
      let outcome = outcome_of w.env.is_server_error max_attempts attempt error in
      let (same, wrote, world) =
        then_pure (record_outcome t run outcome attempt (some error) w) outcome status h in
      (
        sym same,
        ap (λ v. v.rows) world
            ∙ write_status-ok t run outcome attempt (outcome_columns outcome (some error)) w wrote,
      )

  -- The row of a finished attempt: a success keeps the report of an earlier failure, a failure
  -- records its own.
  abbrev pub finished : (ℕ → Bool) → I32 → I32 → Result ApiError (Unit {0}) → ℕ → Row → Row
  finished is_server_error max_attempts attempt (ok _) now row = record row {
    status_code = 4;
    attempts = attempt;
    success_duration_ms = attempt_duration_ms now row;
    updated_at = now;
  }
  finished is_server_error max_attempts attempt (err error) now row = record row {
    status_code =
        if lt_i32 attempt max_attempts && is_server_error error.http_status_code then 3 else 5;
    attempts = attempt;
    last_error_code = some error.inner_status_code;
    last_error_message = some (truncate_error_message error.error);
    last_error_duration_ms = attempt_duration_ms now row;
    updated_at = now;
  }

  verdict_row :
      (retry : Bool) (attempt : I32) (error : ApiError) (now : ℕ) (row : Row)
      → ended (if retry then error_will_retry else complete_failure) attempt (some error) now row
        ≡ record row {
          status_code = if retry then 3 else 5;
          attempts = attempt;
          last_error_code = some error.inner_status_code;
          last_error_message = some (truncate_error_message error.error);
          last_error_duration_ms = attempt_duration_ms now row;
          updated_at = now;
        }
  unfolding set_columns outcome_columns with_error_columns as_i32
  verdict_row true attempt error now row = refl
  verdict_row false attempt error now row = refl

  ended-finished :
      (is_server_error : ℕ → Bool) (max_attempts attempt : I32)
      (result : Result ApiError (Unit {0})) (now : ℕ) (row : Row)
      → ended
          (verdict is_server_error max_attempts attempt result)
          attempt
          (reported result)
          now
          row
        ≡ finished is_server_error max_attempts attempt result now row
  unfolding set_columns outcome_columns as_i32 outcome_of decide_will_retry is_retryable
  ended-finished is_server_error max_attempts attempt (ok _) now row = refl
  ended-finished is_server_error max_attempts attempt (err error) now row =
      verdict_row (lt_i32 attempt max_attempts && is_server_error error.http_status_code) attempt
        error now row

  -- An attempt that is reported as finished has the status complete success, or, after an error, the
  -- status error-will-retry if a later attempt is in the budget and the error is a server error, and
  -- complete failure if not; and the table is the old one with this status, the attempt's number,
  -- its duration and, after an error, its code and its message in the run's row.
  pub finish_attempt-finished :
      (max_attempts : I32) (run : TaskRun T) (attempt : I32) (result : Result ApiError (Unit {0}))
      (w : World) (status : TaskRunStatus)
      → (finish_attempt t max_attempts run attempt result w).0 ≡ ok status
      → (status ≡ verdict w.env.is_server_error max_attempts attempt result)
        × ((now : ℕ) × ((finish_attempt t max_attempts run attempt result w).1.rows
              ≡ update_where run.run_id
                  (finished w.env.is_server_error max_attempts attempt result now)
                  w.rows))
  finish_attempt-finished max_attempts run attempt result w status h =
      let (same, update) = finish_attempt-recorded max_attempts run attempt result w status h in
      let now = (advance w).now in
      (
        same,
        (
          now,
          update
              ∙ ap (λ f. update_where run.run_id f w.rows)
                  (fun_ext (ended-finished w.env.is_server_error max_attempts attempt result now)),
        ),
      )
