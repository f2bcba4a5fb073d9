-- ===== src/Task/Master.antt =====
-- src/task/taskmaster.rs: submission of tasks, and the attempts of their runs.
pub mod Steps
pub mod Attempts
pub mod Submission
pub mod Dispatch
pub mod Numbers
pub mod Rejection
pub mod Totality
pub mod Expected
use dreamscroll.Base.{
  ℕ, ◌≡◌, Bool, true, false, Option, none, some, List, [], ◌∷◌, ◌&&◌, ◌||◌, ◌==◌, if◌then◌else◌,
}
use dreamscroll.Base.Words.{I32, add_i32, lt_i32, max_i32}
use dreamscroll.Base.Text.{Text, codes}
use dreamscroll.Base.Results.{Result, ok, err, Exec, pure, raise, convert, ◌>>=◌, ◌>>◌}
use dreamscroll.Error.{ApiError, internal, forbidden, bad_request, is_retryable}
use dreamscroll.Auth.{Context, is_admin, user_id}
use dreamscroll.Task.Status.{
  TaskRunStatus, submission_failed, error_will_retry, complete_success, complete_failure, as_i32,
  from_i32, is_in_flight,
}
use dreamscroll.Task.Definition.{Task, TaskRun, make_logical_id}
use dreamscroll.Task.Definition
use dreamscroll.Task.Kinds.{
  IlluminationTask, SparkTask, SearchIndexTask, illumination_task, spark_task, search_index_task,
}
use dreamscroll.Task.Row.{Row}
use dreamscroll.Task.Database.{World}
use dreamscroll.Task.Tracker.{
  insert_run, set_status, mark_in_progress, record_outcome, query_run_status, query_backfill_run,
  query_run_by_id,
}

pub data SubmitOutcome : Type 0 where
  enqueued : Text → I32 → SubmitOutcome
  already_submitted_backfill : Text → I32 → SubmitOutcome
  refused_already_in_flight : SubmitOutcome

-- A run behind the latest one; an unknown status code counts as settled.
run_after : Row → Option TaskRunStatus → Option I32
unfolding add_i32
run_after latest none = some (add_i32 latest.run_number 1)
run_after latest (some status) =
    if is_in_flight status then none else some (add_i32 latest.run_number 1)

unfoldable pub decide_next_run : Option Row → Option I32
unfolding run_after
decide_next_run none = some 1
decide_next_run (some latest) = run_after latest (from_i32 latest.status_code)

unfoldable pub decide_next_attempt : Option Row → Option I32
unfolding as_i32
decide_next_attempt none = some 1
decide_next_attempt (some row) =
    if row.status_code == as_i32 complete_success
    then none
    else if row.status_code == as_i32 submission_failed
    then none
    else some (add_i32 row.attempts 1)

-- The first argument is the HTTP library's test for a 5xx status.
unfoldable pub decide_will_retry : (ℕ → Bool) → ApiError → I32 → I32 → Bool
unfolding is_retryable
decide_will_retry is_server_error error attempt max_attempts =
    lt_i32 attempt max_attempts && is_retryable is_server_error error

-- The status of a failed attempt.
unfoldable pub outcome_of : (ℕ → Bool) → I32 → I32 → ApiError → TaskRunStatus
unfolding decide_will_retry
outcome_of is_server_error max_attempts attempt error =
    if decide_will_retry is_server_error error attempt max_attempts
    then error_will_retry
    else complete_failure

-- A queue backend takes a run or reports an error; it may touch the world.
abbrev pub TaskQueue : Type 0 → Type 0
TaskQueue T = TaskRun T → Exec World Text (Unit {0})

-- The budget of the builder: the configured one or 3, and at least 1.
unfoldable pub max_attempts_per_run : Option I32 → I32
unfolding max_i32
max_attempts_per_run none = max_i32 3 1
max_attempts_per_run (some n) = max_i32 n 1

pub or_else {ℓ} : {A : Type ℓ} → Option A → A → A
or_else none d = d
or_else (some a) d = a

-- An early return.
return_or : Option SubmitOutcome → Exec World Text SubmitOutcome → Exec World Text SubmitOutcome
unfolding pure
return_or none rest = rest
return_or (some outcome) rest = pure outcome

unfoldable pub recorded : Option Row → Option SubmitOutcome
recorded none = none
recorded (some row) = some (already_submitted_backfill row.run_id row.run_number)

unfoldable pub already_submitted : Option Text → Text → Exec World Text (Option SubmitOutcome)
unfolding query_backfill_run recorded pure
already_submitted none logical_id = pure none
already_submitted (some backfill_id) logical_id = do
  row ← query_backfill_run backfill_id logical_id
  pure (recorded row)

-- The outcome for a submission that lost: the run of the same backfill, if there is one.
unfoldable pub refuse : Option Text → Text → Exec World Text SubmitOutcome
unfolding already_submitted or_else pure
refuse backfill_id logical_id = do
  again ← already_submitted backfill_id logical_id
  pure (or_else again refused_already_in_flight)

module _ {T : Type 0} (t : Task T) where
  unfoldable pub ensure_task_submission_allowed : Context → T → Result ApiError (Unit {0})
  unfolding is_admin user_id forbidden
  ensure_task_submission_allowed context task =
      if is_admin context || user_id context == t.entity_owner_id task
      then ok tt
      else err (forbidden (codes "Only the target entity owner or an admin can submit this task"))

  after_enqueue : TaskRun T → Result Text (Unit {0}) × World → Result Text SubmitOutcome × World
  unfolding set_status internal raise
  after_enqueue run (ok _, w) = (ok (enqueued run.run_id run.run_number), w)
  after_enqueue run (err error, w) =
      (set_status t run submission_failed 0 (some (internal error)) >> raise (internal error).error)
        w

  pub dispatch : TaskQueue T → TaskRun T → Bool → Exec World Text SubmitOutcome
  unfolding refuse after_enqueue
  dispatch queue run false = refuse run.backfill_id run.logical_id
  dispatch queue run true = λ w. after_enqueue run (queue run w)

  submit_run : TaskQueue T → T → Option Text → Text → Option I32 → Exec World Text SubmitOutcome
  unfolding refuse dispatch insert_run Definition.new
  submit_run queue task backfill_id run_id none = refuse backfill_id (make_logical_id t task)
  submit_run queue task backfill_id run_id (some next_run) =
      let run = record (Definition.new t run_id task next_run) { backfill_id = backfill_id } in
      do created ← insert_run t run; dispatch queue run created

  submit_latest : TaskQueue T → T → Option Text → Text → Exec World Text SubmitOutcome
  unfolding query_run_status submit_run
  submit_latest queue task backfill_id run_id = do
    latest ← query_run_status (make_logical_id t task) none none
    submit_run queue task backfill_id run_id (decide_next_run latest)

  -- `run_id` is the UUID that a new run would get.
  unfoldable pub submit_inner : TaskQueue T → T → Option Text → Text → Exec World Text SubmitOutcome
  unfolding already_submitted return_or submit_latest
  submit_inner queue task backfill_id run_id = do
    prior ← already_submitted backfill_id (make_logical_id t task)
    return_or prior (submit_latest queue task backfill_id run_id)

  start_attempt : TaskRun T → Option I32 → Exec World Text (Option I32)
  unfolding mark_in_progress pure
  start_attempt run none = pure none
  start_attempt run (some attempt) = do mark_in_progress t run attempt; pure (some attempt)

  unfoldable pub begin_attempt : TaskRun T → Exec World Text (Option I32)
  unfolding query_run_by_id start_attempt
  begin_attempt run = do
    status ← query_run_by_id run.run_id none
    start_attempt run (decide_next_attempt status)

  unfoldable pub finish_attempt :
      I32 → TaskRun T → I32 → Result ApiError (Unit {0}) → Exec World Text TaskRunStatus
  unfolding record_outcome outcome_of pure
  finish_attempt max_attempts run attempt (ok _) w =
      (do record_outcome t run complete_success attempt none; pure complete_success) w
  finish_attempt max_attempts run attempt (err error) w =
      let status = outcome_of w.env.is_server_error max_attempts attempt error in
      (do record_outcome t run status attempt (some error); pure status) w

checked : {A : Type 0} → Result ApiError (Unit {0}) → Exec World ApiError A → Exec World ApiError A
checked (ok _) rest = rest
checked (err error) rest = λ w. (err error, w)

internally : {A : Type 0} → Exec World Text A → Exec World ApiError A
unfolding internal
internally m w = convert internal (m w)

module _ (payload : IlluminationTask → Result Text Text) where
  unfoldable pub submit_illuminate :
      TaskQueue IlluminationTask
      → Context
      → IlluminationTask
      → Option Text
      → Text
      → Exec World ApiError SubmitOutcome
  unfolding checked internally ensure_task_submission_allowed submit_inner
  submit_illuminate queue context task backfill_id run_id =
      let t = illumination_task payload in
      checked (ensure_task_submission_allowed t context task)
        (internally (submit_inner t queue task backfill_id run_id))

is_empty : List I32 → Bool
is_empty [] = true
is_empty (i ∷ is) = false

module _ (payload : SparkTask → Result Text Text) where
  unfoldable pub submit_spark :
      TaskQueue SparkTask
      → Context
      → SparkTask
      → Option Text
      → Text
      → Exec World ApiError SubmitOutcome
  unfolding checked internally is_empty bad_request ensure_task_submission_allowed submit_inner
  submit_spark queue context task backfill_id run_id =
      let t = spark_task payload in
      if is_empty task.capture_ids
      then (λ w. (err (bad_request (codes "submit_spark requires at least one capture_id")), w))
      else checked (ensure_task_submission_allowed t context task)
          (internally (submit_inner t queue task backfill_id run_id))

module _ (payload : SearchIndexTask → Result Text Text) where
  unfoldable pub submit_search_index :
      TaskQueue SearchIndexTask
      → Context
      → SearchIndexTask
      → Option Text
      → Text
      → Exec World ApiError SubmitOutcome
  unfolding checked internally ensure_task_submission_allowed submit_inner
  submit_search_index queue context task backfill_id run_id =
      let t = search_index_task payload in
      checked (ensure_task_submission_allowed t context task)
        (internally (submit_inner t queue task backfill_id run_id))

  unfoldable pub submit_search_index_from_worker :
      TaskQueue SearchIndexTask
      → SearchIndexTask
      → Option Text
      → Text
      → Exec World Text SubmitOutcome
  unfolding submit_inner
  submit_search_index_from_worker queue task backfill_id run_id =
      submit_inner (search_index_task payload) queue task backfill_id run_id

unfoldable pub query_owned_run_status : Context → Text → Exec World Text (Option Row)
unfolding query_run_by_id user_id
query_owned_run_status context run_id = query_run_by_id run_id (some (user_id context))
