-- ===== src/Webhook.antt =====
-- src/webhook/: the routes to which the queue delivers a run. The work itself, `exec` of
-- src/logic/, is an argument: what is proved of the routes holds whatever it does.
pub mod Steps
pub mod Outcome
pub mod Answers
use dreamscroll.Base.{
  ℕ, ◌≡◌, Bool, true, false, Option, none, some, List, [], ◌∷◌, ◌&&◌, if◌then◌else◌, leb,
}
use dreamscroll.Base.Words.{I32}
use dreamscroll.Base.Text.{Text, codes}
use dreamscroll.Base.Results.{Result, ok, err, Exec, pure, raise, convert, ◌>>=◌, ◌>>◌}
use dreamscroll.Error.{ApiError, internal, bad_request}
use dreamscroll.Task.Status.{
  TaskRunStatus, submission_failed, queued, in_progress, error_will_retry, complete_success,
  complete_failure,
}
use dreamscroll.Task.Definition.{Task, TaskRun}
use dreamscroll.Task.Kinds.{
  IlluminationTask, SparkTask, SearchIndexTask, illumination_task, spark_task, search_index_task,
}
use dreamscroll.Task.Database.{World}
use dreamscroll.Task.Master.{TaskQueue, begin_attempt, finish_attempt}
use dreamscroll.Logic.Beacon.{new_illumination}

unfoldable pub http_status_for_task_run : TaskRunStatus → ℕ
http_status_for_task_run submission_failed = 500
http_status_for_task_run complete_success = 204
http_status_for_task_run complete_failure = 200
http_status_for_task_run error_will_retry = 500
http_status_for_task_run queued = 500
http_status_for_task_run in_progress = 500

-- The work on a run, at its attempt number.
abbrev pub Work : Type 0 → Type 0
Work T = TaskRun T → I32 → Exec World ApiError (Unit {0})

module _ {T : Type 0} (t : Task T) where
  abbrev internally : {A : Type 0} → Exec World Text A → Exec World ApiError A
  internally m w = convert internal (m w)

  -- The end of a delivery, from the result of the work.
  conclude : I32 → TaskRun T → I32 → Result ApiError (Unit {0}) × World → Result ApiError ℕ × World
  unfolding finish_attempt http_status_for_task_run pure
  conclude max_attempts run attempt (result, w) =
      (do
        status ← internally (finish_attempt t max_attempts run attempt result)
        pure (http_status_for_task_run status))
        w

  attempted : I32 → Work T → TaskRun T → Option I32 → Exec World ApiError ℕ
  unfolding conclude pure
  attempted max_attempts exec run none w = pure 204 w
  attempted max_attempts exec run (some attempt) w =
      conclude max_attempts run attempt (exec run attempt w)

  -- `post` of r_search_index.rs, and what the other routes do behind their own checks.
  unfoldable pub deliver : I32 → Work T → TaskRun T → Exec World ApiError ℕ
  unfolding begin_attempt attempted
  deliver max_attempts exec run = do
    attempt ← internally (begin_attempt t run)
    attempted max_attempts exec run attempt

module _ (payload : SearchIndexTask → Result Text Text) where
  unfoldable pub post_search_index :
      I32 → Work SearchIndexTask → TaskRun SearchIndexTask → Exec World ApiError ℕ
  unfolding deliver
  post_search_index = deliver (search_index_task payload)

is_empty : List I32 → Bool
is_empty [] = true
is_empty (i ∷ is) = false

module _ (payload : SparkTask → Result Text Text) where
  unfoldable pub post_spark : I32 → Work SparkTask → TaskRun SparkTask → Exec World ApiError ℕ
  unfolding deliver is_empty bad_request raise
  post_spark max_attempts exec run =
      if is_empty run.task.capture_ids
      then raise (bad_request (codes "capture_ids must contain at least one capture ID"))
      else deliver (spark_task payload) max_attempts exec run

module _ (payload : IlluminationTask → Result Text Text)
    (index_payload : SearchIndexTask → Result Text Text)
    (index_queue : TaskQueue SearchIndexTask) where
  -- The work of an illumination, and behind a successful one the beacon's follow-up. `run_id` is
  -- the UUID that a new indexing run would get.
  unfoldable pub illuminate_and_follow : Text → Work IlluminationTask → Work IlluminationTask
  unfolding new_illumination internal
  illuminate_and_follow run_id exec run attempt = do
    exec run attempt
    λ w.
        convert internal
          (new_illumination index_payload index_queue run.task run.backfill_id run_id w)

  unfoldable pub post_illuminate :
      I32 → Text → Work IlluminationTask → TaskRun IlluminationTask → Exec World ApiError ℕ
  unfolding deliver illuminate_and_follow
  post_illuminate max_attempts run_id exec =
      deliver (illumination_task payload) max_attempts (illuminate_and_follow run_id exec)
