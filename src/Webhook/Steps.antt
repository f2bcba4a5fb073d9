-- ===== src/Webhook/Steps.antt =====
-- The routes of src/webhook/ as sequences of statements on the table of runs.
use dreamscroll.Base.{ℕ, Bool, true, false, Option, none, some, if◌then◌else◌}
use dreamscroll.Base.Words.{I32}
use dreamscroll.Base.Text.{Text}
use dreamscroll.Base.Results.{Result, Exec}
use dreamscroll.Error.{ApiError, internal}
use dreamscroll.Task.Definition.{Task, TaskRun}
use dreamscroll.Task.Kinds.{IlluminationTask, SearchIndexTask, illumination_task, search_index_task}
use dreamscroll.Task.Table.{Reach, Reach-trans, HasKeys, Extends, Reach-HasKeys, Reach-Extends}
use dreamscroll.Task.Database.{World}
use dreamscroll.Task.Master.{TaskQueue, submit_search_index_from_worker}
use dreamscroll.Task.Master.Steps.{
  Steps, Steps-pure, Steps-bind, Steps-convert, submit_inner-Steps, begin_attempt-Steps,
  finish_attempt-Steps,
}
use dreamscroll.Logic.Beacon.{new_illumination}
use dreamscroll.Webhook.{
  Work, http_status_for_task_run, conclude, attempted, deliver, illuminate_and_follow,
  post_illuminate,
}

-- Work that touches the table of runs by statements alone.
abbrev pub WorkSteps : {T : Type 0} → Work T → Type 0
WorkSteps {T} exec = (run : TaskRun T) (attempt : I32) → Steps (exec run attempt)

abbrev pub QueueSteps : {T : Type 0} → TaskQueue T → Type 0
QueueSteps {T} queue = (run : TaskRun T) → Steps (queue run)

pub Steps-if :
    {E A : Type 0} (b : Bool) (m n : Exec World E A)
    → Steps m
    → Steps n
    → Steps (if b then m else n)
Steps-if true m n h k = h
Steps-if false m n h k = k

module _ {T : Type 0} (t : Task T) (max_attempts : I32) (exec : Work T)
    (steps : WorkSteps exec) where
  conclude-Reach :
      (run : TaskRun T) (attempt : I32) (x : Result ApiError (Unit {0}) × World)
      → Reach x.1.rows (conclude t max_attempts run attempt x).1.rows
  unfolding conclude
  conclude-Reach run attempt (result, w) =
      (Steps-bind _ _
          (Steps-convert internal _ (finish_attempt-Steps t max_attempts run attempt result))
          (λ status. Steps-pure (http_status_for_task_run status))).at
        w

  attempted-Steps :
      (run : TaskRun T) (attempt : Option I32) → Steps (attempted t max_attempts exec run attempt)
  unfolding attempted
  attempted-Steps run none = record { at = λ w. (Steps-pure {E = ApiError} {A = ℕ} 204).at w }
  attempted-Steps run (some attempt) = record {
    at = λ w.
        Reach-trans ((steps run attempt).at w) (conclude-Reach run attempt (exec run attempt w));
  }

  pub deliver-Steps : (run : TaskRun T) → Steps (deliver t max_attempts exec run)
  unfolding deliver
  deliver-Steps run =
      Steps-bind _ _ (Steps-convert internal _ (begin_attempt-Steps t run))
        (λ attempt. attempted-Steps run attempt)

new_illumination-Steps :
    (payload : SearchIndexTask → Result Text Text) (queue : TaskQueue SearchIndexTask)
    → QueueSteps queue
    → (task : IlluminationTask) (backfill_id : Option Text) (run_id : Text)
    → Steps (new_illumination payload queue task backfill_id run_id)
unfolding new_illumination submit_search_index_from_worker
new_illumination-Steps payload queue queued task backfill_id run_id =
    Steps-if _ _ _
      (Steps-bind _ _
        (submit_inner-Steps (search_index_task payload) queue queued _ backfill_id run_id)
        (λ _. Steps-pure tt))
      (Steps-pure tt)

-- A delivery to the illumination route, the work and the follow-up submission included, leaves a
-- table in which run ids, run numbers of a logical task and runs of a backfill are unique, if the
-- table was such: for all failures of statements, and for any work and any queue that change the
-- table by statements alone. No row of the table goes or changes what it is about.
pub post_illuminate-keys :
    (payload : IlluminationTask → Result Text Text)
    (index_payload : SearchIndexTask → Result Text Text) (queue : TaskQueue SearchIndexTask)
    (max_attempts : I32) (run_id : Text) (exec : Work IlluminationTask)
    (run : TaskRun IlluminationTask) (w : World)
    → QueueSteps queue
    → WorkSteps exec
    → HasKeys w.rows
    → let w' = (post_illuminate payload index_payload queue max_attempts run_id exec run w).1 in
      HasKeys w'.rows × Extends w.rows w'.rows
unfolding post_illuminate illuminate_and_follow
post_illuminate-keys payload index_payload queue max_attempts run_id exec run w queued steps keys =
    let reach =
      (deliver-Steps (illumination_task payload) max_attempts
          (illuminate_and_follow payload index_payload queue run_id exec)
          (λ r attempt. Steps-bind _ _ (steps r attempt) (λ _.
            Steps-convert internal _
              (new_illumination-Steps index_payload queue queued r.task r.backfill_id run_id)))
          run).at
        w in
    (Reach-HasKeys reach keys, Reach-Extends reach)
