-- ===== src/Examples.antt =====
-- Small inputs for the theorems that have hypotheses, and tests of the definitions.
mod Backfills
mod Catchups
mod Searches
mod Workers
mod Tokens
mod Streams
mod Projections
mod Deliveries
use dreamscroll.Base.{
  ℕ, ◌≡◌, ◌<◌, ◌≤◌, ◌⊎◌, ◌+◌, ◌++◌, ◌↔◌, length, refl, ap, inl, true, false, Option, none, some,
  List, [], ◌∷◌, ◌&&◌, leb, arith, ℕ_discrete, Distinct, All,
}
use dreamscroll.Base.Words.{I32, lt_i32, add_i32}
use dreamscroll.Base.Text.{Text, codes, text_eq}
use dreamscroll.Base.Results.{Result, ok, err, pure, raise, convert}
use dreamscroll.OneShotQueue.{new}
use dreamscroll.OneShotQueue.Once.{
  Call, enqueues, enqueues_all, pops, completes, start, run, run_exactly_once,
  enqueue_iter-offer_all, offer_all,
}
use dreamscroll.OneShotQueue.{pop_next, enqueue, complete, enqueue_iter}
use dreamscroll.Error.{ApiError, internal}
use dreamscroll.Auth.{Context, session}
use dreamscroll.Task.Status.{
  TaskRunStatus, error_will_retry, queued, from_i32, as_i32, deserialize, serialize, is_in_flight,
}
use dreamscroll.Task.Status.Codec.{deserialize_exact}
use dreamscroll.Base.Decimal.{show_i32}
use dreamscroll.Task.Definition.{Task, TaskRun, make_logical_id}
use dreamscroll.Task.Kinds.{
  SearchIndexTask, IlluminationTask, SparkTask, search_index_task, spark_task, illumination_task,
  v2,
}
use dreamscroll.Task.Row.{
  Row, find, same_text, update_where, find_violation, same_run_id, same_ordinal, same_backfill,
}
use dreamscroll.Task.Timing.{measure_of, recent_samples}
use dreamscroll.Task.Table.{HasKeys, Extends}
use dreamscroll.Task.Database.{Env, World, BackfillRecord, executed}
use dreamscroll.Task.Tracker.{run_by_id, backfill_run, latest_run, truncate_error_message}
use dreamscroll.Task.Tracker.Truncation.{IsCut, truncate_error_message-bounded}
use dreamscroll.Task.Tracker.Results.{Answers}
use dreamscroll.Task.Master.{
  TaskQueue, already_submitted_backfill, refused_already_in_flight, decide_next_attempt,
  begin_attempt, finish_attempt, submit_inner, dispatch, decide_next_run, submit_spark,
}
use dreamscroll.Task.Master.Steps.{Steps-pure}
use dreamscroll.Task.Master.Attempts.{
  begun, verdict, finished, begin_attempt-settled, begin_attempt-started, finish_attempt-finished,
}
use dreamscroll.Task.Master.Totality.{begin_attempt-IsCalm, finish_attempt-IsCalm}
use dreamscroll.Task.Master.Submission.{
  Leaves, prior_run, submit_inner-backfill_once, submit_inner-in_flight,
}
use dreamscroll.Task.Master.Dispatch.{Taken, proposed, submit_inner-enqueued}
use dreamscroll.Task.Master.Rejection.{
  IsRejection, SparkReply, dispatch-rejected, submit_spark-admission,
}
use dreamscroll.Backfill.Definition.{BackfillPumpRequest, illuminate_v2_backfill}
use dreamscroll.Backfill.Engine.{
  Formats, Submit, find_record, streak, record_pump, selection, pump_definition, pump,
}
use dreamscroll.Backfill.Engine.Selection.{has_run, selection-unsubmitted, selection-dry}
use dreamscroll.Backfill.Engine.Counting.{IsAccount, pump_definition-counted}
use dreamscroll.Backfill.Engine.Latch.{
  Refuses, recorded_since, record_pump-ok, pump_definition-latched,
}
use dreamscroll.Webhook.{post_illuminate, deliver}
use dreamscroll.Task.Master.Expected.{NextAttempt, NextRun}
use dreamscroll.Webhook.Steps.{post_illuminate-keys}

-- A database that executes every statement, one microsecond each.
abbrev calm : Env
calm = record {
  moments = λ n. record { elapsed = 1; fate = executed; report = [] };
  summarize = λ m task_type samples. record {
    task_type = task_type;
    sample_count = 0;
    duration_ms_avg = 0;
    duration_ms_p50 = 0;
    duration_ms_p75 = 0;
    duration_ms_p90 = 0;
  };
  subscribed = false;
  is_server_error = λ code. leb 500 code && leb code 599;
}

abbrev index_task : Task SearchIndexTask
index_task = search_index_task (λ task. ok [])

abbrev capture_42 : SearchIndexTask
capture_42 = record { capture_id = 42; entity_owner_id = 1 }

-- A run of `capture_42` with the given id, number, backfill and status.
abbrev stored : Text → ℕ → Option Text → ℕ → ℕ → Row
stored run_id run_number backfill_id status_code attempts = record {
  id = run_number;
  logical_id = codes "u1-search_index-capture42";
  run_id = run_id;
  run_number = run_number;
  backfill_id = backfill_id;
  task_type = codes "search_index";
  entity_owner_id = 1;
  entity_type = codes "capture";
  entity_id = 42;
  task_payload = none;
  status_code = status_code;
  attempts = attempts;
  created_at = 5;
  processing_started_at = none;
  last_error_code = none;
  last_error_message = none;
  last_error_duration_ms = none;
  success_duration_ms = none;
  updated_at = 5;
}

abbrev first_run : Row
first_run = stored (codes "a") 1 (some (codes "fill")) 4 1

abbrev second_run : Row
second_run = stored (codes "b") 2 none 1 0

abbrev two_runs : World
two_runs = record {
  env = calm;
  tick = 0;
  now = 100;
  rows = first_run ∷ second_run ∷ [];
  next_id = 3;
  timings = [];
  published = [];
  backfills = [];
  captures = [];
}

abbrev run_of : Row → TaskRun SearchIndexTask
run_of row = record {
  logical_id = row.logical_id;
  run_id = row.run_id;
  run_number = row.run_number;
  backfill_id = row.backfill_id;
  task = capture_42;
}

abbrev accepting : TaskQueue SearchIndexTask
accepting run = pure tt

logical_id_capture_42 : make_logical_id index_task capture_42 ≡ codes "u1-search_index-capture42"
unfolding make_logical_id show_i32
logical_id_capture_42 = refl

two_runs_HasKeys : HasKeys two_runs.rows
unfolding text_eq
two_runs_HasKeys = (
  (
    record {
      run = λ e. let clash : false ≡ true = ap (text_eq (codes "b")) e in cc;
      ordinal = λ e n. omega arith;
      backfill = λ b p q e. cc;
    },
    tt,
  ),
  (tt, tt),
)

begin_attempt-settled_example :
    Answers (begin_attempt index_task (run_of first_run) two_runs).0 none
    × ((begin_attempt index_task (run_of first_run) two_runs).1.rows ≡ two_runs.rows)
unfolding run_by_id find text_eq as_i32
begin_attempt-settled_example =
    begin_attempt-settled index_task (run_of first_run) two_runs first_run refl (inl refl)

submit_inner-backfill_once_example :
    Leaves two_runs
      (submit_inner index_task accepting capture_42 (some (codes "fill")) (codes "c") two_runs)
      (already_submitted_backfill (codes "a") 1)
unfolding backfill_run make_logical_id show_i32 text_eq same_text
submit_inner-backfill_once_example =
    submit_inner-backfill_once index_task accepting capture_42 (codes "c") (codes "fill") two_runs
      first_run refl

submit_inner-in_flight_example :
    Leaves two_runs
      (submit_inner index_task accepting capture_42 none (codes "c") two_runs)
      refused_already_in_flight
unfolding latest_run make_logical_id show_i32 text_eq from_i32 is_in_flight lt_i32
submit_inner-in_flight_example =
    submit_inner-in_flight index_task accepting capture_42 (codes "c") none two_runs second_run
      queued refl refl refl refl

begin_attempt-started_example :
    NextAttempt (run_by_id (codes "b") none two_runs) (some 1)
    × ((now : ℕ) × ((begin_attempt index_task (run_of second_run) two_runs).1.rows
          ≡ update_where (codes "b") (begun index_task 1 now) two_runs.rows))
unfolding begin_attempt text_eq decide_next_attempt update_where add_i32
begin_attempt-started_example = begin_attempt-started index_task (run_of second_run) two_runs 1 refl

abbrev timeout : Result ApiError (Unit {0})
timeout = err (record { http_status_code = 500; error = codes "timeout"; inner_status_code = 429 })

finish_attempt-finished_example :
    (error_will_retry ≡ verdict index_task calm.is_server_error 3 1 timeout)
    × ((now : ℕ) × ((finish_attempt index_task 3 (run_of second_run) 1 timeout two_runs).1.rows
          ≡ update_where
              (codes "b")
              (finished index_task calm.is_server_error 3 1 timeout now)
              two_runs.rows))
unfolding finish_attempt text_eq find update_where lt_i32
finish_attempt-finished_example =
    finish_attempt-finished index_task 3 (run_of second_run) 1 timeout two_runs error_will_retry
      refl

abbrev illumination_run : TaskRun IlluminationTask
illumination_run = record {
  logical_id = codes "u1-illuminate-capture42";
  run_id = codes "b";
  run_number = 1;
  backfill_id = none;
  task = record {
    capture_id = 42;
    entity_owner_id = 1;
    model_id = codes "m";
    prompt_version = v2;
    thinking_level = none;
    persist_projection = true;
  };
}

post_illuminate-keys_example :
    let w' =
      (post_illuminate
        (λ task. ok [])
        (λ task. ok [])
        accepting
        3
        (codes "c")
        (λ run attempt. pure tt)
        illumination_run
        two_runs).1 in
    HasKeys w'.rows × Extends two_runs.rows w'.rows
post_illuminate-keys_example =
    post_illuminate-keys (λ task. ok []) (λ task. ok []) accepting 3 (codes "c")
      (λ run attempt. pure tt) illumination_run two_runs (λ run. Steps-pure tt)
      (λ run attempt. Steps-pure tt) two_runs_HasKeys

abbrev calls : List (Call ℕ)
calls =
    enqueues 1 ∷ enqueues_all (1 ∷ 2 ∷ 2 ∷ []) ∷ pops ∷ completes 1 ∷ enqueues 1 ∷ pops ∷ pops ∷ []

run_exactly_once_example :
    let h = run ℕ_discrete start calls in
    (h.accepted ≡ h.handed ++ h.queue.pending)
    × Distinct h.accepted
    × Distinct h.handed
    × (h.crashed ≡ false)
run_exactly_once_example = run_exactly_once ℕ_discrete calls

calls_handed : (run ℕ_discrete start calls).handed ≡ 1 ∷ 2 ∷ []
unfolding run ℕ_discrete new pop_next enqueue complete enqueue_iter
calls_handed = refl

enqueue_iter-offer_all_example :
    ((enqueue_iter ℕ_discrete (new {A = ℕ}) (1 ∷ 1 ∷ [])).0
      ≡ (offer_all ℕ_discrete start (1 ∷ 1 ∷ [])).queue)
    × ((enqueue_iter ℕ_discrete (new {A = ℕ}) (1 ∷ 1 ∷ [])).1 + 0
        ≡ length (offer_all ℕ_discrete start (1 ∷ 1 ∷ [])).accepted)
enqueue_iter-offer_all_example = enqueue_iter-offer_all ℕ_discrete start (1 ∷ 1 ∷ [])

deserialize_exact_example :
    (deserialize (serialize queued) ≡ some queued) ↔ (serialize queued ≡ serialize queued)
deserialize_exact_example = deserialize_exact (serialize queued) queued

abbrev one_run : World
one_run = record two_runs { rows = first_run ∷ [] }

submit_inner-enqueued_example :
    (codes "c" ≡ codes "c")
    × (prior_run none (make_logical_id index_task capture_42) one_run ≡ none)
    × NextRun (latest_run (make_logical_id index_task capture_42) none none one_run) (some 2)
    × Taken index_task accepting
        (proposed index_task accepting capture_42 none (codes "c") 2)
        one_run.rows
        (submit_inner index_task accepting capture_42 none (codes "c") one_run).1
unfolding submit_inner make_logical_id show_i32 text_eq same_text from_i32 is_in_flight lt_i32
    decide_next_run find_violation same_run_id same_ordinal same_backfill
submit_inner-enqueued_example =
    submit_inner-enqueued index_task accepting capture_42 none (codes "c") one_run (codes "c") 2
      refl

abbrev rejecting : TaskQueue SearchIndexTask
rejecting run = raise (codes "queue is full")

dispatch-rejected_example :
    IsRejection index_task
      (run_of second_run)
      (codes "queue is full")
      two_runs
      (dispatch index_task rejecting (run_of second_run) true two_runs)
unfolding raise
dispatch-rejected_example =
    dispatch-rejected index_task rejecting (run_of second_run) two_runs two_runs
      (codes "queue is full") refl

abbrev alice : Context
alice = record {
  user = record {
    id = 1;
    username = codes "alice";
    is_admin = false;
    storage_shard = [];
    method = session [];
  };
}

abbrev spark_of_bob : SparkTask
spark_of_bob = record { spark_id = 7; entity_owner_id = 2; capture_ids = 42 ∷ [] }

submit_spark-admission_example :
    SparkReply
      (convert internal (
        submit_inner
          (spark_task (λ task. ok []))
          (λ run. pure tt)
          spark_of_bob
          none
          (codes "c")
          two_runs))
      alice
      spark_of_bob
      two_runs
      (submit_spark (λ task. ok []) (λ run. pure tt) alice spark_of_bob none (codes "c") two_runs)
submit_spark-admission_example =
    submit_spark-admission (λ task. ok []) (λ run. pure tt) alice spark_of_bob none (codes "c")
      two_runs

truncate_error_message-bounded_example :
    let short = truncate_error_message (codes "timeout") in
    (length short ≤ 2000)
    × ((short ≡ codes "timeout")
        ⊎ ((2000 < length (codes "timeout")) × IsCut (codes "timeout") short))
truncate_error_message-bounded_example = truncate_error_message-bounded (codes "timeout")

-- A run that failed completely, at its third attempt.
abbrev one_failure : World
one_failure = record two_runs { rows = stored (codes "d") 1 none 5 3 ∷ [] }

begin_attempt-IsCalm_example :
    let failure = run_of (stored (codes "d") 1 none 5 3) in
    (number : Option I32) × ((begin_attempt index_task failure one_failure).0 ≡ ok number)
    × NextAttempt (run_by_id (codes "d") none one_failure) number
begin_attempt-IsCalm_example =
    begin_attempt-IsCalm index_task (run_of (stored (codes "d") 1 none 5 3)) one_failure (λ n. refl)
