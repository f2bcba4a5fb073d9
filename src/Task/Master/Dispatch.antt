-- ===== src/Task/Master/Dispatch.antt =====
-- The submission that reaches the queue, and the one that the queue rejects: `submit_inner` of
-- src/task/taskmaster.rs from the insertion of the run on.
use dreamscroll.Base.{◌≡◌, refl, sym, ap, ◌∙◌, Bool, true, false, Option, none, some, List}
use mathlib.Core.Path.{subst}
use dreamscroll.Base.Words.{I32}
use dreamscroll.Base.Text.{Text}
use dreamscroll.Base.Results.{Result, ok, err, Exec, pure, raise, continue, continue-inv}
use dreamscroll.Task.Definition.{Task, TaskRun, make_logical_id}
use dreamscroll.Task.Definition
use dreamscroll.Task.Row.{Row}
use dreamscroll.Task.Database.{World}
use dreamscroll.Task.Database.Effects.{SameTable, SameTable-trans}
use dreamscroll.Error.{internal}
use dreamscroll.Task.Status.{submission_failed}
use dreamscroll.Task.Tracker.{insert_run, set_status, latest_run, query_run_status}
use dreamscroll.Task.Tracker.Writes.{query_run_status-SameTable}
use dreamscroll.Task.Tracker.Insertions.{Recorded, insert_run-created}
use dreamscroll.Task.Tracker.Results.{answer_is, query_run_status-Answers}
use dreamscroll.Task.Master.Expected.{NextRun, decide_next_run-NextRun}
use dreamscroll.Task.Master.{
  SubmitOutcome, enqueued, refused_already_in_flight, TaskQueue, decide_next_run, return_or,
  recorded, or_else, already_submitted, refuse, dispatch, after_enqueue, submit_run, submit_latest,
  submit_inner,
}
use dreamscroll.Task.Master.Submission.{
  prior_run, already_submitted-Answers, refuse-Answers, latest_run-SameTable,
}

recorded_not_enqueued :
    (o : Option Row) {id : Text} {number : I32}
    → or_else (recorded o) refused_already_in_flight ≡ enqueued id number
    → ⊥
unfolding recorded or_else
recorded_not_enqueued none h = cc
recorded_not_enqueued (some row) h = cc

prior_not_enqueued :
    (backfill_id : Option Text) (logical_id : Text) (w : World) {id : Text} {number : I32}
    → or_else (prior_run backfill_id logical_id w) refused_already_in_flight ≡ enqueued id number
    → ⊥
unfolding or_else
prior_not_enqueued none logical_id w h = cc
prior_not_enqueued (some b) logical_id w h = recorded_not_enqueued _ h

refuse_not_enqueued :
    (backfill_id : Option Text) (logical_id : Text) (w : World) {id : Text} {number : I32}
    → (refuse backfill_id logical_id w).0 ≡ ok (enqueued id number)
    → ⊥
refuse_not_enqueued backfill_id logical_id w h =
    prior_not_enqueued backfill_id logical_id w
      (answer_is (refuse-Answers backfill_id logical_id w).0 h)

raised :
    {A B : Type 0} (x : Result Text A × World) (e : Text) (b : B)
    → (continue x (λ _. raise e)).0 ≡ ok b
    → ⊥
unfolding raise
raised (ok a, w) e b h = cc
raised (err r, w) e b h = cc

module _ {T : Type 0} (t : Task T) (queue : TaskQueue T) where
  -- A run was recorded, waiting, and the queue took it in the world of that moment.
  pub record Taken (run : TaskRun T) (start : List Row) (out : World) : Type 0 where
    pub before : World
    pub entry : Recorded t run start before.rows
    pub taken : (queue run before).0 ≡ ok tt
    pub world : out ≡ (queue run before).1

  after_enqueue-accepted :
      (run : TaskRun T) (x : Result Text (Unit {0}) × World) (id : Text) (number : I32)
      → (after_enqueue t run x).0 ≡ ok (enqueued id number)
      → (x.0 ≡ ok tt)
        × ((after_enqueue t run x).1 ≡ x.1)
        × (run.run_id ≡ id)
        × (run.run_number ≡ number)
  unfolding after_enqueue
  after_enqueue-accepted run (ok _, w) id number h = (refl, refl, cc, cc)
  after_enqueue-accepted run (err e, w) id number h =
      absurd (raised (set_status t run submission_failed 0 (some (internal e)) w) _ _ h)

  dispatch-accepted :
      (run : TaskRun T) (w : World) (created : Bool) (v : World) (id : Text) (number : I32)
      → (insert_run t run w).0 ≡ ok created
      → v ≡ (insert_run t run w).1
      → (dispatch t queue run created v).0 ≡ ok (enqueued id number)
      → Taken run w.rows (dispatch t queue run created v).1
        × (run.run_id ≡ id)
        × (run.run_number ≡ number)
  unfolding dispatch
  dispatch-accepted run w false v id number e same h =
      absurd (refuse_not_enqueued run.backfill_id run.logical_id v h)
  dispatch-accepted run w true v id number e same h =
      let (taken, world, id_same, number_same) =
        after_enqueue-accepted run (queue run v) id number h in
      (
        record {
          before = v;
          entry =
              subst (λ u. Recorded t run w.rows u.rows) (sym same) (insert_run-created t run w e);
          taken = taken;
          world = world;
        },
        id_same,
        number_same,
      )

  -- The run that a submission proposes.
  abbrev pub proposed : T → Option Text → Text → I32 → TaskRun T
  proposed task backfill_id run_id number = record {
    logical_id = make_logical_id t task;
    run_id = run_id;
    run_number = number;
    backfill_id = backfill_id;
    task = task;
  }

  submit_run-accepted :
      (task : T) (backfill_id : Option Text) (run_id : Text) (next : Option I32) (w : World)
      (id : Text) (number : I32)
      → (submit_run t queue task backfill_id run_id next w).0 ≡ ok (enqueued id number)
      → (next ≡ some number)
        × (run_id ≡ id)
        × Taken
            (proposed task backfill_id run_id number)
            w.rows
            (submit_run t queue task backfill_id run_id next w).1
  unfolding submit_run Definition.new
  submit_run-accepted task backfill_id run_id none w id number h =
      absurd (refuse_not_enqueued backfill_id (make_logical_id t task) w h)
  submit_run-accepted task backfill_id run_id (some n) w id number h =
      let run = proposed task backfill_id run_id n in
      let (created, done, same) =
        continue-inv (dispatch t queue run) (insert_run t run w) (enqueued id number) h in
      let (taken, id_same, number_same) =
        dispatch-accepted run w created (insert_run t run w).1 id number done refl
          (sym (ap (λ x. x.0) same) ∙ h) in
      (
        ap some number_same,
        id_same,
        subst
            (λ k.
              Taken (proposed task backfill_id run_id k) w.rows
                (submit_run t queue task backfill_id run_id (some n) w).1)
            number_same (subst (λ x. Taken run w.rows x.1) (sym same) taken),
      )

  submit_latest-accepted :
      (task : T) (backfill_id : Option Text) (run_id : Text) (w v : World) (id : Text)
      (number : I32)
      → SameTable w v
      → (submit_latest t queue task backfill_id run_id v).0 ≡ ok (enqueued id number)
      → (decide_next_run (latest_run (make_logical_id t task) none none w) ≡ some number)
        × (run_id ≡ id)
        × Taken
            (proposed task backfill_id run_id number)
            w.rows
            (submit_latest t queue task backfill_id run_id v).1
  unfolding submit_latest
  submit_latest-accepted task backfill_id run_id w v id number table h =
      let logical_id = make_logical_id t task in
      let x = query_run_status logical_id none none v in
      let (latest, done, same) =
        continue-inv (λ found. submit_run t queue task backfill_id run_id (decide_next_run found)) x
          (enqueued id number) h in
      let (next, id_same, taken) =
        submit_run-accepted task backfill_id run_id (decide_next_run latest) x.1 id number
          (sym (ap (λ y. y.0) same) ∙ h) in
      let later = SameTable-trans table (query_run_status-SameTable logical_id none none v) in
      (
        ap decide_next_run (
              sym (latest_run-SameTable logical_id table)
              ∙ answer_is (query_run_status-Answers logical_id none none v) done)
            ∙ next,
        id_same,
        subst (λ y. Taken (proposed task backfill_id run_id number) w.rows y.1) (sym same)
            (subst
              (λ rows.
                Taken (proposed task backfill_id run_id number) rows
                  (submit_run t queue task backfill_id run_id (decide_next_run latest) x.1).1)
              later.same_rows taken),
      )

  return_or-accepted :
      (prior : Option SubmitOutcome) (rest : Exec World Text SubmitOutcome) (w : World) {id : Text}
      {number : I32}
      → (or_else prior refused_already_in_flight ≡ enqueued id number → ⊥)
      → (return_or prior rest w).0 ≡ ok (enqueued id number)
      → (prior ≡ none) × (return_or prior rest w ≡ rest w)
  unfolding return_or or_else pure
  return_or-accepted none rest w other h = (refl, refl)
  return_or-accepted (some outcome) rest w other h = absurd (other cc)

  -- A submission that reports a run as enqueued: the run has the new id; its number is 1, if the
  -- logical task has no run, and otherwise one more than the number of the latest run, in 32 bits,
  -- whose status is none of queued, in progress and error-will-retry; the backfill had no run of
  -- this task; and the run was recorded as waiting, at the end of the table, before the queue took
  -- it. The world is the one that the queue left.
  pub submit_inner-enqueued :
      (task : T) (backfill_id : Option Text) (run_id : Text) (w : World) (id : Text) (number : I32)
      → (submit_inner t queue task backfill_id run_id w).0 ≡ ok (enqueued id number)
      → (run_id ≡ id)
        × (prior_run backfill_id (make_logical_id t task) w ≡ none)
        × NextRun (latest_run (make_logical_id t task) none none w) (some number)
        × Taken
            (proposed task backfill_id run_id number)
            w.rows
            (submit_inner t queue task backfill_id run_id w).1
  unfolding submit_inner
  submit_inner-enqueued task backfill_id run_id w id number h =
      let logical_id = make_logical_id t task in
      let x = already_submitted backfill_id logical_id w in
      let rest = submit_latest t queue task backfill_id run_id in
      let (answer, table) = already_submitted-Answers backfill_id logical_id w in
      let (prior, done, same) = continue-inv (λ p. return_or p rest) x (enqueued id number) h in
      let found = answer_is answer done in
      let (free, on) =
        return_or-accepted prior rest x.1
          (λ e.
            prior_not_enqueued backfill_id logical_id w
              (ap (λ p. or_else p refused_already_in_flight) found ∙ e))
          (sym (ap (λ y. y.0) same) ∙ h) in
      let (next, id_same, taken) =
        submit_latest-accepted task backfill_id run_id w x.1 id number table
          (sym (ap (λ y. y.0) (same ∙ on)) ∙ h) in
      (
        id_same,
        found ∙ free,
        subst (NextRun (latest_run logical_id none none w)) next
            (decide_next_run-NextRun (latest_run logical_id none none w)),
        subst (λ y. Taken (proposed task backfill_id run_id number) w.rows y.1) (sym (same ∙ on))
            taken,
      )
