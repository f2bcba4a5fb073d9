-- ===== src/Task/Master/Submission.antt =====
-- The outcomes of a submission: `submit_inner` and the methods around it in src/task/taskmaster.rs.
use dreamscroll.Base.{◌≡◌, refl, sym, ap, ◌∙◌, inl, inr, true, Option, none, some}
use mathlib.Core.Path.{subst}
use dreamscroll.Base.Text.{Text}
use dreamscroll.Base.Results.{Result, ok, err, Exec, pure, continue}
use dreamscroll.Task.Status.{TaskRunStatus, from_i32, is_in_flight}
use dreamscroll.Task.Definition.{Task, make_logical_id}
use dreamscroll.Task.Row.{Row}
use dreamscroll.Task.Database.{World}
use dreamscroll.Task.Database.Effects.{SameTable, SameTable-refl, SameTable-trans}
use dreamscroll.Task.Tracker.{latest_run, backfill_run, query_run_status, query_backfill_run}
use dreamscroll.Task.Tracker.Writes.{query_run_status-SameTable, query_backfill_run-SameTable}
use dreamscroll.Task.Tracker.Results.{Answers, query_run_status-Answers, query_backfill_run-Answers}
use dreamscroll.Task.Master.{
  SubmitOutcome, already_submitted_backfill, refused_already_in_flight, TaskQueue, decide_next_run,
  run_after, return_or, recorded, or_else, already_submitted, refuse, submit_run, submit_latest,
  submit_inner,
}

-- The run of this logical task in this backfill, as an outcome.
abbrev pub prior_run : Option Text → Text → World → Option SubmitOutcome
prior_run none logical_id w = none
prior_run (some b) logical_id w = recorded (backfill_run b logical_id w)

backfill_run-SameTable :
    (b logical_id : Text) {v w : World}
    → SameTable v w
    → backfill_run b logical_id w ≡ backfill_run b logical_id v
unfolding backfill_run
backfill_run-SameTable b logical_id h = rw (h.same_rows)

prior_run-SameTable :
    (backfill_id : Option Text) (logical_id : Text) {v w : World}
    → SameTable v w
    → prior_run backfill_id logical_id w ≡ prior_run backfill_id logical_id v
prior_run-SameTable none logical_id h = refl
prior_run-SameTable (some b) logical_id h = ap recorded (backfill_run-SameTable b logical_id h)

-- A pure step behind an answer.
mapped :
    {A B : Type 0} (f : A → B) (x : Result Text A × World) (a : A)
    → Answers x.0 a
    → Answers (continue x (λ c. pure (f c))).0 (f a) × ((continue x (λ c. pure (f c))).1 ≡ x.1)
unfolding pure
mapped f (ok c, w) a (inl e) = (inl (let same : c ≡ a = cc in ap (λ u. ok (f u)) same), refl)
mapped f (ok c, w) a (inr (report, e)) = cc
mapped f (err r, w) a answer = (inr (r, refl), refl)

pub already_submitted-Answers :
    (backfill_id : Option Text) (logical_id : Text) (w : World)
    → Answers (already_submitted backfill_id logical_id w).0 (prior_run backfill_id logical_id w)
      × SameTable w (already_submitted backfill_id logical_id w).1
unfolding already_submitted pure
already_submitted-Answers none logical_id w = (inl refl, SameTable-refl w)
already_submitted-Answers (some b) logical_id w =
    let (answer, same) =
      mapped recorded (query_backfill_run b logical_id w) _
        (query_backfill_run-Answers b logical_id w) in
    (answer, subst (SameTable w) (sym same) (query_backfill_run-SameTable b logical_id w))

pub refuse-Answers :
    (backfill_id : Option Text) (logical_id : Text) (w : World)
    → Answers
        (refuse backfill_id logical_id w).0
        (or_else (prior_run backfill_id logical_id w) refused_already_in_flight)
      × SameTable w (refuse backfill_id logical_id w).1
unfolding refuse
refuse-Answers backfill_id logical_id w =
    let (found, table) = already_submitted-Answers backfill_id logical_id w in
    let (answer, same) =
      mapped (λ again. or_else again refused_already_in_flight)
        (already_submitted backfill_id logical_id w) _ found in
    (answer, subst (SameTable w) (sym same) table)

-- An answer, and the same table behind it.
abbrev pub Leaves : {A : Type 0} → World → Result Text A × World → A → Type 0
Leaves w x a = Answers x.0 a × (x.1.rows ≡ w.rows)

-- The rest of a block behind an answer; a failure leaves the block.
Leaves-bind :
    {A B : Type 0} (w : World) (x : Result Text A × World) (f : A → Exec World Text B) (a : A)
    (b : B)
    → Answers x.0 a
    → SameTable w x.1
    → ((v : World) → SameTable w v → Leaves w (f a v) b)
    → Leaves w (continue x f) b
Leaves-bind w (ok c, v) f a b (inl e) same rest = let found : c ≡ a = cc in rw found (rest v same)
Leaves-bind w (ok c, v) f a b (inr (report, e)) same rest = cc
Leaves-bind w (err r, v) f a b answer same rest = (inr (r, refl), same.same_rows)

pub latest_run-SameTable :
    (logical_id : Text) {v w : World}
    → SameTable v w
    → latest_run logical_id none none w ≡ latest_run logical_id none none v
unfolding latest_run
latest_run-SameTable logical_id h = rw (h.same_rows)

module _ {T : Type 0} (t : Task T) (queue : TaskQueue T) (task : T) (run_id : Text) where
  -- A logical task that has a run in the backfill is not submitted again for it, whatever the status
  -- of that run: the answer is its identity, or a failed query, and the table stays as it was.
  pub submit_inner-backfill_once :
      (backfill_id : Text) (w : World) (row : Row)
      → backfill_run backfill_id (make_logical_id t task) w ≡ some row
      → Leaves w
          (submit_inner t queue task (some backfill_id) run_id w)
          (already_submitted_backfill row.run_id row.run_number)
  unfolding submit_inner return_or recorded pure
  submit_inner-backfill_once backfill_id w row found =
      let (answer, table) =
        already_submitted-Answers (some backfill_id) (make_logical_id t task) w in
      let x = already_submitted (some backfill_id) (make_logical_id t task) w in
      let outcome = already_submitted_backfill row.run_id row.run_number in
      Leaves-bind w x
        (λ prior. return_or prior (submit_latest t queue task (some backfill_id) run_id))
        (some outcome) outcome (subst (λ r. Answers x.0 (recorded r)) found answer) table
        (λ v same. (inl refl, same.same_rows))

  refuse-Leaves :
      (backfill_id : Option Text) (w v : World)
      → prior_run backfill_id (make_logical_id t task) w ≡ none
      → SameTable w v
      → Leaves w (refuse backfill_id (make_logical_id t task) v) refused_already_in_flight
  unfolding or_else
  refuse-Leaves backfill_id w v free same =
      let (answer, table) = refuse-Answers backfill_id (make_logical_id t task) v in
      (
        subst
            (λ p.
              Answers (refuse backfill_id (make_logical_id t task) v).0
                (or_else p refused_already_in_flight))
            (prior_run-SameTable backfill_id (make_logical_id t task) same ∙ free) answer,
        (SameTable-trans same table).same_rows,
      )

  decide_next_run-in_flight :
      (row : Row) (status : TaskRunStatus)
      → from_i32 row.status_code ≡ some status
      → is_in_flight status ≡ true
      → decide_next_run (some row) ≡ none
  unfolding decide_next_run run_after
  decide_next_run-in_flight row status e busy = rw (e, run_after, busy)

  -- While the latest run of a logical task is in flight, and the submission names no backfill or one
  -- without a run of the task, it is refused, or a query fails, and the table stays as it was.
  pub submit_inner-in_flight :
      (backfill_id : Option Text) (w : World) (row : Row) (status : TaskRunStatus)
      → prior_run backfill_id (make_logical_id t task) w ≡ none
      → latest_run (make_logical_id t task) none none w ≡ some row
      → from_i32 row.status_code ≡ some status
      → is_in_flight status ≡ true
      → Leaves w (submit_inner t queue task backfill_id run_id w) refused_already_in_flight
  unfolding submit_inner submit_latest return_or submit_run
  submit_inner-in_flight backfill_id w row status free latest known busy =
      let logical_id = make_logical_id t task in
      let x = already_submitted backfill_id logical_id w in
      let (answer, table) = already_submitted-Answers backfill_id logical_id w in
      Leaves-bind w x (λ prior. return_or prior (submit_latest t queue task backfill_id run_id))
        none refused_already_in_flight (subst (Answers x.0) free answer) table
        (λ v same.
          let y = query_run_status logical_id none none v in
          Leaves-bind w y
            (λ latest. submit_run t queue task backfill_id run_id (decide_next_run latest))
            (some row) refused_already_in_flight
            (subst (Answers y.0) (latest_run-SameTable logical_id same ∙ latest)
              (query_run_status-Answers logical_id none none v))
            (SameTable-trans same (query_run_status-SameTable logical_id none none v))
            (λ u table'.
              rw (decide_next_run-in_flight row status known busy)
                (refuse-Leaves backfill_id w u free table')))
