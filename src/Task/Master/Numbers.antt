-- ===== src/Task/Master/Numbers.antt =====
-- The number that an attempt gets: `begin_attempt` of src/task/taskmaster.rs.
use dreamscroll.Base.{◌≡◌, sym, ap, ◌∙◌, Option, none, some}
use dreamscroll.Base.Words.{I32}
use dreamscroll.Base.Results.{ok, pure, continue-inv}
use dreamscroll.Task.Definition.{Task, TaskRun}
use dreamscroll.Task.Database.{World}
use dreamscroll.Task.Tracker.{mark_in_progress, run_by_id, query_run_by_id}
use dreamscroll.Task.Tracker.Results.{query_run_by_id-Answers, answer_is}
use dreamscroll.Task.Master.{decide_next_attempt, start_attempt, begin_attempt}

module _ {T : Type 0} (t : Task T) where
  start_attempt-number :
      (run : TaskRun T) (next : Option I32) (v : World) (number : Option I32)
      → (start_attempt t run next v).0 ≡ ok number
      → next ≡ number
  unfolding start_attempt pure
  start_attempt-number run none v number h = cc
  start_attempt-number run (some attempt) v number h =
      let (u, done, same) =
        continue-inv (λ _. pure (some attempt)) (mark_in_progress t run attempt v) number h in
      let told : ok (some attempt) ≡ ok number = sym (ap (λ x. x.0) same) ∙ h in cc

  -- The answer of `begin_attempt`, where it has one, is the decision on the row of the run.
  pub begin_attempt-number :
      (run : TaskRun T) (w : World) (number : Option I32)
      → (begin_attempt t run w).0 ≡ ok number
      → decide_next_attempt (run_by_id run.run_id none w) ≡ number
  unfolding begin_attempt
  begin_attempt-number run w number h =
      let x = query_run_by_id run.run_id none w in
      let (found, done, same) =
        continue-inv (λ status. start_attempt t run (decide_next_attempt status)) x number h in
      ap decide_next_attempt (answer_is (query_run_by_id-Answers run.run_id none w) done)
      ∙ start_attempt-number run (decide_next_attempt found) x.1 number
          (sym (ap (λ y. y.0) same) ∙ h)
