-- ===== src/Task/Definition.antt =====
-- src/task/task_def.rs: tasks, their runs, and the identity that the runs of a task share.
pub mod Identity
use dreamscroll.Base.{
  ℕ, zero, suc, ◌+◌, ◌-◌, ◌/◌, ◌%◌, Option, none, [], ◌∷◌, ◌++◌, ltb, if◌then◌else◌,
}
use dreamscroll.Base.Words.{I32}
use dreamscroll.Base.Text.{Text}
use dreamscroll.Base.Results.{Result}
use dreamscroll.Base.Decimal.{show_i32}

-- The trait `Task`; `payload` is its serialization, which may fail.
pub record Task (T : Type 0) : Type 0 where
  pub task_type : Text
  pub entity_type : Text
  pub entity_id : T → I32
  pub entity_owner_id : T → I32
  pub payload : T → Result Text Text

pub record TaskRun (T : Type 0) : Type 0 where
  pub logical_id : Text
  pub run_id : Text
  pub run_number : I32
  pub backfill_id : Option Text
  pub task : T

module _ {T : Type 0} (t : Task T) where
  unfoldable pub make_logical_id : T → Text
  make_logical_id task =
      b'u'
      ∷ (show_i32 (t.entity_owner_id task)
          ++ (b'-' ∷ (t.task_type ++ (b'-' ∷ (t.entity_type ++ show_i32 (t.entity_id task))))))

  -- `run_id` is the fresh UUID.
  unfoldable pub new : Text → T → I32 → TaskRun T
  new run_id task run_number = record {
    logical_id = make_logical_id task;
    run_id = run_id;
    run_number = run_number;
    backfill_id = none;
    task = task;
  }
