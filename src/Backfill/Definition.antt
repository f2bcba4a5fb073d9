-- ===== src/Backfill/Definition.antt =====
-- src/backfill/definition.rs, types.rs and illuminate_v2_backfill.rs: a batch workload, its targets
-- and the result of pumping it.
use dreamscroll.Base.{ℕ, Bool, Option, List, [], ◌∷◌}
use dreamscroll.Base.Words.{I32}
use dreamscroll.Base.Text.{Text, codes}
use dreamscroll.Task.Kinds.{IlluminationTask, new_illumination_task, v2}
use dreamscroll.Task.Database.{World, CaptureKey}

pub record BackfillTarget : Type 0 where
  pub entity_id : I32
  pub owner_id : I32

-- The trait; `targets` is the candidate query, on the world of its execution.
pub record Backfill (T : Type 0) : Type 0 where
  pub id : Text
  pub targets : World → List BackfillTarget
  pub make_task : BackfillTarget → T

targets_of : List CaptureKey → List BackfillTarget
targets_of [] = []
targets_of (c ∷ captures) = record { entity_id = c.id; owner_id = c.user_id } ∷ targets_of captures

abbrev illuminate_v2_backfill_id : Text
illuminate_v2_backfill_id = codes "illuminate-v2-all-captures-2026-10-16"

unfoldable pub illuminate_v2_backfill : Backfill IlluminationTask
unfolding targets_of new_illumination_task
illuminate_v2_backfill = record {
  id = illuminate_v2_backfill_id;
  targets = λ w. targets_of w.captures;
  make_task = λ target.
      new_illumination_task target.entity_id target.owner_id (codes "gemini-3.8-flash") v2;
}

pub record BackfillPumpRequest : Type 0 where
  pub backfill_id : Text
  pub limit : Option ℕ
  pub force : Bool

pub record BackfillSubmissionError : Type 0 where
  pub entity_id : I32
  pub error : Text

pub record BackfillPumpResponse : Type 0 where
  pub backfill_id : Text
  pub selected_count : ℕ
  pub enqueued_count : ℕ
  pub already_submitted_count : ℕ
  pub refused_in_flight_count : ℕ
  pub errors : List BackfillSubmissionError
  pub dry_since : Option ℕ
  pub pumped_at : ℕ
