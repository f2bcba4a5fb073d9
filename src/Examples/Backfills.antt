-- ===== src/Examples/Backfills.antt =====
-- Small inputs for the theorems about src/backfill/.
use dreamscroll.Base.{
  ◌≡◌, ◌<◌, ◌≤◌, ◌++◌, length, refl, true, false, none, some, [], ◌∷◌, arith, All,
}
use dreamscroll.Base.Words.{lt_i32}
use dreamscroll.Base.Text.{codes, text_eq}
use dreamscroll.Base.Results.{ok, pure}
use dreamscroll.Task.Definition.{Task}
use dreamscroll.Task.Kinds.{IlluminationTask, illumination_task}
use dreamscroll.Task.Database.{World, BackfillRecord}
use dreamscroll.Task.Master.{refused_already_in_flight}
use dreamscroll.Backfill.Definition.{BackfillPumpRequest, illuminate_v2_backfill}
use dreamscroll.Backfill.Engine.{
  Formats, Submit, find_record, streak, record_pump, selection, pump_definition,
}
use dreamscroll.Backfill.Engine.Selection.{has_run, selection-unsubmitted, selection-dry}
use dreamscroll.Backfill.Engine.Counting.{IsAccount, pump_definition-counted}
use dreamscroll.Backfill.Engine.Latch.{
  Refuses, recorded_since, StreakBehind, record_pump-ok, pump_definition-latched,
}
use dreamscroll.Task.Row.{same_text}
use dreamscroll.Examples.{stored, two_runs}

abbrev plain : Formats
plain = record {
  debug = λ text. 34 ∷ text ++ 34 ∷ [];
  rfc3339 = λ time. [];
  outermost = λ text. text;
}

abbrev two_captures : World
two_captures = record two_runs {
  captures = record { id = 42; user_id = 1 } ∷ record { id = 43; user_id = 1 } ∷ [];
}

abbrev illuminations : Task IlluminationTask
illuminations = illumination_task (λ task. ok [])

abbrev refusing : Submit IlluminationTask
refusing task id = pure refused_already_in_flight

pump_definition-counted_example :
    (0 < 1)
    × IsAccount illuminations plain illuminate_v2_backfill refusing 1 (record {
      backfill_id = codes "illuminate-v2-all-captures-2026-10-16";
      selected_count = 1;
      enqueued_count = 0;
      already_submitted_count = 0;
      refused_in_flight_count = 1;
      errors = [];
      dry_since = none;
      pumped_at = 103;
    })
unfolding pump_definition illuminate_v2_backfill text_eq lt_i32
pump_definition-counted_example =
    pump_definition-counted illuminations plain illuminate_v2_backfill refusing 1 false two_captures
      _ refl

abbrev dry_record : BackfillRecord
dry_record = record {
  backfill_id = codes "illuminate-v2-all-captures-2026-10-16";
  last_pumped_at = 90;
  dry_since = some 80;
}

abbrev dry_world : World
dry_world = record two_captures { backfills = dry_record ∷ [] }

pump_definition-latched_example :
    Refuses dry_world 409
      (pump_definition illuminations plain illuminate_v2_backfill refusing 100 false dry_world)
unfolding find_record text_eq illuminate_v2_backfill
pump_definition-latched_example =
    pump_definition-latched illuminations plain illuminate_v2_backfill refusing 100 dry_world
      dry_record 80 (omega arith) refl refl

record_pump-ok_example :
    StreakBehind 101 true (recorded_since dry_record.backfill_id dry_world.backfills) (some 80)
    × (recorded_since dry_record.backfill_id
          (record_pump dry_record.backfill_id true dry_world).1.backfills
        ≡ some 80)
unfolding record_pump text_eq streak
record_pump-ok_example = record_pump-ok dry_record.backfill_id true dry_world 101 (some 80) refl

-- The one capture has a run of the backfill.
abbrev all_pumped : World
all_pumped = record two_runs {
  rows =
      record (stored (codes "a") 1 (some dry_record.backfill_id) 4 1) {
        task_type = codes "illuminate";
      }
      ∷ [];
  captures = record { id = 42; user_id = 1 } ∷ [];
}

selection-dry_example :
    All
      (λ target. has_run illuminations illuminate_v2_backfill all_pumped target ≡ true)
      (illuminate_v2_backfill.targets all_pumped)
unfolding selection illuminate_v2_backfill text_eq same_text
selection-dry_example =
    selection-dry illuminations illuminate_v2_backfill 5 all_pumped (omega arith) refl

selection-unsubmitted_example :
    let chosen = selection illuminations illuminate_v2_backfill 1 two_captures in
    (length chosen ≤ 1)
    × All
        (λ target.
          (target.owner_id ≡ 1)
          × (has_run illuminations illuminate_v2_backfill two_captures target ≡ false))
        chosen
unfolding illuminate_v2_backfill
selection-unsubmitted_example =
    selection-unsubmitted illuminations illuminate_v2_backfill (λ target. target.owner_id ≡ 1) 1
      two_captures (refl, (refl, tt))

abbrev pump_all : BackfillPumpRequest
pump_all = record {
  backfill_id = codes "illuminate-v2-all-captures-2026-10-16";
  limit = none;
  force = false;
}
