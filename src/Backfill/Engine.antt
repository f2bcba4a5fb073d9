-- ===== src/Backfill/Engine.antt =====
-- src/backfill/engine.rs: the pump. A time is the database's clock.
pub mod Selection
pub mod Counting
pub mod Latch
use dreamscroll.Base.{
  ℕ, ◌+◌, Bool, true, false, not, Option, none, some, List, [], ◌∷◌, ◌++◌, ◌&&◌, ◌||◌, ◌==◌, length,
  take, if◌then◌else◌,
}
use dreamscroll.Base.Words.{I32, lt_i32}
use dreamscroll.Base.Text.{Text, codes, text_eq}
use dreamscroll.Base.Results.{Result, ok, err, Exec, pure, raise, lift, convert, ◌>>=◌, ◌>>◌}
use dreamscroll.Error.{ApiError, internal, bad_request, conflict, not_found}
use dreamscroll.Auth.{Context}
use dreamscroll.Task.Definition.{Task}
use dreamscroll.Task.Kinds.{IlluminationTask, illumination_task}
use dreamscroll.Task.Row.{Row, any, same_text, filter}
use dreamscroll.Task.Database.{World, BackfillRecord, DbErr, report_of, query, statement}
use dreamscroll.Task.Master.{
  SubmitOutcome, enqueued, already_submitted_backfill, refused_already_in_flight, TaskQueue,
  submit_illuminate,
}
use dreamscroll.Backfill.Definition.{
  Backfill, BackfillTarget, BackfillPumpRequest, BackfillPumpResponse, BackfillSubmissionError,
  illuminate_v2_backfill,
}

-- The texts of other libraries: a quoted string, an RFC 3339 time in seconds, and the outermost
-- message of an error.
pub record Formats : Type 0 where
  pub debug : Text → Text
  pub rfc3339 : ℕ → Text
  pub outermost : Text → Text

abbrev batch_size : ℕ
batch_size = 100

-- The conversion of a database error.
unfoldable pub from_db_err : DbErr → ApiError
unfolding report_of internal
from_db_err e = internal (report_of e)

abbrev pub stored : {A : Type 0} → (World → Result DbErr A × World) → Exec World ApiError A
stored m w = convert from_db_err (m w)

-- A run of this backfill for this target.
unfoldable pub is_run_for : Text → Text → Text → BackfillTarget → Row → Bool
unfolding same_text
is_run_for backfill_id task_type entity_type target r =
    same_text r.backfill_id (some backfill_id)
    && (text_eq r.task_type task_type
        && (text_eq r.entity_type entity_type
            && (r.entity_owner_id == target.owner_id && r.entity_id == target.entity_id)))

-- The candidates without a run.
unfoldable pub unsubmitted : (BackfillTarget → Bool) → List BackfillTarget → List BackfillTarget
unsubmitted submitted [] = []
unsubmitted submitted (target ∷ targets) =
    if submitted target
    then unsubmitted submitted targets
    else target ∷ unsubmitted submitted targets

-- `ORDER BY entity_id DESC, owner_id DESC`.
unfoldable pub precedes : BackfillTarget → BackfillTarget → Bool
precedes a b =
    lt_i32 b.entity_id a.entity_id || (a.entity_id == b.entity_id && lt_i32 b.owner_id a.owner_id)

unfoldable pub insert_target : BackfillTarget → List BackfillTarget → List BackfillTarget
unfolding precedes
insert_target target [] = target ∷ []
insert_target target (first ∷ targets) =
    if precedes first target then first ∷ insert_target target targets else target ∷ first ∷ targets

unfoldable pub sort_targets : List BackfillTarget → List BackfillTarget
unfolding insert_target
sort_targets [] = []
sort_targets (target ∷ targets) = insert_target target (sort_targets targets)

-- How a submission was counted.
pub record Tally : Type 0 where
  pub enqueued_count : ℕ
  pub already_submitted_count : ℕ
  pub refused_in_flight_count : ℕ
  pub errors : List BackfillSubmissionError

module _ {T : Type 0} (t : Task T) (backfill : Backfill T) where
  -- The selection of the query, as a function of the tables.
  unfoldable pub selection : ℕ → World → List BackfillTarget
  unfolding is_run_for unsubmitted sort_targets any
  selection limit w = take limit (
      sort_targets (
        unsubmitted (λ target. any (is_run_for backfill.id t.task_type t.entity_type target) w.rows)
          (backfill.targets w)))

  unfoldable pub select_targets : ℕ → Exec World ApiError (List BackfillTarget)
  unfolding selection query from_db_err
  select_targets limit = stored (query (selection limit))

unfoldable pub find_record : Text → List BackfillRecord → Option BackfillRecord
find_record id [] = none
find_record id (r ∷ records) = if text_eq r.backfill_id id then some r else find_record id records

module _ (formats : Formats) where
  unfoldable pub unless_dry : Text → Option BackfillRecord → Result ApiError (Unit {0})
  unfolding conflict
  unless_dry id none = ok tt
  unless_dry id (some r) = dry r r.dry_since
    where
      dry : BackfillRecord → Option ℕ → Result ApiError (Unit {0})
      dry r none = ok tt
      dry r (some since) = err (
          conflict (
            codes "Backfill "
            ++ formats.debug id
            ++ codes " has had no eligible targets since "
            ++ formats.rfc3339 since
            ++ codes " (last pumped "
            ++ formats.rfc3339 r.last_pumped_at
            ++ codes "); pass force=true (CLI --force) to pump again"))

  unfoldable pub ensure_not_dry : Text → Bool → Exec World ApiError (Unit {0})
  unfolding find_record unless_dry query pure lift from_db_err
  ensure_not_dry id true = pure tt
  ensure_not_dry id false = do
    found ← stored (query (λ w. find_record id w.backfills))
    lift (unless_dry id found)

  unfoldable pub count : BackfillTarget → Result ApiError SubmitOutcome → Tally → Tally
  count target (ok (enqueued run_id run_number)) tally = record tally {
    enqueued_count = tally.enqueued_count + 1;
  }
  count target (ok (already_submitted_backfill run_id run_number)) tally = record tally {
    already_submitted_count = tally.already_submitted_count + 1;
  }
  count target (ok refused_already_in_flight) tally = record tally {
    refused_in_flight_count = tally.refused_in_flight_count + 1;
  }
  count target (err error) tally = record tally {
    errors =
        tally.errors
        ++ record { entity_id = target.entity_id; error = formats.outermost error.error } ∷ [];
  }

-- The start of a dry streak, after a pump at the time `now`.
unfoldable pub streak : Bool → ℕ → Option ℕ → Option ℕ
streak false now since = none
streak true now none = some now
streak true now (some since) = some since

unfoldable pub put_record : Text → Bool → ℕ → List BackfillRecord → List BackfillRecord
unfolding streak
put_record id dry now [] =
    record { backfill_id = id; last_pumped_at = now; dry_since = streak dry now none } ∷ []
put_record id dry now (r ∷ records) =
    if text_eq r.backfill_id id
    then record r { last_pumped_at = now; dry_since = streak dry now r.dry_since } ∷ records
    else r ∷ put_record id dry now records

-- The upsert, with the row that it returns.
unfoldable pub upserted_record : Text → Bool → World → Result DbErr (Option BackfillRecord) × World
unfolding put_record find_record
upserted_record id dry w =
    let records = put_record id dry w.now w.backfills in
    (ok (find_record id records), record w { backfills = records })

returned : Option BackfillRecord → Result ApiError (ℕ × Option ℕ)
unfolding internal
returned none = err (internal (codes "Backfill pump record upsert returned no row"))
returned (some r) = ok (r.last_pumped_at, r.dry_since)

unfoldable pub record_pump : Text → Bool → Exec World ApiError (ℕ × Option ℕ)
unfolding upserted_record statement returned lift from_db_err
record_pump id dry = do row ← stored (statement (upserted_record id dry)); lift (returned row)

unfoldable pub is_none_selected : List BackfillTarget → Bool
is_none_selected [] = true
is_none_selected (target ∷ targets) = false

-- A submission of a task under a backfill's id.
abbrev pub Submit : Type 0 → Type 0
Submit T = T → Text → Exec World ApiError SubmitOutcome

module _ {T : Type 0} (t : Task T) (formats : Formats) (backfill : Backfill T)
    (submit : Submit T) where
  -- The loop over the selected targets.
  unfoldable pub submit_all : List BackfillTarget → Tally → World → Tally × World
  unfolding count
  submit_all [] tally w = (tally, w)
  submit_all (target ∷ targets) tally w =
      let x = submit (backfill.make_task target) backfill.id w in
      submit_all targets (count formats target x.0 tally) x.1

  respond : List BackfillTarget → Tally → ℕ × Option ℕ → BackfillPumpResponse
  respond targets tally (pumped_at, dry_since) = record {
    backfill_id = backfill.id;
    selected_count = length targets;
    enqueued_count = tally.enqueued_count;
    already_submitted_count = tally.already_submitted_count;
    refused_in_flight_count = tally.refused_in_flight_count;
    errors = tally.errors;
    dry_since = dry_since;
    pumped_at = pumped_at;
  }

  concluded : List BackfillTarget → Tally × World → Result ApiError BackfillPumpResponse × World
  unfolding record_pump is_none_selected respond pure
  concluded targets (tally, w) =
      (do
        observed ← record_pump backfill.id (is_none_selected targets)
        pure (respond targets tally observed))
        w

  abbrev no_tally : Tally
  no_tally = record {
    enqueued_count = 0;
    already_submitted_count = 0;
    refused_in_flight_count = 0;
    errors = [];
  }

  pumped : List BackfillTarget → Exec World ApiError BackfillPumpResponse
  unfolding submit_all concluded
  pumped targets w = concluded targets (submit_all targets no_tally w)

  unfoldable pub pump_definition : ℕ → Bool → Exec World ApiError BackfillPumpResponse
  unfolding bad_request raise ensure_not_dry select_targets pumped
  pump_definition limit force =
      if limit == 0
      then raise (bad_request (codes "Candidate limit must be greater than zero"))
      else do
        ensure_not_dry formats backfill.id force
        targets ← select_targets t backfill limit
        pumped targets

or_batch : Option ℕ → ℕ
or_batch none = batch_size
or_batch (some limit) = limit

-- `uuid` gives the UUID that a run would get, by the number of the statement before it.
module _ (formats : Formats) (payload : IlluminationTask → Result Text Text)
    (queue : TaskQueue IlluminationTask) (uuid : ℕ → Text) where
  submit_for : Context → Submit IlluminationTask
  unfolding submit_illuminate
  submit_for context task id w =
      submit_illuminate payload queue context task (some id) (uuid w.tick) w

  unfoldable pub pump : Context → BackfillPumpRequest → Exec World ApiError BackfillPumpResponse
  unfolding submit_for pump_definition or_batch not_found raise
  pump context req =
      if text_eq req.backfill_id illuminate_v2_backfill.id
      then pump_definition (illumination_task payload) formats illuminate_v2_backfill
          (submit_for context) (or_batch req.limit) req.force
      else raise (not_found (codes "Unknown backfill " ++ formats.debug req.backfill_id))
