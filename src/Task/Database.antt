-- ===== src/Task/Database.antt =====
-- The database that src/task/taskruntracker.rs and src/task/timing.rs talk to, as the tables that
-- they use and the environment that answers them. A statement is one atomic step: it takes some
-- time, and it is executed, or refused before it has an effect, or executed without the caller
-- hearing of it.
pub mod Effects
use dreamscroll.Base.{ℕ, ◌+◌, Bool, true, false, Option, none, some, List, [], ◌∷◌, ◌++◌}
use dreamscroll.Base.Words.{I32}
use dreamscroll.Base.Int.{ℤ}
use dreamscroll.Base.Text.{Text, text_eq}
use dreamscroll.Base.Results.{Result, ok, err}
use dreamscroll.Task.Row.{Row, UniqueKey, find_violation, find, update_where}
use dreamscroll.Task.Timing.{TaskTimingEstimate, Measure}
use dreamscroll.Sse.Event.{TaskStatusUpdate}

pub data Fate : Type 0 where
  executed refused unacknowledged : Fate

-- What befalls one statement; `report` is the driver's message, should it return an error.
pub record Moment : Type 0 where
  pub elapsed : ℕ
  pub fate : Fate
  pub report : Text

-- What the program calls and does not implement: the fates of the statements, the aggregates of the
-- database, whether a notifier is configured, and the HTTP library's test of a status code.
pub record Env : Type 0 where
  pub moments : ℕ → Moment
  pub summarize : Measure → Text → List ℤ → TaskTimingEstimate
  pub subscribed : Bool
  pub is_server_error : ℕ → Bool

pub record Timing : Type 0 where
  pub measure : Measure
  pub estimate : TaskTimingEstimate

-- src/model/backfill.rs: what pumping a backfill has observed.
pub record BackfillRecord : Type 0 where
  pub backfill_id : Text
  pub last_pumped_at : ℕ
  pub dry_since : Option ℕ

-- The two columns of the captures that candidate queries read.
pub record CaptureKey : Type 0 where
  pub id : I32
  pub user_id : I32

-- `published` holds the notifications that the database took, oldest first.
pub record World : Type 0 where
  pub env : Env
  pub tick : ℕ
  pub now : ℕ
  pub rows : List Row
  pub next_id : ℕ
  pub timings : List Timing
  pub published : List TaskStatusUpdate
  pub backfills : List BackfillRecord
  pub captures : List CaptureKey

pub data DbErr : Type 0 where
  connection : Text → DbErr
  violation : UniqueKey → Text → DbErr

-- The conversion to `anyhow::Error`.
unfoldable pub report_of : DbErr → Text
report_of (connection report) = report
report_of (violation key report) = report

unfoldable pub advance : World → World
advance w = record w { tick = w.tick + 1; now = w.now + (w.env.moments w.tick).elapsed }

unfoldable pub meet {ℓ} : {A : Type ℓ} → Fate → (Text → A) → Text → A × World → World → A × World
meet executed failed report done before = done
meet refused failed report done before = (failed report, before)
meet unacknowledged failed report done before = (failed report, done.1)

-- A statement with the body `body`, which sees the clock of its execution.
unfoldable pub statement :
    {A : Type 0} → (World → Result DbErr A × World) → World → Result DbErr A × World
unfolding advance meet
statement body w =
    let m = w.env.moments w.tick in
    let before = advance w in
    meet m.fate (λ report. err (connection report)) m.report (body before) before

-- A query leaves the tables.
unfoldable pub query : {A : Type 0} → (World → A) → World → Result DbErr A × World
unfolding statement
query f = statement (λ w. (ok (f w), w))

inserted : Row → Text → Option UniqueKey → World → Result DbErr Row × World
inserted row report (some key) w =
    (err (violation key report), record w { next_id = w.next_id + 1 })
inserted row report none w =
    let stored = record row { id = w.next_id; created_at = w.now; updated_at = w.now } in
    (ok stored, record w { next_id = w.next_id + 1; rows = w.rows ++ stored ∷ [] })

-- An insertion draws an id, also where a unique key refuses the row.
unfoldable pub insert_row : Row → World → Result DbErr Row × World
unfolding statement inserted
insert_row row w =
    let m = w.env.moments w.tick in
    statement (λ v. inserted row m.report (find_violation row v.rows) v) w

pub first_where : Text → List Row → Option Row
first_where run_id rows = find (λ r. text_eq r.run_id run_id) rows

updated : Text → (ℕ → Row → Row) → World → Result DbErr (Option Row) × World
unfolding first_where
updated run_id change w =
    let rows = update_where run_id (change w.now) w.rows in
    (ok (first_where run_id rows), record w { rows = rows })

-- An update by run id, with the first of the rows that it returns; `change` sees the clock.
unfoldable pub update_row : Text → (ℕ → Row → Row) → World → Result DbErr (Option Row) × World
unfolding statement updated
update_row run_id change = statement (updated run_id change)
