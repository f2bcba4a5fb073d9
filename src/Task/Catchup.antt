-- ===== src/Task/Catchup.antt =====
-- src/task/statuscatchup.rs, with the query `query_latest_task_runs` of src/task/taskruntracker.rs:
-- the events that a newly opened stream starts with.
pub mod Scope
pub mod Replay
use dreamscroll.Base.{
  ℕ, Bool, true, false, not, Option, none, some, List, [], ◌∷◌, ◌++◌, ◌&&◌, ◌||◌, ◌==◌,
  if◌then◌else◌,
}
use dreamscroll.Base.Words.{I32, lt_i32}
use dreamscroll.Base.Text.{Text, text_eq}
use dreamscroll.Base.Results.{Result, ok, err, Exec, pure, convert, ◌>>=◌}
use dreamscroll.Error.{ApiError, internal}
use dreamscroll.Task.Status.{in_progress, as_i32}
use dreamscroll.Task.Row.{Row, filter}
use dreamscroll.Task.Timing.{TaskTimingEstimate}
use dreamscroll.Task.Database.{World, query, report_of}
use dreamscroll.Task.Publisher.{client_estimate}
use dreamscroll.Sse.Event.{TaskStatusUpdate, from_row}

unfoldable pub is_running : Row → Bool
unfolding as_i32
is_running row = row.status_code == as_i32 in_progress

unfoldable pub among : List I32 → I32 → Bool
among [] id = false
among (i ∷ ids) id = i == id || among ids id

unfoldable pub is_wanted : I32 → Text → List I32 → Row → Bool
unfolding among
is_wanted owner entity_type ids r =
    r.entity_owner_id == owner && (text_eq r.entity_type entity_type && among ids r.entity_id)

-- The group of a row: its entity and its task type.
unfoldable pub same_group : Row → Row → Bool
same_group r s = r.entity_id == s.entity_id && text_eq r.task_type s.task_type

-- `DISTINCT ON`: the first row of each group.
unfoldable pub distinct_on : List Row → List Row
unfolding same_group filter
distinct_on [] = []
distinct_on (r ∷ rows) = r ∷ filter (λ s. not (same_group r s)) (distinct_on rows)

is_empty : List I32 → Bool
is_empty [] = true
is_empty (i ∷ is) = false

-- What the catch-up has looked up: the estimate of a task type, or that there is none.
pub record Known : Type 0 where
  task_type : Text
  estimate : Option TaskTimingEstimate

find_known : Text → List Known → Option (Option TaskTimingEstimate)
find_known task_type [] = none
find_known task_type (k ∷ known) =
    if text_eq k.task_type task_type then some k.estimate else find_known task_type known

is_unknown : Option (Option TaskTimingEstimate) → Bool
is_unknown none = true
is_unknown (some e) = false

noted : Text → List Known → Option TaskTimingEstimate × World → List Known × World
noted task_type known (estimate, w) =
    (record { task_type = task_type; estimate = estimate } ∷ known, w)

learn : Row → List Known → World → List Known × World
unfolding is_running is_unknown find_known noted client_estimate
learn r known w =
    if is_running r && is_unknown (find_known r.task_type known)
    then noted r.task_type known (client_estimate r.task_type w)
    else (known, w)

gather : List Row → List Known → World → List Known × World
unfolding learn
gather [] known w = (known, w)
gather (r ∷ rows) known w = let x = learn r known w in gather rows x.0 x.1

flat : Option (Option TaskTimingEstimate) → Option TaskTimingEstimate
flat none = none
flat (some e) = e

pub replay : List Known → Row → Option TaskStatusUpdate
unfolding from_row is_running find_known flat
replay known row =
    from_row row (if is_running row then flat (find_known row.task_type known) else none)

cons_some : Option TaskStatusUpdate → List TaskStatusUpdate → List TaskStatusUpdate
cons_some none events = events
cons_some (some event) events = event ∷ events

replay_all : List Known → List Row → List TaskStatusUpdate
unfolding replay cons_some
replay_all known [] = []
replay_all known (r ∷ rows) = cons_some (replay known r) (replay_all known rows)

replayed : List Row → Exec World ApiError (List TaskStatusUpdate)
unfolding gather replay_all
replayed rows w = let x = gather rows [] w in (ok (replay_all x.0 rows), x.1)

-- `text_before` is the database's order of task types.
module _ (text_before : Text → Text → Bool) where
  -- `ORDER BY entity_id, task_type, run_number DESC`.
  unfoldable pub row_before : Row → Row → Bool
  row_before r s =
      lt_i32 r.entity_id s.entity_id
      || (r.entity_id == s.entity_id
          && (text_before r.task_type s.task_type
              || (text_eq r.task_type s.task_type && lt_i32 s.run_number r.run_number)))

  unfoldable pub insert_ordered : Row → List Row → List Row
  unfolding row_before
  insert_ordered r [] = r ∷ []
  insert_ordered r (s ∷ rows) = if row_before s r then s ∷ insert_ordered r rows else r ∷ s ∷ rows

  unfoldable pub order_rows : List Row → List Row
  unfolding insert_ordered
  order_rows [] = []
  order_rows (r ∷ rows) = insert_ordered r (order_rows rows)

  unfoldable pub latest_task_runs : I32 → Text → List I32 → World → List Row
  unfolding is_wanted order_rows distinct_on filter
  latest_task_runs owner entity_type ids w =
      distinct_on (order_rows (filter (is_wanted owner entity_type ids) w.rows))

  unfoldable pub query_latest_task_runs : I32 → Text → List I32 → Exec World Text (List Row)
  unfolding latest_task_runs query is_empty pure report_of
  query_latest_task_runs owner entity_type ids =
      if is_empty ids
      then pure []
      else (λ w. convert report_of (query (latest_task_runs owner entity_type ids) w))

  unfoldable pub events : I32 → Text → List I32 → Exec World ApiError (List TaskStatusUpdate)
  unfolding query_latest_task_runs replayed internal
  events owner entity_type ids = do
    rows ← λ w. convert internal (query_latest_task_runs owner entity_type ids w)
    replayed rows
