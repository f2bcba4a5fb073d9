-- ===== src/Task/Publisher/Effects.antt =====
-- Estimates and notifications leave the table of runs: src/task/statuspublisher.rs, src/task/timing.rs.
use dreamscroll.Base.{
  ◌≡◌, refl, Bool, true, false, Option, none, some, List, [], ◌∷◌, if◌then◌else◌,
}
use dreamscroll.Base.Int.{ℤ}
use dreamscroll.Base.Text.{Text}
use dreamscroll.Base.Results.{Result, ok, err, continue}
use dreamscroll.Task.Status.{TaskRunStatus}
use dreamscroll.Task.Row.{Row}
use dreamscroll.Task.Timing.{
  TaskTimingEstimate, Measure, measure_of, processing_successful, recent_samples,
}
use dreamscroll.Task.Database.{World, DbErr, query}
use dreamscroll.Task.Database.Effects.{
  SameTable, SameTable-refl, SameTable-trans, advance-SameTable, statement-keeps, query-SameTable,
}
use dreamscroll.Sse.Event.{TaskStatusUpdate, from_row}
use dreamscroll.Task.Publisher.{
  answer, client_estimate, notify, published_event, upserted, announce, publish, find_timing,
  store_timing, refresh_measure, refresh_timing_measures,
}

answer-world : (x : Result DbErr (Option TaskTimingEstimate) × World) → (answer x).1 ≡ x.1
unfolding answer
answer-world (ok found, w) = refl
answer-world (err e, w) = refl

client_estimate-SameTable :
    (task_type : Text) (w : World) → SameTable w (client_estimate task_type w).1
unfolding client_estimate
client_estimate-SameTable task_type w =
    rw answer-world (query-SameTable (λ v. find_timing task_type processing_successful v.timings) w)

notify-SameTable : (event : Option TaskStatusUpdate) (w : World) → SameTable w (notify event w)
unfolding notify published_event
notify-SameTable none w = SameTable-refl w
notify-SameTable (some event) w =
    statement-keeps (SameTable w) (published_event event) w (advance-SameTable w) (record {
      same_rows = (advance-SameTable w).same_rows;
      same_env = (advance-SameTable w).same_env;
    })

announce-SameTable :
    (row : Row) (x : Option TaskTimingEstimate × World) → SameTable x.1 (announce row x)
unfolding announce
announce-SameTable row (estimate, w) = notify-SameTable (from_row row estimate) w

either-SameTable :
    (subscribed : Bool) (w v : World) → SameTable w v → SameTable w (if subscribed then v else w)
either-SameTable true w v h = h
either-SameTable false w v h = SameTable-refl w

pub publish-SameTable : (row : Row) (w : World) → SameTable w (publish row w)
unfolding publish
publish-SameTable row w = either-SameTable w.env.subscribed w _ (
    SameTable-trans (client_estimate-SameTable row.task_type w)
      (announce-SameTable row (client_estimate row.task_type w)))

store_timing-SameTable :
    (m : Measure) (task_type : Text) (samples : List ℤ) (w : World)
    → SameTable w (store_timing m task_type samples w).1
unfolding store_timing upserted
store_timing-SameTable m task_type [] w = SameTable-refl w
store_timing-SameTable m task_type (s ∷ samples) w =
    statement-keeps (SameTable w) (upserted m task_type (s ∷ samples)) w (advance-SameTable w)
      (record {
        same_rows = (advance-SameTable w).same_rows;
        same_env = (advance-SameTable w).same_env;
      })

continue_storing :
    (m : Measure) (task_type : Text) (x : Result DbErr (List ℤ) × World)
    → SameTable x.1 (continue x (store_timing m task_type)).1
continue_storing m task_type (ok samples, w) = store_timing-SameTable m task_type samples w
continue_storing m task_type (err e, w) = SameTable-refl w

refresh_measure-SameTable :
    (task_type : Text) (m : Option Measure) (w : World)
    → SameTable w (refresh_measure task_type m w).1
unfolding refresh_measure
refresh_measure-SameTable task_type none w = SameTable-refl w
refresh_measure-SameTable task_type (some m) w =
    SameTable-trans (query-SameTable samples w) (continue_storing m task_type (query samples w))
  where
    samples : World → List ℤ
    samples v = recent_samples m task_type v.rows

pub refresh_timing_measures-SameTable :
    (task_type : Text) (status : TaskRunStatus) (w : World)
    → SameTable w (refresh_timing_measures task_type status w).1
unfolding refresh_timing_measures
refresh_timing_measures-SameTable task_type status w =
    refresh_measure-SameTable task_type (measure_of status) w
