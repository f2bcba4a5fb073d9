-- ===== src/Sse/Event/Contents.antt =====
-- What an event says of the row that it was made from: `from_row` of src/sse/event.rs.
use dreamscroll.Base.{◌≡◌, refl, Option, none, some}
use mathlib.Core.Path.{subst}
use dreamscroll.Task.Status.{TaskRunStatus, from_i32}
use dreamscroll.Task.Row.{Row}
use dreamscroll.Task.Timing.{TaskTimingEstimate}
use dreamscroll.Sse.Event.{TaskStatusUpdate, new, estimated, with_status, from_row}

pub record IsEventOf (row : Row) (estimate : Option TaskTimingEstimate) (event : TaskStatusUpdate)
    : Type 0 where
  pub owner : event.entity_owner_id ≡ some row.entity_owner_id
  pub entity_type : event.entity_type ≡ row.entity_type
  pub entity : event.entity_id ≡ row.entity_id
  pub status : from_i32 row.status_code ≡ some event.payload.status
  pub duration : event.payload.estimated_duration_ms_p50 ≡ estimated estimate

some_same : {A : Type 0} {a b : A} → some a ≡ some b → a ≡ b
some_same h = cc

with_status-IsEventOf :
    (row : Row) (estimate : Option TaskTimingEstimate) (status : Option TaskRunStatus)
    (event : TaskStatusUpdate)
    → from_i32 row.status_code ≡ status
    → with_status row estimate status ≡ some event
    → IsEventOf row estimate event
unfolding with_status new
with_status-IsEventOf row estimate none event known h = cc
with_status-IsEventOf row estimate (some status) event known h =
    subst (IsEventOf row estimate) (some_same h)
      (record { owner = refl; entity_type = refl; entity = refl; status = known; duration = refl })

pub from_row-IsEventOf :
    (row : Row) (estimate : Option TaskTimingEstimate) (event : TaskStatusUpdate)
    → from_row row estimate ≡ some event
    → IsEventOf row estimate event
unfolding from_row
from_row-IsEventOf row estimate event h =
    with_status-IsEventOf row estimate (from_i32 row.status_code) event refl h
