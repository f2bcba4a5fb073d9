-- ===== src/Sse/Event.antt =====
-- src/sse/event.rs: the event of a task status change, made from a row of `task_runs`.
pub mod Contents
use dreamscroll.Base.{ℕ, Option, none, some}
use dreamscroll.Base.Words.{I32}
use dreamscroll.Base.Text.{Text}
use dreamscroll.Task.Status.{TaskRunStatus, from_i32}
use dreamscroll.Task.Row.{Row}
use dreamscroll.Task.Timing.{TaskTimingEstimate, client_processing_duration_ms}

pub data ServerEventKind : Type 0 where
  task_status : ServerEventKind

pub record TaskStatusPayload : Type 0 where
  pub task_type : Text
  pub status : TaskRunStatus
  pub logical_id : Text
  pub run_id : Text
  pub run_number : I32
  pub attempts : I32
  pub processing_started_at : Option ℕ
  pub estimated_duration_ms_p50 : Option ℕ

-- `ServerEventEnvelope`, at the payload of a task status.
pub record TaskStatusUpdate : Type 0 where
  pub schema_version : ℕ
  pub event_type : ServerEventKind
  pub timestamp : ℕ
  pub entity_type : Text
  pub entity_id : I32
  pub entity_owner_id : Option I32
  pub payload : TaskStatusPayload

abbrev pub current_schema_version : ℕ
current_schema_version = 4

unfoldable pub new : ServerEventKind → ℕ → Text → I32 → TaskStatusPayload → TaskStatusUpdate
new event_type timestamp entity_type entity_id payload = record {
  schema_version = current_schema_version;
  event_type = event_type;
  timestamp = timestamp;
  entity_type = entity_type;
  entity_id = entity_id;
  entity_owner_id = none;
  payload = payload;
}

unfoldable pub estimated : Option TaskTimingEstimate → Option ℕ
unfolding client_processing_duration_ms
estimated none = none
estimated (some e) = client_processing_duration_ms e

with_status : Row → Option TaskTimingEstimate → Option TaskRunStatus → Option TaskStatusUpdate
unfolding new estimated
with_status row estimate none = none
with_status row estimate (some status) =
    some
      (record (new task_status row.updated_at row.entity_type row.entity_id (record {
        task_type = row.task_type;
        status = status;
        logical_id = row.logical_id;
        run_id = row.run_id;
        run_number = row.run_number;
        attempts = row.attempts;
        processing_started_at = row.processing_started_at;
        estimated_duration_ms_p50 = estimated estimate;
      })) { entity_owner_id = some row.entity_owner_id })

-- `none` for a row whose status is unknown.
unfoldable pub from_row : Row → Option TaskTimingEstimate → Option TaskStatusUpdate
unfolding with_status
from_row row estimate = with_status row estimate (from_i32 row.status_code)
