-- ===== src/Task/Status.antt =====
-- src/task/taskrunstatus.rs: the status of a task run, its persisted integer and its JSON form.
pub mod Codec
use dreamscroll.Base.{Bool, true, false, Option, none, some, if◌then◌else◌, ◌==◌, ◌≡◌, ℕ}
use dreamscroll.Base.Words.{I32}
use dreamscroll.Base.Text.{Text, codes, text_eq}

pub data TaskRunStatus : Type 0 where
  submission_failed queued in_progress error_will_retry complete_success complete_failure :
      TaskRunStatus

-- The snake-case name on the JSON wire.
unfoldable pub as_str : TaskRunStatus → Text
as_str submission_failed = codes "submission_failed"
as_str queued = codes "queued"
as_str in_progress = codes "in_progress"
as_str error_will_retry = codes "error_will_retry"
as_str complete_success = codes "complete_success"
as_str complete_failure = codes "complete_failure"

unfoldable pub as_i32 : TaskRunStatus → I32
as_i32 submission_failed = 0
as_i32 queued = 1
as_i32 in_progress = 2
as_i32 error_will_retry = 3
as_i32 complete_success = 4
as_i32 complete_failure = 5

-- `none` is the error for an unknown integer.
unfoldable pub from_i32 : I32 → Option TaskRunStatus
from_i32 v =
    if v == 0
    then some submission_failed
    else if v == 1
    then some queued
    else if v == 2
    then some in_progress
    else if v == 3
    then some error_will_retry
    else if v == 4
    then some complete_success
    else if v == 5
    then some complete_failure
    else none

unfoldable pub is_in_flight : TaskRunStatus → Bool
is_in_flight submission_failed = false
is_in_flight queued = true
is_in_flight in_progress = true
is_in_flight error_will_retry = true
is_in_flight complete_success = false
is_in_flight complete_failure = false

-- The JSON object, as its two fields.
pub record TaskRunStatusWire : Type 0 where
  pub name : Text
  pub discriminant : I32

pub serialize : TaskRunStatus → TaskRunStatusWire
unfolding as_str as_i32
serialize s = record { name = as_str s; discriminant = as_i32 s }

matching : TaskRunStatusWire → Option TaskRunStatus → Option TaskRunStatus
matching wire none = none
matching wire (some s) = if text_eq wire.name (as_str s) then some s else none

-- `none` is an error: an unknown discriminant, or a name that belongs to another one.
pub deserialize : TaskRunStatusWire → Option TaskRunStatus
unfolding matching
deserialize wire = matching wire (from_i32 wire.discriminant)

pub TaskRunStatus-discrete : Discrete TaskRunStatus
TaskRunStatus-discrete = hlevel
