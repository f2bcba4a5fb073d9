-- ===== src/Sse/Listener.antt =====
-- src/sse/listener.rs: the decoding of notifications, and the fan-out to the streams. JSON is a
-- parameter: its values, `from_str`, and the `serde` decoders of the parts.
pub mod Fanout
use dreamscroll.Base.{
  ℕ, Bool, true, false, not, ◌||◌, Option, none, some, List, [], ◌∷◌, ◌==◌, if◌then◌else◌,
}
use dreamscroll.Base.Words.{I32, lt_i32}
use dreamscroll.Base.Text.{Text}
use dreamscroll.Base.Results.{Result, ok, err}
use dreamscroll.Sse.Event.{TaskStatusUpdate, ServerEventKind, task_status, current_schema_version}

-- `schema_version` is `get` followed by `as_u64`, and `event_type` is `get`.
pub record Json (V : Type 0) : Type 0 where
  pub from_str : Text → Result Text V
  pub schema_version : V → Option ℕ
  pub event_type : V → Option V
  pub kind_from_value : V → Result Text ServerEventKind
  pub update_from_value : V → Result Text TaskStatusUpdate

unfoldable pub has_owner : Option I32 → Bool
unfolding lt_i32
has_owner none = false
has_owner (some owner) = lt_i32 0 owner

unfoldable pub is_current : Option ℕ → Bool
is_current none = false
is_current (some version) = version == current_schema_version

pub owned : Result Text TaskStatusUpdate → Option TaskStatusUpdate
unfolding has_owner
owned (err e) = none
owned (ok event) = if not (has_owner event.entity_owner_id) then none else some event

module _ {V : Type 0} (json : Json V) where
  unfoldable pub decode_task_status_update : V → Option TaskStatusUpdate
  unfolding owned
  decode_task_status_update value = owned (json.update_from_value value)

  pub of_kind : V → Result Text ServerEventKind → Option TaskStatusUpdate
  unfolding decode_task_status_update
  of_kind value (err e) = none
  of_kind value (ok task_status) = decode_task_status_update value

  pub typed : V → Option V → Option TaskStatusUpdate
  unfolding of_kind
  typed value none = none
  typed value (some kind_value) = of_kind value (json.kind_from_value kind_value)

  pub versioned : Result Text V → Option TaskStatusUpdate
  unfolding is_current typed
  versioned (err e) = none
  versioned (ok value) =
      if not (is_current (json.schema_version value))
      then none
      else typed value (json.event_type value)

  unfoldable pub decode_server_event : Text → Option TaskStatusUpdate
  unfolding versioned
  decode_server_event payload = versioned (json.from_str payload)

  -- `ServerEventListener::recv`, from the result of the Postgres listener.
  unfoldable pub recv : Result Text Text → Result Text (Option TaskStatusUpdate)
  unfolding decode_server_event
  recv (err e) = err e
  recv (ok payload) = ok (decode_server_event payload)

-- What `select!` finds ready in a turn of the fan-out's loop.
pub data FanoutTurn : Type 0 where
  shutdown_changed : Bool → Bool → FanoutTurn
  notified : Result Text Text → FanoutTurn

pub data FanoutStep : Type 0 where
  breaks : FanoutStep
  sends : TaskStatusUpdate → FanoutStep
  skips : FanoutStep

abbrev pub step_then : FanoutStep → List TaskStatusUpdate → List TaskStatusUpdate
step_then breaks rest = []
step_then (sends event) rest = event ∷ rest
step_then skips rest = rest

module _ {V : Type 0} (json : Json V) where
  pub on_recv : Result Text (Option TaskStatusUpdate) → FanoutStep
  on_recv (ok (some event)) = sends event
  on_recv (ok none) = skips
  on_recv (err error) = breaks

  unfoldable pub fanout_step : FanoutTurn → FanoutStep
  unfolding recv on_recv
  fanout_step (shutdown_changed gone value) = if gone || value then breaks else skips
  fanout_step (notified result) = on_recv (recv json result)

  -- The events that `spawn_local_fanout` sends, oldest first.
  unfoldable pub spawn_local_fanout : List FanoutTurn → List TaskStatusUpdate
  unfolding fanout_step
  spawn_local_fanout [] = []
  spawn_local_fanout (t ∷ ts) = let rest = spawn_local_fanout ts in step_then (fanout_step t) rest
