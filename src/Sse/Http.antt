-- ===== src/Sse/Http.antt =====
-- src/sse/http.rs: the stream of one browser connection. A turn of its loop is an input: what
-- `select!` found ready, and whether a shutdown was signalled when the turn began.
pub mod Delivery
pub mod Cadence
use dreamscroll.Base.{
  ℕ, ◌+◌, ◌≡◌, Bool, true, false, Option, none, some, List, [], ◌∷◌, ◌++◌, map, ◌||◌, ◌==◌,
  if◌then◌else◌,
}
use dreamscroll.Base.Words.{I32}
use dreamscroll.Base.Text.{Text, codes}
use dreamscroll.Base.Results.{Result, ok, err}
use dreamscroll.Sse.Event.{TaskStatusUpdate}

pub data HttpStreamItem : Type 0 where
  heartbeat : HttpStreamItem
  task_status : TaskStatusUpdate → HttpStreamItem

-- `broadcast::Receiver::recv`.
pub data Received : Type 0 where
  event : TaskStatusUpdate → Received
  lagged : ℕ → Received
  closed : Received

-- `shutdown_changed` has whether the sender is gone, and the value that is then there.
pub data Ready : Type 0 where
  deadline_reached heartbeat_due : Ready
  shutdown_changed : Bool → Bool → Ready
  received : Received → Ready

pub record Turn : Type 0 where
  pub shutdown : Bool
  pub now : ℕ
  pub ready : Ready

-- What a turn does: end the stream, send an item or go on, the last two with the time of the next
-- heartbeat.
pub data Turned : Type 0 where
  ends : Turned
  sends : HttpStreamItem → ℕ → Turned
  goes_on : ℕ → Turned

-- `later` is the rest of the loop, from the time of the next heartbeat.
abbrev pub proceed : ℕ → Turned → (ℕ → List (ℕ × HttpStreamItem)) → List (ℕ × HttpStreamItem)
proceed now ends later = []
proceed now (sends item next_heartbeat) later = (now, item) ∷ later next_heartbeat
proceed now (goes_on next_heartbeat) later = later next_heartbeat

unfoldable pub owned_by : I32 → Option I32 → Bool
owned_by user_id none = false
owned_by user_id (some owner) = owner == user_id

module _ (user_id : I32) (heartbeat_interval : ℕ) where
  unfoldable pub on_received : ℕ → Received → Turned
  unfolding owned_by
  on_received next_heartbeat (event e) =
      if owned_by user_id e.entity_owner_id
      then sends (task_status e) next_heartbeat
      else goes_on next_heartbeat
  on_received next_heartbeat (lagged skipped) = ends
  on_received next_heartbeat closed = ends

  on_ready : ℕ → ℕ → Ready → Turned
  unfolding on_received
  on_ready next_heartbeat now deadline_reached = ends
  on_ready next_heartbeat now heartbeat_due = sends heartbeat (now + heartbeat_interval)
  on_ready next_heartbeat now (shutdown_changed gone value) =
      if gone || value then ends else goes_on next_heartbeat
  on_ready next_heartbeat now (received r) = on_received next_heartbeat r

  unfoldable pub turn : ℕ → Turn → Turned
  unfolding on_ready
  turn next_heartbeat t = if t.shutdown then ends else on_ready next_heartbeat t.now t.ready

  -- The items of the live part, with the time at which each is sent.
  unfoldable pub live_events : ℕ → List Turn → List (ℕ × HttpStreamItem)
  unfolding turn
  live_events next_heartbeat [] = []
  live_events next_heartbeat (t ∷ ts) =
      proceed t.now (turn next_heartbeat t) (λ next. live_events next ts)

abbrev pub catchup_updates : Option (List TaskStatusUpdate) → List TaskStatusUpdate
catchup_updates none = []
catchup_updates (some updates) = updates

-- The stream opened at `now`: the catch-up, then the live part.
unfoldable pub make_sse_stream :
    I32 → Option (List TaskStatusUpdate) → ℕ → ℕ → List Turn → List HttpStreamItem
unfolding live_events
make_sse_stream user_id catchup now heartbeat_interval turns =
    map task_status (catchup_updates catchup)
    ++ map (λ sent. sent.1)
        (live_events user_id heartbeat_interval (now + heartbeat_interval) turns)

json_or_empty : Result Text Text → Text
json_or_empty (ok text) = text
json_or_empty (err e) = codes "{}"

-- The event of the HTTP library: its name and its data. The owner, which only routes, is left out
-- of the data; `to_string` is the serialization, which may fail.
unfoldable pub filtered_json : (TaskStatusUpdate → Result Text Text) → TaskStatusUpdate → Text
unfolding json_or_empty
filtered_json to_string update =
    json_or_empty (to_string (record update { entity_owner_id = none }))

unfoldable pub to_sse_event : (TaskStatusUpdate → Result Text Text) → HttpStreamItem → Text × Text
unfolding filtered_json
to_sse_event to_string (task_status update) = (codes "task-status", filtered_json to_string update)
to_sse_event to_string heartbeat = (codes "heartbeat", codes "1")
