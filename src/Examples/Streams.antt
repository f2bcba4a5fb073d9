-- ===== src/Examples/Streams.antt =====
-- Small inputs for the theorems about src/sse/ and src/webui/v2/r_events.rs.
use dreamscroll.Base.{ℕ, ◌≡◌, ◌↔◌, ◌≤◌, ◌+◌, refl, ◌∷◌, [], false, some, List, All, Pairwise, arith}
use dreamscroll.Base.Words.{lt_i32}
use dreamscroll.Base.Text.{Text, codes, split}
use dreamscroll.Base.Results.{Result, ok, err}
use dreamscroll.Base.Decimal.{parse_i32}
use dreamscroll.Sse.Event.{TaskStatusUpdate, ServerEventKind, task_status}
use dreamscroll.Sse.Http.{event, lagged, heartbeat_due, Ready, received, Turn, turn, live_events}
use dreamscroll.Sse.Http.Delivery.{before_end, own_updates, statuses, live_events-own_updates}
use dreamscroll.Sse.Http.Cadence.{IsTimed, beats, live_events-beats}
use dreamscroll.Sse.Listener.{
  Json, decode_server_event, FanoutTurn, notified, shutdown_changed, spawn_local_fanout,
}
use dreamscroll.Sse.Listener.Fanout.{
  IsAccepted, decode_server_event_exact, taken_payloads, decoded_events, spawn_local_fanout-decoded,
}
use dreamscroll.Webui.Events.{parse_capture_ids, get}
use dreamscroll.Webui.Events.Own.{IsParsed, parse_capture_ids-IsParsed, IsServed, get-IsServed}
use dreamscroll.Examples.Catchups.{running_event, running, no_order}

abbrev of_bob : TaskStatusUpdate
of_bob = record running_event { entity_owner_id = some 2 }

abbrev at : ℕ → Ready → Turn
at now ready = record { shutdown = false; now = now; ready = ready }

-- Events of two users around a heartbeat, and a lag in front of another event.
abbrev busy : List Turn
busy =
    at 5 (received (event of_bob))
    ∷ at 7 (received (event running_event))
    ∷ at 20 heartbeat_due
    ∷ at 33 heartbeat_due
    ∷ at 34 (received (lagged 3))
    ∷ at 35 (received (event running_event))
    ∷ []

live_events-own_updates_example :
    statuses (live_events 1 10 10 busy) ≡ own_updates 1 (before_end busy)
live_events-own_updates_example = live_events-own_updates 1 10 busy 10

statuses-busy : statuses (live_events 1 10 10 busy) ≡ running_event ∷ []
unfolding statuses live_events
statuses-busy = refl

live_events-beats_example :
    All (λ time. 0 + 10 ≤ time) (beats (live_events 1 10 (0 + 10) busy))
    × Pairwise (λ s t. s + 10 ≤ t) (beats (live_events 1 10 (0 + 10) busy))
unfolding IsTimed turn
live_events-beats_example =
    live_events-beats 1 10 0 busy
      (λ e. cc, (λ e. cc, (λ e. omega arith, (λ e. omega arith, (λ e. cc, (λ e. cc, tt))))))

beats-busy : beats (live_events 1 10 10 busy) ≡ 20 ∷ 33 ∷ []
unfolding beats live_events
beats-busy = refl

-- JSON whose values are the texts: those that start with a brace are events.
abbrev braces : Json Text
braces = record {
  from_str = λ payload. ok payload;
  schema_version = λ value. some 4;
  event_type = λ value. some value;
  kind_from_value = λ value. kind value;
  update_from_value = λ value. ok running_event;
}
  where
    kind : Text → Result Text ServerEventKind
    kind [] = err (codes "no kind")
    kind (c ∷ s) = ok task_status

decode_server_event_exact_example :
    (decode_server_event braces (codes "{}") ≡ some running_event)
    ↔ IsAccepted braces (codes "{}") running_event
decode_server_event_exact_example = decode_server_event_exact braces (codes "{}") running_event

abbrev notifications : List FanoutTurn
notifications =
    notified (ok [])
    ∷ notified (ok (codes "{}"))
    ∷ shutdown_changed false false
    ∷ notified (err (codes "connection lost"))
    ∷ notified (ok (codes "{}"))
    ∷ []

spawn_local_fanout-decoded_example :
    spawn_local_fanout braces notifications ≡ decoded_events braces (taken_payloads notifications)
spawn_local_fanout-decoded_example = spawn_local_fanout-decoded braces notifications

spawn_local_fanout-notifications : spawn_local_fanout braces notifications ≡ running_event ∷ []
unfolding spawn_local_fanout lt_i32
spawn_local_fanout-notifications = refl

abbrev quoted : Text → Text
quoted value = value

abbrev parse_error : Text → Text
parse_error value = codes "invalid digit found in string"

parse_capture_ids-IsParsed_example :
    IsParsed (parse_capture_ids quoted parse_error (some (codes "42,7,42")))
parse_capture_ids-IsParsed_example =
    parse_capture_ids-IsParsed quoted parse_error (some (codes "42,7,42"))

reads_ids : parse_capture_ids quoted parse_error (some (codes "42,7,42")) ≡ ok (42 ∷ 7 ∷ [])
unfolding parse_capture_ids parse_i32 lt_i32 split
reads_ids = refl

get-IsServed_example :
    IsServed no_order 1 running (get no_order 1 quoted parse_error (some (codes "42")) busy running)
get-IsServed_example = get-IsServed no_order 1 quoted parse_error (some (codes "42")) busy running
