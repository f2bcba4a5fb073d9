-- ===== src/Webui/Events.antt =====
-- src/webui/v2/r_events.rs: the route that opens the event stream of a connection. The formats of
-- a quoted text and of a number's parse error are parameters.
pub mod Own
use dreamscroll.Base.{
  ℕ, ◌+◌, Bool, true, false, not, Option, none, some, List, [], ◌∷◌, ◌++◌, length, ltb,
  if◌then◌else◌, ◌==◌,
}
use dreamscroll.Base.Words.{I32, lt_i32}
use dreamscroll.Base.Text.{Text, codes, split}
use dreamscroll.Base.Results.{Result, ok, err, Exec, and_then}
use dreamscroll.Base.Decimal.{parse_i32}
use dreamscroll.Error.{ApiError, bad_request}
use dreamscroll.Sse.Event.{TaskStatusUpdate}
use dreamscroll.Sse.Http.{HttpStreamItem, Turn, make_sse_stream}
use dreamscroll.Task.Database.{World}
use dreamscroll.Task.Catchup.{events}

abbrev pub heartbeat_interval : ℕ
heartbeat_interval = 20000000

abbrev pub max_catchup_entities : ℕ
max_catchup_entities = 200

unfoldable pub contains : List I32 → I32 → Bool
contains [] id = false
contains (j ∷ ids) id = let rest = contains ids id in if j == id then true else rest

unfoldable pub with_id : I32 → List I32 → List I32
unfolding contains
with_id id ids = if contains ids id then ids else ids ++ id ∷ []

-- The limit is tested behind every value.
unfoldable pub within_limit : List I32 → Result ApiError (List I32)
unfolding bad_request
within_limit ids =
    if ltb max_catchup_entities (length ids)
    then err (bad_request (codes "capture_ids accepts at most 200 IDs"))
    else ok ids

unfoldable pub add_id : I32 → List I32 → Result ApiError (List I32)
unfolding with_id within_limit bad_request
add_id id ids =
    if not (lt_i32 0 id)
    then err (bad_request (codes "capture_ids must contain positive IDs"))
    else within_limit (with_id id ids)

module _ (quoted : Text → Text) (parse_error : Text → Text) where
  unfoldable pub add_parsed : Text → Option I32 → List I32 → Result ApiError (List I32)
  unfolding add_id bad_request
  add_parsed value none ids = err (
      bad_request
        (codes "invalid capture_ids value " ++ (quoted value ++ (codes ": " ++ parse_error value))))
  add_parsed value (some id) ids = add_id id ids

  unfoldable pub add_values : List Text → List I32 → Result ApiError (List I32)
  unfolding add_parsed
  add_values [] ids = ok ids
  add_values (value ∷ values) ids =
      and_then (add_parsed value (parse_i32 value) ids) (add_values values)

  unfoldable pub parse_capture_ids : Option Text → Result ApiError (List I32)
  unfolding add_values
  parse_capture_ids none = ok []
  parse_capture_ids (some []) = ok []
  parse_capture_ids (some (c ∷ raw)) = add_values (split b',' (c ∷ raw)) []

unfoldable pub catchup_or_skip :
    Result ApiError (List TaskStatusUpdate) → Option (List TaskStatusUpdate)
catchup_or_skip (ok updates) = some updates
catchup_or_skip (err error) = none

module _ (text_before : Text → Text → Bool) (user_id : I32) where
  catchup_of : List I32 → World → Option (List TaskStatusUpdate) × World
  unfolding catchup_or_skip events
  catchup_of [] w = (none, w)
  catchup_of (id ∷ ids) w =
      let (result, v) = events text_before user_id (codes "capture") (id ∷ ids) w in
      (catchup_or_skip result, v)

  -- The stream that is opened at the end of the catch-up.
  streamed :
      List Turn
      → Option (List TaskStatusUpdate) × World
      → Result ApiError (List HttpStreamItem) × World
  unfolding make_sse_stream
  streamed turns (catchup, w) =
      (ok (make_sse_stream user_id catchup w.now heartbeat_interval turns), w)

  opened : List Turn → Result ApiError (List I32) → Exec World ApiError (List HttpStreamItem)
  unfolding catchup_of streamed
  opened turns (err e) w = (err e, w)
  opened turns (ok ids) w = streamed turns (catchup_of ids w)

  -- `turns` is what happens to the stream.
  unfoldable pub get :
      (Text → Text)
      → (Text → Text)
      → Option Text
      → List Turn
      → Exec World ApiError (List HttpStreamItem)
  unfolding parse_capture_ids opened
  get quoted parse_error capture_ids turns =
      opened turns (parse_capture_ids quoted parse_error capture_ids)
