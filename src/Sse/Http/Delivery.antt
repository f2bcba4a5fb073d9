-- ===== src/Sse/Http/Delivery.antt =====
-- What the stream of a connection carries.
use dreamscroll.Base.{
  ℕ, ◌+◌, ◌≡◌, refl, ap, Bool, true, false, ◌||◌, Option, none, some, List, [], ◌∷◌, ◌++◌, map, inl,
  inr, ==→eq, if◌then◌else◌, Bool-cases, All, All-append,
}
use dreamscroll.Base.Words.{I32}
use dreamscroll.Sse.Event.{TaskStatusUpdate}
use dreamscroll.Sse.Http.{
  HttpStreamItem, heartbeat, task_status, event, lagged, closed, Ready, deadline_reached,
  heartbeat_due, shutdown_changed, received, Turn, Turned, proceed, ends, sends, goes_on, owned_by,
  on_received, on_ready, turn, live_events, catchup_updates, make_sse_stream,
}

abbrev pub IsOwned : I32 → TaskStatusUpdate → Type 0
IsOwned user_id update = update.entity_owner_id ≡ some user_id

-- An item for the user: a heartbeat, or an update of the user's.
abbrev pub IsFor : I32 → HttpStreamItem → Type 0
IsFor user_id heartbeat = Unit
IsFor user_id (task_status update) = IsOwned user_id update

owned_by-true :
    (user_id : I32) (owner : Option I32) → owned_by user_id owner ≡ true → owner ≡ some user_id
unfolding owned_by
owned_by-true user_id none h = cc
owned_by-true user_id (some owner) h = ap some (==→eq owner user_id h)

-- The turns that end a stream: a shutdown, the deadline, a lag and a closed channel.
pub ends_stream : Ready → Bool
ends_stream deadline_reached = true
ends_stream heartbeat_due = false
ends_stream (shutdown_changed gone value) = gone || value
ends_stream (received (event e)) = false
ends_stream (received (lagged n)) = true
ends_stream (received closed) = true

unfoldable pub before_end : List Turn → List Turn
unfolding ends_stream
before_end [] = []
before_end (t ∷ ts) =
    let rest = before_end ts in if t.shutdown || ends_stream t.ready then [] else t ∷ rest

-- The updates of the user that turns receive.
pub own_update : I32 → Ready → List TaskStatusUpdate
own_update user_id deadline_reached = []
own_update user_id heartbeat_due = []
own_update user_id (shutdown_changed gone value) = []
own_update user_id (received (event e)) = if owned_by user_id e.entity_owner_id then e ∷ [] else []
own_update user_id (received (lagged n)) = []
own_update user_id (received closed) = []

unfoldable pub own_updates : I32 → List Turn → List TaskStatusUpdate
unfolding own_update
own_updates user_id [] = []
own_updates user_id (t ∷ ts) = own_update user_id t.ready ++ own_updates user_id ts

status_of : HttpStreamItem → List TaskStatusUpdate
status_of heartbeat = []
status_of (task_status update) = update ∷ []

unfoldable pub statuses : List (ℕ × HttpStreamItem) → List TaskStatusUpdate
unfolding status_of
statuses [] = []
statuses ((time, item) ∷ items) = status_of item ++ statuses items

-- The cases of a turn.
pub data TurnView (user_id : I32) (interval next : ℕ) (t : Turn) : Turned → Type 0 where
  over : (t.shutdown || ends_stream t.ready) ≡ true → TurnView user_id interval next t ends
  beats_now :
      (t.shutdown || ends_stream t.ready) ≡ false
      → t.ready ≡ heartbeat_due
      → own_update user_id t.ready ≡ []
      → TurnView user_id interval next t (sends heartbeat (t.now + interval))
  carries :
      (e : TaskStatusUpdate)
      → (t.shutdown || ends_stream t.ready) ≡ false
      → own_update user_id t.ready ≡ e ∷ []
      → IsOwned user_id e
      → TurnView user_id interval next t (sends (task_status e) next)
  quiet :
      (t.shutdown || ends_stream t.ready) ≡ false
      → own_update user_id t.ready ≡ []
      → TurnView user_id interval next t (goes_on next)

module _ (user_id : I32) (interval next : ℕ) where
  turn-event :
      (now : ℕ) (e : TaskStatusUpdate)
      → TurnView user_id interval next
          (record { shutdown = false; now = now; ready = received (event e) })
          (turn user_id interval next
            (record { shutdown = false; now = now; ready = received (event e) }))
  unfolding turn on_ready on_received own_update ends_stream
  turn-event now e = elim (Bool-cases (owned_by user_id e.entity_owner_id)) [
    | inl own ↦ rw own (carries e refl (rw own refl) (owned_by-true user_id e.entity_owner_id own))
    | inr foreign ↦ rw foreign (quiet refl (rw foreign refl))
  ]

  pub turn_view :
      (shutdown : Bool) (now : ℕ) (r : Ready)
      → TurnView user_id interval next
          (record { shutdown = shutdown; now = now; ready = r })
          (turn user_id interval next (record { shutdown = shutdown; now = now; ready = r }))
  unfolding turn on_ready on_received own_update ends_stream
  turn_view true now r = over refl
  turn_view false now deadline_reached = over refl
  turn_view false now heartbeat_due = beats_now refl refl refl
  turn_view false now (shutdown_changed true value) = over refl
  turn_view false now (shutdown_changed false true) = over refl
  turn_view false now (shutdown_changed false false) = quiet refl refl
  turn_view false now (received (event e)) = turn-event now e
  turn_view false now (received (lagged n)) = over refl
  turn_view false now (received closed) = over refl

-- A list of items for the user alone.
abbrev AreFor : I32 → List (ℕ × HttpStreamItem) → Type 0
AreFor user_id = All (λ sent. IsFor user_id sent.1)

module _ (user_id : I32) (interval : ℕ) where
  proceed-AreFor :
      (next : ℕ) (t : Turn) (x : Turned) (later : ℕ → List (ℕ × HttpStreamItem))
      → TurnView user_id interval next t x
      → ((n : ℕ) → AreFor user_id (later n))
      → AreFor user_id (proceed t.now x later)
  proceed-AreFor next t _ later (over h) rest = tt
  proceed-AreFor next t _ later (beats_now h b o) rest = (tt, rest (t.now + interval))
  proceed-AreFor next t _ later (carries e h o own) rest = (own, rest next)
  proceed-AreFor next t _ later (quiet h o) rest = rest next

  live_events-AreFor :
      (turns : List Turn) (next : ℕ) → AreFor user_id (live_events user_id interval next turns)
  unfolding live_events
  live_events-AreFor [] next = tt
  live_events-AreFor (t ∷ ts) next =
      proceed-AreFor next t (turn user_id interval next t) (λ n. live_events user_id interval n ts)
        (turn_view user_id interval next t.shutdown t.now t.ready) (live_events-AreFor ts)

  proceed-own_updates :
      (next : ℕ) (t : Turn) (ts : List Turn) (x : Turned) (later : ℕ → List (ℕ × HttpStreamItem))
      → TurnView user_id interval next t x
      → ((n : ℕ) → statuses (later n) ≡ own_updates user_id (before_end ts))
      → statuses (proceed t.now x later) ≡ own_updates user_id (before_end (t ∷ ts))
  unfolding statuses status_of before_end own_updates
  proceed-own_updates next t ts _ later (over h) rest = rw h refl
  proceed-own_updates next t ts _ later (beats_now h b o) rest =
      rw h (rw o (rest (t.now + interval)))
  proceed-own_updates next t ts _ later (carries e h o own) rest =
      rw h (rw o (ap (λ es. e ∷ es) (rest next)))
  proceed-own_updates next t ts _ later (quiet h o) rest = rw h (rw o (rest next))

  -- The updates that the live part carries are those of the user that were received before the
  -- first turn that ends the stream, in their order.
  pub live_events-own_updates :
      (turns : List Turn) (next : ℕ)
      → statuses (live_events user_id interval next turns) ≡ own_updates user_id (before_end turns)
  unfolding live_events before_end own_updates statuses
  live_events-own_updates [] next = refl
  live_events-own_updates (t ∷ ts) next =
      proceed-own_updates next t ts (turn user_id interval next t)
        (λ n. live_events user_id interval n ts)
        (turn_view user_id interval next t.shutdown t.now t.ready) (live_events-own_updates ts)

map-All :
    {A B : Type 0} (P : B → Type 0) (f : A → B) (xs : List A)
    → All (λ x. P (f x)) xs
    → All P (map f xs)
map-All P f [] h = tt
map-All P f (x ∷ xs) h = (h.0, map-All P f xs h.1)

module _ (user_id : I32) where
  -- A stream whose catch-up is of updates of the user carries updates of the user alone.
  pub make_sse_stream-IsFor :
      (catchup : Option (List TaskStatusUpdate)) (now interval : ℕ) (turns : List Turn)
      → All (IsOwned user_id) (catchup_updates catchup)
      → All (IsFor user_id) (make_sse_stream user_id catchup now interval turns)
  unfolding make_sse_stream
  make_sse_stream-IsFor catchup now interval turns h =
      All-append (IsFor user_id) (map task_status (catchup_updates catchup))
        (map (λ sent. sent.1) (live_events user_id interval (now + interval) turns))
        (map-All (IsFor user_id) task_status (catchup_updates catchup) h)
        (map-All (IsFor user_id) (λ sent. sent.1)
          (live_events user_id interval (now + interval) turns)
          (live_events-AreFor user_id interval turns (now + interval)))
