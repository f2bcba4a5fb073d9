-- ===== src/Sse/Http/Cadence.antt =====
-- The distance between the heartbeats of a stream.
use dreamscroll.Base.{ℕ, ◌+◌, ◌≤◌, ◌≡◌, List, [], ◌∷◌, ◌++◌, All, All-map, Pairwise, arith}
use dreamscroll.Base.Words.{I32}
use dreamscroll.Sse.Http.{
  HttpStreamItem, heartbeat, task_status, heartbeat_due, Turn, Turned, proceed, ends, sends,
  goes_on, turn, live_events,
}
use dreamscroll.Sse.Http.Delivery.{TurnView, over, beats_now, carries, quiet, turn_view}

beat_of : ℕ → HttpStreamItem → List ℕ
beat_of time heartbeat = time ∷ []
beat_of time (task_status update) = []

-- The times of the heartbeats.
unfoldable pub beats : List (ℕ × HttpStreamItem) → List ℕ
unfolding beat_of
beats [] = []
beats ((time, item) ∷ items) = beat_of time item ++ beats items

next_of : ℕ → Turned → ℕ
next_of next ends = next
next_of next (sends item later) = later
next_of next (goes_on later) = later

-- A timer is ready no earlier than it was set for.
unfoldable pub IsTimed : I32 → ℕ → ℕ → List Turn → Type 0
unfolding next_of turn
IsTimed user_id interval next [] = Unit
IsTimed user_id interval next (t ∷ ts) =
    (t.ready ≡ heartbeat_due → next ≤ t.now)
    × IsTimed user_id interval (next_of next (turn user_id interval next t)) ts

abbrev AreSpaced : ℕ → ℕ → List ℕ → Type 0
AreSpaced interval next times =
    All (λ time. next ≤ time) times × Pairwise (λ s t. s + interval ≤ t) times

module _ (user_id : I32) (interval : ℕ) where
  proceed-AreSpaced :
      (next : ℕ) (t : Turn) (x : Turned) (later : ℕ → List (ℕ × HttpStreamItem))
      → TurnView user_id interval next t x
      → (t.ready ≡ heartbeat_due → next ≤ t.now)
      → AreSpaced interval (next_of next x) (beats (later (next_of next x)))
      → AreSpaced interval next (beats (proceed t.now x later))
  unfolding beats beat_of next_of
  proceed-AreSpaced next t _ later (over h) timed rest = (tt, tt)
  proceed-AreSpaced next t _ later (beats_now h b o) timed rest =
      let reached = timed b in
      (
        (
          reached,
          All-map (λ time. t.now + interval ≤ time) (λ time. next ≤ time)
              (beats (later (t.now + interval))) (λ time far. omega (arith, far, reached)) rest.0,
        ),
        rest,
      )
  proceed-AreSpaced next t _ later (carries e h o own) timed rest = rest
  proceed-AreSpaced next t _ later (quiet h o) timed rest = rest

  live_events-AreSpaced :
      (turns : List Turn) (next : ℕ)
      → IsTimed user_id interval next turns
      → AreSpaced interval next (beats (live_events user_id interval next turns))
  unfolding live_events beats IsTimed
  live_events-AreSpaced [] next timed = (tt, tt)
  live_events-AreSpaced (t ∷ ts) next timed =
      let x = turn user_id interval next t in
      proceed-AreSpaced next t x (λ n. live_events user_id interval n ts)
        (turn_view user_id interval next t.shutdown t.now t.ready) timed.0
        (live_events-AreSpaced ts (next_of next x) timed.1)

  -- Where timers are never early, the first heartbeat of a stream opened at `now` comes an interval
  -- later or after that, and two heartbeats are at least an interval apart.
  pub live_events-beats :
      (now : ℕ) (turns : List Turn)
      → IsTimed user_id interval (now + interval) turns
      → All
          (λ time. now + interval ≤ time)
          (beats (live_events user_id interval (now + interval) turns))
        × Pairwise
            (λ s t. s + interval ≤ t)
            (beats (live_events user_id interval (now + interval) turns))
  live_events-beats now turns = live_events-AreSpaced turns (now + interval)
