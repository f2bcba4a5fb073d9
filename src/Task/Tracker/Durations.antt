-- ===== src/Task/Tracker/Durations.antt =====
-- `ATTEMPT_DURATION_MS` of src/task/taskruntracker.rs: the duration of an attempt.
use dreamscroll.Base.{
  ℕ, ◌+◌, ◌-◌, ◌*◌, ◌/◌, ◌≤◌, ◌<◌, ◌≡◌, Bool-cases, Option, none, some, inl, inr, leb, arith,
}
use mathlib.Core.Option
use mathlib.Core.Path.{subst}
use dreamscroll.Base.Int.{ℤ, pos, negsuc, minus, neg, thousandths}
use dreamscroll.Task.Row.{Row}
use dreamscroll.Task.Tracker.{attempt_duration_ms}

-- Milliseconds from a start to now, both in microseconds: none without a start, and otherwise the
-- nearest number to the time between, below 0 where the clock went back. Half a millisecond is
-- rounded away from 0.
pub data Milliseconds (now : ℕ) : Option ℕ → Option ℤ → Type 0 where
  never : Milliseconds now none none
  since :
      (started d : ℕ)
      → started ≤ now
      → 1000 * d ≤ now - started + 500
      → now - started < 1000 * d + 500
      → Milliseconds now (some started) (some (pos d))
  hardly_before :
      (started : ℕ)
      → now < started
      → started - now < 500
      → Milliseconds now (some started) (some (pos 0))
  before :
      (started d : ℕ)
      → now < started
      → 1000 * (d + 1) ≤ started - now + 500
      → started - now < 1000 * (d + 1) + 500
      → Milliseconds now (some started) (some (negsuc d))

between :
    (now started : ℕ) → Milliseconds now (some started) (some (thousandths (minus now started)))
unfolding minus thousandths neg
between now started = elim (Bool-cases (leb started now)) [
  | inl ahead ↦
      rw ahead
        (since started ((now - started + 500) / 1000) (ground arith) (omega arith) (omega arith))
  | inr back ↦ rw back (elim (Bool-cases (leb ((started - now - 1 + 501) / 1000) 0)) [
    | inl zero ↦ rw zero (
        let none_left : 0 ≡ 0 - (started - now - 1 + 501) / 1000 = omega arith in
        subst (λ d. Milliseconds now (some started) (some (pos d))) none_left
          (hardly_before started (ground arith) (ground arith)))
    | inr more ↦ rw more (
        before started ((started - now - 1 + 501) / 1000 - 0 - 1) (ground arith) (ground arith)
          (ground arith))
  ])
]

-- The duration that an attempt of a row would have now.
pub attempt_duration_ms-Milliseconds :
    (now : ℕ) (row : Row) → Milliseconds now row.processing_started_at (attempt_duration_ms now row)
unfolding attempt_duration_ms
attempt_duration_ms-Milliseconds now row = by_start row.processing_started_at
  where
    by_start :
        (start : Option ℕ)
        → Milliseconds now start (Option.map (λ started. thousandths (minus now started)) start)
    by_start none = never
    by_start (some started) = between now started
