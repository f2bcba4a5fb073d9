-- ===== src/Task/Master/Expected.antt =====
-- The numbers that runs and attempts are to get, in plain integers, beside `decide_next_run` and
-- `decide_next_attempt` of src/task/taskmaster.rs.
use dreamscroll.Base.{
  ◌≡◌, ◌⊎◌, ◌+◌, ◌%◌, inl, inr, Bool-cases, Option, none, some, ◌==◌, ==→eq, arith,
}
use dreamscroll.Base.Words.{I32, add_i32}
use dreamscroll.Task.Status.{as_i32, from_i32, is_in_flight}
use dreamscroll.Task.Row.{Row}
use dreamscroll.Task.Master.{run_after, decide_next_run, decide_next_attempt}

-- The next attempt of a run: 1 without a row; none for a submission that failed (0) and for a run
-- that completed with success (4); and one more than the attempts of any other row, in 32 bits.
pub data NextAttempt : Option Row → Option I32 → Type 0 where
  first_attempt : NextAttempt none (some 1)
  no_attempt :
      (row : Row) → (row.status_code ≡ 0) ⊎ (row.status_code ≡ 4) → NextAttempt (some row) none
  next_attempt :
      (row : Row)
      → ¬ (row.status_code ≡ 0)
      → ¬ (row.status_code ≡ 4)
      → NextAttempt (some row) (some ((row.attempts + 1) % 4294967296))

pub decide_next_attempt-NextAttempt : (row : Option Row) → NextAttempt row (decide_next_attempt row)
unfolding decide_next_attempt as_i32 add_i32
decide_next_attempt-NextAttempt none = first_attempt
decide_next_attempt-NextAttempt (some row) = elim (Bool-cases (row.status_code == 4)) [
  | inl done ↦ rw done (no_attempt row (inr (==→eq row.status_code 4 done)))
  | inr unfinished ↦ rw unfinished (elim (Bool-cases (row.status_code == 0)) [
    | inl failed ↦ rw failed (no_attempt row (inl (==→eq row.status_code 0 failed)))
    | inr submitted ↦ rw submitted (next_attempt row (ground arith) (ground arith))
  ])
]

-- The status codes of a run that is queued (1), in progress (2), or to be retried (3).
abbrev pub IsInFlight : Row → Type 0
IsInFlight row = (row.status_code ≡ 1) ⊎ (row.status_code ≡ 2) ⊎ (row.status_code ≡ 3)

-- The next run of a logical task, by its latest run: 1 without a row, none while it is in flight, and
-- one more than its number for any other row, in 32 bits.
pub data NextRun : Option Row → Option I32 → Type 0 where
  first_run : NextRun none (some 1)
  no_run : (latest : Row) → IsInFlight latest → NextRun (some latest) none
  next_run :
      (latest : Row)
      → ¬ IsInFlight latest
      → NextRun (some latest) (some ((latest.run_number + 1) % 4294967296))

pub decide_next_run-NextRun : (latest : Option Row) → NextRun latest (decide_next_run latest)
unfolding decide_next_run from_i32 is_in_flight add_i32 run_after
decide_next_run-NextRun none = first_run
decide_next_run-NextRun (some latest) = elim (Bool-cases (latest.status_code == 0)) [
  | inl e ↦ rw e (next_run latest (ground arith))
  | inr e0 ↦ rw e0 (elim (Bool-cases (latest.status_code == 1)) [
    | inl e ↦ rw e (no_run latest (ground arith))
    | inr e1 ↦ rw e1 (elim (Bool-cases (latest.status_code == 2)) [
      | inl e ↦ rw e (no_run latest (ground arith))
      | inr e2 ↦ rw e2 (elim (Bool-cases (latest.status_code == 3)) [
        | inl e ↦ rw e (no_run latest (ground arith))
        | inr e3 ↦ rw e3 (elim (Bool-cases (latest.status_code == 4)) [
          | inl e ↦ rw e (next_run latest (ground arith))
          | inr e4 ↦ rw e4 (elim (Bool-cases (latest.status_code == 5)) [
            | inl e ↦ rw e (next_run latest (ground arith))
            | inr e5 ↦ rw e5 (next_run latest (ground arith))
          ])
        ])
      ])
    ])
  ])
]
