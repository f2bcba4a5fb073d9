-- ===== src/Examples/Deliveries.antt =====
-- Small inputs for the theorems about deliveries, src/webhook/, and the durations of attempts.
use dreamscroll.Base.{ℕ, ◌≡◌, refl, Option, some, none}
use dreamscroll.Base.Words.{I32, lt_i32, add_i32}
use dreamscroll.Base.Int.{pos}
use dreamscroll.Base.Text.{codes, text_eq}
use dreamscroll.Base.Results.{ok}
use dreamscroll.Task.Row.{Row, find, update_where}
use dreamscroll.Task.Timing.{measure_of, recent_samples}
use dreamscroll.Task.Tracker.{run_by_id, attempt_duration_ms}
use dreamscroll.Task.Tracker.Durations.{Milliseconds, attempt_duration_ms-Milliseconds}
use dreamscroll.Task.Master.{decide_next_attempt}
use dreamscroll.Task.Master.Expected.{NextAttempt}
use dreamscroll.Webhook.{deliver}
use dreamscroll.Webhook.Outcome.{Replies, Delivered, deliver-budget}
use dreamscroll.Webhook.Answers.{deliver-IsCalm}
use dreamscroll.Examples.{second_run, two_runs, index_task, run_of, timeout}

deliver-budget_example :
    (attempt : Option I32) × NextAttempt (run_by_id (codes "b") none two_runs) attempt
    × Delivered index_task 3 attempt
        (deliver index_task 3 (λ run attempt w. (timeout, w)) (run_of second_run) two_runs).0
deliver-budget_example =
    deliver-budget index_task 3 (λ run attempt w. (timeout, w)) (run_of second_run) two_runs

-- A timeout is delivered again below the budget.
timeout_delivered :
    (deliver index_task 3 (λ run attempt w. (timeout, w)) (run_of second_run) two_runs).0 ≡ ok 500
unfolding deliver text_eq lt_i32 decide_next_attempt update_where measure_of recent_samples find
    add_i32
timeout_delivered = refl

deliver-IsCalm_example :
    (attempt : Option I32) × NextAttempt (run_by_id (codes "b") none two_runs) attempt
    × (code : ℕ) × ((deliver index_task 3
          (λ run attempt w. (timeout, w))
          (run_of second_run)
          two_runs).0
        ≡ ok code)
    × Replies index_task 3 attempt code
deliver-IsCalm_example =
    deliver-IsCalm index_task 3 (λ run attempt w. (timeout, w)) (run_of second_run)
      (λ attempt w calm. calm) two_runs (λ n. refl)

-- A run whose attempt began 1600 microseconds before 5000.
abbrev begun_run : Row
begun_run = record second_run { processing_started_at = some 3400 }

attempt_duration_ms-Milliseconds_example :
    Milliseconds 5000 (some 3400) (attempt_duration_ms 5000 begun_run)
attempt_duration_ms-Milliseconds_example = attempt_duration_ms-Milliseconds 5000 begun_run

two_milliseconds : attempt_duration_ms 5000 begun_run ≡ some (pos 2)
unfolding attempt_duration_ms
two_milliseconds = refl
