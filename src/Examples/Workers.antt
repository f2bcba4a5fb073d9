-- ===== src/Examples/Workers.antt =====
-- A small input for the theorem about src/task/taskqueue_local.rs.
use dreamscroll.Base.{ℕ, ◌≡◌, refl, ◌∷◌, [], List, ltb, if◌then◌else◌}
use dreamscroll.Task.LocalQueue.{Event, enqueues, receives, spawns, finishes, connect, run_events}
use dreamscroll.Task.LocalQueue.Dispatcher.{IsFair, run_events-IsFair}

-- Three runs and two workers: the third run waits for the end of the first.
abbrev busy : List (Event ℕ)
busy =
    enqueues 11
    ∷ enqueues 12
    ∷ enqueues 13
    ∷ receives
    ∷ spawns
    ∷ receives
    ∷ spawns
    ∷ receives
    ∷ spawns
    ∷ finishes 0
    ∷ spawns
    ∷ []

run_events-IsFair_example : IsFair (if ltb 2 1 then 1 else 2) (run_events busy (connect 2))
run_events-IsFair_example = run_events-IsFair 2 busy

workers : (run_events busy (connect 2)).running ≡ 12 ∷ 13 ∷ []
unfolding run_events connect
workers = refl
