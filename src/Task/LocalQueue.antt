-- ===== src/Task/LocalQueue.antt =====
-- src/task/taskqueue_local.rs: the queue inside the process. An event is one step of a caller, of
-- the dispatcher, or of a worker; any order of them can happen.
pub mod Dispatcher
use dreamscroll.Base.{
  ℕ, zero, suc, ◌+◌, Bool, true, false, Option, none, some, List, [], ◌∷◌, ◌++◌, ltb, if◌then◌else◌,
}
use dreamscroll.Base.Text.{Text, codes}
use dreamscroll.Base.Results.{Result, ok, err}

-- `channel` is the unbounded channel, `held` the run that the dispatcher took out of it and has no
-- permit for yet, and `permits` the semaphore. `started` and `accepted` are what happened so far:
-- the runs that a worker was spawned for, and those that `enqueue` accepted, oldest first.
pub record LocalTaskQueue (R : Type 0) : Type 0 where
  pub max_concurrent_tasks : ℕ
  pub dispatching : Bool
  pub channel : List R
  pub held : Option R
  pub permits : ℕ
  pub running : List R
  pub started : List R
  pub accepted : List R

-- An event of the queue; `finishes` is the end of a worker, whose error is only logged, by its place
-- among the running ones, and `drops` the end of the last handle of the queue.
pub data Event (R : Type 0) : Type 0 where
  enqueues : R → Event R
  receives spawns drops : Event R
  finishes : ℕ → Event R

module _ {R : Type 0} where
  -- `connect`: at least one worker.
  unfoldable pub connect : ℕ → LocalTaskQueue R
  connect max_concurrent_tasks =
      let most = if ltb max_concurrent_tasks 1 then 1 else max_concurrent_tasks in
      record {
        max_concurrent_tasks = most;
        dispatching = true;
        channel = [];
        held = none;
        permits = most;
        running = [];
        started = [];
        accepted = [];
      }

  sent : Bool → R → LocalTaskQueue R → Result Text (Unit {0}) × LocalTaskQueue R
  sent true run q =
      (ok tt, record q { channel = q.channel ++ run ∷ []; accepted = q.accepted ++ run ∷ [] })
  sent false run q = (err (codes "Cannot enqueue into LocalTaskQueue after shutdown"), q)

  -- The channel is closed once the dispatcher is gone.
  unfoldable pub enqueue : R → LocalTaskQueue R → Result Text (Unit {0}) × LocalTaskQueue R
  unfolding sent
  enqueue run q = sent q.dispatching run q

  receive_from : List R → Option R → LocalTaskQueue R → LocalTaskQueue R
  receive_from (run ∷ runs) none q = record q { channel = runs; held = some run }
  receive_from [] none q = q
  receive_from runs (some run) q = q

  -- The dispatcher's `recv`, once it holds no run.
  unfoldable pub receive : LocalTaskQueue R → LocalTaskQueue R
  unfolding receive_from
  receive q = receive_from q.channel q.held q

  spawn_with : Option R → ℕ → LocalTaskQueue R → LocalTaskQueue R
  spawn_with (some run) (suc permits) q = record q {
    held = none;
    permits = permits;
    running = q.running ++ run ∷ [];
    started = q.started ++ run ∷ [];
  }
  spawn_with (some run) zero q = q
  spawn_with none permits q = q

  -- The dispatcher's permit and the spawning of a worker with it.
  unfoldable pub spawn : LocalTaskQueue R → LocalTaskQueue R
  unfolding spawn_with
  spawn q = spawn_with q.held q.permits q

  consed : R → Option (List R) → Option (List R)
  consed run none = none
  consed run (some runs) = some (run ∷ runs)

  without_nth : ℕ → List R → Option (List R)
  unfolding consed
  without_nth place [] = none
  without_nth zero (run ∷ runs) = some runs
  without_nth (suc place) (run ∷ runs) = consed run (without_nth place runs)

  released : Option (List R) → LocalTaskQueue R → LocalTaskQueue R
  released none q = q
  released (some runs) q = record q { running = runs; permits = q.permits + 1 }

  -- The end of a worker gives its permit back.
  unfoldable pub finish : ℕ → LocalTaskQueue R → LocalTaskQueue R
  unfolding without_nth released
  finish place q = released (without_nth place q.running) q

  -- The dispatcher is aborted, with the run it held and the channel; workers go on.
  unfoldable pub drop_queue : LocalTaskQueue R → LocalTaskQueue R
  drop_queue q = record q { dispatching = false; channel = []; held = none }

  unfoldable pub step : Event R → LocalTaskQueue R → LocalTaskQueue R
  unfolding enqueue receive spawn finish drop_queue
  step (enqueues run) q = (enqueue run q).1
  step receives q = receive q
  step spawns q = spawn q
  step (finishes place) q = finish place q
  step drops q = drop_queue q

  unfoldable pub run_events : List (Event R) → LocalTaskQueue R → LocalTaskQueue R
  unfolding step
  run_events [] q = q
  run_events (e ∷ es) q = run_events es (step e q)
