-- ===== src/Examples/Catchups.antt =====
-- Small inputs for the theorems about src/task/statuscatchup.rs.
use dreamscroll.Base.{◌≡◌, refl, ◌∷◌, [], Bool, false, none, some, All, Pairwise}
use dreamscroll.Base.Words.{lt_i32}
use dreamscroll.Base.Text.{Text, codes, text_eq}
use dreamscroll.Task.Status.{from_i32, in_progress}
use dreamscroll.Task.Database.{World}
use dreamscroll.Sse.Event.{TaskStatusUpdate, task_status}
use dreamscroll.Task.Catchup.{events, latest_task_runs, same_group}
use dreamscroll.Task.Catchup.Scope.{IsWanted, IsScoped}
use dreamscroll.Task.Catchup.Replay.{latest_task_runs-scoped, events-IsScoped}
use dreamscroll.Examples.{two_runs, first_run, stored}

-- The one order that two equal task types need.
abbrev pub no_order : Text → Text → Bool
no_order a b = false

abbrev pub running : World
running = record two_runs { rows = first_run ∷ stored (codes "b") 2 none 2 1 ∷ [] }

latest_task_runs-scoped_example :
    All
      (IsWanted 1 (codes "capture") (42 ∷ []))
      (latest_task_runs no_order 1 (codes "capture") (42 ∷ []) running)
    × Pairwise
        (λ r s. same_group r s ≡ false)
        (latest_task_runs no_order 1 (codes "capture") (42 ∷ []) running)
latest_task_runs-scoped_example =
    latest_task_runs-scoped 1 (codes "capture") (42 ∷ []) no_order running

latest_is_second :
    latest_task_runs no_order 1 (codes "capture") (42 ∷ []) running
    ≡ stored (codes "b") 2 none 2 1 ∷ []
unfolding latest_task_runs text_eq lt_i32
latest_is_second = refl

abbrev pub running_event : TaskStatusUpdate
running_event = record {
  schema_version = 4;
  event_type = task_status;
  timestamp = 5;
  entity_type = codes "capture";
  entity_id = 42;
  entity_owner_id = some 1;
  payload = record {
    task_type = codes "search_index";
    status = in_progress;
    logical_id = codes "u1-search_index-capture42";
    run_id = codes "b";
    run_number = 2;
    attempts = 1;
    processing_started_at = none;
    estimated_duration_ms_p50 = none;
  };
}

events-IsScoped_example : All (IsScoped 1 (codes "capture") (42 ∷ [])) (running_event ∷ [])
unfolding events text_eq lt_i32 from_i32
events-IsScoped_example =
    events-IsScoped 1 (codes "capture") (42 ∷ []) no_order running (running_event ∷ []) refl
