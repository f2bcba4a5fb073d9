-- ===== src/Logic/Beacon.antt =====
-- src/logic/beacon.rs: follow-up tasks behind capture events. Its log lines are not modelled.
use dreamscroll.Base.{Bool, true, false, Option, none, ◌&&◌, if◌then◌else◌}
use dreamscroll.Base.Text.{Text}
use dreamscroll.Base.Results.{Result, Exec, pure, convert, ◌>>◌}
use dreamscroll.Auth.{Context}
use dreamscroll.Task.Kinds.{IlluminationTask, SearchIndexTask, IlluminationVersion, v1, v2}
use dreamscroll.Task.Database.{World}
use dreamscroll.Task.Master.{TaskQueue, submit_illuminate, submit_search_index_from_worker}

unfoldable pub new_capture :
    (IlluminationTask → Result Text Text)
    → TaskQueue IlluminationTask
    → Context
    → IlluminationTask
    → Text
    → Exec World Text (Unit {0})
unfolding submit_illuminate pure
new_capture payload queue context task run_id = do
  λ w. convert (λ e. e.error) (submit_illuminate payload queue context task none run_id w)
  pure tt

is_v2 : IlluminationVersion → Bool
is_v2 v1 = false
is_v2 v2 = true

unfoldable pub new_illumination :
    (SearchIndexTask → Result Text Text)
    → TaskQueue SearchIndexTask
    → IlluminationTask
    → Option Text
    → Text
    → Exec World Text (Unit {0})
unfolding is_v2 submit_search_index_from_worker pure
new_illumination payload queue task backfill_id run_id =
    if task.persist_projection && is_v2 task.prompt_version
    then (do
      submit_search_index_from_worker payload queue
          (record { capture_id = task.capture_id; entity_owner_id = task.entity_owner_id })
          backfill_id run_id
      pure tt)
    else pure tt
