-- ===== src/Logic/Illuminate.antt =====
-- `exec` of src/logic/illuminate.rs. The models' answers and the loading of captures, with
-- `make_capture_info`, are parameters.
pub mod Kept
use dreamscroll.Base.{ℕ, Bool, true, false, Option, none, some, List, [], ◌∷◌, ◌++◌}
use dreamscroll.Base.Words.{I32}
use dreamscroll.Base.Text.{Text, codes}
use dreamscroll.Base.Decimal.{show_i32}
use dreamscroll.Base.Results.{Result, ok, err, map_err, Exec, pure, raise, lift, ◌>>=◌, ◌>>◌}
use dreamscroll.Error.{ApiError, internal, not_found, with_inner_status_code}
use dreamscroll.Task.Kinds.{IlluminationTask, IlluminationVersion, v1, v2}
use dreamscroll.Task.Definition.{TaskRun}
use dreamscroll.Api.Service.Store.{InferenceMetadata, Tables, Db, Body, execute}
use dreamscroll.Api.Service.Projection.{CaptureInfo, Illumination, insert_illumination_v2}
use dreamscroll.Api.Service.Records.{insert_illumination_raw, record_inference}

-- src/llms/inference.rs
pub record InferenceOutcome (A : Type 0) : Type 0 where
  pub output : Result Text A
  pub metadata : InferenceMetadata
  pub http_status_code : Option I32

-- What `exec` uses of the logic's state; a version 1 result is its raw JSON.
pub record LogicState : Type 0 where
  pub load_captures : Tables → Option (List I32) → List CaptureInfo
  pub illuminate_v1 : CaptureInfo → Text → Option Text → Result Text (InferenceOutcome Text)
  pub illuminate_v2 : CaptureInfo → Text → Option Text → Result Text (InferenceOutcome Illumination)
  pub to_markdown : Illumination → Text

pub first : List CaptureInfo → Option CaptureInfo
first [] = none
first (capture ∷ captures) = some capture

module _ (state : LogicState) where
  pub load_body : Option (List I32) → Body (List CaptureInfo)
  load_body ids report db = (ok (state.load_captures db.tables ids), db)

  -- src/api/service/get_capture.rs, and the client's `get_captures`.
  unfoldable pub get_captures : Option (List I32) → Exec Db ApiError (List CaptureInfo)
  unfolding execute load_body
  get_captures ids = execute (load_body ids)

  -- The output of an inference, whose failure keeps the provider's status.
  unfoldable pub output_of : {A : Type 0} → InferenceOutcome A → Exec Db ApiError A
  unfolding lift internal with_inner_status_code
  output_of inference = lift (
      map_err (λ error. with_inner_status_code inference.http_status_code (internal error))
        inference.output)

  module _ (task_run : TaskRun IlluminationTask) (attempt : I32) (capture : CaptureInfo) where
    unfoldable pub recorded : InferenceMetadata → Exec Db ApiError (Option I32)
    unfolding record_inference
    recorded metadata db =
        let (id, after) =
          record_inference capture.user_id task_run.run_id attempt (codes "illuminate") metadata
            db in
        (ok id, after)

    -- The steps that both versions take from an inference on: its record, then its output, then
    -- what is kept of it.
    unfoldable pub after_inference :
        {A : Type 0}
        → (Option I32 → A → Exec Db ApiError (Unit {0}))
        → InferenceOutcome A
        → Exec Db ApiError (Unit {0})
    unfolding recorded output_of
    after_inference keep inference = do
      inference_meta_id ← recorded inference.metadata
      illumination ← output_of inference
      keep inference_meta_id illumination

    unfoldable pub keep_v1 : Option I32 → Text → Exec Db ApiError (Unit {0})
    unfolding insert_illumination_raw
    keep_v1 inference_meta_id raw =
        insert_illumination_raw capture task_run.run_id inference_meta_id raw

    unfoldable pub exec_v1 : Exec Db ApiError (Unit {0})
    unfolding lift internal after_inference keep_v1
    exec_v1 = do
      inference ← lift (
          map_err internal
            (state.illuminate_v1 capture task_run.task.model_id task_run.task.thinking_level))
      after_inference keep_v1 inference

    -- The projection, where the task asks for it.
    unfoldable pub projects : Bool → Option I32 → Illumination → Exec Db ApiError (Unit {0})
    unfolding insert_illumination_v2 pure
    projects true inference_meta_id illumination =
        insert_illumination_v2 capture state.to_markdown task_run.run_id inference_meta_id
          illumination
    projects false inference_meta_id illumination = pure tt

    unfoldable pub keep_v2 : Option I32 → Illumination → Exec Db ApiError (Unit {0})
    unfolding insert_illumination_raw projects
    keep_v2 inference_meta_id illumination = do
      insert_illumination_raw capture task_run.run_id inference_meta_id illumination.raw_json
      projects task_run.task.persist_projection inference_meta_id illumination

    unfoldable pub exec_v2 : Exec Db ApiError (Unit {0})
    unfolding lift internal after_inference keep_v2
    exec_v2 = do
      inference ← lift (
          map_err internal
            (state.illuminate_v2 capture task_run.task.model_id task_run.task.thinking_level))
      after_inference keep_v2 inference

    pub exec_version : IlluminationVersion → Exec Db ApiError (Unit {0})
    unfolding exec_v1 exec_v2
    exec_version v1 = exec_v1
    exec_version v2 = exec_v2

  module _ (task_run : TaskRun IlluminationTask) (attempt : I32) where
    pub with_capture : Option CaptureInfo → Exec Db ApiError (Unit {0})
    unfolding exec_version not_found raise
    with_capture none = raise (
        not_found (
          codes "Capture "
          ++ (show_i32 task_run.task.capture_id ++ codes " not found during illumination")))
    with_capture (some capture) = exec_version task_run attempt capture task_run.task.prompt_version

    unfoldable pub exec : Exec Db ApiError (Unit {0})
    unfolding get_captures with_capture first
    exec = do
      fetch ← get_captures (some (task_run.task.capture_id ∷ []))
      with_capture (first fetch)
