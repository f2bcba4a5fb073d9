-- ===== src/Api/Service/Records.antt =====
-- `insert_illumination_raw` of src/api/service/insert_illumination.rs, and
-- src/api/service/record_inference.rs.
pub mod Stored
use dreamscroll.Base.{
  ℕ, Bool, true, false, leb, ◌+◌, Option, none, some, List, [], ◌∷◌, ◌++◌, if◌then◌else◌,
}
use dreamscroll.Base.Words.{I32}
use dreamscroll.Base.Text.{Text, codes, text_eq}
use dreamscroll.Base.Results.{Result, ok, err, Exec, raise}
use dreamscroll.Base.Decimal.{show_i32}
use dreamscroll.Error.{ApiError, internal}
use dreamscroll.Api.Service.Store.{InferenceMetadata, InferenceMetaRow, RawRow, Db, Body, execute}
use dreamscroll.Api.Service.Projection.{CaptureInfo}

-- `ON CONFLICT (task_run_id) DO UPDATE` of all other columns.
unfoldable pub upserted_raw : RawRow → List RawRow → List RawRow
upserted_raw new [] = new ∷ []
upserted_raw new (old ∷ rows) =
    let rest = upserted_raw new rows in
    if text_eq old.task_run_id new.task_run_id
    then record new { task_run_id = old.task_run_id } ∷ rows
    else old ∷ rest

pub upsert_raw_body : RawRow → Body (Unit {0})
unfolding upserted_raw
upsert_raw_body row report db = (
  ok tt,
  record db {
    tables = record db.tables { illumination_raws = upserted_raw row db.tables.illumination_raws };
  },
)

module _ (capture : CaptureInfo) (task_run_id : Text) (inference_meta_id : Option I32)
    (raw : Text) where
  unfoldable pub raw_row : I32 → RawRow
  raw_row media_id = record {
    user_id = capture.user_id;
    capture_id = capture.id;
    media_id = media_id;
    task_run_id = task_run_id;
    inference_meta_id = inference_meta_id;
    content = raw;
  }

  -- The result is stored for the first media, which is the one that was analysed.
  pub insert_raw : List I32 → Exec Db ApiError (Unit {0})
  unfolding execute upsert_raw_body raw_row raise internal
  insert_raw [] = raise (
      internal (
        codes "Capture "
        ++ (show_i32 capture.id ++ codes " has no media for illumination inference")))
  insert_raw (media_id ∷ medias) = execute (upsert_raw_body (raw_row media_id))

  unfoldable pub insert_illumination_raw : Exec Db ApiError (Unit {0})
  unfolding insert_raw
  insert_illumination_raw = insert_raw capture.medias

pub insert_meta_body : (I32 → InferenceMetaRow) → Body I32
insert_meta_body row report db = if leb 2147483648 db.next_meta_id then (err report, db) else (
  ok db.next_meta_id,
  record db {
    next_meta_id = db.next_meta_id + 1;
    tables = record db.tables {
      inference_metas = db.tables.inference_metas ++ row db.next_meta_id ∷ [];
    };
  },
)

-- The id of a recorded row; a failure is only logged.
pub recorded_id : Result ApiError I32 × Db → Option I32 × Db
recorded_id (ok id, db) = (some id, db)
recorded_id (err e, db) = (none, db)

unfoldable pub meta_row : I32 → Text → I32 → Text → InferenceMetadata → I32 → InferenceMetaRow
meta_row user_id task_run_id attempt task_type metadata id = record {
  id = id;
  user_id = user_id;
  task_run_id = some task_run_id;
  attempt = some attempt;
  task_type = some task_type;
  provider = metadata.provider_name;
  backend = metadata.backend_name;
  model = metadata.model_id;
  duration_ms = metadata.duration_ms;
  tokens_in = metadata.tokens_in;
  tokens_in_cached = metadata.tokens_in_cached;
  tokens_out = metadata.tokens_out;
  tokens_thought = metadata.tokens_thought;
  params = metadata.params;
  provider_metadata = metadata.provider_metadata;
}

unfoldable pub record_inference : I32 → Text → I32 → Text → InferenceMetadata → Db → Option I32 × Db
unfolding execute insert_meta_body recorded_id meta_row
record_inference user_id task_run_id attempt task_type metadata db =
    recorded_id
      (execute (insert_meta_body (meta_row user_id task_run_id attempt task_type metadata)) db)
