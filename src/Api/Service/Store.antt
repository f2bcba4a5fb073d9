-- ===== src/Api/Service/Store.antt =====
-- The tables that src/api/service/insert_illumination.rs writes, of src/model/illumination.rs,
-- src/model/illumination_raw.rs, src/model/knowledge_entity.rs and src/model/search_index.rs, and
-- the statements and transactions on them. Times of creation, and the ids of the rows of the last
-- three tables, are left out: nothing here reads them.
pub mod Transactions
pub mod Executed
use dreamscroll.Base.{
  ℕ, ◌+◌, Bool, true, false, ◌&&◌, Option, none, some, List, [], ◌∷◌, ◌++◌, ◌==◌, if◌then◌else◌,
}
use dreamscroll.Base.Words.{I32}
use dreamscroll.Base.Text.{Text, text_eq}
use dreamscroll.Base.Results.{Result, ok, err, map_err, Exec, ◌>>=◌, ◌>>◌}
use dreamscroll.Error.{ApiError, internal}
use dreamscroll.Task.Database.{Fate, executed, refused, unacknowledged, Moment}

pub record IlluminationRow : Type 0 where
  pub id : I32
  pub user_id : I32
  pub capture_id : I32
  pub task_run_id : Text
  pub inference_meta_id : Option I32
  pub summary : Text
  pub details : Text
  pub suggested_searches : Option (List Text)

pub record EntityRow : Type 0 where
  pub user_id : I32
  pub capture_id : I32
  pub illumination_id : I32
  pub position : I32
  pub name : Text
  pub entity_type : Text
  pub description : Option Text
  pub search_query : Option Text
  pub platform : Option Text
  pub platform_handle : Option Text
  pub platform_display_name : Option Text

pub record SearchIndexRow : Type 0 where
  pub user_id : I32
  pub capture_id : I32
  pub illumination_id : I32
  pub content : Text

pub record RawRow : Type 0 where
  pub user_id : I32
  pub capture_id : I32
  pub media_id : I32
  pub task_run_id : Text
  pub inference_meta_id : Option I32
  pub content : Text

-- src/llms/inference_metadata.rs
pub record InferenceMetadata : Type 0 where
  pub tokens_in : Option ℕ
  pub tokens_in_cached : Option ℕ
  pub tokens_out : Option ℕ
  pub tokens_thought : Option ℕ
  pub provider_name : Text
  pub backend_name : Text
  pub model_id : Text
  pub duration_ms : ℕ
  pub params : Text
  pub provider_metadata : Text

-- src/model/inference_meta.rs
pub record InferenceMetaRow : Type 0 where
  pub id : I32
  pub user_id : I32
  pub task_run_id : Option Text
  pub attempt : Option I32
  pub task_type : Option Text
  pub provider : Text
  pub backend : Text
  pub model : Text
  pub duration_ms : ℕ
  pub tokens_in : Option ℕ
  pub tokens_in_cached : Option ℕ
  pub tokens_out : Option ℕ
  pub tokens_thought : Option ℕ
  pub params : Text
  pub provider_metadata : Text

-- src/model/capture.rs
pub record CaptureRow : Type 0 where
  pub id : I32
  pub user_id : I32
  pub created_at : ℕ
  pub archived_at : Option ℕ

-- src/model/media.rs and src/model/annotation.rs, in the columns that deletions read.
pub record MediaRow : Type 0 where
  pub user_id : I32
  pub capture_id : I32

pub record AnnotationRow : Type 0 where
  pub user_id : I32
  pub capture_id : I32

pub record Tables : Type 0 where
  pub illuminations : List IlluminationRow
  pub knowledge_entities : List EntityRow
  pub search_index : List SearchIndexRow
  pub illumination_raws : List RawRow
  pub inference_metas : List InferenceMetaRow
  pub captures : List CaptureRow
  pub medias : List MediaRow
  pub annotations : List AnnotationRow

-- `next_id` and `next_meta_id` are the sequences of the ids of illuminations and of inference
-- metadata, which a rollback does not turn back; they end behind 2 ^ 31 - 1.
pub record Db : Type 0 where
  pub moments : ℕ → Moment
  pub tick : ℕ
  pub next_id : I32
  pub next_meta_id : I32
  pub tables : Tables

-- The effect of a statement; its error is the driver's message.
abbrev pub Body : Type 0 → Type 0
Body A = Text → Db → Result Text A × Db

unfoldable pub settle : {A : Type 0} → Fate → Text → Result Text A × Db → Db → Result Text A × Db
settle executed report done before = done
settle refused report done before = (err report, before)
settle unacknowledged report done before = (err report, done.1)

unfoldable pub ticked : Db → Db
ticked db = record db { tick = db.tick + 1 }

unfoldable pub failing : {A : Type 0} → Result Text A × Db → Result ApiError A × Db
unfolding internal
failing (r, db) = (map_err internal r, db)

unfoldable pub execute : {A : Type 0} → Body A → Exec Db ApiError A
unfolding settle ticked failing
execute body db =
    let m = db.moments db.tick in
    let before = ticked db in failing (settle m.fate m.report (body m.report before) before)

begin_body : Body (Unit {0})
begin_body report db = (ok tt, db)

-- `begin` changes nothing.
unfoldable pub begin : Exec Db ApiError (Unit {0})
unfolding execute begin_body
begin = execute begin_body

abbrev pub restored : Tables → Db → Db
restored start db = record db { tables = start }

-- The end of a transaction that began at `start`: an error drops it, which rolls it back, and a
-- refused commit does so as well.
pub conclude_by : {A : Type 0} → Tables → A → Fate → Text → Db → Result ApiError A × Db
unfolding internal
conclude_by start a executed report db = (ok a, db)
conclude_by start a refused report db = (err (internal report), restored start db)
conclude_by start a unacknowledged report db = (err (internal report), db)

unfoldable pub conclude : {A : Type 0} → Tables → Result ApiError A × Db → Result ApiError A × Db
unfolding conclude_by ticked
conclude start (err e, db) = (err e, restored start db)
conclude start (ok a, db) =
    let m = db.moments db.tick in conclude_by start a m.fate m.report (ticked db)

unfoldable pub in_transaction : {A : Type 0} → Exec Db ApiError A → Exec Db ApiError A
unfolding begin conclude
in_transaction body db = conclude db.tables ((begin >> body) db)
