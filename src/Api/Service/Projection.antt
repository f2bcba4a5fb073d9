-- ===== src/Api/Service/Projection.antt =====
-- src/api/service/insert_illumination.rs: the projection of an illumination into the relational
-- tables, and the raw results. The Markdown of src/illumination/v2/types.rs and the names of entity
-- types and platforms are parameters.
pub mod Refinement
pub mod Retries
pub mod Described
pub mod Answers
use dreamscroll.Base.{
  ℕ, ◌+◌, ◌%◌, Bool, true, false, not, ◌&&◌, Option, none, some, List, [], ◌∷◌, ◌++◌, ◌==◌,
  if◌then◌else◌, leb,
}
use dreamscroll.Base.Words.{I32}
use dreamscroll.Base.Text.{Text, codes, text_eq}
use dreamscroll.Base.Results.{Result, ok, err, Exec, pure, raise, ◌>>=◌, ◌>>◌}
use dreamscroll.Error.{ApiError, internal}
use dreamscroll.Api.Service.Store.{
  IlluminationRow, EntityRow, SearchIndexRow, RawRow, Tables, Db, Body, execute, in_transaction,
}

-- src/illumination/v2/types.rs
pub record PlatformLink : Type 0 where
  pub platform : Text
  pub display_name : Option Text
  pub handle : Option Text
  pub url : Option Text

pub record Entity : Type 0 where
  pub name : Text
  pub search_query : Option Text
  pub description : Option Text
  pub entity_type : Text
  pub platform_link : Option PlatformLink

pub record Illumination : Type 0 where
  pub summary : Text
  pub details : Text
  pub suggested_searches : List Text
  pub entities : List Entity
  pub raw_json : Text

-- What is read of a `CaptureInfo`.
pub record CaptureInfo : Type 0 where
  pub id : I32
  pub user_id : I32
  pub medias : List I32

platform_of : Option PlatformLink → Option Text
platform_of none = none
platform_of (some link) = some link.platform

handle_of : Option PlatformLink → Option Text
handle_of none = none
handle_of (some link) = link.handle

display_name_of : Option PlatformLink → Option Text
display_name_of none = none
display_name_of (some link) = link.display_name

-- `ON CONFLICT (task_run_id) DO UPDATE`: the columns of `new` without its id.
unfoldable pub updated_columns : IlluminationRow → IlluminationRow → IlluminationRow
updated_columns new old = record new { id = old.id; task_run_id = old.task_run_id }

unfoldable pub upserted : IlluminationRow → List IlluminationRow → List IlluminationRow
unfolding updated_columns
upserted new [] = new ∷ []
upserted new (old ∷ rows) =
    let rest = upserted new rows in
    if text_eq old.task_run_id new.task_run_id then updated_columns new old ∷ rows else old ∷ rest

unfoldable pub find_run : Text → List IlluminationRow → Option IlluminationRow
find_run task_run_id [] = none
find_run task_run_id (row ∷ rows) =
    let rest = find_run task_run_id rows in
    if text_eq row.task_run_id task_run_id then some row else rest

unfoldable pub entities_without : I32 → List EntityRow → List EntityRow
entities_without illumination_id [] = []
entities_without illumination_id (row ∷ rows) =
    let rest = entities_without illumination_id rows in
    if row.illumination_id == illumination_id then rest else row ∷ rest

unfoldable pub index_without : I32 → List SearchIndexRow → List SearchIndexRow
index_without illumination_id [] = []
index_without illumination_id (row ∷ rows) =
    let rest = index_without illumination_id rows in
    if row.illumination_id == illumination_id then rest else row ∷ rest

-- The unique key `knowledge_entity_position`.
unfoldable pub is_taken : I32 → I32 → List EntityRow → Bool
is_taken illumination_id position [] = false
is_taken illumination_id position (row ∷ rows) =
    let rest = is_taken illumination_id position rows in
    if row.illumination_id == illumination_id && row.position == position then true else rest

-- An id is drawn also where the run has a row; a sequence at its end fails the statement.
pub upsert_body : (I32 → IlluminationRow) → Body (Unit {0})
unfolding upserted
upsert_body row report db = if leb 2147483648 db.next_id then (err report, db) else (
  ok tt,
  record db {
    next_id = db.next_id + 1;
    tables = record db.tables { illuminations = upserted (row db.next_id) db.tables.illuminations };
  },
)

pub find_body : Text → Body (Option IlluminationRow)
unfolding find_run
find_body task_run_id report db = (ok (find_run task_run_id db.tables.illuminations), db)

pub delete_entities_body : I32 → Body (Unit {0})
unfolding entities_without
delete_entities_body id report db = (
  ok tt,
  record db {
    tables = record db.tables {
      knowledge_entities = entities_without id db.tables.knowledge_entities;
    };
  },
)

pub delete_index_body : I32 → Body (Unit {0})
unfolding index_without
delete_index_body id report db = (
  ok tt,
  record db {
    tables = record db.tables { search_index = index_without id db.tables.search_index };
  },
)

pub insert_entity_body : EntityRow → Body (Unit {0})
unfolding is_taken
insert_entity_body row report db =
    if is_taken row.illumination_id row.position db.tables.knowledge_entities
    then (err report, db)
    else (
      ok tt,
      record db {
        tables = record db.tables { knowledge_entities = db.tables.knowledge_entities ++ row ∷ [] };
      },
    )

pub insert_index_body : SearchIndexRow → Body (Unit {0})
insert_index_body row report db = (
  ok tt,
  record db { tables = record db.tables { search_index = db.tables.search_index ++ row ∷ [] } },
)

module _ (capture : CaptureInfo) where
  unfoldable pub entity_row : I32 → ℕ → Entity → EntityRow
  unfolding platform_of handle_of display_name_of
  entity_row illumination_id position entity = record {
    user_id = capture.user_id;
    capture_id = capture.id;
    illumination_id = illumination_id;
    position = position % 4294967296;
    name = entity.name;
    entity_type = entity.entity_type;
    description = entity.description;
    search_query = entity.search_query;
    platform = platform_of entity.platform_link;
    platform_handle = handle_of entity.platform_link;
    platform_display_name = display_name_of entity.platform_link;
  }

  -- The loop over the entities, from a position on.
  unfoldable pub insert_entities : I32 → ℕ → List Entity → Exec Db ApiError (Unit {0})
  unfolding execute insert_entity_body entity_row pure
  insert_entities illumination_id position [] = pure tt
  insert_entities illumination_id position (entity ∷ entities) = do
    execute (insert_entity_body (entity_row illumination_id position entity))
    insert_entities illumination_id (position + 1) entities

  module _ (to_markdown : Illumination → Text) (task_run_id : Text) (inference_meta_id : Option I32)
      (illumination : Illumination) where
    unfoldable pub illumination_row : I32 → IlluminationRow
    illumination_row id = record {
      id = id;
      user_id = capture.user_id;
      capture_id = capture.id;
      task_run_id = task_run_id;
      inference_meta_id = inference_meta_id;
      summary = illumination.summary;
      details = illumination.details;
      suggested_searches = some illumination.suggested_searches;
    }

    unfoldable pub index_row : I32 → SearchIndexRow
    index_row illumination_id = record {
      user_id = capture.user_id;
      capture_id = capture.id;
      illumination_id = illumination_id;
      content = to_markdown illumination;
    }

    -- The statements behind the upsert, from the row that was found.
    pub replace_rows : Option IlluminationRow → Exec Db ApiError (Unit {0})
    unfolding insert_entities index_row execute delete_entities_body delete_index_body
        insert_index_body internal raise
    replace_rows none = raise (internal (codes "Illumination upsert returned no row"))
    replace_rows (some row) = do
      execute (delete_entities_body row.id)
      execute (delete_index_body row.id)
      insert_entities row.id 0 illumination.entities
      execute (insert_index_body (index_row row.id))

    pub project : Exec Db ApiError (Unit {0})
    unfolding replace_rows illumination_row execute upsert_body find_body
    project = do
      execute (upsert_body illumination_row)
      row ← execute (find_body task_run_id)
      replace_rows row

    unfoldable pub insert_illumination_v2 : Exec Db ApiError (Unit {0})
    unfolding project in_transaction
    insert_illumination_v2 = in_transaction project
