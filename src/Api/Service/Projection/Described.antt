-- ===== src/Api/Service/Projection/Described.antt =====
-- What the rows of an illumination are to be, column by column, beside the functions that make them
-- for src/api/service/insert_illumination.rs.
use mathlib.Core.Path.{subst}
use dreamscroll.Base.{
  ℕ, ◌+◌, ◌%◌, ◌≡◌, refl, sym, ap, ◌∙◌, false, Option, none, some, List, [], ◌∷◌, ◌++◌, inl, inr,
  Bool-cases, ◌==◌, ==→eq, eq→==, true≢false,
}
use dreamscroll.Base.Words.{I32}
use dreamscroll.Base.Text.{Text, text_eq, text_eq_refl, text_eq→eq}
use dreamscroll.Api.Service.Store.{IlluminationRow, EntityRow, SearchIndexRow, Tables, Db}
use dreamscroll.Api.Service.Store.Transactions.{Ends}
use dreamscroll.Api.Service.Projection.{
  PlatformLink, Entity, Illumination, CaptureInfo, updated_columns, upserted, find_run,
  entities_without, index_without, entity_row, illumination_row, index_row, insert_illumination_v2,
}
use dreamscroll.Api.Service.Projection.Refinement.{
  kept_id, entity_rows, row_of, projected, insert_illumination_v2-Ends,
}

-- A list without the items of a kind, the others in their order.
pub data Drops {A : Type 0} (Gone : A → Type 0) : List A → List A → Type 0 where
  ends : Drops Gone [] []
  drops : (x : A) {xs ys : List A} → Gone x → Drops Gone xs ys → Drops Gone (x ∷ xs) ys
  keeps : (x : A) {xs ys : List A} → ¬ Gone x → Drops Gone xs ys → Drops Gone (x ∷ xs) (x ∷ ys)

-- The rows of illuminations with `row id` as the first one of the run: in the place of the row that
-- the run has, under its id, or at the end, under the next id.
pub data Upserts (run_id : Text) (row : I32 → IlluminationRow) (next_id : I32)
    : I32 → List IlluminationRow → List IlluminationRow → Type 0 where
  appends : Upserts run_id row next_id next_id [] (row next_id ∷ [])
  replaces :
      (old : IlluminationRow) (rows : List IlluminationRow)
      → old.task_run_id ≡ run_id
      → Upserts run_id row next_id old.id (old ∷ rows) (row old.id ∷ rows)
  passes :
      (old : IlluminationRow) {id : I32} {rows after : List IlluminationRow}
      → ¬ (old.task_run_id ≡ run_id)
      → Upserts run_id row next_id id rows after
      → Upserts run_id row next_id id (old ∷ rows) (old ∷ after)

-- The columns of a platform link: the platform, the handle and the display name.
abbrev pub columns_of : Option PlatformLink → Option Text × Option Text × Option Text
columns_of none = (none, none, none)
columns_of (some link) = (some link.platform, link.handle, link.display_name)

module _ (capture : CaptureInfo) where
  abbrev pub described_entity : I32 → ℕ → Entity → EntityRow
  described_entity illumination_id position entity =
      let columns = columns_of entity.platform_link in
      record {
        user_id = capture.user_id;
        capture_id = capture.id;
        illumination_id = illumination_id;
        position = position % 4294967296;
        name = entity.name;
        entity_type = entity.entity_type;
        description = entity.description;
        search_query = entity.search_query;
        platform = columns.0;
        platform_handle = columns.1;
        platform_display_name = columns.2;
      }

  -- The rows of entities, at positions from the given one on.
  pub data Describes (illumination_id : I32) : ℕ → List Entity → List EntityRow → Type 0 where
    nothing : {position : ℕ} → Describes illumination_id position [] []
    one_more :
        {position : ℕ} (entity : Entity) {entities : List Entity} {rows : List EntityRow}
        → Describes illumination_id (position + 1) entities rows
        → Describes illumination_id position
            (entity ∷ entities)
            (described_entity illumination_id position entity ∷ rows)

  entity_row-described :
      (illumination_id : I32) (position : ℕ) (entity : Entity) (link : Option PlatformLink)
      → entity_row capture illumination_id position (record entity { platform_link = link })
        ≡ described_entity illumination_id position (record entity { platform_link = link })
  unfolding entity_row
  entity_row-described illumination_id position entity none = refl
  entity_row-described illumination_id position entity (some link) = refl

  entity_rows-Describes :
      (illumination_id : I32) (position : ℕ) (entities : List Entity)
      → Describes illumination_id position entities
          (entity_rows capture illumination_id position entities)
  unfolding entity_rows
  entity_rows-Describes illumination_id position [] = nothing
  entity_rows-Describes illumination_id position (entity ∷ entities) =
      subst
        (λ row.
          Describes illumination_id position (entity ∷ entities)
            (row ∷ entity_rows capture illumination_id (position + 1) entities))
        (sym (entity_row-described illumination_id position entity entity.platform_link))
        (one_more entity (entity_rows-Describes illumination_id (position + 1) entities))

not_id : (a b : I32) → (a == b) ≡ false → ¬ (a ≡ b)
not_id a b other e = absurd (true≢false (eq→== a b e) other)

entities_without-Drops :
    (id : I32) (rows : List EntityRow)
    → Drops (λ (r : EntityRow). r.illumination_id ≡ id) rows (entities_without id rows)
unfolding entities_without
entities_without-Drops id [] = ends
entities_without-Drops id (row ∷ rows) = elim (Bool-cases (row.illumination_id == id)) [
  | inl own ↦ rw own (drops row (==→eq row.illumination_id id own) (entities_without-Drops id rows))
  | inr other ↦
      rw other (keeps row (not_id row.illumination_id id other) (entities_without-Drops id rows))
]

index_without-Drops :
    (id : I32) (rows : List SearchIndexRow)
    → Drops (λ (r : SearchIndexRow). r.illumination_id ≡ id) rows (index_without id rows)
unfolding index_without
index_without-Drops id [] = ends
index_without-Drops id (row ∷ rows) = elim (Bool-cases (row.illumination_id == id)) [
  | inl own ↦ rw own (drops row (==→eq row.illumination_id id own) (index_without-Drops id rows))
  | inr other ↦
      rw other (keeps row (not_id row.illumination_id id other) (index_without-Drops id rows))
]

module _ (capture : CaptureInfo) (to_markdown : Illumination → Text) (task_run_id : Text)
    (inference_meta_id : Option I32) (illumination : Illumination) where
  abbrev pub described_illumination : I32 → IlluminationRow
  described_illumination id = record {
    id = id;
    user_id = capture.user_id;
    capture_id = capture.id;
    task_run_id = task_run_id;
    inference_meta_id = inference_meta_id;
    summary = illumination.summary;
    details = illumination.details;
    suggested_searches = some illumination.suggested_searches;
  }

  -- `t` is `s` with the illumination as the row of the run, with the entities and the search text of
  -- the illumination as all that there is for this row, and with nothing else changed.
  pub record IsProjection (next_id : I32) (s t : Tables) : Type 0 where
    pub id : I32
    pub illuminations :
        Upserts task_run_id described_illumination next_id id s.illuminations t.illuminations
    pub other_entities : List EntityRow
    pub drops_entities :
        Drops (λ (r : EntityRow). r.illumination_id ≡ id) s.knowledge_entities other_entities
    pub new_entities : List EntityRow
    pub describes_entities : Describes capture id 0 illumination.entities new_entities
    pub entities : t.knowledge_entities ≡ other_entities ++ new_entities
    pub other_index : List SearchIndexRow
    pub drops_index :
        Drops (λ (r : SearchIndexRow). r.illumination_id ≡ id) s.search_index other_index
    pub index :
        t.search_index
        ≡ other_index
          ++ record {
            user_id = capture.user_id;
            capture_id = capture.id;
            illumination_id = id;
            content = to_markdown illumination;
          }
            ∷ []
    pub raws : t.illumination_raws ≡ s.illumination_raws
    pub metas : t.inference_metas ≡ s.inference_metas
    pub captures : t.captures ≡ s.captures
    pub medias : t.medias ≡ s.medias
    pub annotations : t.annotations ≡ s.annotations

  abbrev new_row : I32 → IlluminationRow
  new_row = row_of capture to_markdown task_run_id inference_meta_id illumination

  updated_columns-described :
      (next_id : I32) (old : IlluminationRow)
      → old.task_run_id ≡ task_run_id
      → updated_columns (new_row next_id) old ≡ described_illumination old.id
  unfolding updated_columns illumination_row
  updated_columns-described next_id old same =
      ap (λ run_id. record (described_illumination old.id) { task_run_id = run_id }) same

  upserted-Upserts :
      (next_id : I32) (rows : List IlluminationRow)
      → Upserts task_run_id described_illumination next_id
          (kept_id next_id (find_run task_run_id rows))
          rows
          (upserted (new_row next_id) rows)
  unfolding upserted find_run kept_id illumination_row
  upserted-Upserts next_id [] = appends
  upserted-Upserts next_id (old ∷ rows) = elim (Bool-cases (text_eq old.task_run_id task_run_id)) [
    | inl e ↦ rw e (
        let same = text_eq→eq old.task_run_id task_run_id e in
        subst
          (λ row.
            Upserts task_run_id described_illumination next_id old.id (old ∷ rows) (row ∷ rows))
          (sym (updated_columns-described next_id old same)) (replaces old rows same))
    | inr e ↦ rw e (
        passes old
          (λ same. absurd (
            true≢false (ap (λ run_id. text_eq run_id task_run_id) same ∙ text_eq_refl task_run_id)
              e))
          (upserted-Upserts next_id rows))
  ]

  pub projected-IsProjection :
      (next_id : I32) (t : Tables)
      → IsProjection next_id t
          (projected capture to_markdown task_run_id inference_meta_id illumination next_id t)
  unfolding projected index_row
  projected-IsProjection next_id t =
      let id = kept_id next_id (find_run task_run_id t.illuminations) in
      record {
        id = id;
        illuminations = upserted-Upserts next_id t.illuminations;
        other_entities = entities_without id t.knowledge_entities;
        drops_entities = entities_without-Drops id t.knowledge_entities;
        new_entities = entity_rows capture id 0 illumination.entities;
        describes_entities = entity_rows-Describes capture id 0 illumination.entities;
        entities = refl;
        other_index = index_without id t.search_index;
        drops_index = index_without-Drops id t.search_index;
        index = refl;
        raws = refl;
        metas = refl;
        captures = refl;
        medias = refl;
        annotations = refl;
      }

  -- The insertion of an illumination succeeds and leaves its projection: the row of the run, under the
  -- id that it had or under the next id, has the illumination's columns; the entities and the search
  -- text of this row are those of the illumination, in its order, and all other rows stay. Or the
  -- insertion fails, and the tables are as they were, or all of this was done, where the commit's
  -- answer was lost.
  pub insert_illumination_v2-IsProjection :
      (db : Db)
      → (final : Tables) × IsProjection db.next_id db.tables final
        × Ends db.tables final (
            insert_illumination_v2 capture to_markdown task_run_id inference_meta_id illumination
              db)
  insert_illumination_v2-IsProjection db = (
    projected capture to_markdown task_run_id inference_meta_id illumination db.next_id db.tables,
    projected-IsProjection db.next_id db.tables,
    insert_illumination_v2-Ends capture to_markdown task_run_id inference_meta_id illumination db,
  )
