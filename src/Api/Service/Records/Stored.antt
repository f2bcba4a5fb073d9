-- ===== src/Api/Service/Records/Stored.antt =====
-- What the raw result of a run is after its insertion, and what recording an inference leaves.
use mathlib.Core.Path.{subst}
use dreamscroll.Base.{
  ◌≡◌, refl, sym, ap, Option, none, some, List, [], ◌∷◌, inl, inr, Bool-cases, leb, if◌then◌else◌,
}
use dreamscroll.Base.Words.{I32}
use dreamscroll.Base.Text.{Text, text_eq, text_eq_refl, text_eq→eq}
use dreamscroll.Base.Results.{Result, ok, err, raise}
use dreamscroll.Task.Database.{Fate, executed, refused, unacknowledged}
use dreamscroll.Api.Service.Store.{
  RawRow, InferenceMetadata, InferenceMetaRow, Tables, Db, ticked, execute, settle, failing,
}
use dreamscroll.Api.Service.Store.Transactions.{execute-ok}
use dreamscroll.Api.Service.Projection.{CaptureInfo}
use dreamscroll.Api.Service.Records.{
  upserted_raw, upsert_raw_body, raw_row, insert_raw, insert_illumination_raw, insert_meta_body,
  meta_row, recorded_id, record_inference,
}

unfoldable pub find_raw : Text → List RawRow → Option RawRow
find_raw task_run_id [] = none
find_raw task_run_id (row ∷ rows) =
    let rest = find_raw task_run_id rows in
    if text_eq row.task_run_id task_run_id then some row else rest

find_raw-upserted_raw :
    (row : RawRow) (rows : List RawRow)
    → find_raw row.task_run_id (upserted_raw row rows) ≡ some row
unfolding find_raw upserted_raw
find_raw-upserted_raw row [] = rw (text_eq_refl row.task_run_id) refl
find_raw-upserted_raw row (old ∷ rows) =
    elim (Bool-cases (text_eq old.task_run_id row.task_run_id)) [
      | inl same ↦ rw same (
          rw same (
            ap (λ id. some (record row { task_run_id = id }))
              (text_eq→eq old.task_run_id row.task_run_id same)))
      | inr other ↦ rw other (rw other (find_raw-upserted_raw row rows))
    ]

-- The tables that the projection of an illumination writes.
pub record SameProjection (s t : Tables) : Type 0 where
  pub illuminations : s.illuminations ≡ t.illuminations
  pub entities : s.knowledge_entities ≡ t.knowledge_entities
  pub index : s.search_index ≡ t.search_index

module _ (capture : CaptureInfo) (task_run_id : Text) (inference_meta_id : Option I32)
    (raw : Text) where
  -- The row of the raw result, column by column.
  abbrev pub described_raw : I32 → RawRow
  described_raw media_id = record {
    user_id = capture.user_id;
    capture_id = capture.id;
    media_id = media_id;
    task_run_id = task_run_id;
    inference_meta_id = inference_meta_id;
    content = raw;
  }

  -- The raw result of the run is the given one, of the first media, and no other table changed.
  pub record IsStored (media_id : I32) (s t : Tables) : Type 0 where
    pub raw_is : find_raw task_run_id t.illumination_raws ≡ some (described_raw media_id)
    pub others : SameProjection t s

  insert_raw-IsStored :
      (medias : List I32) (db : Db)
      → (insert_raw capture task_run_id inference_meta_id raw medias db).0 ≡ ok tt
      → (media_id : I32) × (others : List I32) × (medias ≡ media_id ∷ others)
        × IsStored media_id db.tables
            (insert_raw capture task_run_id inference_meta_id raw medias db).1.tables
  unfolding insert_raw raise upsert_raw_body raw_row ticked
  insert_raw-IsStored [] db h = cc
  insert_raw-IsStored (media_id ∷ medias) db h =
      let row = raw_row capture task_run_id inference_meta_id raw media_id in
      let (done, same) = execute-ok (upsert_raw_body row) db tt h in
      (
        media_id,
        medias,
        refl,
        subst (IsStored media_id db.tables) (sym (ap (λ d. d.tables) same)) (record {
          raw_is = find_raw-upserted_raw row db.tables.illumination_raws;
          others = record { illuminations = refl; entities = refl; index = refl };
        }),
      )

  pub insert_illumination_raw-IsStored :
      (db : Db)
      → (insert_illumination_raw capture task_run_id inference_meta_id raw db).0 ≡ ok tt
      → (media_id : I32) × (others : List I32) × (capture.medias ≡ media_id ∷ others)
        × IsStored media_id db.tables
            (insert_illumination_raw capture task_run_id inference_meta_id raw db).1.tables
  unfolding insert_illumination_raw
  insert_illumination_raw-IsStored = insert_raw-IsStored capture.medias

same_tables : {s t : Tables} → s ≡ t → SameProjection s t
same_tables h = record {
  illuminations = ap (λ t. t.illuminations) h;
  entities = ap (λ t. t.knowledge_entities) h;
  index = ap (λ t. t.search_index) h;
}

insert_meta_body-SameProjection :
    (row : I32 → InferenceMetaRow) (report : Text) (db : Db)
    → SameProjection (insert_meta_body row report db).1.tables db.tables
unfolding insert_meta_body
insert_meta_body-SameProjection row report db = elim (Bool-cases (leb 2147483648 db.next_meta_id)) [
  | inl spent ↦ rw spent (same_tables refl)
  | inr free ↦ rw free (record { illuminations = refl; entities = refl; index = refl })
]

recorded_id-keeps : (x : Result Text I32 × Db) → (recorded_id (failing x)).1 ≡ x.1
unfolding recorded_id failing
recorded_id-keeps (ok id, db) = refl
recorded_id-keeps (err report, db) = refl

insert_meta-SameProjection :
    (row : I32 → InferenceMetaRow) (fate : Fate) (report : Text) (db : Db)
    → SameProjection
        (recorded_id (failing (settle fate report (insert_meta_body row report db) db))).1.tables
        db.tables
unfolding settle
insert_meta-SameProjection row fate report db =
    subst (λ d. SameProjection d.tables db.tables)
      (sym (recorded_id-keeps (settle fate report (insert_meta_body row report db) db)))
      (settled fate)
  where
    settled :
        (fate : Fate)
        → SameProjection (settle fate report (insert_meta_body row report db) db).1.tables db.tables
    settled executed = insert_meta_body-SameProjection row report db
    settled refused = same_tables refl
    settled unacknowledged = insert_meta_body-SameProjection row report db

-- Recording an inference touches neither projections nor, whatever happens, the caller's course.
pub record_inference-SameProjection :
    (user_id : I32) (task_run_id : Text) (attempt : I32) (task_type : Text)
    (metadata : InferenceMetadata) (db : Db)
    → SameProjection
        (record_inference user_id task_run_id attempt task_type metadata db).1.tables
        db.tables
unfolding record_inference execute ticked
record_inference-SameProjection user_id task_run_id attempt task_type metadata db =
    let m = db.moments db.tick in
    insert_meta-SameProjection (meta_row user_id task_run_id attempt task_type metadata) m.fate
      m.report (ticked db)
