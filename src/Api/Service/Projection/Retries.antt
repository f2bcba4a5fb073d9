-- ===== src/Api/Service/Projection/Retries.antt =====
-- A retry of a projection replaces what the first one stored.
use mathlib.Core.List.{append-nil}
use dreamscroll.Base.{
  ℕ, ◌+◌, ◌≡◌, refl, sym, ap, ◌∙◌, Option, List, [], ◌∷◌, ◌++◌, inl, inr, Bool-cases, eq→==, ◌==◌,
}
use dreamscroll.Base.Words.{I32}
use dreamscroll.Base.Text.{Text, text_eq, text_eq_refl}
use dreamscroll.Api.Service.Store.{IlluminationRow, EntityRow, SearchIndexRow, Tables, Db}
use dreamscroll.Api.Service.Store.Transactions.{Ends, Ends-ok}
use dreamscroll.Base.Results.{Result, ok, err}
use dreamscroll.Error.{ApiError}
use dreamscroll.Api.Service.Projection.{
  Entity, Illumination, CaptureInfo, updated_columns, upserted, find_run, entities_without,
  index_without, entity_row, illumination_row, index_row, insert_illumination_v2,
}
use dreamscroll.Api.Service.Projection.Refinement.{
  kept_id, entity_rows, projected, row_of, find_run-upserted, insert_illumination_v2-Ends,
}

entities_without-append :
    (id : I32) (rows more : List EntityRow)
    → entities_without id (rows ++ more) ≡ entities_without id rows ++ entities_without id more
unfolding entities_without
entities_without-append id [] more = refl
entities_without-append id (row ∷ rows) more = elim (Bool-cases (row.illumination_id == id)) [
  | inl own ↦ rw own (entities_without-append id rows more)
  | inr other ↦ rw other (ap (λ rs. row ∷ rs) (entities_without-append id rows more))
]

entities_without_twice :
    (id : I32) (rows : List EntityRow)
    → entities_without id (entities_without id rows) ≡ entities_without id rows
unfolding entities_without
entities_without_twice id [] = refl
entities_without_twice id (row ∷ rows) = elim (Bool-cases (row.illumination_id == id)) [
  | inl own ↦ rw own (entities_without_twice id rows)
  | inr other ↦ rw other (rw other (ap (λ rs. row ∷ rs) (entities_without_twice id rows)))
]

index_without-append :
    (id : I32) (rows more : List SearchIndexRow)
    → index_without id (rows ++ more) ≡ index_without id rows ++ index_without id more
unfolding index_without
index_without-append id [] more = refl
index_without-append id (row ∷ rows) more = elim (Bool-cases (row.illumination_id == id)) [
  | inl own ↦ rw own (index_without-append id rows more)
  | inr other ↦ rw other (ap (λ rs. row ∷ rs) (index_without-append id rows more))
]

index_without_twice :
    (id : I32) (rows : List SearchIndexRow)
    → index_without id (index_without id rows) ≡ index_without id rows
unfolding index_without
index_without_twice id [] = refl
index_without_twice id (row ∷ rows) = elim (Bool-cases (row.illumination_id == id)) [
  | inl own ↦ rw own (index_without_twice id rows)
  | inr other ↦ rw other (rw other (ap (λ rs. row ∷ rs) (index_without_twice id rows)))
]

-- A transaction that would change nothing changes nothing.
Ends-same :
    (start final : Tables) (x : Result ApiError (Unit {0}) × Db)
    → Ends start final x
    → final ≡ start
    → x.1.tables ≡ start
Ends-same start final (ok a, db) ends h = ends ∙ h
Ends-same start final (err e, db) (inl before) h = before
Ends-same start final (err e, db) (inr after) h = after ∙ h

-- An upsert of the same columns, at whatever id, changes nothing more.
upserted_twice :
    (new : IlluminationRow) (id : I32) (rows : List IlluminationRow)
    → upserted (record new { id = id }) (upserted new rows) ≡ upserted new rows
unfolding upserted updated_columns
upserted_twice new id [] = rw (text_eq_refl new.task_run_id) refl
upserted_twice new id (old ∷ rows) = elim (Bool-cases (text_eq old.task_run_id new.task_run_id)) [
  | inl same ↦ rw same (rw same refl)
  | inr other ↦ rw other (rw other (ap (λ rs. old ∷ rs) (upserted_twice new id rows)))
]

module _ (capture : CaptureInfo) where
  entity_rows-gone :
      (id : I32) (entities : List Entity) (position : ℕ)
      → entities_without id (entity_rows capture id position entities) ≡ []
  unfolding entities_without entity_rows entity_row
  entity_rows-gone id [] position = refl
  entity_rows-gone id (entity ∷ entities) position =
      rw (eq→== id id refl) (entity_rows-gone id entities (position + 1))

  entities_again :
      (id : I32) (entities : List Entity) (rows : List EntityRow)
      → entities_without id (entities_without id rows ++ entity_rows capture id 0 entities)
        ≡ entities_without id rows
  entities_again id entities rows =
      entities_without-append id (entities_without id rows) (entity_rows capture id 0 entities)
      ∙ rw (entity_rows-gone id entities 0) (
          append-nil (entities_without id (entities_without id rows))
          ∙ entities_without_twice id rows)

  module _ (to_markdown : Illumination → Text) (task_run_id : Text) (inference_meta_id : Option I32)
      (illumination : Illumination) where
    index_again :
        (id : I32) (rows : List SearchIndexRow)
        → index_without id (
            index_without id rows
            ++ index_row capture to_markdown task_run_id inference_meta_id illumination id ∷ [])
          ≡ index_without id rows
    unfolding index_without index_row
    index_again id rows =
        index_without-append id (index_without id rows)
          (index_row capture to_markdown task_run_id inference_meta_id illumination id ∷ [])
        ∙ rw (eq→== id id refl)
            (append-nil (index_without id (index_without id rows)) ∙ index_without_twice id rows)

    kept_again :
        (next_id again : I32) (t : Tables)
        → kept_id again (
            find_run task_run_id (
              upserted
                (row_of capture to_markdown task_run_id inference_meta_id illumination next_id)
                t.illuminations))
          ≡ kept_id next_id (find_run task_run_id t.illuminations)
    unfolding kept_id illumination_row
    kept_again next_id again t =
        let new = row_of capture to_markdown task_run_id inference_meta_id illumination next_id in
        let (r, there, id) = find_run-upserted new t.illuminations in ap (kept_id again) there ∙ id

    projected_twice :
        (next_id again : I32) (t : Tables)
        → projected capture to_markdown task_run_id inference_meta_id illumination again
            (projected capture to_markdown task_run_id inference_meta_id illumination next_id t)
          ≡ projected capture to_markdown task_run_id inference_meta_id illumination next_id t
    unfolding projected illumination_row
    projected_twice next_id again t =
        let id = kept_id next_id (find_run task_run_id t.illuminations) in
        let new = row_of capture to_markdown task_run_id inference_meta_id illumination next_id in
        let p = upserted_twice new again t.illuminations in
        let q = entities_again id illumination.entities t.knowledge_entities in
        let r = index_again id t.search_index in rw (kept_again next_id again t) (rw (p, q, r) refl)

    -- A projection that succeeded leaves its tables to a retry: with the same illumination, whether
    -- the retry succeeds or fails at any statement, no row is added, changed or lost.
    pub insert_illumination_v2-retry :
        (db : Db)
        → (insert_illumination_v2 capture to_markdown task_run_id inference_meta_id illumination
            db).0
          ≡ ok tt
        → let first =
            (insert_illumination_v2 capture to_markdown task_run_id inference_meta_id illumination
              db).1 in
          (insert_illumination_v2 capture to_markdown task_run_id inference_meta_id illumination
            first).1.tables
          ≡ first.tables
    insert_illumination_v2-retry db h =
        let inserts =
          insert_illumination_v2 capture to_markdown task_run_id inference_meta_id illumination in
        let ends =
          insert_illumination_v2-Ends capture to_markdown task_run_id inference_meta_id
            illumination in
        let first = (inserts db).1 in
        let stored = Ends-ok _ _ (inserts db) (ends db) h in
        Ends-same _ _ (inserts first) (ends first) (
          ap
            (projected capture to_markdown task_run_id inference_meta_id illumination first.next_id)
            stored
          ∙ projected_twice db.next_id first.next_id db.tables
          ∙ sym stored)
