-- ===== src/Api/Service/Projection/Answers.antt =====
-- `insert_illumination_v2` on a database that executes every statement.
use dreamscroll.Base.{
  ℕ, ◌+◌, ◌%◌, ◌≤◌, ◌<◌, ◌≡◌, refl, ap, ◌∙◌, ◌⊎◌, inl, inr, false, Bool-cases, Option, some, List,
  [], ◌∷◌, ◌++◌, length, ◌==◌, leb, All, arith,
}
use dreamscroll.Base.Words.{I32}
use dreamscroll.Base.Text.{Text}
use dreamscroll.Base.Results.{ok, pure, ◌>>=◌, ◌>>◌}
use dreamscroll.Api.Service.Store.{EntityRow, IlluminationRow, Db, ticked, execute}
use dreamscroll.Api.Service.Store.Executed.{
  IsCalmDb, execute-does, Does, then-Does, in_transaction-Does,
}
use dreamscroll.Api.Service.Projection.{
  Entity, Illumination, CaptureInfo, upserted, entities_without, is_taken, upsert_body, find_body,
  delete_entities_body, delete_index_body, insert_entity_body, insert_index_body, entity_row,
  insert_entities, illumination_row, index_row, replace_rows, project, insert_illumination_v2,
}
use dreamscroll.Api.Service.Projection.Refinement.{find_run-upserted}

-- No entity of an illumination stands at a position from `p` on.
IsFree : I32 → ℕ → List EntityRow → Type 0
IsFree id p = All (λ (r : EntityRow). ((r.illumination_id == id) ≡ false) ⊎ (r.position < p))

is_taken-IsFree : (id p : ℕ) (rows : List EntityRow) → IsFree id p rows → is_taken id p rows ≡ false
unfolding is_taken IsFree
is_taken-IsFree id p [] h = refl
is_taken-IsFree id p (r ∷ rows) (inl other, h) = rw other (is_taken-IsFree id p rows h)
is_taken-IsFree id p (r ∷ rows) (inr low, h) =
    let apart : (r.position == p) ≡ false = ground arith in
    elim (Bool-cases (r.illumination_id == id)) [
      | inl own ↦ rw own (rw apart (is_taken-IsFree id p rows h))
      | inr other ↦ rw other (is_taken-IsFree id p rows h)
    ]

entities_without-IsFree :
    (id : I32) (rows : List EntityRow) → IsFree id 0 (entities_without id rows)
unfolding entities_without IsFree
entities_without-IsFree id [] = tt
entities_without-IsFree id (r ∷ rows) = elim (Bool-cases (r.illumination_id == id)) [
  | inl own ↦ rw own (entities_without-IsFree id rows)
  | inr other ↦ rw other (inl other, entities_without-IsFree id rows)
]

IsFree-append :
    (id p : ℕ) (row : EntityRow) (rows : List EntityRow)
    → row.position ≤ p
    → IsFree id p rows
    → IsFree id (p + 1) (rows ++ row ∷ [])
unfolding IsFree
IsFree-append id p row [] at h = (inr (omega arith), tt)
IsFree-append id p row (r ∷ rows) at (inl other, h) = (inl other, IsFree-append id p row rows at h)
IsFree-append id p row (r ∷ rows) at (inr low, h) =
    (inr (omega arith), IsFree-append id p row rows at h)

insert_entity-does :
    (row : EntityRow) (db : Db)
    → IsCalmDb db
    → is_taken row.illumination_id row.position db.tables.knowledge_entities ≡ false
    → execute (insert_entity_body row) db ≡ (
      ok tt,
      record (ticked db) {
        tables = record db.tables { knowledge_entities = db.tables.knowledge_entities ++ row ∷ [] };
      },
    )
unfolding insert_entity_body ticked
insert_entity-does row db calm free =
    execute-does (insert_entity_body row) db tt _ calm (rw free refl)

module _ (capture : CaptureInfo) where
  insert_entities-Does :
      (id : I32) (entities : List Entity) (p : ℕ) (db : Db)
      → p + length entities ≤ 4294967296
      → IsFree id p db.tables.knowledge_entities
      → IsCalmDb db
      → Does (insert_entities capture id p entities) db
  unfolding insert_entities Does pure entity_row ticked
  insert_entities-Does id [] p db small free calm = (db, refl, calm)
  insert_entities-Does id (entity ∷ entities) p db small free calm =
      let row = entity_row capture id p entity in
      let rows = db.tables.knowledge_entities in
      let at : p % 4294967296 ≡ p = omega arith in
      let after = record (ticked db) {
        tables = record db.tables { knowledge_entities = rows ++ row ∷ [] };
      } in
      let not_taken : is_taken id (p % 4294967296) rows ≡ false =
        ap (λ q. is_taken id q rows) at ∙ is_taken-IsFree id p rows free in
      then-Does (execute (insert_entity_body row))
        (λ _. insert_entities capture id (p + 1) entities) db tt after
        (insert_entity-does row db calm not_taken)
        (insert_entities-Does id entities (p + 1) after (omega arith)
          (IsFree-append id p row rows (omega arith) free) calm)

  module _ (to_markdown : Illumination → Text) (task_run_id : Text) (inference_meta_id : Option I32)
      (illumination : Illumination) where
    replace_rows-Does :
        (row : IlluminationRow) (db : Db)
        → length illumination.entities ≤ 4294967296
        → IsCalmDb db
        → Does
            (replace_rows capture to_markdown task_run_id inference_meta_id illumination (some row))
            db
    unfolding replace_rows delete_entities_body delete_index_body insert_index_body ticked Does
    replace_rows-Does row db small calm =
        let index =
          index_row capture to_markdown task_run_id inference_meta_id illumination row.id in
        let drop_entities = execute (delete_entities_body row.id) in
        let drop_index = execute (delete_index_body row.id) in
        let loop = insert_entities capture row.id 0 illumination.entities in
        let last = execute (insert_index_body index) in
        let e1 = execute-does (delete_entities_body row.id) db tt _ calm refl in
        let db1 = (delete_entities_body row.id (db.moments db.tick).report (ticked db)).1 in
        let e2 = execute-does (delete_index_body row.id) db1 tt _ calm refl in
        let db2 = (delete_index_body row.id (db1.moments db1.tick).report (ticked db1)).1 in
        let (db3, e3, calm3) =
          insert_entities-Does row.id illumination.entities 0 db2 (omega arith)
            (entities_without-IsFree row.id db.tables.knowledge_entities) calm in
        let e4 = execute-does (insert_index_body index) db3 tt _ calm3 refl in
        then-Does drop_entities (λ _. drop_index >> (loop >> last)) db tt db1 e1
          (then-Does drop_index (λ _. loop >> last) db1 tt db2 e2
            (then-Does loop (λ _. last) db2 tt db3 e3 (_, e4, calm3)))

    project-Does :
        (db : Db)
        → length illumination.entities ≤ 4294967296
        → db.next_id < 2147483648
        → IsCalmDb db
        → Does (project capture to_markdown task_run_id inference_meta_id illumination) db
    unfolding project upsert_body find_body ticked illumination_row
    project-Does db small room calm =
        let row = illumination_row capture to_markdown task_run_id inference_meta_id illumination in
        let upsert = execute (upsert_body row) in
        let find = execute (find_body task_run_id) in
        let rest = replace_rows capture to_markdown task_run_id inference_meta_id illumination in
        let left : leb 2147483648 db.next_id ≡ false = ground arith in
        let db1 = record (ticked db) {
          next_id = db.next_id + 1;
          tables = record db.tables {
            illuminations = upserted (row db.next_id) db.tables.illuminations;
          };
        } in
        let e1 = execute-does (upsert_body row) db tt db1 calm (rw left refl) in
        let (found, there, id) = find_run-upserted (row db.next_id) db.tables.illuminations in
        let e2 =
          execute-does (find_body task_run_id) db1 (some found) (ticked db1) calm
            (ap (λ o. (ok o, ticked db1)) there) in
        then-Does upsert (λ _. find >>= rest) db tt db1 e1
          (then-Does find rest db1 (some found) (ticked db1) e2
            (replace_rows-Does found (ticked db1) small calm))

    -- Where every statement is executed, an id is left and the entities are at most 2 ^ 32, the
    -- insertion of an illumination succeeds.
    pub insert_illumination_v2-IsCalmDb :
        (db : Db)
        → IsCalmDb db
        → db.next_id < 2147483648
        → length illumination.entities ≤ 4294967296
        → (insert_illumination_v2 capture to_markdown task_run_id inference_meta_id illumination
            db).0
          ≡ ok tt
    unfolding insert_illumination_v2 ticked
    insert_illumination_v2-IsCalmDb db calm room small =
        in_transaction-Does (project capture to_markdown task_run_id inference_meta_id illumination)
          db calm (project-Does (ticked db) small room calm)
