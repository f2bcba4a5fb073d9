-- ===== src/Api/Service/Projection/Refinement.antt =====
-- What `insert_illumination_v2` makes of the tables, and that it does all of it or nothing.
use mathlib.Core.List.{append-nil}
use dreamscroll.Base.{
  ℕ, ◌+◌, ◌≡◌, refl, sym, ap, ◌∙◌, Bool, true, false, Option, none, some, List, [], ◌∷◌, ◌++◌,
  append_assoc, leb, inl, inr, if◌then◌else◌, Bool-cases,
}
use dreamscroll.Base.Words.{I32}
use dreamscroll.Base.Text.{Text, text_eq, text_eq_refl}
use dreamscroll.Base.Results.{Result, ok, err, continue-inv, pure, raise, Exec, ◌>>=◌, ◌>>◌}
use dreamscroll.Error.{ApiError}
use dreamscroll.Api.Service.Store.{IlluminationRow, EntityRow, Tables, Db, ticked, execute}
use dreamscroll.Api.Service.Store.Transactions.{execute-ok, Ends, in_transaction-Ends}
use dreamscroll.Api.Service.Projection.{
  Entity, Illumination, CaptureInfo, updated_columns, upserted, find_run, entities_without,
  index_without, is_taken, upsert_body, find_body, delete_entities_body, delete_index_body,
  insert_entity_body, insert_index_body, entity_row, insert_entities, illumination_row, index_row,
  replace_rows, project, insert_illumination_v2,
}

-- The id that the row of a run keeps or gets.
unfoldable pub kept_id : I32 → Option IlluminationRow → I32
kept_id next_id none = next_id
kept_id next_id (some row) = row.id

module _ (capture : CaptureInfo) where
  unfoldable pub entity_rows : I32 → ℕ → List Entity → List EntityRow
  entity_rows illumination_id position [] = []
  entity_rows illumination_id position (entity ∷ entities) =
      entity_row capture illumination_id position entity
      ∷ entity_rows illumination_id (position + 1) entities

  module _ (to_markdown : Illumination → Text) (task_run_id : Text) (inference_meta_id : Option I32)
      (illumination : Illumination) where
    abbrev pub row_of : I32 → IlluminationRow
    row_of = illumination_row capture to_markdown task_run_id inference_meta_id illumination

    -- The tables with one row for the run, and for the entities and the search index of that row
    -- nothing but what the illumination says.
    unfoldable pub projected : I32 → Tables → Tables
    unfolding kept_id find_run upserted entities_without index_without entity_rows index_row
    projected next_id t =
        let id = kept_id next_id (find_run task_run_id t.illuminations) in
        record t {
          illuminations = upserted (row_of next_id) t.illuminations;
          knowledge_entities =
              entities_without id t.knowledge_entities ++ entity_rows id 0 illumination.entities;
          search_index =
              index_without id t.search_index
              ++ index_row capture to_markdown task_run_id inference_meta_id illumination id ∷ [];
        }

-- The row that is found behind an upsert.
pub find_run-upserted :
    (row : IlluminationRow) (rows : List IlluminationRow)
    → (r : IlluminationRow) × (find_run row.task_run_id (upserted row rows) ≡ some r)
      × (r.id ≡ kept_id row.id (find_run row.task_run_id rows))
unfolding find_run upserted updated_columns kept_id
find_run-upserted row [] = (row, rw (text_eq_refl row.task_run_id) refl, refl)
find_run-upserted row (old ∷ rows) = elim (Bool-cases (text_eq old.task_run_id row.task_run_id)) [
  | inl same ↦ rw same (updated_columns row old, rw same refl, refl)
  | inr other ↦ rw other (rw other (find_run-upserted row rows))
]

guarded : Bool → Text → Db → Db → Result Text (Unit {0}) × Db
guarded refuses report before after = if refuses then (err report, before) else (ok tt, after)

guarded-ok :
    (refuses : Bool) (report : Text) (before after : Db)
    → (guarded refuses report before after).0 ≡ ok tt
    → (guarded refuses report before after).1 ≡ after
unfolding guarded
guarded-ok true report before after h = cc
guarded-ok false report before after h = refl

insert_entity-ok :
    (row : EntityRow) (db : Db)
    → (execute (insert_entity_body row) db).0 ≡ ok tt
    → (execute (insert_entity_body row) db).1.tables
      ≡ record db.tables { knowledge_entities = db.tables.knowledge_entities ++ row ∷ [] }
unfolding insert_entity_body ticked guarded
insert_entity-ok row db h =
    let (done, same) = execute-ok (insert_entity_body row) db tt h in
    ap (λ d. d.tables)
      (same
        ∙ guarded-ok (is_taken row.illumination_id row.position db.tables.knowledge_entities)
            (db.moments db.tick).report (ticked db)
            (record (ticked db) {
              tables = record db.tables {
                knowledge_entities = db.tables.knowledge_entities ++ row ∷ [];
              };
            })
            done)

ok_same : {A : Type 0} {a b : A} → ◌≡◌ {A = Result Text A} (ok a) (ok b) → a ≡ b
ok_same h = cc

-- A statement before others that succeed.
then-ok :
    (m n : Exec Db ApiError (Unit {0})) (db : Db)
    → ((m >> n) db).0 ≡ ok tt
    → ((m db).0 ≡ ok tt) × ((m >> n) db ≡ n (m db).1) × ((n (m db).1).0 ≡ ok tt)
then-ok m n db h =
    let (u, done, same) = continue-inv (λ _. n) (m db) tt h in
    (done, same, sym (ap (λ x. x.0) same) ∙ h)

-- Tables with other rows of entities.
abbrev with_entities : List EntityRow → Tables → Tables
with_entities rows t = record t { knowledge_entities = rows }

module _ (capture : CaptureInfo) where
  insert_entities-ok :
      (id : I32) (entities : List Entity) (position : ℕ) (db : Db)
      → (insert_entities capture id position entities db).0 ≡ ok tt
      → (insert_entities capture id position entities db).1.tables
        ≡ with_entities
            (db.tables.knowledge_entities ++ entity_rows capture id position entities)
            db.tables
  unfolding insert_entities entity_rows pure
  insert_entities-ok id [] position db h =
      ap (λ rows. with_entities rows db.tables) (sym (append-nil db.tables.knowledge_entities))
  insert_entities-ok id (entity ∷ entities) position db h =
      let row = entity_row capture id position entity in
      let first = execute (insert_entity_body row) db in
      let (u, inserted, same) =
        continue-inv (λ _. insert_entities capture id (position + 1) entities) first tt h in
      let now = insert_entity-ok row db inserted in
      ap (λ x. x.1.tables) same
      ∙ insert_entities-ok id entities (position + 1) first.1 (sym (ap (λ x. x.0) same) ∙ h)
      ∙ ap
          (λ t.
            with_entities (t.knowledge_entities ++ entity_rows capture id (position + 1) entities)
              t)
          now
      ∙ ap (λ rows. with_entities rows db.tables)
          (append_assoc db.tables.knowledge_entities (row ∷ [])
            (entity_rows capture id (position + 1) entities))

  module _ (to_markdown : Illumination → Text) (task_run_id : Text) (inference_meta_id : Option I32)
      (illumination : Illumination) where
    -- The tables once the rows of an illumination are replaced.
    replaced : I32 → Tables → Tables
    replaced id t = record t {
      knowledge_entities =
          entities_without id t.knowledge_entities
          ++ entity_rows capture id 0 illumination.entities;
      search_index =
          index_without id t.search_index
          ++ index_row capture to_markdown task_run_id inference_meta_id illumination id ∷ [];
    }

    abbrev replaces : Option IlluminationRow → Exec Db ApiError (Unit {0})
    replaces = replace_rows capture to_markdown task_run_id inference_meta_id illumination

    replace_rows-ok :
        (o : Option IlluminationRow) (db : Db)
        → (replaces o db).0 ≡ ok tt
        → (row : IlluminationRow) × (o ≡ some row)
          × ((replaces o db).1.tables ≡ replaced row.id db.tables)
    unfolding replace_rows raise replaced delete_entities_body delete_index_body insert_index_body
        ticked
    replace_rows-ok none db h = cc
    replace_rows-ok (some row) db h =
        let index =
          index_row capture to_markdown task_run_id inference_meta_id illumination row.id in
        let drop_entities = execute (delete_entities_body row.id) in
        let drop_index = execute (delete_index_body row.id) in
        let loop = insert_entities capture row.id 0 illumination.entities in
        let last = execute (insert_index_body index) in
        let (h1, e1, k1) = then-ok drop_entities (drop_index >> (loop >> last)) db h in
        let db1 = (drop_entities db).1 in
        let (h2, e2, k2) = then-ok drop_index (loop >> last) db1 k1 in
        let db2 = (drop_index db1).1 in
        let (h3, e3, k3) = then-ok loop last db2 k2 in
        let db3 = (loop db2).1 in
        let t1 = ap (λ d. d.tables) (execute-ok (delete_entities_body row.id) db tt h1).1 in
        let t2 = ap (λ d. d.tables) (execute-ok (delete_index_body row.id) db1 tt h2).1 in
        let t3 = insert_entities-ok row.id illumination.entities 0 db2 h3 in
        let t4 = ap (λ d. d.tables) (execute-ok (insert_index_body index) db3 tt k3).1 in
        (
          row,
          refl,
          ap (λ x. x.1.tables) (e1 ∙ e2 ∙ e3)
              ∙ t4
              ∙ ap (λ (t : Tables). record t { search_index = t.search_index ++ index ∷ [] }) t3
              ∙ ap
                  (λ (t : Tables). record t {
                    knowledge_entities =
                        t.knowledge_entities ++ entity_rows capture row.id 0 illumination.entities;
                    search_index = t.search_index ++ index ∷ [];
                  })
                  t2
              ∙ ap
                  (λ (t : Tables). record t {
                    knowledge_entities =
                        t.knowledge_entities ++ entity_rows capture row.id 0 illumination.entities;
                    search_index = index_without row.id t.search_index ++ index ∷ [];
                  })
                  t1,
        )

    upserted_tables : I32 → Tables → Tables
    upserted_tables next_id t = record t {
      illuminations =
          upserted (row_of capture to_markdown task_run_id inference_meta_id illumination next_id)
            t.illuminations;
    }

    -- The row that was found is the one that `projected` means.
    replaced-projected :
        (next_id : I32) (t t1 t2 : Tables) (row : IlluminationRow)
        → t2 ≡ t1
        → t1 ≡ upserted_tables next_id t
        → find_run task_run_id t1.illuminations ≡ some row
        → replaced row.id t2
          ≡ projected capture to_markdown task_run_id inference_meta_id illumination next_id t
    unfolding projected replaced upserted_tables illumination_row
    replaced-projected next_id t t1 t2 row p q finds =
        let new = row_of capture to_markdown task_run_id inference_meta_id illumination next_id in
        let (r, there, id) = find_run-upserted new t.illuminations in
        let same : some r ≡ some row =
          sym there ∙ ap (λ u. find_run task_run_id u.illuminations) (sym q) ∙ finds in
        let row_id : row.id ≡ r.id = let e : row ≡ r = cc in ap (λ x. x.id) e in
        ap (replaced row.id) (p ∙ q)
        ∙ ap (λ i. replaced i (upserted_tables next_id t)) (row_id ∙ id)

    upsert_ok :
        (db : Db)
        → (execute
            (upsert_body (row_of capture to_markdown task_run_id inference_meta_id illumination))
            db).0
          ≡ ok tt
        → (execute
            (upsert_body (row_of capture to_markdown task_run_id inference_meta_id illumination))
            db).1.tables
          ≡ upserted_tables db.next_id db.tables
    unfolding upsert_body upserted_tables ticked guarded
    upsert_ok db h =
        let row = row_of capture to_markdown task_run_id inference_meta_id illumination in
        let (done, same) = execute-ok (upsert_body row) db tt h in
        ap (λ d. d.tables)
          (same
            ∙ guarded-ok (leb 2147483648 db.next_id) (db.moments db.tick).report (ticked db)
                (record (ticked db) {
                  next_id = db.next_id + 1;
                  tables = upserted_tables db.next_id db.tables;
                })
                done)

    find_ok :
        (db : Db) (o : Option IlluminationRow)
        → (execute (find_body task_run_id) db).0 ≡ ok o
        → (find_run task_run_id db.tables.illuminations ≡ o)
          × ((execute (find_body task_run_id) db).1.tables ≡ db.tables)
    unfolding find_body ticked
    find_ok db o h =
        let (found, same) = execute-ok (find_body task_run_id) db o h in
        (ok_same found, ap (λ d. d.tables) same)

    project-ok :
        (db : Db) (a : Unit {0})
        → (project capture to_markdown task_run_id inference_meta_id illumination db).0 ≡ ok a
        → (project capture to_markdown task_run_id inference_meta_id illumination db).1.tables
          ≡ projected capture to_markdown task_run_id inference_meta_id illumination db.next_id
              db.tables
    unfolding project
    project-ok db a h =
        let upsert =
          execute
            (upsert_body (row_of capture to_markdown task_run_id inference_meta_id illumination)) in
        let find = execute (find_body task_run_id) in
        let (h1, e1, k1) = then-ok upsert (find >>= replaces) db h in
        let db1 = (upsert db).1 in
        let (o, h2, e2) = continue-inv replaces (find db1) tt k1 in
        let (found, t2) = find_ok db1 o h2 in
        let db2 = (find db1).1 in
        let (row, some_row, t3) = replace_rows-ok o db2 (sym (ap (λ x. x.0) e2) ∙ k1) in
        ap (λ x. x.1.tables) (e1 ∙ e2)
        ∙ t3
        ∙ replaced-projected db.next_id db.tables db1.tables db2.tables row t2 (upsert_ok db h1)
            (found ∙ some_row)

    -- A projection succeeds with the tables `projected`; otherwise it fails and the tables are as
    -- they were, or `projected` where the commit's answer was lost. Nothing is done in part.
    pub insert_illumination_v2-Ends :
        (db : Db)
        → Ends db.tables
            (projected capture to_markdown task_run_id inference_meta_id illumination db.next_id
              db.tables)
            (insert_illumination_v2 capture to_markdown task_run_id inference_meta_id illumination
              db)
    unfolding insert_illumination_v2
    insert_illumination_v2-Ends =
        in_transaction-Ends (project capture to_markdown task_run_id inference_meta_id illumination)
          (projected capture to_markdown task_run_id inference_meta_id illumination) project-ok
