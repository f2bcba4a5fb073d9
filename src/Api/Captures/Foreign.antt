-- ===== src/Api/Captures/Foreign.antt =====
-- Statements on captures that leave the rows of the other users.
use dreamscroll.Base.{◌≡◌, refl, ◌∙◌, true, ◌==◌, All}
use dreamscroll.Base.Words.{I32}
use dreamscroll.Base.Text.{Text}
use dreamscroll.Base.Results.{Result, ok, err, Exec, continue, ◌>>◌}
use dreamscroll.Error.{ApiError}
use dreamscroll.Task.Database.{Fate, executed, refused, unacknowledged}
use dreamscroll.Api.Service.Store.{CaptureRow, Tables, Db, settle, ticked, failing, execute}
use dreamscroll.Api.Captures.{
  remove, change_body, without_index, without_entities, without_raws, without_illuminations,
  without_medias, without_annotations, without_capture, delete_rows,
}
use dreamscroll.Api.Captures.Removals.{All-remove, remove_own, remove_twice}

-- The rows of the other users, table by table, are the same.
pub record SameForeign (user : I32) (s t : Tables) : Type 0 where
  pub captures :
      remove (λ r. r.user_id == user) t.captures ≡ remove (λ r. r.user_id == user) s.captures
  pub medias : remove (λ r. r.user_id == user) t.medias ≡ remove (λ r. r.user_id == user) s.medias
  pub annotations :
      remove (λ r. r.user_id == user) t.annotations ≡ remove (λ r. r.user_id == user) s.annotations
  pub illuminations :
      remove (λ r. r.user_id == user) t.illuminations
      ≡ remove (λ r. r.user_id == user) s.illuminations
  pub raws :
      remove (λ r. r.user_id == user) t.illumination_raws
      ≡ remove (λ r. r.user_id == user) s.illumination_raws
  pub entities :
      remove (λ r. r.user_id == user) t.knowledge_entities
      ≡ remove (λ r. r.user_id == user) s.knowledge_entities
  pub index :
      remove (λ r. r.user_id == user) t.search_index
      ≡ remove (λ r. r.user_id == user) s.search_index
  pub metas :
      remove (λ r. r.user_id == user) t.inference_metas
      ≡ remove (λ r. r.user_id == user) s.inference_metas

pub SameForeign-refl : (user : I32) (t : Tables) → SameForeign user t t
SameForeign-refl user t = record {
  captures = refl;
  medias = refl;
  annotations = refl;
  illuminations = refl;
  raws = refl;
  entities = refl;
  index = refl;
  metas = refl;
}

pub SameForeign-trans :
    {user : I32} {s t u : Tables}
    → SameForeign user s t
    → SameForeign user t u
    → SameForeign user s u
SameForeign-trans p q = record {
  captures = q.captures ∙ p.captures;
  medias = q.medias ∙ p.medias;
  annotations = q.annotations ∙ p.annotations;
  illuminations = q.illuminations ∙ p.illuminations;
  raws = q.raws ∙ p.raws;
  entities = q.entities ∙ p.entities;
  index = q.index ∙ p.index;
  metas = q.metas ∙ p.metas;
}

module _ (user : I32) (capture_id : I32) where
  -- The capture, if there is one, is the user's.
  abbrev pub IsOwned : Tables → Type 0
  IsOwned t =
      All (λ (r : CaptureRow). (r.id == capture_id) ≡ true → (r.user_id == user) ≡ true) t.captures

  abbrev pub Keeps : Tables → Tables → Type 0
  Keeps s t = SameForeign user s t × IsOwned t

  abbrev pub IsIsolated : {A : Type 0} → Exec Db ApiError A → Type 0
  IsIsolated m = (db : Db) → IsOwned db.tables → Keeps db.tables (m db).1.tables

  pub changed-Keeps :
      (f : Tables → Tables) (fate : Fate) (report : Text) (db : Db)
      → IsOwned db.tables
      → Keeps db.tables (f db.tables)
      → Keeps db.tables (failing (settle fate report (change_body f report db) db)).1.tables
  unfolding settle failing
  changed-Keeps f executed report db own h = h
  changed-Keeps f refused report db own h = (SameForeign-refl user db.tables, own)
  changed-Keeps f unacknowledged report db own h = h

  pub change-IsIsolated :
      (f : Tables → Tables)
      → ((t : Tables) → IsOwned t → Keeps t (f t))
      → IsIsolated (execute (change_body f))
  unfolding execute ticked
  change-IsIsolated f h db own =
      let m = db.moments db.tick in
      changed-Keeps f m.fate m.report (ticked db) own (h db.tables own)

  pub continue-Keeps :
      {A B : Type 0} (s : Tables) (x : Result ApiError A × Db) (n : Exec Db ApiError B)
      → Keeps s x.1.tables
      → IsIsolated n
      → Keeps s (continue x (λ _. n)).1.tables
  continue-Keeps s (ok a, db) n kept h =
      let (more, own) = h db kept.1 in (SameForeign-trans kept.0 more, own)
  continue-Keeps s (err e, db) n kept h = kept

  pub then-IsIsolated :
      {A B : Type 0} (m : Exec Db ApiError A) (n : Exec Db ApiError B)
      → IsIsolated m
      → IsIsolated n
      → IsIsolated (m >> n)
  then-IsIsolated m n p q db own = continue-Keeps db.tables (m db) n (p db own) q

  pub without_index-Keeps : (t : Tables) → IsOwned t → Keeps t (without_index user capture_id t)
  unfolding without_index
  without_index-Keeps t own = (
    record {
      captures = refl;
      medias = refl;
      annotations = refl;
      illuminations = refl;
      raws = refl;
      entities = refl;
      index = remove_own (λ r. r.user_id) (λ r. r.capture_id) user capture_id t.search_index;
      metas = refl;
    },
    own,
  )

  pub without_entities-Keeps :
      (t : Tables) → IsOwned t → Keeps t (without_entities user capture_id t)
  unfolding without_entities
  without_entities-Keeps t own = (
    record {
      captures = refl;
      medias = refl;
      annotations = refl;
      illuminations = refl;
      raws = refl;
      entities =
          remove_own (λ r. r.user_id) (λ r. r.capture_id) user capture_id t.knowledge_entities;
      index = refl;
      metas = refl;
    },
    own,
  )

  pub without_raws-Keeps : (t : Tables) → IsOwned t → Keeps t (without_raws user capture_id t)
  unfolding without_raws
  without_raws-Keeps t own = (
    record {
      captures = refl;
      medias = refl;
      annotations = refl;
      illuminations = refl;
      raws = remove_own (λ r. r.user_id) (λ r. r.capture_id) user capture_id t.illumination_raws;
      entities = refl;
      index = refl;
      metas = refl;
    },
    own,
  )

  pub without_illuminations-Keeps :
      (t : Tables) → IsOwned t → Keeps t (without_illuminations user capture_id t)
  unfolding without_illuminations
  without_illuminations-Keeps t own = (
    record {
      captures = refl;
      medias = refl;
      annotations = refl;
      illuminations =
          remove_own (λ r. r.user_id) (λ r. r.capture_id) user capture_id t.illuminations;
      raws = refl;
      entities = refl;
      index = refl;
      metas = refl;
    },
    own,
  )

  pub without_medias-Keeps : (t : Tables) → IsOwned t → Keeps t (without_medias user capture_id t)
  unfolding without_medias
  without_medias-Keeps t own = (
    record {
      captures = refl;
      medias = remove_own (λ r. r.user_id) (λ r. r.capture_id) user capture_id t.medias;
      annotations = refl;
      illuminations = refl;
      raws = refl;
      entities = refl;
      index = refl;
      metas = refl;
    },
    own,
  )

  pub without_annotations-Keeps :
      (t : Tables) → IsOwned t → Keeps t (without_annotations user capture_id t)
  unfolding without_annotations
  without_annotations-Keeps t own = (
    record {
      captures = refl;
      medias = refl;
      annotations = remove_own (λ r. r.user_id) (λ r. r.capture_id) user capture_id t.annotations;
      illuminations = refl;
      raws = refl;
      entities = refl;
      index = refl;
      metas = refl;
    },
    own,
  )

  pub without_capture-Keeps : (t : Tables) → IsOwned t → Keeps t (without_capture user capture_id t)
  unfolding without_capture
  without_capture-Keeps t own = (
    record {
      captures = remove_twice (λ r. r.user_id == user) (λ r. r.id == capture_id) t.captures own;
      medias = refl;
      annotations = refl;
      illuminations = refl;
      raws = refl;
      entities = refl;
      index = refl;
      metas = refl;
    },
    All-remove (λ (r : CaptureRow). (r.id == capture_id) ≡ true → (r.user_id == user) ≡ true)
        (λ r. r.id == capture_id) t.captures own,
  )

  pub changes : (Tables → Tables) → Exec Db ApiError (Unit {0})
  changes f = execute (change_body f)

  -- A change before others.
  pub then_changes :
      (f : Tables → Tables) (n : Exec Db ApiError (Unit {0}))
      → ((t : Tables) → IsOwned t → Keeps t (f t))
      → IsIsolated n
      → IsIsolated (changes f >> n)
  unfolding changes
  then_changes f n h = then-IsIsolated (execute (change_body f)) n (change-IsIsolated f h)

  pub delete_rows-IsIsolated : IsIsolated (delete_rows user capture_id)
  unfolding delete_rows changes
  delete_rows-IsIsolated =
      let n7 = changes (without_capture user capture_id) in
      let n6 = changes (without_annotations user capture_id) >> n7 in
      let n5 = changes (without_medias user capture_id) >> n6 in
      let n4 = changes (without_illuminations user capture_id) >> n5 in
      let n3 = changes (without_raws user capture_id) >> n4 in
      let n2 = changes (without_entities user capture_id) >> n3 in
      let h7 = change-IsIsolated (without_capture user capture_id) without_capture-Keeps in
      let h6 = then_changes (without_annotations user capture_id) n7 without_annotations-Keeps h7 in
      let h5 = then_changes (without_medias user capture_id) n6 without_medias-Keeps h6 in
      let h4 =
        then_changes (without_illuminations user capture_id) n5 without_illuminations-Keeps h5 in
      let h3 = then_changes (without_raws user capture_id) n4 without_raws-Keeps h4 in
      let h2 = then_changes (without_entities user capture_id) n3 without_entities-Keeps h3 in
      then_changes (without_index user capture_id) n2 without_index-Keeps h2
