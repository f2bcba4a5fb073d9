-- ===== src/Api/Captures.antt =====
-- src/api/user/delete_capture.rs and src/api/user/archive_capture.rs.
pub mod Foreign
pub mod Found
pub mod Isolation
pub mod Removals
use dreamscroll.Base.{
  ℕ, Bool, true, false, not, ◌&&◌, Option, none, some, List, [], ◌∷◌, ◌++◌, ◌==◌, if◌then◌else◌,
}
use dreamscroll.Base.Words.{I32}
use dreamscroll.Base.Text.{Text, codes}
use dreamscroll.Base.Decimal.{show_i32}
use dreamscroll.Base.Results.{Result, ok, err, Exec, pure, raise, ◌>>=◌, ◌>>◌}
use dreamscroll.Error.{ApiError, not_found}
use dreamscroll.Auth.{Context, user_id}
use dreamscroll.Api.Service.Store.{CaptureRow, Tables, Db, Body, execute}

unfoldable pub remove {ℓ} : {A : Type ℓ} → (A → Bool) → List A → List A
remove p [] = []
remove p (x ∷ xs) = let rest = remove p xs in if p x then rest else x ∷ rest

unfoldable pub find_capture : (CaptureRow → Bool) → List CaptureRow → Option CaptureRow
find_capture p [] = none
find_capture p (row ∷ rows) = let rest = find_capture p rows in if p row then some row else rest

unfoldable pub archived_with : I32 → Option ℕ → List CaptureRow → List CaptureRow
archived_with id at [] = []
archived_with id at (row ∷ rows) =
    let rest = archived_with id at rows in
    (if row.id == id then record row { archived_at = at } else row) ∷ rest

pub find_body : (CaptureRow → Bool) → Body (Option CaptureRow)
unfolding find_capture
find_body p report db = (ok (find_capture p db.tables.captures), db)

-- A statement that only changes the tables.
abbrev pub change_body : (Tables → Tables) → Body (Unit {0})
change_body f report db = (ok tt, record db { tables = f db.tables })

-- The tables without the rows of a user's capture, or without the capture itself.
module _ (user : I32) (capture_id : I32) where
  unfoldable pub without_index : Tables → Tables
  unfolding remove
  without_index t = record t {
    search_index = remove (λ r. r.user_id == user && r.capture_id == capture_id) t.search_index;
  }

  unfoldable pub without_entities : Tables → Tables
  unfolding remove
  without_entities t = record t {
    knowledge_entities =
        remove (λ r. r.user_id == user && r.capture_id == capture_id) t.knowledge_entities;
  }

  unfoldable pub without_raws : Tables → Tables
  unfolding remove
  without_raws t = record t {
    illumination_raws =
        remove (λ r. r.user_id == user && r.capture_id == capture_id) t.illumination_raws;
  }

  unfoldable pub without_illuminations : Tables → Tables
  unfolding remove
  without_illuminations t = record t {
    illuminations = remove (λ r. r.user_id == user && r.capture_id == capture_id) t.illuminations;
  }

  unfoldable pub without_medias : Tables → Tables
  unfolding remove
  without_medias t = record t {
    medias = remove (λ r. r.user_id == user && r.capture_id == capture_id) t.medias;
  }

  unfoldable pub without_annotations : Tables → Tables
  unfolding remove
  without_annotations t = record t {
    annotations = remove (λ r. r.user_id == user && r.capture_id == capture_id) t.annotations;
  }

  unfoldable pub without_capture : Tables → Tables
  unfolding remove
  without_capture t = record t { captures = remove (λ r. r.id == capture_id) t.captures }

  abbrev changes : (Tables → Tables) → Exec Db ApiError (Unit {0})
  changes f = execute (change_body f)

  pub delete_rows : Exec Db ApiError (Unit {0})
  unfolding execute without_index without_entities without_raws without_illuminations without_medias
      without_annotations without_capture
  delete_rows = do
    changes without_index
    changes without_entities
    changes without_raws
    changes without_illuminations
    changes without_medias
    changes without_annotations
    changes without_capture

not_found_capture : I32 → Text → ApiError
unfolding not_found
not_found_capture capture_id behind =
    not_found (codes "Capture with id " ++ (show_i32 capture_id ++ behind))

module _ (context : Context) (capture_id : I32) where
  pub delete_found : Option CaptureRow → Exec Db ApiError (Unit {0})
  unfolding delete_rows not_found_capture raise user_id
  delete_found none = raise (not_found_capture capture_id (codes " not found"))
  delete_found (some capture) =
      if not (capture.user_id == user_id context)
      then raise (not_found_capture capture_id (codes " not found or access denied"))
      else delete_rows (user_id context) capture_id

  unfoldable pub delete_capture : Exec Db ApiError (Unit {0})
  unfolding execute find_body delete_found
  delete_capture = do capture ← execute (find_body (λ r. r.id == capture_id)); delete_found capture

  pub archive_found : Option ℕ → Option CaptureRow → Exec Db ApiError (Unit {0})
  unfolding execute archived_with not_found_capture raise
  archive_found archived_at none =
      raise (not_found_capture capture_id (codes " not found or access denied"))
  archive_found archived_at (some capture) =
      execute
        (change_body (λ t. record t { captures = archived_with capture.id archived_at t.captures }))

  -- `archived_at` is the time of the call for an archival, and `none` for the way back.
  unfoldable pub set_capture_archive_state : Option ℕ → Exec Db ApiError (Unit {0})
  unfolding execute find_body archive_found user_id
  set_capture_archive_state archived_at = do
    capture ← execute (find_body (λ r. r.id == capture_id && r.user_id == user_id context))
    archive_found archived_at capture

  unfoldable pub archive_capture : ℕ → Exec Db ApiError (Unit {0})
  unfolding set_capture_archive_state
  archive_capture now = set_capture_archive_state (some now)

  unfoldable pub unarchive_capture : Exec Db ApiError (Unit {0})
  unfolding set_capture_archive_state
  unarchive_capture = set_capture_archive_state none
