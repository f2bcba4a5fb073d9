-- ===== src/Api/Captures/Isolation.antt =====
-- What the deletion and the archival of a capture leave to the other users.
use mathlib.Core.Path.{subst}
use dreamscroll.Base.{
  ℕ, ◌≡◌, refl, sym, ap, Bool, true, ◌&&◌, Option, none, some, List, [], ◌∷◌, inl, inr, ◌==◌, ==→eq,
  Bool-cases, All,
}
use dreamscroll.Base.Words.{I32}
use dreamscroll.Base.Results.{Exec, raise}
use dreamscroll.Error.{ApiError}
use dreamscroll.Auth.{Context, user_id}
use dreamscroll.Api.Service.Store.{CaptureRow, Tables, Db}
use dreamscroll.Api.Captures.{
  remove, find_capture, archived_with, delete_found, delete_capture, archive_found,
  set_capture_archive_state, archive_capture, unarchive_capture,
}
use dreamscroll.Api.Captures.Foreign.{
  SameForeign, SameForeign-refl, IsOwned, change-IsIsolated, delete_rows-IsIsolated,
}
use dreamscroll.Api.Captures.Removals.{All-all, right_true}
use dreamscroll.Api.Captures.Found.{HasUniqueIds, find_capture-All, find_capture-owned, search_then}

archived_with-foreign :
    (user id : I32) (at : Option ℕ) (rows : List CaptureRow)
    → All (λ (r : CaptureRow). (r.id == id) ≡ true → (r.user_id == user) ≡ true) rows
    → remove (λ r. r.user_id == user) (archived_with id at rows)
      ≡ remove (λ r. r.user_id == user) rows
unfolding remove archived_with
archived_with-foreign user id at [] own = refl
archived_with-foreign user id at (r ∷ rows) own = elim (Bool-cases (r.id == id)) [
  | inl hit ↦ rw hit (rw (own.0 hit) (archived_with-foreign user id at rows own.1))
  | inr miss ↦ rw miss (elim (Bool-cases (r.user_id == user)) [
    | inl mine ↦ rw mine (archived_with-foreign user id at rows own.1)
    | inr theirs ↦ rw theirs (ap (λ rs. r ∷ rs) (archived_with-foreign user id at rows own.1))
  ])
]

archived_with-owned :
    (user id : I32) (at : Option ℕ) (rows : List CaptureRow)
    → All (λ (r : CaptureRow). (r.id == id) ≡ true → (r.user_id == user) ≡ true) rows
    → All
        (λ (r : CaptureRow). (r.id == id) ≡ true → (r.user_id == user) ≡ true)
        (archived_with id at rows)
unfolding archived_with
archived_with-owned user id at [] own = tt
archived_with-owned user id at (r ∷ rows) own = elim (Bool-cases (r.id == id)) [
  | inl hit ↦ rw hit (own.0, archived_with-owned user id at rows own.1)
  | inr miss ↦ rw miss (own.0, archived_with-owned user id at rows own.1)
]

module _ (context : Context) (capture_id : I32) where
  abbrev me : I32
  me = user_id context

  -- All captures of the id are the user's, if the one that was found is.
  found-IsOwned :
      (p : CaptureRow → Bool) (row : CaptureRow) (t : Tables)
      → HasUniqueIds t
      → find_capture p t.captures ≡ some row
      → (row.user_id == me) ≡ true
      → (id : I32) → row.id ≡ id
      → IsOwned me id t
  found-IsOwned p row t unique found own id same =
      subst (λ i. IsOwned me i t) same (find_capture-owned me p t.captures row unique found own)

  deleted_found :
      (o : Option CaptureRow) (now : Db)
      → HasUniqueIds now.tables
      → find_capture (λ r. r.id == capture_id) now.tables.captures ≡ o
      → SameForeign me now.tables (delete_found context capture_id o now).1.tables
  unfolding delete_found raise
  deleted_found none now unique found = SameForeign-refl me now.tables
  deleted_found (some row) now unique found = elim (Bool-cases (row.user_id == me)) [
    | inl own ↦
        let hit =
          (find_capture-All (λ r. Unit {0}) (λ r. r.id == capture_id) now.tables.captures row
            (All-all (λ r. Unit {0}) now.tables.captures (λ r. tt)) found).1 in
        rw own
          (delete_rows-IsIsolated me capture_id now (
            found-IsOwned (λ r. r.id == capture_id) row now.tables unique found own capture_id
              (==→eq row.id capture_id hit))).0
    | inr foreign ↦ rw foreign (SameForeign-refl me now.tables)
  ]

  delete_capture-SameForeign :
      (db : Db)
      → HasUniqueIds db.tables
      → SameForeign (user_id context) db.tables (delete_capture context capture_id db).1.tables
  unfolding delete_capture
  delete_capture-SameForeign db unique =
      search_then me (λ r. r.id == capture_id) (delete_found context capture_id) db
        (λ now same.
          subst
            (λ t.
              SameForeign me t
                (delete_found context capture_id
                  (find_capture (λ r. r.id == capture_id) now.tables.captures) now).1.tables)
            same
            (deleted_found (find_capture (λ r. r.id == capture_id) now.tables.captures) now
              (subst HasUniqueIds (sym same) unique) refl))

  archived_found :
      (at : Option ℕ) (o : Option CaptureRow) (now : Db)
      → HasUniqueIds now.tables
      → find_capture (λ r. r.id == capture_id && r.user_id == me) now.tables.captures ≡ o
      → SameForeign me now.tables (archive_found context capture_id at o now).1.tables
  unfolding archive_found raise
  archived_found at none now unique found = SameForeign-refl me now.tables
  archived_found at (some row) now unique found =
      let p : CaptureRow → Bool = λ r. r.id == capture_id && r.user_id == me in
      let hit =
        (find_capture-All (λ r. Unit {0}) p now.tables.captures row
          (All-all (λ r. Unit {0}) now.tables.captures (λ r. tt)) found).1 in
      let own = right_true (row.id == capture_id) (row.user_id == me) hit in
      (change-IsIsolated me row.id (λ t. record t { captures = archived_with row.id at t.captures })
        (λ t owned. (
          record {
            captures = archived_with-foreign me row.id at t.captures owned;
            medias = refl;
            annotations = refl;
            illuminations = refl;
            raws = refl;
            entities = refl;
            index = refl;
            metas = refl;
          },
          archived_with-owned me row.id at t.captures owned,
        ))
        now (found-IsOwned p row now.tables unique found own row.id refl)).0

  set_capture_archive_state-SameForeign :
      (at : Option ℕ) (db : Db)
      → HasUniqueIds db.tables
      → SameForeign
          (user_id context)
          db.tables
          (set_capture_archive_state context capture_id at db).1.tables
  unfolding set_capture_archive_state
  set_capture_archive_state-SameForeign at db unique =
      let p : CaptureRow → Bool = λ r. r.id == capture_id && r.user_id == me in
      search_then me p (archive_found context capture_id at) db (λ now same.
        subst
          (λ t.
            SameForeign me t
              (archive_found context capture_id at (find_capture p now.tables.captures)
                now).1.tables)
          same
          (archived_found at (find_capture p now.tables.captures) now
            (subst HasUniqueIds (sym same) unique) refl))

-- The calls of a user on a capture.
pub data CaptureCall : Type 0 where
  deletes unarchives : CaptureCall
  archives : ℕ → CaptureCall

unfoldable pub call : Context → I32 → CaptureCall → Exec Db ApiError (Unit {0})
unfolding archive_capture unarchive_capture
call context capture_id deletes = delete_capture context capture_id
call context capture_id unarchives = unarchive_capture context capture_id
call context capture_id (archives now) = archive_capture context capture_id now

-- A deletion, an archival or the way back, by one user, whether it succeeds, is refused or fails at
-- any statement, leaves every row of the other users in every table, where the ids of captures are
-- unique.
pub call-SameForeign :
    (context : Context) (capture_id : I32) (c : CaptureCall) (db : Db)
    → HasUniqueIds db.tables
    → SameForeign (user_id context) db.tables (call context capture_id c db).1.tables
unfolding call archive_capture unarchive_capture
call-SameForeign context capture_id deletes db unique =
    delete_capture-SameForeign context capture_id db unique
call-SameForeign context capture_id unarchives db unique =
    set_capture_archive_state-SameForeign context capture_id none db unique
call-SameForeign context capture_id (archives now) db unique =
    set_capture_archive_state-SameForeign context capture_id (some now) db unique
