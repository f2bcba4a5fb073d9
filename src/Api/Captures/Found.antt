-- ===== src/Api/Captures/Found.antt =====
-- Searches for a capture.
use mathlib.Core.Path.{subst}
use dreamscroll.Base.{
  ◌≡◌, refl, sym, ap, ◌∙◌, Bool, true, false, Option, some, List, [], ◌∷◌, inl, inr, ◌==◌,
  if◌then◌else◌, All, All-map, Pairwise, true≢false, ◌⊎◌, arith,
}
use dreamscroll.Base.Words.{I32}
use dreamscroll.Base.Text.{Text}
use dreamscroll.Base.Results.{Result, ok, err, Exec, continue, ◌>>=◌}
use dreamscroll.Error.{ApiError}
use dreamscroll.Task.Database.{Fate, executed, refused, unacknowledged}
use dreamscroll.Api.Service.Store.{CaptureRow, Tables, Db, settle, ticked, failing, execute}
use dreamscroll.Api.Service.Store.Transactions.{execute-ok}
use dreamscroll.Api.Captures.{find_capture, find_body}
use dreamscroll.Api.Captures.Foreign.{SameForeign, SameForeign-refl}

-- The capture that a search finds, where ids are unique.
abbrev pub HasUniqueIds : Tables → Type 0
HasUniqueIds t = Pairwise (λ (r s : CaptureRow). (r.id == s.id) ≡ false) t.captures

pub ok_same : {E A : Type 0} {a b : A} → ◌≡◌ {A = Result E A} (ok a) (ok b) → a ≡ b
ok_same h = cc

pub some_same : {A : Type 0} {a b : A} → some a ≡ some b → a ≡ b
some_same h = cc

pub find_cases :
    (b : Bool) (r row : CaptureRow) (rest : Option CaptureRow)
    → (if b then some r else rest) ≡ some row
    → ((b ≡ true) × (r ≡ row)) ⊎ (rest ≡ some row)
find_cases true r row rest h = inl (refl, some_same h)
find_cases false r row rest h = inr h

pub find_capture-All :
    (P : CaptureRow → Type 0) (p : CaptureRow → Bool) (rows : List CaptureRow) (row : CaptureRow)
    → All P rows
    → find_capture p rows ≡ some row
    → P row × (p row ≡ true)
unfolding find_capture
find_capture-All P p [] row h found = cc
find_capture-All P p (r ∷ rows) row h found =
    elim (find_cases (p r) r row (find_capture p rows) found) [
      | inl (hit, same) ↦ subst (λ x. P x × (p x ≡ true)) same (h.0, hit)
      | inr rest ↦ find_capture-All P p rows row h.1 rest
    ]

pub others_differ :
    (row s : CaptureRow) (user : I32)
    → (row.id == s.id) ≡ false
    → (s.id == row.id) ≡ true
    → (s.user_id == user) ≡ true
others_differ row s user h k = absurd (ground (arith, h, k))

-- All captures of its id belong to the user whom the found capture belongs to.
pub find_capture-owned :
    (user : I32) (p : CaptureRow → Bool) (rows : List CaptureRow) (row : CaptureRow)
    → Pairwise (λ (r s : CaptureRow). (r.id == s.id) ≡ false) rows
    → find_capture p rows ≡ some row
    → (row.user_id == user) ≡ true
    → All (λ (r : CaptureRow). (r.id == row.id) ≡ true → (r.user_id == user) ≡ true) rows
unfolding find_capture
find_capture-owned user p [] row unique found own = tt
find_capture-owned user p (r ∷ rows) row unique found own =
    elim (find_cases (p r) r row (find_capture p rows) found) [
      | inl (hit, same) ↦ (
        λ e. subst (λ x. (x.user_id == user) ≡ true) (sym same) own,
        All-map (λ (s : CaptureRow). (r.id == s.id) ≡ false)
            (λ (s : CaptureRow). (s.id == row.id) ≡ true → (s.user_id == user) ≡ true) rows
            (λ s h. others_differ row s user (ap (λ x. x.id == s.id) (sym same) ∙ h)) unique.0,
      )
      | inr rest ↦ (
        λ e. absurd (
            true≢false e
              (find_capture-All (λ s. (r.id == s.id) ≡ false) p rows row unique.0 rest).0),
        find_capture-owned user p rows row unique.1 rest own,
      )
    ]

pub found_settles :
    (p : CaptureRow → Bool) (fate : Fate) (report : Text) (db : Db)
    → (failing (settle fate report (find_body p report db) db)).1 ≡ db
unfolding failing settle find_body
found_settles p executed report db = refl
found_settles p refused report db = refl
found_settles p unacknowledged report db = refl

pub find-tables :
    (p : CaptureRow → Bool) (db : Db) → (execute (find_body p) db).1.tables ≡ db.tables
unfolding execute ticked
find-tables p db =
    let m = db.moments db.tick in ap (λ d. d.tables) (found_settles p m.fate m.report (ticked db))

-- A search, and what is done with the capture that it finds.
pub search_then :
    (user : I32) (p : CaptureRow → Bool) (f : Option CaptureRow → Exec Db ApiError (Unit {0}))
    (db : Db)
    → ((now : Db)
        → now.tables ≡ db.tables
        → SameForeign user db.tables (f (find_capture p now.tables.captures) now).1.tables)
    → SameForeign user db.tables ((execute (find_body p) >>= f) db).1.tables
unfolding find_body ticked
search_then user p f db h = after (execute (find_body p) db) (find-tables p db) (λ o told.
    ap (λ t. find_capture p t.captures) (find-tables p db)
    ∙ ok_same (execute-ok (find_body p) db o told).0)
  where
    after :
        (x : Result ApiError (Option CaptureRow) × Db)
        → x.1.tables ≡ db.tables
        → ((o : Option CaptureRow) → x.0 ≡ ok o → find_capture p x.1.tables.captures ≡ o)
        → SameForeign user db.tables (continue x f).1.tables
    after (ok o, now) same told =
        subst (λ c. SameForeign user db.tables (f c now).1.tables) (told o refl) (h now same)
    after (err e, now) same told =
        subst (SameForeign user db.tables) (sym same) (SameForeign-refl user db.tables)
