-- ===== src/Api/Service/Store/Transactions.antt =====
-- What a statement and a transaction leave behind.
use mathlib.Core.Path.{subst}
use dreamscroll.Base.{◌≡◌, refl, sym, ap, ◌∙◌, inl, inr, ◌⊎◌}
use dreamscroll.Base.Words.{I32}
use dreamscroll.Base.Text.{Text}
use dreamscroll.Base.Results.{Result, ok, err, Exec, continue, continue-inv}
use dreamscroll.Error.{ApiError}
use dreamscroll.Task.Database.{Fate, executed, refused, unacknowledged}
use dreamscroll.Api.Service.Store.{
  Tables, Db, Body, settle, ticked, failing, execute, begin_body, begin, conclude_by, conclude,
  in_transaction,
}

module _ {A : Type 0} where
  settle-ok :
      (fate : Fate) (report : Text) (done : Result Text A × Db) (before : Db) (a : A)
      → (failing (settle fate report done before)).0 ≡ ok a
      → (done.0 ≡ ok a) × ((failing (settle fate report done before)).1 ≡ done.1)
  unfolding settle failing
  settle-ok executed report (ok b, db) before a h = (let same : b ≡ a = cc in ap ok same, refl)
  settle-ok executed report (err e, db) before a h = cc
  settle-ok refused report done before a h = cc
  settle-ok unacknowledged report done before a h = cc

  -- A statement that succeeds was executed.
  pub execute-ok :
      (body : Body A) (db : Db) (a : A)
      → (execute body db).0 ≡ ok a
      → let done = body (db.moments db.tick).report (ticked db) in
        (done.0 ≡ ok a) × ((execute body db).1 ≡ done.1)
  unfolding execute
  execute-ok body db a =
      let m = db.moments db.tick in
      settle-ok m.fate m.report (body m.report (ticked db)) (ticked db) a

-- The end of a transaction from `start` that would make `final` of it: success with `final`; or an
-- error, and the tables are `start`, or `final` after a commit whose answer was lost.
abbrev pub Ends : {A : Type 0} → Tables → Tables → Result ApiError A × Db → Type 0
Ends start final (ok a, db) = db.tables ≡ final
Ends start final (err e, db) = (db.tables ≡ start) ⊎ (db.tables ≡ final)

conclude_by-Ends :
    {A : Type 0} (start : Tables) (a : A) (fate : Fate) (report : Text) (db : Db)
    → Ends start db.tables (conclude_by start a fate report db)
unfolding conclude_by
conclude_by-Ends start a executed report db = refl
conclude_by-Ends start a refused report db = inl refl
conclude_by-Ends start a unacknowledged report db = inr refl

conclude-Ends :
    {A : Type 0} (start final : Tables) (x : Result ApiError A × Db)
    → ((a : A) → x.0 ≡ ok a → x.1.tables ≡ final)
    → Ends start final (conclude start x)
unfolding conclude ticked
conclude-Ends start final (ok a, db) h =
    subst
      (λ t.
        Ends start t
          (conclude_by start a (db.moments db.tick).fate (db.moments db.tick).report (ticked db)))
      (h a refl)
      (conclude_by-Ends start a (db.moments db.tick).fate (db.moments db.tick).report (ticked db))
conclude-Ends start final (err e, db) h = inl refl

begin-ok :
    (db : Db)
    → (begin db).0 ≡ ok tt
    → ((begin db).1.tables ≡ db.tables) × ((begin db).1.next_id ≡ db.next_id)
unfolding begin begin_body ticked
begin-ok db h =
    let same = (execute-ok begin_body db tt h).1 in
    (ap (λ d. d.tables) same, ap (λ d. d.next_id) same)

-- A transaction whose body makes `f` of the sequence and the tables where it succeeds.
pub in_transaction-Ends :
    {A : Type 0} (body : Exec Db ApiError A) (f : I32 → Tables → Tables)
    → ((db : Db) (a : A) → (body db).0 ≡ ok a → (body db).1.tables ≡ f db.next_id db.tables)
    → (db : Db) → Ends db.tables (f db.next_id db.tables) (in_transaction body db)
unfolding in_transaction
in_transaction-Ends body f h db =
    conclude-Ends db.tables (f db.next_id db.tables) (continue (begin db) (λ _. body)) (λ a done.
      let (u, began, same) = continue-inv (λ _. body) (begin db) a done in
      let (tables, next_id) = begin-ok db began in
      ap (λ x. x.1.tables) same
      ∙ h (begin db).1 a (sym (ap (λ x. x.0) same) ∙ done)
      ∙ ap (λ t. f (begin db).1.next_id t) tables
      ∙ ap (λ i. f i db.tables) next_id)

-- A transaction that succeeds.
pub Ends-ok :
    (start final : Tables) (x : Result ApiError (Unit {0}) × Db)
    → Ends start final x
    → x.0 ≡ ok tt
    → x.1.tables ≡ final
Ends-ok start final (ok a, db) ends h = ends
Ends-ok start final (err e, db) ends h = cc
