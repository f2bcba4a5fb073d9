-- ===== src/Api/Service/Store/Executed.antt =====
-- Statements and transactions on a database that executes every statement.
use dreamscroll.Base.{ℕ, ◌≡◌, refl, ap, ◌∙◌}
use dreamscroll.Base.Text.{Text}
use dreamscroll.Base.Results.{Result, ok, Exec, continue, ◌>>=◌}
use dreamscroll.Error.{ApiError}
use dreamscroll.Task.Database.{Fate, executed, refused, unacknowledged}
use dreamscroll.Api.Service.Store.{
  Tables, Db, Body, settle, ticked, failing, execute, begin, begin_body, conclude_by, conclude,
  in_transaction,
}

-- Every statement is executed and answered.
abbrev pub IsCalmDb : Db → Type 0
IsCalmDb db = (n : ℕ) → (db.moments n).fate ≡ executed

module _ {A : Type 0} where
  settle-executed :
      (fate : Fate) (report : Text) (done : Result Text A × Db) (before : Db)
      → fate ≡ executed
      → settle fate report done before ≡ done
  unfolding settle
  settle-executed executed report done before h = refl
  settle-executed refused report done before h = cc
  settle-executed unacknowledged report done before h = cc

  -- A statement does what its body does.
  pub execute-does :
      (body : Body A) (db : Db) (a : A) (after : Db)
      → IsCalmDb db
      → body (db.moments db.tick).report (ticked db) ≡ (ok a, after)
      → execute body db ≡ (ok a, after)
  unfolding execute failing
  execute-does body db a after calm h = ap failing (
      settle-executed _ _ (body (db.moments db.tick).report (ticked db)) (ticked db) (calm db.tick)
      ∙ h)

-- What an action without a result comes to.
unfoldable pub Does : Exec Db ApiError (Unit {0}) → Db → Type 0
Does m db = (after : Db) × (m db ≡ (ok tt, after)) × IsCalmDb after

pub then-Does :
    {A : Type 0} (m : Exec Db ApiError A) (f : A → Exec Db ApiError (Unit {0})) (db : Db) (a : A)
    (s : Db)
    → m db ≡ (ok a, s)
    → Does (f a) s
    → Does (m >>= f) db
unfolding Does
then-Does m f db a s h (after, e, calm) = (after, ap (λ x. continue x f) h ∙ e, calm)

begin-does : (db : Db) → IsCalmDb db → begin db ≡ (ok tt, ticked db)
unfolding begin begin_body
begin-does db calm = execute-does begin_body db tt (ticked db) calm refl

conclude_by-executed :
    (start : Tables) (fate : Fate) (report : Text) (db : Db)
    → fate ≡ executed
    → (conclude_by start tt fate report db).0 ≡ ok tt
unfolding conclude_by
conclude_by-executed start executed report db h = refl
conclude_by-executed start refused report db h = cc
conclude_by-executed start unacknowledged report db h = cc

-- A transaction succeeds whose body does.
pub in_transaction-Does :
    (body : Exec Db ApiError (Unit {0})) (db : Db)
    → IsCalmDb db
    → Does body (ticked db)
    → (in_transaction body db).0 ≡ ok tt
unfolding in_transaction conclude Does ticked
in_transaction-Does body db calm does =
    let (after, e, still) =
      then-Does begin (λ _. body) db tt (ticked db) (begin-does db calm) does in
    ap (λ x. (conclude db.tables x).0) e
    ∙ conclude_by-executed db.tables _ _ (ticked after) (still after.tick)
