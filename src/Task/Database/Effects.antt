-- ===== src/Task/Database/Effects.antt =====
-- The effect of one statement on the world, for every fate that it may meet: the database behind
-- src/task/taskruntracker.rs.
use dreamscroll.Base.{
  ℕ, ◌≡◌, refl, sym, ap, ◌∙◌, ◌⊎◌, inl, inr, Option, none, some, List, [], ◌∷◌, ◌++◌,
}
use mathlib.Core.Path.{subst}
use dreamscroll.Base.Text.{Text}
use dreamscroll.Base.Results.{Result, ok, err}
use dreamscroll.Task.Row.{
  Row, UniqueKey, SameIdentity, find_violation, update_where, same_run_id, same_ordinal,
  same_backfill,
}
use dreamscroll.Task.Table.{insert, change, Reach, here, next}
use dreamscroll.Task.Database.{
  Fate, executed, refused, unacknowledged, World, DbErr, connection, advance, meet, statement,
  query, insert_row, inserted, update_row, updated,
}

-- Another moment, with the same table of runs under the same environment.
pub record SameTable (v w : World) : Type 0 where
  pub same_rows : w.rows ≡ v.rows
  pub same_env : w.env ≡ v.env

pub SameTable-refl : (w : World) → SameTable w w
SameTable-refl w = record { same_rows = refl; same_env = refl }

pub SameTable-trans : {u v w : World} → SameTable u v → SameTable v w → SameTable u w
SameTable-trans h k = record {
  same_rows = k.same_rows ∙ h.same_rows;
  same_env = k.same_env ∙ h.same_env;
}

pub advance-SameTable : (w : World) → SameTable w (advance w)
unfolding advance
advance-SameTable w = record { same_rows = refl; same_env = refl }

module _ {ℓ} {A : Type 0} (P : World → Type ℓ) where
  meet-keeps :
      (fate : Fate) (failed : Text → A) (report : Text) (done : A × World) (before : World)
      → P before
      → P done.1
      → P (meet fate failed report done before).1
  unfolding meet
  meet-keeps executed failed report done before p q = q
  meet-keeps refused failed report done before p q = p
  meet-keeps unacknowledged failed report done before p q = q

-- What holds before a statement is executed and behind its execution, holds whatever befalls it.
pub statement-keeps {ℓ} :
    {A : Type 0} (P : World → Type ℓ) (body : World → Result DbErr A × World) (w : World)
    → P (advance w)
    → P (body (advance w)).1
    → P (statement body w).1
unfolding statement
statement-keeps P body w p q = meet-keeps P _ _ _ (body (advance w)) (advance w) p q

pub query-SameTable : {A : Type 0} (f : World → A) (w : World) → SameTable w (query f w).1
unfolding query
query-SameTable f w =
    statement-keeps (SameTable w) (λ v. (ok (f v), v)) w (advance-SameTable w) (advance-SameTable w)

-- The columns that the database fills in are no part of a unique key.
violation_stored :
    (row : Row) (id created_at updated_at : ℕ) (rows : List Row)
    → find_violation (record row { id = id; created_at = created_at; updated_at = updated_at }) rows
      ≡ find_violation row rows
unfolding find_violation same_run_id same_ordinal same_backfill
violation_stored row id created_at updated_at rows = refl

inserted-Reach :
    (row : Row) (report : Text) (w : World)
    → Reach w.rows (inserted row report (find_violation row w.rows) w).1.rows
unfolding inserted
inserted-Reach row report w = by_key (find_violation row w.rows) refl
  where
    by_key :
        (k : Option UniqueKey)
        → find_violation row w.rows ≡ k
        → Reach w.rows (inserted row report k w).1.rows
    by_key (some key) e = here
    by_key none e = next here (insert _ (violation_stored row _ _ _ w.rows ∙ e))

pub insert_row-Reach : (row : Row) (w : World) → Reach w.rows (insert_row row w).1.rows
unfolding insert_row
insert_row-Reach row w =
    statement-keeps (λ v. Reach w.rows v.rows)
      (λ v. inserted row (w.env.moments w.tick).report (find_violation row v.rows) v) w
      (before here) (before (inserted-Reach row (w.env.moments w.tick).report (advance w)))
  where
    before : {rows : List Row} → Reach (advance w).rows rows → Reach w.rows rows
    before {rows} = subst (λ start. Reach start rows) (advance-SameTable w).same_rows

pub update_row-Reach :
    (run_id : Text) (f : ℕ → Row → Row) (w : World)
    → ((now : ℕ) (r : Row) → SameIdentity (f now r) r)
    → Reach w.rows (update_row run_id f w).1.rows
unfolding update_row advance updated
update_row-Reach run_id f w keeps =
    statement-keeps (λ v. Reach w.rows v.rows) (updated run_id f) w here
      (next here (change run_id (f (advance w).now) (keeps (advance w).now)))

meet_ok :
    {A : Type 0} (fate : Fate) (report : Text) (done : Result DbErr A × World) (before : World)
    (a : A)
    → (meet fate (λ r. err (connection r)) report done before).0 ≡ ok a
    → meet fate (λ r. err (connection r)) report done before ≡ done
unfolding meet
meet_ok executed report done before a h = refl
meet_ok refused report done before a h = cc
meet_ok unacknowledged report done before a h = cc

-- A statement that reports success was executed.
pub statement-ok :
    {A : Type 0} (body : World → Result DbErr A × World) (w : World) (a : A)
    → (statement body w).0 ≡ ok a
    → statement body w ≡ body (advance w)
unfolding statement
statement-ok body w a h = meet_ok _ _ (body (advance w)) (advance w) a h

meet_answer :
    {A : Type 0} (fate : Fate) (report : Text) (a : A) (v before : World)
    → ((meet fate (λ r. err (connection r)) report (ok a, v) before).0 ≡ ok a)
      ⊎ ((meet fate (λ r. err (connection r)) report (ok a, v) before).0 ≡ err (connection report))
unfolding meet
meet_answer executed report a v before = inl refl
meet_answer refused report a v before = inr refl
meet_answer unacknowledged report a v before = inr refl

-- A query answers from the table, or reports a lost connection.
pub query_cases :
    {A : Type 0} (f : World → A) (w : World)
    → ((query f w).0 ≡ ok (f (advance w)))
      ⊎ ((query f w).0 ≡ err (connection (w.env.moments w.tick).report))
unfolding query statement
query_cases f w = meet_answer _ _ (f (advance w)) (advance w) (advance w)

-- An update that reports success has rewritten the rows of the run.
pub update_row-ok :
    (run_id : Text) (edit : ℕ → Row → Row) (w : World) (found : Option Row)
    → (update_row run_id edit w).0 ≡ ok found
    → (update_row run_id edit w).1.rows ≡ update_where run_id (edit (advance w).now) w.rows
unfolding update_row updated advance
update_row-ok run_id edit w found h =
    ap (λ x. x.1.rows) (statement-ok (updated run_id edit) w found h)

inserted-ok :
    (row : Row) (report : Text) (key : Option UniqueKey) (w : World) (stored : Row)
    → (inserted row report key w).0 ≡ ok stored
    → (key ≡ none)
      × (stored ≡ record row { id = w.next_id; created_at = w.now; updated_at = w.now })
      × ((inserted row report key w).1.rows ≡ w.rows ++ stored ∷ [])
unfolding inserted
inserted-ok row report (some key) w stored h = cc
inserted-ok row report none w stored h =
    let same : record row { id = w.next_id; created_at = w.now; updated_at = w.now } ≡ stored =
      cc in
    (refl, sym same, ap (λ r. w.rows ++ r ∷ []) same)

-- An insertion that reports success has added the row, with the columns that the database fills in,
-- and the row breaks no unique key.
pub insert_row-ok :
    (row : Row) (w : World) (stored : Row)
    → (insert_row row w).0 ≡ ok stored
    → (find_violation row w.rows ≡ none)
      × (stored ≡ record row {
        id = w.next_id;
        created_at = (advance w).now;
        updated_at = (advance w).now;
      })
      × ((insert_row row w).1.rows ≡ w.rows ++ stored ∷ [])
unfolding insert_row advance
insert_row-ok row w stored h =
    let report = (w.env.moments w.tick).report in
    let body = λ (v : World). inserted row report (find_violation row v.rows) v in
    let done = statement-ok body w stored h in
    let (free, same, grown) =
      inserted-ok row report (find_violation row w.rows) (advance w) stored
        (sym (ap (λ x. x.0) done) ∙ h) in
    (free, same, ap (λ x. x.1.rows) done ∙ grown)

-- Every statement is executed and answered.
abbrev pub IsCalm : World → Type 0
IsCalm w = (n : ℕ) → (w.env.moments n).fate ≡ executed

meet-executed :
    {A : Type 0} (fate : Fate) (failed : Text → A) (report : Text) (done : A × World)
    (before : World)
    → fate ≡ executed
    → meet fate failed report done before ≡ done
unfolding meet
meet-executed executed failed report done before h = refl
meet-executed refused failed report done before h = cc
meet-executed unacknowledged failed report done before h = cc

pub statement-executed :
    {A : Type 0} (body : World → Result DbErr A × World) (w : World)
    → IsCalm w
    → statement body w ≡ body (advance w)
unfolding statement
statement-executed body w calm = meet-executed _ _ _ (body (advance w)) (advance w) (calm w.tick)

pub query-executed :
    {A : Type 0} (f : World → A) (w : World)
    → IsCalm w
    → query f w ≡ (ok (f (advance w)), advance w)
unfolding query
query-executed f w calm = statement-executed (λ v. (ok (f v), v)) w calm

pub update_row-answers :
    (run_id : Text) (edit : ℕ → Row → Row) (w : World)
    → IsCalm w
    → (found : Option Row) × ((update_row run_id edit w).0 ≡ ok found)
unfolding update_row updated
update_row-answers run_id edit w calm =
    (_, ap (λ x. x.0) (statement-executed (updated run_id edit) w calm))

-- An update leaves the environment, whatever befalls it.
pub update_row-env :
    (run_id : Text) (edit : ℕ → Row → Row) (w : World) → (update_row run_id edit w).1.env ≡ w.env
unfolding update_row updated advance
update_row-env run_id edit w =
    statement-keeps (λ v. v.env ≡ w.env) (updated run_id edit) w refl refl
