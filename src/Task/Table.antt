-- ===== src/Task/Table.antt =====
-- What statements can do to the table `task_runs` of src/model/task_run.rs, one at a time and in any
-- interleaving, and what stays true of the table.
use dreamscroll.Base.{
  ◌≡◌, ◌≢◌, refl, sym, ◌∙◌, inl, inr, Bool, false, none, some, List, [], ◌∷◌, ◌++◌, arith,
  if◌then◌else◌, All, Pairwise, Pairwise-snoc, Bool-cases, eq→==,
}
use dreamscroll.Base.Text.{Text, text_eq, eq→text_eq}
use dreamscroll.Task.Row.{
  Row, SameIdentity, any, same_run_id, same_ordinal, same_backfill, same_text, find_violation,
  update_where,
}

-- One statement: an insertion that breaks no unique key, or an update, by run id, of columns that
-- are no part of a row's identity.
pub data Step : List Row → List Row → Type 0 where
  insert :
      {rows : List Row} (row : Row) → find_violation row rows ≡ none → Step rows (rows ++ row ∷ [])
  change :
      {rows : List Row} (run_id : Text) (f : Row → Row)
      → ((r : Row) → SameIdentity (f r) r)
      → Step rows (update_where run_id f rows)

pub data Reach (rows : List Row) : List Row → Type 0 where
  here : Reach rows rows
  next : {rows' rows'' : List Row} → Reach rows rows' → Step rows' rows'' → Reach rows rows''

pub Reach-trans :
    {rows rows' rows'' : List Row} → Reach rows rows' → Reach rows' rows'' → Reach rows rows''
Reach-trans p here = p
Reach-trans p (next q s) = next (Reach-trans p q) s

-- Two rows differ in their run ids, in their logical id or run number, and in their logical id or
-- backfill, if both belong to one.
pub record Apart (r s : Row) : Type 0 where
  pub run : r.run_id ≢ s.run_id
  pub ordinal : r.logical_id ≡ s.logical_id → r.run_number ≢ s.run_number
  pub backfill :
      (b : Text) → r.backfill_id ≡ some b → s.backfill_id ≡ some b → r.logical_id ≢ s.logical_id

abbrev pub HasKeys : List Row → Type 0
HasKeys = Pairwise Apart

-- The rows of the first table are those of the second at the same places, but for columns outside
-- their identity: no row goes and none changes what it is about.
abbrev pub Extends : List Row → List Row → Type 0
Extends [] later = Unit
Extends (r ∷ rows) [] = ⊥
Extends (r ∷ rows) (r' ∷ later) = SameIdentity r' r × Extends rows later

pub SameIdentity-refl : (r : Row) → SameIdentity r r
SameIdentity-refl r = ground arith

pub SameIdentity-trans : (a b c : Row) → SameIdentity a b → SameIdentity b c → SameIdentity a c
SameIdentity-trans a b c h k = ground arith

any-false : (p : Row → Bool) (rows : List Row) → any p rows ≡ false → All (λ r. p r ≡ false) rows
unfolding any
any-false p [] h = tt
any-false p (r ∷ rows) h = (ground arith, any-false p rows (ground arith))

apart :
    (new r : Row)
    → same_run_id new r ≡ false
    → same_ordinal new r ≡ false
    → same_backfill new r ≡ false
    → Apart r new
unfolding same_run_id same_ordinal same_backfill same_text
apart new r a b c = record {
  run = λ e. ground (arith, eq→text_eq new.run_id r.run_id);
  ordinal = λ e n.
      ground (arith, eq→text_eq new.logical_id r.logical_id, eq→== new.run_number r.run_number);
  backfill = λ t p q e. ground (arith, eq→text_eq t t refl, eq→text_eq new.logical_id r.logical_id);
}

All-Apart :
    (new : Row) (rows : List Row)
    → All (λ r. same_run_id new r ≡ false) rows
    → All (λ r. same_ordinal new r ≡ false) rows
    → All (λ r. same_backfill new r ≡ false) rows
    → All (λ r. Apart r new) rows
All-Apart new [] a b c = tt
All-Apart new (r ∷ rows) a b c = (apart new r a.0 b.0 c.0, All-Apart new rows a.1 b.1 c.1)

insert-HasKeys :
    (row : Row) (rows : List Row)
    → HasKeys rows
    → find_violation row rows ≡ none
    → HasKeys (rows ++ row ∷ [])
unfolding find_violation
insert-HasKeys row rows h free = Pairwise-snoc Apart rows row h (
    All-Apart row rows (any-false _ rows (ground arith)) (any-false _ rows (ground arith))
      (any-false _ rows (ground arith)))

Apart-SameIdentity :
    (r s r' s' : Row) → SameIdentity r' r → SameIdentity s' s → Apart r s → Apart r' s'
Apart-SameIdentity r s r' s' h k a = record {
  run = λ e. a.run (sym h.same_run_id_column ∙ e ∙ k.same_run_id_column);
  ordinal = λ e n.
      a.ordinal (sym h.same_logical_id_column ∙ e ∙ k.same_logical_id_column)
        (sym h.same_run_number_column ∙ n ∙ k.same_run_number_column);
  backfill = λ b p q e.
      a.backfill b (sym h.same_backfill_id_column ∙ p) (sym k.same_backfill_id_column ∙ q)
        (sym h.same_logical_id_column ∙ e ∙ k.same_logical_id_column);
}

module _ (run_id : Text) (f : Row → Row) (keeps : (r : Row) → SameIdentity (f r) r) where
  changed-SameIdentity : (r : Row) → SameIdentity (if text_eq r.run_id run_id then f r else r) r
  changed-SameIdentity r = elim (Bool-cases (text_eq r.run_id run_id)) [
    | inl hit ↦ rw hit (keeps r)
    | inr miss ↦ rw miss (SameIdentity-refl r)
  ]

  change-Apart :
      (r r' : Row) (rows : List Row)
      → SameIdentity r' r
      → All (Apart r) rows
      → All (Apart r') (update_where run_id f rows)
  unfolding update_where
  change-Apart r r' [] same h = tt
  change-Apart r r' (s ∷ rows) same h = (
    Apart-SameIdentity r s r' _ same (changed-SameIdentity s) h.0,
    change-Apart r r' rows same h.1,
  )

  change-HasKeys : (rows : List Row) → HasKeys rows → HasKeys (update_where run_id f rows)
  unfolding update_where
  change-HasKeys [] h = tt
  change-HasKeys (r ∷ rows) h =
      (change-Apart r _ rows (changed-SameIdentity r) h.0, change-HasKeys rows h.1)

  change-Extends : (rows : List Row) → Extends rows (update_where run_id f rows)
  unfolding update_where
  change-Extends [] = tt
  change-Extends (r ∷ rows) = (changed-SameIdentity r, change-Extends rows)

insert-Extends : (rows : List Row) (row : Row) → Extends rows (rows ++ row ∷ [])
insert-Extends [] row = tt
insert-Extends (r ∷ rows) row = (SameIdentity-refl r, insert-Extends rows row)

Extends-refl : (rows : List Row) → Extends rows rows
Extends-refl [] = tt
Extends-refl (r ∷ rows) = (SameIdentity-refl r, Extends-refl rows)

Extends-trans : (a b c : List Row) → Extends a b → Extends b c → Extends a c
Extends-trans [] b c h k = tt
Extends-trans (r ∷ a) [] c h k = absurd h
Extends-trans (r ∷ a) (s ∷ b) [] h k = absurd k
Extends-trans (r ∷ a) (s ∷ b) (u ∷ c) h k =
    (SameIdentity-trans u s r k.0 h.0, Extends-trans a b c h.1 k.1)

Step-HasKeys : {rows rows' : List Row} → Step rows rows' → HasKeys rows → HasKeys rows'
Step-HasKeys (insert {rows = rows} row free) h = insert-HasKeys row rows h free
Step-HasKeys (change {rows = rows} run_id f keeps) h = change-HasKeys run_id f keeps rows h

Step-Extends : {rows rows' : List Row} → Step rows rows' → Extends rows rows'
Step-Extends (insert {rows = rows} row free) = insert-Extends rows row
Step-Extends (change {rows = rows} run_id f keeps) = change-Extends run_id f keeps rows

pub Reach-HasKeys : {rows rows' : List Row} → Reach rows rows' → HasKeys rows → HasKeys rows'
Reach-HasKeys here h = h
Reach-HasKeys (next p s) h = Step-HasKeys s (Reach-HasKeys p h)

pub Reach-Extends : {rows rows' : List Row} → Reach rows rows' → Extends rows rows'
Reach-Extends {rows} here = Extends-refl rows
Reach-Extends {rows} {rows'} (next {rows' = mid} p s) =
    Extends-trans rows mid rows' (Reach-Extends p) (Step-Extends s)
