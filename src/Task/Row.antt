-- ===== src/Task/Row.antt =====
-- src/model/task_run.rs: a row of the table `task_runs`, with its unique keys. Times are in
-- microseconds; the payload is the text of its JSON.
use dreamscroll.Base.{
  ℕ, ◌≡◌, Bool, false, Option, none, some, List, [], ◌∷◌, ◌&&◌, ◌||◌, ◌==◌, if◌then◌else◌,
}
use dreamscroll.Base.Words.{I32, lt_i32}
use dreamscroll.Base.Int.{ℤ}
use dreamscroll.Base.Text.{Text, text_eq}

pub record Row : Type 0 where
  pub id : ℕ
  pub logical_id : Text
  pub run_id : Text
  pub run_number : I32
  pub backfill_id : Option Text
  pub task_type : Text
  pub entity_owner_id : I32
  pub entity_type : Text
  pub entity_id : I32
  pub task_payload : Option Text
  pub status_code : I32
  pub attempts : I32
  pub created_at : ℕ
  pub processing_started_at : Option ℕ
  pub last_error_code : Option I32
  pub last_error_message : Option Text
  pub last_error_duration_ms : Option ℤ
  pub success_duration_ms : Option ℤ
  pub updated_at : ℕ

-- The unique keys, by the names of their constraints in the database.
pub data UniqueKey : Type 0 where
  run_id_key task_run_key backfill_task_key : UniqueKey

unfoldable pub same_run_id : Row → Row → Bool
same_run_id r s = text_eq r.run_id s.run_id

unfoldable pub same_ordinal : Row → Row → Bool
same_ordinal r s = text_eq r.logical_id s.logical_id && r.run_number == s.run_number

-- An SQL equation of two nullable columns, in a test: NULL equals nothing.
unfoldable pub same_text : Option Text → Option Text → Bool
same_text none b = false
same_text (some a) none = false
same_text (some a) (some b) = text_eq a b

unfoldable pub same_backfill : Row → Row → Bool
unfolding same_text
same_backfill r s = same_text r.backfill_id s.backfill_id && text_eq r.logical_id s.logical_id

unfoldable pub any : (Row → Bool) → List Row → Bool
any p [] = false
any p (r ∷ rows) = p r || any p rows

-- The first unique index that a new row would break.
unfoldable pub find_violation : Row → List Row → Option UniqueKey
unfolding any
find_violation new rows =
    if any (same_run_id new) rows
    then some run_id_key
    else if any (same_ordinal new) rows
    then some task_run_key
    else if any (same_backfill new) rows
    then some backfill_task_key
    else none

unfoldable pub find : (Row → Bool) → List Row → Option Row
find p [] = none
find p (r ∷ rows) = if p r then some r else find p rows

unfoldable pub filter : (Row → Bool) → List Row → List Row
filter p [] = []
filter p (r ∷ rows) = if p r then r ∷ filter p rows else filter p rows

unfoldable pub newer : Row → Option Row → Option Row
newer r none = some r
newer r (some s) = if lt_i32 s.run_number r.run_number then some r else some s

-- The row with the greatest run number: `ORDER BY run_number DESC`, the first row.
unfoldable pub latest : List Row → Option Row
unfolding newer
latest [] = none
latest (r ∷ rows) = newer r (latest rows)

-- `UPDATE … WHERE run_id = …`, on the whole table.
unfoldable pub update_where : Text → (Row → Row) → List Row → List Row
update_where run_id f [] = []
update_where run_id f (r ∷ rows) =
    (if text_eq r.run_id run_id then f r else r) ∷ update_where run_id f rows

-- The columns that no update writes: what the row is about.
pub record SameIdentity (r s : Row) : Type 0 where
  pub same_id_column : r.id ≡ s.id
  pub same_logical_id_column : r.logical_id ≡ s.logical_id
  pub same_run_id_column : r.run_id ≡ s.run_id
  pub same_run_number_column : r.run_number ≡ s.run_number
  pub same_backfill_id_column : r.backfill_id ≡ s.backfill_id
  pub same_task_type_column : r.task_type ≡ s.task_type
  pub same_entity_owner_id_column : r.entity_owner_id ≡ s.entity_owner_id
  pub same_entity_type_column : r.entity_type ≡ s.entity_type
  pub same_entity_id_column : r.entity_id ≡ s.entity_id
  pub same_task_payload_column : r.task_payload ≡ s.task_payload
  pub same_created_at_column : r.created_at ≡ s.created_at
