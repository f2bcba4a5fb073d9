-- ===== src/Search/ObjectId.antt =====
-- The id of a capture's data object: src/search/capture_data_object.rs and `parse_fields` of
-- src/search/capture_searcher.rs. An error is its outermost message.
pub mod Fields
use dreamscroll.Base.{ℕ, Option, none, some, List, [], ◌∷◌, ◌++◌, ◌==◌, if◌then◌else◌}
use dreamscroll.Base.Words.{I32}
use dreamscroll.Base.Text.{Text, codes, split, strip_prefix}
use dreamscroll.Base.Results.{Result, ok, err, and_then, ok_or}
use dreamscroll.Base.Decimal.{show_i32, parse_i32}

unfoldable pub data_object_id : I32 → I32 → Text
data_object_id user_id capture_id =
    b'u' ∷ (show_i32 user_id ++ (b'-' ∷ (b'c' ∷ show_i32 capture_id)))

-- One part: its letter, then a number.
unfoldable pub field : ℕ → Text → Text → Text → Result Text I32
unfolding strip_prefix parse_i32
field letter missing malformed part =
    and_then (ok_or missing (strip_prefix letter part))
      (λ digits. ok_or malformed (parse_i32 digits))

unfoldable pub fields : Text → Text → Result Text (I32 × I32)
unfolding field
fields user capture =
    and_then
      (field b'u' (codes "data_object_id user missing 'u' prefix")
        (codes "user id is not an integer") user)
      (λ user_id.
        and_then
          (field b'c' (codes "data_object_id capture missing 'c' prefix")
            (codes "capture id is not an integer") capture)
          (λ capture_id. ok (user_id, capture_id)))

unfoldable pub from_parts : List Text → Result Text (I32 × I32)
unfolding fields
from_parts [] = err (codes "data_object_id missing user")
from_parts (user ∷ []) = err (codes "data_object_id missing capture")
from_parts (user ∷ capture ∷ []) = fields user capture
from_parts (user ∷ capture ∷ extra ∷ parts) = err (codes "unexpected extra doc_id segments")

unfoldable pub parse_fields : Text → Result Text (I32 × I32)
unfolding from_parts split
parse_fields doc_id = from_parts (split b'-' doc_id)
