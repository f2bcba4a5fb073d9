-- ===== src/Search/ObjectId/Fields.antt =====
-- The ids that `parse_fields` reads back.
use dreamscroll.Base.{
  ℕ, ◌-◌, ◌<◌, ◌≡◌, ◌≢◌, refl, ap, ◌∙◌, true, false, ◌&&◌, List, [], ◌∷◌, ◌++◌, inl, inr, ltb,
  eq→==, if◌then◌else◌, Bool-cases, All, All-map, arith,
}
use dreamscroll.Base.Words.{I32}
use dreamscroll.Base.Text.{Text, codes, split, split-cons, strip_prefix}
use dreamscroll.Base.Results.{Result, ok, err}
use dreamscroll.Base.Decimal.{digits, show_i32}
use dreamscroll.Base.Decimal.RoundTrip.{
  IsDigit, digits-IsDigit, parse_i32-show_i32, show_i32-small, show_i32-large,
}
use dreamscroll.Search.ObjectId.{data_object_id, field, fields, from_parts, parse_fields}

abbrev Misses : ℕ → ℕ → Type 0
Misses at c = c ≢ at

split-before : (at : ℕ) (s t : Text) → All (Misses at) s → split at (s ++ (at ∷ t)) ≡ s ∷ split at t
unfolding split
split-before at [] t h = ground arith
split-before at (c ∷ s) t h = let later = split-before at s t h.1 in rw later (ground (arith, h.0))

split-last : (at : ℕ) (s : Text) → All (Misses at) s → split at s ≡ s ∷ []
unfolding split
split-last at [] h = refl
split-last at (c ∷ s) h = let later = split-last at s h.1 in rw later (ground (arith, h.0))

IsDigit-undashed : (s : Text) → All IsDigit s → All (Misses b'-') s
IsDigit-undashed s = All-map IsDigit (Misses b'-') s (λ c h e. omega (arith, h.0))

digits-undashed : (n : ℕ) → All (Misses b'-') (digits 10 n [])
digits-undashed n = IsDigit-undashed (digits 10 n []) (digits-IsDigit 10 n [] tt)

show_i32-undashed : (n : I32) → n < 2147483648 → All (Misses b'-') (show_i32 n)
show_i32-undashed n h = rw (show_i32-small n (ground arith)) (digits-undashed n)

field_lem :
    (letter : ℕ) (missing malformed : Text) (n : I32)
    → n < 4294967296
    → field letter missing malformed (letter ∷ show_i32 n) ≡ ok n
unfolding field strip_prefix
field_lem letter missing malformed n h =
    rw (eq→== letter letter refl) (rw (parse_i32-show_i32 n h) refl)

fields_lem :
    (user capture : I32)
    → user < 4294967296
    → capture < 4294967296
    → fields (b'u' ∷ show_i32 user) (b'c' ∷ show_i32 capture) ≡ ok (user, capture)
unfolding fields
fields_lem user capture p q =
    rw
      (field_lem b'u' (codes "data_object_id user missing 'u' prefix")
        (codes "user id is not an integer") user p)
      (rw
        (field_lem b'c' (codes "data_object_id capture missing 'c' prefix")
          (codes "capture id is not an integer") capture q)
        refl)

-- The part of a number below 0 is cut behind its letter.
module _ (letter : ℕ) (named : Misses b'-' letter) (n : I32) where
  split-positive :
      ltb n 2147483648 ≡ true
      → (t : Text)
      → split b'-' ((letter ∷ show_i32 n) ++ (b'-' ∷ t)) ≡ (letter ∷ show_i32 n) ∷ split b'-' t
  split-positive h t =
      split-before b'-' (letter ∷ show_i32 n) t (named, show_i32-undashed n (ground arith))

  split-negative :
      ltb n 2147483648 ≡ false
      → (t : Text)
      → split b'-' ((letter ∷ show_i32 n) ++ t)
        ≡ (letter ∷ []) ∷ split b'-' (digits 10 (4294967296 - n) [] ++ t)
  split-negative h t =
      rw (show_i32-large n h)
        (split-before b'-' (letter ∷ []) (digits 10 (4294967296 - n) [] ++ t) (named, tt))

named_u : Misses b'-' b'u'
named_u = λ e. omega (arith, e)

named_c : Misses b'-' b'c'
named_c = λ e. omega (arith, e)

abbrev capture_part : I32 → Text
capture_part capture = b'c' ∷ show_i32 capture

split-capture_positive :
    (capture : I32)
    → ltb capture 2147483648 ≡ true
    → split b'-' (capture_part capture) ≡ capture_part capture ∷ []
split-capture_positive capture h =
    split-last b'-' (capture_part capture) (named_c, show_i32-undashed capture (ground arith))

split-capture_negative :
    (capture : I32)
    → ltb capture 2147483648 ≡ false
    → split b'-' (capture_part capture) ≡ (b'c' ∷ []) ∷ digits 10 (4294967296 - capture) [] ∷ []
split-capture_negative capture h = rw (show_i32-large capture h) (
    split-before b'-' (b'c' ∷ []) (digits 10 (4294967296 - capture) []) (named_c, tt)
    ∙ ap (λ ps. (b'c' ∷ []) ∷ ps)
        (split-last b'-' (digits 10 (4294967296 - capture) [])
          (digits-undashed (4294967296 - capture))))

abbrev extra_segments : Result Text (I32 × I32)
extra_segments = err (codes "unexpected extra doc_id segments")

from_parts-extra :
    (u p : Text) (t : Text) (ts : List Text) (qs : List Text)
    → qs ≡ t ∷ ts
    → from_parts (u ∷ p ∷ qs) ≡ extra_segments
unfolding from_parts
from_parts-extra u p t ts [] h = absurd (cc)
from_parts-extra u p t ts (q ∷ qs) h = refl

module _ (user capture : I32) where
  from_parts_both :
      user < 4294967296
      → capture < 4294967296
      → from_parts ((b'u' ∷ show_i32 user) ∷ capture_part capture ∷ []) ≡ ok (user, capture)
  unfolding from_parts
  from_parts_both p q = fields_lem user capture p q

  split_both :
      ltb user 2147483648 ≡ true
      → ltb capture 2147483648 ≡ true
      → split b'-' (data_object_id user capture)
        ≡ (b'u' ∷ show_i32 user) ∷ capture_part capture ∷ []
  unfolding data_object_id
  split_both p q =
      split-positive b'u' named_u user p (capture_part capture)
      ∙ ap (λ ps. (b'u' ∷ show_i32 user) ∷ ps) (split-capture_positive capture q)

  split_capture :
      ltb user 2147483648 ≡ true
      → ltb capture 2147483648 ≡ false
      → split b'-' (data_object_id user capture)
        ≡ (b'u' ∷ show_i32 user) ∷ (b'c' ∷ []) ∷ digits 10 (4294967296 - capture) [] ∷ []
  unfolding data_object_id
  split_capture p q =
      split-positive b'u' named_u user p (capture_part capture)
      ∙ ap (λ ps. (b'u' ∷ show_i32 user) ∷ ps) (split-capture_negative capture q)

  split_user :
      ltb user 2147483648 ≡ false
      → split b'-' (data_object_id user capture)
        ≡ (b'u' ∷ []) ∷ digits 10 (4294967296 - user) [] ∷ split b'-' (capture_part capture)
  unfolding data_object_id
  split_user p =
      split-negative b'u' named_u user p (b'-' ∷ capture_part capture)
      ∙ ap (λ ps. (b'u' ∷ []) ∷ ps)
          (split-before b'-' (digits 10 (4294967296 - user) []) (capture_part capture)
            (digits-undashed (4294967296 - user)))

-- An object id is read back exactly if neither id is below 0; with an id below 0 the result is
-- the error that there are too many parts.
pub parse_fields-data_object_id :
    (user capture : I32)
    → user < 4294967296
    → capture < 4294967296
    → parse_fields (data_object_id user capture) ≡ (
        if ltb user 2147483648 && ltb capture 2147483648
        then ok (user, capture)
        else extra_segments)
unfolding parse_fields
parse_fields-data_object_id user capture p q = elim (Bool-cases (ltb user 2147483648)) [
  | inl u ↦ elim (Bool-cases (ltb capture 2147483648)) [
    | inl c ↦
        rw u (rw c (ap from_parts (split_both user capture u c) ∙ from_parts_both user capture p q))
    | inr c ↦ rw u (
        rw c (
          ap from_parts (split_capture user capture u c)
          ∙ from_parts-extra (b'u' ∷ show_i32 user) (b'c' ∷ [])
              (digits 10 (4294967296 - capture) []) [] _ refl))
  ]
  | inr u ↦
      let (s, ss, h) = split-cons b'-' (capture_part capture) in
      rw u (
        ap from_parts (split_user user capture u)
        ∙ from_parts-extra (b'u' ∷ []) (digits 10 (4294967296 - user) []) s ss _ h)
]
