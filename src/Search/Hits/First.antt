-- ===== src/Search/Hits/First.antt =====
-- What the loop over the hits computes: the first occurrence of each capture of the owner.
use mathlib.Core.List.{append-nil}
use dreamscroll.Base.{
  ◌≡◌, ◌≢◌, refl, sym, ap, ◌∙◌, Bool, true, false, not, ◌&&◌, ◌||◌, List, [], ◌∷◌, ◌++◌, inl, inr,
  ◌==◌, ==→eq, if◌then◌else◌, Bool-cases, All, All-map, Distinct, append_assoc, arith,
}
use dreamscroll.Base.Words.{I32}
use dreamscroll.Base.Text.{Text}
use dreamscroll.Base.Results.{Result, ok, err}
use dreamscroll.Search.ObjectId.{parse_fields}
use dreamscroll.Search.Hits.{
  SearchHit, contains, Found, nothing_found, insert_new, take_parsed, take_hits,
}

-- The captures that the hits of the owner name, with repetitions.
module _ (owner : I32) (skips : I32 → Bool) where
  own_capture : Result Text (I32 × I32) → List I32
  own_capture (err e) = []
  own_capture (ok (user_id, capture_id)) =
      if not (user_id == owner) || skips capture_id then [] else capture_id ∷ []

  unfoldable pub own_captures : List SearchHit → List I32
  unfolding own_capture
  own_captures [] = []
  own_captures (hit ∷ hits) = own_capture (parse_fields hit.object_id) ++ own_captures hits

-- The items that are not in a list, each at its first place.
unfoldable pub first_only : List I32 → List I32 → List I32
unfolding contains
first_only seen [] = []
first_only seen (i ∷ is) =
    let fresh = not (contains i seen) in
    let later = first_only (i ∷ seen) is in
    let rest = first_only seen is in if fresh then i ∷ later else rest

insert_all : List I32 → Found → Found
insert_all [] found = found
insert_all (i ∷ is) found = insert_all is (insert_new i found)

module _ (owner : I32) (skips : I32 → Bool) where
  take_parsed-insert_all :
      (r : Result Text (I32 × I32)) (found : Found)
      → take_parsed owner skips r found ≡ insert_all (own_capture owner skips r) found
  unfolding take_parsed own_capture insert_all
  take_parsed-insert_all (err e) found = refl
  take_parsed-insert_all (ok (u, c)) found = ground arith

  insert_all-append :
      (is js : List I32) (found : Found)
      → insert_all (is ++ js) found ≡ insert_all js (insert_all is found)
  unfolding insert_all
  insert_all-append [] js found = refl
  insert_all-append (i ∷ is) js found = insert_all-append is js (insert_new i found)

  take_hits-insert_all :
      (hits : List SearchHit) (found : Found)
      → take_hits owner skips hits found ≡ insert_all (own_captures owner skips hits) found
  unfolding take_hits own_captures insert_all
  take_hits-insert_all [] found = refl
  take_hits-insert_all (hit ∷ hits) found =
      let r = parse_fields hit.object_id in
      ap (take_hits owner skips hits) (take_parsed-insert_all r found)
      ∙ take_hits-insert_all hits (insert_all (own_capture owner skips r) found)
      ∙ sym (insert_all-append (own_capture owner skips r) (own_captures owner skips hits) found)

insert_new-old :
    (i : I32) (found : Found)
    → contains i found.seen_capture_ids ≡ true
    → insert_new i found ≡ found
unfolding insert_new
insert_new-old i found h = rw h refl

abbrev added : I32 → Found → Found
added i found = record {
  seen_capture_ids = i ∷ found.seen_capture_ids;
  capture_ids = found.capture_ids ++ i ∷ [];
}

insert_new-fresh :
    (i : I32) (found : Found)
    → contains i found.seen_capture_ids ≡ false
    → insert_new i found ≡ added i found
unfolding insert_new
insert_new-fresh i found h = rw h refl

insert_all-first_only :
    (is : List I32) (found : Found)
    → (insert_all is found).capture_ids ≡ found.capture_ids ++ first_only found.seen_capture_ids is
unfolding insert_all first_only
insert_all-first_only [] found = sym (append-nil found.capture_ids)
insert_all-first_only (i ∷ is) found = elim (Bool-cases (contains i found.seen_capture_ids)) [
  | inl old ↦ rw old (
      ap (λ next. (insert_all is next).capture_ids) (insert_new-old i found old)
      ∙ insert_all-first_only is found)
  | inr fresh ↦ rw fresh (
      ap (λ next. (insert_all is next).capture_ids) (insert_new-fresh i found fresh)
      ∙ insert_all-first_only is (added i found)
      ∙ append_assoc found.capture_ids (i ∷ []) (first_only (i ∷ found.seen_capture_ids) is))
]

-- From nothing the loop finds the first occurrence of each capture that the owner's hits name.
pub take_hits-first_only :
    (owner : I32) (skips : I32 → Bool) (hits : List SearchHit)
    → (take_hits owner skips hits nothing_found).capture_ids
      ≡ first_only [] (own_captures owner skips hits)
take_hits-first_only owner skips hits =
    ap (λ found. found.capture_ids) (take_hits-insert_all owner skips hits nothing_found)
    ∙ insert_all-first_only (own_captures owner skips hits) nothing_found

abbrev IsMissing : List I32 → I32 → Type 0
IsMissing seen i = contains i seen ≡ false

IsMissing-tail : (i : I32) (seen : List I32) (j : I32) → IsMissing (i ∷ seen) j → IsMissing seen j
unfolding contains
IsMissing-tail i seen j h = ground arith

IsMissing-head : (i : I32) (seen : List I32) (j : I32) → IsMissing (i ∷ seen) j → i ≢ j
unfolding contains
IsMissing-head i seen j h = ground arith

first_only-IsMissing : (seen is : List I32) → All (IsMissing seen) (first_only seen is)
unfolding first_only
first_only-IsMissing seen [] = tt
first_only-IsMissing seen (i ∷ is) = elim (Bool-cases (contains i seen)) [
  | inl old ↦ rw old (first_only-IsMissing seen is)
  | inr fresh ↦ rw fresh (
    fresh,
    All-map (IsMissing (i ∷ seen)) (IsMissing seen) (first_only (i ∷ seen) is)
        (IsMissing-tail i seen) (first_only-IsMissing (i ∷ seen) is),
  )
]

pub first_only-Distinct : (seen is : List I32) → Distinct (first_only seen is)
unfolding first_only
first_only-Distinct seen [] = tt
first_only-Distinct seen (i ∷ is) = elim (Bool-cases (contains i seen)) [
  | inl old ↦ rw old (first_only-Distinct seen is)
  | inr fresh ↦ rw fresh (
    All-map (IsMissing (i ∷ seen)) (λ j. i ≢ j) (first_only (i ∷ seen) is) (IsMissing-head i seen)
        (first_only-IsMissing (i ∷ seen) is),
    first_only-Distinct (i ∷ seen) is,
  )
]

-- No item gets lost.
pub contains-first_only :
    (j : I32) (seen is : List I32)
    → contains j (first_only seen is) ≡ (contains j is && not (contains j seen))
unfolding contains first_only
contains-first_only j seen [] = refl
contains-first_only j seen (i ∷ is) = elim (Bool-cases (contains i seen)) [
  | inl old ↦ rw old (elim (Bool-cases (j == i)) [
    | inl e ↦
        let same : contains j seen ≡ true = ap (λ k. contains k seen) (==→eq j i e) ∙ old in
        rw (contains-first_only j seen is) (rw same (ground arith))
    | inr e ↦ rw (contains-first_only j seen is) (ground (arith, e))
  ])
  | inr fresh ↦ rw fresh (elim (Bool-cases (j == i)) [
    | inl e ↦
        let same : contains j seen ≡ false = ap (λ k. contains k seen) (==→eq j i e) ∙ fresh in
        rw same (ground (arith, e))
    | inr e ↦ rw (contains-first_only j (i ∷ seen) is) (ground (arith, e))
  ])
]

contains-append :
    (i : I32) (is js : List I32) → contains i (is ++ js) ≡ (contains i is || contains i js)
unfolding contains
contains-append i [] js = refl
contains-append i (k ∷ is) js = rw (contains-append i is js) (ground arith)

module _ (owner skipped : I32) where
  own_capture-without :
      (r : Result Text (I32 × I32))
      → contains skipped (own_capture owner (λ c. c == skipped) r) ≡ false
  unfolding own_capture contains
  own_capture-without (err e) = refl
  own_capture-without (ok (u, c)) = ground arith

  own_captures-without :
      (hits : List SearchHit)
      → contains skipped (own_captures owner (λ c. c == skipped) hits) ≡ false
  unfolding own_captures contains
  own_captures-without [] = refl
  own_captures-without (hit ∷ hits) =
      let r = parse_fields hit.object_id in
      contains-append skipped (own_capture owner (λ c. c == skipped) r)
        (own_captures owner (λ c. c == skipped) hits)
      ∙ rw (own_capture-without r) (own_captures-without hits)

  pub first_only-without :
      (hits : List SearchHit)
      → contains skipped (first_only [] (own_captures owner (λ c. c == skipped) hits)) ≡ false
  first_only-without hits =
      contains-first_only skipped [] (own_captures owner (λ c. c == skipped) hits)
      ∙ rw (own_captures-without hits) refl
