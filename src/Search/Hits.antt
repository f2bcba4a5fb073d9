-- ===== src/Search/Hits.antt =====
-- The hits of a search, and the loop that makes capture ids of them: src/search/searcher.rs and
-- src/search/capture_searcher.rs.
pub mod First
use dreamscroll.Base.{
  ℕ, Bool, true, false, not, ◌||◌, Option, none, some, List, [], ◌∷◌, ◌++◌, ◌==◌, if◌then◌else◌,
}
use dreamscroll.Base.Words.{I32}
use dreamscroll.Base.Text.{Text}
use dreamscroll.Base.Results.{Result, ok, err}
use dreamscroll.Search.ObjectId.{parse_fields}

-- The score of a hit is not read.
pub record SearchHit : Type 0 where
  pub object_id : Text

pub record SearchResultPage : Type 0 where
  pub hits : List SearchHit
  pub next_page_token : Option Text

unfoldable pub contains : I32 → List I32 → Bool
contains i [] = false
contains i (j ∷ js) = i == j || contains i js

-- The variables of the loop.
pub record Found : Type 0 where
  pub seen_capture_ids : List I32
  pub capture_ids : List I32

abbrev pub nothing_found : Found
nothing_found = record { seen_capture_ids = []; capture_ids = [] }

unfoldable pub insert_new : I32 → Found → Found
unfolding contains
insert_new capture_id found = if contains capture_id found.seen_capture_ids then found else record {
  seen_capture_ids = capture_id ∷ found.seen_capture_ids;
  capture_ids = found.capture_ids ++ capture_id ∷ [];
}

-- `skips` is the loop's test for the query's own capture.
module _ (owner : I32) (skips : I32 → Bool) where
  unfoldable pub take_parsed : Result Text (I32 × I32) → Found → Found
  unfolding insert_new
  take_parsed (err e) found = found
  take_parsed (ok (user_id, capture_id)) found =
      if not (user_id == owner)
      then found
      else if skips capture_id
      then found
      else insert_new capture_id found

  unfoldable pub take_hits : List SearchHit → Found → Found
  unfolding take_parsed parse_fields
  take_hits [] found = found
  take_hits (hit ∷ hits) found = take_hits hits (take_parsed (parse_fields hit.object_id) found)
