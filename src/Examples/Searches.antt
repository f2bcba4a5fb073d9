-- ===== src/Examples/Searches.antt =====
-- Small inputs for the theorems about src/search/ and the identity of tasks.
use dreamscroll.Base.{◌≡◌, refl, ◌∷◌, [], none, some, arith}
use dreamscroll.Base.Words.{I32}
use dreamscroll.Base.Text.{Text, codes}
use dreamscroll.Base.Results.{ok, err}
use dreamscroll.Base.Decimal.{show_i32}
use dreamscroll.Task.Definition.{Task, make_logical_id}
use dreamscroll.Task.Kinds.{IlluminationTask, illumination_task, new_illumination_task, v2}
use dreamscroll.Task.Definition.Identity.{make_logical_id-injective}
use dreamscroll.Search.ObjectId.{data_object_id, parse_fields}
use dreamscroll.Search.ObjectId.Fields.{parse_fields-data_object_id}
use dreamscroll.Search.Hits.{SearchHit, SearchResultPage}
use dreamscroll.Search.Searcher.{CaptureSearcher, trim, clamped, search, search_similar}
use dreamscroll.Search.Searcher.Own.{
  SearchAnswer, SimilarAnswer, search-answer, search_similar-answer,
}
use dreamscroll.Examples.{index_task, capture_42, alice}

-- Two illuminations of one capture, by different models.
abbrev by_model : Text → IlluminationTask
by_model model_id = new_illumination_task 42 4294967295 model_id v2

abbrev illuminating : Task IlluminationTask
illuminating = illumination_task (λ task. ok [])

make_logical_id-injective_example : ◌≡◌ {A = I32} 4294967295 4294967295 × ◌≡◌ {A = I32} 42 42
unfolding make_logical_id new_illumination_task
make_logical_id-injective_example =
    make_logical_id-injective illuminating (by_model (codes "a")) (by_model (codes "b"))
      (omega arith) (omega arith) (omega arith) (omega arith) refl

logical_id_42 : make_logical_id index_task capture_42 ≡ codes "u1-search_index-capture42"
unfolding make_logical_id show_i32
logical_id_42 = refl

parse_fields-data_object_id_example :
    parse_fields (data_object_id 4294967291 8) ≡ err (codes "unexpected extra doc_id segments")
parse_fields-data_object_id_example =
    parse_fields-data_object_id 4294967291 8 (omega arith) (omega arith)

abbrev hit : Text → SearchHit
hit object_id = record { object_id = object_id }

-- Hits of two users, one of them twice, and one that is no object id.
abbrev page : SearchResultPage
page = record {
  hits =
      hit (codes "u1-c5")
      ∷ hit (codes "u2-c6")
      ∷ hit (codes "u1-c9-c3")
      ∷ hit (codes "u1-c5")
      ∷ hit (codes "u1-c8")
      ∷ [];
  next_page_token = none;
}

-- A searcher whose embeddings are texts.
abbrev searcher : CaptureSearcher Text
searcher = record {
  embed_query = λ query. ok query;
  search_hybrid = λ query embedding params. ok page;
  search_embedding = λ embedding params. ok page;
  fetch_object_embedding = λ object_id. ok (some object_id);
}

search-answer_example :
    SearchAnswer searcher alice
      (trim (codes " cat "))
      (some 5)
      (search searcher alice (codes " cat ") (some 5))
search-answer_example = search-answer searcher alice (codes " cat ") (some 5)

search_finds : search searcher alice (codes " cat ") (some 5) ≡ ok (5 ∷ 8 ∷ [])
unfolding search parse_fields
search_finds = refl

trims : trim (codes "  a cat ") ≡ codes "a cat"
unfolding trim
trims = refl

clamps : clamped (some 5000) ≡ 1000
unfolding clamped
clamps = refl

search_similar-answer_example :
    SimilarAnswer searcher alice 5 none (search_similar searcher alice 5 none)
search_similar-answer_example = search_similar-answer searcher alice 5 none

similar_finds : search_similar searcher alice 5 none ≡ ok (8 ∷ [])
unfolding search_similar parse_fields
similar_finds = refl
