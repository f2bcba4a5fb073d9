-- ===== src/Search/Searcher/Own.antt =====
-- What a search answers.
use mathlib.Core.Path.{subst}
use dreamscroll.Base.{
  ℕ, ◌≡◌, refl, sym, ap, ◌∙◌, Bool, false, ◌==◌, Option, none, some, List, [], inl, inr, ◌∷◌,
  Distinct,
}
use dreamscroll.Base.Words.{I32}
use dreamscroll.Base.Text.{Text}
use dreamscroll.Base.Results.{Result, ok, err, Result-cases}
use dreamscroll.Error.{ApiError, internal, new}
use dreamscroll.Auth.{Context, user_id}
use dreamscroll.Search.ObjectId.{data_object_id}
use dreamscroll.Search.Hits.{SearchResultPage, contains}
use dreamscroll.Search.Hits.First.{
  own_captures, first_only, take_hits-first_only, first_only-Distinct, first_only-without,
}
use dreamscroll.Search.Searcher.{
  CaptureSearcher, trim, query_params, own_ids, search_query, search, search_like, search_similar,
}

-- The captures of the user that a page names, each once, at its first place.
abbrev IsOwn : Context → (I32 → Bool) → SearchResultPage → List I32 → Type 0
IsOwn user_context skips page ids =
    (ids ≡ first_only [] (own_captures (user_id user_context) skips page.hits)) × Distinct ids

own_ids-IsOwn :
    (user_context : Context) (skips : I32 → Bool) (page : SearchResultPage)
    → IsOwn user_context skips page (own_ids user_context skips page)
unfolding own_ids
own_ids-IsOwn user_context skips page =
    let found = take_hits-first_only (user_id user_context) skips page.hits in
    (
      found,
      subst Distinct (sym found)
          (first_only-Distinct [] (own_captures (user_id user_context) skips page.hits)),
    )

module _ {E : Type 0} (s : CaptureSearcher E) (user_context : Context) where
  -- The answers of a search by a trimmed query.
  pub data SearchAnswer (query : Text) (limit : Option ℕ)
      : Result ApiError (List I32) → Type 0 where
    blank : query ≡ [] → SearchAnswer query limit (ok [])
    failed :
        {error : ApiError} → error.http_status_code ≡ 500 → SearchAnswer query limit (err error)
    found :
        {ids : List I32} (embedding : E) (page : SearchResultPage)
        → s.embed_query query ≡ ok embedding
        → s.search_hybrid query embedding (query_params user_context limit) ≡ ok page
        → IsOwn user_context (λ capture_id. false) page ids
        → SearchAnswer query limit (ok ids)

  pub data SimilarAnswer (query_capture_id : I32) (limit : Option ℕ)
      : Result ApiError (List I32) → Type 0 where
    unknown :
        s.fetch_object_embedding (data_object_id (user_id user_context) query_capture_id) ≡ ok none
        → SimilarAnswer query_capture_id limit (ok [])
    failed :
        {error : ApiError}
        → error.http_status_code ≡ 500
        → SimilarAnswer query_capture_id limit (err error)
    found :
        {ids : List I32} (embedding : E) (page : SearchResultPage)
        → s.fetch_object_embedding (data_object_id (user_id user_context) query_capture_id)
          ≡ ok (some embedding)
        → s.search_embedding embedding (query_params user_context limit) ≡ ok page
        → IsOwn user_context (λ capture_id. capture_id == query_capture_id) page ids
        → contains query_capture_id ids ≡ false
        → SimilarAnswer query_capture_id limit (ok ids)

  search_query-answer :
      (query : Text) (limit : Option ℕ)
      → SearchAnswer query limit (search_query s user_context query limit)
  unfolding search_query internal new
  search_query-answer [] limit = blank refl
  search_query-answer (c ∷ query) limit = elim (Result-cases (s.embed_query (c ∷ query))) [
    | inl (embedding, embeds) ↦
        elim (Result-cases
          (s.search_hybrid (c ∷ query) embedding (query_params user_context limit))) [
            | inl (page, searches) ↦
                rw (embeds, searches)
                  (found embedding page embeds searches
                    (own_ids-IsOwn user_context (λ capture_id. false) page))
            | inr (e, fails) ↦ rw (embeds, fails) (failed refl)
          ]
    | inr (e, fails) ↦ rw fails (failed refl)
  ]

  -- A search with a blank query answers with no captures. Another one answers with the captures of
  -- the user that the page of its query names, each once and in the page's order, or with 500.
  pub search-answer :
      (query : Text) (limit : Option ℕ)
      → SearchAnswer (trim query) limit (search s user_context query limit)
  unfolding search
  search-answer query limit = search_query-answer (trim query) limit

  -- A search for captures like one of the user's own answers with no captures where that one has no
  -- embedding. Otherwise it answers with the captures of the user that the page of the embedding
  -- names, each once, in the page's order and without the one asked about, or with 500.
  pub search_similar-answer :
      (query_capture_id : I32) (limit : Option ℕ)
      → SimilarAnswer query_capture_id limit (search_similar s user_context query_capture_id limit)
  unfolding search_similar search_like internal new
  search_similar-answer query_capture_id limit =
      elim (Result-cases
        (s.fetch_object_embedding (data_object_id (user_id user_context) query_capture_id))) [
          | inl (none, fetches) ↦ rw fetches (unknown fetches)
          | inl (some embedding, fetches) ↦
              elim (Result-cases (s.search_embedding embedding (query_params user_context limit))) [
                | inl (page, searches) ↦
                    rw (fetches, searches)
                      (found embedding page fetches searches
                        (own_ids-IsOwn user_context (λ capture_id. capture_id == query_capture_id)
                          page)
                        (ap (contains query_capture_id)
                            (own_ids-IsOwn user_context
                              (λ capture_id. capture_id == query_capture_id) page).0
                          ∙ first_only-without (user_id user_context) query_capture_id page.hits))
                | inr (e, fails) ↦ rw (fetches, fails) (failed refl)
              ]
          | inr (e, fails) ↦ rw fails (failed refl)
        ]
