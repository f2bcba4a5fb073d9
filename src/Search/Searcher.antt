-- ===== src/Search/Searcher.antt =====
-- `CaptureSearcher` of src/search/capture_searcher.rs. The embedder, the vector searcher and the
-- vector store are parameters.
pub mod Own
use dreamscroll.Base.{
  ℕ, ◌%◌, Bool, true, false, ◌&&◌, ◌||◌, Option, none, some, List, [], ◌∷◌, ◌++◌, ltb, leb, ◌==◌,
  if◌then◌else◌,
}
use dreamscroll.Base.Words.{I32}
use dreamscroll.Base.Text.{Text, codes}
use dreamscroll.Base.Results.{Result, ok, err, map_err, and_then}
use dreamscroll.Base.Decimal.{show_i32}
use dreamscroll.Error.{ApiError, internal}
use dreamscroll.Auth.{Context, user_id}
use dreamscroll.Search.ObjectId.{data_object_id}
use dreamscroll.Search.Hits.{SearchHit, SearchResultPage, nothing_found, take_hits}

-- `base_filter` is the text of its JSON.
pub record QueryParams : Type 0 where
  pub base_filter : Text
  pub limit : ℕ
  pub page_token : Option Text

pub record CaptureSearcher (E : Type 0) : Type 0 where
  pub embed_query : Text → Result Text E
  pub search_hybrid : Text → E → QueryParams → Result Text SearchResultPage
  pub search_embedding : E → QueryParams → Result Text SearchResultPage
  pub fetch_object_embedding : Text → Result Text (Option E)

unfoldable pub user_filter : I32 → Text
user_filter id = codes "{\"user_id\":{\"$eq\":\"" ++ (show_i32 id ++ codes "\"}}")

-- `unwrap_or(100).clamp(1, 1000) as u32`
unfoldable pub clamped : Option ℕ → ℕ
clamped none = 100
clamped (some n) = (if ltb n 1 then 1 else if ltb 1000 n then 1000 else n) % 4294967296

-- The characters with the property White_Space, and `str::trim`.
is_whitespace : ℕ → Bool
is_whitespace c =
    leb 9 c && leb c 13
    || c == 32
    || c == 133
    || c == 160
    || c == 5760
    || leb 8192 c && leb c 8202
    || c == 8232
    || c == 8233
    || c == 8239
    || c == 8287
    || c == 12288

trim_start : Text → Text
unfolding is_whitespace
trim_start [] = []
trim_start (c ∷ s) = let rest = trim_start s in if is_whitespace c then rest else c ∷ s

is_blank : Text → Bool
is_blank [] = true
is_blank (c ∷ s) = false

trim_end : Text → Text
unfolding is_whitespace is_blank
trim_end [] = []
trim_end (c ∷ s) =
    let rest = trim_end s in if is_blank rest && is_whitespace c then [] else c ∷ rest

unfoldable pub trim : Text → Text
unfolding trim_start trim_end
trim s = trim_end (trim_start s)

unfoldable pub query_params : Context → Option ℕ → QueryParams
unfolding user_filter clamped user_id
query_params user_context limit = record {
  base_filter = user_filter (user_id user_context);
  limit = clamped limit;
  page_token = none;
}

unfoldable pub own_ids : Context → (I32 → Bool) → SearchResultPage → List I32
unfolding take_hits user_id
own_ids user_context skips page =
    (take_hits (user_id user_context) skips page.hits nothing_found).capture_ids

module _ {E : Type 0} (s : CaptureSearcher E) where
  search_query : Context → Text → Option ℕ → Result ApiError (List I32)
  unfolding query_params own_ids internal
  search_query user_context [] limit = ok []
  search_query user_context (c ∷ query) limit =
      and_then (map_err internal (s.embed_query (c ∷ query))) (λ query_embedding.
        and_then
          (map_err internal
            (s.search_hybrid (c ∷ query) query_embedding (query_params user_context limit)))
          (λ page. ok (own_ids user_context (λ capture_id. false) page)))

  unfoldable pub search : Context → Text → Option ℕ → Result ApiError (List I32)
  unfolding search_query trim
  search user_context query limit = search_query user_context (trim query) limit

  -- The search behind the query capture's embedding, if it has one.
  search_like : Context → I32 → Option ℕ → Option E → Result ApiError (List I32)
  unfolding query_params own_ids internal
  search_like user_context query_capture_id limit none = ok []
  search_like user_context query_capture_id limit (some query_embedding) =
      and_then
        (map_err internal (s.search_embedding query_embedding (query_params user_context limit)))
        (λ page. ok (own_ids user_context (λ capture_id. capture_id == query_capture_id) page))

  unfoldable pub search_similar : Context → I32 → Option ℕ → Result ApiError (List I32)
  unfolding search_like data_object_id user_id
  search_similar user_context query_capture_id limit =
      and_then
        (map_err internal
          (s.fetch_object_embedding (data_object_id (user_id user_context) query_capture_id)))
        (search_like user_context query_capture_id limit)
