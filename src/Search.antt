-- ===== src/Search.antt =====
-- src/search/: the search of a user's captures.
pub mod ObjectId
pub mod Hits
pub mod Searcher
