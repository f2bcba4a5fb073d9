-- ===== src/Api.antt =====
-- src/api/: the service API, and captures in the user API.
pub mod Service
pub mod Captures
