-- ===== src/Sse.antt =====
-- src/sse/: the events that are streamed to clients.
pub mod Event
pub mod Http
pub mod Listener
