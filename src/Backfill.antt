-- ===== src/Backfill.antt =====
-- src/backfill/: batches of tasks that an administrator pumps into the queues.
pub mod Definition
pub mod Engine
