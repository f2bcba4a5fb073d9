-- ===== src/Task.antt =====
-- src/task/: background tasks, their runs in the database and the queues that deliver them.
pub mod Status
pub mod Definition
pub mod Row
pub mod Timing
pub mod Kinds
pub mod Table
pub mod Database
pub mod Publisher
pub mod Tracker
pub mod Master
pub mod LocalQueue
pub mod Catchup
