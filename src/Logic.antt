-- ===== src/Logic.antt =====
-- src/logic/: the work of the tasks, and the coordination of follow-up tasks.
pub mod Beacon
pub mod Illuminate
