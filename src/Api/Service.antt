-- ===== src/Api/Service.antt =====
-- src/api/service/: what the tasks read and write.
pub mod Store
pub mod Projection
pub mod Records
