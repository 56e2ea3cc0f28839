-- ===== src/Repository.antt =====
-- internal/repository and internal/repository/sqlite: the three tables behind their SQL.
pub mod Jobs
pub mod Logs
pub mod Stats
pub mod Workers
