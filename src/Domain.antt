-- ===== src/Domain.antt =====
-- internal/domain: the records that the program stores, and their checks.
pub mod Errors
pub mod Job
pub mod ExecutionLog
pub mod Worker
pub mod Clocked
