-- ===== src/Service.antt =====
-- internal/service/job_service.go, by groups of operations.
pub mod Queue
pub mod Handlers
pub mod Fetch
pub mod Outcomes
pub mod Reclaim
