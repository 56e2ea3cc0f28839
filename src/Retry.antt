-- ===== src/Retry.antt =====
-- internal/retry, and the policy of internal/domain/retry.go.
pub mod Float
pub mod Backoff
pub mod Engine
