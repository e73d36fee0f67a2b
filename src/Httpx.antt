-- ===== src/Httpx.antt =====
-- The shared HTTP layer of the adapters (internal/adapters/httpx).
pub mod Breaker
pub mod Errors
pub mod Attempt
pub mod Client
