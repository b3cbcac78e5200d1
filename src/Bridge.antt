-- ===== src/Bridge.antt =====
-- The contract bridge: app/services/contracts/.
pub mod Breaker
pub mod BreakerRuns
pub mod Fallback
pub mod FallbackResults
pub mod Guard
pub mod GuardChecks
pub mod GuardRuns
pub mod Balance
pub mod BalanceReads
mod Examples
