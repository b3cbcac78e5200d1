-- ===== src/Auth.antt =====
-- Authentication: app/services/auth_store.py with the repositories of users, sessions and token
-- families.
pub mod Db
pub mod Tables
pub mod Store
pub mod Renewal
pub mod Lockout
pub mod Tokens
pub mod Chains
pub mod ChainSteps
pub mod Rotation
pub mod Clocks
pub mod Refreshing
pub mod Sessions
mod Examples
