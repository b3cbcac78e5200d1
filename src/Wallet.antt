-- ===== src/Wallet.antt =====
-- Wallets: the rows and the repository of app/repositories/wallet_repository.py, the registry of
-- app/services/wallet_registry.py that keeps copies of them, and what they make of balances.
pub mod Repository
pub mod Registry
pub mod Responses
pub mod Links
pub mod Creations
pub mod Coherence
pub mod Copies
pub mod Balances
pub mod Runs
mod Examples
