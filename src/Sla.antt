-- ===== src/Sla.antt =====
-- The SLA domain: app/models/sla.py and app/services/sla/.
pub mod Config
pub mod Calculator
pub mod Tiers
pub mod Amounts
pub mod Updates
pub mod Repository
pub mod Demotion
pub mod Latest
pub mod Snapshots
mod Examples
