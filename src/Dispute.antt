-- ===== src/Dispute.antt =====
-- Disputes of SLA results: the rows of app/models/sla_dispute.py and the endpoints of
-- app/api/v1/endpoints/sla_dispute.py, over the results of app/repositories/sla_repository.py.
pub mod Endpoints
pub mod Resolution
pub mod Changes
pub mod Trail
pub mod Audit
pub mod Finality
pub mod Applying
mod Examples
