-- ===== src/Webhook.antt =====
-- The delivery of webhooks: app/services/webhook_service.py, webhook_signing.py and
-- app/models/webhook.py.
pub mod Rows
pub mod Signing
pub mod Metrics
pub mod Redaction
pub mod Ssrf
pub mod Autoscaler
pub mod Dispatch
pub mod Replay
pub mod Trigger
pub mod Codes
pub mod Headers
pub mod UrlChecks
pub mod Attempts
pub mod Failures
pub mod Deaths
pub mod Keeping
pub mod Keepers
pub mod Runs
pub mod Finality
pub mod Routing
pub mod Endpoints
pub mod Resends
pub mod Stands
pub mod Requests
pub mod Secrets
mod Examples
