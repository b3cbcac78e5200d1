-- ===== src/Jobs.antt =====
-- The jobs of app/models/job.py: how a task changes its record (`DatabaseTask` of
-- app/tasks/sla_tasks.py), and the reclaiming and clean-up of app/services/job_cleanup.py.
pub mod Rows
pub mod Lifecycle
pub mod Cleanup
pub mod Sweeps
pub mod Leases
pub mod Endpoints
pub mod Flags
pub mod Retries
pub mod Restarts
pub mod Successes
pub mod RetrySteps
pub mod Requests
mod Examples
