-- ===== src/Jobs/Rows.antt =====
-- A record of app/models/job.py, less its progress, its results and the columns that tell why it was
-- dead-lettered or quarantined. Times are ticks.
use noc_iq_be.Prelude.{ℕ, String, Bool, true, false, Option, List, str_eq}

pub data JobStatus : Type 0 where
  pending started success failure revoked quarantined dead_letter : JobStatus

pub data JobType : Type 0 where
  sla_computation webhook_dispatch bulk_sla_computation webhook_dr_replay : JobType

abbrev pub same_status : JobStatus → JobStatus → Bool
same_status pending pending = true
same_status started started = true
same_status success success = true
same_status failure failure = true
same_status revoked revoked = true
same_status quarantined quarantined = true
same_status dead_letter dead_letter = true
same_status _ _ = false

-- A flag that is NULL is not true.
pub record Job : Type 0 where
  pub id : String
  pub celery_task_id : String
  pub job_type : JobType
  pub payload : Option String
  pub retry_class : Option String
  pub status : JobStatus
  pub retry_count : ℕ
  pub max_retries : ℕ
  pub error : Option String
  pub started_at : Option ℕ
  pub finished_at : Option ℕ
  pub heartbeat_at : Option ℕ
  pub lease_expires_at : Option ℕ
  pub worker_id : Option String
  pub under_investigation : Bool
  pub under_dispute : Bool
  pub audit_critical : Bool

abbrev pub Jobs : Type 0
Jobs = List Job

abbrev pub has_task : String → Job → Bool
has_task task job = str_eq job.celery_task_id task

abbrev pub has_id : String → Job → Bool
has_id id job = str_eq job.id id
