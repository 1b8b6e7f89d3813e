-- ===== src/Worker/Rows.antt =====
-- The rows that rca-worker/src/sre_rca_worker/application/rca/job_lifecycle.py reads and writes:
-- `worker_jobs`, `rca_runs` and `worker_attempts`, each a table keyed by its primary or unique key.
-- A UUID is a number that is only compared, and a time is a number of microseconds.
use cloud_sre_ai_agent.Prelude.{ℕ, ◌*◌, Bool, true, false, Option, String, Table}

pub data JobStatus : Type 0 where
  queued running succeeded failed : JobStatus

pub data RunStatus : Type 0 where
  waiting_for_classification queued running succeeded partial failed cancelled : RunStatus

-- `LifecycleFailureCode`
pub data FailureCode : Type 0 where
  deadline_exceeded mcp_timeout mcp_transport policy_denied validation_failed internal_error :
      FailureCode
  no_safe_mcp_capability mcp_payload_too_large mcp_result_invalid analysis_timeout : FailureCode
  analysis_schema_invalid analysis_unknown_evidence analysis_input_truncated : FailureCode
  analysis_failed : FailureCode

pub record Job : Type 0 where
  pub rca_run_id : ℕ
  pub status : JobStatus
  pub attempt_count : ℕ
  pub lease_owner : Option String
  pub lease_expires_at : Option ℕ
  pub available_at : ℕ
  pub started_at : Option ℕ
  pub completed_at : Option ℕ
  pub created_at : ℕ
  pub updated_at : ℕ

pub record Run : Type 0 where
  pub incident_id : ℕ
  pub status : RunStatus
  pub failure_code : Option FailureCode
  pub started_at : Option ℕ
  pub completed_at : Option ℕ
  pub updated_at : ℕ

pub record Attempt : Type 0 where
  pub completed_at : Option ℕ
  pub failure_code : Option FailureCode

-- `attempts` has the key (worker_job_id, attempt_number), which is UNIQUE in the schema.
pub record Db : Type 0 where
  pub jobs : Table Job
  pub runs : Table Run
  pub attempts : ℕ → Table Attempt

abbrev pub is_queued : JobStatus → Bool
is_queued JobStatus.queued = true
is_queued _ = false

abbrev pub is_running : JobStatus → Bool
is_running JobStatus.running = true
is_running _ = false

-- `status IN ('SUCCEEDED','FAILED')`
abbrev pub is_terminal : JobStatus → Bool
is_terminal JobStatus.succeeded = true
is_terminal JobStatus.failed = true
is_terminal _ = false

abbrev pub seconds : ℕ → ℕ
seconds n = n * 1000000
