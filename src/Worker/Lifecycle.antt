-- ===== src/Worker/Lifecycle.antt =====
-- rca-worker/src/sre_rca_worker/application/rca/job_lifecycle.py: `RcaJobHandler`. Each database
-- transaction is a function of its time `now()` and of the tables before it.
pub mod Handle
pub mod Safety
pub mod Fate
pub mod Transitions
pub mod Reach
use cloud_sre_ai_agent.Prelude.{
  ℕ, ◌+◌, min, Bool, true, false, not, ◌&&◌, ◌||◌, Option, none, some, String, Table, update,
  modify, is_some, or_else, ltb, leb, ◌==◌, if◌then◌else◌,
}
use cloud_sre_ai_agent.Prelude.Text.{str_eq}
use cloud_sre_ai_agent.Worker.Rows.{
  JobStatus, RunStatus, FailureCode, deadline_exceeded, mcp_transport, internal_error, Job, Run,
  Attempt, Db, is_queued, is_running, is_terminal, seconds,
}

pub data JobDisposition : Type 0 where
  ack nack : JobDisposition

-- `RcaJobMessage`, whose `schemaVersion` and `attempt` are the literal 1.
pub record Message : Type 0 where
  pub worker_job_id : ℕ
  pub rca_run_id : ℕ
  pub incident_id : ℕ

pub data ResultStatus : Type 0 where
  complete partial failed : ResultStatus

pub record ProcessingResult : Type 0 where
  pub status : ResultStatus
  pub failure_code : Option FailureCode

pub record Claim : Type 0 where
  pub worker_job_id : ℕ
  pub rca_run_id : ℕ
  pub incident_id : ℕ
  pub attempt_number : ℕ
  pub deadline_at : ℕ
  pub lease_owner : String

pub record Handler : Type 0 where
  pub worker_id : String
  pub deadline_seconds : ℕ

-- `RcaJobHandler.__init__`: `none` is the ValueError.
pub new_handler : String → ℕ → Option Handler
new_handler worker_id deadline_seconds =
    if ltb deadline_seconds 1 || ltb 300 deadline_seconds
    then none
    else some (record { worker_id = worker_id; deadline_seconds = deadline_seconds })

-- LEAST(job.created_at + interval '5 minutes', now() + make_interval(secs => :configured))
abbrev pub deadline_at : Handler → ℕ → Job → ℕ
deadline_at h now job = min (job.created_at + seconds 300) (now + seconds h.deadline_seconds)

-- `lease_expires_at < now()` is not true of a NULL.
abbrev pub lease_expired : Option ℕ → ℕ → Bool
lease_expired none now = false
lease_expired (some t) now = ltb t now

-- The WHERE clause of the claim, but for the keys of the join.
unfoldable pub claimable : Handler → ℕ → Message → Job → Run → Bool
claimable h now msg job run =
    job.rca_run_id == msg.rca_run_id
    && run.incident_id == msg.incident_id
    && leb job.available_at now
    && ltb job.attempt_count 3
    && ltb now (deadline_at h now job)
    && (is_queued job.status || is_running job.status && lease_expired job.lease_expires_at now)

unfoldable pub claim_job : Handler → ℕ → Job → Job
claim_job h now job = record job {
  status = JobStatus.running;
  lease_owner = some h.worker_id;
  lease_expires_at = some (now + seconds 60);
  attempt_count = job.attempt_count + 1;
  started_at = or_else job.started_at (some now);
  updated_at = now;
}

abbrev pub start_run : ℕ → Run → Run
start_run now run = record run {
  status = RunStatus.running;
  started_at = or_else run.started_at (some now);
  updated_at = now;
}

-- `conflict` is the IntegrityError of the INSERT into `worker_attempts`, which rolls back.
pub data Claimed : Type 0 where
  conflict : Claimed
  unclaimed : Claimed
  claimed : Claim → Claimed

unfoldable pub claim_rows : Handler → ℕ → Message → Db → Option Job → Option Run → Claimed × Db
unfolding claim_job claimable
claim_rows h now msg db (some job) (some run) =
    if claimable h now msg job run
    then (if is_some (db.attempts msg.worker_job_id (job.attempt_count + 1))
        then (Claimed.conflict, db)
        else (
          Claimed.claimed (record {
            worker_job_id = msg.worker_job_id;
            rca_run_id = job.rca_run_id;
            incident_id = run.incident_id;
            attempt_number = job.attempt_count + 1;
            deadline_at = deadline_at h now job;
            lease_owner = h.worker_id;
          }),
          record {
            jobs = update db.jobs msg.worker_job_id (claim_job h now job);
            runs = update db.runs msg.rca_run_id (start_run now run);
            attempts = λ j.
                if msg.worker_job_id == j
                then update (db.attempts j) (job.attempt_count + 1)
                    (record { completed_at = none; failure_code = none })
                else db.attempts j;
          },
        ))
    else (Claimed.unclaimed, db)
claim_rows h now msg db _ _ = (Claimed.unclaimed, db)

-- `run.id = job.rca_run_id`
abbrev pub run_of : Db → Option Job → Option Run
run_of db none = none
run_of db (some job) = db.runs job.rca_run_id

-- `_claim`
unfoldable pub claim : Handler → ℕ → Message → Db → Claimed × Db
unfolding claim_rows
claim h now msg db =
    claim_rows h now msg db (db.jobs msg.worker_job_id) (run_of db (db.jobs msg.worker_job_id))

-- What `_unclaimed_disposition` decides from its SELECT; `doomed` goes on to
-- `_mark_unclaimed_terminal` with a failure code, and answers ACK.
pub data Inspection : Type 0 where
  answered : JobDisposition → Inspection
  doomed : FailureCode → Inspection

unfoldable pub inspect_rows : Handler → ℕ → Message → Option Job → Option Run → Inspection
inspect_rows h now msg (some job) (some run) =
    let expired = leb (deadline_at h now job) now in
    if not (job.rca_run_id == msg.rca_run_id) || not (run.incident_id == msg.incident_id)
    then answered ack
    else if is_terminal job.status
    then answered ack
    else if expired || leb 3 job.attempt_count
    then doomed (if expired then deadline_exceeded else internal_error)
    else answered nack
inspect_rows h now msg _ _ = answered ack

unfoldable pub inspect : Handler → ℕ → Message → Db → Inspection
unfolding inspect_rows
inspect h now msg db =
    inspect_rows h now msg (db.jobs msg.worker_job_id) (run_of db (db.jobs msg.worker_job_id))

unfoldable pub close_job : JobStatus → ℕ → Job → Job
close_job status now job = record job {
  status = status;
  completed_at = some now;
  updated_at = now;
  lease_owner = none;
  lease_expires_at = none;
}

abbrev pub fail_run_of : Message → ℕ → FailureCode → Run → Run
fail_run_of msg now code run =
    if run.incident_id == msg.incident_id
    then record run {
      status = RunStatus.failed;
      failure_code = some code;
      completed_at = some now;
      updated_at = now;
    }
    else run

unfoldable pub mark_row : ℕ → Message → FailureCode → Db → Option Job → Db
unfolding close_job
mark_row now msg code db none = db
mark_row now msg code db (some job) =
    if job.rca_run_id == msg.rca_run_id && not (is_terminal job.status)
    then record db {
      jobs = update db.jobs msg.worker_job_id (close_job JobStatus.failed now job);
      runs = modify db.runs msg.rca_run_id (fail_run_of msg now code);
    }
    else db

-- `_mark_unclaimed_terminal`
unfoldable pub mark_unclaimed_terminal : ℕ → Message → FailureCode → Db → Db
unfolding mark_row
mark_unclaimed_terminal now msg code db = mark_row now msg code db (db.jobs msg.worker_job_id)

-- `status='RUNNING' AND lease_owner=:owner`
unfoldable pub holds_lease : Claim → Job → Bool
holds_lease c job =
    is_running job.status && elim job.lease_owner [ none ↦ false | some o ↦ str_eq o c.lease_owner ]

unfoldable pub renew_row : ℕ → Claim → Db → Option Job → Bool × Db
unfolding holds_lease
renew_row now c db none = (false, db)
renew_row now c db (some job) =
    if holds_lease c job
    then (
      true,
      record db {
        jobs =
            update db.jobs c.worker_job_id
              (record job { lease_expires_at = some (now + seconds 60); updated_at = now });
      },
    )
    else (false, db)

-- The UPDATE of `_renew_lease`; `false` is the LeaseLostError.
unfoldable pub renew_lease : ℕ → Claim → Db → Bool × Db
unfolding renew_row
renew_lease now c db = renew_row now c db (db.jobs c.worker_job_id)

abbrev pub settled_status : ResultStatus → JobStatus
settled_status ResultStatus.failed = JobStatus.failed
settled_status _ = JobStatus.succeeded

abbrev pub settled_run_status : ResultStatus → RunStatus
settled_run_status ResultStatus.complete = RunStatus.succeeded
settled_run_status ResultStatus.partial = RunStatus.partial
settled_run_status ResultStatus.failed = RunStatus.failed

abbrev pub settled_failure : ProcessingResult → Option FailureCode
settled_failure r = elim r.status [
  | ResultStatus.failed ↦ or_else r.failure_code (some internal_error)
  | _ ↦ none
]

abbrev pub finish_attempt : Db → Claim → ℕ → Option FailureCode → ℕ → Table Attempt
finish_attempt db c now failure j =
    if c.worker_job_id == j
    then modify (db.attempts j) c.attempt_number
        (λ a. record { completed_at = some now; failure_code = failure })
    else db.attempts j

unfoldable pub settle_success_row :
    ℕ → Claim → ProcessingResult → Db → Option Job → JobDisposition × Db
unfolding close_job holds_lease
settle_success_row now c r db none = (nack, db)
settle_success_row now c r db (some job) =
    if holds_lease c job
    then (
      ack,
      record {
        jobs = update db.jobs c.worker_job_id (close_job (settled_status r.status) now job);
        runs = modify db.runs c.rca_run_id (λ run. record run {
          status = settled_run_status r.status;
          completed_at = some now;
          updated_at = now;
          failure_code = settled_failure r;
        });
        attempts = finish_attempt db c now (settled_failure r);
      },
    )
    else (nack, db)

-- `_settle_success`
unfoldable pub settle_success : ℕ → Claim → ProcessingResult → Db → JobDisposition × Db
unfolding settle_success_row
settle_success now c r db = settle_success_row now c r db (db.jobs c.worker_job_id)

abbrev pub is_mcp_transport : FailureCode → Bool
is_mcp_transport mcp_transport = true
is_mcp_transport _ = false

abbrev pub is_final : Claim → FailureCode → Bool
is_final c code = not (is_mcp_transport code) || leb 3 c.attempt_number

unfoldable pub fail_job : Bool → ℕ → Job → Job
fail_job terminal now job = record job {
  status = if terminal then JobStatus.failed else JobStatus.queued;
  available_at = if terminal then job.available_at else now + seconds 30;
  completed_at = if terminal then some now else none;
  updated_at = now;
  lease_owner = none;
  lease_expires_at = none;
}

unfoldable pub fail_run : Bool → ℕ → FailureCode → Run → Run
fail_run terminal now code run = record run {
  status = if terminal then RunStatus.failed else RunStatus.queued;
  failure_code = if terminal then some code else none;
  updated_at = now;
}

unfoldable pub settle_failure_row : ℕ → Claim → FailureCode → Db → Option Job → JobDisposition × Db
unfolding fail_job fail_run holds_lease
settle_failure_row now c code db none = (nack, db)
settle_failure_row now c code db (some job) =
    let terminal = is_final c code in
    if holds_lease c job
    then (
      if terminal then ack else nack,
      record {
        jobs = update db.jobs c.worker_job_id (fail_job terminal now job);
        runs = modify db.runs c.rca_run_id (fail_run terminal now code);
        attempts = finish_attempt db c now (some code);
      },
    )
    else (nack, db)

-- `_settle_failure`
unfoldable pub settle_failure : ℕ → Claim → FailureCode → Db → JobDisposition × Db
unfolding settle_failure_row
settle_failure now c code db = settle_failure_row now c code db (db.jobs c.worker_job_id)
