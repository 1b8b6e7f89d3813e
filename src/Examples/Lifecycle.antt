-- ===== src/Examples/Lifecycle.antt =====
-- The RCA job lifecycle of rca-worker/src/sre_rca_worker/application/rca/job_lifecycle.py at work.
use cloud_sre_ai_agent.Prelude.{
  ℕ, ◌+◌, ◌≡◌, refl, ◌≢◌, Bool, true, ◌&&◌, none, some, arith, ◌==◌, leb, ltb, is_some,
  if◌then◌else◌, ◌≤◌, Bool-cases, inl, inr,
}
use cloud_sre_ai_agent.Worker.Rows.{
  JobStatus, RunStatus, mcp_transport, deadline_exceeded, Job, Run, Db, seconds,
}
use cloud_sre_ai_agent.Worker.Lifecycle.Transitions.{can_transition_to, settlement_transitions}
use cloud_sre_ai_agent.Worker.Lifecycle.{
  is_final, ack, nack, Message, Claim, Handler, Claimed, claim, ResultStatus, ProcessingResult,
  settle_failure, settle_success, close_job, deadline_at, holds_lease,
}
use cloud_sre_ai_agent.Worker.Lifecycle.Handle.{
  Environment, Race, returned, disposed, handle, settle, execute_with_lease,
}
use cloud_sre_ai_agent.Worker.Lifecycle.Safety.{needs_no_delivery, ack_when_done}
use cloud_sre_ai_agent.Worker.Lifecycle.Fate.{
  Names, Holds, is_claimed, overdue_delivery, duplicate_ends_third_attempt, retry_window,
}
use cloud_sre_ai_agent.Worker.Lifecycle.Reach.{
  System, processing, received, Stands, Reach, here, next, deliver, claims, move, after_claim,
}
use cloud_sre_ai_agent.Worker.Lifecycle.Reach.Exclusive.{
  IsFresh, attempts_exclusive, jobs_stay_consistent, ended_jobs_stay,
}

abbrev worker : Handler
worker = record { worker_id = "worker-1"; deadline_seconds = 300 }

abbrev message : Message
message = record { worker_job_id = 1; rca_run_id = 2; incident_id = 3 }

abbrev queued_job : Job
queued_job = record {
  rca_run_id = 2;
  status = JobStatus.queued;
  attempt_count = 0;
  lease_owner = none;
  lease_expires_at = none;
  available_at = 0;
  started_at = none;
  completed_at = none;
  created_at = 0;
  updated_at = 0;
}

abbrev queued_run : Run
queued_run = record {
  incident_id = 3;
  status = RunStatus.queued;
  failure_code = none;
  started_at = none;
  completed_at = none;
  updated_at = 0;
}

abbrev tables : Job → Run → Db
tables job run = record {
  jobs = λ k. if 1 == k then some job else none;
  runs = λ k. if 2 == k then some run else none;
  attempts = λ j n.
      if 1 == j && leb 1 n && leb n job.attempt_count
      then some (record { completed_at = none; failure_code = none })
      else none;
}

abbrev race : Race
race = record {
  started = 1;
  woken = 2;
  processor = some (returned (record { status = ResultStatus.complete; failure_code = none }));
  renewal = none;
}

abbrev timing : ℕ → Environment
timing t = record {
  claim_time = t;
  race = race;
  between = λ db. db;
  inspect_time = t;
  settle_time = t;
}

first_delivery_acks :
    (handle worker (timing 5) message (tables queued_job queued_run)).0 ≡ disposed ack
unfolding handle claim settle execute_with_lease settle_success
first_delivery_acks = refl

ack_when_done_example :
    needs_no_delivery message (handle worker (timing 5) message (tables queued_job queued_run)).1
    ≡ true
ack_when_done_example =
    ack_when_done worker (timing 5) message (tables queued_job queued_run) first_delivery_acks

names : (job : Job) → job.rca_run_id ≡ 2 → Names message (tables job queued_run) job queued_run
names job e = record { job_row = refl; run_row = refl; same_run = e; same_incident = refl }

overdue_delivery_example :
    ((handle worker (timing 300000000) message (tables queued_job queued_run)).0 ≡ disposed ack)
    × ((handle worker (timing 300000000) message (tables queued_job queued_run)).1.jobs 1
        ≡ some (close_job JobStatus.failed 300000000 queued_job))
    × ((handle worker (timing 300000000) message (tables queued_job queued_run)).1.runs 2
        ≡ some (record queued_run {
          status = RunStatus.failed;
          failure_code = some deadline_exceeded;
          completed_at = some 300000000;
          updated_at = 300000000;
        }))
overdue_delivery_example =
    overdue_delivery worker message (tables queued_job queued_run) queued_job queued_run
      (names queued_job refl) (timing 300000000) (omega arith) (omega arith) refl refl

abbrev third_attempt : Job
third_attempt = record queued_job {
  status = JobStatus.running;
  attempt_count = 3;
  lease_owner = some "worker-2";
  lease_expires_at = some 60000000;
}

duplicate_ends_third_attempt_example :
    ((handle worker (timing 5) message (tables third_attempt queued_run)).0 ≡ disposed ack)
    × ((handle worker (timing 5) message (tables third_attempt queued_run)).1.jobs 1
        ≡ some (close_job JobStatus.failed 5 third_attempt))
    × ((t : ℕ) (c : Claim) (r : ProcessingResult)
        → c.worker_job_id ≡ 1
        → settle_success t c r
            (handle worker (timing 5) message (tables third_attempt queued_run)).1
          ≡ (nack, (handle worker (timing 5) message (tables third_attempt queued_run)).1))
duplicate_ends_third_attempt_example =
    duplicate_ends_third_attempt worker message (tables third_attempt queued_run) third_attempt
      queued_run (names third_attempt refl) (timing 5) refl refl (omega arith) (omega arith)
      (omega arith) refl

abbrev first_attempt : Job
first_attempt = record queued_job {
  status = JobStatus.running;
  attempt_count = 1;
  lease_owner = some "worker-1";
  lease_expires_at = some 60000000;
}

abbrev first_claim : Claim
first_claim = record {
  worker_job_id = 1;
  rca_run_id = 2;
  incident_id = 3;
  attempt_number = 1;
  deadline_at = 300000000;
  lease_owner = "worker-1";
}

first_claim-Holds : Holds first_claim message first_attempt
unfolding holds_lease
first_claim-Holds = record { same_job = refl; same_run = refl; latest = refl; lease = refl }

retry_window_example :
    ((settle_failure 7 first_claim mcp_transport (tables first_attempt queued_run)).0 ≡ nack)
    × ((h : Handler) (later : ℕ)
        → is_claimed
            (claim h later message
              (settle_failure 7 first_claim mcp_transport (tables first_attempt queued_run)).1).0
          ≡ (leb (7 + seconds 30) later && ltb later (deadline_at h later first_attempt)))
retry_window_example =
    retry_window message (tables first_attempt queued_run) first_attempt queued_run
      (names first_attempt refl) first_claim first_claim-Holds (omega arith) 7 refl

abbrev idle : System
idle = record { db = tables queued_job queued_run; deliveries = λ d. none }

idle-IsFresh : IsFresh idle
idle-IsFresh = record {
  tables = record {
    at_key = λ j. elim (Bool-cases (1 == j)) [
      | inl same ↦
          rw same (record { bounded = omega arith; numbered = λ n. ground arith; leased = refl })
      | inr other ↦ rw other tt
    ];
  };
  nothing_delivered = λ d. refl;
}

abbrev delivered : System
delivered = move idle 0 worker (received message) idle.db

abbrev worked : System
worked =
    move delivered 0 worker (after_claim message (claim worker 5 message idle.db).0)
      (claim worker 5 message idle.db).1

works : Reach idle worked
works = next (next here (deliver 0 worker message refl refl)) (claims 0 worker message 5 refl refl)

attempts_exclusive_example :
    ((d d' : ℕ) (h h' : Handler) (c c' : Claim)
      → d ≢ d'
      → Stands worked d h (processing c)
      → Stands worked d' h' (processing c')
      → c.worker_job_id ≡ c'.worker_job_id
      → c.attempt_number ≢ c'.attempt_number)
    × ((h : Handler) (now : ℕ) (msg : Message) → (claim h now msg worked.db).0 ≢ Claimed.conflict)
attempts_exclusive_example = attempts_exclusive idle worked idle-IsFresh works

abbrev claimed_job : Job
claimed_job = record queued_job {
  status = JobStatus.running;
  attempt_count = 1;
  lease_owner = some "worker-1";
  lease_expires_at = some 60000005;
  started_at = some 5;
  updated_at = 5;
}

claimed_row : worked.db.jobs 1 ≡ some claimed_job
unfolding claim
claimed_row = refl

jobs_stay_consistent_example :
    (1 ≤ 3)
    × ((n : ℕ) → is_some (worked.db.attempts 1 n) ≡ (leb 1 n && leb n 1))
    × (◌≡◌ {A = Bool} true true)
jobs_stay_consistent_example =
    jobs_stay_consistent idle worked idle-IsFresh works 1 claimed_job claimed_row

abbrev over : System
over = record {
  db = tables (close_job JobStatus.succeeded 5 queued_job) queued_run;
  deliveries = λ d. none;
}

abbrev redelivered : System
redelivered = move over 0 worker (received message) over.db

ended_jobs_stay_example : redelivered.db.jobs 1 ≡ some (close_job JobStatus.succeeded 5 queued_job)
unfolding close_job
ended_jobs_stay_example =
    ended_jobs_stay over redelivered 1 (close_job JobStatus.succeeded 5 queued_job) refl refl
      (next here (deliver 0 worker message refl refl))

abbrev running_run : Run
running_run = record queued_run { status = RunStatus.running }

abbrev complete_result : ProcessingResult
complete_result = record { status = ResultStatus.complete; failure_code = none }

settlement_transitions_example :
    ((done : Run) × ((settle_success 7 first_claim complete_result
            (tables first_attempt running_run)).1.runs
          2
        ≡ some done)
      × (can_transition_to RunStatus.running done.status ≡ true)
      × (done.completed_at ≡ some 7))
    × ((failed : Run) × ((settle_failure 7 first_claim mcp_transport
              (tables first_attempt running_run)).1.runs
            2
          ≡ some failed)
        × (can_transition_to RunStatus.running failed.status ≡ is_final first_claim mcp_transport)
        × (failed.completed_at ≡ none))
unfolding holds_lease
settlement_transitions_example =
    settlement_transitions 7 first_claim complete_result mcp_transport
      (tables first_attempt running_run) first_attempt running_run refl refl refl refl
