-- ===== src/Worker/Lifecycle/Fate.antt =====
-- What becomes of a job under job_lifecycle.py: overdue jobs, retries, and duplicate deliveries.
use cloud_sre_ai_agent.Prelude.{
  ℕ, ◌+◌, ◌≤◌, ◌<◌, ◌≡◌, refl, Bool, true, false, ◌&&◌, none, some, arith, leb, ltb, ◌∙◌,
}
use cloud_sre_ai_agent.Worker.Rows.{
  JobStatus, FailureCode, RunStatus, mcp_transport, internal_error, deadline_exceeded, Job, Run, Db,
  is_terminal, seconds,
}
use cloud_sre_ai_agent.Worker.Lifecycle.{
  ack, nack, Message, Claim, Handler, Claimed, doomed, run_of, claimable, claim_rows, claim,
  fail_job, fail_run, inspect_rows, inspect, mark_row, mark_unclaimed_terminal, settle_success_row,
  settle_success, settle_failure_row, settle_failure, ProcessingResult, holds_lease, deadline_at,
  close_job,
}
use cloud_sre_ai_agent.Worker.Lifecycle.Handle.{Environment, disposed, handle}

-- The tables hold the message's job and run, and the message names them rightly.
pub record Names (msg : Message) (db : Db) (job : Job) (run : Run) : Type 0 where
  pub job_row : db.jobs msg.worker_job_id ≡ some job
  pub run_row : db.runs msg.rca_run_id ≡ some run
  pub same_run : job.rca_run_id ≡ msg.rca_run_id
  pub same_incident : run.incident_id ≡ msg.incident_id

module _ (h : Handler) (msg : Message) (db : Db) (job : Job) (run : Run)
    (n : Names msg db job run) where
  run_of_row : run_of db (db.jobs msg.worker_job_id) ≡ some run
  run_of_row = rw (n.job_row) (rw (n.same_run) n.run_row)

  claim_at : (now : ℕ) → claim h now msg db ≡ claim_rows h now msg db (some job) (some run)
  unfolding claim
  claim_at now = rw (run_of_row, n.job_row) refl

  inspect_at : (now : ℕ) → inspect h now msg db ≡ inspect_rows h now msg (some job) (some run)
  unfolding inspect
  inspect_at now = rw (run_of_row, n.job_row) refl

  unclaimable :
      (now : ℕ) → claimable h now msg job run ≡ false → claim h now msg db ≡ (Claimed.unclaimed, db)
  unfolding claim_rows
  unclaimable now refused = rw (claim_at now) (rw refused refl)

  mark_at :
      (now : ℕ) (code : FailureCode)
      → is_terminal job.status ≡ false
      → ((mark_unclaimed_terminal now msg code db).jobs msg.worker_job_id
          ≡ some (close_job JobStatus.failed now job))
        × ((mark_unclaimed_terminal now msg code db).runs msg.rca_run_id
            ≡ some (record run {
              status = RunStatus.failed;
              failure_code = some code;
              completed_at = some now;
              updated_at = now;
            }))
  unfolding mark_unclaimed_terminal mark_row
  mark_at now code live = rw (n.job_row) (ground (arith, n.run_row, n.same_run, n.same_incident))

  -- the delivery is not claimed, and its inspection dooms the job
  doomed_delivery :
      (env : Environment) (code : FailureCode)
      → claimable h env.claim_time msg job run ≡ false
      → inspect_rows h env.inspect_time msg (some job) (some run) ≡ doomed code
      → env.between db ≡ db
      → handle h env msg db ≡ (disposed ack, mark_unclaimed_terminal env.settle_time msg code db)
  unfolding handle
  doomed_delivery env code refused dead quiet =
      rw (unclaimable env.claim_time refused)
        (rw (quiet) (rw (inspect_at env.inspect_time) (rw dead (rw quiet refl))))

  overdue-claimable :
      (now : ℕ) → job.created_at + seconds 300 ≤ now → claimable h now msg job run ≡ false
  unfolding claimable
  overdue-claimable now late = ground arith

  overdue-inspect :
      (now : ℕ)
      → job.created_at + seconds 300 ≤ now
      → is_terminal job.status ≡ false
      → inspect_rows h now msg (some job) (some run) ≡ doomed deadline_exceeded
  unfolding inspect_rows
  overdue-inspect now late live = ground (arith, n.same_run, n.same_incident)

  -- A job that is not over is closed by any delivery that comes five minutes or more after its
  -- creation, if nothing else is written meanwhile: `handle` acks the message, the job becomes
  -- FAILED with no lease, and its run becomes FAILED with DEADLINE_EXCEEDED and a completion time.
  pub overdue_delivery :
      (env : Environment)
      → job.created_at + seconds 300 ≤ env.claim_time
      → job.created_at + seconds 300 ≤ env.inspect_time
      → is_terminal job.status ≡ false
      → env.between db ≡ db
      → ((handle h env msg db).0 ≡ disposed ack)
        × ((handle h env msg db).1.jobs msg.worker_job_id
            ≡ some (close_job JobStatus.failed env.settle_time job))
        × ((handle h env msg db).1.runs msg.rca_run_id
            ≡ some (record run {
              status = RunStatus.failed;
              failure_code = some deadline_exceeded;
              completed_at = some env.settle_time;
              updated_at = env.settle_time;
            }))
  overdue_delivery env late late' live quiet =
      let e =
        doomed_delivery env deadline_exceeded (overdue-claimable env.claim_time late)
          (overdue-inspect env.inspect_time late' live) quiet in
      let m = mark_at env.settle_time deadline_exceeded live in rw e (refl, m.0, m.1)

  third-claimable : (now : ℕ) → job.attempt_count ≡ 3 → claimable h now msg job run ≡ false
  unfolding claimable
  third-claimable now three = ground arith

  third-inspect :
      (now : ℕ)
      → job.attempt_count ≡ 3
      → job.status ≡ JobStatus.running
      → now < job.created_at + seconds 300
      → 0 < h.deadline_seconds
      → inspect_rows h now msg (some job) (some run) ≡ doomed internal_error
  unfolding inspect_rows
  third-inspect now three run early pos = ground (arith, n.same_run, n.same_incident)

  closed-settle :
      (now : ℕ) (db' : Db) (status : JobStatus) (t : ℕ) (c : Claim) (r : ProcessingResult)
      → c.worker_job_id ≡ msg.worker_job_id
      → db'.jobs msg.worker_job_id ≡ some (close_job status t job)
      → settle_success now c r db' ≡ (nack, db')
  unfolding settle_success settle_success_row
  closed-settle now db' status t c r same row = rw same (rw row (ground arith))

  -- A second delivery of the message, while the third attempt runs (its lease live or not), before the
  -- five minutes are over and with nothing else written meanwhile, ends that attempt: `handle` acks
  -- the message and the job becomes FAILED, and whatever result the worker of the third attempt
  -- then settles, its settlement is refused with NACK and writes nothing.
  pub duplicate_ends_third_attempt :
      (env : Environment)
      → job.attempt_count ≡ 3
      → job.status ≡ JobStatus.running
      → env.settle_time < job.created_at + seconds 300
      → env.inspect_time ≤ env.settle_time
      → 0 < h.deadline_seconds
      → env.between db ≡ db
      → ((handle h env msg db).0 ≡ disposed ack)
        × ((handle h env msg db).1.jobs msg.worker_job_id
            ≡ some (close_job JobStatus.failed env.settle_time job))
        × ((t : ℕ) (c : Claim) (r : ProcessingResult)
            → c.worker_job_id ≡ msg.worker_job_id
            → settle_success t c r (handle h env msg db).1 ≡ (nack, (handle h env msg db).1))
  duplicate_ends_third_attempt env three busy early order pos quiet =
      let e =
        doomed_delivery env internal_error (third-claimable env.claim_time three)
          (third-inspect env.inspect_time three busy (omega arith) pos) quiet in
      let m = mark_at env.settle_time internal_error (ground arith) in
      rw e
        (refl, m.0, λ t c r same. closed-settle t _ JobStatus.failed env.settle_time c r same m.0)

abbrev pub is_claimed : Claimed → Bool
is_claimed (Claimed.claimed c) = true
is_claimed _ = false

-- The claim is of the message's job, by the worker that holds its lease, in its latest attempt.
pub record Holds (c : Claim) (msg : Message) (job : Job) : Type 0 where
  pub same_job : c.worker_job_id ≡ msg.worker_job_id
  pub same_run : c.rca_run_id ≡ msg.rca_run_id
  pub latest : c.attempt_number ≡ job.attempt_count
  pub lease : holds_lease c job ≡ true

module _ (msg : Message) (db : Db) (job : Job) (run : Run) (n : Names msg db job run) (c : Claim)
    (o : Holds c msg job) (few : job.attempt_count < 3) where
  transport_settles :
      (now : ℕ)
      → ((settle_failure now c mcp_transport db).0 ≡ nack)
        × (((settle_failure now c mcp_transport db).1).jobs msg.worker_job_id
            ≡ some (fail_job false now job))
        × (((settle_failure now c mcp_transport db).1).runs msg.rca_run_id
            ≡ some (fail_run false now mcp_transport run))
        × (((settle_failure now c mcp_transport db).1).attempts msg.worker_job_id
              (job.attempt_count + 1)
            ≡ db.attempts msg.worker_job_id (job.attempt_count + 1))
  unfolding settle_failure settle_failure_row
  transport_settles now =
      rw (o.same_job)
        (rw (n.job_row) (ground (arith, n.run_row, o.same_run, o.same_job, o.latest, o.lease)))

  renamed :
      (now : ℕ)
      → Names msg
          (settle_failure now c mcp_transport db).1
          (fail_job false now job)
          (fail_run false now mcp_transport run)
  unfolding fail_job fail_run
  renamed now =
      let t = transport_settles now in
      record {
        job_row = t.1;
        run_row = t.2;
        same_run = n.same_run;
        same_incident = n.same_incident;
      }

  retry-claimable :
      (now : ℕ) (h : Handler) (later : ℕ)
      → claimable h later msg (fail_job false now job) (fail_run false now mcp_transport run)
        ≡ (leb (now + seconds 30) later && ltb later (deadline_at h later job))
  unfolding claimable fail_job fail_run
  retry-claimable now h later = ground (arith, n.same_run, n.same_incident)

  retry-claim_rows :
      (now : ℕ) (h : Handler) (later : ℕ) (db' : Db)
      → db'.attempts msg.worker_job_id (job.attempt_count + 1) ≡ none
      → is_claimed
          (claim_rows h later msg db'
            (some (fail_job false now job))
            (some (fail_run false now mcp_transport run))).0
        ≡ claimable h later msg (fail_job false now job) (fail_run false now mcp_transport run)
  unfolding claim_rows fail_job
  retry-claim_rows now h later db' free = ground arith

  -- When the worker that holds a job's lease settles its first or second attempt with MCP_TRANSPORT,
  -- the message is nacked, and from then on the job can be claimed again exactly from 30 seconds
  -- later until its deadline, by any worker, if the next attempt number is not in use.
  pub retry_window :
      (now : ℕ)
      → db.attempts msg.worker_job_id (job.attempt_count + 1) ≡ none
      → ((settle_failure now c mcp_transport db).0 ≡ nack)
        × ((h : Handler) (later : ℕ)
            → is_claimed (claim h later msg (settle_failure now c mcp_transport db).1).0
              ≡ (leb (now + seconds 30) later && ltb later (deadline_at h later job)))
  retry_window now free =
      let t = transport_settles now in
      (
        t.0,
        λ h later.
            rw (claim_at h msg _ _ _ (renamed now) later)
              (retry-claim_rows now h later _ (t.3 ∙ free) ∙ retry-claimable now h later),
      )
