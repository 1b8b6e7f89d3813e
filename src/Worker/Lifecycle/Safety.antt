-- ===== src/Worker/Lifecycle/Safety.antt =====
-- What one delivery guarantees: job_lifecycle.py's answers to Pub/Sub, and the fate of the job.
use cloud_sre_ai_agent.Prelude.{
  ℕ, ◌≡◌, refl, Bool, true, not, ◌||◌, Option, none, some, arith, ◌==◌,
}
use cloud_sre_ai_agent.Worker.Rows.{
  FailureCode, mcp_transport, internal_error, deadline_exceeded, Job, Run, Db, is_terminal,
}
use cloud_sre_ai_agent.Worker.Lifecycle.{
  ack, nack, Message, Claim, Handler, Claimed, Inspection, answered, doomed, run_of, claim_rows,
  claim, inspect_rows, inspect, mark_row, mark_unclaimed_terminal, settle_success_row,
  settle_success, settle_failure_row, settle_failure, ProcessingResult,
}
use cloud_sre_ai_agent.Worker.Lifecycle.Handle.{
  Environment, disposed, settle, handle, Error, returned, raised, lease_lost, deadline_passed,
  TaskEnd, proceed, execute_with_lease, follow,
}

-- No delivery of the message can do more: its job or run is gone, the message names another run or
-- incident, or the job has ended.
abbrev pub needs_no_delivery_row : Message → Option Job → Option Run → Bool
needs_no_delivery_row msg none run = true
needs_no_delivery_row msg (some job) none = true
needs_no_delivery_row msg (some job) (some run) =
    not (job.rca_run_id == msg.rca_run_id)
    || not (run.incident_id == msg.incident_id)
    || is_terminal job.status

abbrev pub needs_no_delivery : Message → Db → Bool
needs_no_delivery msg db =
    needs_no_delivery_row msg (db.jobs msg.worker_job_id) (run_of db (db.jobs msg.worker_job_id))

inspect-ack :
    (h : Handler) (now : ℕ) (msg : Message) (j : Option Job) (r : Option Run)
    → inspect_rows h now msg j r ≡ answered ack
    → needs_no_delivery_row msg j r ≡ true
unfolding inspect_rows
inspect-ack h now msg none r e = refl
inspect-ack h now msg (some j) none e = refl
inspect-ack h now msg (some j) (some r) e = ground arith

-- the part of the test above that reads the job alone
abbrev is_over : Message → Option Job → Bool
is_over msg none = true
is_over msg (some job) = not (job.rca_run_id == msg.rca_run_id) || is_terminal job.status

over-needs_no_delivery :
    (msg : Message) (j : Option Job) (r : Option Run)
    → is_over msg j ≡ true
    → needs_no_delivery_row msg j r ≡ true
over-needs_no_delivery msg none r h = refl
over-needs_no_delivery msg (some j) none h = refl
over-needs_no_delivery msg (some j) (some r) h = ground arith

mark_row-over :
    (now : ℕ) (msg : Message) (code : FailureCode) (db : Db) (o : Option Job)
    → db.jobs msg.worker_job_id ≡ o
    → is_over msg ((mark_row now msg code db o).jobs msg.worker_job_id) ≡ true
unfolding mark_row
mark_row-over now msg code db none e = rw e
mark_row-over now msg code db (some j) e = ground arith

mark-over :
    (now : ℕ) (msg : Message) (code : FailureCode) (db : Db)
    → is_over msg ((mark_unclaimed_terminal now msg code db).jobs msg.worker_job_id) ≡ true
unfolding mark_unclaimed_terminal
mark-over now msg code db = mark_row-over now msg code db (db.jobs msg.worker_job_id) refl

success_row-over :
    (now : ℕ) (c : Claim) (r : ProcessingResult) (msg : Message) (db : Db) (o : Option Job)
    → (settle_success_row now c r db o).0 ≡ ack
    → c.worker_job_id ≡ msg.worker_job_id
    → is_over msg ((settle_success_row now c r db o).1.jobs msg.worker_job_id) ≡ true
unfolding settle_success_row
success_row-over now c r msg db none a k = cc
success_row-over now c r msg db (some j) a k = ground arith

failure_row-over :
    (now : ℕ) (c : Claim) (code : FailureCode) (msg : Message) (db : Db) (o : Option Job)
    → (settle_failure_row now c code db o).0 ≡ ack
    → c.worker_job_id ≡ msg.worker_job_id
    → is_over msg ((settle_failure_row now c code db o).1.jobs msg.worker_job_id) ≡ true
unfolding settle_failure_row
failure_row-over now c code msg db none a k = cc
failure_row-over now c code msg db (some j) a k = ground arith

settle-over :
    (now : ℕ) (c : Claim) (end : TaskEnd ProcessingResult) (msg : Message) (db : Db)
    → (settle now c end db).0 ≡ ack
    → c.worker_job_id ≡ msg.worker_job_id
    → is_over msg ((settle now c end db).1.jobs msg.worker_job_id) ≡ true
unfolding settle settle_success settle_failure
settle-over now c (returned r) msg db a k = success_row-over now c r msg db _ a k
settle-over now c (raised lease_lost) msg db a k = cc
settle-over now c (raised deadline_passed) msg db a k =
    failure_row-over now c deadline_exceeded msg db _ a k
settle-over now c (raised Error.connection_error) msg db a k =
    failure_row-over now c mcp_transport msg db _ a k
settle-over now c (raised Error.timeout_error) msg db a k =
    failure_row-over now c deadline_exceeded msg db _ a k
settle-over now c (raised Error.other_error) msg db a k =
    failure_row-over now c internal_error msg db _ a k

-- A claim is for the job that the message names.
claim_job_id :
    (h : Handler) (now : ℕ) (msg : Message) (db : Db) (j : Option Job) (r : Option Run) (c : Claim)
    → (claim_rows h now msg db j r).0 ≡ Claimed.claimed c
    → c.worker_job_id ≡ msg.worker_job_id
unfolding claim_rows
claim_job_id h now msg db (some j) (some r) c e = ground arith
claim_job_id h now msg db none r c e = cc
claim_job_id h now msg db (some j) none c e = cc

follow-ack :
    (h : Handler) (env : Environment) (msg : Message) (db : Db) (i : Inspection)
    → inspect h env.inspect_time msg db ≡ i
    → (follow env msg i db).0 ≡ disposed ack
    → needs_no_delivery msg (follow env msg i db).1 ≡ true
unfolding inspect
follow-ack h env msg db (answered ack) e a = inspect-ack h env.inspect_time msg _ _ e
follow-ack h env msg db (answered nack) e a = cc
follow-ack h env msg db (doomed code) e a = over-needs_no_delivery msg _ _ (mark-over _ msg code _)

proceed-ack :
    (h : Handler) (env : Environment) (msg : Message) (db : Db) (cl : Claimed)
    → ((c : Claim) → cl ≡ Claimed.claimed c → c.worker_job_id ≡ msg.worker_job_id)
    → (proceed h env msg cl db).0 ≡ disposed ack
    → needs_no_delivery msg (proceed h env msg cl db).1 ≡ true
proceed-ack h env msg db Claimed.conflict k a = cc
proceed-ack h env msg db Claimed.unclaimed k a = follow-ack h env msg (env.between db) _ refl a
proceed-ack h env msg db (Claimed.claimed c) k a = over-needs_no_delivery msg _ _ (
    settle-over env.settle_time c (execute_with_lease c env.race) msg (env.between db)
      (ground arith) (k c refl))

-- A delivery is acked only if no further delivery of its message is needed: when `handle` answers
-- ACK, then in the tables that it leaves the message's job or its run is missing, the message names
-- another run or incident, or the job is SUCCEEDED or FAILED. This holds for every handler, every
-- timing, every way the processor and the lease renewal end, and whatever other transactions do
-- between those of this delivery.
pub ack_when_done :
    (h : Handler) (env : Environment) (msg : Message) (db : Db)
    → (handle h env msg db).0 ≡ disposed ack
    → needs_no_delivery msg (handle h env msg db).1 ≡ true
unfolding handle claim
ack_when_done h env msg db a =
    proceed-ack h env msg _ _ (claim_job_id h env.claim_time msg db _ _) a
