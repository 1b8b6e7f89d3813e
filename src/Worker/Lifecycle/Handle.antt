-- ===== src/Worker/Lifecycle/Handle.antt =====
-- `RcaJobHandler.handle`, `_execute_with_lease`, `_renew_lease` and `_classify_failure` of
-- rca-worker/src/sre_rca_worker/application/rca/job_lifecycle.py, and `settle_delivery` of
-- workers/rca_worker.py. What the processor, the clock and other workers do is an argument.
use cloud_sre_ai_agent.Prelude.{
  ℕ, Bool, true, false, Option, none, some, List, [], ◌∷◌, leb, if◌then◌else◌,
}
use cloud_sre_ai_agent.Worker.Rows.{
  FailureCode, deadline_exceeded, mcp_transport, internal_error, Db,
}
use cloud_sre_ai_agent.Worker.Lifecycle.{
  JobDisposition, ack, nack, Message, ProcessingResult, Claim, Handler, Claimed, Inspection,
  answered, doomed, claim, inspect, mark_unclaimed_terminal, renew_lease, settle_success,
  settle_failure,
}

-- The exception classes that `handle` and `_classify_failure` tell apart.
pub data Error : Type 0 where
  lease_lost deadline_passed connection_error timeout_error other_error : Error

-- How a task ends.
pub data TaskEnd {ℓ} (A : Type ℓ) : Type ℓ where
  returned : A → TaskEnd A
  raised : Error → TaskEnd A

-- What `asyncio.wait` reports: the ends of the tasks in `done`, and the times before and after.
pub record Race : Type 0 where
  pub started : ℕ
  pub woken : ℕ
  pub processor : Option (TaskEnd ProcessingResult)
  pub renewal : Option (TaskEnd (Unit {0}))

abbrev pub await_renewal : TaskEnd (Unit {0}) → TaskEnd ProcessingResult
await_renewal (returned _) = raised lease_lost
await_renewal (raised e) = raised e

abbrev pub first_completed :
    ℕ
    → ℕ
    → Option (TaskEnd ProcessingResult)
    → Option (TaskEnd (Unit {0}))
    → TaskEnd ProcessingResult
first_completed deadline woken (some end) r =
    if leb deadline woken then raised deadline_passed else end
first_completed deadline woken none (some end) = await_renewal end
first_completed deadline woken none none = raised deadline_passed

-- `_execute_with_lease`
unfoldable pub execute_with_lease : Claim → Race → TaskEnd ProcessingResult
execute_with_lease c race =
    if leb c.deadline_at race.started
    then raised deadline_passed
    else first_completed c.deadline_at race.woken race.processor race.renewal

-- One round of the loop of `_renew_lease`: whether the processor is done when the round begins and
-- after the sleep, the clock at both, and the time of the UPDATE, or that it timed out.
pub record Round : Type 0 where
  pub done_before : Bool
  pub begun : ℕ
  pub done_after : Bool
  pub woken : ℕ
  pub renewed_at : Option ℕ

-- `_renew_lease`; a schedule that ends has the processor done.
unfoldable pub renew_loop : Claim → List Round → Db → TaskEnd (Unit {0}) × Db
renew_loop c [] db = (returned tt, db)
renew_loop c (r ∷ rounds) db =
    if r.done_before
    then (returned tt, db)
    else if leb c.deadline_at r.begun
    then (raised deadline_passed, db)
    else if r.done_after
    then (returned tt, db)
    else if leb c.deadline_at r.woken
    then (raised deadline_passed, db)
    else elim r.renewed_at [
      | none ↦ (raised deadline_passed, db)
      | some now ↦
          let (renewed, db') = renew_lease now c db in
          elim renewed [ true ↦ renew_loop c rounds db' | false ↦ (raised lease_lost, db') ]
    ]

unfoldable pub classify_failure : Error → FailureCode
classify_failure connection_error = mcp_transport
classify_failure timeout_error = deadline_exceeded
classify_failure _ = internal_error

-- What a delivery meets: the times of its transactions, the race of its tasks, and what others
-- write between its transactions (the processor and the renewals among them).
pub record Environment : Type 0 where
  pub claim_time : ℕ
  pub race : Race
  pub between : Db → Db
  pub inspect_time : ℕ
  pub settle_time : ℕ

-- `raise_conflict` is an exception that leaves `handle`: the message is neither acked nor nacked.
pub data Handled : Type 0 where
  raise_conflict : Handled
  disposed : JobDisposition → Handled

-- The `except` ladder of `handle`.
unfoldable pub settle : ℕ → Claim → TaskEnd ProcessingResult → Db → JobDisposition × Db
unfolding classify_failure
settle now c (returned r) db = settle_success now c r db
settle now c (raised lease_lost) db = (nack, db)
settle now c (raised deadline_passed) db = settle_failure now c deadline_exceeded db
settle now c (raised e) db = settle_failure now c (classify_failure e) db

abbrev pub dispose : JobDisposition × Db → Handled × Db
dispose (d, db) = (disposed d, db)

-- `_unclaimed_disposition`, after its SELECT.
abbrev pub follow : Environment → Message → Inspection → Db → Handled × Db
follow env msg (answered d) db = (disposed d, db)
follow env msg (doomed code) db =
    (disposed ack, mark_unclaimed_terminal env.settle_time msg code (env.between db))

abbrev pub proceed : Handler → Environment → Message → Claimed → Db → Handled × Db
proceed h env msg Claimed.conflict db = (raise_conflict, db)
proceed h env msg Claimed.unclaimed db =
    let db' = env.between db in follow env msg (inspect h env.inspect_time msg db') db'
proceed h env msg (Claimed.claimed c) db =
    dispose (settle env.settle_time c (execute_with_lease c env.race) (env.between db))

-- `handle`
unfoldable pub handle : Handler → Environment → Message → Db → Handled × Db
handle h env msg db = let (c, db') = claim h env.claim_time msg db in proceed h env msg c db'

-- `settle_delivery`: a message that does not parse is acked unseen; `parse` is `from_bytes`.
unfoldable pub settle_delivery : Handler → Environment → Option Message → Db → Handled × Db
settle_delivery h env none db = (disposed ack, db)
settle_delivery h env (some msg) db = handle h env msg db
