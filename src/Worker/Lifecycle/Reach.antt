-- ===== src/Worker/Lifecycle/Reach.antt =====
-- Many deliveries at once: the transactions of job_lifecycle.py as the steps of a system of workers
-- that share the tables, in any order, at any times, with workers that die between steps.
pub mod Consistent
pub mod Growth
pub mod Progress
pub mod Exclusive
use cloud_sre_ai_agent.Prelude.{ℕ, ◌≡◌, Bool, true, false, Option, none, some, Table, update}
use cloud_sre_ai_agent.Worker.Rows.{FailureCode, Job, Run, Db}
use cloud_sre_ai_agent.Worker.Lifecycle.{
  JobDisposition, ack, nack, Message, ProcessingResult, Claim, Handler, Claimed, Inspection, claim,
  inspect, mark_unclaimed_terminal, renew_lease,
}
use cloud_sre_ai_agent.Worker.Lifecycle.Handle.{TaskEnd, settle}

-- Where a delivery stands between two transactions of `handle`.
pub data Phase : Type 0 where
  received : Message → Phase
  refused : Message → Phase
  dooming : Message → FailureCode → Phase
  processing : Claim → Phase
  answered : JobDisposition → Phase
  lost : Phase

pub record Delivery : Type 0 where
  pub handler : Handler
  pub phase : Phase

pub record System : Type 0 where
  pub db : Db
  pub deliveries : Table Delivery

-- A conflict raises out of `handle`, and the delivery is lost.
abbrev pub after_claim : Message → Claimed → Phase
after_claim msg Claimed.conflict = lost
after_claim msg Claimed.unclaimed = refused msg
after_claim msg (Claimed.claimed c) = processing c

abbrev pub after_inspect : Message → Inspection → Phase
after_inspect msg (Inspection.answered d) = answered d
after_inspect msg (Inspection.doomed code) = dooming msg code

abbrev pub move : System → ℕ → Handler → Phase → Db → System
move s d h p db = record {
  db = db;
  deliveries = update s.deliveries d (record { handler = h; phase = p });
}

abbrev pub Stands : System → ℕ → Handler → Phase → Type 0
Stands s d h p = s.deliveries d ≡ some (record { handler = h; phase = p })

pub data Step (s t : System) : Type 0 where
  deliver :
      (d : ℕ) (h : Handler) (msg : Message)
      → s.deliveries d ≡ none
      → t ≡ move s d h (received msg) s.db
      → Step s t
  claims :
      (d : ℕ) (h : Handler) (msg : Message) (now : ℕ)
      → Stands s d h (received msg)
      → t ≡ move s d h (after_claim msg (claim h now msg s.db).0) (claim h now msg s.db).1
      → Step s t
  inspects :
      (d : ℕ) (h : Handler) (msg : Message) (now : ℕ)
      → Stands s d h (refused msg)
      → t ≡ move s d h (after_inspect msg (inspect h now msg s.db)) s.db
      → Step s t
  marks :
      (d : ℕ) (h : Handler) (msg : Message) (code : FailureCode) (now : ℕ)
      → Stands s d h (dooming msg code)
      → t ≡ move s d h (answered ack) (mark_unclaimed_terminal now msg code s.db)
      → Step s t
  renews :
      (d : ℕ) (h : Handler) (c : Claim) (now : ℕ)
      → Stands s d h (processing c)
      → t ≡ record s { db = (renew_lease now c s.db).1 }
      → Step s t
  settles :
      (d : ℕ) (h : Handler) (c : Claim) (now : ℕ) (end : TaskEnd ProcessingResult)
      → Stands s d h (processing c)
      → t ≡ move s d h (answered (settle now c end s.db).0) (settle now c end s.db).1
      → Step s t
  -- the process of a delivery dies
  dies : (d : ℕ) (h : Handler) (p : Phase) → Stands s d h p → t ≡ move s d h lost s.db → Step s t
  -- the processor writes to the runs, and to no job or attempt
  investigates : (runs : Table Run) → t ≡ record s { db = record (s.db) { runs = runs } } → Step s t

pub data Reach (s : System) : System → Type 0 where
  here : Reach s s
  next : {t u : System} → Reach s t → Step t u → Reach s u
