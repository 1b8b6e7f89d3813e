-- ===== src/Worker/Lifecycle/Reach/Growth.antt =====
-- What no transaction of job_lifecycle.py undoes: rows stay, attempt counts do not fall, and an
-- ended job is never written again.
use cloud_sre_ai_agent.Prelude.{
  ℕ, ◌+◌, ◌≤◌, ◌≡◌, refl, true, false, not, ◌&&◌, Option, none, some, arith, ◌==◌, update, is_some,
  Bool-cases, inl, inr, ==_iff,
}
use cloud_sre_ai_agent.Worker.Rows.{JobStatus, FailureCode, Job, Run, Db, is_terminal}
use cloud_sre_ai_agent.Worker.Lifecycle.{
  Message, Claim, Handler, claimable, claim_rows, claim, claim_job, fail_job, mark_row,
  mark_unclaimed_terminal, settle_success_row, settle_success, settle_failure_row, settle_failure,
  ProcessingResult, holds_lease, renew_row, renew_lease, close_job,
}
use cloud_sre_ai_agent.Worker.Lifecycle.Handle.{settle, returned, raised, TaskEnd, Error}

pub record JobGrows (job job' : Job) : Type 0 where
  pub counts : job.attempt_count ≤ job'.attempt_count
  pub stays : is_terminal job.status ≡ true → job' ≡ job

abbrev pub RowGrows : Option Job → Option Job → Type 0
RowGrows none none = Unit {0}
RowGrows none (some job') = ⊥
RowGrows (some job) none = ⊥
RowGrows (some job) (some job') = JobGrows job job'

pub record Grows (db db' : Db) : Type 0 where
  pub at_key : (j : ℕ) → RowGrows (db.jobs j) (db'.jobs j)

same_row : (o : Option Job) → RowGrows o o
same_row none = tt
same_row (some job) = record { counts = omega arith; stays = λ _. refl }

pub Grows-refl : (db : Db) → Grows db db
Grows-refl db = record { at_key = λ j. same_row (db.jobs j) }

-- A transaction that writes the row of one job.
write-Grows :
    (db db' : Db) (k : ℕ) (job job' : Job)
    → db.jobs k ≡ some job
    → JobGrows job job'
    → ((j : ℕ) → db'.jobs j ≡ update db.jobs k job' j)
    → Grows db db'
write-Grows db db' k job job' e g jobs = record {
  at_key = λ j. elim (Bool-cases (k == j)) [
    | inl same ↦ rw (jobs j) (rw same (rw (← (==_iff k j).0 same) (rw e g)))
    | inr other ↦ rw (jobs j) (rw other (same_row (db.jobs j)))
  ];
}

claimable-live :
    (h : Handler) (now : ℕ) (msg : Message) (job : Job) (run : Run)
    → claimable h now msg job run ≡ true
    → is_terminal job.status ≡ false
unfolding claimable
claimable-live h now msg job run e = ground arith

holds-live : (c : Claim) (job : Job) → holds_lease c job ≡ true → is_terminal job.status ≡ false
unfolding holds_lease
holds-live c job e = ground arith

live-JobGrows :
    (job job' : Job)
    → is_terminal job.status ≡ false
    → job.attempt_count ≤ job'.attempt_count
    → JobGrows job job'
live-JobGrows job job' live le = record { counts = le; stays = λ ended. cc }

claim_rows-Grows :
    (h : Handler) (now : ℕ) (msg : Message) (db : Db) (o : Option Job) (r : Option Run)
    → db.jobs msg.worker_job_id ≡ o
    → Grows db (claim_rows h now msg db o r).1
unfolding claim_rows
claim_rows-Grows h now msg db none r e = Grows-refl db
claim_rows-Grows h now msg db (some job) none e = Grows-refl db
claim_rows-Grows h now msg db (some job) (some run) e =
    elim (Bool-cases (claimable h now msg job run)) [
      | inr refused ↦ rw refused (Grows-refl db)
      | inl fits ↦
          rw fits
            (elim (Bool-cases (is_some (db.attempts msg.worker_job_id (job.attempt_count + 1)))) [
              | inl taken ↦ rw taken (Grows-refl db)
              | inr free ↦ rw free (
                  write-Grows db _ msg.worker_job_id job (claim_job h now job) e
                    (live-JobGrows job _ (claimable-live h now msg job run fits) (omega arith))
                    (λ j. refl))
            ])
    ]

mark_row-Grows :
    (now : ℕ) (msg : Message) (code : FailureCode) (db : Db) (o : Option Job)
    → db.jobs msg.worker_job_id ≡ o
    → Grows db (mark_row now msg code db o)
unfolding mark_row
mark_row-Grows now msg code db none e = Grows-refl db
mark_row-Grows now msg code db (some job) e =
    elim (Bool-cases (job.rca_run_id == msg.rca_run_id && not (is_terminal job.status))) [
      | inl live ↦ rw live (
          write-Grows db _ msg.worker_job_id job (close_job JobStatus.failed now job) e
            (live-JobGrows job _ (ground arith) (omega arith)) (λ j. refl))
      | inr over ↦ rw over (Grows-refl db)
    ]

renew_row-Grows :
    (now : ℕ) (c : Claim) (db : Db) (o : Option Job)
    → db.jobs c.worker_job_id ≡ o
    → Grows db (renew_row now c db o).1
unfolding renew_row
renew_row-Grows now c db none e = Grows-refl db
renew_row-Grows now c db (some job) e = elim (Bool-cases (holds_lease c job)) [
  | inl held ↦ rw held (
      write-Grows db _ c.worker_job_id job
        (record job { lease_expires_at = some (now + 60000000); updated_at = now }) e
        (live-JobGrows job _ (holds-live c job held) (omega arith)) (λ j. refl))
  | inr gone ↦ rw gone (Grows-refl db)
]

success_row-Grows :
    (now : ℕ) (c : Claim) (r : ProcessingResult) (db : Db) (o : Option Job)
    → db.jobs c.worker_job_id ≡ o
    → Grows db (settle_success_row now c r db o).1
unfolding settle_success_row
success_row-Grows now c r db none e = Grows-refl db
success_row-Grows now c r db (some job) e = elim (Bool-cases (holds_lease c job)) [
  | inl held ↦ rw held (
      write-Grows db _ c.worker_job_id job (close_job _ now job) e
        (live-JobGrows job _ (holds-live c job held) (omega arith)) (λ j. refl))
  | inr gone ↦ rw gone (Grows-refl db)
]

failure_row-Grows :
    (now : ℕ) (c : Claim) (code : FailureCode) (db : Db) (o : Option Job)
    → db.jobs c.worker_job_id ≡ o
    → Grows db (settle_failure_row now c code db o).1
unfolding settle_failure_row
failure_row-Grows now c code db none e = Grows-refl db
failure_row-Grows now c code db (some job) e = elim (Bool-cases (holds_lease c job)) [
  | inl held ↦ rw held (
      write-Grows db _ c.worker_job_id job (fail_job _ now job) e
        (live-JobGrows job _ (holds-live c job held) (omega arith)) (λ j. refl))
  | inr gone ↦ rw gone (Grows-refl db)
]

pub claim-Grows :
    (h : Handler) (now : ℕ) (msg : Message) (db : Db) → Grows db (claim h now msg db).1
unfolding claim
claim-Grows h now msg db = claim_rows-Grows h now msg db _ _ refl

pub mark-Grows :
    (now : ℕ) (msg : Message) (code : FailureCode) (db : Db)
    → Grows db (mark_unclaimed_terminal now msg code db)
unfolding mark_unclaimed_terminal
mark-Grows now msg code db = mark_row-Grows now msg code db _ refl

pub renew-Grows : (now : ℕ) (c : Claim) (db : Db) → Grows db (renew_lease now c db).1
unfolding renew_lease
renew-Grows now c db = renew_row-Grows now c db _ refl

pub settle-Grows :
    (now : ℕ) (c : Claim) (end : TaskEnd ProcessingResult) (db : Db)
    → Grows db (settle now c end db).1
unfolding settle settle_success settle_failure
settle-Grows now c (returned r) db = success_row-Grows now c r db _ refl
settle-Grows now c (raised Error.lease_lost) db = Grows-refl db
settle-Grows now c (raised Error.deadline_passed) db =
    failure_row-Grows now c FailureCode.deadline_exceeded db _ refl
settle-Grows now c (raised Error.connection_error) db =
    failure_row-Grows now c FailureCode.mcp_transport db _ refl
settle-Grows now c (raised Error.timeout_error) db =
    failure_row-Grows now c FailureCode.deadline_exceeded db _ refl
settle-Grows now c (raised Error.other_error) db =
    failure_row-Grows now c FailureCode.internal_error db _ refl
