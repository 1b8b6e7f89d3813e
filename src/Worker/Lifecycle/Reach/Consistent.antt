-- ===== src/Worker/Lifecycle/Reach/Consistent.antt =====
-- Each transaction of job_lifecycle.py keeps jobs and attempts consistent, and leaves ended jobs be.
use cloud_sre_ai_agent.Prelude.{
  ℕ, ◌+◌, ◌≤◌, ◌<◌, ◌≡◌, refl, ◌≢◌, Bool, true, false, not, ◌&&◌, Option, none, some, arith, ◌==◌,
  leb, ◌∙◌, Table, update, modify, is_some, Bool-cases, if◌then◌else◌, inl, inr,
}
use cloud_sre_ai_agent.Worker.Rows.{
  JobStatus, FailureCode, Job, Run, Attempt, Db, is_terminal, is_running,
}
use cloud_sre_ai_agent.Worker.Lifecycle.{
  Message, Claim, Handler, Claimed, claimable, claim_rows, claim, claim_job, fail_job, mark_row,
  mark_unclaimed_terminal, settle_success_row, settle_success, settle_failure_row, settle_failure,
  ProcessingResult, holds_lease, renew_row, renew_lease, close_job, settled_status, is_final,
}
use cloud_sre_ai_agent.Worker.Lifecycle.Handle.{settle, returned, raised, TaskEnd, Error}

-- A job has at most three attempts, they are numbered from 1 without a gap and each has its row, and
-- the job has a lease owner exactly when it is RUNNING.
pub record JobIsConsistent (job : Job) (attempts : Table Attempt) : Type 0 where
  pub bounded : job.attempt_count ≤ 3
  pub numbered : (n : ℕ) → is_some (attempts n) ≡ (leb 1 n && leb n job.attempt_count)
  pub leased : is_running job.status ≡ is_some job.lease_owner

abbrev pub RowIsConsistent : Option Job → Table Attempt → Type 0
RowIsConsistent none attempts = Unit {0}
RowIsConsistent (some job) attempts = JobIsConsistent job attempts

pub record IsConsistent (db : Db) : Type 0 where
  pub at_key : (j : ℕ) → RowIsConsistent (db.jobs j) (db.attempts j)

is_some-modify {ℓ} :
    {A : Type ℓ} (t : Table A) (k : ℕ) (f : A → A) (n : ℕ)
    → is_some (modify t k f n) ≡ is_some (t n)
is_some-modify t k f n = ground arith

claimable-few :
    (h : Handler) (now : ℕ) (msg : Message) (job : Job) (run : Run)
    → claimable h now msg job run ≡ true
    → job.attempt_count < 3
unfolding claimable
claimable-few h now msg job run e = ground arith

claim_job-consistent :
    (h : Handler) (now : ℕ) (job : Job) (a : Table Attempt) (row : Attempt)
    → job.attempt_count < 3
    → JobIsConsistent job a
    → JobIsConsistent (claim_job h now job) (update a (job.attempt_count + 1) row)
unfolding claim_job
claim_job-consistent h now job a row few c = record {
  bounded = omega (arith, few);
  numbered = λ n. ground (arith, c.numbered n);
  leased = refl;
}

close_job-consistent :
    (s : JobStatus) (now : ℕ) (job : Job) (a : Table Attempt)
    → is_running s ≡ false
    → JobIsConsistent job a
    → JobIsConsistent (close_job s now job) a
unfolding close_job
close_job-consistent s now job a ended c = record {
  bounded = c.bounded;
  numbered = c.numbered;
  leased = ended;
}

fail_job-consistent :
    (b : Bool) (now : ℕ) (job : Job) (a : Table Attempt)
    → JobIsConsistent job a
    → JobIsConsistent (fail_job b now job) a
unfolding fail_job
fail_job-consistent b now job a c = record {
  bounded = c.bounded;
  numbered = c.numbered;
  leased = ground arith;
}

same_rows :
    (o : Option Job) (a a' : Table Attempt)
    → ((n : ℕ) → is_some (a' n) ≡ is_some (a n))
    → RowIsConsistent o a
    → RowIsConsistent o a'
same_rows none a a' e c = c
same_rows (some job) a a' e c = record {
  bounded = c.bounded;
  numbered = λ n. e n ∙ c.numbered n;
  leased = c.leased;
}

-- What a transaction that writes the row of one job has to show.
write-IsConsistent :
    (db db' : Db) (k : ℕ) (job : Job) (a : Table Attempt)
    → IsConsistent db
    → JobIsConsistent job a
    → ((j : ℕ) → db'.jobs j ≡ update db.jobs k job j)
    → ((j n : ℕ)
        → is_some (db'.attempts j n)
          ≡ (if k == j then is_some (a n) else is_some (db.attempts j n)))
    → IsConsistent db'
write-IsConsistent db db' k job a c cj jobs attempts = record {
  at_key = λ j. elim (Bool-cases (k == j)) [
    | inl same ↦
        rw (jobs j)
          (rw same (same_rows (some job) a (db'.attempts j) (λ n. attempts j n ∙ rw same refl) cj))
    | inr other ↦ rw (jobs j) (
        rw other (
          same_rows (db.jobs j) (db.attempts j) (db'.attempts j) (λ n. attempts j n ∙ rw other refl)
            (c.at_key j)))
  ];
}

row_at :
    (db : Db) (k : ℕ) (job : Job)
    → db.jobs k ≡ some job
    → IsConsistent db
    → JobIsConsistent job (db.attempts k)
row_at db k job e c = rw e at (c.at_key k)

pub claim_rows-IsConsistent :
    (h : Handler) (now : ℕ) (msg : Message) (db : Db) (o : Option Job) (r : Option Run)
    → db.jobs msg.worker_job_id ≡ o
    → IsConsistent db
    → IsConsistent (claim_rows h now msg db o r).1
unfolding claim_rows
claim_rows-IsConsistent h now msg db none r e c = c
claim_rows-IsConsistent h now msg db (some job) none e c = c
claim_rows-IsConsistent h now msg db (some job) (some run) e c =
    elim (Bool-cases (claimable h now msg job run)) [
      | inr refused ↦ rw refused c
      | inl fits ↦
          rw fits
            (elim (Bool-cases (is_some (db.attempts msg.worker_job_id (job.attempt_count + 1)))) [
              | inl taken ↦ rw taken c
              | inr free ↦ rw free (
                  write-IsConsistent db _ msg.worker_job_id (claim_job h now job)
                    (update (db.attempts msg.worker_job_id) (job.attempt_count + 1)
                      (record { completed_at = none; failure_code = none }))
                    c
                    (claim_job-consistent h now job _ _ (claimable-few h now msg job run fits)
                      (row_at db _ job e c))
                    (λ j. refl) (λ j n. ground arith))
            ])
    ]

pub mark_row-IsConsistent :
    (now : ℕ) (msg : Message) (code : FailureCode) (db : Db) (o : Option Job)
    → db.jobs msg.worker_job_id ≡ o
    → IsConsistent db
    → IsConsistent (mark_row now msg code db o)
unfolding mark_row
mark_row-IsConsistent now msg code db none e c = c
mark_row-IsConsistent now msg code db (some job) e c =
    elim (Bool-cases (job.rca_run_id == msg.rca_run_id && not (is_terminal job.status))) [
      | inl live ↦ rw live (
          write-IsConsistent db _ msg.worker_job_id (close_job JobStatus.failed now job)
            (db.attempts msg.worker_job_id) c
            (close_job-consistent JobStatus.failed now job _ refl (row_at db _ job e c)) (λ j. refl)
            (λ j n. ground arith))
      | inr over ↦ rw over c
    ]

renew-consistent :
    (t now : ℕ) (job : Job) (a : Table Attempt)
    → JobIsConsistent job a
    → JobIsConsistent (record job { lease_expires_at = some t; updated_at = now }) a
renew-consistent t now job a c = record {
  bounded = c.bounded;
  numbered = c.numbered;
  leased = c.leased;
}

pub renew_row-IsConsistent :
    (now : ℕ) (cl : Claim) (db : Db) (o : Option Job)
    → db.jobs cl.worker_job_id ≡ o
    → IsConsistent db
    → IsConsistent (renew_row now cl db o).1
unfolding renew_row
renew_row-IsConsistent now cl db none e c = c
renew_row-IsConsistent now cl db (some job) e c = elim (Bool-cases (holds_lease cl job)) [
  | inl held ↦ rw held (
      write-IsConsistent db _ cl.worker_job_id
        (record job { lease_expires_at = some (now + 60000000); updated_at = now })
        (db.attempts cl.worker_job_id) c (renew-consistent _ now job _ (row_at db _ job e c))
        (λ j. refl) (λ j n. ground arith))
  | inr gone ↦ rw gone c
]

pub success_row-IsConsistent :
    (now : ℕ) (cl : Claim) (r : ProcessingResult) (db : Db) (o : Option Job)
    → db.jobs cl.worker_job_id ≡ o
    → IsConsistent db
    → IsConsistent (settle_success_row now cl r db o).1
unfolding settle_success_row
success_row-IsConsistent now cl r db none e c = c
success_row-IsConsistent now cl r db (some job) e c = elim (Bool-cases (holds_lease cl job)) [
  | inl held ↦ rw held (
      write-IsConsistent db _ cl.worker_job_id (close_job (settled_status r.status) now job)
        (db.attempts cl.worker_job_id) c
        (close_job-consistent _ now job _ (ground arith) (row_at db _ job e c)) (λ j. refl)
        (λ j n. ground arith))
  | inr gone ↦ rw gone c
]

pub failure_row-IsConsistent :
    (now : ℕ) (cl : Claim) (code : FailureCode) (db : Db) (o : Option Job)
    → db.jobs cl.worker_job_id ≡ o
    → IsConsistent db
    → IsConsistent (settle_failure_row now cl code db o).1
unfolding settle_failure_row
failure_row-IsConsistent now cl code db none e c = c
failure_row-IsConsistent now cl code db (some job) e c = elim (Bool-cases (holds_lease cl job)) [
  | inl held ↦ rw held (
      write-IsConsistent db _ cl.worker_job_id (fail_job (is_final cl code) now job)
        (db.attempts cl.worker_job_id) c (fail_job-consistent _ now job _ (row_at db _ job e c))
        (λ j. refl) (λ j n. ground arith))
  | inr gone ↦ rw gone c
]

pub claim-IsConsistent :
    (h : Handler) (now : ℕ) (msg : Message) (db : Db)
    → IsConsistent db
    → IsConsistent (claim h now msg db).1
unfolding claim
claim-IsConsistent h now msg db = claim_rows-IsConsistent h now msg db _ _ refl

pub mark-IsConsistent :
    (now : ℕ) (msg : Message) (code : FailureCode) (db : Db)
    → IsConsistent db
    → IsConsistent (mark_unclaimed_terminal now msg code db)
unfolding mark_unclaimed_terminal
mark-IsConsistent now msg code db = mark_row-IsConsistent now msg code db _ refl

pub renew-IsConsistent :
    (now : ℕ) (c : Claim) (db : Db) → IsConsistent db → IsConsistent (renew_lease now c db).1
unfolding renew_lease
renew-IsConsistent now c db = renew_row-IsConsistent now c db _ refl

pub settle-IsConsistent :
    (now : ℕ) (c : Claim) (end : TaskEnd ProcessingResult) (db : Db)
    → IsConsistent db
    → IsConsistent (settle now c end db).1
unfolding settle settle_success settle_failure
settle-IsConsistent now c (returned r) db = success_row-IsConsistent now c r db _ refl
settle-IsConsistent now c (raised Error.lease_lost) db = λ h. h
settle-IsConsistent now c (raised Error.deadline_passed) db =
    failure_row-IsConsistent now c FailureCode.deadline_exceeded db _ refl
settle-IsConsistent now c (raised Error.connection_error) db =
    failure_row-IsConsistent now c FailureCode.mcp_transport db _ refl
settle-IsConsistent now c (raised Error.timeout_error) db =
    failure_row-IsConsistent now c FailureCode.deadline_exceeded db _ refl
settle-IsConsistent now c (raised Error.other_error) db =
    failure_row-IsConsistent now c FailureCode.internal_error db _ refl

no_conflict_row :
    (h : Handler) (now : ℕ) (msg : Message) (db : Db) (o : Option Job) (r : Option Run)
    → RowIsConsistent o (db.attempts msg.worker_job_id)
    → (claim_rows h now msg db o r).0 ≢ Claimed.conflict
unfolding claim_rows
no_conflict_row h now msg db none r c e = cc
no_conflict_row h now msg db (some job) none c e = cc
no_conflict_row h now msg db (some job) (some run) c e =
    ground (arith, c.numbered (job.attempt_count + 1))

-- Over consistent tables the INSERT of a claim's attempt never meets an existing row.
pub claim-ne-conflict :
    (h : Handler) (now : ℕ) (msg : Message) (db : Db)
    → IsConsistent db
    → (claim h now msg db).0 ≢ Claimed.conflict
unfolding claim
claim-ne-conflict h now msg db c = no_conflict_row h now msg db _ _ (c.at_key msg.worker_job_id)
