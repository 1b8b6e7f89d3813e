-- ===== src/Worker/Lifecycle/Reach/Exclusive.antt =====
-- Every reachable system of deliveries of job_lifecycle.py: attempts are bounded, numbered once, and
-- worked on by one delivery each.
use cloud_sre_ai_agent.Prelude.{
  ℕ, ◌≤◌, ◌<◌, ◌≡◌, ◌≢◌, true, Option, none, some, arith, ◌∙◌, is_some, inl, inr, sym, ap, leb,
  ◌&&◌,
}
use cloud_sre_ai_agent.Worker.Rows.{Job, Db, is_terminal, is_running}
use cloud_sre_ai_agent.Worker.Lifecycle.{Message, Claim, Handler, Claimed, claim}
use cloud_sre_ai_agent.Worker.Lifecycle.Reach.{
  Phase, processing, System, after_claim, move, Stands, Step, deliver, claims, inspects, marks,
  renews, settles, dies, investigates, Reach, here, next,
}
use cloud_sre_ai_agent.Worker.Lifecycle.Reach.Consistent.{
  IsConsistent, claim-IsConsistent, mark-IsConsistent, renew-IsConsistent, settle-IsConsistent,
  claim-ne-conflict, JobIsConsistent,
}
use cloud_sre_ai_agent.Worker.Lifecycle.Reach.Growth.{
  RowGrows, Grows, Grows-refl, claim-Grows, mark-Grows, renew-Grows, settle-Grows,
}
use cloud_sre_ai_agent.Worker.Lifecycle.Reach.Progress.{
  WithinRow, IsExclusive, WithinRow-grows, quiet-IsExclusive, moved, idle-moved, after_inspect-idle,
  Claims, claim-Claims, Claims-ahead, Claims-within, after_claim-claimed,
}

module _ (s : System) (x : IsExclusive s) (d : ℕ) (h : Handler) (msg : Message) (now : ℕ) where
  abbrev after : System
  after = move s d h (after_claim msg (claim h now msg s.db).0) (claim h now msg s.db).1

  claimed-Claims :
      (c : Claim)
      → after_claim msg (claim h now msg s.db).0 ≡ processing c
      → Claims s.db (claim h now msg s.db).1 c
  claimed-Claims c e = claim-Claims h now msg s.db c (after_claim-claimed msg _ c e)

  claims-within :
      (d' : ℕ) (h' : Handler) (c : Claim)
      → Stands after d' h' (processing c)
      → WithinRow c (after.db.jobs c.worker_job_id)
  claims-within d' h' c st = elim (moved s d h _ (claim h now msg s.db).1 d' h' c st) [
    | inl (same, new) ↦ Claims-within s.db _ c (claimed-Claims c new)
    | inr (other, old) ↦
        WithinRow-grows c _ _ ((claim-Grows h now msg s.db).at_key c.worker_job_id)
          (x.within d' h' c old)
  ]

  claims-ahead :
      (c c' : Claim) (d' : ℕ) (h' : Handler)
      → after_claim msg (claim h now msg s.db).0 ≡ processing c
      → Stands s d' h' (processing c')
      → c.worker_job_id ≡ c'.worker_job_id
      → c'.attempt_number < c.attempt_number
  claims-ahead c c' d' h' new old same =
      Claims-ahead s.db _ c c' (claimed-Claims c new) same (x.within d' h' c' old)

  claims-apart :
      (d₁ d₂ : ℕ) (h₁ h₂ : Handler) (c₁ c₂ : Claim)
      → d₁ ≢ d₂
      → Stands after d₁ h₁ (processing c₁)
      → Stands after d₂ h₂ (processing c₂)
      → c₁.worker_job_id ≡ c₂.worker_job_id
      → c₁.attempt_number ≢ c₂.attempt_number
  claims-apart d₁ d₂ h₁ h₂ c₁ c₂ ne st₁ st₂ same =
      elim (moved s d h _ (claim h now msg s.db).1 d₁ h₁ c₁ st₁) [
        | inl (at₁, new₁) ↦ elim (moved s d h _ (claim h now msg s.db).1 d₂ h₂ c₂ st₂) [
          | inl (at₂, new₂) ↦ absurd (ne (sym at₁ ∙ at₂))
          | inr (off₂, old₂) ↦ λ e. omega (arith, claims-ahead c₁ c₂ d₂ h₂ new₁ old₂ same)
        ]
        | inr (off₁, old₁) ↦ elim (moved s d h _ (claim h now msg s.db).1 d₂ h₂ c₂ st₂) [
          | inl (at₂, new₂) ↦ λ e. omega (arith, claims-ahead c₂ c₁ d₁ h₁ new₂ old₁ (sym same))
          | inr (off₂, old₂) ↦ x.apart d₁ d₂ h₁ h₂ c₁ c₂ ne old₁ old₂ same
        ]
      ]

  claims-IsExclusive : IsExclusive after
  claims-IsExclusive = record {
    consistent = claim-IsConsistent h now msg s.db x.consistent;
    within = claims-within;
    apart = claims-apart;
  }

idle-IsExclusive :
    (s : System)
    → IsExclusive s
    → (d : ℕ) (h : Handler) (p : Phase) (db : Db) → ((c : Claim) → p ≢ processing c)
    → IsConsistent db
    → Grows s.db db
    → IsExclusive (move s d h p db)
idle-IsExclusive s x d h p db idle c g = quiet-IsExclusive s _ x c g (idle-moved s d h p db idle)

Step-IsExclusive : {s t : System} → Step s t → IsExclusive s → IsExclusive t
Step-IsExclusive {s} (deliver d h msg free e) x =
    rw e (idle-IsExclusive s x d h _ _ (λ c k. cc) x.consistent (Grows-refl s.db))
Step-IsExclusive {s} (claims d h msg now st e) x = rw e (claims-IsExclusive s x d h msg now)
Step-IsExclusive {s} (inspects d h msg now st e) x =
    rw e (idle-IsExclusive s x d h _ _ (after_inspect-idle msg _) x.consistent (Grows-refl s.db))
Step-IsExclusive {s} (marks d h msg code now st e) x = rw e (
    idle-IsExclusive s x d h _ _ (λ c k. cc) (mark-IsConsistent now msg code s.db x.consistent)
      (mark-Grows now msg code s.db))
Step-IsExclusive {s} (renews d h c now st e) x = rw e (
    quiet-IsExclusive s _ x (renew-IsConsistent now c s.db x.consistent) (renew-Grows now c s.db)
      (λ d' h' c' k. k))
Step-IsExclusive {s} (settles d h c now end st e) x = rw e (
    idle-IsExclusive s x d h _ _ (λ c k. cc) (settle-IsConsistent now c end s.db x.consistent)
      (settle-Grows now c end s.db))
Step-IsExclusive {s} (dies d h p st e) x =
    rw e (idle-IsExclusive s x d h _ _ (λ c k. cc) x.consistent (Grows-refl s.db))
Step-IsExclusive {s} (investigates runs e) x = rw e (
    quiet-IsExclusive s _ x (record { at_key = x.consistent.at_key })
      (record { at_key = (Grows-refl s.db).at_key }) (λ d' h' c' k. k))

Reach-IsExclusive : {s t : System} → IsExclusive s → Reach s t → IsExclusive t
Reach-IsExclusive x here = x
Reach-IsExclusive x (next r st) = Step-IsExclusive st (Reach-IsExclusive x r)

-- A system that no delivery has reached yet, over consistent tables.
pub record IsFresh (s : System) : Type 0 where
  pub tables : IsConsistent s.db
  pub nothing_delivered : (d : ℕ) → s.deliveries d ≡ none

IsFresh-IsExclusive : {s : System} → IsFresh s → IsExclusive s
IsFresh-IsExclusive {s} f = record {
  consistent = f.tables;
  within = λ d h c st. absurd (ground (arith, f.nothing_delivered d));
  apart = λ d d' h h' c c' ne st st' same e. ground (arith, f.nothing_delivered d);
}

-- From consistent tables, after any interleaving of the transactions of any deliveries and workers,
-- with deaths and with other writes to the runs: no two deliveries in progress work on the same
-- attempt of one job, and no claim is refused by the uniqueness of (job, attempt number).
pub attempts_exclusive :
    (s t : System)
    → IsFresh s
    → Reach s t
    → ((d d' : ℕ) (h h' : Handler) (c c' : Claim)
        → d ≢ d'
        → Stands t d h (processing c)
        → Stands t d' h' (processing c')
        → c.worker_job_id ≡ c'.worker_job_id
        → c.attempt_number ≢ c'.attempt_number)
      × ((h : Handler) (now : ℕ) (msg : Message) → (claim h now msg t.db).0 ≢ Claimed.conflict)
attempts_exclusive s t f r =
    let x = Reach-IsExclusive (IsFresh-IsExclusive f) r in
    (x.apart, λ h now msg. claim-ne-conflict h now msg t.db x.consistent)

-- From consistent tables, after any interleaving, every job has at most three attempts, its attempt
-- rows are exactly those numbered from 1 to its attempt count, and it has a lease owner exactly when
-- it is RUNNING.
pub jobs_stay_consistent :
    (s t : System)
    → IsFresh s
    → Reach s t
    → (j : ℕ) (job : Job) → t.db.jobs j ≡ some job
    → (job.attempt_count ≤ 3)
      × ((n : ℕ) → is_some (t.db.attempts j n) ≡ (leb 1 n && leb n job.attempt_count))
      × (is_running job.status ≡ is_some job.lease_owner)
jobs_stay_consistent s t f r j job e =
    let ok : JobIsConsistent job (t.db.attempts j) =
      rw e at ((Reach-IsExclusive (IsFresh-IsExclusive f) r).consistent.at_key j) in
    (ok.bounded, ok.numbered, ok.leased)

Step-Grows : {s t : System} → Step s t → Grows s.db t.db
Step-Grows {s} (deliver d h msg free e) = rw e (Grows-refl s.db)
Step-Grows {s} (claims d h msg now st e) = rw e (claim-Grows h now msg s.db)
Step-Grows {s} (inspects d h msg now st e) = rw e (Grows-refl s.db)
Step-Grows {s} (marks d h msg code now st e) = rw e (mark-Grows now msg code s.db)
Step-Grows {s} (renews d h c now st e) = rw e (renew-Grows now c s.db)
Step-Grows {s} (settles d h c now end st e) = rw e (settle-Grows now c end s.db)
Step-Grows {s} (dies d h p st e) = rw e (Grows-refl s.db)
Step-Grows {s} (investigates runs e) = rw e (record { at_key = (Grows-refl s.db).at_key })

ended_row :
    (o o' : Option Job) (job : Job)
    → RowGrows o o'
    → o ≡ some job
    → is_terminal job.status ≡ true
    → o' ≡ some job
ended_row none o' job g e ended = absurd (ground arith)
ended_row (some j) none job g e ended = absurd g
ended_row (some j) (some j') job g e ended = ap some (g.stays (ground arith)) ∙ e

-- A job that is SUCCEEDED or FAILED keeps its row unchanged through any further interleaving of
-- deliveries: no redelivery, late worker or renewal writes to it again.
pub ended_jobs_stay :
    (s t : System) (j : ℕ) (job : Job)
    → s.db.jobs j ≡ some job
    → is_terminal job.status ≡ true
    → Reach s t
    → t.db.jobs j ≡ some job
ended_jobs_stay s t j job e ended here = e
ended_jobs_stay s t j job e ended (next {t = m} r st) =
    ended_row _ _ job ((Step-Grows st).at_key j) (ended_jobs_stay s m j job e ended r) ended
