-- ===== src/Worker/Lifecycle/Reach/Progress.antt =====
-- The claims in progress in a system of deliveries of job_lifecycle.py, and what one step does to them.
use cloud_sre_ai_agent.Prelude.{
  ℕ, ◌+◌, ◌≤◌, ◌<◌, ◌≡◌, refl, ◌≢◌, ◌⊎◌, Option, none, some, arith, ◌==◌, Bool-cases, inl, inr,
  ==_iff, ap,
}
use cloud_sre_ai_agent.Worker.Rows.{Job, Run, Db}
use cloud_sre_ai_agent.Worker.Lifecycle.{
  Message, Claim, Handler, Claimed, claim, claim_rows, claim_job, Inspection,
}
use cloud_sre_ai_agent.Worker.Lifecycle.Reach.{
  Phase, processing, lost, Delivery, System, after_claim, after_inspect, move, Stands,
}
use cloud_sre_ai_agent.Worker.Lifecycle.Reach.Consistent.{IsConsistent}
use cloud_sre_ai_agent.Worker.Lifecycle.Reach.Growth.{RowGrows, Grows}

-- No claim is ahead of its job's attempt count.
abbrev pub WithinRow : Claim → Option Job → Type 0
WithinRow c none = Unit {0}
WithinRow c (some job) = c.attempt_number ≤ job.attempt_count

abbrev pub Works : System → ℕ → Claim → Type 0
Works s d c = (h : Handler) × Stands s d h (processing c)

pub record IsExclusive (s : System) : Type 0 where
  pub consistent : IsConsistent s.db
  pub within :
      (d : ℕ) (h : Handler) (c : Claim)
      → Stands s d h (processing c)
      → WithinRow c (s.db.jobs c.worker_job_id)
  pub apart :
      (d d' : ℕ) (h h' : Handler) (c c' : Claim)
      → d ≢ d'
      → Stands s d h (processing c)
      → Stands s d' h' (processing c')
      → c.worker_job_id ≡ c'.worker_job_id
      → c.attempt_number ≢ c'.attempt_number

pub WithinRow-grows :
    (c : Claim) (o o' : Option Job) → RowGrows o o' → WithinRow c o → WithinRow c o'
WithinRow-grows c none none g w = tt
WithinRow-grows c none (some j) g w = absurd g
WithinRow-grows c (some j) none g w = absurd g
WithinRow-grows c (some j) (some j') g w = omega (arith, g.counts)

-- A step that starts no claim keeps the invariant, if it keeps the tables consistent and growing.
pub quiet-IsExclusive :
    (s t : System)
    → IsExclusive s
    → IsConsistent t.db
    → Grows s.db t.db
    → ((d : ℕ) (h : Handler) (c : Claim)
        → Stands t d h (processing c)
        → Stands s d h (processing c))
    → IsExclusive t
quiet-IsExclusive s t x c g old = record {
  consistent = c;
  within = λ d h cl st.
      WithinRow-grows cl _ _ (g.at_key cl.worker_job_id) (x.within d h cl (old d h cl st));
  apart =
      λ d d' h h' cl cl' ne st st'. x.apart d d' h h' cl cl' ne (old d h cl st) (old d' h' cl' st');
}

abbrev pub in_phase : Phase → Option Delivery → Phase
in_phase p none = p
in_phase p (some d) = d.phase

abbrev pub claim_in : Phase → Claimed
claim_in (processing c) = Claimed.claimed c
claim_in _ = Claimed.unclaimed

-- What a move leaves in progress.
pub moved :
    (s : System) (d : ℕ) (h : Handler) (p : Phase) (db : Db) (d' : ℕ) (h' : Handler) (c : Claim)
    → Stands (move s d h p db) d' h' (processing c)
    → ((d ≡ d') × (p ≡ processing c)) ⊎ ((d ≢ d') × Stands s d' h' (processing c))
moved s d h p db d' h' c st = elim (Bool-cases (d == d')) [
  | inl same ↦ inl ((==_iff d d').0 same, ap (in_phase lost) (rw same at st))
  | inr other ↦ inr (ground arith, rw other at st)
]

pub idle-moved :
    (s : System) (d : ℕ) (h : Handler) (p : Phase) (db : Db)
    → ((c : Claim) → p ≢ processing c)
    → (d' : ℕ) (h' : Handler) (c : Claim) → Stands (move s d h p db) d' h' (processing c)
    → Stands s d' h' (processing c)
idle-moved s d h p db idle d' h' c st = elim (moved s d h p db d' h' c st) [
  | inl (same, busy) ↦ absurd (idle c busy)
  | inr (other, old) ↦ old
]

pub after_inspect-idle :
    (msg : Message) (i : Inspection) (c : Claim) → after_inspect msg i ≢ processing c
after_inspect-idle msg (Inspection.answered d) c e = cc
after_inspect-idle msg (Inspection.doomed code) c e = cc

-- What a successful claim is: the next attempt of the job's row.
pub record Claims (db db' : Db) (c : Claim) : Type 0 where
  pub old : Job
  pub new : Job
  pub old_row : db.jobs c.worker_job_id ≡ some old
  pub new_row : db'.jobs c.worker_job_id ≡ some new
  pub number : c.attempt_number ≡ old.attempt_count + 1
  pub count : new.attempt_count ≡ old.attempt_count + 1

claim_rows-Claims :
    (h : Handler) (now : ℕ) (msg : Message) (db : Db) (o : Option Job) (r : Option Run) (c : Claim)
    → db.jobs msg.worker_job_id ≡ o
    → (claim_rows h now msg db o r).0 ≡ Claimed.claimed c
    → Claims db (claim_rows h now msg db o r).1 c
unfolding claim_rows
claim_rows-Claims h now msg db none r c e k = absurd (ground arith)
claim_rows-Claims h now msg db (some job) none c e k = absurd (ground arith)
claim_rows-Claims h now msg db (some job) (some run) c e k = record {
  old = job;
  new = claim_job h now job;
  old_row = ground arith;
  new_row = ground arith;
  number = ground arith;
  count = ground arith;
}

pub claim-Claims :
    (h : Handler) (now : ℕ) (msg : Message) (db : Db) (c : Claim)
    → (claim h now msg db).0 ≡ Claimed.claimed c
    → Claims db (claim h now msg db).1 c
unfolding claim
claim-Claims h now msg db c k = claim_rows-Claims h now msg db _ _ c refl k

pub Claims-ahead :
    (db db' : Db) (c c' : Claim)
    → Claims db db' c
    → c.worker_job_id ≡ c'.worker_job_id
    → WithinRow c' (db.jobs c'.worker_job_id)
    → c'.attempt_number < c.attempt_number
Claims-ahead db db' c c' k same w =
    let w' : WithinRow c' (some (k.old)) = rw (← same, k.old_row) at w in
    omega (arith, k.number, w')

pub Claims-within :
    (db db' : Db) (c : Claim) → Claims db db' c → WithinRow c (db'.jobs c.worker_job_id)
Claims-within db db' c k = rw (k.new_row) (omega (arith, k.number, k.count))

pub after_claim-claimed :
    (msg : Message) (cl : Claimed) (c : Claim)
    → after_claim msg cl ≡ processing c
    → cl ≡ Claimed.claimed c
after_claim-claimed msg Claimed.conflict c e = absurd (ground arith)
after_claim-claimed msg Claimed.unclaimed c e = absurd (ground arith)
after_claim-claimed msg (Claimed.claimed c') c e = ap (λ p. claim_in p) e
