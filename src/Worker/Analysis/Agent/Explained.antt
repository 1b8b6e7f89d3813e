-- ===== src/Worker/Analysis/Agent/Explained.antt =====
-- What `AdkSpecialistAgent.analyze` of agents/specialists/adk_agent.py returns and raises, and in
-- which attempt.
use cloud_sre_ai_agent.Prelude.{
  ◌≡◌, refl, subst, ℕ, zero, suc, ◌+◌, ◌≤◌, Bool, true, Option, none, some, List, arith,
}
use cloud_sre_ai_agent.Worker.Analysis.{
  Kind, Code, Analysis, Validation, accepted, rejected, validate,
}
use cloud_sre_ai_agent.Worker.Analysis.Branches.{is_validation_code}
use cloud_sre_ai_agent.Worker.Analysis.Validator.{Promised, validate-Promised, validate-rejected}
use cloud_sre_ai_agent.Worker.Analysis.Agent.{
  AgentRun, ends, says, Ending, raises, invalid, returns, of_validation, attempt_ending,
  attempts_from, analyze,
}

-- The prompt of the attempt with this number: the first one, or the correction of the attempt before
-- it, whose draft was not valid.
pub data Sent {E : Type 0} (n : ℕ) (k : Kind) (run : Option Code → AgentRun E)
    : ℕ → Option Code → Type 0 where
  first : Sent n k run zero none
  corrected :
      (i : ℕ) (p : Option Code) (c : Code)
      → Sent n k run i p
      → attempt_ending n k (run p) ≡ invalid c
      → Sent n k run (suc i) (some c)

-- An analysis that a run gave rise to: the promises hold for the evidence of that run.
abbrev pub Kept : {E : Type 0} → ℕ → Kind → AgentRun E → Analysis → Type 0
Kept n k r b =
    (draft : Analysis) × (owned : List ℕ) × (t : Bool) × (r ≡ says (some draft) owned t)
    × Promised n k owned t b
    × (b.observations ≡ draft.observations)

-- What an attempt that ends so did.
abbrev pub Told : {E : Type 0} → ℕ → Kind → AgentRun E → Ending E → Type 0
Told n k r (raises e) = r ≡ ends e
Told n k r (invalid c) = is_validation_code c ≡ true
Told n k r (returns b) = Kept n k r b

-- What a call with these corrections that ends so did.
abbrev pub Explained : {E : Type 0} → ℕ → ℕ → Kind → (Option Code → AgentRun E) → Ending E → Type 0
Explained n retries k run (raises e) =
    (i : ℕ) × (p : Option Code) × (i ≤ retries) × Sent n k run i p × (run p ≡ ends e)
Explained n retries k run (invalid c) =
    (p : Option Code) × Sent n k run retries p
    × (attempt_ending n k (run p) ≡ invalid c)
    × (is_validation_code c ≡ true)
Explained n retries k run (returns b) =
    (i : ℕ) × (p : Option Code) × (i ≤ retries) × Sent n k run i p × Kept n k (run p) b

Told-of_validation :
    {E : Type 0} (n : ℕ) (k : Kind) (r : AgentRun E) (owned : List ℕ) (t : Bool) (draft : Analysis)
    (v : Validation)
    → r ≡ says (some draft) owned t
    → validate n k owned t draft ≡ v
    → Told n k r (of_validation v)
Told-of_validation n k r owned t draft (rejected c) q h = validate-rejected n k owned t draft c h
Told-of_validation n k r owned t draft (accepted b) q h =
    let (promised, same) = validate-Promised n k owned t draft b h in
    (draft, owned, t, q, promised, same)

attempt_ending-Told :
    {E : Type 0} (n : ℕ) (k : Kind) (r : AgentRun E) → Told n k r (attempt_ending n k r)
unfolding attempt_ending
attempt_ending-Told n k (ends e) = refl
attempt_ending-Told n k (says none owned t) = refl
attempt_ending-Told n k (says (some draft) owned t) =
    Told-of_validation n k (says (some draft) owned t) owned t draft (validate n k owned t draft)
      refl refl

-- The last attempt.
last-Explained :
    {E : Type 0} (n retries : ℕ) (k : Kind) (run : Option Code → AgentRun E) (p : Option Code)
    (e : Ending E)
    → Sent n k run retries p
    → attempt_ending n k (run p) ≡ e
    → Told n k (run p) e
    → Explained n retries k run e
last-Explained n retries k run p (raises e) s h t = (retries, p, omega arith, s, t)
last-Explained n retries k run p (invalid c) s h t = (p, s, h, t)
last-Explained n retries k run p (returns b) s h t = (retries, p, omega arith, s, t)

-- An earlier attempt, after which the rest of the loop is explained.
next-Explained :
    {E : Type 0} (n retries i m : ℕ) (k : Kind) (run : Option Code → AgentRun E) (p : Option Code)
    (e : Ending E)
    → i + suc m ≡ retries
    → Sent n k run i p
    → attempt_ending n k (run p) ≡ e
    → Told n k (run p) e
    → ((c : Code)
        → Sent n k run (suc i) (some c)
        → Explained n retries k run (attempts_from n k run m (some c)))
    → Explained n retries k run (elim e [
      | raises x ↦ raises x
      | invalid c ↦ attempts_from n k run m (some c)
      | returns a ↦ returns a
    ])
next-Explained n retries i m k run p (raises e) q s h t rest = (i, p, omega arith, s, t)
next-Explained n retries i m k run p (invalid c) q s h t rest = rest c (corrected i p c s h)
next-Explained n retries i m k run p (returns b) q s h t rest = (i, p, omega arith, s, t)

attempts_from-Explained :
    {E : Type 0} (n retries m i : ℕ) (k : Kind) (run : Option Code → AgentRun E) (p : Option Code)
    → i + m ≡ retries
    → Sent n k run i p
    → Explained n retries k run (attempts_from n k run m p)
unfolding attempts_from
attempts_from-Explained n retries zero i k run p q s =
    last-Explained n retries k run p (attempt_ending n k (run p))
      (subst (λ j. Sent n k run j p) (omega arith) s) refl (attempt_ending-Told n k (run p))
attempts_from-Explained n retries (suc m) i k run p q s =
    next-Explained n retries i m k run p (attempt_ending n k (run p)) q s refl
      (attempt_ending-Told n k (run p))
      (λ c s'. attempts_from-Explained n retries m (suc i) k run (some c) (omega arith) s')

-- The agent ends with what one of its attempts did, of which there are at most one more than the
-- corrections; each but the first has the prompt that corrects the attempt before it, whose draft was
-- not valid. An exception is that of the run. A validation error is that of the last attempt, and it
-- has one of the two codes of the validator. An analysis that is returned has the observations of the
-- draft of its attempt and is well formed, comes from the agent's specialist, has at most
-- max_observations observations, which cite only the evidence that the tools had after that run, and
-- where they had truncated the input it says so and is not COMPLETE.
pub analyze-Explained :
    {E : Type 0} (n retries : ℕ) (k : Kind) (run : Option Code → AgentRun E)
    → Explained n retries k run (analyze n retries k run)
unfolding analyze
analyze-Explained n retries k run =
    attempts_from-Explained n retries retries zero k run none (omega arith) first
