-- ===== src/Backend/Settlement.antt =====
-- `_complete_durable_settlement` of
-- backend/src/sre_agent/application/outbox/publish_events.py: an outer cancellation is deferred until
-- the settlement task has ended.
use cloud_sre_ai_agent.Prelude.{
  ℕ, zero, suc, ◌≡◌, ◌∙◌, ap, refl, Bool, true, false, ◌||◌, if◌then◌else◌, ltb, arith,
}

-- How the settlement task ends.
pub data TaskEnd {ℓ} (A : Type ℓ) : Type ℓ where
  value : A → TaskEnd A
  error : TaskEnd A
  cancelled : TaskEnd A

-- What the caller gets; an error may carry the note that a cancellation was deferred.
pub data Outcome {ℓ} (A : Type ℓ) : Type ℓ where
  returns : A → Outcome A
  raises : Bool → Outcome A
  raises_cancelled : Outcome A

-- The wakings of `await asyncio.shield(settlement)`: `interrupts` outer cancellations while the task
-- runs, then its end, which a last outer cancellation may overtake (`late`).
pub record Schedule : Type 0 where
  pub interrupts : ℕ
  pub late : Bool

positive : (n : ℕ) → true ≡ ltb 0 (suc n)
positive n = ground arith

module _ {ℓ} {A : Type ℓ} where
  -- after the loop
  abbrev pub finish : Bool → A → Outcome A
  finish cancellation_requested a = if cancellation_requested then raises_cancelled else returns a

  abbrev pub last_wake : TaskEnd A → Bool → Bool → Outcome A
  last_wake cancelled late requested = raises_cancelled
  last_wake (value a) late requested = finish (requested || late) a
  last_wake error late requested = raises (requested || late)

  unfoldable pub await_settlement : TaskEnd A → ℕ → Bool → Bool → Outcome A
  await_settlement end zero late requested = last_wake end late requested
  await_settlement end (suc interrupts) late requested = await_settlement end interrupts late true

  -- `_complete_durable_settlement`
  unfoldable pub complete_durable_settlement : TaskEnd A → Schedule → Outcome A
  unfolding await_settlement
  complete_durable_settlement end s = await_settlement end s.interrupts s.late false

  await-true :
      (end : TaskEnd A) (n : ℕ) (late : Bool)
      → await_settlement end n late true ≡ last_wake end late true
  unfolding await_settlement
  await-true end zero late = refl
  await-true end (suc n) late = await-true end n late

  await-false :
      (end : TaskEnd A) (n : ℕ) (late : Bool)
      → await_settlement end n late false ≡ last_wake end late (ltb 0 n)
  unfolding await_settlement
  await-false end zero late = refl
  await-false end (suc n) late = await-true end n late ∙ ap (last_wake end late) (positive n)

  -- However often the caller is cancelled, the settlement's own end decides: with no cancellation
  -- its value is returned and its error raised without the note; with one or more, early or late, a
  -- value becomes a CancelledError and an error is raised with the note.
  pub cancellation_deferred :
      (s : Schedule) (a : A)
      → (complete_durable_settlement (value a) s
          ≡ (if ltb 0 s.interrupts || s.late then raises_cancelled else returns a))
        × (complete_durable_settlement error s ≡ raises (ltb 0 s.interrupts || s.late))
  unfolding complete_durable_settlement
  cancellation_deferred s a =
      (await-false (value a) s.interrupts s.late, await-false error s.interrupts s.late)
