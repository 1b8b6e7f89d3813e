-- ===== src/Worker/Analysis/Agent.antt =====
-- `AdkSpecialistAgent.analyze` of agents/specialists/adk_agent.py. What the model does with a prompt
-- is an argument. With at most one correction, a prompt is told by the code that it corrects.
pub mod Explained
use cloud_sre_ai_agent.Prelude.{ℕ, zero, suc, Bool, Option, none, some, List}
use cloud_sre_ai_agent.Worker.Analysis.{
  Kind, Code, analysis_schema_invalid, Analysis, Validation, accepted, rejected, validate,
}

-- How `_remaining_seconds` and `_run_once` end: with an exception, or with the draft of the final
-- text, where it has one; then there are the evidence and the truncation of the tools after the run.
pub data AgentRun (E : Type 0) : Type 0 where
  ends : E → AgentRun E
  says : Option Analysis → List ℕ → Bool → AgentRun E

-- How `analyze` ends: with an exception of the run, with a validation error, or with an analysis.
pub data Ending (E : Type 0) : Type 0 where
  raises : E → Ending E
  invalid : Code → Ending E
  returns : Analysis → Ending E

abbrev pub of_validation : {E : Type 0} → Validation → Ending E
of_validation (accepted a) = returns a
of_validation (rejected c) = invalid c

-- The body of the loop, up to the test for the last attempt.
unfoldable pub attempt_ending : {E : Type 0} → ℕ → Kind → AgentRun E → Ending E
attempt_ending max_observations kind (ends e) = raises e
attempt_ending max_observations kind (says none owned t) = invalid analysis_schema_invalid
attempt_ending max_observations kind (says (some draft) owned t) =
    of_validation (validate max_observations kind owned t draft)

-- The loop, with the number of corrections that are left and the prompt
unfoldable pub attempts_from :
    {E : Type 0} → ℕ → Kind → (Option Code → AgentRun E) → ℕ → Option Code → Ending E
attempts_from max_observations kind run zero prompt =
    attempt_ending max_observations kind (run prompt)
attempts_from max_observations kind run (suc n) prompt =
    elim (attempt_ending max_observations kind (run prompt)) [
      | raises e ↦ raises e
      | invalid c ↦ attempts_from max_observations kind run n (some c)
      | returns a ↦ returns a
    ]

-- `AdkSpecialistAgent.analyze`
unfoldable pub analyze : {E : Type 0} → ℕ → ℕ → Kind → (Option Code → AgentRun E) → Ending E
analyze max_observations corrective_retries kind run =
    attempts_from max_observations kind run corrective_retries none
