-- ===== src/Examples/Processor.antt =====
-- The decisions of the processor on one result and on one lost connection, and their settlement.
use Prim.{tt}
use cloud_sre_ai_agent.Prelude.{
  ◌≡◌, refl, ℕ, ◌==◌, Bool, true, false, not, none, some, [], ◌∷◌, any, if◌then◌else◌,
}
use cloud_sre_ai_agent.Worker.Rows.{FailureCode, JobStatus, Job, Db}
use cloud_sre_ai_agent.Worker.Lifecycle.{Claim, ack, nack, holds_lease}
use cloud_sre_ai_agent.Worker.Lifecycle.Handle.{raised, connection_error, other_error, settle}
use cloud_sre_ai_agent.Worker.Waterfall.{elem, distinct}
use cloud_sre_ai_agent.Worker.Analysis.{
  trace, Code, valid_analysis, valid_observation, valid_report, valid_hypothesis, valid_claim,
  cites_known, failed_analysis, with_incomplete_specialist_analyses,
}
use cloud_sre_ai_agent.Worker.Analysis.Branches.{
  Result, Bundle, normalize_bundle, sort_results, failures_by_kind, in_order,
}
use cloud_sre_ai_agent.Worker.Analysis.Root.{synthesize, synthesize_prompt, canonical_inputs}
use cloud_sre_ai_agent.Worker.Analysis.Processor.{
  Settings, outcome, settled_bundle, ordered_bundle, persist_analyses, results_by_kind,
  is_retryable, known_evidence, known_evidence_from, add_references, is_incomplete, report_on,
  act_on, run_specialist_analysis, end_of, Raises, call,
}
use cloud_sre_ai_agent.Worker.Analysis.Processor.Settling.{is_retried, retried_exactly}
use cloud_sre_ai_agent.Worker.Analysis.Processor.Decisions.{
  IsSound, run_specialist_analysis-IsSound,
}
use cloud_sre_ai_agent.Worker.Analysis.Processor.Retries.{
  total_transport_failure, total_transport_failure_outcome,
}
use cloud_sre_ai_agent.Worker.Analysis.Processor.References.{known_evidence_exact}
use cloud_sre_ai_agent.Examples.Analysis.{result, report, answers}

known_evidence_exact_example :
    (distinct (known_evidence (result ∷ [])) ≡ true)
    × ((j : ℕ)
        → elem j (known_evidence (result ∷ [])) ≡ any (λ r. elem j r.known_evidence) (result ∷ []))
known_evidence_exact_example = known_evidence_exact (result ∷ [])

abbrev settings : Settings
settings = record { shadow = false; corrective_retries = 1 }

abbrev all_owned : Result → Bool
all_owned r = true

abbrev one_result : Bundle
one_result = record { results = result ∷ []; failures = [] }

analysis_is_reported :
    run_specialist_analysis settings false 1 all_owned answers one_result ≡ outcome report none
unfolding run_specialist_analysis act_on is_retryable report_on settled_bundle ordered_bundle
    normalize_bundle sort_results failures_by_kind in_order persist_analyses results_by_kind
    known_evidence_from add_references synthesize canonical_inputs valid_analysis valid_observation
    synthesize_prompt valid_report valid_hypothesis valid_claim cites_known
    with_incomplete_specialist_analyses
analysis_is_reported = refl

run_specialist_analysis-IsSound_example :
    IsSound
      (not (is_incomplete (settled_bundle all_owned one_result)))
      (known_evidence (settled_bundle all_owned one_result).results)
      report
run_specialist_analysis-IsSound_example =
    run_specialist_analysis-IsSound settings false 1 all_owned answers one_result report none
      analysis_is_reported

abbrev one_failure : Bundle
one_failure = record {
  results = [];
  failures = (record { specialist = trace; code = Code.mcp_transport }) ∷ [];
}

all_transport : total_transport_failure (settled_bundle all_owned one_failure) ≡ true
unfolding settled_bundle ordered_bundle normalize_bundle sort_results failures_by_kind in_order
    persist_analyses results_by_kind
all_transport = refl

total_transport_failure_outcome_example :
    run_specialist_analysis settings false 3 all_owned answers one_failure
    ≡ outcome failed_analysis (some FailureCode.mcp_transport)
total_transport_failure_outcome_example =
    total_transport_failure_outcome settings false 3 all_owned answers one_failure all_transport

abbrev job_claim : Claim
job_claim = record {
  worker_job_id = 1;
  rca_run_id = 2;
  incident_id = 3;
  attempt_number = 2;
  deadline_at = 100;
  lease_owner = "worker";
}

abbrev no_rows : Db
no_rows = record { jobs = λ k. none; runs = λ k. none; attempts = λ k n. none }

abbrev job : Job
job = record {
  rca_run_id = 2;
  status = JobStatus.running;
  attempt_count = 2;
  lease_owner = some "worker";
  lease_expires_at = some 60;
  available_at = 0;
  started_at = some 1;
  completed_at = none;
  created_at = 0;
  updated_at = 0;
}

abbrev one_job : Db
one_job = record no_rows { jobs = λ k. if 1 == k then some job else none }

-- Only the report cannot be written.
abbrev quiet : Raises
quiet = record {
  load_context = none;
  discover = none;
  workflow = none;
  persist_analyses = none;
  persist_failures = none;
  persist_report = some other_error;
}

lost_connections_raise :
    (call quiet true settings false 2 all_owned answers one_failure).1
    ≡ some (raised connection_error)
unfolding call end_of run_specialist_analysis act_on is_retryable settled_bundle ordered_bundle
    normalize_bundle sort_results failures_by_kind in_order persist_analyses results_by_kind
lost_connections_raise = refl

retried_exactly_example :
    (settle 50 job_claim (raised connection_error) one_job).0
    ≡ (if is_retried quiet true 2 (settled_bundle all_owned one_failure) then nack else ack)
unfolding holds_lease
retried_exactly_example =
    retried_exactly quiet true settings false all_owned answers one_failure 50 job_claim one_job job
      (raised connection_error) (tt, tt, tt, tt, tt, refl) refl refl lost_connections_raise
