-- ===== src/Worker/Analysis/Processor.antt =====
-- `ProductionRcaProcessor` of application/rca/processor.py in the SHADOW and ACTIVE modes: what it does
-- with the bundle of the specialists, and the result that the job's lifecycle gets. What the audit
-- INSERT refuses, and the answers of the model, are arguments.
pub mod Decisions
pub mod Retries
pub mod Settling
pub mod References
use cloud_sre_ai_agent.Prelude.{
  ℕ, Bool, true, false, not, ◌&&◌, ◌||◌, Option, none, some, List, [], ◌∷◌, ◌++◌, any, all, map,
  keep, is_some, ltb, if◌then◌else◌,
}
use cloud_sre_ai_agent.Worker.Rows.{FailureCode}
use cloud_sre_ai_agent.Worker.Waterfall.{elem}
use cloud_sre_ai_agent.Worker.Analysis.{
  Kind, Code, is_stable, Analysis, AnalysisStatus, is_nil, is_complete, same_kind, Report,
  with_specialist_failures, insufficient_evidence, failed_analysis,
}
use cloud_sre_ai_agent.Worker.Analysis.Branches.{
  order, Failure, Result, Bundle, failures_by_kind, in_order, is_mcp_transport, normalize_bundle,
}
use cloud_sre_ai_agent.Worker.Analysis.Root.{
  Answer, Synthesis, reports, fails, is_cancelled, synthesize, synthesize_legacy,
}
use cloud_sre_ai_agent.Worker.Lifecycle.{ResultStatus, ProcessingResult}
use cloud_sre_ai_agent.Worker.Lifecycle.Handle.{
  TaskEnd, returned, raised, Error, connection_error, other_error,
}

-- `{result.analysis.specialist: result for result in ...}`
unfoldable pub results_by_kind : List Result → Kind → Option Result
results_by_kind [] k = none
results_by_kind (r ∷ rs) k =
    let rest = results_by_kind rs k in
    if is_some rest then rest else if same_kind r.analysis.specialist k then some r else none

-- `_ordered_analysis_bundle`
unfoldable pub ordered_bundle : Bundle → Bundle
ordered_bundle b = record {
  results = in_order (results_by_kind b.results) order;
  failures = in_order (failures_by_kind b.failures) order;
}

abbrev pub unknown_evidence : Result → Failure
unknown_evidence r = record {
  specialist = r.analysis.specialist;
  code = Code.analysis_unknown_evidence;
}

-- `_persist_specialist_analyses`, given which analyses cite evidence of their own run only
unfoldable pub persist_analyses : (Result → Bool) → List Result → List Result × List Failure
persist_analyses owned results =
    (keep owned results, map unknown_evidence (keep (λ r. not (owned r)) results))

-- The bundle that is acted on: normalized, ordered, and without the analyses that were refused.
unfoldable pub settled_bundle : (Result → Bool) → Bundle → Bundle
settled_bundle owned b =
    let first = ordered_bundle (normalize_bundle b) in
    let (persisted, refused) = persist_analyses owned first.results in
    ordered_bundle (record { results = persisted; failures = first.failures ++ refused })

-- `_raise_if_retryable_analysis_total_failure`: whether it raises
unfoldable pub is_retryable : Bundle → ℕ → Bool
is_retryable b attempt_number =
    ltb attempt_number 3
    && is_nil b.results
    && not (is_nil b.failures)
    && all (λ f. is_mcp_transport f.code) b.failures

-- `_ANALYSIS_FAILURE_CODES`
unfoldable pub analysis_failure_code : Code → Option FailureCode
analysis_failure_code Code.mcp_timeout = some FailureCode.mcp_timeout
analysis_failure_code Code.mcp_transport = some FailureCode.mcp_transport
analysis_failure_code Code.mcp_payload_too_large = some FailureCode.mcp_payload_too_large
analysis_failure_code Code.mcp_result_invalid = some FailureCode.mcp_result_invalid
analysis_failure_code Code.analysis_timeout = some FailureCode.analysis_timeout
analysis_failure_code Code.analysis_schema_invalid = some FailureCode.analysis_schema_invalid
analysis_failure_code Code.analysis_unknown_evidence = some FailureCode.analysis_unknown_evidence
analysis_failure_code Code.analysis_input_truncated = some FailureCode.analysis_input_truncated
analysis_failure_code Code.analysis_failed = some FailureCode.analysis_failed
analysis_failure_code Code.no_safe_mcp_capability = some FailureCode.no_safe_mcp_capability
analysis_failure_code _ = none

abbrev pub or_internal : Option FailureCode → FailureCode
or_internal none = FailureCode.internal_error
or_internal (some c) = c

-- The first failure of the specialist
unfoldable pub first_failure : Kind → List Failure → Option Failure
first_failure k [] = none
first_failure k (f ∷ fs) =
    let rest = first_failure k fs in if same_kind f.specialist k then some f else rest

unfoldable pub first_code : List Kind → List Failure → FailureCode
first_code [] failures = FailureCode.internal_error
first_code (k ∷ ks) failures = elim (first_failure k failures) [
  | none ↦ first_code ks failures
  | some f ↦ or_internal (analysis_failure_code f.code)
]

-- `_terminal_failure_code`, with `_ANALYSIS_FAILURE_CODES`
unfoldable pub terminal_failure_code : List Failure → Option FailureCode
terminal_failure_code failures = if is_nil failures then none else some (first_code order failures)

-- The loop over the references of `_known_evidence`, and the one over the results.
unfoldable pub add_references : List ℕ → List ℕ → List ℕ
add_references references [] = references
add_references references (k ∷ ks) =
    add_references (if elem k references then references else references ++ (k ∷ [])) ks

unfoldable pub known_evidence_from : List ℕ → List Result → List ℕ
known_evidence_from references [] = references
known_evidence_from references (r ∷ rs) =
    known_evidence_from (add_references references r.known_evidence) rs

-- `_known_evidence`
abbrev pub known_evidence : List Result → List ℕ
known_evidence results = known_evidence_from [] results

-- `_ProcessorRunOutcome`, an exception of the synthesis, or a cancellation.
pub data RunOutcome : Type 0 where
  outcome : Report → Option FailureCode → RunOutcome
  root_failure : FailureCode → RunOutcome
  was_cancelled : RunOutcome
  transient_failure : RunOutcome

abbrev pub is_incomplete : Bundle → Bool
is_incomplete b =
    not (is_nil b.failures) || any (λ r. not (is_complete r.analysis.status)) b.results

abbrev pub mark : Bool → Report → Report
mark incomplete r = if incomplete then with_specialist_failures r else r

abbrev pub after_synthesis : Bool → Synthesis → RunOutcome
after_synthesis incomplete (reports r) = outcome (mark incomplete r) none
after_synthesis incomplete (fails c) = root_failure c
after_synthesis incomplete is_cancelled = was_cancelled

-- The settings: whether the mode is SHADOW, and `agent_corrective_retries`.
pub record Settings : Type 0 where
  pub shadow : Bool
  pub corrective_retries : ℕ

unfoldable pub report_on : Settings → (ℕ → Answer) → Bundle → RunOutcome
report_on s answers b =
    let references = known_evidence b.results in
    after_synthesis (is_incomplete b) (
      if s.shadow
      then synthesize_legacy s.corrective_retries references answers
      else synthesize s.corrective_retries (map (λ r. r.analysis) b.results) references answers)

abbrev pub is_usable : Result → Bool
is_usable r = not (is_nil r.analysis.observations)

abbrev pub without_usable : Bool → Bundle → RunOutcome
without_usable is_aws b =
    if not (is_nil b.failures) || not (is_nil b.results)
    then outcome failed_analysis (terminal_failure_code b.failures)
    else outcome (insufficient_evidence is_aws) none

-- `_run_specialist_analysis` from the settled bundle on
unfoldable pub act_on : Settings → Bool → ℕ → (ℕ → Answer) → Bundle → RunOutcome
act_on s is_aws attempt_number answers b =
    if is_retryable b attempt_number
    then transient_failure
    else if any is_usable b.results
    then report_on s answers b
    else without_usable is_aws b

-- `_run_specialist_analysis` from the bundle on, given whether the provider is AWS
unfoldable pub run_specialist_analysis :
    Settings → Bool → ℕ → (Result → Bool) → (ℕ → Answer) → Bundle → RunOutcome
run_specialist_analysis s is_aws attempt_number owned answers bundle =
    act_on s is_aws attempt_number answers (settled_bundle owned bundle)

abbrev pub result_status : AnalysisStatus → ResultStatus
result_status AnalysisStatus.complete = ResultStatus.complete
result_status AnalysisStatus.partial = ResultStatus.partial
result_status AnalysisStatus.failed = ResultStatus.failed

-- How the task of `__call__` ends: the report that is persisted, if any, and what it returns or
-- raises; `none` is a cancellation.
abbrev pub CallEnd : Type 0
CallEnd = Option Report × Option (TaskEnd ProcessingResult)

-- What the awaited steps of `__call__` raise: `_load_context`, `discover_capabilities`, the workflow,
-- `_persist_specialist_analyses`, the INSERTs of `_persist_analysis_failures` and `_persist_report`.
pub record Raises : Type 0 where
  pub load_context : Option Error
  pub discover : Option Error
  pub workflow : Option Error
  pub persist_analyses : Option Error
  pub persist_failures : Option Error
  pub persist_report : Option Error

abbrev pub or_raise : Option Error → CallEnd → CallEnd
or_raise none next = next
or_raise (some e) next = (none, some (raised e))

-- The end of `__call__`, given what `_persist_report` raises.
unfoldable pub end_of : Option Error → RunOutcome → CallEnd
end_of e (outcome r code) =
    or_raise e
      (some r, some (returned (record { status = result_status r.status; failure_code = code })))
end_of e (root_failure code) = or_raise e (
  some failed_analysis,
  some (returned (record { status = ResultStatus.failed; failure_code = some code })),
)
end_of e was_cancelled = (none, none)
end_of e transient_failure = (none, some (raised connection_error))

-- What `_persist_analysis_failures` raises: a code that is not stable is a ValueError.
abbrev pub persist_failures_error : Option Error → List Failure → Option Error
persist_failures_error (some e) failures = some e
persist_failures_error none failures =
    if all (λ f. is_stable f.code) failures then none else some other_error

-- `__call__` in these modes, given whether the scope is of GCP and safe, and the bundle.
unfoldable pub call :
    Raises → Bool → Settings → Bool → ℕ → (Result → Bool) → (ℕ → Answer) → Bundle → CallEnd
call raises safe s is_aws attempt_number owned answers bundle = or_raise raises.load_context (
    if safe
    then or_raise raises.discover (
        or_raise raises.workflow (
          or_raise raises.persist_analyses (
            or_raise
              (persist_failures_error raises.persist_failures
                (settled_bundle owned bundle).failures)
              (end_of raises.persist_report
                (run_specialist_analysis s is_aws attempt_number owned answers bundle)))))
    else end_of raises.persist_report (outcome (insufficient_evidence is_aws) none))
