-- ===== src/Worker/Analysis/Branches.antt =====
-- agents/rca/router.py, and `SpecialistAnalysisWorkflow` of agents/specialists/workflow.py with
-- `normalize_specialist_analysis_bundle`. What an attempt of a branch does is an argument, and so is
-- the order in which the tasks of the group end. A dictionary by specialist is a function.
use cloud_sre_ai_agent.Prelude.{
  ℕ, Bool, true, false, not, ◌&&◌, ◌||◌, Option, none, some, List, [], ◌∷◌, map, keep, is_some,
  if◌then◌else◌,
}
use cloud_sre_ai_agent.Backend.Alerts.Json.{Text, Json}
use cloud_sre_ai_agent.Worker.Analysis.{
  Kind, metrics, trace, log, Code, mcp_transport, mcp_payload_too_large, mcp_result_invalid,
  analysis_timeout, analysis_schema_invalid, analysis_unknown_evidence, analysis_failed, is_stable,
  Analysis, is_nil, is_failed, same_kind,
}

-- `_ORDER`
abbrev pub order : List Kind
order = metrics ∷ trace ∷ log ∷ []

-- `SpecialistFailure`
pub record Failure : Type 0 where
  pub specialist : Kind
  pub code : Code

-- `SpecialistAnalysisResult`
pub record Result : Type 0 where
  pub analysis : Analysis
  pub known_evidence : List ℕ

-- `SpecialistAnalysisBundle`
pub record Bundle : Type 0 where
  pub results : List Result
  pub failures : List Failure

-- `AllowedTool`
pub record AllowedTool : Type 0 where
  pub name : Text
  pub capability : ℕ
  pub endpoint_identity : Kind
  pub input_schema : Json

-- `CapabilitySet`
pub record Capabilities : Type 0 where
  pub for_specialist : Kind → List AllowedTool
  pub discovery_failures : List Failure

pub data Reason : Type 0 where
  available capability_missing : Kind → Reason
  non_gcp_or_unsafe_scope : Reason

-- `RoutePlan`
pub record RoutePlan : Type 0 where
  pub selected : List Kind
  pub reason_codes : List Reason

abbrev pub has_tools : Capabilities → Kind → Bool
has_tools c k = not (is_nil (c.for_specialist k))

-- `RuleRouter.route`, given whether there is a scope, its provider is GCP and it is safe
unfoldable pub route : Bool → Capabilities → RoutePlan
route false c = record { selected = []; reason_codes = non_gcp_or_unsafe_scope ∷ [] }
route true c = record {
  selected = keep (has_tools c) order;
  reason_codes = map (λ k. if has_tools c k then available k else capability_missing k) order;
}

-- How one attempt of `invoke` ends: by the clock before it, by an exception, with its `code` where
-- that is one of the known texts, or with a result.
pub data Attempt : Type 0 where
  no_time cancelled timeout_error connection_error payload_too_large result_invalid : Attempt
  validation_error : Option Code → Attempt
  other_error : Option Code → Attempt
  returned : Result → Attempt

-- How a branch ends, or that it tries again.
pub data Branch : Type 0 where
  is_cancelled : Branch
  fails : Code → Branch
  succeeds : Result → Branch
  again : Branch

-- `_exception_code`, given which of the codes are allowed
unfoldable pub exception_code : (Code → Bool) → Option Code → Code
exception_code allowed none = analysis_failed
exception_code allowed (some c) = if allowed c && is_stable c then c else analysis_failed

abbrev pub is_validation_code : Code → Bool
is_validation_code analysis_schema_invalid = true
is_validation_code analysis_unknown_evidence = true
is_validation_code _ = false

abbrev pub is_mcp_transport : Code → Bool
is_mcp_transport mcp_transport = true
is_mcp_transport _ = false

-- The body of the loop of `invoke`, in the first attempt or not.
unfoldable pub attempt_branch : Bool → Kind → Attempt → Branch
attempt_branch first k no_time = fails analysis_timeout
attempt_branch first k cancelled = is_cancelled
attempt_branch first k timeout_error = fails analysis_timeout
attempt_branch first k connection_error = if first then again else fails mcp_transport
attempt_branch first k payload_too_large = fails mcp_payload_too_large
attempt_branch first k result_invalid = fails mcp_result_invalid
attempt_branch first k (validation_error c) = fails (exception_code is_validation_code c)
attempt_branch first k (other_error c) =
    let code = exception_code is_stable c in
    if is_mcp_transport code && first then again else fails code
attempt_branch first k (returned r) =
    if same_kind r.analysis.specialist k then succeeds r else fails analysis_schema_invalid

abbrev pub or_again : Branch → Branch → Branch
or_again again next = next
or_again b next = b

-- `invoke`, whose two attempts are given
unfoldable pub invoke : Kind → Attempt × Attempt → Branch
invoke k (a, b) = or_again (attempt_branch true k a) (attempt_branch false k b)

-- The dictionaries `results` and `failures`
pub record Progress : Type 0 where
  pub results : Kind → Option Result
  pub failures : Kind → Option Failure

abbrev pub set {ℓ} : {A : Type ℓ} → (Kind → Option A) → Kind → A → Kind → Option A
set d k v j = if same_kind k j then some v else d j

-- `{failure.specialist: failure for failure in ...}`
unfoldable pub failures_by_kind : List Failure → Kind → Option Failure
failures_by_kind [] k = none
failures_by_kind (f ∷ fs) k =
    let rest = failures_by_kind fs k in
    if is_some rest then rest else if same_kind f.specialist k then some f else none

-- `tuple(d[kind] for kind in _ORDER if kind in d)`
unfoldable pub in_order {ℓ} : {A : Type ℓ} → (Kind → Option A) → List Kind → List A
in_order d [] = []
in_order d (k ∷ ks) = let rest = in_order d ks in elim (d k) [ none ↦ rest | some a ↦ a ∷ rest ]

-- What the task of a specialist writes when it ends; `none` is a branch that has not ended. A task
-- that ends cancelled writes nothing, and the group goes on.
unfoldable pub finish_branch : Kind → Branch → Progress → Option Progress
finish_branch k (fails c) p =
    some (record p { failures = set p.failures k (record { specialist = k; code = c }) })
finish_branch k (succeeds r) p = some (record p { results = set p.results k r })
finish_branch k is_cancelled p = some p
finish_branch k again p = none

unfoldable pub run_branches : (Kind → Attempt × Attempt) → List Kind → Progress → Option Progress
run_branches attempts [] p = some p
run_branches attempts (k ∷ ks) p = elim (finish_branch k (invoke k (attempts k)) p) [
  | none ↦ none
  | some q ↦ run_branches attempts ks q
]

-- `_returned_analysis_failure_code`
unfoldable pub returned_analysis_failure_code : List Code → Code
returned_analysis_failure_code [] = analysis_failed
returned_analysis_failure_code (c ∷ cs) =
    let rest = returned_analysis_failure_code cs in if is_stable c then c else rest

abbrev pub is_unusable : Analysis → Bool
is_unusable a = is_failed a.status || is_nil a.observations

-- The loop of `normalize_specialist_analysis_bundle` over the results.
unfoldable pub sort_results : List Result → Progress → Progress
sort_results [] p = p
sort_results (r ∷ rs) p =
    let k = r.analysis.specialist in
    sort_results rs (
      if is_unusable r.analysis
      then record p {
        failures = set p.failures k (record {
          specialist = k;
          code = returned_analysis_failure_code r.analysis.missing_evidence;
        });
      }
      else record p { results = set p.results k r })

abbrev pub bundle_of : Progress → Bundle
bundle_of p = record { results = in_order p.results order; failures = in_order p.failures order }

-- `normalize_specialist_analysis_bundle`
unfoldable pub normalize_bundle : Bundle → Bundle
normalize_bundle b = bundle_of (
    sort_results b.results (record { results = λ k. none; failures = failures_by_kind b.failures }))

abbrev pub run_selected :
    (Kind → Attempt × Attempt) → List Kind → List Kind → Progress → Option Bundle
run_selected attempts ended [] p =
    some (record { results = []; failures = in_order p.failures order })
run_selected attempts ended (k ∷ ks) p = elim (run_branches attempts ended p) [
  | none ↦ none
  | some q ↦ some (normalize_bundle (bundle_of q))
]

-- `SpecialistAnalysisWorkflow.run`, whose tasks end in the order `ended`; a cancellation of the whole
-- run is not modelled.
unfoldable pub run_workflow :
    Bool → Capabilities → (Kind → Attempt × Attempt) → List Kind → Option Bundle
run_workflow safe c attempts ended =
    run_selected attempts ended (route safe c).selected
      (record { results = λ k. none; failures = failures_by_kind c.discovery_failures })
