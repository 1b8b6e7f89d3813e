-- ===== src/Worker/Analysis.antt =====
-- The analyses of the specialists and the report: rca-worker/src/sre_rca_worker/domain/evidence/
-- analysis.py, domain/rca/models.py, agents/rca/models.py, agents/rca/router.py,
-- agents/specialists/validator.py and agents/rca/synthesizer.py. A reference to evidence is its id,
-- and a confidence a number of thousandths.
pub mod Validator
pub mod Branches
pub mod Agent
pub mod Bundle
pub mod Unusable
pub mod Workflow
pub mod Accounts
pub mod Root
pub mod Processor
use cloud_sre_ai_agent.Prelude.{
  ℕ, Bool, true, false, not, ◌&&◌, ◌||◌, Option, none, some, List, [], ◌∷◌, ◌++◌, length, any, all,
  map, keep, ltb, leb, ◌==◌, if◌then◌else◌,
}
use cloud_sre_ai_agent.Prelude.Text.{codes}
use cloud_sre_ai_agent.Backend.Alerts.Json.{Text}
use cloud_sre_ai_agent.Worker.Waterfall.{elem}

-- `SpecialistKind`
pub data Kind : Type 0 where
  metrics trace log : Kind

-- The codes of failures: `StableSpecialistCode`, then those of the legacy workflow alone.
pub data Code : Type 0 where
  no_safe_mcp_capability mcp_timeout mcp_transport mcp_payload_too_large mcp_result_invalid
        analysis_timeout analysis_schema_invalid analysis_unknown_evidence analysis_input_truncated
        analysis_failed :
      Code
  specialist_timeout specialist_transport specialist_validation specialist_failed : Code

-- `code in _STABLE_SPECIALIST_CODES`
abbrev pub is_stable : Code → Bool
is_stable specialist_timeout = false
is_stable specialist_transport = false
is_stable specialist_validation = false
is_stable specialist_failed = false
is_stable _ = true

pub data Relation : Type 0 where
  supports contradicts missing : Relation

pub data AnalysisStatus : Type 0 where
  complete partial failed : AnalysisStatus

-- `SpecialistObservation`
pub record Observation : Type 0 where
  pub statement : Text
  pub confidence : ℕ
  pub relation : Relation
  pub evidence : List ℕ

-- `SpecialistAnalysisDraft`
pub record Analysis : Type 0 where
  pub specialist : Kind
  pub status : AnalysisStatus
  pub observations : List Observation
  pub missing_evidence : List Code

abbrev pub is_nil {ℓ} : {A : Type ℓ} → List A → Bool
is_nil [] = true
is_nil (_ ∷ _) = false

abbrev pub is_missing : Relation → Bool
is_missing missing = true
is_missing _ = false

abbrev pub is_complete : AnalysisStatus → Bool
is_complete complete = true
is_complete _ = false

abbrev pub is_failed : AnalysisStatus → Bool
is_failed failed = true
is_failed _ = false

-- The fields of `SpecialistObservation` and `validate_evidence`
unfoldable pub valid_observation : Observation → Bool
valid_observation o =
    not (is_nil o.statement)
    && leb o.confidence 1000
    && (is_missing o.relation || not (is_nil o.evidence))

-- `validate_status`
abbrev pub valid_status : AnalysisStatus → List Observation → List Code → Bool
valid_status complete observations codes = not (is_nil observations) && is_nil codes
valid_status partial observations codes = not (is_nil observations) || not (is_nil codes)
valid_status failed observations codes = is_nil observations

-- `SpecialistAnalysisDraft.model_validate`
unfoldable pub valid_analysis : Analysis → Bool
valid_analysis a =
    all valid_observation a.observations
    && leb (length a.observations) 20
    && all is_stable a.missing_evidence
    && valid_status a.status a.observations a.missing_evidence

abbrev pub same_kind : Kind → Kind → Bool
same_kind metrics metrics = true
same_kind trace trace = true
same_kind log log = true
same_kind _ _ = false

abbrev pub is_truncation : Code → Bool
is_truncation analysis_input_truncated = true
is_truncation _ = false

-- `all(item in owned ...)`
abbrev pub subset : List ℕ → List ℕ → Bool
subset xs ys = all (λ x. elem x ys) xs

abbrev pub cited : List Observation → List ℕ
cited [] = []
cited (o ∷ os) = o.evidence ++ cited os

abbrev pub demote : AnalysisStatus → AnalysisStatus
demote complete = partial
demote s = s

abbrev pub with_truncation : Analysis → Analysis
with_truncation a = record a {
  status = demote a.status;
  missing_evidence = a.missing_evidence ++ (analysis_input_truncated ∷ []);
}

-- The result of the validator, or the code that it raises.
pub data Validation : Type 0 where
  accepted : Analysis → Validation
  rejected : Code → Validation

-- `SpecialistAnalysisValidator.validate`
unfoldable pub validate : ℕ → Kind → List ℕ → Bool → Analysis → Validation
validate max_observations expected owned input_truncated a =
    if not (valid_analysis a)
    then rejected analysis_schema_invalid
    else if not (same_kind a.specialist expected)
    then rejected analysis_schema_invalid
    else if ltb max_observations (length a.observations)
    then rejected analysis_schema_invalid
    else if not (subset (cited a.observations) owned)
    then rejected analysis_unknown_evidence
    else if input_truncated && not (any is_truncation a.missing_evidence)
    then accepted (with_truncation a)
    else accepted a

-- `EvidenceClaim`, `RcaHypothesis` and `RcaReportDraft`
pub record EvidenceClaim : Type 0 where
  pub statement : Text
  pub relation : Relation
  pub evidence : List ℕ

pub record Hypothesis : Type 0 where
  pub statement : Text
  pub confidence : ℕ
  pub claims : List EvidenceClaim

pub record Report : Type 0 where
  pub status : AnalysisStatus
  pub summary_zh_tw : Text
  pub hypotheses : List Hypothesis
  pub missing_evidence : List Text
  pub remediation : List Text
  pub verification_steps : List Text

unfoldable pub valid_claim : EvidenceClaim → Bool
valid_claim c = not (is_nil c.statement) && not (is_nil c.evidence)

unfoldable pub valid_hypothesis : Hypothesis → Bool
valid_hypothesis h =
    not (is_nil h.statement)
    && leb h.confidence 1000
    && not (is_nil h.claims)
    && all valid_claim h.claims

-- `RcaReportDraft.validate_status`
abbrev pub valid_report_status : AnalysisStatus → List Hypothesis → List Text → Bool
valid_report_status complete hypotheses gaps = not (is_nil hypotheses) && is_nil gaps
valid_report_status partial hypotheses gaps = true
valid_report_status failed hypotheses gaps = is_nil hypotheses

-- `RcaReportDraft.model_validate_json`, on a report whose fields have their types
unfoldable pub valid_report : Report → Bool
valid_report r =
    not (is_nil r.summary_zh_tw)
    && all valid_hypothesis r.hypotheses
    && valid_report_status r.status r.hypotheses r.missing_evidence

abbrev pub claim_evidence : List EvidenceClaim → List ℕ
claim_evidence [] = []
claim_evidence (c ∷ cs) = c.evidence ++ claim_evidence cs

-- `cited` of `RcaSynthesizer.validate`
abbrev pub report_evidence : List Hypothesis → List ℕ
report_evidence [] = []
report_evidence (h ∷ hs) = claim_evidence h.claims ++ report_evidence hs

-- `RcaSynthesizer.validate`: whether it returns the draft
unfoldable pub cites_known : Report → List ℕ → Bool
cites_known r known = subset (report_evidence r.hypotheses) known

-- `RcaSynthesizer.with_specialist_failures`
unfoldable pub with_specialist_failures : Report → Report
with_specialist_failures r =
    if is_complete r.status
    then record r {
      status = partial;
      missing_evidence = r.missing_evidence ++ (codes "SPECIALIST_FAILURE" ∷ []);
    }
    else r

-- `RcaSynthesizer.with_incomplete_specialist_analyses`
unfoldable pub with_incomplete_specialist_analyses : Report → List Analysis → Report
with_incomplete_specialist_analyses r analyses =
    if all (λ a. is_complete a.status) analyses then r else with_specialist_failures r

abbrev pub no_evidence_summary : Bool → Text
no_evidence_summary true = codes "證據不足，無法確認根因；目前沒有 AWS MCP 證據。"
no_evidence_summary false = codes "證據不足，無法確認根因；目前沒有可用的 MCP 證據。"

-- `RcaSynthesizer.insufficient_evidence`, given whether the provider is AWS
unfoldable pub insufficient_evidence : Bool → Report
insufficient_evidence is_aws = record {
  status = partial;
  summary_zh_tw = no_evidence_summary is_aws;
  hypotheses = [];
  missing_evidence = codes "NO_SAFE_MCP_EVIDENCE" ∷ [];
  remediation = codes "請由值班人員確認監控資料與資源範圍。" ∷ [];
  verification_steps = codes "補齊證據後重新執行 RCA。" ∷ [];
}

-- `RcaSynthesizer.failed_analysis`
unfoldable pub failed_analysis : Report
failed_analysis = record {
  status = failed;
  summary_zh_tw = codes "Specialist 分析失敗，沒有可用證據，無法確認根因。";
  hypotheses = [];
  missing_evidence = codes "NO_USABLE_SPECIALIST_EVIDENCE" ∷ [];
  remediation = codes "請確認 MCP 服務狀態後重新執行 RCA。" ∷ [];
  verification_steps = codes "重新執行後確認至少取得一項可追溯證據。" ∷ [];
}
