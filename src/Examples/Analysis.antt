-- ===== src/Examples/Analysis.antt =====
-- The evidence, the discovery, the specialists and the report at work: the metrics server lists one
-- tool, the trace server is down, and no log capability is needed.
use cloud_sre_ai_agent.Prelude.{
  ◌≡◌, ◌≢◌, ◌⊎◌, refl, ℕ, ◌≤◌, ◌==◌, true, false, not, ◌&&◌, ◌||◌, Option, none, some, List, [],
  ◌∷◌, map, length, take, all, ltb, arith, if◌then◌else◌,
}
use cloud_sre_ai_agent.Prelude.Text.{codes}
use cloud_sre_ai_agent.Backend.Alerts.Json.{Text, Json, text, bool, end, field, get, text_eq}
use cloud_sre_ai_agent.Worker.Evidence.{Chunk, valid_limits, build_evidence_chunks}
use cloud_sre_ai_agent.Worker.Evidence.Chunks.{contents, from, fits, build_evidence_chunks_cover}
use cloud_sre_ai_agent.Worker.Analysis.{
  Kind, metrics, trace, log, Code, Relation, AnalysisStatus, Observation, Analysis, valid_analysis,
  valid_observation, validate, with_truncation, Report, Hypothesis, valid_report, valid_hypothesis,
  valid_claim, cites_known, is_complete, with_incomplete_specialist_analyses,
}
use cloud_sre_ai_agent.Worker.Analysis.Agent.{
  AgentRun, says, returns, analyze, attempts_from, attempt_ending,
}
use cloud_sre_ai_agent.Worker.Analysis.Agent.Explained.{Explained, analyze-Explained}
use cloud_sre_ai_agent.Worker.Analysis.Branches.{
  Result, Bundle, Capabilities, Attempt, invoke, is_cancelled, attempt_branch, run_workflow,
  is_unusable, AllowedTool,
}
use cloud_sre_ai_agent.Worker.Analysis.Bundle.{has, has_task, bundle_by_kind}
use cloud_sre_ai_agent.Worker.Analysis.Workflow.{run_workflow_by_kind}
use cloud_sre_ai_agent.Worker.Analysis.Accounts.{has_result, has_failure}
use cloud_sre_ai_agent.Worker.Analysis.Root.{
  Answer, answered, reports, synthesize, synthesize_prompt, canonical_inputs, synthesize-accepted,
}
use cloud_sre_ai_agent.Worker.Discovery
use cloud_sre_ai_agent.Worker.Discovery.{
  Entry, Tool, discover_capabilities, discovered_for, discover_one, is_candidate, resolve_tools,
  resolve_all, resolve_one, is_match, Matching, schema_hash, is_known, has_known_keys,
}
use cloud_sre_ai_agent.Worker.Discovery.Failures.{discovered_workflow_accounts}
use cloud_sre_ai_agent.Worker.Discovery.ReadOnly.{
  In, IsAllowed, AllAllowed, resolve_tools-IsAllowed,
}

abbrev json : Text
json = codes "{\"errors\":[12,40]}"

limits_are_valid : valid_limits 5 4 12 ≡ true
unfolding valid_limits
limits_are_valid = refl

build_evidence_chunks_cover_example :
    (cs : List Chunk) × (build_evidence_chunks 9 json 5 4 12 ≡ some cs)
    × (contents cs ≡ take 12 json)
    × (length cs ≤ 4)
    × (map (λ c. c.chunk_index) cs ≡ from (length cs) 0)
    × (all (fits 9 5 (length cs) (ltb 12 (length json))) cs ≡ true)
build_evidence_chunks_cover_example =
    build_evidence_chunks_cover 9 json 5 4 12 (omega arith) limits_are_valid

abbrev slow : Observation
slow = record {
  statement = codes "slow";
  confidence = 700;
  relation = Relation.supports;
  evidence = 5 ∷ [];
}

abbrev analysis : Analysis
analysis = record {
  specialist = metrics;
  status = AnalysisStatus.complete;
  observations = slow ∷ [];
  missing_evidence = [];
}

-- The first text of the agent is no draft, the second one is the analysis.
abbrev runs : Option Code → AgentRun ℕ
runs none = says none (5 ∷ []) true
runs (some c) = says (some analysis) (5 ∷ []) true

analyze_corrects : analyze 20 1 metrics runs ≡ returns (with_truncation analysis)
unfolding analyze attempts_from attempt_ending validate valid_analysis valid_observation
analyze_corrects = refl

analyze-Explained_example : Explained 20 1 metrics runs (analyze 20 1 metrics runs)
analyze-Explained_example = analyze-Explained 20 1 metrics runs

abbrev manifest : List Entry
manifest =
    (record {
      endpoint_identity = metrics;
      capability = 1;
      tool_name_pattern = codes "query";
      input_schema = text (codes "promql");
    })
    ∷ (record {
      endpoint_identity = trace;
      capability = 2;
      tool_name_pattern = codes "traces";
      input_schema = text (codes "ids");
    })
    ∷ []

-- Stands in for `json.dumps`.
abbrev dumps : Json → List ℕ
dumps (text t) = t
dumps _ = []

abbrev matching : Matching
matching = record { fullmatch = text_eq; dumps = dumps; sha256 = λ bytes. bytes }

abbrev needed : Kind → List ℕ
needed metrics = 1 ∷ []
needed trace = 2 ∷ []
needed log = []

abbrev tool : Tool
tool = record {
  name = codes "query";
  input_schema = text (codes "promql");
  annotations = field (codes "readOnlyHint") (bool true) end;
}

-- The same tool, where it may write
abbrev writer : Tool
writer = record tool { annotations = field (codes "readOnlyHint") (bool false) end }

abbrev server : Kind → Discovery.Answer
server metrics = Discovery.listed (tool ∷ [])
server trace = Discovery.connection_error
server log = Discovery.no_time

abbrev found : Capabilities
found = discover_capabilities true matching manifest needed server

resolve_tools-IsAllowed_example :
    AllAllowed matching manifest
      (writer ∷ tool ∷ [])
      metrics
      (1 ∷ [])
      (resolve_tools matching (1 ∷ []) manifest (writer ∷ tool ∷ []) metrics)
    ⊎ ((resolve_tools matching (1 ∷ []) manifest (writer ∷ tool ∷ []) metrics ≡ [])
        × (c : ℕ) × In c (1 ∷ [])
        × ((x : AllowedTool) → ¬ IsAllowed matching manifest (writer ∷ tool ∷ []) metrics c x))
resolve_tools-IsAllowed_example =
    resolve_tools-IsAllowed matching (1 ∷ []) manifest (writer ∷ tool ∷ []) metrics

writer_is_passed_over :
    resolve_tools matching (1 ∷ []) manifest (writer ∷ tool ∷ []) metrics
    ≡ (record {
      name = codes "query";
      capability = 1;
      endpoint_identity = metrics;
      input_schema = text (codes "promql");
    })
      ∷ []
unfolding resolve_tools resolve_all resolve_one is_match schema_hash get text_eq has_known_keys
    is_known
writer_is_passed_over = refl

abbrev pub result : Result
result = record { analysis = analysis; known_evidence = 5 ∷ 6 ∷ 5 ∷ [] }

-- The branch of the metrics loses its connection once.
abbrev attempts : Kind → Attempt × Attempt
attempts k = (Attempt.connection_error, Attempt.returned result)

metrics_only : (k : Kind) → has k (metrics ∷ []) ≡ has_task true found k
unfolding discover_capabilities discovered_for discover_one is_candidate resolve_tools resolve_all
    resolve_one is_match schema_hash get text_eq has_known_keys is_known
metrics_only metrics = refl
metrics_only trace = refl
metrics_only log = refl

metrics_not_cancelled :
    (k : Kind) → has_task true found k ≡ true → invoke k (attempts k) ≢ is_cancelled
unfolding invoke attempt_branch discover_capabilities discovered_for discover_one is_candidate
metrics_not_cancelled metrics h e = cc
metrics_not_cancelled trace h e = cc
metrics_not_cancelled log h e = cc

run_workflow_by_kind_example :
    run_workflow true found attempts (metrics ∷ []) ≡ some (bundle_by_kind true found attempts)
run_workflow_by_kind_example =
    run_workflow_by_kind true found attempts (metrics ∷ []) metrics_only metrics_not_cancelled

discovered_workflow_accounts_example :
    (b : Bundle) × (run_workflow true found attempts (metrics ∷ []) ≡ some b)
    × ((k : Kind) → has_task true found k ≡ true → has_result k b ≡ not (has_failure k b))
    × (all (λ r. not (is_unusable r.analysis)) b.results ≡ true)
discovered_workflow_accounts_example =
    discovered_workflow_accounts matching manifest needed server true attempts (metrics ∷ [])
      metrics_only metrics_not_cancelled

abbrev hypothesis : Hypothesis
hypothesis = record {
  statement = codes "overload";
  confidence = 600;
  claims =
      (record { statement = codes "slow"; relation = Relation.supports; evidence = 5 ∷ [] }) ∷ [];
}

abbrev pub report : Report
report = record {
  status = AnalysisStatus.complete;
  summary_zh_tw = codes "overload";
  hypotheses = hypothesis ∷ [];
  missing_evidence = [];
  remediation = [];
  verification_steps = [];
}

-- The first answer of the model is no report.
abbrev pub answers : ℕ → Answer
answers i = if i == 0 then answered none else answered (some report)

report_is_made : synthesize 1 (analysis ∷ []) (5 ∷ 6 ∷ []) answers ≡ reports report
unfolding synthesize canonical_inputs valid_analysis valid_observation synthesize_prompt
    valid_report valid_hypothesis valid_claim cites_known with_incomplete_specialist_analyses
report_is_made = refl

synthesize-accepted_example :
    ((valid_report report && cites_known report (5 ∷ 6 ∷ [])) ≡ true)
    × ((not (is_complete report.status) || all (λ a. is_complete a.status) (analysis ∷ [])) ≡ true)
synthesize-accepted_example =
    synthesize-accepted 1 (analysis ∷ []) (5 ∷ 6 ∷ []) answers report report_is_made
