-- ===== src/Examples/Waterfall.antt =====
-- The trace evidence of trace_waterfall.py, in the worker and in the backend, on two small traces. A
-- label has itself as its only term, and no text is a token or an address.
use cloud_sre_ai_agent.Prelude.{
  ◌≡◌, ◌≢◌, ◌↔◌, refl, ℕ, ◌+◌, ◌≤◌, ◌<◌, Bool, true, false, Option, none, some, List, [], ◌∷◌, map,
  length, arith, min,
}
use cloud_sre_ai_agent.Prelude.Text.{codes}
use cloud_sre_ai_agent.Worker.Waterfall.Attributes.{Checks, text, int}
use cloud_sre_ai_agent.Worker.Waterfall.{
  SpanStatus, SpanKind, Span, InputTrace, CandidateTrace, StoredTrace, find_span, parent_of, elem,
  distinct, walk, out_of_fuel, acyclic, validated_candidate, rooted_candidate, is_valid_trace,
  required_ids, selected_ids, selected_span_ids, truncate, normalize_trace_evidence, candidates,
  ranks_above, best_of, has_error, union, add, chain, ancestor_closure, add_with_ancestors,
  stable_span_ids, insert_id, before, children, visit_all, visit, topological_order, last_end,
  candidate_of,
}
use cloud_sre_ai_agent.Worker.Waterfall.Tree.{Known, Rooted, acyclic-iff_Rooted}
use cloud_sre_ai_agent.Worker.Waterfall.Preorder.{ParentsFirst}
use cloud_sre_ai_agent.Worker.Waterfall.Selection.{IsCandidate}
use cloud_sre_ai_agent.Worker.Waterfall.Truncate.{truncation-IsTree, required_spans_stored}
use cloud_sre_ai_agent.Worker.Waterfall.Stored.{validated_candidate-PassedChecks}
use cloud_sre_ai_agent.Worker.Waterfall.Rank.{Among, normalize_trace_evidence_best}
use cloud_sre_ai_agent.Backend.Waterfall.{valid, key_error, has_valid_tree}
use cloud_sre_ai_agent.Backend.Waterfall.Evidence.{trace_evidence_accepted}
use cloud_sre_ai_agent.Backend.Waterfall.Attributes.{reread, stored_attributes_kept}
use cloud_sre_ai_agent.Backend.Waterfall.Orphans.{OrphanTrace, OrphanTrace-raises}

abbrev checks : Checks
checks = record {
  is_compact_jwt = λ t. false;
  is_label = λ t. true;
  terms = λ t. t ∷ [];
  address = λ t. none;
}

abbrev span : ℕ → Option ℕ → SpanStatus → Bool → ℕ → Span
span k parent status critical start = record {
  span_id = k;
  parent_span_id = parent;
  service_name = codes "api";
  operation_name = codes "load";
  start_offset_ms = start;
  duration_ms = 4000;
  status = status;
  kind = SpanKind.server;
  critical_path = critical;
  attributes =
      (record { key = "server.port"; value = int 443 })
      ∷ (record { key = "user.name"; value = text (codes "ann") })
      ∷ [];
}

abbrev slow : InputTrace
slow = record {
  trace_id = 8;
  started_at = 0;
  latency_anomaly_score = 900;
  duration_ms = some 9000;
  spans =
      span 1 none SpanStatus.ok false 0
      ∷ span 2 (some 1) SpanStatus.ok false 1000
      ∷ span 3 (some 4) SpanStatus.error true 3000
      ∷ span 4 (some 1) SpanStatus.unset false 2000
      ∷ [];
}

abbrev looped : InputTrace
looped = record slow {
  trace_id = 9;
  spans =
      span 1 none SpanStatus.ok false 0
      ∷ span 2 (some 3) SpanStatus.ok false 0
      ∷ span 3 (some 2) SpanStatus.ok false 0
      ∷ [];
}

abbrev quick : InputTrace
quick = record {
  trace_id = 7;
  started_at = 0;
  latency_anomaly_score = 0;
  duration_ms = none;
  spans = span 5 none SpanStatus.ok false 0 ∷ [];
}

abbrev slow_candidate : CandidateTrace
slow_candidate = candidate_of checks slow 9000 1

abbrev no_score : CandidateTrace → ℕ
no_score c = 0

slow_is_valid : validated_candidate checks slow ≡ some slow_candidate
unfolding validated_candidate rooted_candidate is_valid_trace acyclic distinct walk parent_of
    find_span last_end
slow_is_valid = refl

-- A trace with a cycle is no candidate.
looped_is_invalid : validated_candidate checks looped ≡ none
unfolding validated_candidate rooted_candidate is_valid_trace acyclic distinct walk parent_of
    find_span last_end
looped_is_invalid = refl

-- The failed span 3 and its parent are stored, the span 2 is not.
slow_first_three : selected_span_ids slow_candidate 3 ≡ 1 ∷ 4 ∷ 3 ∷ []
unfolding selected_span_ids selected_ids required_ids ancestor_closure chain union add
    add_with_ancestors stable_span_ids insert_id before topological_order visit visit_all children
    find_span parent_of
slow_first_three = refl

slow_spans-acyclic : acyclic slow_candidate.spans ≡ true
unfolding acyclic walk parent_of find_span
slow_spans-acyclic = refl

acyclic-iff_Rooted_example :
    ((acyclic slow.spans ≡ true) ↔ ((k : ℕ) → Known slow.spans k → (n : ℕ) × Rooted slow.spans k n))
    × ((k : ℕ) → walk (length slow.spans + 1) slow.spans [] (some k) ≢ out_of_fuel)
acyclic-iff_Rooted_example = acyclic-iff_Rooted slow.spans

slow-IsCandidate : IsCandidate slow_candidate
slow-IsCandidate =
    (validated_candidate-PassedChecks checks slow slow_candidate slow_is_valid).candidate

truncation-IsTree_example :
    (distinct (selected_span_ids slow_candidate 3) ≡ true)
    × (length (selected_span_ids slow_candidate 3) ≤ 3)
    × (elem 1 (selected_span_ids slow_candidate 3) ≡ true)
    × ((k : ℕ) → elem k (selected_span_ids slow_candidate 3) ≡ true → Known slow_candidate.spans k)
    × ParentsFirst slow_candidate.spans [] (selected_span_ids slow_candidate 3)
truncation-IsTree_example = truncation-IsTree slow_candidate 3 slow-IsCandidate (omega arith)

slow_required : required_ids slow_candidate ≡ 3 ∷ 4 ∷ 1 ∷ []
unfolding required_ids ancestor_closure chain union add find_span parent_of
slow_required = refl

required_spans_stored_example : elem 3 (selected_span_ids slow_candidate 3) ≡ true
unfolding required_ids ancestor_closure chain union add find_span parent_of
required_spans_stored_example =
    required_spans_stored slow_candidate 3 3 slow-IsCandidate (omega arith) (omega arith) refl

abbrev traces : List InputTrace
traces = looped ∷ quick ∷ slow ∷ []

slow_is_chosen :
    normalize_trace_evidence checks no_score traces 3 ≡ some (truncate slow_candidate 3)
unfolding normalize_trace_evidence candidates validated_candidate rooted_candidate is_valid_trace
    acyclic distinct walk parent_of find_span last_end best_of ranks_above has_error
slow_is_chosen = refl

normalize_trace_evidence_best_example :
    (0 < 3)
    × ((t : InputTrace) × (c : CandidateTrace) × (validated_candidate checks t ≡ some c)
        × Among c (candidates checks traces)
        × (truncate slow_candidate 3 ≡ truncate c (min 3 100))
        × ((d : CandidateTrace)
            → Among d (candidates checks traces)
            → ranks_above no_score d c ≡ false))
normalize_trace_evidence_best_example =
    normalize_trace_evidence_best checks no_score traces 3 (truncate slow_candidate 3)
      slow_is_chosen

trace_evidence_accepted_example :
    (has_valid_tree (truncate slow_candidate 3) ≡ valid)
    × (0 < length (truncate slow_candidate 3).spans)
    × (length (truncate slow_candidate 3).spans ≤ 100)
    × (length (truncate slow_candidate 3).spans ≤ 3)
trace_evidence_accepted_example =
    trace_evidence_accepted checks no_score traces 3 (truncate slow_candidate 3) slow_is_chosen

stored_attributes_kept_example :
    map (reread checks) (truncate slow_candidate 3).spans ≡ (truncate slow_candidate 3).spans
stored_attributes_kept_example = stored_attributes_kept checks slow slow_candidate 3 slow_is_valid

abbrev root_span : Span
root_span = span 1 none SpanStatus.ok false 0

abbrev child_span : Span
child_span = span 2 (some 3) SpanStatus.ok false 0

abbrev orphan_span : Span
orphan_span = span 3 (some 4) SpanStatus.ok false 0

abbrev orphaned : StoredTrace
orphaned = record {
  schema_version = 1;
  trace_id = 8;
  root_service_name = codes "api";
  root_operation_name = codes "load";
  started_at = 0;
  duration_ms = 9000;
  span_count = 3;
  representative_score = 0;
  truncated = false;
  spans = root_span ∷ child_span ∷ orphan_span ∷ [];
}

orphaned-OrphanTrace : OrphanTrace orphaned root_span child_span orphan_span 4
unfolding distinct
orphaned-OrphanTrace = record {
  the_spans = refl;
  once = refl;
  no_parent = refl;
  child_parent = refl;
  orphan_parent = refl;
  absent = refl;
  same_service = refl;
  same_operation = refl;
  all_stored = (refl, refl);
  in_time = refl;
}

OrphanTrace-raises_example : has_valid_tree orphaned ≡ key_error
OrphanTrace-raises_example =
    OrphanTrace-raises orphaned root_span child_span orphan_span 4 orphaned-OrphanTrace
