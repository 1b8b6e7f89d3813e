-- ===== src/Backend/Waterfall/Evidence.antt =====
-- The backend's check of a trace, on the result of the worker's normalize_trace_evidence.
use cloud_sre_ai_agent.Prelude.{
  ◌≡◌, ap, ◌∙◌, ℕ, ◌≤◌, ◌<◌, min, true, some, List, [], ◌∷◌, arith, length,
}
use cloud_sre_ai_agent.Worker.Waterfall.{
  InputTrace, CandidateTrace, StoredTrace, elem, selected_span_ids, truncate, validated_candidate,
  normalize_trace_evidence,
}
use cloud_sre_ai_agent.Worker.Waterfall.Attributes.{Checks}
use cloud_sre_ai_agent.Worker.Waterfall.Truncate.{truncation-IsTree}
use cloud_sre_ai_agent.Worker.Waterfall.Stored.{validated_candidate-PassedChecks}
use cloud_sre_ai_agent.Worker.Waterfall.Pick.{all_known, length-pick}
use cloud_sre_ai_agent.Worker.Waterfall.Rank.{normalize_trace_evidence_best}
use cloud_sre_ai_agent.Backend.Waterfall.{valid, has_valid_tree}
use cloud_sre_ai_agent.Backend.Waterfall.Accepts.{stored_trace_accepted}

some_elem : (k : ℕ) (ks : List ℕ) → elem k ks ≡ true → 0 < length ks
some_elem k [] h = cc
some_elem k (x ∷ ks) h = omega arith

stored_length :
    (k : Checks) (t : InputTrace) (c : CandidateTrace) (limit : ℕ)
    → validated_candidate k t ≡ some c
    → 0 < limit
    → (0 < length (truncate c limit).spans) × (length (truncate c limit).spans ≤ limit)
unfolding truncate
stored_length k t c limit e lt =
    let tree = truncation-IsTree c limit (validated_candidate-PassedChecks k t c e).candidate lt in
    let chosen = selected_span_ids c limit in
    let n = length-pick c.spans chosen (all_known c.spans chosen tree.3) in
    (omega (arith, n, some_elem c.root_span_id chosen tree.2), omega (arith, n, tree.1))

-- What the worker stores as trace evidence is, for the backend, a valid tree, and it has a span, at
-- most 100 spans and at most as many as the limit.
pub trace_evidence_accepted :
    (k : Checks) (score : CandidateTrace → ℕ) (ts : List InputTrace) (n : ℕ) (st : StoredTrace)
    → normalize_trace_evidence k score ts n ≡ some st
    → (has_valid_tree st ≡ valid)
      × (0 < length st.spans)
      × (length st.spans ≤ 100)
      × (length st.spans ≤ n)
trace_evidence_accepted k score ts n st e =
    let b = normalize_trace_evidence_best k score ts n st e in
    let t = b.1.0 in
    let c = b.1.1 in
    let limit = min n 100 in
    let lt : 0 < limit = omega (arith, b.0) in
    let same = b.1.4 in
    let l = stored_length k t c limit b.1.2 lt in
    let m = ap (λ z. length z.spans) same in
    (
      ap has_valid_tree same ∙ stored_trace_accepted k t c limit b.1.2 lt,
      omega (arith, l.0, m),
      omega (arith, l.1, m),
      omega (arith, l.1, m),
    )
