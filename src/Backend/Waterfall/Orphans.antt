-- ===== src/Backend/Waterfall/Orphans.antt =====
-- `has_valid_tree` of the backend's trace_waterfall.py, where a parent is missing.
use cloud_sre_ai_agent.Prelude.{
  ◌≡◌, ap, ◌∙◌, ℕ, ◌+◌, true, false, none, some, [], ◌∷◌, arith, length, any, keep, ltb,
}
use cloud_sre_ai_agent.Worker.Waterfall.{
  Span, StoredTrace, find_span, parent_of, elem, ids, distinct, walk, is_root, span_end, one_ms,
}
use cloud_sre_ai_agent.Backend.Waterfall.Accepts.{tree_checked}
use cloud_sre_ai_agent.Backend.Waterfall.{key_error, check_spans, has_valid_tree}

-- A stored trace of three spans: the root, a span, and its parent, whose own parent is missing.
pub record OrphanTrace (t : StoredTrace) (root child orphan : Span) (missing : ℕ) : Type 0 where
  pub the_spans : t.spans ≡ root ∷ child ∷ orphan ∷ []
  pub once : distinct (root.span_id ∷ child.span_id ∷ orphan.span_id ∷ []) ≡ true
  pub no_parent : root.parent_span_id ≡ none
  pub child_parent : child.parent_span_id ≡ some orphan.span_id
  pub orphan_parent : orphan.parent_span_id ≡ some missing
  pub absent : elem missing (root.span_id ∷ child.span_id ∷ orphan.span_id ∷ []) ≡ false
  pub same_service : root.service_name ≡ t.root_service_name
  pub same_operation : root.operation_name ≡ t.root_operation_name
  pub all_stored : (t.span_count ≡ 3) × (t.truncated ≡ false)
  pub in_time : any (λ s. ltb (t.duration_ms + one_ms) (span_end s)) t.spans ≡ false

walk_raises :
    (t : StoredTrace) (root child orphan : Span) (missing : ℕ)
    → OrphanTrace t root child orphan missing
    → check_spans (root ∷ child ∷ orphan ∷ []) (root ∷ child ∷ orphan ∷ []) ≡ key_error
unfolding check_spans walk find_span parent_of distinct
walk_raises t root child orphan missing h =
    ground (arith, h.once, h.no_parent, h.child_parent, h.orphan_parent, h.absent)

-- For a trace of three spans with distinct ids, a root that fits, nothing left out and times that
-- fit, where the parent of the second span is the third and that of the third is missing, the check
-- raises a KeyError: it looks up the missing id before it comes to the third span.
pub OrphanTrace-raises :
    (t : StoredTrace) (root child orphan : Span) (missing : ℕ)
    → OrphanTrace t root child orphan missing
    → has_valid_tree t ≡ key_error
OrphanTrace-raises t root child orphan missing h =
    let n = ap length h.the_spans in
    let sole : keep is_root (root ∷ child ∷ orphan ∷ []) ≡ root ∷ [] =
      ground (arith, h.no_parent, h.child_parent, h.orphan_parent) in
    tree_checked t root (ap (λ z. distinct (ids z)) h.the_spans ∙ h.once)
      (ap (keep is_root) h.the_spans ∙ sole) h.same_service h.same_operation
      (omega (arith, n, h.all_stored.0)) (ground (arith, n, h.all_stored.0, h.all_stored.1))
      h.in_time
    ∙ ap (λ z. check_spans z z) h.the_spans
    ∙ walk_raises t root child orphan missing h
