-- ===== src/Backend/Waterfall/Accepts.antt =====
-- The backend's check of a trace, on the trace that the worker's `_truncate` stores.
use cloud_sre_ai_agent.Prelude.{
  ◌≡◌, refl, sym, ap, ◌∙◌, ℕ, zero, suc, ◌+◌, ◌≤◌, ◌<◌, true, false, none, some, List, [], ◌∷◌, inl,
  inr, Bool-cases, Option-cases, arith, length, any, all, keep, ltb, ◌==◌,
}
use cloud_sre_ai_agent.Backend.Alerts.Json.{text_eq, text_eq_refl}
use cloud_sre_ai_agent.Worker.Waterfall.{
  Span, InputTrace, CandidateTrace, StoredTrace, find_span, parent_of, parent_in, elem, ids,
  distinct, acyclic, walk, ends_well, is_root, parent_known, span_end, one_ms, pick,
  selected_span_ids, truncate, service_of, operation_of, validated_candidate,
}
use cloud_sre_ai_agent.Worker.Waterfall.Attributes.{Checks}
use cloud_sre_ai_agent.Worker.Waterfall.Tree.{
  Known, Rooted, top, below, acyclic-Rooted, acyclic-iff_Rooted,
}
use cloud_sre_ai_agent.Worker.Waterfall.Sets.{length-le_of_subset}
use cloud_sre_ai_agent.Worker.Waterfall.Preorder.{ParentsFirst-closed}
use cloud_sre_ai_agent.Worker.Waterfall.Selection.{elem-ids}
use cloud_sre_ai_agent.Worker.Waterfall.Truncate.{truncation-IsTree}
use cloud_sre_ai_agent.Worker.Waterfall.Stored.{validated_candidate-PassedChecks}
use cloud_sre_ai_agent.Worker.Waterfall.Pick.{
  find_span-id, Known-some, AllKnown, all_known, ids-pick, length-pick, find_span-pick, any-pick,
}
use cloud_sre_ai_agent.Backend.Waterfall.{valid, check_spans, has_valid_tree}

-- The spans that are picked, of a set that has the parent of each of its ids.
module _ (spans : List Span) (ks : List ℕ) (known : AllKnown spans ks)
    (closed : (k p : ℕ) → elem k ks ≡ true → parent_of spans k ≡ some p → elem p ks ≡ true) where
  parent_of-pick : (k : ℕ) → elem k ks ≡ true → parent_of (pick spans ks) k ≡ parent_of spans k
  unfolding parent_of
  parent_of-pick k m = ap parent_in (find_span-pick spans ks k known m)

  Known-pick : (k : ℕ) → elem k ks ≡ true → Known (pick spans ks) k
  Known-pick k m = sym (elem-ids k (pick spans ks)) ∙ ap (elem k) (ids-pick spans ks known) ∙ m

  pick-Known : (k : ℕ) → Known (pick spans ks) k → elem k ks ≡ true
  pick-Known k u = ap (elem k) (sym (ids-pick spans ks known)) ∙ elem-ids k (pick spans ks) ∙ u

  Rooted-pick : (k n : ℕ) → elem k ks ≡ true → Rooted spans k n → Rooted (pick spans ks) k n
  Rooted-pick k zero m (top u e) = top (Known-pick k m) (parent_of-pick k m ∙ e)
  Rooted-pick k (suc n) m (below {p = p} u e r) =
      below (Known-pick k m) (parent_of-pick k m ∙ e) (Rooted-pick p n (closed k p m e) r)

  acyclic-pick :
      acyclic spans ≡ true
      → ((k : ℕ) → elem k ks ≡ true → Known spans k)
      → acyclic (pick spans ks) ≡ true
  acyclic-pick h each = (acyclic-iff_Rooted (pick spans ks)).0.1 λ k u.
      let m = pick-Known k u in
      let r = acyclic-Rooted spans k h (each k m) in (r.0, Rooted-pick k r.0 m r.1)

-- The loop accepts spans with known parents whose walks end.
check_spans-valid :
    (spans ss : List Span)
    → all (λ s. parent_known (ids spans) s) ss ≡ true
    → all (λ s. ends_well (walk (length spans + 1) spans [] (some s.span_id))) ss ≡ true
    → check_spans spans ss ≡ valid
unfolding check_spans
check_spans-valid spans [] p w = refl
check_spans-valid spans (s ∷ ss) p w =
    let ih = check_spans-valid spans ss (ground (arith, p)) (ground (arith, w)) in
    ground (arith, p, w, ih)

-- Each picked span has its parent among the ids.
parents_picked :
    (spans : List Span) (ids ks : List ℕ)
    → AllKnown spans ks
    → ((k p : ℕ) → elem k ks ≡ true → parent_of spans k ≡ some p → elem p ids ≡ true)
    → all (λ s. parent_known ids s) (pick spans ks) ≡ true
unfolding pick parent_of
parents_picked spans ids [] known closed = refl
parents_picked spans ids (k ∷ ks) known closed =
    let ih = parents_picked spans ids ks known.1 (λ j p m. closed j p (ground (arith, m))) in
    elim (Option-cases (find_span k spans)) [
      | inl e ↦ absurd (ground (arith, known.0, e))
      | inr (s, e) ↦ elim (Option-cases s.parent_span_id) [
        | inl x ↦ ground (arith, e, x, ih)
        | inr (p, x) ↦
            let up = closed k p (ground arith) (ground (arith, e, x)) in
            ground (arith, e, x, ih, up)
      ]
    ]

-- The picked spans without parent, where `r` is the only such span.
module _ (spans : List Span) (r : Span)
    (only : (k : ℕ) → Known spans k → parent_of spans k ≡ none → k ≡ r.span_id)
    (here : find_span r.span_id spans ≡ some r) (no_parent : r.parent_span_id ≡ none) where
  no_root_picked :
      (ks : List ℕ)
      → AllKnown spans ks
      → elem r.span_id ks ≡ false
      → keep is_root (pick spans ks) ≡ []
  unfolding pick parent_of
  no_root_picked [] known m = refl
  no_root_picked (k ∷ ks) known m =
      let ih = no_root_picked ks known.1 (ground (arith, m)) in
      elim (Option-cases (find_span k spans)) [
        | inl e ↦ absurd (ground (arith, known.0, e))
        | inr (s, e) ↦ elim (Option-cases s.parent_span_id) [
          | inl x ↦
              let same = only k known.0 (ground (arith, e, x)) in absurd (ground (arith, m, same))
          | inr (p, x) ↦ ground (arith, e, x, ih)
        ]
      ]

  root_picked :
      (ks : List ℕ)
      → AllKnown spans ks
      → distinct ks ≡ true
      → elem r.span_id ks ≡ true
      → keep is_root (pick spans ks) ≡ r ∷ []
  unfolding pick parent_of distinct
  root_picked [] known d m = cc
  root_picked (k ∷ ks) known d m = elim (Bool-cases (k == r.span_id)) [
    | inl t ↦
        let same : k ≡ r.span_id = ground arith in
        let e : find_span k spans ≡ some r = ap (λ z. find_span z spans) same ∙ here in
        let rest = no_root_picked ks known.1 (ground (arith, d, same)) in
        ground (arith, e, no_parent, rest)
    | inr t ↦
        let ih = root_picked ks known.1 (ground (arith, d)) (ground (arith, m, t)) in
        elim (Option-cases (find_span k spans)) [
          | inl e ↦ absurd (ground (arith, known.0, e))
          | inr (s, e) ↦ elim (Option-cases s.parent_span_id) [
            | inl x ↦
                let same = only k known.0 (ground (arith, e, x)) in absurd (ground (arith, t, same))
            | inr (p, x) ↦ ground (arith, e, x, ih)
          ]
        ]
  ]

length-ids : (spans : List Span) → length (ids spans) ≡ length spans
length-ids [] = refl
length-ids (s ∷ ss) = omega (arith, length-ids ss)

-- Where the checks before the loop pass, the loop decides.
pub tree_checked :
    (t : StoredTrace) (root : Span)
    → distinct (ids t.spans) ≡ true
    → keep is_root t.spans ≡ root ∷ []
    → root.service_name ≡ t.root_service_name
    → root.operation_name ≡ t.root_operation_name
    → length t.spans ≤ t.span_count
    → t.truncated ≡ ltb (length t.spans) t.span_count
    → any (λ s. ltb (t.duration_ms + one_ms) (span_end s)) t.spans ≡ false
    → has_valid_tree t ≡ check_spans t.spans t.spans
unfolding has_valid_tree
tree_checked t root d r s o n u i =
    let a : text_eq root.service_name t.root_service_name ≡ true =
      ap (text_eq root.service_name) (sym s) ∙ text_eq_refl root.service_name in
    let b : text_eq root.operation_name t.root_operation_name ≡ true =
      ap (text_eq root.operation_name) (sym o) ∙ text_eq_refl root.operation_name in
    ground (arith, d, r, a, b, n, u, i)

-- Where the worker has validated a trace, the part of it that is stored under any limit from 1 on
-- is, for the backend, a valid tree.
pub stored_trace_accepted :
    (k : Checks) (t : InputTrace) (c : CandidateTrace) (max_spans : ℕ)
    → validated_candidate k t ≡ some c
    → 0 < max_spans
    → has_valid_tree (truncate c max_spans) ≡ valid
unfolding truncate acyclic parent_of
stored_trace_accepted k t c limit e lt =
    let v = validated_candidate-PassedChecks k t c e in
    let ok = v.candidate in
    let chosen = selected_span_ids c limit in
    let tree = truncation-IsTree c limit ok lt in
    let each = tree.3 in
    let known = all_known c.spans chosen each in
    let closed : (k p : ℕ)
        → elem k chosen ≡ true
        → parent_of c.spans k ≡ some p
        → elem p chosen ≡ true =
      λ k p m x. ground (arith, ParentsFirst-closed c.spans [] chosen k p tree.4 m x) in
    let root = Known-some c.spans c.root_span_id ok.root_known in
    let i = find_span-id c.root_span_id c.spans root.0 root.1 in
    let same = ids-pick c.spans chosen known in
    let n = length-pick c.spans chosen known in
    let fewer =
      length-le_of_subset chosen (ids c.spans) tree.0 (λ k m. elem-ids k c.spans ∙ each k m) in
    let top_parent : root.0.parent_span_id ≡ none = sym (ap parent_in root.1) ∙ ok.root_top in
    let sole =
      root_picked c.spans root.0 (λ k u x. ok.root_only k u x ∙ sym i)
        (ap (λ z. find_span z c.spans) i ∙ root.1) top_parent chosen known tree.0
        (ap (λ z. elem z chosen) i ∙ tree.2) in
    tree_checked (truncate c limit) root.0 (ap distinct same ∙ tree.0) sole
      (sym (ap service_of root.1)) (sym (ap operation_of root.1))
      (omega (arith, n, fewer, length-ids c.spans)) (ap (λ z. ltb z (length c.spans)) (sym n))
      (any-pick (λ s. ltb (c.duration_ms + one_ms) (span_end s)) c.spans chosen known v.in_time)
    ∙ (check_spans-valid (pick c.spans chosen) (pick c.spans chosen)
        (ap (λ z. all (λ s. parent_known z s) (pick c.spans chosen)) same
          ∙ parents_picked c.spans chosen chosen known closed)
        (acyclic-pick c.spans chosen known closed ok.rooted each))
