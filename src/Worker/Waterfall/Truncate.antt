-- ===== src/Worker/Waterfall/Truncate.antt =====
-- `_truncate` of trace_waterfall.py: what the selection and its order contain.
use cloud_sre_ai_agent.Prelude.{
  ◌≡◌, sym, ◌∙◌, ℕ, zero, suc, ◌≤◌, ◌<◌, true, false, none, some, List, [], ◌∷◌, inl, inr,
  Bool-cases, Option-cases, arith, length, length-take, take, ltb,
}
use cloud_sre_ai_agent.Worker.Waterfall.{
  Span, CandidateTrace, parent_of, elem, add, union, ids, distinct, chain, ancestor_closure,
  add_with_ancestors, stable_span_ids, topological_order, fold, critical_ids, error_ids, is_error,
  required_ids, selected_ids, selected_span_ids,
}
use cloud_sre_ai_agent.Worker.Waterfall.Tree.{Known, top, Rooted-Known}
use cloud_sre_ai_agent.Worker.Waterfall.Sets.{
  elem-add, elem-union, elem-take, distinct-add, distinct-union, elem-stable_span_ids,
  distinct-take, length-le_of_subset,
}
use cloud_sre_ai_agent.Worker.Waterfall.Order.{IsTree}
use cloud_sre_ai_agent.Worker.Waterfall.Preorder.{
  ParentsFirst-take, ParentsFirst-closed, topological_order-ParentsFirst,
  distinct-topological_order, elem-topological_order, ParentsFirst,
}
use cloud_sre_ai_agent.Worker.Waterfall.Selection.{
  IsCandidate, IsClosed, elem-ids, elem-ids-keep, union-IsClosed, cons-IsClosed, Known-chain,
  closure-IsClosed, distinct-closure,
}

IsTree-of :
    (spans : List Span) (xs : List ℕ) → distinct xs ≡ true → IsClosed spans xs → IsTree spans xs
IsTree-of spans xs d h = record { once = d; rooted = h.rooted; closed = h.closed }

IsClosed-of : (spans : List Span) (xs : List ℕ) → IsTree spans xs → IsClosed spans xs
IsClosed-of spans xs h = record { rooted = h.rooted; closed = h.closed }

module _ {c : CandidateTrace} (ok : IsCandidate c) where
  add_root : (xs : List ℕ) → IsTree c.spans xs → IsTree c.spans (add c.root_span_id xs)
  unfolding add
  add_root xs h =
      IsTree-of c.spans (add c.root_span_id xs) (distinct-add c.root_span_id xs h.once)
        (elim (Bool-cases (elem c.root_span_id xs)) [
          | inl t ↦ rw (t) (IsClosed-of c.spans xs h)
          | inr t ↦ rw (t) (
              cons-IsClosed c.spans c.root_span_id 0 xs (top ok.root_known ok.root_top)
                (omega arith) (λ p e. let x : some p ≡ none = sym e ∙ ok.root_top in cc)
                (IsClosed-of c.spans xs h))
        ])

  closure-IsTree :
      (ks : List ℕ)
      → ((k : ℕ) → elem k ks ≡ true → elem k (ids c.spans) ≡ true)
      → IsTree c.spans (add c.root_span_id (ancestor_closure c.spans ks))
  closure-IsTree ks h = add_root (ancestor_closure c.spans ks) (
      IsTree-of c.spans _ (distinct-closure c.spans ks)
        (closure-IsClosed c.spans ok.rooted ks (λ k u. sym (elem-ids k c.spans) ∙ h k u)))

  critical_known : (k : ℕ) → elem k (critical_ids c.spans) ≡ true → elem k (ids c.spans) ≡ true
  critical_known k h = elem-ids-keep k (λ s. s.critical_path) c.spans h

  flagged_known :
      (k : ℕ)
      → elem k (union (critical_ids c.spans) (error_ids c.spans)) ≡ true
      → elem k (ids c.spans) ≡ true
  flagged_known k h = elim (Bool-cases (elem k (critical_ids c.spans))) [
    | inl t ↦ critical_known k t
    | inr t ↦
        elem-ids-keep k (λ s. is_error s.status) c.spans
          (ground (arith, elem-union k (critical_ids c.spans) (error_ids c.spans), h, t))
  ]

  -- The set, the root and the limit, while spans are added.
  record Fits (limit : ℕ) (xs : List ℕ) : Type 0 where
    tree : IsTree c.spans xs
    root : elem c.root_span_id xs ≡ true
    bound : length xs ≤ limit

  add_with_ancestors-Fits :
      (limit k : ℕ) (xs : List ℕ)
      → elem k (ids c.spans) ≡ true
      → Fits limit xs
      → Fits limit (add_with_ancestors c.spans limit k xs)
  unfolding add_with_ancestors
  add_with_ancestors-Fits limit k xs u h =
      let way = chain (length c.spans) c.spans k in
      elim (Bool-cases (ltb limit (length (union way xs)))) [
        | inl t ↦ rw (t) h
        | inr t ↦ rw (t) (record {
          tree = IsTree-of c.spans (union way xs) (distinct-union way xs h.tree.once) (
              union-IsClosed c.spans way xs
                (Known-chain c.spans ok.rooted k (sym (elem-ids k c.spans) ∙ u))
                (IsClosed-of c.spans xs h.tree));
          root = ground (arith, elem-union c.root_span_id way xs, h.root);
          bound = ground (arith, t);
        })
      ]

  fold-Fits :
      (limit : ℕ) (ks xs : List ℕ)
      → ((k : ℕ) → elem k ks ≡ true → elem k (ids c.spans) ≡ true)
      → Fits limit xs
      → Fits limit (fold (add_with_ancestors c.spans limit) xs ks)
  fold-Fits limit [] xs u h = h
  fold-Fits limit (k ∷ ks) xs u h =
      fold-Fits limit ks (add_with_ancestors c.spans limit k xs) (λ j m. u j (ground (arith, m)))
        (add_with_ancestors-Fits limit k xs (u k (ground arith)) h)

  -- The first spans of the order are a tree.
  take-IsTree :
      (n : ℕ) (xs : List ℕ)
      → IsTree c.spans xs
      → IsTree c.spans (take n (topological_order c.spans xs))
  take-IsTree n xs h =
      let order = topological_order c.spans xs in
      record {
        once = distinct-take n order (distinct-topological_order h);
        rooted = λ k m. h.rooted k ((elem-topological_order h k).0 (elem-take k n order m));
        closed = λ k p m e.
            let r =
              ParentsFirst-closed c.spans [] (take n order) k p
                (ParentsFirst-take c.spans [] order n (topological_order-ParentsFirst c.spans xs)) m
                e in
            ground (arith, r);
      }

  first_root :
      (xs : List ℕ) (n : ℕ)
      → ParentsFirst c.spans [] xs
      → ((k : ℕ) → elem k xs ≡ true → Known c.spans k)
      → elem c.root_span_id xs ≡ true
      → 0 < n
      → elem c.root_span_id (take n xs) ≡ true
  first_root [] n h u m lt = cc
  first_root (x ∷ xs) zero h u m lt = absurd (omega arith)
  first_root (x ∷ xs) (suc n) h u m lt = elim (Option-cases (parent_of c.spans x)) [
    | inl e ↦ let same = ok.root_only x (u x (ground arith)) e in ground (arith, same)
    | inr (p, e) ↦ absurd (ground (arith, h.0 p e))
  ]

  required-Fits : (limit : ℕ) → length (required_ids c) ≤ limit → Fits limit (required_ids c)
  unfolding required_ids
  required-Fits limit le = record {
    tree = closure-IsTree (union (critical_ids c.spans) (error_ids c.spans)) flagged_known;
    root =
        let flagged = ancestor_closure c.spans (union (critical_ids c.spans) (error_ids c.spans)) in
        ground (arith, elem-add c.root_span_id c.root_span_id flagged);
    bound = le;
  }

  pub selected_ids_fit :
      (max_spans : ℕ)
      → 0 < max_spans
      → IsTree c.spans (selected_ids c max_spans)
        × (elem c.root_span_id (selected_ids c max_spans) ≡ true)
        × (length (selected_ids c max_spans) ≤ max_spans)
  unfolding selected_ids
  selected_ids_fit limit lt = elim (Bool-cases (ltb limit (length (required_ids c)))) [
    | inl t ↦
        let start = add c.root_span_id (ancestor_closure c.spans (critical_ids c.spans)) in
        let tree = closure-IsTree (critical_ids c.spans) critical_known in
        let order = topological_order c.spans start in
        let has_root = (elem-topological_order tree c.root_span_id).1 (
          ground (
            arith,
            elem-add c.root_span_id c.root_span_id
                (ancestor_closure c.spans (critical_ids c.spans)),
          )) in
        rw (t) (
          take-IsTree limit start tree,
          first_root order limit (topological_order-ParentsFirst c.spans start)
              (λ k m.
                Rooted-Known c.spans k _ (tree.rooted k ((elem-topological_order tree k).0 m)).1)
              has_root lt,
          omega (arith, length-take limit order),
        )
    | inr t ↦
        let f =
          fold-Fits limit (stable_span_ids c.spans (ids c.spans)) (required_ids c)
            (λ k m. sym (elem-stable_span_ids c.spans k (ids c.spans)) ∙ m)
            (required-Fits limit (ground (arith, t))) in
        rw (t) (f.tree, f.root, f.bound)
  ]

fold-keeps :
    (spans : List Span) (limit k : ℕ) (ks xs : List ℕ)
    → elem k xs ≡ true
    → elem k (fold (add_with_ancestors spans limit) xs ks) ≡ true
unfolding add_with_ancestors
fold-keeps spans limit k [] xs h = h
fold-keeps spans limit k (j ∷ ks) xs h =
    fold-keeps spans limit k ks (add_with_ancestors spans limit j xs)
      (ground (arith, elem-union k (chain (length spans) spans j) xs))

-- For a candidate and a limit from 1 on, the stored ids are distinct, known and at most as many as the
-- limit, the root is among them, and each has its parent before it.
pub truncation-IsTree :
    (c : CandidateTrace) (max_spans : ℕ)
    → IsCandidate c
    → 0 < max_spans
    → (distinct (selected_span_ids c max_spans) ≡ true)
      × (length (selected_span_ids c max_spans) ≤ max_spans)
      × (elem c.root_span_id (selected_span_ids c max_spans) ≡ true)
      × ((k : ℕ) → elem k (selected_span_ids c max_spans) ≡ true → Known c.spans k)
      × ParentsFirst c.spans [] (selected_span_ids c max_spans)
unfolding selected_span_ids
truncation-IsTree c limit ok lt =
    let f = selected_ids_fit ok limit lt in
    let d = distinct-topological_order f.0 in
    let m = elem-topological_order f.0 in
    (
      d,
      omega (
        arith,
        f.2,
        length-le_of_subset (topological_order c.spans (selected_ids c limit))
            (selected_ids c limit) d (λ k u. (m k).0 u),
      ),
      (m c.root_span_id).1 f.1,
      λ k u. Rooted-Known c.spans k _ (f.0.rooted k ((m k).0 u)).1,
      topological_order-ParentsFirst c.spans (selected_ids c limit),
    )

-- Where the critical and the failed spans with their ancestors and the root are within the limit,
-- each of them is stored.
pub required_spans_stored :
    (c : CandidateTrace) (max_spans k : ℕ)
    → IsCandidate c
    → 0 < max_spans
    → length (required_ids c) ≤ max_spans
    → elem k (required_ids c) ≡ true
    → elem k (selected_span_ids c max_spans) ≡ true
unfolding selected_span_ids selected_ids
required_spans_stored c limit k ok lt le h =
    let t : ltb limit (length (required_ids c)) ≡ false = ground arith in
    let f = selected_ids_fit ok limit lt in
    (elem-topological_order f.0 k).1 (
      rw (t)
        (fold-keeps c.spans limit k (stable_span_ids c.spans (ids c.spans)) (required_ids c) h))
