-- ===== src/Worker/Waterfall/Selection.antt =====
-- The spans that `_truncate` of trace_waterfall.py selects: a tree with the root, within the limit.
use cloud_sre_ai_agent.Prelude.{
  ◌≡◌, refl, sym, subst, ◌∙◌, ℕ, zero, suc, ◌≤◌, Bool, true, false, ◌||◌, none, some, List, [], ◌∷◌,
  inl, inr, Bool-cases, arith, length, keep, is_some, ◌==◌,
}
use cloud_sre_ai_agent.Worker.Waterfall.{
  Span, CandidateTrace, find_span, parent_of, elem, union, ids, distinct, acyclic, chain,
  ancestor_closure,
}
use cloud_sre_ai_agent.Worker.Waterfall.Tree.{Known, Rooted, top, below, acyclic-Rooted}
use cloud_sre_ai_agent.Worker.Waterfall.Sets.{elem-union, distinct-union}

-- What the checks of `_validated_candidate` say about its spans.
pub record IsCandidate (c : CandidateTrace) : Type 0 where
  pub once : distinct (ids c.spans) ≡ true
  pub rooted : acyclic c.spans ≡ true
  pub root_known : Known c.spans c.root_span_id
  pub root_top : parent_of c.spans c.root_span_id ≡ none
  pub root_only : (k : ℕ) → Known c.spans k → parent_of c.spans k ≡ none → k ≡ c.root_span_id

pub elem-ids : (k : ℕ) (spans : List Span) → elem k (ids spans) ≡ is_some (find_span k spans)
unfolding find_span
elem-ids k [] = refl
elem-ids k (s ∷ ss) = ground (arith, elem-ids k ss)

pub elem-ids-keep :
    (k : ℕ) (p : Span → Bool) (spans : List Span)
    → elem k (ids (keep p spans)) ≡ true
    → elem k (ids spans) ≡ true
elem-ids-keep k p [] h = h
elem-ids-keep k p (s ∷ ss) h = elim (Bool-cases (s.span_id == k)) [
  | inl t ↦ ground arith
  | inr t ↦ let ih = elem-ids-keep k p ss (ground (arith, h, t)) in ground (arith, ih)
]

-- Every id has a way to the root, and the parents of the ids are among them.
pub record IsClosed (spans : List Span) (xs : List ℕ) : Type 0 where
  pub rooted : (k : ℕ) → elem k xs ≡ true → (n : ℕ) × Rooted spans k n × (n ≤ length spans)
  pub closed : (k p : ℕ) → elem k xs ≡ true → parent_of spans k ≡ some p → elem p xs ≡ true

or_split : (a b : Bool) → (a || b) ≡ true → (a ≡ false) → b ≡ true
or_split a b h e = ground arith

pub union-IsClosed :
    (spans : List Span) (xs ys : List ℕ)
    → IsClosed spans xs
    → IsClosed spans ys
    → IsClosed spans (union xs ys)
union-IsClosed spans xs ys a b = record {
  rooted = λ k h. elim (Bool-cases (elem k xs)) [
    | inl t ↦ a.rooted k t
    | inr t ↦ b.rooted k (ground (arith, elem-union k xs ys, h, t))
  ];
  closed = λ k p h e. elim (Bool-cases (elem k xs)) [
    | inl t ↦ ground (arith, elem-union p xs ys, a.closed k p t e)
    | inr t ↦
        let u = b.closed k p (ground (arith, elem-union k xs ys, h, t)) e in
        ground (arith, elem-union p xs ys, u)
  ];
}

pub elem-chain_start : (f : ℕ) (spans : List Span) (k : ℕ) → elem k (chain f spans k) ≡ true
unfolding chain
elem-chain_start zero spans k = ground arith
elem-chain_start (suc f) spans k = ground arith

chain_step :
    (f : ℕ) (spans : List Span) (k p : ℕ)
    → parent_of spans k ≡ some p
    → chain (suc f) spans k ≡ k ∷ chain f spans p
unfolding chain
chain_step f spans k p e = ground (arith, e)

chain_top :
    (f : ℕ) (spans : List Span) (k : ℕ) → parent_of spans k ≡ none → chain f spans k ≡ k ∷ []
unfolding chain
chain_top zero spans k e = refl
chain_top (suc f) spans k e = ground (arith, e)

pub cons-IsClosed :
    (spans : List Span) (k n : ℕ) (xs : List ℕ)
    → Rooted spans k n
    → n ≤ length spans
    → ((p : ℕ) → parent_of spans k ≡ some p → elem p xs ≡ true)
    → IsClosed spans xs
    → IsClosed spans (k ∷ xs)
cons-IsClosed spans k n xs r le up h = record {
  rooted = λ j m. elim (Bool-cases (k == j)) [
    | inl t ↦ let same : k ≡ j = ground arith in (n, subst (λ z. Rooted spans z n) same r, le)
    | inr t ↦ h.rooted j (ground (arith, m, t))
  ];
  closed = λ j p m e. elim (Bool-cases (k == j)) [
    | inl t ↦
        let same : k ≡ j = ground arith in
        let u = up p (subst (λ z. parent_of spans z ≡ some p) (sym same) e) in ground (arith, u)
    | inr t ↦ let u = h.closed j p (ground (arith, m, t)) e in ground (arith, u)
  ];
}

nil-IsClosed : (spans : List Span) → IsClosed spans []
nil-IsClosed spans = record { rooted = λ k h. cc; closed = λ k p h e. cc }

chain-IsClosed :
    (f : ℕ) (spans : List Span) (k n : ℕ)
    → Rooted spans k n
    → n ≤ f
    → n ≤ length spans
    → IsClosed spans (chain f spans k)
chain-IsClosed f spans k zero (top u e) le len =
    subst (IsClosed spans) (sym (chain_top f spans k e))
      (cons-IsClosed spans k zero [] (top u e) len (λ p x. cc) (nil-IsClosed spans))
chain-IsClosed zero spans k (suc n) (below u e r) le len = absurd (omega arith)
chain-IsClosed (suc f) spans k (suc n) (below {p = p} u e r) le len =
    subst (IsClosed spans) (sym (chain_step f spans k p e)) (
      cons-IsClosed spans k (suc n) (chain f spans p) (below u e r) len
        (λ q x.
          let same : some p ≡ some q = sym e ∙ x in
          let back : p ≡ q = cc in
          subst (λ z. elem z (chain f spans p) ≡ true) back (elem-chain_start f spans p))
        (chain-IsClosed f spans p n r (omega arith) (omega arith)))

module _ (spans : List Span) (acyc : acyclic spans ≡ true) where
  pub Known-chain : (k : ℕ) → Known spans k → IsClosed spans (chain (length spans) spans k)
  Known-chain k u =
      let r = acyclic-Rooted spans k acyc u in chain-IsClosed (length spans) spans k r.0 r.1 r.2 r.2

  pub closure-IsClosed :
      (ks : List ℕ)
      → ((k : ℕ) → elem k ks ≡ true → Known spans k)
      → IsClosed spans (ancestor_closure spans ks)
  unfolding ancestor_closure
  closure-IsClosed [] h = nil-IsClosed spans
  closure-IsClosed (k ∷ ks) h =
      union-IsClosed spans _ _ (Known-chain k (h k (ground arith)))
        (closure-IsClosed ks (λ j u. h j (ground (arith, u))))

pub distinct-closure :
    (spans : List Span) (ks : List ℕ) → distinct (ancestor_closure spans ks) ≡ true
unfolding ancestor_closure distinct
distinct-closure spans [] = refl
distinct-closure spans (k ∷ ks) = distinct-union _ _ (distinct-closure spans ks)

pub elem-closure :
    (spans : List Span) (ks : List ℕ) (k : ℕ)
    → elem k ks ≡ true
    → elem k (ancestor_closure spans ks) ≡ true
unfolding ancestor_closure
elem-closure spans [] k h = cc
elem-closure spans (j ∷ ks) k h =
    let a = elem-union k (chain (length spans) spans j) (ancestor_closure spans ks) in
    elim (Bool-cases (j == k)) [
      | inl t ↦
          let same : j ≡ k = ground arith in
          let u =
            subst (λ z. elem z (chain (length spans) spans j) ≡ true) same
              (elem-chain_start (length spans) spans j) in
          ground (arith, a, u)
      | inr t ↦ let ih = elem-closure spans ks k (ground (arith, h, t)) in ground (arith, a, ih)
    ]
