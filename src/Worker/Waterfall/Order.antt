-- ===== src/Worker/Waterfall/Order.antt =====
-- `_topological_order` of trace_waterfall.py: each selected span once, after its parent.
use cloud_sre_ai_agent.Prelude.{
  ◌≡◌, refl, sym, ap, subst, ◌∙◌, ℕ, zero, suc, ◌≤◌, true, ◌&&◌, Option, none, some, List, [], ◌∷◌,
  inl, inr, Bool-cases, arith, length, keep, ◌==◌,
}
use cloud_sre_ai_agent.Worker.Waterfall.{
  Span, parent_of, elem, distinct, same_id, children, visit_all, visit,
}
use cloud_sre_ai_agent.Worker.Waterfall.Tree.{Rooted}
use cloud_sre_ai_agent.Worker.Waterfall.Sets.{
  elem-append, elem-keep, elem-stable_span_ids, distinct-append,
}

-- A set of spans, each with a way to the root, that has the parent of each of its spans.
pub record IsTree (spans : List Span) (selected : List ℕ) : Type 0 where
  pub once : distinct selected ≡ true
  pub rooted : (k : ℕ) → elem k selected ≡ true → (n : ℕ) × Rooted spans k n × (n ≤ length spans)
  pub closed :
      (k p : ℕ) → elem k selected ≡ true → parent_of spans k ≡ some p → elem p selected ≡ true

same_id_sound : (o q : Option ℕ) → same_id o q ≡ true → o ≡ q
same_id_sound none none h = refl
same_id_sound none (some k) h = cc
same_id_sound (some j) none h = cc
same_id_sound (some j) (some k) h = ap some (ground arith)

same_id_refl : (o : Option ℕ) → same_id o o ≡ true
same_id_refl none = refl
same_id_refl (some j) = ground arith

pub elem-children :
    (spans : List Span) (selected : List ℕ) (o : Option ℕ) (j : ℕ)
    → elem j (children spans selected o) ≡ (same_id (parent_of spans j) o && elem j selected)
unfolding children
elem-children spans selected o j =
    elem-stable_span_ids spans j (keep (λ k. same_id (parent_of spans k) o) selected)
    ∙ elem-keep j (λ k. same_id (parent_of spans k) o) selected

pub child-selected :
    (spans : List Span) (selected : List ℕ) (o : Option ℕ) (j : ℕ)
    → elem j (children spans selected o) ≡ true
    → (parent_of spans j ≡ o) × (elem j selected ≡ true)
child-selected spans selected o j h =
    let e = elem-children spans selected o j in
    (same_id_sound (parent_of spans j) o (ground (arith, e, h)), ground (arith, e, h))

pub selected-child :
    (spans : List Span) (selected : List ℕ) (o : Option ℕ) (j : ℕ)
    → parent_of spans j ≡ o
    → elem j selected ≡ true
    → elem j (children spans selected o) ≡ true
selected-child spans selected o j p h =
    let e = elem-children spans selected o j in
    let r =
      subst (λ x. same_id (parent_of spans j) x ≡ true) p (same_id_refl (parent_of spans j)) in
    ground (arith, e, r, h)

pub elem-visit_all :
    (f : ℕ → List ℕ) (ks : List ℕ) (j : ℕ)
    → elem j (visit_all f ks) ≡ true
    → (k : ℕ) × (elem k ks ≡ true) × (elem j (f k) ≡ true)
unfolding visit_all
elem-visit_all f [] j h = cc
elem-visit_all f (k ∷ ks) j h = elim (Bool-cases (elem j (f k))) [
  | inl t ↦ (k, ground arith, t)
  | inr t ↦
      let ih = elem-visit_all f ks j (ground (arith, elem-append j (f k) (visit_all f ks), h, t)) in
      (ih.0, ground (arith, ih.1), ih.2)
]

pub visit_all-elem :
    (f : ℕ → List ℕ) (ks : List ℕ) (k j : ℕ)
    → elem k ks ≡ true
    → elem j (f k) ≡ true
    → elem j (visit_all f ks) ≡ true
unfolding visit_all
visit_all-elem f [] k j h m = cc
visit_all-elem f (x ∷ ks) k j h m = elim (Bool-cases (x == k)) [
  | inl t ↦
      let same : x ≡ k = ground arith in
      ground (arith, elem-append j (f x) (visit_all f ks), ap (λ z. elem j (f z)) same, m)
  | inr t ↦
      let ih = visit_all-elem f ks k j (ground arith) m in
      ground (arith, elem-append j (f x) (visit_all f ks), ih)
]

pub distinct-visit_all :
    (f : ℕ → List ℕ) (ks : List ℕ)
    → distinct ks ≡ true
    → ((k : ℕ) → elem k ks ≡ true → distinct (f k) ≡ true)
    → ((j k x : ℕ)
        → elem j ks ≡ true
        → elem k ks ≡ true
        → elem x (f j) ≡ true
        → elem x (f k) ≡ true
        → j ≡ k)
    → distinct (visit_all f ks) ≡ true
unfolding visit_all distinct
distinct-visit_all f [] h each apart = refl
distinct-visit_all f (k ∷ ks) h each apart =
    distinct-append (f k) (visit_all f ks) (each k (ground arith))
      (distinct-visit_all f ks (ground arith) (λ j u. each j (ground (arith, u)))
        (λ i j x a b u v. apart i j x (ground (arith, a)) (ground (arith, b)) u v))
      λ x u. elim (Bool-cases (elem x (visit_all f ks))) [
        | inl t ↦
            let m = elem-visit_all f ks x t in
            let same = apart k m.0 x (ground arith) (ground (arith, m.1)) u m.2 in
            absurd (ground (arith, h, m.1, ap (λ z. elem z ks) same))
        | inr t ↦ t
      ]

pub climb : List Span → ℕ → ℕ → Option ℕ
climb spans zero x = some x
climb spans (suc k) x = elim (climb spans k x) [ none ↦ none | some y ↦ parent_of spans y ]

-- `x` is `k` steps below `y` among the selected spans.
pub data Down (spans : List Span) (selected : List ℕ) (x : ℕ) : ℕ → ℕ → Type 0 where
  here : Down spans selected x x zero
  step :
      {y c k : ℕ}
      → elem c (children spans selected (some y)) ≡ true
      → Down spans selected x c k
      → Down spans selected x y (suc k)

module _ {spans : List Span} {selected : List ℕ} where
  pub visit-Down :
      (f x y : ℕ) → elem x (visit f spans selected y) ≡ true → (k : ℕ) × Down spans selected x y k
  unfolding visit
  visit-Down zero x y h =
      let same : y ≡ x = ground arith in
      (0, subst (λ z. Down spans selected x z zero) (sym same) here)
  visit-Down (suc f) x y h = elim (Bool-cases (y == x)) [
    | inl t ↦
        let same : y ≡ x = ground arith in
        (0, subst (λ z. Down spans selected x z zero) (sym same) here)
    | inr t ↦
        let m =
          elem-visit_all (visit f spans selected) (children spans selected (some y)) x
            (ground arith) in
        let d = visit-Down f x m.0 m.2 in (suc d.0, step m.1 d.1)
  ]

  pub Down-visit :
      (f x y k : ℕ) → Down spans selected x y k → k ≤ f → elem x (visit f spans selected y) ≡ true
  unfolding visit
  Down-visit zero x y zero here h = ground arith
  Down-visit (suc f) x y zero here h = ground arith
  Down-visit zero x y (suc k) (step m d) h = absurd (omega arith)
  Down-visit (suc f) x y (suc k) (step {c = c} m d) h =
      let ih = Down-visit f x c k d (omega arith) in
      let v = visit_all-elem (visit f spans selected) (children spans selected (some y)) c x m ih in
      ground (arith, v)

  pub Down-climb : (x y k : ℕ) → Down spans selected x y k → climb spans k x ≡ some y
  unfolding climb
  Down-climb x y zero here = refl
  Down-climb x y (suc k) (step {c = c} m d) =
      let ih = Down-climb x c k d in
      let p = child-selected spans selected (some y) c m in ground (arith, ih, p.0)

  pub Down-selected :
      (x y k : ℕ) → Down spans selected x y k → elem y selected ≡ true → elem x selected ≡ true
  Down-selected x y zero here h = h
  Down-selected x y (suc k) (step {c = c} m d) h =
      Down-selected x c k d (child-selected spans selected (some y) c m).1
