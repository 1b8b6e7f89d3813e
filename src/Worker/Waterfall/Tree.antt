-- ===== src/Worker/Waterfall/Tree.antt =====
-- `_has_cycle` of trace_waterfall.py: it is False exactly for spans that all have a way to a root.
use cloud_sre_ai_agent.Prelude.{
  ◌≡◌, ◌≢◌, ◌↔◌, refl, sym, ap, subst, ◌∙◌, ℕ, zero, suc, ◌+◌, ◌≤◌, ◌<◌, Bool, true, false, Option,
  none, some, List, [], ◌∷◌, inl, inr, Bool-cases, Option-cases, arith, length, all, is_some, ◌==◌,
  if◌then◌else◌,
}
use cloud_sre_ai_agent.Worker.Waterfall.{
  Span, find_span, parent_of, elem, Walk, ends, repeats, lost, out_of_fuel, walk, ends_well,
  acyclic,
}

abbrev pub Known : List Span → ℕ → Type 0
Known spans k = is_some (find_span k spans) ≡ true

-- The parents of `k` lead to a span without parent in `n` steps.
pub data Rooted (spans : List Span) : ℕ → ℕ → Type 0 where
  top : {k : ℕ} → Known spans k → parent_of spans k ≡ none → Rooted spans k zero
  below :
      {k p n : ℕ}
      → Known spans k
      → parent_of spans k ≡ some p
      → Rooted spans p n
      → Rooted spans k (suc n)

pub Rooted-Known : (spans : List Span) (k n : ℕ) → Rooted spans k n → Known spans k
Rooted-Known spans k zero (top h e) = h
Rooted-Known spans k (suc n) (below h e r) = h

some_injective : (a b : ℕ) → some a ≡ some b → a ≡ b
some_injective a b e = cc

-- The way to the root has one length.
pub Rooted-unique : (spans : List Span) (k m n : ℕ) → Rooted spans k m → Rooted spans k n → m ≡ n
Rooted-unique spans k zero zero (top h e) (top h' e') = refl
Rooted-unique spans k zero (suc n) (top h e) (below h' e' r') = cc
Rooted-unique spans k (suc m) zero (below h e r) (top h' e') = cc
Rooted-unique spans k (suc m) (suc n) (below {p = p} h e r) (below {p = q} h' e' r') =
    let same = some_injective p q (sym e ∙ e') in
    ap suc (Rooted-unique spans p m n r (subst (λ x. Rooted spans x n) (sym same) r'))

-- How many spans were not seen.
unfoldable unseen : List ℕ → List Span → ℕ
unseen seen [] = 0
unseen seen (s ∷ ss) = (if elem s.span_id seen then 0 else 1) + unseen seen ss

unseen-le :
    (k : ℕ) (seen : List ℕ) (spans : List Span) → unseen (k ∷ seen) spans ≤ unseen seen spans
unfolding unseen
unseen-le k seen [] = omega arith
unseen-le k seen (s ∷ ss) = ground (arith, unseen-le k seen ss)

unseen-lt :
    (k : ℕ) (seen : List ℕ) (spans : List Span)
    → Known spans k
    → elem k seen ≡ false
    → unseen (k ∷ seen) spans < unseen seen spans
unfolding unseen find_span
unseen-lt k seen [] h e = cc
unseen-lt k seen (s ∷ ss) h e = elim (Bool-cases (s.span_id == k)) [
  | inl t ↦
      let same : s.span_id ≡ k = ground arith in
      ground (arith, unseen-le k seen ss, ap (λ x. elem x seen) same)
  | inr t ↦ let ih = unseen-lt k seen ss (ground (arith, h)) e in ground (arith, ih)
]

unseen-le-length : (seen : List ℕ) (spans : List Span) → unseen seen spans ≤ length spans
unfolding unseen
unseen-le-length seen [] = omega arith
unseen-le-length seen (s ∷ ss) = ground (arith, unseen-le-length seen ss)

-- With fuel for each span not seen the walk ends by itself.
walk_enough :
    (fuel : ℕ) (spans : List Span) (seen : List ℕ) (o : Option ℕ)
    → unseen seen spans < fuel
    → walk fuel spans seen o ≢ out_of_fuel
unfolding walk
walk_enough fuel spans seen none h e = cc
walk_enough zero spans seen (some k) h e = absurd (omega arith)
walk_enough (suc fuel) spans seen (some k) h e = elim (Bool-cases (elem k seen)) [
  | inl t ↦ ground (arith, t)
  | inr t ↦ elim (Bool-cases (is_some (find_span k spans))) [
    | inl u ↦
        walk_enough fuel spans (k ∷ seen) (parent_of spans k)
          (omega (arith, unseen-lt k seen spans u t)) (ground arith)
    | inr u ↦ ground arith
  ]
]

walk-Rooted :
    (fuel : ℕ) (spans : List Span) (seen : List ℕ) (k : ℕ)
    → walk fuel spans seen (some k) ≡ ends
    → (n : ℕ) × Rooted spans k n × (n < fuel)
unfolding walk
walk-Rooted zero spans seen k e = cc
walk-Rooted (suc fuel) spans seen k e = elim (Bool-cases (elem k seen)) [
  | inl t ↦ absurd (ground arith)
  | inr t ↦ elim (Bool-cases (is_some (find_span k spans))) [
    | inl u ↦
        let next : walk fuel spans (k ∷ seen) (parent_of spans k) ≡ ends = ground arith in
        elim (Option-cases (parent_of spans k)) [
          | inl x ↦ (0, top u x, omega arith)
          | inr (p, x) ↦
              let r =
                walk-Rooted fuel spans (k ∷ seen) p
                  (subst (λ o. walk fuel spans (k ∷ seen) o ≡ ends) x next) in
              (suc r.0, below u x r.1, omega (arith, r.2))
        ]
    | inr u ↦ absurd (ground arith)
  ]
]

-- The ids seen are farther from the root.
abbrev Farther : List Span → ℕ → List ℕ → Type 0
Farther spans n [] = Unit {0}
Farther spans n (j ∷ seen) = ((m : ℕ) × Rooted spans j m × (n < m)) × Farther spans n seen

Farther-weaken :
    (spans : List Span) (n : ℕ) (seen : List ℕ) → Farther spans (suc n) seen → Farther spans n seen
Farther-weaken spans n [] h = tt
Farther-weaken spans n (j ∷ seen) h =
    ((h.0.0, h.0.1, omega (arith, h.0.2)), Farther-weaken spans n seen h.1)

Farther-new :
    (spans : List Span) (k n : ℕ) (seen : List ℕ)
    → Rooted spans k n
    → Farther spans n seen
    → elem k seen ≡ false
Farther-new spans k n [] r h = refl
Farther-new spans k n (j ∷ seen) r h = elim (Bool-cases (j == k)) [
  | inl t ↦
      let same : j ≡ k = ground arith in
      let e = Rooted-unique spans k n h.0.0 r (subst (λ x. Rooted spans x h.0.0) same h.0.1) in
      absurd (omega (arith, e, h.0.2))
  | inr t ↦ ground (arith, t, Farther-new spans k n seen r h.1)
]

Rooted-walk :
    (fuel : ℕ) (spans : List Span) (seen : List ℕ) (k n : ℕ)
    → Rooted spans k n
    → Farther spans n seen
    → unseen seen spans < fuel
    → walk fuel spans seen (some k) ≡ ends
unfolding walk
Rooted-walk zero spans seen k n r h f = absurd (omega arith)
Rooted-walk (suc fuel) spans seen k zero (top u x) h f =
    let t = Farther-new spans k zero seen (top u x) h in
    ground (arith, t, u, ap (walk fuel spans (k ∷ seen)) x)
Rooted-walk (suc fuel) spans seen k (suc n) (below {p = p} u x r) h f =
    let t = Farther-new spans k (suc n) seen (below u x r) h in
    let ih =
      Rooted-walk fuel spans (k ∷ seen) p n r
        ((suc n, below u x r, omega arith), Farther-weaken spans n seen h)
        (omega (arith, unseen-lt k seen spans u t)) in
    ground (arith, t, u, ap (walk fuel spans (k ∷ seen)) x, ih)

Known-cons : (s : Span) (spans : List Span) (k : ℕ) → Known spans k → Known (s ∷ spans) k
unfolding find_span
Known-cons s spans k h = ground (arith, h)

all-Known :
    (f : ℕ → Bool) (spans : List Span) (k : ℕ)
    → all (λ s. f s.span_id) spans ≡ true
    → Known spans k
    → f k ≡ true
unfolding find_span
all-Known f [] k h u = cc
all-Known f (s ∷ ss) k h u = elim (Bool-cases (s.span_id == k)) [
  | inl t ↦ let same : s.span_id ≡ k = ground arith in subst (λ x. f x ≡ true) same (ground arith)
  | inr t ↦ all-Known f ss k (ground arith) (ground (arith, u))
]

Known-all :
    (f : ℕ → Bool) (spans : List Span)
    → ((k : ℕ) → Known spans k → f k ≡ true)
    → all (λ s. f s.span_id) spans ≡ true
unfolding find_span
Known-all f [] h = refl
Known-all f (s ∷ ss) h =
    let first = h s.span_id (ground arith) in
    let rest = Known-all f ss (λ k u. h k (ground (arith, u))) in ground (arith, first, rest)

ends_well-ends : (w : Walk) → ends_well w ≡ true → w ≡ ends
ends_well-ends ends e = refl
ends_well-ends repeats e = cc
ends_well-ends lost e = cc
ends_well-ends out_of_fuel e = cc

-- In an acyclic list of spans every span has a way to the root, of at most as many steps as spans.
pub acyclic-Rooted :
    (spans : List Span) (k : ℕ)
    → acyclic spans ≡ true
    → Known spans k
    → (n : ℕ) × Rooted spans k n × (n ≤ length spans)
unfolding acyclic
acyclic-Rooted spans k h u =
    let w = all-Known (λ j. ends_well (walk (length spans + 1) spans [] (some j))) spans k h u in
    let r = walk-Rooted (length spans + 1) spans [] k (ends_well-ends _ w) in
    (r.0, r.1, omega (arith, r.2))

-- The check for cycles passes exactly the spans from each of which the parents lead, within the
-- list, to a span without parent; it never runs out of fuel.
pub acyclic-iff_Rooted :
    (spans : List Span)
    → ((acyclic spans ≡ true) ↔ ((k : ℕ) → Known spans k → (n : ℕ) × Rooted spans k n))
      × ((k : ℕ) → walk (length spans + 1) spans [] (some k) ≢ out_of_fuel)
unfolding acyclic
acyclic-iff_Rooted spans = (
  (
    λ h k u. let r = acyclic-Rooted spans k h u in (r.0, r.1),
    λ h.
        Known-all (λ j. ends_well (walk (length spans + 1) spans [] (some j))) spans
          λ k u.
            let r = h k u in
            ap ends_well (
              Rooted-walk (length spans + 1) spans [] k r.0 r.1 tt
                (omega (arith, unseen-le-length [] spans))),
  ),
  λ k. walk_enough (length spans + 1) spans [] (some k) (omega (arith, unseen-le-length [] spans)),
)
