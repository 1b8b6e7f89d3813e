-- ===== src/Worker/Waterfall/Pick.antt =====
-- The list of the stored spans: what a check of it sees of the spans it was picked from.
use cloud_sre_ai_agent.Prelude.{
  ◌≡◌, refl, ap, subst, ◌∙◌, ℕ, Bool, true, false, some, List, [], ◌∷◌, inl, inr, Bool-cases,
  Option-cases, arith, length, any, ◌==◌,
}
use cloud_sre_ai_agent.Worker.Waterfall.{Span, find_span, elem, ids, pick}
use cloud_sre_ai_agent.Worker.Waterfall.Tree.{Known}

pub find_span-id :
    (k : ℕ) (spans : List Span) (s : Span) → find_span k spans ≡ some s → s.span_id ≡ k
unfolding find_span
find_span-id k [] s h = cc
find_span-id k (x ∷ ss) s h = elim (Bool-cases (x.span_id == k)) [
  | inl t ↦ ground (arith, h, t)
  | inr t ↦ find_span-id k ss s (ground (arith, h, t))
]

pub Known-some :
    (spans : List Span) (k : ℕ) → Known spans k → (s : Span) × (find_span k spans ≡ some s)
Known-some spans k h = elim (Option-cases (find_span k spans)) [
  | inl e ↦ absurd (ground (arith, h, e))
  | inr (s, e) ↦ (s, e)
]

pick-cons :
    (spans : List Span) (k : ℕ) (ks : List ℕ) (s : Span)
    → find_span k spans ≡ some s
    → pick spans (k ∷ ks) ≡ s ∷ pick spans ks
unfolding pick
pick-cons spans k ks s e = ground (arith, e)

-- Each of the ids is the id of a span.
abbrev pub AllKnown : List Span → List ℕ → Type 0
AllKnown spans [] = Unit {0}
AllKnown spans (k ∷ ks) = Known spans k × AllKnown spans ks

pub all_known :
    (spans : List Span) (ks : List ℕ)
    → ((k : ℕ) → elem k ks ≡ true → Known spans k)
    → AllKnown spans ks
all_known spans [] h = tt
all_known spans (k ∷ ks) h =
    (h k (ground arith), all_known spans ks (λ j u. h j (ground (arith, u))))

pub ids-pick : (spans : List Span) (ks : List ℕ) → AllKnown spans ks → ids (pick spans ks) ≡ ks
unfolding pick
ids-pick spans [] h = refl
ids-pick spans (k ∷ ks) h =
    let s = Known-some spans k h.0 in
    ground (arith, s.1, find_span-id k spans s.0 s.1, ids-pick spans ks h.1)

pub length-pick :
    (spans : List Span) (ks : List ℕ) → AllKnown spans ks → length (pick spans ks) ≡ length ks
unfolding pick
length-pick spans [] h = refl
length-pick spans (k ∷ ks) h =
    let s = Known-some spans k h.0 in ground (arith, s.1, length-pick spans ks h.1)

pub find_span-pick :
    (spans : List Span) (ks : List ℕ) (k : ℕ)
    → AllKnown spans ks
    → elem k ks ≡ true
    → find_span k (pick spans ks) ≡ find_span k spans
unfolding find_span
find_span-pick spans [] k h m = cc
find_span-pick spans (j ∷ ks) k h m =
    let s = Known-some spans j h.0 in
    let i = find_span-id j spans s.0 s.1 in
    ap (find_span k) (pick-cons spans j ks s.0 s.1) ∙ elim (Bool-cases (j == k)) [
      | inl t ↦
          let same : j ≡ k = ground arith in
          let e = subst (λ z. find_span z spans ≡ some s.0) same s.1 in ground (arith, e, i, t)
      | inr t ↦ ground (arith, i, t, find_span-pick spans ks k h.1 (ground (arith, m, t)))
    ]

any-find_span :
    (p : Span → Bool) (spans : List Span) (k : ℕ) (s : Span)
    → any p spans ≡ false
    → find_span k spans ≡ some s
    → p s ≡ false
unfolding find_span
any-find_span p [] k s h e = cc
any-find_span p (x ∷ ss) k s h e = elim (Bool-cases (x.span_id == k)) [
  | inl t ↦
      let same : some x ≡ some s = ground (arith, e, t) in
      let back : x ≡ s = cc in subst (λ z. p z ≡ false) back (ground (arith, h))
  | inr t ↦ any-find_span p ss k s (ground (arith, h)) (ground (arith, e, t))
]

pub any-pick :
    (p : Span → Bool) (spans : List Span) (ks : List ℕ)
    → AllKnown spans ks
    → any p spans ≡ false
    → any p (pick spans ks) ≡ false
unfolding pick
any-pick p spans [] u h = refl
any-pick p spans (k ∷ ks) u h =
    let s = Known-some spans k u.0 in
    let first = any-find_span p spans k s.0 h s.1 in
    ap (any p) (pick-cons spans k ks s.0 s.1) ∙ ground (arith, first, any-pick p spans ks u.1 h)
