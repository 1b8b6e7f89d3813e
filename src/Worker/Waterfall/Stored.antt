-- ===== src/Worker/Waterfall/Stored.antt =====
-- What `_validated_candidate` of trace_waterfall.py lets pass, and what is stored of it.
use mathlib.Core.Option
use cloud_sre_ai_agent.Prelude.{
  ◌≡◌, ◌≢◌, refl, sym, ap, subst, ◌∙◌, ℕ, zero, suc, ◌+◌, Bool, true, false, Option, none, some,
  List, [], ◌∷◌, inl, inr, Bool-cases, Option-cases, arith, length, any, all, keep, map, is_some,
  ltb, ◌==◌, if-true, if-false,
}
use cloud_sre_ai_agent.Worker.Waterfall.Attributes.{Checks}
use cloud_sre_ai_agent.Worker.Waterfall.{
  Span, InputTrace, CandidateTrace, find_span, parent_of, elem, ids, distinct, acyclic, walk,
  ends_well, is_root, the_root, or_default, last_end, one_ms, span_end, normalized, candidate_of,
  is_valid_trace, rooted_candidate, validated_candidate,
}
use cloud_sre_ai_agent.Worker.Waterfall.Tree.{Known}
use cloud_sre_ai_agent.Worker.Waterfall.Selection.{IsCandidate, elem-ids}

module _ (c : Checks) where
  find_span-normalized :
      (k : ℕ) (spans : List Span)
      → find_span k (map (normalized c) spans) ≡ Option.map (normalized c) (find_span k spans)
  unfolding find_span
  find_span-normalized k [] = refl
  find_span-normalized k (s ∷ ss) = ground (arith, find_span-normalized k ss)

  ids-normalized : (spans : List Span) → ids (map (normalized c) spans) ≡ ids spans
  ids-normalized [] = refl
  ids-normalized (s ∷ ss) = ap (λ xs. s.span_id ∷ xs) (ids-normalized ss)

  length-normalized : (spans : List Span) → length (map (normalized c) spans) ≡ length spans
  length-normalized [] = refl
  length-normalized (s ∷ ss) = ap suc (length-normalized ss)

  parent_of-normalized :
      (spans : List Span) (k : ℕ) → parent_of (map (normalized c) spans) k ≡ parent_of spans k
  unfolding parent_of
  parent_of-normalized spans k = elim (Option-cases (find_span k spans)) [
    | inl e ↦ ground (arith, find_span-normalized k spans, e)
    | inr (s, e) ↦ ground (arith, find_span-normalized k spans, e)
  ]

  known_normalized :
      (spans : List Span) (k : ℕ)
      → is_some (find_span k (map (normalized c) spans)) ≡ is_some (find_span k spans)
  known_normalized spans k = elim (Option-cases (find_span k spans)) [
    | inl e ↦ ground (arith, find_span-normalized k spans, e)
    | inr (s, e) ↦ ground (arith, find_span-normalized k spans, e)
  ]

  walk-normalized :
      (f : ℕ) (spans : List Span) (seen : List ℕ) (o : Option ℕ)
      → walk f (map (normalized c) spans) seen o ≡ walk f spans seen o
  unfolding walk
  walk-normalized f spans seen none = refl
  walk-normalized zero spans seen (some k) = refl
  walk-normalized (suc f) spans seen (some k) =
      let e = parent_of-normalized spans k in
      let ih = walk-normalized f spans (k ∷ seen) (parent_of spans k) in
      let next : walk f (map (normalized c) spans) (k ∷ seen)
            (parent_of (map (normalized c) spans) k)
          ≡ walk f spans (k ∷ seen) (parent_of spans k) =
        ap (walk f (map (normalized c) spans) (k ∷ seen)) e ∙ ih in
      ground (arith, next, known_normalized spans k)

  all-map :
      (p : ℕ → Bool) (spans : List Span)
      → all (λ s. p s.span_id) (map (normalized c) spans) ≡ all (λ s. p s.span_id) spans
  all-map p [] = refl
  all-map p (s ∷ ss) = ground (arith, all-map p ss)

  all-cong :
      (p q : ℕ → Bool) (spans : List Span)
      → ((k : ℕ) → p k ≡ q k)
      → all (λ s. p s.span_id) spans ≡ all (λ s. q s.span_id) spans
  all-cong p q [] h = refl
  all-cong p q (s ∷ ss) h = ground (arith, h s.span_id, all-cong p q ss h)

  acyclic-normalized : (spans : List Span) → acyclic (map (normalized c) spans) ≡ acyclic spans
  unfolding acyclic
  acyclic-normalized spans =
      let fuel = length (map (normalized c) spans) + 1 in
      all-map (λ k. ends_well (walk fuel (map (normalized c) spans) [] (some k))) spans
      ∙ all-cong _ _ spans λ k. ap ends_well (
          walk-normalized fuel spans [] (some k)
          ∙ ap (λ n. walk (n + 1) spans [] (some k)) (length-normalized spans))

  late_normalized :
      (d : ℕ) (spans : List Span)
      → any (λ s. ltb d (span_end s)) (map (normalized c) spans)
        ≡ any (λ s. ltb d (span_end s)) spans
  late_normalized d [] = refl
  late_normalized d (s ∷ ss) = ground (arith, late_normalized d ss)

some_same : (a b : CandidateTrace) → some a ≡ some b → a ≡ b
some_same a b e = cc

-- The only span without parent.
no_root :
    (spans : List Span) (k : ℕ) → keep is_root spans ≡ [] → Known spans k → parent_of spans k ≢ none
unfolding find_span parent_of
no_root [] k h u e = cc
no_root (s ∷ ss) k h u e = elim (Bool-cases (s.span_id == k)) [
  | inl t ↦ ground (arith, h, e, t)
  | inr t ↦ no_root ss k (ground (arith, h)) (ground (arith, u, t)) (ground (arith, e, t))
]

abbrev IsRoot : List Span → ℕ → Type 0
IsRoot spans r =
    Known spans r
    × (parent_of spans r ≡ none)
    × ((k : ℕ) → Known spans k → parent_of spans k ≡ none → k ≡ r)

the_root-cons :
    (x : Span) (xs : List Span) (r : ℕ) → the_root (x ∷ xs) ≡ some r → (xs ≡ []) × (x.span_id ≡ r)
the_root-cons x [] r h = (refl, cc)
the_root-cons x (y ∷ ys) r h = cc

IsRoot-here :
    (s : Span) (ss : List Span) (r : ℕ)
    → is_root s ≡ true
    → keep is_root ss ≡ []
    → s.span_id ≡ r
    → IsRoot (s ∷ ss) r
unfolding find_span parent_of
IsRoot-here s ss r t none_below same = (
  ground (arith, same),
  ground (arith, same, t),
  λ k u e. elim (Bool-cases (s.span_id == k)) [
    | inl x ↦ ground (arith, same, x)
    | inr x ↦ absurd (no_root ss k none_below (ground (arith, u, x)) (ground (arith, e, x)))
  ],
)

IsRoot-below :
    (s : Span) (ss : List Span) (r : ℕ)
    → is_root s ≡ false
    → elem s.span_id (ids ss) ≡ false
    → IsRoot ss r
    → IsRoot (s ∷ ss) r
unfolding find_span parent_of
IsRoot-below s ss r t new h = elim (Bool-cases (s.span_id == r)) [
  | inl x ↦
      let same : s.span_id ≡ r = ground arith in
      absurd (ground (arith, new, elem-ids r ss, h.0, ap (λ z. elem z (ids ss)) same))
  | inr x ↦ (
    ground (arith, h.0, x),
    ground (arith, h.1, x),
    λ k u e. elim (Bool-cases (s.span_id == k)) [
      | inl y ↦ absurd (ground (arith, e, y, t))
      | inr y ↦ h.2 k (ground (arith, u, y)) (ground (arith, e, y))
    ],
  )
]

the_root-IsRoot :
    (spans : List Span) (r : ℕ)
    → distinct (ids spans) ≡ true
    → the_root (keep is_root spans) ≡ some r
    → IsRoot spans r
unfolding distinct
the_root-IsRoot [] r d h = cc
the_root-IsRoot (s ∷ ss) r d h = elim (Bool-cases (is_root s)) [
  | inl t ↦
      let e =
        the_root-cons s (keep is_root ss) r
          (sym (ap the_root (if-true (is_root s) (s ∷ keep is_root ss) (keep is_root ss) t)) ∙ h) in
      IsRoot-here s ss r t e.0 e.1
  | inr t ↦
      let e =
        sym (ap the_root (if-false (is_root s) (s ∷ keep is_root ss) (keep is_root ss) t)) ∙ h in
      IsRoot-below s ss r t (ground (arith, d)) (the_root-IsRoot ss r (ground (arith, d)) e)
]

-- What `_validated_candidate` checked of the candidate that it returns.
pub record PassedChecks (k : Checks) (t : InputTrace) (c : CandidateTrace) : Type 0 where
  pub candidate : IsCandidate c
  pub same_spans : c.spans ≡ map (normalized k) t.spans
  pub in_time : any (λ s. ltb (c.duration_ms + one_ms) (span_end s)) c.spans ≡ false

accepted :
    (k : Checks) (t : InputTrace) (duration root : ℕ)
    → the_root (keep is_root t.spans) ≡ some root
    → is_valid_trace t.spans duration ≡ true
    → PassedChecks k t (candidate_of k t duration root)
unfolding is_valid_trace
accepted k t duration root e h =
    let d : distinct (ids t.spans) ≡ true = ground arith in
    let r = the_root-IsRoot t.spans root d e in
    record {
      candidate = record {
        once = ap distinct (ids-normalized k t.spans) ∙ d;
        rooted = acyclic-normalized k t.spans ∙ ground arith;
        root_known = known_normalized k t.spans root ∙ r.0;
        root_top = parent_of-normalized k t.spans root ∙ r.1;
        root_only = λ j u x.
            r.2 j (sym (known_normalized k t.spans j) ∙ u)
              (sym (parent_of-normalized k t.spans j) ∙ x);
      };
      same_spans = refl;
      in_time = late_normalized k (duration + one_ms) t.spans ∙ ground arith;
    }

rooted_candidate-PassedChecks :
    (k : Checks) (t : InputTrace) (duration : ℕ) (o : Option ℕ) (c : CandidateTrace)
    → the_root (keep is_root t.spans) ≡ o
    → rooted_candidate k t duration o ≡ some c
    → PassedChecks k t c
unfolding rooted_candidate
rooted_candidate-PassedChecks k t duration none c e h = cc
rooted_candidate-PassedChecks k t duration (some root) c e h =
    elim (Bool-cases (is_valid_trace t.spans duration)) [
      | inl v ↦
          let same : some (candidate_of k t duration root) ≡ some c =
            sym (if-true (is_valid_trace t.spans duration) _ _ v) ∙ h in
          subst (PassedChecks k t) (some_same _ _ same) (accepted k t duration root e v)
      | inr v ↦
          let never : none ≡ some c = sym (if-false (is_valid_trace t.spans duration) _ _ v) ∙ h in
          cc
    ]

pub validated_candidate-PassedChecks :
    (k : Checks) (t : InputTrace) (c : CandidateTrace)
    → validated_candidate k t ≡ some c
    → PassedChecks k t c
unfolding validated_candidate
validated_candidate-PassedChecks k t c h =
    rooted_candidate-PassedChecks k t (or_default t.duration_ms (last_end t.spans))
      (the_root (keep is_root t.spans)) c refl h
