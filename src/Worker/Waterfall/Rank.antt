-- ===== src/Worker/Waterfall/Rank.antt =====
-- The order of the candidates in normalize_trace_evidence of trace_waterfall.py, and its first trace.
use cloud_sre_ai_agent.Prelude.{
  ◌≡◌, refl, sym, ap, subst, ◌∙◌, ℕ, ◌<◌, min, true, false, Option, none, some, List, [], ◌∷◌, inl,
  inr, ◌⊎◌, Bool-cases, Option-cases, arith, ltb, if-true, if-false,
}
use cloud_sre_ai_agent.Worker.Waterfall.{
  InputTrace, CandidateTrace, StoredTrace, ranks_above, best_of, candidates, validated_candidate,
  choose, normalize_trace_evidence, truncate,
}
use cloud_sre_ai_agent.Worker.Waterfall.Attributes.{Checks}

not_above_trans :
    (score : CandidateTrace → ℕ) (a b c : CandidateTrace)
    → ranks_above score a b ≡ false
    → ranks_above score b c ≡ false
    → ranks_above score a c ≡ false
unfolding ranks_above
not_above_trans score a b c h k = ground arith

above_asym :
    (score : CandidateTrace → ℕ) (a b : CandidateTrace)
    → ranks_above score a b ≡ true
    → ranks_above score b a ≡ false
unfolding ranks_above
above_asym score a b h = ground arith

not_above_refl : (score : CandidateTrace → ℕ) (a : CandidateTrace) → ranks_above score a a ≡ false
unfolding ranks_above
not_above_refl score a = ground arith

-- One of the candidates.
abbrev pub Among : CandidateTrace → List CandidateTrace → Type 0
Among c [] = ⊥
Among c (d ∷ ds) = (c ≡ d) ⊎ Among c ds

module _ (score : CandidateTrace → ℕ) (c d : CandidateTrace) (ds : List CandidateTrace) where
  best_of_up : ranks_above score d c ≡ true → best_of score d ds ≡ best_of score c (d ∷ ds)
  unfolding best_of
  best_of_up t = ap (λ z. best_of score z ds) (sym (if-true (ranks_above score d c) d c t))

  best_of_stay : ranks_above score d c ≡ false → best_of score c ds ≡ best_of score c (d ∷ ds)
  unfolding best_of
  best_of_stay t = ap (λ z. best_of score z ds) (sym (if-false (ranks_above score d c) d c t))

best_of-Among :
    (score : CandidateTrace → ℕ) (c : CandidateTrace) (ds : List CandidateTrace)
    → Among (best_of score c ds) (c ∷ ds)
unfolding best_of
best_of-Among score c [] = inl refl
best_of-Among score c (d ∷ ds) = elim (Bool-cases (ranks_above score d c)) [
  | inl t ↦
      subst (λ z. Among z (c ∷ d ∷ ds)) (best_of_up score c d ds t) (inr (best_of-Among score d ds))
  | inr t ↦
      subst (λ z. Among z (c ∷ d ∷ ds)) (best_of_stay score c d ds t)
        (elim (best_of-Among score c ds) [ inl e ↦ inl e | inr m ↦ inr (inr m) ])
]

-- A candidate is not above the best one: neither the first,
best_of-first :
    (score : CandidateTrace → ℕ) (c : CandidateTrace) (ds : List CandidateTrace)
    → ranks_above score c (best_of score c ds) ≡ false
unfolding best_of
best_of-first score c [] = not_above_refl score c
best_of-first score c (d ∷ ds) = elim (Bool-cases (ranks_above score d c)) [
  | inl t ↦
      subst (λ z. ranks_above score c z ≡ false) (best_of_up score c d ds t)
        (not_above_trans score c d (best_of score d ds) (above_asym score d c t)
          (best_of-first score d ds))
  | inr t ↦
      subst (λ z. ranks_above score c z ≡ false) (best_of_stay score c d ds t)
        (best_of-first score c ds)
]

-- nor one of the others.
best_of-others :
    (score : CandidateTrace → ℕ) (c : CandidateTrace) (ds : List CandidateTrace)
    (e : CandidateTrace)
    → Among e ds
    → ranks_above score e (best_of score c ds) ≡ false
best_of-others score c [] e m = absurd m
best_of-others score c (d ∷ ds) e m = elim (Bool-cases (ranks_above score d c)) [
  | inl t ↦
      subst (λ z. ranks_above score e z ≡ false) (best_of_up score c d ds t)
        (elim m [
          | inl s ↦
              subst (λ z. ranks_above score z (best_of score d ds) ≡ false) (sym s)
                (best_of-first score d ds)
          | inr n ↦ best_of-others score d ds e n
        ])
  | inr t ↦
      subst (λ z. ranks_above score e z ≡ false) (best_of_stay score c d ds t)
        (elim m [
          | inl s ↦
              subst (λ z. ranks_above score z (best_of score c ds) ≡ false) (sym s)
                (not_above_trans score d c (best_of score c ds) t (best_of-first score c ds))
          | inr n ↦ best_of-others score c ds e n
        ])
]

candidates-cons :
    (k : Checks) (t : InputTrace) (ts : List InputTrace) (o : Option CandidateTrace)
    → validated_candidate k t ≡ o
    → candidates k (t ∷ ts) ≡ elim o [ none ↦ candidates k ts | some c ↦ c ∷ candidates k ts ]
unfolding candidates
candidates-cons k t ts o e =
    ap (λ q. elim q [ none ↦ candidates k ts | some c ↦ c ∷ candidates k ts ]) e

-- A candidate is what a trace of the input was validated to.
candidates-Among :
    (k : Checks) (ts : List InputTrace) (c : CandidateTrace)
    → Among c (candidates k ts)
    → (t : InputTrace) × (validated_candidate k t ≡ some c)
unfolding candidates
candidates-Among k [] c m = absurd m
candidates-Among k (t ∷ ts) c m = elim (Option-cases (validated_candidate k t)) [
  | inl e ↦ candidates-Among k ts c (subst (Among c) (candidates-cons k t ts none e) m)
  | inr (d, e) ↦ elim (subst (Among c) (candidates-cons k t ts (some d) e) m) [
    | inl s ↦ (t, e ∙ ap some (sym s))
    | inr n ↦ candidates-Among k ts c n
  ]
]

choose-best :
    (score : CandidateTrace → ℕ) (n : ℕ) (cs : List CandidateTrace) (st : StoredTrace)
    → choose score n cs ≡ some st
    → (c : CandidateTrace) × Among c cs
      × ((d : CandidateTrace) → Among d cs → ranks_above score d c ≡ false)
      × (st ≡ truncate c (min n 100))
choose-best score n [] st e = cc
choose-best score n (c ∷ cs) st e = (
  best_of score c cs,
  best_of-Among score c cs,
  λ d m. elim m [
    | inl s ↦
        subst (λ z. ranks_above score z (best_of score c cs) ≡ false) (sym s)
          (best_of-first score c cs)
    | inr o ↦ best_of-others score c cs d o
  ],
  cc,
)

-- A result is asked for with a limit from 1 on, and is the truncation, to the limit and to at most
-- 100 spans, of a valid trace of the input above which no valid trace of the input ranks.
pub normalize_trace_evidence_best :
    (k : Checks) (score : CandidateTrace → ℕ) (ts : List InputTrace) (n : ℕ) (st : StoredTrace)
    → normalize_trace_evidence k score ts n ≡ some st
    → (0 < n)
      × ((t : InputTrace) × (c : CandidateTrace) × (validated_candidate k t ≡ some c)
          × Among c (candidates k ts)
          × (st ≡ truncate c (min n 100))
          × ((d : CandidateTrace) → Among d (candidates k ts) → ranks_above score d c ≡ false))
unfolding normalize_trace_evidence
normalize_trace_evidence_best k score ts n st e = elim (Bool-cases (ltb n 1)) [
  | inl t ↦ let never : none ≡ some st = ground (arith, e, t) in cc
  | inr t ↦
      let b = choose-best score n (candidates k ts) st (sym (if-false (ltb n 1) _ _ t) ∙ e) in
      let o = candidates-Among k ts b.0 b.1 in (ground arith, (o.0, b.0, o.1, b.1, b.3, b.2))
]
