-- ===== src/Worker/Analysis/Unusable.antt =====
-- `normalize_specialist_analysis_bundle` of agents/specialists/workflow.py, one specialist at a time.
use cloud_sre_ai_agent.Prelude.{
  ◌≡◌, refl, sym, ap, subst, ◌∙◌, Option, none, some, List, [], ◌∷◌, inl, inr, Bool-cases,
  Option-cases, arith, if◌then◌else◌,
}
use cloud_sre_ai_agent.Worker.Analysis.{Kind, same_kind}
use cloud_sre_ai_agent.Worker.Analysis.Validator.{same_kind_sound}
use cloud_sre_ai_agent.Worker.Analysis.Branches.{
  order, Failure, Result, Progress, set, failures_by_kind, in_order, returned_analysis_failure_code,
  is_unusable, sort_results, bundle_of, normalize_bundle,
}
use cloud_sre_ai_agent.Worker.Analysis.Bundle.{has, has-order, in_order-cong}

pub failures_by_kind_own :
    (fs : List Failure) (k : Kind) (f : Failure) → failures_by_kind fs k ≡ some f → f.specialist ≡ k
unfolding failures_by_kind
failures_by_kind_own [] k f e = cc
failures_by_kind_own (x ∷ fs) k f e = elim (Option-cases (failures_by_kind fs k)) [
  | inl n ↦ elim (Bool-cases (same_kind x.specialist k)) [
    | inl t ↦
        let same : some x ≡ some f = ground (arith, e, n, t) in
        let back : x ≡ f = cc in
        subst (λ z. z.specialist ≡ k) back (same_kind_sound x.specialist k t)
    | inr t ↦ absurd (ground (arith, e, n, t))
  ]
  | inr (y, n) ↦
      let same : some y ≡ some f = ground (arith, e, n) in failures_by_kind_own fs k f (n ∙ same)
]

-- A dictionary that is listed in order and read back.
pub failures_by_kind-in_order :
    (d : Kind → Option Failure) (ks : List Kind) (j : Kind)
    → ((k : Kind) (f : Failure) → d k ≡ some f → f.specialist ≡ k)
    → failures_by_kind (in_order d ks) j ≡ (if has j ks then d j else none)
unfolding failures_by_kind in_order
failures_by_kind-in_order d [] j own = refl
failures_by_kind-in_order d (k ∷ ks) j own =
    let ih = failures_by_kind-in_order d ks j own in
    elim (Option-cases (d k)) [
      | inl n ↦ elim (Bool-cases (same_kind k j)) [
        | inl t ↦ ground (arith, n, ih, t, ap d (same_kind_sound k j t))
        | inr t ↦ ground (arith, n, ih, t)
      ]
      | inr (f, n) ↦ elim (Bool-cases (same_kind k j)) [
        | inl t ↦ ground (
          arith,
          n,
          ih,
          t,
          ap d (same_kind_sound k j t),
          own k f n,
          ap (λ z. same_kind z j) (own k f n),
        )
        | inr t ↦ ground (arith, n, ih, t, ap (λ z. same_kind z j) (own k f n))
      ]
    ]

abbrev pub usable_result : Option Result → Option Result → Option Result
usable_result none d = d
usable_result (some r) d = if is_unusable r.analysis then d else some r

abbrev pub unusable_failure : Kind → Option Result → Option Failure → Option Failure
unusable_failure k none d = d
unusable_failure k (some r) d =
    if is_unusable r.analysis
    then some (record {
      specialist = k;
      code = returned_analysis_failure_code r.analysis.missing_evidence;
    })
    else d

abbrev Sorted : (Kind → Option Result) → List Kind → Progress → Progress → Type 0
Sorted d ks p q =
    ((j : Kind)
      → q.results j ≡ (if has j ks then usable_result (d j) (p.results j) else p.results j))
    × ((j : Kind)
        → q.failures j
          ≡ (if has j ks then unusable_failure j (d j) (p.failures j) else p.failures j))

usable_result_twice :
    (o d : Option Result) → usable_result o (usable_result o d) ≡ usable_result o d
usable_result_twice none d = refl
usable_result_twice (some r) d = ground arith

unusable_failure_twice :
    (k : Kind) (o : Option Result) (d : Option Failure)
    → unusable_failure k o (unusable_failure k o d) ≡ unusable_failure k o d
unusable_failure_twice k none d = refl
unusable_failure_twice k (some r) d = ground arith

sort_one : Result → Progress → Progress
sort_one r p =
    if is_unusable r.analysis
    then record p {
      failures = set p.failures r.analysis.specialist (record {
        specialist = r.analysis.specialist;
        code = returned_analysis_failure_code r.analysis.missing_evidence;
      });
    }
    else record p { results = set p.results r.analysis.specialist r }

sort_one-Sorted :
    (d : Kind → Option Result) (k : Kind) (r : Result) (p : Progress)
    → d k ≡ some r
    → r.analysis.specialist ≡ k
    → Sorted d (k ∷ []) p (sort_one r p)
unfolding sort_one
sort_one-Sorted d k r p e own = (
  λ j. elim (Bool-cases (same_kind k j)) [
    | inl t ↦ ground (arith, t, e, ap d (same_kind_sound k j t), ap (λ z. same_kind z j) own)
    | inr t ↦ ground (arith, t, ap (λ z. same_kind z j) own)
  ],
  λ j. elim (Bool-cases (same_kind k j)) [
    | inl t ↦ ground (
      arith,
      t,
      e,
      ap d (same_kind_sound k j t),
      ap (λ z. same_kind z j) own,
      own,
      same_kind_sound k j t,
    )
    | inr t ↦ ground (arith, t, ap (λ z. same_kind z j) own)
  ],
)

Sorted-Sorted :
    (d : Kind → Option Result) (k : Kind) (ks : List Kind) (p q r : Progress)
    → Sorted d (k ∷ []) p q
    → Sorted d ks q r
    → Sorted d (k ∷ ks) p r
Sorted-Sorted d k ks p q r h i = (
  λ j. ground (arith, h.0 j, i.0 j, usable_result_twice (d j) (p.results j)),
  λ j. ground (arith, h.1 j, i.1 j, unusable_failure_twice j (d j) (p.failures j)),
)

-- A specialist without a result changes nothing.
Sorted-skip :
    (d : Kind → Option Result) (k : Kind) (ks : List Kind) (p q : Progress)
    → d k ≡ none
    → Sorted d ks p q
    → Sorted d (k ∷ ks) p q
Sorted-skip d k ks p q e h = (
  λ j. elim (Bool-cases (same_kind k j)) [
    | inl t ↦ ground (arith, t, e, ap d (same_kind_sound k j t), h.0 j)
    | inr t ↦ ground (arith, t, h.0 j)
  ],
  λ j. elim (Bool-cases (same_kind k j)) [
    | inl t ↦ ground (arith, t, e, ap d (same_kind_sound k j t), h.1 j)
    | inr t ↦ ground (arith, t, h.1 j)
  ],
)

in_order-none :
    (d : Kind → Option Result) (k : Kind) (ks : List Kind)
    → d k ≡ none
    → in_order d (k ∷ ks) ≡ in_order d ks
unfolding in_order
in_order-none d k ks e = ground (arith, e)

in_order-some :
    (d : Kind → Option Result) (k : Kind) (ks : List Kind) (r : Result)
    → d k ≡ some r
    → in_order d (k ∷ ks) ≡ r ∷ in_order d ks
unfolding in_order
in_order-some d k ks r e = ground (arith, e)

sort_results-Sorted :
    (d : Kind → Option Result) (ks : List Kind) (p : Progress)
    → ((k : Kind) (r : Result) → d k ≡ some r → r.analysis.specialist ≡ k)
    → Sorted d ks p (sort_results (in_order d ks) p)
unfolding sort_results in_order sort_one
sort_results-Sorted d [] p own = (λ j. refl, λ j. refl)
sort_results-Sorted d (k ∷ ks) p own = elim (Option-cases (d k)) [
  | inl e ↦
      subst (λ rs. Sorted d (k ∷ ks) p (sort_results rs p)) (sym (in_order-none d k ks e))
        (Sorted-skip d k ks p (sort_results (in_order d ks) p) e (sort_results-Sorted d ks p own))
  | inr (r, e) ↦
      subst (λ rs. Sorted d (k ∷ ks) p (sort_results rs p)) (sym (in_order-some d k ks r e))
        (Sorted-Sorted d k ks p (sort_one r p) (sort_results (in_order d ks) (sort_one r p))
          (sort_one-Sorted d k r p e (own k r e)) (sort_results-Sorted d ks (sort_one r p) own))
]

-- What the normalization makes of a bundle that is listed in order.
pub normalize_bundle-bundle_of :
    (p : Progress)
    → ((k : Kind) (r : Result) → p.results k ≡ some r → r.analysis.specialist ≡ k)
    → ((k : Kind) (f : Failure) → p.failures k ≡ some f → f.specialist ≡ k)
    → normalize_bundle (bundle_of p)
      ≡ bundle_of (record {
        results = λ k. usable_result (p.results k) none;
        failures = λ k. unusable_failure k (p.results k) (p.failures k);
      })
unfolding normalize_bundle
normalize_bundle-bundle_of p own_r own_f =
    let start : Progress = record {
      results = λ k. none;
      failures = failures_by_kind (in_order p.failures order);
    } in
    let s = sort_results-Sorted p.results order start own_r in
    let rs =
      in_order-cong (sort_results (in_order p.results order) start).results
        (λ k. usable_result (p.results k) none) order (λ k. ground (arith, s.0 k, has-order k)) in
    let fs =
      in_order-cong (sort_results (in_order p.results order) start).failures
        (λ k. unusable_failure k (p.results k) (p.failures k)) order
        (λ k.
          ground (arith, s.1 k, has-order k, failures_by_kind-in_order p.failures order k own_f)) in
    ap
      (λ z. record {
        results = z;
        failures = in_order (sort_results (in_order p.results order) start).failures order;
      })
      rs
    ∙ ap
        (λ z. record {
          results = in_order (λ k. usable_result (p.results k) none) order;
          failures = z;
        })
        fs
