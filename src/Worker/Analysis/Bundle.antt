-- ===== src/Worker/Analysis/Bundle.antt =====
-- `SpecialistAnalysisWorkflow.run` of agents/specialists/workflow.py: its bundle, one specialist at a
-- time.
use cloud_sre_ai_agent.Prelude.{
  ◌≡◌, ◌≢◌, refl, ap, subst, ◌∙◌, Bool, true, false, ◌&&◌, ◌||◌, Option, none, some, List, [], ◌∷◌,
  keep, inl, inr, Bool-cases, arith, if◌then◌else◌,
}
use cloud_sre_ai_agent.Worker.Analysis.{Kind, metrics, trace, log, same_kind}
use cloud_sre_ai_agent.Worker.Analysis.Validator.{same_kind_sound}
use cloud_sre_ai_agent.Worker.Analysis.Branches.{
  order, Failure, Result, Bundle, Capabilities, has_tools, route, Attempt, Branch, is_cancelled,
  fails, succeeds, again, attempt_branch, or_again, invoke, Progress, failures_by_kind, in_order,
  finish_branch, run_branches, returned_analysis_failure_code, is_unusable, bundle_of,
}

abbrev pub has : Kind → List Kind → Bool
has k [] = false
has k (j ∷ ks) = same_kind j k || has k ks

pub same_kind_refl : (k : Kind) → same_kind k k ≡ true
same_kind_refl metrics = refl
same_kind_refl trace = refl
same_kind_refl log = refl

-- What a branch leaves of a result, and of a failure, given the failure of the discovery.
abbrev pub branch_result : Branch → Option Result
branch_result (succeeds r) = if is_unusable r.analysis then none else some r
branch_result _ = none

abbrev pub branch_failure : Kind → Branch → Option Failure → Option Failure
branch_failure k (fails c) d = some (record { specialist = k; code = c })
branch_failure k (succeeds r) d =
    if is_unusable r.analysis
    then some (record {
      specialist = k;
      code = returned_analysis_failure_code r.analysis.missing_evidence;
    })
    else d
branch_failure k _ d = d

abbrev pub has_task : Bool → Capabilities → Kind → Bool
has_task safe c k = safe && has_tools c k

-- The dictionaries, and the bundle, where each specialist is looked at by itself.
abbrev pub by_kind : Bool → Capabilities → (Kind → Attempt × Attempt) → Progress
by_kind safe c attempts = record {
  results = λ k. if has_task safe c k then branch_result (invoke k (attempts k)) else none;
  failures = λ k.
      let d = failures_by_kind c.discovery_failures k in
      if has_task safe c k then branch_failure k (invoke k (attempts k)) d else d;
}

abbrev pub bundle_by_kind : Bool → Capabilities → (Kind → Attempt × Attempt) → Bundle
bundle_by_kind safe c attempts = bundle_of (by_kind safe c attempts)

pub in_order-cong {ℓ} :
    {A : Type ℓ} (d e : Kind → Option A) (ks : List Kind)
    → ((k : Kind) → d k ≡ e k)
    → in_order d ks ≡ in_order e ks
unfolding in_order
in_order-cong d e [] h = refl
in_order-cong d e (k ∷ ks) h = ground (arith, h k, in_order-cong d e ks h)

pub has-order : (k : Kind) → has k order ≡ true
has-order metrics = refl
has-order trace = refl
has-order log = refl

has-keep : (p : Kind → Bool) (k : Kind) (ks : List Kind) → has k (keep p ks) ≡ (p k && has k ks)
has-keep p k [] = ground arith
has-keep p k (j ∷ ks) = elim (Bool-cases (same_kind j k)) [
  | inl t ↦ ground (arith, t, ap p (same_kind_sound j k t), has-keep p k ks)
  | inr t ↦ ground (arith, t, has-keep p k ks)
]

pub has-route :
    (safe : Bool) (c : Capabilities) (k : Kind) → has k (route safe c).selected ≡ has_task safe c k
unfolding route
has-route false c k = refl
has-route true c k = has-keep (has_tools c) k order ∙ ground (arith, has-order k)

second_attempt_ends : (k : Kind) (a : Attempt) → attempt_branch false k a ≢ again
unfolding attempt_branch
second_attempt_ends k Attempt.no_time e = cc
second_attempt_ends k Attempt.cancelled e = cc
second_attempt_ends k Attempt.timeout_error e = cc
second_attempt_ends k Attempt.connection_error e = cc
second_attempt_ends k Attempt.payload_too_large e = cc
second_attempt_ends k Attempt.result_invalid e = cc
second_attempt_ends k (Attempt.validation_error c) e = cc
second_attempt_ends k (Attempt.other_error c) e = ground (arith, e)
second_attempt_ends k (Attempt.returned r) e = ground (arith, e)

or_again_ends : (a b : Branch) → b ≢ again → or_again a b ≢ again
or_again_ends is_cancelled b h e = cc
or_again_ends (fails c) b h e = cc
or_again_ends (succeeds r) b h e = cc
or_again_ends again b h e = h e

pub invoke_ends : (k : Kind) (as' : Attempt × Attempt) → invoke k as' ≢ again
unfolding invoke
invoke_ends k (a, b) = or_again_ends _ _ (second_attempt_ends k b)

attempt_own :
    (first : Bool) (k : Kind) (a : Attempt) (r : Result)
    → attempt_branch first k a ≡ succeeds r
    → r.analysis.specialist ≡ k
unfolding attempt_branch
attempt_own first k Attempt.no_time r e = cc
attempt_own first k Attempt.cancelled r e = cc
attempt_own first k Attempt.timeout_error r e = cc
attempt_own first k Attempt.connection_error r e = absurd (ground (arith, e))
attempt_own first k Attempt.payload_too_large r e = cc
attempt_own first k Attempt.result_invalid r e = cc
attempt_own first k (Attempt.validation_error c) r e = cc
attempt_own first k (Attempt.other_error c) r e = absurd (ground (arith, e))
attempt_own first k (Attempt.returned s) r e =
    elim (Bool-cases (same_kind s.analysis.specialist k)) [
      | inl t ↦
          let same : succeeds s ≡ succeeds r = ground (arith, e, t) in
          let back : s ≡ r = cc in
          subst (λ z. z.analysis.specialist ≡ k) back (same_kind_sound s.analysis.specialist k t)
      | inr t ↦ absurd (ground (arith, e, t))
    ]

or_again_own :
    (k : Kind) (a b : Branch) (r : Result)
    → ((s : Result) → a ≡ succeeds s → s.analysis.specialist ≡ k)
    → ((s : Result) → b ≡ succeeds s → s.analysis.specialist ≡ k)
    → or_again a b ≡ succeeds r
    → r.analysis.specialist ≡ k
or_again_own k is_cancelled b r h i e = cc
or_again_own k (fails c) b r h i e = cc
or_again_own k (succeeds s) b r h i e = h r e
or_again_own k again b r h i e = i r e

pub invoke_own :
    (k : Kind) (as' : Attempt × Attempt) (r : Result)
    → invoke k as' ≡ succeeds r
    → r.analysis.specialist ≡ k
unfolding invoke
invoke_own k (a, b) r e = or_again_own k _ _ r (attempt_own true k a) (attempt_own false k b) e

-- What the task of a specialist writes into the dictionaries.
abbrev pub write_result : Branch → Option Result → Option Result
write_result (succeeds r) d = some r
write_result _ d = d

abbrev pub write_failure : Kind → Branch → Option Failure → Option Failure
write_failure k (fails c) d = some (record { specialist = k; code = c })
write_failure k _ d = d

-- The dictionaries after the tasks of `ks`, key by key.
abbrev pub After : (Kind → Branch) → List Kind → Progress → Progress → Type 0
After branch ks p q =
    ((j : Kind)
      → q.results j ≡ (if has j ks then write_result (branch j) (p.results j) else p.results j))
    × ((j : Kind)
        → q.failures j
          ≡ (if has j ks then write_failure j (branch j) (p.failures j) else p.failures j))

finish_branch-After :
    (branch : Kind → Branch) (k : Kind) (p : Progress) (b : Branch)
    → branch k ≡ b
    → b ≢ is_cancelled
    → b ≢ again
    → (q : Progress) × (finish_branch k b p ≡ some q) × After branch (k ∷ []) p q
unfolding finish_branch
finish_branch-After branch k p is_cancelled e h i = absurd (h refl)
finish_branch-After branch k p again e h i = absurd (i refl)
finish_branch-After branch k p (fails c) e h i = (
  _,
  refl,
  (
    λ j. elim (Bool-cases (same_kind k j)) [
      | inl t ↦ ground (arith, t, e, ap branch (same_kind_sound k j t))
      | inr t ↦ ground (arith, t)
    ],
    λ j. elim (Bool-cases (same_kind k j)) [
      | inl t ↦ ground (arith, t, e, ap branch (same_kind_sound k j t), same_kind_sound k j t)
      | inr t ↦ ground (arith, t)
    ],
  ),
)
finish_branch-After branch k p (succeeds r) e h i = (
  _,
  refl,
  (
    λ j. elim (Bool-cases (same_kind k j)) [
      | inl t ↦ ground (arith, t, e, ap branch (same_kind_sound k j t))
      | inr t ↦ ground (arith, t)
    ],
    λ j. elim (Bool-cases (same_kind k j)) [
      | inl t ↦ ground (arith, t, e, ap branch (same_kind_sound k j t))
      | inr t ↦ ground (arith, t)
    ],
  ),
)

write_result_twice :
    (b : Branch) (d : Option Result) → write_result b (write_result b d) ≡ write_result b d
write_result_twice is_cancelled d = refl
write_result_twice (fails c) d = refl
write_result_twice (succeeds r) d = refl
write_result_twice again d = refl

write_failure_twice :
    (k : Kind) (b : Branch) (d : Option Failure)
    → write_failure k b (write_failure k b d) ≡ write_failure k b d
write_failure_twice k is_cancelled d = refl
write_failure_twice k (fails c) d = refl
write_failure_twice k (succeeds r) d = refl
write_failure_twice k again d = refl

After-After :
    (branch : Kind → Branch) (k : Kind) (ks : List Kind) (p q r : Progress)
    → After branch (k ∷ []) p q
    → After branch ks q r
    → After branch (k ∷ ks) p r
After-After branch k ks p q r h i = (
  λ j. ground (arith, h.0 j, i.0 j, write_result_twice (branch j) (p.results j)),
  λ j. ground (arith, h.1 j, i.1 j, write_failure_twice j (branch j) (p.failures j)),
)

pub run_branches-After :
    (attempts : Kind → Attempt × Attempt) (ks : List Kind) (p : Progress)
    → ((k : Kind) → has k ks ≡ true → invoke k (attempts k) ≢ is_cancelled)
    → (q : Progress) × (run_branches attempts ks p ≡ some q)
      × After (λ k. invoke k (attempts k)) ks p q
unfolding run_branches
run_branches-After attempts [] p h = (p, refl, (λ j. refl, λ j. refl))
run_branches-After attempts (k ∷ ks) p h =
    let branch : Kind → Branch = λ j. invoke j (attempts j) in
    let f =
      finish_branch-After branch k p (branch k) refl (h k (ground (arith, same_kind_refl k)))
        (invoke_ends k (attempts k)) in
    let r = run_branches-After attempts ks f.0 (λ j m. h j (ground (arith, m))) in
    (
      r.0,
      ap (λ o. elim o [ none ↦ none | some q ↦ run_branches attempts ks q ]) f.1 ∙ r.1,
      After-After branch k ks p f.0 r.0 f.2 r.2,
    )
