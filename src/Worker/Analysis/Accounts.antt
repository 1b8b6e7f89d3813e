-- ===== src/Worker/Analysis/Accounts.antt =====
-- The bundle of `SpecialistAnalysisWorkflow.run`: each selected specialist is accounted for once.
use cloud_sre_ai_agent.Prelude.{
  ◌≡◌, ◌≢◌, refl, sym, ap, subst, ◌∙◌, Bool, true, false, not, ◌&&◌, Option, none, some, List, [],
  ◌∷◌, inl, inr, Bool-cases, Option-cases, is_some, any, all, arith, if-true,
}
use cloud_sre_ai_agent.Worker.Analysis.{Kind, same_kind}
use cloud_sre_ai_agent.Worker.Analysis.Validator.{same_kind_sound}
use cloud_sre_ai_agent.Worker.Analysis.Branches.{
  order, Failure, Result, Bundle, Capabilities, Attempt, Branch, is_cancelled, fails, succeeds,
  again, invoke, failures_by_kind, in_order, is_unusable, run_workflow,
}
use cloud_sre_ai_agent.Worker.Analysis.Bundle.{
  has, has-order, branch_result, branch_failure, has_task, by_kind, bundle_by_kind, invoke_own,
  invoke_ends,
}
use cloud_sre_ai_agent.Worker.Analysis.Unusable.{failures_by_kind_own}
use cloud_sre_ai_agent.Worker.Analysis.Workflow.{run_workflow_by_kind}

-- Whether the list has an element of the specialist.
any-in_order {ℓ} :
    {A : Type ℓ} (kind : A → Kind) (d : Kind → Option A) (k : Kind) (ks : List Kind)
    → ((j : Kind) (a : A) → d j ≡ some a → kind a ≡ j)
    → any (λ a. same_kind (kind a) k) (in_order d ks) ≡ (has k ks && is_some (d k))
unfolding in_order
any-in_order kind d k [] own = refl
any-in_order kind d k (j ∷ ks) own =
    let ih = any-in_order kind d k ks own in
    elim (Option-cases (d j)) [
      | inl e ↦ elim (Bool-cases (same_kind j k)) [
        | inl t ↦ ground (arith, e, t, ih, ap d (same_kind_sound j k t))
        | inr t ↦ ground (arith, e, t, ih)
      ]
      | inr (a, e) ↦ elim (Bool-cases (same_kind j k)) [
        | inl t ↦
            ground
              (arith, e, t, ih, ap d (same_kind_sound j k t), ap (λ z. same_kind z k) (own j a e))
        | inr t ↦ ground (arith, e, t, ih, ap (λ z. same_kind z k) (own j a e))
      ]
    ]

all-in_order {ℓ} :
    {A : Type ℓ} (p : A → Bool) (d : Kind → Option A) (ks : List Kind)
    → ((j : Kind) (a : A) → d j ≡ some a → p a ≡ true)
    → all p (in_order d ks) ≡ true
unfolding in_order
all-in_order p d [] h = refl
all-in_order p d (j ∷ ks) h =
    let ih = all-in_order p d ks h in
    elim (Option-cases (d j)) [
      | inl e ↦ ground (arith, e, ih)
      | inr (a, e) ↦ ground (arith, e, ih, h j a e)
    ]

branch_result_own :
    (k : Kind) (b : Branch) (r : Result)
    → ((s : Result) → b ≡ succeeds s → s.analysis.specialist ≡ k)
    → branch_result b ≡ some r
    → (r.analysis.specialist ≡ k) × (is_unusable r.analysis ≡ false)
branch_result_own k is_cancelled r h e = cc
branch_result_own k (fails c) r h e = cc
branch_result_own k again r h e = cc
branch_result_own k (succeeds s) r h e = elim (Bool-cases (is_unusable s.analysis)) [
  | inl t ↦ absurd (ground (arith, e, t))
  | inr t ↦
      let same : some s ≡ some r = ground (arith, e, t) in
      let back : s ≡ r = cc in
      (h r (ap succeeds back), subst (λ z. is_unusable z.analysis ≡ false) back t)
]

some_back : (a b : Failure) → some a ≡ some b → a ≡ b
some_back a b e = cc

branch_failure_own :
    (k : Kind) (b : Branch) (d : Option Failure) (f : Failure)
    → ((g : Failure) → d ≡ some g → g.specialist ≡ k)
    → branch_failure k b d ≡ some f
    → f.specialist ≡ k
branch_failure_own k is_cancelled d f h e = h f e
branch_failure_own k again d f h e = h f e
branch_failure_own k (fails c) d f h e =
    let back : record { specialist = k; code = c } ≡ f = cc in sym (ap (λ z. z.specialist) back)
branch_failure_own k (succeeds s) d f h e = elim (Bool-cases (is_unusable s.analysis)) [
  | inl t ↦
      let same : some _ ≡ some f = sym (if-true (is_unusable s.analysis) _ d t) ∙ e in
      let back = some_back _ f same in sym (ap (λ z. z.specialist) back)
  | inr t ↦ h f (ground (arith, e, t))
]

-- A branch that ended gives a result or a failure, and not both.
either_or :
    (k : Kind) (b : Branch) (d : Option Failure)
    → b ≢ is_cancelled
    → b ≢ again
    → d ≡ none
    → is_some (branch_result b) ≡ not (is_some (branch_failure k b d))
either_or k is_cancelled d h i e = absurd (h refl)
either_or k again d h i e = absurd (i refl)
either_or k (fails c) d h i e = refl
either_or k (succeeds s) d h i e = elim (Bool-cases (is_unusable s.analysis)) [
  | inl t ↦ ground (arith, t)
  | inr t ↦ ground (arith, t, e)
]

module _ (safe : Bool) (c : Capabilities) (attempts : Kind → Attempt × Attempt) where
  result_own :
      (k : Kind) (r : Result)
      → (by_kind safe c attempts).results k ≡ some r
      → (r.analysis.specialist ≡ k) × (is_unusable r.analysis ≡ false)
  result_own k r e = elim (Bool-cases (has_task safe c k)) [
    | inl t ↦
        branch_result_own k (invoke k (attempts k)) r (invoke_own k (attempts k))
          (ground (arith, e, t))
    | inr t ↦ absurd (ground (arith, e, t))
  ]

  failure_own :
      (k : Kind) (f : Failure) → (by_kind safe c attempts).failures k ≡ some f → f.specialist ≡ k
  failure_own k f e =
      let d = failures_by_kind c.discovery_failures k in
      elim (Bool-cases (has_task safe c k)) [
        | inl t ↦
            branch_failure_own k (invoke k (attempts k)) d f
              (failures_by_kind_own c.discovery_failures k) (ground (arith, e, t))
        | inr t ↦ failures_by_kind_own c.discovery_failures k f (ground (arith, e, t))
      ]

abbrev pub has_result : Kind → Bundle → Bool
has_result k b = any (λ r. same_kind r.analysis.specialist k) b.results

abbrev pub has_failure : Kind → Bundle → Bool
has_failure k b = any (λ f. same_kind f.specialist k) b.failures

-- Where the tasks of exactly the selected specialists end, none is cancelled, and the discovery did
-- not fail for a selected specialist, the workflow returns a bundle in which each selected specialist
-- has either a result or a failure, and no analysis is FAILED or without observations.
pub run_workflow_accounts :
    (safe : Bool) (c : Capabilities) (attempts : Kind → Attempt × Attempt) (ended : List Kind)
    → ((k : Kind) → has k ended ≡ has_task safe c k)
    → ((k : Kind) → has_task safe c k ≡ true → invoke k (attempts k) ≢ is_cancelled)
    → ((k : Kind) → has_task safe c k ≡ true → failures_by_kind c.discovery_failures k ≡ none)
    → (b : Bundle) × (run_workflow safe c attempts ended ≡ some b)
      × ((k : Kind) → has_task safe c k ≡ true → has_result k b ≡ not (has_failure k b))
      × (all (λ r. not (is_unusable r.analysis)) b.results ≡ true)
run_workflow_accounts safe c attempts ended same calm found =
    let p = by_kind safe c attempts in
    (
      bundle_by_kind safe c attempts,
      run_workflow_by_kind safe c attempts ended same calm,
      λ k t.
          let one =
            either_or k (invoke k (attempts k)) (failures_by_kind c.discovery_failures k) (calm k t)
              (invoke_ends k (attempts k)) (found k t) in
          let r =
            any-in_order (λ r. r.analysis.specialist) p.results k order
              (λ j a e. (result_own safe c attempts j a e).0) in
          let f =
            any-in_order (λ g. g.specialist) p.failures k order
              (λ j a e. failure_own safe c attempts j a e) in
          ground (arith, one, r, f, t, has-order k),
      all-in_order (λ r. not (is_unusable r.analysis)) p.results order
          λ j a e. ground (arith, (result_own safe c attempts j a e).1),
    )
