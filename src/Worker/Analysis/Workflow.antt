-- ===== src/Worker/Analysis/Workflow.antt =====
-- `SpecialistAnalysisWorkflow.run` of agents/specialists/workflow.py as a whole.
use cloud_sre_ai_agent.Prelude.{
  ◌≡◌, ◌≢◌, refl, sym, ap, ◌∙◌, Bool, true, Option, none, some, List, [], ◌∷◌, inl, inr, Bool-cases,
  arith,
}
use cloud_sre_ai_agent.Worker.Analysis.{Kind}
use cloud_sre_ai_agent.Worker.Analysis.Branches.{
  order, Failure, Result, Capabilities, route, Attempt, Branch, is_cancelled, fails, succeeds,
  again, invoke, Progress, failures_by_kind, in_order, bundle_of, normalize_bundle, run_selected,
  run_workflow,
}
use cloud_sre_ai_agent.Worker.Analysis.Bundle.{
  has, has-route, in_order-cong, branch_result, branch_failure, has_task, by_kind, bundle_by_kind,
  write_result, write_failure, After, run_branches-After, invoke_own,
}
use cloud_sre_ai_agent.Worker.Analysis.Unusable.{
  failures_by_kind_own, usable_result, unusable_failure, normalize_bundle-bundle_of,
}

branch_result_of_write : (b : Branch) → usable_result (write_result b none) none ≡ branch_result b
branch_result_of_write is_cancelled = refl
branch_result_of_write (fails c) = refl
branch_result_of_write (succeeds r) = refl
branch_result_of_write again = refl

branch_failure_of_write :
    (k : Kind) (b : Branch) (d : Option Failure)
    → unusable_failure k (write_result b none) (write_failure k b d) ≡ branch_failure k b d
branch_failure_of_write k is_cancelled d = refl
branch_failure_of_write k (fails c) d = refl
branch_failure_of_write k (succeeds r) d = refl
branch_failure_of_write k again d = refl

pub write_result_own :
    (k : Kind) (b : Branch) (r : Result)
    → ((s : Result) → b ≡ succeeds s → s.analysis.specialist ≡ k)
    → write_result b none ≡ some r
    → r.analysis.specialist ≡ k
write_result_own k is_cancelled r h e = cc
write_result_own k (fails c) r h e = cc
write_result_own k (succeeds s) r h e = let back : s ≡ r = cc in h r (ap succeeds back)
write_result_own k again r h e = cc

pub write_failure_own :
    (k : Kind) (b : Branch) (d : Option Failure) (f : Failure)
    → ((g : Failure) → d ≡ some g → g.specialist ≡ k)
    → write_failure k b d ≡ some f
    → f.specialist ≡ k
write_failure_own k is_cancelled d f h e = h f e
write_failure_own k (fails c) d f h e =
    let back : record { specialist = k; code = c } ≡ f = cc in sym (ap (λ z. z.specialist) back)
write_failure_own k (succeeds s) d f h e = h f e
write_failure_own k again d f h e = h f e

bundle-cong :
    (p q : Progress)
    → ((k : Kind) → p.results k ≡ q.results k)
    → ((k : Kind) → p.failures k ≡ q.failures k)
    → bundle_of p ≡ bundle_of q
bundle-cong p q h i =
    ap (λ z. record { results = z; failures = in_order p.failures order })
      (in_order-cong p.results q.results order h)
    ∙ ap (λ z. record { results = in_order q.results order; failures = z })
        (in_order-cong p.failures q.failures order i)

module _ (safe : Bool) (c : Capabilities) (attempts : Kind → Attempt × Attempt) where
  abbrev at_start : Progress
  at_start = record { results = λ k. none; failures = failures_by_kind c.discovery_failures }

  finished :
      (ended : List Kind) (q : Progress)
      → ((k : Kind) → has k ended ≡ has_task safe c k)
      → After (λ k. invoke k (attempts k)) ended at_start q
      → normalize_bundle (bundle_of q) ≡ bundle_by_kind safe c attempts
  finished ended q same h =
      let own_r : (k : Kind) (r : Result) → q.results k ≡ some r → r.analysis.specialist ≡ k =
        λ k r e. elim (Bool-cases (has k ended)) [
          | inl t ↦
              write_result_own k (invoke k (attempts k)) r (invoke_own k (attempts k))
                (ground (arith, h.0 k, t, e))
          | inr t ↦ absurd (ground (arith, h.0 k, t, e))
        ] in
      let own_f : (k : Kind) (f : Failure) → q.failures k ≡ some f → f.specialist ≡ k = λ k f e.
        elim (Bool-cases (has k ended)) [
          | inl t ↦
              write_failure_own k (invoke k (attempts k)) (failures_by_kind c.discovery_failures k)
                f (failures_by_kind_own c.discovery_failures k) (ground (arith, h.1 k, t, e))
          | inr t ↦ failures_by_kind_own c.discovery_failures k f (ground (arith, h.1 k, t, e))
        ] in
      normalize_bundle-bundle_of q own_r own_f
      ∙ bundle-cong _ _
          (λ k. elim (Bool-cases (has_task safe c k)) [
            | inl t ↦
                ground (arith, h.0 k, same k, t, branch_result_of_write (invoke k (attempts k)))
            | inr t ↦ ground (arith, h.0 k, same k, t)
          ])
          (λ k. elim (Bool-cases (has_task safe c k)) [
            | inl t ↦ ground (
              arith,
              h.0 k,
              h.1 k,
              same k,
              t,
              branch_failure_of_write k (invoke k (attempts k))
                  (failures_by_kind c.discovery_failures k),
            )
            | inr t ↦ ground (arith, h.0 k, h.1 k, same k, t)
          ])

  run_selected-bundle :
      (selected ended : List Kind)
      → ((k : Kind) → has k selected ≡ has_task safe c k)
      → ((k : Kind) → has k ended ≡ has_task safe c k)
      → ((k : Kind) → has_task safe c k ≡ true → invoke k (attempts k) ≢ is_cancelled)
      → run_selected attempts ended selected at_start ≡ some (bundle_by_kind safe c attempts)
  unfolding in_order
  run_selected-bundle [] ended chosen same calm = ap some (
      bundle-cong at_start (by_kind safe c attempts) (λ k. ground (arith, chosen k))
        (λ k. ground (arith, chosen k)))
  run_selected-bundle (j ∷ ks) ended chosen same calm =
      let r = run_branches-After attempts ended at_start (λ k m. calm k (sym (same k) ∙ m)) in
      ap (λ o. elim o [ none ↦ none | some q ↦ some (normalize_bundle (bundle_of q)) ]) r.1
      ∙ ap some (finished ended r.0 same r.2)

-- Where the tasks of exactly the selected specialists end, and none is cancelled, the workflow returns
-- the bundle that looks at each specialist by itself, whatever the order in which the tasks end: for a
-- selected specialist the result of its first attempt that does not try again, if it is usable, and
-- else its failure; and for each specialist without a failure of its own that of the discovery.
pub run_workflow_by_kind :
    (safe : Bool) (c : Capabilities) (attempts : Kind → Attempt × Attempt) (ended : List Kind)
    → ((k : Kind) → has k ended ≡ has_task safe c k)
    → ((k : Kind) → has_task safe c k ≡ true → invoke k (attempts k) ≢ is_cancelled)
    → run_workflow safe c attempts ended ≡ some (bundle_by_kind safe c attempts)
unfolding run_workflow
run_workflow_by_kind safe c attempts ended same calm =
    run_selected-bundle safe c attempts (route safe c).selected ended (has-route safe c) same calm
