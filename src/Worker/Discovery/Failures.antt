-- ===== src/Worker/Discovery/Failures.antt =====
-- `discover_capabilities` of integrations/mcp/discovery.py: a specialist has tools or a failure.
use cloud_sre_ai_agent.Prelude.{
  ◌≡◌, ◌≢◌, refl, sym, ap, ◌∙◌, ℕ, Bool, true, false, not, ◌||◌, Option, none, some, List, [], ◌∷◌,
  map, all, is_some, inl, inr, Bool-cases, Option-cases, arith,
}
use cloud_sre_ai_agent.Worker.Analysis.{Kind, Code, is_nil}
use cloud_sre_ai_agent.Worker.Analysis.Branches.{
  order, Failure, AllowedTool, Capabilities, failures_by_kind,
}
use cloud_sre_ai_agent.Worker.Analysis.Branches.{
  in_order, is_unusable, Bundle, Attempt, invoke, is_cancelled, run_workflow,
}
use cloud_sre_ai_agent.Worker.Analysis.Bundle.{has, has-order, has_task}
use cloud_sre_ai_agent.Worker.Analysis.Unusable.{failures_by_kind-in_order}
use cloud_sre_ai_agent.Worker.Analysis.Accounts.{has_result, has_failure, run_workflow_accounts}
use cloud_sre_ai_agent.Worker.Discovery.{
  Matching, Entry, Answer, no_time, timeout_error, connection_error, other_error, listed,
  discover_one, discovered_for, discover_capabilities, present, is_candidate, endpoint_entries,
}

discover_one_exclusive :
    (m : Matching) (k : Kind) (es : List Entry) (cs : List ℕ) (a : Answer)
    → (not (is_some (discover_one m k es cs a).1) || is_nil (discover_one m k es cs a).0) ≡ true
unfolding discover_one
discover_one_exclusive m k es cs no_time = refl
discover_one_exclusive m k es cs timeout_error = refl
discover_one_exclusive m k es cs connection_error = refl
discover_one_exclusive m k es cs other_error = refl
discover_one_exclusive m k es cs (listed ts) = refl

own_back :
    (k : Kind) (c : Code) (f : Failure)
    → some (record { specialist = k; code = c }) ≡ some f
    → f.specialist ≡ k
own_back k c f e =
    let back : record { specialist = k; code = c } ≡ f = cc in sym (ap (λ z. z.specialist) back)

discover_one_own :
    (m : Matching) (k : Kind) (es : List Entry) (cs : List ℕ) (a : Answer) (f : Failure)
    → (discover_one m k es cs a).1 ≡ some f
    → f.specialist ≡ k
unfolding discover_one
discover_one_own m k es cs no_time f e = own_back k _ f e
discover_one_own m k es cs timeout_error f e = own_back k _ f e
discover_one_own m k es cs connection_error f e = own_back k _ f e
discover_one_own m k es cs other_error f e = own_back k _ f e
discover_one_own m k es cs (listed ts) f e = cc

module _ (m : Matching) (manifest : List Entry) (required : Kind → List ℕ)
    (answers : Kind → Answer) where
  abbrev tools_of : Kind → List AllowedTool
  tools_of k = (discovered_for m manifest required answers k).0

  abbrev failure_of : Kind → Option Failure
  failure_of k = (discovered_for m manifest required answers k).1

  discovered_exclusive : (k : Kind) → is_nil (tools_of k) ≡ false → failure_of k ≡ none
  unfolding discovered_for
  discovered_exclusive k h = elim (Bool-cases (is_candidate manifest required k)) [
    | inl t ↦
        let x = discover_one_exclusive m k (endpoint_entries manifest k) (required k) (answers k) in
        elim (Option-cases
          (discover_one m k (endpoint_entries manifest k) (required k) (answers k)).1) [
            | inl e ↦ ground (arith, t, e)
            | inr (f, e) ↦ absurd (ground (arith, t, e, x, h))
          ]
    | inr t ↦ ground (arith, t)
  ]

  discovered_own : (k : Kind) (f : Failure) → failure_of k ≡ some f → f.specialist ≡ k
  unfolding discovered_for
  discovered_own k f e = elim (Bool-cases (is_candidate manifest required k)) [
    | inl t ↦
        discover_one_own m k (endpoint_entries manifest k) (required k) (answers k) f
          (ground (arith, e, t))
    | inr t ↦ absurd (ground (arith, e, t))
  ]

  present-in_order :
      (d : Kind → Option Failure) (ks : List Kind) → present (map d ks) ≡ in_order d ks
  unfolding in_order
  present-in_order d [] = refl
  present-in_order d (k ∷ ks) = elim (Option-cases (d k)) [
    | inl e ↦ ground (arith, e, present-in_order d ks)
    | inr (f, e) ↦ ground (arith, e, present-in_order d ks)
  ]

  abbrev capabilities : Bool → Capabilities
  capabilities safe = discover_capabilities safe m manifest required answers

  -- A specialist that has tools has no failure of the discovery.
  selected_found :
      (safe : Bool) (k : Kind)
      → has_task safe (capabilities safe) k ≡ true
      → failures_by_kind (capabilities safe).discovery_failures k ≡ none
  unfolding discover_capabilities failures_by_kind
  selected_found false k h = refl
  selected_found true k h =
      ap (λ fs. failures_by_kind fs k) (present-in_order failure_of order)
      ∙ failures_by_kind-in_order failure_of order k discovered_own
      ∙ ground (arith, has-order k, discovered_exclusive k (ground (arith, h)))

-- With the capabilities that the discovery found, where the tasks of exactly the selected specialists
-- end and none is cancelled, the workflow returns a bundle in which each selected specialist has
-- either a result or a failure, and no analysis is FAILED or without observations.
pub discovered_workflow_accounts :
    (m : Matching) (manifest : List Entry) (required : Kind → List ℕ) (answers : Kind → Answer)
    (safe : Bool) (attempts : Kind → Attempt × Attempt) (ended : List Kind)
    → ((k : Kind)
        → has k ended ≡ has_task safe (discover_capabilities safe m manifest required answers) k)
    → ((k : Kind)
        → has_task safe (discover_capabilities safe m manifest required answers) k ≡ true
        → invoke k (attempts k) ≢ is_cancelled)
    → (b : Bundle) × (run_workflow safe
          (discover_capabilities safe m manifest required answers)
          attempts
          ended
        ≡ some b)
      × ((k : Kind)
          → has_task safe (discover_capabilities safe m manifest required answers) k ≡ true
          → has_result k b ≡ not (has_failure k b))
      × (all (λ r. not (is_unusable r.analysis)) b.results ≡ true)
discovered_workflow_accounts m manifest required answers safe attempts ended same calm =
    run_workflow_accounts safe (discover_capabilities safe m manifest required answers) attempts
      ended same calm (selected_found m manifest required answers safe)
