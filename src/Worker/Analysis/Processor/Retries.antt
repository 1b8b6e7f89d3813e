-- ===== src/Worker/Analysis/Processor/Retries.antt =====
-- The transient failures of the processor of application/rca/processor.py, and the lifecycle's answer.
use cloud_sre_ai_agent.Prelude.{
  ◌≡◌, refl, ap, subst, ◌∙◌, ℕ, Bool, true, false, not, ◌&&◌, none, some, List, [], ◌∷◌, any, all,
  is_some, inl, inr, Bool-cases, Option-cases, arith, ltb, if◌then◌else◌,
}
use cloud_sre_ai_agent.Worker.Rows.{FailureCode}
use cloud_sre_ai_agent.Worker.Analysis.{
  Kind, metrics, trace, log, Code, is_nil, same_kind, failed_analysis,
}
use cloud_sre_ai_agent.Worker.Analysis.Branches.{order, Failure, Result, Bundle, is_mcp_transport}
use cloud_sre_ai_agent.Worker.Analysis.Root.{Answer}
use cloud_sre_ai_agent.Worker.Analysis.Processor.{
  Settings, outcome, transient_failure, settled_bundle, is_retryable, terminal_failure_code,
  first_code, first_failure, analysis_failure_code, or_internal, is_usable, without_usable, act_on,
  run_specialist_analysis,
}

-- The failures are of one specialist at least, and all are of the transport.
abbrev pub total_transport_failure : Bundle → Bool
total_transport_failure b =
    is_nil b.results && not (is_nil b.failures) && all (λ f. is_mcp_transport f.code) b.failures

transport_code :
    (c : Code)
    → is_mcp_transport c ≡ true
    → analysis_failure_code c ≡ some FailureCode.mcp_transport
unfolding analysis_failure_code
transport_code Code.mcp_transport h = refl
transport_code Code.no_safe_mcp_capability h = cc
transport_code Code.mcp_timeout h = cc
transport_code Code.mcp_payload_too_large h = cc
transport_code Code.mcp_result_invalid h = cc
transport_code Code.analysis_timeout h = cc
transport_code Code.analysis_schema_invalid h = cc
transport_code Code.analysis_unknown_evidence h = cc
transport_code Code.analysis_input_truncated h = cc
transport_code Code.analysis_failed h = cc
transport_code Code.specialist_timeout h = cc
transport_code Code.specialist_transport h = cc
transport_code Code.specialist_validation h = cc
transport_code Code.specialist_failed h = cc

first_failure-all :
    (p : Failure → Bool) (k : Kind) (fs : List Failure) (f : Failure)
    → all p fs ≡ true
    → first_failure k fs ≡ some f
    → p f ≡ true
unfolding first_failure
first_failure-all p k [] f h e = cc
first_failure-all p k (g ∷ fs) f h e = elim (Bool-cases (same_kind g.specialist k)) [
  | inl t ↦
      let same : some g ≡ some f = ground (arith, e, t) in
      let back : g ≡ f = cc in subst (λ z. p z ≡ true) back (ground (arith, h))
  | inr t ↦ first_failure-all p k fs f (ground (arith, h)) (ground (arith, e, t))
]

abbrev is_some_failure : Kind → List Failure → Bool
is_some_failure k fs = is_some (first_failure k fs)

first_code-transport :
    (ks : List Kind) (fs : List Failure)
    → all (λ f. is_mcp_transport f.code) fs ≡ true
    → any (λ k. is_some_failure k fs) ks ≡ true
    → first_code ks fs ≡ FailureCode.mcp_transport
unfolding first_code
first_code-transport [] fs h m = cc
first_code-transport (k ∷ ks) fs h m = elim (Option-cases (first_failure k fs)) [
  | inl e ↦
      ap
        (λ o. elim o [
          | none ↦ first_code ks fs
          | some f ↦ or_internal (analysis_failure_code f.code)
        ])
        e
      ∙ first_code-transport ks fs h (ground (arith, m, e))
  | inr (f, e) ↦
      ap
        (λ o. elim o [
          | none ↦ first_code ks fs
          | some g ↦ or_internal (analysis_failure_code g.code)
        ])
        e
      ∙ ap or_internal
          (transport_code f.code (first_failure-all (λ g. is_mcp_transport g.code) k fs f h e))
]

first_failure-head :
    (k : Kind) (f : Failure) (fs : List Failure)
    → same_kind f.specialist k ≡ true
    → is_some_failure k (f ∷ fs) ≡ true
unfolding first_failure
first_failure-head k f fs h = ground (arith, h)

in_order_somewhere :
    (j : Kind) (p : Kind → Bool)
    → ((k : Kind) → same_kind j k ≡ true → p k ≡ true)
    → any p order ≡ true
in_order_somewhere metrics p h = ground (arith, h metrics refl)
in_order_somewhere trace p h = ground (arith, h trace refl)
in_order_somewhere log p h = ground (arith, h log refl)

some_order : (f : Failure) (fs : List Failure) → any (λ k. is_some_failure k (f ∷ fs)) order ≡ true
some_order f fs =
    in_order_somewhere f.specialist (λ k. is_some_failure k (f ∷ fs))
      (λ k h. first_failure-head k f fs h)

nil_any : (p : Result → Bool) (rs : List Result) → is_nil rs ≡ true → any p rs ≡ false
nil_any p [] h = refl
nil_any p (r ∷ rs) h = cc

terminal_transport :
    (fs : List Failure)
    → is_nil fs ≡ false
    → all (λ f. is_mcp_transport f.code) fs ≡ true
    → terminal_failure_code fs ≡ some FailureCode.mcp_transport
unfolding terminal_failure_code
terminal_transport [] h m = cc
terminal_transport (f ∷ fs) h m = ap some (first_code-transport order (f ∷ fs) m (some_order f fs))

act_on_transport :
    (s : Settings) (is_aws : Bool) (n : ℕ) (answers : ℕ → Answer) (b : Bundle)
    → total_transport_failure b ≡ true
    → act_on s is_aws n answers b ≡ (
        if ltb n 3
        then transient_failure
        else outcome failed_analysis (some FailureCode.mcp_transport))
unfolding act_on is_retryable
act_on_transport s is_aws n answers b h =
    let u = nil_any is_usable b.results (ground (arith, h)) in
    let code = terminal_transport b.failures (ground (arith, h)) (ground (arith, h)) in
    let left : without_usable is_aws b ≡ outcome failed_analysis (some FailureCode.mcp_transport) =
      ground (arith, h, code) in
    ground (arith, h, u, left)

-- A bundle of transport failures alone ends the first and the second attempt with the transient error
-- and each later one with the report of a failed analysis and MCP_TRANSPORT.
pub total_transport_failure_outcome :
    (s : Settings) (is_aws : Bool) (n : ℕ) (owned : Result → Bool) (answers : ℕ → Answer)
    (bundle : Bundle)
    → total_transport_failure (settled_bundle owned bundle) ≡ true
    → run_specialist_analysis s is_aws n owned answers bundle ≡ (
        if ltb n 3
        then transient_failure
        else outcome failed_analysis (some FailureCode.mcp_transport))
unfolding run_specialist_analysis
total_transport_failure_outcome s is_aws n owned answers bundle h =
    act_on_transport s is_aws n answers (settled_bundle owned bundle) h
