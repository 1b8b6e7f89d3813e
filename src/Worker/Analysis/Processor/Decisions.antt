-- ===== src/Worker/Analysis/Processor/Decisions.antt =====
-- The decisions of `ProductionRcaProcessor` of application/rca/processor.py, and what the lifecycle of
-- the job makes of them.
use cloud_sre_ai_agent.Prelude.{
  ◌≡◌, refl, sym, subst, ◌∙◌, ℕ, Bool, true, false, not, ◌&&◌, ◌||◌, Option, none, List, any, map,
  inl, inr, Bool-cases, arith, if◌then◌else◌, if-true, if-false,
}
use cloud_sre_ai_agent.Worker.Rows.{FailureCode}
use cloud_sre_ai_agent.Worker.Analysis.{
  Analysis, is_nil, is_complete, Report, valid_report, cites_known, insufficient_evidence,
  failed_analysis,
}
use cloud_sre_ai_agent.Worker.Analysis.Branches.{Result, Bundle}
use cloud_sre_ai_agent.Worker.Analysis.Root.{
  Answer, Synthesis, reports, fails, is_cancelled, synthesize, synthesize_legacy,
  synthesize_prompt-accepted, synthesize-accepted, with_specialist_failures-accepted,
  with_specialist_failures-incomplete,
}
use cloud_sre_ai_agent.Worker.Analysis.Processor.{
  Settings, outcome, transient_failure, settled_bundle, is_retryable, terminal_failure_code,
  known_evidence, is_incomplete, mark, after_synthesis, report_on, is_usable, without_usable,
  act_on, run_specialist_analysis,
}

-- A report is valid and cites the given evidence; it is COMPLETE only if `whole` holds.
abbrev pub IsSound : Bool → List ℕ → Report → Type 0
IsSound whole known r =
    ((valid_report r && cites_known r known) ≡ true)
    × ((not (is_complete r.status) || whole) ≡ true)

mark-IsSound :
    (incomplete : Bool) (known : List ℕ) (r : Report)
    → (valid_report r && cites_known r known) ≡ true
    → IsSound (not incomplete) known (mark incomplete r)
mark-IsSound false known r h = (h, ground arith)
mark-IsSound true known r h = (
  with_specialist_failures-accepted known r h,
  ground (arith, with_specialist_failures-incomplete r),
)

outcome_back : (q r : Report) (c d : Option FailureCode) → outcome q c ≡ outcome r d → q ≡ r
outcome_back q r c d e = cc

after_synthesis-IsSound :
    (incomplete : Bool) (known : List ℕ) (s : Synthesis) (r : Report) (code : Option FailureCode)
    → ((q : Report) → s ≡ reports q → (valid_report q && cites_known q known) ≡ true)
    → after_synthesis incomplete s ≡ outcome r code
    → IsSound (not incomplete) known r
after_synthesis-IsSound incomplete known (fails c) r code h e = cc
after_synthesis-IsSound incomplete known is_cancelled r code h e = cc
after_synthesis-IsSound incomplete known (reports q) r code h e =
    subst (IsSound (not incomplete) known) (outcome_back (mark incomplete q) r none code e)
      (mark-IsSound incomplete known q (h q refl))

synthesis-accepted :
    (s : Settings) (answers : ℕ → Answer) (analyses : List Analysis) (known : List ℕ) (q : Report)
    → (if s.shadow
        then synthesize_legacy s.corrective_retries known answers
        else synthesize s.corrective_retries analyses known answers)
      ≡ reports q
    → (valid_report q && cites_known q known) ≡ true
unfolding synthesize_legacy
synthesis-accepted s answers analyses known q e = elim (Bool-cases s.shadow) [
  | inl t ↦
      synthesize_prompt-accepted s.corrective_retries known answers 0 q
        (sym (if-true s.shadow _ _ t) ∙ e)
  | inr t ↦
      (synthesize-accepted s.corrective_retries analyses known answers q
        (sym (if-false s.shadow _ _ t) ∙ e)).0
]

failed_analysis-IsSound : (whole : Bool) (known : List ℕ) → IsSound whole known failed_analysis
unfolding failed_analysis valid_report cites_known
failed_analysis-IsSound whole known = (refl, refl)

insufficient_evidence-IsSound :
    (whole is_aws : Bool) (known : List ℕ) → IsSound whole known (insufficient_evidence is_aws)
unfolding insufficient_evidence valid_report cites_known
insufficient_evidence-IsSound whole true known = (refl, refl)
insufficient_evidence-IsSound whole false known = (refl, refl)

without_usable-IsSound :
    (is_aws whole : Bool) (known : List ℕ) (b : Bundle) (r : Report) (code : Option FailureCode)
    → without_usable is_aws b ≡ outcome r code
    → IsSound whole known r
without_usable-IsSound is_aws whole known b r code e =
    let some_left = not (is_nil b.failures) || not (is_nil b.results) in
    elim (Bool-cases some_left) [
      | inl t ↦
          subst (IsSound whole known)
            (outcome_back failed_analysis r (terminal_failure_code b.failures) code
              (sym (if-true some_left _ _ t) ∙ e))
            (failed_analysis-IsSound whole known)
      | inr t ↦
          subst (IsSound whole known)
            (outcome_back (insufficient_evidence is_aws) r none code
              (sym (if-false some_left _ _ t) ∙ e))
            (insufficient_evidence-IsSound whole is_aws known)
    ]

report_on-IsSound :
    (s : Settings) (answers : ℕ → Answer) (b : Bundle) (r : Report) (code : Option FailureCode)
    → report_on s answers b ≡ outcome r code
    → IsSound (not (is_incomplete b)) (known_evidence b.results) r
unfolding report_on
report_on-IsSound s answers b r code e =
    after_synthesis-IsSound (is_incomplete b) (known_evidence b.results) _ r code
      (λ q x.
        synthesis-accepted s answers (map (λ z. z.analysis) b.results) (known_evidence b.results) q
          x)
      e

act_on-IsSound :
    (s : Settings) (is_aws : Bool) (n : ℕ) (answers : ℕ → Answer) (b : Bundle) (r : Report)
    (code : Option FailureCode)
    → act_on s is_aws n answers b ≡ outcome r code
    → IsSound (not (is_incomplete b)) (known_evidence b.results) r
unfolding act_on
act_on-IsSound s is_aws n answers b r code e = elim (Bool-cases (is_retryable b n)) [
  | inl t ↦
      let never : transient_failure ≡ outcome r code = sym (if-true (is_retryable b n) _ _ t) ∙ e in
      cc
  | inr t ↦
      let f = sym (if-false (is_retryable b n) _ _ t) ∙ e in
      elim (Bool-cases (any is_usable b.results)) [
        | inl u ↦
            report_on-IsSound s answers b r code (sym (if-true (any is_usable b.results) _ _ u) ∙ f)
        | inr u ↦
            without_usable-IsSound is_aws (not (is_incomplete b)) (known_evidence b.results) b r
              code (sym (if-false (any is_usable b.results) _ _ u) ∙ f)
      ]
]

-- A report of the analysis has the form of the schema and cites only evidence that the specialists
-- collected, and it is COMPLETE only if no specialist failed and each analysis that is left after the
-- audit is COMPLETE.
pub run_specialist_analysis-IsSound :
    (s : Settings) (is_aws : Bool) (n : ℕ) (owned : Result → Bool) (answers : ℕ → Answer)
    (bundle : Bundle) (r : Report) (code : Option FailureCode)
    → run_specialist_analysis s is_aws n owned answers bundle ≡ outcome r code
    → IsSound
        (not (is_incomplete (settled_bundle owned bundle)))
        (known_evidence (settled_bundle owned bundle).results)
        r
unfolding run_specialist_analysis
run_specialist_analysis-IsSound s is_aws n owned answers bundle r code e =
    act_on-IsSound s is_aws n answers (settled_bundle owned bundle) r code e
