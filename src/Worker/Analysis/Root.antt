-- ===== src/Worker/Analysis/Root.antt =====
-- `AdkRcaAgent` of agents/rca/adk_agent.py: the attempts to get a report from the model, whose answers
-- are an argument.
use cloud_sre_ai_agent.Prelude.{
  ◌≡◌, refl, sym, subst, ◌∙◌, ℕ, zero, suc, Bool, true, false, not, ◌&&◌, ◌||◌, Option, none, some,
  List, [], ◌∷◌, ◌++◌, all, inl, inr, Bool-cases, arith, if◌then◌else◌, if-true,
}
use cloud_sre_ai_agent.Worker.Rows.{
  FailureCode, deadline_exceeded, validation_failed, internal_error,
}
use cloud_sre_ai_agent.Worker.Analysis.{
  Analysis, is_complete, Report, valid_report, valid_analysis, subset, cited, cites_known,
  with_specialist_failures, with_incomplete_specialist_analyses,
}

-- How one attempt ends; `answered none` is a text that is no report of the schema's types.
pub data Answer : Type 0 where
  timed_out cancelled crashed : Answer
  root_failure : FailureCode → Answer
  answered : Option Report → Answer

-- A report, the code of a `RootRcaFailure`, or a cancellation.
pub data Synthesis : Type 0 where
  reports : Report → Synthesis
  fails : FailureCode → Synthesis
  is_cancelled : Synthesis

-- The code that `RootRcaFailure` keeps.
abbrev pub safe_code : FailureCode → FailureCode
safe_code deadline_exceeded = deadline_exceeded
safe_code validation_failed = validation_failed
safe_code _ = internal_error

-- `RcaReportDraft.model_validate_json` and `RcaSynthesizer.validate`
abbrev pub accepts : List ℕ → Option Report → Bool
accepts known none = false
accepts known (some r) = valid_report r && cites_known r known

abbrev pub or_next : List ℕ → Option Report → Synthesis → Synthesis
or_next known none next = next
or_next known (some r) next = if accepts known (some r) then reports r else next

abbrev pub after_answer : List ℕ → Answer → Synthesis → Synthesis
after_answer known timed_out next = fails deadline_exceeded
after_answer known cancelled next = is_cancelled
after_answer known crashed next = fails internal_error
after_answer known (root_failure c) next = fails (safe_code c)
after_answer known (answered o) next = or_next known o next

-- `_synthesize_prompt`, with the corrective retries that are left and the number of the attempt
unfoldable pub synthesize_prompt : ℕ → List ℕ → (ℕ → Answer) → ℕ → Synthesis
synthesize_prompt zero known answers i = after_answer known (answers i) (fails validation_failed)
synthesize_prompt (suc n) known answers i =
    after_answer known (answers i) (synthesize_prompt n known answers (suc i))

abbrev pub analyses_evidence : List Analysis → List ℕ
analyses_evidence [] = []
analyses_evidence (a ∷ rest) = cited a.observations ++ analyses_evidence rest

-- Whether `_canonical_active_inputs` accepts its input
unfoldable pub canonical_inputs : List Analysis → List ℕ → Bool
canonical_inputs analyses known =
    all valid_analysis analyses && subset (analyses_evidence analyses) known

abbrev pub finish_report : List Analysis → Synthesis → Synthesis
finish_report analyses (reports r) = reports (with_incomplete_specialist_analyses r analyses)
finish_report analyses s = s

-- `synthesize`
unfoldable pub synthesize : ℕ → List Analysis → List ℕ → (ℕ → Answer) → Synthesis
synthesize retries analyses known answers =
    if canonical_inputs analyses known
    then finish_report analyses (synthesize_prompt retries known answers 0)
    else fails validation_failed

-- `synthesize_legacy`
unfoldable pub synthesize_legacy : ℕ → List ℕ → (ℕ → Answer) → Synthesis
synthesize_legacy retries known answers = synthesize_prompt retries known answers 0

reports_back : (r s : Report) → reports r ≡ reports s → r ≡ s
reports_back r s e = cc

or_next-accepted :
    (known : List ℕ) (o : Option Report) (next : Synthesis) (r : Report)
    → or_next known o next ≡ reports r
    → (next ≡ reports r → (valid_report r && cites_known r known) ≡ true)
    → (valid_report r && cites_known r known) ≡ true
or_next-accepted known none next r e h = h e
or_next-accepted known (some s) next r e h = elim (Bool-cases (accepts known (some s))) [
  | inl t ↦
      let same : reports s ≡ reports r = ground (arith, e, t) in
      subst (λ z. (valid_report z && cites_known z known) ≡ true) (reports_back s r same) t
  | inr t ↦ h (ground (arith, e, t))
]

after_answer-accepted :
    (known : List ℕ) (a : Answer) (next : Synthesis) (r : Report)
    → after_answer known a next ≡ reports r
    → (next ≡ reports r → (valid_report r && cites_known r known) ≡ true)
    → (valid_report r && cites_known r known) ≡ true
after_answer-accepted known timed_out next r e h = cc
after_answer-accepted known cancelled next r e h = cc
after_answer-accepted known crashed next r e h = cc
after_answer-accepted known (root_failure c) next r e h = cc
after_answer-accepted known (answered o) next r e h = or_next-accepted known o next r e h

-- A report that the loop returns passed the schema and cites known evidence only.
pub synthesize_prompt-accepted :
    (n : ℕ) (known : List ℕ) (answers : ℕ → Answer) (i : ℕ) (r : Report)
    → synthesize_prompt n known answers i ≡ reports r
    → (valid_report r && cites_known r known) ≡ true
unfolding synthesize_prompt
synthesize_prompt-accepted zero known answers i r e =
    after_answer-accepted known (answers i) (fails validation_failed) r e (λ x. cc)
synthesize_prompt-accepted (suc n) known answers i r e =
    after_answer-accepted known (answers i) (synthesize_prompt n known answers (suc i)) r e
      (λ x. synthesize_prompt-accepted n known answers (suc i) r x)

-- Marking a report keeps it valid, and its citations.
pub with_specialist_failures-accepted :
    (known : List ℕ) (r : Report)
    → (valid_report r && cites_known r known) ≡ true
    → (valid_report (with_specialist_failures r) && cites_known (with_specialist_failures r) known)
      ≡ true
unfolding with_specialist_failures valid_report cites_known
with_specialist_failures-accepted known r h = elim (Bool-cases (is_complete r.status)) [
  | inl t ↦ ground (arith, h, t)
  | inr t ↦ ground (arith, h, t)
]

pub with_specialist_failures-incomplete :
    (r : Report) → is_complete (with_specialist_failures r).status ≡ false
unfolding with_specialist_failures
with_specialist_failures-incomplete r = ground arith

finish_report-accepted :
    (analyses : List Analysis) (known : List ℕ) (s : Synthesis) (r : Report)
    → ((q : Report) → s ≡ reports q → (valid_report q && cites_known q known) ≡ true)
    → finish_report analyses s ≡ reports r
    → ((valid_report r && cites_known r known) ≡ true)
      × ((not (is_complete r.status) || all (λ a. is_complete a.status) analyses) ≡ true)
unfolding with_incomplete_specialist_analyses
finish_report-accepted analyses known (fails c) r h e = cc
finish_report-accepted analyses known is_cancelled r h e = cc
finish_report-accepted analyses known (reports q) r h e =
    let ok = h q refl in
    let marked = with_specialist_failures-accepted known q ok in
    elim (Bool-cases (all (λ a. is_complete a.status) analyses)) [
      | inl t ↦
          let same : reports q ≡ reports r = ground (arith, e, t) in
          (
            subst (λ z. (valid_report z && cites_known z known) ≡ true) (reports_back q r same) ok,
            ground (arith, t),
          )
      | inr t ↦
          let same : reports (with_specialist_failures q) ≡ reports r = ground (arith, e, t) in
          let back = reports_back (with_specialist_failures q) r same in
          (
            subst (λ z. (valid_report z && cites_known z known) ≡ true) back marked,
            subst
                (λ z.
                  (not (is_complete z.status) || all (λ a. is_complete a.status) analyses) ≡ true)
                back (ground (arith, with_specialist_failures-incomplete q)),
          )
    ]

-- A report of the active mode has the form of the schema, cites known evidence only, and is COMPLETE
-- only if each of the analyses is.
pub synthesize-accepted :
    (retries : ℕ) (analyses : List Analysis) (known : List ℕ) (answers : ℕ → Answer) (r : Report)
    → synthesize retries analyses known answers ≡ reports r
    → ((valid_report r && cites_known r known) ≡ true)
      × ((not (is_complete r.status) || all (λ a. is_complete a.status) analyses) ≡ true)
unfolding synthesize
synthesize-accepted n analyses known answers r e =
    elim (Bool-cases (canonical_inputs analyses known)) [
      | inl t ↦
          finish_report-accepted analyses known (synthesize_prompt n known answers 0) r
            (λ q x. synthesize_prompt-accepted n known answers 0 q x)
            (sym (if-true (canonical_inputs analyses known) _ (fails validation_failed) t) ∙ e)
      | inr t ↦ absurd (ground (arith, e, t))
    ]
