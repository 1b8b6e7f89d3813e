-- ===== src/Worker/Analysis/Processor/Settling.antt =====
-- `ProductionRcaProcessor.__call__` under `RcaJobHandler.handle`: which of its ends are retried.
use Prim.{tt}
use cloud_sre_ai_agent.Prelude.{
  ◌≡◌, refl, sym, ap, subst, ◌∙◌, ℕ, Bool, true, false, not, ◌&&◌, ◌||◌, Option, none, some, List,
  [], ◌∷◌, ◌⊎◌, any, all, is_some, inl, inr, Bool-cases, arith, ltb, if◌then◌else◌, if-true,
  if-false,
}
use cloud_sre_ai_agent.Worker.Rows.{FailureCode, Db, Job}
use cloud_sre_ai_agent.Worker.Lifecycle.{
  Claim, ack, nack, holds_lease, settle_failure, settle_failure_row, settle_success,
  settle_success_row, ProcessingResult,
}
use cloud_sre_ai_agent.Worker.Lifecycle.Handle.{
  TaskEnd, returned, raised, Error, connection_error, other_error, settle, classify_failure,
}
use cloud_sre_ai_agent.Worker.Analysis.{Code, is_nil, is_stable}
use cloud_sre_ai_agent.Worker.Analysis.Branches.{Failure, Result, Bundle, is_mcp_transport}
use cloud_sre_ai_agent.Worker.Analysis.Root.{Answer, Synthesis, reports, fails, is_cancelled}
use cloud_sre_ai_agent.Worker.Analysis.Processor.{
  Settings, settled_bundle, is_retryable, report_on, after_synthesis, is_incomplete, is_usable,
  without_usable, act_on, run_specialist_analysis, CallEnd, Raises, or_raise, end_of,
  persist_failures_error, call,
}
use cloud_sre_ai_agent.Worker.Analysis.Processor.Retries.{total_transport_failure}

-- What a step raises, if anything, is of none of the classes that the lifecycle tells apart.
abbrev pub IsOther : Option Error → Type 0
IsOther none = Unit
IsOther (some e) = e ≡ other_error

abbrev pub RaisesOther : Raises → Type 0
RaisesOther r =
    IsOther r.load_context
    × IsOther r.discover
    × IsOther r.workflow
    × IsOther r.persist_analyses
    × IsOther r.persist_failures
    × IsOther r.persist_report

abbrev pub is_quiet : Option Error → Bool
is_quiet e = not (is_some e)

-- The scope is safe, no step before the report raises, the bundle has failures of the transport
-- alone, and the attempt is the first or the second.
abbrev pub is_retried : Raises → Bool → ℕ → Bundle → Bool
is_retried r safe attempt_number b =
    is_quiet r.load_context
    && (safe
        && (is_quiet r.discover
            && (is_quiet r.workflow
                && (is_quiet r.persist_analyses
                    && (is_quiet r.persist_failures
                        && (total_transport_failure b && ltb attempt_number 3))))))

-- A task that is to be retried raises the transient error, and no other one raises it.
abbrev Ends : Bool → Option (TaskEnd ProcessingResult) → Type 0
Ends retried none = Unit
Ends retried (some (returned r)) = retried ≡ false
Ends retried (some (raised e)) =
    ((retried ≡ true) × (e ≡ connection_error)) ⊎ ((retried ≡ false) × (e ≡ other_error))

or_raise-Ends :
    (e : Option Error) (x : CallEnd) (b : Bool)
    → IsOther e
    → Ends b x.1
    → Ends (is_quiet e && b) (or_raise e x).1
or_raise-Ends none x b o h = h
or_raise-Ends (some e) x b o h = inr (refl, o)

-- The result of a task that returns, unless its report cannot be written.
or_raise-returns :
    (e : Option Error) (x : CallEnd) → IsOther e → Ends false x.1 → Ends false (or_raise e x).1
or_raise-returns none x o h = h
or_raise-returns (some e) x o h = inr (refl, o)

after_synthesis-Ends :
    (e : Option Error) (incomplete : Bool) (x : Synthesis)
    → IsOther e
    → Ends false (end_of e (after_synthesis incomplete x)).1
unfolding end_of
after_synthesis-Ends e incomplete (reports r) o = or_raise-returns e _ o refl
after_synthesis-Ends e incomplete (fails c) o = or_raise-returns e _ o refl
after_synthesis-Ends e incomplete is_cancelled o = tt

without_usable-Ends :
    (e : Option Error) (is_aws : Bool) (b : Bundle)
    → IsOther e
    → Ends false (end_of e (without_usable is_aws b)).1
unfolding end_of
without_usable-Ends e is_aws b o =
    elim (Bool-cases (not (is_nil b.failures) || not (is_nil b.results))) [
      | inl t ↦
          subst (λ z. Ends false (end_of e z).1) (sym (if-true _ _ _ t))
            (or_raise-returns e _ o refl)
      | inr t ↦
          subst (λ z. Ends false (end_of e z).1) (sym (if-false _ _ _ t))
            (or_raise-returns e _ o refl)
    ]

act_on-Ends :
    (e : Option Error) (s : Settings) (is_aws : Bool) (n : ℕ) (answers : ℕ → Answer) (b : Bundle)
    → IsOther e
    → Ends (is_retryable b n) (end_of e (act_on s is_aws n answers b)).1
unfolding act_on report_on end_of
act_on-Ends e s is_aws n answers b o = elim (Bool-cases (is_retryable b n)) [
  | inl t ↦
      subst (λ z. Ends (is_retryable b n) (end_of e z).1) (sym (if-true _ _ _ t)) (inl (t, refl))
  | inr t ↦
      subst (λ z. Ends z (end_of e (act_on s is_aws n answers b)).1) (sym t)
        (subst (λ z. Ends false (end_of e z).1) (sym (if-false _ _ _ t))
          (elim (Bool-cases (any is_usable b.results)) [
            | inl u ↦
                subst (λ z. Ends false (end_of e z).1) (sym (if-true _ _ _ u))
                  (after_synthesis-Ends e (is_incomplete b) _ o)
            | inr u ↦
                subst (λ z. Ends false (end_of e z).1) (sym (if-false _ _ _ u))
                  (without_usable-Ends e is_aws b o)
          ]))
]

code_is_stable : (c : Code) → is_mcp_transport c ≡ true → is_stable c ≡ true
code_is_stable Code.mcp_transport h = refl
code_is_stable Code.no_safe_mcp_capability h = refl
code_is_stable Code.mcp_timeout h = refl
code_is_stable Code.mcp_payload_too_large h = refl
code_is_stable Code.mcp_result_invalid h = refl
code_is_stable Code.analysis_timeout h = refl
code_is_stable Code.analysis_schema_invalid h = refl
code_is_stable Code.analysis_unknown_evidence h = refl
code_is_stable Code.analysis_input_truncated h = refl
code_is_stable Code.analysis_failed h = refl
code_is_stable Code.specialist_timeout h = cc
code_is_stable Code.specialist_transport h = cc
code_is_stable Code.specialist_validation h = cc
code_is_stable Code.specialist_failed h = cc

transport_is_stable :
    (fs : List Failure)
    → all (λ f. is_mcp_transport f.code) fs ≡ true
    → all (λ f. is_stable f.code) fs ≡ true
transport_is_stable [] h = refl
transport_is_stable (f ∷ fs) h =
    let ih = transport_is_stable fs (ground (arith, h)) in
    let first = code_is_stable f.code (ground (arith, h)) in ground (arith, ih, first)

retryable_is_total :
    (b : Bundle) (n : ℕ) → is_retryable b n ≡ (total_transport_failure b && ltb n 3)
unfolding is_retryable
retryable_is_total b n = ground arith

persist_failures-Ends :
    (e : Option Error) (b : Bundle) (n : ℕ) (x : CallEnd)
    → IsOther e
    → Ends (is_retryable b n) x.1
    → Ends
        (is_quiet e && (total_transport_failure b && ltb n 3))
        (or_raise (persist_failures_error e b.failures) x).1
persist_failures-Ends none b n x o h = elim (Bool-cases (all (λ f. is_stable f.code) b.failures)) [
  | inl t ↦
      subst (λ z. Ends (total_transport_failure b && ltb n 3) (or_raise z x).1)
        (sym (if-true _ _ _ t)) (subst (λ z. Ends z x.1) (retryable_is_total b n) h)
  | inr t ↦
      let unlike : all (λ f. is_mcp_transport f.code) b.failures ≡ false =
        elim (Bool-cases (all (λ f. is_mcp_transport f.code) b.failures)) [
          | inl u ↦ absurd (let v = transport_is_stable b.failures u in ground (arith, t, v))
          | inr u ↦ u
        ] in
      subst (λ z. Ends (total_transport_failure b && ltb n 3) (or_raise z x).1)
        (sym (if-false _ _ _ t)) (inr (ground (arith, unlike), refl))
]
persist_failures-Ends (some e) b n x o h = inr (refl, o)

module _ (r : Raises) (s : Settings) (is_aws : Bool) (n : ℕ) (owned : Result → Bool)
    (answers : ℕ → Answer) (bundle : Bundle) (others : RaisesOther r) where
  call-Ends :
      (safe : Bool)
      → Ends
          (is_retried r safe n (settled_bundle owned bundle))
          (call r safe s is_aws n owned answers bundle).1
  unfolding call run_specialist_analysis end_of
  call-Ends false =
      or_raise-Ends r.load_context _ false others.0
        (or_raise-returns r.persist_report _ others.5 refl)
  call-Ends true =
      let b = settled_bundle owned bundle in
      or_raise-Ends r.load_context _ _ others.0 (
        or_raise-Ends r.discover _ _ others.1 (
          or_raise-Ends r.workflow _ _ others.2 (
            or_raise-Ends r.persist_analyses _ _ others.3 (
              persist_failures-Ends r.persist_failures b n _ others.4
                (act_on-Ends r.persist_report s is_aws n answers b others.5)))))

retried_early :
    (r : Raises) (safe : Bool) (n : ℕ) (b : Bundle) → is_retried r safe n b ≡ true → ltb n 3 ≡ true
retried_early r safe n b h = ground (arith, h)

settle_end :
    (now : ℕ) (c : Claim) (db : Db) (job : Job) (retried : Bool) (end : TaskEnd ProcessingResult)
    → db.jobs c.worker_job_id ≡ some job
    → holds_lease c job ≡ true
    → (retried ≡ true → ltb c.attempt_number 3 ≡ true)
    → Ends retried (some end)
    → (settle now c end db).0 ≡ (if retried then nack else ack)
unfolding settle settle_success settle_success_row settle_failure settle_failure_row
    classify_failure
settle_end now c db job retried (returned r) row lease early h =
    ap (λ o. (settle_success_row now c r db o).0) row ∙ ground (arith, lease, h)
settle_end now c db job retried (raised e) row lease early (inl (t, same)) =
    let small = early t in
    subst (λ z. (settle now c (raised z) db).0 ≡ (if retried then nack else ack)) (sym same)
      (ap (λ o. (settle_failure_row now c FailureCode.mcp_transport db o).0) row
        ∙ ground (arith, lease, t, small))
settle_end now c db job retried (raised e) row lease early (inr (t, same)) =
    subst (λ z. (settle now c (raised z) db).0 ≡ (if retried then nack else ack)) (sym same)
      (ap (λ o. (settle_failure_row now c FailureCode.internal_error db o).0) row
        ∙ ground (arith, lease, t))

-- Where no step of the processor raises one of the exceptions that the lifecycle tells apart, and the
-- holder of the lease settles the end of the task, the message is nacked exactly if the scope is
-- safe, no step before the report raises, the failures of the settled bundle are of the transport
-- alone and it has no result, and the attempt is the first or the second; else it is acked.
pub retried_exactly :
    (r : Raises) (safe : Bool) (s : Settings) (is_aws : Bool) (owned : Result → Bool)
    (answers : ℕ → Answer) (bundle : Bundle) (now : ℕ) (c : Claim) (db : Db) (job : Job)
    (end : TaskEnd ProcessingResult)
    → RaisesOther r
    → db.jobs c.worker_job_id ≡ some job
    → holds_lease c job ≡ true
    → (call r safe s is_aws c.attempt_number owned answers bundle).1 ≡ some end
    → (settle now c end db).0
      ≡ (if is_retried r safe c.attempt_number (settled_bundle owned bundle) then nack else ack)
retried_exactly r safe s is_aws owned answers bundle now c db job end others row lease e =
    let retried = is_retried r safe c.attempt_number (settled_bundle owned bundle) in
    settle_end now c db job retried end row lease
      (retried_early r safe c.attempt_number (settled_bundle owned bundle))
      (subst (Ends retried) e
        (call-Ends r s is_aws c.attempt_number owned answers bundle others safe))
