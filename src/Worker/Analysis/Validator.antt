-- ===== src/Worker/Analysis/Validator.antt =====
-- `SpecialistAnalysisValidator` of agents/specialists/validator.py: what it accepts.
use cloud_sre_ai_agent.Prelude.{
  ◌≡◌, refl, subst, ℕ, ◌≤◌, Bool, true, false, not, ◌&&◌, ◌||◌, List, [], ◌∷◌, ◌++◌, length, any,
  all, inl, inr, Bool-cases, arith, ltb,
}
use cloud_sre_ai_agent.Worker.Analysis.{
  Kind, metrics, trace, log, Code, analysis_input_truncated, Analysis, AnalysisStatus, complete,
  partial, failed, same_kind, is_complete, is_nil, is_stable, is_truncation, valid_analysis,
  valid_status, subset, cited, demote, with_truncation, Validation, accepted, rejected, validate,
  Observation,
}
use cloud_sre_ai_agent.Worker.Analysis.Branches.{is_validation_code}

pub same_kind_sound : (j k : Kind) → same_kind j k ≡ true → j ≡ k
same_kind_sound metrics metrics h = refl
same_kind_sound metrics trace h = cc
same_kind_sound metrics log h = cc
same_kind_sound trace metrics h = cc
same_kind_sound trace trace h = refl
same_kind_sound trace log h = cc
same_kind_sound log metrics h = cc
same_kind_sound log trace h = cc
same_kind_sound log log h = refl

all-append_one :
    (p : Code → Bool) (xs : List Code) (x : Code)
    → all p xs ≡ true
    → p x ≡ true
    → all p (xs ++ (x ∷ [])) ≡ true
all-append_one p [] x h k = ground (arith, k)
all-append_one p (y ∷ xs) x h k = ground (arith, h, all-append_one p xs x (ground (arith, h)) k)

any-append_one :
    (p : Code → Bool) (xs : List Code) (x : Code) → p x ≡ true → any p (xs ++ (x ∷ [])) ≡ true
any-append_one p [] x h = ground (arith, h)
any-append_one p (y ∷ xs) x h = ground (arith, any-append_one p xs x h)

is_nil-append_one : (xs : List Code) (x : Code) → is_nil (xs ++ (x ∷ [])) ≡ false
is_nil-append_one [] x = refl
is_nil-append_one (y ∷ xs) x = refl

valid_status-demote :
    (s : AnalysisStatus) (os : List Observation) (cs : List Code) (c : Code)
    → valid_status s os cs ≡ true
    → valid_status (demote s) os (cs ++ (c ∷ [])) ≡ true
valid_status-demote complete os cs c h = ground (arith, h, is_nil-append_one cs c)
valid_status-demote partial os cs c h = ground (arith, h, is_nil-append_one cs c)
valid_status-demote failed os cs c h = h

with_truncation-valid :
    (a : Analysis) → valid_analysis a ≡ true → valid_analysis (with_truncation a) ≡ true
unfolding valid_analysis
with_truncation-valid a h =
    let s =
      valid_status-demote a.status a.observations a.missing_evidence analysis_input_truncated
        (ground (arith, h)) in
    let c =
      all-append_one is_stable a.missing_evidence analysis_input_truncated (ground (arith, h))
        refl in
    ground (arith, h, s, c)

demote-incomplete : (s : AnalysisStatus) → is_complete (demote s) ≡ false
demote-incomplete complete = refl
demote-incomplete partial = refl
demote-incomplete failed = refl

truncated_incomplete :
    (s : AnalysisStatus) (os : List Observation) (cs : List Code)
    → valid_status s os cs ≡ true
    → any is_truncation cs ≡ true
    → is_complete s ≡ false
truncated_incomplete complete os [] h t = cc
truncated_incomplete complete os (c ∷ cs) h t = absurd (ground (arith, h))
truncated_incomplete partial os cs h t = refl
truncated_incomplete failed os cs h t = refl

-- What the validator promises of an analysis: its form, its specialist, its size, the evidence that
-- it cites, and that it admits to a truncated input.
pub record Promised (max_observations : ℕ) (expected : Kind) (owned : List ℕ)
    (input_truncated : Bool) (a : Analysis) : Type 0 where
  pub well_formed : valid_analysis a ≡ true
  pub own_kind : a.specialist ≡ expected
  pub few : length a.observations ≤ max_observations
  pub cites_owned : subset (cited a.observations) owned ≡ true
  pub admits :
      not input_truncated || (any is_truncation a.missing_evidence && not (is_complete a.status))
      ≡ true

accepted_back : (a b : Analysis) → accepted a ≡ accepted b → a ≡ b
accepted_back a b e = cc

keeps_promise :
    (n : ℕ) (k : Kind) (owned : List ℕ) (t : Bool) (a : Analysis)
    → valid_analysis a ≡ true
    → same_kind a.specialist k ≡ true
    → ltb n (length a.observations) ≡ false
    → subset (cited a.observations) owned ≡ true
    → (t ≡ true → any is_truncation a.missing_evidence ≡ true)
    → Promised n k owned t a
unfolding valid_analysis
keeps_promise n k owned t a v s l c h = record {
  well_formed = v;
  own_kind = same_kind_sound a.specialist k s;
  few = ground arith;
  cites_owned = c;
  admits = elim (Bool-cases t) [
    | inl e ↦ ground (
      arith,
      e,
      h e,
      truncated_incomplete a.status a.observations a.missing_evidence (ground (arith, v)) (h e),
    )
    | inr e ↦ ground (arith, e)
  ];
}

abbrev has_validation_code : Validation → Bool
has_validation_code (accepted a) = true
has_validation_code (rejected c) = is_validation_code c

validate-has_validation_code :
    (n : ℕ) (k : Kind) (owned : List ℕ) (t : Bool) (a : Analysis)
    → has_validation_code (validate n k owned t a) ≡ true
unfolding validate
validate-has_validation_code n k owned t a = ground arith

-- A draft that the validator rejects gets one of its two codes.
pub validate-rejected :
    (n : ℕ) (k : Kind) (owned : List ℕ) (t : Bool) (a : Analysis) (c : Code)
    → validate n k owned t a ≡ rejected c
    → is_validation_code c ≡ true
validate-rejected n k owned t a c h =
    subst (λ v. has_validation_code v ≡ true) h (validate-has_validation_code n k owned t a)

-- An analysis that the validator accepts is well formed, comes from the expected specialist, has at
-- most max_observations observations, which cite owned evidence only, and where the input was
-- truncated it says so and is not COMPLETE; and it has the observations of the draft.
pub validate-Promised :
    (n : ℕ) (k : Kind) (owned : List ℕ) (t : Bool) (a b : Analysis)
    → validate n k owned t a ≡ accepted b
    → Promised n k owned t b × (b.observations ≡ a.observations)
unfolding validate
validate-Promised n k owned t a b e =
    let v : valid_analysis a ≡ true = ground (arith, e) in
    let s : same_kind a.specialist k ≡ true = ground (arith, e) in
    let l : ltb n (length a.observations) ≡ false = ground (arith, e) in
    let c : subset (cited a.observations) owned ≡ true = ground (arith, e) in
    elim (Bool-cases (t && not (any is_truncation a.missing_evidence))) [
      | inl h ↦
          let same : accepted (with_truncation a) ≡ accepted b = ground (arith, e, v, s, l, c, h) in
          subst (λ z. Promised n k owned t z × (z.observations ≡ a.observations))
            (accepted_back (with_truncation a) b same)
            (
              keeps_promise n k owned t (with_truncation a) (with_truncation-valid a v) s l c (λ x.
                  any-append_one is_truncation a.missing_evidence analysis_input_truncated refl),
              refl,
            )
      | inr h ↦
          let same : accepted a ≡ accepted b = ground (arith, e, v, s, l, c, h) in
          subst (λ z. Promised n k owned t z × (z.observations ≡ a.observations))
            (accepted_back a b same)
            (keeps_promise n k owned t a v s l c (λ x. ground (arith, h, x)), refl)
    ]
