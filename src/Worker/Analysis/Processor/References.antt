-- ===== src/Worker/Analysis/Processor/References.antt =====
-- `_known_evidence` of the processor of application/rca/processor.py.
use cloud_sre_ai_agent.Prelude.{
  ◌≡◌, refl, ap, ℕ, true, ◌||◌, List, [], ◌∷◌, ◌++◌, any, inl, inr, Bool-cases, arith, ◌==◌,
  if◌then◌else◌,
}
use cloud_sre_ai_agent.Worker.Waterfall.{elem, distinct}
use cloud_sre_ai_agent.Worker.Waterfall.Sets.{elem-append, distinct-append}
use cloud_sre_ai_agent.Worker.Analysis.Branches.{Result}
use cloud_sre_ai_agent.Worker.Analysis.Processor.{
  add_references, known_evidence_from, known_evidence,
}

abbrev add_one : List ℕ → ℕ → List ℕ
add_one references k = if elem k references then references else references ++ (k ∷ [])

elem-add_one : (j k : ℕ) (xs : List ℕ) → elem j (add_one xs k) ≡ (elem j xs || k == j)
elem-add_one j k xs = elim (Bool-cases (elem k xs)) [
  | inl t ↦ elim (Bool-cases (k == j)) [
    | inl u ↦ let same : k ≡ j = ground arith in ground (arith, t, u, ap (λ x. elem x xs) same)
    | inr u ↦ ground (arith, t, u)
  ]
  | inr t ↦ ground (arith, t, elem-append j xs (k ∷ []))
]

distinct-add_one : (k : ℕ) (xs : List ℕ) → distinct xs ≡ true → distinct (add_one xs k) ≡ true
unfolding distinct
distinct-add_one k xs h = elim (Bool-cases (elem k xs)) [
  | inl t ↦ ground (arith, t, h)
  | inr t ↦
      let d = distinct-append xs (k ∷ []) h refl (λ j u. elim (Bool-cases (k == j)) [
        | inl v ↦
            let same : k ≡ j = ground arith in
            absurd (ground (arith, t, u, ap (λ x. elem x xs) same))
        | inr v ↦ ground (arith, v)
      ]) in
      ground (arith, t, d)
]

elem-add_references :
    (j : ℕ) (xs ks : List ℕ) → elem j (add_references xs ks) ≡ (elem j xs || elem j ks)
unfolding add_references
elem-add_references j xs [] = ground arith
elem-add_references j xs (k ∷ ks) =
    ground (arith, elem-add_references j (add_one xs k) ks, elem-add_one j k xs)

distinct-add_references :
    (xs ks : List ℕ) → distinct xs ≡ true → distinct (add_references xs ks) ≡ true
unfolding add_references
distinct-add_references xs [] h = h
distinct-add_references xs (k ∷ ks) h =
    distinct-add_references (add_one xs k) ks (distinct-add_one k xs h)

elem-known_evidence_from :
    (j : ℕ) (xs : List ℕ) (rs : List Result)
    → elem j (known_evidence_from xs rs) ≡ (elem j xs || any (λ r. elem j r.known_evidence) rs)
unfolding known_evidence_from
elem-known_evidence_from j xs [] = ground arith
elem-known_evidence_from j xs (r ∷ rs) = ground (
  arith,
  elem-known_evidence_from j (add_references xs r.known_evidence) rs,
  elem-add_references j xs r.known_evidence,
)

distinct-known_evidence_from :
    (xs : List ℕ) (rs : List Result)
    → distinct xs ≡ true
    → distinct (known_evidence_from xs rs) ≡ true
unfolding known_evidence_from
distinct-known_evidence_from xs [] h = h
distinct-known_evidence_from xs (r ∷ rs) h =
    distinct-known_evidence_from (add_references xs r.known_evidence) rs
      (distinct-add_references xs r.known_evidence h)

-- The known evidence has each reference once, and exactly those that some result has.
pub known_evidence_exact :
    (rs : List Result)
    → (distinct (known_evidence rs) ≡ true)
      × ((j : ℕ) → elem j (known_evidence rs) ≡ any (λ r. elem j r.known_evidence) rs)
unfolding distinct
known_evidence_exact rs =
    (distinct-known_evidence_from [] rs refl, λ j. elem-known_evidence_from j [] rs)
