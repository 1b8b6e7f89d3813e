-- ===== src/Worker/Waterfall/Sets.antt =====
-- Lists of ids as sets, and the sorts of ids, of trace_waterfall.py.
use cloud_sre_ai_agent.Prelude.{
  ◌≡◌, refl, ap, ℕ, zero, suc, ◌+◌, ◌≤◌, Bool, true, false, ◌||◌, ◌&&◌, List, [], ◌∷◌, ◌++◌, inl,
  inr, Bool-cases, arith, length, take, keep, ◌==◌, if◌then◌else◌,
}
use cloud_sre_ai_agent.Worker.Waterfall.{
  Span, elem, add, union, distinct, insert_id, stable_span_ids,
}

pub elem-add : (j k : ℕ) (xs : List ℕ) → elem j (add k xs) ≡ (k == j || elem j xs)
unfolding add
elem-add j k xs = elim (Bool-cases (elem k xs)) [
  | inl t ↦ elim (Bool-cases (k == j)) [
    | inl u ↦ let same : k ≡ j = ground arith in ground (arith, t, u, ap (λ x. elem x xs) same)
    | inr u ↦ ground arith
  ]
  | inr t ↦ ground arith
]

pub elem-union : (j : ℕ) (xs ys : List ℕ) → elem j (union xs ys) ≡ (elem j xs || elem j ys)
unfolding union
elem-union j [] ys = refl
elem-union j (x ∷ xs) ys = ground (arith, elem-add j x (union xs ys), elem-union j xs ys)

pub distinct-add : (k : ℕ) (xs : List ℕ) → distinct xs ≡ true → distinct (add k xs) ≡ true
unfolding add distinct
distinct-add k xs h = ground arith

pub distinct-union : (xs ys : List ℕ) → distinct ys ≡ true → distinct (union xs ys) ≡ true
unfolding union
distinct-union [] ys h = h
distinct-union (x ∷ xs) ys h = distinct-add x (union xs ys) (distinct-union xs ys h)

pub elem-append : (j : ℕ) (xs ys : List ℕ) → elem j (xs ++ ys) ≡ (elem j xs || elem j ys)
elem-append j [] ys = refl
elem-append j (x ∷ xs) ys = ground (arith, elem-append j xs ys)

pub distinct-append :
    (xs ys : List ℕ)
    → distinct xs ≡ true
    → distinct ys ≡ true
    → ((k : ℕ) → elem k xs ≡ true → elem k ys ≡ false)
    → distinct (xs ++ ys) ≡ true
unfolding distinct
distinct-append [] ys h k d = k
distinct-append (x ∷ xs) ys h k d =
    let first = d x (ground arith) in
    let rest = distinct-append xs ys (ground arith) k (λ j u. d j (ground (arith, u))) in
    ground (arith, elem-append x xs ys, first, rest)

pub elem-take : (j n : ℕ) (xs : List ℕ) → elem j (take n xs) ≡ true → elem j xs ≡ true
elem-take j zero xs h = cc
elem-take j (suc n) [] h = cc
elem-take j (suc n) (x ∷ xs) h = elim (Bool-cases (x == j)) [
  | inl t ↦ ground arith
  | inr t ↦ let ih = elem-take j n xs (ground arith) in ground arith
]

pub distinct-take : (n : ℕ) (xs : List ℕ) → distinct xs ≡ true → distinct (take n xs) ≡ true
unfolding distinct
distinct-take zero xs h = refl
distinct-take (suc n) [] h = refl
distinct-take (suc n) (x ∷ xs) h =
    let ih = distinct-take n xs (ground arith) in
    elim (Bool-cases (elem x (take n xs))) [
      | inl t ↦ absurd (ground (arith, h, elem-take x n xs t))
      | inr t ↦ ground (arith, t, ih)
    ]

pub elem-keep : (j : ℕ) (p : ℕ → Bool) (xs : List ℕ) → elem j (keep p xs) ≡ (p j && elem j xs)
elem-keep j p [] = ground arith
elem-keep j p (x ∷ xs) = elim (Bool-cases (x == j)) [
  | inl t ↦ let same : x ≡ j = ground arith in ground (arith, t, elem-keep j p xs, ap p same)
  | inr t ↦ ground (arith, t, elem-keep j p xs)
]

pub distinct-keep : (p : ℕ → Bool) (xs : List ℕ) → distinct xs ≡ true → distinct (keep p xs) ≡ true
unfolding distinct
distinct-keep p [] h = refl
distinct-keep p (x ∷ xs) h =
    let ih = distinct-keep p xs (ground arith) in ground (arith, ih, elem-keep x p xs)

elem-insert_id :
    (spans : List Span) (j k : ℕ) (xs : List ℕ)
    → elem j (insert_id spans k xs) ≡ (k == j || elem j xs)
unfolding insert_id
elem-insert_id spans j k [] = refl
elem-insert_id spans j k (x ∷ xs) = ground (arith, elem-insert_id spans j k xs)

pub elem-stable_span_ids :
    (spans : List Span) (j : ℕ) (xs : List ℕ) → elem j (stable_span_ids spans xs) ≡ elem j xs
unfolding stable_span_ids
elem-stable_span_ids spans j [] = refl
elem-stable_span_ids spans j (x ∷ xs) =
    ground
      (arith, elem-insert_id spans j x (stable_span_ids spans xs), elem-stable_span_ids spans j xs)

distinct-insert_id :
    (spans : List Span) (k : ℕ) (xs : List ℕ)
    → elem k xs ≡ false
    → distinct xs ≡ true
    → distinct (insert_id spans k xs) ≡ true
unfolding insert_id distinct
distinct-insert_id spans k [] e h = ground arith
distinct-insert_id spans k (x ∷ xs) e h =
    let ih = distinct-insert_id spans k xs (ground arith) (ground arith) in
    ground (arith, ih, elem-insert_id spans x k xs)

pub distinct-stable_span_ids :
    (spans : List Span) (xs : List ℕ)
    → distinct xs ≡ true
    → distinct (stable_span_ids spans xs) ≡ true
unfolding stable_span_ids distinct
distinct-stable_span_ids spans [] h = refl
distinct-stable_span_ids spans (x ∷ xs) h =
    distinct-insert_id spans x (stable_span_ids spans xs)
      (ground (arith, elem-stable_span_ids spans x xs))
      (distinct-stable_span_ids spans xs (ground arith))

-- The list without the first occurrence of an id.
remove : ℕ → List ℕ → List ℕ
remove k [] = []
remove k (x ∷ xs) = let rest = remove k xs in if x == k then xs else x ∷ rest

length-remove : (k : ℕ) (xs : List ℕ) → elem k xs ≡ true → length (remove k xs) + 1 ≡ length xs
unfolding remove
length-remove k [] h = cc
length-remove k (x ∷ xs) h = elim (Bool-cases (x == k)) [
  | inl t ↦ ground arith
  | inr t ↦ let ih = length-remove k xs (ground arith) in ground arith
]

elem-remove :
    (j k : ℕ) (xs : List ℕ) → elem j xs ≡ true → (k == j) ≡ false → elem j (remove k xs) ≡ true
unfolding remove
elem-remove j k [] h e = cc
elem-remove j k (x ∷ xs) h e = elim (Bool-cases (x == j)) [
  | inl t ↦ ground arith
  | inr t ↦ let ih = elem-remove j k xs (ground arith) e in ground arith
]

-- A list of distinct elements is no longer than a list that has them all.
pub length-le_of_subset :
    (xs ys : List ℕ)
    → distinct xs ≡ true
    → ((k : ℕ) → elem k xs ≡ true → elem k ys ≡ true)
    → length xs ≤ length ys
unfolding distinct
length-le_of_subset [] ys h sub = omega arith
length-le_of_subset (x ∷ xs) ys h sub =
    let there = sub x (ground arith) in
    let ih = length-le_of_subset xs (remove x ys) (ground arith) λ k u. elim (Bool-cases (x == k)) [
      | inl t ↦
          let same : x ≡ k = ground arith in absurd (ground (arith, u, ap (λ z. elem z xs) same))
      | inr t ↦ elem-remove k x ys (sub k (ground (arith, u))) t
    ] in
    omega (arith, ih, length-remove x ys there)
