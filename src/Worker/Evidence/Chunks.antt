-- ===== src/Worker/Evidence/Chunks.antt =====
-- The chunks of build_evidence_chunks of chunking.py: together they are the text, within the limits.
use native.Mathlib.Nat.{div-mul-le_self, div-lt_iff_lt-mul, zero-mul, lt-div-mul-add}
use cloud_sre_ai_agent.Prelude.{
  ◌≡◌, refl, sym, ap, ◌∙◌, ℕ, zero, suc, ◌+◌, ◌-◌, ◌*◌, ◌≤◌, ◌<◌, Bool, true, not, ◌&&◌, Option,
  none, some, List, [], ◌∷◌, ◌++◌, map, length, take, drop, length-take, length-drop,
  take-append-drop, ltb, leb, all, if◌then◌else◌, if-true, and_then, arith, ◌==◌,
}
use cloud_sre_ai_agent.Backend.Alerts.Json.{Text}
use cloud_sre_ai_agent.Worker.Evidence.{
  Chunk, valid_limits, chunk, prepend, chunks, chunk_count_of, build_evidence_chunks,
}

abbrev pub contents : List Chunk → Text
contents [] = []
contents (c ∷ cs) = c.content ++ contents cs

abbrev pub from : ℕ → ℕ → List ℕ
from zero index = []
from (suc n) index = index ∷ from n (suc index)

-- The number of chunks is the least that covers the text.
chunk_count_covers :
    (size c : ℕ)
    → 0 < c
    → (size ≤ chunk_count_of size c * c) × (chunk_count_of size c * c < size + c)
chunk_count_covers size c h =
    let up = lt-div-mul-add {a = size + c - 1} h in
    let down = div-mul-le_self (size + c - 1) c in (omega (arith, up), omega (arith, down))

factor_pos : (n c : ℕ) → 0 < n * c → 0 < n
factor_pos zero c h = absurd (omega arith)
factor_pos (suc n) c h = omega arith

count_le : (size c m : ℕ) → 0 < c → size ≤ c * m → chunk_count_of size c ≤ m
count_le size c m h le =
    let lt = (div-lt_iff_lt-mul {k = c} {x = size + c - 1} {y = suc m} h).1 (omega arith) in
    omega (arith, lt)

drop_nil : (n : ℕ) → drop {A = ℕ} n [] ≡ []
drop_nil zero = refl
drop_nil (suc n) = refl

drop-drop : (m n : ℕ) (xs : Text) → drop m (drop n xs) ≡ drop (n + m) xs
drop-drop m zero xs = ap (λ k. drop k xs) (omega arith)
drop-drop zero (suc n) [] = sym (drop_nil (suc n + 0))
drop-drop (suc m) (suc n) [] = sym (drop_nil (suc n + suc m))
drop-drop m (suc n) (x ∷ xs) =
    let e : suc (n + m) ≡ suc n + m = omega arith in drop-drop m n xs ∙ ap (λ k. drop k (x ∷ xs)) e

drop_all : (n : ℕ) (xs : Text) → length xs ≤ n → drop n xs ≡ []
drop_all zero [] h = refl
drop_all zero (x ∷ xs) h = absurd (omega arith)
drop_all (suc n) [] h = refl
drop_all (suc n) (x ∷ xs) h = drop_all n xs (omega arith)

-- A chunk of a text in `count` chunks of `size` characters: none is empty or too long.
abbrev pub fits : ℕ → ℕ → ℕ → Bool → Chunk → Bool
fits reference size count truncated c =
    c.reference == reference
    && c.chunk_count == count
    && ltb 0 (length c.content)
    && leb (length c.content) size
    && (if truncated then c.truncated else not c.truncated)

module _ (reference size count : ℕ) (bounded : Text) (truncated : Bool)
    (size_ok : (0 < size) × (size ≤ 8000)) (count_ok : (0 < count) × (count ≤ 4)) where
  abbrev make : ℕ → Option Chunk
  make = chunk reference bounded size count truncated

  abbrev at : ℕ → Chunk
  at index = record {
    reference = reference;
    chunk_index = index;
    chunk_count = count;
    content = take size (drop (index * size) bounded);
    truncated = truncated;
  }

  chunk_some : (index : ℕ) → make index ≡ some (at index)
  unfolding chunk
  chunk_some index =
      let l = length-take size (drop (index * size) bounded) in
      if-true _ (some (at index)) none (ground (arith, count_ok, size_ok, l))

  chunk_fits :
      (index : ℕ)
      → index * size < length bounded
      → fits reference size count truncated (at index) ≡ true
  chunk_fits index h =
      let l = length-take size (drop (index * size) bounded) in
      let m = length-drop (index * size) bounded in
      let a : 0 < length (take size (drop (index * size) bounded)) =
        omega (arith, l, m, size_ok.0) in
      ground (arith, a, l)

  chunks_cover :
      (n index : ℕ)
      → length bounded ≤ index * size + n * size
      → index * size + n * size < length bounded + size
      → (cs : List Chunk) × (chunks make n index ≡ some cs)
        × (contents cs ≡ drop (index * size) bounded)
        × (map (λ c. c.chunk_index) cs ≡ from n index)
        × (all (fits reference size count truncated) cs ≡ true)
        × (length cs ≡ n)
  unfolding chunks
  chunks_cover zero index le lt =
      ([], refl, sym (drop_all (index * size) bounded (omega arith)), refl, refl, refl)
  chunks_cover (suc n) index le lt =
      let ih = chunks_cover n (suc index) (omega arith) (omega arith) in
      let next : suc index * size ≡ index * size + size = omega arith in
      let here : index * size < length bounded = omega arith in
      (
        at index ∷ ih.0,
        ap (λ o. and_then o (λ c. prepend c (chunks make n (suc index)))) (chunk_some index)
            ∙ ap (prepend (at index)) ih.1,
        ap (λ t. take size (drop (index * size) bounded) ++ t)
              (ih.2 ∙ ap (λ k. drop k bounded) next ∙ sym (drop-drop size (index * size) bounded))
            ∙ take-append-drop size (drop (index * size) bounded),
        ap (λ js. index ∷ js) ih.3,
        ground (arith, chunk_fits index here, ih.4),
        ap suc ih.5,
      )

-- All chunks of a text that `count` chunks cover.
chunks_from_start :
    (reference size count m : ℕ) (bounded : Text) (truncated : Bool)
    → (0 < size) × (size ≤ 8000)
    → (0 < count) × (count ≤ 4)
    → count ≤ m
    → (length bounded ≤ count * size) × (count * size < length bounded + size)
    → (cs : List Chunk) × (chunks (chunk reference bounded size count truncated) count 0 ≡ some cs)
      × (contents cs ≡ bounded)
      × (length cs ≤ m)
      × (map (λ c. c.chunk_index) cs ≡ from (length cs) 0)
      × (all (fits reference size (length cs) truncated) cs ≡ true)
chunks_from_start reference size count m bounded truncated size_ok count_ok few covers =
    let r =
      chunks_cover reference size count bounded truncated size_ok count_ok count 0
        (omega (arith, covers.0)) (omega (arith, covers.1)) in
    (
      r.0,
      r.1,
      r.2 ∙ ap (λ k. drop k bounded) (zero-mul size),
      omega (arith, r.5, few),
      r.3 ∙ ap (λ k. from k 0) (sym r.5),
      ap (λ k. all (fits reference size k truncated) r.0) r.5 ∙ r.4,
    )

-- Within valid limits and for a text that is not empty, the chunks are made, and their contents
-- together are the text, up to the limit of characters. There are at most max_chunks of them, numbered
-- from 0, each says how many there are and whether the text was longer than the limit, and none is
-- empty or longer than chunk_chars.
pub build_evidence_chunks_cover :
    (reference : ℕ) (canonical : Text) (chunk_chars max_chunks max_total_chars : ℕ)
    → 0 < length canonical
    → valid_limits chunk_chars max_chunks max_total_chars ≡ true
    → (cs : List Chunk) × (build_evidence_chunks reference canonical chunk_chars max_chunks
          max_total_chars
        ≡ some cs)
      × (contents cs ≡ take max_total_chars canonical)
      × (length cs ≤ max_chunks)
      × (map (λ c. c.chunk_index) cs ≡ from (length cs) 0)
      × (all (fits reference chunk_chars (length cs) (ltb max_total_chars (length canonical))) cs
          ≡ true)
unfolding build_evidence_chunks valid_limits
build_evidence_chunks_cover reference canonical c m t h v =
    let bounded = take t canonical in
    let count = chunk_count_of (length bounded) c in
    let size = length-take t canonical in
    let pos : 0 < c = ground arith in
    let covers = chunk_count_covers (length bounded) c pos in
    let some_text : 0 < length bounded = ground (arith, size) in
    let few : count ≤ m = count_le (length bounded) c m pos (ground (arith, size)) in
    let one : 0 < count = factor_pos count c (omega (arith, covers.0)) in
    let four : count ≤ 4 = ground (arith, few) in
    let eight : c ≤ 8000 = ground arith in
    let r =
      chunks_from_start reference c count m bounded (ltb t (length canonical)) (pos, eight)
        (one, four) few covers in
    (r.0, if-true _ _ none v ∙ r.1, r.2, r.3, r.4, r.5)
