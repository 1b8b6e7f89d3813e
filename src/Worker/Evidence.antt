-- ===== src/Worker/Evidence.antt =====
-- rca-worker/src/sre_rca_worker/domain/evidence/chunking.py: the slices of a JSON text that a
-- specialist reads as evidence. The canonical text of the JSON, `json.dumps`, is an argument.
pub mod Chunks
use cloud_sre_ai_agent.Prelude.{
  ℕ, zero, suc, ◌+◌, ◌-◌, ◌*◌, ◌/◌, Bool, true, false, not, ◌&&◌, Option, none, some, List, [], ◌∷◌,
  length, take, drop, ltb, leb, if◌then◌else◌, and_then,
}
use cloud_sre_ai_agent.Backend.Alerts.Json.{Text}

-- `EvidenceChunk`; the reference is the id of the evidence
pub record Chunk : Type 0 where
  pub reference : ℕ
  pub chunk_index : ℕ
  pub chunk_count : ℕ
  pub content : Text
  pub truncated : Bool

-- `_validate_limits`: whether it raises nothing
unfoldable pub valid_limits : ℕ → ℕ → ℕ → Bool
valid_limits chunk_chars max_chunks max_total_chars =
    ltb 0 chunk_chars
    && leb chunk_chars 8000
    && ltb 0 max_chunks
    && leb max_chunks 4
    && ltb 0 max_total_chars
    && leb max_total_chars 32000
    && not (ltb (chunk_chars * max_chunks) max_total_chars)

-- `EvidenceChunk(...)`: `none` is a ValidationError.
unfoldable pub chunk : ℕ → Text → ℕ → ℕ → Bool → ℕ → Option Chunk
chunk reference bounded chunk_chars chunk_count truncated index =
    let content = take chunk_chars (drop (index * chunk_chars) bounded) in
    if ltb 0 chunk_count && leb chunk_count 4 && leb (length content) 8000
    then some (record {
      reference = reference;
      chunk_index = index;
      chunk_count = chunk_count;
      content = content;
      truncated = truncated;
    })
    else none

abbrev pub prepend : Chunk → Option (List Chunk) → Option (List Chunk)
prepend c none = none
prepend c (some cs) = some (c ∷ cs)

-- The chunks of `n` indices, from `index` on.
unfoldable pub chunks : (ℕ → Option Chunk) → ℕ → ℕ → Option (List Chunk)
chunks make zero index = some []
chunks make (suc n) index = and_then (make index) (λ c. prepend c (chunks make n (suc index)))

abbrev pub chunk_count_of : ℕ → ℕ → ℕ
chunk_count_of size chunk_chars = (size + chunk_chars - 1) / chunk_chars

-- `build_evidence_chunks`: `none` is a ValueError.
unfoldable pub build_evidence_chunks : ℕ → Text → ℕ → ℕ → ℕ → Option (List Chunk)
build_evidence_chunks reference canonical chunk_chars max_chunks max_total_chars =
    let truncated = ltb max_total_chars (length canonical) in
    let bounded = take max_total_chars canonical in
    let count = chunk_count_of (length bounded) chunk_chars in
    if valid_limits chunk_chars max_chunks max_total_chars
    then chunks (chunk reference bounded chunk_chars count truncated) count 0
    else none
