-- ===== src/Worker/Discovery.antt =====
-- rca-worker/src/sre_rca_worker/integrations/mcp/discovery.py and capability_resolver.py: which tools
-- of the servers the specialists get. A capability is a number that is only compared. The match of a
-- name with the pattern of an entry, SHA-256 and the answer of each server are arguments.
pub mod Failures
pub mod Sole
pub mod Annotations
pub mod ReadOnly
use cloud_sre_ai_agent.Prelude.{
  ℕ, ◌==◌, Bool, true, false, not, ◌&&◌, ◌||◌, Option, none, some, List, [], ◌∷◌, ◌++◌, map, keep,
  any, all, length, if◌then◌else◌,
}
use cloud_sre_ai_agent.Prelude.Text.{codes}
use cloud_sre_ai_agent.Backend.Alerts.Json.{Text, text_eq, Json, bool, Fields, end, field, get}
use cloud_sre_ai_agent.Worker.Analysis.{
  Kind, Code, mcp_timeout, mcp_transport, mcp_result_invalid, is_nil, same_kind,
}
use cloud_sre_ai_agent.Worker.Analysis.Branches.{order, Failure, AllowedTool, Capabilities}

-- What the code calls: `re.fullmatch` of a pattern and a text, the bytes of `json.dumps` with sorted
-- keys, and SHA-256 as hexadecimal digits.
pub record Matching : Type 0 where
  pub fullmatch : Text → Text → Bool
  pub dumps : Json → List ℕ
  pub sha256 : List ℕ → Text

unfoldable pub schema_hash : Matching → Json → Text
schema_hash m s = m.sha256 (m.dumps s)

-- `ManifestEntry`, whose validator makes `input_schema_hash` the hash of its schema
pub record Entry : Type 0 where
  pub endpoint_identity : Kind
  pub capability : ℕ
  pub tool_name_pattern : Text
  pub input_schema : Json

-- `DiscoveredTool`
pub record Tool : Type 0 where
  pub name : Text
  pub input_schema : Json
  pub annotations : Fields

abbrev pub sole_of {ℓ} : {A : Type ℓ} → List A → Option A
sole_of (a ∷ []) = some a
sole_of _ = none

abbrev pub is_entry : ℕ → Kind → Entry → Bool
is_entry capability endpoint e =
    e.capability == capability && same_kind e.endpoint_identity endpoint

-- `is True`
abbrev pub is_true : Option Json → Bool
is_true (some (bool true)) = true
is_true _ = false

-- `is False`, where a missing value is False
abbrev pub is_false_or_missing : Option Json → Bool
is_false_or_missing none = true
is_false_or_missing (some (bool false)) = true
is_false_or_missing _ = false

abbrev pub known_annotations : List Text
known_annotations =
    codes "title"
    ∷ codes "readOnlyHint"
    ∷ codes "destructiveHint"
    ∷ codes "idempotentHint"
    ∷ codes "openWorldHint"
    ∷ []

unfoldable pub is_known : Text → Bool
is_known key = any (λ k. text_eq k key) known_annotations

-- `set(tool.annotations) <= {...}`
unfoldable pub has_known_keys : Fields → Bool
has_known_keys end = true
has_known_keys (field key v rest) = is_known key && has_known_keys rest

-- The condition on a discovered tool
unfoldable pub is_match : Matching → Entry → Tool → Bool
is_match m e t =
    m.fullmatch e.tool_name_pattern t.name
    && is_true (get (codes "readOnlyHint") t.annotations)
    && is_false_or_missing (get (codes "destructiveHint") t.annotations)
    && has_known_keys t.annotations
    && text_eq (schema_hash m t.input_schema) (schema_hash m e.input_schema)

abbrev pub allow : ℕ → Entry → Tool → AllowedTool
allow capability e t = record {
  name = t.name;
  capability = capability;
  endpoint_identity = e.endpoint_identity;
  input_schema = e.input_schema;
}

abbrev pub allow_sole : ℕ → Entry → Option Tool → Option AllowedTool
allow_sole capability e none = none
allow_sole capability e (some t) = some (allow capability e t)

-- The tool of one capability: `none` where the entry or the tool is not unique
abbrev pub tool_for : Matching → List Tool → ℕ → Option Entry → Option AllowedTool
tool_for m discovered capability none = none
tool_for m discovered capability (some e) =
    allow_sole capability e (sole_of (keep (is_match m e) discovered))

unfoldable pub resolve_one : Matching → List Entry → List Tool → Kind → ℕ → Option AllowedTool
resolve_one m manifest discovered endpoint capability =
    tool_for m discovered capability (sole_of (keep (is_entry capability endpoint) manifest))

abbrev pub add_tool : Option AllowedTool → Option (List AllowedTool) → Option (List AllowedTool)
add_tool (some t) (some tools) = some (t ∷ tools)
add_tool _ _ = none

-- The loop of `CapabilityResolver.resolve`: `none` is its early return.
unfoldable pub resolve_all :
    Matching → List Entry → List Tool → Kind → List ℕ → Option (List AllowedTool)
resolve_all m manifest discovered endpoint [] = some []
resolve_all m manifest discovered endpoint (c ∷ cs) =
    add_tool (resolve_one m manifest discovered endpoint c)
      (resolve_all m manifest discovered endpoint cs)

abbrev pub or_empty : Option (List AllowedTool) → List AllowedTool
or_empty none = []
or_empty (some tools) = tools

-- `CapabilityResolver.resolve`
unfoldable pub resolve_tools : Matching → List ℕ → List Entry → List Tool → Kind → List AllowedTool
resolve_tools m required manifest discovered endpoint =
    or_empty (resolve_all m manifest discovered endpoint required)

-- What happens at one server: no time is left, an exception, or the tools that it lists.
pub data Answer : Type 0 where
  no_time timeout_error connection_error other_error : Answer
  listed : List Tool → Answer

-- `discover_one`: the tools and the failure
unfoldable pub discover_one :
    Matching → Kind → List Entry → List ℕ → Answer → List AllowedTool × Option Failure
discover_one m k entries required no_time =
    ([], some (record { specialist = k; code = mcp_timeout }))
discover_one m k entries required timeout_error =
    ([], some (record { specialist = k; code = mcp_timeout }))
discover_one m k entries required connection_error =
    ([], some (record { specialist = k; code = mcp_transport }))
discover_one m k entries required other_error =
    ([], some (record { specialist = k; code = mcp_result_invalid }))
discover_one m k entries required (listed tools) = (resolve_tools m required entries tools k, none)

-- Whether a specialist is one of the candidates: it requires capabilities, each with one entry.
unfoldable pub is_candidate : List Entry → (Kind → List ℕ) → Kind → Bool
is_candidate manifest required k =
    not (is_nil (required k))
    && all
        (λ c.
          length
            (keep (λ e. e.capability == c) (keep (λ e. same_kind e.endpoint_identity k) manifest))
          == 1)
        (required k)

abbrev pub endpoint_entries : List Entry → Kind → List Entry
endpoint_entries manifest k = keep (λ e. same_kind e.endpoint_identity k) manifest

-- What is discovered for a specialist; one that is no candidate has neither tools nor a failure.
unfoldable pub discovered_for :
    Matching
    → List Entry
    → (Kind → List ℕ)
    → (Kind → Answer)
    → Kind
    → List AllowedTool × Option Failure
discovered_for m manifest required answers k =
    if is_candidate manifest required k
    then discover_one m k (endpoint_entries manifest k) (required k) (answers k)
    else ([], none)

abbrev pub present : List (Option Failure) → List Failure
present [] = []
present (none ∷ os) = present os
present (some f ∷ os) = f ∷ present os

-- `discover_capabilities`, given whether there is a scope, its provider is GCP and it is safe
unfoldable pub discover_capabilities :
    Bool → Matching → List Entry → (Kind → List ℕ) → (Kind → Answer) → Capabilities
discover_capabilities false m manifest required answers = record {
  for_specialist = λ k. [];
  discovery_failures = [];
}
discover_capabilities true m manifest required answers = record {
  for_specialist = λ k. (discovered_for m manifest required answers k).0;
  discovery_failures = present (map (λ k. (discovered_for m manifest required answers k).1) order);
}
