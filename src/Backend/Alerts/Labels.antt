-- ===== src/Backend/Alerts/Labels.antt =====
-- backend/src/sre_agent/domain/alerts/provider.py and severity.py: what single labels decide.
use cloud_sre_ai_agent.Prelude.{
  ℕ, ◌-◌, ◌&&◌, ◌||◌, Option, none, some, List, [], ◌∷◌, map, leb, ◌==◌, if◌then◌else◌, String,
}
use cloud_sre_ai_agent.Prelude.Text.{codes}
use cloud_sre_ai_agent.Backend.Alerts.Json.{Text, text_eq, Json, text, Fields, get, strip, is_empty}

pub data Provider : Type 0 where
  gcp aws : Provider

-- `AlertValidationError`
pub record ValidationError : Type 0 where
  pub field : String
  pub code : String

pub record ProviderDecision : Type 0 where
  pub provider : Provider
  pub project_id : Option Text
  pub errors : List ValidationError

abbrev pub project_key : String
project_key = "resource.label.project_id"

abbrev pub gcp_invalid : ProviderDecision
gcp_invalid = record {
  provider = gcp;
  project_id = none;
  errors = record { field = project_key; code = "invalid_value" } ∷ [];
}

abbrev pub gcp_project : Text → ProviderDecision
gcp_project stripped =
    if is_empty stripped
    then gcp_invalid
    else record { provider = gcp; project_id = some stripped; errors = [] }

abbrev pub decide_provider : Option Json → ProviderDecision
decide_provider none = record { provider = aws; project_id = none; errors = [] }
decide_provider (some (text t)) = gcp_project (strip t)
decide_provider (some _) = gcp_invalid

unfoldable pub detect_provider : Fields → ProviderDecision
detect_provider labels = decide_provider (get (codes project_key) labels)

pub data Severity : Type 0 where
  sev1 sev3 unmapped : Severity

pub record SeverityDecision : Type 0 where
  pub raw : Option Text
  pub canonical : Severity
  pub warnings : List String

-- `str.upper()` of the characters whose upper case is an ASCII letter; all others cannot become part
-- of the words that the code compares with, and stay.
unfoldable pub upper_char : ℕ → ℕ
upper_char c =
    if leb 97 c && leb c 122
    then c - 32
    else if c == 0x131
    then 73
    else if c == 0x17f
    then 83
    else c

unfoldable pub upper : Text → Text
unfolding upper_char
upper = map upper_char

abbrev pub raw_text : Option Json → Option Text
raw_text (some (text t)) = some t
raw_text _ = none

abbrev pub normalized_severity : Option Text → Text
normalized_severity none = []
normalized_severity (some t) = upper (strip t)

unfoldable pub map_severity : Option Json → SeverityDecision
map_severity raw =
    let s = normalized_severity (raw_text raw) in
    if text_eq s (codes "ERROR")
    then record { raw = raw_text raw; canonical = sev1; warnings = [] }
    else if text_eq s (codes "WARN") || text_eq s (codes "WARNING")
    then record { raw = raw_text raw; canonical = sev3; warnings = [] }
    else record { raw = raw_text raw; canonical = unmapped; warnings = "severity_unmapped" ∷ [] }
