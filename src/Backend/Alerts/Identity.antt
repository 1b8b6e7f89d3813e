-- ===== src/Backend/Alerts/Identity.antt =====
-- backend/src/sre_agent/domain/alerts/identity.py: the key that groups alerts into incidents. SHA-256
-- is an argument; a source id stands as its canonical text, `str(source_id)`.
pub mod Utf8
pub mod Encode
pub mod Injective
use cloud_sre_ai_agent.Prelude.{
  ℕ, ◌/◌, ◌%◌, ◌+◌, ◌^◌, Bool, true, false, ◌||◌, Option, none, some, List, [], ◌∷◌, ◌++◌, ltb,
  if◌then◌else◌, String, length,
}
use cloud_sre_ai_agent.Prelude.Text.{codes}
use cloud_sre_ai_agent.Backend.Alerts.Json.{Text, strip, is_empty}
use cloud_sre_ai_agent.Backend.Alerts.Labels.{ValidationError}

-- `part.encode("utf-8")` of one character
unfoldable pub utf8_char : ℕ → List ℕ
utf8_char c =
    if ltb c 0x80
    then c ∷ []
    else if ltb c 0x800
    then (0xc0 + c / 64) ∷ (0x80 + c % 64) ∷ []
    else if ltb c 0x10000
    then (0xe0 + c / 4096) ∷ (0x80 + c / 64 % 64) ∷ (0x80 + c % 64) ∷ []
    else (0xf0 + c / 262144) ∷ (0x80 + c / 4096 % 64) ∷ (0x80 + c / 64 % 64) ∷ (0x80 + c % 64) ∷ []

unfoldable pub utf8 : Text → List ℕ
unfolding utf8_char
utf8 [] = []
utf8 (c ∷ cs) = utf8_char c ++ utf8 cs

-- `n.to_bytes(4, "big")`, for n below 2^32; a longer part raises OverflowError.
unfoldable pub to_bytes4 : ℕ → List ℕ
to_bytes4 n = (n / 16777216) ∷ (n / 65536 % 256) ∷ (n / 256 % 256) ∷ (n % 256) ∷ []

-- `_encode`
unfoldable pub encode : List Text → List ℕ
unfolding to_bytes4 utf8
encode [] = []
encode (part ∷ parts) = to_bytes4 (length (utf8 part)) ++ (utf8 part ++ encode parts)

pub record IncidentIdentity : Type 0 where
  pub key : Text
  pub version : ℕ
  pub parts : List Text
  pub errors : List ValidationError

-- `value.strip() if isinstance(value, str) else ""`
abbrev pub strip_or_empty : Option Text → Text
strip_or_empty none = []
strip_or_empty (some t) = strip t

abbrev pub required : String → Text → List ValidationError
required field t = if is_empty t then record { field = field; code = "required" } ∷ [] else []

abbrev pub or_text : Text → Text → Text
or_text a b = if is_empty a then b else a

unfoldable pub identity_errors : Text → Text → Text → List ValidationError
identity_errors folder alert_name fingerprint =
    required "folder" folder
    ++ (required "alertname" alert_name ++ required "fingerprint" fingerprint)

unfoldable pub identity_parts : Text → Text → Text → Text → List Text
identity_parts source folder alert_name fingerprint =
    if is_empty folder || is_empty alert_name || is_empty fingerprint
    then codes "2" ∷ source ∷ codes "__invalid__" ∷ or_text fingerprint (codes "__missing__") ∷ []
    else codes "2" ∷ source ∷ folder ∷ alert_name ∷ []

-- `make_incident_identity_v2`
unfoldable pub make_incident_identity_v2 :
    (List ℕ → Text) → Text → Option Text → Option Text → Text → IncidentIdentity
make_incident_identity_v2 sha256 source folder alert_name fingerprint =
    let f = strip_or_empty folder in
    let a = strip_or_empty alert_name in
    let p = strip fingerprint in
    record {
      key = sha256 (encode (identity_parts source f a p));
      version = 2;
      parts = identity_parts source f a p;
      errors = identity_errors f a p;
    }
