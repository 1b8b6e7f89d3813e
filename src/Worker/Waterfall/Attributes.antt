-- ===== src/Worker/Waterfall/Attributes.antt =====
-- `_safe_attributes` of rca-worker/src/sre_rca_worker/domain/evidence/trace_waterfall.py. The regular
-- expressions, the decoding of JSON web tokens and the parsing of addresses are arguments.
use cloud_sre_ai_agent.Prelude.{
  ℕ, ◌==◌, Bool, true, false, not, ◌&&◌, Option, none, some, List, [], ◌∷◌, ◌++◌, leb, any, all,
  keep, if◌then◌else◌, String,
}
use cloud_sre_ai_agent.Prelude.Text.{str_eq, codes}
use cloud_sre_ai_agent.Backend.Alerts.Json.{Text, text_eq}

-- A value of `_JSON_SCALAR`: a text, an integer from 0 on, or any other number or Boolean, which no
-- rule accepts.
pub data Scalar : Type 0 where
  text : Text → Scalar
  int : ℕ → Scalar
  other : ℕ → Scalar

pub record Attribute : Type 0 where
  pub key : String
  pub value : Scalar

-- `_is_compact_jwt`, the match of `_DIAGNOSTIC_LABEL_PATTERN`, the terms of a text in lower case, and
-- `str(ip_address(...))`, where `none` is a ValueError.
pub record Checks : Type 0 where
  pub is_compact_jwt : Text → Bool
  pub is_label : Text → Bool
  pub terms : Text → List Text
  pub address : Text → Option Text

abbrev pub mem_text : Text → List Text → Bool
mem_text t ts = any (text_eq t) ts

abbrev pub one_of : List String → Scalar → Bool
one_of words (text t) = any (λ w. text_eq t (codes w)) words
one_of words _ = false

abbrev pub between : ℕ → ℕ → Scalar → Bool
between lo hi (int n) = leb lo n && leb n hi
between lo hi _ = false

abbrev pub is_nil : List Text → Bool
is_nil [] = true
is_nil (_ ∷ _) = false

-- `_is_related_diagnostic_label`, given the terms of the related texts
unfoldable pub is_related_diagnostic_label : Checks → Scalar → List Text → Bool
is_related_diagnostic_label c (text t) related =
    c.is_label t
    && not (c.is_compact_jwt t)
    && not (is_nil (c.terms t))
    && all (λ w. mem_text w related) (c.terms t)
is_related_diagnostic_label c _ related = false

unfoldable pub is_safe_server_address : Checks → Scalar → Bool
is_safe_server_address c (text t) =
    not (any (λ ch. ch == 0x25) t)
    && not (c.is_compact_jwt t)
    && elim (c.address t) [ none ↦ false | some a ↦ text_eq a t ]
is_safe_server_address c _ = false

abbrev pub http_methods : List String
http_methods =
    "GET" ∷ "POST" ∷ "PUT" ∷ "PATCH" ∷ "DELETE" ∷ "HEAD" ∷ "OPTIONS" ∷ "TRACE" ∷ "CONNECT" ∷ []

abbrev pub rpc_systems : List String
rpc_systems = "grpc" ∷ "http" ∷ "jsonrpc" ∷ "aws-api" ∷ []

abbrev pub db_systems : List String
db_systems = "postgresql" ∷ "mysql" ∷ "sqlite" ∷ "mssql" ∷ "mongodb" ∷ "redis" ∷ []

-- `ALLOWED_ATTRIBUTES`
abbrev pub allowed_attributes : List String
allowed_attributes =
    "http.request.method" ∷ "http.response.status_code" ∷ "rpc.system" ∷ "rpc.service"
    ∷ "rpc.method" ∷ "db.system" ∷ "db.operation.name" ∷ "server.address" ∷ "server.port" ∷ []

-- Whether the loop of `_safe_attributes` stores the value under the key.
unfoldable pub is_safe : Checks → Text → Text → Attribute → Bool
is_safe c service operation a =
    if not (any (str_eq a.key) allowed_attributes)
    then false
    else if str_eq a.key "http.request.method"
    then one_of http_methods a.value
    else if str_eq a.key "http.response.status_code"
    then between 100 599 a.value
    else if str_eq a.key "rpc.system"
    then one_of rpc_systems a.value
    else if str_eq a.key "rpc.service"
    then is_related_diagnostic_label c a.value (c.terms service ++ c.terms operation)
    else if str_eq a.key "rpc.method"
    then is_related_diagnostic_label c a.value (c.terms operation)
    else if str_eq a.key "db.system"
    then one_of db_systems a.value
    else if str_eq a.key "db.operation.name"
    then is_related_diagnostic_label c a.value (c.terms operation)
    else if str_eq a.key "server.address"
    then is_safe_server_address c a.value
    else str_eq a.key "server.port" && between 1 65535 a.value

unfoldable pub safe_attributes : Checks → Text → Text → List Attribute → List Attribute
safe_attributes c service operation attributes = keep (is_safe c service operation) attributes
