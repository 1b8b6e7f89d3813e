-- ===== src/Backend/Waterfall.antt =====
-- backend/src/sre_agent/application/operator/trace_waterfall.py: `has_valid_tree`, on the trace that
-- the worker stores, and `_safe_attributes`. The types of the fields and the patterns of names are
-- checked by the schema, before.
pub mod Accepts
pub mod Evidence
pub mod Attributes
pub mod Orphans
use cloud_sre_ai_agent.Prelude.{
  ℕ, ◌+◌, Bool, true, false, not, ◌&&◌, ◌||◌, Option, none, some, List, [], ◌∷◌, ◌++◌, ltb, length,
  any, keep, if◌then◌else◌,
}
use cloud_sre_ai_agent.Prelude.Text.{str_eq}
use cloud_sre_ai_agent.Backend.Alerts.Json.{Text, text_eq}
use cloud_sre_ai_agent.Worker.Waterfall.Attributes.{
  Attribute, Checks, one_of, between, is_related_diagnostic_label, is_safe_server_address,
  http_methods, rpc_systems, db_systems,
}
use cloud_sre_ai_agent.Worker.Waterfall.{
  Span, StoredTrace, Walk, ends, repeats, lost, out_of_fuel, walk, ids, distinct, is_root,
  parent_known, span_end, one_ms,
}

-- What `has_valid_tree` does: True, False, or a KeyError; `unfinished` is that the fuel ran out.
pub data Verdict : Type 0 where
  valid invalid key_error unfinished : Verdict

abbrev pub after_walk : Walk → Verdict → Verdict
after_walk ends rest = rest
after_walk repeats rest = invalid
after_walk lost rest = key_error
after_walk out_of_fuel rest = unfinished

-- The loop over the spans: is the parent known, and does the walk to the root end?
unfoldable pub check_spans : List Span → List Span → Verdict
check_spans spans [] = valid
check_spans spans (s ∷ ss) =
    let rest = check_spans spans ss in
    if parent_known (ids spans) s
    then after_walk (walk (length spans + 1) spans [] (some s.span_id)) rest
    else invalid

abbrev pub sole_root : List Span → Option Span
sole_root (r ∷ []) = some r
sole_root _ = none

abbrev pub same_bool : Bool → Bool → Bool
same_bool true b = b
same_bool false b = not b

unfoldable pub has_valid_tree : StoredTrace → Verdict
has_valid_tree t =
    if not (distinct (ids t.spans)) then invalid else elim (sole_root (keep is_root t.spans)) [
      | none ↦ invalid
      | some root ↦
          if not (text_eq root.service_name t.root_service_name)
            || not (text_eq root.operation_name t.root_operation_name)
          then invalid
          else if ltb t.span_count (length t.spans)
              || not (same_bool t.truncated (ltb (length t.spans) t.span_count))
          then invalid
          else if any (λ s. ltb (t.duration_ms + one_ms) (span_end s)) t.spans
          then invalid
          else check_spans t.spans t.spans
    ]

-- Whether the loop of the backend's `_safe_attributes` stores the value under the key.
unfoldable pub keeps_attribute : Checks → Text → Text → Attribute → Bool
keeps_attribute c service operation a =
    if str_eq a.key "http.request.method"
    then one_of http_methods a.value
    else if str_eq a.key "http.response.status_code"
    then between 100 599 a.value
    else if str_eq a.key "rpc.system"
    then one_of rpc_systems a.value
    else if str_eq a.key "rpc.service"
    then is_related_diagnostic_label c a.value (c.terms service ++ c.terms operation)
    else if str_eq a.key "rpc.method"
    then is_related_diagnostic_label c a.value (c.terms operation)
    else if str_eq a.key "db.system"
    then one_of db_systems a.value
    else if str_eq a.key "db.operation.name"
    then is_related_diagnostic_label c a.value (c.terms operation)
    else if str_eq a.key "server.address"
    then is_safe_server_address c a.value
    else str_eq a.key "server.port" && between 1 65535 a.value

unfoldable pub reread_attributes : Checks → Text → Text → List Attribute → List Attribute
reread_attributes c service operation attributes =
    keep (keeps_attribute c service operation) attributes
