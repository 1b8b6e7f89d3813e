-- ===== src/Backend/Alerts/Rules.antt =====
-- backend/src/sre_agent/domain/alerts/normalization.py: the rules that find the resource of an alert.
-- A path is its root and its parts, a priority, which is only compared, is counted from the least, and
-- the match of a text with one of the safe formats is an argument.
pub mod Choice
use cloud_sre_ai_agent.Prelude.{
  ℕ, min, Bool, true, false, not, ◌&&◌, ◌||◌, Option, none, some, List, [], ◌∷◌, ◌++◌, all, keep,
  leb, ◌==◌, if◌then◌else◌, and_then, String,
}
use cloud_sre_ai_agent.Backend.Alerts.Json.{
  Text, text_eq, Json, null, text, object, Fields, get, strip, is_empty,
}
use cloud_sre_ai_agent.Backend.Alerts.Labels.{Provider, gcp, aws, ProviderDecision, ValidationError}

pub data Root : Type 0 where
  labels annotations values : Root

pub record RulePath : Type 0 where
  pub root : Root
  pub parts : List Text

-- `CanonicalBaseAlert`
pub record BaseAlert : Type 0 where
  pub labels : Fields
  pub annotations : Fields
  pub values : Fields

pub data Operator : Type 0 where
  exists equals prefix format : Operator

-- `RuleCondition`
pub record Condition : Type 0 where
  pub path : RulePath
  pub operator : Operator
  pub value : Option Text

-- `RuleOutput`
pub record RuleOutput : Type 0 where
  pub provider : Provider
  pub resource_type : Text
  pub scope_path : Option RulePath
  pub resource_id_path : Option RulePath
  pub resource_name_path : Option RulePath
  pub display_unit : Option Text

-- `NormalizationRule`
pub record Rule : Type 0 where
  pub rule_id : ℕ
  pub rule_version : ℕ
  pub priority : ℕ
  pub conditions : List Condition
  pub output : RuleOutput
  pub enabled : Bool

pub record NormalizedResource : Type 0 where
  pub provider : Provider
  pub resource_type : Text
  pub scope_id : Option Text
  pub resource_id : Option Text
  pub resource_name : Option Text
  pub display_unit : Option Text

-- `NormalizationResult`, by its status: the warning, or the resource with the rule's id and version
pub data Normalization : Type 0 where
  validation_failed unclassified : String → Normalization
  normalized : NormalizedResource → ℕ → ℕ → Normalization

abbrev pub root_of : BaseAlert → Root → Fields
root_of a labels = a.labels
root_of a annotations = a.annotations
root_of a values = a.values

-- `".".join(parts)`
unfoldable pub flattened : List Text → Text
flattened [] = []
flattened (p ∷ []) = p
flattened (p ∷ q ∷ ps) = p ++ (46 ∷ flattened (q ∷ ps))

abbrev pub part_of : Text → Json → Option Json
part_of p (object fs) = get p fs
part_of p _ = none

-- The loop of `_resolve_path`
unfoldable pub follow_parts : List Text → Json → Option Json
follow_parts [] v = some v
follow_parts (p ∷ ps) v = and_then (part_of p v) (follow_parts ps)

-- `_resolve_path`: `none` is that nothing is found.
unfoldable pub resolve_path : BaseAlert → RulePath → Option Json
resolve_path a p = elim (get (flattened p.parts) (root_of a p.root)) [
  | some v ↦ some v
  | none ↦ follow_parts p.parts (object (root_of a p.root))
]

abbrev pub or_blank : Option Text → Text
or_blank none = []
or_blank (some t) = t

unfoldable pub starts_with : Text → Text → Bool
starts_with [] t = true
starts_with (c ∷ cs) [] = false
starts_with (c ∷ cs) (d ∷ ds) = c == d && starts_with cs ds

abbrev pub is_present : Option Json → Bool
is_present none = false
is_present (some null) = false
is_present (some _) = true

abbrev pub text_holds : (Text → Bool) → Option Json → Bool
text_holds p (some (text t)) = p t
text_holds p _ = false

abbrev pub equals_value : Option Text → Text → Bool
equals_value none t = false
equals_value (some v) t = text_eq t v

abbrev pub holds : (Text → Text → Bool) → Operator → Option Text → Option Json → Bool
holds fullmatch exists value found = is_present found
holds fullmatch equals value found = text_holds (equals_value value) found
holds fullmatch prefix value found = text_holds (starts_with (or_blank value)) found
holds fullmatch format value found = text_holds (fullmatch (or_blank value)) found

-- `SafeRuleEngine._matches`
unfoldable pub matches : (Text → Text → Bool) → BaseAlert → Rule → Bool
matches fullmatch a r =
    all (λ c. holds fullmatch c.operator c.value (resolve_path a c.path)) r.conditions

abbrev pub non_blank : Option Json → Option (Option Text)
non_blank (some (text t)) = if is_empty (strip t) then none else some (some t)
non_blank _ = none

-- One round of the loop of `_resource`: `none` is its early return.
unfoldable pub extract : BaseAlert → Option RulePath → Option (Option Text)
extract a none = some none
extract a (some p) = non_blank (resolve_path a p)

-- `SafeRuleEngine._resource`
unfoldable pub resource_of : RuleOutput → BaseAlert → Option NormalizedResource
resource_of o a = and_then (extract a o.scope_path) (λ scope.
    and_then (extract a o.resource_id_path) (λ id.
      and_then (extract a o.resource_name_path) (λ name. some (record {
        provider = o.provider;
        resource_type = o.resource_type;
        scope_id = scope;
        resource_id = id;
        resource_name = name;
        display_unit = o.display_unit;
      }))))

abbrev pub same_provider : Provider → Provider → Bool
same_provider gcp gcp = true
same_provider aws aws = true
same_provider _ _ = false

-- `min(rule.priority for rule in matches)`
unfoldable pub best_priority : ℕ → List Rule → ℕ
best_priority m [] = m
best_priority m (r ∷ rs) = best_priority (min m r.priority) rs

abbrev pub with_resource : Rule → Option NormalizedResource → Normalization
with_resource r none = unclassified "normalization_output_invalid"
with_resource r (some x) = normalized x r.rule_id r.rule_version

abbrev pub apply_rule : BaseAlert → ProviderDecision → List Rule → Normalization
apply_rule a d (r ∷ []) =
    if same_provider r.output.provider d.provider
    then with_resource r (resource_of r.output a)
    else unclassified "normalization_provider_conflict"
apply_rule a d _ = unclassified "normalization_rule_conflict"

abbrev pub choose_rule : BaseAlert → ProviderDecision → List Rule → Normalization
choose_rule a d [] = unclassified "normalization_rule_not_found"
choose_rule a d (r ∷ rs) =
    apply_rule a d (keep (λ q. q.priority == best_priority r.priority rs) (r ∷ rs))

abbrev pub has_errors : List ValidationError → Bool
has_errors [] = false
has_errors (_ ∷ _) = true

-- `SafeRuleEngine.normalize`, given the rules that `__init__` takes
unfoldable pub normalize_alert :
    (Text → Text → Bool) → List Rule → BaseAlert → ProviderDecision → Normalization
normalize_alert fullmatch rules a d =
    if has_errors d.errors
    then validation_failed "provider_validation_failed"
    else choose_rule a d (keep (matches fullmatch a) (keep (λ r. r.enabled) rules))
