-- ===== src/Examples/Rules.antt =====
-- A rule of backend/src/sre_agent/domain/alerts/normalization.py at work.
use cloud_sre_ai_agent.Prelude.{
  ◌≡◌, refl, Bool, true, false, ◌&&◌, none, some, List, [], ◌∷◌, keep, leb,
}
use cloud_sre_ai_agent.Prelude.Text.{codes}
use cloud_sre_ai_agent.Backend.Alerts.Json.{
  Text, Json, Fields, field, end, get, text_eq, strip, strip_left, is_space,
}
use cloud_sre_ai_agent.Backend.Alerts.Labels.{Provider, ProviderDecision}
use cloud_sre_ai_agent.Backend.Alerts.Rules.{
  Root, RulePath, BaseAlert, Operator, Rule, NormalizedResource, normalized, flattened,
  follow_parts, resolve_path, starts_with, matches, extract, resource_of, best_priority, has_errors,
  normalize_alert,
}
use cloud_sre_ai_agent.Backend.Alerts.Rules.Choice.{normalize_alert_unique}

abbrev fields : Fields
fields = field (codes "resource.name") (Json.text (codes "api")) end

abbrev alert : BaseAlert
alert = record { labels = fields; annotations = end; values = end }

abbrev name_path : RulePath
name_path = record { root = Root.labels; parts = codes "resource" ∷ codes "name" ∷ [] }

abbrev name_rule : Rule
name_rule = record {
  rule_id = 3;
  rule_version = 2;
  priority = 1;
  conditions =
      (record { path = name_path; operator = Operator.prefix; value = some (codes "ap") }) ∷ [];
  output = record {
    provider = Provider.gcp;
    resource_type = codes "service";
    scope_path = none;
    resource_id_path = none;
    resource_name_path = some name_path;
    display_unit = none;
  };
  enabled = true;
}

abbrev rules : List Rule
rules =
    record name_rule { rule_id = 4; priority = 5 }
    ∷ name_rule
    ∷ record name_rule { enabled = false }
    ∷ []

abbrev decision : ProviderDecision
decision = record { provider = Provider.gcp; project_id = none; errors = [] }

abbrev service : NormalizedResource
service = record {
  provider = Provider.gcp;
  resource_type = codes "service";
  scope_id = none;
  resource_id = none;
  resource_name = some (codes "api");
  display_unit = none;
}

abbrev no_format : Text → Text → Bool
no_format f t = false

alert_is_normalized : normalize_alert no_format rules alert decision ≡ normalized service 3 2
unfolding normalize_alert matches resolve_path follow_parts flattened get text_eq starts_with
    extract resource_of best_priority strip strip_left is_space
alert_is_normalized = refl

normalize_alert_unique_example :
    (has_errors decision.errors ≡ false)
    × ((r : Rule) × (keep
            (λ q. q.enabled && matches no_format alert q && leb q.priority r.priority)
            rules
          ≡ r ∷ [])
        × (r.output.provider ≡ decision.provider)
        × (resource_of r.output alert ≡ some service)
        × (r.rule_id ≡ 3)
        × (r.rule_version ≡ 2))
normalize_alert_unique_example =
    normalize_alert_unique no_format rules alert decision service 3 2 alert_is_normalized
