-- ===== src/Examples/Alerts.antt =====
-- Concrete alerts, on which the theorems on Backend/Alerts and Backend/Ingestion are applied.
use Prim.{tt}
use cloud_sre_ai_agent.Prelude.{
  ◌≡◌, ◌↔◌, ◌⊎◌, true, false, any, ◌++◌, refl, ℕ, ◌^◌, ◌<◌, Option, none, some, List, [], ◌∷◌,
  length, arith,
}
use cloud_sre_ai_agent.Prelude.Text.{codes}
use cloud_sre_ai_agent.Backend.Alerts.Json.{Text, strip, strip_left, is_space, null, end}
use cloud_sre_ai_agent.Backend.Alerts.Labels.{aws, sev1}
use cloud_sre_ai_agent.Backend.Alerts.Identity.{
  utf8, utf8_char, make_incident_identity_v2, strip_or_empty, identity_errors, identity_parts,
}
use cloud_sre_ai_agent.Backend.Alerts.Identity.Encode.{AreParts}
use cloud_sre_ai_agent.Backend.Alerts.Identity.Utf8.{IsText}
use cloud_sre_ai_agent.Backend.Alerts.Identity.Injective.{same_incident, reserved_folder_collides}
use cloud_sre_ai_agent.Backend.Ingestion.Rows.{AlertState, DeliveryStatus, IncidentScope, Db}
use cloud_sre_ai_agent.Backend.Ingestion.Fingerprint.{hash_raw_body}
use cloud_sre_ai_agent.Backend.Ingestion.Alerts.{
  Webhook, create_delivery, finish_delivery, key_claimed, claim_dedup_key, add_event,
  upsert_instance,
}
use cloud_sre_ai_agent.Backend.Ingestion.Incidents.{
  scope_holds, with_incident, insert_incident, select_incident, get_or_create_active,
  latest_resolved, link_alert,
}
use cloud_sre_ai_agent.Backend.Ingestion.Jobs.{add_job, add_message, create_rca_work}
use cloud_sre_ai_agent.Backend.Ingestion.Execute.{
  Calls, Alert, IngestionResult, ingest, execute, finish_progress, start, process_alerts,
  process_alert, store, fire_alert, follow_selection, validation_errors, title, dedup_key_of,
}
use cloud_sre_ai_agent.Backend.Ingestion.Execute.Work.{is_refused}
use cloud_sre_ai_agent.Backend.Ingestion.Execute.Duplicates.{redelivery_is_duplicate}
use cloud_sre_ai_agent.Backend.Ingestion.Execute.Active.{OneActive, count_active, execute-OneActive}
use cloud_sre_ai_agent.Backend.Ingestion.Rows.{IncidentStatus}
use cloud_sre_ai_agent.Backend.Ingestion.Execute.Resolved.{SameWork, resolved_creates_nothing}
use cloud_sre_ai_agent.Backend.Ingestion.Execute.Creation.{IdsDrawn}
use cloud_sre_ai_agent.Backend.Ingestion.Execute.Requests.{work_for_each_incident}
use cloud_sre_ai_agent.Prelude.{◌+◌}

-- Stands in for SHA-256: the bytes themselves.
abbrev digest : List ℕ → Text
digest bytes = bytes

abbrev padded : Option Text
padded = some (codes " p ")

abbrev plain : Option Text
plain = some (codes "p")

one_char : (c : ℕ) → c < 128 → IsText (c ∷ []) × (length (utf8 (c ∷ [])) < 2 ^ 32)
unfolding utf8 utf8_char
one_char c h = ground arith

four_parts :
    (a b c d : ℕ)
    → a < 128
    → b < 128
    → c < 128
    → d < 128
    → AreParts ((a ∷ []) ∷ (b ∷ []) ∷ (c ∷ []) ∷ (d ∷ []) ∷ [])
four_parts a b c d ha hb hc hd =
    let p = one_char a ha in
    let q = one_char b hb in
    let r = one_char c hc in
    let s = one_char d hd in (p.0, p.1, (q.0, q.1, (r.0, r.1, (s.0, s.1, tt))))

same_incident_example :
    ((make_incident_identity_v2 digest (codes "s") padded plain (codes "f")).key
      ≡ (make_incident_identity_v2 digest (codes "s") plain padded (codes "g")).key)
    ↔ ((codes "s" ≡ codes "s")
        × (strip_or_empty padded ≡ strip_or_empty plain)
        × (strip_or_empty plain ≡ strip_or_empty padded))
unfolding make_incident_identity_v2 identity_parts identity_errors strip strip_left is_space
same_incident_example =
    same_incident digest (codes "s") (codes "s") padded plain plain padded (codes "f") (codes "g")
      (λ e. e) (four_parts 50 115 112 112 (omega arith) (omega arith) (omega arith) (omega arith))
      (four_parts 50 115 112 112 (omega arith) (omega arith) (omega arith) (omega arith)) refl refl

reserved_folder_collides_example :
    (make_incident_identity_v2 digest (codes "s") none none (codes "f")).key
    ≡ (make_incident_identity_v2 digest
        (codes "s")
        (some (codes "__invalid__"))
        (some (codes "f"))
        (codes "g")).key
unfolding make_incident_identity_v2 identity_parts identity_errors strip strip_left is_space
reserved_folder_collides_example =
    reserved_folder_collides digest (codes "s") (some (codes "__invalid__")) (some (codes "f"))
      (codes "f") (codes "g") refl refl refl refl

abbrev calls : Calls
calls = record {
  sha256 = digest;
  dumps = λ parts. parts.starts_at ∷ parts.ends_at ∷ parts.fingerprint ++ parts.raw_sha256;
  uuid_text = λ n. n ∷ [];
  run_key = λ n. "rca-run:1";
  resolve = λ s f. record {
    team_id = some 1;
    project_id = some 2;
    environment_id = none;
    service_id = none;
  };
  hierarchy = record {
    teams = 1 ∷ 9 ∷ [];
    projects = (record { parent_id = 1; id = 2 }) ∷ (record { parent_id = 9; id = 8 }) ∷ [];
    environments = [];
    services = [];
  };
}

-- The scopes of a project of another team
abbrev crossed : ℕ → Option Text → IncidentScope
crossed s f = record {
  team_id = some 1;
  project_id = some 8;
  environment_id = none;
  service_id = none;
}

abbrev crossed_calls : Calls
crossed_calls = record calls { resolve = crossed }

abbrev webhook : Webhook
webhook = record {
  source_id = 7;
  token_id = codes "token";
  received_at = 1000;
  raw_body = 123 ∷ 125 ∷ [];
  raw_payload = null;
  truncated_alerts = none;
}

abbrev no_rows : Db
no_rows = record {
  next_id = 100;
  deliveries = [];
  dedup_keys = [];
  alert_events = [];
  instances = [];
  incidents = [];
  incident_alerts = [];
  runs = [];
  jobs = [];
  outbox = [];
}

abbrev firing_alert : Alert
firing_alert = record {
  event = record {
    source_id = 7;
    fingerprint = codes "f";
    status = AlertState.firing;
    starts_at = 1;
    ends_at = 2;
    labels = end;
    annotations = end;
    provider = aws;
    folder_code = plain;
    alert_name = plain;
    severity = record { raw = none; canonical = sev1; warnings = [] };
    stored = null;
  };
  raw = null;
}

abbrev get_or_start : Option (IngestionResult × Db) → IngestionResult × Db
get_or_start none = finish_progress webhook 0 (start calls webhook no_rows)
get_or_start (some r) = r

abbrev accepted : IngestionResult × Db
accepted = get_or_start (ingest calls webhook (firing_alert ∷ []) no_rows)

webhook_is_accepted : ingest calls webhook (firing_alert ∷ []) no_rows ≡ some accepted
unfolding ingest process_alerts process_alert key_claimed store claim_dedup_key add_event
    upsert_instance fire_alert get_or_create_active insert_incident scope_holds with_incident
    select_incident follow_selection create_rca_work add_job add_message link_alert create_delivery
    finish_delivery validation_errors latest_resolved title dedup_key_of
webhook_is_accepted = refl

-- The second delivery meets a resolver of scopes that crosses the branches.
redelivery_is_duplicate_example :
    ingest
      (record calls { resolve = crossed; hierarchy = calls.hierarchy })
      (record webhook { received_at = 2000 })
      (firing_alert ∷ [])
      accepted.1
    ≡ some (
      record {
        delivery_id = accepted.1.next_id;
        accepted_at = 2000;
        incident_ids = [];
        outbox_event_ids = [];
      },
      finish_delivery accepted.1.next_id DeliveryStatus.duplicate 2000 (
          create_delivery
            (hash_raw_body digest (123 ∷ 125 ∷ []))
            (record webhook { received_at = 2000 })
            accepted.1),
    )
redelivery_is_duplicate_example =
    redelivery_is_duplicate calls webhook (record webhook { received_at = 2000 }) crossed
      calls.hierarchy (firing_alert ∷ []) no_rows accepted refl refl webhook_is_accepted

no_incident-OneActive : OneActive []
unfolding count_active
no_incident-OneActive k v = omega arith

execute-OneActive_example :
    ((execute calls none (λ id. 1000) webhook (firing_alert ∷ firing_alert ∷ []) no_rows ≡ none)
      × (any (is_refused calls webhook) (firing_alert ∷ firing_alert ∷ []) ≡ true))
    ⊎ ((r : IngestionResult × Db) × (execute calls none
            (λ id. 1000)
            webhook
            (firing_alert ∷ firing_alert ∷ [])
            no_rows
          ≡ some r)
        × OneActive r.1.incidents)
execute-OneActive_example =
    execute-OneActive calls none (λ id. 1000) webhook (firing_alert ∷ firing_alert ∷ []) no_rows
      no_incident-OneActive

-- The foreign keys refuse the incident of a crossed scope.
crossed_is_refused : ingest crossed_calls webhook (firing_alert ∷ []) no_rows ≡ none
unfolding ingest process_alerts process_alert key_claimed store claim_dedup_key add_event
    upsert_instance fire_alert get_or_create_active insert_incident scope_holds with_incident
    select_incident follow_selection create_rca_work add_job add_message link_alert create_delivery
    finish_delivery validation_errors latest_resolved title dedup_key_of
crossed_is_refused = refl

-- The rows with an incident that the alert resolves.
abbrev open_rows : Db
open_rows = record no_rows {
  incidents =
      record {
        id = 50;
        identity_key = (make_incident_identity_v2 digest (7 ∷ []) plain plain (codes "f")).key;
        identity_version = 2;
        provider = aws;
        folder_code = plain;
        alert_name = plain;
        title = codes "t";
        severity = sev1;
        status = IncidentStatus.open_;
        alert_state = AlertState.firing;
        scope = record {
          team_id = none;
          project_id = none;
          environment_id = none;
          service_id = none;
        };
        opened_at = 10;
        resolved_at = none;
        reopened_from_incident_id = none;
        created_at = 10;
        updated_at = 10;
        version = 1;
      }
      ∷ [];
}

abbrev resolved_alert : Alert
resolved_alert = record firing_alert {
  event = record firing_alert.event { status = AlertState.resolved };
}

resolved_creates_nothing_example :
    (r : IngestionResult × Db) × (ingest calls webhook (resolved_alert ∷ []) open_rows ≡ some r)
    × SameWork r.1 open_rows
    × (r.0.outbox_event_ids ≡ [])
resolved_creates_nothing_example =
    resolved_creates_nothing calls webhook (resolved_alert ∷ []) open_rows (refl, tt)

no_rows-IdsDrawn : IdsDrawn no_rows
no_rows-IdsDrawn = (λ n big. refl, λ n big. refl)

scope_fits : any (is_refused calls webhook) (firing_alert ∷ resolved_alert ∷ []) ≡ false
unfolding scope_holds
scope_fits = refl

work_for_each_incident_example :
    (r : IngestionResult × Db) × (ingest calls webhook (firing_alert ∷ resolved_alert ∷ []) no_rows
      ≡ some r)
    × IdsDrawn r.1
    × (k : ℕ) × (length r.1.incidents ≡ length no_rows.incidents + k)
    × (length r.1.runs ≡ length no_rows.runs + k)
    × (length r.1.jobs ≡ length no_rows.jobs + k)
    × (length r.1.outbox ≡ length no_rows.outbox + length r.0.outbox_event_ids)
work_for_each_incident_example =
    work_for_each_incident calls webhook (firing_alert ∷ resolved_alert ∷ []) no_rows
      no_rows-IdsDrawn scope_fits
