-- ===== src/Backend/Ingestion/Execute.antt =====
-- backend/src/sre_agent/application/alerts/ingest_grafana_alerts.py: `IngestGrafanaAlerts.execute`
-- from the unit of work on, and `_publish_new_events`. SHA-256, the text of a UUID and the provider
-- of scopes are arguments; the parsed body and its canonical events are inputs.
pub mod Duplicates
pub mod Incidents
pub mod Active
pub mod Work
pub mod Resolved
pub mod Creation
pub mod Firing
pub mod Requests
use mathlib.Core.Option
use cloud_sre_ai_agent.Prelude.{
  ℕ, ◌+◌, Bool, true, false, not, ◌&&◌, ◌||◌, Option, none, some, List, [], ◌∷◌, ◌++◌, map, any,
  ◌==◌, if◌then◌else◌, String, and_then,
}
use cloud_sre_ai_agent.Prelude.Text.{codes}
use cloud_sre_ai_agent.Backend.Alerts.Json.{Text, Json, text, get, is_empty}
use cloud_sre_ai_agent.Backend.Alerts.Labels.{ValidationError, detect_provider}
use cloud_sre_ai_agent.Backend.Alerts.Identity.{IncidentIdentity, make_incident_identity_v2}
use cloud_sre_ai_agent.Backend.Outbox.{Event, Service, Settled, publish_event}
use cloud_sre_ai_agent.Backend.Ingestion.Rows.{
  AlertState, firing, resolved, CanonicalAlertEvent, DeliveryStatus, Hierarchy, IncidentScope,
  RcaJobMessage, Db,
}
use cloud_sre_ai_agent.Backend.Ingestion.Alerts.{
  Webhook, create_delivery, key_claimed, claim_dedup_key, add_event, upsert_instance,
  finish_delivery,
}
use cloud_sre_ai_agent.Backend.Ingestion.Incidents.{
  NewIncident, IncidentSelection, get_or_create_active, latest_resolved, lock_latest, link_alert,
  set_alert_state,
}
use cloud_sre_ai_agent.Backend.Ingestion.Fingerprint.{DedupParts, hash_raw_body, make_dedup_key}
use cloud_sre_ai_agent.Backend.Ingestion.Jobs.{RcaWorkCreation, create_rca_work}

-- What the code calls: SHA-256 as hexadecimal digits, `json.dumps` of the parts of a key, `str` of a
-- UUID, `rca-run:<id>` and `FolderScopeProvider.resolve`; and the tables of scopes.
pub record Calls : Type 0 where
  pub sha256 : List ℕ → Text
  pub dumps : DedupParts → List ℕ
  pub uuid_text : ℕ → Text
  pub run_key : ℕ → String
  pub resolve : ℕ → Option Text → IncidentScope
  pub hierarchy : Hierarchy

-- An alert: its canonical event and its raw JSON.
pub record Alert : Type 0 where
  pub event : CanonicalAlertEvent
  pub raw : Json

-- The variables of the loop, with the rows.
pub record IngestProgress : Type 0 where
  pub db : Db
  pub incident_ids : List ℕ
  pub outbox_event_ids : List ℕ
  pub new_event_count : ℕ
  pub has_invalid_alert : Bool

pub record IngestionResult : Type 0 where
  pub delivery_id : ℕ
  pub accepted_at : ℕ
  pub incident_ids : List ℕ
  pub outbox_event_ids : List ℕ

abbrev pub identity_of : Calls → Webhook → CanonicalAlertEvent → IncidentIdentity
identity_of c w e =
    make_incident_identity_v2 c.sha256 (c.uuid_text w.source_id) e.folder_code e.alert_name
      e.fingerprint

-- `raw_sha256`, and `event.dedup_key` as the normalizer computes it from the event and the body.
abbrev pub raw_sha256_of : Calls → Webhook → Text
raw_sha256_of c w = hash_raw_body c.sha256 w.raw_body

unfoldable pub dedup_key_of : Calls → Webhook → CanonicalAlertEvent → Text
unfolding hash_raw_body
dedup_key_of c w e =
    make_dedup_key c.sha256 c.dumps (c.uuid_text w.source_id) e.fingerprint e.status e.starts_at
      e.ends_at (raw_sha256_of c w)

unfoldable pub validation_errors : Calls → Webhook → CanonicalAlertEvent → List ValidationError
validation_errors c w e = (detect_provider e.labels).errors ++ (identity_of c w e).errors

abbrev pub text_or_empty : Option Json → Text
text_or_empty (some (text t)) = t
text_or_empty _ = []

-- `_title`
unfoldable pub title : CanonicalAlertEvent → Text
title e =
    let summary = text_or_empty (get (codes "summary") e.annotations) in
    let name = text_or_empty (get (codes "alertname") e.labels) in
    if not (is_empty summary)
    then summary
    else if not (is_empty name)
    then name
    else codes "Grafana alert " ++ e.fingerprint

abbrev pub new_incident : Calls → Webhook → CanonicalAlertEvent → Db → NewIncident
new_incident c w e db =
    let i = identity_of c w e in
    record {
      identity_key = i.key;
      identity_version = i.version;
      provider = e.provider;
      folder_code = e.folder_code;
      alert_name = e.alert_name;
      scope = c.resolve w.source_id e.folder_code;
      title = title e;
      severity = e.severity.canonical;
      opened_at = w.received_at;
      reopened_from_incident_id = latest_resolved i.key i.version db;
    }

-- `if incident_id not in incident_ids: incident_ids.append(incident_id)`
abbrev pub add_id : ℕ → List ℕ → List ℕ
add_id i ids = if any (λ j. j == i) ids then ids else ids ++ (i ∷ [])

abbrev pub add_event_id : Option ℕ → List ℕ → List ℕ
add_event_id none ids = ids
add_event_id (some e) ids = ids ++ (e ∷ [])

abbrev pub with_work : ℕ → IngestProgress → RcaWorkCreation × Db → IngestProgress
with_work incident p k = record p {
  db = k.1;
  incident_ids = add_id incident p.incident_ids;
  outbox_event_ids = add_event_id k.0.outbox_event_id p.outbox_event_ids;
}

-- `if not selection.created: ... else: ...`, after the alert was linked
unfoldable pub follow_selection :
    Calls → Webhook → IncidentSelection → Db → IngestProgress → Option IngestProgress
follow_selection c w s linked p =
    if s.created
    then Option.map (with_work s.id p) (create_rca_work c.run_key s.id w.received_at linked)
    else some (record p {
      db = set_alert_state s.id firing w.received_at linked;
      incident_ids = add_id s.id p.incident_ids;
    })

-- The branch of a FIRING alert, stored under the id `stored`; `none` is an exception.
unfoldable pub fire_alert :
    Calls → Webhook → CanonicalAlertEvent → ℕ → IngestProgress → Option IngestProgress
fire_alert c w e stored p =
    let n = new_incident c w e p.db in
    and_then (get_or_create_active c.hierarchy n p.db)
      (λ r. follow_selection c w r.0 (link_alert r.0.id stored r.1) p)

-- `if incident_id is not None: ...`
unfoldable pub mark_resolved : Webhook → ℕ → IngestProgress → Option ℕ → IngestProgress
mark_resolved w stored p none = p
mark_resolved w stored p (some incident) = record p {
  db = set_alert_state incident resolved w.received_at (link_alert incident stored p.db);
  incident_ids = add_id incident p.incident_ids;
}

-- The branch of a RESOLVED alert.
unfoldable pub resolve_alert :
    Calls → Webhook → CanonicalAlertEvent → ℕ → IngestProgress → IngestProgress
resolve_alert c w e stored p =
    let i = identity_of c w e in mark_resolved w stored p (lock_latest i.key i.version p.db)

abbrev pub is_invalid : List ValidationError → Bool
is_invalid [] = false
is_invalid (_ ∷ _) = true

-- The rows with a new event of the delivery stored, and the counters.
unfoldable pub store : Calls → Webhook → ℕ → Alert → IngestProgress → IngestProgress
store c w delivery a p =
    let errors = validation_errors c w a.event in
    record p {
      db = upsert_instance a.event p.db.next_id w.received_at (
          add_event delivery w.received_at a.event a.raw errors
            (claim_dedup_key w.source_id (dedup_key_of c w a.event) delivery p.db));
      new_event_count = p.new_event_count + 1;
      has_invalid_alert = is_invalid errors || p.has_invalid_alert;
    }

abbrev pub by_state :
    AlertState → Calls → Webhook → CanonicalAlertEvent → ℕ → IngestProgress → Option IngestProgress
by_state firing c w e stored p = fire_alert c w e stored p
by_state resolved c w e stored p = some (resolve_alert c w e stored p)

abbrev pub is_firing : AlertState → Bool
is_firing firing = true
is_firing resolved = false

-- One round of the loop.
unfoldable pub process_alert : Calls → Webhook → ℕ → Alert → IngestProgress → Option IngestProgress
process_alert c w delivery a p =
    if key_claimed w.source_id (dedup_key_of c w a.event) p.db.dedup_keys
    then some p
    else by_state a.event.status c w a.event p.db.next_id (store c w delivery a p)

unfoldable pub process_alerts :
    Calls → Webhook → ℕ → List Alert → IngestProgress → Option IngestProgress
process_alerts c w delivery [] p = some p
process_alerts c w delivery (a ∷ alerts) p =
    and_then (process_alert c w delivery a p) (λ q. process_alerts c w delivery alerts q)

abbrev pub delivery_status : Bool → ℕ → DeliveryStatus
delivery_status invalid count =
    if invalid
    then DeliveryStatus.validation_failed
    else if count == 0
    then DeliveryStatus.duplicate
    else DeliveryStatus.processed

abbrev pub start : Calls → Webhook → Db → IngestProgress
start c w db = record {
  db = create_delivery (raw_sha256_of c w) w db;
  incident_ids = [];
  outbox_event_ids = [];
  new_event_count = 0;
  has_invalid_alert = false;
}

abbrev pub finish_progress : Webhook → ℕ → IngestProgress → IngestionResult × Db
finish_progress w delivery p = (
  record {
    delivery_id = delivery;
    accepted_at = w.received_at;
    incident_ids = p.incident_ids;
    outbox_event_ids = p.outbox_event_ids;
  },
  finish_delivery delivery (delivery_status p.has_invalid_alert p.new_event_count) w.received_at
      p.db,
)

-- The transaction of `execute`; `none` is an exception, which rolls it back.
unfoldable pub ingest : Calls → Webhook → List Alert → Db → Option (IngestionResult × Db)
ingest c w alerts db =
    Option.map (finish_progress w db.next_id) (process_alerts c w db.next_id alerts (start c w db))

abbrev pub events_after :
    Option (Settled RcaJobMessage) → List (Event RcaJobMessage) → List (Event RcaJobMessage)
events_after none events = events
events_after (some s) events = s.events

-- `_publish_new_events`; `clock` tells when the event of an id is published. An exception is dropped.
unfoldable pub publish_new_events :
    Service RcaJobMessage
    → (ℕ → ℕ)
    → List ℕ
    → List (Event RcaJobMessage)
    → List (Event RcaJobMessage)
publish_new_events s clock [] events = events
publish_new_events s clock (id ∷ ids) events =
    publish_new_events s clock ids (events_after (publish_event s (clock id) id events) events)

abbrev pub publish_if :
    Option (Service RcaJobMessage) → (ℕ → ℕ) → IngestionResult × Db → IngestionResult × Db
publish_if none clock r = r
publish_if (some s) clock r =
    (r.0, record r.1 { outbox = publish_new_events s clock r.0.outbox_event_ids r.1.outbox })

-- `execute`
unfoldable pub execute :
    Calls
    → Option (Service RcaJobMessage)
    → (ℕ → ℕ)
    → Webhook
    → List Alert
    → Db
    → Option (IngestionResult × Db)
execute c s clock w alerts db = Option.map (publish_if s clock) (ingest c w alerts db)
