-- ===== src/Backend/Ingestion/Alerts.antt =====
-- backend/src/sre_agent/persistence/repositories/alerts.py: `SqlAlchemyAlertRepository`.
use cloud_sre_ai_agent.Prelude.{
  ℕ, ◌+◌, Bool, ◌&&◌, Option, none, some, List, [], ◌∷◌, ◌++◌, map, any, ltb, ◌==◌, if◌then◌else◌,
}
use cloud_sre_ai_agent.Backend.Alerts.Json.{Text, text_eq, Json}
use cloud_sre_ai_agent.Backend.Alerts.Labels.{ValidationError}
use cloud_sre_ai_agent.Backend.Ingestion.Rows.{
  AlertState, firing, resolved, CanonicalAlertEvent, DeliveryStatus, WebhookDelivery, DedupKey,
  ValidationStatus, AlertInstance, Db,
}

-- What `create_delivery` writes, apart from the id, the hash of the body and the status.
pub record Webhook : Type 0 where
  pub source_id : ℕ
  pub token_id : Text
  pub received_at : ℕ
  pub raw_body : List ℕ
  pub raw_payload : Json
  pub truncated_alerts : Option ℕ

abbrev pub or_zero : Option ℕ → ℕ
or_zero none = 0
or_zero (some n) = n

unfoldable pub create_delivery : Text → Webhook → Db → Db
create_delivery body_hash w db = record db {
  next_id = db.next_id + 1;
  deliveries =
      db.deliveries
      ++ (record {
        id = db.next_id;
        received_at = w.received_at;
        source_id = w.source_id;
        token_id = w.token_id;
        body_hash = body_hash;
        raw_body = w.raw_body;
        raw_payload = w.raw_payload;
        truncated_alerts = or_zero w.truncated_alerts;
        incomplete = ltb 0 (or_zero w.truncated_alerts);
        status = DeliveryStatus.received;
        processed_at = none;
      }
          ∷ []);
}

unfoldable pub key_claimed : ℕ → Text → List DedupKey → Bool
key_claimed source key rows = any (λ r. r.source_id == source && text_eq r.dedup_key key) rows

-- The rows after the INSERT of `claim_dedup_key`; it returns an id if the key was not yet claimed.
unfoldable pub claim_dedup_key : ℕ → Text → ℕ → Db → Db
claim_dedup_key source key delivery db =
    if key_claimed source key db.dedup_keys then db else record db {
      dedup_keys =
          db.dedup_keys
          ++ (record { source_id = source; dedup_key = key; delivery_id = delivery } ∷ []);
    }

abbrev pub validation_result : List ValidationError → ValidationStatus
validation_result [] = ValidationStatus.valid
validation_result (_ ∷ _) = ValidationStatus.validation_failed

-- `add_event`; the id of the stored event is the `next_id` before.
unfoldable pub add_event : ℕ → ℕ → CanonicalAlertEvent → Json → List ValidationError → Db → Db
add_event delivery received_at event raw_payload errors db = record db {
  next_id = db.next_id + 1;
  alert_events =
      db.alert_events
      ++ (record {
        id = db.next_id;
        observed_at = received_at;
        delivery_id = delivery;
        event = event;
        validation_status = validation_result errors;
        validation_errors = errors;
        raw_payload = raw_payload;
      }
          ∷ []);
}

abbrev pub resolved_time : AlertState → ℕ → Option ℕ
resolved_time firing t = none
resolved_time resolved t = some t

abbrev pub is_instance_of : CanonicalAlertEvent → AlertInstance → Bool
is_instance_of e i = i.source_id == e.source_id && text_eq i.fingerprint e.fingerprint

abbrev pub new_instance : CanonicalAlertEvent → ℕ → ℕ → AlertInstance
new_instance e stored t = record {
  source_id = e.source_id;
  fingerprint = e.fingerprint;
  latest_event_id = stored;
  state = e.status;
  labels = e.labels;
  annotations = e.annotations;
  first_seen_at = t;
  last_seen_at = t;
  resolved_at = resolved_time e.status t;
  version = 1;
}

-- `DO UPDATE SET ...`
abbrev pub seen_again : CanonicalAlertEvent → ℕ → ℕ → AlertInstance → AlertInstance
seen_again e stored t i = record i {
  latest_event_id = stored;
  state = e.status;
  labels = e.labels;
  annotations = e.annotations;
  last_seen_at = t;
  resolved_at = resolved_time e.status t;
  version = i.version + 1;
}

unfoldable pub upsert_instance : CanonicalAlertEvent → ℕ → ℕ → Db → Db
upsert_instance e stored t db = record db {
  instances =
      if any (is_instance_of e) db.instances
      then map (λ i. if is_instance_of e i then seen_again e stored t i else i) db.instances
      else db.instances ++ (new_instance e stored t ∷ []);
}

unfoldable pub finish_delivery : ℕ → DeliveryStatus → ℕ → Db → Db
finish_delivery delivery status t db = record db {
  deliveries =
      map
        (λ (d : WebhookDelivery).
          if d.id == delivery then record d { status = status; processed_at = some t } else d)
        db.deliveries;
}
