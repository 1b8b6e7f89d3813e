-- ===== src/Backend/Ingestion/Rows.antt =====
-- The rows that the ingestion of alerts reads and writes: the tables of
-- backend/migrations/versions/0001_alert_incident_schema.py and 0002_grafana_normalization_v2.py as
-- lists of rows, oldest first. A UUID is a number that is only compared; `next_id` is the next one
-- that uuid4 draws. A time is a number of microseconds.
use cloud_sre_ai_agent.Prelude.{ℕ, Bool, Option, List}
use cloud_sre_ai_agent.Backend.Alerts.Json.{Text, Json, Fields}
use cloud_sre_ai_agent.Backend.Alerts.Labels.{Provider, ValidationError, SeverityDecision, Severity}
use cloud_sre_ai_agent.Worker.Rows.{RunStatus, JobStatus}
use cloud_sre_ai_agent.Backend.Outbox.{Event}

-- `AlertState`
pub data AlertState : Type 0 where
  firing resolved : AlertState

-- `CanonicalAlertEvent`. `stored` holds the columns that are only written: the values and addresses
-- of the alert, its issue, its resource and how it was normalized. The key and the hash of the body
-- are computed: see `dedup_key_of` of Execute.antt.
pub record CanonicalAlertEvent : Type 0 where
  pub source_id : ℕ
  pub fingerprint : Text
  pub status : AlertState
  pub starts_at : ℕ
  pub ends_at : ℕ
  pub labels : Fields
  pub annotations : Fields
  pub provider : Provider
  pub folder_code : Option Text
  pub alert_name : Option Text
  pub severity : SeverityDecision
  pub stored : Json

pub data DeliveryStatus : Type 0 where
  received processed duplicate validation_failed : DeliveryStatus

pub record WebhookDelivery : Type 0 where
  pub id : ℕ
  pub received_at : ℕ
  pub source_id : ℕ
  pub token_id : Text
  pub body_hash : Text
  pub raw_body : List ℕ
  pub raw_payload : Json
  pub truncated_alerts : ℕ
  pub incomplete : Bool
  pub status : DeliveryStatus
  pub processed_at : Option ℕ

pub record DedupKey : Type 0 where
  pub source_id : ℕ
  pub dedup_key : Text
  pub delivery_id : ℕ

pub data ValidationStatus : Type 0 where
  valid validation_failed : ValidationStatus

pub record AlertEvent : Type 0 where
  pub id : ℕ
  pub observed_at : ℕ
  pub delivery_id : ℕ
  pub event : CanonicalAlertEvent
  pub validation_status : ValidationStatus
  pub validation_errors : List ValidationError
  pub raw_payload : Json

pub record AlertInstance : Type 0 where
  pub source_id : ℕ
  pub fingerprint : Text
  pub latest_event_id : ℕ
  pub state : AlertState
  pub labels : Fields
  pub annotations : Fields
  pub first_seen_at : ℕ
  pub last_seen_at : ℕ
  pub resolved_at : Option ℕ
  pub version : ℕ

pub data IncidentStatus : Type 0 where
  open_ investigating resolved : IncidentStatus

-- `IncidentScope`
pub record IncidentScope : Type 0 where
  pub team_id : Option ℕ
  pub project_id : Option ℕ
  pub environment_id : Option ℕ
  pub service_id : Option ℕ

-- A row of `projects`, `environments` or `services`, with the row above it.
pub record ScopeRow : Type 0 where
  pub parent_id : ℕ
  pub id : ℕ

-- The tables of scopes, which ingestion reads only through the foreign keys of `incidents`.
pub record Hierarchy : Type 0 where
  pub teams : List ℕ
  pub projects : List ScopeRow
  pub environments : List ScopeRow
  pub services : List ScopeRow

pub record Incident : Type 0 where
  pub id : ℕ
  pub identity_key : Text
  pub identity_version : ℕ
  pub provider : Provider
  pub folder_code : Option Text
  pub alert_name : Option Text
  pub title : Text
  pub severity : Severity
  pub status : IncidentStatus
  pub alert_state : AlertState
  pub scope : IncidentScope
  pub opened_at : ℕ
  pub resolved_at : Option ℕ
  pub reopened_from_incident_id : Option ℕ
  pub created_at : ℕ
  pub updated_at : ℕ
  pub version : ℕ

pub record IncidentAlert : Type 0 where
  pub incident_id : ℕ
  pub alert_event_id : ℕ

-- `RcaJobMessage`; its schema version and attempt can only be 1.
pub record RcaJobMessage : Type 0 where
  pub schema_version : ℕ
  pub worker_job_id : ℕ
  pub rca_run_id : ℕ
  pub incident_id : ℕ
  pub attempt : ℕ

pub record RcaRun : Type 0 where
  pub id : ℕ
  pub incident_id : ℕ
  pub status : RunStatus
  pub created_at : ℕ
  pub updated_at : ℕ

-- A job of type RCA_ANALYSIS, the only type; a payload `none` is `{}`.
pub record WorkerJob : Type 0 where
  pub id : ℕ
  pub rca_run_id : ℕ
  pub status : JobStatus
  pub payload : Option RcaJobMessage
  pub available_at : ℕ
  pub created_at : ℕ
  pub updated_at : ℕ

pub record Db : Type 0 where
  pub next_id : ℕ
  pub deliveries : List WebhookDelivery
  pub dedup_keys : List DedupKey
  pub alert_events : List AlertEvent
  pub instances : List AlertInstance
  pub incidents : List Incident
  pub incident_alerts : List IncidentAlert
  pub runs : List RcaRun
  pub jobs : List WorkerJob
  pub outbox : List (Event RcaJobMessage)
