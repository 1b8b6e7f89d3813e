-- ===== src/Backend/Ingestion/Incidents.antt =====
-- backend/src/sre_agent/persistence/repositories/incidents.py: `SqlAlchemyIncidentRepository`.
use mathlib.Core.Option
use cloud_sre_ai_agent.Prelude.{
  ℕ, ◌+◌, Bool, true, false, ◌&&◌, ◌||◌, Option, none, some, List, [], ◌∷◌, ◌++◌, map, any, keep,
  ltb, ◌==◌, if◌then◌else◌, and_then,
}
use cloud_sre_ai_agent.Backend.Alerts.Json.{Text, text_eq}
use cloud_sre_ai_agent.Backend.Alerts.Labels.{Provider, Severity}
use cloud_sre_ai_agent.Backend.Ingestion.Rows.{
  AlertState, IncidentStatus, IncidentScope, Incident, ScopeRow, Hierarchy, Db,
}

-- The arguments of `get_or_create_active`
pub record NewIncident : Type 0 where
  pub identity_key : Text
  pub identity_version : ℕ
  pub provider : Provider
  pub folder_code : Option Text
  pub alert_name : Option Text
  pub scope : IncidentScope
  pub title : Text
  pub severity : Severity
  pub opened_at : ℕ
  pub reopened_from_incident_id : Option ℕ

-- `IncidentSelection`
pub record IncidentSelection : Type 0 where
  pub id : ℕ
  pub created : Bool

-- `status IN ('OPEN', 'INVESTIGATING')`
abbrev pub is_active : IncidentStatus → Bool
is_active IncidentStatus.resolved = false
is_active _ = true

abbrev pub is_resolved : IncidentStatus → Bool
is_resolved IncidentStatus.resolved = true
is_resolved _ = false

abbrev pub has_identity : Text → ℕ → Incident → Bool
has_identity key version i = text_eq i.identity_key key && i.identity_version == version

abbrev pub active_of : Text → ℕ → Incident → Bool
active_of key version i = has_identity key version i && is_active i.status

-- `opened_at DESC, id`
abbrev pub opened_later : Incident → Incident → Bool
opened_later a b = ltb b.opened_at a.opened_at || a.opened_at == b.opened_at && ltb a.id b.id

-- `resolved_at DESC NULLS LAST, opened_at DESC, id`
abbrev pub resolved_later : Option ℕ → Option ℕ → Bool → Bool
resolved_later none none rest = rest
resolved_later none (some _) rest = false
resolved_later (some _) none rest = true
resolved_later (some s) (some t) rest = ltb t s || s == t && rest

-- `ORDER BY ... LIMIT 1`
unfoldable pub first_by : (Incident → Incident → Bool) → List Incident → Option Incident
first_by before [] = none
first_by before (x ∷ xs) = elim (first_by before xs) [
  | none ↦ some x
  | some y ↦ some (if before y x then y else x)
]

abbrev pub id_of : Option Incident → Option ℕ
id_of none = none
id_of (some i) = some i.id

abbrev pub incident_row : ℕ → NewIncident → Incident
incident_row id n = record {
  id = id;
  identity_key = n.identity_key;
  identity_version = n.identity_version;
  provider = n.provider;
  folder_code = n.folder_code;
  alert_name = n.alert_name;
  title = n.title;
  severity = n.severity;
  status = IncidentStatus.open_;
  alert_state = AlertState.firing;
  scope = n.scope;
  opened_at = n.opened_at;
  resolved_at = none;
  reopened_from_incident_id = n.reopened_from_incident_id;
  created_at = n.opened_at;
  updated_at = n.opened_at;
  version = 1;
}

-- A foreign key of one column, and one of two; a NULL satisfies both.
abbrev pub references_row : Option ℕ → (ℕ → Bool) → Bool
references_row none known = true
references_row (some i) known = known i

abbrev pub is_branch : Option ℕ → Option ℕ → List ScopeRow → Bool
is_branch (some parent) (some i) rows = any (λ r. r.parent_id == parent && r.id == i) rows
is_branch _ _ rows = true

abbrev pub has_row : List ScopeRow → ℕ → Bool
has_row rows i = any (λ r. r.id == i) rows

-- The foreign keys of `incidents` on the tables of scopes
unfoldable pub scope_holds : Hierarchy → IncidentScope → Bool
scope_holds h s =
    references_row s.team_id (λ i. any (λ t. t == i) h.teams)
    && references_row s.project_id (has_row h.projects)
    && references_row s.environment_id (has_row h.environments)
    && references_row s.service_id (has_row h.services)
    && is_branch s.team_id s.project_id h.projects
    && is_branch s.project_id s.environment_id h.environments
    && is_branch s.environment_id s.service_id h.services

-- Whether an active row has the identity of the new one
abbrev pub is_conflict : NewIncident → Db → Bool
is_conflict n db = any (active_of n.identity_key n.identity_version) db.incidents

-- The rows after an INSERT that is not refused: ON CONFLICT, it adds none.
unfoldable pub with_incident : NewIncident → Db → Db
with_incident n db =
    if any (active_of n.identity_key n.identity_version) db.incidents
    then record db { next_id = db.next_id + 1 }
    else record db {
      next_id = db.next_id + 1;
      incidents = db.incidents ++ (incident_row db.next_id n ∷ []);
    }

-- The INSERT of `get_or_create_active`; `none` is the IntegrityError of a foreign key, which only a
-- row that is added can break.
unfoldable pub insert_incident : Hierarchy → NewIncident → Db → Option Db
insert_incident h n db =
    if is_conflict n db || scope_holds h n.scope then some (with_incident n db) else none

abbrev pub select_active : Option Incident → Option IncidentSelection
select_active none = none
select_active (some i) = some (record { id = i.id; created = false })

-- The selection; `none` is the RuntimeError. The id that the INSERT proposed is `next_id` before.
unfoldable pub select_incident : NewIncident → Db → Option IncidentSelection
select_incident n db =
    if any (active_of n.identity_key n.identity_version) db.incidents
    then select_active
        (first_by opened_later (keep (active_of n.identity_key n.identity_version) db.incidents))
    else some (record { id = db.next_id; created = true })

-- `none` is an exception: that of the INSERT or the RuntimeError.
unfoldable pub get_or_create_active : Hierarchy → NewIncident → Db → Option (IncidentSelection × Db)
get_or_create_active h n db =
    and_then (insert_incident h n db)
      (λ inserted. Option.map (λ s. (s, inserted)) (select_incident n db))

unfoldable pub latest_resolved : Text → ℕ → Db → Option ℕ
latest_resolved key version db = id_of (
    first_by (λ a b. resolved_later a.resolved_at b.resolved_at (opened_later a b))
      (keep (λ i. has_identity key version i && is_resolved i.status) db.incidents))

unfoldable pub lock_latest : Text → ℕ → Db → Option ℕ
lock_latest key version db =
    id_of (first_by opened_later (keep (has_identity key version) db.incidents))

unfoldable pub link_alert : ℕ → ℕ → Db → Db
link_alert incident stored db = record db {
  incident_alerts =
      if any (λ l. l.incident_id == incident && l.alert_event_id == stored) db.incident_alerts
      then db.incident_alerts
      else db.incident_alerts ++ (record { incident_id = incident; alert_event_id = stored } ∷ []);
}

abbrev pub mark_alert : ℕ → AlertState → ℕ → Incident → Incident
mark_alert incident state t i =
    if i.id == incident
    then record i { alert_state = state; updated_at = t; version = i.version + 1 }
    else i

unfoldable pub set_alert_state : ℕ → AlertState → ℕ → Db → Db
set_alert_state incident state t db = record db {
  incidents = map (mark_alert incident state t) db.incidents;
}
