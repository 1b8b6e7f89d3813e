-- ===== src/Backend/Ingestion/Execute/Active.antt =====
-- At most one incident of an identity is OPEN or INVESTIGATING: the partial unique index
-- uq_incidents_active_identity of backend/migrations/versions/0002_grafana_normalization_v2.py.
use cloud_sre_ai_agent.Prelude.{
  ◌≡◌, refl, subst, ℕ, ◌+◌, ◌≤◌, Bool, true, false, ◌⊎◌, Option, none, some, List, [], ◌∷◌, ◌++◌,
  map, any, if◌then◌else◌, inl, inr, Bool-cases, arith,
}
use mathlib.Core.Path.{ap₂}
use cloud_sre_ai_agent.Backend.Alerts.Json.{Text, text_eq_sound}
use cloud_sre_ai_agent.Backend.Outbox.{Service}
use cloud_sre_ai_agent.Backend.Ingestion.Rows.{AlertState, Incident, RcaJobMessage, Db}
use cloud_sre_ai_agent.Backend.Ingestion.Alerts.{Webhook}
use cloud_sre_ai_agent.Backend.Ingestion.Incidents.{
  NewIncident, active_of, incident_row, mark_alert, with_incident,
}
use cloud_sre_ai_agent.Backend.Ingestion.Execute.{Calls, Alert, IngestionResult, execute}
use cloud_sre_ai_agent.Backend.Ingestion.Execute.Work.{is_refused}
use cloud_sre_ai_agent.Backend.Ingestion.Execute.Incidents.{execute-keeps}

-- How many active incidents have the identity.
unfoldable pub count_active : Text → ℕ → List Incident → ℕ
count_active k v [] = 0
count_active k v (i ∷ is) = (if active_of k v i then 1 else 0) + count_active k v is

abbrev pub OneActive : List Incident → Type 0
OneActive is = (k : Text) (v : ℕ) → count_active k v is ≤ 1

none_active :
    (k : Text) (v : ℕ) (is : List Incident)
    → any (active_of k v) is ≡ false
    → count_active k v is ≡ 0
unfolding count_active
none_active k v [] h = refl
none_active k v (i ∷ is) h = elim (Bool-cases (active_of k v i)) [
  | inl t ↦ absurd (ground arith)
  | inr t ↦ let ih = none_active k v is (ground arith) in ground (arith, t, ih)
]

count_active-append :
    (k : Text) (v : ℕ) (is : List Incident) (i : Incident)
    → count_active k v (is ++ (i ∷ [])) ≡ count_active k v is + (if active_of k v i then 1 else 0)
unfolding count_active
count_active-append k v [] i = omega arith
count_active-append k v (j ∷ is) i = omega (arith, count_active-append k v is i)

mark_alert-active :
    (k : Text) (v : ℕ) (n : ℕ) (a : AlertState) (t : ℕ) (i : Incident)
    → active_of k v (mark_alert n a t i) ≡ active_of k v i
mark_alert-active k v n a t i = ground arith

count_active-mark :
    (k : Text) (v : ℕ) (n : ℕ) (a : AlertState) (t : ℕ) (is : List Incident)
    → count_active k v (map (mark_alert n a t) is) ≡ count_active k v is
unfolding count_active
count_active-mark k v n a t [] = refl
count_active-mark k v n a t (i ∷ is) =
    ap₂ (λ (x : Bool) (y : ℕ). (if x then 1 else 0) + y) (mark_alert-active k v n a t i)
      (count_active-mark k v n a t is)

incident_row-identity :
    (id : ℕ) (n : NewIncident) (k : Text) (v : ℕ)
    → active_of k v (incident_row id n) ≡ true
    → (n.identity_key ≡ k) × (n.identity_version ≡ v)
incident_row-identity id n k v h = (text_eq_sound n.identity_key k (ground arith), ground arith)

append-OneActive :
    (n : NewIncident) (id : ℕ) (is : List Incident)
    → any (active_of n.identity_key n.identity_version) is ≡ false
    → OneActive is
    → OneActive (is ++ (incident_row id n ∷ []))
append-OneActive n id is free h k v = elim (Bool-cases (active_of k v (incident_row id n))) [
  | inl t ↦
      let e = incident_row-identity id n k v t in
      let z = none_active n.identity_key n.identity_version is free in
      let y : count_active k v is ≡ 0 =
        subst (λ (x : ℕ). count_active k x is ≡ 0) e.1
          (subst (λ (x : Text). count_active x n.identity_version is ≡ 0) e.0 z) in
      ground (arith, t, y, count_active-append k v is (incident_row id n))
  | inr t ↦ ground (arith, t, h k v, count_active-append k v is (incident_row id n))
]

with_incident-OneActive :
    (n : NewIncident) (db : Db) → OneActive db.incidents → OneActive (with_incident n db).incidents
unfolding with_incident
with_incident-OneActive n db h =
    elim (Bool-cases (any (active_of n.identity_key n.identity_version) db.incidents)) [
      | inl t ↦ rw (t) h
      | inr t ↦ rw (t) (append-OneActive n db.next_id db.incidents t h)
    ]

mark_alert-OneActive :
    (n : ℕ) (a : AlertState) (t : ℕ) (is : List Incident)
    → OneActive is
    → OneActive (map (mark_alert n a t) is)
mark_alert-OneActive n a t is h k v = omega (arith, h k v, count_active-mark k v n a t is)

-- Where every identity has at most one OPEN or INVESTIGATING incident, a webhook is either accepted,
-- and this holds afterwards as well, or refused, and then one of its alerts is FIRING with a scope
-- that breaks a foreign key of `incidents`; whatever the alerts, the scopes, the publisher and the
-- clock are.
pub execute-OneActive :
    (c : Calls) (s : Option (Service RcaJobMessage)) (clock : ℕ → ℕ) (w : Webhook)
    (alerts : List Alert) (db : Db)
    → OneActive db.incidents
    → ((execute c s clock w alerts db ≡ none) × (any (is_refused c w) alerts ≡ true))
      ⊎ ((r : IngestionResult × Db) × (execute c s clock w alerts db ≡ some r)
          × OneActive r.1.incidents)
execute-OneActive c s clock w alerts db h =
    execute-keeps OneActive with_incident-OneActive mark_alert-OneActive c s clock w alerts db h
