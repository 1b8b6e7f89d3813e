-- ===== src/Backend/Ingestion/Execute/Firing.antt =====
-- What a FIRING alert adds in `fire_alert`.
use mathlib.Core.Option
use cloud_sre_ai_agent.Prelude.{
  ◌≡◌, refl, sym, ap, ◌∙◌, ℕ, ◌+◌, ◌≤◌, true, false, Option, none, some, List, [], any, ◌==◌, inl,
  inr, Bool-cases, arith, if-true, if-false, length, length-append,
}
use cloud_sre_ai_agent.Backend.Ingestion.Rows.{Hierarchy, Db}
use cloud_sre_ai_agent.Backend.Ingestion.Jobs.{active_run_of}
use cloud_sre_ai_agent.Backend.Ingestion.Alerts.{Webhook}
use cloud_sre_ai_agent.Backend.Ingestion.Incidents.{
  NewIncident, IncidentSelection, active_of, opened_later, select_active, select_incident,
  scope_holds, get_or_create_active, with_incident, link_alert, set_alert_state, mark_alert,
}
use cloud_sre_ai_agent.Backend.Ingestion.Rows.{CanonicalAlertEvent, firing}
use cloud_sre_ai_agent.Backend.Ingestion.Execute.{
  Calls, IngestProgress, add_event_id, add_id, with_work, new_incident, follow_selection,
  fire_alert,
}
use cloud_sre_ai_agent.Backend.Ingestion.Execute.Work.{
  first_by-some, get_or_create_active-cases, fire_selected,
}
use cloud_sre_ai_agent.Backend.Ingestion.Execute.Incidents.{some-injective}
use cloud_sre_ai_agent.Backend.Ingestion.Execute.Creation.{
  IdsDrawn, create_rca_work-adds, length-map,
}

with_incident-rows :
    (n : NewIncident) (db : Db)
    → ((with_incident n db).next_id ≡ db.next_id + 1)
      × ((with_incident n db).runs ≡ db.runs)
      × ((with_incident n db).jobs ≡ db.jobs)
      × ((with_incident n db).outbox ≡ db.outbox)
unfolding with_incident
with_incident-rows n db =
    elim (Bool-cases (any (active_of n.identity_key n.identity_version) db.incidents)) [
      | inl h ↦ rw (h) (refl, refl, refl, refl)
      | inr h ↦ rw (h) (refl, refl, refl, refl)
    ]

-- No new id is among the runs and jobs after draws that add none.
pub IdsDrawn-later :
    (a b : Db) → IdsDrawn a → a.next_id ≤ b.next_id → b.runs ≡ a.runs → b.jobs ≡ a.jobs → IdsDrawn b
IdsDrawn-later a b h le er ej = (
  λ n big. ap (any (active_run_of n)) er ∙ h.0 n (omega arith),
  λ n big. ap (any (λ j. j.rca_run_id == n)) ej ∙ h.1 n (omega arith),
)

-- From p to q, k incidents, k runs and k jobs were added, and as many events as ids reported.
abbrev pub Adds : ℕ → IngestProgress → IngestProgress → Type 0
Adds k p q =
    (length q.db.incidents ≡ length p.db.incidents + k)
    × (length q.db.runs ≡ length p.db.runs + k)
    × (length q.db.jobs ≡ length p.db.jobs + k)
    × (length q.db.outbox + length p.outbox_event_ids
        ≡ length p.db.outbox + length q.outbox_event_ids)

length-add_event_id :
    (o : Option ℕ) (ids : List ℕ)
    → length (add_event_id o ids) ≡ length ids + length (add_event_id o [])
length-add_event_id none ids = omega arith
length-add_event_id (some e) ids = length-append ids _

-- With a scope that holds, the selection is known.
select_existing :
    (h : Hierarchy) (n : NewIncident) (db : Db)
    → scope_holds h n.scope ≡ true
    → any (active_of n.identity_key n.identity_version) db.incidents ≡ true
    → (i : ℕ) × (get_or_create_active h n db
        ≡ some (record { id = i; created = false }, with_incident n db))
      × ((with_incident n db).incidents ≡ db.incidents)
unfolding select_incident with_incident
select_existing h n db holds t =
    let p = active_of n.identity_key n.identity_version in
    let f = first_by-some opened_later p db.incidents t in
    elim (get_or_create_active-cases h n db) [
      | inl (x, no_scope) ↦ absurd (ground (arith, holds, no_scope))
      | inr (s, e, x) ↦
          let same =
            some-injective s _
              (sym e ∙ if-true (any p db.incidents) _ _ t ∙ ap select_active f.1) in
          (f.0.id, x ∙ ap (λ z. some (z, with_incident n db)) same, rw (t) refl)
    ]

select_new :
    (h : Hierarchy) (n : NewIncident) (db : Db)
    → scope_holds h n.scope ≡ true
    → any (active_of n.identity_key n.identity_version) db.incidents ≡ false
    → (get_or_create_active h n db
        ≡ some (record { id = db.next_id; created = true }, with_incident n db))
      × (length (with_incident n db).incidents ≡ length db.incidents + 1)
unfolding select_incident with_incident
select_new h n db holds t =
    let p = active_of n.identity_key n.identity_version in
    elim (get_or_create_active-cases h n db) [
      | inl (x, no_scope) ↦ absurd (ground (arith, holds, no_scope))
      | inr (s, e, x) ↦
          let same = some-injective s _ (sym e ∙ if-false (any p db.incidents) _ _ t) in
          (x ∙ ap (λ z. some (z, with_incident n db)) same, rw (t) (length-append db.incidents _))
    ]

pub fire_existing :
    (c : Calls) (w : Webhook) (e : CanonicalAlertEvent) (stored : ℕ) (p : IngestProgress)
    → IdsDrawn p.db
    → scope_holds c.hierarchy (c.resolve w.source_id e.folder_code) ≡ true
    → any
        (active_of
          (new_incident c w e p.db).identity_key
          (new_incident c w e p.db).identity_version)
        p.db.incidents
      ≡ true
    → (q : IngestProgress) × (fire_alert c w e stored p ≡ some q) × IdsDrawn q.db × Adds 0 p q
unfolding follow_selection link_alert set_alert_state
fire_existing c w e stored p h holds t =
    let n = new_incident c w e p.db in
    let f = select_existing c.hierarchy n p.db holds t in
    let s : IncidentSelection = record { id = f.0; created = false } in
    let linked = link_alert f.0 stored (with_incident n p.db) in
    let q : IngestProgress = record p {
      db = set_alert_state f.0 firing w.received_at linked;
      incident_ids = add_id f.0 p.incident_ids;
    } in
    let k = with_incident-rows n p.db in
    (
      q,
      fire_selected c w e stored p s (with_incident n p.db) f.1,
      IdsDrawn-later p.db q.db h (omega (arith, k.0)) k.1 k.2,
      (
        omega (
          arith,
          length-map (mark_alert f.0 firing w.received_at) (with_incident n p.db).incidents,
          ap length f.2,
        ),
        omega (arith, ap length k.1),
        omega (arith, ap length k.2),
        omega (arith, ap length k.3),
      ),
    )

pub fire_new :
    (c : Calls) (w : Webhook) (e : CanonicalAlertEvent) (stored : ℕ) (p : IngestProgress)
    → IdsDrawn p.db
    → scope_holds c.hierarchy (c.resolve w.source_id e.folder_code) ≡ true
    → any
        (active_of
          (new_incident c w e p.db).identity_key
          (new_incident c w e p.db).identity_version)
        p.db.incidents
      ≡ false
    → (q : IngestProgress) × (fire_alert c w e stored p ≡ some q) × IdsDrawn q.db × Adds 1 p q
unfolding follow_selection link_alert
fire_new c w e stored p h holds t =
    let n = new_incident c w e p.db in
    let f = select_new c.hierarchy n p.db holds t in
    let i = p.db.next_id in
    let s : IncidentSelection = record { id = i; created = true } in
    let linked = link_alert i stored (with_incident n p.db) in
    let k = with_incident-rows n p.db in
    let r =
      create_rca_work-adds c.run_key i w.received_at linked
        (IdsDrawn-later p.db linked h (omega (arith, k.0)) k.1 k.2) (omega (arith, k.0))
        (ap (any (active_run_of i)) k.1 ∙ h.0 i (omega arith)) in
    (
      with_work i p r.0,
      fire_selected c w e stored p s (with_incident n p.db) f.0
          ∙ ap (λ o. Option.map (with_work i p) o) r.1,
      r.2,
      (
        omega (arith, ap length r.5, f.1),
        omega (arith, r.3, ap length k.1),
        omega (arith, r.4, ap length k.2),
        omega (
          arith,
          r.6,
          ap length k.3,
          length-add_event_id r.0.0.outbox_event_id p.outbox_event_ids,
        ),
      ),
    )
