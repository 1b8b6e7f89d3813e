-- ===== src/Backend/Ingestion/Execute/Requests.antt =====
-- Each incident that a webhook creates requests one analysis: the loop of `execute`.
use mathlib.Core.Option
use cloud_sre_ai_agent.Prelude.{
  ◌≡◌, refl, ap, ◌∙◌, ℕ, ◌+◌, true, false, not, ◌&&◌, Option, none, some, List, [], ◌∷◌, any, inl,
  inr, Bool-cases, arith, if-true, if-false, and_then, length,
}
use cloud_sre_ai_agent.Backend.Ingestion.Rows.{
  CanonicalAlertEvent, AlertState, firing, resolved, Db,
}
use cloud_sre_ai_agent.Backend.Ingestion.Alerts.{
  Webhook, create_delivery, key_claimed, claim_dedup_key, add_event, upsert_instance,
  finish_delivery,
}
use cloud_sre_ai_agent.Backend.Ingestion.Incidents.{
  scope_holds, active_of, mark_alert, lock_latest, link_alert, set_alert_state,
}
use cloud_sre_ai_agent.Backend.Ingestion.Execute.{
  Calls, Alert, IngestProgress, IngestionResult, dedup_key_of, is_firing, identity_of, new_incident,
  mark_resolved, resolve_alert, fire_alert, store, by_state, process_alert, process_alerts, start,
  finish_progress, ingest,
}
use cloud_sre_ai_agent.Backend.Ingestion.Execute.Work.{is_refused}
use cloud_sre_ai_agent.Backend.Ingestion.Execute.Creation.{IdsDrawn, length-map}
use cloud_sre_ai_agent.Backend.Ingestion.Execute.Firing.{
  IdsDrawn-later, Adds, fire_existing, fire_new,
}

-- The step from p to q succeeds in drawing ids and adding alike.
abbrev Requested : IngestProgress → IngestProgress → Type 0
Requested p q = IdsDrawn q.db × (k : ℕ) × Adds k p q

Requested-trans : (p q r : IngestProgress) → Requested p q → Requested q r → Requested p r
Requested-trans p q r a b =
    let x = a.2 in
    let y = b.2 in
    (
      b.0,
      a.1 + b.1,
      (
        omega (arith, x.0, y.0),
        omega (arith, x.1, y.1),
        omega (arith, x.2, y.2),
        omega (arith, x.3, y.3),
      ),
    )

none_added : (p : IngestProgress) → Adds 0 p p
none_added p = (omega arith, omega arith, omega arith, omega arith)

mark_resolved-Requested :
    (w : Webhook) (stored : ℕ) (p : IngestProgress) (o : Option ℕ)
    → IdsDrawn p.db
    → Requested p (mark_resolved w stored p o)
unfolding mark_resolved set_alert_state link_alert
mark_resolved-Requested w stored p none h = (h, 0, none_added p)
mark_resolved-Requested w stored p (some i) h = (
  h,
  0,
  (
    omega (arith, length-map (mark_alert i resolved w.received_at) p.db.incidents),
    omega arith,
    omega arith,
    omega arith,
  ),
)

fire_alert-Requested :
    (c : Calls) (w : Webhook) (e : CanonicalAlertEvent) (stored : ℕ) (p : IngestProgress)
    → IdsDrawn p.db
    → scope_holds c.hierarchy (c.resolve w.source_id e.folder_code) ≡ true
    → (q : IngestProgress) × (fire_alert c w e stored p ≡ some q) × Requested p q
fire_alert-Requested c w e stored p h holds =
    let n = new_incident c w e p.db in
    elim (Bool-cases (any (active_of n.identity_key n.identity_version) p.db.incidents)) [
      | inl t ↦ let f = fire_existing c w e stored p h holds t in (f.0, f.1, (f.2, 0, f.3))
      | inr t ↦ let f = fire_new c w e stored p h holds t in (f.0, f.1, (f.2, 1, f.3))
    ]

by_state-Requested :
    (s : AlertState) (c : Calls) (w : Webhook) (e : CanonicalAlertEvent) (stored : ℕ)
    (p : IngestProgress)
    → IdsDrawn p.db
    → (is_firing s && not (scope_holds c.hierarchy (c.resolve w.source_id e.folder_code))) ≡ false
    → (q : IngestProgress) × (by_state s c w e stored p ≡ some q) × Requested p q
unfolding resolve_alert
by_state-Requested firing c w e stored p h fits =
    fire_alert-Requested c w e stored p h (ground (arith, fits))
by_state-Requested resolved c w e stored p h fits =
    let i = identity_of c w e in
    let o = lock_latest i.key i.version p.db in
    (mark_resolved w stored p o, refl, mark_resolved-Requested w stored p o h)

store-Requested :
    (c : Calls) (w : Webhook) (d : ℕ) (a : Alert) (p : IngestProgress)
    → IdsDrawn p.db
    → Requested p (store c w d a p)
unfolding store add_event upsert_instance claim_dedup_key
store-Requested c w d a p h =
    let drawn =
      IdsDrawn-later p.db (record p.db { next_id = p.db.next_id + 1 }) h (omega arith) refl refl in
    elim (Bool-cases (key_claimed w.source_id (dedup_key_of c w a.event) p.db.dedup_keys)) [
      | inl t ↦ rw (t) (drawn, 0, none_added p)
      | inr t ↦ rw (t) (drawn, 0, none_added p)
    ]

process_alert-Requested :
    (c : Calls) (w : Webhook) (d : ℕ) (a : Alert) (p : IngestProgress)
    → IdsDrawn p.db
    → is_refused c w a ≡ false
    → (q : IngestProgress) × (process_alert c w d a p ≡ some q) × Requested p q
unfolding process_alert
process_alert-Requested c w d a p h fits =
    let b = key_claimed w.source_id (dedup_key_of c w a.event) p.db.dedup_keys in
    elim (Bool-cases b) [
      | inl t ↦ (p, if-true b _ _ t, (h, 0, none_added p))
      | inr t ↦
          let s = store c w d a p in
          let k = store-Requested c w d a p h in
          let r = by_state-Requested a.event.status c w a.event p.db.next_id s k.0 fits in
          (r.0, if-false b _ _ t ∙ r.1, Requested-trans p s r.0 k r.2)
    ]

process_alerts-Requested :
    (c : Calls) (w : Webhook) (d : ℕ) (alerts : List Alert) (p : IngestProgress)
    → IdsDrawn p.db
    → any (is_refused c w) alerts ≡ false
    → (q : IngestProgress) × (process_alerts c w d alerts p ≡ some q) × Requested p q
unfolding process_alerts
process_alerts-Requested c w d [] p h fits = (p, refl, (h, 0, none_added p))
process_alerts-Requested c w d (a ∷ alerts) p h fits =
    let r = process_alert-Requested c w d a p h (ground (arith, fits)) in
    let ih = process_alerts-Requested c w d alerts r.0 r.2.0 (ground (arith, fits)) in
    (
      ih.0,
      ap (λ o. and_then o (λ q. process_alerts c w d alerts q)) r.1 ∙ ih.1,
      Requested-trans p r.0 ih.0 r.2 ih.2,
    )

-- Where no run of an incident and no job of a run has an id that is still to be drawn, and no FIRING
-- alert has a scope that breaks a foreign key, a webhook is accepted, the first holds afterwards as
-- well, as many runs and as many jobs are added as incidents, and as many outbox events as ids are
-- reported for publication.
pub work_for_each_incident :
    (c : Calls) (w : Webhook) (alerts : List Alert) (db : Db)
    → IdsDrawn db
    → any (is_refused c w) alerts ≡ false
    → (r : IngestionResult × Db) × (ingest c w alerts db ≡ some r)
      × IdsDrawn r.1
      × (k : ℕ) × (length r.1.incidents ≡ length db.incidents + k)
      × (length r.1.runs ≡ length db.runs + k)
      × (length r.1.jobs ≡ length db.jobs + k)
      × (length r.1.outbox ≡ length db.outbox + length r.0.outbox_event_ids)
unfolding ingest create_delivery finish_delivery
work_for_each_incident c w alerts db h fits =
    let begun = start c w db in
    let p =
      process_alerts-Requested c w db.next_id alerts begun
        (IdsDrawn-later db begun.db h (omega arith) refl refl) fits in
    let s = p.2.2 in
    (
      finish_progress w db.next_id p.0,
      ap (λ o. Option.map (finish_progress w db.next_id) o) p.1,
      p.2.0,
      p.2.1,
      s.0,
      s.1,
      s.2,
      omega (arith, s.3),
    )
