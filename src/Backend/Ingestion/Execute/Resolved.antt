-- ===== src/Backend/Ingestion/Execute/Resolved.antt =====
-- Alerts that end: what a webhook of RESOLVED alerts leaves as it was.
use mathlib.Core.Option
use cloud_sre_ai_agent.Prelude.{
  ◌≡◌, refl, ap, ◌∙◌, ℕ, Option, none, some, List, [], ◌∷◌, map, ◌==◌, inl, inr, Bool-cases,
  if-true, if-false, and_then,
}
use mathlib.Core.Path.{ap₂}
use cloud_sre_ai_agent.Backend.Ingestion.Rows.{AlertState, firing, resolved, Incident, Db}
use cloud_sre_ai_agent.Backend.Ingestion.Alerts.{
  Webhook, create_delivery, key_claimed, claim_dedup_key, add_event, upsert_instance,
  finish_delivery,
}
use cloud_sre_ai_agent.Backend.Ingestion.Incidents.{
  mark_alert, lock_latest, link_alert, set_alert_state,
}
use cloud_sre_ai_agent.Backend.Ingestion.Execute.{
  Calls, Alert, IngestProgress, IngestionResult, dedup_key_of, identity_of, mark_resolved,
  resolve_alert, store, by_state, process_alert, process_alerts, start, finish_progress, ingest,
}

-- An incident but for what set_alert_state writes: alert_state, updated_at and version.
abbrev pub but_alert_state : Incident → Incident
but_alert_state i = record i { alert_state = firing; updated_at = 0; version = 0 }

abbrev pub AllResolved : List Alert → Type 0
AllResolved [] = Unit {0}
AllResolved (a ∷ alerts) = (a.event.status ≡ resolved) × AllResolved alerts

-- The rows of work are the same, and the incidents but for what set_alert_state writes.
abbrev pub SameWork : Db → Db → Type 0
SameWork a b =
    (a.runs ≡ b.runs)
    × (a.jobs ≡ b.jobs)
    × (a.outbox ≡ b.outbox)
    × (map but_alert_state a.incidents ≡ map but_alert_state b.incidents)

SameWork-trans : (a b c : Db) → SameWork a b → SameWork b c → SameWork a c
SameWork-trans a b c p q = (p.0 ∙ q.0, p.1 ∙ q.1, p.2 ∙ q.2, p.3 ∙ q.3)

mark_alert-same :
    (n : ℕ) (s : AlertState) (t : ℕ) (i : Incident)
    → but_alert_state (mark_alert n s t i) ≡ but_alert_state i
mark_alert-same n s t i = elim (Bool-cases (i.id == n)) [
  | inl h ↦ ap but_alert_state (if-true (i.id == n) _ _ h)
  | inr h ↦ ap but_alert_state (if-false (i.id == n) _ _ h)
]

map-mark_alert :
    (n : ℕ) (s : AlertState) (t : ℕ) (is : List Incident)
    → map but_alert_state (map (mark_alert n s t) is) ≡ map but_alert_state is
map-mark_alert n s t [] = refl
map-mark_alert n s t (i ∷ is) =
    ap₂ (λ x y. x ∷ y) (mark_alert-same n s t i) (map-mark_alert n s t is)

mark_resolved-SameWork :
    (w : Webhook) (stored : ℕ) (p : IngestProgress) (o : Option ℕ)
    → SameWork (mark_resolved w stored p o).db p.db
      × ((mark_resolved w stored p o).outbox_event_ids ≡ p.outbox_event_ids)
unfolding mark_resolved set_alert_state link_alert
mark_resolved-SameWork w stored p none = ((refl, refl, refl, refl), refl)
mark_resolved-SameWork w stored p (some i) =
    ((refl, refl, refl, map-mark_alert i resolved w.received_at p.db.incidents), refl)

claim_dedup_key-SameWork :
    (s : ℕ) (k : List ℕ) (d : ℕ) (db : Db) → SameWork (claim_dedup_key s k d db) db
unfolding claim_dedup_key
claim_dedup_key-SameWork s k d db = elim (Bool-cases (key_claimed s k db.dedup_keys)) [
  | inl h ↦ rw (h) (refl, refl, refl, refl)
  | inr h ↦ rw (h) (refl, refl, refl, refl)
]

process_alert-SameWork :
    (c : Calls) (w : Webhook) (d : ℕ) (a : Alert) (p : IngestProgress)
    → a.event.status ≡ resolved
    → (q : IngestProgress) × (process_alert c w d a p ≡ some q)
      × SameWork q.db p.db
      × (q.outbox_event_ids ≡ p.outbox_event_ids)
unfolding process_alert resolve_alert store add_event upsert_instance
process_alert-SameWork c w d a p ends =
    let b = key_claimed w.source_id (dedup_key_of c w a.event) p.db.dedup_keys in
    elim (Bool-cases b) [
      | inl h ↦ (p, if-true b _ _ h, (refl, refl, refl, refl), refl)
      | inr h ↦
          let i = identity_of c w a.event in
          let s = store c w d a p in
          let o = lock_latest i.key i.version s.db in
          let k = claim_dedup_key-SameWork w.source_id (dedup_key_of c w a.event) d p.db in
          let r = mark_resolved-SameWork w p.db.next_id s o in
          (
            mark_resolved w p.db.next_id s o,
            if-false b _ _ h ∙ ap (λ x. by_state x c w a.event p.db.next_id s) ends,
            SameWork-trans (mark_resolved w p.db.next_id s o).db s.db p.db r.0 k,
            r.1,
          )
    ]

process_alerts-SameWork :
    (c : Calls) (w : Webhook) (d : ℕ) (alerts : List Alert) (p : IngestProgress)
    → AllResolved alerts
    → (q : IngestProgress) × (process_alerts c w d alerts p ≡ some q)
      × SameWork q.db p.db
      × (q.outbox_event_ids ≡ p.outbox_event_ids)
unfolding process_alerts
process_alerts-SameWork c w d [] p h = (p, refl, (refl, refl, refl, refl), refl)
process_alerts-SameWork c w d (a ∷ alerts) p h =
    let r = process_alert-SameWork c w d a p h.0 in
    let ih = process_alerts-SameWork c w d alerts r.0 h.1 in
    (
      ih.0,
      ap (λ o. and_then o (λ q. process_alerts c w d alerts q)) r.1 ∙ ih.1,
      SameWork-trans ih.0.db r.0.db p.db ih.2 r.2,
      ih.3 ∙ r.3,
    )

-- A webhook of RESOLVED alerts is accepted, creates no run, job or outbox event, reports no event to
-- publish, and leaves the incidents as they were but for alert_state, updated_at and version: none
-- is created and none changes its status.
pub resolved_creates_nothing :
    (c : Calls) (w : Webhook) (alerts : List Alert) (db : Db)
    → AllResolved alerts
    → (r : IngestionResult × Db) × (ingest c w alerts db ≡ some r)
      × SameWork r.1 db
      × (r.0.outbox_event_ids ≡ [])
unfolding ingest create_delivery finish_delivery
resolved_creates_nothing c w alerts db h =
    let p = process_alerts-SameWork c w db.next_id alerts (start c w db) h in
    (
      finish_progress w db.next_id p.0,
      ap (λ o. Option.map (finish_progress w db.next_id) o) p.1,
      p.2,
      p.3,
    )
