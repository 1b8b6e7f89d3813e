-- ===== src/Backend/Ingestion/Execute/Incidents.antt =====
-- The incidents that `execute` leaves: a property of the rows is kept if the INSERT of
-- get_or_create_active and the UPDATE of set_alert_state keep it.
use mathlib.Core.Option
use cloud_sre_ai_agent.Prelude.{
  ◌≡◌, refl, sym, ap, subst, ◌∙◌, ℕ, Option, none, some, List, [], ◌∷◌, map, inl, inr, Bool-cases,
  ◌⊎◌, true, any, arith, if-true, if-false, and_then,
}
use cloud_sre_ai_agent.Backend.Outbox.{Service}
use cloud_sre_ai_agent.Backend.Ingestion.Rows.{
  AlertState, firing, resolved, CanonicalAlertEvent, Incident, RcaJobMessage, Db,
}
use cloud_sre_ai_agent.Backend.Ingestion.Alerts.{
  Webhook, create_delivery, key_claimed, claim_dedup_key, add_event, upsert_instance,
  finish_delivery,
}
use cloud_sre_ai_agent.Backend.Ingestion.Incidents.{
  NewIncident, IncidentSelection, mark_alert, with_incident, lock_latest, link_alert,
  set_alert_state,
}
use cloud_sre_ai_agent.Backend.Ingestion.Execute.{
  Calls, Alert, IngestProgress, IngestionResult, dedup_key_of, identity_of, new_incident, with_work,
  follow_selection, fire_alert, mark_resolved, resolve_alert, store, by_state, process_alert,
  process_alerts, start, finish_progress, ingest, publish_if, execute,
}
use cloud_sre_ai_agent.Backend.Ingestion.Execute.Work.{
  create_rca_work-returns, is_refused, get_or_create_active-cases, fire_selected,
  process_alert-cases,
}

pub some-injective {ℓ} : {A : Type ℓ} (a b : A) → some a ≡ some b → a ≡ b
some-injective a b e = cc

store-incidents :
    (c : Calls) (w : Webhook) (d : ℕ) (a : Alert) (p : IngestProgress)
    → (store c w d a p).db.incidents ≡ p.db.incidents
unfolding store add_event upsert_instance claim_dedup_key
store-incidents c w d a p = ground arith

publish_if-incidents :
    (s : Option (Service RcaJobMessage)) (clock : ℕ → ℕ) (r : IngestionResult × Db)
    → (publish_if s clock r).1.incidents ≡ r.1.incidents
publish_if-incidents none clock r = refl
publish_if-incidents (some s) clock r = refl

-- The loop raises only where some alert is refused.
pub process_alerts-cases :
    (c : Calls) (w : Webhook) (d : ℕ) (alerts : List Alert) (p : IngestProgress)
    → ((process_alerts c w d alerts p ≡ none) × (any (is_refused c w) alerts ≡ true))
      ⊎ ((q : IngestProgress) × (process_alerts c w d alerts p ≡ some q))
unfolding process_alerts
process_alerts-cases c w d [] p = inr (p, refl)
process_alerts-cases c w d (a ∷ alerts) p = elim (process_alert-cases c w d a p) [
  | inl (r, f) ↦
      inl (ap (λ o. and_then o (λ q. process_alerts c w d alerts q)) r, ground (arith, f))
  | inr (q, r, _, _) ↦
      let step = ap (λ o. and_then o (λ q. process_alerts c w d alerts q)) r in
      elim (process_alerts-cases c w d alerts q) [
        | inl (x, f) ↦ inl (step ∙ x, ground (arith, f))
        | inr (x, y) ↦ inr (x, step ∙ y)
      ]
]

module _ (P : List Incident → Type 0)
    (inserts : (n : NewIncident) (db : Db) → P db.incidents → P (with_incident n db).incidents)
    (marks : (i : ℕ) (a : AlertState) (t : ℕ) (is : List Incident)
      → P is
      → P (map (mark_alert i a t) is)) where
  follow_selection-keeps :
      (c : Calls) (w : Webhook) (s : IncidentSelection) (linked : Db) (p q : IngestProgress)
      → P linked.incidents
      → follow_selection c w s linked p ≡ some q
      → P q.db.incidents
  unfolding follow_selection set_alert_state
  follow_selection-keeps c w s linked p q h e =
      let k = create_rca_work-returns c.run_key s.id w.received_at linked in
      elim (Bool-cases s.created) [
        | inl t ↦
            let same =
              some-injective (with_work s.id p k.0) q (
                sym (if-true s.created _ _ t ∙ ap (λ o. Option.map (with_work s.id p) o) k.1)
                ∙ e) in
            subst (λ (x : IngestProgress). P x.db.incidents) same (subst P (sym k.2.2) h)
        | inr t ↦
            subst (λ (x : IngestProgress). P x.db.incidents)
              (some-injective _ q (sym (if-false s.created _ _ t) ∙ e))
              (marks s.id firing w.received_at linked.incidents h)
      ]

  fire_alert-keeps :
      (c : Calls) (w : Webhook) (e : CanonicalAlertEvent) (stored : ℕ) (p q : IngestProgress)
      → P p.db.incidents
      → fire_alert c w e stored p ≡ some q
      → P q.db.incidents
  unfolding fire_alert link_alert
  fire_alert-keeps c w e stored p q h r =
      let n = new_incident c w e p.db in
      elim (get_or_create_active-cases c.hierarchy n p.db) [
        | inl (x, f) ↦
            let y =
              sym r
              ∙ ap
                  (λ o. and_then o (λ s. follow_selection c w s.0 (link_alert s.0.id stored s.1) p))
                  x in
            cc
        | inr (s, _, x) ↦
            follow_selection-keeps c w s (link_alert s.id stored (with_incident n p.db)) p q
              (inserts n p.db h) (sym (fire_selected c w e stored p s (with_incident n p.db) x) ∙ r)
      ]

  mark_resolved-keeps :
      (w : Webhook) (stored : ℕ) (p : IngestProgress) (o : Option ℕ)
      → P p.db.incidents
      → P (mark_resolved w stored p o).db.incidents
  unfolding mark_resolved set_alert_state link_alert
  mark_resolved-keeps w stored p none h = h
  mark_resolved-keeps w stored p (some i) h = marks i resolved w.received_at p.db.incidents h

  by_state-keeps :
      (a : AlertState) (c : Calls) (w : Webhook) (e : CanonicalAlertEvent) (stored : ℕ)
      (p q : IngestProgress)
      → P p.db.incidents
      → by_state a c w e stored p ≡ some q
      → P q.db.incidents
  unfolding resolve_alert
  by_state-keeps firing c w e stored p q h r = fire_alert-keeps c w e stored p q h r
  by_state-keeps resolved c w e stored p q h r =
      let i = identity_of c w e in
      let o = lock_latest i.key i.version p.db in
      subst (λ (x : IngestProgress). P x.db.incidents)
        (some-injective (mark_resolved w stored p o) q r) (mark_resolved-keeps w stored p o h)

  process_alert-keeps :
      (c : Calls) (w : Webhook) (d : ℕ) (a : Alert) (p q : IngestProgress)
      → P p.db.incidents
      → process_alert c w d a p ≡ some q
      → P q.db.incidents
  unfolding process_alert
  process_alert-keeps c w d a p q h r =
      let b = key_claimed w.source_id (dedup_key_of c w a.event) p.db.dedup_keys in
      elim (Bool-cases b) [
        | inl t ↦
            subst (λ (x : IngestProgress). P x.db.incidents)
              (some-injective p q (sym (if-true b _ _ t) ∙ r)) h
        | inr t ↦
            by_state-keeps a.event.status c w a.event p.db.next_id (store c w d a p) q
              (subst P (sym (store-incidents c w d a p)) h) (sym (if-false b _ _ t) ∙ r)
      ]

  process_alerts-keeps :
      (c : Calls) (w : Webhook) (d : ℕ) (alerts : List Alert) (p q : IngestProgress)
      → P p.db.incidents
      → process_alerts c w d alerts p ≡ some q
      → P q.db.incidents
  unfolding process_alerts
  process_alerts-keeps c w d [] p q h r =
      subst (λ (x : IngestProgress). P x.db.incidents) (some-injective p q r) h
  process_alerts-keeps c w d (a ∷ alerts) p q h r = elim (process_alert-cases c w d a p) [
    | inl (x, f) ↦ let y = sym r ∙ ap (λ o. and_then o (λ q. process_alerts c w d alerts q)) x in cc
    | inr (s, x, _, _) ↦
        process_alerts-keeps c w d alerts s q (process_alert-keeps c w d a p s h x)
          (sym (ap (λ o. and_then o (λ q. process_alerts c w d alerts q)) x) ∙ r)
  ]

  -- `execute` raises only where some alert is refused; else it returns rows that have the property.
  pub execute-keeps :
      (c : Calls) (s : Option (Service RcaJobMessage)) (clock : ℕ → ℕ) (w : Webhook)
      (alerts : List Alert) (db : Db)
      → P db.incidents
      → ((execute c s clock w alerts db ≡ none) × (any (is_refused c w) alerts ≡ true))
        ⊎ ((r : IngestionResult × Db) × (execute c s clock w alerts db ≡ some r) × P r.1.incidents)
  unfolding execute ingest create_delivery finish_delivery
  execute-keeps c s clock w alerts db h =
      let after = λ (o : Option IngestProgress).
        Option.map (publish_if s clock) (Option.map (finish_progress w db.next_id) o) in
      elim (process_alerts-cases c w db.next_id alerts (start c w db)) [
        | inl (x, f) ↦ inl (ap after x, f)
        | inr (q, x) ↦
            let f = finish_progress w db.next_id q in
            inr (
              publish_if s clock f,
              ap after x,
              subst P (sym (publish_if-incidents s clock f))
                  (process_alerts-keeps c w db.next_id alerts (start c w db) q h x),
            )
      ]
