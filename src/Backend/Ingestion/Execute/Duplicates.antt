-- ===== src/Backend/Ingestion/Execute/Duplicates.antt =====
-- A webhook that Grafana delivers again: the deduplication of `execute`.
use mathlib.Core.Option
use cloud_sre_ai_agent.Prelude.{
  ◌≡◌, refl, sym, ap, ◌∙◌, Bool, true, ◌&&◌, some, List, [], ◌∷◌, ◌++◌, any, all, ◌==◌, arith, inl,
  inr, ℕ, Option, Option-cases, Bool-cases, if-true, and_then, subst,
}
use cloud_sre_ai_agent.Backend.Alerts.Json.{Text, text_eq, text_eq_refl}
use cloud_sre_ai_agent.Backend.Ingestion.Rows.{
  DeliveryStatus, DedupKey, IncidentScope, Hierarchy, Db,
}
use cloud_sre_ai_agent.Backend.Ingestion.Fingerprint.{hash_raw_body, make_dedup_key}
use cloud_sre_ai_agent.Backend.Ingestion.Alerts.{
  Webhook, create_delivery, key_claimed, claim_dedup_key, finish_delivery,
}
use cloud_sre_ai_agent.Backend.Ingestion.Execute.{
  Calls, Alert, dedup_key_of, IngestProgress, IngestionResult, process_alert, process_alerts, start,
  finish_progress, ingest,
}
use cloud_sre_ai_agent.Backend.Ingestion.Execute.Work.{process_alert-cases}
use cloud_sre_ai_agent.Backend.Ingestion.Execute.Incidents.{some-injective}

any-last {ℓ} :
    {A : Type ℓ} (p : A → Bool) (xs : List A) (x : A) → p x ≡ true → any p (xs ++ (x ∷ [])) ≡ true
any-last p [] x h = ground arith
any-last p (y ∷ xs) x h = ground (arith, any-last p xs x h)

any-more {ℓ} :
    {A : Type ℓ} (p : A → Bool) (xs ys : List A) → any p xs ≡ true → any p (xs ++ ys) ≡ true
any-more p [] ys h = absurd (ground arith)
any-more p (x ∷ xs) ys h = elim (Bool-cases (p x)) [
  | inl t ↦ ground arith
  | inr t ↦ let ih = any-more p xs ys (ground arith) in ground arith
]

same_key : (s : ℕ) (k : Text) → (s == s && text_eq k k) ≡ true
same_key s k = ground (arith, text_eq_refl k)

claim_dedup_key-claims :
    (s : ℕ) (k : Text) (d : ℕ) (db : Db)
    → key_claimed s k (claim_dedup_key s k d db).dedup_keys ≡ true
unfolding key_claimed claim_dedup_key
claim_dedup_key-claims s k d db =
    elim (Bool-cases (any (λ r. r.source_id == s && text_eq r.dedup_key k) db.dedup_keys)) [
      | inl h ↦ rw (h) h
      | inr h ↦
          rw (h) (
            any-last (λ r. r.source_id == s && text_eq r.dedup_key k) db.dedup_keys _
              (same_key s k))
    ]

claim-keeps :
    (s : ℕ) (k j : Text) (d : ℕ) (db : Db)
    → key_claimed s j db.dedup_keys ≡ true
    → key_claimed s j (claim_dedup_key s k d db).dedup_keys ≡ true
unfolding key_claimed claim_dedup_key
claim-keeps s k j d db h =
    elim (Bool-cases (any (λ r. r.source_id == s && text_eq r.dedup_key k) db.dedup_keys)) [
      | inl t ↦ rw (t) h
      | inr t ↦ rw (t) (any-more (λ r. r.source_id == s && text_eq r.dedup_key j) db.dedup_keys _ h)
    ]

-- The keys of all these alerts are claimed for the source.
unfoldable pub all_claimed : Calls → Webhook → List Alert → List DedupKey → Bool
all_claimed c w alerts keys =
    all (λ a. key_claimed w.source_id (dedup_key_of c w a.event) keys) alerts

process_alerts-claims :
    (c : Calls) (w : Webhook) (d : ℕ) (alerts : List Alert) (p q : IngestProgress)
    → process_alerts c w d alerts p ≡ some q
    → (all_claimed c w alerts q.db.dedup_keys ≡ true)
      × ((k : Text)
          → key_claimed w.source_id k p.db.dedup_keys ≡ true
          → key_claimed w.source_id k q.db.dedup_keys ≡ true)
unfolding process_alerts all_claimed
process_alerts-claims c w d [] p q e = (
  refl,
  λ k h.
      subst (λ (x : IngestProgress). key_claimed w.source_id k x.db.dedup_keys ≡ true)
        (some-injective p q e) h,
)
process_alerts-claims c w d (a ∷ alerts) p q e = elim (process_alert-cases c w d a p) [
  | inl (x, f) ↦ let y = sym e ∙ ap (λ o. and_then o (λ q. process_alerts c w d alerts q)) x in cc
  | inr (s, x, same, _) ↦
      let key = dedup_key_of c w a.event in
      let ih =
        process_alerts-claims c w d alerts s q
          (sym (ap (λ o. and_then o (λ q. process_alerts c w d alerts q)) x) ∙ e) in
      let keeps : (k : Text)
          → key_claimed w.source_id k (claim_dedup_key w.source_id key d p.db).dedup_keys ≡ true
          → key_claimed w.source_id k q.db.dedup_keys ≡ true =
        λ k h. ih.1 k (subst (λ x. key_claimed w.source_id k x ≡ true) (sym same) h) in
      (
        ground (arith, keeps key (claim_dedup_key-claims w.source_id key d p.db), ih.0),
        λ k h. keeps k (claim-keeps w.source_id key k d p.db h),
      )
]

all_claimed-unchanged :
    (c : Calls) (w : Webhook) (d : ℕ) (alerts : List Alert) (p : IngestProgress)
    → all_claimed c w alerts p.db.dedup_keys ≡ true
    → process_alerts c w d alerts p ≡ some p
unfolding process_alerts all_claimed process_alert
all_claimed-unchanged c w d [] p h = refl
all_claimed-unchanged c w d (a ∷ alerts) p h =
    ap (λ o. and_then o (λ q. process_alerts c w d alerts q))
      (if-true (key_claimed w.source_id (dedup_key_of c w a.event) p.db.dedup_keys) _ _
        (ground arith))
    ∙ all_claimed-unchanged c w d alerts p (ground arith)

-- The keys are the same for the same source and the same body.
all_claimed-again :
    (c : Calls) (w v : Webhook) (resolve : ℕ → Option Text → IncidentScope) (h : Hierarchy)
    (alerts : List Alert) (keys : List DedupKey)
    → v.source_id ≡ w.source_id
    → v.raw_body ≡ w.raw_body
    → all_claimed c w alerts keys ≡ true
    → all_claimed (record c { resolve = resolve; hierarchy = h }) v alerts keys ≡ true
unfolding all_claimed dedup_key_of
all_claimed-again c w v resolve h alerts keys source body claimed =
    subst
      (λ (s : ℕ).
        all
          (λ a.
            key_claimed s
              (make_dedup_key c.sha256 c.dumps (c.uuid_text s) a.event.fingerprint a.event.status
                a.event.starts_at a.event.ends_at (hash_raw_body c.sha256 v.raw_body))
              keys)
          alerts
        ≡ true)
      (sym source)
      (subst
        (λ (b : List ℕ).
          all
            (λ a.
              key_claimed w.source_id
                (make_dedup_key c.sha256 c.dumps (c.uuid_text w.source_id) a.event.fingerprint
                  a.event.status a.event.starts_at a.event.ends_at (hash_raw_body c.sha256 b))
                keys)
            alerts
          ≡ true)
        (sym body) claimed)

-- Delivering an accepted webhook again, with the same source, body and alerts but under any token,
-- time, scopes and other fields, only adds one delivery, which ends as DUPLICATE, and reports no
-- incident and no outbox event.
pub redelivery_is_duplicate :
    (c : Calls) (w v : Webhook) (resolve : ℕ → Option Text → IncidentScope) (h : Hierarchy)
    (alerts : List Alert) (db : Db) (r : IngestionResult × Db)
    → v.source_id ≡ w.source_id
    → v.raw_body ≡ w.raw_body
    → ingest c w alerts db ≡ some r
    → ingest (record c { resolve = resolve; hierarchy = h }) v alerts r.1
      ≡ some (
        record {
          delivery_id = r.1.next_id;
          accepted_at = v.received_at;
          incident_ids = [];
          outbox_event_ids = [];
        },
        finish_delivery r.1.next_id DeliveryStatus.duplicate v.received_at
            (create_delivery (hash_raw_body c.sha256 v.raw_body) v r.1),
      )
unfolding ingest finish_delivery create_delivery
redelivery_is_duplicate c w v resolve h alerts db r source body e =
    let d = record c { resolve = resolve; hierarchy = h } in
    elim (Option-cases (process_alerts c w db.next_id alerts (start c w db))) [
      | inl x ↦ let y = sym e ∙ ap (λ o. Option.map (finish_progress w db.next_id) o) x in cc
      | inr (p, x) ↦
          let f = finish_progress w db.next_id p in
          let same : f ≡ r =
            some-injective f r
              (sym (ap (λ o. Option.map (finish_progress w db.next_id) o) x) ∙ e) in
          let keys : p.db.dedup_keys ≡ r.1.dedup_keys =
            ap (λ (z : IngestionResult × Db). z.1.dedup_keys) same in
          let claimed = all_claimed-again c w v resolve h alerts r.1.dedup_keys source body (
            subst (λ k. all_claimed c w alerts k ≡ true) keys
              (process_alerts-claims c w db.next_id alerts (start c w db) p x).0) in
          ap (λ o. Option.map (finish_progress v r.1.next_id) o)
            (all_claimed-unchanged d v r.1.next_id alerts (start d v r.1) claimed)
    ]
