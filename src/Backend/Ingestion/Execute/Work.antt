-- ===== src/Backend/Ingestion/Execute/Work.antt =====
-- What the steps of `execute` leave as it was, and when one of them raises.
use cloud_sre_ai_agent.Backend.Alerts.Json.{Text}
use cloud_sre_ai_agent.Prelude.{
  ◌⊎◌, not, ◌&&◌, ◌||◌, if-true, if-false, and_then, ◌≡◌, refl, sym, ap, ◌∙◌, ℕ, ◌+◌, Bool, true,
  false, Option, none, some, List, [], ◌∷◌, ◌++◌, any, keep, ◌==◌, if◌then◌else◌, String, arith,
  inl, inr, Bool-cases, Option-cases,
}
use cloud_sre_ai_agent.Backend.Ingestion.Rows.{
  AlertState, firing, resolved, CanonicalAlertEvent, Incident, RcaRun, WorkerJob, Hierarchy, Db,
}
use cloud_sre_ai_agent.Backend.Ingestion.Alerts.{
  Webhook, key_claimed, claim_dedup_key, add_event, upsert_instance,
}
use cloud_sre_ai_agent.Backend.Ingestion.Incidents.{
  NewIncident, IncidentSelection, active_of, first_by, opened_later, select_incident, is_conflict,
  scope_holds, insert_incident, get_or_create_active, with_incident, lock_latest, link_alert,
  set_alert_state,
}
use cloud_sre_ai_agent.Backend.Ingestion.Jobs.{
  RcaWorkCreation, active_run_of, find_run, find_job, new_run, new_job, add_job, add_message,
  create_rca_work,
}
use cloud_sre_ai_agent.Backend.Ingestion.Execute.{
  Calls, Alert, IngestProgress, new_incident, with_work, add_id, follow_selection, fire_alert,
  resolve_alert, mark_resolved, identity_of, dedup_key_of, is_firing, store, process_alert,
  by_state,
}

pub find_run-some :
    (p : RcaRun → Bool) (rs : List RcaRun) → any p rs ≡ true → (r : ℕ) × (find_run p rs ≡ some r)
unfolding find_run
find_run-some p [] h = absurd (ground arith)
find_run-some p (r ∷ rs) h = elim (Bool-cases (p r)) [
  | inl t ↦ (r.id, rw t)
  | inr t ↦ let ih = find_run-some p rs (ground arith) in (ih.0, rw (t, ih.1))
]

pub find_job-some :
    (run : ℕ) (js : List WorkerJob)
    → any (λ j. j.rca_run_id == run) js ≡ true
    → (j : ℕ) × (find_job run js ≡ some j)
unfolding find_job
find_job-some run [] h = absurd (ground arith)
find_job-some run (j ∷ js) h = elim (Bool-cases (j.rca_run_id == run)) [
  | inl t ↦ (j.id, rw t)
  | inr t ↦ let ih = find_job-some run js (ground arith) in (ih.0, rw (t, ih.1))
]

-- The rows that `create_rca_work` does not touch are the same in both.
abbrev pub SameAlerts : Db → Db → Type 0
SameAlerts a b =
    (a.deliveries ≡ b.deliveries) × (a.dedup_keys ≡ b.dedup_keys) × (a.incidents ≡ b.incidents)

add_job-returns :
    (run t : ℕ) (db : Db) → (r : ℕ × Db) × (add_job run t db ≡ some r) × SameAlerts r.1 db
unfolding add_job
add_job-returns run t db = elim (Bool-cases (any (λ j. j.rca_run_id == run) db.jobs)) [
  | inl h ↦
      let f = find_job-some run db.jobs h in
      ((f.0, record db { next_id = db.next_id + 1 }), rw (h, f.1), (refl, refl, refl))
  | inr h ↦ (
    (
      db.next_id,
      record db { next_id = db.next_id + 1; jobs = db.jobs ++ (new_job db.next_id run t ∷ []) },
    ),
    rw h,
    (refl, refl, refl),
  )
]

add_message-SameAlerts :
    (run_key : ℕ → String) (job run incident t : ℕ) (db : Db)
    → SameAlerts (add_message run_key job run incident t db).1 db
unfolding add_message
add_message-SameAlerts run_key job run incident t db = ground arith

pub create_rca_work-returns :
    (run_key : ℕ → String) (incident t : ℕ) (db : Db)
    → (r : RcaWorkCreation × Db) × (create_rca_work run_key incident t db ≡ some r)
      × SameAlerts r.1 db
unfolding create_rca_work
create_rca_work-returns run_key incident t db =
    elim (Bool-cases (any (active_run_of incident) db.runs)) [
      | inl h ↦
          let f = find_run-some (active_run_of incident) db.runs h in
          (
            (
              record { run_id = f.0; outbox_event_id = none },
              record db { next_id = db.next_id + 1 },
            ),
            rw (h, f.1),
            (refl, refl, refl),
          )
      | inr h ↦
          let j = add_job-returns db.next_id t (record db {
            next_id = db.next_id + 1;
            runs = db.runs ++ (new_run db.next_id incident t ∷ []);
          }) in
          let k = add_message-SameAlerts run_key j.0.0 db.next_id incident t j.0.1 in
          (
            add_message run_key j.0.0 db.next_id incident t j.0.1,
            rw (h, j.1),
            (k.0 ∙ j.2.0, k.1 ∙ j.2.1, k.2 ∙ j.2.2),
          )
    ]

first_by-cons :
    (before : Incident → Incident → Bool) (x : Incident) (xs : List Incident)
    → (i : Incident) × (first_by before (x ∷ xs) ≡ some i)
unfolding first_by
first_by-cons before x xs = elim (Option-cases (first_by before xs)) [
  | inl h ↦ (x, rw h)
  | inr (y, h) ↦ (if before y x then y else x, rw h)
]

pub first_by-some :
    (before : Incident → Incident → Bool) (p : Incident → Bool) (is : List Incident)
    → any p is ≡ true
    → (i : Incident) × (first_by before (keep p is) ≡ some i)
first_by-some before p [] h = absurd (ground arith)
first_by-some before p (x ∷ xs) h = elim (Bool-cases (p x)) [
  | inl t ↦ let f = first_by-cons before x (keep p xs) in (f.0, rw (t, f.1))
  | inr t ↦ let ih = first_by-some before p xs (ground arith) in (ih.0, rw (t, ih.1))
]

pub selection-returns :
    (n : NewIncident) (db : Db) → (s : IncidentSelection) × (select_incident n db ≡ some s)
unfolding select_incident
selection-returns n db =
    elim (Bool-cases (any (active_of n.identity_key n.identity_version) db.incidents)) [
      | inl h ↦
          let f =
            first_by-some opened_later (active_of n.identity_key n.identity_version) db.incidents
              h in
          (record { id = f.0.id; created = false }, rw (h, f.1))
      | inr h ↦ (record { id = db.next_id; created = true }, rw h)
    ]

-- `get_or_create_active` raises only on a scope that breaks a foreign key.
pub get_or_create_active-cases :
    (h : Hierarchy) (n : NewIncident) (db : Db)
    → ((get_or_create_active h n db ≡ none) × (scope_holds h n.scope ≡ false))
      ⊎ ((s : IncidentSelection) × (select_incident n db ≡ some s)
          × (get_or_create_active h n db ≡ some (s, with_incident n db)))
unfolding get_or_create_active insert_incident
get_or_create_active-cases h n db =
    let added = is_conflict n db || scope_holds h n.scope in
    let s = selection-returns n db in
    elim (Bool-cases added) [
      | inl t ↦ inr (s.0, s.1, rw (t, s.1))
      | inr t ↦ inl (rw (t), ground (arith, t))
    ]

-- An alert that is FIRING with a scope that breaks a foreign key
abbrev pub is_refused : Calls → Webhook → Alert → Bool
is_refused c w a =
    is_firing a.event.status
    && not (scope_holds c.hierarchy (c.resolve w.source_id a.event.folder_code))

with_incident-dedup : (n : NewIncident) (db : Db) → (with_incident n db).dedup_keys ≡ db.dedup_keys
unfolding with_incident
with_incident-dedup n db = ground arith

follow_selection-returns :
    (c : Calls) (w : Webhook) (s : IncidentSelection) (linked : Db) (p : IngestProgress)
    → (q : IngestProgress) × (follow_selection c w s linked p ≡ some q)
      × (q.db.dedup_keys ≡ linked.dedup_keys)
      × (q.new_event_count ≡ p.new_event_count)
unfolding follow_selection set_alert_state
follow_selection-returns c w s linked p =
    let k = create_rca_work-returns c.run_key s.id w.received_at linked in
    elim (Bool-cases s.created) [
      | inl h ↦ (with_work s.id p k.0, rw (h, k.1), k.2.1, refl)
      | inr h ↦ (
        record p {
          db = set_alert_state s.id firing w.received_at linked;
          incident_ids = add_id s.id p.incident_ids;
        },
        rw h,
        refl,
        refl,
      )
    ]

-- `fire_alert` on a selection that is known
pub fire_selected :
    (c : Calls) (w : Webhook) (e : CanonicalAlertEvent) (stored : ℕ) (p : IngestProgress)
    (s : IncidentSelection) (db : Db)
    → get_or_create_active c.hierarchy (new_incident c w e p.db) p.db ≡ some (s, db)
    → fire_alert c w e stored p ≡ follow_selection c w s (link_alert s.id stored db) p
unfolding fire_alert
fire_selected c w e stored p s db eq =
    ap (λ o. and_then o (λ r. follow_selection c w r.0 (link_alert r.0.id stored r.1) p)) eq

-- `fire_alert` raises only on a scope that breaks a foreign key; else it leaves the claimed keys as
-- they were and counts nothing.
pub fire_alert-cases :
    (c : Calls) (w : Webhook) (e : CanonicalAlertEvent) (stored : ℕ) (p : IngestProgress)
    → ((fire_alert c w e stored p ≡ none)
        × (scope_holds c.hierarchy (c.resolve w.source_id e.folder_code) ≡ false))
      ⊎ ((q : IngestProgress) × (fire_alert c w e stored p ≡ some q)
          × (q.db.dedup_keys ≡ p.db.dedup_keys)
          × (q.new_event_count ≡ p.new_event_count))
unfolding fire_alert link_alert
fire_alert-cases c w e stored p =
    let n = new_incident c w e p.db in
    elim (get_or_create_active-cases c.hierarchy n p.db) [
      | inl (r, f) ↦ inl (
        ap (λ o. and_then o (λ r. follow_selection c w r.0 (link_alert r.0.id stored r.1) p)) r,
        f,
      )
      | inr (s, _, eq) ↦
          let k =
            follow_selection-returns c w s (link_alert s.id stored (with_incident n p.db)) p in
          inr (
            k.0,
            fire_selected c w e stored p s (with_incident n p.db) eq ∙ k.1,
            k.2 ∙ with_incident-dedup n p.db,
            k.3,
          )
    ]

mark_resolved-same :
    (w : Webhook) (stored : ℕ) (p : IngestProgress) (o : Option ℕ)
    → ((mark_resolved w stored p o).db.dedup_keys ≡ p.db.dedup_keys)
      × ((mark_resolved w stored p o).new_event_count ≡ p.new_event_count)
unfolding mark_resolved link_alert set_alert_state
mark_resolved-same w stored p none = (refl, refl)
mark_resolved-same w stored p (some i) = (refl, refl)

by_state-cases :
    (a : AlertState) (c : Calls) (w : Webhook) (e : CanonicalAlertEvent) (stored : ℕ)
    (p : IngestProgress)
    → ((by_state a c w e stored p ≡ none)
        × ((is_firing a && not (scope_holds c.hierarchy (c.resolve w.source_id e.folder_code)))
            ≡ true))
      ⊎ ((q : IngestProgress) × (by_state a c w e stored p ≡ some q)
          × (q.db.dedup_keys ≡ p.db.dedup_keys)
          × (q.new_event_count ≡ p.new_event_count))
unfolding resolve_alert
by_state-cases firing c w e stored p = elim (fire_alert-cases c w e stored p) [
  | inl (r, f) ↦ inl (r, ground (arith, f))
  | inr x ↦ inr x
]
by_state-cases resolved c w e stored p =
    let i = identity_of c w e in
    let r = mark_resolved-same w stored p (lock_latest i.key i.version p.db) in
    inr (resolve_alert c w e stored p, refl, r.0, r.1)

pub store-keys :
    (c : Calls) (w : Webhook) (d : ℕ) (a : Alert) (p : IngestProgress)
    → ((store c w d a p).db.dedup_keys
        ≡ (claim_dedup_key w.source_id (dedup_key_of c w a.event) d p.db).dedup_keys)
      × ((store c w d a p).new_event_count ≡ p.new_event_count + 1)
unfolding store add_event upsert_instance
store-keys c w d a p = (refl, refl)

claimed-unchanged :
    (source : ℕ) (key : Text) (d : ℕ) (db : Db)
    → key_claimed source key db.dedup_keys ≡ true
    → claim_dedup_key source key d db ≡ db
unfolding claim_dedup_key
claimed-unchanged source key d db h = rw h

-- A round raises only for an alert whose scope is refused; else its key is claimed afterwards, as are
-- those claimed before, and a key that was not claimed is counted.
pub process_alert-cases :
    (c : Calls) (w : Webhook) (d : ℕ) (a : Alert) (p : IngestProgress)
    → ((process_alert c w d a p ≡ none) × (is_refused c w a ≡ true))
      ⊎ ((q : IngestProgress) × (process_alert c w d a p ≡ some q)
          × (q.db.dedup_keys
              ≡ (claim_dedup_key w.source_id (dedup_key_of c w a.event) d p.db).dedup_keys)
          × (q.new_event_count ≡ (
              if key_claimed w.source_id (dedup_key_of c w a.event) p.db.dedup_keys
              then p.new_event_count
              else p.new_event_count + 1)))
unfolding process_alert
process_alert-cases c w d a p =
    let key = dedup_key_of c w a.event in
    let b = key_claimed w.source_id key p.db.dedup_keys in
    elim (Bool-cases b) [
      | inl h ↦ inr (
        p,
        if-true b _ _ h,
        ap (λ (x : Db). x.dedup_keys) (sym (claimed-unchanged w.source_id key d p.db h)),
        sym (if-true b _ _ h),
      )
      | inr h ↦
          let q = store c w d a p in
          let k = store-keys c w d a p in
          elim (by_state-cases a.event.status c w a.event p.db.next_id q) [
            | inl (r, f) ↦ inl (if-false b _ _ h ∙ r, f)
            | inr (x, r, same, count) ↦
                inr (x, if-false b _ _ h ∙ r, same ∙ k.0, count ∙ k.1 ∙ sym (if-false b _ _ h))
          ]
    ]
