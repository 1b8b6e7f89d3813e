-- ===== src/Backend/Outbox/Trace.antt =====
-- Sequences of operations of publish_events.py, with any times, locks and answers of Pub/Sub.
use mathlib.Core.Option
use cloud_sre_ai_agent.Prelude.{
  ℕ, ◌≡◌, refl, sym, subst, ap, ◌∙◌, ◌⊎◌, inl, inr, Bool, true, false, ◌||◌, Option, some, none,
  List, [], ◌∷◌, arith, Bool-cases, Option-cases, ltb, ◌==◌, if◌then◌else◌, is_some,
}
use cloud_sre_ai_agent.Backend.Outbox.{
  Event, Status, Service, Settled, Batch, is_published, published_data, modify_event, fail_event,
  mark_published, publish_row, publish_locked_rows, find_event, publish_event, select_events,
  publish_status, publish_pending, publish_failed,
}
use cloud_sre_ai_agent.Backend.Outbox.Publish.{
  settled_event, settled_result, has_id, Distinct, find-modify, fail-id, mark-id, publish_row-find,
  publish_row-result, publish_rows-find, All-select_events, Distinct-present,
}

module _ {J : Type 0} where
  find-id : (k : ℕ) (es : List (Event J)) (e : Event J) → find_event k es ≡ some e → e.id ≡ k
  unfolding find_event
  find-id k [] e h = absurd (ground arith)
  find-id k (x ∷ xs) e h = elim (Bool-cases (x.id == k)) [
    | inl same ↦ ground arith
    | inr other ↦ find-id k xs e (rw other at h)
  ]

  find_self :
      (k : ℕ) (es : List (Event J)) (e : Event J)
      → find_event k es ≡ some e
      → find_event e.id es ≡ some e
  find_self k es e h = subst (λ i. find_event i es ≡ some e) (sym (find-id k es e h)) h

  publish_found :
      (s : Service J) (now k : ℕ) (es : List (Event J)) (row : Event J)
      → find_event k es ≡ some row
      → publish_event s now k es ≡ some (publish_row s now row es)
  publish_found s now k es row h =
      unfold publish_event in ap (Option.map (λ e. publish_row s now e es)) h

  publish_missing :
      (s : Service J) (now k : ℕ) (es : List (Event J))
      → find_event k es ≡ none
      → publish_event s now k es ≡ none
  publish_missing s now k es h =
      unfold publish_event in ap (Option.map (λ e. publish_row s now e es)) h

  -- Publishing one event settles it by itself and touches no other row: if the table has the event,
  -- the result is that of the event, and afterwards each id is found as before but for the event,
  -- which is found settled. If the table lacks it, OutboxEventNotFound is raised.
  pub publish_event_exact :
      (s : Service J) (now k : ℕ) (es : List (Event J))
      → ((find_event k es ≡ none) × (publish_event s now k es ≡ none))
        ⊎ ((row : Event J) × (r : Settled J) × (find_event k es ≡ some row)
            × (publish_event s now k es ≡ some r)
            × (r.result ≡ settled_result s row)
            × ((j : ℕ)
                → find_event j r.events
                  ≡ (if k == j then some (settled_event s now row) else find_event j es)))
  publish_event_exact s now k es = elim (Option-cases (find_event k es)) [
    | inl missing ↦ inl (missing, publish_missing s now k es missing)
    | inr (row, found) ↦
        let same : row.id ≡ k = find-id k es row found in
        inr (
          row,
          publish_row s now row es,
          found,
          publish_found s now k es row found,
          publish_row-result s now row es,
          λ j. rw (← same) (publish_row-find s now j row es (inl (find_self k es row found))),
        )
  ]

  Distinct-modify :
      (k : ℕ) (f : Event J → Event J) (es : List (Event J))
      → ((e : Event J) → (f e).id ≡ e.id)
      → Distinct es
      → Distinct (modify_event k f es)
  unfolding modify_event
  Distinct-modify k f [] same d = tt
  Distinct-modify k f (e ∷ es) same d = (
    ground (arith, find-modify e.id k f es same, same e, d.0, find-modify (f e).id k f es same),
    Distinct-modify k f es same d.1,
  )

  Distinct-publish_row :
      (s : Service J) (now : ℕ) (row : Event J) (es : List (Event J))
      → Distinct es
      → Distinct (publish_row s now row es).events
  unfolding publish_row
  Distinct-publish_row s now row es d = elim (Bool-cases (is_published row.status)) [
    | inl old ↦ rw old d
    | inr open_row ↦ elim (Option-cases (published_data s row)) [
      | inl invalid ↦ rw (open_row, invalid) (Distinct-modify row.id _ es (fail-id _) d)
      | inr (bytes, valid) ↦ elim (Bool-cases (s.accepts row.id)) [
        | inl sent ↦ rw (open_row, valid, sent) (Distinct-modify row.id _ es (mark-id now) d)
        | inr unsent ↦ rw (open_row, valid, unsent) (Distinct-modify row.id _ es (fail-id _) d)
      ]
    ]
  ]

  Distinct-publish_rows :
      (s : Service J) (now : ℕ) (rows es : List (Event J))
      → Distinct es
      → Distinct (publish_locked_rows s now rows es).events
  unfolding publish_locked_rows
  Distinct-publish_rows s now [] es d = d
  Distinct-publish_rows s now (row ∷ rows) es d =
      Distinct-publish_rows s now rows _ (Distinct-publish_row s now row es d)

-- An operation of the service on the table.
pub data Operation (J : Type 0) : Type 0 where
  event : Service J → ℕ → ℕ → Operation J
  pending : Service J → ℕ → ℕ → (ℕ → Bool) → Operation J
  failed : Service J → ℕ → ℕ → (ℕ → Bool) → Operation J

module _ {J : Type 0} where
  -- What raises writes nothing.
  abbrev events_or : List (Event J) → Option (Batch J) → List (Event J)
  events_or es none = es
  events_or es (some b) = b.events

  abbrev event_or : List (Event J) → Option (Settled J) → List (Event J)
  event_or es none = es
  event_or es (some r) = r.events

  unfoldable pub apply : Operation J → List (Event J) → List (Event J)
  apply (event s now k) es = event_or es (publish_event s now k es)
  apply (pending s limit now locked) es = events_or es (publish_pending s limit now locked es)
  apply (failed s limit now locked) es = events_or es (publish_failed s limit now locked es)

  unfoldable pub run : List (Operation J) → List (Event J) → List (Event J)
  run [] es = es
  run (o ∷ os) es = run os (apply o es)

  -- What the settling of one event keeps.
  record EventKept (e e' : Event J) : Type 0 where
    stays : is_published e.status ≡ true → e' ≡ e
    dated :
        is_published e.status ≡ is_some e.published_at
        → is_published e'.status ≡ is_some e'.published_at

  EventKept-refl : (e : Event J) → EventKept e e
  EventKept-refl e = record { stays = λ h. refl; dated = λ h. h }

  settled-EventKept : (s : Service J) (now : ℕ) (e : Event J) → EventKept e (settled_event s now e)
  unfolding settled_event fail_event mark_published
  settled-EventKept s now e = record { stays = λ h. ground arith; dated = λ h. ground arith }

  abbrev RowKept : Option (Event J) → Option (Event J) → Type 0
  RowKept none none = Unit {0}
  RowKept (some e) (some e') = EventKept e e'
  RowKept _ _ = ⊥

  RowKept-refl : (o : Option (Event J)) → RowKept o o
  RowKept-refl none = tt
  RowKept-refl (some e) = EventKept-refl e

  settled-RowKept :
      (s : Service J) (now : ℕ) (o : Option (Event J))
      → RowKept o (Option.map (settled_event s now) o)
  settled-RowKept s now none = tt
  settled-RowKept s now (some e) = settled-EventKept s now e

  -- What one operation keeps.
  record Kept (es es' : List (Event J)) : Type 0 where
    distinct : Distinct es'
    rows : (j : ℕ) → RowKept (find_event j es) (find_event j es')

  event-Kept :
      (s : Service J) (now k : ℕ) (es : List (Event J))
      → Distinct es
      → Kept es (event_or es (publish_event s now k es))
  event-Kept s now k es d = elim (Option-cases (find_event k es)) [
    | inl missing ↦
        rw (publish_missing s now k es missing)
          (record { distinct = d; rows = λ j. RowKept-refl _ })
    | inr (row, found) ↦
        let same : row.id ≡ k = find-id k es row found in
        rw (publish_found s now k es row found) (record {
          distinct = Distinct-publish_row s now row es d;
          rows = λ j.
              rw (publish_row-find s now j row es (inl (find_self k es row found)))
                (elim (Bool-cases (row.id == j)) [
                  | inl here ↦ rw here (
                      let at : find_event j es ≡ some row = ground arith in
                      rw at (settled-EventKept s now row))
                  | inr other ↦ rw other (RowKept-refl _)
                ]);
        })
  ]

  batch-Kept :
      (s : Service J) (status : Status) (limit now : ℕ) (locked : ℕ → Bool) (es : List (Event J))
      → Distinct es
      → Kept es (events_or es (publish_status s status limit now locked es))
  unfolding publish_status
  batch-Kept s status limit now locked es d = elim (Bool-cases (ltb limit 1 || ltb 100 limit)) [
    | inl refused ↦ rw refused (record { distinct = d; rows = λ j. RowKept-refl _ })
    | inr fine ↦
        let present =
          All-select_events (λ x. find_event x.id es ≡ some x) status limit locked es
            (Distinct-present es d) in
        rw fine (record {
          distinct = Distinct-publish_rows s now (select_events status limit locked es) es d;
          rows = λ j.
              rw
                (publish_rows-find s now (λ k. false) es es (select_events status limit locked es)
                  present (λ k. refl) j)
                (elim (Bool-cases (has_id j (select_events status limit locked es) || false)) [
                  | inl settled ↦ rw settled (settled-RowKept s now _)
                  | inr untouched ↦ rw untouched (RowKept-refl _)
                ]);
        })
  ]

  apply-Kept : (o : Operation J) (es : List (Event J)) → Distinct es → Kept es (apply o es)
  unfolding apply publish_pending publish_failed
  apply-Kept (event s now k) es d = event-Kept s now k es d
  apply-Kept (pending s limit now locked) es d = batch-Kept s Status.pending limit now locked es d
  apply-Kept (failed s limit now locked) es d = batch-Kept s Status.failed limit now locked es d

  stays_found :
      (j : ℕ) (e : Event J) (o o' : Option (Event J))
      → RowKept o o'
      → o ≡ some e
      → is_published e.status ≡ true
      → o' ≡ some e
  stays_found j e none o' k h p = absurd (ground arith)
  stays_found j e (some x) none k h p = absurd k
  stays_found j e (some x) (some y) k h p = ap some (k.stays (ground arith)) ∙ h

  -- A PUBLISHED event is final: over a table with distinct ids, whatever sequence of publish_event,
  -- publish_pending and publish_failed follows, with any service, times, locks and answers of
  -- Pub/Sub, the row of an event that is PUBLISHED stays exactly as it is.
  pub published_events_stay :
      (os : List (Operation J)) (es : List (Event J)) (j : ℕ) (e : Event J)
      → Distinct es
      → find_event j es ≡ some e
      → is_published e.status ≡ true
      → find_event j (run os es) ≡ some e
  unfolding run
  published_events_stay [] es j e d h p = h
  published_events_stay (o ∷ os) es j e d h p =
      let k = apply-Kept o es d in
      published_events_stay os (apply o es) j e k.distinct (stays_found j e _ _ (k.rows j) h p) p

  abbrev Dated : Option (Event J) → Type 0
  Dated none = Unit {0}
  Dated (some e) = is_published e.status ≡ is_some e.published_at

  Dated-kept : (o o' : Option (Event J)) → RowKept o o' → Dated o → Dated o'
  Dated-kept none none k d = tt
  Dated-kept none (some y) k d = absurd k
  Dated-kept (some x) none k d = absurd k
  Dated-kept (some x) (some y) k d = k.dated d

  run-Dated :
      (os : List (Operation J)) (es : List (Event J))
      → Distinct es
      → ((j : ℕ) → Dated (find_event j es))
      → (j : ℕ) → Dated (find_event j (run os es))
  unfolding run
  run-Dated [] es d h j = h j
  run-Dated (o ∷ os) es d h j =
      let k = apply-Kept o es d in
      run-Dated os (apply o es) k.distinct (λ i. Dated-kept _ _ (k.rows i) (h i)) j

  -- Over a table with distinct ids where every event is PUBLISHED exactly when it has a publication
  -- time, this holds of every event after any sequence of operations as well.
  pub events_stay_dated :
      (os : List (Operation J)) (es : List (Event J))
      → Distinct es
      → ((j : ℕ) (e : Event J)
          → find_event j es ≡ some e
          → is_published e.status ≡ is_some e.published_at)
      → (j : ℕ) (e : Event J) → find_event j (run os es) ≡ some e
      → is_published e.status ≡ is_some e.published_at
  events_stay_dated os es d h j e f =
      let all : Dated (find_event j (run os es)) = run-Dated os es d (λ i. dated_at i) j in
      rw f at all
    where
      dated_at : (i : ℕ) → Dated (find_event i es)
      dated_at i = elim (Option-cases (find_event i es)) [
        | inl gone ↦ rw gone tt
        | inr (x, found) ↦ rw found (h i x found)
      ]
