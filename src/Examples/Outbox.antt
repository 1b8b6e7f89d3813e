-- ===== src/Examples/Outbox.antt =====
-- The outbox of backend/src/sre_agent/application/outbox at work. A payload is a number here: 0 is no
-- mapping, 1 is a mapping that is no RCA job message, and any other encodes as itself.
use mathlib.Core.List.{Perm}
use mathlib.Core.Option
use cloud_sre_ai_agent.Prelude.{
  ℕ, ◌+◌, ◌≤◌, ◌<◌, ◌≡◌, refl, ◌⊎◌, Bool, true, false, not, none, some, List, [], ◌∷◌, ◌++◌, map,
  String, ◌==◌, if◌then◌else◌, length, is_some, arith, any, keep,
}
use cloud_sre_ai_agent.Prelude.Text.{str_eq}
use cloud_sre_ai_agent.Backend.Outbox.{
  Event, Status, Service, Settled, Batch, ResultCode, PublishResult, find_event, publish_event,
  publish_status, select_events, is_selected, is_published, before, insert_event,
}
use cloud_sre_ai_agent.Backend.Outbox.Order.{NoneAfter, select_events_first}
use cloud_sre_ai_agent.Backend.Outbox.Publish.{
  settled_event, settled_result, has_id, Distinct, publish_status_pointwise,
}
use cloud_sre_ai_agent.Backend.Outbox.Trace.{
  Operation, event, run, publish_event_exact, published_events_stay, events_stay_dated,
}
use cloud_sre_ai_agent.Backend.Settlement.{
  value, error, raises, raises_cancelled, complete_durable_settlement, cancellation_deferred,
}
use cloud_sre_ai_agent.Backend.Recovery.{summary, State, Caller, retry_pending, retry_failed}
use cloud_sre_ai_agent.Backend.Recovery.Audit.{
  has_category, summary_accounts, Recorded, retries-Recorded,
}

abbrev service : Service ℕ
service = record {
  topic = "rca";
  retry_delay = 30;
  is_mapping = λ p. not (p == 0);
  encode = λ p. if p == 1 then none else some (p ∷ []);
  accepts = λ k. not (k == 4);
}

abbrev row : ℕ → ℕ → ℕ → Event ℕ
row k payload due = record {
  id = k;
  event_type = "RCA_RUN_REQUESTED";
  payload = payload;
  idempotency_key = "rca-run";
  status = Status.pending;
  available_at = due;
  published_at = none;
  created_at = due;
}

abbrev sent_row : Event ℕ
sent_row = record (row 5 7 0) { status = Status.published; published_at = some 9 }

abbrev table : List (Event ℕ)
table = row 3 8 20 ∷ row 4 9 10 ∷ row 6 1 30 ∷ sent_row ∷ []

abbrev unlocked : ℕ → Bool
unlocked k = false

Distinct-table : Distinct table
unfolding find_event
Distinct-table = (refl, (refl, (refl, (refl, tt))))

select_events_first_example :
    (rest : List (Event ℕ)) × Perm
      (select_events Status.pending 2 unlocked table ++ rest)
      (keep (is_selected Status.pending unlocked) table)
    × NoneAfter (select_events Status.pending 2 unlocked table) rest
    × ((rest ≡ []) ⊎ (length (select_events Status.pending 2 unlocked table) ≡ 2))
select_events_first_example = select_events_first Status.pending 2 unlocked table

publish_status_pointwise_example :
    ((1 ≤ 2)
      × (2 ≤ 100)
      × (batch : Batch ℕ) × (publish_status service Status.pending 2 50 unlocked table ≡ some batch)
      × (batch.results
          ≡ map (settled_result service) (select_events Status.pending 2 unlocked table))
      × ((j : ℕ)
          → find_event j batch.events ≡ (
              if has_id j (select_events Status.pending 2 unlocked table)
              then Option.map (settled_event service 50) (find_event j table)
              else find_event j table)))
    ⊎ (((2 < 1) ⊎ (100 < 2)) × (publish_status service Status.pending 2 50 unlocked table ≡ none))
publish_status_pointwise_example =
    publish_status_pointwise service Status.pending 2 50 unlocked table Distinct-table

publish_event_exact_example :
    ((find_event 4 table ≡ none) × (publish_event service 50 4 table ≡ none))
    ⊎ ((r : Event ℕ) × (done : Settled ℕ) × (find_event 4 table ≡ some r)
        × (publish_event service 50 4 table ≡ some done)
        × (done.result ≡ settled_result service r)
        × ((j : ℕ)
            → find_event j done.events
              ≡ (if 4 == j then some (settled_event service 50 r) else find_event j table)))
publish_event_exact_example = publish_event_exact service 50 4 table

abbrev operations : List (Operation ℕ)
operations =
    event service 50 5
    ∷ Operation.pending service 10 60 unlocked
    ∷ Operation.failed service 10 70 unlocked
    ∷ []

sent_row_found : find_event 5 table ≡ some sent_row
unfolding find_event
sent_row_found = refl

published_events_stay_example : find_event 5 (run operations table) ≡ some sent_row
published_events_stay_example =
    published_events_stay operations table 5 sent_row Distinct-table sent_row_found refl

dated :
    (j : ℕ) (e : Event ℕ)
    → find_event j table ≡ some e
    → is_published e.status ≡ is_some e.published_at
unfolding find_event
dated j e h = ground arith

sent_row_stays : find_event 5 (run operations table) ≡ some sent_row
sent_row_stays =
    published_events_stay operations table 5 sent_row Distinct-table sent_row_found refl

events_stay_dated_example : is_published sent_row.status ≡ is_some sent_row.published_at
events_stay_dated_example =
    events_stay_dated operations table Distinct-table dated 5 sent_row sent_row_stays

cancellation_deferred_example :
    (complete_durable_settlement {A = ℕ} (value 7) (record { interrupts = 2; late = false })
      ≡ raises_cancelled)
    × (complete_durable_settlement {A = ℕ} error (record { interrupts = 2; late = false })
        ≡ raises true)
cancellation_deferred_example = cancellation_deferred (record { interrupts = 2; late = false }) 7

abbrev results : List PublishResult
results =
    record {
      event_id = 3;
      previous_status = Status.pending;
      result = ResultCode.published;
      failure_category = none;
    }
    ∷ record {
      event_id = 4;
      previous_status = Status.pending;
      result = ResultCode.failed;
      failure_category = some "PUBLISH_ERROR";
    }
    ∷ []

summary_accounts_example :
    ((summary results).published + (summary results).failed + (summary results).no_op
      ≡ (summary results).selected)
    × ((summary results).selected ≡ 2)
    × ((c : String)
        → any (str_eq c) (summary results).failure_categories
          ≡ any (λ (r : PublishResult). has_category c r.failure_category) results)
summary_accounts_example = summary_accounts results

abbrev operator : Caller
operator = record {
  external_id = "op";
  correlation_id = "c-1";
  subject = λ s. none;
  audit_time = 80;
}

abbrev state : State ℕ
state = record { events = table; audits = [] }

retries-Recorded_example :
    (((1 ≤ 2)
        × (2 ≤ 100)
        × Recorded service operator "outbox.retry_pending"
            (select_events Status.pending 2 unlocked table)
            state
            (retry_pending service 2 50 unlocked operator state))
      ⊎ (((2 < 1) ⊎ (100 < 2))
          × (retry_pending service 2 50 unlocked operator state ≡ (none, state))))
    × (((1 ≤ 2)
          × (2 ≤ 100)
          × Recorded service operator "outbox.retry_failed"
              (select_events Status.failed 2 unlocked table)
              state
              (retry_failed service 2 50 unlocked operator state))
        ⊎ (((2 < 1) ⊎ (100 < 2))
            × (retry_failed service 2 50 unlocked operator state ≡ (none, state))))
retries-Recorded_example = retries-Recorded service 2 50 unlocked operator state Distinct-table

batch_order :
    map (λ (e : Event ℕ). e.id) (select_events Status.pending 2 unlocked table) ≡ 4 ∷ 3 ∷ []
unfolding select_events before insert_event
batch_order = refl
