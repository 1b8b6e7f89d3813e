-- ===== src/Backend/Outbox.antt =====
-- backend/src/sre_agent/application/outbox/publish_events.py: `OutboxPublishService`. The table
-- `outbox_events` is the list of its rows. JSON, the message codec, Pub/Sub and the row locks of
-- other transactions are arguments; a time is a number of microseconds.
pub mod Order
pub mod Publish
pub mod Trace
use mathlib.Core.Option
use cloud_sre_ai_agent.Prelude.{
  ℕ, ◌+◌, Bool, true, false, not, ◌&&◌, ◌||◌, Option, none, some, List, [], ◌∷◌, ◌++◌, String, ltb,
  ◌==◌, if◌then◌else◌, keep, take, is_some,
}
use cloud_sre_ai_agent.Prelude.Text.{str_eq}

pub data Status : Type 0 where
  pending published failed : Status

pub record Event (J : Type 0) : Type 0 where
  pub id : ℕ
  pub event_type : String
  pub payload : J
  pub idempotency_key : String
  pub status : Status
  pub available_at : ℕ
  pub published_at : Option ℕ
  pub created_at : ℕ

pub data ResultCode : Type 0 where
  published failed no_op : ResultCode

pub record PublishResult : Type 0 where
  pub event_id : ℕ
  pub previous_status : Status
  pub result : ResultCode
  pub failure_category : Option String

-- A call of `MessagePublisher.publish`.
pub record Offer : Type 0 where
  pub topic : String
  pub bytes : List ℕ
  pub idempotency_key : String

-- The service, and what it calls: whether a payload is a mapping, `RcaJobMessage.from_mapping` with
-- `to_bytes` (`none` is a TypeError or ValueError), and whether publishing the event of an id returns.
pub record Service (J : Type 0) : Type 0 where
  pub topic : String
  pub retry_delay : ℕ
  pub is_mapping : J → Bool
  pub encode : J → Option (List ℕ)
  pub accepts : ℕ → Bool

abbrev pub is_published : Status → Bool
is_published Status.published = true
is_published _ = false

abbrev pub same_status : Status → Status → Bool
same_status Status.pending Status.pending = true
same_status Status.published Status.published = true
same_status Status.failed Status.failed = true
same_status _ _ = false

abbrev pub invalid_event : String
invalid_event = "INVALID_EVENT"

abbrev pub publish_error : String
publish_error = "PUBLISH_ERROR"

-- What one row's round gives: its result, the table, and the calls of the publisher.
pub record Settled (J : Type 0) : Type 0 where
  pub result : PublishResult
  pub events : List (Event J)
  pub offers : List Offer

pub record Batch (J : Type 0) : Type 0 where
  pub results : List PublishResult
  pub events : List (Event J)
  pub offers : List Offer

module _ {J : Type 0} where
  -- `_published_data`: `none` is _InvalidPersistedEvent.
  unfoldable pub published_data : Service J → Event J → Option (List ℕ)
  published_data s row =
      if not (str_eq row.event_type "RCA_RUN_REQUESTED")
      then none
      else if not (s.is_mapping row.payload)
      then none
      else s.encode row.payload

  -- `UPDATE outbox_events SET ... WHERE id = :event_id`
  pub modify_event : ℕ → (Event J → Event J) → List (Event J) → List (Event J)
  modify_event k f [] = []
  modify_event k f (e ∷ es) = (if e.id == k then f e else e) ∷ modify_event k f es

  unfoldable pub fail_event : ℕ → Event J → Event J
  fail_event available_at e = record e {
    status = Status.failed;
    published_at = none;
    available_at = available_at;
  }

  unfoldable pub mark_published : ℕ → Event J → Event J
  mark_published now e = record e { status = Status.published; published_at = some now }

  abbrev pub result_of : Event J → ResultCode → Option String → PublishResult
  result_of row code category = record {
    event_id = row.id;
    previous_status = row.status;
    result = code;
    failure_category = category;
  }

  abbrev pub offer_of : Service J → Event J → List ℕ → Offer
  offer_of s row bytes = record {
    topic = s.topic;
    bytes = bytes;
    idempotency_key = row.idempotency_key;
  }

  -- `_settle_failed`
  unfoldable pub settle_failed :
      Service J → ℕ → Event J → String → List Offer → List (Event J) → Settled J
  settle_failed s now row category offers events = record {
    result = result_of row ResultCode.failed (some category);
    events = modify_event row.id (fail_event (now + s.retry_delay)) events;
    offers = offers;
  }

  unfoldable pub settle_published : ℕ → Event J → List Offer → List (Event J) → Settled J
  settle_published now row offers events = record {
    result = result_of row ResultCode.published none;
    events = modify_event row.id (mark_published now) events;
    offers = offers;
  }

  -- One round of the loop of `_publish_locked_rows`.
  unfoldable pub publish_row : Service J → ℕ → Event J → List (Event J) → Settled J
  unfolding settle_failed settle_published
  publish_row s now row events =
      if is_published row.status
      then record { result = result_of row ResultCode.no_op none; events = events; offers = [] }
      else elim (published_data s row) [
        | none ↦ settle_failed s now row invalid_event [] events
        | some bytes ↦
            if s.accepts row.id
            then settle_published now row (offer_of s row bytes ∷ []) events
            else settle_failed s now row publish_error (offer_of s row bytes ∷ []) events
      ]

  -- `_publish_locked_rows`
  unfoldable pub publish_locked_rows : Service J → ℕ → List (Event J) → List (Event J) → Batch J
  publish_locked_rows s now [] events = record { results = []; events = events; offers = [] }
  publish_locked_rows s now (row ∷ rows) events =
      let first = publish_row s now row events in
      let rest = publish_locked_rows s now rows first.events in
      record {
        results = first.result ∷ rest.results;
        events = rest.events;
        offers = first.offers ++ rest.offers;
      }

  unfoldable pub find_event : ℕ → List (Event J) → Option (Event J)
  find_event k [] = none
  find_event k (e ∷ es) = if e.id == k then some e else find_event k es

  -- `_publish_event_and_settle`: `none` is OutboxEventNotFound.
  unfoldable pub publish_event : Service J → ℕ → ℕ → List (Event J) → Option (Settled J)
  publish_event s now event_id events =
      Option.map (λ row. publish_row s now row events) (find_event event_id events)

  -- `ORDER BY available_at, created_at, id`
  unfoldable pub before : Event J → Event J → Bool
  before a b =
      ltb a.available_at b.available_at
      || a.available_at == b.available_at
        && (ltb a.created_at b.created_at || a.created_at == b.created_at && ltb a.id b.id)

  unfoldable pub insert_event : Event J → List (Event J) → List (Event J)
  insert_event e [] = e ∷ []
  insert_event e (x ∷ xs) = if before x e then x ∷ insert_event e xs else e ∷ x ∷ xs

  unfoldable pub sort_events : List (Event J) → List (Event J)
  sort_events [] = []
  sort_events (e ∷ es) = insert_event e (sort_events es)

  -- `WHERE status = :status AND published_at IS NULL`, and not locked by another transaction
  unfoldable pub is_selected : Status → (ℕ → Bool) → Event J → Bool
  is_selected status locked e =
      same_status e.status status && not (is_some e.published_at) && not (locked e.id)

  -- The SELECT of `_publish_status_and_settle`.
  unfoldable pub select_events : Status → ℕ → (ℕ → Bool) → List (Event J) → List (Event J)
  unfolding is_selected sort_events
  select_events status limit locked events =
      take limit (sort_events (keep (is_selected status locked) events))

  -- `_publish_status`: `none` is the ValueError of `_validate_limit`.
  unfoldable pub publish_status :
      Service J → Status → ℕ → ℕ → (ℕ → Bool) → List (Event J) → Option (Batch J)
  publish_status s status limit now locked events =
      if ltb limit 1 || ltb 100 limit
      then none
      else some (publish_locked_rows s now (select_events status limit locked events) events)

  unfoldable pub publish_pending :
      Service J → ℕ → ℕ → (ℕ → Bool) → List (Event J) → Option (Batch J)
  publish_pending s limit now locked events =
      publish_status s Status.pending limit now locked events

  unfoldable pub publish_failed : Service J → ℕ → ℕ → (ℕ → Bool) → List (Event J) → Option (Batch J)
  publish_failed s limit now locked events = publish_status s Status.failed limit now locked events
