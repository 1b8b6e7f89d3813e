-- ===== src/Backend/Recovery.antt =====
-- backend/src/sre_agent/application/outbox/recover_events.py: `OutboxRecoveryService` over the outbox
-- of publish_events.py, and the audit rows that it records.
pub mod Audit
use mathlib.Core.Option
use cloud_sre_ai_agent.Prelude.{
  ℕ, suc, zero, Bool, true, false, not, ◌&&◌, ◌||◌, Option, none, some, List, [], ◌∷◌, ◌++◌, map,
  String, ltb, ◌==◌, if◌then◌else◌, length, is_some,
}
use cloud_sre_ai_agent.Prelude.Text.{str_eq, codes}
use cloud_sre_ai_agent.Backend.Outbox.{
  Event, Status, Service, Settled, Batch, ResultCode, PublishResult, publish_event, publish_pending,
  publish_failed,
}

-- `OutboxRecoveryBatchResult`
pub record Summary : Type 0 where
  pub selected : ℕ
  pub published : ℕ
  pub failed : ℕ
  pub no_op : ℕ
  pub failure_categories : List String

abbrev pub is_code : ResultCode → ResultCode → Bool
is_code ResultCode.published ResultCode.published = true
is_code ResultCode.failed ResultCode.failed = true
is_code ResultCode.no_op ResultCode.no_op = true
is_code _ _ = false

-- `sum(result.result is code for result in results)`
unfoldable pub count_code : ResultCode → List PublishResult → ℕ
count_code code [] = 0
count_code code (r ∷ rs) =
    let rest = count_code code rs in if is_code r.result code then suc rest else rest

-- Python's order of texts, by code points.
pub text_lt : List ℕ → List ℕ → Bool
text_lt [] [] = false
text_lt [] (d ∷ ds) = true
text_lt (c ∷ cs) [] = false
text_lt (c ∷ cs) (d ∷ ds) = ltb c d || c == d && text_lt cs ds

-- One more element of `sorted({...})`.
unfoldable pub insert_category : String → List String → List String
insert_category c [] = c ∷ []
insert_category c (x ∷ xs) =
    let rest = insert_category c xs in
    if str_eq c x then x ∷ xs else if text_lt (codes c) (codes x) then c ∷ x ∷ xs else x ∷ rest

unfoldable pub failure_categories : List PublishResult → List String
failure_categories [] = []
failure_categories (r ∷ rs) = elim r.failure_category [
  | none ↦ failure_categories rs
  | some c ↦ insert_category c (failure_categories rs)
]

unfoldable pub summary : List PublishResult → Summary
summary results = record {
  selected = length results;
  published = count_code ResultCode.published results;
  failed = count_code ResultCode.failed results;
  no_op = count_code ResultCode.no_op results;
  failure_categories = failure_categories results;
}

-- A row of `audit_events`, with its scope document.
pub record AuditEvent : Type 0 where
  pub occurred_at : ℕ
  pub actor_id : Option ℕ
  pub action : String
  pub resource_id : Option ℕ
  pub correlation_id : String
  pub event_ids : List ℕ
  pub counts : Summary
  pub outcome : String
  pub actor_external_id : Option String

-- Who calls, when, and the subject of an external id in the table `subjects`.
pub record Caller : Type 0 where
  pub external_id : String
  pub correlation_id : String
  pub subject : String → Option ℕ
  pub audit_time : ℕ

-- `event_ids[0] if len(event_ids) == 1 else None`
abbrev pub sole : List ℕ → Option ℕ
sole (k ∷ []) = some k
sole _ = none

-- `SqlAlchemyOutboxRecoveryAuditRepository.record`
unfoldable pub audit_row : Caller → String → List ℕ → Summary → String → AuditEvent
audit_row who action event_ids counts outcome = record {
  occurred_at = who.audit_time;
  actor_id = who.subject who.external_id;
  action = action;
  resource_id = sole event_ids;
  correlation_id = who.correlation_id;
  event_ids = event_ids;
  counts = counts;
  outcome = outcome;
  actor_external_id = if is_some (who.subject who.external_id) then none else some who.external_id;
}

pub record State (J : Type 0) : Type 0 where
  pub events : List (Event J)
  pub audits : List AuditEvent

abbrev pub code_text : ResultCode → String
code_text ResultCode.published = "PUBLISHED"
code_text ResultCode.failed = "FAILED"
code_text ResultCode.no_op = "NO_OP"

abbrev pub not_found_counts : Summary
not_found_counts = record {
  selected = 1;
  published = 0;
  failed = 0;
  no_op = 0;
  failure_categories = [];
}

module _ {J : Type 0} where
  abbrev pub recorded : State J → List (Event J) → AuditEvent → State J
  recorded st events row = record { events = events; audits = st.audits ++ row ∷ [] }

  abbrev pub retried : Caller → ℕ → State J → Option (Settled J) → Option PublishResult × State J
  retried who event_id st none = (
    none,
    recorded st st.events
        (audit_row who "outbox.retry_event" (event_id ∷ []) not_found_counts "NOT_FOUND"),
  )
  retried who event_id st (some r) = (
    some r.result,
    recorded st r.events (
        audit_row who "outbox.retry_event" (event_id ∷ []) (summary (r.result ∷ []))
          (code_text r.result.result)),
  )

  -- `retry_event`: `none` is OutboxEventNotFound, raised again after the audit.
  unfoldable pub retry_event : Service J → ℕ → ℕ → Caller → State J → Option PublishResult × State J
  retry_event s now event_id who st =
      retried who event_id st (publish_event s now event_id st.events)

  -- `_record_batch`; a publish that raises is not recorded.
  unfoldable pub record_batch :
      Caller → String → State J → Option (Batch J) → Option Summary × State J
  record_batch who action st none = (none, st)
  record_batch who action st (some b) = (
    some (summary b.results),
    recorded st b.events (
        audit_row who action (map (λ (r : PublishResult). r.event_id) b.results) (summary b.results)
          "COMPLETED"),
  )

  unfoldable pub retry_pending :
      Service J → ℕ → ℕ → (ℕ → Bool) → Caller → State J → Option Summary × State J
  unfolding record_batch
  retry_pending s limit now locked who st =
      record_batch who "outbox.retry_pending" st (publish_pending s limit now locked st.events)

  unfoldable pub retry_failed :
      Service J → ℕ → ℕ → (ℕ → Bool) → Caller → State J → Option Summary × State J
  unfolding record_batch
  retry_failed s limit now locked who st =
      record_batch who "outbox.retry_failed" st (publish_failed s limit now locked st.events)
