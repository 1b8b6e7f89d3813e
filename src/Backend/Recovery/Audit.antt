-- ===== src/Backend/Recovery/Audit.antt =====
-- What the audit of recover_events.py says of the publications that it records.
use mathlib.Core.Path.{ap₂}
use cloud_sre_ai_agent.Prelude.{
  ℕ, ◌+◌, ◌≤◌, ◌<◌, ◌≡◌, refl, ap, ◌∙◌, ◌⊎◌, inl, inr, Bool, false, ◌||◌, Option, none, some, List,
  [], ◌∷◌, ◌++◌, map, String, length, arith, any, Option-cases,
}
use cloud_sre_ai_agent.Prelude.Text.{str_eq, eq_iff}
use cloud_sre_ai_agent.Backend.Outbox.{
  Event, Status, Service, Batch, ResultCode, PublishResult, publish_pending, publish_failed,
  publish_status, select_events,
}
use cloud_sre_ai_agent.Backend.Outbox.Publish.{settled_result, Distinct, publish_status_pointwise}
use cloud_sre_ai_agent.Backend.Recovery.{
  Summary, count_code, insert_category, failure_categories, summary, Caller, State, audit_row,
  record_batch, retry_pending, retry_failed,
}

abbrev pub has_category : String → Option String → Bool
has_category c none = false
has_category c (some d) = str_eq c d

any-insert_category :
    (c x : String) (xs : List String)
    → any (str_eq c) (insert_category x xs) ≡ (str_eq c x || any (str_eq c) xs)
unfolding insert_category
any-insert_category c x [] = ground arith
any-insert_category c x (y ∷ ys) =
    ground (arith, any-insert_category c x ys, eq_iff x y, eq_iff c x, eq_iff c y)

any-failure_categories :
    (c : String) (rs : List PublishResult)
    → any (str_eq c) (failure_categories rs)
      ≡ any (λ (r : PublishResult). has_category c r.failure_category) rs
unfolding failure_categories
any-failure_categories c [] = refl
any-failure_categories c (r ∷ rs) = elim (Option-cases r.failure_category) [
  | inl e ↦ rw (e, failure_categories) (any-failure_categories c rs)
  | inr (d, e) ↦
      rw (e, failure_categories)
        (any-insert_category c d (failure_categories rs)
          ∙ ap (λ b. str_eq c d || b) (any-failure_categories c rs))
]

counts_total :
    (rs : List PublishResult)
    → count_code ResultCode.published rs
        + count_code ResultCode.failed rs
        + count_code ResultCode.no_op rs
      ≡ length rs
unfolding count_code
counts_total [] = refl
counts_total (r ∷ rs) = ground (arith, counts_total rs)

-- A summary accounts for every result: the three counts add up to the number of results, and a
-- failure category is listed exactly if some result has it.
pub summary_accounts :
    (rs : List PublishResult)
    → ((summary rs).published + (summary rs).failed + (summary rs).no_op ≡ (summary rs).selected)
      × ((summary rs).selected ≡ length rs)
      × ((c : String)
          → any (str_eq c) (summary rs).failure_categories
            ≡ any (λ (r : PublishResult). has_category c r.failure_category) rs)
unfolding summary
summary_accounts rs = (counts_total rs, refl, λ c. any-failure_categories c rs)

module _ {J : Type 0} where
  settled_result-id : (s : Service J) (e : Event J) → (settled_result s e).event_id ≡ e.id
  unfolding settled_result
  settled_result-id s e = ground arith

  map-settled_id :
      (s : Service J) (es : List (Event J))
      → map (λ (r : PublishResult). r.event_id) (map (settled_result s) es)
        ≡ map (λ (e : Event J). e.id) es
  map-settled_id s [] = refl
  map-settled_id s (e ∷ es) = ap₂ (λ a b. a ∷ b) (settled_result-id s e) (map-settled_id s es)

  -- What one operation on a batch returns and records, given the events that it selects.
  abbrev pub Recorded :
      Service J → Caller → String → List (Event J) → State J → Option Summary × State J → Type 0
  Recorded s who action rows st out =
      let counts = summary (map (settled_result s) rows) in
      (out.0 ≡ some counts)
      × (out.1.audits
          ≡ st.audits
            ++ audit_row who action (map (λ (e : Event J). e.id) rows) counts "COMPLETED" ∷ [])

  batch-Recorded :
      (s : Service J) (who : Caller) (action : String) (rows : List (Event J)) (st : State J)
      (b : Batch J)
      → b.results ≡ map (settled_result s) rows
      → Recorded s who action rows st (record_batch who action st (some b))
  unfolding record_batch
  batch-Recorded s who action rows st b e = (rw e refl, rw e (rw (map-settled_id s rows) refl))

  nothing_recorded :
      (who : Caller) (action : String) (st : State J) → record_batch who action st none ≡ (none, st)
  unfolding record_batch
  nothing_recorded who action st = refl

  status-Recorded :
      (s : Service J) (who : Caller) (action : String) (status : Status) (limit now : ℕ)
      (locked : ℕ → Bool) (st : State J)
      → Distinct st.events
      → let out = record_batch who action st (publish_status s status limit now locked st.events) in
        ((1 ≤ limit)
          × (limit ≤ 100)
          × Recorded s who action (select_events status limit locked st.events) st out)
        ⊎ (((limit < 1) ⊎ (100 < limit)) × (out ≡ (none, st)))
  status-Recorded s who action status limit now locked st d =
      elim (publish_status_pointwise s status limit now locked st.events d) [
        | inl (low, high, b, e, results, rows) ↦ inl (
          low,
          high,
          rw e (
              batch-Recorded s who action (select_events status limit locked st.events) st b
                results),
        )
        | inr (outside, e) ↦ inr (outside, rw e (nothing_recorded who action st))
      ]

  -- The two batch recoveries leave one audit row each, and it says what happened: over a table with
  -- distinct ids and for a limit from 1 to 100, the summary returned and the one in the new audit row
  -- are that of the selected events, and the row's event ids are theirs, in the order of selection.
  -- For another limit nothing is returned, published or recorded.
  pub retries-Recorded :
      (s : Service J) (limit now : ℕ) (locked : ℕ → Bool) (who : Caller) (st : State J)
      → Distinct st.events
      → (((1 ≤ limit)
            × (limit ≤ 100)
            × Recorded s who "outbox.retry_pending"
                (select_events Status.pending limit locked st.events)
                st
                (retry_pending s limit now locked who st))
          ⊎ (((limit < 1) ⊎ (100 < limit))
              × (retry_pending s limit now locked who st ≡ (none, st))))
        × (((1 ≤ limit)
              × (limit ≤ 100)
              × Recorded s who "outbox.retry_failed"
                  (select_events Status.failed limit locked st.events)
                  st
                  (retry_failed s limit now locked who st))
            ⊎ (((limit < 1) ⊎ (100 < limit))
                × (retry_failed s limit now locked who st ≡ (none, st))))
  unfolding retry_pending retry_failed publish_pending publish_failed
  retries-Recorded s limit now locked who st d = (
    status-Recorded s who "outbox.retry_pending" Status.pending limit now locked st d,
    status-Recorded s who "outbox.retry_failed" Status.failed limit now locked st d,
  )
