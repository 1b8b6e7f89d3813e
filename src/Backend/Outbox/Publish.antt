-- ===== src/Backend/Outbox/Publish.antt =====
-- What publish_events.py does to each event of the table, one at a time or in a batch.
use mathlib.Core.Option
use mathlib.Core.Path.{ap₂}
use cloud_sre_ai_agent.Prelude.{
  ℕ, zero, suc, ◌+◌, ◌≤◌, ◌<◌, ◌≡◌, refl, ◌⊎◌, inl, inr, Bool, false, ◌||◌, Option, some, none,
  List, [], ◌∷◌, map, arith, take, keep, Bool-cases, Option-cases, ltb, ◌==◌, if◌then◌else◌,
}
use cloud_sre_ai_agent.Backend.Outbox.{
  Event, Status, Service, Batch, ResultCode, PublishResult, result_of, is_published, published_data,
  modify_event, fail_event, mark_published, publish_row, publish_locked_rows, find_event,
  sort_events, is_selected, select_events, publish_status, invalid_event, publish_error,
}
use cloud_sre_ai_agent.Backend.Outbox.Order.{All, All-insert_event}

module _ {J : Type 0} where
  -- What becomes of one event, and the result that is reported for it, with no table in sight.
  unfoldable pub settled_event : Service J → ℕ → Event J → Event J
  settled_event s now e = if is_published e.status then e else elim (published_data s e) [
    | none ↦ fail_event (now + s.retry_delay) e
    | some bytes ↦
        if s.accepts e.id then mark_published now e else fail_event (now + s.retry_delay) e
  ]

  unfoldable pub settled_result : Service J → Event J → PublishResult
  settled_result s e =
      if is_published e.status
      then result_of e ResultCode.no_op none
      else elim (published_data s e) [
        | none ↦ result_of e ResultCode.failed (some invalid_event)
        | some bytes ↦
            if s.accepts e.id
            then result_of e ResultCode.published none
            else result_of e ResultCode.failed (some publish_error)
      ]

  abbrev pub has_id : ℕ → List (Event J) → Bool
  has_id j [] = false
  has_id j (e ∷ es) = e.id == j || has_id j es

  -- The primary key: no id occurs twice.
  abbrev pub Distinct : List (Event J) → Type 0
  Distinct [] = Unit {0}
  Distinct (e ∷ es) = (find_event e.id es ≡ none) × Distinct es

  -- `find_event` after an UPDATE by id that keeps ids
  pub find-modify :
      (j k : ℕ) (f : Event J → Event J) (es : List (Event J))
      → ((e : Event J) → (f e).id ≡ e.id)
      → find_event j (modify_event k f es)
        ≡ (if k == j then Option.map f (find_event j es) else find_event j es)
  unfolding find_event modify_event
  find-modify j k f [] same = ground arith
  find-modify j k f (e ∷ es) same = ground (arith, find-modify j k f es same, same e)

  pub publish_row-result :
      (s : Service J) (now : ℕ) (row : Event J) (es : List (Event J))
      → (publish_row s now row es).result ≡ settled_result s row
  unfolding publish_row settled_result
  publish_row-result s now row es = ground arith

  pub fail-id : (t : ℕ) (e : Event J) → (fail_event t e).id ≡ e.id
  unfolding fail_event
  fail-id t e = refl

  pub mark-id : (t : ℕ) (e : Event J) → (mark_published t e).id ≡ e.id
  unfolding mark_published
  mark-id t e = refl

  fail_idem : (t : ℕ) (e : Event J) → fail_event t (fail_event t e) ≡ fail_event t e
  unfolding fail_event
  fail_idem t e = refl

  mark_idem : (t : ℕ) (e : Event J) → mark_published t (mark_published t e) ≡ mark_published t e
  unfolding mark_published
  mark_idem t e = refl

  -- The row of the event in the table is as it was read, or settled before in this transaction.
  abbrev pub IsFresh : Service J → ℕ → Event J → Option (Event J) → Type 0
  IsFresh s now row o = (o ≡ some row) ⊎ (o ≡ some (settled_event s now row))

  modify-settles :
      (f : Event J → Event J) (j : ℕ) (row : Event J) (es : List (Event J))
      → ((e : Event J) → (f e).id ≡ e.id)
      → f (f row) ≡ f row
      → (find_event row.id es ≡ some row) ⊎ (find_event row.id es ≡ some (f row))
      → find_event j (modify_event row.id f es)
        ≡ (if row.id == j then some (f row) else find_event j es)
  modify-settles f j row es same idem fresh = ground (arith, find-modify j row.id f es same, idem)

  pub publish_row-find :
      (s : Service J) (now j : ℕ) (row : Event J) (es : List (Event J))
      → IsFresh s now row (find_event row.id es)
      → find_event j (publish_row s now row es).events
        ≡ (if row.id == j then some (settled_event s now row) else find_event j es)
  unfolding publish_row settled_event
  publish_row-find s now j row es fresh = elim (Bool-cases (is_published row.status)) [
    | inl old ↦ ground arith
    | inr open_row ↦ elim (Option-cases (published_data s row)) [
      | inl invalid ↦
          rw (open_row, invalid)
            (modify-settles (fail_event (now + s.retry_delay)) j row es (fail-id _)
              (fail_idem _ row) (ground arith))
      | inr (bytes, valid) ↦ elim (Bool-cases (s.accepts row.id)) [
        | inl yes_sent ↦
            rw (open_row, valid, yes_sent)
              (modify-settles (mark_published now) j row es (mark-id now) (mark_idem now row)
                (ground arith))
        | inr not_sent ↦
            rw (open_row, valid, not_sent)
              (modify-settles (fail_event (now + s.retry_delay)) j row es (fail-id _)
                (fail_idem _ row) (ground arith))
      ]
    ]
  ]

  -- The table `cur` is the table `es` with the events that satisfy `done` settled.
  abbrev pub Progress : Service J → ℕ → (ℕ → Bool) → List (Event J) → List (Event J) → Type 0
  Progress s now done es cur =
      (j : ℕ)
      → find_event j cur
        ≡ (if done j then Option.map (settled_event s now) (find_event j es) else find_event j es)

  Progress-IsFresh :
      (s : Service J) (now : ℕ) (done : ℕ → Bool) (es cur : List (Event J)) (row : Event J)
      → find_event row.id es ≡ some row
      → Progress s now done es cur
      → IsFresh s now row (find_event row.id cur)
  Progress-IsFresh s now done es cur row present p = ground (arith, p row.id)

  Progress-row :
      (s : Service J) (now : ℕ) (done : ℕ → Bool) (es cur : List (Event J)) (row : Event J)
      → find_event row.id es ≡ some row
      → Progress s now done es cur
      → Progress s now (λ j. row.id == j || done j) es (publish_row s now row cur).events
  Progress-row s now done es cur row present p j = ground (
    arith,
    p j,
    publish_row-find s now j row cur (Progress-IsFresh s now done es cur row present p),
  )

  pub publish_rows-find :
      (s : Service J) (now : ℕ) (done : ℕ → Bool) (es cur rows : List (Event J))
      → All (λ row. find_event row.id es ≡ some row) rows
      → Progress s now done es cur
      → (j : ℕ)
      → find_event j (publish_locked_rows s now rows cur).events ≡ (
          if has_id j rows || done j
          then Option.map (settled_event s now) (find_event j es)
          else find_event j es)
  unfolding publish_locked_rows
  publish_rows-find s now done es cur [] a p j = p j
  publish_rows-find s now done es cur (row ∷ rows) a p j = ground (
    arith,
    publish_rows-find s now (λ j. row.id == j || done j) es (publish_row s now row cur).events rows
        a.1 (Progress-row s now done es cur row a.0 p) j,
  )

  publish_rows-results :
      (s : Service J) (now : ℕ) (rows cur : List (Event J))
      → (publish_locked_rows s now rows cur).results ≡ map (settled_result s) rows
  unfolding publish_locked_rows
  publish_rows-results s now [] cur = refl
  publish_rows-results s now (row ∷ rows) cur =
      ap₂ (λ a b. a ∷ b) (publish_row-result s now row cur)
        (publish_rows-results s now rows (publish_row s now row cur).events)

  All-weaken :
      (e : Event J) (es xs : List (Event J))
      → find_event e.id es ≡ none
      → All (λ x. find_event x.id es ≡ some x) xs
      → All (λ x. find_event x.id (e ∷ es) ≡ some x) xs
  unfolding find_event
  All-weaken e es [] n a = tt
  All-weaken e es (x ∷ xs) n a = (ground (arith, n, a.0), All-weaken e es xs n a.1)

  pub Distinct-present :
      (es : List (Event J)) → Distinct es → All (λ x. find_event x.id es ≡ some x) es
  unfolding find_event
  Distinct-present [] d = tt
  Distinct-present (e ∷ es) d = (ground arith, All-weaken e es es d.0 (Distinct-present es d.1))

module _ {J : Type 0} (P : Event J → Type 0) where
  All-keep : (p : Event J → Bool) (xs : List (Event J)) → All P xs → All P (keep p xs)
  All-keep p [] a = tt
  All-keep p (x ∷ xs) a = elim (Bool-cases (p x)) [
    | inl h ↦ rw h (a.0, All-keep p xs a.1)
    | inr h ↦ rw h (All-keep p xs a.1)
  ]

  All-sort_events : (xs : List (Event J)) → All P xs → All P (sort_events xs)
  unfolding sort_events
  All-sort_events [] a = tt
  All-sort_events (x ∷ xs) a = All-insert_event P x (sort_events xs) a.0 (All-sort_events xs a.1)

  All-take : (n : ℕ) (xs : List (Event J)) → All P xs → All P (take n xs)
  All-take zero xs a = tt
  All-take (suc n) [] a = tt
  All-take (suc n) (x ∷ xs) a = (a.0, All-take n xs a.1)

  pub All-select_events :
      (status : Status) (limit : ℕ) (locked : ℕ → Bool) (es : List (Event J))
      → All P es
      → All P (select_events status limit locked es)
  unfolding select_events
  All-select_events status limit locked es a =
      All-take limit _ (All-sort_events _ (All-keep (is_selected status locked) es a))

module _ {J : Type 0} where
  -- A batch settles each of the events that it selects, by that event alone, and no other row. Over
  -- a table with distinct ids, for a limit from 1 to 100: each selected event is in the table
  -- afterwards as it is settled on its own, every other row is as it was, and the results are those
  -- of the selected events, in their order. For any other limit there is no batch.
  pub publish_status_pointwise :
      (s : Service J) (status : Status) (limit now : ℕ) (locked : ℕ → Bool) (es : List (Event J))
      → Distinct es
      → ((1 ≤ limit)
          × (limit ≤ 100)
          × (batch : Batch J) × (publish_status s status limit now locked es ≡ some batch)
          × (batch.results ≡ map (settled_result s) (select_events status limit locked es))
          × ((j : ℕ)
              → find_event j batch.events ≡ (
                  if has_id j (select_events status limit locked es)
                  then Option.map (settled_event s now) (find_event j es)
                  else find_event j es)))
        ⊎ (((limit < 1) ⊎ (100 < limit)) × (publish_status s status limit now locked es ≡ none))
  unfolding publish_status
  publish_status_pointwise s status limit now locked es d =
      elim (Bool-cases (ltb limit 1 || ltb 100 limit)) [
        | inl refused ↦ inr (ground arith, rw refused refl)
        | inr fine ↦
            let rows = select_events status limit locked es in
            let present =
              All-select_events (λ x. find_event x.id es ≡ some x) status limit locked es
                (Distinct-present es d) in
            inl (
              ground arith,
              ground arith,
              publish_locked_rows s now rows es,
              rw fine refl,
              publish_rows-results s now rows es,
              λ j.
                  ground
                    (arith, publish_rows-find s now (λ k. false) es es rows present (λ k. refl) j),
            )
      ]
