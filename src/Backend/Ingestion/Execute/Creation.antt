-- ===== src/Backend/Ingestion/Execute/Creation.antt =====
-- The work that a webhook requests: each incident that it creates gets its run and its job.
use mathlib.Core.Option
use cloud_sre_ai_agent.Prelude.{
  ◌≡◌, refl, ap, ◌∙◌, ℕ, ◌+◌, ◌≤◌, ◌<◌, Bool, false, some, List, [], ◌∷◌, ◌++◌, map, any, ◌==◌, inl,
  inr, Bool-cases, arith, if-false, length, length-append, String,
}
use cloud_sre_ai_agent.Prelude.Text.{str_eq}
use cloud_sre_ai_agent.Backend.Ingestion.Rows.{RcaJobMessage, WorkerJob, Db}
use cloud_sre_ai_agent.Backend.Ingestion.Jobs.{
  RcaWorkCreation, active_run_of, new_run, new_job, job_message, set_payload, add_job, add_message,
  create_rca_work,
}
use cloud_sre_ai_agent.Backend.Ingestion.Execute.{add_event_id}

-- No run of an incident, and no job of a run, has an id that is still to be drawn.
abbrev pub IdsDrawn : Db → Type 0
IdsDrawn db =
    ((n : ℕ) → db.next_id ≤ n → any (active_run_of n) db.runs ≡ false)
    × ((n : ℕ) → db.next_id ≤ n → any (λ j. j.rca_run_id == n) db.jobs ≡ false)

none-append {ℓ} :
    {A : Type ℓ} (p : A → Bool) (xs : List A) (x : A)
    → any p xs ≡ false
    → p x ≡ false
    → any p (xs ++ (x ∷ [])) ≡ false
none-append p [] x h k = ground arith
none-append p (y ∷ xs) x h k = elim (Bool-cases (p y)) [
  | inl t ↦ absurd (ground arith)
  | inr t ↦ let ih = none-append p xs x (ground arith) k in ground arith
]

any-set_payload :
    (n id : ℕ) (m : RcaJobMessage) (js : List WorkerJob)
    → any (λ j. j.rca_run_id == n) (map (set_payload id m) js) ≡ any (λ j. j.rca_run_id == n) js
any-set_payload n id m [] = refl
any-set_payload n id m (j ∷ js) = ground (arith, any-set_payload n id m js)

pub length-map {ℓ} : {A B : Type ℓ} (f : A → B) (xs : List A) → length (map f xs) ≡ length xs
length-map f [] = refl
length-map f (x ∷ xs) = omega (arith, length-map f xs)

-- The rows after the INSERTs of the run and the job.
abbrev with_job : ℕ → ℕ → Db → Db
with_job incident t db = record db {
  next_id = db.next_id + 1 + 1;
  runs = db.runs ++ (new_run db.next_id incident t ∷ []);
  jobs = db.jobs ++ (new_job (db.next_id + 1) db.next_id t ∷ []);
}

create_rca_work-new :
    (run_key : ℕ → String) (incident t : ℕ) (db : Db)
    → IdsDrawn db
    → any (active_run_of incident) db.runs ≡ false
    → create_rca_work run_key incident t db
      ≡ some (add_message run_key (db.next_id + 1) db.next_id incident t (with_job incident t db))
unfolding create_rca_work add_job
create_rca_work-new run_key incident t db h free =
    if-false (any (active_run_of incident) db.runs) _ _ free
    ∙ ap (λ o. Option.map (λ (p : ℕ × Db). add_message run_key p.0 db.next_id incident t p.1) o)
        (if-false (any (λ j. j.rca_run_id == db.next_id) db.jobs) _ _
          (h.1 db.next_id (omega arith)))

add_message-rows :
    (run_key : ℕ → String) (job run incident t : ℕ) (db : Db)
    → (let r = add_message run_key job run incident t db in
        (r.1.next_id ≡ db.next_id + 1)
        × (r.1.runs ≡ db.runs)
        × (r.1.jobs ≡ map (set_payload job (job_message job run incident)) db.jobs)
        × (r.1.incidents ≡ db.incidents)
        × (length r.1.outbox ≡ length db.outbox + length (add_event_id r.0.outbox_event_id [])))
unfolding add_message
add_message-rows run_key job run incident t db =
    elim (Bool-cases (any (λ e. str_eq e.idempotency_key (run_key run)) db.outbox)) [
      | inl h ↦ rw (h) (refl, refl, refl, refl, omega arith)
      | inr h ↦ rw (h) (refl, refl, refl, refl, length-append db.outbox _)
    ]

pub create_rca_work-adds :
    (run_key : ℕ → String) (incident t : ℕ) (db : Db)
    → IdsDrawn db
    → incident < db.next_id
    → any (active_run_of incident) db.runs ≡ false
    → (r : RcaWorkCreation × Db) × (create_rca_work run_key incident t db ≡ some r)
      × IdsDrawn r.1
      × (length r.1.runs ≡ length db.runs + 1)
      × (length r.1.jobs ≡ length db.jobs + 1)
      × (r.1.incidents ≡ db.incidents)
      × (length r.1.outbox ≡ length db.outbox + length (add_event_id r.0.outbox_event_id []))
create_rca_work-adds run_key incident t db h small free =
    let row = with_job incident t db in
    let r = add_message run_key (db.next_id + 1) db.next_id incident t row in
    let k = add_message-rows run_key (db.next_id + 1) db.next_id incident t row in
    (
      r,
      create_rca_work-new run_key incident t db h free,
      (
        λ n big.
            ap (any (active_run_of n)) k.1
            ∙ none-append (active_run_of n) db.runs _ (h.0 n (omega (arith, k.0)))
                (ground (arith, k.0)),
        λ n big.
            ap (any (λ j. j.rca_run_id == n)) k.2
            ∙ any-set_payload n (db.next_id + 1) _ row.jobs
            ∙ none-append (λ j. j.rca_run_id == n) db.jobs _ (h.1 n (omega (arith, k.0)))
                (ground (arith, k.0)),
      ),
      ap length k.1 ∙ length-append db.runs _,
      ap length k.2 ∙ length-map _ row.jobs ∙ length-append db.jobs _,
      k.3,
      k.4,
    )
