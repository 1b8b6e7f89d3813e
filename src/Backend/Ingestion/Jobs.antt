-- ===== src/Backend/Ingestion/Jobs.antt =====
-- backend/src/sre_agent/persistence/repositories/jobs.py: `SqlAlchemyJobRepository.create_rca_work`,
-- with the run status QUEUED. The text `rca-run:<id>` of a run is an argument.
use mathlib.Core.Option
use cloud_sre_ai_agent.Prelude.{
  ℕ, ◌+◌, Bool, true, false, ◌&&◌, Option, none, some, List, [], ◌∷◌, ◌++◌, map, any, ◌==◌,
  if◌then◌else◌, String,
}
use cloud_sre_ai_agent.Prelude.Text.{str_eq}
use cloud_sre_ai_agent.Worker.Rows.{RunStatus, JobStatus}
use cloud_sre_ai_agent.Backend.Outbox.{Event}
use cloud_sre_ai_agent.Backend.Outbox as Outbox
use cloud_sre_ai_agent.Backend.Ingestion.Rows.{RcaJobMessage, RcaRun, WorkerJob, Db}

-- `RcaWorkCreation`
pub record RcaWorkCreation : Type 0 where
  pub run_id : ℕ
  pub outbox_event_id : Option ℕ

-- `status IN ('WAITING_FOR_CLASSIFICATION', 'QUEUED', 'RUNNING')`
abbrev pub is_active_run : RunStatus → Bool
is_active_run RunStatus.waiting_for_classification = true
is_active_run RunStatus.queued = true
is_active_run RunStatus.running = true
is_active_run _ = false

abbrev pub active_run_of : ℕ → RcaRun → Bool
active_run_of incident r = r.incident_id == incident && is_active_run r.status

unfoldable pub find_run : (RcaRun → Bool) → List RcaRun → Option ℕ
find_run p [] = none
find_run p (r ∷ rs) = if p r then some r.id else find_run p rs

unfoldable pub find_job : ℕ → List WorkerJob → Option ℕ
find_job run [] = none
find_job run (j ∷ js) = if j.rca_run_id == run then some j.id else find_job run js

abbrev pub new_run : ℕ → ℕ → ℕ → RcaRun
new_run id incident t = record {
  id = id;
  incident_id = incident;
  status = RunStatus.queued;
  created_at = t;
  updated_at = t;
}

abbrev pub new_job : ℕ → ℕ → ℕ → WorkerJob
new_job id run t = record {
  id = id;
  rca_run_id = run;
  status = JobStatus.queued;
  payload = none;
  available_at = t;
  created_at = t;
  updated_at = t;
}

abbrev pub job_message : ℕ → ℕ → ℕ → RcaJobMessage
job_message job run incident = record {
  schema_version = 1;
  worker_job_id = job;
  rca_run_id = run;
  incident_id = incident;
  attempt = 1;
}

abbrev pub new_event : (ℕ → String) → ℕ → RcaJobMessage → ℕ → Event RcaJobMessage
new_event run_key id m t = record {
  id = id;
  event_type = "RCA_RUN_REQUESTED";
  payload = m;
  idempotency_key = run_key m.rca_run_id;
  status = Outbox.Status.pending;
  available_at = t;
  published_at = none;
  created_at = t;
}

abbrev pub set_payload : ℕ → RcaJobMessage → WorkerJob → WorkerJob
set_payload id m j = if j.id == id then record j { payload = some m } else j

-- The job of the run: the row inserted, or the one that is there.
unfoldable pub add_job : ℕ → ℕ → Db → Option (ℕ × Db)
add_job run t db =
    if any (λ j. j.rca_run_id == run) db.jobs
    then Option.map (λ j. (j, record db { next_id = db.next_id + 1 })) (find_job run db.jobs)
    else some (
      db.next_id,
      record db { next_id = db.next_id + 1; jobs = db.jobs ++ (new_job db.next_id run t ∷ []) },
    )

-- The payload and the outbox event; the id of an event that was there is not reported.
unfoldable pub add_message : (ℕ → String) → ℕ → ℕ → ℕ → ℕ → Db → RcaWorkCreation × Db
add_message run_key job run incident t db =
    let written = record db {
      next_id = db.next_id + 1;
      jobs = map (set_payload job (job_message job run incident)) db.jobs;
    } in
    if any (λ e. str_eq e.idempotency_key (run_key run)) db.outbox
    then (record { run_id = run; outbox_event_id = none }, written)
    else (
      record { run_id = run; outbox_event_id = some db.next_id },
      record written {
        outbox = db.outbox ++ (new_event run_key db.next_id (job_message job run incident) t ∷ []);
      },
    )

-- `create_rca_work`; `none` is a RuntimeError.
unfoldable pub create_rca_work : (ℕ → String) → ℕ → ℕ → Db → Option (RcaWorkCreation × Db)
create_rca_work run_key incident t db =
    if any (active_run_of incident) db.runs
    then Option.map
        (λ r.
          (record { run_id = r; outbox_event_id = none }, record db { next_id = db.next_id + 1 }))
        (find_run (active_run_of incident) db.runs)
    else Option.map (λ p. add_message run_key p.0 db.next_id incident t p.1)
        (add_job db.next_id t (record db {
          next_id = db.next_id + 1;
          runs = db.runs ++ (new_run db.next_id incident t ∷ []);
        }))
