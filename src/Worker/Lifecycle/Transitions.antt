-- ===== src/Worker/Lifecycle/Transitions.antt =====
-- The status of a run under settlement, against the transition table `_RCA_RUN_TRANSITIONS` of
-- backend/src/sre_agent/domain/incidents/models.py.
use cloud_sre_ai_agent.Prelude.{
  ◌≡◌, refl, sym, subst, ℕ, Bool, true, false, some, arith, if◌then◌else◌,
}
use cloud_sre_ai_agent.Worker.Rows.{RunStatus, Job, Run, Db, FailureCode}
use cloud_sre_ai_agent.Worker.Lifecycle.{
  Claim, ProcessingResult, ResultStatus, holds_lease, settled_run_status, settled_failure, is_final,
  fail_run, settle_success, settle_success_row, settle_failure, settle_failure_row,
}

-- `RcaRunStatus.can_transition_to`
unfoldable pub can_transition_to : RunStatus → RunStatus → Bool
can_transition_to RunStatus.waiting_for_classification RunStatus.queued = true
can_transition_to RunStatus.queued RunStatus.running = true
can_transition_to RunStatus.running RunStatus.succeeded = true
can_transition_to RunStatus.running RunStatus.partial = true
can_transition_to RunStatus.running RunStatus.failed = true
can_transition_to RunStatus.running RunStatus.cancelled = true
can_transition_to _ _ = false

success_run :
    (now : ℕ) (c : Claim) (r : ProcessingResult) (db : Db) (job : Job) (run : Run)
    → db.jobs c.worker_job_id ≡ some job
    → holds_lease c job ≡ true
    → db.runs c.rca_run_id ≡ some run
    → (settle_success now c r db).1.runs c.rca_run_id
      ≡ some (record run {
        status = settled_run_status r.status;
        completed_at = some now;
        updated_at = now;
        failure_code = settled_failure r;
      })
unfolding settle_success settle_success_row
success_run now c r db job run hj hl hr = rw (hj) (ground (arith, hl, hr))

failure_run :
    (now : ℕ) (c : Claim) (code : FailureCode) (db : Db) (job : Job) (run : Run)
    → db.jobs c.worker_job_id ≡ some job
    → holds_lease c job ≡ true
    → db.runs c.rca_run_id ≡ some run
    → (settle_failure now c code db).1.runs c.rca_run_id
      ≡ some (fail_run (is_final c code) now code run)
unfolding settle_failure settle_failure_row
failure_run now c code db job run hj hl hr = rw (hj) (ground (arith, hl, hr))

success_allowed :
    (s : ResultStatus) → can_transition_to RunStatus.running (settled_run_status s) ≡ true
unfolding can_transition_to
success_allowed ResultStatus.complete = refl
success_allowed ResultStatus.partial = refl
success_allowed ResultStatus.failed = refl

failure_allowed :
    (final : Bool)
    → can_transition_to RunStatus.running (if final then RunStatus.failed else RunStatus.queued)
      ≡ final
unfolding can_transition_to
failure_allowed true = refl
failure_allowed false = refl

-- Where the holder of the lease settles a job whose run is RUNNING, settle_success moves the run as
-- the table allows and dates its completion, while settle_failure moves it as the table allows exactly
-- if the failure is final, and leaves its completion as it was, also if it is final.
pub settlement_transitions :
    (now : ℕ) (c : Claim) (r : ProcessingResult) (code : FailureCode) (db : Db) (job : Job)
    (run : Run)
    → db.jobs c.worker_job_id ≡ some job
    → holds_lease c job ≡ true
    → db.runs c.rca_run_id ≡ some run
    → run.status ≡ RunStatus.running
    → ((done : Run) × ((settle_success now c r db).1.runs c.rca_run_id ≡ some done)
        × (can_transition_to run.status done.status ≡ true)
        × (done.completed_at ≡ some now))
      × ((failed : Run) × ((settle_failure now c code db).1.runs c.rca_run_id ≡ some failed)
          × (can_transition_to run.status failed.status ≡ is_final c code)
          × (failed.completed_at ≡ run.completed_at))
unfolding fail_run
settlement_transitions now c r code db job run hj hl hr hs = (
  (
    record run {
      status = settled_run_status r.status;
      completed_at = some now;
      updated_at = now;
      failure_code = settled_failure r;
    },
    success_run now c r db job run hj hl hr,
    subst (λ s. can_transition_to s (settled_run_status r.status) ≡ true) (sym hs)
        (success_allowed r.status),
    refl,
  ),
  (
    fail_run (is_final c code) now code run,
    failure_run now c code db job run hj hl hr,
    subst
        (λ s.
          can_transition_to s (fail_run (is_final c code) now code run).status ≡ is_final c code)
        (sym hs) (failure_allowed (is_final c code)),
    refl,
  ),
)
