-- ===== src/Examples/Repository.antt =====
-- Examples for internal/store.
use high_scale_job_scheduler.Prelude.{
  ◌⊎◌, pos, [], ◌∷◌, none, some, arith, ◌≡◌, ◌≢◌, refl, All, length, ◌≤◌,
}
use high_scale_job_scheduler.Errors.{ok, foreign}
use high_scale_job_scheduler.Models.{ObjectId, Job, Time, queued, claimed, running, completed}
use high_scale_job_scheduler.Effects.World.{run}
use high_scale_job_scheduler.Effects.Docs.{UniqueIds, doc}
use high_scale_job_scheduler.Effects.Memory.{
  answer, floor_ms, max_id, key_used, first_of_docs, change_first, is_first,
}
use high_scale_job_scheduler.Effects.Memory.Lawful.{memory, codec}
use high_scale_job_scheduler.Store.{
  create, new_job, claim_due_jobs, claim_loop, rounds, mark_claimed, mark_running, mark_completed,
  mark_failed, sweep_stuck_jobs, sweep_stuck_queued_jobs, spawn_cron_instance,
  reschedule_cron_template, mark_cron_invalid,
}
use high_scale_job_scheduler.Store.Batch
use high_scale_job_scheduler.Store.Queue
use high_scale_job_scheduler.Store.Queue.{Dequeues}
use high_scale_job_scheduler.Store.Transitions
use high_scale_job_scheduler.Store.Insertion
use high_scale_job_scheduler.Store.Insertion.{CreateOutcome, SpawnOutcome}
use high_scale_job_scheduler.Store.Failure
use high_scale_job_scheduler.Store.Retry
use high_scale_job_scheduler.Store.Retry.{IsRetry}
use high_scale_job_scheduler.Store.Failure.{FailOutcome}
use high_scale_job_scheduler.Store.Sweep
use high_scale_job_scheduler.Store.Sweep.{SweepOutcome, sweep_cutoff}
use high_scale_job_scheduler.Store.Moves.{
  MoveOutcome, MarkClaimedOutcome, TurnsTo, Rescheduled, Invalidated,
}
use high_scale_job_scheduler.Store.Claims.{ClaimedFrom}
use high_scale_job_scheduler.Examples.Data.{
  job, template, backlog, in_flight, backlog-UniqueIds, in_flight-UniqueIds, memory_of, request,
}

abbrev ten_seconds : Time
ten_seconds = pos 10000000000

-- `ClaimDueJobs` on the backlog, for up to ten jobs: the two that are due.
claims_all : (run memory (claim_due_jobs ten_seconds (pos 10)) (memory_of backlog)).0.1 ≡ none
unfolding run claim_due_jobs claim_loop answer floor_ms first_of_docs change_first is_first
claims_all = refl

-- For one job: the one of the higher priority.
claims_one : (run memory (claim_due_jobs ten_seconds (pos 1)) (memory_of backlog)).0.1 ≡ none
unfolding run claim_due_jobs claim_loop answer floor_ms first_of_docs change_first is_first
claims_one = refl

claims_two : length (run memory (claim_due_jobs ten_seconds (pos 10)) (memory_of backlog)).0.0 ≡ 2
unfolding run claim_due_jobs claim_loop answer floor_ms first_of_docs change_first is_first
claims_two = refl

claims_no_third :
    All (λ j. j.id ≢ 3) (run memory (claim_due_jobs ten_seconds (pos 10)) (memory_of backlog)).0.0
unfolding run claim_due_jobs claim_loop answer floor_ms first_of_docs change_first is_first
claims_no_third = ground arith

claim_due_jobs-ClaimedFrom_example :
    let ((jobs, e), s') = run memory (claim_due_jobs ten_seconds (pos 10)) (memory_of backlog) in
    (length jobs ≤ rounds (pos 10))
    × UniqueIds jobs
    × All (ClaimedFrom codec ten_seconds (memory.view (memory_of backlog))) jobs
claim_due_jobs-ClaimedFrom_example =
    Batch.claim_due_jobs-ClaimedFrom memory (memory_of backlog) ten_seconds (pos 10)
      backlog-UniqueIds

claim_due_jobs-Dequeues_example :
    let (r, s') = run memory (claim_due_jobs ten_seconds (pos 1)) (memory_of backlog) in
    Dequeues ten_seconds (rounds (pos 1)) backlog s'.view.docs r.0
claim_due_jobs-Dequeues_example =
    Queue.claim_due_jobs-Dequeues memory (memory_of backlog) ten_seconds (pos 1) backlog-UniqueIds
      claims_one

claim_due_jobs-stored_example :
    let ((jobs, e), s') = run memory (claim_due_jobs ten_seconds (pos 10)) (memory_of backlog) in
    All (λ j. doc j.id (memory.view s').docs ≡ some j) jobs
    × ((i : ObjectId)
        → All (λ j. j.id ≢ i) jobs
        → doc i (memory.view s').docs ≡ doc i (memory.view (memory_of backlog)).docs)
claim_due_jobs-stored_example =
    Batch.claim_due_jobs-stored memory (memory_of backlog) ten_seconds (pos 10) backlog-UniqueIds
      claims_all

-- The queued job of `in_flight` fails once, for the second of backoff after no attempt.
mark_failed-FailOutcome_example :
    let (e, s') = run memory (mark_failed 4 (foreign 7) (pos 1000000000)) (memory_of in_flight) in
    FailOutcome codec 4
      (foreign 7)
      (pos 1000000000)
      (memory.view (memory_of in_flight))
      e
      (memory.view s')
mark_failed-FailOutcome_example =
    Failure.mark_failed-FailOutcome memory (memory_of in_flight) 4 (foreign 7) (pos 1000000000)
      in_flight-UniqueIds

-- It is claimed by a first worker, and not by a second.
first_claims : (run memory (mark_claimed 4 "w1") (memory_of in_flight)).0 ≡ none
unfolding run mark_claimed answer floor_ms change_first
first_claims = refl

mark_claimed-Moves_example :
    let (e, s') = run memory (mark_claimed 4 "w1") (memory_of in_flight) in
    MarkClaimedOutcome codec 4 "w1" (memory.view (memory_of in_flight)) e (memory.view s')
mark_claimed-Moves_example =
    Transitions.mark_claimed-Moves memory (memory_of in_flight) 4 in_flight-UniqueIds "w1"

mark_running-Moves_example :
    let (e, s') = run memory (mark_running 4) (memory_of in_flight) in
    MoveOutcome 4 (TurnsTo codec running) (memory.view (memory_of in_flight)) e (memory.view s')
mark_running-Moves_example =
    Transitions.mark_running-Moves memory (memory_of in_flight) 4 in_flight-UniqueIds

mark_completed-Moves_example :
    let (e, s') = run memory (mark_completed 5) (memory_of in_flight) in
    MoveOutcome 5 (TurnsTo codec completed) (memory.view (memory_of in_flight)) e (memory.view s')
mark_completed-Moves_example =
    Transitions.mark_completed-Moves memory (memory_of in_flight) 5 in_flight-UniqueIds

reschedule_cron_template-Moves_example :
    let (e, s') =
      run memory (reschedule_cron_template 6 (pos 86400000000000)) (memory_of in_flight) in
    MoveOutcome 6
      (Rescheduled codec (pos 86400000000000))
      (memory.view (memory_of in_flight))
      e
      (memory.view s')
reschedule_cron_template-Moves_example =
    Transitions.reschedule_cron_template-Moves memory (memory_of in_flight) 6 in_flight-UniqueIds
      (pos 86400000000000)

mark_cron_invalid-Moves_example :
    let (e, s') = run memory (mark_cron_invalid 6 (foreign 2)) (memory_of in_flight) in
    MoveOutcome 6
      (Invalidated codec (foreign 2))
      (memory.view (memory_of in_flight))
      e
      (memory.view s')
mark_cron_invalid-Moves_example =
    Transitions.mark_cron_invalid-Moves memory (memory_of in_flight) 6 in_flight-UniqueIds
      (foreign 2)

-- Both sweeps, with a timeout of five seconds.
sweep_stuck_jobs-SweepOutcome_example :
    let (r, s') = run memory (sweep_stuck_jobs (pos 5000000000)) (memory_of in_flight) in
    SweepOutcome codec
      (claimed ∷ running ∷ [])
      (sweep_cutoff memory (memory_of in_flight) (pos 5000000000))
      (memory.view (memory_of in_flight))
      r
      (memory.view s')
sweep_stuck_jobs-SweepOutcome_example =
    Sweep.sweep_stuck_jobs-SweepOutcome memory (memory_of in_flight) (pos 5000000000)

sweep_stuck_queued_jobs-SweepOutcome_example :
    let (r, s') = run memory (sweep_stuck_queued_jobs (pos 5000000000)) (memory_of in_flight) in
    SweepOutcome codec
      (queued ∷ [])
      (sweep_cutoff memory (memory_of in_flight) (pos 5000000000))
      (memory.view (memory_of in_flight))
      r
      (memory.view s')
sweep_stuck_queued_jobs-SweepOutcome_example =
    Sweep.sweep_stuck_queued_jobs-SweepOutcome memory (memory_of in_flight) (pos 5000000000)

-- A request, twice.
create-CreateOutcome_example :
    let (r, s') = run memory (create request) (memory_of backlog) in
    CreateOutcome codec request (memory.view (memory_of backlog)) r (memory.view s')
create-CreateOutcome_example = Insertion.create-CreateOutcome memory (memory_of backlog) request

abbrev made : Job
made = record (new_job request ten_seconds) { id = 4 }

creates : (run memory (create request) (memory_of backlog)).0 ≡ ok made
unfolding run create answer floor_ms max_id key_used new_job
creates = refl

create_once_example :
    (run memory (create request) (run memory (create request) (memory_of backlog)).1).0 ≢ ok made
create_once_example =
    Insertion.create_once memory (memory_of backlog) request request made made refl refl creates

spawn_cron_instance-SpawnOutcome_example :
    let (r, s') = run memory (spawn_cron_instance template) (memory_of in_flight) in
    SpawnOutcome codec template (memory.view (memory_of in_flight)) r (memory.view s')
spawn_cron_instance-SpawnOutcome_example =
    Insertion.spawn_cron_instance-SpawnOutcome memory (memory_of in_flight) template

-- The queued job fails, and a batch is claimed at once.
failure_recorded :
    (run memory (mark_failed 4 (foreign 7) (pos 1000000000)) (memory_of in_flight)).0 ≡ none
unfolding run mark_failed answer first_of_docs change_first floor_ms
failure_recorded = refl

claim_after_failure_example :
    let s1 = (run memory (mark_failed 4 (foreign 7) (pos 1000000000)) (memory_of in_flight)).1 in
    All
      (λ k.
        (k.id ≢ 4)
        ⊎ IsRetry codec
            (pos 1000000000)
            (pos 12000000000)
            (job 4 "d" queued (pos 5) (pos 2000000))
            (memory.view s1)
            k)
      (run memory (claim_due_jobs (pos 12000000000) (pos 5)) s1).0.0
claim_after_failure_example =
    Retry.claim_after_failure memory (memory_of in_flight) 4 (foreign 7) (pos 1000000000)
      (job 4 "d" queued (pos 5) (pos 2000000)) (pos 12000000000) (pos 5) in_flight-UniqueIds refl
      failure_recorded
