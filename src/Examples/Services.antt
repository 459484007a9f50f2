-- ===== src/Examples/Services.antt =====
-- Examples for internal/executor, internal/scheduler and internal/api.
use high_scale_job_scheduler.Prelude.{
  [], ◌∷◌, Option-cases, inl, inr, pos, none, some, true, false, ap, arith, ◌≡◌, refl, ◌*◌,
  if◌then◌else◌, str_eq,
}
use high_scale_job_scheduler.Errors.{ok, foreign}
use high_scale_job_scheduler.Models.{Job, Time, zero_time, queued, running}
use high_scale_job_scheduler.Effects.World.{run, stored}
use high_scale_job_scheduler.Effects.Memory.Lawful.{memory, codec, reply-Lawful}
use high_scale_job_scheduler.Executor.{
  Runner, new_registry, execute, fail, exponential_backoff, second, register, get, find, put,
}
use high_scale_job_scheduler.Executor.Handlers.{register_all, flaky_handler, noop_handler}
use high_scale_job_scheduler.Executor.Lookup
use high_scale_job_scheduler.Executor.Backoff
use high_scale_job_scheduler.Executor.Delivery
use high_scale_job_scheduler.Executor.Failing
use high_scale_job_scheduler.Executor.Failing.{FailureOutcome}
use high_scale_job_scheduler.Scheduler.{dispatch_fn, handle_cron_job, run_once, next_occurrence}
use high_scale_job_scheduler.Scheduler.Cron
use high_scale_job_scheduler.Scheduler.Dispatching
use high_scale_job_scheduler.Scheduler.Never
use high_scale_job_scheduler.Scheduler.Never.{FiresAgain}
use high_scale_job_scheduler.Scheduler.Dispatching.{PassOutcome}
use high_scale_job_scheduler.Worker.{handle_message}
use high_scale_job_scheduler.Worker.Arrival
use high_scale_job_scheduler.Worker.Arrival.{Finds, Publishes, sent_message}
use high_scale_job_scheduler.Topics.{DispatchMessage}
use high_scale_job_scheduler.Api.Server.{Request, serve}
use high_scale_job_scheduler.Api.Routing
use high_scale_job_scheduler.Api.Listing
use high_scale_job_scheduler.Api.Routing.{IsReadOnly}
use high_scale_job_scheduler.Effects.Docs.{NoneOf, Memᴰ-All}
use high_scale_job_scheduler.Executor.Completion.{Answers, Completes}
use high_scale_job_scheduler.Api.Creation
use high_scale_job_scheduler.Api.Creation.{JobCreation}
use high_scale_job_scheduler.Effects.{ret, find_one}
use high_scale_job_scheduler.Effects.Memory.{
  Memory, every_minute, answer, change_first, first_of_docs, floor_ms, max_id, key_used,
}
use high_scale_job_scheduler.Store.{
  create, new_job, new_instance, spawn_cron_instance, reschedule_cron_template,
}
use high_scale_job_scheduler.Scheduler.Cron.{CronOutcome}
use high_scale_job_scheduler.Api.{create_job, create_scheduled}
use high_scale_job_scheduler.Examples.Data.{
  backlog, backlog-UniqueIds, request, job, template, in_flight, in_flight-UniqueIds, memory_of,
  view_of,
}

abbrev pub runner : Runner
runner = record { registry = register_all new_registry; worker_id = "w1"; has_producer = true }

-- The delays of the first attempts, in seconds, and of the tenth.
delays :
    (exponential_backoff (pos 0) ≡ pos second)
    × (exponential_backoff (pos 3) ≡ pos (8 * second))
    × (exponential_backoff (pos 9) ≡ pos (300 * second))
unfolding exponential_backoff
delays = (refl, refl, refl)

backoff_exact_example : exponential_backoff (pos 2000) ≡ Backoff.integer_backoff (pos 2000)
backoff_exact_example = Backoff.backoff_exact (pos 2000)

-- A message for the job that is running already.
execute_unqueued_example :
    memory.view
      (run memory (execute runner (job 5 "e" queued (pos 5) (pos 2000000))) (memory_of in_flight)).1
    ≡ memory.view (memory_of in_flight)
execute_unqueued_example =
    Delivery.execute_unqueued memory (memory_of in_flight) runner
      (job 5 "e" queued (pos 5) (pos 2000000)) in_flight-UniqueIds (λ j h q. ground (arith, h, q))

-- The running job fails.
abbrev running_job : Job
running_job = job 5 "e" running (pos 5) (pos 2000000)

fail-FailureOutcome_example :
    FailureOutcome codec runner running_job running_job
      (foreign 7)
      (Failing.write_answer memory (memory_of in_flight) runner running_job (foreign 7))
      (Failing.publish_answer memory (memory_of in_flight) runner running_job (foreign 7))
      (memory.view (memory_of in_flight))
      (memory.view (run memory (fail runner running_job (foreign 7)) (memory_of in_flight)).1)
fail-FailureOutcome_example =
    Failing.fail-FailureOutcome memory (memory_of in_flight) runner running_job running_job
      (foreign 7) in_flight-UniqueIds refl refl refl

-- The template fires.
handle_cron_job-CronOutcome_example :
    let after = Cron.fire_time memory template (memory_of in_flight) in
    CronOutcome codec template template
      (Cron.spawn_answer memory template (memory_of in_flight))
      after
      (Cron.update_answer memory template (memory_of in_flight) (codec.next_of template.cron after))
      (memory.view (memory_of in_flight))
      (memory.view (run memory (handle_cron_job template) (memory_of in_flight)).1)
handle_cron_job-CronOutcome_example =
    Cron.handle_cron_job-CronOutcome memory (memory_of in_flight) template template
      in_flight-UniqueIds refl

-- A second handler for the job type "noop".
get-register_example :
    get (register (register_all new_registry) "noop" flaky_handler) "slow"
    ≡ (if str_eq "noop" "slow" then ok flaky_handler else get (register_all new_registry) "slow")
get-register_example = Lookup.get-register (register_all new_registry) "noop" "slow" flaky_handler

-- The world in memory answers every update of a document.
pub memory-Answers : Answers memory
unfolding answer
memory-Answers p f m = elim (Option-cases (change_first p (λ j. stored codec (f j)) m.view.docs)) [
  | inl e ↦ (0, rw (e, answer) refl)
  | inr ((j, js), e) ↦ (1, rw (e, answer) refl)
]

pub has_noop : get (register_all new_registry) "noop" ≡ ok noop_handler
unfolding get find register put register_all new_registry
has_noop = refl

pub noop_succeeds : noop_handler (job 4 "d" queued (pos 5) (pos 2000000)).payload ≡ ret none
unfolding noop_handler
noop_succeeds = refl

-- The world in memory finds what passes.
pub memory-Finds : Finds memory
unfolding answer
memory-Finds p m j mem h = elim (Option-cases (first_of_docs p m.view.docs)) [
  | inl e ↦
      let none_passes : NoneOf p m.view.docs =
        (rw (e, answer) at (reply-Lawful (find_one p) m)).0.0 refl in
      absurd (ground (arith, h, Memᴰ-All (λ k. p k ≡ false) mem none_passes))
  | inr (k, e) ↦ (k, rw (e, answer) refl)
]

pub memory-Publishes : Publishes memory
unfolding answer
memory-Publishes msg m = refl

dispatch_fn-Completes_example :
    let s' =
      (run memory (dispatch_fn (job 4 "d" queued (pos 5) (pos 2000000))) (memory_of in_flight)).1 in
    (msg : DispatchMessage) × (msg.job_type ≡ "noop")
    × (s'.view.produced ≡ sent_message msg ∷ [])
    × ((run memory (handle_message runner msg) s').0 ≡ none)
    × Completes 4
        (job 4 "d" queued (pos 5) (pos 2000000))
        (memory.view (memory_of in_flight))
        (memory.view (run memory (handle_message runner msg) s').1)
dispatch_fn-Completes_example =
    Arrival.dispatch_fn-Completes memory memory-Publishes memory-Answers memory-Finds
      (memory_of in_flight) runner (job 4 "d" queued (pos 5) (pos 2000000)) noop_handler
      in_flight-UniqueIds refl refl has_noop noop_succeeds

-- A request to list jobs.
abbrev list_request : Request
list_request = record {
  method = "GET";
  path = "/jobs";
  tenant_id = "acme";
  status = "queued";
  limit = "20";
  body = none;
}

serve-IsReadOnly_example :
    IsReadOnly
      (memory.view (memory_of in_flight))
      (run memory (serve list_request) (memory_of in_flight)).0
      (memory.view (run memory (serve list_request) (memory_of in_flight)).1)
serve-IsReadOnly_example =
    Routing.serve-IsReadOnly memory (memory_of in_flight) list_request
      (λ _ e. absurd (ground (arith, ap (λ m. str_eq m "POST") e)))

-- A request for a recurring job.
create_job-JobCreation_example :
    let (resp, s') =
      run memory (create_job (some (record request { cron = "0 0 * * *" }))) (memory_of backlog) in
    JobCreation codec
      (some (record request { cron = "0 0 * * *" }))
      (memory.view (memory_of backlog))
      resp
      (memory.view s')
create_job-JobCreation_example =
    Creation.create_job-JobCreation memory (memory_of backlog)
      (some (record request { cron = "0 0 * * *" }))

-- It is answered 201.
creates_recurring :
    (run memory
      (create_job (some (record request { cron = "0 0 * * *" })))
      (memory_of backlog)).0.status
    ≡ 201
unfolding run create_job create_scheduled create next_occurrence answer floor_ms max_id key_used
    new_job every_minute
creates_recurring = refl

-- A pass over the backlog.
run_once-PassOutcome_example :
    let (answer, claimed) = Dispatching.claim_run memory (memory_of backlog) (pos 20) in
    PassOutcome codec
      (Dispatching.claim_time memory (memory_of backlog))
      (pos 20)
      answer
      (memory.view (memory_of backlog))
      (memory.view claimed)
      (memory.view (run memory (run_once (pos 20)) (memory_of backlog)).1)
unfolding answer
run_once-PassOutcome_example =
    Dispatching.run_once-PassOutcome memory (memory_of backlog) (pos 20) backlog-UniqueIds
      (refl, (refl, (refl, tt)))

-- The 30th of February.
abbrev never_firing : Job
never_firing = record template { cron = "0 0 30 2 *" }

never_fires : (after : Time) → codec.next_of never_firing.cron after ≡ ok zero_time
unfolding every_minute
never_fires after = refl

-- A collection without the index, so that the key of the run is not looked up.
abbrev unindexed : Memory
unindexed = record (memory_of (never_firing ∷ [])) {
  view = record (view_of (never_firing ∷ [])) { key_index = false };
}

abbrev spawned_run : Job
spawned_run = record (new_instance never_firing (pos 10000000000)) { id = 7 }

spawns : Cron.spawn_answer memory never_firing unindexed ≡ ok spawned_run
unfolding run spawn_cron_instance answer max_id
spawns = refl

reschedules : Cron.update_answer memory never_firing unindexed (ok zero_time) ≡ none
unfolding run reschedule_cron_template
reschedules = rw ((memory-Answers _ _ _).1) refl

never_firing_is_due_example :
    FiresAgain never_firing spawned_run
      (memory.view unindexed)
      (memory.view (run memory (handle_cron_job never_firing) unindexed).1)
never_firing_is_due_example =
    Never.never_firing_is_due memory unindexed never_firing never_firing spawned_run (tt, tt) refl
      never_fires spawns reschedules
