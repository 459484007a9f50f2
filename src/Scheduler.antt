-- ===== src/Scheduler.antt =====
-- internal/scheduler: cron.go and loop.go, with the dispatch function of cmd/scheduler/main.go.
pub mod Cron
pub mod Dispatching
pub mod Never
use high_scale_job_scheduler.Prelude.{
  ℕ, zero, suc, ℤ, String, Bool, true, false, List, [], ◌∷◌, Option, none, some, if◌then◌else◌,
  str_eq, length, ltb, ◌-ℤ◌,
}
use high_scale_job_scheduler.Errors.{Error, Result, ok, err, invalid_cron}
use high_scale_job_scheduler.Models.{Job, Time}
use high_scale_job_scheduler.Effects.{
  Prog, ret, ask, ◌>>=◌, ◌>>◌, time_now, next_tick, cron_next, hex, go_dispatch, count,
  jobs_claimed, dispatch_errors, cron_instances_spawned, cron_invalid, scheduler_tick_duration,
}
use high_scale_job_scheduler.Store.{
  claim_due_jobs, spawn_cron_instance, reschedule_cron_template, mark_cron_invalid,
}
use high_scale_job_scheduler.Dispatch.{publish_dispatch}

abbrev pub occurrence : String → Result Time → Result Time
occurrence expr (ok next) = ok next
occurrence expr (err e) = err (invalid_cron expr e)

unfoldable pub next_occurrence : String → Time → Prog (Result Time)
next_occurrence expr after = do r ← ask (cron_next expr after); ret (occurrence expr r)

-- After the next occurrence is known, or is not.
abbrev pub after_next : Job → Job → Result Time → Prog (Unit {0})
after_next template run (err e) =
    ask (count cron_invalid) >>= λ _. mark_cron_invalid template.id e >>= λ _. ret tt
after_next template run (ok next) =
    reschedule_cron_template template.id next >>= λ _. ask (go_dispatch run) >>= λ _. ret tt

-- After the run is inserted, or is not.
abbrev pub after_spawn : Job → Result Job → Prog (Unit {0})
after_spawn template (err e) = ret tt
after_spawn template (ok run) = ask (count cron_instances_spawned) >>= λ _.
    ask time_now >>= λ now. next_occurrence template.cron now >>= after_next template run

unfoldable pub handle_cron_job : Job → Prog (Unit {0})
handle_cron_job template = spawn_cron_instance template >>= after_spawn template

-- One pass of the loop of `runOnce`.
unfoldable pub dispatch_one : Job → Prog (Unit {0})
dispatch_one job = elim (str_eq job.cron "") [
  | false ↦ handle_cron_job job
  | true ↦ ask (go_dispatch job) >>= λ _. ret tt
]

-- The loop of `runOnce` over the claimed jobs.
unfoldable pub dispatch_jobs : List Job → Prog (Unit {0})
dispatch_jobs [] = ret tt
dispatch_jobs (job ∷ jobs) = dispatch_one job >>= λ _. dispatch_jobs jobs

-- `if len(jobs) > 0 { … }`
abbrev pub count_claimed : ℕ → Prog (Unit {0})
count_claimed zero = ret tt
count_claimed (suc n) = ask (count (jobs_claimed (suc n))) >>= λ _. ret tt

-- What follows `ClaimDueJobs`.
abbrev pub dispatch_claimed : List Job × Option Error → Prog (Unit {0})
dispatch_claimed (jobs, some _) = ret tt
dispatch_claimed (jobs, none) = count_claimed (length jobs) >>= λ _. dispatch_jobs jobs

-- `runOnce` between its start and its deferred call.
unfoldable pub claim_and_dispatch : ℤ → Prog (Unit {0})
claim_and_dispatch batch_size =
    ask time_now >>= λ now. claim_due_jobs now batch_size >>= dispatch_claimed

-- The deferred call: an observation of the histogram, in nanoseconds.
unfoldable pub observe_tick : Time → Prog (Unit {0})
observe_tick start = do
  now ← ask time_now
  ask (count (scheduler_tick_duration (now -ℤ start)))
  ret tt

unfoldable pub run_once : ℤ → Prog (Unit {0})
run_once batch_size =
    ask time_now >>= λ start. claim_and_dispatch batch_size >>= λ _. observe_tick start

-- `Run`, for at most the given number of rounds; it answers whether it returned within them.
unfoldable pub run_loop : ℕ → ℤ → Prog Bool
run_loop zero batch_size = ret false
run_loop (suc n) batch_size = ask next_tick >>= λ stopped. elim stopped [
  | true ↦ ret true
  | false ↦ run_once batch_size >>= λ _. run_loop n batch_size
]

-- `dispatchFn`: the goroutine that `go l.dispatch(ctx, job)` starts.
unfoldable pub dispatch_fn : Job → Prog (Unit {0})
dispatch_fn job = do
  id ← ask (hex job.id)
  e ← publish_dispatch (record { job_id = id; job_type = job.job_type; priority = job.priority })
  elim e [ none ↦ ret tt | some _ ↦ ask (count dispatch_errors) >>= λ _. ret tt ]
