-- ===== src/System/Schedulers.antt =====
-- The scheduler, the reaper and the API keep the invariant.
use high_scale_job_scheduler.Prelude.{
  ℕ, zero, suc, inl, inr, true, false, Option, none, some, ℤ, String, List, [], ◌∷◌, Bool-cases,
  All, ◌-ℤ◌, str_eq, str_eq→eq, length,
}
use high_scale_job_scheduler.Errors.{Error, Result, ok, err}
use high_scale_job_scheduler.Models.{Job, CreateJobRequest, Time, Duration}
use high_scale_job_scheduler.Effects.{
  Metric, ret, ask, ◌>>=◌, time_now, jobs_claimed, cron_invalid, cron_instances_spawned,
  scheduler_tick_duration, dispatch_errors, reaper_recovered_execution, reaper_recovered_queued,
}
use high_scale_job_scheduler.Effects.World.{Codec}
use high_scale_job_scheduler.Dispatch.{publish_dispatch}
use high_scale_job_scheduler.Store.{
  claim_due_jobs, spawn_cron_instance, reschedule_cron_template, mark_cron_invalid, create,
  get_by_id, list_by_tenant, sweep_stuck_jobs, sweep_stuck_queued_jobs,
}
use high_scale_job_scheduler.Scheduler.{
  next_occurrence, after_next, handle_cron_job, dispatch_one, dispatch_jobs, count_claimed,
  claim_and_dispatch, observe_tick, run_once, run_loop, dispatch_fn,
}
use high_scale_job_scheduler.Reaper.{count_recovered, sweep_once, reap}
use high_scale_job_scheduler.Api.{
  create_job, create_scheduled, create_and_respond, with_occurrence, get_job, list_jobs, list_limit,
  lacks_field, is_zero,
}
use high_scale_job_scheduler.System.Handlers.{
  count-Safe, go_dispatch-Safe, test-Safe, then-Safe, publish_dispatch-Safe,
}
use high_scale_job_scheduler.System.Keeps.{Keeps-bind}
use high_scale_job_scheduler.System.Integrity.{Base, IsValid, IsFree, Inv, same-Inv}
use high_scale_job_scheduler.System.Repository.{
  Safe, Any, RunResult, IsFreeRun, IsClaimable, GotUnder, create-Safe, claim_due_jobs-Safe,
  reschedule_cron_template-Safe, mark_cron_invalid-Safe, spawn_cron_instance-Safe, get_by_id-Safe,
  list_by_tenant-Safe, sweep_stuck_jobs-Safe, sweep_stuck_queued_jobs-Safe,
}

module _ (x : Codec) (base : Base) where
  next_occurrence-Safe :
      (expr : String) (after : Time) → Safe x base (next_occurrence expr after) (Any x base)
  unfolding next_occurrence
  next_occurrence-Safe expr after = λ r s s' i e. (same-Inv x base s s' i e.1, tt)

  after_next-Safe :
      (template run : Job) (r : Result Time)
      → IsFreeRun base run
      → Safe x base (after_next template run r) (Any x base)
  after_next-Safe template run (err e) is_run = count-Safe x base cron_invalid _ (Any x base) (
      then-Safe x base (mark_cron_invalid template.id e) (ret tt) (Any x base)
        (mark_cron_invalid-Safe x base template.id e) tt)
  after_next-Safe template run (ok next) is_run =
      then-Safe x base (reschedule_cron_template template.id next) _ (Any x base)
        (reschedule_cron_template-Safe x base template.id next)
        (go_dispatch-Safe x base run (ret tt) (Any x base) is_run tt)

  handle_cron_job-Safe :
      (template : Job) → IsValid template → Safe x base (handle_cron_job template) (Any x base)
  unfolding handle_cron_job
  handle_cron_job-Safe template v =
      Keeps-bind x (Inv x base) (spawn_cron_instance template) _ (RunResult x base) (Any x base)
        (spawn_cron_instance-Safe x base template v)
        (elim [
          | err e ↦ λ _. tt
          | ok run ↦ λ is_run.
              count-Safe x base cron_instances_spawned
                (ask time_now >>= λ now.
                  next_occurrence template.cron now >>= after_next template run)
                (Any x base)
                (λ now s s' i e. (
                  same-Inv x base s s' i e,
                  Keeps-bind x (Inv x base) (next_occurrence template.cron now)
                      (after_next template run) (Any x base) (Any x base)
                      (next_occurrence-Safe template.cron now)
                      (λ r _. after_next-Safe template run r is_run),
                ))
        ])

  dispatch_one-Safe :
      (job : Job) → IsClaimable base job → Safe x base (dispatch_one job) (Any x base)
  unfolding dispatch_one
  dispatch_one-Safe job v = elim (Bool-cases (str_eq job.cron "")) [
    | inl e ↦
        rw (e, dispatch_one)
          (go_dispatch-Safe x base job (ret tt) (Any x base)
            (record {
              is_run = record { valid = v.valid; no_template = str_eq→eq job.cron "" e };
              free = v.free (str_eq→eq job.cron "" e);
            })
            tt)
    | inr e ↦ rw (e, dispatch_one) (handle_cron_job-Safe job v.valid)
  ]

  dispatch_jobs-Safe :
      (jobs : List Job)
      → All (IsClaimable base) jobs
      → Safe x base (dispatch_jobs jobs) (Any x base)
  unfolding dispatch_jobs
  dispatch_jobs-Safe [] v = tt
  dispatch_jobs-Safe (job ∷ jobs) v =
      then-Safe x base (dispatch_one job) (dispatch_jobs jobs) (Any x base)
        (dispatch_one-Safe job v.0) (dispatch_jobs-Safe jobs v.1)

  count_claimed-Safe : (n : ℕ) → Safe x base (count_claimed n) (Any x base)
  count_claimed-Safe zero = tt
  count_claimed-Safe (suc n) = count-Safe x base (jobs_claimed (suc n)) (ret tt) (Any x base) tt

  claim_and_dispatch-Safe :
      (batch_size : ℤ) → Safe x base (claim_and_dispatch batch_size) (Any x base)
  unfolding claim_and_dispatch
  claim_and_dispatch-Safe batch_size = λ now s s' i e. (
    same-Inv x base s s' i e,
    Keeps-bind x (Inv x base) (claim_due_jobs now batch_size) _ (λ r. All (IsClaimable base) r.0)
        (Any x base) (claim_due_jobs-Safe x base now batch_size) (λ r v. after_claim r.0 r.1 v),
  )
    where
      after_claim :
          (jobs : List Job) (e : Option Error)
          → All (IsClaimable base) jobs
          → Safe x base {A = Unit {0}}
              (elim e [
                | some _ ↦ ret tt
                | none ↦ count_claimed (length jobs) >>= λ _. dispatch_jobs jobs
              ])
              (Any x base)
      after_claim jobs (some _) v = tt
      after_claim jobs none v =
          then-Safe x base (count_claimed (length jobs)) (dispatch_jobs jobs) (Any x base)
            (count_claimed-Safe (length jobs)) (dispatch_jobs-Safe jobs v)

  observe_tick-Safe : (start : Time) → Safe x base (observe_tick start) (Any x base)
  unfolding observe_tick
  observe_tick-Safe start = λ now s s' i e. (
    same-Inv x base s s' i e,
    count-Safe x base (scheduler_tick_duration (now -ℤ start)) (ret tt) (Any x base) tt,
  )

  run_once-Safe : (batch_size : ℤ) → Safe x base (run_once batch_size) (Any x base)
  unfolding run_once
  run_once-Safe batch_size = λ start s s' i e. (
    same-Inv x base s s' i e,
    then-Safe x base (claim_and_dispatch batch_size) (observe_tick start) (Any x base)
        (claim_and_dispatch-Safe batch_size) (observe_tick-Safe start),
  )

  pub run_loop-Safe : (n : ℕ) (batch_size : ℤ) → Safe x base (run_loop n batch_size) (Any x base)
  unfolding run_loop
  run_loop-Safe zero batch_size = tt
  run_loop-Safe (suc n) batch_size = elim [
    | true ↦ λ s s' i e. (same-Inv x base s s' i e, tt)
    | false ↦ λ s s' i e. (
      same-Inv x base s s' i e,
      then-Safe x base (run_once batch_size) (run_loop n batch_size) (Any x base)
          (run_once-Safe batch_size) (run_loop-Safe n batch_size),
    )
  ]

  pub dispatch_fn-Safe :
      (job : Job) → IsFree base job.id → Safe x base (dispatch_fn job) (Any x base)
  unfolding dispatch_fn
  dispatch_fn-Safe job free = λ id s s' i h. (
    same-Inv x base s s' i h.1,
    Keeps-bind x (Inv x base)
        (publish_dispatch
          (record { job_id = id; job_type = job.job_type; priority = job.priority }))
        _ (Any x base) (Any x base)
        (publish_dispatch-Safe x base
          (record { job_id = id; job_type = job.job_type; priority = job.priority }) job.id h.0
          free)
        (elim [
          | none ↦ λ _. tt
          | some _ ↦ λ _. count-Safe x base dispatch_errors (ret tt) (Any x base) tt
        ]),
  )

  count_recovered-Safe :
      (metric : ℕ → Metric) (n : ℕ) (e : Option Error)
      → Safe x base (count_recovered metric n e) (Any x base)
  count_recovered-Safe metric n (some e) = tt
  count_recovered-Safe metric zero none = tt
  count_recovered-Safe metric (suc n) none =
      count-Safe x base (metric (suc n)) (ret tt) (Any x base) tt

  sweep_queued-Safe :
      (timeout : Duration)
      → Safe x base
          (sweep_stuck_queued_jobs timeout >>= λ (n, e).
            count_recovered reaper_recovered_queued n e)
          (Any x base)
  sweep_queued-Safe timeout =
      Keeps-bind x (Inv x base) (sweep_stuck_queued_jobs timeout)
        (λ (n, e). count_recovered reaper_recovered_queued n e) (Any x base) (Any x base)
        (sweep_stuck_queued_jobs-Safe x base timeout)
        (λ q _. count_recovered-Safe reaper_recovered_queued q.0 q.1)

  sweep_once-Safe :
      (claim_timeout queued_timeout : Duration)
      → Safe x base (sweep_once claim_timeout queued_timeout) (Any x base)
  unfolding sweep_once
  sweep_once-Safe claim_timeout queued_timeout =
      Keeps-bind x (Inv x base) (sweep_stuck_jobs claim_timeout) _ (Any x base) (Any x base)
        (sweep_stuck_jobs-Safe x base claim_timeout)
        (λ r _.
          then-Safe x base (count_recovered reaper_recovered_execution r.0 r.1)
            (sweep_stuck_queued_jobs queued_timeout >>= λ (n, e).
              count_recovered reaper_recovered_queued n e)
            (Any x base) (count_recovered-Safe reaper_recovered_execution r.0 r.1)
            (sweep_queued-Safe queued_timeout))

  pub reap-Safe :
      (n : ℕ) (claim_timeout queued_timeout : Duration)
      → Safe x base (reap n claim_timeout queued_timeout) (Any x base)
  unfolding reap
  reap-Safe zero claim_timeout queued_timeout = tt
  reap-Safe (suc n) claim_timeout queued_timeout = elim [
    | true ↦ λ s s' i e. (same-Inv x base s s' i e, tt)
    | false ↦ λ s s' i e. (
      same-Inv x base s s' i e,
      then-Safe x base (sweep_once claim_timeout queued_timeout)
          (reap n claim_timeout queued_timeout) (Any x base)
          (sweep_once-Safe claim_timeout queued_timeout) (reap-Safe n claim_timeout queued_timeout),
    )
  ]

  create_and_respond-Safe :
      (req : CreateJobRequest) → Safe x base (create_and_respond req) (Any x base)
  create_and_respond-Safe req =
      Keeps-bind x (Inv x base) (create req) _ (Any x base) (Any x base) (create-Safe x base req)
        (λ r _. tt)

  with_occurrence-Safe :
      (req : CreateJobRequest) (r : Result Time) → Safe x base (with_occurrence req r) (Any x base)
  with_occurrence-Safe req (err e) = tt
  with_occurrence-Safe req (ok next) = create_and_respond-Safe (record req { scheduled_at = next })

  create_scheduled-Safe : (req : CreateJobRequest) → Safe x base (create_scheduled req) (Any x base)
  unfolding create_scheduled
  create_scheduled-Safe req =
      test-Safe x base (str_eq req.cron "") _ _ (Any x base)
        (test-Safe x base (is_zero req.scheduled_at) _ _ (Any x base) tt
          (create_and_respond-Safe req))
        (λ now s s' i e. (
          same-Inv x base s s' i e,
          Keeps-bind x (Inv x base) (next_occurrence req.cron now) (with_occurrence req)
              (Any x base) (Any x base) (next_occurrence-Safe req.cron now)
              (λ r _. with_occurrence-Safe req r),
        ))

  pub create_job-Safe :
      (body : Option CreateJobRequest) → Safe x base (create_job body) (Any x base)
  unfolding create_job
  create_job-Safe none = tt
  create_job-Safe (some req) =
      test-Safe x base (lacks_field req) _ _ (Any x base) tt (create_scheduled-Safe req)

  pub get_job-Safe : (id_param : String) → Safe x base (get_job id_param) (Any x base)
  unfolding get_job
  get_job-Safe id_param = elim [
    | err e ↦ λ s s' i h. (same-Inv x base s s' i h.1, tt)
    | ok id ↦ λ s s' i h. (
      same-Inv x base s s' i h.1,
      Keeps-bind x (Inv x base) (get_by_id id) _ (GotUnder x base id) (Any x base)
          (get_by_id-Safe x base id) (λ r _. tt),
    )
  ]

  pub list_jobs-Safe :
      (tenant_id status : String) (limit : Option ℤ)
      → Safe x base (list_jobs tenant_id status limit) (Any x base)
  unfolding list_jobs
  list_jobs-Safe tenant_id status limit =
      test-Safe x base (str_eq tenant_id "") _ _ (Any x base) tt (
        Keeps-bind x (Inv x base) (list_by_tenant tenant_id status (list_limit limit)) _
          (Any x base) (Any x base) (list_by_tenant-Safe x base tenant_id status (list_limit limit))
          (λ r _. tt))
