-- ===== src/Services/Termination.antt =====
-- The scheduler, the executor and the reaper stop when their context ends.
use high_scale_job_scheduler.Prelude.{
  ℕ, pos, ◌≡◌, ◌≢◌, ◌≤◌, ◌<◌, String, Bool, true, false, Option, none, some, str_eq, split_commas,
  inl, inr, Bool-cases, arith,
}
use Prim.Native.String.{◌++◌}
use high_scale_job_scheduler.Errors.{Error, ok, err}
use high_scale_job_scheduler.Models.{Duration}
use high_scale_job_scheduler.Effects.{Prog, ◌>>=◌, time_now, mongo_disconnect}
use high_scale_job_scheduler.Effects.World.{World, run}
use high_scale_job_scheduler.Config.{Env, load}
use high_scale_job_scheduler.Reaper.{reap}
use high_scale_job_scheduler.Dispatch.{each_record, consume, new_producer, new_consumer}
use high_scale_job_scheduler.Dispatch as dispatch
use high_scale_job_scheduler.Election as election
use high_scale_job_scheduler.Worker.{handle_message, work}
use high_scale_job_scheduler.Election.{
  LeaderElector, run_as_leader, step_down, after_term, retry_delay, lead, new_leader_elector,
}
use high_scale_job_scheduler.Services.{
  Exit, fatal, returned, running, connect, or_fatal, with_env, finally, disconnect, close_scheduler,
  after_election, scheduler_main, close_executor, executor_runner, executor_main, reaper_main,
}
use high_scale_job_scheduler.Services.Rounds.{
  ContextEnds, Answers-ret, Answers-then, Answers-bind, Answers-call, reap-Returns, consume-Returns,
  lead-Returns, Answers, Returns,
}

module _ (w : World) (ends : ContextEnds w) where
  -- What ends a service is not that the rounds ran out.
  abbrev Ends : ℕ → Prog Exit → Type 0
  Ends n m = Answers w ends n m (λ e. e ≢ running)

  or_fatal-Ends :
      (n : ℕ) (text : String) (m : Prog (Option Error)) (rest : Prog Exit)
      → Ends n rest
      → Ends n (m >>= or_fatal text rest)
  or_fatal-Ends n text m rest h =
      Answers-bind w ends n m (or_fatal text rest) (λ e. e ≢ running)
        (elim [
          | none ↦ h
          | some e ↦ Answers-ret w ends n (fatal text e) (λ e'. e' ≢ running) (λ q. cc)
        ])

  with_env-Ends :
      (n : ℕ) (env : Env) (key : String) (rest : String → Prog Exit)
      → ((value : String) → Ends n (rest value))
      → Ends n (with_env env key rest)
  unfolding run
  with_env-Ends n env key rest h s l = elim (Bool-cases (str_eq (env key) "")) [
    | inl e ↦ rw (e, run) (λ q. cc)
    | inr e ↦ rw (e, run) (h (env key) s l)
  ]

  disconnect-Ends : (n : ℕ) → Ends n disconnect
  disconnect-Ends n =
      Answers-call w ends n mongo_disconnect _ (λ e. e ≢ running)
        (λ _. Answers-ret w ends n returned (λ e. e ≢ running) (λ q. cc))

  close_executor-Ends : (n : ℕ) → Ends n close_executor
  close_executor-Ends n =
      Answers-bind w ends n dispatch.close _ (λ e. e ≢ running) (λ _. disconnect-Ends n)

  close_scheduler-Ends : (n : ℕ) → Ends n close_scheduler
  close_scheduler-Ends n =
      Answers-bind w ends n election.close _ (λ e. e ≢ running) (λ _. close_executor-Ends n)

  finally-Ends :
      (n : ℕ) (loop : Prog Bool) (deferred : Prog Exit)
      → Returns w ends n loop
      → Ends n deferred
      → Ends n (loop >>= finally deferred)
  finally-Ends n loop deferred h k =
      Answers-then w ends n loop _ (λ b. b ≡ true) (λ e. e ≢ running) h
        (elim [ true ↦ λ _. k | false ↦ λ e. absurd cc ])

  scheduler-Ends :
      (n rounds : ℕ) (env : Env) (pd : String → Option Duration)
      → n ≤ rounds
      → Ends n (scheduler_main n rounds env pd)
  unfolding scheduler_main
  scheduler-Ends n rounds env pd b =
      Answers-call w ends n time_now _ (λ e. e ≢ running)
        (λ now. or_fatal-Ends n "mongo connect failed" (connect (load env pd now).mongo_uri) _ (
          with_env-Ends n env "KAFKA_BROKERS" _ (λ brokers.
            or_fatal-Ends n "kafka producer init failed" (new_producer (split_commas brokers)) _ (
              with_env-Ends n env "ETCD_ENDPOINTS" _ (λ endpoints.
                Answers-bind w ends n
                  (new_leader_elector (split_commas endpoints) (load env pd now).worker_id (pos 10))
                  (after_election n rounds) (λ e. e ≢ running)
                  (elim [
                    | err e ↦
                        Answers-ret w ends n (fatal "etcd leader elector init failed" e)
                          (λ e. e ≢ running) (λ q. cc)
                    | ok le ↦
                        finally-Ends n (lead n rounds le (pos 20)) close_scheduler
                          (lead-Returns w ends n rounds le (pos 20) b) (close_scheduler-Ends n)
                  ]))))))

  executor-Ends :
      (n : ℕ) (env : Env) (pd : String → Option Duration) → Ends n (executor_main n env pd)
  unfolding executor_main work
  executor-Ends n env pd =
      Answers-call w ends n time_now _ (λ e. e ≢ running)
        (λ now. with_env-Ends n env "JOB_TYPE" _ (λ job_type.
          with_env-Ends n env "KAFKA_BROKERS" _ (λ brokers.
            or_fatal-Ends n "mongo connect failed" (connect (load env pd now).mongo_uri) _ (
              or_fatal-Ends n "kafka producer init failed" (new_producer (split_commas brokers)) _ (
                or_fatal-Ends n "kafka consumer init failed"
                  (new_consumer (split_commas brokers) job_type ("executor-" ++ job_type)) _
                  (finally-Ends n (consume n (handle_message (executor_runner (load env pd now))))
                    close_executor (consume-Returns w ends n _) (close_executor-Ends n)))))))

  reaper-Ends : (n : ℕ) (env : Env) (pd : String → Option Duration) → Ends n (reaper_main n env pd)
  unfolding reaper_main
  reaper-Ends n env pd =
      Answers-call w ends n time_now _ (λ e. e ≢ running)
        (λ now.
          let cfg = load env pd now in
          or_fatal-Ends n "mongo connect failed" (connect cfg.mongo_uri) _ (
            finally-Ends n (reap n cfg.claim_timeout cfg.queued_timeout) disconnect
              (reap-Returns w ends n cfg.claim_timeout cfg.queued_timeout) (disconnect-Ends n)))

-- If the context ends, so do the services: once the rounds that its loops are given, and the terms of
-- a scheduler, exceed the number of times that the context is still found running, `main` of the
-- scheduler, of the executor and of the reaper each end, by a return or a fatal error, and never by
-- the rounds running out.
pub services-End :
    (w : World) (ends : ContextEnds w) (s : w.State) (terms rounds : ℕ) (env : Env)
    (parse_duration : String → Option Duration)
    → ends.left s < terms
    → terms ≤ rounds
    → ((run w (scheduler_main terms rounds env parse_duration) s).0 ≢ running)
      × ((run w (executor_main rounds env parse_duration) s).0 ≢ running)
      × ((run w (reaper_main rounds env parse_duration) s).0 ≢ running)
services-End w ends s terms rounds env parse_duration l b = (
  scheduler-Ends w ends terms rounds env parse_duration b s l,
  executor-Ends w ends rounds env parse_duration s (omega (arith, l, b)),
  reaper-Ends w ends rounds env parse_duration s (omega (arith, l, b)),
)
