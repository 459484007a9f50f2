-- ===== src/System/Services.antt =====
-- The services as they are started, and the seeding of a collection, keep the invariant.
use high_scale_job_scheduler.Prelude.{
  ℕ, pos, String, true, false, Option, none, some, str_eq, split_commas, strip_prefix, parse_int,
}
use Prim.Native.String.{◌++◌}
use high_scale_job_scheduler.Models.{Duration}
use high_scale_job_scheduler.Effects.{Prog, ret, ◌>>=◌, time_now}
use high_scale_job_scheduler.Effects.World.{Codec}
use high_scale_job_scheduler.Config.{Env, load}
use high_scale_job_scheduler.Dispatch.{new_producer, new_consumer}
use high_scale_job_scheduler.Election.{new_leader_elector}
use high_scale_job_scheduler.Services.{
  Exit, connect, or_fatal, disconnect, scheduler_main, close_executor, executor_runner,
  executor_main, reaper_main, api_main,
}
use high_scale_job_scheduler.Store.{error_of, ensure_indexes}
use high_scale_job_scheduler.Api.{get_job}
use high_scale_job_scheduler.Worker.{work}
use high_scale_job_scheduler.Reaper.{reap}
use high_scale_job_scheduler.Api.Server.{
  Request, serve, serve_jobs, serve_job, serve_other, method_not_allowed,
}
use high_scale_job_scheduler.System.Integrity.{Base}
use high_scale_job_scheduler.System.Repository.{Safe, Any, ensure_indexes-Safe}
use high_scale_job_scheduler.System.Handlers.{test-Safe, register_all-AllSafe}
use high_scale_job_scheduler.System.Executors.{work-Safe}
use high_scale_job_scheduler.System.Schedulers.{
  reap-Safe, create_job-Safe, get_job-Safe, list_jobs-Safe,
}
use high_scale_job_scheduler.System.Startup.{
  bind-Safe, quiet-Safe, connect-Safe, or_fatal-Safe, started-Safe, with_env-Safe, finally-Safe,
  new_producer-Safe, new_consumer-Safe, new_leader_elector-Safe, disconnect-Safe,
  close_executor-Safe, after_election-Safe,
}

module _ (x : Codec) (base : Base) where
  pub scheduler_main-Safe :
      (terms rounds : ℕ) (env : Env) (parse_duration : String → Option Duration)
      → Safe x base (scheduler_main terms rounds env parse_duration) (Any x base)
  unfolding scheduler_main
  scheduler_main-Safe terms rounds env parse_duration =
      quiet-Safe x base time_now (λ r s s' e. e)
        (λ now.
          started-Safe x base "mongo connect failed"
            (connect (load env parse_duration now).mongo_uri) _
            (connect-Safe x base (load env parse_duration now).mongo_uri)
            (with_env-Safe x base env "KAFKA_BROKERS" _ (λ brokers.
              started-Safe x base "kafka producer init failed" (new_producer (split_commas brokers))
                _ (new_producer-Safe x base (split_commas brokers))
                (with_env-Safe x base env "ETCD_ENDPOINTS" _ (λ endpoints.
                  let id = (load env parse_duration now).worker_id in
                  bind-Safe x base (new_leader_elector (split_commas endpoints) id (pos 10)) _
                    (new_leader_elector-Safe x base (split_commas endpoints) id (pos 10))
                    (after_election-Safe x base terms rounds))))))

  pub executor_main-Safe :
      (rounds : ℕ) (env : Env) (parse_duration : String → Option Duration)
      → Safe x base (executor_main rounds env parse_duration) (Any x base)
  unfolding executor_main
  executor_main-Safe rounds env parse_duration =
      quiet-Safe x base time_now (λ r s s' e. e)
        (λ now. with_env-Safe x base env "JOB_TYPE" _ (λ job_type.
          with_env-Safe x base env "KAFKA_BROKERS" _ (λ brokers.
            started-Safe x base "mongo connect failed"
              (connect (load env parse_duration now).mongo_uri) _
              (connect-Safe x base (load env parse_duration now).mongo_uri)
              (started-Safe x base "kafka producer init failed"
                (new_producer (split_commas brokers)) _
                (new_producer-Safe x base (split_commas brokers))
                (started-Safe x base "kafka consumer init failed"
                  (new_consumer (split_commas brokers) job_type ("executor-" ++ job_type)) _
                  (new_consumer-Safe x base (split_commas brokers) job_type
                    ("executor-" ++ job_type))
                  (finally-Safe x base (work rounds (executor_runner (load env parse_duration now)))
                    close_executor (work-Safe x base rounds _ (register_all-AllSafe x base))
                    (close_executor-Safe x base)))))))

  pub reaper_main-Safe :
      (rounds : ℕ) (env : Env) (parse_duration : String → Option Duration)
      → Safe x base (reaper_main rounds env parse_duration) (Any x base)
  unfolding reaper_main
  reaper_main-Safe rounds env parse_duration =
      quiet-Safe x base time_now (λ r s s' e. e)
        (λ now.
          started-Safe x base "mongo connect failed"
            (connect (load env parse_duration now).mongo_uri) _
            (connect-Safe x base (load env parse_duration now).mongo_uri)
            (let cfg = load env parse_duration now in
              finally-Safe x base (reap rounds cfg.claim_timeout cfg.queued_timeout) disconnect
                (reap-Safe x base rounds cfg.claim_timeout cfg.queued_timeout)
                (disconnect-Safe x base)))

  pub indexed-Safe :
      (rest : Prog Exit)
      → Safe x base rest (Any x base)
      → Safe x base
          (ensure_indexes >>= λ r. or_fatal "index creation failed" rest (error_of r))
          (Any x base)
  indexed-Safe rest h =
      bind-Safe x base ensure_indexes _ (ensure_indexes-Safe x base)
        (λ r. or_fatal-Safe x base _ rest (error_of r) h)

  pub api_main-Safe :
      (env : Env) (parse_duration : String → Option Duration)
      → Safe x base (api_main env parse_duration) (Any x base)
  unfolding api_main
  api_main-Safe env parse_duration =
      quiet-Safe x base time_now (λ r s s' e. e)
        (λ now.
          started-Safe x base "mongo connect failed"
            (connect (load env parse_duration now).mongo_uri) _
            (connect-Safe x base (load env parse_duration now).mongo_uri)
            (indexed-Safe (ret Exit.running) tt))

  pub serve-Safe : (r : Request) → Safe x base (serve r) (Any x base)
  unfolding serve serve_jobs serve_job
  serve-Safe r =
      test-Safe x base (str_eq r.path "/jobs") _ _ (Any x base)
        (test-Safe x base (str_eq r.method "POST") _ _ (Any x base) (create_job-Safe x base r.body)
          (test-Safe x base (str_eq r.method "GET") _ _ (Any x base)
            (list_jobs-Safe x base r.tenant_id r.status (parse_int r.limit)) tt))
        (below (strip_prefix "/jobs/" r.path))
    where
      below :
          (rest : Option String)
          → Safe x base
              (elim rest [
                | some id ↦ elim (str_eq r.method "GET") [
                  | false ↦ ret method_not_allowed
                  | true ↦ get_job id
                ]
                | none ↦ serve_other r
              ])
              (Any x base)
      below (some id) =
          test-Safe x base (str_eq r.method "GET") _ _ (Any x base) (get_job-Safe x base id) tt
      below none = test-Safe x base (str_eq r.path "/healthz") _ _ (Any x base) tt tt
