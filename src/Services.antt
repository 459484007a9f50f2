-- ===== src/Services.antt =====
-- The `main` functions of cmd/scheduler, cmd/executor, cmd/reaper and cmd/api, and
-- internal/store/mongo.go. The environment and the parser of durations are arguments; loops are
-- given a number of rounds.
pub mod Rounds
pub mod Termination
use high_scale_job_scheduler.Prelude.{
  ℕ, pos, String, Bool, true, false, Option, none, some, str_eq, split_commas,
}
use Prim.Native.String.{◌++◌}
use high_scale_job_scheduler.Errors.{Error, Result, ok, err}
use high_scale_job_scheduler.Models.{Duration}
use high_scale_job_scheduler.Effects.{
  Prog, ret, ask, ◌>>=◌, time_now, mongo_connect, mongo_ping, mongo_disconnect,
}
use high_scale_job_scheduler.Store.{error_of, ensure_indexes}
use high_scale_job_scheduler.Config.{Env, Config, load}
use high_scale_job_scheduler.Dispatch.{new_producer, new_consumer}
use high_scale_job_scheduler.Dispatch as dispatch
use high_scale_job_scheduler.Election.{LeaderElector, new_leader_elector, lead}
use high_scale_job_scheduler.Election as election
use high_scale_job_scheduler.Executor.{Runner, new_registry}
use high_scale_job_scheduler.Executor.Handlers.{register_all}
use high_scale_job_scheduler.Worker.{work}
use high_scale_job_scheduler.Reaper.{reap}

-- How a service ends: `log.Fatalf` for an error or a variable that is not set, or a return from
-- `main`, or a panic; `running` if the rounds ran out.
pub data Exit : Type 0 where
  fatal : String → Error → Exit
  missing_env : String → Exit
  panicked : Exit
  returned : Exit
  running : Exit

-- `Connect`: the ping checks that the server answers.
unfoldable pub connect : String → Prog (Option Error)
connect uri = ask (mongo_connect uri) >>= λ r. elim r [
  | err e ↦ ret (some e)
  | ok _ ↦ ask mongo_ping >>= λ r'. ret (error_of r')
]

-- `if err != nil { log.Fatalf(…) }`
abbrev pub or_fatal : String → Prog Exit → Option Error → Prog Exit
or_fatal text rest (some e) = ret (fatal text e)
or_fatal text rest none = rest

-- `requireEnv`.
abbrev pub with_env : Env → String → (String → Prog Exit) → Prog Exit
with_env env key rest = elim (str_eq (env key) "") [
  | true ↦ ret (missing_env key)
  | false ↦ rest (env key)
]

-- The deferred calls of a `main` run when its loop returns.
abbrev pub finally : Prog Exit → Bool → Prog Exit
finally deferred false = ret running
finally deferred true = deferred

abbrev pub disconnect : Prog Exit
disconnect = ask mongo_disconnect >>= λ _. ret returned

abbrev pub close_scheduler : Prog Exit
close_scheduler = election.close >>= λ _. dispatch.close >>= λ _. disconnect

abbrev pub after_election : (terms rounds : ℕ) → Result LeaderElector → Prog Exit
after_election terms rounds (err e) = ret (fatal "etcd leader elector init failed" e)
after_election terms rounds (ok le) = lead terms rounds le (pos 20) >>= finally close_scheduler

unfoldable pub scheduler_main : (terms rounds : ℕ) → Env → (String → Option Duration) → Prog Exit
scheduler_main terms rounds env parse_duration = ask time_now >>= λ now.
    let cfg = load env parse_duration now in
    connect cfg.mongo_uri
    >>= or_fatal "mongo connect failed" (
        with_env env "KAFKA_BROKERS" (λ brokers.
          new_producer (split_commas brokers)
          >>= or_fatal "kafka producer init failed" (
              with_env env "ETCD_ENDPOINTS" (λ endpoints.
                new_leader_elector (split_commas endpoints) cfg.worker_id (pos 10)
                >>= after_election terms rounds))))

abbrev pub close_executor : Prog Exit
close_executor = dispatch.close >>= λ _. disconnect

abbrev pub executor_runner : Config → Runner
executor_runner cfg = record {
  registry = register_all new_registry;
  worker_id = cfg.worker_id;
  has_producer = true;
}

unfoldable pub executor_main : (rounds : ℕ) → Env → (String → Option Duration) → Prog Exit
executor_main rounds env parse_duration = ask time_now >>= λ now.
    let cfg = load env parse_duration now in
    with_env env "JOB_TYPE" (λ job_type. with_env env "KAFKA_BROKERS" (λ brokers.
      connect cfg.mongo_uri
      >>= or_fatal "mongo connect failed" (
          new_producer (split_commas brokers)
          >>= or_fatal "kafka producer init failed" (
              new_consumer (split_commas brokers) job_type ("executor-" ++ job_type)
              >>= or_fatal "kafka consumer init failed"
                  (work rounds (executor_runner cfg) >>= finally close_executor)))))

unfoldable pub reaper_main : (rounds : ℕ) → Env → (String → Option Duration) → Prog Exit
reaper_main rounds env parse_duration = ask time_now >>= λ now.
    let cfg = load env parse_duration now in
    connect cfg.mongo_uri
    >>= or_fatal "mongo connect failed"
        (reap rounds cfg.claim_timeout cfg.queued_timeout >>= finally disconnect)

-- `main` of the API server up to `ListenAndServe`, which serves the requests until the process is
-- killed.
unfoldable pub api_main : Env → (String → Option Duration) → Prog Exit
api_main env parse_duration = ask time_now >>= λ now.
    let cfg = load env parse_duration now in
    connect cfg.mongo_uri
    >>= or_fatal "mongo connect failed"
        (ensure_indexes >>= λ r. or_fatal "index creation failed" (ret running) (error_of r))
