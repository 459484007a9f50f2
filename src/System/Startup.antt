-- ===== src/System/Startup.antt =====
-- What the services do before and after their loops, and the election, keep the invariant.
use high_scale_job_scheduler.Prelude.{
  ℕ, zero, suc, ℤ, pos, ◌≡◌, String, Bool, true, false, List, Option, none, some, str_eq,
}
use high_scale_job_scheduler.Errors.{Error, Result, ok, err}
use high_scale_job_scheduler.Effects.{
  Cmd, Reply, Prog, ◌>>=◌, mongo_connect, mongo_ping, mongo_disconnect, kafka_client, close_kafka,
  etcd_client, new_session, close_etcd, close_session, campaign, resign, context_done, time_sleep,
}
use high_scale_job_scheduler.Effects.World.{View, Codec, Effect}
use high_scale_job_scheduler.Config.{Env}
use high_scale_job_scheduler.Topics.{dispatch_topic}
use high_scale_job_scheduler.Dispatch.{new_producer, new_consumer}
use high_scale_job_scheduler.Dispatch as dispatch
use high_scale_job_scheduler.Election.{
  LeaderElector, new_leader_elector, run_as_leader, step_down, after_term, retry_delay, lead,
}
use high_scale_job_scheduler.Election as election
use high_scale_job_scheduler.Services.{
  Exit, connect, or_fatal, with_env, finally, disconnect, close_scheduler, after_election,
  close_executor,
}
use high_scale_job_scheduler.Scheduler.{run_loop}
use high_scale_job_scheduler.System.Keeps.{Keeps-bind}
use high_scale_job_scheduler.System.Integrity.{Base, Inv, same-Inv}
use high_scale_job_scheduler.System.Repository.{Safe, Any}
use high_scale_job_scheduler.System.Handlers.{test-Safe}
use high_scale_job_scheduler.System.Schedulers.{run_loop-Safe}

module _ (x : Codec) (base : Base) where
  pub bind-Safe :
      {A B : Type 0} (m : Prog A) (f : A → Prog B)
      → Safe x base m (Any x base)
      → ((a : A) → Safe x base (f a) (Any x base))
      → Safe x base (m >>= f) (Any x base)
  bind-Safe m f h k = Keeps-bind x (Inv x base) m f (Any x base) (Any x base) h (λ a _. k a)

  -- A command that changes nothing that can be seen; `P` is what follows it.
  pub quiet-Safe :
      (c : Cmd) {P : Reply c → Type 0}
      → ((r : Reply c) (s s' : View) → Effect x c r s s' → s' ≡ s)
      → ((r : Reply c) → P r)
      → (r : Reply c) (s s' : View) → Inv x base s
      → Effect x c r s s'
      → Inv x base s' × P r
  quiet-Safe c h rest = λ r s s' i e. (same-Inv x base s s' i (h r s s' e), rest r)

  pub connect-Safe : (uri : String) → Safe x base (connect uri) (Any x base)
  unfolding connect
  connect-Safe uri =
      quiet-Safe (mongo_connect uri) (λ r s s' e. e)
        (elim [ err e ↦ tt | ok _ ↦ quiet-Safe mongo_ping (λ r s s' e. e) (λ _. tt) ])

  pub or_fatal-Safe :
      (text : String) (rest : Prog Exit) (e : Option Error)
      → Safe x base rest (Any x base)
      → Safe x base (or_fatal text rest e) (Any x base)
  or_fatal-Safe text rest none h = h
  or_fatal-Safe text rest (some e) h = tt

  -- A part that answers an error or none, and what follows if it is none.
  pub started-Safe :
      (text : String) (m : Prog (Option Error)) (rest : Prog Exit)
      → Safe x base m (Any x base)
      → Safe x base rest (Any x base)
      → Safe x base (m >>= or_fatal text rest) (Any x base)
  started-Safe text m rest h k =
      bind-Safe m (or_fatal text rest) h (λ e. or_fatal-Safe text rest e k)

  pub with_env-Safe :
      (env : Env) (key : String) (rest : String → Prog Exit)
      → ((value : String) → Safe x base (rest value) (Any x base))
      → Safe x base (with_env env key rest) (Any x base)
  with_env-Safe env key rest h =
      test-Safe x base (str_eq (env key) "") _ _ (Any x base) tt (h (env key))

  pub finally-Safe :
      (loop : Prog Bool) (deferred : Prog Exit)
      → Safe x base loop (Any x base)
      → Safe x base deferred (Any x base)
      → Safe x base (loop >>= finally deferred) (Any x base)
  finally-Safe loop deferred h k =
      bind-Safe loop (finally deferred) h (elim [ false ↦ tt | true ↦ k ])

  pub new_producer-Safe : (brokers : List String) → Safe x base (new_producer brokers) (Any x base)
  unfolding new_producer
  new_producer-Safe brokers =
      quiet-Safe (kafka_client brokers none) (λ r s s' e. e) (elim [ err e ↦ tt | ok _ ↦ tt ])

  pub new_consumer-Safe :
      (brokers : List String) (job_type group_id : String)
      → Safe x base (new_consumer brokers job_type group_id) (Any x base)
  unfolding new_consumer
  new_consumer-Safe brokers job_type group_id =
      quiet-Safe (kafka_client brokers (some (group_id, dispatch_topic job_type))) (λ r s s' e. e)
        (elim [ err e ↦ tt | ok _ ↦ tt ])

  pub new_leader_elector-Safe :
      (endpoints : List String) (node_id : String) (lease_ttl : ℤ)
      → Safe x base (new_leader_elector endpoints node_id lease_ttl) (Any x base)
  unfolding new_leader_elector
  new_leader_elector-Safe endpoints node_id lease_ttl =
      quiet-Safe (etcd_client endpoints) (λ r s s' e. e)
        (elim [
          | err e ↦ tt
          | ok _ ↦
              quiet-Safe (new_session lease_ttl) (λ r s s' e. e)
                (elim [ err e ↦ quiet-Safe close_etcd (λ r s s' e. e) (λ _. tt) | ok _ ↦ tt ])
        ])

  pub run_as_leader-Safe :
      (le : LeaderElector) (on_leading : Prog Bool)
      → Safe x base on_leading (Any x base)
      → Safe x base (run_as_leader le on_leading) (Any x base)
  unfolding run_as_leader
  run_as_leader-Safe le on_leading h =
      quiet-Safe (campaign le.node_id) (λ r s s' e. e)
        (elim [
          | err e ↦ tt
          | ok _ ↦
              bind-Safe on_leading step_down h
                (elim [ false ↦ tt | true ↦ quiet-Safe resign (λ r s s' e. e) (λ _. tt) ])
        ])

  pub after_term-Safe :
      (r : Result Bool) (again : Prog Bool)
      → Safe x base again (Any x base)
      → Safe x base (after_term r again) (Any x base)
  after_term-Safe (ok false) again h = tt
  after_term-Safe (ok true) again h = h
  after_term-Safe (err e) again h =
      quiet-Safe context_done (λ r s s' e. e)
        (elim [ true ↦ h | false ↦ quiet-Safe (time_sleep retry_delay) (λ r s s' e. e) (λ _. h) ])

  pub lead-Safe :
      (terms rounds : ℕ) (le : LeaderElector) (batch_size : ℤ)
      → Safe x base (lead terms rounds le batch_size) (Any x base)
  unfolding lead
  lead-Safe zero rounds le batch_size = tt
  lead-Safe (suc terms) rounds le batch_size =
      quiet-Safe context_done (λ r s s' e. e)
        (elim [
          | true ↦ tt
          | false ↦
              bind-Safe (run_as_leader le (run_loop rounds batch_size)) _
                (run_as_leader-Safe le _ (run_loop-Safe x base rounds batch_size))
                (λ r. after_term-Safe r _ (lead-Safe terms rounds le batch_size))
        ])

  pub disconnect-Safe : Safe x base disconnect (Any x base)
  disconnect-Safe = quiet-Safe mongo_disconnect (λ r s s' e. e) (λ _. tt)

  pub close_executor-Safe : Safe x base close_executor (Any x base)
  unfolding dispatch.close
  close_executor-Safe = quiet-Safe close_kafka (λ r s s' e. e) (λ _. disconnect-Safe)

  pub close_scheduler-Safe : Safe x base close_scheduler (Any x base)
  unfolding election.close
  close_scheduler-Safe =
      quiet-Safe close_session (λ r s s' e. e)
        (elim [
          | err e ↦ quiet-Safe close_etcd (λ r s s' e. e) (λ _. close_executor-Safe)
          | ok _ ↦ quiet-Safe close_etcd (λ r s s' e. e) (λ _. close_executor-Safe)
        ])

  pub after_election-Safe :
      (terms rounds : ℕ) (r : Result LeaderElector)
      → Safe x base (after_election terms rounds r) (Any x base)
  after_election-Safe terms rounds (err e) = tt
  after_election-Safe terms rounds (ok le) =
      finally-Safe (lead terms rounds le (pos 20)) close_scheduler
        (lead-Safe terms rounds le (pos 20)) close_scheduler-Safe
