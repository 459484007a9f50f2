-- ===== src/Election.antt =====
-- internal/scheduler/election.go, and the loop of cmd/scheduler/main.go around it. The etcd client,
-- the session and the election of an elector are the world's.
pub mod Standby
use high_scale_job_scheduler.Prelude.{
  ℕ, zero, suc, ℤ, pos, String, Bool, true, false, List, Option, some,
}
use high_scale_job_scheduler.Errors.{
  Error, Result, ok, err, etcd_client_init, etcd_session_init, campaign_failed,
}
use high_scale_job_scheduler.Effects.{
  Prog, ret, ask, ◌>>=◌, etcd_client, new_session, close_etcd, close_session, campaign, resign,
  context_done, time_sleep,
}
use high_scale_job_scheduler.Store.{error_of}
use high_scale_job_scheduler.Scheduler.{run_loop}

pub record LeaderElector : Type 0 where
  pub node_id : String
  pub lease_ttl : ℤ

unfoldable pub new_leader_elector : List String → String → ℤ → Prog (Result LeaderElector)
new_leader_elector endpoints node_id lease_ttl = ask (etcd_client endpoints) >>= λ r. elim r [
  | err e ↦ ret (err (etcd_client_init e))
  | ok _ ↦ ask (new_session lease_ttl) >>= λ r'. elim r' [
    | err e ↦ ask close_etcd >>= λ _. ret (err (etcd_session_init e))
    | ok _ ↦ ret (ok (record { node_id = node_id; lease_ttl = lease_ttl }))
  ]
]

-- After `onLeading`: an error of the resignation is only logged. If the rounds that `on_leading` is
-- given run out, it answers `false`, and nothing follows.
abbrev pub step_down : Bool → Prog (Result Bool)
step_down false = ret (ok false)
step_down true = ask resign >>= λ _. ret (ok true)

-- `RunAsLeader`. The goroutine that watches the session ends the context of `on_leading`, whose
-- answers are the world's.
unfoldable pub run_as_leader : LeaderElector → Prog Bool → Prog (Result Bool)
run_as_leader le on_leading = ask (campaign le.node_id) >>= λ r. elim r [
  | err e ↦ ret (err (campaign_failed e))
  | ok _ ↦ on_leading >>= step_down
]

-- `LeaderElector.Close`.
unfoldable pub close : Prog (Option Error)
close = ask close_session >>= λ r. elim r [
  | err e ↦ ask close_etcd >>= λ _. ret (some e)
  | ok _ ↦ ask close_etcd >>= λ r'. ret (error_of r')
]

-- `time.Sleep` does not end with the context.
abbrev pub retry_delay : ℤ
retry_delay = pos 2000000000

-- After a term, or a campaign that failed.
abbrev pub after_term : Result Bool → Prog Bool → Prog Bool
after_term (ok false) again = ret false
after_term (ok true) again = again
after_term (err e) again = ask context_done >>= λ stopped. elim stopped [
  | true ↦ again
  | false ↦ ask (time_sleep retry_delay) >>= λ _. again
]

-- The loop of `main` of the scheduler, for at most `terms` campaigns and `rounds` ticks in each; it
-- answers whether it returned within them.
unfoldable pub lead : (terms rounds : ℕ) → LeaderElector → ℤ → Prog Bool
lead zero rounds le batch_size = ret false
lead (suc terms) rounds le batch_size = ask context_done >>= λ stopped. elim stopped [
  | true ↦ ret true
  | false ↦ run_as_leader le (run_loop rounds batch_size) >>= λ r.
      after_term r (lead terms rounds le batch_size)
]
