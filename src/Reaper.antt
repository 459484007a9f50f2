-- ===== src/Reaper.antt =====
-- cmd/reaper/main.go: the loop over the two sweeps.
use high_scale_job_scheduler.Prelude.{ℕ, zero, suc, Bool, true, false, Option, none, some}
use high_scale_job_scheduler.Models.{Duration}
use high_scale_job_scheduler.Errors.{Error}
use high_scale_job_scheduler.Effects.{
  Metric, Prog, ret, ask, ◌>>=◌, next_tick, count, reaper_recovered_execution,
  reaper_recovered_queued,
}
use high_scale_job_scheduler.Store.{sweep_stuck_jobs, sweep_stuck_queued_jobs}

-- A sweep that fails is only logged, and one that recovers nothing is not counted.
abbrev pub count_recovered : (ℕ → Metric) → ℕ → Option Error → Prog (Unit {0})
count_recovered metric n (some e) = ret tt
count_recovered metric zero none = ret tt
count_recovered metric (suc n) none = ask (count (metric (suc n))) >>= λ _. ret tt

-- One tick of the reaper.
unfoldable pub sweep_once : Duration → Duration → Prog (Unit {0})
sweep_once claim_timeout queued_timeout = sweep_stuck_jobs claim_timeout >>= λ (n, e).
    count_recovered reaper_recovered_execution n e >>= λ _.
    sweep_stuck_queued_jobs queued_timeout >>= λ (qn, qe).
    count_recovered reaper_recovered_queued qn qe

-- The loop of `main`, for at most the given number of rounds.
unfoldable pub reap : ℕ → Duration → Duration → Prog Bool
reap zero claim_timeout queued_timeout = ret false
reap (suc n) claim_timeout queued_timeout = ask next_tick >>= λ stopped. elim stopped [
  | true ↦ ret true
  | false ↦ sweep_once claim_timeout queued_timeout >>= λ _. reap n claim_timeout queued_timeout
]
