-- ===== src/Examples/Startup.antt =====
-- Examples for the services from their start to their end, and for the load test.
use high_scale_job_scheduler.Prelude.{
  List, [], ◌∷◌, refl, ◌≤◌, ◌≡◌, ◌≢◌, String, Option, none, some, arith, pos, Option-cases, inl,
  inr, ◌&&◌, not, Bool-cases, add_pos, ltb_ℤ, ap, str_eq, ◌+ℤ◌, true,
}
use high_scale_job_scheduler.Models.{Duration}
use high_scale_job_scheduler.Effects.{
  Cmd, Reply, campaign, create_indexes, insert_one, find_one, update_one,
}
use high_scale_job_scheduler.Effects.World.{World, Effect, run, stored, declares_key}
use high_scale_job_scheduler.Effects.Memory.{
  Memory, answer, keys_unique, key_used, first_of_docs, change_first,
}
use high_scale_job_scheduler.Effects.Memory.Lawful.{memory, reply, codec, reply-Lawful}
use high_scale_job_scheduler.Errors.{err, foreign}
use high_scale_job_scheduler.Election.{LeaderElector, lead}
use high_scale_job_scheduler.Election.Standby.{Unelectable}
use high_scale_job_scheduler.Election.Standby
use high_scale_job_scheduler.LoadTest.{CreatedJob, completion_phase}
use high_scale_job_scheduler.LoadTest.Accounting
use mathlib.Core.Option
use high_scale_job_scheduler.LoadTest.Latency.{
  print_latency_stats, percentile, sort_durations, insert_sorted, at_or_last, percentile_index,
}
use high_scale_job_scheduler.LoadTest.Latency.Statistics
use high_scale_job_scheduler.LoadTest.Latency.Statistics.{Reports}
use high_scale_job_scheduler.LoadTest.Accounting.{Accounts, Truthful}
use high_scale_job_scheduler.LoadTest.Settling
use high_scale_job_scheduler.LoadTest.Settling.{AnswersAll, Settles}
use Prim.Native.String.{◌++◌ as ◌<>◌}
use high_scale_job_scheduler.Config.{Env}
use high_scale_job_scheduler.Services.{scheduler_main, executor_main, reaper_main, running}
use high_scale_job_scheduler.Services.Rounds.{ContextEnds}
use high_scale_job_scheduler.Services.Termination
use high_scale_job_scheduler.Examples.Data.{memory_of, backlog, view_of}

-- The context of the world in memory ends when no ticks are left.
ticks_not_more : (c : Cmd) (m : Memory) → (reply c m).1.ticks ≤ m.ticks
unfolding answer
ticks_not_more (create_indexes ixs) m =
    elim (Bool-cases (declares_key ixs && not (keys_unique m.view.docs))) [
      | inl e ↦ rw (e, answer) (omega arith)
      | inr e ↦ rw (e, answer) (omega arith)
    ]
ticks_not_more (insert_one j) m =
    elim (Bool-cases (m.view.key_index && key_used j.idempotency_key m.view.docs)) [
      | inl e ↦ rw (e, answer) (omega arith)
      | inr e ↦ rw (e, answer) (omega arith)
    ]
ticks_not_more (find_one p) m = elim (Option-cases (first_of_docs p m.view.docs)) [
  | inl e ↦ rw (e, answer) (omega arith)
  | inr (j, e) ↦ rw (e, answer) (omega arith)
]
ticks_not_more (update_one p f) m =
    elim (Option-cases (change_first p (λ j. stored codec (f j)) m.view.docs)) [
      | inl e ↦ rw (e, answer) (omega arith)
      | inr (j, e) ↦ rw (e, answer) (omega arith)
    ]
ticks_not_more _ m = ground arith

ends : ContextEnds memory
unfolding answer
ends = record {
  left = λ m. m.ticks;
  not_more = ticks_not_more;
  at_tick = λ m e. ground arith;
  at_test = λ m e. ground arith;
}

abbrev env : Env
env key = "x"

abbrev no_durations : String → Option Duration
no_durations s = none

services-End_example :
    ((run memory (scheduler_main 5 6 env no_durations) (memory_of backlog)).0 ≢ running)
    × ((run memory (executor_main 6 env no_durations) (memory_of backlog)).0 ≢ running)
    × ((run memory (reaper_main 6 env no_durations) (memory_of backlog)).0 ≢ running)
unfolding ends
services-End_example =
    Termination.services-End memory ends (memory_of backlog) 5 6 env no_durations (omega arith)
      (omega arith)

-- The world in memory, where every campaign fails.
abbrev outside : (c : Cmd) → Memory → Reply c × Memory
outside (campaign node_id) m = (err (foreign 5), m)
outside c m = reply c m

outside-Lawful : (c : Cmd) (m : Memory) → Effect codec c (outside c m).0 m.view (outside c m).1.view
outside-Lawful (campaign node_id) m = refl
outside-Lawful c m = reply-Lawful c m

abbrev no_leader : World
no_leader = record {
  codec = codec;
  State = Memory;
  view = λ m. m.view;
  exec = outside;
  lawful = outside-Lawful;
}

abbrev elector : LeaderElector
elector = record { node_id = "scheduler-a"; lease_ttl = pos 10 }

unelectable : Unelectable no_leader elector
unelectable = record { Out = λ m. Unit; stays = λ c m o. tt; refused = λ m o. (foreign 5, refl) }

lead_unelected_example :
    (run no_leader (lead 3 2 elector (pos 20)) (memory_of backlog)).1.view ≡ view_of backlog
unfolding unelectable
lead_unelected_example =
    Standby.lead_unelected no_leader elector unelectable (memory_of backlog) tt 3 2 (pos 20)

-- Two jobs of which the server says that they are completed.
abbrev two_jobs : List CreatedJob
two_jobs = record { id = "a"; created_at = pos 0 } ∷ record { id = "b"; created_at = pos 0 } ∷ []

-- The world in memory answers that every job is completed.
memory-Truthful : Truthful memory "http://api" (λ id. "completed")
unfolding answer
memory-Truthful m id replied rec e code body last = ground (arith, e, body)

completion_phase-Accounts_example :
    Accounts
      (λ id. "completed")
      two_jobs
      (run memory (completion_phase 3 "http://api" two_jobs (pos 120000000000)) (memory_of [])).0
completion_phase-Accounts_example =
    Accounting.completion_phase-Accounts memory (memory_of []) 3 "http://api" two_jobs
      (pos 120000000000) (λ id. "completed") memory-Truthful

memory-AnswersAll : AnswersAll memory "http://api" (λ id. "completed")
unfolding answer
memory-AnswersAll m id =
    (record { id = "http://api" <> "/jobs/" <> id; status = "completed" }, refl, refl, inl refl)

before_deadline :
    ltb_ℤ (pos 10000000000 +ℤ pos 1000000000) (pos 10000000000 +ℤ pos 120000000000) ≡ true
before_deadline = rw (add_pos 10000000000 1000000000, add_pos 10000000000 120000000000) refl

completion_phase-Settles_example :
    Settles
      (λ id. "completed")
      two_jobs
      (run memory (completion_phase 3 "http://api" two_jobs (pos 120000000000)) (memory_of [])).0
unfolding answer
completion_phase-Settles_example =
    Settling.completion_phase-Settles memory (memory_of []) 2 "http://api" two_jobs
      (pos 120000000000) (λ id. "completed") memory-AnswersAll
      (((λ e. ground (arith, ap (λ k. str_eq k "a") e)), tt), (tt, tt)) refl before_deadline

-- Seven latencies, in no order.
abbrev latencies : List Duration
latencies = pos 30 ∷ pos 10 ∷ pos 70 ∷ pos 20 ∷ pos 60 ∷ pos 50 ∷ pos 40 ∷ []

print_latency_stats-Reports_example : Reports latencies (print_latency_stats latencies)
print_latency_stats-Reports_example = Statistics.print_latency_stats-Reports latencies

median_test : Option.map (λ st. st.p50) (print_latency_stats latencies) ≡ some (pos 40)
unfolding print_latency_stats percentile percentile_index sort_durations insert_sorted at_or_last
median_test = refl
