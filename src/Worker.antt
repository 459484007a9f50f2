-- ===== src/Worker.antt =====
-- cmd/executor/main.go: what an executor does with a message of its topic.
pub mod Arrival
use high_scale_job_scheduler.Prelude.{ℕ, Bool, Option, none, some}
use high_scale_job_scheduler.Errors.{Error, Result, ok, err}
use high_scale_job_scheduler.Models.{Job, ObjectId}
use high_scale_job_scheduler.Topics.{DispatchMessage}
use high_scale_job_scheduler.Effects.{Prog, ret, ask, ◌>>=◌, from_hex}
use high_scale_job_scheduler.Store.{get_by_id}
use high_scale_job_scheduler.Dispatch.{consume}
use high_scale_job_scheduler.Executor.{Runner, execute}

-- A job that cannot be read is skipped.
abbrev pub after_get : Runner → Result Job → Prog (Option Error)
after_get rn (err e) = ret none
after_get rn (ok job) = execute rn job >>= λ _. ret none

abbrev pub after_parse : Runner → Result ObjectId → Prog (Option Error)
after_parse rn (err e) = ret (some e)
after_parse rn (ok id) = get_by_id id >>= after_get rn

-- The handler that `main` gives to the consumer.
unfoldable pub handle_message : Runner → DispatchMessage → Prog (Option Error)
handle_message rn msg = ask (from_hex msg.job_id) >>= after_parse rn

-- `consumer.Run`, for at most the given number of rounds.
unfoldable pub work : ℕ → Runner → Prog Bool
work n rn = consume n (handle_message rn)
