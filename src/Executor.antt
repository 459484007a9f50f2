-- ===== src/Executor.antt =====
-- internal/executor: registry.go and runner.go.
pub mod Handlers
pub mod Lookup
pub mod Registered
pub mod Backoff
pub mod Delivery
pub mod DeadLetter
pub mod Failing
pub mod Completion
pub mod Outcome
use high_scale_job_scheduler.Prelude.{
  ℕ, suc, ◌-◌, ℤ, pos, negsuc, String, Bool, true, false, ◌&&◌, ◌*◌, ◌^◌, List, [], ◌∷◌, Option,
  none, some, if◌then◌else◌, str_eq, leb, leb_ℤ, inc_int, ◌-ℤ◌,
}
use high_scale_job_scheduler.Float.{finite, pow_two, min_float, to_int}
use high_scale_job_scheduler.Errors.{Error, Result, ok, err, no_handler}
use high_scale_job_scheduler.Models.{Job, Payload, Time, Duration}
use high_scale_job_scheduler.Effects.{
  Prog, ret, ask, ◌>>=◌, ◌>>◌, hex, count, time_now, executor_job_duration, jobs_processed_success,
  jobs_processed_failure,
}
use high_scale_job_scheduler.Store.{mark_claimed, mark_running, mark_completed, mark_failed}
use high_scale_job_scheduler.Dispatch.{publish_dlq}

-- A handler's context is the world's: a call under it may answer that it ended.
abbrev pub Handler : Type 0
Handler = Payload → Prog (Option Error)

-- The map of handlers; its lock guards single reads and writes.
pub record Registry : Type 0 where
  pub handlers : List (String × Handler)

unfoldable pub new_registry : Registry
new_registry = record { handlers = [] }

unfoldable pub put : String → Handler → List (String × Handler) → List (String × Handler)
put key h [] = (key, h) ∷ []
put key h ((k, g) ∷ hs) = if str_eq k key then (key, h) ∷ hs else (k, g) ∷ put key h hs

unfoldable pub find : String → List (String × Handler) → Option Handler
find key [] = none
find key ((k, g) ∷ hs) = if str_eq k key then some g else find key hs

unfoldable pub register : Registry → String → Handler → Registry
unfolding put
register r job_type h = record { handlers = put job_type h r.handlers }

abbrev pub handler_or : String → Option Handler → Result Handler
handler_or job_type none = err (no_handler job_type)
handler_or job_type (some h) = ok h

unfoldable pub get : Registry → String → Result Handler
unfolding find
get r job_type = handler_or job_type (find job_type r.handlers)

-- The runner's repository and metrics are the world's. `has_producer` is `Producer != nil`.
pub record Runner : Type 0 where
  pub registry : Registry
  pub worker_id : String
  pub has_producer : Bool

abbrev pub second : ℕ
second = 1000000000

-- `time.Duration(seconds) * time.Second`
abbrev times_second : ℤ → Duration
times_second (pos n) = pos (n * second)
times_second (negsuc n) = negsuc (suc n * second - 1)

-- `math.Min(math.Pow(2, float64(attempt)), 300)`, in seconds: no more than 300, so that the product with
-- a second is far from the bounds of an int64.
unfoldable pub exponential_backoff : ℤ → Duration
exponential_backoff attempt =
    times_second (to_int (min_float (pow_two attempt) (finite 300 (pos 0))))

abbrev pub is_exhausted : Job → Bool
is_exhausted job = leb_ℤ job.max_attempts (inc_int job.attempts)

-- `if exhausted && rn.Producer != nil { … }`
abbrev pub dead_letter_if : Bool → Job → Prog (Unit {0})
dead_letter_if false job = ret tt
dead_letter_if true job = do
  id ← ask (hex job.id)
  _ ← publish_dlq (record { job_id = id; job_type = job.job_type; priority = job.priority })
  ret tt

abbrev pub dead_letter : Runner → Job → Prog (Unit {0})
dead_letter rn job = dead_letter_if (is_exhausted job && rn.has_producer) job

-- What follows `MarkFailed`.
abbrev pub after_failure : Runner → Job → Option Error → Prog (Unit {0})
after_failure rn job (some _) = ret tt
after_failure rn job none = dead_letter rn job

unfoldable pub fail : Runner → Job → Error → Prog (Unit {0})
fail rn job cause = ask (count (jobs_processed_failure job.job_type)) >>= λ _.
    mark_failed job.id cause (exponential_backoff job.attempts) >>= after_failure rn job

-- The observation of the histogram, in nanoseconds.
abbrev pub observe_job : Job → Time → Prog (Unit {0})
observe_job job start =
    ask time_now >>= λ now. ask (count (executor_job_duration job.job_type (now -ℤ start)))

-- What follows the success of a handler.
abbrev pub complete_job : Job → Prog (Unit {0})
complete_job job =
    ask (count (jobs_processed_success job.job_type)) >>= λ _. mark_completed job.id >>= λ _. ret tt

-- What follows the handler's return.
abbrev pub finish : Runner → Job → Time → Option Error → Prog (Unit {0})
finish rn job start (some cause) = fail rn job cause
finish rn job start none = observe_job job start >>= λ _. complete_job job

abbrev pub run_handler : Runner → Job → Time → Result Handler → Prog (Unit {0})
run_handler rn job start (err cause) = fail rn job cause
run_handler rn job start (ok handler) = handler job.payload >>= finish rn job start

-- What follows `MarkRunning` and `MarkClaimed`.
abbrev pub after_start : Runner → Job → Time → Option Error → Prog (Unit {0})
after_start rn job start (some _) = ret tt
after_start rn job start none = run_handler rn job start (get rn.registry job.job_type)

abbrev pub after_claim : Runner → Job → Time → Option Error → Prog (Unit {0})
after_claim rn job start (some _) = ret tt
after_claim rn job start none = mark_running job.id >>= after_start rn job start

-- `Execute` once its start is read.
abbrev pub execute_from : Runner → Job → Time → Prog (Unit {0})
execute_from rn job start = mark_claimed job.id rn.worker_id >>= after_claim rn job start

unfoldable pub execute : Runner → Job → Prog (Unit {0})
execute rn job = ask time_now >>= execute_from rn job
