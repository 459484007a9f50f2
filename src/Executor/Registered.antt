-- ===== src/Executor/Registered.antt =====
-- internal/executor/handlers/handlers.go: what holds of the four handlers holds of a lookup among
-- them; they change nothing that can be seen.
use high_scale_job_scheduler.Prelude.{◌≡◌, refl, String, All, Option, none, some}
use high_scale_job_scheduler.Errors.{Error, ok}
use high_scale_job_scheduler.Models.{Value, text, Payload}
use high_scale_job_scheduler.Effects.{Prog, ret}
use high_scale_job_scheduler.Effects.World.{View, Codec, Ensures}
use high_scale_job_scheduler.Executor.{Handler, register, new_registry, get}
use high_scale_job_scheduler.Executor.Lookup.{register-All, get-All}
use high_scale_job_scheduler.Executor.Handlers.{
  register_all, noop_handler, log_message_handler, flaky_handler, slow_handler, field,
}

pub register_all-All {ℓ} :
    (P : Handler → Type ℓ)
    → P noop_handler
    → P log_message_handler
    → P flaky_handler
    → P slow_handler
    → All (λ (entry : String × Handler). P entry.1) (register_all new_registry).handlers
unfolding register_all new_registry
register_all-All P noop log_message flaky slow =
    let r0 = new_registry in
    let r1 = register r0 "noop" noop_handler in
    let r2 = register r1 "log-message" log_message_handler in
    let r3 = register r2 "flaky" flaky_handler in
    register-All P r3 "slow" slow_handler slow (
      register-All P r2 "flaky" flaky_handler flaky (
        register-All P r1 "log-message" log_message_handler log_message
          (register-All P r0 "noop" noop_handler noop tt)))

-- The log handler calls nothing.
pub log_message_handler-calls_nothing {ℓ} :
    (P : Prog (Option Error) → Type ℓ)
    → ((e : Option Error) → P (ret e))
    → (payload : Payload) → P (log_message_handler payload)
unfolding log_message_handler
log_message_handler-calls_nothing P h payload = by_value (field "message" payload)
  where
    by_value :
        (v : Value) → P (elim v [ text msg ↦ ret none | _ ↦ ret (some Error.missing_message) ])
    by_value (text msg) = h none
    by_value _ = h (some Error.missing_message)

-- A handler that changes nothing that can be seen, and answers as `P` allows.
abbrev pub IsQuiet : Codec → (Option Error → Type 0) → Handler → Type 0
IsQuiet x P h = (payload : Payload) (s : View) → Ensures x (h payload) s (λ e s'. (s' ≡ s) × P e)

pub register_all-IsQuiet :
    (x : Codec) (job_type : String) (h : Handler)
    → get (register_all new_registry) job_type ≡ ok h
    → IsQuiet x (λ _. Unit {0}) h
unfolding noop_handler flaky_handler slow_handler
register_all-IsQuiet x job_type h =
    get-All (IsQuiet x (λ _. Unit {0})) (register_all new_registry) job_type h (
      register_all-All (IsQuiet x (λ _. Unit {0})) (λ payload s. (refl, tt))
        (λ payload s.
          log_message_handler-calls_nothing (λ m. Ensures x m s (λ e s'. (s' ≡ s) × Unit {0}))
            (λ e. (refl, tt)) payload)
        (λ payload s r s' e. (e, tt)) (λ payload s r s' e. (e, tt)))
