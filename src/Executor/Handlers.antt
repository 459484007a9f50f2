-- ===== src/Executor/Handlers.antt =====
-- internal/executor/handlers/handlers.go: the job types. A `float64` is its bit pattern.
use high_scale_job_scheduler.Prelude.{
  ℕ, suc, ℤ, pos, negsuc, String, Bool, not, ◌&&◌, ◌+◌, ◌-◌, ◌*◌, ◌/◌, ◌%◌, ◌^◌, [], ◌∷◌, Option,
  none, some, ◌==◌, if◌then◌else◌, str_eq, ltb, leb,
}
use high_scale_job_scheduler.Errors.{Error, missing_message, flaky_failure}
use high_scale_job_scheduler.Models.{Value, text, float64, Payload, Duration}
use high_scale_job_scheduler.Executor.{Registry, register}
use high_scale_job_scheduler.Effects.{Prog, ret, ask, ◌>>=◌, rand_float64, sleep}

-- `payload[key]`; a key that is missing gives the nil value, whose assertions fail like those of
-- `other`.
unfoldable pub field : String → Payload → Value
field key [] = Value.other
field key ((k, v) ∷ vs) = if str_eq k key then v else field key vs

-- IEEE 754 double precision: sign, exponent and fraction of a bit pattern.
abbrev pub is_negative : ℕ → Bool
is_negative b = leb (2 ^ 63) b

abbrev pub magnitude : ℕ → ℕ
magnitude b = b % 2 ^ 63

abbrev pub is_nan : ℕ → Bool
is_nan b = ltb 0x7ff0000000000000 (magnitude b)

-- `a < b`: false if either is no number, and the two zeros are equal.
unfoldable pub float_lt : ℕ → ℕ → Bool
float_lt a b =
    not (is_nan a)
    && not (is_nan b)
    && (if is_negative a
        then (if is_negative b
            then ltb (magnitude b) (magnitude a)
            else not (magnitude a == 0 && magnitude b == 0))
        else not (is_negative b) && ltb (magnitude a) (magnitude b))

-- 0.5 and 500.0
abbrev pub half : ℕ
half = 0x3fe0000000000000

abbrev pub five_hundred : ℕ
five_hundred = 0x407f400000000000

-- The whole part of the magnitude of a normal number, 1.f * 2^(e - 1023).
abbrev whole : ℕ → ℕ → ℕ
whole e f = if leb 1075 e then (2 ^ 52 + f) * 2 ^ (e - 1075) else (2 ^ 52 + f) / 2 ^ (1075 - e)

-- The conversion of a `float64` to a 64-bit integer drops the fraction. (A value out of range, which
-- the language leaves to the machine, keeps its whole part here.)
unfoldable pub float_to_int : ℕ → ℤ
float_to_int b =
    let m = whole (magnitude b / 2 ^ 52) (magnitude b % 2 ^ 52) in
    if is_negative b && not (m == 0) then negsuc (m - 1) else pos m

unfoldable pub noop_handler : Payload → Prog (Option Error)
noop_handler payload = ret none

unfoldable pub log_message_handler : Payload → Prog (Option Error)
log_message_handler payload = elim (field "message" payload) [
  | text msg ↦ ret none
  | _ ↦ ret (some missing_message)
]

-- A number in the payload, or the default.
abbrev number_or : ℕ → Value → ℕ
number_or d (float64 b) = b
number_or d _ = d

unfoldable pub flaky_handler : Payload → Prog (Option Error)
flaky_handler payload =
    let fail_rate = number_or half (field "failRate" payload) in
    ask rand_float64 >>= λ r.
    ret (if float_lt r fail_rate then some (flaky_failure fail_rate) else none)

-- The 64-bit integer that an integer wraps to.
abbrev pub wrap_int : ℤ → ℤ
wrap_int (pos n) = let m = n % 2 ^ 64 in if ltb m (2 ^ 63) then pos m else negsuc (2 ^ 64 - 1 - m)
wrap_int (negsuc n) =
    let m = n % 2 ^ 64 in if ltb m (2 ^ 63) then negsuc m else pos (2 ^ 64 - 1 - m)

-- `time.Duration(ms) * time.Millisecond`, a product of 64-bit integers.
abbrev millis : ℤ → Duration
millis (pos n) = wrap_int (pos (n * 1000000))
millis (negsuc n) = wrap_int (negsuc (suc n * 1000000 - 1))

unfoldable pub slow_handler : Payload → Prog (Option Error)
slow_handler payload =
    ask (sleep (millis (float_to_int (number_or five_hundred (field "sleepMs" payload)))))

unfoldable pub register_all : Registry → Registry
unfolding noop_handler log_message_handler flaky_handler slow_handler
register_all r =
    let r1 = register r "noop" noop_handler in
    let r2 = register r1 "log-message" log_message_handler in
    let r3 = register r2 "flaky" flaky_handler in register r3 "slow" slow_handler
