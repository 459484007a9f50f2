-- ===== src/Seed.antt =====
-- cmd/seed/main.go: the jobs that fill a new collection. The flags are arguments; a negative `-count`
-- or `-cron` is 0 here, and a negative `-tenants`, which panics at once, is no input.
use high_scale_job_scheduler.Prelude.{
  ℕ, zero, suc, ℤ, pos, negsuc, String, Bool, true, false, [], ◌∷◌, Option, ◌+◌, ◌-◌, ◌*◌, ◌/◌, ◌%◌,
  ◌^◌, ◌==◌, not, ◌&&◌, if◌then◌else◌, leb, ◌+ℤ◌, ◌-ℤ◌, print_int, ◌≡◌, refl,
}
use Prim.Native.String.{◌++◌}
use high_scale_job_scheduler.Errors.{Result, ok, err}
use high_scale_job_scheduler.Models.{Job, Time, Duration, Payload, text, float64}
use high_scale_job_scheduler.Effects.{
  Prog, ret, ask, ◌>>=◌, time_now, rand_float64, rand_intn, mongo_disconnect,
}
use high_scale_job_scheduler.Store.{create, ensure_indexes, error_of}
use high_scale_job_scheduler.Config.{Env, load}
use high_scale_job_scheduler.Services.{Exit, panicked, or_fatal, connect, disconnect}
use high_scale_job_scheduler.Executor.Handlers.{float_lt}

-- A number below 2^53 times the power of two that brings it to 53 bits, and the bits that it had
-- more than one.
normalize : ℕ → ℕ → ℕ × ℕ
normalize zero m = (0, m)
normalize (suc e) m = let rest = normalize e (2 * m) in if leb (2 ^ 52) m then (suc e, m) else rest

-- The bits of `float64(n)`, for n below 2^53.
unfoldable pub float_of_nat : ℕ → ℕ
unfolding normalize
float_of_nat n =
    let (e, m) = normalize 52 n in if n == 0 then 0 else (e + 1023) * 2 ^ 52 + (m - 2 ^ 52)

float_of_nat_test : float_of_nat 300 ≡ 0x4072c00000000000
unfolding float_of_nat normalize
float_of_nat_test = refl

-- 0.6 and 0.25
abbrev pub fail_rate : ℕ
fail_rate = 0x3fe3333333333333

abbrev pub quarter : ℕ
quarter = 0x3fd0000000000000

-- `Time.Unix`: whole seconds, downwards.
abbrev pub unix_seconds : Time → ℤ
unix_seconds (pos n) = pos (n / 1000000000)
unix_seconds (negsuc n) = negsuc (n / 1000000000)

abbrev pub number : ℕ → String
number n = print_int (pos n)

-- `tenantIDs[i%len(tenantIDs)]`
abbrev pub tenant_of : ℕ → ℕ → String
tenant_of tenants i = "tenant-" ++ number (i % tenants)

-- The job type and the payload of a one-off job.
unfoldable pub seed_payload : ℕ → String → Bool → Prog (String × Payload)
seed_payload i tenant is_flaky = elim is_flaky [
  | true ↦ ret ("flaky", ("failRate", float64 fail_rate) ∷ [])
  | false ↦ elim (i % 3 == 0) [
    | true ↦ ask (rand_intn 2000) >>= λ n.
        ret ("slow", ("sleepMs", float64 (float_of_nat (200 + n))) ∷ [])
    | false ↦
        ret
          ("log-message", ("message", text ("seeded job #" ++ number i ++ " for " ++ tenant)) ∷ [])
  ]
]

abbrev pub minute : ℕ
minute = 60000000000

abbrev pub second : ℕ
second = 1000000000

-- In the next hour, or in the half minute before now.
unfoldable pub seed_schedule : Bool → Prog Time
seed_schedule true =
    ask time_now >>= λ now. ask (rand_intn 60) >>= λ n. ret (now +ℤ pos ((1 + n) * minute))
seed_schedule false =
    ask time_now >>= λ now. ask (rand_intn 30) >>= λ n. ret (now -ℤ pos (n * second))

pub record Counts : Type 0 where
  pub created : ℕ
  pub immediate : ℕ
  pub future : ℕ
  pub flaky_created : ℕ

abbrev pub plus_if : Bool → ℕ → ℕ
plus_if true n = suc n
plus_if false n = n

abbrev pub count_planned : Bool → Bool → Counts → Counts
count_planned is_flaky is_future c = record c {
  immediate = if is_future then c.immediate else suc c.immediate;
  future = plus_if is_future c.future;
  flaky_created = plus_if is_flaky c.flaky_created;
}

-- A job that cannot be created is logged and passed over.
abbrev pub count_created : Result Job → ℕ → ℕ
count_created (ok job) n = suc n
count_created (err e) n = n

abbrev pub seed_key : String → ℤ → ℕ → String
seed_key prefix run_id i = prefix ++ print_int run_id ++ "-" ++ number i

-- One pass of the loop over the one-off jobs.
unfoldable pub seed_job : (run_id : ℤ) (tenants flaky_rate i : ℕ) → Counts → Prog Counts
seed_job run_id tenants flaky_rate i c = do
  f ← ask rand_float64
  u ← ask rand_float64
  let is_flaky = float_lt f flaky_rate
  let is_future = float_lt u quarter
  kind ← seed_payload i (tenant_of tenants i) is_flaky
  scheduled_at ← seed_schedule is_future
  priority ← ask (rand_intn 10)
  r ← create (record {
    idempotency_key = seed_key "seed-" run_id i;
    tenant_id = tenant_of tenants i;
    job_type = kind.0;
    payload = kind.1;
    priority = pos priority;
    scheduled_at = scheduled_at;
    cron = "";
    max_attempts = pos 3;
  })
  let planned = count_planned is_flaky is_future c
  ret (record planned { created = count_created r planned.created })

-- The jobs that remain, from the index on.
unfoldable pub seed_jobs : (run_id : ℤ) (tenants flaky_rate remaining i : ℕ) → Counts → Prog Counts
seed_jobs run_id tenants flaky_rate zero i c = ret c
seed_jobs run_id tenants flaky_rate (suc n) i c = seed_job run_id tenants flaky_rate i c >>= λ c'.
    seed_jobs run_id tenants flaky_rate n (suc i) c'

-- `cronExprs[i%len(cronExprs)]`
unfoldable pub cron_expr : ℕ → String
cron_expr i = if i % 3 == 0 then "* * * * *" else if i % 3 == 1 then "*/5 * * * *" else "0 * * * *"

unfoldable pub seed_template : (run_id : ℤ) (tenants i : ℕ) → Prog (Result Job)
seed_template run_id tenants i = do
  now ← ask time_now
  create (record {
    idempotency_key = seed_key "seed-cron-" run_id i;
    tenant_id = tenant_of tenants i;
    job_type = "log-message";
    payload =
        (
          "message",
          text (
              "recurring job #"
              ++ number i
              ++ " ("
              ++ cron_expr i
              ++ ") for "
              ++ tenant_of tenants i),
        )
        ∷ [];
    priority = pos 5;
    scheduled_at = now;
    cron = cron_expr i;
    max_attempts = pos 3;
  })

unfoldable pub seed_templates : (run_id : ℤ) (tenants remaining i created : ℕ) → Prog ℕ
seed_templates run_id tenants zero i created = ret created
seed_templates run_id tenants (suc n) i created = seed_template run_id tenants i >>= λ r.
    seed_templates run_id tenants n (suc i) (count_created r created)

pub record Flags : Type 0 where
  pub count : ℕ
  pub tenants : ℕ
  pub cron_count : ℕ
  pub flaky_rate : ℕ

abbrev pub no_counts : Counts
no_counts = record { created = 0; immediate = 0; future = 0; flaky_created = 0 }

-- The two loops, and the numbers that are logged.
unfoldable pub seed_all : Flags → Prog (Counts × ℕ)
seed_all flags = do
  now ← ask time_now
  c ← seed_jobs (unix_seconds now) flags.tenants flags.flaky_rate flags.count 0 no_counts
  n ← seed_templates (unix_seconds now) flags.tenants flags.cron_count 0 0
  ret (c, n)

-- Without a tenant, `i%len(tenantIDs)` panics in the first loop that has a pass; the deferred call
-- still runs.
abbrev pub seeded : Flags → Prog Exit
seeded flags = elim (flags.tenants == 0 && not (flags.count == 0 && flags.cron_count == 0)) [
  | true ↦ ask time_now >>= λ _. ask mongo_disconnect >>= λ _. ret panicked
  | false ↦ seed_all flags >>= λ _. disconnect
]

unfoldable pub seed_main : Flags → Env → (String → Option Duration) → Prog Exit
seed_main flags env parse_duration = ask time_now >>= λ now.
    let cfg = load env parse_duration now in
    connect cfg.mongo_uri
    >>= or_fatal "mongo connect failed"
        (ensure_indexes >>= λ r. or_fatal "index creation failed" (seeded flags) (error_of r))
