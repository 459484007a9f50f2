-- ===== src/System/Seeding.antt =====
-- The seeding of a collection keeps the invariant.
use high_scale_job_scheduler.Prelude.{
  ℕ, zero, suc, ℤ, String, Bool, true, false, Option, ◌==◌, ◌&&◌, not, ◌%◌,
}
use high_scale_job_scheduler.Models.{Duration}
use high_scale_job_scheduler.Effects.{time_now, rand_intn, rand_float64, mongo_disconnect}
use high_scale_job_scheduler.Effects.World.{Codec}
use high_scale_job_scheduler.Config.{Env, load}
use high_scale_job_scheduler.Services.{connect}
use high_scale_job_scheduler.Seed.{
  Counts, Flags, seed_payload, seed_schedule, seed_job, seed_jobs, seed_template, seed_templates,
  seed_all, seeded, seed_main, unix_seconds, no_counts, count_created,
}
use high_scale_job_scheduler.Store.{create}
use high_scale_job_scheduler.System.Integrity.{Base}
use high_scale_job_scheduler.System.Repository.{Safe, Any, create-Safe}
use high_scale_job_scheduler.System.Handlers.{test-Safe}
use high_scale_job_scheduler.System.Startup.{
  bind-Safe, quiet-Safe, started-Safe, connect-Safe, disconnect-Safe,
}
use high_scale_job_scheduler.System.Services.{indexed-Safe}

module _ (x : Codec) (base : Base) where
  seed_payload-Safe :
      (i : ℕ) (tenant : String) (is_flaky : Bool)
      → Safe x base (seed_payload i tenant is_flaky) (Any x base)
  unfolding seed_payload
  seed_payload-Safe i tenant is_flaky = test-Safe x base is_flaky _ _ (Any x base) tt (
      test-Safe x base (i % 3 == 0) _ _ (Any x base)
        (quiet-Safe x base (rand_intn 2000) (λ r s s' e. e.1) (λ n. tt)) tt)

  seed_schedule-Safe : (is_future : Bool) → Safe x base (seed_schedule is_future) (Any x base)
  unfolding seed_schedule
  seed_schedule-Safe true =
      quiet-Safe x base time_now (λ r s s' e. e)
        (λ now. quiet-Safe x base (rand_intn 60) (λ r s s' e. e.1) (λ n. tt))
  seed_schedule-Safe false =
      quiet-Safe x base time_now (λ r s s' e. e)
        (λ now. quiet-Safe x base (rand_intn 30) (λ r s s' e. e.1) (λ n. tt))

  seed_job-Safe :
      (run_id : ℤ) (tenants flaky_rate i : ℕ) (c : Counts)
      → Safe x base (seed_job run_id tenants flaky_rate i c) (Any x base)
  unfolding seed_job
  seed_job-Safe run_id tenants flaky_rate i c =
      quiet-Safe x base rand_float64 (λ r s s' e. e)
        (λ f.
          quiet-Safe x base rand_float64 (λ r s s' e. e)
            (λ u. bind-Safe x base (seed_payload _ _ _) _ (seed_payload-Safe _ _ _) (λ kind.
              bind-Safe x base (seed_schedule _) _ (seed_schedule-Safe _) (λ at.
                quiet-Safe x base (rand_intn 10) (λ r s s' e. e.1)
                  (λ priority. bind-Safe x base (create _) _ (create-Safe x base _) (λ r. tt))))))

  seed_jobs-Safe :
      (run_id : ℤ) (tenants flaky_rate n i : ℕ) (c : Counts)
      → Safe x base (seed_jobs run_id tenants flaky_rate n i c) (Any x base)
  unfolding seed_jobs
  seed_jobs-Safe run_id tenants flaky_rate zero i c = tt
  seed_jobs-Safe run_id tenants flaky_rate (suc n) i c =
      bind-Safe x base (seed_job run_id tenants flaky_rate i c) _
        (seed_job-Safe run_id tenants flaky_rate i c)
        (seed_jobs-Safe run_id tenants flaky_rate n (suc i))

  seed_template-Safe :
      (run_id : ℤ) (tenants i : ℕ) → Safe x base (seed_template run_id tenants i) (Any x base)
  unfolding seed_template
  seed_template-Safe run_id tenants i =
      quiet-Safe x base time_now (λ r s s' e. e) (λ now. create-Safe x base _)

  seed_templates-Safe :
      (run_id : ℤ) (tenants n i made : ℕ)
      → Safe x base (seed_templates run_id tenants n i made) (Any x base)
  unfolding seed_templates
  seed_templates-Safe run_id tenants zero i made = tt
  seed_templates-Safe run_id tenants (suc n) i made =
      bind-Safe x base (seed_template run_id tenants i) _ (seed_template-Safe run_id tenants i)
        (λ r. seed_templates-Safe run_id tenants n (suc i) (count_created r made))

  seed_all-Safe : (flags : Flags) → Safe x base (seed_all flags) (Any x base)
  unfolding seed_all
  seed_all-Safe flags =
      quiet-Safe x base time_now (λ r s s' e. e)
        (λ now.
          bind-Safe x base
            (seed_jobs (unix_seconds now) flags.tenants flags.flaky_rate flags.count 0 no_counts) _
            (seed_jobs-Safe _ _ _ _ _ _)
            (λ c.
              bind-Safe x base
                (seed_templates (unix_seconds now) flags.tenants flags.cron_count 0 0) _
                (seed_templates-Safe _ _ _ _ _) (λ n. tt)))

  seeded-Safe : (flags : Flags) → Safe x base (seeded flags) (Any x base)
  seeded-Safe flags =
      test-Safe x base (flags.tenants == 0 && not (flags.count == 0 && flags.cron_count == 0)) _ _
        (Any x base)
        (quiet-Safe x base time_now (λ r s s' e. e)
          (λ _. quiet-Safe x base mongo_disconnect (λ r s s' e. e) (λ _. tt)))
        (bind-Safe x base (seed_all flags) _ (seed_all-Safe flags) (λ _. disconnect-Safe x base))

  pub seed_main-Safe :
      (flags : Flags) (env : Env) (parse_duration : String → Option Duration)
      → Safe x base (seed_main flags env parse_duration) (Any x base)
  unfolding seed_main
  seed_main-Safe flags env parse_duration =
      quiet-Safe x base time_now (λ r s s' e. e)
        (λ now.
          started-Safe x base "mongo connect failed"
            (connect (load env parse_duration now).mongo_uri) _
            (connect-Safe x base (load env parse_duration now).mongo_uri)
            (indexed-Safe x base (seeded flags) (seeded-Safe flags)))
