-- ===== src/Observability.antt =====
-- internal/observability/metrics.go: the collectors that a service registers, and the routes of its
-- metrics server. Prometheus keeps them.
use high_scale_job_scheduler.Prelude.{
  String, Bool, true, false, ◌||◌, List, [], ◌∷◌, str_eq, ◌≡◌, refl, if◌then◌else◌,
}
use high_scale_job_scheduler.Effects.{
  Metric, jobs_claimed, dispatch_errors, cron_instances_spawned, cron_invalid,
  jobs_processed_success, jobs_processed_failure, reaper_recovered_execution,
  reaper_recovered_queued, scheduler_tick_duration, executor_job_duration,
}

pub data Kind : Type 0 where
  counter histogram counter_vec histogram_vec : Kind

-- The default buckets of a histogram are the library's.
pub record Collector : Type 0 where
  pub kind : Kind
  pub name : String
  pub labels : List String

abbrev collector : Kind → String → List String → Collector
collector kind name labels = record { kind = kind; name = name; labels = labels }

-- What `NewMetrics` registers, in order.
abbrev pub new_metrics : List Collector
new_metrics =
    collector histogram "scheduler_tick_duration_seconds" []
    ∷ collector counter "scheduler_jobs_claimed_total" []
    ∷ collector counter "scheduler_dispatch_errors_total" []
    ∷ collector counter "scheduler_cron_instances_spawned_total" []
    ∷ collector counter "scheduler_cron_invalid_total" []
    ∷ collector counter_vec "executor_jobs_processed_total" ("job_type" ∷ "result" ∷ [])
    ∷ collector histogram_vec "executor_job_duration_seconds" ("job_type" ∷ [])
    ∷ collector counter_vec "reaper_recovered_jobs_total" ("sweep" ∷ [])
    ∷ []

unfoldable is_registered : String → List Collector → Bool
is_registered name [] = false
is_registered name (c ∷ cs) = str_eq c.name name || is_registered name cs

-- No name is registered twice.
are_distinct : List Collector → Bool
unfolding is_registered
are_distinct [] = true
are_distinct (c ∷ cs) =
    let rest = are_distinct cs in if is_registered c.name cs then false else rest

-- The collector and the label values of what a service counts.
abbrev pub counted_by : Metric → String × List String
counted_by (scheduler_tick_duration d) = ("scheduler_tick_duration_seconds", [])
counted_by (executor_job_duration job_type d) = ("executor_job_duration_seconds", job_type ∷ [])
counted_by (jobs_claimed n) = ("scheduler_jobs_claimed_total", [])
counted_by dispatch_errors = ("scheduler_dispatch_errors_total", [])
counted_by cron_instances_spawned = ("scheduler_cron_instances_spawned_total", [])
counted_by cron_invalid = ("scheduler_cron_invalid_total", [])
counted_by (jobs_processed_success job_type) =
    ("executor_jobs_processed_total", job_type ∷ "success" ∷ [])
counted_by (jobs_processed_failure job_type) =
    ("executor_jobs_processed_total", job_type ∷ "failure" ∷ [])
counted_by (reaper_recovered_execution n) = ("reaper_recovered_jobs_total", "execution" ∷ [])
counted_by (reaper_recovered_queued n) = ("reaper_recovered_jobs_total", "queued" ∷ [])

pub data MetricsPage : Type 0 where
  exposition : MetricsPage
  healthy : MetricsPage
  not_found : MetricsPage

-- The mux of `ServeMetrics`.
unfoldable pub serve_metrics : String → MetricsPage
serve_metrics path =
    if str_eq path "/metrics"
    then exposition
    else if str_eq path "/healthz"
    then healthy
    else not_found

-- What a service counts has a collector, with a value for each label.
counted_is_registered : (m : Metric) → is_registered (counted_by m).0 new_metrics ≡ true
unfolding is_registered
counted_is_registered (scheduler_tick_duration d) = refl
counted_is_registered (executor_job_duration job_type d) = refl
counted_is_registered (jobs_claimed n) = refl
counted_is_registered dispatch_errors = refl
counted_is_registered cron_instances_spawned = refl
counted_is_registered cron_invalid = refl
counted_is_registered (jobs_processed_success job_type) = refl
counted_is_registered (jobs_processed_failure job_type) = refl
counted_is_registered (reaper_recovered_execution n) = refl
counted_is_registered (reaper_recovered_queued n) = refl

new_metrics_test : are_distinct new_metrics ≡ true
unfolding are_distinct is_registered
new_metrics_test = refl
