-- ===== src/Examples/Executors.antt =====
-- Examples for executors that share a collection.
use high_scale_job_scheduler.Prelude.{[], ◌∷◌, refl, ◌≤◌, suc}
use high_scale_job_scheduler.Topics.{DispatchMessage}
use high_scale_job_scheduler.Config.{Config}
use high_scale_job_scheduler.Effects.World.{run}
use high_scale_job_scheduler.Effects.Memory.{unary}
use high_scale_job_scheduler.Effects.Memory.Lawful.{memory, codec}
use high_scale_job_scheduler.Services.{executor_runner}
use high_scale_job_scheduler.Worker.{handle_message}
use high_scale_job_scheduler.System.Pool.{here, run-PoolReach}
use high_scale_job_scheduler.System.Budget.{runs}
use high_scale_job_scheduler.System.Redelivery
use high_scale_job_scheduler.System.Redelivery.{Handling, handlings}
use high_scale_job_scheduler.Models.{Job, queued}
use high_scale_job_scheduler.Executor.{execute}
use high_scale_job_scheduler.Executor.Outcome
use high_scale_job_scheduler.Executor.Outcome.{ExecuteOutcome}
use high_scale_job_scheduler.Executor.Registered.{register_all-IsQuiet}
use high_scale_job_scheduler.Examples.Data.{job, memory_of, in_flight, in_flight-UniqueIds}
use high_scale_job_scheduler.Effects.{ret}
use high_scale_job_scheduler.Prelude.{pos}

abbrev settings : Config
settings = record {
  mongo_uri = "mongodb://localhost:27017";
  mongo_db = "job_scheduler";
  http_port = "8080";
  scheduler_tick = pos 1000000000;
  claim_timeout = pos 300000000000;
  queued_timeout = pos 30000000000;
  near_term_window = pos 300000000000;
  worker_id = "worker-a";
}

abbrev message : DispatchMessage
message = record { job_id = unary 4; job_type = "noop"; priority = pos 5 }

abbrev handling : Handling
handling = handle_message (executor_runner settings) message

-- The message of the queued job is handled twice.
run_at_most_once_example :
    runs (memory.view (run memory handling (run memory handling (memory_of in_flight)).1).1).counted
    ≤ suc (runs (memory.view (memory_of in_flight)).counted)
run_at_most_once_example =
    Redelivery.run_at_most_once codec 4 (memory.view (memory_of in_flight))
      (memory.view (run memory handling (run memory handling (memory_of in_flight)).1).1)
      ((settings, message) ∷ (settings, message) ∷ []) _ in_flight-UniqueIds (refl, (refl, tt))
      (run-PoolReach memory handling (ret (run memory handling (memory_of in_flight)).0 ∷ []) []
        (run memory handling (memory_of in_flight)).1
        (run-PoolReach memory handling [] (handling ∷ []) (memory_of in_flight) here))

abbrev queued_job : Job
queued_job = job 4 "d" queued (pos 5) (pos 2000000)

execute-ExecuteOutcome_example :
    ExecuteOutcome codec
      (executor_runner settings)
      queued_job
      queued_job
      (memory.view (memory_of in_flight))
      (λ h e. Unit {0})
      (memory.view
        (run memory (execute (executor_runner settings) queued_job) (memory_of in_flight)).1)
execute-ExecuteOutcome_example =
    Outcome.execute-ExecuteOutcome memory (memory_of in_flight) (executor_runner settings)
      queued_job queued_job (λ h e. Unit {0}) in_flight-UniqueIds refl refl refl
      (register_all-IsQuiet codec "noop")
