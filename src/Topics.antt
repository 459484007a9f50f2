-- ===== src/Topics.antt =====
-- internal/dispatch/topics.go: the Kafka topics and the message that travels on them.
use high_scale_job_scheduler.Prelude.{ℤ, String}
use Prim.Native.String.{◌++◌}

unfoldable pub dispatch_topic : String → String
dispatch_topic job_type = "jobs.dispatch." ++ job_type

abbrev pub retry_topic : String
retry_topic = "jobs.retry"

abbrev pub dlq_topic : String
dlq_topic = "jobs.dlq"

-- `job_id` is the hexadecimal text of an object id.
pub record DispatchMessage : Type 0 where
  pub job_id : String
  pub job_type : String
  pub priority : ℤ
