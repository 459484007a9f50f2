-- ===== src/Models.antt =====
-- internal/models/job.go: the job document and the request that creates it.
use high_scale_job_scheduler.Prelude.{
  ℕ, ℤ, negsuc, String, Bool, true, false, ◌≡◌, refl, List, Option, arith,
}
use high_scale_job_scheduler.Errors.{Error}

pub data JobStatus : Type 0 where
  pending queued claimed running completed failed dlq : JobStatus

unfoldable pub status_text : JobStatus → String
status_text pending = "pending"
status_text queued = "queued"
status_text claimed = "claimed"
status_text running = "running"
status_text completed = "completed"
status_text failed = "failed"
status_text dlq = "dlq"

abbrev pub status_eq : JobStatus → JobStatus → Bool
status_eq pending pending = true
status_eq queued queued = true
status_eq claimed claimed = true
status_eq running running = true
status_eq completed completed = true
status_eq failed failed = true
status_eq dlq dlq = true
status_eq _ _ = false

pub status_eq→eq : (a b : JobStatus) → status_eq a b ≡ true → a ≡ b
status_eq→eq pending b h = ground arith
status_eq→eq _ b h = ground arith

pub status_eq_refl : (a : JobStatus) → status_eq a a ≡ true
status_eq_refl pending = refl
status_eq_refl _ = refl

-- Nanoseconds since the Unix epoch.
abbrev pub Time : Type 0
Time = ℤ

-- Nanoseconds.
abbrev pub Duration : Type 0
Duration = ℤ

-- The zero `time.Time`, the first instant of year 1.
abbrev pub zero_time : Time
zero_time = negsuc 62135596799999999999

abbrev pub ObjectId : Type 0
ObjectId = ℕ

-- A dynamic value of a payload. A `float64` is its bit pattern; `other` is a value of a type that no
-- code tests for.
pub data Value : Type 0 where
  text : String → Value
  float64 : ℕ → Value
  other : Value

abbrev pub Payload : Type 0
Payload = List (String × Value)

-- `last_error` is the error whose text the field holds, `none` for the empty text.
pub record Job : Type 0 where
  pub id : ObjectId
  pub idempotency_key : String
  pub tenant_id : String
  pub job_type : String
  pub payload : Payload
  pub priority : ℤ
  pub status : JobStatus
  pub scheduled_at : Time
  pub cron : String
  pub claimed_by : String
  pub claimed_at : Option Time
  pub attempts : ℤ
  pub max_attempts : ℤ
  pub last_error : Option Error
  pub created_at : Time
  pub updated_at : Time

pub record CreateJobRequest : Type 0 where
  pub idempotency_key : String
  pub tenant_id : String
  pub job_type : String
  pub payload : Payload
  pub priority : ℤ
  pub scheduled_at : Time
  pub cron : String
  pub max_attempts : ℤ

-- No code makes or stores one.
pub record ExecutionRecord : Type 0 where
  pub id : ObjectId
  pub job_id : ObjectId
  pub attempt : ℤ
  pub started_at : Time
  pub finished_at : Time
  pub status : String
  pub error : String
  pub worker_id : String
