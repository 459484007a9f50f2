-- ===== src/Examples/Data.antt =====
-- Jobs and collections for the examples.
use high_scale_job_scheduler.Prelude.{ℤ, pos, String, true, List, [], ◌∷◌, none, arith}
use high_scale_job_scheduler.Models.{
  Job, CreateJobRequest, JobStatus, ObjectId, Time, pending, queued, running, text,
}
use high_scale_job_scheduler.Effects.Docs.{UniqueIds}
use high_scale_job_scheduler.Effects.World.{View}
use high_scale_job_scheduler.Effects.Memory.{Memory}

-- A one-off job of a tenant.
abbrev pub job : ObjectId → String → JobStatus → ℤ → Time → Job
job i key status priority scheduled_at = record {
  id = i;
  idempotency_key = key;
  tenant_id = "acme";
  job_type = "noop";
  payload = ("message", text "hello") ∷ [];
  priority = priority;
  status = status;
  scheduled_at = scheduled_at;
  cron = "";
  claimed_by = "";
  claimed_at = none;
  attempts = pos 0;
  max_attempts = pos 3;
  last_error = none;
  created_at = pos 1000000;
  updated_at = pos 1000000;
}

abbrev pub view_of : List Job → View
view_of docs = record {
  docs = docs;
  key_index = true;
  dispatched = [];
  produced = [];
  counted = [];
}

-- Ten seconds past the epoch.
abbrev pub memory_of : List Job → Memory
memory_of docs = record { view = view_of docs; clock = pos 10000000000; ticks = 3 }

-- Two jobs that are due, the second of a higher priority, and one that is not.
abbrev pub backlog : List Job
backlog =
    job 1 "a" pending (pos 5) (pos 2000000)
    ∷ job 2 "b" pending (pos 9) (pos 3000000)
    ∷ job 3 "c" pending (pos 7) (pos 90000000000)
    ∷ []

-- A queued job, a running one and a recurring template that was claimed.
abbrev pub template : Job
template = record (job 6 "nightly" queued (pos 1) (pos 2000000)) { cron = "0 0 * * *" }

abbrev pub in_flight : List Job
in_flight =
    job 4 "d" queued (pos 5) (pos 2000000) ∷ job 5 "e" running (pos 5) (pos 2000000) ∷ template ∷ []

abbrev pub request : CreateJobRequest
request = record {
  idempotency_key = "f";
  tenant_id = "acme";
  job_type = "noop";
  payload = [];
  priority = pos 5;
  scheduled_at = pos 20000000000;
  cron = "";
  max_attempts = pos 0;
}

pub backlog-UniqueIds : UniqueIds backlog
backlog-UniqueIds = ground arith

pub in_flight-UniqueIds : UniqueIds in_flight
in_flight-UniqueIds = ground arith
