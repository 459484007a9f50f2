-- ===== src/Api.antt =====
-- internal/api/handlers/jobs.go. A request is what the handler reads of it, and a response its
-- status and its body.
pub mod Creation
pub mod Fetching
pub mod Server
pub mod Routing
pub mod Listing
use high_scale_job_scheduler.Prelude.{
  ℕ, zero, suc, ℤ, pos, negsuc, String, Bool, true, false, ◌&&◌, ◌||◌, List, Option, none, some,
  ◌==◌, if◌then◌else◌, str_eq, ltb, leb_ℤ, ltb_ℤ,
}
use high_scale_job_scheduler.Errors.{
  Error, Result, ok, err, is_not_found, is_duplicate_idempotency_key,
}
use high_scale_job_scheduler.Models.{Job, CreateJobRequest, Time, zero_time}
use high_scale_job_scheduler.Effects.{Prog, ret, ask, ◌>>=◌, ◌>>◌, time_now, from_hex}
use high_scale_job_scheduler.Store.{create, get_by_id, list_by_tenant}
use high_scale_job_scheduler.Scheduler.{next_occurrence}

-- The body is a job, a list of jobs, a plain text, or `{"error": …}` with a fixed text or the text of an error.
pub data Body : Type 0 where
  job_body : Job → Body
  jobs_body : List Job → Body
  message : String → Body
  error_text : Error → Body
  plain_text : String → Body

pub record Response : Type 0 where
  pub status : ℕ
  pub body : Body

abbrev pub write_json : ℕ → Body → Response
write_json status body = record { status = status; body = body }

abbrev pub write_error : ℕ → String → Response
write_error status msg = write_json status (message msg)

abbrev pub created_response : Result Job → Response
created_response (ok job) = write_json 201 (job_body job)
created_response (err e) =
    if is_duplicate_idempotency_key e
    then write_error 409 "job with this idempotency key already exists"
    else write_error 500 "failed to create job"

abbrev pub create_and_respond : CreateJobRequest → Prog Response
create_and_respond req = create req >>= λ r. ret (created_response r)

abbrev pub with_occurrence : CreateJobRequest → Result Time → Prog Response
with_occurrence req (err e) = ret (write_json 400 (error_text e))
with_occurrence req (ok next) = create_and_respond (record req { scheduled_at = next })

abbrev pub is_zero : Time → Bool
is_zero t = leb_ℤ t zero_time && leb_ℤ zero_time t

abbrev pub lacks_field : CreateJobRequest → Bool
lacks_field req = str_eq req.idempotency_key "" || str_eq req.job_type "" || str_eq req.tenant_id ""

-- The schedule of a job that passed the checks above it in the source.
unfoldable pub create_scheduled : CreateJobRequest → Prog Response
create_scheduled req = elim (str_eq req.cron "") [
  | false ↦ ask time_now >>= λ now. next_occurrence req.cron now >>= with_occurrence req
  | true ↦ elim (is_zero req.scheduled_at) [
    | true ↦ ret (write_error 400 "scheduledAt is required for non-recurring jobs")
    | false ↦ create_and_respond req
  ]
]

-- `CreateJob`; the body is `none` if it does not decode.
unfoldable pub create_job : Option CreateJobRequest → Prog Response
create_job none = ret (write_error 400 "invalid request body")
create_job (some req) = elim (lacks_field req) [
  | true ↦ ret (write_error 400 "idempotencyKey, jobType, and tenantId are required")
  | false ↦ create_scheduled req
]

abbrev pub fetched_response : Result Job → Response
fetched_response (ok job) = write_json 200 (job_body job)
fetched_response (err e) =
    if is_not_found e
    then write_error 404 "job not found"
    else write_error 500 "failed to fetch job"

unfoldable pub get_job : String → Prog Response
get_job id_param = ask (from_hex id_param) >>= λ r. elim r [
  | err e ↦ ret (write_error 400 "invalid job id")
  | ok id ↦ get_by_id id >>= λ r'. ret (fetched_response r')
]

-- The limit from what `strconv.ParseInt` makes of the query text, `none` for an empty text or one
-- that it refuses.
unfoldable pub list_limit : Option ℤ → ℤ
list_limit none = pos 100
list_limit (some n) =
    if ltb_ℤ (pos 0) n then (if ltb_ℤ (pos 5000) n then pos 5000 else n) else pos 100

abbrev pub listed_response : Result (List Job) → Response
listed_response (ok jobs) = write_json 200 (jobs_body jobs)
listed_response (err e) = write_error 500 "failed to list jobs"

-- `ListJobs`, on the three query parameters, the last one parsed.
unfoldable pub list_jobs : String → String → Option ℤ → Prog Response
list_jobs tenant_id status limit = elim (str_eq tenant_id "") [
  | true ↦ ret (write_error 400 "tenantId query param is required")
  | false ↦ list_by_tenant tenant_id status (list_limit limit) >>= λ r. ret (listed_response r)
]
