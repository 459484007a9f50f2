-- ===== src/Store.antt =====
-- internal/store/jobs_repo.go. The receiver is the collection that the commands go to, and a
-- context is left out: a call that its context ends answers an error, as any call may.
pub mod Update
pub mod Failure
pub mod Claims
pub mod Batch
pub mod Queue
pub mod Moves
pub mod Transitions
pub mod Sweep
pub mod Insertion
pub mod Retry
use high_scale_job_scheduler.Prelude.{
  ℕ, zero, suc, ℤ, pos, negsuc, String, Bool, true, false, ◌&&◌, ◌||◌, List, [], ◌∷◌, ◌++◌, Option,
  none, some, ◌==◌, if◌then◌else◌, str_eq, print_int, leb_ℤ, ltb_ℤ, inc_int, ◌+ℤ◌, ◌-ℤ◌,
}
use high_scale_job_scheduler.Errors.{
  Error, Result, ok, err, not_found, duplicate_idempotency_key, spawn_failed, is_no_documents,
  is_duplicate_key,
}
use high_scale_job_scheduler.Models.{
  JobStatus, pending, queued, claimed, running, completed, dlq, status_eq, status_text, Time,
  Duration, ObjectId, Job, CreateJobRequest,
}
use high_scale_job_scheduler.Effects.{
  IndexModel, Prog, ret, ask, ◌>>=◌, ◌>>◌, create_indexes, insert_one, find_one, find,
  find_one_and_update, update_one, update_many, time_now,
}
use Prim.Native.String.{◌++◌ as ◌+++◌}

abbrev pub job_indexes : List IndexModel
job_indexes =
    record { keys = "status" ∷ "scheduledAt" ∷ []; unique = false }
    ∷ record { keys = "idempotencyKey" ∷ []; unique = true }
    ∷ record { keys = "tenantId" ∷ "status" ∷ []; unique = false }
    ∷ []

unfoldable pub ensure_indexes : Prog (Result (Unit {0}))
ensure_indexes = ask (create_indexes job_indexes)

-- `if maxAttempts <= 0 { maxAttempts = 3 }`
abbrev pub default_max_attempts : ℤ → ℤ
default_max_attempts n = if leb_ℤ n (pos 0) then pos 3 else n

unfoldable pub new_job : CreateJobRequest → Time → Job
new_job req now = record {
  id = 0;
  idempotency_key = req.idempotency_key;
  tenant_id = req.tenant_id;
  job_type = req.job_type;
  payload = req.payload;
  priority = req.priority;
  status = pending;
  scheduled_at = req.scheduled_at;
  cron = req.cron;
  claimed_by = "";
  claimed_at = none;
  attempts = pos 0;
  max_attempts = default_max_attempts req.max_attempts;
  last_error = none;
  created_at = now;
  updated_at = now;
}

-- The job under the id that the insertion gave it, or the error that `Create` returns.
abbrev pub created : Job → Result ObjectId → Result Job
created job (ok id) = ok (record job { id = id })
created job (err e) = if is_duplicate_key e then err duplicate_idempotency_key else err e

unfoldable pub create : CreateJobRequest → Prog (Result Job)
unfolding new_job
create req = do
  now ← ask time_now
  let job = new_job req now
  res ← ask (insert_one job)
  ret (created job res)

-- The filter, the update and the sort of `ClaimDueJobs`.
abbrev pub is_due : Time → Job → Bool
is_due now job = status_eq pending job.status && leb_ℤ job.scheduled_at now

abbrev pub set_queued : Time → Job → Job
set_queued now job = record job { status = queued; updated_at = now }

abbrev pub claims_before : Job → Job → Bool
claims_before a b =
    ltb_ℤ b.priority a.priority
    || (leb_ℤ b.priority a.priority
        && leb_ℤ a.priority b.priority
        && ltb_ℤ a.scheduled_at b.scheduled_at)

-- One pass of the loop of `ClaimDueJobs`.
abbrev pub claim_one : Time → Prog (Result Job)
claim_one now = do
  at ← ask time_now
  ask (find_one_and_update (is_due now) (set_queued at) claims_before)

-- The loop, over the rounds left; `jobs` are those claimed so far.
unfoldable pub claim_loop : ℕ → Time → List Job → Prog (List Job × Option Error)
claim_loop zero now jobs = ret (jobs, none)
claim_loop (suc n) now jobs = claim_one now >>= λ r. elim r [
  | ok job ↦ claim_loop n now (jobs ++ job ∷ [])
  | err e ↦ ret (if is_no_documents e then (jobs, none) else (jobs, some e))
]

-- The rounds of `for i := 0; i < limit; i++`.
abbrev pub rounds : ℤ → ℕ
rounds (pos n) = n
rounds (negsuc n) = 0

unfoldable pub claim_due_jobs : Time → ℤ → Prog (List Job × Option Error)
unfolding claim_loop
claim_due_jobs now limit = claim_loop (rounds limit) now []

abbrev pub has_id : ObjectId → Job → Bool
has_id id job = job.id == id

abbrev pub is_queued_job : ObjectId → Job → Bool
is_queued_job id job = has_id id job && status_eq queued job.status

abbrev pub set_claimed : String → Time → Job → Job
set_claimed worker_id now job = record job {
  status = claimed;
  claimed_by = worker_id;
  claimed_at = some now;
  updated_at = now;
}

abbrev pub matched : Result ℕ → Option Error
matched (ok n) = if n == 0 then some not_found else none
matched (err e) = some e

unfoldable pub mark_claimed : ObjectId → String → Prog (Option Error)
mark_claimed id worker_id = do
  now ← ask time_now
  res ← ask (update_one (is_queued_job id) (set_claimed worker_id now))
  ret (matched res)

abbrev pub set_status : JobStatus → Time → Job → Job
set_status status now job = record job { status = status; updated_at = now }

-- `_, err := …; return err`
abbrev pub error_of {ℓ} : {A : Type ℓ} → Result A → Option Error
error_of (ok a) = none
error_of (err e) = some e

unfoldable pub mark_running : ObjectId → Prog (Option Error)
mark_running id = do
  now ← ask time_now
  res ← ask (update_one (has_id id) (set_status running now))
  ret (error_of res)

unfoldable pub mark_completed : ObjectId → Prog (Option Error)
mark_completed id = do
  now ← ask time_now
  res ← ask (update_one (has_id id) (set_status completed now))
  ret (error_of res)

-- The update of `MarkFailed`, from the attempts and the maximum of the job that it read.
abbrev pub set_failed : Job → Error → Duration → Time → Job → Job
set_failed read cause backoff now job =
    let new_attempts = inc_int read.attempts in
    let exhausted = leb_ℤ read.max_attempts new_attempts in
    record job {
      attempts = new_attempts;
      last_error = some cause;
      updated_at = now;
      status = if exhausted then dlq else pending;
      scheduled_at = if exhausted then job.scheduled_at else now +ℤ backoff;
    }

unfoldable pub mark_failed : ObjectId → Error → Duration → Prog (Option Error)
mark_failed id cause backoff = ask (find_one (has_id id)) >>= λ r. elim r [
  | err e ↦ ret (some e)
  | ok job ↦ do
    now ← ask time_now
    res ← ask (update_one (has_id id) (set_failed job cause backoff now))
    ret (error_of res)
]

abbrev pub status_in : List JobStatus → JobStatus → Bool
status_in [] status = false
status_in (s ∷ ss) status = status_eq s status || status_in ss status

abbrev pub is_stuck : List JobStatus → Time → Job → Bool
is_stuck statuses cutoff job = status_in statuses job.status && leb_ℤ job.updated_at cutoff

abbrev pub count_of : Result ℕ → ℕ × Option Error
count_of (ok n) = (n, none)
count_of (err e) = (0, some e)

-- What follows the computation of the cutoff.
abbrev pub sweep_before : List JobStatus → Time → Prog (ℕ × Option Error)
sweep_before statuses cutoff = do
  at ← ask time_now
  res ← ask (update_many (is_stuck statuses cutoff) (set_status pending at))
  ret (count_of res)

unfoldable pub sweep_by_status : Duration → List JobStatus → Prog (ℕ × Option Error)
sweep_by_status timeout statuses = ask time_now >>= λ now. sweep_before statuses (now -ℤ timeout)

unfoldable pub sweep_stuck_jobs : Duration → Prog (ℕ × Option Error)
unfolding sweep_by_status
sweep_stuck_jobs timeout = sweep_by_status timeout (claimed ∷ running ∷ [])

unfoldable pub sweep_stuck_queued_jobs : Duration → Prog (ℕ × Option Error)
unfolding sweep_by_status
sweep_stuck_queued_jobs timeout = sweep_by_status timeout (queued ∷ [])

-- `fmt.Sprintf("%s-run-%d", template.IdempotencyKey, now.UnixNano())`
unfoldable pub run_key : String → Time → String
run_key key now = ◌+++◌ key (◌+++◌ "-run-" (print_int now))

unfoldable pub new_instance : Job → Time → Job
new_instance template now = record {
  id = 0;
  idempotency_key = run_key template.idempotency_key now;
  tenant_id = template.tenant_id;
  job_type = template.job_type;
  payload = template.payload;
  priority = template.priority;
  status = queued;
  scheduled_at = now;
  cron = "";
  claimed_by = "";
  claimed_at = none;
  attempts = pos 0;
  max_attempts = template.max_attempts;
  last_error = none;
  created_at = now;
  updated_at = now;
}

abbrev pub spawned : Job → Result ObjectId → Result Job
spawned instance (ok id) = ok (record instance { id = id })
spawned instance (err e) = err (spawn_failed e)

unfoldable pub spawn_cron_instance : Job → Prog (Result Job)
unfolding new_instance
spawn_cron_instance template = do
  now ← ask time_now
  let run = new_instance template now
  res ← ask (insert_one run)
  ret (spawned run res)

abbrev pub set_rescheduled : Time → Time → Job → Job
set_rescheduled next now job = record job {
  status = pending;
  scheduled_at = next;
  updated_at = now;
}

unfoldable pub reschedule_cron_template : ObjectId → Time → Prog (Option Error)
reschedule_cron_template id next = do
  now ← ask time_now
  res ← ask (update_one (has_id id) (set_rescheduled next now))
  ret (error_of res)

abbrev pub set_invalid : Error → Time → Job → Job
set_invalid reason now job = record job { status = dlq; last_error = some reason; updated_at = now }

unfoldable pub mark_cron_invalid : ObjectId → Error → Prog (Option Error)
mark_cron_invalid id reason = do
  now ← ask time_now
  res ← ask (update_one (has_id id) (set_invalid reason now))
  ret (error_of res)

abbrev pub got : Result Job → Result Job
got (ok job) = ok job
got (err e) = if is_no_documents e then err not_found else err e

unfoldable pub get_by_id : ObjectId → Prog (Result Job)
get_by_id id = do res ← ask (find_one (has_id id)); ret (got res)

-- `status` is the text of the query; the empty text leaves the status out of the filter.
abbrev pub is_listed : String → String → Job → Bool
is_listed tenant_id status job =
    str_eq job.tenant_id tenant_id
    && (if str_eq status "" then true else str_eq (status_text job.status) status)

abbrev pub newest_first : Job → Job → Bool
newest_first a b = ltb_ℤ b.created_at a.created_at

unfoldable pub list_by_tenant : String → String → ℤ → Prog (Result (List Job))
list_by_tenant tenant_id status limit = ask (find (is_listed tenant_id status) limit newest_first)
