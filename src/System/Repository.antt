-- ===== src/System/Repository.antt =====
-- The repository's methods keep the invariant.
use high_scale_job_scheduler.Prelude.{
  ℕ, zero, suc, ◌≡◌, ◌≢◌, refl, Bool, true, false, arith, Option, none, some, ◌-ℤ◌, ℤ, String, List,
  [], ◌∷◌, ◌++◌, sym, ◌∙◌, inl, inr, ==_iff, Bool-cases, All, All-of, All-imp, All-append,
  if◌then◌else◌,
}
use high_scale_job_scheduler.Errors.{Error, Result, ok, err, is_no_documents}
use high_scale_job_scheduler.Models.{
  Job, CreateJobRequest, ObjectId, Time, Duration, JobStatus, failed, pending, queued, claimed,
  running, completed, dlq,
}
use high_scale_job_scheduler.Effects.{
  Prog, ret, ask, ◌>>=◌, time_now, insert_one, update_one, find_one_and_update,
}
use high_scale_job_scheduler.Effects.Docs.{doc, doc-Touched_before, Touched-All}
use high_scale_job_scheduler.Effects.World.{View, Codec, Effect, stored}
use high_scale_job_scheduler.Store.{
  create, new_job, claim_loop, claim_due_jobs, mark_claimed, mark_running, mark_completed,
  mark_failed, sweep_by_status, sweep_stuck_jobs, sweep_stuck_queued_jobs, spawn_cron_instance,
  new_instance, reschedule_cron_template, mark_cron_invalid, get_by_id, list_by_tenant,
  ensure_indexes, job_indexes, is_due, set_queued, claims_before, rounds, is_queued_job,
  set_claimed, has_id, set_status, set_failed, is_stuck, set_rescheduled, set_invalid, matched,
  error_of, spawned, got,
}
use high_scale_job_scheduler.System.Keeps.{Keeps}
use high_scale_job_scheduler.System.Integrity.{
  Base, work_of, IsValid, IsRun, Inv, IsTame, IsFree, IsIdle, IsTemplate, Waits, doc-IsFree,
  new-IsFree, same-Inv, update_one-Inv, update_many-Inv, find_one_and_update-Inv, insert_one-Inv,
  create_indexes-Inv,
}

-- A job as it is claimed: valid, and under the id of a template only if it is one.
pub record IsClaimable (base : Base) (j : Job) : Type 0 where
  pub valid : IsValid j
  pub free : j.cron ≡ "" → IsFree base j.id

-- A run under an id of its own.
pub record IsFreeRun (base : Base) (j : Job) : Type 0 where
  pub is_run : IsRun j
  pub free : IsFree base j.id

abbrev KeepsIdle : (Job → Bool) → (Job → Job) → Job → Type 0
KeepsIdle p f b = IsTemplate b → (k : Job) → k.id ≡ b.id → p k ≡ true → IsIdle b k → IsIdle b (f k)

-- Documents under an id that is of no template are no templates.
free-KeepsIdle :
    (base : Base) (p : Job → Bool) (f : Job → Job) (i : ObjectId)
    → ((k : Job) → p k ≡ true → k.id ≡ i)
    → IsFree base i
    → All (KeepsIdle p f) base.templates
free-KeepsIdle base p f i by_id free =
    All-imp (λ b. IsTemplate b → b.id ≢ i) (KeepsIdle p f) base.templates
      (λ b other t k same passed _. absurd (other t (sym same ∙ by_id k passed))) free

-- A change that writes one status, which is not `failed`, and other state.
module _ (base : Base) (p : Job → Bool) (f : Job → Job) (status : JobStatus)
    (id : (j : Job) → (f j).id ≡ j.id) (same_work : (j : Job) → work_of (f j) ≡ work_of j)
    (turned : (j : Job) → (f j).status ≡ status) (not_failed : status ≢ failed) where
  status-IsTame : All (KeepsIdle p f) base.templates → IsTame base p f
  status-IsTame idle = record {
    id = id;
    same_work = same_work;
    status = λ j _. rw (turned j) not_failed;
    idle = idle;
  }

  waiting-IsTame :
      Waits status
      → ((j : Job) → (f j).attempts ≡ j.attempts)
      → ((j : Job) → (f j).claimed_by ≡ j.claimed_by)
      → IsTame base p f
  waiting-IsTame waits attempts worker = status-IsTame (
      All-of (KeepsIdle p f) base.templates (λ b t k same passed i. record {
        waits = rw (turned k) waits;
        same_attempts = attempts k ∙ i.same_attempts;
        same_worker = worker k ∙ i.same_worker;
      }))

module _ (base : Base) (p : Job → Bool) (now : Time) where
  set_queued-IsTame : IsTame base p (set_queued now)
  set_queued-IsTame =
      waiting-IsTame base p (set_queued now) queued (λ _. refl) (λ _. refl) (λ _. refl) (λ q. cc)
        (inr (inl refl)) (λ _. refl) (λ _. refl)

  set_pending-IsTame : IsTame base p (set_status pending now)
  set_pending-IsTame =
      waiting-IsTame base p (set_status pending now) pending (λ _. refl) (λ _. refl) (λ _. refl)
        (λ q. cc) (inl refl) (λ _. refl) (λ _. refl)

  set_rescheduled-IsTame : (next : Time) → IsTame base p (set_rescheduled next now)
  set_rescheduled-IsTame next =
      waiting-IsTame base p (set_rescheduled next now) pending (λ _. refl) (λ _. refl) (λ _. refl)
        (λ q. cc) (inl refl) (λ _. refl) (λ _. refl)

  set_invalid-IsTame : (reason : Error) → IsTame base p (set_invalid reason now)
  set_invalid-IsTame reason =
      waiting-IsTame base p (set_invalid reason now) dlq (λ _. refl) (λ _. refl) (λ _. refl)
        (λ q. cc) (inr (inr refl)) (λ _. refl) (λ _. refl)

-- Changes of a document that is no template.
module _ (base : Base) (i : ObjectId) (free : IsFree base i) (now : Time) where
  set_failed-IsTame :
      (read : Job) (cause : Error) (backoff : Duration)
      → IsTame base (has_id i) (set_failed read cause backoff now)
  set_failed-IsTame read cause backoff = record {
    id = λ j. refl;
    same_work = λ j. refl;
    status = λ j h. ground arith;
    idle =
        free-KeepsIdle base (has_id i) (set_failed read cause backoff now) i
          (λ k h. (==_iff k.id i).0 h) free;
  }

  set_claimed-IsTame :
      (worker_id : String) → IsTame base (is_queued_job i) (set_claimed worker_id now)
  set_claimed-IsTame worker_id =
      status-IsTame base (is_queued_job i) (set_claimed worker_id now) claimed (λ _. refl)
        (λ _. refl) (λ _. refl) (λ q. cc)
        (free-KeepsIdle base (is_queued_job i) (set_claimed worker_id now) i (λ k h. ground arith)
          free)

  set_status-IsTame :
      (status : JobStatus) → status ≢ failed → IsTame base (has_id i) (set_status status now)
  set_status-IsTame status h =
      status-IsTame base (has_id i) (set_status status now) status (λ _. refl) (λ _. refl)
        (λ _. refl) h
        (free-KeepsIdle base (has_id i) (set_status status now) i (λ k h. (==_iff k.id i).0 h) free)

stopped-IsClaimable :
    (base : Base) (b : Bool) (jobs : List Job) (e : Error)
    → All (IsClaimable base) jobs
    → All
        (IsClaimable base)
        (let r : List Job × Option Error = if b then (jobs, none) else (jobs, some e) in r.0)
stopped-IsClaimable base true jobs e v = v
stopped-IsClaimable base false jobs e v = v

module _ (x : Codec) (base : Base) where
  abbrev pub Safe : {A : Type 0} → Prog A → (A → Type 0) → Type 0
  Safe = Keeps x (Inv x base)

  abbrev pub Any : {A : Type 0} → A → Type 0
  Any _ = Unit

  pub create-Safe : (req : CreateJobRequest) → Safe (create req) Any
  unfolding create
  create-Safe req = λ now s s1 i e. (
    same-Inv x base s s1 i e,
    λ r t t1 j h. (
      insert_one-Inv x base t t1 j (new_job req now) r
          (record { some_attempts = ground arith; not_failed = λ q. cc }) h,
      tt,
    ),
  )

  claimed-IsClaimable :
      (now at : Time) (k : Job) (s s' : View)
      → Inv x base s
      → Effect x (find_one_and_update (is_due now) (set_queued at) claims_before) (ok k) s s'
      → IsClaimable base k
  claimed-IsClaimable now at k s s' i (j, c, _, e) =
      let v : IsValid j = Touched-All IsValid c.touched i.valid in
      let found : doc j.id s.docs ≡ some j =
        doc-Touched_before {g = λ d. stored x (set_queued at d)} (λ _. refl) c.touched
          i.unique_ids in
      rw e (record {
        valid = record { some_attempts = v.some_attempts; not_failed = λ q. cc };
        free = doc-IsFree x base s i j found;
      })

  claim_loop-Safe :
      (n : ℕ) (now : Time) (jobs : List Job)
      → All (IsClaimable base) jobs
      → Safe (claim_loop n now jobs) (λ r. All (IsClaimable base) r.0)
  unfolding claim_loop
  claim_loop-Safe zero now jobs v = v
  claim_loop-Safe (suc n) now jobs v = λ at s s1 i e. (
    same-Inv x base s s1 i e,
    elim [
      | ok k ↦ λ t t1 j h. (
        find_one_and_update-Inv x base (is_due now) (set_queued at)
            (set_queued-IsTame base (is_due now) at) t t1 j claims_before (ok k) h,
        claim_loop-Safe n now (jobs ++ k ∷ []) (
            All-append (IsClaimable base) jobs (k ∷ []) v
              (claimed-IsClaimable now at k t t1 j h, tt)),
      )
      | err c ↦ λ t t1 j h. (
        find_one_and_update-Inv x base (is_due now) (set_queued at)
            (set_queued-IsTame base (is_due now) at) t t1 j claims_before (err c) h,
        stopped-IsClaimable base (is_no_documents c) jobs c v,
      )
    ],
  )

  pub claim_due_jobs-Safe :
      (now : Time) (limit : ℤ) → Safe (claim_due_jobs now limit) (λ r. All (IsClaimable base) r.0)
  unfolding claim_due_jobs
  claim_due_jobs-Safe now limit = claim_loop-Safe (rounds limit) now [] tt

  -- A time is read, and then one document is changed.
  update-Safe :
      (p : Job → Bool) (f : Time → Job → Job) (answer : Result ℕ → Option Error)
      → ((now : Time) → IsTame base p (f now))
      → Safe (ask time_now >>= λ now. ask (update_one p (f now)) >>= λ r. ret (answer r)) Any
  update-Safe p f answer tame = λ now s s1 i e. (
    same-Inv x base s s1 i e,
    λ r t t1 j h. (update_one-Inv x base p (f now) (tame now) t t1 j r h, tt),
  )

  pub mark_claimed-Safe :
      (i : ObjectId) (worker_id : String) → IsFree base i → Safe (mark_claimed i worker_id) Any
  unfolding mark_claimed
  mark_claimed-Safe i worker_id free =
      update-Safe (is_queued_job i) (set_claimed worker_id) matched
        (λ now. set_claimed-IsTame base i free now worker_id)

  pub mark_running-Safe : (i : ObjectId) → IsFree base i → Safe (mark_running i) Any
  unfolding mark_running
  mark_running-Safe i free =
      update-Safe (has_id i) (set_status running) error_of
        (λ now. set_status-IsTame base i free now running (λ q. cc))

  pub mark_completed-Safe : (i : ObjectId) → IsFree base i → Safe (mark_completed i) Any
  unfolding mark_completed
  mark_completed-Safe i free =
      update-Safe (has_id i) (set_status completed) error_of
        (λ now. set_status-IsTame base i free now completed (λ q. cc))

  pub reschedule_cron_template-Safe :
      (i : ObjectId) (next : Time) → Safe (reschedule_cron_template i next) Any
  unfolding reschedule_cron_template
  reschedule_cron_template-Safe i next =
      update-Safe (has_id i) (set_rescheduled next) error_of
        (λ now. set_rescheduled-IsTame base (has_id i) now next)

  pub mark_cron_invalid-Safe :
      (i : ObjectId) (reason : Error) → Safe (mark_cron_invalid i reason) Any
  unfolding mark_cron_invalid
  mark_cron_invalid-Safe i reason =
      update-Safe (has_id i) (set_invalid reason) error_of
        (λ now. set_invalid-IsTame base (has_id i) now reason)

  pub mark_failed-Safe :
      (i : ObjectId) (cause : Error) (backoff : Duration)
      → IsFree base i
      → Safe (mark_failed i cause backoff) Any
  unfolding mark_failed
  mark_failed-Safe i cause backoff free = elim [
    | err e ↦ λ s s1 k h. (same-Inv x base s s1 k h.1, tt)
    | ok job ↦ λ s s1 k h. (
      same-Inv x base s s1 k h.2,
      update-Safe (has_id i) (set_failed job cause backoff) error_of
          (λ now. set_failed-IsTame base i free now job cause backoff),
    )
  ]

  sweep_by_status-Safe :
      (timeout : Duration) (statuses : List JobStatus) → Safe (sweep_by_status timeout statuses) Any
  unfolding sweep_by_status
  sweep_by_status-Safe timeout statuses = λ now s s1 i e. (
    same-Inv x base s s1 i e,
    λ at t t1 j e1. (
      same-Inv x base t t1 j e1,
      λ r u u1 k h. (
        update_many-Inv x base (is_stuck statuses (now -ℤ timeout)) (set_status pending at)
            (set_pending-IsTame base (is_stuck statuses (now -ℤ timeout)) at) u u1 k r h,
        tt,
      ),
    ),
  )

  pub sweep_stuck_jobs-Safe : (timeout : Duration) → Safe (sweep_stuck_jobs timeout) Any
  unfolding sweep_stuck_jobs
  sweep_stuck_jobs-Safe timeout = sweep_by_status-Safe timeout (claimed ∷ running ∷ [])

  pub sweep_stuck_queued_jobs-Safe :
      (timeout : Duration) → Safe (sweep_stuck_queued_jobs timeout) Any
  unfolding sweep_stuck_queued_jobs
  sweep_stuck_queued_jobs-Safe timeout = sweep_by_status-Safe timeout (queued ∷ [])

  -- The run of a valid template is a run.
  abbrev pub RunResult : Result Job → Type 0
  RunResult (ok job) = IsFreeRun base job
  RunResult (err e) = Unit

  pub spawn_cron_instance-Safe :
      (template : Job) → IsValid template → Safe (spawn_cron_instance template) RunResult
  unfolding spawn_cron_instance
  spawn_cron_instance-Safe template v = λ now s s1 i e. (
    same-Inv x base s s1 i e,
    λ r t t1 j h. (
      insert_one-Inv x base t t1 j (new_instance template now) r (run_valid now).valid h,
      spawned_run now r t t1 j h,
    ),
  )
    where
      run_valid : (now : Time) → IsRun (new_instance template now)
      run_valid now = record {
        valid = record { some_attempts = v.some_attempts; not_failed = λ q. cc };
        no_template = refl;
      }

      spawned_run :
          (now : Time) (r : Result ObjectId) (t t1 : View)
          → Inv x base t
          → Effect x (insert_one (new_instance template now)) r t t1
          → RunResult (spawned (new_instance template now) r)
      spawned_run now (ok id) t t1 i h = record {
        is_run = record {
          valid = record { some_attempts = v.some_attempts; not_failed = λ q. cc };
          no_template = refl;
        };
        free = new-IsFree x base t i id h.fresh_id;
      }
      spawned_run now (err e) t t1 i h = tt

  -- The job that is got has the id.
  abbrev pub GotUnder : ObjectId → Result Job → Type 0
  GotUnder i (ok job) = job.id ≡ i
  GotUnder i (err e) = Unit

  got_none : (i : ObjectId) (e : Error) → GotUnder i (got (err e))
  got_none i e = elim (Bool-cases (is_no_documents e)) [
    | inl h ↦ rw (h, got) tt
    | inr h ↦ rw (h, got) tt
  ]

  pub get_by_id-Safe : (i : ObjectId) → Safe (get_by_id i) (GotUnder i)
  unfolding get_by_id
  get_by_id-Safe i = elim [
    | ok job ↦ λ s s1 k h. (same-Inv x base s s1 k h.2, (==_iff job.id i).0 h.1)
    | err e ↦ λ s s1 k h. (same-Inv x base s s1 k h.1, got_none i e)
  ]

  pub list_by_tenant-Safe :
      (tenant_id status : String) (limit : ℤ) → Safe (list_by_tenant tenant_id status limit) Any
  unfolding list_by_tenant
  list_by_tenant-Safe tenant_id status limit = elim [
    | ok jobs ↦ λ s s1 k h. (same-Inv x base s s1 k h.4, tt)
    | err e ↦ λ s s1 k h. (same-Inv x base s s1 k h, tt)
  ]

  pub ensure_indexes-Safe : Safe ensure_indexes Any
  unfolding ensure_indexes
  ensure_indexes-Safe = λ r s s1 i h. (create_indexes-Inv x base s s1 i job_indexes r h, tt)
