-- ===== src/System/Budget.antt =====
-- How often a program counts, while the job under one id is not queued.
use high_scale_job_scheduler.Prelude.{
  ℕ, ◌+◌, ◌≤◌, ◌≡◌, ◌≢◌, refl, ap, inl, inr, Bool, true, false, arith, Option, none, some, String,
  All, List, [], ◌∷◌,
}
use high_scale_job_scheduler.Errors.{Error, Result, ok, err}
use high_scale_job_scheduler.Models.{
  Job, ObjectId, Time, Duration, Payload, queued, running, completed,
}
use high_scale_job_scheduler.Effects.{
  Metric, jobs_claimed, dispatch_errors, cron_instances_spawned, cron_invalid,
  jobs_processed_success, jobs_processed_failure, reaper_recovered_execution,
  reaper_recovered_queued, scheduler_tick_duration, executor_job_duration, Reply, Prog, ret, call,
  ask, ◌>>=◌, update_one, time_now,
}
use high_scale_job_scheduler.Effects.Docs.{
  UniqueIds, doc, doc-Touched, Touched-Partly, Partly-UniqueIds,
}
use high_scale_job_scheduler.Effects.World.{View, Codec, Effect, Changes, stored}
use high_scale_job_scheduler.Store.{
  mark_running, mark_completed, mark_failed, has_id, set_status, set_failed, error_of,
}
use high_scale_job_scheduler.Dispatch.{publish_dlq}
use high_scale_job_scheduler.Executor.{
  Handler, Runner, get, new_registry, exponential_backoff, dead_letter_if, after_failure, fail,
  complete_job, finish, run_handler, after_start, after_claim,
}
use high_scale_job_scheduler.Executor.Registered.{
  register_all-All, log_message_handler-calls_nothing,
}
use high_scale_job_scheduler.Executor.Lookup.{get-All}
use high_scale_job_scheduler.Executor.Handlers.{
  register_all, noop_handler, flaky_handler, slow_handler,
}

-- The successes and the failures of handlers among the events.
abbrev is_run : Metric → ℕ
is_run (jobs_processed_success job_type) = 1
is_run (jobs_processed_failure job_type) = 1
is_run (jobs_claimed n) = 0
is_run dispatch_errors = 0
is_run cron_instances_spawned = 0
is_run cron_invalid = 0
is_run (reaper_recovered_execution n) = 0
is_run (reaper_recovered_queued n) = 0
is_run (scheduler_tick_duration d) = 0
is_run (executor_job_duration job_type d) = 0

abbrev pub runs : List Metric → ℕ
runs [] = 0
runs (m ∷ ms) = is_run m + runs ms

module _ (x : Codec) (i : ObjectId) where
  -- Ids are unique, and the document with the id, if any, is not queued.
  pub record Settled (s : View) : Type 0 where
    pub unique : UniqueIds s.docs
    pub not_queued : (d : Job) → doc i s.docs ≡ some d → d.status ≢ queued

  pub same-Settled : (s s' : View) → Settled s → s' ≡ s → Settled s'
  same-Settled s s' h e = rw e h

  pub Changes-Settled :
      (p : Job → Bool) (f : Job → Job)
      → ((k : Job) → (f k).id ≡ k.id)
      → ((k : Job) → (f k).status ≢ queued)
      → (j : Job) (s s' : View) → Settled s
      → Changes x p f j s s'
      → Settled s' × (s'.counted ≡ s.counted)
  Changes-Settled p f keeps turns j s s' h c = (
    record {
      unique =
          rw c.after
            (Partly-UniqueIds {g = λ k. stored x (f k)} keeps (Touched-Partly c.touched) h.unique);
      not_queued = λ d found q.
          let e = doc-Touched {g = λ k. stored x (f k)} keeps i c.touched h.unique in
          ground (arith, e, c.after, turns j, h.not_queued d);
    },
    ap (λ v. v.counted) c.after,
  )

  -- Nothing is counted, and the job is not queued again.
  abbrev pub Idle : {A : Type 0} → Prog A → Type 0
  Idle (ret a) = Unit
  Idle (call c k) =
      (r : Reply c) (s s' : View)
      → Settled s
      → Effect x c r s s'
      → Settled s' × (s'.counted ≡ s.counted) × Idle (k r)

  -- No more than so many events are counted, and the job is not queued again.
  abbrev pub Counts : {A : Type 0} → ℕ → Prog A → Type 0
  Counts n (ret a) = Unit
  Counts n (call c k) =
      (r : Reply c) (s s' : View)
      → Settled s
      → Effect x c r s s'
      → (m : ℕ) × Settled s' × (runs s'.counted + m ≤ runs s.counted + n) × Counts m (k r)

  Idle-bind :
      {A B : Type 0} (m : Prog A) (f : A → Prog B)
      → Idle m
      → ((a : A) → Idle (f a))
      → Idle (m >>= f)
  Idle-bind (ret a) f h g = g a
  Idle-bind (call c k) f h g =
      λ r s s' i e. let (i', same, rest) = h r s s' i e in (i', same, Idle-bind (k r) f rest g)

  Counts-bind :
      {A B : Type 0} (n : ℕ) (m : Prog A) (f : A → Prog B)
      → Idle m
      → ((a : A) → Counts n (f a))
      → Counts n (m >>= f)
  Counts-bind n (ret a) f h g = g a
  Counts-bind n (call c k) f h g = λ r s s' i e.
      let (i', same, rest) = h r s s' i e in
      (n, i', omega (arith, ap runs same), Counts-bind n (k r) f rest g)

  Idle-Counts : {A : Type 0} (n : ℕ) (m : Prog A) → Idle m → Counts n m
  Idle-Counts n (ret a) h = tt
  Idle-Counts n (call c k) h = λ r s s' i e.
      let (i', same, rest) = h r s s' i e in
      (n, i', omega (arith, ap runs same), Idle-Counts n (k r) rest)

  pub Counts-then :
      {A B : Type 0} (n : ℕ) (m : Prog A) (f : A → Prog B)
      → Counts n m
      → ((a : A) → Idle (f a))
      → Counts n (m >>= f)
  Counts-then n (ret a) f h g = Idle-Counts n (f a) (g a)
  Counts-then n (call c k) f h g = λ r s s' i e.
      let (m, i', le, rest) = h r s s' i e in (m, i', le, Counts-then m (k r) f rest g)

  -- A time is read, and then one document is changed.
  update-Idle :
      (p : Job → Bool) (f : Time → Job → Job)
      → ((now : Time) (k : Job) → (f now k).id ≡ k.id)
      → ((now : Time) (k : Job) → (f now k).status ≢ queued)
      → Idle (ask time_now >>= λ now. ask (update_one p (f now)) >>= λ r. ret (error_of r))
  update-Idle p f keeps turns = λ now s s1 i1 e1. (
    same-Settled s s1 i1 e1,
    ap (λ v. v.counted) e1,
    λ r t t1 i e. let (i', same) = replied now r t t1 i e in (i', same, tt),
  )
    where
      replied :
          (now : Time) (r : Result ℕ) (t t1 : View)
          → Settled t
          → Effect x (update_one p (f now)) r t t1
          → Settled t1 × (t1.counted ≡ t.counted)
      replied now (ok n) t t1 i (inl (_, _, same)) =
          (same-Settled t t1 i same, ap (λ v. v.counted) same)
      replied now (ok n) t t1 i (inr (j, _, c)) =
          Changes-Settled p (f now) (keeps now) (turns now) j t t1 i c
      replied now (err e) t t1 i (inl same) = (same-Settled t t1 i same, ap (λ v. v.counted) same)
      replied now (err e) t t1 i (inr (j, c)) =
          Changes-Settled p (f now) (keeps now) (turns now) j t t1 i c

  mark_running-Idle : (k : ObjectId) → Idle (mark_running k)
  unfolding mark_running
  mark_running-Idle k = update-Idle (has_id k) (set_status running) (λ now j. refl) (λ now j q. cc)

  mark_completed-Idle : (k : ObjectId) → Idle (mark_completed k)
  unfolding mark_completed
  mark_completed-Idle k =
      update-Idle (has_id k) (set_status completed) (λ now j. refl) (λ now j q. cc)

  mark_failed-Idle :
      (k : ObjectId) (cause : Error) (backoff : Duration) → Idle (mark_failed k cause backoff)
  unfolding mark_failed
  mark_failed-Idle k cause backoff = elim [
    | err e ↦ λ s s1 i h. (same-Settled s s1 i h.1, ap (λ v. v.counted) h.1, tt)
    | ok job ↦ λ s s1 i h. (
      same-Settled s s1 i h.2,
      ap (λ v. v.counted) h.2,
      update-Idle (has_id k) (set_failed job cause backoff) (λ now j. refl)
          (λ now j q. ground arith),
    )
  ]

  produced-Settled : (s s' : View) → Settled s → s'.docs ≡ s.docs → Settled s'
  produced-Settled s s' i e = record { unique = rw e i.unique; not_queued = rw e i.not_queued }

  dead_letter_if-Idle : (b : Bool) (job : Job) → Idle (dead_letter_if b job)
  unfolding publish_dlq
  dead_letter_if-Idle false job = tt
  dead_letter_if-Idle true job = λ id s s1 i h. (
    same-Settled s s1 i h.1,
    ap (λ v. v.counted) h.1,
    elim [
      | ok _ ↦ λ t t1 j e. (produced-Settled t t1 j (ap (λ v. v.docs) e), ap (λ v. v.counted) e, tt)
      | err _ ↦ λ t t1 j. elim [
        | inl same ↦ (same-Settled t t1 j same, ap (λ v. v.counted) same, tt)
        | inr e ↦ (produced-Settled t t1 j (ap (λ v. v.docs) e), ap (λ v. v.counted) e, tt)
      ]
    ],
  )

  -- One failure is counted, or one success.
  fail-Counts : (rn : Runner) (job : Job) (cause : Error) → Counts 1 (fail rn job cause)
  unfolding fail
  fail-Counts rn job cause = λ _ s s' i e. (
    0,
    produced-Settled s s' i (ap (λ v. v.docs) e),
    omega (arith, ap (λ v. runs v.counted) e),
    Counts-bind 0 (mark_failed job.id cause (exponential_backoff job.attempts))
        (after_failure rn job) (mark_failed-Idle job.id cause (exponential_backoff job.attempts))
        (elim [ none ↦ Idle-Counts 0 _ (dead_letter_if-Idle _ job) | some e ↦ tt ]),
  )

  complete_job-Counts : (job : Job) → Counts 1 (complete_job job)
  complete_job-Counts job = λ _ s s' i e. (
    0,
    produced-Settled s s' i (ap (λ v. v.docs) e),
    omega (arith, ap (λ v. runs v.counted) e),
    Counts-bind 0 (mark_completed job.id) (λ _. ret tt) (mark_completed-Idle job.id) (λ _. tt),
  )

  finish-Counts :
      (rn : Runner) (job : Job) (start : Time) (e : Option Error) → Counts 1 (finish rn job start e)
  finish-Counts rn job start (some cause) = fail-Counts rn job cause
  finish-Counts rn job start none = λ now s s' i e. (
    1,
    same-Settled s s' i e,
    omega (arith, ap (λ v. runs v.counted) e),
    λ _ t t' j f. (
      1,
      produced-Settled t t' j (ap (λ v. v.docs) f),
      omega (arith, ap (λ v. runs v.counted) f),
      complete_job-Counts job,
    ),
  )

  -- The handlers of an executor count nothing.
  abbrev IsIdle : Handler → Type 0
  IsIdle h = (payload : Payload) → Idle (h payload)

  register_all-AllIdle :
      All (λ (entry : String × Handler). IsIdle entry.1) (register_all new_registry).handlers
  unfolding noop_handler flaky_handler slow_handler
  register_all-AllIdle =
      register_all-All IsIdle (λ payload. tt)
        (log_message_handler-calls_nothing (λ m. Idle m) (λ e. tt))
        (λ payload r s s' i e. (same-Settled s s' i e, ap (λ v. v.counted) e, tt))
        (λ payload r s s' i e. (same-Settled s s' i e, ap (λ v. v.counted) e, tt))

  run_handler-Counts :
      (rn : Runner) (job : Job) (start : Time) (h : Result Handler)
      → ((g : Handler) → h ≡ ok g → IsIdle g)
      → Counts 1 (run_handler rn job start h)
  run_handler-Counts rn job start (err cause) idle = fail-Counts rn job cause
  run_handler-Counts rn job start (ok g) idle =
      Counts-bind 1 (g job.payload) (finish rn job start) (idle g refl job.payload)
        (finish-Counts rn job start)

  -- After its claim a job is run once.
  pub after_claim-Counts :
      (rn : Runner) (job : Job) (start : Time)
      → rn.registry ≡ register_all new_registry
      → Counts 1 (after_claim rn job start none)
  after_claim-Counts rn job start e =
      Counts-bind 1 (mark_running job.id) (after_start rn job start) (mark_running-Idle job.id)
        (elim [
          | some _ ↦ tt
          | none ↦
              run_handler-Counts rn job start (get rn.registry job.job_type)
                (λ g. get-All IsIdle rn.registry job.job_type g (rw e register_all-AllIdle))
        ])
