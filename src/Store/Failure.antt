-- ===== src/Store/Failure.antt =====
-- `MarkFailed`: the retry and the dead-letter branch.
use high_scale_job_scheduler.Prelude.{
  ℕ, ◌≡◌, refl, ◌∙◌, subst, ◌⊎◌, inl, inr, arith, Option, none, some, ==_iff, ◌≤ℤ◌, ◌<ℤ◌, ◌+ℤ◌,
  inc_int,
}
use high_scale_job_scheduler.Errors.{Error, Result, ok, err}
use high_scale_job_scheduler.Models.{Job, ObjectId, Time, Duration, pending, dlq}
use high_scale_job_scheduler.Effects.{update_one}
use high_scale_job_scheduler.Effects.Docs.{UniqueIds, doc, doc-Memᴰ, doc-id}
use high_scale_job_scheduler.Effects.World.{
  View, Codec, Effect-from, Ensures, World, run, run-Ensures, stored,
}
use high_scale_job_scheduler.Store.{mark_failed, set_failed, has_id, error_of}
use high_scale_job_scheduler.Store.Update.{Puts, Updates, UpdateReply, update_one-reply}

-- What is left alone by a change of the job's state.
pub record SameWork (j j' : Job) : Type 0 where
  pub id : j'.id ≡ j.id
  pub idempotency_key : j'.idempotency_key ≡ j.idempotency_key
  pub tenant_id : j'.tenant_id ≡ j.tenant_id
  pub job_type : j'.job_type ≡ j.job_type
  pub payload : j'.payload ≡ j.payload
  pub priority : j'.priority ≡ j.priority
  pub cron : j'.cron ≡ j.cron
  pub max_attempts : j'.max_attempts ≡ j.max_attempts

pub SameWork-trans : {i j k : Job} → SameWork i j → SameWork j k → SameWork i k
SameWork-trans a b = record {
  id = b.id ∙ a.id;
  idempotency_key = b.idempotency_key ∙ a.idempotency_key;
  tenant_id = b.tenant_id ∙ a.tenant_id;
  job_type = b.job_type ∙ a.job_type;
  payload = b.payload ∙ a.payload;
  priority = b.priority ∙ a.priority;
  cron = b.cron ∙ a.cron;
  max_attempts = b.max_attempts ∙ a.max_attempts;
}

-- One failed attempt, recorded at a time `now`.
pub record FailedOnce (x : Codec) (cause : Error) (backoff : Duration) (now : Time) (j j' : Job)
    : Type 0 where
  pub counted : j'.attempts ≡ inc_int j.attempts
  pub reason : j'.last_error ≡ some cause
  pub outcome :
      ((j.max_attempts ≤ℤ inc_int j.attempts)
        × (j'.status ≡ dlq)
        × (j'.scheduled_at ≡ x.datetime j.scheduled_at))
      ⊎ ((inc_int j.attempts <ℤ j.max_attempts)
          × (j'.status ≡ pending)
          × (j'.scheduled_at ≡ x.datetime (now +ℤ backoff)))
  pub recorded : j'.updated_at ≡ x.datetime now
  pub same_work : SameWork j j'

set_failed-FailedOnce :
    (x : Codec) (cause : Error) (backoff : Duration) (now : Time) (j : Job)
    → FailedOnce x cause backoff now j (stored x (set_failed j cause backoff now j))
set_failed-FailedOnce x cause backoff now j = ground arith

module _ (x : Codec) (i : ObjectId) (cause : Error) (backoff : Duration) where
  -- The document with the id is there and one failed attempt of it is recorded.
  pub record Fails (s s' : View) : Type 0 where
    pub now : Time
    pub before : Job
    pub after : Job
    pub found : doc i s.docs ≡ some before
    pub failed_once : FailedOnce x cause backoff now before after
    pub puts : Puts i after s s'

  -- Without an error the attempt is recorded; with one it may be.
  abbrev pub FailOutcome : View → Option Error → View → Type 0
  FailOutcome s none s' = Fails s s'
  FailOutcome s (some e) s' = (s' ≡ s) ⊎ Fails s s'

  fails :
      (read : Job) (now : Time) (s s' : View)
      → doc i s.docs ≡ some read
      → Updates x i (has_id i) (set_failed read cause backoff now) s s'
      → Fails s s'
  fails read now s s' h u = record {
    now = now;
    before = u.before;
    after = stored x (set_failed read cause backoff now u.before);
    found = u.found;
    failed_once =
        subst
          (λ j.
            FailedOnce x cause backoff now u.before
              (stored x (set_failed j cause backoff now u.before)))
          {x = u.before} {y = read} (cc (h, u.found))
          (set_failed-FailedOnce x cause backoff now u.before);
    puts = u.puts;
  }

  updated :
      (read : Job) (now : Time) (r : Result ℕ) (s s' : View)
      → doc i s.docs ≡ some read
      → UpdateReply x i (has_id i) (set_failed read cause backoff now) r s s'
      → FailOutcome s (error_of r) s'
  updated read now (ok n) s s' h (inl (z, miss, same)) =
      absurd (ground (arith, miss read h, doc-id i read s.docs h))
  updated read now (ok n) s s' h (inr (one, u)) = fails read now s s' h u
  updated read now (err e) s s' h (inl same) = inl same
  updated read now (err e) s s' h (inr u) = inr (fails read now s s' h u)

  pub mark_failed-Ensures :
      (s : View) → UniqueIds s.docs → Ensures x (mark_failed i cause backoff) s (FailOutcome s)
  unfolding mark_failed
  mark_failed-Ensures s u (err e) s1 eff = inl eff.1
  mark_failed-Ensures s u (ok job) s1 (mem, passes, e1) = λ now s2 e2 r s3 e3.
      updated job now r s s3
        (subst (λ k. doc k s.docs ≡ some job) ((==_iff job.id i).0 passes) (doc-Memᴰ mem u))
        (update_one-reply x (has_id i) (set_failed job cause backoff now) i (λ k. (==_iff k.id i).0)
          (λ k. refl) r s s3 u
          (Effect-from x (update_one (has_id i) (set_failed job cause backoff now)) r s3 (e2 ∙ e1)
            e3))

-- In a collection with unique ids, `MarkFailed` that returns no error found the job and recorded
-- one failed attempt of it: the attempts are one more, the error is the last one, and the job is
-- dead-lettered if it has no attempt left, else pending and due after the backoff from the time of
-- the update; its work and every other document stay. With an error it recorded the attempt all the
-- same or did nothing.
pub mark_failed-FailOutcome :
    (w : World) (s : w.State) (i : ObjectId) (cause : Error) (backoff : Duration)
    → UniqueIds (w.view s).docs
    → let (e, s') = run w (mark_failed i cause backoff) s in
      FailOutcome w.codec i cause backoff (w.view s) e (w.view s')
mark_failed-FailOutcome w s i cause backoff u =
    run-Ensures w (mark_failed i cause backoff) s (FailOutcome w.codec i cause backoff (w.view s))
      (mark_failed-Ensures w.codec i cause backoff (w.view s) u)
