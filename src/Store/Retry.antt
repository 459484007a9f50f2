-- ===== src/Store/Retry.antt =====
-- `ClaimDueJobs` after `MarkFailed`: a failed job waits for its backoff, a dead-lettered one for ever.
use high_scale_job_scheduler.Prelude.{
  ◌≡◌, ◌≢◌, sym, ◌∙◌, subst, ap, ◌⊎◌, inl, inr, Bool-cases, arith, some, none, ◌≤ℤ◌, ◌<ℤ◌, ◌+ℤ◌,
  ◌==◌, ==_iff, inc_int, All, All-imp, ℤ,
}
use high_scale_job_scheduler.Errors.{Error}
use high_scale_job_scheduler.Models.{Job, ObjectId, Time, Duration, pending}
use high_scale_job_scheduler.Effects.Docs.{UniqueIds, doc}
use high_scale_job_scheduler.Effects.World.{View, Codec, World, run}
use high_scale_job_scheduler.Store.{mark_failed, claim_due_jobs}
use high_scale_job_scheduler.Store.Failure.{FailedOnce, Fails, FailOutcome, mark_failed-FailOutcome}
use high_scale_job_scheduler.Store.Claims.{ClaimedFrom}
use high_scale_job_scheduler.Store.Batch.{claim_due_jobs-ClaimedFrom}

-- The claimed job `k` is the failed job `j` again, which had an attempt left, and the backoff has
-- passed since the time at which the failure was recorded, in `s`.
pub record IsRetry (x : Codec) (backoff : Duration) (now : Time) (j : Job) (s : View) (k : Job)
    : Type 0 where
  pub failed_at : Time
  pub recorded : (b : Job) × (doc k.id s.docs ≡ some b) × (b.updated_at ≡ x.datetime failed_at)
  pub waited : x.datetime (failed_at +ℤ backoff) ≤ℤ now
  pub attempts_left : inc_int j.attempts <ℤ j.max_attempts
  pub same_attempts : k.attempts ≡ inc_int j.attempts

module _ (x : Codec) (i : ObjectId) (cause : Error) (backoff : Duration) (now : Time) (j : Job)
    (s s1 : View) (found : doc i s.docs ≡ some j) (f : Fails x i cause backoff s s1) where
  retried :
      (b k : Job)
      → doc k.id s1.docs ≡ some b
      → k.id ≡ i
      → b.status ≡ pending
      → b.scheduled_at ≤ℤ now
      → k.attempts ≡ b.attempts
      → IsRetry x backoff now j s1 k
  retried b k at e p due same =
      let b_after : b ≡ f.after = ground (arith, at, e, ap (λ m. doc m s1.docs) e, f.puts.at) in
      let before_j : f.before ≡ j = ground (arith, f.found, found) in
      let once : FailedOnce x cause backoff f.now j b =
        subst (λ m. FailedOnce x cause backoff f.now j m) (sym b_after)
          (subst (λ m. FailedOnce x cause backoff f.now m f.after) before_j f.failed_once) in
      elim once.outcome [
        | inl o ↦ absurd (ground (arith, o.1, p))
        | inr o ↦ record {
          failed_at = f.now;
          recorded = (b, at, once.recorded);
          waited = subst (λ t. t ≤ℤ now) o.2 due;
          attempts_left = o.0;
          same_attempts = same ∙ once.counted;
        }
      ]

  other_or_IsRetry : (k : Job) → ClaimedFrom x now s1 k → (k.id ≢ i) ⊎ IsRetry x backoff now j s1 k
  other_or_IsRetry k c = elim (Bool-cases (k.id == i)) [
    | inl e ↦
        let same : k.id ≡ i = (==_iff k.id i).0 e in
        inr (retried c.before k c.found same c.was_pending c.was_due c.same_attempts)
    | inr e ↦ inl (λ h. ground (arith, e, h))
  ]

-- In a collection with unique ids that holds the job under the id, right after a `MarkFailed` that
-- returned no error, `ClaimDueJobs` returns the job again only if it had an attempt left and the
-- backoff after the time at which the failure was recorded has passed, in whole milliseconds, and then
-- with one attempt more: a job that is dead-lettered is not claimed, and a retry not before its time.
pub claim_after_failure :
    (w : World) (s : w.State) (i : ObjectId) (cause : Error) (backoff : Duration) (j : Job)
    (now : Time) (limit : ℤ)
    → UniqueIds (w.view s).docs
    → doc i (w.view s).docs ≡ some j
    → (run w (mark_failed i cause backoff) s).0 ≡ none
    → let s1 = (run w (mark_failed i cause backoff) s).1 in
      All
        (λ k. (k.id ≢ i) ⊎ IsRetry w.codec backoff now j (w.view s1) k)
        (run w (claim_due_jobs now limit) s1).0.0
claim_after_failure w s i cause backoff j now limit u found h =
    let s1 = (run w (mark_failed i cause backoff) s).1 in
    let f : Fails w.codec i cause backoff (w.view s) (w.view s1) =
      subst (λ e. FailOutcome w.codec i cause backoff (w.view s) e (w.view s1)) h
        (mark_failed-FailOutcome w s i cause backoff u) in
    let (le, distinct, from) = claim_due_jobs-ClaimedFrom w s1 now limit f.puts.unique in
    All-imp (ClaimedFrom w.codec now (w.view s1)) _ _
      (other_or_IsRetry w.codec i cause backoff now j (w.view s) (w.view s1) found f) from
