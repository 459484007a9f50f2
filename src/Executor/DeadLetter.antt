-- ===== src/Executor/DeadLetter.antt =====
-- `fail`: the recorded failure and the dead-letter message, whatever the services answer.
use high_scale_job_scheduler.Prelude.{
  ◌≡◌, ◌≢◌, refl, ◌∙◌, subst, ap, inl, inr, Bool, true, false, arith, Option, none, some, ◌∷◌, ◌≤ℤ◌,
  inc_int, leb_ℤ→le, ◌<ℤ◌, ◌&&◌,
}
use high_scale_job_scheduler.Errors.{Error, ok, err}
use high_scale_job_scheduler.Models.{Job, ObjectId, Time, dlq}
use high_scale_job_scheduler.Topics.{dlq_topic}
use high_scale_job_scheduler.Effects.{Message}
use high_scale_job_scheduler.Effects.Docs.{UniqueIds, doc}
use high_scale_job_scheduler.Effects.World.{View, Codec, Ensures, Ensures-bind, Ensures-imp}
use high_scale_job_scheduler.Store.{mark_failed}
use high_scale_job_scheduler.Store.Failure.{FailedOnce, FailOutcome, Fails, mark_failed-Ensures}
use high_scale_job_scheduler.Dispatch.{publish_dlq}
use high_scale_job_scheduler.Executor.{
  Runner, fail, dead_letter_if, after_failure, is_exhausted, exponential_backoff,
}

module _ (x : Codec) (rn : Runner) (job d : Job) (cause : Error) where
  -- The message that a dead-lettered job leaves.
  abbrev pub dlq_message : Message
  dlq_message = record {
    topic = dlq_topic;
    key = x.hex_of job.id;
    value =
        some
          (record { job_id = x.hex_of job.id; job_type = job.job_type; priority = job.priority });
  }

  -- The failure is recorded, with the backoff of the attempts before it.
  pub record Recorded (s s' : View) : Type 0 where
    pub now : Time
    pub after : Job
    pub at : doc job.id s'.docs ≡ some after
    pub failed_once : FailedOnce x cause (exponential_backoff job.attempts) now d after
    pub frame : (k : ObjectId) → k ≢ job.id → doc k s'.docs ≡ doc k s.docs

  -- The failure is recorded, or nothing is done to the collection; a dead-letter message is sent at
  -- most once, and only for a job that has been dead-lettered.
  pub data FailureEffect (s s' : View) : Type 0 where
    unrecorded : s'.docs ≡ s.docs → s'.produced ≡ s.produced → FailureEffect s s'
    recorded : Recorded s s' → s'.produced ≡ s.produced → FailureEffect s s'
    dead_lettered :
        (r : Recorded s s')
        → r.after.status ≡ dlq
        → rn.has_producer ≡ true
        → s'.produced ≡ dlq_message ∷ s.produced
        → FailureEffect s s'

  module _ (s : View) (u : UniqueIds s.docs) (found : doc job.id s.docs ≡ some d)
      (attempts : d.attempts ≡ job.attempts)
      (max_attempts : d.max_attempts ≡ job.max_attempts) where
    pub recorded_of :
        (s0 s1 : View)
        → s0.docs ≡ s.docs
        → Fails x job.id cause (exponential_backoff job.attempts) s0 s1
        → Recorded s s1
    recorded_of s0 s1 e f = record {
      now = f.now;
      after = f.after;
      at = f.puts.at;
      failed_once =
          subst (λ b. FailedOnce x cause (exponential_backoff job.attempts) f.now b f.after)
            (ground (arith, f.found, found, e)) f.failed_once;
      frame = λ k n. f.puts.frame k n ∙ ap (doc k) e;
    }

    pub exhausted_dlq :
        (s1 : View) (r : Recorded s s1) → is_exhausted job ≡ true → r.after.status ≡ dlq
    exhausted_dlq s1 r h = elim r.failed_once.outcome [
      | inl q ↦ q.1
      | inr q ↦
          let l : job.max_attempts ≤ℤ inc_int job.attempts =
            leb_ℤ→le job.max_attempts (inc_int job.attempts) h in
          let a : inc_int d.attempts <ℤ d.max_attempts = q.0 in
          absurd (omega (arith, l, rw (attempts, max_attempts) at a))
    ]

    abbrev recorded_in : (s1 s2 : View) → s2.docs ≡ s1.docs → Recorded s s1 → Recorded s s2
    recorded_in s1 s2 e r = record {
      now = r.now;
      after = r.after;
      at = rw e r.at;
      failed_once = r.failed_once;
      frame = λ k n. rw e (r.frame k n);
    }

    sent :
        (s1 s2 : View) (r : Recorded s s1)
        → r.after.status ≡ dlq
        → rn.has_producer ≡ true
        → s1.produced ≡ s.produced
        → s2 ≡ record s1 { produced = dlq_message ∷ s1.produced }
        → FailureEffect s s2
    sent s1 s2 r h on same e =
        dead_lettered (recorded_in s1 s2 (ground (arith, e)) r) h on (ground (arith, e, same))

    not_sent :
        (s1 s2 : View) → Recorded s s1 → s1.produced ≡ s.produced → s2 ≡ s1 → FailureEffect s s2
    not_sent s1 s2 r same e =
        recorded (recorded_in s1 s2 (ground (arith, e)) r) (ground (arith, e, same))

    dead_letter_if-Ensures :
        (b : Bool) (s1 : View)
        → (is_exhausted job && rn.has_producer) ≡ b
        → Recorded s s1
        → s1.produced ≡ s.produced
        → Ensures x (dead_letter_if b job) s1 (λ _ s'. FailureEffect s s')
    unfolding publish_dlq
    dead_letter_if-Ensures false s1 h r same = recorded r same
    dead_letter_if-Ensures true s1 h r same =
        let done : (s3 : View)
            → s3 ≡ record s1 { produced = dlq_message ∷ s1.produced }
            → FailureEffect s s3 =
          λ s3. sent s1 s3 r (exhausted_dlq s1 r (ground (arith, h))) (ground (arith, h)) same in
        λ id s2 (h2, e2). elim [
          | ok _ ↦ λ s3 e3. done s3 (ground (arith, e2, e3, h2))
          | err _ ↦ λ s3. elim [
            | inl e3 ↦ not_sent s1 s3 r same (e3 ∙ e2)
            | inr e3 ↦ done s3 (ground (arith, e2, e3, h2))
          ]
        ]

    after_failure-Ensures :
        (r : Option Error) (s0 s1 : View)
        → s0.docs ≡ s.docs
        → s0.produced ≡ s.produced
        → FailOutcome x job.id cause (exponential_backoff job.attempts) s0 r s1
        → Ensures x (after_failure rn job r) s1 (λ _ s'. FailureEffect s s')
    after_failure-Ensures none s0 s1 e p f =
        dead_letter_if-Ensures (is_exhausted job && rn.has_producer) s1 refl (recorded_of s0 s1 e f)
          (ap (λ (v : View). v.produced) f.puts.elsewhere ∙ p)
    after_failure-Ensures (some _) s0 s1 e p (inl same) = unrecorded (rw same e) (rw same p)
    after_failure-Ensures (some _) s0 s1 e p (inr f) =
        recorded (recorded_of s0 s1 e f) (ap (λ (v : View). v.produced) f.puts.elsewhere ∙ p)

    pub fail-Ensures : Ensures x (fail rn job cause) s (λ _ s'. FailureEffect s s')
    unfolding fail
    fail-Ensures = λ _ s0 e.
        let d : s0.docs ≡ s.docs = ground (arith, e) in
        let p : s0.produced ≡ s.produced = ground (arith, e) in
        Ensures-bind x (mark_failed job.id cause (exponential_backoff job.attempts))
          (after_failure rn job) s0 _
          (Ensures-imp x (mark_failed job.id cause (exponential_backoff job.attempts)) s0
            (FailOutcome x job.id cause (exponential_backoff job.attempts) s0) _
            (λ r s1 h. after_failure-Ensures r s0 s1 d p h)
            (mark_failed-Ensures x job.id cause (exponential_backoff job.attempts) s0 (rw d u)))
