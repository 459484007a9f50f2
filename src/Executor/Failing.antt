-- ===== src/Executor/Failing.antt =====
-- `fail`, by what the database and the message broker answer it.
use high_scale_job_scheduler.Prelude.{
  ◌≡◌, refl, ◌∙◌, ap, ◌⊎◌, inl, inr, Bool, true, false, arith, Option, none, some, ◌∷◌, ◌&&◌,
}
use high_scale_job_scheduler.Errors.{Error, Result, ok, err}
use high_scale_job_scheduler.Models.{Job, dlq}
use high_scale_job_scheduler.Topics.{DispatchMessage, dlq_topic}
use high_scale_job_scheduler.Effects.{ret, Message, count, hex, produce, jobs_processed_failure}
use high_scale_job_scheduler.Effects.Docs.{UniqueIds, doc}
use high_scale_job_scheduler.Effects.World.{View, Codec, Effect, World, run, run-bind}
use high_scale_job_scheduler.Store.{mark_failed, error_of}
use high_scale_job_scheduler.Store.Failure.{FailOutcome, mark_failed-FailOutcome}
use high_scale_job_scheduler.Dispatch.{publish_dlq}
use high_scale_job_scheduler.Executor.{
  Runner, fail, dead_letter_if, after_failure, is_exhausted, exponential_backoff,
}
use high_scale_job_scheduler.Executor.DeadLetter.{Recorded, dlq_message, recorded_of, exhausted_dlq}

module _ (x : Codec) (rn : Runner) (job d : Job) (cause : Error) where
  -- By the answers of `MarkFailed` and of the dead-letter topic: the failure is recorded, unless
  -- `MarkFailed` answers an error, and then nothing is sent; and if no attempt is left and there is a
  -- producer, the message is sent, unless the topic answers an error.
  pub data FailureOutcome (written published : Option Error) (s s' : View) : Type 0 where
    unwritten :
        (e : Error)
        → written ≡ some e
        → (s'.docs ≡ s.docs) ⊎ Recorded x rn job d cause s s'
        → s'.produced ≡ s.produced
        → FailureOutcome written published s s'
    recorded :
        written ≡ none
        → Recorded x rn job d cause s s'
        → (is_exhausted job && rn.has_producer) ≡ false
        → s'.produced ≡ s.produced
        → FailureOutcome written published s s'
    dead_lettered :
        written ≡ none
        → (r : Recorded x rn job d cause s s') → r.after.status ≡ dlq
        → rn.has_producer ≡ true
        → s'.produced ≡ dlq_message x rn job d cause ∷ s.produced
        → FailureOutcome written published s s'
    unpublished :
        written ≡ none
        → (r : Recorded x rn job d cause s s') → r.after.status ≡ dlq
        → rn.has_producer ≡ true
        → (e : Error) → published ≡ some e
        → s'.produced ≡ s.produced
        → FailureOutcome written published s s'

module _ (w : World) (s : w.State) (rn : Runner) (job : Job) (cause : Error) where
  abbrev counted : w.State
  counted = (w.exec (count (jobs_processed_failure job.job_type)) s).1

  -- The answer of `MarkFailed`, and the state after it.
  abbrev pub write_answer : Option Error
  write_answer = (run w (mark_failed job.id cause (exponential_backoff job.attempts)) counted).0

  abbrev written : w.State
  written = (run w (mark_failed job.id cause (exponential_backoff job.attempts)) counted).1

  abbrev letter : DispatchMessage
  letter = record {
    job_id = (w.exec (hex job.id) written).0;
    job_type = job.job_type;
    priority = job.priority;
  }

  -- The answer of the dead-letter topic.
  abbrev pub publish_answer : Option Error
  publish_answer = (run w (publish_dlq letter) (w.exec (hex job.id) written).1).0

  module _ (d : Job) (u : UniqueIds (w.view s).docs) (found : doc job.id (w.view s).docs ≡ some d)
      (attempts : d.attempts ≡ job.attempts)
      (max_attempts : d.max_attempts ≡ job.max_attempts) where
    abbrev Outcome : Option Error → Option Error → w.State → Type 0
    Outcome wrote published s' =
        FailureOutcome w.codec rn job d cause wrote published (w.view s) (w.view s')

    same_counted : w.view counted ≡ record (w.view s) { counted = (w.view counted).counted }
    same_counted = ground (arith, w.lawful (count (jobs_processed_failure job.job_type)) s)

    same_docs : (w.view counted).docs ≡ (w.view s).docs
    same_docs = ap (λ v. v.docs) same_counted

    same_produced : (w.view counted).produced ≡ (w.view s).produced
    same_produced = ap (λ v. v.produced) same_counted

    -- What is sent, after a record of the failure that changed nothing else.
    sent :
        (r : Recorded w.codec rn job d cause (w.view s) (w.view written))
        → write_answer ≡ none
        → is_exhausted job ≡ true
        → rn.has_producer ≡ true
        → (w.view written).produced ≡ (w.view s).produced
        → Outcome write_answer publish_answer
            (run w (publish_dlq letter) (w.exec (hex job.id) written).1).1
    unfolding run publish_dlq
    sent r wrote exhausted on same =
        by_reply (w.exec (produce m) s3).0 refl (w.lawful (produce m) s3)
      where
        s3 : w.State
        s3 = (w.exec (hex job.id) written).1

        m : Message
        m = record { topic = dlq_topic; key = letter.job_id; value = some letter }

        s4 : w.State
        s4 = (w.exec (produce m) s3).1

        named : letter.job_id ≡ w.codec.hex_of job.id
        named = (w.lawful (hex job.id) written).0

        kept : w.view s3 ≡ w.view written
        kept = (w.lawful (hex job.id) written).1

        is_dlq : r.after.status ≡ dlq
        is_dlq =
            exhausted_dlq w.codec rn job d cause (w.view s) u found attempts max_attempts
              (w.view written) r exhausted

        in_state :
            (v : View)
            → v.docs ≡ (w.view written).docs
            → Recorded w.codec rn job d cause (w.view s) v
        in_state v e = record {
          now = r.now;
          after = r.after;
          at = rw e r.at;
          failed_once = r.failed_once;
          frame = λ k n. rw e (r.frame k n);
        }

        lettered :
            w.view s4 ≡ record (w.view s3) { produced = m ∷ (w.view s3).produced }
            → Outcome write_answer publish_answer s4
        lettered e =
            dead_lettered wrote (in_state (w.view s4) (ap (λ v. v.docs) e ∙ ap (λ v. v.docs) kept))
              is_dlq on (ground (arith, e, kept, named, same))

        by_reply :
            (a : Result (Unit {0}))
            → (w.exec (produce m) s3).0 ≡ a
            → Effect w.codec (produce m) a (w.view s3) (w.view s4)
            → Outcome write_answer publish_answer s4
        by_reply (ok _) q e = lettered e
        by_reply (err c) q (inr e) = lettered e
        by_reply (err c) q (inl e) =
            unpublished wrote (in_state (w.view s4) (ap (λ v. v.docs) (e ∙ kept))) is_dlq on c
              (ap error_of q) (ap (λ v. v.produced) (e ∙ kept) ∙ same)

    lettered_if :
        (b : Bool)
        → (is_exhausted job && rn.has_producer) ≡ b
        → write_answer ≡ none
        → Recorded w.codec rn job d cause (w.view s) (w.view written)
        → (w.view written).produced ≡ (w.view s).produced
        → Outcome write_answer publish_answer (run w (dead_letter_if b job) written).1
    unfolding run
    lettered_if false h wrote r same = recorded wrote r h same
    lettered_if true h wrote r same =
        rw (run-bind w (publish_dlq letter) (λ _. ret tt) (w.exec (hex job.id) written).1)
          (sent r wrote (ground (arith, h)) (ground (arith, h)) same)

    by_write :
        (e : Option Error)
        → write_answer ≡ e
        → FailOutcome w.codec job.id cause
            (exponential_backoff job.attempts)
            (w.view counted)
            e
            (w.view written)
        → Outcome write_answer publish_answer (run w (after_failure rn job e) written).1
    unfolding run
    by_write none q f =
        lettered_if (is_exhausted job && rn.has_producer) refl q
          (recorded_of w.codec rn job d cause (w.view s) u found attempts max_attempts
            (w.view counted) (w.view written) same_docs f)
          (ap (λ v. v.produced) f.puts.elsewhere ∙ same_produced)
    by_write (some e) q (inl same) =
        unwritten e q (inl (ap (λ v. v.docs) same ∙ same_docs))
          (ap (λ v. v.produced) same ∙ same_produced)
    by_write (some e) q (inr f) =
        unwritten e q
          (inr (
            recorded_of w.codec rn job d cause (w.view s) u found attempts max_attempts
              (w.view counted) (w.view written) same_docs f))
          (ap (λ v. v.produced) f.puts.elsewhere ∙ same_produced)

-- In a collection with unique ids that holds the job with the attempts and the maximum that the
-- runner read, `fail` does as `MarkFailed` and the dead-letter topic answer. One failed attempt of the
-- job is recorded, retried after the backoff for those attempts or dead-lettered, and no other document
-- is changed; only if `MarkFailed` answers an error, the documents may be as they were, and then nothing
-- is sent. If no attempt is left and the runner has a producer, the job is dead-lettered in the
-- collection and one message is sent on the dead-letter topic, which names it; only if the topic answers
-- an error, it may be missing. Otherwise nothing is sent.
pub fail-FailureOutcome :
    (w : World) (s : w.State) (rn : Runner) (job d : Job) (cause : Error)
    → UniqueIds (w.view s).docs
    → doc job.id (w.view s).docs ≡ some d
    → d.attempts ≡ job.attempts
    → d.max_attempts ≡ job.max_attempts
    → FailureOutcome w.codec rn job d cause
        (write_answer w s rn job cause)
        (publish_answer w s rn job cause)
        (w.view s)
        (w.view (run w (fail rn job cause) s).1)
unfolding run fail
fail-FailureOutcome w s rn job d cause u found attempts max_attempts =
    let s1 = counted w s rn job cause in
    let b = exponential_backoff job.attempts in
    rw (run-bind w (mark_failed job.id cause b) (after_failure rn job) s1) (
      by_write w s rn job cause d u found attempts max_attempts (write_answer w s rn job cause) refl
        (mark_failed-FailOutcome w s1 job.id cause b
          (rw (same_docs w s rn job cause d u found attempts max_attempts) u)))
