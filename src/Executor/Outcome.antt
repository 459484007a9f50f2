-- ===== src/Executor/Outcome.antt =====
-- `Execute` as a whole, whatever its handler and the services answer.
use high_scale_job_scheduler.Prelude.{
  ◌≡◌, ◌≢◌, refl, sym, ◌∙◌, subst, ap, ◌⊎◌, inl, inr, arith, Option, none, some, ◌∷◌, ◌≤ℤ◌, ◌<ℤ◌,
  ◌+ℤ◌, inc_int,
}
use high_scale_job_scheduler.Errors.{Error, Result, ok, err}
use high_scale_job_scheduler.Models.{
  Job, ObjectId, JobStatus, Time, pending, queued, claimed, running, completed, dlq,
}
use high_scale_job_scheduler.Effects.{ret}
use high_scale_job_scheduler.Effects.Docs.{UniqueIds, doc}
use high_scale_job_scheduler.Effects.World.{
  View, Codec, Ensures, Ensures-bind, Ensures-imp, World, run, run-Ensures,
}
use high_scale_job_scheduler.Store.{mark_claimed, mark_running, mark_completed}
use high_scale_job_scheduler.Store.Failure.{SameWork, SameWork-trans}
use high_scale_job_scheduler.Store.Moves.{
  Moves, MoveOutcome, MarkClaimedOutcome, TurnsTo, ClaimedBy, mark_claimed-Ensures,
  mark_running-Ensures, mark_completed-Ensures,
}
use high_scale_job_scheduler.Executor.{
  Runner, Handler, get, exponential_backoff, fail, finish, run_handler, after_start, after_claim,
  execute, execute_from, complete_job,
}
use high_scale_job_scheduler.Executor.Registered.{IsQuiet}
use high_scale_job_scheduler.Executor.DeadLetter.{
  FailureEffect, Recorded, fail-Ensures, dlq_message, unrecorded, recorded, dead_lettered,
}

module _ (x : Codec) (rn : Runner) (job j : Job) (s : View)
    (P : Handler → Option Error → Type 0) where
  -- The job under its id has a status, its work and its attempts; nothing else is changed.
  pub record Stands (status : JobStatus) (s' : View) : Type 0 where
    pub after : Job
    pub at : doc job.id s'.docs ≡ some after
    pub turned : after.status ≡ status
    pub same_attempts : after.attempts ≡ j.attempts
    pub same_work : SameWork j after
    pub frame : (k : ObjectId) → k ≢ job.id → doc k s'.docs ≡ doc k s.docs
    pub unique : UniqueIds s'.docs
    pub unsent : s'.produced ≡ s.produced

  -- One failed attempt is recorded, with the backoff for the attempts before it, and a message is sent
  -- only for a job that is dead-lettered.
  pub record FailedRun (cause : Error) (s' : View) : Type 0 where
    pub now : Time
    pub after : Job
    pub at : doc job.id s'.docs ≡ some after
    pub counted : after.attempts ≡ inc_int j.attempts
    pub reason : after.last_error ≡ some cause
    pub decision :
        ((j.max_attempts ≤ℤ inc_int j.attempts) × (after.status ≡ dlq))
        ⊎ ((inc_int j.attempts <ℤ j.max_attempts)
            × (after.status ≡ pending)
            × (after.scheduled_at ≡ x.datetime (now +ℤ exponential_backoff j.attempts)))
    pub same_work : SameWork j after
    pub frame : (k : ObjectId) → k ≢ job.id → doc k s'.docs ≡ doc k s.docs
    pub sent :
        (s'.produced ≡ s.produced)
        ⊎ ((after.status ≡ dlq) × (s'.produced ≡ dlq_message x rn job j cause ∷ s.produced))

  -- The error that a run fails with: of the registry, or a handler's.
  abbrev pub Fault : Error → Type 0
  Fault cause =
      (get rn.registry job.job_type ≡ err cause)
      ⊎ ((h : Handler) × (get rn.registry job.job_type ≡ ok h) × P h (some cause))

  -- Nothing was done; or the job was queued, and was left half-way by an error of the database,
  -- completed by a handler, or failed for want of a handler or by one.
  pub data ExecuteOutcome (s' : View) : Type 0 where
    untouched : s' ≡ s → ExecuteOutcome s'
    unfinished : j.status ≡ queued → Stands claimed s' ⊎ Stands running s' → ExecuteOutcome s'
    done :
        j.status ≡ queued
        → (h : Handler) → get rn.registry job.job_type ≡ ok h
        → P h none
        → Stands completed s'
        → ExecuteOutcome s'
    failed :
        j.status ≡ queued → (cause : Error) → Fault cause → FailedRun cause s' → ExecuteOutcome s'

  move_on :
      (before after : JobStatus) (t t' : View)
      → Stands before t
      → Moves job.id (TurnsTo x after) t t'
      → Stands after t'
  move_on before after t t' st m =
      let same : m.before ≡ st.after = ground (arith, m.found, st.at) in
      record {
        after = m.after;
        at = m.puts.at;
        turned = m.related.turned;
        same_attempts = m.related.same_attempts ∙ ap (λ k. k.attempts) same ∙ st.same_attempts;
        same_work = SameWork-trans st.same_work (subst (λ k. SameWork k m.after) same m.same_work);
        frame = λ k n. m.puts.frame k n ∙ st.frame k n;
        unique = m.puts.unique;
        unsent = ap (λ v. v.produced) m.puts.elsewhere ∙ st.unsent;
      }

  same_docs :
      (status : JobStatus) (t t' : View)
      → Stands status t
      → t'.docs ≡ t.docs
      → t'.produced ≡ t.produced
      → Stands status t'
  same_docs status t t' st e p = record {
    after = st.after;
    at = rw e st.at;
    turned = st.turned;
    same_attempts = st.same_attempts;
    same_work = st.same_work;
    frame = λ k n. rw e (st.frame k n);
    unique = rw e st.unique;
    unsent = p ∙ st.unsent;
  }

  -- A failure that is recorded for a job that stood.
  fail_on :
      (cause : Error) (status : JobStatus) (t t' : View) (st : Stands status t)
      → j.attempts ≡ job.attempts
      → (r : Recorded x rn job st.after cause t t')
      → (t'.produced ≡ t.produced)
        ⊎ ((r.after.status ≡ dlq) × (t'.produced ≡ dlq_message x rn job j cause ∷ t.produced))
      → FailedRun cause t'
  fail_on cause status t t' st read r sent = record {
    now = r.now;
    after = r.after;
    at = r.at;
    counted = r.failed_once.counted ∙ ap inc_int st.same_attempts;
    reason = r.failed_once.reason;
    decision = elim r.failed_once.outcome [
      | inl (le, q, _) ↦ inl (rw (st.same_work.max_attempts, st.same_attempts) at le, q)
      | inr (lt, q, at) ↦
          inr (rw (st.same_work.max_attempts, st.same_attempts) at lt, q, rw read at)
    ];
    same_work = SameWork-trans st.same_work r.failed_once.same_work;
    frame = λ k n. r.frame k n ∙ st.frame k n;
    sent = elim sent [
      | inl e ↦ inl (e ∙ st.unsent)
      | inr (q, e) ↦ inr (q, ground (arith, e, st.unsent))
    ];
  }

  module _ (was_queued : j.status ≡ queued) (read_attempts : j.attempts ≡ job.attempts)
      (read_max : j.max_attempts ≡ job.max_attempts) where
    fail-Outcome :
        (cause : Error) (t t' : View) (st : Stands running t)
        → Fault cause
        → FailureEffect x rn job st.after cause t t'
        → ExecuteOutcome t'
    fail-Outcome cause t t' st why (unrecorded d p) =
        unfinished was_queued (inr (same_docs running t t' st d p))
    fail-Outcome cause t t' st why (recorded r p) =
        failed was_queued cause why (fail_on cause running t t' st read_attempts r (inl p))
    fail-Outcome cause t t' st why (dead_lettered r q _ p) =
        failed was_queued cause why (fail_on cause running t t' st read_attempts r (inr (q, p)))

    fails-Ensures :
        (cause : Error) (t : View)
        → Stands running t
        → Fault cause
        → Ensures x (fail rn job cause) t (λ _ t'. ExecuteOutcome t')
    fails-Ensures cause t st why =
        Ensures-imp x (fail rn job cause) t (λ _ t'. FailureEffect x rn job st.after cause t t') _
          (λ _ t'. fail-Outcome cause t t' st why)
          (fail-Ensures x rn job st.after cause t st.unique st.at (st.same_attempts ∙ read_attempts)
            (st.same_work.max_attempts ∙ read_max))

    completed-Outcome :
        (h : Handler) (e : Option Error) (t t' : View)
        → get rn.registry job.job_type ≡ ok h
        → P h none
        → Stands running t
        → MoveOutcome job.id (TurnsTo x completed) t e t'
        → ExecuteOutcome t'
    completed-Outcome h none t t' g a st (inl m) =
        done was_queued h g a (move_on running completed t t' st m)
    completed-Outcome h none t t' g a st (inr (missing, _)) =
        absurd (ground (arith, missing, st.at))
    completed-Outcome h (some e) t t' g a st (inl m) =
        done was_queued h g a (move_on running completed t t' st m)
    completed-Outcome h (some e) t t' g a st (inr same) = unfinished was_queued (inr (rw same st))

    complete_job-Ensures :
        (h : Handler) (t : View)
        → get rn.registry job.job_type ≡ ok h
        → P h none
        → Stands running t
        → Ensures x (complete_job job) t (λ _ t'. ExecuteOutcome t')
    complete_job-Ensures h t g a st = λ _ t1 e1.
        let st1 = same_docs running t t1 st (ap (λ v. v.docs) e1) (ap (λ v. v.produced) e1) in
        Ensures-bind x (mark_completed job.id) (λ _. ret tt) t1 (λ _ t'. ExecuteOutcome t')
          (Ensures-imp x (mark_completed job.id) t1 (MoveOutcome job.id (TurnsTo x completed) t1) _
            (λ e t'. completed-Outcome h e t1 t' g a st1)
            (mark_completed-Ensures x job.id t1 st1.unique))

    finish-Ensures :
        (start : Time) (h : Handler) (e : Option Error) (t : View)
        → get rn.registry job.job_type ≡ ok h
        → P h e
        → Stands running t
        → Ensures x (finish rn job start e) t (λ _ t'. ExecuteOutcome t')
    finish-Ensures start h (some cause) t g a st = fails-Ensures cause t st (inr (h, g, a))
    finish-Ensures start h none t g a st = λ now t1 same _ t2 e. complete_job-Ensures h t2 g a (
        same_docs running t t2 st (ap (λ v. v.docs) e ∙ ap (λ v. v.docs) same)
          (ap (λ v. v.produced) e ∙ ap (λ v. v.produced) same))

    module _ (start : Time)
        (quiet : (h : Handler) → get rn.registry job.job_type ≡ ok h → IsQuiet x (P h) h) where
      run_handler-Ensures :
          (r : Result Handler) (t : View)
          → get rn.registry job.job_type ≡ r
          → Stands running t
          → Ensures x (run_handler rn job start r) t (λ _ t'. ExecuteOutcome t')
      run_handler-Ensures (err cause) t g st = fails-Ensures cause t st (inl g)
      run_handler-Ensures (ok h) t g st =
          Ensures-bind x (h job.payload) (finish rn job start) t (λ _ t'. ExecuteOutcome t')
            (Ensures-imp x (h job.payload) t (λ e t'. (t' ≡ t) × P h e) _
              (λ e t' (same, a). finish-Ensures start h e t' g a (rw same st))
              (quiet h g job.payload t))

      after_start-Ensures :
          (e : Option Error) (t t' : View)
          → Stands claimed t
          → MoveOutcome job.id (TurnsTo x running) t e t'
          → Ensures x (after_start rn job start e) t' (λ _ t''. ExecuteOutcome t'')
      after_start-Ensures none t t' st (inl m) =
          run_handler-Ensures (get rn.registry job.job_type) t' refl
            (move_on claimed running t t' st m)
      after_start-Ensures none t t' st (inr (missing, _)) = absurd (ground (arith, missing, st.at))
      after_start-Ensures (some e) t t' st (inl m) =
          unfinished was_queued (inr (move_on claimed running t t' st m))
      after_start-Ensures (some e) t t' st (inr same) = unfinished was_queued (inl (rw same st))

      start-Ensures :
          (t : View)
          → Stands claimed t
          → Ensures x (after_claim rn job start none) t (λ _ t'. ExecuteOutcome t')
      start-Ensures t st =
          Ensures-bind x (mark_running job.id) (after_start rn job start) t
            (λ _ t'. ExecuteOutcome t')
            (Ensures-imp x (mark_running job.id) t (MoveOutcome job.id (TurnsTo x running) t) _
              (λ e t'. after_start-Ensures e t t' st) (mark_running-Ensures x job.id t st.unique))

  module _ (u : UniqueIds s.docs) (found : doc job.id s.docs ≡ some j) where
    claim_found : (t : View) (m : Moves job.id (ClaimedBy x rn.worker_id) s t) → m.before ≡ j
    claim_found t m = ground (arith, m.found, found)

    claim-Stands : (t : View) → Moves job.id (ClaimedBy x rn.worker_id) s t → Stands claimed t
    claim-Stands t m =
        let same = claim_found t m in
        record {
          after = m.after;
          at = m.puts.at;
          turned = m.related.turns.turned;
          same_attempts = m.related.turns.same_attempts ∙ ap (λ k. k.attempts) same;
          same_work = subst (λ k. SameWork k m.after) same m.same_work;
          frame = m.puts.frame;
          unique = m.puts.unique;
          unsent = ap (λ v. v.produced) m.puts.elsewhere;
        }

    claim_queued : (t : View) → Moves job.id (ClaimedBy x rn.worker_id) s t → j.status ≡ queued
    claim_queued t m = subst (λ k. k.status ≡ queued) (claim_found t m) m.related.was_queued

    module _ (read_attempts : j.attempts ≡ job.attempts)
        (read_max : j.max_attempts ≡ job.max_attempts)
        (quiet : (h : Handler) → get rn.registry job.job_type ≡ ok h → IsQuiet x (P h) h) where
      after_claim-Ensures :
          (start : Time) (e : Option Error) (t : View)
          → MarkClaimedOutcome x job.id rn.worker_id s e t
          → Ensures x (after_claim rn job start e) t (λ _ t'. ExecuteOutcome t')
      after_claim-Ensures start none t m =
          start-Ensures (claim_queued t m) read_attempts read_max start quiet t (claim-Stands t m)
      after_claim-Ensures start (some e) t (inl (_, _, same)) = untouched same
      after_claim-Ensures start (some e) t (inr (inl same)) = untouched same
      after_claim-Ensures start (some e) t (inr (inr m)) =
          unfinished (claim_queued t m) (inl (claim-Stands t m))

      execute_from-Ensures :
          (start : Time) → Ensures x (execute_from rn job start) s (λ _ t. ExecuteOutcome t)
      execute_from-Ensures start =
          Ensures-bind x (mark_claimed job.id rn.worker_id) (after_claim rn job start) s
            (λ _ t. ExecuteOutcome t)
            (Ensures-imp x (mark_claimed job.id rn.worker_id) s
              (MarkClaimedOutcome x job.id rn.worker_id s) _ (after_claim-Ensures start)
              (mark_claimed-Ensures x job.id s u rn.worker_id))

      execute-Ensures : Ensures x (execute rn job) s (λ _ t. ExecuteOutcome t)
      unfolding execute
      execute-Ensures = λ start t e.
          subst (λ v. Ensures x (execute_from rn job start) v (λ _ t'. ExecuteOutcome t')) (sym e)
            (execute_from-Ensures start)

-- In a collection with unique ids that holds the job with the attempts and the maximum that were read,
-- and with handlers that change nothing that can be seen and answer as `P` allows, `Execute` does one
-- of these, whatever the services answer. It changes nothing. Or the job was queued, and is left
-- claimed or running. Or the job was queued, there is a handler for its type that may succeed, and the
-- job is completed. Or the job was queued and one failed attempt is recorded, whose reason is the error
-- of the registry or one that the handler may answer: the job is dead-lettered if no attempt is left,
-- else pending after the backoff for the attempts before. The job keeps its work, no other document is
-- changed, and a message is sent only for a job that is dead-lettered, one on the dead-letter topic
-- that names it.
pub execute-ExecuteOutcome :
    (w : World) (s : w.State) (rn : Runner) (job j : Job) (P : Handler → Option Error → Type 0)
    → UniqueIds (w.view s).docs
    → doc job.id (w.view s).docs ≡ some j
    → j.attempts ≡ job.attempts
    → j.max_attempts ≡ job.max_attempts
    → ((h : Handler) → get rn.registry job.job_type ≡ ok h → IsQuiet w.codec (P h) h)
    → ExecuteOutcome w.codec rn job j (w.view s) P (w.view (run w (execute rn job) s).1)
execute-ExecuteOutcome w s rn job j P u found attempts max_attempts quiet =
    run-Ensures w (execute rn job) s (λ _ t. ExecuteOutcome w.codec rn job j (w.view s) P t)
      (execute-Ensures w.codec rn job j (w.view s) P u found attempts max_attempts quiet)
