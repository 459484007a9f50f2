-- ===== src/Executor/Completion.antt =====
-- `Execute` where the database answers: a queued job whose handler succeeds is completed.
use high_scale_job_scheduler.Prelude.{
  ℕ, ◌≡◌, ◌≢◌, refl, ◌∙◌, subst, ap, inl, inr, arith, Option, none, some, Bool, String, ◌-ℤ◌,
}
use high_scale_job_scheduler.Errors.{Error, ok}
use high_scale_job_scheduler.Models.{Job, ObjectId, Time, queued, running, completed}
use high_scale_job_scheduler.Effects.{
  ret, time_now, update_one, count, jobs_processed_success, executor_job_duration,
}
use high_scale_job_scheduler.Effects.Docs.{UniqueIds, doc, doc-id}
use high_scale_job_scheduler.Effects.World.{View, World, run, run-bind_answer, Effect}
use high_scale_job_scheduler.Store.{
  mark_claimed, mark_running, mark_completed, is_queued_job, set_claimed,
}
use high_scale_job_scheduler.Store.Update.{UpdateReply, update_one-reply}
use high_scale_job_scheduler.Store.Failure.{SameWork, SameWork-trans}
use high_scale_job_scheduler.Store.Moves.{
  Moves, MoveOutcome, MarkClaimedOutcome, TurnsTo, ClaimedBy,
}
use high_scale_job_scheduler.Store.Transitions.{
  mark_claimed-Moves, mark_running-Moves, mark_completed-Moves,
}
use high_scale_job_scheduler.Executor.{
  Runner, Handler, execute, execute_from, run_handler, finish, complete_job, observe_job, get,
}

-- A world whose updates of a document are always answered.
abbrev pub Answers : World → Type 0
Answers w =
    (p : Job → Bool) (f : Job → Job) (s : w.State)
    → (n : ℕ) × ((w.exec (update_one p f) s).0 ≡ ok n)

-- The job is completed, as the same work; nothing else is changed.
pub record Completes (i : ObjectId) (j : Job) (s s' : View) : Type 0 where
  pub after : Job
  pub at : doc i s'.docs ≡ some after
  pub is_completed : after.status ≡ completed
  pub same_attempts : after.attempts ≡ j.attempts
  pub same_work : SameWork j after
  pub frame : (k : ObjectId) → k ≢ i → doc k s'.docs ≡ doc k s.docs

module _ (w : World) (answers : Answers w) where
  clock_same : (s : w.State) → w.view (w.exec time_now s).1 ≡ w.view s
  clock_same s = w.lawful time_now s

  mark_claimed_answers :
      (s : w.State) (i : ObjectId) (worker_id : String) (j : Job)
      → UniqueIds (w.view s).docs
      → doc i (w.view s).docs ≡ some j
      → j.status ≡ queued
      → (run w (mark_claimed i worker_id) s).0 ≡ none
  unfolding run mark_claimed
  mark_claimed_answers s i worker_id j u found q =
      let (now, s1) = w.exec time_now s in
      let (n, e) = answers (is_queued_job i) (set_claimed worker_id now) s1 in
      let same = clock_same s in
      let r : UpdateReply w.codec i (is_queued_job i) (set_claimed worker_id now) (ok n) (w.view s1)
          (w.view (w.exec (update_one (is_queued_job i) (set_claimed worker_id now)) s1).1) =
        update_one-reply w.codec (is_queued_job i) (set_claimed worker_id now) i
          (λ k h. ground arith) (λ k. refl) (ok n) (w.view s1) _ (rw same u)
          (subst
            (λ a.
              Effect w.codec (update_one (is_queued_job i) (set_claimed worker_id now)) a
                (w.view s1)
                (w.view (w.exec (update_one (is_queued_job i) (set_claimed worker_id now)) s1).1))
            e (w.lawful (update_one (is_queued_job i) (set_claimed worker_id now)) s1)) in
      rw e (elim r [
        | inl (z, miss, _) ↦
            absurd (ground (arith, miss j (rw same found), doc-id i j (w.view s).docs found, q))
        | inr (one, _) ↦ rw one refl
      ])

  mark_running_answers : (s : w.State) (i : ObjectId) → (run w (mark_running i) s).0 ≡ none
  unfolding run mark_running
  mark_running_answers s i = rw ((answers _ _ (w.exec time_now s).1).1) refl

  mark_completed_answers : (s : w.State) (i : ObjectId) → (run w (mark_completed i) s).0 ≡ none
  unfolding run mark_completed
  mark_completed_answers s i = rw ((answers _ _ (w.exec time_now s).1).1) refl

  moved :
      (s : w.State) (i : ObjectId) (R : Job → Job → Type 0) (e : Option Error) (s' : View) (j : Job)
      → e ≡ none
      → doc i (w.view s).docs ≡ some j
      → MoveOutcome i R (w.view s) e s'
      → Moves i R (w.view s) s'
  moved s i R none s' j h found (inl m) = m
  moved s i R none s' j h found (inr (missing, _)) = absurd (ground (arith, missing, found))
  moved s i R (some e) s' j h found m = absurd (cc (h))

  module _ (s : w.State) (start : Time) (rn : Runner) (job j : Job) (h : Handler)
      (u : UniqueIds (w.view s).docs) (found : doc job.id (w.view s).docs ≡ some j)
      (q : j.status ≡ queued) (handler : get rn.registry job.job_type ≡ ok h)
      (succeeds : h job.payload ≡ ret none) where
    abbrev after_claim : w.State
    after_claim = (run w (mark_claimed job.id rn.worker_id) s).1

    abbrev after_start : w.State
    after_start = (run w (mark_running job.id) after_claim).1

    abbrev after_observe : w.State
    after_observe = (run w (observe_job job start) after_start).1

    abbrev after_count : w.State
    after_count = (w.exec (count (jobs_processed_success job.job_type)) after_observe).1

    claims : Moves job.id (ClaimedBy w.codec rn.worker_id) (w.view s) (w.view after_claim)
    claims =
        subst
          (λ e. MarkClaimedOutcome w.codec job.id rn.worker_id (w.view s) e (w.view after_claim))
          (mark_claimed_answers s job.id rn.worker_id j u found q)
          (mark_claimed-Moves w s job.id u rn.worker_id)

    starts : Moves job.id (TurnsTo w.codec running) (w.view after_claim) (w.view after_start)
    starts =
        moved after_claim job.id (TurnsTo w.codec running) _ (w.view after_start) claims.after
          (mark_running_answers after_claim job.id) claims.puts.at
          (mark_running-Moves w after_claim job.id claims.puts.unique)

    counted : (w.view after_count).docs ≡ (w.view after_start).docs
    unfolding run
    counted =
        let s1 = (w.exec time_now after_start).1 in
        let seconds =
          count (executor_job_duration job.job_type ((w.exec time_now after_start).0 -ℤ start)) in
        ap (λ (v : View). v.docs)
          (w.lawful (count (jobs_processed_success job.job_type)) after_observe)
        ∙ ap (λ (v : View). v.docs) (w.lawful seconds s1)
        ∙ ap (λ (v : View). v.docs) (clock_same after_start)

    completes :
        Moves job.id
          (TurnsTo w.codec completed)
          (w.view after_count)
          (w.view (run w (mark_completed job.id) after_count).1)
    completes =
        moved after_count job.id (TurnsTo w.codec completed) _ _ starts.after
          (mark_completed_answers after_count job.id) (counted-doc)
          (mark_completed-Moves w after_count job.id (rw counted starts.puts.unique))
      where
        counted-doc : doc job.id (w.view after_count).docs ≡ some starts.after
        counted-doc = rw counted starts.puts.at

    run-finish :
        (run w (finish rn job start none) after_start).1
        ≡ (run w (mark_completed job.id) after_count).1
    unfolding run
    run-finish =
        ap (λ (p : Unit {0} × w.State). p.1)
          (run-bind_answer w (observe_job job start) (λ _. complete_job job) after_start tt refl
            ∙ run-bind_answer w (mark_completed job.id) (λ _. ret tt) after_count none
                (mark_completed_answers after_count job.id))

    run_handled :
        (run w (run_handler rn job start (get rn.registry job.job_type)) after_start).1
        ≡ (run w (mark_completed job.id) after_count).1
    run_handled = rw (handler, succeeds) run-finish

    run-execute_from :
        (run w (execute_from rn job start) s).1 ≡ (run w (mark_completed job.id) after_count).1
    run-execute_from =
        ap (λ (p : Unit {0} × w.State). p.1)
          (run-bind_answer w (mark_claimed job.id rn.worker_id) _ s none
              (mark_claimed_answers s job.id rn.worker_id j u found q)
            ∙ run-bind_answer w (mark_running job.id) _ after_claim none
                (mark_running_answers after_claim job.id))
        ∙ run_handled

    execute_done :
        Completes job.id j (w.view s) (w.view (run w (mark_completed job.id) after_count).1)
    execute_done =
        let b1 : claims.before ≡ j = ground (arith, claims.found, found) in
        let b2 : starts.before ≡ claims.after = ground (arith, starts.found, claims.puts.at) in
        let b3 : completes.before ≡ starts.after =
          ground (arith, completes.found, starts.puts.at, ap (doc job.id) counted) in
        record {
          after = completes.after;
          at = completes.puts.at;
          is_completed = completes.related.turned;
          same_attempts =
              completes.related.same_attempts
              ∙ ap (λ k. k.attempts) b3
              ∙ starts.related.same_attempts
              ∙ ap (λ k. k.attempts) b2
              ∙ claims.related.turns.same_attempts
              ∙ ap (λ k. k.attempts) b1;
          same_work = SameWork-trans (subst (λ k. SameWork k claims.after) b1 claims.same_work) (
              SameWork-trans (subst (λ k. SameWork k starts.after) b2 starts.same_work)
                (subst (λ k. SameWork k completes.after) b3 completes.same_work));
          frame = λ k n.
              completes.puts.frame k n
              ∙ ap (doc k) counted
              ∙ starts.puts.frame k n
              ∙ claims.puts.frame k n;
        }

-- In a world whose updates of a document are always answered and a collection with unique ids that
-- holds the job queued, `Execute` with a handler that is registered for the job type and succeeds on
-- the payload leaves the job completed, with its work and its attempts, and every other document as it
-- was.
pub execute-Completes :
    (w : World) (answers : Answers w) (s : w.State) (rn : Runner) (job j : Job) (h : Handler)
    → UniqueIds (w.view s).docs
    → doc job.id (w.view s).docs ≡ some j
    → j.status ≡ queued
    → get rn.registry job.job_type ≡ ok h
    → h job.payload ≡ ret none
    → Completes job.id j (w.view s) (w.view (run w (execute rn job) s).1)
unfolding run execute
execute-Completes w answers s rn job j h u found q handler succeeds =
    let (start, s1) = w.exec time_now s in
    let same : w.view s1 ≡ w.view s = w.lawful time_now s in
    let u1 : UniqueIds (w.view s1).docs = rw same u in
    let found1 : doc job.id (w.view s1).docs ≡ some j = rw same found in
    let done : Completes job.id j (w.view s1) (w.view (run w (execute_from rn job start) s1).1) =
      rw (run-execute_from w answers s1 start rn job j h u1 found1 q handler succeeds)
        (execute_done w answers s1 start rn job j h u1 found1 q handler succeeds) in
    subst (λ v. Completes job.id j v (w.view (run w (execute_from rn job start) s1).1)) same done
