-- ===== src/System/Progress/Passes.antt =====
-- internal/scheduler/loop.go: a pass of `runOnce` in a world that answers every claim.
use high_scale_job_scheduler.Prelude.{
  ℕ, zero, suc, ℤ, ◌≡◌, refl, ◌∙◌, subst, ap, ◌⊎◌, inl, inr, true, none, some, List, [], ◌∷◌, ◌++◌,
  All, All-imp, length,
}
use high_scale_job_scheduler.Errors.{Error, ok, err, is_no_documents}
use high_scale_job_scheduler.Models.{Job, Time}
use high_scale_job_scheduler.Effects.{◌>>=◌, time_now, find_one_and_update}
use high_scale_job_scheduler.Effects.Docs.{UniqueIds, doc}
use high_scale_job_scheduler.Effects.World.{View, Codec, World, run, run-bind_answer, run-Ensures}
use high_scale_job_scheduler.Store.{
  claim_loop, claim_due_jobs, rounds, is_due, set_queued, claims_before,
}
use high_scale_job_scheduler.Store.Claims.{
  Claims, nil, cons, Claims-ClaimedFrom, Claims-at, ClaimedFrom,
}
use high_scale_job_scheduler.Store.Batch.{Ended-none, Ended-Claims, claim_due_jobs-Ended}
use high_scale_job_scheduler.Store.Queue.{Dequeues, Claims-Dequeues}
use high_scale_job_scheduler.Scheduler.{claim_and_dispatch, run_once, dispatch_claimed}
use high_scale_job_scheduler.Scheduler.Dispatching.{
  claim_time, count-Ensures, after_start, run_once-observed, handed, IsOneOff, claimed-IsOneOff,
  Claims-dispatched,
}

-- A world that answers every claim of `ClaimDueJobs`: with a job, or with the error that there is none.
abbrev pub AnswersClaims : World → Type 0
AnswersClaims w =
    (now at : Time) (s : w.State)
    → ((j : Job) × ((w.exec (find_one_and_update (is_due now) (set_queued at) claims_before) s).0
          ≡ ok j))
      ⊎ ((e : Error) × ((w.exec (find_one_and_update (is_due now) (set_queued at) claims_before)
              s).0
            ≡ err e)
          × (is_no_documents e ≡ true))

module _ (w : World) (claims : AnswersClaims w) where
  claim_loop_answers :
      (n : ℕ) (now : Time) (jobs : List Job) (s : w.State)
      → (run w (claim_loop n now jobs) s).0.1 ≡ none
  unfolding claim_loop run
  claim_loop_answers zero now jobs s = refl
  claim_loop_answers (suc n) now jobs s =
      let (at, s1) = w.exec time_now s in
      let s2 = (w.exec (find_one_and_update (is_due now) (set_queued at) claims_before) s1).1 in
      elim (claims now at s1) [
        | inl (j, e) ↦ rw e (claim_loop_answers n now (jobs ++ j ∷ []) s2)
        | inr (e, q, h) ↦ rw (q, h) refl
      ]

  claim_due_jobs_answers :
      (now : Time) (limit : ℤ) (s : w.State) → (run w (claim_due_jobs now limit) s).0.1 ≡ none
  unfolding claim_due_jobs
  claim_due_jobs_answers now limit s = claim_loop_answers (rounds limit) now [] s

module _ (x : Codec) (now : Time) where
  Claims-unique :
      {js : List Job} {s s' : View} → Claims x now js s s' → UniqueIds s.docs → UniqueIds s'.docs
  Claims-unique (nil e) u = rw e u
  Claims-unique (cons c cs) u = Claims-unique cs c.puts.unique

  -- A pass that dispatched what it took from the queue of the due jobs.
  pub record Pass (limit : ℤ) (s s' : View) : Type 0 where
    pub jobs : List Job
    pub queue : Dequeues now (rounds limit) s.docs s'.docs jobs
    pub from : All (ClaimedFrom x now s) jobs
    pub at : All (λ j. doc j.id s'.docs ≡ some j) jobs
    pub unique : UniqueIds s'.docs
    pub dispatched : s'.dispatched ≡ handed jobs s.dispatched

  Pass-counted :
      (limit : ℤ) {s s' t : View}
      → t.docs ≡ s'.docs
      → t.dispatched ≡ s'.dispatched
      → Pass limit s s'
      → Pass limit s t
  Pass-counted limit docs sent p = record {
    jobs = p.jobs;
    queue = rw docs p.queue;
    from = p.from;
    at = rw docs p.at;
    unique = rw docs p.unique;
    dispatched = sent ∙ p.dispatched;
  }

module _ (w : World) (claims : AnswersClaims w) (limit : ℤ) where
  claims-Pass :
      (now : Time) (s1 : w.State)
      → UniqueIds (w.view s1).docs
      → All IsOneOff (w.view s1).docs
      → Pass w.codec now limit
          (w.view s1)
          (w.view (run w (claim_due_jobs now limit >>= dispatch_claimed) s1).1)
  claims-Pass now s1 u a =
      let ((jobs, e), s2) = run w (claim_due_jobs now limit) s1 in
      let h : e ≡ none = claim_due_jobs_answers w claims now limit s1 in
      let ended = claim_due_jobs-Ended w s1 now limit u in
      let (cs, all) = Ended-none w.codec now ended h in
      let (_, _, le) = Ended-Claims w.codec now ended in
      let from = Claims-ClaimedFrom w.codec now cs in
      let one_off =
        All-imp (ClaimedFrom w.codec now (w.view s1)) IsOneOff jobs
          (claimed-IsOneOff w.codec now (w.view s1) a) from in
      let s3 = (run w (dispatch_claimed (jobs, none)) s2).1 in
      let (sent, docs) : ((w.view s3).dispatched ≡ handed jobs (w.view s2).dispatched)
          × ((w.view s3).docs ≡ (w.view s2).docs) =
        run-Ensures w (dispatch_claimed (jobs, none)) s2 _
          (count-Ensures w.codec (length jobs) jobs (w.view s2) one_off) in
      let whole =
        run-bind_answer w (claim_due_jobs now limit) dispatch_claimed s1 (jobs, none)
          (ap (λ o. (jobs, o)) h) in
      rw whole (record {
        jobs = jobs;
        queue = rw docs (Claims-Dequeues w.codec now (rounds limit) cs le all);
        from = from;
        at = rw docs (Claims-at w.codec now cs);
        unique = rw docs (Claims-unique w.codec now cs u);
        dispatched = sent ∙ ap (handed jobs) (Claims-dispatched w.codec now cs);
      })

  claim_and_dispatch-Pass :
      (s : w.State)
      → UniqueIds (w.view s).docs
      → All IsOneOff (w.view s).docs
      → Pass w.codec
          (w.exec time_now s).0
          limit
          (w.view s)
          (w.view (run w (claim_and_dispatch limit) s).1)
  unfolding run claim_and_dispatch
  claim_and_dispatch-Pass s u a =
      let (now, s1) = w.exec time_now s in
      let same = w.lawful time_now s in
      subst (λ v. Pass w.codec now limit v (w.view (run w (claim_and_dispatch limit) s).1)) same
        (claims-Pass now s1 (rw same u) (rw same a))

  pub run_once-Pass :
      (s : w.State)
      → UniqueIds (w.view s).docs
      → All IsOneOff (w.view s).docs
      → Pass w.codec (claim_time w s) limit (w.view s) (w.view (run w (run_once limit) s).1)
  run_once-Pass s u a =
      let same : w.view (after_start w s limit) ≡ w.view s = w.lawful time_now s in
      let observed = run_once-observed w s limit in
      let pass = claim_and_dispatch-Pass (after_start w s limit) (rw same u) (rw same a) in
      Pass-counted w.codec (claim_time w s) limit (ap (λ v. v.docs) observed)
        (ap (λ v. v.dispatched) observed) (rw same at pass)
