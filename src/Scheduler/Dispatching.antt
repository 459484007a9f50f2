-- ===== src/Scheduler/Dispatching.antt =====
-- `runOnce` over one-off jobs: what is dispatched.
use high_scale_job_scheduler.Prelude.{
  Bool-cases, ltb, ◌≤◌, false, ◌≡◌, refl, sym, ◌∙◌, subst, ap, arith, ℤ, List, [], ◌∷◌, Option,
  none, some, All, All-imp, str_eq, true, false, length, ℕ, zero, suc, ◌<◌, ◌⊎◌, inl, inr,
}
use high_scale_job_scheduler.Errors.{Error}
use high_scale_job_scheduler.Models.{Job, Time}
use high_scale_job_scheduler.Effects.{ret, ask, ◌>>=◌, go_dispatch, time_now}
use high_scale_job_scheduler.Effects.Docs.{NoneOf, UniqueIds, doc, doc-All}
use high_scale_job_scheduler.Effects.World.{
  View, Codec, Ensures, Ensures-imp, World, run, run-bind, run-bind_answer, run-Ensures,
}
use high_scale_job_scheduler.Store.{claim_due_jobs, rounds, is_due}
use high_scale_job_scheduler.Store.Batch.{Ended, Ended-none, Ended-Claims, claim_due_jobs-Ended}
use high_scale_job_scheduler.Store.Claims.{
  Claims-UniqueIds, Claims-ClaimedFrom, Claims-at, IsNotDue-of, ClaimedFrom, Claims, nil, cons,
  IsNotDue,
}
use high_scale_job_scheduler.Scheduler.{
  claim_and_dispatch, observe_tick, run_once, dispatch_claimed, dispatch_jobs, dispatch_one,
  count_claimed,
}

-- The jobs before those handed over already, the last one first.
abbrev pub handed : List Job → List Job → List Job
handed [] before = before
handed (j ∷ js) before = handed js (j ∷ before)

abbrev pub IsOneOff : Job → Type 0
IsOneOff j = str_eq j.cron "" ≡ true

module _ (x : Codec) where
  -- Every job is handed over once, in order, and nothing else is done.
  pub record Dispatches (jobs : List Job) (s s' : View) : Type 0 where
    pub dispatched : s'.dispatched ≡ handed jobs s.dispatched
    pub same_docs : s'.docs ≡ s.docs
    pub same_produced : s'.produced ≡ s.produced

  one_off : (j : Job) → IsOneOff j → dispatch_one j ≡ (ask (go_dispatch j) >>= λ _. ret tt)
  unfolding dispatch_one
  one_off j h = rw (h, dispatch_one) refl

  pub dispatch_jobs-Ensures :
      (jobs : List Job) (s : View)
      → All IsOneOff jobs
      → Ensures x (dispatch_jobs jobs) s (λ _ s'. Dispatches jobs s s')
  unfolding dispatch_jobs
  dispatch_jobs-Ensures [] s a = record {
    dispatched = refl;
    same_docs = refl;
    same_produced = refl;
  }
  dispatch_jobs-Ensures (j ∷ jobs) s a =
      subst (λ m. Ensures x (m >>= λ _. dispatch_jobs jobs) s (λ _ s'. Dispatches (j ∷ jobs) s s'))
        (sym (one_off j a.0))
        (λ r s1 e.
          Ensures-imp x (dispatch_jobs jobs) s1 (λ _ s'. Dispatches jobs s1 s') _
            (λ r' s' d. record {
              dispatched = d.dispatched ∙ ap (λ (v : View). handed jobs v.dispatched) e;
              same_docs = d.same_docs ∙ ap (λ (v : View). v.docs) e;
              same_produced = d.same_produced ∙ ap (λ (v : View). v.produced) e;
            })
            (dispatch_jobs-Ensures jobs s1 a.1))

  pub Claims-dispatched :
      (now : Time) {jobs : List Job} {s s' : View}
      → Claims x now jobs s s'
      → s'.dispatched ≡ s.dispatched
  Claims-dispatched now (nil e) = ap (λ (v : View). v.dispatched) e
  Claims-dispatched now (cons c cs) =
      Claims-dispatched now cs ∙ ap (λ (v : View). v.dispatched) c.puts.elsewhere

  pub claimed-IsOneOff :
      (now : Time) (s : View) → All IsOneOff s.docs → (j : Job) → ClaimedFrom x now s j → IsOneOff j
  claimed-IsOneOff now s a j c =
      rw c.same_work.cron (doc-All IsOneOff j.id c.before s.docs a c.found)

  -- A pass, by what `ClaimDueJobs` answers it, in the documents that the claims left: the jobs of the
  -- answer are dispatched, or nothing is if there is an error as well.
  pub data PassOutcome (now : Time) (limit : ℤ) (answer : List Job × Option Error)
      (s claimed s' : View) : Type 0 where
    passed :
        (jobs : List Job)
        → answer ≡ (jobs, none)
        → UniqueIds jobs
        → All (ClaimedFrom x now s) jobs
        → All (λ j. doc j.id s'.docs ≡ some j) jobs
        → ((length jobs ≡ rounds limit)
            ⊎ ((length jobs < rounds limit) × All (IsNotDue now) s'.docs))
        → s'.docs ≡ claimed.docs
        → s'.dispatched ≡ handed jobs s.dispatched
        → PassOutcome now limit answer s claimed s'
    stopped :
        (jobs : List Job) (e : Error)
        → answer ≡ (jobs, some e)
        → UniqueIds jobs
        → All (ClaimedFrom x now s) jobs
        → s'.docs ≡ claimed.docs
        → s'.dispatched ≡ s.dispatched
        → PassOutcome now limit answer s claimed s'

  -- Counting the claimed jobs changes neither the documents nor what was dispatched.
  pub count-Ensures :
      (n : ℕ) (jobs : List Job) (s : View)
      → All IsOneOff jobs
      → Ensures x
          (count_claimed n >>= λ _. dispatch_jobs jobs)
          s
          (λ _ s'. (s'.dispatched ≡ handed jobs s.dispatched) × (s'.docs ≡ s.docs))
  count-Ensures zero jobs s a =
      Ensures-imp x (dispatch_jobs jobs) s (λ _ s'. Dispatches jobs s s') _
        (λ _ s' d. (d.dispatched, d.same_docs)) (dispatch_jobs-Ensures jobs s a)
  count-Ensures (suc n) jobs s a = λ _ t e.
      Ensures-imp x (dispatch_jobs jobs) t (λ _ s'. Dispatches jobs t s') _
        (λ _ s' d. (
          d.dispatched ∙ ap (λ (v : View). handed jobs v.dispatched) e,
          d.same_docs ∙ ap (λ (v : View). v.docs) e,
        ))
        (dispatch_jobs-Ensures jobs t a)

  -- The batch is full, or nothing that is left is due.
  full_or_none :
      (now : Time) (limit : ℤ) (jobs : List Job) (s : View)
      → length jobs ≤ rounds limit
      → (length jobs < rounds limit → NoneOf (is_due now) s.docs)
      → (length jobs ≡ rounds limit) ⊎ ((length jobs < rounds limit) × All (IsNotDue now) s.docs)
  full_or_none now limit jobs s le all = elim (Bool-cases (ltb (length jobs) (rounds limit))) [
    | inl t ↦
        let l : length jobs < rounds limit = ground (arith, t) in
        inr (l, All-imp (λ j. is_due now j ≡ false) (IsNotDue now) s.docs (IsNotDue-of now) (all l))
    | inr f ↦ inl (ground (arith, f, le))
  ]

  Ended-dispatched :
      (now : Time) {n : ℕ} {r : List Job × Option Error} {s s' : View}
      → Ended x now s n [] r s'
      → s'.dispatched ≡ s.dispatched
  Ended-dispatched now (Ended.finished claimed e cs l all) = Claims-dispatched now cs
  Ended-dispatched now (Ended.stopped claimed cause e cs l (inl same)) =
      ap (λ (v : View). v.dispatched) same ∙ Claims-dispatched now cs
  Ended-dispatched now (Ended.stopped claimed cause e cs l (inr (at, j, c))) =
      ap (λ (v : View). v.dispatched) c.after ∙ Claims-dispatched now cs

  -- What is counted does not matter.
  PassOutcome-counted :
      {now : Time} {limit : ℤ} {answer : List Job × Option Error} {s claimed s' t : View}
      → t.docs ≡ s'.docs
      → t.dispatched ≡ s'.dispatched
      → PassOutcome now limit answer s claimed s'
      → PassOutcome now limit answer s claimed t
  PassOutcome-counted docs sent (passed jobs q u c at end same d) =
      passed jobs q u c (rw docs at) (rw docs end) (docs ∙ same) (sent ∙ d)
  PassOutcome-counted docs sent (stopped jobs e q u c same d) =
      stopped jobs e q u c (docs ∙ same) (sent ∙ d)

  observe_tick-Ensures :
      (start : Time) (s : View)
      → Ensures x (observe_tick start) s (λ _ s'. s' ≡ record s { counted = s'.counted })
  unfolding observe_tick
  observe_tick-Ensures start s = λ now s1 same _ s2 e. ground (arith, same, e)

-- The time that `runOnce` passes to `ClaimDueJobs`: the second that it reads.
abbrev pub claim_time : (w : World) → w.State → Time
claim_time w s = (w.exec time_now (w.exec time_now s).1).0

module _ (w : World) (s : w.State) (batch_size : ℤ) where
  abbrev pub after_start : w.State
  after_start = (w.exec time_now s).1

  -- The deferred call of `runOnce` counts, and does nothing else.
  pub run_once-observed :
      let t = w.view (run w (run_once batch_size) s).1 in
      t ≡ record (w.view (run w (claim_and_dispatch batch_size) after_start).1) {
        counted = t.counted;
      }
  unfolding run run_once
  run_once-observed =
      let start = (w.exec time_now s).0 in
      let s1 = (run w (claim_and_dispatch batch_size) after_start).1 in
      let observed =
        run-Ensures w (observe_tick start) s1 _ (observe_tick-Ensures w.codec start (w.view s1)) in
      rw
        (run-bind_answer w (claim_and_dispatch batch_size) (λ _. observe_tick start) after_start tt
          refl)
        observed

module _ (w : World) (now : Time) (limit : ℤ) (s : w.State) (u : UniqueIds (w.view s).docs)
    (a : All IsOneOff (w.view s).docs) where
  abbrev claimed : w.State
  claimed = (run w (claim_due_jobs now limit) s).1

  by_answer :
      (r : List Job × Option Error)
      → (run w (claim_due_jobs now limit) s).0 ≡ r
      → Ended w.codec now (w.view s) (rounds limit) [] r (w.view claimed)
      → PassOutcome w.codec now limit
          (run w (claim_due_jobs now limit) s).0
          (w.view s)
          (w.view claimed)
          (w.view (run w (dispatch_claimed r) claimed).1)
  unfolding run
  by_answer (jobs, some e) q h =
      let (t, cs, le) = Ended-Claims w.codec now h in
      stopped jobs e q (Claims-UniqueIds w.codec now cs) (Claims-ClaimedFrom w.codec now cs) refl
        (Ended-dispatched w.codec now h)
  by_answer (jobs, none) q h =
      let (cs, all) = Ended-none w.codec now h refl in
      let (_, _, le) = Ended-Claims w.codec now h in
      let from = Claims-ClaimedFrom w.codec now cs in
      let one_off =
        All-imp (ClaimedFrom w.codec now (w.view s)) IsOneOff jobs
          (claimed-IsOneOff w.codec now (w.view s) a) from in
      let (sent, docs) : ((w.view (run w (dispatch_claimed (jobs, none)) claimed).1).dispatched
            ≡ handed jobs (w.view claimed).dispatched)
          × ((w.view (run w (dispatch_claimed (jobs, none)) claimed).1).docs
              ≡ (w.view claimed).docs) =
        run-Ensures w (dispatch_claimed (jobs, none)) claimed _
          (count-Ensures w.codec (length jobs) jobs (w.view claimed) one_off) in
      passed jobs q (Claims-UniqueIds w.codec now cs) from (rw docs (Claims-at w.codec now cs))
        (rw docs (full_or_none w.codec now limit jobs (w.view claimed) le all)) docs
        (sent ∙ ap (handed jobs) (Claims-dispatched w.codec now cs))

-- The answer of `ClaimDueJobs` to a pass, and the state after it.
abbrev pub claim_run : (w : World) → w.State → ℤ → (List Job × Option Error) × w.State
claim_run w s limit =
    run w (claim_due_jobs (claim_time w s) limit) (w.exec time_now (w.exec time_now s).1).1

-- In a collection with unique ids and no recurring template, a pass of `runOnce` does as `ClaimDueJobs`
-- answers it, at the time that it claims at. Without an error it dispatches the jobs of the answer, each
-- once and in the order of their claims; they are distinct, each was pending and due and is queued in the
-- collection as it was dispatched, and there are as many as the batch size, or fewer and no document is
-- left that is pending and due. With an error it dispatches nothing, and the jobs that were claimed
-- before it, distinct and due, are not handed over. Either way the documents are as the claims left them.
pub run_once-PassOutcome :
    (w : World) (s : w.State) (batch_size : ℤ)
    → UniqueIds (w.view s).docs
    → All IsOneOff (w.view s).docs
    → let (answer, claimed) = claim_run w s batch_size in
      PassOutcome w.codec
        (claim_time w s)
        batch_size
        answer
        (w.view s)
        (w.view claimed)
        (w.view (run w (run_once batch_size) s).1)
unfolding run claim_and_dispatch
run_once-PassOutcome w s batch_size u a =
    let s1 = after_start w s batch_size in
    let s2 = (w.exec time_now s1).1 in
    let now = claim_time w s in
    let same : w.view s2 ≡ w.view s = w.lawful time_now s1 ∙ w.lawful time_now s in
    let observed = run_once-observed w s batch_size in
    let answer = (run w (claim_due_jobs now batch_size) s2).0 in
    let c = w.view (run w (claim_due_jobs now batch_size) s2).1 in
    let passes : PassOutcome w.codec now batch_size answer (w.view s2) c
        (w.view (run w (claim_and_dispatch batch_size) s1).1) =
      rw (run-bind w (claim_due_jobs now batch_size) dispatch_claimed s2) (
        by_answer w now batch_size s2 (rw same u) (rw same a) answer refl
          (claim_due_jobs-Ended w s2 now batch_size (rw same u))) in
    PassOutcome-counted w.codec (ap (λ v. v.docs) observed) (ap (λ v. v.dispatched) observed) (
      subst
        (λ v.
          PassOutcome w.codec now batch_size answer v c
            (w.view (run w (claim_and_dispatch batch_size) s1).1))
        same passes)
