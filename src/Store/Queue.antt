-- ===== src/Store/Queue.antt =====
-- The due jobs as a priority queue, which `ClaimDueJobs` takes the best jobs from.
use high_scale_job_scheduler.Prelude.{
  ℕ, ◌≤◌, ◌<◌, ◌≡◌, ◌≢◌, refl, sym, ◌∙◌, subst, true, false, arith, Option, none, some,
  if◌then◌else◌, ℤ, List, [], ◌∷◌, All, All-imp, length, inl, inr, Bool-cases, Option-cases, ap,
}
use high_scale_job_scheduler.Models.{Job, ObjectId, Time, queued}
use high_scale_job_scheduler.Effects.Docs.{UniqueIds, NoneOf, doc, doc-All}
use high_scale_job_scheduler.Effects.World.{View, Codec, World, run}
use high_scale_job_scheduler.Store.{claim_due_jobs, rounds, is_due, claims_before}
use high_scale_job_scheduler.Store.Failure.{SameWork}
use high_scale_job_scheduler.Store.Claims.{
  Claim, Claims, nil, cons, ClaimedFrom, Claim-frame, Claims-UniqueIds, Claims-frame,
  Claims-ClaimedFrom, Claims-IsOrdered, Claims-at, InOrder, IsOrdered, InOrder-of_not_before,
  is_due_of,
}
use high_scale_job_scheduler.Store.Batch.{Ended-Claims, Ended-none, claim_due_jobs-Ended}

abbrev if_due : Time → Option Job → Option Job
if_due now none = none
if_due now (some j) = if is_due now j then some j else none

-- The queue: the job under an id, if it is pending and due.
abbrev pub due_at : Time → ObjectId → List Job → Option Job
due_at now i docs = if_due now (doc i docs)

-- What a priority queue promises of taking at most `n` jobs: they are distinct jobs of the queue, in
-- order, and leave it; every other job stays; none that stays would have gone before one that was
-- taken; and if fewer are taken, the queue is empty.
pub record Dequeues (now : Time) (n : ℕ) (docs docs' : List Job) (jobs : List Job) : Type 0 where
  pub few : length jobs ≤ n
  pub distinct : UniqueIds jobs
  pub ordered : IsOrdered jobs
  pub taken : All (λ j. (d : Job) × (due_at now j.id docs ≡ some d) × SameWork d j) jobs
  pub gone : All (λ j. due_at now j.id docs' ≡ none) jobs
  pub others : (i : ObjectId) → All (λ j. j.id ≢ i) jobs → due_at now i docs' ≡ due_at now i docs
  pub best : (i : ObjectId) (k : Job) → due_at now i docs' ≡ some k → All (λ j. InOrder j k) jobs
  pub enough : length jobs < n → (i : ObjectId) → due_at now i docs' ≡ none

module _ (x : Codec) (now : Time) where
  pub due_at-some :
      (i : ObjectId) (k : Job) (docs : List Job)
      → due_at now i docs ≡ some k
      → (doc i docs ≡ some k) × (is_due now k ≡ true)
  due_at-some i k docs h = by_doc (doc i docs) h
    where
      by_doc : (o : Option Job) → if_due now o ≡ some k → (o ≡ some k) × (is_due now k ≡ true)
      by_doc none h = absurd (ground arith)
      by_doc (some j) h = elim (Bool-cases (is_due now j)) [
        | inl e ↦
            let q : j ≡ k = cc (rw e at h) in (ap some q, subst (λ d. is_due now d ≡ true) q e)
        | inr e ↦ absurd (cc (rw e at h))
      ]

  due_at-none :
      (i : ObjectId) (docs : List Job) → NoneOf (is_due now) docs → due_at now i docs ≡ none
  due_at-none i docs h = elim (Option-cases (doc i docs)) [
    | inl e ↦ rw e refl
    | inr (j, e) ↦ rw (e, doc-All (λ d. is_due now d ≡ false) i j docs h e) refl
  ]

  -- A job that is still due was due at every claim, and each claim took one that goes first.
  Claim-best :
      {j : Job} {s t : View} (i : ObjectId) (k : Job)
      → Claim x now j s t
      → doc i s.docs ≡ some k
      → is_due now k ≡ true
      → InOrder j k
  Claim-best {j} {s} i k c h d =
      let o : InOrder c.before k = InOrder-of_not_before k c.before (
        doc-All (λ e. is_due now e ≡ true → claims_before e c.before ≡ false) i k s.docs c.first h
          d) in
      (
        rw c.result o.0,
        λ p.
            let le = x.datetime_le c.before.scheduled_at in
            rw c.result (omega (arith, le, o.1 (rw c.result at p))),
      )

  Claims-best :
      {js : List Job} {s s' : View} (i : ObjectId) (k : Job)
      → Claims x now js s s'
      → All (λ j. j.id ≢ i) js
      → doc i s'.docs ≡ some k
      → is_due now k ≡ true
      → All (λ j. InOrder j k) js × (doc i s.docs ≡ some k)
  Claims-best i k (nil e) a h d = (tt, rw (← e) h)
  Claims-best i k (cons c cs) a h d =
      let (rest, at) = Claims-best i k cs a.1 h d in
      let before = sym (Claim-frame x now i c a.0) ∙ at in
      ((Claim-best i k c before d, rest), before)

  -- A queued job is not in the queue, so a job that is there was not claimed.
  not_due : (j : Job) → j.status ≡ queued → is_due now j ≡ false
  not_due j e = rw e refl

  Claimed-gone :
      (docs : List Job) (js : List Job)
      → All (λ j. j.status ≡ queued) js
      → All (λ j. doc j.id docs ≡ some j) js
      → All (λ j. due_at now j.id docs ≡ none) js
  Claimed-gone docs [] q a = tt
  Claimed-gone docs (j ∷ js) q a = (rw (a.0, not_due j q.0) refl, Claimed-gone docs js q.1 a.1)

  unclaimed :
      (docs : List Job) (i : ObjectId) (k : Job) (js : List Job)
      → All (λ j. due_at now j.id docs ≡ none) js
      → due_at now i docs ≡ some k
      → All (λ j. j.id ≢ i) js
  unclaimed docs i k js a h =
      All-imp (λ j. due_at now j.id docs ≡ none) (λ j. j.id ≢ i) js
        (λ j g e. ground (arith, g, h, ap (λ n. due_at now n docs) e)) a

  ClaimedFrom-taken :
      (s : View) (j : Job)
      → ClaimedFrom x now s j
      → (d : Job) × (due_at now j.id s.docs ≡ some d) × SameWork d j
  ClaimedFrom-taken s j f =
      (f.before, rw (f.found, is_due_of f.before now f.was_pending f.was_due) refl, f.same_work)

  pub Claims-Dequeues :
      (n : ℕ) {js : List Job} {s s' : View}
      → Claims x now js s s'
      → length js ≤ n
      → (length js < n → NoneOf (is_due now) s'.docs)
      → Dequeues now n s.docs s'.docs js
  Claims-Dequeues n {js} {s} {s'} cs l all =
      let from = Claims-ClaimedFrom x now cs in
      let gone =
        Claimed-gone s'.docs js
          (All-imp (ClaimedFrom x now s) (λ j. j.status ≡ queued) js (λ j f. f.is_queued) from)
          (Claims-at x now cs) in
      record {
        few = l;
        distinct = Claims-UniqueIds x now cs;
        ordered = Claims-IsOrdered x now cs;
        taken =
            All-imp (ClaimedFrom x now s)
              (λ j. (d : Job) × (due_at now j.id s.docs ≡ some d) × SameWork d j) js
              (ClaimedFrom-taken s) from;
        gone = gone;
        others = λ i a. ap (if_due now) (Claims-frame x now i cs a);
        best = λ i k h.
            let (e, d) = due_at-some i k s'.docs h in
            (Claims-best i k cs (unclaimed s'.docs i k js gone h) e d).0;
        enough = λ h i. due_at-none i s'.docs (all h);
      }

-- `ClaimDueJobs` refines a priority queue: in a collection with unique ids, a call that returns no
-- error takes at most `limit` jobs from those that are pending and due. They are distinct, by
-- falling priority and then rising schedule, with their work, and leave the queue; every other job
-- of the queue stays in it; no job that stays is of a higher priority than one that was taken, or of
-- the same priority and an earlier schedule; and if fewer than `limit` are taken the queue is empty.
pub claim_due_jobs-Dequeues :
    (w : World) (s : w.State) (now : Time) (limit : ℤ)
    → UniqueIds (w.view s).docs
    → (run w (claim_due_jobs now limit) s).0.1 ≡ none
    → let (r, s') = run w (claim_due_jobs now limit) s in
      Dequeues now (rounds limit) (w.view s).docs (w.view s').docs r.0
claim_due_jobs-Dequeues w s now limit u h =
    let ended = claim_due_jobs-Ended w s now limit u in
    let (cs, all) = Ended-none w.codec now ended h in
    let (t, _, l) = Ended-Claims w.codec now ended in
    Claims-Dequeues w.codec now (rounds limit) cs l all
