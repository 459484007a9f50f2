-- ===== src/Store/Batch.antt =====
-- The loop of `ClaimDueJobs`.
use high_scale_job_scheduler.Prelude.{
  ℕ, zero, suc, ◌≤◌, ◌<◌, ◌≡◌, ◌≢◌, refl, sym, ◌∙◌, subst, ap, ◌⊎◌, inl, inr, arith, Option, none,
  some, if◌then◌else◌, ℤ, List, [], ◌∷◌, ◌++◌, Bool-cases, All, length, append-nil, append_assoc,
}
use high_scale_job_scheduler.Errors.{Error, ok, err, is_no_documents}
use high_scale_job_scheduler.Models.{Job, ObjectId, Time}
use high_scale_job_scheduler.Effects.{find_one_and_update}
use high_scale_job_scheduler.Effects.Docs.{UniqueIds, NoneOf, doc}
use high_scale_job_scheduler.Effects.World.{
  View, Codec, Effect, Effect-from, Ensures, Ensures-imp, World, run, run-Ensures, Changes,
}
use high_scale_job_scheduler.Store.{
  claim_loop, claim_due_jobs, rounds, is_due, set_queued, claims_before,
}
use high_scale_job_scheduler.Store.Update.{Puts, Changes-found, Changes-Puts}
use high_scale_job_scheduler.Store.Claims.{
  Claim, Claims, nil, cons, ClaimedFrom, Claims-UniqueIds, Claims-frame, Claims-ClaimedFrom,
  Claims-at,
}

module _ (x : Codec) (now : Time) where
  -- The end of a loop that began in `s` with `n` rounds left, after the jobs claimed in it: a claim
  -- that failed may have queued one more job.
  pub data Ended (s : View) (n : ℕ) (jobs : List Job)
      : List Job × Option Error → View → Type 0 where
    finished :
        (claimed : List Job) {r : List Job × Option Error} {t : View}
        → r ≡ (jobs ++ claimed, none)
        → Claims x now claimed s t
        → length claimed ≤ n
        → (length claimed < n → NoneOf (is_due now) t.docs)
        → Ended s n jobs r t
    stopped :
        (claimed : List Job) (e : Error) {r : List Job × Option Error} {t u : View}
        → r ≡ (jobs ++ claimed, some e)
        → Claims x now claimed s t
        → length claimed < n
        → (u ≡ t) ⊎ ((at : Time) × (j : Job) × Changes x (is_due now) (set_queued at) j t u)
        → Ended s n jobs r u

  Ended-cons :
      {j : Job} {s t : View} (n : ℕ) (jobs : List Job) {r : List Job × Option Error} {u : View}
      → Claim x now j s t
      → Ended t n (jobs ++ j ∷ []) r u
      → Ended s (suc n) jobs r u
  Ended-cons {j} n jobs c (finished claimed e cs l all) =
      finished (j ∷ claimed) (e ∙ ap (λ js. (js, none)) (append_assoc jobs (j ∷ []) claimed))
        (cons c cs) (omega arith) (λ h. all (omega arith))
  Ended-cons {j} n jobs c (stopped claimed cause e cs l lost) =
      stopped (j ∷ claimed) cause
        (e ∙ ap (λ js. (js, some cause)) (append_assoc jobs (j ∷ []) claimed)) (cons c cs)
        (omega arith) lost

  pub Claim-of :
      {at : Time} {r : Job} (s s' : View)
      → UniqueIds s.docs
      → Effect x (find_one_and_update (is_due now) (set_queued at) claims_before) (ok r) s s'
      → Claim x now r s s'
  Claim-of {at} {r} s s' u (j, c, first, e) = record {
    before = j;
    at = at;
    found = (Changes-found x (is_due now) (set_queued at) (λ k. refl) j u c).0;
    due = (Changes-found x (is_due now) (set_queued at) (λ k. refl) j u c).1;
    first = first;
    result = e;
    puts =
        subst (λ k. Puts j.id k s s') (sym e)
          (Changes-Puts x (is_due now) (set_queued at) (λ k. refl) j s s' u c);
  }

  failed_claim :
      (n : ℕ) (jobs : List Job) (at : Time) (e : Error) (s s' : View)
      → Effect x (find_one_and_update (is_due now) (set_queued at) claims_before) (err e) s s'
      → Ended s (suc n) jobs (if is_no_documents e then (jobs, none) else (jobs, some e)) s'
  failed_claim n jobs at e s s' (none_due, done) = elim (Bool-cases (is_no_documents e)) [
    | inl h ↦
        finished [] (rw (h, append-nil)) (nil (none_due h).1) (omega arith)
          (λ _. rw (none_due h).1 (none_due h).0)
    | inr h ↦
        stopped [] e (rw (h, append-nil)) (nil refl) (omega arith)
          (elim done [ inl same ↦ inl same | inr (j, c) ↦ inr (at, j, c) ])
  ]

  claim_loop-Ensures :
      (n : ℕ) (jobs : List Job) (s : View)
      → UniqueIds s.docs
      → Ensures x (claim_loop n now jobs) s (Ended s n jobs)
  unfolding claim_loop
  claim_loop-Ensures zero jobs s u =
      finished [] (rw append-nil) (nil refl) (omega arith) (λ h. absurd (omega arith))
  claim_loop-Ensures (suc n) jobs s u = λ at s1 e1. elim [
    | ok j ↦ λ s2 e2.
        let c : Claim x now j s s2 = Claim-of s s2 u (
          Effect-from x (find_one_and_update (is_due now) (set_queued at) claims_before) (ok j) s2
            e1 e2) in
        Ensures-imp x (claim_loop n now (jobs ++ j ∷ [])) s2 (Ended s2 n (jobs ++ j ∷ []))
          (Ended s (suc n) jobs) (λ r s3 h. Ended-cons n jobs c h)
          (claim_loop-Ensures n (jobs ++ j ∷ []) s2 c.puts.unique)
    | err e ↦ λ s2 e2. failed_claim n jobs at e s s2 (
        Effect-from x (find_one_and_update (is_due now) (set_queued at) claims_before) (err e) s2 e1
          e2)
  ]

  pub claim_due_jobs-Ensures :
      (limit : ℤ) (s : View)
      → UniqueIds s.docs
      → Ensures x (claim_due_jobs now limit) s (Ended s (rounds limit) [])
  unfolding claim_due_jobs
  claim_due_jobs-Ensures limit s u = claim_loop-Ensures (rounds limit) [] s u

  -- The jobs of the answer were claimed, whatever came after.
  pub Ended-Claims :
      {s s' : View} {n : ℕ} {r : List Job × Option Error}
      → Ended s n [] r s'
      → (t : View) × Claims x now r.0 s t × (length r.0 ≤ n)
  Ended-Claims (finished claimed {t} e cs l all) = (t, rw e cs, rw e l)
  Ended-Claims (stopped claimed cause {t} e cs l lost) = (t, rw e cs, rw e (omega arith))

  -- Without an error nothing else was done.
  pub Ended-none :
      {s s' : View} {n : ℕ} {r : List Job × Option Error}
      → Ended s n [] r s'
      → r.1 ≡ none
      → Claims x now r.0 s s' × (length r.0 < n → NoneOf (is_due now) s'.docs)
  Ended-none (finished claimed e cs l all) h = (rw e cs, rw e all)
  Ended-none (stopped claimed cause e cs l lost) h = absurd (ground (arith, e, h))

module _ (w : World) (s : w.State) (now : Time) (limit : ℤ) (u : UniqueIds (w.view s).docs) where
  pub claim_due_jobs-Ended :
      let (r, s') = run w (claim_due_jobs now limit) s in
      Ended w.codec now (w.view s) (rounds limit) [] r (w.view s')
  claim_due_jobs-Ended =
      run-Ensures w (claim_due_jobs now limit) s (Ended w.codec now (w.view s) (rounds limit) [])
        (claim_due_jobs-Ensures w.codec now limit (w.view s) u)

  -- In a collection with unique ids, `ClaimDueJobs` returns, with or without an error, at most
  -- `limit` jobs, of distinct ids; each was pending and due in the collection when the call began,
  -- and is returned queued, with its work, its attempts and its stored schedule.
  pub claim_due_jobs-ClaimedFrom :
      let ((jobs, e), s') = run w (claim_due_jobs now limit) s in
      (length jobs ≤ rounds limit) × UniqueIds jobs × All (ClaimedFrom w.codec now (w.view s)) jobs
  claim_due_jobs-ClaimedFrom =
      let (t, cs, l) = Ended-Claims w.codec now claim_due_jobs-Ended in
      (l, Claims-UniqueIds w.codec now cs, Claims-ClaimedFrom w.codec now cs)

  -- In a collection with unique ids, when `ClaimDueJobs` returns no error, the collection holds
  -- each returned job, under its id, as it was returned, and what is under an id that no returned
  -- job has stays as it was.
  pub claim_due_jobs-stored :
      (run w (claim_due_jobs now limit) s).0.1 ≡ none
      → let ((jobs, e), s') = run w (claim_due_jobs now limit) s in
        All (λ j. doc j.id (w.view s').docs ≡ some j) jobs
        × ((i : ObjectId)
            → All (λ j. j.id ≢ i) jobs
            → doc i (w.view s').docs ≡ doc i (w.view s).docs)
  claim_due_jobs-stored h =
      let (claims, _) = Ended-none w.codec now claim_due_jobs-Ended h in
      (Claims-at w.codec now claims, λ i. Claims-frame w.codec now i claims)
