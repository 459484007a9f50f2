-- ===== src/System/Claimers.antt =====
-- Calls of `ClaimDueJobs` in any number, by one scheduler or by several, interleaved command by
-- command.
use high_scale_job_scheduler.Prelude.{
  ℕ, zero, suc, ◌≡◌, refl, sym, ◌∙◌, subst, ap, inl, inr, Bool, true, false, arith, Option, none,
  some, if◌then◌else◌, ℤ, List, [], ◌∷◌, ◌++◌, Bool-cases, All, All-imp, append_assoc, ◌==◌, ==_iff,
}
use high_scale_job_scheduler.Errors.{Error, ok, err, is_no_documents}
use high_scale_job_scheduler.Models.{Job, ObjectId, Time, queued}
use high_scale_job_scheduler.Effects.{ret, call}
use high_scale_job_scheduler.Effects.Docs.{UniqueIds, FreshId, doc}
use high_scale_job_scheduler.Effects.World.{View, Codec, Changes}
use high_scale_job_scheduler.Store.{claim_loop, claim_due_jobs, rounds, is_due, set_queued}
use high_scale_job_scheduler.Store.Update.{Puts, Changes-Puts}
use high_scale_job_scheduler.Store.Claims.{Claim, Claim-at, Claim-avoid, Claim-ClaimedFrom}
use high_scale_job_scheduler.Store.Batch.{Claim-of}
use high_scale_job_scheduler.System.Pool.{
  Claimer, Acts, PoolStep, PoolReach, Returned, claiming, Holds, Held, IsQueuedIn, Inv, Split,
  split, UniqueIds-insert, All-insert, pick, here, next, nil, cons, looping, reading, ended,
  none_held, more,
}

-- What one command of a claimer does: nothing that it holds, or one claim more.
data Outcome (x : Codec) (s s' : View) (own : List Job) (p' : Claimer) : Type 0 where
  quiet : s' ≡ s → Holds p' own → Outcome x s s' own p'
  lost :
      (now at : Time) (j : Job)
      → Changes x (is_due now) (set_queued at) j s s'
      → Holds p' own
      → Outcome x s s' own p'
  claims :
      (now : Time) (k : Job)
      → Claim x now k s s'
      → Holds p' (own ++ (k ∷ []))
      → Outcome x s s' own p'

module _ (x : Codec) where
  loop-Acts :
      (n : ℕ) (now : Time) (own : List Job) (s s' : View) (p' : Claimer)
      → Acts x (claim_loop n now own) s p' s'
      → Outcome x s s' own p'
  unfolding claim_loop
  loop-Acts zero now own s s' p' a = elim a [ ]
  loop-Acts (suc n) now own s s' p' (at, e, h) = quiet e (reading n now at h)

  failed_end :
      (b : Bool) (own : List Job) (e : Error) (p' : Claimer)
      → p' ≡ ret (if b then (own, none) else (own, some e))
      → Holds p' own
  failed_end true own e p' h = ended none h
  failed_end false own e p' h = ended (some e) h

  claim-Acts :
      (n : ℕ) (now at : Time) (own : List Job) (s s' : View) (p' : Claimer)
      → UniqueIds s.docs
      → Acts x (claiming n now at own) s p' s'
      → Outcome x s s' own p'
  claim-Acts n now at own s s' p' u (ok k, e, h) =
      claims now k (Claim-of x now s s' u e) (looping n now h)
  claim-Acts n now at own s s' p' u (err c, (_, inl same), h) =
      quiet same (failed_end (is_no_documents c) own c p' h)
  claim-Acts n now at own s s' p' u (err c, (_, inr (j, ch)), h) =
      lost now at j ch (failed_end (is_no_documents c) own c p' h)

  Acts-Outcome :
      (own : List Job) (p p' : Claimer) (s s' : View)
      → UniqueIds s.docs
      → Holds p own
      → Acts x p s p' s'
      → Outcome x s s' own p'
  Acts-Outcome own p p' s s' u (looping n now e) a =
      loop-Acts n now own s s' p' (subst (λ q. Acts x q s p' s') e a)
  Acts-Outcome own p p' s s' u (reading n now at e) a =
      claim-Acts n now at own s s' p' u (subst (λ q. Acts x q s p' s') e a)
  Acts-Outcome own p p' s s' u (ended c e) a = absurd (subst (λ q. Acts x q s p' s') e a)

  -- A queued document stays one when another is queued.
  stays_queued :
      (i : ObjectId) (d : Job) (s s' : View)
      → d.status ≡ queued
      → Puts i d s s'
      → (j : Job) → IsQueuedIn s j
      → IsQueuedIn s' j
  stays_queued i d s s' q puts j (e, found, is_q) = elim (Bool-cases (j.id == i)) [
    | inl t ↦ (d, subst (λ k. doc k s'.docs ≡ some d) (sym ((==_iff j.id i).0 t)) puts.at, q)
    | inr f ↦ (e, puts.frame j.id (λ h. ground arith) ∙ found, is_q)
  ]

  fresh-Claim :
      (now : Time) (k : Job) (s s' : View) (js : List Job)
      → Claim x now k s s'
      → All (IsQueuedIn s) js
      → FreshId k.id js
  fresh-Claim now k s s' [] c a = tt
  fresh-Claim now k s s' (j ∷ js) c ((d, found, q), a) =
      ((λ e. Claim-avoid x now j.id d c found q (sym e)), fresh-Claim now k s s' js c a)

  Claim-queued : (now : Time) (k : Job) {s s' : View} → Claim x now k s s' → k.status ≡ queued
  Claim-queued now k c = (Claim-ClaimedFrom x now c).is_queued

  step_Inv :
      (front back : List Claimer) (p p' : Claimer) (s s' : View)
      → Inv s (front ++ (p ∷ back))
      → Acts x p s p' s'
      → Inv s' (front ++ (p' ∷ back))
  step_Inv front back p p' s s' v a = by_outcome (Acts-Outcome i.own p p' s s' v.unique i.holds a)
    where
      i : Split front back p v.jobs
      i = split front back p v.held

      by_outcome : Outcome x s s' i.own p' → Inv s' (front ++ (p' ∷ back))
      by_outcome (quiet same h) = record {
        jobs = v.jobs;
        held = subst (Held (front ++ (p' ∷ back))) (sym i.parts) (i.replace p' i.own h);
        distinct = v.distinct;
        are_queued = rw same v.are_queued;
        unique = rw same v.unique;
      }
      by_outcome (lost now at j c h) =
          let puts = Changes-Puts x (is_due now) (set_queued at) (λ k. refl) j s s' v.unique c in
          record {
            jobs = v.jobs;
            held = subst (Held (front ++ (p' ∷ back))) (sym i.parts) (i.replace p' i.own h);
            distinct = v.distinct;
            are_queued =
                All-imp (IsQueuedIn s) (IsQueuedIn s') v.jobs (stays_queued j.id _ s s' refl puts)
                  v.are_queued;
            unique = puts.unique;
          }
      by_outcome (claims now k c h) =
          let e : v.jobs ≡ (i.before ++ i.own) ++ i.after =
            i.parts ∙ sym (append_assoc i.before i.own i.after) in
          let e' : i.before ++ ((i.own ++ (k ∷ [])) ++ i.after)
              ≡ (i.before ++ i.own) ++ (k ∷ i.after) =
            simp append_assoc in
          let queued_before =
            All-imp (IsQueuedIn s) (IsQueuedIn s') v.jobs
              (stays_queued c.before.id k s s' (Claim-queued now k c) c.puts) v.are_queued in
          record {
            jobs = i.before ++ ((i.own ++ (k ∷ [])) ++ i.after);
            held = i.replace p' (i.own ++ (k ∷ [])) h;
            distinct = rw e' (
                UniqueIds-insert k (i.before ++ i.own) i.after
                  (subst (FreshId k.id) e (fresh-Claim now k s s' v.jobs c v.are_queued))
                  (subst UniqueIds e v.distinct));
            are_queued = rw e' (
                All-insert (IsQueuedIn s') k (i.before ++ i.own) i.after
                  (k, Claim-at x now c, Claim-queued now k c)
                  (subst (All (IsQueuedIn s')) e queued_before));
            unique = c.puts.unique;
          }

  PoolStep-Inv :
      {s s' : View} {ps ps' : List Claimer} → PoolStep x s ps s' ps' → Inv s ps → Inv s' ps'
  PoolStep-Inv {s} {s'} (pick front back p p' e a e') v =
      subst (Inv s') (sym e') (step_Inv front back p p' s s' (subst (Inv s) e v) a)

  PoolReach-Inv :
      {s : View} {ps : List Claimer} {s' : View} {ps' : List Claimer}
      → PoolReach x s ps s' ps'
      → Inv s ps
      → Inv s' ps'
  PoolReach-Inv here v = v
  PoolReach-Inv (next r st) v = PoolStep-Inv st (PoolReach-Inv r v)

-- The calls, each with its time and its limit.
abbrev pub calls : List (Time × ℤ) → List Claimer
calls [] = []
calls ((now, limit) ∷ cs) = claim_due_jobs now limit ∷ calls cs

calls-Held : (cs : List (Time × ℤ)) → Held (calls cs) []
unfolding claim_due_jobs
calls-Held [] = none_held
calls-Held ((now, limit) ∷ cs) = more (looping (rounds limit) now refl) (calls-Held cs)

abbrev result : Claimer → List Job
result (ret r) = r.0
result (call c k) = []

Holds-ret : (jobs own : List Job) (e : Option Error) → Holds (ret (jobs, e)) own → own ≡ jobs
unfolding claim_loop
Holds-ret jobs own e (looping zero now h) = sym (ap result h)
Holds-ret jobs own e (looping (suc n) now h) = absurd (cc)
Holds-ret jobs own e (reading n now at h) = absurd (cc)
Holds-ret jobs own e (ended e' h) = sym (ap result h)

Held-Returned : {ps : List Claimer} {js ks : List Job} → Returned ps js → Held ps ks → ks ≡ js
Held-Returned nil none_held = refl
Held-Returned (cons jobs e r) (more {jobs = own} h rest) =
    rw (Holds-ret jobs own e h, Held-Returned r rest)

-- From a collection with unique ids, however the commands of any number of calls of `ClaimDueJobs`
-- interleave, with whatever times and limits, and whichever of them fail: when all have returned,
-- the jobs that they returned, all together, have distinct ids.
pub no_double_claim :
    (x : Codec) (s s' : View) (cs : List (Time × ℤ)) (ps : List Claimer) (jobs : List Job)
    → UniqueIds s.docs
    → PoolReach x s (calls cs) s' ps
    → Returned ps jobs
    → UniqueIds jobs
no_double_claim x s s' cs ps jobs u r d =
    let v : Inv s' ps =
      PoolReach-Inv x r
        (record { jobs = []; held = calls-Held cs; distinct = tt; are_queued = tt; unique = u }) in
    subst UniqueIds (Held-Returned d v.held) v.distinct
