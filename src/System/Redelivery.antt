-- ===== src/System/Redelivery.antt =====
-- cmd/executor/main.go and internal/executor/runner.go: the messages for one job, delivered any number
-- of times to any number of executors, with their handling interleaved command by command.
use high_scale_job_scheduler.Prelude.{
  ℕ, suc, String, Bool, true, false, if◌then◌else◌, ◌+◌, ◌≤◌, ◌≡◌, refl, sym, ◌∙◌, subst, ap, inl,
  inr, arith, Option, none, some, List, [], ◌∷◌, ◌++◌, All, All-append, All-split,
}
use high_scale_job_scheduler.Errors.{Error, Result, ok, err, not_found, is_no_documents}
use high_scale_job_scheduler.Models.{Job, ObjectId, Time}
use high_scale_job_scheduler.Topics.{DispatchMessage}
use high_scale_job_scheduler.Config.{Config}
use high_scale_job_scheduler.Effects.{Prog, ret, call, ◌>>=◌, update_one}
use high_scale_job_scheduler.Effects.Docs.{UniqueIds, doc}
use high_scale_job_scheduler.Effects.World.{View, Codec}
use high_scale_job_scheduler.Store.{mark_claimed, get_by_id, is_queued_job, set_claimed, matched}
use high_scale_job_scheduler.Store.Update.{Updates, UpdateReply, update_one-reply}
use high_scale_job_scheduler.Executor.{execute, execute_from, after_claim}
use high_scale_job_scheduler.Services.{executor_runner}
use high_scale_job_scheduler.Worker.{handle_message, after_parse, after_get}
use high_scale_job_scheduler.System.Pool.{Acts, PoolReach, pick, here, next}
use high_scale_job_scheduler.System.Budget.{
  runs, Settled, same-Settled, Counts, Counts-then, after_claim-Counts,
}

-- The handling of a message.
abbrev pub Handling : Type 0
Handling = Prog (Option Error)

abbrev claiming : Config → Job → Time → Time → Handling
claiming cfg job start now =
    call (update_one (is_queued_job job.id) (set_claimed cfg.worker_id now))
      (λ r. (after_claim (executor_runner cfg) job start (matched r)) >>= λ _. ret none)

-- The handlings, each with the configuration of its executor.
abbrev pub handlings : List (Config × DispatchMessage) → List Handling
handlings [] = []
handlings ((cfg, msg) ∷ ds) = handle_message (executor_runner cfg) msg ∷ handlings ds

module _ (x : Codec) (i : ObjectId) where
  -- A handling that has not claimed the job, and one that has returned.
  data Waits (p : Handling) : Type 0 where
    delivered :
        (cfg : Config) (msg : DispatchMessage)
        → msg.job_id ≡ x.hex_of i
        → p ≡ handle_message (executor_runner cfg) msg
        → Waits p
    named : (cfg : Config) → p ≡ (get_by_id i >>= after_get (executor_runner cfg)) → Waits p
    read :
        (cfg : Config) (job : Job)
        → job.id ≡ i
        → p ≡ (execute (executor_runner cfg) job >>= λ _. ret none)
        → Waits p
    started :
        (cfg : Config) (job : Job) (start : Time)
        → job.id ≡ i
        → p ≡ (execute_from (executor_runner cfg) job start >>= λ _. ret none)
        → Waits p
    claims :
        (cfg : Config) (job : Job) (start now : Time)
        → job.id ≡ i
        → p ≡ claiming cfg job start now
        → Waits p
    ended : (e : Option Error) → p ≡ ret e → Waits p

  -- What one command of such a handling does: nothing, or the claim of the queued job.
  data Outcome (s s' : View) (p' : Handling) : Type 0 where
    quiet : s' ≡ s → Waits p' → Outcome s s' p'
    claimed :
        (Settled x i s → ⊥)
        → Settled x i s'
        → s'.counted ≡ s.counted
        → Counts x i 1 p'
        → Outcome s s' p'

  -- The update claims the job.
  claim-Outcome :
      (job : Job) (worker_id : String) (now : Time) (s s' : View) (p' : Handling)
      → job.id ≡ i
      → Updates x job.id (is_queued_job job.id) (set_claimed worker_id now) s s'
      → Counts x i 1 p'
      → Outcome s s' p'
  claim-Outcome job worker_id now s s' p' e u counts =
      claimed
        (λ h.
          h.not_queued u.before (subst (λ k. doc k s.docs ≡ some u.before) e u.found)
            (ground (arith, u.passed)))
        (record {
          unique = u.puts.unique;
          not_queued = λ d found q. ground (arith, e, u.puts.at, found, q);
        })
        (ap (λ v. v.counted) u.puts.elsewhere) counts

  claims-Outcome :
      (cfg : Config) (job : Job) (start now : Time) (s s' : View) (p' : Handling)
      → job.id ≡ i
      → UniqueIds s.docs
      → Acts x (claiming cfg job start now) s p' s'
      → Outcome s s' p'
  claims-Outcome cfg job start now s s' p' e u (r, effect, h) = by_reply r h (
      update_one-reply x (is_queued_job job.id) (set_claimed cfg.worker_id now) job.id
        (λ k h. ground arith) (λ k. refl) r s s' u effect)
    where
      after : Result ℕ → Handling
      after r = after_claim (executor_runner cfg) job start (matched r) >>= λ _. ret none

      by_reply :
          (r : Result ℕ)
          → p' ≡ after r
          → UpdateReply x job.id (is_queued_job job.id) (set_claimed cfg.worker_id now) r s s'
          → Outcome s s' p'
      by_reply (ok n) h (inl (n0, _, same)) =
          quiet same (ended none (h ∙ ap (λ m. after (ok m)) n0))
      by_reply (ok n) h (inr (n1, c)) = claim-Outcome job cfg.worker_id now s s' p' e c (
          subst (Counts x i 1) (sym (h ∙ ap (λ m. after (ok m)) n1)) (
            Counts-then x i 1 (after_claim (executor_runner cfg) job start none) (λ _. ret none)
              (after_claim-Counts x i (executor_runner cfg) job start refl) (λ _. tt)))
      by_reply (err c) h (inl same) = quiet same (ended none h)
      by_reply (err c) h (inr w) =
          claim-Outcome job cfg.worker_id now s s' p' e w (subst (Counts x i 1) (sym h) tt)

  delivered-Outcome :
      (cfg : Config) (msg : DispatchMessage) (s s' : View) (p' : Handling)
      → msg.job_id ≡ x.hex_of i
      → Acts x (handle_message (executor_runner cfg) msg) s p' s'
      → Outcome s s' p'
  unfolding handle_message
  delivered-Outcome cfg msg s s' p' e (r, (parses, same), h) =
      quiet same (named cfg (h ∙ ap (after_parse (executor_runner cfg)) (parses i e)))

  named-Outcome :
      (cfg : Config) (s s' : View) (p' : Handling)
      → Acts x (get_by_id i >>= after_get (executor_runner cfg)) s p' s'
      → Outcome s s' p'
  unfolding get_by_id
  named-Outcome cfg s s' p' (ok job, (_, passed, same), h) =
      quiet same (read cfg job (ground (arith, passed)) h)
  named-Outcome cfg s s' p' (err e, (_, same), h) =
      quiet same (ended none (h ∙ skipped (is_no_documents e)))
    where
      skipped :
          (b : Bool)
          → after_get (executor_runner cfg) (if b then err not_found else err e) ≡ ret none
      skipped true = refl
      skipped false = refl

  read-Outcome :
      (cfg : Config) (job : Job) (s s' : View) (p' : Handling)
      → job.id ≡ i
      → Acts x (execute (executor_runner cfg) job >>= λ _. ret none) s p' s'
      → Outcome s s' p'
  unfolding execute
  read-Outcome cfg job s s' p' e (start, same, h) = quiet same (started cfg job start e h)

  started-Outcome :
      (cfg : Config) (job : Job) (start : Time) (s s' : View) (p' : Handling)
      → job.id ≡ i
      → Acts x (execute_from (executor_runner cfg) job start >>= λ _. ret none) s p' s'
      → Outcome s s' p'
  unfolding mark_claimed
  started-Outcome cfg job start s s' p' e (now, same, h) = quiet same (claims cfg job start now e h)

  Waits-Outcome :
      (p p' : Handling) (s s' : View)
      → UniqueIds s.docs
      → Waits p
      → Acts x p s p' s'
      → Outcome s s' p'
  Waits-Outcome p p' s s' u (delivered cfg msg names e) a =
      delivered-Outcome cfg msg s s' p' names (subst (λ q. Acts x q s p' s') e a)
  Waits-Outcome p p' s s' u (named cfg e) a =
      named-Outcome cfg s s' p' (subst (λ q. Acts x q s p' s') e a)
  Waits-Outcome p p' s s' u (read cfg job is_i e) a =
      read-Outcome cfg job s s' p' is_i (subst (λ q. Acts x q s p' s') e a)
  Waits-Outcome p p' s s' u (started cfg job start is_i e) a =
      started-Outcome cfg job start s s' p' is_i (subst (λ q. Acts x q s p' s') e a)
  Waits-Outcome p p' s s' u (claims cfg job start now is_i e) a =
      claims-Outcome cfg job start now s s' p' is_i u (subst (λ q. Acts x q s p' s') e a)
  Waits-Outcome p p' s s' u (ended r e) a = absurd (subst (λ q. Acts x q s p' s') e a)

  -- A handling that waits, or that has claimed the job and counts no more than so many events.
  data State (p : Handling) : Type 0 where
    waiting : Waits p → State p
    running : (n : ℕ) → Counts x i n p → State p

  due : {p : Handling} → State p → ℕ
  due (waiting w) = 0
  due (running n c) = n

  owed : (ps : List Handling) → All State ps → ℕ
  unfolding due
  owed [] a = 0
  owed (p ∷ ps) (st, a) = due st + owed ps a

  -- The state of one handling, and a way to replace it.
  record Split (front back : List Handling) (p : Handling) (n : ℕ) : Type 0 where
    state : State p
    replace :
        (p' : Handling) (st : State p')
        → (a : All State (front ++ (p' ∷ back))) × (owed (front ++ (p' ∷ back)) a + due state
            ≡ n + due st)

  split :
      (front back : List Handling) (p : Handling) (a : All State (front ++ (p ∷ back)))
      → Split front back p (owed (front ++ (p ∷ back)) a)
  unfolding owed
  split [] back p (st, a) = record { state = st; replace = λ p' st'. ((st', a), omega arith) }
  split (q ∷ front) back p (st, a) =
      let rest : Split front back p (owed (front ++ (p ∷ back)) a) = split front back p a in
      record {
        state = rest.state;
        replace = λ p' st'. let (a', e) = rest.replace p' st' in ((st, a'), omega (arith, e));
      }

  all_waiting : (ps : List Handling) → All Waits ps → (a : All State ps) × (owed ps a ≡ 0)
  unfolding owed
  all_waiting [] ws = (tt, refl)
  all_waiting (p ∷ ps) (w, ws) =
      let (a, e) = all_waiting ps ws in ((waiting w, a), omega (arith, e))

  -- `n` events had been counted at the start.
  data Inv (n : ℕ) (s : View) (ps : List Handling) : Type 0 where
    unclaimed : UniqueIds s.docs → All Waits ps → runs s.counted ≤ n → Inv n s ps
    taken : Settled x i s → (a : All State ps) → runs s.counted + owed ps a ≤ suc n → Inv n s ps

  -- A command of a handling that has claimed the job.
  run_on :
      (n : ℕ) (p p' : Handling) (s s' : View)
      → Settled x i s
      → Counts x i n p
      → Acts x p s p' s'
      → (m : ℕ) × Settled x i s' × (runs s'.counted + m ≤ runs s.counted + n) × Counts x i m p'
  run_on n (ret a) p' s s' h c acts = elim acts [ ]
  run_on n (call cmd k) p' s s' h c (r, e, after) =
      let (m, h', le, rest) = c r s s' h e in (m, h', le, subst (Counts x i m) (sym after) rest)

  module _ (n : ℕ) (front back : List Handling) (p p' : Handling) (s s' : View)
      (acts : Acts x p s p' s') where
    unclaimed-Inv :
        UniqueIds s.docs
        → All Waits (front ++ (p ∷ back))
        → runs s.counted ≤ n
        → Inv n s' (front ++ (p' ∷ back))
    unfolding due
    unclaimed-Inv u ws le =
        let (l, w) = All-split Waits front (p ∷ back) ws in
        by_outcome l w.1 (Waits-Outcome p p' s s' u w.0 acts)
      where
        by_outcome :
            All Waits front → All Waits back → Outcome s s' p' → Inv n s' (front ++ (p' ∷ back))
        by_outcome l r (quiet same w) =
            unclaimed (rw same u) (All-append Waits front (p' ∷ back) l (w, r))
              (omega (arith, ap (λ v. runs v.counted) same, le))
        by_outcome l r (claimed _ settled same c) =
            let (a, e) = all_waiting (front ++ (p ∷ back)) ws in
            let one : Split front back p (owed (front ++ (p ∷ back)) a) = split front back p a in
            let (a', e') = one.replace p' (running 1 c) in
            taken settled a' (omega (arith, e, e', ap runs same, le))

    taken-Inv :
        Settled x i s
        → (a : All State (front ++ (p ∷ back)))
        → runs s.counted + owed (front ++ (p ∷ back)) a ≤ suc n
        → Inv n s' (front ++ (p' ∷ back))
    unfolding due
    taken-Inv h a le = by_state one.state one.replace
      where
        one : Split front back p (owed (front ++ (p ∷ back)) a)
        one = split front back p a

        by_outcome :
            ((q : Handling) (st : State q)
              → (a' : All State (front ++ (q ∷ back))) × (owed (front ++ (q ∷ back)) a' + 0
                  ≡ owed (front ++ (p ∷ back)) a + due st))
            → Outcome s s' p'
            → Inv n s' (front ++ (p' ∷ back))
        by_outcome replace (quiet same w) =
            let (a', e) = replace p' (waiting w) in
            taken (same-Settled x i s s' h same) a'
              (omega (arith, e, ap (λ v. runs v.counted) same, le))
        by_outcome replace (claimed not_settled _ _ _) = absurd (not_settled h)

        by_state :
            (st : State p)
            → ((q : Handling) (st' : State q)
                → (a' : All State (front ++ (q ∷ back))) × (owed (front ++ (q ∷ back)) a' + due st
                    ≡ owed (front ++ (p ∷ back)) a + due st'))
            → Inv n s' (front ++ (p' ∷ back))
        by_state (waiting w) replace = by_outcome replace (Waits-Outcome p p' s s' h.unique w acts)
        by_state (running k c) replace =
            let (m, settled, fewer, rest) = run_on k p p' s s' h c acts in
            let (a', e) = replace p' (running m rest) in
            taken settled a' (omega (arith, e, fewer, le))

    pick-Inv : Inv n s (front ++ (p ∷ back)) → Inv n s' (front ++ (p' ∷ back))
    pick-Inv (unclaimed u ws le) = unclaimed-Inv u ws le
    pick-Inv (taken h a le) = taken-Inv h a le

  PoolReach-Inv :
      (n : ℕ) {s : View} {ps : List Handling} {s' : View} {ps' : List Handling}
      → PoolReach x s ps s' ps'
      → Inv n s ps
      → Inv n s' ps'
  PoolReach-Inv n here v = v
  PoolReach-Inv n (next {t} {u} r (pick front back p p' e a e')) v =
      subst (Inv n u) (sym e')
        (pick-Inv n front back p p' t u a (subst (Inv n t) e (PoolReach-Inv n r v)))

  abbrev pub Names : Config × DispatchMessage → Type 0
  Names d = d.1.job_id ≡ x.hex_of i

  handlings-Waits : (ds : List (Config × DispatchMessage)) → All Names ds → All Waits (handlings ds)
  handlings-Waits [] a = tt
  handlings-Waits ((cfg, msg) ∷ ds) (e, a) = (delivered cfg msg e refl, handlings-Waits ds a)

  counted_once : (n : ℕ) (s : View) (ps : List Handling) → Inv n s ps → runs s.counted ≤ suc n
  counted_once n s ps (unclaimed u ws le) = omega (arith, le)
  counted_once n s ps (taken h a le) = omega (arith, le)

-- From a collection with unique ids, however often messages that name one job are delivered, to
-- however many executors, and however the commands of their handling interleave and fail: all together
-- they count at most one success or failure of a handler.
pub run_at_most_once :
    (x : Codec) (i : ObjectId) (s s' : View) (ds : List (Config × DispatchMessage))
    (ps : List Handling)
    → UniqueIds s.docs
    → All (Names x i) ds
    → PoolReach x s (handlings ds) s' ps
    → runs s'.counted ≤ suc (runs s.counted)
run_at_most_once x i s s' ds ps u naming reach = counted_once x i (runs s.counted) s' ps (
    PoolReach-Inv x i (runs s.counted) reach
      (unclaimed u (handlings-Waits x i ds naming) (omega arith)))
