-- ===== src/Services/Rounds.antt =====
-- The loops of the services return when their context ends.
use high_scale_job_scheduler.Prelude.{
  ℕ, zero, suc, ℤ, ◌≡◌, ◌≢◌, refl, ◌≤◌, ◌<◌, Bool, true, false, List, Option, inl, inr, Bool-cases,
  arith,
}
use high_scale_job_scheduler.Errors.{Error, Result, ok, err, campaign_failed}
use high_scale_job_scheduler.Models.{Duration}
use high_scale_job_scheduler.Topics.{DispatchMessage}
use high_scale_job_scheduler.Effects.{
  Cmd, Reply, Prog, ret, call, ask, ◌>>=◌, next_tick, context_done, poll_fetches, commit_offsets,
  resign, campaign, time_sleep, close_kafka,
}
use high_scale_job_scheduler.Effects.World.{World, run, run-bind_answer}
use high_scale_job_scheduler.Scheduler.{run_once, run_loop}
use high_scale_job_scheduler.Reaper.{sweep_once, reap}
use high_scale_job_scheduler.Dispatch.{each_record, consume}
use high_scale_job_scheduler.Election.{
  LeaderElector, run_as_leader, step_down, after_term, retry_delay, lead,
}

-- The context ends: there is a bound on the number of times that it is still found running, by a
-- `select` over it or by `ctx.Err()`.
pub record ContextEnds (w : World) : Type 0 where
  pub left : w.State → ℕ
  pub not_more : (c : Cmd) (s : w.State) → left (w.exec c s).1 ≤ left s
  pub at_tick :
      (s : w.State) → (w.exec next_tick s).0 ≡ false → left (w.exec next_tick s).1 < left s
  pub at_test :
      (s : w.State) → (w.exec context_done s).0 ≡ false → left (w.exec context_done s).1 < left s

module _ (w : World) (ends : ContextEnds w) where
  open ends use {left, not_more, at_tick, at_test}

  run-left : {A : Type 0} (m : Prog A) (s : w.State) → left (run w m s).1 ≤ left s
  unfolding run
  run-left (ret a) s = omega arith
  run-left (call c k) s = omega (arith, not_more c s, run-left (k (w.exec c s).0) (w.exec c s).1)

  -- Every run from a state with fewer than `n` left answers what `Q` accepts.
  abbrev pub Answers : {A : Type 0} → ℕ → Prog A → (A → Type 0) → Type 0
  Answers n m Q = (s : w.State) → left s < n → Q (run w m s).0

  pub Answers-ret : {A : Type 0} (n : ℕ) (a : A) (Q : A → Type 0) → Q a → Answers n (ret a) Q
  unfolding run
  Answers-ret n a Q h s l = h

  -- A part whose answer satisfies `P`, and what follows such an answer.
  pub Answers-then :
      {A B : Type 0} (n : ℕ) (m : Prog A) (f : A → Prog B) (P : A → Type 0) (Q : B → Type 0)
      → Answers n m P
      → ((a : A) → P a → Answers n (f a) Q)
      → Answers n (m >>= f) Q
  Answers-then n m f P Q g h s l =
      rw (run-bind_answer w m f s (run w m s).0 refl)
        (h (run w m s).0 (g s l) (run w m s).1 (omega (arith, run-left m s, l)))

  pub Answers-bind :
      {A B : Type 0} (n : ℕ) (m : Prog A) (f : A → Prog B) (Q : B → Type 0)
      → ((a : A) → Answers n (f a) Q)
      → Answers n (m >>= f) Q
  Answers-bind n m f Q h = Answers-then n m f (λ _. Unit {0}) Q (λ s l. tt) (λ a _. h a)

  pub Answers-call :
      {A : Type 0} (n : ℕ) (c : Cmd) (k : Reply c → Prog A) (Q : A → Type 0)
      → ((r : Reply c) → Answers n (k r) Q)
      → Answers n (call c k) Q
  unfolding run
  Answers-call n c k Q h s l = h (w.exec c s).0 (w.exec c s).1 (omega (arith, not_more c s, l))

  abbrev pub Returns : ℕ → Prog Bool → Type 0
  Returns n m = Answers n m (λ b. b ≡ true)

  -- A round of a loop that asks a question whose answer counts down.
  Returns-round :
      (n : ℕ) (c : Cmd) (answer : Reply c → Bool) (stop go : Prog Bool)
      → ((s : w.State) → answer (w.exec c s).0 ≡ false → left (w.exec c s).1 < left s)
      → Returns (suc n) stop
      → Returns n go
      → Returns (suc n) (call c (λ r. elim (answer r) [ true ↦ stop | false ↦ go ]))
  unfolding run
  Returns-round n c answer stop go down h k s l = elim (Bool-cases (answer (w.exec c s).0)) [
    | inl e ↦ rw (e, run) (h (w.exec c s).1 (omega (arith, not_more c s, l)))
    | inr e ↦ rw (e, run) (k (w.exec c s).1 (omega (arith, down s e, l)))
  ]

  stopped : (n : ℕ) → Returns (suc n) (ret true)
  stopped n = Answers-ret (suc n) true (λ b. b ≡ true) refl

  pub run_loop-Returns : (n : ℕ) (batch_size : ℤ) → Returns n (run_loop n batch_size)
  unfolding run_loop
  run_loop-Returns zero batch_size = λ s l. absurd (omega (arith, l))
  run_loop-Returns (suc n) batch_size =
      Returns-round n next_tick (λ b. b) (ret true)
        (run_once batch_size >>= λ _. run_loop n batch_size) at_tick (stopped n)
        (Answers-bind n (run_once batch_size) _ (λ b. b ≡ true)
          (λ _. run_loop-Returns n batch_size))

  pub reap-Returns :
      (n : ℕ) (claim_timeout queued_timeout : Duration)
      → Returns n (reap n claim_timeout queued_timeout)
  unfolding reap
  reap-Returns zero claim_timeout queued_timeout = λ s l. absurd (omega (arith, l))
  reap-Returns (suc n) claim_timeout queued_timeout =
      Returns-round n next_tick (λ b. b) (ret true)
        (sweep_once claim_timeout queued_timeout >>= λ _. reap n claim_timeout queued_timeout)
        at_tick (stopped n)
        (Answers-bind n (sweep_once claim_timeout queued_timeout) _ (λ b. b ≡ true)
          (λ _. reap-Returns n claim_timeout queued_timeout))

  after_poll-Returns :
      (n : ℕ) (handler : DispatchMessage → Prog (Option Error)) (closed : Bool)
      (records : List (Option DispatchMessage))
      → Returns n (consume n handler)
      → Returns n (elim closed [
        | true ↦ ret true
        | false ↦ each_record handler records >>= λ _. ask commit_offsets >>= λ _. consume n handler
      ])
  after_poll-Returns n handler true records h = Answers-ret n true (λ b. b ≡ true) refl
  after_poll-Returns n handler false records h =
      Answers-bind n (each_record handler records) _ (λ b. b ≡ true)
        (λ _. Answers-call n commit_offsets _ (λ b. b ≡ true) (λ _. h))

  pub consume-Returns :
      (n : ℕ) (handler : DispatchMessage → Prog (Option Error)) → Returns n (consume n handler)
  unfolding consume
  consume-Returns zero handler = λ s l. absurd (omega (arith, l))
  consume-Returns (suc n) handler =
      Returns-round n context_done (λ b. b) (ask close_kafka >>= λ _. ret true)
        (ask poll_fetches >>= λ fetches. elim fetches.client_closed [
          | true ↦ ret true
          | false ↦ each_record handler fetches.records >>= λ _.
              ask commit_offsets >>= λ _. consume n handler
        ])
        at_test (Answers-call (suc n) close_kafka _ (λ b. b ≡ true) (λ _. stopped n))
        (Answers-call n poll_fetches _ (λ b. b ≡ true)
          (λ fetches.
            after_poll-Returns n handler fetches.client_closed fetches.records
              (consume-Returns n handler)))

  step_down-Answers : (n : ℕ) (b : Bool) → b ≡ true → Answers n (step_down b) (λ r. r ≢ ok false)
  step_down-Answers n true e =
      Answers-call n resign (λ _. ret (ok true)) (λ r. r ≢ ok false)
        (λ _. Answers-ret n (ok true) (λ r. r ≢ ok false) (λ q. cc))
  step_down-Answers n false e = absurd cc

  run_as_leader-Answers :
      (n : ℕ) (le : LeaderElector) (on_leading : Prog Bool)
      → Returns n on_leading
      → Answers n (run_as_leader le on_leading) (λ r. r ≢ ok false)
  unfolding run_as_leader
  run_as_leader-Answers n le on_leading h =
      Answers-call n (campaign le.node_id) _ (λ r. r ≢ ok false)
        (elim [
          | err e ↦ Answers-ret n (err (campaign_failed e)) (λ r. r ≢ ok false) (λ q. cc)
          | ok _ ↦
              Answers-then n on_leading step_down (λ b. b ≡ true) (λ r. r ≢ ok false) h
                (step_down-Answers n)
        ])

  after_term-Returns :
      (n : ℕ) (r : Result Bool) (again : Prog Bool)
      → r ≢ ok false
      → Returns n again
      → Returns n (after_term r again)
  after_term-Returns n (ok false) again h k = absurd (h refl)
  after_term-Returns n (ok true) again h k = k
  after_term-Returns n (err e) again h k =
      Answers-call n context_done _ (λ b. b ≡ true)
        (elim [
          | true ↦ k
          | false ↦ Answers-call n (time_sleep retry_delay) _ (λ b. b ≡ true) (λ _. k)
        ])

  pub lead-Returns :
      (n rounds : ℕ) (le : LeaderElector) (batch_size : ℤ)
      → n ≤ rounds
      → Returns n (lead n rounds le batch_size)
  unfolding lead
  lead-Returns zero rounds le batch_size b = λ s l. absurd (omega (arith, l))
  lead-Returns (suc n) rounds le batch_size b =
      Returns-round n context_done (λ b. b) (ret true)
        (run_as_leader le (run_loop rounds batch_size) >>= λ r.
          after_term r (lead n rounds le batch_size))
        at_test (stopped n)
        (Answers-then n (run_as_leader le (run_loop rounds batch_size)) _ (λ r. r ≢ ok false)
          (λ b. b ≡ true)
          (run_as_leader-Answers n le (run_loop rounds batch_size)
            (λ s l. run_loop-Returns rounds batch_size s (omega (arith, b, l))))
          (λ r h.
            after_term-Returns n r _ h (lead-Returns n rounds le batch_size (omega (arith, b)))))
