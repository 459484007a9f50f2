-- ===== src/Examples/Progress.antt =====
-- Examples for a pass of internal/scheduler/loop.go in a world that answers, as the one in memory.
use mathlib.Core.List.{Memᴰ}
use high_scale_job_scheduler.Prelude.{
  ◌≡◌, refl, pos, add_pos, ◌≤ℤ◌, ◌+ℤ◌, Bool, true, false, ◌&&◌, List, [], ◌∷◌, arith, ◌⊎◌, inl, inr,
  Bool-cases, Option-cases, All-imp,
}
use high_scale_job_scheduler.Errors.{no_documents}
use high_scale_job_scheduler.Models.{Job, Time, pending}
use high_scale_job_scheduler.Effects.Docs.{NoneOf, Memᴰ-All}
use high_scale_job_scheduler.Effects.World.{IsFirst, stored}
use high_scale_job_scheduler.Effects.Memory.{answer, first_of_docs, is_first, change_first}
use high_scale_job_scheduler.Effects.Memory.Lawful.{memory, codec}
use high_scale_job_scheduler.Effects.Memory.Search.{NoneOf-change, first_passes}
use high_scale_job_scheduler.Store.{is_due, set_queued, claims_before}
use high_scale_job_scheduler.Executor.Handlers.{noop_handler}
use high_scale_job_scheduler.System.Progress
use high_scale_job_scheduler.System.Progress.{AnswersClaims, Advances}
use high_scale_job_scheduler.Examples.Data.{backlog, backlog-UniqueIds, job, memory_of}
use high_scale_job_scheduler.Examples.Services.{
  runner, has_noop, noop_succeeds, memory-Answers, memory-Finds, memory-Publishes,
}

of_IsFirst :
    (p : Job → Bool) (before : Job → Job → Bool) (j : Job) (js : List Job)
    → IsFirst p before j js
    → is_first p before j js ≡ true
unfolding is_first
of_IsFirst p before j [] h = refl
of_IsFirst p before j (k ∷ ks) h = elim (Bool-cases (p k)) [
  | inl e ↦ rw (e, h.0 e, of_IsFirst p before j ks h.1) refl
  | inr e ↦ rw (e, of_IsFirst p before j ks h.1) refl
]

-- A due document that no due document precedes.
record Best (now : Time) (docs : List Job) : Type 0 where
  best : Job
  here : Memᴰ best docs
  due : is_due now best ≡ true
  first : IsFirst (is_due now) claims_before best docs

not_before_trans :
    (a b c : Job) → claims_before b c ≡ true → claims_before a c ≡ false → claims_before a b ≡ false
not_before_trans a b c h g = ground arith

not_before_itself : (a : Job) → claims_before a a ≡ false
not_before_itself a = ground arith

Best-cons : {now : Time} {docs : List Job} (j : Job) → Best now docs → Best now (j ∷ docs)
Best-cons {now} {docs} j b = elim (Bool-cases (is_due now j && claims_before j b.best)) [
  | inl e ↦
      let before : claims_before j b.best ≡ true = ground (arith, e) in
      record {
        best = j;
        here = Memᴰ.head refl;
        due = ground (arith, e);
        first = (
          λ _. not_before_itself j,
          All-imp (λ k. is_due now k ≡ true → claims_before k b.best ≡ false)
              (λ k. is_due now k ≡ true → claims_before k j ≡ false) docs
              (λ k f d. not_before_trans k j b.best before (f d)) b.first,
        );
      }
  | inr e ↦ record {
    best = b.best;
    here = Memᴰ.tail b.here;
    due = b.due;
    first = (λ d. ground (arith, e, d), b.first);
  }
]

some_due : (now : Time) (docs : List Job) → NoneOf (is_due now) docs ⊎ Best now docs
some_due now [] = inl tt
some_due now (j ∷ docs) = elim (some_due now docs) [
  | inr b ↦ inr (Best-cons j b)
  | inl n ↦ elim (Bool-cases (is_due now j)) [
    | inr e ↦ inl (e, n)
    | inl e ↦ inr (record {
      best = j;
      here = Memᴰ.head refl;
      due = e;
      first = (
        λ _. not_before_itself j,
        All-imp (λ k. is_due now k ≡ false) (λ k. is_due now k ≡ true → claims_before k j ≡ false)
            docs (λ k f d. absurd (ground (arith, f, d))) n,
      );
    })
  ]
]

-- The world in memory answers a claim with a job whenever one is due.
memory-AnswersClaims : AnswersClaims memory
unfolding answer
memory-AnswersClaims now at m =
    let docs = m.view.docs in
    let q : Job → Bool = λ j. is_due now j && is_first (is_due now) claims_before j docs in
    let g : Job → Job = λ j. stored codec (set_queued at j) in
    elim (Option-cases (change_first q g docs)) [
      | inr ((j, js), e) ↦ inl (g j, rw (e, answer) refl)
      | inl e ↦ elim (some_due now docs) [
        | inl n ↦ elim (Option-cases (first_of_docs (is_due now) docs)) [
          | inl f ↦ inr (no_documents, rw (e, f, answer) refl, refl)
          | inr (k, f) ↦
              let (mem, d) = first_passes (is_due now) k docs f in
              absurd (ground (arith, d, Memᴰ-All (λ i. is_due now i ≡ false) mem n))
        ]
        | inr b ↦
            let fails = Memᴰ-All (λ i. q i ≡ false) b.here (NoneOf-change q g docs e) in
            let f = of_IsFirst (is_due now) claims_before b.best docs b.first in
            absurd (cc (rw (b.due, f) at fails))
      ]
    ]

second_later : pos 3000000 ≤ℤ pos 10000000000 +ℤ pos 1000000000
second_later = rw (add_pos 10000000000 1000000000) (omega arith)

-- A pass with a batch of one over the backlog, and its second job.
due_job_progresses_example :
    Advances memory (pos 1) runner (job 2 "b" pending (pos 9) (pos 3000000)) (memory_of backlog)
unfolding answer
due_job_progresses_example =
    Progress.due_job_progresses memory memory-AnswersClaims memory-Publishes memory-Answers
      memory-Finds (memory_of backlog) (pos 1) runner (job 2 "b" pending (pos 9) (pos 3000000))
      noop_handler backlog-UniqueIds (refl, (refl, (refl, tt))) refl refl second_later has_noop
      noop_succeeds
