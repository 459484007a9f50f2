-- ===== src/System/Progress.antt =====
-- internal/scheduler/loop.go, cmd/scheduler/main.go and cmd/executor/main.go where every service answers:
-- a due job from the pass of `runOnce` that claims it to its completion.
mod Passes
pub use high_scale_job_scheduler.System.Progress.Passes.{AnswersClaims}
use mathlib.Core.List.{Memᴰ}
use high_scale_job_scheduler.Prelude.{
  ℤ, ◌≤ℤ◌, ◌≡◌, ◌≢◌, refl, ◌∙◌, subst, ap, ◌⊎◌, inl, inr, arith, none, some, List, [], ◌∷◌, All,
  Bool-cases, ltb, length, ◌==◌, ==_iff,
}
use high_scale_job_scheduler.Errors.{ok}
use high_scale_job_scheduler.Models.{Job, ObjectId, Time, pending}
use high_scale_job_scheduler.Topics.{DispatchMessage}
use high_scale_job_scheduler.Effects.{ret, time_now}
use high_scale_job_scheduler.Effects.Docs.{UniqueIds, doc, Memᴰ-All}
use high_scale_job_scheduler.Effects.World.{View, World, run}
use high_scale_job_scheduler.Store.{rounds}
use high_scale_job_scheduler.Store.Failure.{SameWork, SameWork-trans}
use high_scale_job_scheduler.Store.Claims.{ClaimedFrom, InOrder, is_due_of}
use high_scale_job_scheduler.Store.Queue.{due_at, due_at-some}
use high_scale_job_scheduler.Scheduler.{run_once, dispatch_fn}
use high_scale_job_scheduler.Scheduler.Dispatching.{claim_time, handed, IsOneOff}
use high_scale_job_scheduler.Executor.{Runner, Handler, get}
use high_scale_job_scheduler.Executor.Completion.{Answers, Completes}
use high_scale_job_scheduler.Worker.{handle_message}
use high_scale_job_scheduler.Worker.Arrival.{Finds, Publishes, sent_message, dispatch_fn-Completes}
use high_scale_job_scheduler.System.Progress.Passes.{Pass, run_once-Pass}

-- The job under the id, or none.
among :
    (i : ObjectId) (js : List Job) → ((k : Job) × Memᴰ k js × (k.id ≡ i)) ⊎ All (λ j. j.id ≢ i) js
among i [] = inr tt
among i (j ∷ js) = elim (Bool-cases (j.id == i)) [
  | inl e ↦ inl (j, Memᴰ.head refl, (==_iff j.id i).0 e)
  | inr e ↦ elim (among i js) [
    | inl (k, m, q) ↦ inl (k, Memᴰ.tail m, q)
    | inr a ↦ inr ((λ q. absurd (ground (arith, e, q))), a)
  ]
]

module _ (w : World) (limit : ℤ) (rn : Runner) (j : Job) (s : w.State) where
  abbrev pub after_pass : w.State
  after_pass = (run w (run_once limit) s).1

  abbrev pub after_dispatch : Job → w.State
  after_dispatch k = (run w (dispatch_fn k) after_pass).1

  -- What becomes of a due job: a pass takes it and the handling of its message completes it, or the
  -- batch is full of jobs that go first and the job stays as it is.
  pub data Advances : Type 0 where
    completes :
        (jobs : List Job) (k : Job) (msg : DispatchMessage)
        → (w.view after_pass).dispatched ≡ handed jobs (w.view s).dispatched
        → Memᴰ k jobs
        → SameWork j k
        → (w.view (after_dispatch k)).produced ≡ sent_message msg ∷ (w.view after_pass).produced
        → Completes j.id j
            (w.view after_pass)
            (w.view (run w (handle_message rn msg) (after_dispatch k)).1)
        → Advances
    passed_over :
        (jobs : List Job)
        → (w.view after_pass).dispatched ≡ handed jobs (w.view s).dispatched
        → length jobs ≡ rounds limit
        → All (λ k. InOrder k j) jobs
        → doc j.id (w.view after_pass).docs ≡ some j
        → Advances

  -- What a claimed job completes, the job that it was claimed from completes.
  Completes-claimed :
      {s' t : View} (k : Job)
      → SameWork j k
      → k.attempts ≡ j.attempts
      → Completes k.id k s' t
      → Completes j.id j s' t
  Completes-claimed k same attempts c = record {
    after = c.after;
    at = rw (← same.id) c.at;
    is_completed = c.is_completed;
    same_attempts = c.same_attempts ∙ attempts;
    same_work = SameWork-trans same c.same_work;
    frame = λ i n. c.frame i (λ e. n (e ∙ same.id));
  }

  module _ (now : Time) (found : doc j.id (w.view s).docs ≡ some j) (p : j.status ≡ pending)
      (due : j.scheduled_at ≤ℤ now)
      (pass : Pass w.codec now limit (w.view s) (w.view after_pass)) where
    in_queue : due_at now j.id (w.view s).docs ≡ some j
    in_queue = rw (found, is_due_of j now p due) refl

    skipped : All (λ k. k.id ≢ j.id) pass.jobs → Advances
    skipped a =
        let stays = pass.queue.others j.id a ∙ in_queue in
        let le = pass.queue.few in
        let full : length pass.jobs ≡ rounds limit =
          elim (Bool-cases (ltb (length pass.jobs) (rounds limit))) [
            | inl l ↦ absurd (ground (arith, stays, pass.queue.enough (ground (arith, l)) j.id))
            | inr f ↦ ground (arith, f, le)
          ] in
        passed_over pass.jobs pass.dispatched full (pass.queue.best j.id j stays)
          (due_at-some w.codec now j.id j (w.view after_pass).docs stays).0

    taken :
        (publishes : Publishes w) (answers : Answers w) (finds : Finds w) (h : Handler)
        → get rn.registry j.job_type ≡ ok h
        → h j.payload ≡ ret none
        → (k : Job) → Memᴰ k pass.jobs
        → k.id ≡ j.id
        → Advances
    taken publishes answers finds h registered succeeds k m e =
        let f = Memᴰ-All (ClaimedFrom w.codec now (w.view s)) m pass.from in
        let at = Memᴰ-All (λ d. doc d.id (w.view after_pass).docs ≡ some d) m pass.at in
        let before : f.before ≡ j =
          ground (arith, f.found, found, ap (λ i. doc i (w.view s).docs) e) in
        let same : SameWork j k = subst (λ d. SameWork d k) before f.same_work in
        let (msg, _, sent, _, done) =
          dispatch_fn-Completes w publishes answers finds after_pass rn k h pass.unique at
            f.is_queued (rw same.job_type registered) (rw same.payload succeeds) in
        completes pass.jobs k msg pass.dispatched m same sent
          (Completes-claimed k same (f.same_attempts ∙ ap (λ d. d.attempts) before) done)

-- In a world that answers every claim and every update, takes every message and finds documents, and
-- in a collection with unique ids and no recurring template: a job that is pending and due at the time
-- that a pass of `runOnce` claims at, with a handler that is registered for its type and succeeds on its
-- payload, makes progress. Either the pass dispatches it, with its work, its goroutine sends one
-- message, and the handling of that message leaves it completed, with its work and its attempts, and
-- every other document as the pass left it. Or the pass dispatches as many jobs as the batch size,
-- each of a higher priority, or of the same priority and no later schedule, and the job stays as it is.
pub due_job_progresses :
    (w : World) (claims : AnswersClaims w) (publishes : Publishes w) (answers : Answers w)
    (finds : Finds w) (s : w.State) (limit : ℤ) (rn : Runner) (j : Job) (h : Handler)
    → UniqueIds (w.view s).docs
    → All IsOneOff (w.view s).docs
    → doc j.id (w.view s).docs ≡ some j
    → j.status ≡ pending
    → j.scheduled_at ≤ℤ claim_time w s
    → get rn.registry j.job_type ≡ ok h
    → h j.payload ≡ ret none
    → Advances w limit rn j s
due_job_progresses w claims publishes answers finds s limit rn j h u a found p due registered
      succeeds =
    let now = claim_time w s in
    let pass = run_once-Pass w claims limit s u a in
    elim (among j.id pass.jobs) [
      | inl (k, m, e) ↦
          taken w limit rn j s now found p due pass publishes answers finds h registered succeeds k
            m e
      | inr missed ↦ skipped w limit rn j s now found p due pass missed
    ]
