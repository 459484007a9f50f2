-- ===== src/System/Safety.antt =====
-- Every state that the processes reach is sound.
use high_scale_job_scheduler.Prelude.{subst, some, ◌≢◌, [], ◌∷◌, All, All-append, All-split, ◌≡◌}
use high_scale_job_scheduler.Effects.{Prog, ret, call}
use high_scale_job_scheduler.Models.{Job, failed}
use high_scale_job_scheduler.Topics.{DispatchMessage}
use mathlib.Core.List.{Memᴰ}
use high_scale_job_scheduler.Effects.Docs.{doc, doc-All, Memᴰ-All}
use high_scale_job_scheduler.Effects.World.{View, Codec}
use high_scale_job_scheduler.System.{
  System, Process, Starts, Step, Reach, detach, api, request, scheduler, dispatcher, executor,
  reaper, seeder, act, start, here, next,
}
use high_scale_job_scheduler.System.Integrity.{
  IsFree, IsTemplate, IsIdle, Inv-begin_template, Base, Inv, IsSound, IsValid, KeptIn, work_of,
  same-Inv, Inv-begin, Inv-IsSound,
}
use high_scale_job_scheduler.System.Repository.{Safe, Any}
use high_scale_job_scheduler.System.Handlers.{then-Safe}
use high_scale_job_scheduler.System.Schedulers.{dispatch_fn-Safe}
use high_scale_job_scheduler.System.Services.{
  scheduler_main-Safe, executor_main-Safe, reaper_main-Safe, api_main-Safe, serve-Safe,
}
use high_scale_job_scheduler.System.Seeding.{seed_main-Safe}

module _ (x : Codec) (base : Base) where
  -- The shared world is sound, and each process keeps it so.
  pub record IsSafe (t : System) : Type 0 where
    pub sound : Inv x base t.view
    pub all_safe : All (λ (p : Process). Safe x base p (Any x base)) t.processes

  detach-Safe :
      {A : Type 0} (m : Prog A) → Safe x base m (Any x base) → Safe x base (detach m) (Any x base)
  detach-Safe m h = then-Safe x base m (ret tt) (Any x base) h tt

  Starts-Safe : {s : View} {p : Process} → Inv x base s → Starts s p → Safe x base p (Any x base)
  Starts-Safe i (api env pd) = detach-Safe _ (api_main-Safe x base env pd)
  Starts-Safe i (request r) = detach-Safe _ (serve-Safe x base r)
  Starts-Safe i (scheduler terms rounds env pd) =
      detach-Safe _ (scheduler_main-Safe x base terms rounds env pd)
  Starts-Safe i (dispatcher j m) =
      dispatch_fn-Safe x base j (Memᴰ-All (λ d. IsFree base d.id) m i.dispatched_free)
  Starts-Safe i (executor rounds env pd) = detach-Safe _ (executor_main-Safe x base rounds env pd)
  Starts-Safe i (reaper rounds env pd) = detach-Safe _ (reaper_main-Safe x base rounds env pd)
  Starts-Safe i (seeder flags env pd) = detach-Safe _ (seed_main-Safe x base flags env pd)

  Step-IsSafe : {t u : System} → Step x t u → IsSafe t → IsSafe u
  Step-IsSafe {t} {u} (act front back c k r e effect e') h =
      let (l, m) =
        All-split (λ p. Safe x base p (Any x base)) front (call c k ∷ back)
          (subst (All (λ p. Safe x base p (Any x base))) e h.all_safe) in
      let (sound, rest) = m.0 r t.view u.view h.sound effect in
      record {
        sound = sound;
        all_safe =
            rw e' (All-append (λ p. Safe x base p (Any x base)) front (k r ∷ back) l (rest, m.1));
      }
  Step-IsSafe {t} {u} (start p s e e') h = record {
    sound = same-Inv x base t.view u.view h.sound e;
    all_safe = rw e' (Starts-Safe h.sound s, h.all_safe);
  }

  Reach-IsSafe : {t u : System} → Reach x t u → IsSafe t → IsSafe u
  Reach-IsSafe here h = h
  Reach-IsSafe (next r st) h = Step-IsSafe st (Reach-IsSafe r h)

module _ (x : Codec) (base : Base) (s : View) (h : Inv x base s) (t : System)
    (r : Reach x (record { view = s; processes = [] }) t) where
  reach-Inv : Inv x base t.view
  reach-Inv = (Reach-IsSafe x base r (record { sound = h; all_safe = tt })).sound

-- From a sound world with no process, any interleaving of the commands of any number of API
-- servers, requests to them, schedulers, dispatchers, executors, reapers and seed commands reaches
-- sound worlds only: ids are unique, and keys too with the unique index; every job allows at least
-- one attempt and none has the status `failed`; no job handed to a dispatcher is a recurring
-- template; and every message is on the topic of its job type or the dead-letter topic, and names a
-- job by the text of its id, which is its key.
pub Reach-IsSound :
    (x : Codec) (s : View) (t : System)
    → IsSound x s
    → Reach x (record { view = s; processes = [] }) t
    → IsSound x t.view
Reach-IsSound x s t h r = Inv-IsSound x _ t.view (reach-Inv x _ s (Inv-begin x s h) t r)

-- No job is lost or rewritten: a job of a sound world with no process is in every world that the
-- processes reach from there, under its id and with the same key, tenant, job type, payload,
-- priority, cron expression and number of attempts allowed, and its status is not `failed`.
pub Reach-Persists :
    (x : Codec) (s : View) (t : System) (j : Job)
    → IsSound x s
    → Memᴰ j s.docs
    → Reach x (record { view = s; processes = [] }) t
    → (k : Job) × (doc j.id t.view.docs ≡ some k) × (work_of k ≡ work_of j) × (k.status ≢ failed)
Reach-Persists x s t j h m r =
    let i = reach-Inv x _ s (Inv-begin x s h) t r in
    let (k, e, w) = Memᴰ-All (KeptIn t.view.docs) m i.kept in
    (k, e, w, (doc-All IsValid j.id k t.view.docs i.valid e).not_failed)

-- A recurring template is never executed: a template of a sound world with no process, whose status is
-- `pending`, `queued` or `dlq`, which no message names and for which nothing has been dispatched, is in
-- every world that the processes reach from there, with its work, in one of these three statuses, with
-- the attempts and the worker that it had.
pub template_never_run :
    (x : Codec) (s : View) (t : System) (j : Job)
    → IsSound x s
    → doc j.id s.docs ≡ some j
    → IsTemplate j
    → All (λ d. d.id ≢ j.id) s.dispatched
    → All
        (λ m. (body : DispatchMessage) → m.value ≡ some body → body.job_id ≢ x.hex_of j.id)
        s.produced
    → Reach x (record { view = s; processes = [] }) t
    → (k : Job) × (doc j.id t.view.docs ≡ some k) × (work_of k ≡ work_of j) × IsIdle j k
template_never_run x s t j h found template dispatched produced r =
    (reach-Inv x _ s (Inv-begin_template x s j h found dispatched produced) t r).idle.0 template
