-- ===== src/Executor/Delivery.antt =====
-- `Execute` under at-least-once delivery: a message for a job that is not queued any more.
use high_scale_job_scheduler.Prelude.{◌≡◌, ◌≢◌, refl, sym, subst, inl, inr, Option, none, some}
use high_scale_job_scheduler.Errors.{Error}
use high_scale_job_scheduler.Models.{Job, Time, queued}
use high_scale_job_scheduler.Effects.Docs.{UniqueIds, doc}
use high_scale_job_scheduler.Effects.World.{
  View, Codec, Ensures, Ensures-bind, Ensures-imp, World, run, run-Ensures,
}
use high_scale_job_scheduler.Store.{mark_claimed}
use high_scale_job_scheduler.Store.Moves.{MarkClaimedOutcome, mark_claimed-Ensures}
use high_scale_job_scheduler.Executor.{Runner, execute, execute_from}

module _ (x : Codec) (rn : Runner) (job : Job) (s : View) (u : UniqueIds s.docs)
    (taken : (j : Job) → doc job.id s.docs ≡ some j → j.status ≢ queued) where
  -- No claim of the job was made.
  unclaimed :
      (e : Option Error) (s' : View)
      → MarkClaimedOutcome x job.id rn.worker_id s e s'
      → (e ≢ none) × (s' ≡ s)
  unclaimed none s' m = absurd (taken m.before m.found m.related.was_queued)
  unclaimed (some e) s' (inl (_, _, same)) = ((λ h. absurd (cc)), same)
  unclaimed (some e) s' (inr (inl same)) = ((λ h. absurd (cc)), same)
  unclaimed (some e) s' (inr (inr m)) = absurd (taken m.before m.found m.related.was_queued)

  execute_from-Ensures : (start : Time) → Ensures x (execute_from rn job start) s (λ _ s'. s' ≡ s)
  execute_from-Ensures start =
      Ensures-bind x (mark_claimed job.id rn.worker_id) _ s (λ _ s'. s' ≡ s)
        (Ensures-imp x (mark_claimed job.id rn.worker_id) s
          (MarkClaimedOutcome x job.id rn.worker_id s) _
          (elim [
            | none ↦ λ s' m. absurd ((unclaimed none s' m).0 refl)
            | some e ↦ λ s' m. (unclaimed (some e) s' m).1
          ])
          (mark_claimed-Ensures x job.id s u rn.worker_id))

  execute-Ensures : Ensures x (execute rn job) s (λ _ s'. s' ≡ s)
  unfolding execute
  execute-Ensures = λ start t e.
      subst (λ v. Ensures x (execute_from rn job start) v (λ _ s'. s' ≡ s)) (sym e)
        (execute_from-Ensures start)

-- In a collection with unique ids, if the document with the id of the job, if any, is not queued,
-- then `Execute` of the job changes nothing that can be seen of the world: no document, no message,
-- no dispatch and no count.
pub execute_unqueued :
    (w : World) (s : w.State) (rn : Runner) (job : Job)
    → UniqueIds (w.view s).docs
    → ((j : Job) → doc job.id (w.view s).docs ≡ some j → j.status ≢ queued)
    → w.view (run w (execute rn job) s).1 ≡ w.view s
execute_unqueued w s rn job u taken =
    run-Ensures w (execute rn job) s (λ _ s'. s' ≡ w.view s)
      (execute-Ensures w.codec rn job (w.view s) u taken)
