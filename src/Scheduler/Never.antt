-- ===== src/Scheduler/Never.antt =====
-- A recurring template whose expression parses but never fires: the parser answers the zero time.
use high_scale_job_scheduler.Prelude.{
  ◌≡◌, refl, sym, ◌∙◌, subst, ap, inl, inr, none, some, arith, ◌≤ℤ◌, ◌∷◌,
}
use high_scale_job_scheduler.Errors.{ok}
use high_scale_job_scheduler.Models.{Job, Time, pending, zero_time}
use high_scale_job_scheduler.Effects.Docs.{UniqueIds, doc}
use high_scale_job_scheduler.Effects.World.{View, Codec, World, run}
use high_scale_job_scheduler.Store.Claims.{is_due_of}
use high_scale_job_scheduler.Store.Queue.{due_at}
use high_scale_job_scheduler.Scheduler.{handle_cron_job}
use high_scale_job_scheduler.Scheduler.Cron.{
  CronOutcome, handle_cron_job-CronOutcome, not_spawned, fired, invalid, spawn_answer,
  update_answer, fire_time,
}

-- The run is dispatched, and at every time from the zero time on the template is in the queue that a pass
-- claims from.
pub record FiresAgain (template run_job : Job) (s s' : View) : Type 0 where
  pub after : Job
  pub at : doc template.id s'.docs ≡ some after
  pub turned : after.status ≡ pending
  pub dispatched : s'.dispatched ≡ run_job ∷ s.dispatched
  pub in_queue : (now : Time) → zero_time ≤ℤ now → due_at now template.id s'.docs ≡ some after

module _ (x : Codec) (template t j : Job) where
  zero_due :
      (t' : Job) (next : Time)
      → ok next ≡ ok zero_time
      → t'.scheduled_at ≡ x.datetime next
      → t'.scheduled_at ≤ℤ zero_time
  zero_due t' next e h =
      let z : next ≡ zero_time = cc (e) in
      subst (λ u. u ≤ℤ zero_time) (sym (h ∙ ap x.datetime z)) (x.datetime_le zero_time)

  queued_at :
      (t' : Job) (s' : View) (now : Time)
      → doc template.id s'.docs ≡ some t'
      → t'.status ≡ pending
      → t'.scheduled_at ≤ℤ zero_time
      → zero_time ≤ℤ now
      → due_at now template.id s'.docs ≡ some t'
  queued_at t' s' now at p le h =
      let due : t'.scheduled_at ≤ℤ now = omega (arith, le, h) in
      rw (at, is_due_of t' now p due) refl

  fires_again :
      (after : Time) (s s' : View)
      → ((from : Time) → x.next_of template.cron from ≡ ok zero_time)
      → CronOutcome x template t (ok j) after none s s'
      → FiresAgain template j s s'
  fires_again after s s' never (not_spawned e q _ _ _) = absurd (ground (arith, q))
  fires_again after s s' never (invalid now cause k q n one d b) =
      absurd (ground (arith, n, never after))
  fires_again after s s' never (fired now next k q n one d (t', at, inr (cause, e, _))) =
      absurd (ground (arith, e))
  fires_again after s s' never (fired now next k q n one d (t', at, inl (_, r))) =
      let le = zero_due t' next (sym n ∙ never after) r.scheduled in
      let same : k ≡ j = ground (arith, q) in
      record {
        after = t';
        at = at;
        turned = r.turned;
        dispatched = d ∙ ap (λ i. i ∷ s.dispatched) same;
        in_queue = λ now h. queued_at t' s' now at r.turned le h;
      }

-- In a collection with unique ids that holds the template, if the parser answers the zero time for its
-- expression, as it does for one that never fires, and the insertion of the run and the rescheduling
-- answer no error, then `handleCronJob` dispatches a run and leaves the template pending and, at every
-- time from the zero time on, in the queue of due jobs that `ClaimDueJobs` takes from.
pub never_firing_is_due :
    (w : World) (s : w.State) (template t j : Job)
    → UniqueIds (w.view s).docs
    → doc template.id (w.view s).docs ≡ some t
    → ((from : Time) → w.codec.next_of template.cron from ≡ ok zero_time)
    → spawn_answer w template s ≡ ok j
    → update_answer w template s (ok zero_time) ≡ none
    → FiresAgain template j (w.view s) (w.view (run w (handle_cron_job template) s).1)
never_firing_is_due w s template t j u found never spawned updated =
    let s' = w.view (run w (handle_cron_job template) s).1 in
    let after = fire_time w template s in
    let outcome = handle_cron_job-CronOutcome w s template t u found in
    fires_again w.codec template t j after (w.view s) s' never (
      subst (λ r. CronOutcome w.codec template t r after none (w.view s) s') spawned
        (subst
          (λ e. CronOutcome w.codec template t (spawn_answer w template s) after e (w.view s) s')
          (ap (update_answer w template s) (never after) ∙ updated) outcome))
