-- ===== src/Store/Transitions.antt =====
-- `MarkClaimed`, `MarkRunning`, `MarkCompleted`, `RescheduleCronTemplate` and `MarkCronInvalid`, run in
-- a world.
use high_scale_job_scheduler.Prelude.{String}
use high_scale_job_scheduler.Errors.{Error}
use high_scale_job_scheduler.Models.{ObjectId, Time, running, completed}
use high_scale_job_scheduler.Effects.Docs.{UniqueIds}
use high_scale_job_scheduler.Effects.World.{World, run, run-Ensures}
use high_scale_job_scheduler.Store.{
  mark_claimed, mark_running, mark_completed, reschedule_cron_template, mark_cron_invalid,
}
use high_scale_job_scheduler.Store.Moves.{
  MoveOutcome, TurnsTo, Rescheduled, Invalidated, MarkClaimedOutcome, mark_claimed-Ensures,
  mark_running-Ensures, mark_completed-Ensures, reschedule_cron_template-Ensures,
  mark_cron_invalid-Ensures,
}

module _ (w : World) (s : w.State) (i : ObjectId) (u : UniqueIds (w.view s).docs) where
  -- In a collection with unique ids, `MarkClaimed` that returns no error found the job queued and
  -- made it claimed by the worker, at the time of the update, with its work, attempts and stored
  -- schedule, and changed no other document. With an error, nothing changed, and it is `not_found`
  -- because no document with the id is queued; or nothing changed; or the claim was made.
  pub mark_claimed-Moves :
      (worker_id : String)
      → let (e, s') = run w (mark_claimed i worker_id) s in
        MarkClaimedOutcome w.codec i worker_id (w.view s) e (w.view s')
  mark_claimed-Moves worker_id =
      run-Ensures w (mark_claimed i worker_id) s (MarkClaimedOutcome w.codec i worker_id (w.view s))
        (mark_claimed-Ensures w.codec i (w.view s) u worker_id)

  -- In a collection with unique ids, `MarkRunning` that returns no error turned the job with the id
  -- to running, whatever its status was, with its work, attempts and stored schedule, and changed
  -- no other document; or there was no such job and nothing changed. With an error the job was
  -- turned or nothing changed.
  pub mark_running-Moves :
      let (e, s') = run w (mark_running i) s in
      MoveOutcome i (TurnsTo w.codec running) (w.view s) e (w.view s')
  mark_running-Moves =
      run-Ensures w (mark_running i) s (MoveOutcome i (TurnsTo w.codec running) (w.view s))
        (mark_running-Ensures w.codec i (w.view s) u)

  -- In a collection with unique ids, `MarkCompleted` that returns no error turned the job with the
  -- id to completed, whatever its status was, with its work, attempts and stored schedule, and
  -- changed no other document; or there was no such job and nothing changed. With an error the job
  -- was turned or nothing changed.
  pub mark_completed-Moves :
      let (e, s') = run w (mark_completed i) s in
      MoveOutcome i (TurnsTo w.codec completed) (w.view s) e (w.view s')
  mark_completed-Moves =
      run-Ensures w (mark_completed i) s (MoveOutcome i (TurnsTo w.codec completed) (w.view s))
        (mark_completed-Ensures w.codec i (w.view s) u)

  -- In a collection with unique ids, `RescheduleCronTemplate` that returns no error made the
  -- template with the id pending at its next occurrence, with its work and attempts, and changed no
  -- other document; or there was no such template and nothing changed. With an error the template
  -- was rescheduled or nothing changed.
  pub reschedule_cron_template-Moves :
      (next : Time)
      → let (e, s') = run w (reschedule_cron_template i next) s in
        MoveOutcome i (Rescheduled w.codec next) (w.view s) e (w.view s')
  reschedule_cron_template-Moves next =
      run-Ensures w (reschedule_cron_template i next) s
        (MoveOutcome i (Rescheduled w.codec next) (w.view s))
        (reschedule_cron_template-Ensures w.codec i (w.view s) u next)

  -- In a collection with unique ids, `MarkCronInvalid` that returns no error dead-lettered the
  -- template with the id, with the reason as its last error and its work, attempts and stored
  -- schedule, and changed no other document; or there was no such template and nothing changed.
  -- With an error the template was dead-lettered or nothing changed.
  pub mark_cron_invalid-Moves :
      (reason : Error)
      → let (e, s') = run w (mark_cron_invalid i reason) s in
        MoveOutcome i (Invalidated w.codec reason) (w.view s) e (w.view s')
  mark_cron_invalid-Moves reason =
      run-Ensures w (mark_cron_invalid i reason) s
        (MoveOutcome i (Invalidated w.codec reason) (w.view s))
        (mark_cron_invalid-Ensures w.codec i (w.view s) u reason)
