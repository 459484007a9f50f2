-- ===== src/Store/Moves.antt =====
-- Updates by id: what `MarkClaimed`, `MarkRunning`, `MarkCompleted`, `RescheduleCronTemplate` and
-- `MarkCronInvalid` do to the collection, in any world.
use high_scale_job_scheduler.Prelude.{
  ℕ, ◌≡◌, refl, ◌⊎◌, inl, inr, Bool, true, arith, Option, none, some, ==_iff, String, Option-cases,
}
use high_scale_job_scheduler.Errors.{Error, Result, ok, err, not_found}
use high_scale_job_scheduler.Models.{
  Job, ObjectId, Time, JobStatus, pending, queued, claimed, running, completed, dlq,
}
use high_scale_job_scheduler.Effects.{update_one}
use high_scale_job_scheduler.Effects.Docs.{UniqueIds, doc, doc-id}
use high_scale_job_scheduler.Effects.World.{View, Codec, Effect, Effect-from, Ensures, stored}
use high_scale_job_scheduler.Store.{
  mark_claimed, mark_running, mark_completed, reschedule_cron_template, mark_cron_invalid, has_id,
  is_queued_job, set_claimed, set_status, set_rescheduled, set_invalid, error_of, matched,
}
use high_scale_job_scheduler.Store.Update.{Puts, Updates, UpdateReply, Misses, update_one-reply}
use high_scale_job_scheduler.Store.Failure.{SameWork}

-- The job with an id, before and after a change of its state.
pub record Moves (i : ObjectId) (R : Job → Job → Type 0) (s s' : View) : Type 0 where
  pub before : Job
  pub after : Job
  pub found : doc i s.docs ≡ some before
  pub related : R before after
  pub same_work : SameWork before after
  pub puts : Puts i after s s'

-- An update by id that needs the document only: it moves the job, or there is none, and after an
-- error either nothing was done or the job was moved all the same.
abbrev pub MoveOutcome : ObjectId → (Job → Job → Type 0) → View → Option Error → View → Type 0
MoveOutcome i R s none s' = Moves i R s s' ⊎ ((doc i s.docs ≡ none) × (s' ≡ s))
MoveOutcome i R s (some e) s' = Moves i R s s' ⊎ (s' ≡ s)

module _ (x : Codec) (i : ObjectId) (p : Job → Bool) (f : Job → Job) (R : Job → Job → Type 0)
    (relates : (j : Job) → p j ≡ true → R j (stored x (f j)))
    (works : (j : Job) → SameWork j (stored x (f j))) where
  Updates-Moves : (s s' : View) → Updates x i p f s s' → Moves i R s s'
  Updates-Moves s s' u = record {
    before = u.before;
    after = stored x (f u.before);
    found = u.found;
    related = relates u.before u.passed;
    same_work = works u.before;
    puts = u.puts;
  }

missing : (i : ObjectId) (s : View) → Misses i (has_id i) s → doc i s.docs ≡ none
missing i s m = elim (Option-cases (doc i s.docs)) [
  | inl e ↦ e
  | inr (j, e) ↦ absurd (ground (arith, m j e, doc-id i j s.docs e))
]

module _ (x : Codec) (i : ObjectId) (f : Job → Job) (R : Job → Job → Type 0)
    (relates : (j : Job) → R j (stored x (f j)))
    (works : (j : Job) → SameWork j (stored x (f j))) where
  UpdateReply-MoveOutcome :
      (r : Result ℕ) (s s' : View)
      → UpdateReply x i (has_id i) f r s s'
      → MoveOutcome i R s (error_of r) s'
  UpdateReply-MoveOutcome (ok n) s s' (inl (z, m, same)) = inr (missing i s m, same)
  UpdateReply-MoveOutcome (ok n) s s' (inr (one, u)) =
      inl (Updates-Moves x i (has_id i) f R (λ j _. relates j) works s s' u)
  UpdateReply-MoveOutcome (err e) s s' (inl same) = inr same
  UpdateReply-MoveOutcome (err e) s s' (inr u) =
      inl (Updates-Moves x i (has_id i) f R (λ j _. relates j) works s s' u)

  move :
      (r : Result ℕ) (s t s' : View)
      → UniqueIds s.docs
      → t ≡ s
      → Effect x (update_one (has_id i) f) r t s'
      → MoveOutcome i R s (error_of r) s'
  move r s t s' u e h = UpdateReply-MoveOutcome r s s' (
      update_one-reply x (has_id i) f i (λ k. (==_iff k.id i).0) (λ k. (works k).id) r s s' u
        (Effect-from x (update_one (has_id i) f) r s' e h))

-- The status is new; the attempts and the schedule are kept.
pub record TurnsTo (x : Codec) (status : JobStatus) (j j' : Job) : Type 0 where
  pub turned : j'.status ≡ status
  pub same_attempts : j'.attempts ≡ j.attempts
  pub same_schedule : j'.scheduled_at ≡ x.datetime j.scheduled_at

-- A queued job that a worker claimed.
pub record ClaimedBy (x : Codec) (worker_id : String) (j j' : Job) : Type 0 where
  pub was_queued : j.status ≡ queued
  pub turns : TurnsTo x claimed j j'
  pub owner : j'.claimed_by ≡ worker_id
  pub claim_time : j'.claimed_at ≡ some j'.updated_at

-- The template is pending again, at its next occurrence.
pub record Rescheduled (x : Codec) (next : Time) (j j' : Job) : Type 0 where
  pub turned : j'.status ≡ pending
  pub same_attempts : j'.attempts ≡ j.attempts
  pub scheduled : j'.scheduled_at ≡ x.datetime next

-- The template is dead-lettered for a reason.
pub record Invalidated (x : Codec) (reason : Error) (j j' : Job) : Type 0 where
  pub turns : TurnsTo x dlq j j'
  pub kept_reason : j'.last_error ≡ some reason

-- `MarkClaimed` without an error claimed the job, which was queued. With one it did nothing, or the
-- claim was made and its answer lost.
abbrev pub MarkClaimedOutcome : Codec → ObjectId → String → View → Option Error → View → Type 0
MarkClaimedOutcome x i worker_id s none s' = Moves i (ClaimedBy x worker_id) s s'
MarkClaimedOutcome x i worker_id s (some e) s' =
    ((e ≡ not_found) × Misses i (is_queued_job i) s × (s' ≡ s))
    ⊎ (s' ≡ s)
    ⊎ Moves i (ClaimedBy x worker_id) s s'

module _ (x : Codec) (i : ObjectId) (worker_id : String) where
  claimed-Moves :
      (now : Time) (s s' : View)
      → Updates x i (is_queued_job i) (set_claimed worker_id now) s s'
      → Moves i (ClaimedBy x worker_id) s s'
  claimed-Moves now =
      Updates-Moves x i (is_queued_job i) (set_claimed worker_id now) (ClaimedBy x worker_id)
        (λ j h. record {
          was_queued = ground arith;
          turns = ground arith;
          owner = refl;
          claim_time = refl;
        })
        (λ j. ground arith)

  claimed_reply :
      (now : Time) (r : Result ℕ) (s s' : View)
      → UpdateReply x i (is_queued_job i) (set_claimed worker_id now) r s s'
      → MarkClaimedOutcome x i worker_id s (matched r) s'
  claimed_reply now (ok n) s s' (inl (z, m, same)) = rw z (inl (refl, m, same))
  claimed_reply now (ok n) s s' (inr (one, u)) = rw one (claimed-Moves now s s' u)
  claimed_reply now (err e) s s' (inl same) = inr (inl same)
  claimed_reply now (err e) s s' (inr u) = inr (inr (claimed-Moves now s s' u))

module _ (x : Codec) (i : ObjectId) (s : View) (u : UniqueIds s.docs) where
  pub mark_claimed-Ensures :
      (worker_id : String)
      → Ensures x (mark_claimed i worker_id) s (MarkClaimedOutcome x i worker_id s)
  unfolding mark_claimed
  mark_claimed-Ensures worker_id = λ now t e r t' h. claimed_reply x i worker_id now r s t' (
      update_one-reply x (is_queued_job i) (set_claimed worker_id now) i (λ k q. ground arith)
        (λ k. refl) r s t' u
        (Effect-from x (update_one (is_queued_job i) (set_claimed worker_id now)) r t' e h))

  pub mark_running-Ensures : Ensures x (mark_running i) s (MoveOutcome i (TurnsTo x running) s)
  unfolding mark_running
  mark_running-Ensures = λ now t e r t' h.
      move x i (set_status running now) (TurnsTo x running) (λ j. ground arith) (λ j. ground arith)
        r s t t' u e h

  pub mark_completed-Ensures :
      Ensures x (mark_completed i) s (MoveOutcome i (TurnsTo x completed) s)
  unfolding mark_completed
  mark_completed-Ensures = λ now t e r t' h.
      move x i (set_status completed now) (TurnsTo x completed) (λ j. ground arith)
        (λ j. ground arith) r s t t' u e h

  pub reschedule_cron_template-Ensures :
      (next : Time)
      → Ensures x (reschedule_cron_template i next) s (MoveOutcome i (Rescheduled x next) s)
  unfolding reschedule_cron_template
  reschedule_cron_template-Ensures next = λ now t e r t' h.
      move x i (set_rescheduled next now) (Rescheduled x next) (λ j. ground arith)
        (λ j. ground arith) r s t t' u e h

  pub mark_cron_invalid-Ensures :
      (reason : Error)
      → Ensures x (mark_cron_invalid i reason) s (MoveOutcome i (Invalidated x reason) s)
  unfolding mark_cron_invalid
  mark_cron_invalid-Ensures reason = λ now t e r t' h.
      move x i (set_invalid reason now) (Invalidated x reason) (λ j. ground arith)
        (λ j. ground arith) r s t t' u e h
