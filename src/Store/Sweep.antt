-- ===== src/Store/Sweep.antt =====
-- The reaper's sweeps.
use mathlib.Core.List.{Memᴰ}
use mathlib.Core.Option
use high_scale_job_scheduler.Prelude.{
  ℕ, ◌≡◌, ◌≢◌, refl, sym, ◌∙◌, ap, ◌⊎◌, inl, inr, true, false, arith, Option, none, some,
  if◌then◌else◌, ◌≤ℤ◌, ◌-ℤ◌, List, [], ◌∷◌, Bool-cases, count_if,
}
use high_scale_job_scheduler.Errors.{Error, ok, err}
use high_scale_job_scheduler.Models.{
  Job, ObjectId, Time, Duration, JobStatus, pending, queued, claimed, running, status_eq,
  status_eq→eq, status_eq_refl,
}
use high_scale_job_scheduler.Effects.{time_now, update_many}
use high_scale_job_scheduler.Effects.Docs.{
  doc, change_all, doc-change_all, doc-Partly, doc-Partly-none,
}
use high_scale_job_scheduler.Effects.World.{
  View, Codec, Effect-from, Ensures, World, run, run-Ensures_first, stored, ChangesSome,
}
use high_scale_job_scheduler.Store.{
  sweep_by_status, sweep_before, sweep_stuck_jobs, sweep_stuck_queued_jobs, is_stuck, status_in,
  set_status,
}
use high_scale_job_scheduler.Store.Failure.{SameWork}

-- Recovered: pending again, with its work, attempts and schedule.
pub record Recovered (x : Codec) (j j' : Job) : Type 0 where
  pub turned : j'.status ≡ pending
  pub same_attempts : j'.attempts ≡ j.attempts
  pub same_schedule : j'.scheduled_at ≡ x.datetime j.scheduled_at
  pub same_work : SameWork j j'

-- In one of the states and last updated no later than the cutoff.
pub record IsStuck (statuses : List JobStatus) (cutoff : Time) (j : Job) : Type 0 where
  pub in_state : Memᴰ j.status statuses
  pub is_old : j.updated_at ≤ℤ cutoff

-- What a sweep that began at the time `now` makes of the document with an id.
pub record Swept (x : Codec) (statuses : List JobStatus) (cutoff : Time) (i : ObjectId)
    (s s' : View) : Type 0 where
  pub recovers :
      (j : Job)
      → doc i s.docs ≡ some j
      → IsStuck statuses cutoff j
      → (j' : Job) × (doc i s'.docs ≡ some j') × Recovered x j j'
  pub leaves :
      (j : Job) → doc i s.docs ≡ some j → ¬ IsStuck statuses cutoff j → doc i s'.docs ≡ some j
  pub invents_nothing : doc i s.docs ≡ none → doc i s'.docs ≡ none

status_in→Memᴰ :
    (statuses : List JobStatus) (t : JobStatus) → status_in statuses t ≡ true → Memᴰ t statuses
status_in→Memᴰ [] t h = absurd (ground arith)
status_in→Memᴰ (u ∷ us) t h = elim (Bool-cases (status_eq u t)) [
  | inl e ↦ Memᴰ.head (sym (status_eq→eq u t e))
  | inr e ↦ Memᴰ.tail (status_in→Memᴰ us t (rw e at h))
]

Memᴰ→status_in :
    (statuses : List JobStatus) (t : JobStatus) → Memᴰ t statuses → status_in statuses t ≡ true
Memᴰ→status_in [] t m = elim m [ ]
Memᴰ→status_in (u ∷ us) t (Memᴰ.head e) = rw (e, status_eq_refl u)
Memᴰ→status_in (u ∷ us) t (Memᴰ.tail m) = ground (arith, Memᴰ→status_in us t m)

is_stuck→IsStuck :
    (statuses : List JobStatus) (cutoff : Time) (j : Job)
    → is_stuck statuses cutoff j ≡ true
    → IsStuck statuses cutoff j
is_stuck→IsStuck statuses cutoff j h = record {
  in_state = status_in→Memᴰ statuses j.status (ground arith);
  is_old = ground arith;
}

IsStuck→is_stuck :
    (statuses : List JobStatus) (cutoff : Time) (j : Job)
    → IsStuck statuses cutoff j
    → is_stuck statuses cutoff j ≡ true
IsStuck→is_stuck statuses cutoff j h =
    rw (Memᴰ→status_in statuses j.status h.in_state) (ground arith)

change_all-Swept :
    (x : Codec) (statuses : List JobStatus) (cutoff at : Time) (i : ObjectId) (s s' : View)
    → s' ≡ record s {
      docs = change_all (is_stuck statuses cutoff) (λ k. stored x (set_status pending at k)) s.docs;
    }
    → Swept x statuses cutoff i s s'
change_all-Swept x statuses cutoff at i s s' e = record {
  recovers = λ j h k. (
    stored x (set_status pending at j),
    rw (look, h) (rw (IsStuck→is_stuck statuses cutoff j k)),
    ground arith,
  );
  leaves = λ j h k.
      rw (look, h)
        (elim (Bool-cases (is_stuck statuses cutoff j)) [
          | inl t ↦ absurd (k (is_stuck→IsStuck statuses cutoff j t))
          | inr f ↦ rw f
        ]);
  invents_nothing = λ h. rw (look, h);
}
  where
    look :
        doc i s'.docs
        ≡ Option.map
            (λ j. if is_stuck statuses cutoff j then stored x (set_status pending at j) else j)
            (doc i s.docs)
    look = rw e (
        doc-change_all (is_stuck statuses cutoff) (λ k. stored x (set_status pending at k))
          (λ k. refl) i s.docs)

-- After an error each document is left or recovered.
pub record PartlySwept (x : Codec) (statuses : List JobStatus) (cutoff : Time) (i : ObjectId)
    (s s' : View) : Type 0 where
  pub leaves_or_recovers :
      (j : Job)
      → doc i s.docs ≡ some j
      → (doc i s'.docs ≡ some j)
        ⊎ (IsStuck statuses cutoff j × ((j' : Job) × (doc i s'.docs ≡ some j') × Recovered x j j'))
  pub invents_nothing : doc i s.docs ≡ none → doc i s'.docs ≡ none

ChangesSome-PartlySwept :
    (x : Codec) (statuses : List JobStatus) (cutoff at : Time) (i : ObjectId) (s s' : View)
    → ChangesSome x (is_stuck statuses cutoff) (set_status pending at) s s'
    → PartlySwept x statuses cutoff i s s'
ChangesSome-PartlySwept x statuses cutoff at i s s' c = record {
  leaves_or_recovers = λ j h. rw c.after (elim (doc-Partly (λ k. refl) i j c.part h) [
    | inl same ↦ inl same
    | inr (q, e) ↦ inr (
      is_stuck→IsStuck statuses cutoff j q,
      (stored x (set_status pending at j), e, ground arith),
    )
  ]);
  invents_nothing = λ h. rw c.after (doc-Partly-none (λ k. refl) i c.part h);
}

-- A sweep with a cutoff, by the document with an id. Without an error the count is that of the stuck
-- jobs, if `pending` is none of the states.
abbrev pub SweepOutcome : Codec → List JobStatus → Time → View → ℕ × Option Error → View → Type 0
SweepOutcome x statuses cutoff s (n, none) s' =
    ((i : ObjectId) → Swept x statuses cutoff i s s')
    × (status_in statuses pending ≡ false → n ≡ count_if (is_stuck statuses cutoff) s.docs)
SweepOutcome x statuses cutoff s (n, some e) s' =
    ((i : ObjectId) → PartlySwept x statuses cutoff i s s') × (n ≡ 0)

unpends :
    (statuses : List JobStatus) (j k : Job)
    → status_in statuses pending ≡ false
    → status_in statuses j.status ≡ true
    → k.status ≡ pending
    → k ≢ j
unpends statuses j k h m p e = ground (arith, ap (λ (t : Job). status_in statuses t.status) e)

sweep_before-Ensures :
    (x : Codec) (statuses : List JobStatus) (cutoff : Time) (s s1 : View)
    → s1 ≡ s
    → Ensures x (sweep_before statuses cutoff) s1 (SweepOutcome x statuses cutoff s)
sweep_before-Ensures x statuses cutoff s s1 e1 = λ at s2 e2. elim [
  | ok n ↦ λ s3 h.
      let (e3, counts) =
        Effect-from x (update_many (is_stuck statuses cutoff) (set_status pending at)) (ok n) s3
          (e2 ∙ e1) h in
      (
        (λ i. change_all-Swept x statuses cutoff at i s s3 e3),
        (λ q.
            counts (λ j t.
              unpends statuses j (stored x (set_status pending at j)) q (ground arith) refl)),
      )
  | err e ↦ λ s3 h. (
    (λ i. ChangesSome-PartlySwept x statuses cutoff at i s s3 (
        Effect-from x (update_many (is_stuck statuses cutoff) (set_status pending at)) (err e) s3
          (e2 ∙ e1) h)),
    refl,
  )
]

module _ (w : World) (s : w.State) (timeout : Duration) where
  -- The time that a sweep compares with.
  abbrev pub sweep_cutoff : Time
  sweep_cutoff = (w.exec time_now s).0 -ℤ timeout

  sweep_by_status-SweepOutcome :
      (statuses : List JobStatus)
      → let (r, s') = run w (sweep_by_status timeout statuses) s in
        SweepOutcome w.codec statuses sweep_cutoff (w.view s) r (w.view s')
  unfolding sweep_by_status
  sweep_by_status-SweepOutcome statuses =
      run-Ensures_first w time_now (λ now. sweep_before statuses (now -ℤ timeout)) s
        (SweepOutcome w.codec statuses sweep_cutoff (w.view s))
        (λ t e. sweep_before-Ensures w.codec statuses sweep_cutoff (w.view s) t e)

  -- `SweepStuckJobs` that returns no error makes every claimed or running job that was last updated
  -- at least `timeout` before the time it reads pending again, with its work, attempts and stored
  -- schedule, leaves all other documents as they were and answers the number of those jobs. With an
  -- error it answers 0, and each of those jobs was made pending or left as it was.
  pub sweep_stuck_jobs-SweepOutcome :
      let (r, s') = run w (sweep_stuck_jobs timeout) s in
      SweepOutcome w.codec (claimed ∷ running ∷ []) sweep_cutoff (w.view s) r (w.view s')
  unfolding sweep_stuck_jobs
  sweep_stuck_jobs-SweepOutcome = sweep_by_status-SweepOutcome (claimed ∷ running ∷ [])

  -- `SweepStuckQueuedJobs` that returns no error makes every queued job that was last updated at
  -- least `timeout` before the time it reads pending again, with its work, attempts and stored
  -- schedule, leaves all other documents as they were and answers the number of those jobs. With an
  -- error it answers 0, and each of those jobs was made pending or left as it was.
  pub sweep_stuck_queued_jobs-SweepOutcome :
      let (r, s') = run w (sweep_stuck_queued_jobs timeout) s in
      SweepOutcome w.codec (queued ∷ []) sweep_cutoff (w.view s) r (w.view s')
  unfolding sweep_stuck_queued_jobs
  sweep_stuck_queued_jobs-SweepOutcome = sweep_by_status-SweepOutcome (queued ∷ [])
