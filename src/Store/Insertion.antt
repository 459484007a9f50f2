-- ===== src/Store/Insertion.antt =====
-- `Create` and `SpawnCronInstance`: what is inserted, and the idempotency key.
use high_scale_job_scheduler.Prelude.{
  false, ◌≡◌, ◌≢◌, refl, sym, ◌∙◌, subst, ap, ◌⊎◌, inl, inr, true, arith, none, ◌≤ℤ◌, ◌<ℤ◌, pos,
  ◌∷◌, Bool-cases,
}
use high_scale_job_scheduler.Errors.{
  Error, Result, ok, err, duplicate_idempotency_key, spawn_failed, is_duplicate_key,
  is_duplicate_idempotency_key,
}
use high_scale_job_scheduler.Models.{Job, CreateJobRequest, ObjectId, Time, pending, queued}
use high_scale_job_scheduler.Effects.{insert_one}
use high_scale_job_scheduler.Effects.Docs.{FreshId, FreshKey}
use high_scale_job_scheduler.Effects.World.{
  View, Codec, Effect, Effect-from, Ensures, World, run, run-Ensures, stored, Inserts,
}
use high_scale_job_scheduler.Store.{
  create, created, new_job, spawn_cron_instance, spawned, new_instance, run_key,
}

-- A new document, and nothing else, in the collection.
pub record Adds (x : Codec) (j : Job) (s s' : View) : Type 0 where
  pub fresh_id : FreshId j.id s.docs
  pub fresh_key : s.key_index ≡ true → FreshKey j.idempotency_key s.docs
  pub after : s' ≡ record s { docs = stored x j ∷ s.docs }

-- The job that `Create` makes of a request at a time.
pub record MadeFrom (req : CreateJobRequest) (now : Time) (j : Job) : Type 0 where
  pub is_pending : j.status ≡ pending
  pub no_attempts : j.attempts ≡ pos 0
  pub some_attempts : pos 1 ≤ℤ j.max_attempts
  pub max_attempts :
      ((pos 0 <ℤ req.max_attempts) × (j.max_attempts ≡ req.max_attempts))
      ⊎ ((req.max_attempts ≤ℤ pos 0) × (j.max_attempts ≡ pos 3))
  pub idempotency_key : j.idempotency_key ≡ req.idempotency_key
  pub tenant_id : j.tenant_id ≡ req.tenant_id
  pub job_type : j.job_type ≡ req.job_type
  pub payload : j.payload ≡ req.payload
  pub priority : j.priority ≡ req.priority
  pub scheduled_at : j.scheduled_at ≡ req.scheduled_at
  pub cron : j.cron ≡ req.cron
  pub unclaimed : (j.claimed_by ≡ "") × (j.claimed_at ≡ none) × (j.last_error ≡ none)
  pub created_at : (j.created_at ≡ now) × (j.updated_at ≡ now)

new_job-MadeFrom :
    (req : CreateJobRequest) (now : Time) (i : ObjectId)
    → MadeFrom req now (record (new_job req now) { id = i })
unfolding new_job
new_job-MadeFrom req now i = ground arith

module _ (x : Codec) (req : CreateJobRequest) where
  -- A job that was made of the request is added.
  abbrev pub AddsMade : Job → View → View → Type 0
  AddsMade j s s' = (now : Time) × MadeFrom req now j × Adds x j s s'

  -- The duplicate error means that the key is taken, and that nothing was done.
  abbrev pub CreateOutcome : View → Result Job → View → Type 0
  CreateOutcome s (ok j) s' = AddsMade j s s'
  CreateOutcome s (err e) s' =
      ((e ≡ duplicate_idempotency_key) × (FreshKey req.idempotency_key s.docs → ⊥) × (s' ≡ s))
      ⊎ ((is_duplicate_idempotency_key e ≡ false) × ((s' ≡ s) ⊎ ((j : Job) × AddsMade j s s')))

  adds_made :
      (now : Time) (i : ObjectId) (s s' : View)
      → Inserts x (new_job req now) i s s'
      → AddsMade (record (new_job req now) { id = i }) s s'
  unfolding new_job
  adds_made now i s s' h = (
    now,
    new_job-MadeFrom req now i,
    record { fresh_id = h.fresh_id; fresh_key = h.fresh_key; after = h.after },
  )

  created_reply :
      (now : Time) (r : Result ObjectId) (s s' : View)
      → Effect x (insert_one (new_job req now)) r s s'
      → CreateOutcome s (created (new_job req now) r) s'
  unfolding new_job
  created_reply now (ok i) s s' h = adds_made now i s s' h
  created_reply now (err e) s s' ((dup, foreign_error), done) =
      elim (Bool-cases (is_duplicate_key e)) [
        | inl d ↦ rw d (inl (refl, (dup d).1, (dup d).0))
        | inr d ↦ rw d (
            inr (
              foreign_error,
              elim done [
                | inl same ↦ inl same
                | inr (i, h) ↦ inr (record (new_job req now) { id = i }, adds_made now i s s' h)
              ],
            ))
      ]

pub create-Ensures :
    (x : Codec) (s : View) (req : CreateJobRequest)
    → Ensures x (create req) s (CreateOutcome x req s)
unfolding create
create-Ensures x s req = λ now t e r t' h.
    created_reply x req now r s t' (Effect-from x (insert_one (new_job req now)) r t' e h)

-- `Create` that returns a job added it to the collection and changed nothing else: pending,
-- unclaimed, with no attempts, the fields of the request and a maximum of 3 attempts where the
-- request has none, under an id that was not there and, with the unique index, a key that was not.
-- If it returns the duplicate error, the key was there and nothing changed; with any other error
-- such a job was added or nothing changed.
pub create-CreateOutcome :
    (w : World) (s : w.State) (req : CreateJobRequest)
    → let (r, s') = run w (create req) s in CreateOutcome w.codec req (w.view s) r (w.view s')
create-CreateOutcome w s req =
    run-Ensures w (create req) s (CreateOutcome w.codec req (w.view s))
      (create-Ensures w.codec (w.view s) req)

not_fresh_again :
    (x : Codec) (j k : Job) (s s' t : View)
    → s.key_index ≡ true
    → Adds x j s s'
    → Adds x k s' t
    → j.idempotency_key ≢ k.idempotency_key
not_fresh_again x j k s s' t on a b e =
    let fresh : FreshKey k.idempotency_key (stored x j ∷ s.docs) =
      subst (λ v. FreshKey k.idempotency_key v.docs) a.after
        (b.fresh_key (ap (λ (v : View). v.key_index) a.after ∙ on)) in
    fresh.0 e

-- With the unique index, right after a `Create` that returned a job, a `Create` of a request with
-- the same idempotency key returns no job.
pub create_once :
    (w : World) (s : w.State) (req again : CreateJobRequest) (j k : Job)
    → (w.view s).key_index ≡ true
    → again.idempotency_key ≡ req.idempotency_key
    → (run w (create req) s).0 ≡ ok j
    → (run w (create again) (run w (create req) s).1).0 ≢ ok k
create_once w s req again j k on same first second =
    let s1 = (run w (create req) s).1 in
    let (t, m, a) : AddsMade w.codec req j (w.view s) (w.view s1) =
      subst (λ r. CreateOutcome w.codec req (w.view s) r (w.view s1)) first
        (create-CreateOutcome w s req) in
    let s2 = (run w (create again) s1).1 in
    let (t', m', a') : AddsMade w.codec again k (w.view s1) (w.view s2) =
      subst (λ r. CreateOutcome w.codec again (w.view s1) r (w.view s2)) second
        (create-CreateOutcome w s1 again) in
    not_fresh_again w.codec j k (w.view s) (w.view s1) (w.view s2) on a a'
      (m.idempotency_key ∙ sym same ∙ sym m'.idempotency_key)

-- The run of a template at a time: queued, due, with no expression and with attempts of its own.
pub record RunOf (template : Job) (now : Time) (j : Job) : Type 0 where
  pub is_queued : j.status ≡ queued
  pub is_no_template : j.cron ≡ ""
  pub no_attempts : j.attempts ≡ pos 0
  pub max_attempts : j.max_attempts ≡ template.max_attempts
  pub idempotency_key : j.idempotency_key ≡ run_key template.idempotency_key now
  pub tenant_id : j.tenant_id ≡ template.tenant_id
  pub job_type : j.job_type ≡ template.job_type
  pub payload : j.payload ≡ template.payload
  pub priority : j.priority ≡ template.priority
  pub scheduled_at : j.scheduled_at ≡ now
  pub created_at : (j.created_at ≡ now) × (j.updated_at ≡ now)

module _ (x : Codec) (template : Job) where
  abbrev pub AddsRun : Job → View → View → Type 0
  AddsRun j s s' = (now : Time) × RunOf template now j × Adds x j s s'

  abbrev pub SpawnOutcome : View → Result Job → View → Type 0
  SpawnOutcome s (ok j) s' = AddsRun j s s'
  SpawnOutcome s (err e) s' =
      ((cause : Error) × (e ≡ spawn_failed cause)) × ((s' ≡ s) ⊎ ((j : Job) × AddsRun j s s'))

  adds_run :
      (now : Time) (i : ObjectId) (s s' : View)
      → Inserts x (new_instance template now) i s s'
      → AddsRun (record (new_instance template now) { id = i }) s s'
  unfolding new_instance
  adds_run now i s s' h = (
    now,
    ground arith,
    record { fresh_id = h.fresh_id; fresh_key = h.fresh_key; after = h.after },
  )

  spawned_reply :
      (now : Time) (r : Result ObjectId) (s s' : View)
      → Effect x (insert_one (new_instance template now)) r s s'
      → SpawnOutcome s (spawned (new_instance template now) r) s'
  unfolding new_instance
  spawned_reply now (ok i) s s' h = adds_run now i s s' h
  spawned_reply now (err e) s s' (dup, done) = (
    (e, refl),
    elim done [
      | inl same ↦ inl same
      | inr (i, h) ↦ inr (record (new_instance template now) { id = i }, adds_run now i s s' h)
    ],
  )

  pub spawn_cron_instance-Ensures :
      (s : View) → Ensures x (spawn_cron_instance template) s (SpawnOutcome s)
  unfolding spawn_cron_instance
  spawn_cron_instance-Ensures s = λ now t e r t' h.
      spawned_reply now r s t' (Effect-from x (insert_one (new_instance template now)) r t' e h)

-- `SpawnCronInstance` that returns a job added it to the collection and changed nothing else: a
-- queued run of the template, that is no template, with no attempts, scheduled at the time of its
-- creation and with the key that is made of the key of the template and that time. With an error,
-- which wraps its cause, such a run was added or nothing changed.
pub spawn_cron_instance-SpawnOutcome :
    (w : World) (s : w.State) (template : Job)
    → let (r, s') = run w (spawn_cron_instance template) s in
      SpawnOutcome w.codec template (w.view s) r (w.view s')
spawn_cron_instance-SpawnOutcome w s template =
    run-Ensures w (spawn_cron_instance template) s (SpawnOutcome w.codec template (w.view s))
      (spawn_cron_instance-Ensures w.codec template (w.view s))
