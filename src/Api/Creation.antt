-- ===== src/Api/Creation.antt =====
-- `CreateJob`: the response, and the collection that it leaves.
use high_scale_job_scheduler.Prelude.{
  ◌≡◌, refl, sym, ◌∙◌, subst, ◌⊎◌, inl, inr, Bool, true, false, Option, none, some, str_eq,
}
use high_scale_job_scheduler.Errors.{
  Error, Result, ok, err, invalid_cron, is_duplicate_idempotency_key,
}
use high_scale_job_scheduler.Models.{Job, CreateJobRequest, Time}
use high_scale_job_scheduler.Effects.{ret, ask, ◌>>=◌, time_now}
use high_scale_job_scheduler.Effects.Docs.{FreshKey}
use high_scale_job_scheduler.Effects.World.{
  View, Codec, Ensures, Ensures-bind, Ensures-imp, World, run, run-Ensures,
}
use high_scale_job_scheduler.Store.{create}
use high_scale_job_scheduler.Store.Insertion.{AddsMade, CreateOutcome, create-Ensures}
use high_scale_job_scheduler.Scheduler.{next_occurrence, occurrence}
use high_scale_job_scheduler.Api.{
  Response, job_body, error_text, write_json, write_error, created_response, create_and_respond,
  with_occurrence, is_zero, lacks_field, create_scheduled, create_job,
}

-- Where the schedule of the job comes from: the request, or an occurrence of its expression.
abbrev pub IsScheduled : Codec → CreateJobRequest → Time → Type 0
IsScheduled x req at =
    ((str_eq req.cron "" ≡ true) × (is_zero req.scheduled_at ≡ false) × (at ≡ req.scheduled_at))
    ⊎ ((str_eq req.cron "" ≡ false) × ((after : Time) × (x.next_of req.cron after ≡ ok at)))

-- Why a request is refused as it stands: it is none, lacks a field, or has neither a schedule nor an
-- expression.
abbrev pub IsBad : Option CreateJobRequest → Type 0
IsBad none = Unit
IsBad (some req) =
    (lacks_field req ≡ true) ⊎ ((str_eq req.cron "" ≡ true) × (is_zero req.scheduled_at ≡ true))

module _ (x : Codec) where
  pub data JobCreation (body : Option CreateJobRequest) (s : View) (resp : Response) (s' : View)
      : Type 0 where
    bad_request : IsBad body → resp.status ≡ 400 → s' ≡ s → JobCreation body s resp s'
    bad_expression :
        (req : CreateJobRequest) (cause : Error)
        → body ≡ some req
        → str_eq req.cron "" ≡ false
        → (after : Time) × (x.next_of req.cron after ≡ err cause)
        → resp ≡ write_json 400 (error_text (invalid_cron req.cron cause))
        → s' ≡ s
        → JobCreation body s resp s'
    created :
        (req : CreateJobRequest) (at : Time) (j : Job)
        → body ≡ some req
        → lacks_field req ≡ false
        → IsScheduled x req at
        → AddsMade x (record req { scheduled_at = at }) j s s'
        → resp ≡ write_json 201 (job_body j)
        → JobCreation body s resp s'
    conflict :
        (req : CreateJobRequest)
        → body ≡ some req
        → (FreshKey req.idempotency_key s.docs → ⊥)
        → resp.status ≡ 409
        → s' ≡ s
        → JobCreation body s resp s'
    failed :
        (req : CreateJobRequest) (at : Time)
        → body ≡ some req
        → IsScheduled x req at
        → resp.status ≡ 500
        → (s' ≡ s) ⊎ ((j : Job) × AddsMade x (record req { scheduled_at = at }) j s s')
        → JobCreation body s resp s'

  module _ (req : CreateJobRequest) (complete : lacks_field req ≡ false) (s : View) where
    responds :
        (at : Time) (r : Result Job) (s' : View)
        → IsScheduled x req at
        → CreateOutcome x (record req { scheduled_at = at }) s r s'
        → JobCreation (some req) s (created_response r) s'
    unfolding is_duplicate_idempotency_key
    responds at (ok j) s' sched h = created req at j refl complete sched h refl
    responds at (err e) s' sched (inl (d, taken, same)) = rw d (conflict req refl taken refl same)
    responds at (err e) s' sched (inr (other, h)) = rw other (failed req at refl sched refl h)

    create_and_respond-Ensures :
        (at : Time)
        → IsScheduled x req at
        → Ensures x
            (create_and_respond (record req { scheduled_at = at }))
            s
            (JobCreation (some req) s)
    create_and_respond-Ensures at sched =
        Ensures-bind x (create (record req { scheduled_at = at })) _ s (JobCreation (some req) s) (
          Ensures-imp x (create (record req { scheduled_at = at })) s
            (CreateOutcome x (record req { scheduled_at = at }) s) _
            (λ r s' h. responds at r s' sched h)
            (create-Ensures x s (record req { scheduled_at = at })))

    with_occurrence-Ensures :
        (after : Time) (r : Result Time)
        → r ≡ x.next_of req.cron after
        → str_eq req.cron "" ≡ false
        → Ensures x (with_occurrence req (occurrence req.cron r)) s (JobCreation (some req) s)
    with_occurrence-Ensures after (err e) n recurs =
        bad_expression req e refl recurs (after, sym n) refl refl
    with_occurrence-Ensures after (ok next) n recurs =
        create_and_respond-Ensures next (inr (recurs, (after, sym n)))

  schedule_refused :
      (req : CreateJobRequest) (s : View) (b : Bool)
      → lacks_field req ≡ false
      → str_eq req.cron "" ≡ true
      → is_zero req.scheduled_at ≡ b
      → Ensures x
          (elim b [
            | true ↦ ret (write_error 400 "scheduledAt is required for non-recurring jobs")
            | false ↦ create_and_respond req
          ])
          s
          (JobCreation (some req) s)
  schedule_refused req s true complete once e = bad_request (inr (once, e)) refl refl
  schedule_refused req s false complete once e =
      create_and_respond-Ensures req complete s req.scheduled_at (inl (once, e, refl))

  by_cron :
      (req : CreateJobRequest) (s : View) (b : Bool)
      → lacks_field req ≡ false
      → str_eq req.cron "" ≡ b
      → Ensures x
          (elim b [
            | false ↦ ask time_now >>= λ now. next_occurrence req.cron now >>= with_occurrence req
            | true ↦ elim (is_zero req.scheduled_at) [
              | true ↦ ret (write_error 400 "scheduledAt is required for non-recurring jobs")
              | false ↦ create_and_respond req
            ]
          ])
          s
          (JobCreation (some req) s)
  unfolding next_occurrence
  by_cron req s true complete once =
      schedule_refused req s (is_zero req.scheduled_at) complete once refl
  by_cron req s false complete recurs = λ now s1 e1 r s2 (n, e2).
      subst
        (λ v. Ensures x (with_occurrence req (occurrence req.cron r)) v (JobCreation (some req) s))
        (sym (e2 ∙ e1)) (with_occurrence-Ensures req complete s now r n recurs)

  create_scheduled-Ensures :
      (req : CreateJobRequest) (s : View)
      → lacks_field req ≡ false
      → Ensures x (create_scheduled req) s (JobCreation (some req) s)
  unfolding create_scheduled
  create_scheduled-Ensures req s complete = by_cron req s (str_eq req.cron "") complete refl

  by_fields :
      (req : CreateJobRequest) (s : View) (b : Bool)
      → lacks_field req ≡ b
      → Ensures x
          (elim b [
            | true ↦ ret (write_error 400 "idempotencyKey, jobType, and tenantId are required")
            | false ↦ create_scheduled req
          ])
          s
          (JobCreation (some req) s)
  by_fields req s true e = bad_request (inl e) refl refl
  by_fields req s false e = create_scheduled-Ensures req s e

  create_job-Ensures :
      (body : Option CreateJobRequest) (s : View)
      → Ensures x (create_job body) s (JobCreation body s)
  unfolding create_job
  create_job-Ensures none s = bad_request tt refl refl
  create_job-Ensures (some req) s = by_fields req s (lacks_field req) refl

-- `CreateJob` answers 400 and changes nothing, for a body that is no request, a request that lacks
-- a field or one with neither a schedule nor an expression, or with the error of the parser for one
-- with an expression; or 201 with the job that was added for a request that lacks no field, at its
-- schedule if it has no expression; or 409, when the idempotency key was there, and changes
-- nothing; or 500, when such a job was added or nothing changed.
pub create_job-JobCreation :
    (w : World) (s : w.State) (body : Option CreateJobRequest)
    → let (resp, s') = run w (create_job body) s in
      JobCreation w.codec body (w.view s) resp (w.view s')
create_job-JobCreation w s body =
    run-Ensures w (create_job body) s (JobCreation w.codec body (w.view s))
      (create_job-Ensures w.codec body (w.view s))
