-- ===== src/Examples/Deployment.antt =====
-- Examples for several processes over one database.
use high_scale_job_scheduler.Prelude.{
  inl, inr, ℤ, pos, String, List, [], ◌∷◌, none, some, arith, ◌≡◌, refl, str_eq, str_eq_refl, ap,
  false, ◌≢◌,
}
use mathlib.Core.List.{Memᴰ}
use high_scale_job_scheduler.Errors.{ok}
use high_scale_job_scheduler.Models.{Job, ObjectId, Time, pending, queued, failed}
use high_scale_job_scheduler.Effects.{ret, time_now, insert_one}
use high_scale_job_scheduler.Effects.Docs.{UniqueIds, FreshId, FreshKey, doc, here, there}
use high_scale_job_scheduler.Effects.World.{View}
use high_scale_job_scheduler.Effects.Memory.{floor_ms}
use high_scale_job_scheduler.Effects.Memory.Lawful.{codec}
use high_scale_job_scheduler.Store.{claim_due_jobs, claim_loop, create, new_job}
use high_scale_job_scheduler.System.{System, Reach, start, act, detach, request}
use high_scale_job_scheduler.System.Integrity.{IsSound, IsValid, IsIdle, work_of}
use high_scale_job_scheduler.System.Safety
use high_scale_job_scheduler.System.Claimers
use high_scale_job_scheduler.System.Claimers.{calls}
use high_scale_job_scheduler.System.Pool.{Claimer, PoolReach, pick, nil, cons}
use high_scale_job_scheduler.Api.{create_job, create_scheduled}
use high_scale_job_scheduler.Api.Server.{Request, serve, serve_jobs}
use high_scale_job_scheduler.Examples.Data.{
  job, backlog, request as new_request, backlog-UniqueIds, view_of, in_flight, in_flight-UniqueIds,
  template,
}

IsValid-one :
    (i : ObjectId) (key : String) (priority : ℤ) (at : Time)
    → IsValid (job i key pending priority at)
IsValid-one i key priority at = record {
  some_attempts = omega arith;
  not_failed = λ e. ground (arith, e);
}

differ : (k l : String) → str_eq k l ≡ false → k ≢ l
differ k l h e = ground (arith, h, str_eq_refl l, ap (λ m. str_eq m l) e)

backlog-IsSound : IsSound codec (view_of backlog)
backlog-IsSound = record {
  unique_ids = backlog-UniqueIds;
  unique_keys = λ _.
      ((differ "b" "a" refl, (differ "c" "a" refl, tt)), ((differ "c" "b" refl, tt), (tt, tt)));
  valid = (
    IsValid-one 1 "a" (pos 5) (pos 2000000),
    (IsValid-one 2 "b" (pos 9) (pos 3000000), (IsValid-one 3 "c" (pos 7) (pos 90000000000), tt)),
  );
  runs_dispatched = tt;
  routed = tt;
}

-- A request to create a job starts, reads the clock and inserts the job.
abbrev post_request : Request
post_request = record {
  method = "POST";
  path = "/jobs";
  tenant_id = "";
  status = "";
  limit = "";
  body = some new_request;
}

abbrev inserted : Job
inserted = record (new_job new_request (pos 10000000000)) { id = 9 }

abbrev finished : List Job → System
finished docs = record { view = view_of (inserted ∷ docs); processes = ret tt ∷ [] }

creates :
    (docs : List Job)
    → FreshId 9 docs
    → FreshKey "f" docs
    → Reach codec (record { view = view_of docs; processes = [] }) (finished docs)
unfolding serve serve_jobs create_job create_scheduled create new_job floor_ms
creates docs fresh_id fresh_key =
    Reach.next {u = record { view = view_of docs; processes = _ ∷ [] }}
      (Reach.next {v = record { view = view_of docs; processes = _ ∷ [] }}
        (Reach.next
          {v = record { view = view_of docs; processes = detach (serve post_request) ∷ [] }}
          Reach.here (start (detach (serve post_request)) (request post_request) refl refl))
        (act [] [] time_now _ (pos 10000000000) refl refl refl))
      (act [] [] (insert_one _) _ (ok 9) refl
        (record { fresh_id = fresh_id; fresh_key = λ _. fresh_key; after = refl }) refl)

creates_here : Reach codec (record { view = view_of backlog; processes = [] }) (finished backlog)
creates_here =
    creates backlog (ground arith)
      (differ "a" "f" refl, (differ "b" "f" refl, (differ "c" "f" refl, tt)))

Reach-IsSound_example : IsSound codec ((finished backlog).view)
Reach-IsSound_example =
    Safety.Reach-IsSound codec (view_of backlog) (finished backlog) backlog-IsSound creates_here

Reach-Persists_example :
    (k : Job) × (doc 2 (inserted ∷ backlog) ≡ some k)
    × (work_of k ≡ work_of (job 2 "b" pending (pos 9) (pos 3000000)))
    × (k.status ≢ failed)
Reach-Persists_example =
    Safety.Reach-Persists codec (view_of backlog) (finished backlog)
      (job 2 "b" pending (pos 9) (pos 3000000)) backlog-IsSound (Memᴰ.tail (Memᴰ.head refl))
      creates_here

-- The template of `in_flight`, while a request is served.
in_flight-IsSound : IsSound codec (view_of in_flight)
in_flight-IsSound = record {
  unique_ids = in_flight-UniqueIds;
  unique_keys = λ _. (
    (differ "e" "d" refl, (differ "nightly" "d" refl, tt)),
    ((differ "nightly" "e" refl, tt), (tt, tt)),
  );
  valid = (
    record { some_attempts = omega arith; not_failed = λ e. ground (arith, e) },
    (
      record { some_attempts = omega arith; not_failed = λ e. ground (arith, e) },
      (record { some_attempts = omega arith; not_failed = λ e. ground (arith, e) }, tt),
    ),
  );
  runs_dispatched = tt;
  routed = tt;
}

template_never_run_example :
    (k : Job) × (doc 6 (inserted ∷ in_flight) ≡ some k)
    × (work_of k ≡ work_of template)
    × IsIdle template k
template_never_run_example =
    Safety.template_never_run codec (view_of in_flight) (finished in_flight) template
      in_flight-IsSound refl (differ "0 0 * * *" "" refl, inr (inl refl)) tt tt
      (creates in_flight (ground arith)
        (differ "d" "f" refl, (differ "e" "f" refl, (differ "nightly" "f" refl, tt))))

-- Two calls for one job each, on the first two jobs of the backlog: both read their clocks, the second
-- call claims the job of the higher priority, and then the first call claims the other.
abbrev first_job : Job
first_job = job 1 "a" pending (pos 5) (pos 2000000)

abbrev second_job : Job
second_job = job 2 "b" pending (pos 9) (pos 3000000)

abbrev first_queued : Job
first_queued = record first_job { status = queued; updated_at = pos 10000000000 }

abbrev second_queued : Job
second_queued = record second_job { status = queued; updated_at = pos 11000000000 }

abbrev before_claims : View
before_claims = view_of (first_job ∷ second_job ∷ [])

abbrev between_claims : View
between_claims = view_of (first_job ∷ second_queued ∷ [])

abbrev after_claims : View
after_claims = view_of (first_queued ∷ second_queued ∷ [])

abbrev two_calls : List (Time × ℤ)
two_calls = (pos 10000000000, pos 1) ∷ (pos 10000000000, pos 1) ∷ []

abbrev both_returned : List Claimer
both_returned = ret (first_queued ∷ [], none) ∷ ret (second_queued ∷ [], none) ∷ []

both_claim : PoolReach codec before_claims (calls two_calls) after_claims both_returned
unfolding claim_due_jobs claim_loop floor_ms
both_claim =
    PoolReach.next
      (PoolReach.next
        (PoolReach.next
          (PoolReach.next PoolReach.here (pick [] _ _ _ refl (pos 10000000000, refl, refl) refl))
          (pick (_ ∷ []) [] _ _ refl (pos 11000000000, refl, refl) refl))
        (pick (_ ∷ []) [] _ _ refl
          (
            ok second_queued,
            (
              second_job,
              record {
                new_docs = first_job ∷ second_queued ∷ [];
                touched = there first_job (here refl);
                after = refl;
              },
              ground arith,
              refl,
            ),
            refl,
          )
          refl))
      (pick [] _ _ _ refl
        (
          ok first_queued,
          (
            first_job,
            record {
              new_docs = first_queued ∷ second_queued ∷ [];
              touched = here refl;
              after = refl;
            },
            ground arith,
            refl,
          ),
          refl,
        )
        refl)

no_double_claim_example : UniqueIds (first_queued ∷ second_queued ∷ [])
no_double_claim_example =
    Claimers.no_double_claim codec before_claims after_claims two_calls both_returned
      (first_queued ∷ second_queued ∷ []) (ground arith) both_claim
      (cons (first_queued ∷ []) none (cons (second_queued ∷ []) none nil))
