-- ===== src/Api/Listing.antt =====
-- `ListJobs`: whose jobs are listed, and in what order.
use mathlib.Core.List.{Memᴰ}
use high_scale_job_scheduler.Prelude.{
  ℤ, pos, ◌≡◌, ◌≢◌, ◌⊎◌, String, List, [], ◌∷◌, All, length, ◌≤ℤ◌,
}
use high_scale_job_scheduler.Models.{Job, status_text}
use high_scale_job_scheduler.Effects.World.{World}
use high_scale_job_scheduler.Api.{Response, write_error, write_json, jobs_body}

abbrev pub IsNewestFirst : List Job → Type 0
IsNewestFirst [] = Unit
IsNewestFirst (j ∷ js) = All (λ k. k.created_at ≤ℤ j.created_at) js × IsNewestFirst js

-- The job is one that the query asks for.
abbrev pub IsAsked : String → String → Job → Type 0
IsAsked tenant_id status j =
    (j.tenant_id ≡ tenant_id) × (status ≢ "" → status_text j.status ≡ status)

-- The newest of the documents that are asked for, as many as the limit allows.
pub record IsPage (tenant_id status : String) (limit : ℤ) (docs js : List Job) : Type 0 where
  pub asked : All (λ j. Memᴰ j docs × IsAsked tenant_id status j) js
  pub few : pos (length js) ≤ℤ limit
  pub ordered : IsNewestFirst js
  pub complete :
      (k : Job)
      → Memᴰ k docs
      → IsAsked tenant_id status k
      → Memᴰ k js ⊎ ((pos (length js) ≡ limit) × All (λ j. k.created_at ≤ℤ j.created_at) js)

-- The response to a query, on every branch.
pub data ListOutcome (tenant_id status : String) (limit : ℤ) (docs : List Job) (r : Response)
    : Type 0 where
  no_tenant :
      tenant_id ≡ ""
      → r ≡ write_error 400 "tenantId query param is required"
      → ListOutcome tenant_id status limit docs r
  failed :
      tenant_id ≢ ""
      → r ≡ write_error 500 "failed to list jobs"
      → ListOutcome tenant_id status limit docs r
  listed :
      (js : List Job)
      → tenant_id ≢ ""
      → r ≡ write_json 200 (jobs_body js)
      → IsPage tenant_id status limit docs js
      → ListOutcome tenant_id status limit docs r
