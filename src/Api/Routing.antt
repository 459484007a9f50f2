-- ===== src/Api/Routing.antt =====
-- Which requests to the API server can change anything.
use high_scale_job_scheduler.Prelude.{
  ◌≡◌, ◌≢◌, refl, ◌∙◌, String, Bool, true, false, List, str_eq→eq, Option, none, some, ℤ, str_eq,
  arith, inl, inr, Bool-cases, strip_prefix, parse_int,
}
use high_scale_job_scheduler.Errors.{Result, ok, err, is_not_found}
use high_scale_job_scheduler.Models.{Job}
use high_scale_job_scheduler.Effects.{Cmd, Reply, Prog, ret, call, from_hex, find_one, find}
use high_scale_job_scheduler.Effects.World.{
  View, Codec, Effect, Ensures, Ensures-imp, World, run, run-Ensures,
}
use high_scale_job_scheduler.Store.{get_by_id, list_by_tenant, has_id, got, is_listed, newest_first}
use high_scale_job_scheduler.Api.{
  Response, get_job, list_jobs, list_limit, fetched_response, listed_response,
}
use high_scale_job_scheduler.Api.Server.{
  Request, serve, serve_jobs, serve_job, serve_other, method_not_allowed,
}

-- Nothing that can be seen changes, and no job was created.
abbrev pub IsReadOnly : View → Response → View → Type 0
IsReadOnly s r s' = (s' ≡ s) × (r.status ≢ 201)

module _ (x : Codec) where
  abbrev Reads : Prog Response → Type 0
  Reads m = (s : View) → Ensures x m s (IsReadOnly s)

  Reads-call :
      (c : Cmd) (k : Reply c → Prog Response)
      → ((r : Reply c) (s s' : View) → Effect x c r s s' → s' ≡ s)
      → ((r : Reply c) → Reads (k r))
      → Reads (call c k)
  Reads-call c k quiet h s = λ r s' e.
      Ensures-imp x (k r) s' (IsReadOnly s') (IsReadOnly s) (λ a s'' p. (p.0 ∙ quiet r s s' e, p.1))
        (h r s')

  fetched-Reads : (r : Result Job) → Reads (ret (fetched_response r))
  fetched-Reads (ok job) s = (refl, λ e. ground (arith, e))
  fetched-Reads (err e) s = elim (Bool-cases (is_not_found e)) [
    | inl h ↦ rw h (refl, λ q. ground (arith, q))
    | inr h ↦ rw h (refl, λ q. ground (arith, q))
  ]

  get_job-Reads : (id_param : String) → Reads (get_job id_param)
  unfolding get_job get_by_id
  get_job-Reads id_param =
      Reads-call (from_hex id_param) _ (λ r s s' e. e.1)
        (elim [
          | err e ↦ λ s. (refl, λ q. ground (arith, q))
          | ok id ↦
              Reads-call (find_one (has_id id)) (λ r. ret (fetched_response (got r)))
                (elim [ ok j ↦ λ s s' e. e.2 | err c ↦ λ s s' e. e.1 ]) (λ r. fetched-Reads (got r))
        ])

  listed-Reads : (r : Result (List Job)) → Reads (ret (listed_response r))
  listed-Reads (ok jobs) s = (refl, λ e. ground (arith, e))
  listed-Reads (err e) s = (refl, λ e. ground (arith, e))

  -- A test whose two outcomes only read.
  test-Reads :
      (b : Bool) (m n : Prog Response)
      → (b ≡ true → Reads m)
      → Reads n
      → Reads (elim b [ true ↦ m | false ↦ n ])
  test-Reads true m n h k = h refl
  test-Reads false m n h k = k

  error-Reads : (r : Response) → r.status ≢ 201 → Reads (ret r)
  error-Reads r h s = (refl, h)

  list_jobs-Reads :
      (tenant_id status : String) (limit : Option ℤ) → Reads (list_jobs tenant_id status limit)
  unfolding list_jobs list_by_tenant
  list_jobs-Reads tenant_id status limit =
      test-Reads (str_eq tenant_id "") _ _ (λ _ s. (refl, λ e. ground (arith, e)))
        (Reads-call (find (is_listed tenant_id status) (list_limit limit) newest_first)
          (λ r. ret (listed_response r)) (elim [ ok js ↦ λ s s' e. e.4 | err c ↦ λ s s' e. e ])
          listed-Reads)

  serve_job-Reads : (r : Request) (id : String) → Reads (serve_job r id)
  unfolding serve_job
  serve_job-Reads r id =
      test-Reads (str_eq r.method "GET") _ _ (λ _. get_job-Reads id)
        (error-Reads method_not_allowed (λ e. ground (arith, e)))

  serve_other-Reads : (r : Request) → Reads (serve_other r)
  serve_other-Reads r =
      test-Reads (str_eq r.path "/healthz") _ _ (λ _ s. (refl, λ e. ground (arith, e)))
        (λ s. (refl, λ e. ground (arith, e)))

  below-Reads :
      (r : Request) (rest : Option String)
      → Reads (elim rest [ some id ↦ serve_job r id | none ↦ serve_other r ])
  below-Reads r (some id) = serve_job-Reads r id
  below-Reads r none = serve_other-Reads r

  serve_jobs-Reads : (r : Request) → r.method ≢ "POST" → Reads (serve_jobs r)
  unfolding serve_jobs
  serve_jobs-Reads r h =
      test-Reads (str_eq r.method "POST") _ _ (λ e. absurd (h (str_eq→eq r.method "POST" e)))
        (test-Reads (str_eq r.method "GET") _ _
          (λ _. list_jobs-Reads r.tenant_id r.status (parse_int r.limit))
          (error-Reads method_not_allowed (λ e. ground (arith, e))))

  serve-Reads : (r : Request) → (r.path ≡ "/jobs" → r.method ≢ "POST") → Reads (serve r)
  unfolding serve
  serve-Reads r h =
      test-Reads (str_eq r.path "/jobs") _ _
        (λ e. serve_jobs-Reads r (h (str_eq→eq r.path "/jobs" e)))
        (below-Reads r (strip_prefix "/jobs/" r.path))

-- Only POST on /jobs writes: any other request, of whatever method, path, parameters and body, leaves
-- the collection and everything else that can be seen as it was, whether its calls of the database
-- succeed or fail, and is not answered by 201 (created).
pub serve-IsReadOnly :
    (w : World) (s : w.State) (r : Request)
    → (r.path ≡ "/jobs" → r.method ≢ "POST")
    → IsReadOnly (w.view s) (run w (serve r) s).0 (w.view (run w (serve r) s).1)
serve-IsReadOnly w s r h =
    run-Ensures w (serve r) s (IsReadOnly (w.view s)) (serve-Reads w.codec r h (w.view s))
