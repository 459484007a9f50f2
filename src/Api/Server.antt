-- ===== src/Api/Server.antt =====
-- cmd/api/main.go: the routes of the API server. A request is its method, its path as the mux leaves
-- it, the query parameters that the handlers read, and its body.
use high_scale_job_scheduler.Prelude.{
  String, true, false, Option, none, some, str_eq, strip_prefix, parse_int,
}
use high_scale_job_scheduler.Models.{CreateJobRequest}
use high_scale_job_scheduler.Effects.{Prog, ret}
use high_scale_job_scheduler.Api.{Response, create_job, get_job, list_jobs, write_json, plain_text}

-- A query parameter that is missing is empty; the body is `none` if it does not decode.
pub record Request : Type 0 where
  pub method : String
  pub path : String
  pub tenant_id : String
  pub status : String
  pub limit : String
  pub body : Option CreateJobRequest

abbrev pub method_not_allowed : Response
method_not_allowed = write_json 405 (plain_text "method not allowed")

-- The handler of `/jobs`.
unfoldable pub serve_jobs : Request → Prog Response
serve_jobs r = elim (str_eq r.method "POST") [
  | true ↦ create_job r.body
  | false ↦ elim (str_eq r.method "GET") [
    | true ↦ list_jobs r.tenant_id r.status (parse_int r.limit)
    | false ↦ ret method_not_allowed
  ]
]

-- The handler of `/jobs/`, with what follows that prefix in the path.
unfoldable pub serve_job : Request → String → Prog Response
serve_job r id = elim (str_eq r.method "GET") [ false ↦ ret method_not_allowed | true ↦ get_job id ]

abbrev pub serve_other : Request → Prog Response
serve_other r = elim (str_eq r.path "/healthz") [
  | true ↦ ret (write_json 200 (plain_text "ok"))
  | false ↦ ret (write_json 404 (plain_text "404 page not found"))
]

-- The mux: a path that ends in a slash stands for all paths below it.
unfoldable pub serve : Request → Prog Response
unfolding serve_jobs serve_job
serve r = elim (str_eq r.path "/jobs") [
  | true ↦ serve_jobs r
  | false ↦ elim (strip_prefix "/jobs/" r.path) [ some id ↦ serve_job r id | none ↦ serve_other r ]
]
