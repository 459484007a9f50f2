-- ===== src/LoadTest.antt =====
-- cmd/loadtest/main.go. The API server is outside; of the goroutines of a phase, which share no more
-- than the lists and the map that they add to, one order is modelled, one after the other. The interval
-- of the ticker is an argument.
pub mod Counting
pub mod Accounting
pub mod Settling
pub mod Latency
use high_scale_job_scheduler.Prelude.{
  ℕ, zero, suc, ℤ, pos, negsuc, String, Bool, true, false, List, [], ◌∷◌, ◌++◌, Option, none, some,
  ◌+◌, ◌-◌, ◌*◌, ◌/◌, ◌%◌, ◌^◌, ◌==◌, ◌&&◌, ◌||◌, if◌then◌else◌, ltb, leb, ltb_ℤ, ◌+ℤ◌, ◌-ℤ◌,
  length, print_int, str_eq,
}
use Prim.Native.String.{◌++◌ as ◌<>◌}
use high_scale_job_scheduler.Errors.{Error, Result, ok, err}
use high_scale_job_scheduler.Models.{CreateJobRequest, Time, Duration, text, float64}
use high_scale_job_scheduler.Effects.{
  JobRecord, HttpReply, Prog, ret, ask, ◌>>=◌, time_now, time_sleep, ticker_wait, http_post,
  http_get,
}

pub record CreatedJob : Type 0 where
  pub id : String
  pub created_at : Time

-- What `sendPhase` returns.
pub record SendResults : Type 0 where
  pub created : List CreatedJob
  pub latencies : List Duration
  pub err_count : ℕ

-- 300.0
abbrev three_hundred : ℕ
three_hundred = 0x4072c00000000000

abbrev load_request : String → String → ℕ → Time → CreateJobRequest
load_request job_type tenant i now = record {
  idempotency_key = "loadtest-" <> tenant <> "-" <> print_int (pos i);
  tenant_id = tenant;
  job_type = job_type;
  payload =
      ("message", text ("loadtest job " <> print_int (pos i)))
      ∷ ("sleepMs", float64 three_hundred)
      ∷ [];
  priority = pos 0;
  scheduled_at = now;
  cron = "";
  max_attempts = pos 3;
}

abbrev pub failed_send : SendResults → SendResults
failed_send acc = record acc { err_count = suc acc.err_count }

-- A response counts as an error unless it is 201 with a body that decodes.
abbrev pub record_send : Time → Duration → Result HttpReply → SendResults → SendResults
record_send started latency (err e) acc = failed_send acc
record_send started latency (ok reply) acc = elim (reply.status_code == 201) [
  | false ↦ failed_send acc
  | true ↦ elim reply.body [
    | err e ↦ failed_send acc
    | ok rec ↦ record acc {
      created = acc.created ++ record { id = rec.id; created_at = started } ∷ [];
      latencies = acc.latencies ++ latency ∷ [];
    }
  ]
]

-- The goroutine of one job.
unfoldable pub send_one : String → String → String → ℕ → SendResults → Prog SendResults
send_one api_url job_type tenant i acc = do
  now ← ask time_now
  started ← ask time_now
  r ← ask (http_post (api_url <> "/jobs") (load_request job_type tenant i now))
  ended ← ask time_now
  ret (record_send started (ended -ℤ started) r acc)

-- The loop of `sendPhase`, for at most the given number of rounds, with the number of jobs so far.
unfoldable pub send_loop : ℕ → String → String → String → Time → ℕ → SendResults → Prog SendResults
send_loop zero api_url job_type tenant deadline seq acc = ret acc
send_loop (suc n) api_url job_type tenant deadline seq acc = ask time_now >>= λ now.
    elim (ltb_ℤ now deadline) [
      | false ↦ ret acc
      | true ↦ ask ticker_wait >>= λ _. send_one api_url job_type tenant (suc seq) acc >>= λ acc'.
          send_loop n api_url job_type tenant deadline (suc seq) acc'
    ]

unfoldable pub send_phase : ℕ → String → String → String → Duration → Prog SendResults
send_phase rounds api_url job_type tenant duration = ask time_now >>= λ now.
    send_loop rounds api_url job_type tenant (now +ℤ duration) 0
      (record { created = []; latencies = []; err_count = 0 })

pub record Outcome : Type 0 where
  pub status : String
  pub e2e_time : Duration

-- The map `results`, under the ids of jobs.
abbrev pub Results : Type 0
Results = List (String × Outcome)

unfoldable pub has_result : String → Results → Bool
has_result k [] = false
has_result k ((j, o) ∷ rs) = str_eq j k || has_result k rs

-- `results[k] = o`
unfoldable pub set_result : String → Outcome → Results → Results
set_result k o [] = (k, o) ∷ []
set_result k o ((j, p) ∷ rs) =
    let rest = set_result k o rs in if str_eq j k then (k, o) ∷ rs else (j, p) ∷ rest

abbrev pub is_terminal : String → Bool
is_terminal status = str_eq status "completed" || str_eq status "dlq"

-- The status in a response, if it is 200 with a body that decodes and the status is a last one.
abbrev pub terminal_status : Result HttpReply → Option String
terminal_status (err e) = none
terminal_status (ok reply) = elim (reply.status_code == 200) [
  | false ↦ none
  | true ↦ elim reply.body [
    | err e ↦ none
    | ok rec ↦ if is_terminal rec.status then some rec.status else none
  ]
]

-- The goroutine of one job.
unfoldable pub poll_one : String → CreatedJob → Results → Prog Results
poll_one api_url job results = ask (http_get (api_url <> "/jobs/" <> job.id)) >>= λ r.
    elim (terminal_status r) [
      | none ↦ ret results
      | some status ↦ ask time_now >>= λ now.
          ret (
            set_result job.id (record { status = status; e2e_time = now -ℤ job.created_at })
              results)
    ]

-- One round of `completionPhase` over the jobs.
unfoldable pub poll_all : String → List CreatedJob → Results → Prog Results
poll_all api_url [] results = ret results
poll_all api_url (job ∷ jobs) results = elim (has_result job.id results) [
  | true ↦ poll_all api_url jobs results
  | false ↦ poll_one api_url job results >>= λ results'. poll_all api_url jobs results'
]

abbrev pub poll_interval : Duration
poll_interval = pos 2000000000

unfoldable pub poll_loop : ℕ → String → List CreatedJob → Time → Results → Prog Results
poll_loop zero api_url created deadline results = ret results
poll_loop (suc n) api_url created deadline results = ask time_now >>= λ now.
    elim (ltb_ℤ now deadline && ltb (length results) (length created)) [
      | false ↦ ret results
      | true ↦ ask (time_sleep poll_interval) >>= λ _.
          poll_all api_url created results >>= λ results'.
          poll_loop n api_url created deadline results'
    ]

unfoldable pub completed_latencies : Results → List Duration
completed_latencies [] = []
completed_latencies ((k, o) ∷ rs) =
    let rest = completed_latencies rs in
    if str_eq o.status "completed" then o.e2e_time ∷ rest else rest

unfoldable pub dlq_count : Results → ℕ
dlq_count [] = 0
dlq_count ((k, o) ∷ rs) =
    let rest = dlq_count rs in if str_eq o.status "completed" then rest else suc rest

-- The numbers that are printed, with the latencies of the completed jobs. `leftover` is a difference
-- of two Go integers.
pub record Summary : Type 0 where
  pub completed : List Duration
  pub dlq : ℕ
  pub leftover : ℤ

abbrev pub summary : List CreatedJob → Results → Summary
summary created results = record {
  completed = completed_latencies results;
  dlq = dlq_count results;
  leftover = pos (length created) -ℤ pos (length results);
}

unfoldable pub completion_phase : ℕ → String → List CreatedJob → Duration → Prog Summary
completion_phase rounds api_url created max_wait = ask time_now >>= λ now.
    poll_loop rounds api_url created (now +ℤ max_wait) [] >>= λ results.
    ret (summary created results)

-- After the send phase: without a job that was created, `log.Fatal` ends the program.
abbrev pub complete : ℕ → String → Duration → SendResults → Prog (SendResults × Option Summary)
complete rounds api_url max_wait sent = elim (length sent.created == 0) [
  | true ↦ ret (sent, none)
  | false ↦
      completion_phase rounds api_url sent.created max_wait >>= λ report. ret (sent, some report)
]

-- `main`, over its flags.
unfoldable pub load_main :
    (send_rounds poll_rounds : ℕ) (api_url job_type tenant : String) (duration max_wait : Duration)
    → Prog (SendResults × Option Summary)
load_main send_rounds poll_rounds api_url job_type tenant duration max_wait =
    send_phase send_rounds api_url job_type tenant duration
    >>= complete poll_rounds api_url max_wait
