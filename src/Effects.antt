-- ===== src/Effects.antt =====
-- What the code asks of the world outside the repository (MongoDB, Kafka, the clock, the cron
-- parser, contexts, random numbers), as commands, and Go functions as programs over them.
pub mod Docs
pub mod World
pub mod Memory
use high_scale_job_scheduler.Prelude.{ℕ, ℤ, String, Bool, List, Option, ◌≡◌}
use high_scale_job_scheduler.Errors.{Error, Result}
use high_scale_job_scheduler.Models.{Job, CreateJobRequest, ObjectId, Time, Duration}
use high_scale_job_scheduler.Topics.{DispatchMessage}

-- A `mongo.IndexModel`: the fields that it orders by, and whether it is unique.
pub record IndexModel : Type 0 where
  pub keys : List String
  pub unique : Bool

-- A `kgo.Record`. The value of a message that the JSON decoder refuses is `none`.
pub record Message : Type 0 where
  pub topic : String
  pub key : String
  pub value : Option DispatchMessage

-- What `PollFetches` returns: whether the client is closed, and the records.
pub record Fetches : Type 0 where
  pub client_closed : Bool
  pub records : List (Option DispatchMessage)

-- What the load test reads of a job in a response, and a response: its status code and its body, which
-- may not decode.
pub record JobRecord : Type 0 where
  pub id : String
  pub status : String

pub record HttpReply : Type 0 where
  pub status_code : ℕ
  pub body : Result JobRecord

-- The counters of internal/observability/metrics.go that count events, with what is added.
pub data Metric : Type 0 where
  jobs_claimed : ℕ → Metric
  dispatch_errors : Metric
  cron_instances_spawned : Metric
  cron_invalid : Metric
  jobs_processed_success : String → Metric
  jobs_processed_failure : String → Metric
  reaper_recovered_execution : ℕ → Metric
  reaper_recovered_queued : ℕ → Metric
  scheduler_tick_duration : Duration → Metric
  executor_job_duration : String → Duration → Metric

-- A filter document is the test that it stands for, a `$set` document the change that it makes, and
-- a sort document the test whether one job strictly precedes another.
pub data Cmd : Type 0 where
  create_indexes : List IndexModel → Cmd
  insert_one : Job → Cmd
  find_one : (Job → Bool) → Cmd
  find : (Job → Bool) → ℤ → (Job → Job → Bool) → Cmd
  find_one_and_update : (Job → Bool) → (Job → Job) → (Job → Job → Bool) → Cmd
  update_one : (Job → Bool) → (Job → Job) → Cmd
  update_many : (Job → Bool) → (Job → Job) → Cmd
  produce : Message → Cmd
  poll_fetches : Cmd
  commit_offsets : Cmd
  time_now : Cmd
  context_done : Cmd
  next_tick : Cmd
  sleep : Duration → Cmd
  rand_float64 : Cmd
  cron_next : String → Time → Cmd
  hex : ObjectId → Cmd
  from_hex : String → Cmd
  go_dispatch : Job → Cmd
  count : Metric → Cmd
  rand_intn : ℕ → Cmd
  mongo_connect : String → Cmd
  mongo_ping : Cmd
  kafka_client : List String → Option (String × String) → Cmd
  etcd_client : List String → Cmd
  new_session : ℤ → Cmd
  campaign : String → Cmd
  resign : Cmd
  close_session : Cmd
  close_etcd : Cmd
  close_kafka : Cmd
  time_sleep : Duration → Cmd
  mongo_disconnect : Cmd
  ticker_wait : Cmd
  http_post : String → CreateJobRequest → Cmd
  http_get : String → Cmd

-- `update_one` answers the matched count and `update_many` the modified count; `next_tick` is a
-- `select` over a ticker and `ctx.Done()`, and `sleep` one over a timer and `ctx.Done()`: they answer
-- whether the context ended. `kafka_client` is given the group and the topic of a
-- consumer, and `none` for a producer; `sleep` ends with the context and `time_sleep` does not.
abbrev pub Reply : Cmd → Type 0
Reply (create_indexes ixs) = Result (Unit {0})
Reply (insert_one j) = Result ObjectId
Reply (find_one p) = Result Job
Reply (find p limit before) = Result (List Job)
Reply (find_one_and_update p f before) = Result Job
Reply (update_one p f) = Result ℕ
Reply (update_many p f) = Result ℕ
Reply (produce m) = Result (Unit {0})
Reply poll_fetches = Fetches
Reply commit_offsets = Result (Unit {0})
Reply time_now = Time
Reply context_done = Bool
Reply next_tick = Bool
Reply (sleep d) = Option Error
Reply rand_float64 = ℕ
Reply (cron_next expr after) = Result Time
Reply (hex id) = String
Reply (from_hex s) = Result ObjectId
Reply (go_dispatch j) = Unit
Reply (count m) = Unit
Reply (rand_intn n) = ℕ
Reply (mongo_connect uri) = Result (Unit {0})
Reply mongo_ping = Result (Unit {0})
Reply (kafka_client brokers group) = Result (Unit {0})
Reply (etcd_client endpoints) = Result (Unit {0})
Reply (new_session ttl) = Result (Unit {0})
Reply (campaign node_id) = Result (Unit {0})
Reply resign = Result (Unit {0})
Reply close_session = Result (Unit {0})
Reply close_etcd = Result (Unit {0})
Reply close_kafka = Unit
Reply (time_sleep d) = Unit
Reply mongo_disconnect = Result (Unit {0})
Reply ticker_wait = Unit
Reply (http_post url body) = Result HttpReply
Reply (http_get url) = Result HttpReply

-- A Go function whose calls of the world are its nodes.
pub data Prog (A : Type 0) : Type 0 where
  ret : A → Prog A
  call : (c : Cmd) → (Reply c → Prog A) → Prog A

abbrev pub ask : (c : Cmd) → Prog (Reply c)
ask c = call c ret

infixl 5 ◌>>=◌ ◌>>◌
abbrev pub ◌>>=◌ : {A B : Type 0} → Prog A → (A → Prog B) → Prog B
ret a >>= f = f a
call c k >>= f = call c (λ r. k r >>= f)

abbrev pub ◌>>◌ : {B : Type 0} → Prog (Unit {0}) → Prog B → Prog B
m >> k = m >>= λ _. k
