-- ===== src/Config.antt =====
-- internal/config/config.go: the settings that the services read from the environment. The
-- environment is what `os.Getenv` answers, after any .env file is loaded; the parser of durations is an
-- argument.
use high_scale_job_scheduler.Prelude.{
  ℕ, zero, suc, pos, negsuc, String, Option, none, some, ◌*◌, ◌/◌, ◌%◌, if◌then◌else◌, str_eq, ltb,
  print_int,
}
use Prim.Native.String.{◌++◌}
use high_scale_job_scheduler.Models.{Duration, Time}

abbrev pub Env : Type 0
Env = String → String

pub record Config : Type 0 where
  pub mongo_uri : String
  pub mongo_db : String
  pub http_port : String
  pub scheduler_tick : Duration
  pub claim_timeout : Duration
  pub queued_timeout : Duration
  pub near_term_window : Duration
  pub worker_id : String

unfoldable pub get_env : Env → String → String → String
get_env env key fallback = if str_eq (env key) "" then fallback else env key

abbrev pub duration_or : Duration → Option Duration → Duration
duration_or fallback none = fallback
duration_or fallback (some d) = d

unfoldable pub get_duration : Env → (String → Option Duration) → String → Duration → Duration
get_duration env parse_duration key fallback =
    if str_eq (env key) "" then fallback else duration_or fallback (parse_duration (env key))

-- The letters of the digits from ten on.
letters : ℕ → String
letters d =
    if ltb d 18
    then (if ltb d 14
        then (if ltb d 12 then (if ltb d 11 then "a" else "b") else (if ltb d 13 then "c" else "d"))
        else (if ltb d 16
            then (if ltb d 15 then "e" else "f")
            else (if ltb d 17 then "g" else "h")))
    else if ltb d 27
    then (if ltb d 22
        then (if ltb d 20 then (if ltb d 19 then "i" else "j") else (if ltb d 21 then "k" else "l"))
        else (if ltb d 24
            then (if ltb d 23 then "m" else "n")
            else (if ltb d 25 then "o" else (if ltb d 26 then "p" else "q"))))
    else (if ltb d 31
        then (if ltb d 29 then (if ltb d 28 then "r" else "s") else (if ltb d 30 then "t" else "u"))
        else (if ltb d 33
            then (if ltb d 32 then "v" else "w")
            else (if ltb d 34 then "x" else (if ltb d 35 then "y" else "z"))))

digit36 : ℕ → String
unfolding letters
digit36 d = if ltb d 10 then print_int (pos d) else letters d

-- The first argument bounds the digits.
digits36 : ℕ → ℕ → String
unfolding digit36
digits36 zero n = ""
digits36 (suc k) n =
    let front = digits36 k (n / 36) in if ltb n 36 then digit36 n else front ++ digit36 (n % 36)

-- `strconv.FormatInt(time.Now().UnixNano()%100000, 36)`: below 36^4, and negative before the epoch.
unfoldable pub rand_suffix : Time → String
unfolding digits36
rand_suffix (pos n) = digits36 4 (n % 100000)
rand_suffix (negsuc n) = if ltb 0 (suc n % 100000) then "-" ++ digits36 4 (suc n % 100000) else "0"

abbrev millisecond : ℕ
millisecond = 1000000

unfoldable pub load : Env → (String → Option Duration) → Time → Config
unfolding get_env get_duration rand_suffix
load env parse_duration now = record {
  mongo_uri = get_env env "MONGO_URI" "mongodb://localhost:27017";
  mongo_db = get_env env "MONGO_DB" "job_scheduler";
  http_port = get_env env "HTTP_PORT" "8080";
  scheduler_tick = get_duration env parse_duration "SCHEDULER_TICK" (pos (500 * millisecond));
  claim_timeout = get_duration env parse_duration "CLAIM_TIMEOUT" (pos (300000 * millisecond));
  queued_timeout = get_duration env parse_duration "QUEUED_TIMEOUT" (pos (30000 * millisecond));
  near_term_window =
      get_duration env parse_duration "NEAR_TERM_WINDOW" (pos (120000 * millisecond));
  worker_id = get_env env "WORKER_ID" ("worker-" ++ rand_suffix now);
}
