-- ===== src/System.antt =====
-- The processes of a deployment over one database and one message broker: API servers, schedulers,
-- executors, reapers and seed commands, in any number, interleaved command by command in any order.
pub mod Keeps
pub mod Integrity
pub mod Repository
pub mod Handlers
pub mod Executors
pub mod Schedulers
pub mod Startup
pub mod Services
pub mod Seeding
pub mod Safety
pub mod Budget
pub mod Pool
pub mod Claimers
pub mod Redelivery
pub mod Progress
use high_scale_job_scheduler.Prelude.{ℕ, String, Option, List, ◌∷◌, ◌++◌, ◌≡◌}
use mathlib.Core.List.{Memᴰ}
use high_scale_job_scheduler.Models.{Job, Duration}
use high_scale_job_scheduler.Effects.{Cmd, Reply, Prog, ret, call, ◌>>=◌}
use high_scale_job_scheduler.Effects.World.{View, Codec, Effect}
use high_scale_job_scheduler.Scheduler.{dispatch_fn}
use high_scale_job_scheduler.Config.{Env}
use high_scale_job_scheduler.Api.Server.{Request, serve}
use high_scale_job_scheduler.Services.{scheduler_main, executor_main, reaper_main, api_main}
use high_scale_job_scheduler.Seed.{Flags, seed_main}

abbrev pub Process : Type 0
Process = Prog (Unit {0})

-- The rest of a process whose result nobody reads.
abbrev pub detach : {A : Type 0} → Prog A → Process
detach m = m >>= λ _. ret tt

-- What may start: the services, a request to an API server, the goroutine of a job that a scheduler
-- handed over, and the command that fills the collection.
pub data Starts (s : View) : Process → Type 0 where
  api : (env : Env) (pd : String → Option Duration) → Starts s (detach (api_main env pd))
  request : (r : Request) → Starts s (detach (serve r))
  scheduler :
      (terms rounds : ℕ) (env : Env) (pd : String → Option Duration)
      → Starts s (detach (scheduler_main terms rounds env pd))
  dispatcher : (j : Job) → Memᴰ j s.dispatched → Starts s (dispatch_fn j)
  executor :
      (rounds : ℕ) (env : Env) (pd : String → Option Duration)
      → Starts s (detach (executor_main rounds env pd))
  reaper :
      (rounds : ℕ) (env : Env) (pd : String → Option Duration)
      → Starts s (detach (reaper_main rounds env pd))
  seeder :
      (flags : Flags) (env : Env) (pd : String → Option Duration)
      → Starts s (detach (seed_main flags env pd))

pub record System : Type 0 where
  pub view : View
  pub processes : List Process

-- One command of one process, or the start of a process.
pub data Step (x : Codec) (t u : System) : Type 0 where
  act :
      (front back : List Process) (c : Cmd) (k : Reply c → Process) (r : Reply c)
      → t.processes ≡ front ++ (call c k ∷ back)
      → Effect x c r t.view u.view
      → u.processes ≡ front ++ (k r ∷ back)
      → Step x t u
  start :
      (p : Process) → Starts t.view p → u.view ≡ t.view → u.processes ≡ p ∷ t.processes → Step x t u

pub data Reach (x : Codec) (t : System) : System → Type 0 where
  here : Reach x t t
  next : {u v : System} → Reach x t u → Step x u v → Reach x t v
