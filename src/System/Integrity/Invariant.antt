-- ===== src/System/Integrity/Invariant.antt =====
-- The invariant of the shared world, and worlds that it holds of.
use high_scale_job_scheduler.Prelude.{
  sym, ℤ, String, ap, ◌∙◌, All-imp, All-both, All-of, arith, ◌≡◌, ◌≢◌, ◌⊎◌, Bool, true, some, ◌≤ℤ◌,
  pos, List, [], ◌∷◌, refl, All,
}
use high_scale_job_scheduler.Models.{
  Job, JobStatus, ObjectId, Payload, failed, pending, queued, dlq,
}
use high_scale_job_scheduler.Topics.{DispatchMessage, dispatch_topic, dlq_topic}
use high_scale_job_scheduler.Effects.{Message}
use high_scale_job_scheduler.Effects.Docs.{UniqueIds, UniqueKeys, FreshId, doc, doc-id, doc-All}
use high_scale_job_scheduler.Effects.World.{View, Codec}

-- At least one attempt is allowed, and the status `failed` is not used.
pub record IsValid (j : Job) : Type 0 where
  pub some_attempts : pos 1 ≤ℤ j.max_attempts
  pub not_failed : j.status ≢ failed

-- A run, that is no recurring template.
pub record IsRun (j : Job) : Type 0 where
  pub valid : IsValid j
  pub no_template : j.cron ≡ ""

-- A message on the dispatch topic of its job type or on the dead-letter topic, that names a job and
-- has that name for its key.
pub record IsRouted (x : Codec) (m : Message) : Type 0 where
  pub body : DispatchMessage
  pub value : m.value ≡ some body
  pub topic : (m.topic ≡ dispatch_topic body.job_type) ⊎ (m.topic ≡ dlq_topic)
  pub key : m.key ≡ body.job_id
  pub job : (i : ObjectId) × (body.job_id ≡ x.hex_of i)

-- What a job is for, which nothing changes.
pub record Work : Type 0 where
  pub idempotency_key : String
  pub tenant_id : String
  pub job_type : String
  pub payload : Payload
  pub priority : ℤ
  pub cron : String
  pub max_attempts : ℤ

abbrev pub work_of : Job → Work
work_of j = record {
  idempotency_key = j.idempotency_key;
  tenant_id = j.tenant_id;
  job_type = j.job_type;
  payload = j.payload;
  priority = j.priority;
  cron = j.cron;
  max_attempts = j.max_attempts;
}

-- The job is still there under its id, with the same work.
abbrev pub KeptIn : List Job → Job → Type 0
KeptIn docs j = (k : Job) × (doc j.id docs ≡ some k) × (work_of k ≡ work_of j)

-- The statuses of a job that no worker has taken.
abbrev pub Waits : JobStatus → Type 0
Waits status = (status ≡ pending) ⊎ (status ≡ queued) ⊎ (status ≡ dlq)

-- A recurring template that no worker has taken, and a later document of it.
abbrev pub IsTemplate : Job → Type 0
IsTemplate b = (b.cron ≢ "") × Waits b.status

pub record IsIdle (b k : Job) : Type 0 where
  pub waits : Waits k.status
  pub same_attempts : k.attempts ≡ b.attempts
  pub same_worker : k.claimed_by ≡ b.claimed_by

abbrev pub IdleIn : List Job → Job → Type 0
IdleIn docs b =
    IsTemplate b → (k : Job) × (doc b.id docs ≡ some k) × (work_of k ≡ work_of b) × IsIdle b k

-- What an invariant is about: jobs that are kept, and templates that stay idle.
pub record Base : Type 0 where
  pub jobs : List Job
  pub templates : List Job

-- The id is of no template, and the message names such an id.
abbrev pub IsFree : Base → ObjectId → Type 0
IsFree base i = All (λ b. IsTemplate b → b.id ≢ i) base.templates

pub record NamesFree (x : Codec) (base : Base) (m : Message) : Type 0 where
  pub named : ObjectId
  pub names : (body : DispatchMessage) → m.value ≡ some body → body.job_id ≡ x.hex_of named
  pub free : IsFree base named

pub record IsSound (x : Codec) (s : View) : Type 0 where
  pub unique_ids : UniqueIds s.docs
  pub unique_keys : s.key_index ≡ true → UniqueKeys s.docs
  pub valid : All IsValid s.docs
  pub runs_dispatched : All IsRun s.dispatched
  pub routed : All (IsRouted x) s.produced

-- A sound world that has kept the jobs of the base, and whose templates no worker has taken.
pub record Inv (x : Codec) (base : Base) (s : View) : Type 0 where
  pub unique_ids : UniqueIds s.docs
  pub unique_keys : s.key_index ≡ true → UniqueKeys s.docs
  pub valid : All IsValid s.docs
  pub runs_dispatched : All IsRun s.dispatched
  pub routed : All (IsRouted x) s.produced
  pub kept : All (KeptIn s.docs) base.jobs
  pub idle : All (IdleIn s.docs) base.templates
  pub dispatched_free : All (λ j. IsFree base j.id) s.dispatched
  pub produced_free : All (NamesFree x base) s.produced

-- A change of the documents that pass a test that keeps the invariant.
pub record IsTame (base : Base) (p : Job → Bool) (f : Job → Job) : Type 0 where
  pub id : (j : Job) → (f j).id ≡ j.id
  pub same_work : (j : Job) → work_of (f j) ≡ work_of j
  pub status : (j : Job) → j.status ≢ failed → (f j).status ≢ failed
  pub idle :
      All
        (λ b. IsTemplate b → (k : Job) → k.id ≡ b.id → p k ≡ true → IsIdle b k → IsIdle b (f k))
        base.templates

pub new-KeptIn :
    (new j : Job) (ds : List Job) → FreshId new.id ds → KeptIn ds j → KeptIn (new ∷ ds) j
new-KeptIn new j ds fresh (k, e, w) =
    let other : k.id ≢ new.id = doc-All (λ d. d.id ≢ new.id) j.id k ds fresh e in
    (k, ground (arith, other, doc-id j.id k ds e, e), w)

own_kept : (ds : List Job) → UniqueIds ds → All (KeptIn ds) ds
own_kept [] u = tt
own_kept (j ∷ js) u = (
  (j, ground arith, refl),
  All-imp (KeptIn js) (KeptIn (j ∷ js)) js (λ k. new-KeptIn j k js u.0) (own_kept js u.1),
)

-- A sound world has kept its own jobs.
pub Inv-begin :
    (x : Codec) (s : View) → IsSound x s → Inv x (record { jobs = s.docs; templates = [] }) s
Inv-begin x s i = record {
  unique_ids = i.unique_ids;
  unique_keys = i.unique_keys;
  valid = i.valid;
  runs_dispatched = i.runs_dispatched;
  routed = i.routed;
  kept = own_kept s.docs i.unique_ids;
  idle = tt;
  dispatched_free = All-of (λ d. Unit {0}) s.dispatched (λ d. tt);
  produced_free =
      All-imp (IsRouted x) (NamesFree x (record { jobs = s.docs; templates = [] })) s.produced
        (λ m r. record {
          named = r.job.0;
          names = λ body h. ground (arith, h, r.value, r.job.1);
          free = tt;
        })
        i.routed;
}

-- A template of a sound world is idle while no message names it and none is dispatched for it.
pub Inv-begin_template :
    (x : Codec) (s : View) (b : Job)
    → IsSound x s
    → doc b.id s.docs ≡ some b
    → All (λ d. d.id ≢ b.id) s.dispatched
    → All
        (λ m. (body : DispatchMessage) → m.value ≡ some body → body.job_id ≢ x.hex_of b.id)
        s.produced
    → Inv x (record { jobs = []; templates = b ∷ [] }) s
Inv-begin_template x s b i found dispatched produced = record {
  unique_ids = i.unique_ids;
  unique_keys = i.unique_keys;
  valid = i.valid;
  runs_dispatched = i.runs_dispatched;
  routed = i.routed;
  kept = tt;
  idle = (
    (λ t. (b, found, refl, record { waits = t.1; same_attempts = refl; same_worker = refl })),
    tt,
  );
  dispatched_free =
      All-imp (λ d. d.id ≢ b.id) (λ d. IsFree (record { jobs = []; templates = b ∷ [] }) d.id)
        s.dispatched (λ d other. ((λ _ e. other (sym e)), tt)) dispatched;
  produced_free =
      All-imp _ (NamesFree x (record { jobs = []; templates = b ∷ [] })) s.produced
        (λ m (r, other). record {
          named = r.job.0;
          names = λ body h. ground (arith, h, r.value, r.job.1);
          free = ((λ _ e. other r.body r.value (r.job.1 ∙ ap x.hex_of (sym e))), tt);
        })
        (All-both (IsRouted x) _ s.produced i.routed produced);
}

pub Inv-IsSound : (x : Codec) (base : Base) (s : View) → Inv x base s → IsSound x s
Inv-IsSound x base s i = record {
  unique_ids = i.unique_ids;
  unique_keys = i.unique_keys;
  valid = i.valid;
  runs_dispatched = i.runs_dispatched;
  routed = i.routed;
}
