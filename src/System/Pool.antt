-- ===== src/System/Pool.antt =====
-- Pools of programs that are interleaved; a pool of calls of `ClaimDueJobs`, what each holds, and lists of jobs of which one is inserted.
use high_scale_job_scheduler.Prelude.{
  ℕ, ◌≡◌, ◌≢◌, refl, sym, ◌∙◌, subst, ap, Option, none, some, if◌then◌else◌, List, [], ◌∷◌, ◌++◌,
  All, append_assoc,
}
use high_scale_job_scheduler.Errors.{Error, ok, err, is_no_documents}
use high_scale_job_scheduler.Models.{Job, ObjectId, Time, queued}
use high_scale_job_scheduler.Effects.{Reply, Prog, ret, call, find_one_and_update}
use high_scale_job_scheduler.Effects.Docs.{UniqueIds, FreshId, doc}
use high_scale_job_scheduler.Effects.World.{View, Codec, Effect, World, run}
use high_scale_job_scheduler.Store.{claim_loop, is_due, set_queued, claims_before}

-- One command of a process; one that returned has none.
abbrev pub Acts : {A : Type 0} → Codec → Prog A → View → Prog A → View → Type 0
Acts x (ret a) s p s' = ⊥
Acts x (call c k) s p s' = (r : Reply c) × Effect x c r s s' × (p ≡ k r)

pub data PoolStep {A : Type 0} (x : Codec) (s : View) (ps : List (Prog A)) (s' : View)
    (ps' : List (Prog A)) : Type 0 where
  pick :
      (front back : List (Prog A)) (p p' : Prog A)
      → ps ≡ front ++ (p ∷ back)
      → Acts x p s p' s'
      → ps' ≡ front ++ (p' ∷ back)
      → PoolStep x s ps s' ps'

pub data PoolReach {A : Type 0} (x : Codec) (s : View) (ps : List (Prog A))
    : View → List (Prog A) → Type 0 where
  here : PoolReach x s ps s ps
  next :
      {t u : View} {qs rs : List (Prog A)}
      → PoolReach x s ps t qs
      → PoolStep x t qs u rs
      → PoolReach x s ps u rs

-- One process runs on to its end, and the others wait.
pub run-PoolReach :
    {A : Type 0} (w : World) (m : Prog A) (front back : List (Prog A)) (t : w.State) {s : View}
    {ps : List (Prog A)}
    → PoolReach w.codec s ps (w.view t) (front ++ (m ∷ back))
    → PoolReach w.codec s ps (w.view (run w m t).1) (front ++ (ret (run w m t).0 ∷ back))
unfolding run
run-PoolReach w (ret a) front back t r = r
run-PoolReach w (call c k) front back t r =
    let (reply, t') = w.exec c t in
    run-PoolReach w (k reply) front back t'
      (next r (pick front back (call c k) (k reply) refl (reply, w.lawful c t, refl) refl))

abbrev pub Claimer : Type 0
Claimer = Prog (List Job × Option Error)

-- Every claimer has returned; the list has what they returned, one claimer after the other.
pub data Returned : List Claimer → List Job → Type 0 where
  nil : Returned [] []
  cons :
      {ps : List Claimer} {js : List Job} (jobs : List Job) (e : Option Error)
      → Returned ps js
      → Returned (ret (jobs, e) ∷ ps) (jobs ++ js)

-- A claimer that has claimed the jobs so far: before a round, before its claim, or at the end.
abbrev pub claiming : ℕ → Time → Time → List Job → Claimer
claiming n now at jobs = call (find_one_and_update (is_due now) (set_queued at) claims_before) (λ r.
    elim r [
      | ok job ↦ claim_loop n now (jobs ++ job ∷ [])
      | err e ↦ ret (if is_no_documents e then (jobs, none) else (jobs, some e))
    ])

pub data Holds (p : Claimer) (jobs : List Job) : Type 0 where
  looping : (n : ℕ) (now : Time) → p ≡ claim_loop n now jobs → Holds p jobs
  reading : (n : ℕ) (now at : Time) → p ≡ claiming n now at jobs → Holds p jobs
  ended : (e : Option Error) → p ≡ ret (jobs, e) → Holds p jobs

pub data Held : List Claimer → List Job → Type 0 where
  none_held : Held [] []
  more :
      {p : Claimer} {ps : List Claimer} {jobs js : List Job}
      → Holds p jobs
      → Held ps js
      → Held (p ∷ ps) (jobs ++ js)

-- The held jobs are queued documents.
abbrev pub IsQueuedIn : View → Job → Type 0
IsQueuedIn s j = (d : Job) × (doc j.id s.docs ≡ some d) × (d.status ≡ queued)

pub record Inv (s : View) (ps : List Claimer) : Type 0 where
  pub jobs : List Job
  pub held : Held ps jobs
  pub distinct : UniqueIds jobs
  pub are_queued : All (IsQueuedIn s) jobs
  pub unique : UniqueIds s.docs

-- What one claimer holds, and a way to replace it.
pub record Split (front back : List Claimer) (p : Claimer) (js : List Job) : Type 0 where
  pub before : List Job
  pub own : List Job
  pub after : List Job
  pub parts : js ≡ before ++ (own ++ after)
  pub holds : Holds p own
  pub replace :
      (p' : Claimer) (own' : List Job)
      → Holds p' own'
      → Held (front ++ (p' ∷ back)) (before ++ (own' ++ after))

pub split :
    (front back : List Claimer) (p : Claimer) {js : List Job}
    → Held (front ++ (p ∷ back)) js
    → Split front back p js
split [] back p (more {jobs} {js} h rest) = record {
  before = [];
  own = jobs;
  after = js;
  parts = refl;
  holds = h;
  replace = λ p' own' h'. more h' rest;
}
split (q ∷ front) back p (more {jobs} h rest) =
    let i : Split front back p _ = split front back p rest in
    record {
      before = jobs ++ i.before;
      own = i.own;
      after = i.after;
      parts = ap (λ ks. jobs ++ ks) i.parts ∙ sym (append_assoc jobs i.before (i.own ++ i.after));
      holds = i.holds;
      replace = λ p' own' h'.
          subst (Held (q ∷ (front ++ (p' ∷ back))))
            (sym (append_assoc jobs i.before (own' ++ i.after))) (more h (i.replace p' own' h'));
    }

pub FreshId-append :
    (i : ObjectId) (xs ys : List Job) → FreshId i (xs ++ ys) → FreshId i xs × FreshId i ys
FreshId-append i [] ys f = (tt, f)
FreshId-append i (x ∷ xs) ys f = let (a, b) = FreshId-append i xs ys f.1 in ((f.0, a), b)

pub FreshId-insert :
    (i : ObjectId) (k : Job) (xs ys : List Job)
    → k.id ≢ i
    → FreshId i (xs ++ ys)
    → FreshId i (xs ++ (k ∷ ys))
FreshId-insert i k [] ys h f = (h, f)
FreshId-insert i k (x ∷ xs) ys h f = (f.0, FreshId-insert i k xs ys h f.1)

pub UniqueIds-insert :
    (k : Job) (xs ys : List Job)
    → FreshId k.id (xs ++ ys)
    → UniqueIds (xs ++ ys)
    → UniqueIds (xs ++ (k ∷ ys))
UniqueIds-insert k [] ys f u = (f, u)
UniqueIds-insert k (x ∷ xs) ys f u =
    (FreshId-insert x.id k xs ys (λ e. f.0 (sym e)) u.0, UniqueIds-insert k xs ys f.1 u.1)

pub All-insert {κ} :
    (P : Job → Type κ) (k : Job) (xs ys : List Job)
    → P k
    → All P (xs ++ ys)
    → All P (xs ++ (k ∷ ys))
All-insert P k [] ys p a = (p, a)
All-insert P k (x ∷ xs) ys p a = (a.0, All-insert P k xs ys p a.1)
