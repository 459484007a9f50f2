-- ===== src/Effects/World.antt =====
-- What MongoDB, Kafka and the other services are documented to do, as a relation between a command,
-- its reply and what can be seen of the world before and after; and runs of a program in any world
-- that keeps to it.
use mathlib.Core.List.{Memᴰ}
use mathlib.Core.Option
use high_scale_job_scheduler.Prelude.{
  ℕ, ℤ, suc, pos, String, ◌≡◌, refl, ap, ◌∙◌, ◌≢◌, subst, ◌⊎◌, Bool, true, false, ◌||◌, ◌&&◌, List,
  [], ◌∷◌, All, str_eq, length, count_if, ◌≤◌, ◌<◌, ◌≤ℤ◌, ◌<ℤ◌, ◌+ℤ◌,
}
use high_scale_job_scheduler.Errors.{
  Result, ok, err, is_no_documents, is_duplicate_key, is_duplicate_idempotency_key, is_not_found,
}
use high_scale_job_scheduler.Models.{Job, ObjectId, Time}
use high_scale_job_scheduler.Effects.{
  rand_intn, mongo_connect, mongo_ping, kafka_client, etcd_client, new_session, campaign, resign,
  close_session, close_etcd, close_kafka, time_sleep, mongo_disconnect, ticker_wait, http_post,
  http_get, IndexModel, Message, Metric, Cmd, Reply, Prog, ret, call, ◌>>=◌,
}
use high_scale_job_scheduler.Effects.{
  create_indexes, insert_one, find_one, find, find_one_and_update, update_one, update_many, produce,
  poll_fetches, commit_offsets, time_now, context_done, next_tick, sleep, rand_float64, cron_next,
  hex, from_hex, go_dispatch, count,
}
use high_scale_job_scheduler.Effects.Docs.{
  Touched, Partly, change_all, FreshId, FreshKey, UniqueKeys, NoneOf,
}

-- The jobs collection, whether its unique index on the idempotency key is there, the jobs handed to
-- `go dispatch`, the messages that Kafka took and the metrics counted, newest first.
pub record View : Type 0 where
  pub docs : List Job
  pub key_index : Bool
  pub dispatched : List Job
  pub produced : List Message
  pub counted : List Metric

-- The pure functions of the libraries: a time as BSON keeps it, which has milliseconds, the text of an
-- object id, and the first time after another that an expression of the cron parser stands for.
pub record Codec : Type 0 where
  pub datetime : Time → Time
  pub datetime_le : (t : Time) → datetime t ≤ℤ t
  pub datetime_near : (t : Time) → t <ℤ datetime t +ℤ pos 1000000
  pub datetime_mono : (t u : Time) → t ≤ℤ u → datetime t ≤ℤ datetime u
  pub hex_of : ObjectId → String
  pub next_of : String → Time → Result Time

abbrev has_key : List String → Bool
has_key [] = false
has_key (k ∷ []) = str_eq k "idempotencyKey"
has_key (k ∷ l ∷ ks) = false

-- Whether a unique index on the idempotency key alone is among the indexes.
abbrev pub declares_key : List IndexModel → Bool
declares_key [] = false
declares_key (ix ∷ ixs) = (ix.unique && has_key ix.keys) || declares_key ixs

-- No document that passes precedes `j`.
abbrev pub IsFirst : (Job → Bool) → (Job → Job → Bool) → Job → List Job → Type 0
IsFirst p before j xs = All (λ k. p k ≡ true → before k j ≡ false) xs

-- No job precedes one before it in the list.
abbrev pub SortedBy : (Job → Job → Bool) → List Job → Type 0
SortedBy before [] = Unit
SortedBy before (j ∷ js) = All (λ k. before k j ≡ false) js × SortedBy before js

-- As many jobs as the limit allows.
abbrev pub IsFull : ℤ → List Job → Type 0
IsFull limit js = (n : ℕ) × (limit ≡ pos (suc n)) × (length js ≡ suc n)

module _ (x : Codec) where
  -- A document as it is read back.
  abbrev pub stored : Job → Job
  stored j = record j {
    scheduled_at = x.datetime j.scheduled_at;
    claimed_at = Option.map x.datetime j.claimed_at;
    created_at = x.datetime j.created_at;
    updated_at = x.datetime j.updated_at;
  }

  -- The insertion of a document under a new id.
  pub record Inserts (j : Job) (i : ObjectId) (s s' : View) : Type 0 where
    pub fresh_id : FreshId i s.docs
    pub fresh_key : s.key_index ≡ true → FreshKey j.idempotency_key s.docs
    pub after : s' ≡ record s { docs = stored (record j { id = i }) ∷ s.docs }

  -- One document that passes is changed.
  pub record Changes (p : Job → Bool) (f : Job → Job) (j : Job) (s s' : View) : Type 0 where
    pub new_docs : List Job
    pub touched : Touched p (λ k. stored (f k)) j s.docs new_docs
    pub after : s' ≡ record s { docs = new_docs }

  -- Any of the documents that pass are changed.
  pub record ChangesSome (p : Job → Bool) (f : Job → Job) (s s' : View) : Type 0 where
    pub new_docs : List Job
    pub part : Partly p (λ k. stored (f k)) s.docs new_docs
    pub after : s' ≡ record s { docs = new_docs }

  -- A command that fails has done nothing, or has done its work and lost the answer.
  abbrev pub Effect : (c : Cmd) → Reply c → View → View → Type 0
  Effect (create_indexes ixs) (ok _) s s' =
      (s' ≡ record s { key_index = declares_key ixs || s.key_index })
      × (declares_key ixs ≡ true → UniqueKeys s.docs)
  Effect (create_indexes ixs) (err e) s s' =
      (s' ≡ s)
      ⊎ ((s' ≡ record s { key_index = declares_key ixs || s.key_index })
          × (declares_key ixs ≡ true → UniqueKeys s.docs))
  Effect (insert_one j) (ok i) s s' = Inserts j i s s'
  Effect (insert_one j) (err e) s s' =
      ((is_duplicate_key e ≡ true → (s' ≡ s) × (FreshKey j.idempotency_key s.docs → ⊥))
        × (is_duplicate_idempotency_key e ≡ false))
      × ((s' ≡ s) ⊎ ((i : ObjectId) × Inserts j i s s'))
  Effect (find_one p) (ok j) s s' = Memᴰ j s.docs × (p j ≡ true) × (s' ≡ s)
  Effect (find_one p) (err e) s s' =
      ((is_no_documents e ≡ true → NoneOf p s.docs) × (is_not_found e ≡ false)) × (s' ≡ s)
  Effect (find p limit before) (ok js) s s' =
      All (λ j. Memᴰ j s.docs × (p j ≡ true)) js
      × ((n : ℕ) → limit ≡ pos (suc n) → length js ≤ suc n)
      × SortedBy before js
      × ((k : Job)
          → Memᴰ k s.docs
          → p k ≡ true
          → Memᴰ k js ⊎ (IsFull limit js × All (λ j. before k j ≡ false) js))
      × (s' ≡ s)
  Effect (find p limit before) (err e) s s' = s' ≡ s
  Effect (find_one_and_update p f before) (ok r) s s' =
      (j : Job) × Changes p f j s s' × IsFirst p before j s.docs × (r ≡ stored (f j))
  Effect (find_one_and_update p f before) (err e) s s' =
      (is_no_documents e ≡ true → NoneOf p s.docs × (s' ≡ s))
      × ((s' ≡ s) ⊎ ((j : Job) × Changes p f j s s'))
  Effect (update_one p f) (ok n) s s' =
      ((n ≡ 0) × NoneOf p s.docs × (s' ≡ s)) ⊎ ((j : Job) × (n ≡ 1) × Changes p f j s s')
  Effect (update_one p f) (err e) s s' = (s' ≡ s) ⊎ ((j : Job) × Changes p f j s s')
  Effect (update_many p f) (ok n) s s' =
      (s' ≡ record s { docs = change_all p (λ k. stored (f k)) s.docs })
      × (((j : Job) → p j ≡ true → stored (f j) ≢ j) → n ≡ count_if p s.docs)
  Effect (update_many p f) (err e) s s' = ChangesSome p f s s'
  Effect (produce m) (ok _) s s' = s' ≡ record s { produced = m ∷ s.produced }
  Effect (produce m) (err e) s s' = (s' ≡ s) ⊎ (s' ≡ record s { produced = m ∷ s.produced })
  Effect poll_fetches r s s' =
      All (λ v. (m : Message) × Memᴰ m s.produced × (m.value ≡ v)) r.records × (s' ≡ s)
  Effect commit_offsets r s s' = s' ≡ s
  Effect time_now r s s' = s' ≡ s
  Effect context_done r s s' = s' ≡ s
  Effect next_tick r s s' = s' ≡ s
  Effect (sleep d) r s s' = s' ≡ s
  Effect rand_float64 r s s' = s' ≡ s
  Effect (cron_next expr after) r s s' = (r ≡ x.next_of expr after) × (s' ≡ s)
  Effect (hex i) r s s' = (r ≡ x.hex_of i) × (s' ≡ s)
  Effect (from_hex t) r s s' = ((i : ObjectId) → t ≡ x.hex_of i → r ≡ ok i) × (s' ≡ s)
  Effect (go_dispatch j) r s s' = s' ≡ record s { dispatched = j ∷ s.dispatched }
  Effect (rand_intn n) r s s' = ((r < n) ⊎ (n ≡ 0)) × (s' ≡ s)
  Effect (mongo_connect uri) r s s' = s' ≡ s
  Effect mongo_ping r s s' = s' ≡ s
  Effect (kafka_client brokers group) r s s' = s' ≡ s
  Effect (etcd_client endpoints) r s s' = s' ≡ s
  Effect (new_session ttl) r s s' = s' ≡ s
  Effect (campaign node_id) r s s' = s' ≡ s
  Effect resign r s s' = s' ≡ s
  Effect close_session r s s' = s' ≡ s
  Effect close_etcd r s s' = s' ≡ s
  Effect close_kafka r s s' = s' ≡ s
  Effect (time_sleep d) r s s' = s' ≡ s
  Effect mongo_disconnect r s s' = s' ≡ s
  Effect ticker_wait r s s' = s' ≡ s
  Effect (http_post url body) r s s' = s' ≡ s
  Effect (http_get url) r s s' = s' ≡ s
  Effect (count m) r s s' = s' ≡ record s { counted = m ∷ s.counted }

  pub Effect-from :
      (c : Cmd) (r : Reply c) {s t : View} (u : View) → t ≡ s → Effect c r t u → Effect c r s u
  Effect-from c r u e h = subst (λ v. Effect c r v u) e h

  -- Whatever the world answers within `Effect`, the program ends in `post`.
  abbrev pub Ensures : {A : Type 0} → Prog A → View → (A → View → Type 0) → Type 0
  Ensures (ret a) s post = post a s
  Ensures (call c k) s post = (r : Reply c) (s' : View) → Effect c r s s' → Ensures (k r) s' post

  pub Ensures-bind :
      {A B : Type 0} (m : Prog A) (f : A → Prog B) (s : View) (post : B → View → Type 0)
      → Ensures m s (λ a s'. Ensures (f a) s' post)
      → Ensures (m >>= f) s post
  Ensures-bind (ret a) f s post h = h
  Ensures-bind (call c k) f s post h = λ r s' e. Ensures-bind (k r) f s' post (h r s' e)

  pub Ensures-imp :
      {A : Type 0} (m : Prog A) (s : View) (post post' : A → View → Type 0)
      → ((a : A) (s' : View) → post a s' → post' a s')
      → Ensures m s post
      → Ensures m s post'
  Ensures-imp (ret a) s post post' f h = f a s h
  Ensures-imp (call c k) s post post' f h = λ r s' e. Ensures-imp (k r) s' post post' f (h r s' e)

-- A world: its states, what can be seen of a state, and how it answers a command.
pub record World : Type 1 where
  pub codec : Codec
  pub State : Type 0
  pub view : State → View
  pub exec : (c : Cmd) → State → Reply c × State
  pub lawful : (c : Cmd) (w : State) → Effect codec c (exec c w).0 (view w) (view (exec c w).1)

module _ (w : World) where
  open w use {codec, State, view, exec, lawful}

  -- A run with no other process in between.
  unfoldable pub run : {A : Type 0} → Prog A → State → A × State
  run (ret a) s = (a, s)
  run (call c k) s = let (r, s') = exec c s in run (k r) s'

  -- What a program ensures holds after each of its runs.
  pub run-Ensures :
      {A : Type 0} (m : Prog A) (s : State) (post : A → View → Type 0)
      → Ensures codec m (view s) post
      → post (run m s).0 (view (run m s).1)
  unfolding run
  run-Ensures (ret a) s post h = h
  run-Ensures (call c k) s post h =
      let (r, s') = exec c s in run-Ensures (k r) s' post (h r (view s') (lawful c s))

  -- The same of a program from its first command on, whose answer is known.
  pub run-Ensures_first :
      {A : Type 0} (c : Cmd) (k : Reply c → Prog A) (s : State) (post : A → View → Type 0)
      → ((t : View)
          → Effect codec c (exec c s).0 (view s) t
          → Ensures codec (k (exec c s).0) t post)
      → post (run (call c k) s).0 (view (run (call c k) s).1)
  unfolding run
  run-Ensures_first c k s post h =
      let (r, s') = exec c s in run-Ensures (k r) s' post (h (view s') (lawful c s))

  pub run-bind :
      {A B : Type 0} (m : Prog A) (f : A → Prog B) (s : State)
      → run (m >>= f) s ≡ (let (a, s') = run m s in run (f a) s')
  unfolding run
  run-bind (ret a) f s = refl
  run-bind (call c k) f s = let (r, s') = exec c s in run-bind (k r) f s'

  -- What follows a part that answered `a`.
  pub run-bind_answer :
      {A B : Type 0} (m : Prog A) (f : A → Prog B) (s : State) (a : A)
      → (run m s).0 ≡ a
      → run (m >>= f) s ≡ run (f a) (run m s).1
  run-bind_answer m f s a h = run-bind m f s ∙ ap (λ b. run (f b) (run m s).1) h
