-- ===== src/Worker/Arrival.antt =====
-- A dispatch message that arrives where the database answers: its job is completed.
use high_scale_job_scheduler.Prelude.{
  ◌≡◌, refl, String, ◌∷◌, ◌∙◌, subst, ap, none, some, arith, Bool, true, ==_iff,
}
use mathlib.Core.List.{Memᴰ}
use high_scale_job_scheduler.Errors.{ok}
use high_scale_job_scheduler.Models.{Job, ObjectId, queued}
use high_scale_job_scheduler.Topics.{DispatchMessage, dispatch_topic}
use high_scale_job_scheduler.Dispatch.{publish_dispatch}
use high_scale_job_scheduler.Scheduler.{dispatch_fn}
use high_scale_job_scheduler.Effects.{
  ret, ask, ◌>>=◌, from_hex, find_one, hex, produce, count, dispatch_errors, Message,
}
use high_scale_job_scheduler.Effects.Docs.{UniqueIds, doc, doc-Memᴰ, Memᴰ-doc, doc-id}
use high_scale_job_scheduler.Effects.World.{View, World, Effect, run, run-bind_answer}
use high_scale_job_scheduler.Store.{get_by_id, has_id}
use high_scale_job_scheduler.Executor.{Runner, Handler, execute, get}
use high_scale_job_scheduler.Executor.Completion.{Answers, Completes, execute-Completes}
use high_scale_job_scheduler.Worker.{handle_message, after_parse, after_get}

-- A world that finds a document whenever one passes the filter.
abbrev pub Finds : World → Type 0
Finds w =
    (p : Job → Bool) (s : w.State) (j : Job)
    → Memᴰ j (w.view s).docs
    → p j ≡ true
    → (k : Job) × ((w.exec (find_one p) s).0 ≡ ok k)

module _ (w : World) (finds : Finds w) where
  -- What is read under an id is the document with that id.
  get_by_id-found :
      (s : w.State) (i : ObjectId) (j : Job)
      → UniqueIds (w.view s).docs
      → doc i (w.view s).docs ≡ some j
      → ((run w (get_by_id i) s).0 ≡ ok j) × (w.view (run w (get_by_id i) s).1 ≡ w.view s)
  unfolding run get_by_id
  get_by_id-found s i j u found =
      let m : Memᴰ j (w.view s).docs = Memᴰ-doc i j (w.view s).docs found in
      let (k, e) = finds (has_id i) s j m ((==_iff j.id i).1 (doc-id i j (w.view s).docs found)) in
      let s' = (w.exec (find_one (has_id i)) s).1 in
      let (mem, passes, same) : Effect w.codec (find_one (has_id i)) (ok k) (w.view s) (w.view s') =
        subst (λ r. Effect w.codec (find_one (has_id i)) r (w.view s) (w.view s')) e
          (w.lawful (find_one (has_id i)) s) in
      let at : doc i (w.view s).docs ≡ some k =
        subst (λ n. doc n (w.view s).docs ≡ some k) ((==_iff k.id i).0 passes) (doc-Memᴰ mem u) in
      let same_job : k ≡ j = ground (arith, at, found) in (rw e (ap ok same_job), same)

  run-handle_message :
      (s : w.State) (rn : Runner) (msg : DispatchMessage) (j : Job)
      → UniqueIds (w.view s).docs
      → doc j.id (w.view s).docs ≡ some j
      → msg.job_id ≡ w.codec.hex_of j.id
      → let s1 = (w.exec (from_hex msg.job_id) s).1 in
        run w (handle_message rn msg) s
        ≡ run w (execute rn j >>= λ _. ret none) (run w (get_by_id j.id) s1).1
  unfolding handle_message run
  run-handle_message s rn msg j u found e =
      let (reads, same) = w.lawful (from_hex msg.job_id) s in
      let s1 = (w.exec (from_hex msg.job_id) s).1 in
      run-bind_answer w (ask (from_hex msg.job_id)) (after_parse rn) s (ok j.id) (reads j.id e)
      ∙ run-bind_answer w (get_by_id j.id) (after_get rn) s1 (ok j)
          (get_by_id-found s1 j.id j (rw same u) (rw same found)).0

-- In a world that finds documents and answers updates, and a collection with unique ids that holds
-- the job queued: the handler of a message that names the job by the text of its id, with a handler
-- that is registered for the job type and succeeds on the payload, answers no error and leaves the
-- job completed, with its work and its attempts, and every other document as it was.
pub handle_message-Completes :
    (w : World) (answers : Answers w) (finds : Finds w) (s : w.State) (rn : Runner)
    (msg : DispatchMessage) (j : Job) (h : Handler)
    → UniqueIds (w.view s).docs
    → doc j.id (w.view s).docs ≡ some j
    → j.status ≡ queued
    → msg.job_id ≡ w.codec.hex_of j.id
    → get rn.registry j.job_type ≡ ok h
    → h j.payload ≡ ret none
    → ((run w (handle_message rn msg) s).0 ≡ none)
      × Completes j.id j (w.view s) (w.view (run w (handle_message rn msg) s).1)
unfolding run
handle_message-Completes w answers finds s rn msg j h u found q e registered succeeds =
    let s1 = (w.exec (from_hex msg.job_id) s).1 in
    let s2 = (run w (get_by_id j.id) s1).1 in
    let (_, same) = w.lawful (from_hex msg.job_id) s in
    let read = (get_by_id-found w finds s1 j.id j (rw same u) (rw same found)).1 ∙ same in
    let whole : run w (handle_message rn msg) s ≡ (none, (run w (execute rn j) s2).1) =
      run-handle_message w finds s rn msg j u found e
      ∙ run-bind_answer w (execute rn j) (λ _. ret none) s2 tt refl in
    let done : Completes j.id j (w.view s2) (w.view (run w (execute rn j) s2).1) =
      execute-Completes w answers s2 rn j j h (rw read u) (rw read found) q registered succeeds in
    rw whole (refl, subst (λ v. Completes j.id j v (w.view (run w (execute rn j) s2).1)) read done)

-- A world that takes every message.
abbrev pub Publishes : World → Type 0
Publishes w = (m : Message) (s : w.State) → (w.exec (produce m) s).0 ≡ ok tt

abbrev pub sent_message : DispatchMessage → Message
sent_message msg = record {
  topic = dispatch_topic msg.job_type;
  key = msg.job_id;
  value = some msg;
}

-- The message that the goroutine of a job sends.
abbrev message_of : String → Job → DispatchMessage
message_of id job = record { job_id = id; job_type = job.job_type; priority = job.priority }

module _ (w : World) (publishes : Publishes w) where
  publish_dispatch-sent :
      (s : w.State) (msg : DispatchMessage)
      → ((run w (publish_dispatch msg) s).0 ≡ none)
        × (w.view (run w (publish_dispatch msg) s).1
            ≡ record (w.view s) { produced = sent_message msg ∷ (w.view s).produced })
  unfolding run publish_dispatch
  publish_dispatch-sent s msg =
      let m = sent_message msg in
      let s' = (w.exec (produce m) s).1 in
      (
        rw (publishes m s) refl,
        subst (λ r. Effect w.codec (produce m) r (w.view s) (w.view s')) (publishes m s)
            (w.lawful (produce m) s),
      )

  run-dispatch_fn :
      (s : w.State) (job : Job)
      → let (id, s1) = w.exec (hex job.id) s in
        run w (dispatch_fn job) s ≡ (tt, (run w (publish_dispatch (message_of id job)) s1).1)
  unfolding run dispatch_fn
  run-dispatch_fn s job =
      let (id, s1) = w.exec (hex job.id) s in
      run-bind_answer w (publish_dispatch (message_of id job))
        (elim [ none ↦ ret tt | some _ ↦ ask (count dispatch_errors) >>= λ _. ret tt ]) s1 none
        (publish_dispatch-sent s1 (message_of id job)).0

-- The documents before are what counts.
Completes-from :
    {i : ObjectId} {j : Job} {s t u : View}
    → t.docs ≡ s.docs
    → Completes i j t u
    → Completes i j s u
Completes-from e c = record {
  after = c.after;
  at = c.at;
  is_completed = c.is_completed;
  same_attempts = c.same_attempts;
  same_work = c.same_work;
  frame = λ k n. c.frame k n ∙ ap (doc k) e;
}

-- From the scheduler to the executor, in a world that takes every message, finds documents and
-- answers updates: the goroutine of a queued job of a collection with unique ids sends one message, on
-- the topic of the job type; and the handler of that message, with a handler that is registered for
-- the job type and succeeds on the payload, answers no error and leaves the job completed, with its
-- work and its attempts, and every other document as it was.
pub dispatch_fn-Completes :
    (w : World) (publishes : Publishes w) (answers : Answers w) (finds : Finds w) (s : w.State)
    (rn : Runner) (j : Job) (h : Handler)
    → UniqueIds (w.view s).docs
    → doc j.id (w.view s).docs ≡ some j
    → j.status ≡ queued
    → get rn.registry j.job_type ≡ ok h
    → h j.payload ≡ ret none
    → let s' = (run w (dispatch_fn j) s).1 in
      (msg : DispatchMessage) × (msg.job_type ≡ j.job_type)
      × ((w.view s').produced ≡ sent_message msg ∷ (w.view s).produced)
      × ((run w (handle_message rn msg) s').0 ≡ none)
      × Completes j.id j (w.view s) (w.view (run w (handle_message rn msg) s').1)
dispatch_fn-Completes w publishes answers finds s rn j h u found q registered succeeds =
    let (id, s1) = w.exec (hex j.id) s in
    let msg = message_of id j in
    let s2 = (run w (publish_dispatch msg) s1).1 in
    let (named, same) = w.lawful (hex j.id) s in
    let sent = (publish_dispatch-sent w publishes s1 msg).1 in
    let docs : (w.view s2).docs ≡ (w.view s).docs = ap (λ v. v.docs) sent ∙ ap (λ v. v.docs) same in
    let produced = ap (λ v. v.produced) sent ∙ ap (λ v. sent_message msg ∷ v.produced) same in
    let handled =
      handle_message-Completes w answers finds s2 rn msg j h (rw docs u) (rw docs found) q named
        registered succeeds in
    rw (run-dispatch_fn w publishes s j)
      (msg, refl, produced, handled.0, Completes-from docs handled.1)
