-- ===== src/System/Handlers.antt =====
-- Commands that touch no document, published messages and the handlers of jobs keep the invariant.
use high_scale_job_scheduler.Prelude.{
  arith, ◌≡◌, refl, inl, inr, Bool, true, false, some, String, List, ◌∷◌, All,
}
use high_scale_job_scheduler.Errors.{ok, err}
use high_scale_job_scheduler.Models.{Job, ObjectId, Payload}
use high_scale_job_scheduler.Topics.{DispatchMessage, dispatch_topic, dlq_topic}
use high_scale_job_scheduler.Effects.{
  Prog, Message, Metric, ret, ask, ◌>>=◌, count, produce, go_dispatch,
}
use high_scale_job_scheduler.Effects.World.{View, Codec}
use high_scale_job_scheduler.Dispatch.{publish_dispatch, publish_dlq}
use high_scale_job_scheduler.Executor.{Handler, new_registry}
use high_scale_job_scheduler.Executor.Registered.{
  register_all-All, log_message_handler-calls_nothing,
}
use high_scale_job_scheduler.Executor.Handlers.{
  register_all, noop_handler, flaky_handler, slow_handler,
}
use high_scale_job_scheduler.Store.{error_of}
use high_scale_job_scheduler.System.Keeps.{Keeps-bind}
use high_scale_job_scheduler.System.Integrity.{
  Base, IsFree, NamesFree, IsRun, Inv, IsRouted, same-Inv,
}
use high_scale_job_scheduler.System.Repository.{Safe, Any, IsFreeRun}

module _ (x : Codec) (base : Base) where
  -- Commands that touch no document.
  counted-Inv :
      (m : Metric) (s s' : View)
      → Inv x base s
      → s' ≡ record s { counted = m ∷ s.counted }
      → Inv x base s'
  counted-Inv m s s' i e = rw e (record {
    unique_ids = i.unique_ids;
    unique_keys = i.unique_keys;
    valid = i.valid;
    runs_dispatched = i.runs_dispatched;
    routed = i.routed;
    kept = i.kept;
    idle = i.idle;
    dispatched_free = i.dispatched_free;
    produced_free = i.produced_free;
  })

  produced-Inv :
      (m : Message) (s s' : View)
      → IsRouted x m
      → NamesFree x base m
      → Inv x base s
      → s' ≡ record s { produced = m ∷ s.produced }
      → Inv x base s'
  produced-Inv m s s' routed free i e = rw e (record {
    unique_ids = i.unique_ids;
    unique_keys = i.unique_keys;
    valid = i.valid;
    runs_dispatched = i.runs_dispatched;
    routed = (routed, i.routed);
    kept = i.kept;
    idle = i.idle;
    dispatched_free = i.dispatched_free;
    produced_free = (free, i.produced_free);
  })

  dispatched-Inv :
      (j : Job) (s s' : View)
      → IsRun j
      → IsFree base j.id
      → Inv x base s
      → s' ≡ record s { dispatched = j ∷ s.dispatched }
      → Inv x base s'
  dispatched-Inv j s s' is_run free i e = rw e (record {
    unique_ids = i.unique_ids;
    unique_keys = i.unique_keys;
    valid = i.valid;
    runs_dispatched = (is_run, i.runs_dispatched);
    routed = i.routed;
    kept = i.kept;
    idle = i.idle;
    dispatched_free = (free, i.dispatched_free);
    produced_free = i.produced_free;
  })

  pub count-Safe :
      {A : Type 0} (m : Metric) (next : Prog A) (Q : A → Type 0)
      → Safe x base next Q
      → Safe x base (ask (count m) >>= λ _. next) Q
  count-Safe m next Q h = λ r s s' i e. (counted-Inv m s s' i e, h)

  pub go_dispatch-Safe :
      {A : Type 0} (j : Job) (next : Prog A) (Q : A → Type 0)
      → IsFreeRun base j
      → Safe x base next Q
      → Safe x base (ask (go_dispatch j) >>= λ _. next) Q
  go_dispatch-Safe j next Q run h = λ r s s' i e. (dispatched-Inv j s s' run.is_run run.free i e, h)

  produce-Safe :
      (m : Message) → IsRouted x m → NamesFree x base m → Safe x base (ask (produce m)) (Any x base)
  produce-Safe m routed free = elim [
    | ok _ ↦ λ s s' i e. (produced-Inv m s s' routed free i e, tt)
    | err _ ↦ λ s s' i. elim [
      | inl same ↦ (same-Inv x base s s' i same, tt)
      | inr e ↦ (produced-Inv m s s' routed free i e, tt)
    ]
  ]

  -- A test whose two outcomes are both safe.
  pub test-Safe :
      {A : Type 0} (b : Bool) (m n : Prog A) (Q : A → Type 0)
      → Safe x base m Q
      → Safe x base n Q
      → Safe x base (elim b [ true ↦ m | false ↦ n ]) Q
  test-Safe true m n Q h k = h
  test-Safe false m n Q h k = k

  -- A program whose result is not read.
  pub then-Safe :
      {A B : Type 0} (m : Prog A) (next : Prog B) (Q : B → Type 0)
      → Safe x base m (Any x base)
      → Safe x base next Q
      → Safe x base (m >>= λ _. next) Q
  then-Safe m next Q h k = Keeps-bind x (Inv x base) m (λ _. next) (Any x base) Q h (λ _ _. k)

  names_free :
      (msg : DispatchMessage) (i : ObjectId)
      → msg.job_id ≡ x.hex_of i
      → IsFree base i
      → (topic : String)
      → NamesFree x base (record { topic = topic; key = msg.job_id; value = some msg })
  names_free msg i e free topic = record {
    named = i;
    names = λ body h. ground (arith, h, e);
    free = free;
  }

  -- A message that names a job, which is no template, is safe to publish.
  pub publish_dispatch-Safe :
      (msg : DispatchMessage) (i : ObjectId)
      → msg.job_id ≡ x.hex_of i
      → IsFree base i
      → Safe x base (publish_dispatch msg) (Any x base)
  unfolding publish_dispatch
  publish_dispatch-Safe msg i e free =
      Keeps-bind x (Inv x base)
        (ask (
          produce
            (record { topic = dispatch_topic msg.job_type; key = msg.job_id; value = some msg })))
        (λ r. ret (error_of r)) (Any x base) (Any x base)
        (produce-Safe
          (record { topic = dispatch_topic msg.job_type; key = msg.job_id; value = some msg })
          (record { body = msg; value = refl; topic = inl refl; key = refl; job = (i, e) })
          (names_free msg i e free (dispatch_topic msg.job_type)))
        (λ _ _. tt)

  pub publish_dlq-Safe :
      (msg : DispatchMessage) (i : ObjectId)
      → msg.job_id ≡ x.hex_of i
      → IsFree base i
      → Safe x base (publish_dlq msg) (Any x base)
  unfolding publish_dlq
  publish_dlq-Safe msg i e free =
      Keeps-bind x (Inv x base)
        (ask (produce (record { topic = dlq_topic; key = msg.job_id; value = some msg })))
        (λ r. ret (error_of r)) (Any x base) (Any x base)
        (produce-Safe (record { topic = dlq_topic; key = msg.job_id; value = some msg })
          (record { body = msg; value = refl; topic = inr refl; key = refl; job = (i, e) })
          (names_free msg i e free dlq_topic))
        (λ _ _. tt)

  -- Handlers.
  abbrev pub IsSafe : Handler → Type 0
  IsSafe h = (payload : Payload) → Safe x base (h payload) (Any x base)

  abbrev pub AllSafe : List (String × Handler) → Type 0
  AllSafe hs = All (λ (entry : String × Handler). IsSafe entry.1) hs

  pub register_all-AllSafe : AllSafe (register_all new_registry).handlers
  unfolding noop_handler flaky_handler slow_handler
  register_all-AllSafe =
      register_all-All IsSafe (λ payload. tt)
        (log_message_handler-calls_nothing (λ m. Safe x base m (Any x base)) (λ e. tt))
        (λ payload r s s' i e. (same-Inv x base s s' i e, tt))
        (λ payload r s s' i e. (same-Inv x base s s' i e, tt))
