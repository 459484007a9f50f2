-- ===== src/System/Executors.antt =====
-- The executor keeps the invariant, over handlers that do.
use mathlib.Core.List.{Memᴰ}
use high_scale_job_scheduler.Prelude.{
  sym, ◌∙◌, subst, All, All-imp, ℕ, zero, suc, ◌≡◌, refl, Bool, true, false, Option, none, some,
  ◌&&◌, ◌-ℤ◌, List, [], ◌∷◌,
}
use high_scale_job_scheduler.Errors.{Error, Result, ok, err}
use high_scale_job_scheduler.Models.{Job, ObjectId, Time}
use high_scale_job_scheduler.Topics.{DispatchMessage}
use high_scale_job_scheduler.Effects.{
  Message, Prog, ret, executor_job_duration, jobs_processed_failure, jobs_processed_success,
}
use high_scale_job_scheduler.Effects.World.{View, Codec}
use high_scale_job_scheduler.Dispatch.{publish_dlq, each_record, consume}
use high_scale_job_scheduler.Executor.{
  Handler, Runner, get, exponential_backoff, is_exhausted, dead_letter_if, fail, finish,
  run_handler, execute, execute_from, observe_job, complete_job,
}
use high_scale_job_scheduler.Executor.Lookup.{get-All}
use high_scale_job_scheduler.Store.{
  mark_claimed, mark_running, mark_completed, mark_failed, get_by_id,
}
use high_scale_job_scheduler.Worker.{handle_message, work}
use high_scale_job_scheduler.System.Handlers.{
  IsSafe, AllSafe, count-Safe, test-Safe, then-Safe, publish_dlq-Safe,
}
use high_scale_job_scheduler.System.Keeps.{Keeps-bind}
use high_scale_job_scheduler.System.Integrity.{Base, IsFree, NamesFree, Inv, same-Inv}
use high_scale_job_scheduler.System.Repository.{
  Safe, Any, GotUnder, mark_claimed-Safe, mark_running-Safe, mark_completed-Safe, mark_failed-Safe,
  get_by_id-Safe,
}

ok_injective : (i j : ObjectId) → ok i ≡ ok j → i ≡ j
ok_injective i j e = cc

module _ (x : Codec) (base : Base) where
  -- The executor, over handlers that are safe.
  dead_letter_if-Safe :
      (b : Bool) (job : Job) → IsFree base job.id → Safe x base (dead_letter_if b job) (Any x base)
  dead_letter_if-Safe false job free = tt
  dead_letter_if-Safe true job free = λ id s s' i h.
      let msg : DispatchMessage = record {
        job_id = id;
        job_type = job.job_type;
        priority = job.priority;
      } in
      (
        same-Inv x base s s' i h.1,
        then-Safe x base (publish_dlq msg) (ret tt) (Any x base)
            (publish_dlq-Safe x base msg job.id h.0 free) tt,
      )

  fail-Safe :
      (rn : Runner) (job : Job) (cause : Error)
      → IsFree base job.id
      → Safe x base (fail rn job cause) (Any x base)
  unfolding fail
  fail-Safe rn job cause free =
      count-Safe x base (jobs_processed_failure job.job_type) _ (Any x base) (
        Keeps-bind x (Inv x base) (mark_failed job.id cause (exponential_backoff job.attempts)) _
          (Any x base) (Any x base)
          (mark_failed-Safe x base job.id cause (exponential_backoff job.attempts) free)
          (elim [
            | some e ↦ λ _. tt
            | none ↦ λ _. dead_letter_if-Safe (is_exhausted job && rn.has_producer) job free
          ]))

  observe_job-Safe : (job : Job) (start : Time) → Safe x base (observe_job job start) (Any x base)
  observe_job-Safe job start = λ now s s' i e. (
    same-Inv x base s s' i e,
    count-Safe x base (executor_job_duration job.job_type (now -ℤ start)) (ret tt) (Any x base) tt,
  )

  complete_job-Safe : (job : Job) → IsFree base job.id → Safe x base (complete_job job) (Any x base)
  complete_job-Safe job free =
      count-Safe x base (jobs_processed_success job.job_type) _ (Any x base) (
        then-Safe x base (mark_completed job.id) (ret tt) (Any x base)
          (mark_completed-Safe x base job.id free) tt)

  finish-Safe :
      (rn : Runner) (job : Job) (start : Time) (e : Option Error)
      → IsFree base job.id
      → Safe x base (finish rn job start e) (Any x base)
  finish-Safe rn job start (some cause) free = fail-Safe rn job cause free
  finish-Safe rn job start none free =
      then-Safe x base (observe_job job start) (complete_job job) (Any x base)
        (observe_job-Safe job start) (complete_job-Safe job free)

  run_handler-Safe :
      (rn : Runner) (job : Job) (start : Time) (h : Result Handler)
      → ((g : Handler) → h ≡ ok g → IsSafe x base g)
      → IsFree base job.id
      → Safe x base (run_handler rn job start h) (Any x base)
  run_handler-Safe rn job start (err cause) safe free = fail-Safe rn job cause free
  run_handler-Safe rn job start (ok g) safe free =
      Keeps-bind x (Inv x base) (g job.payload) (finish rn job start) (Any x base) (Any x base)
        (safe g refl job.payload) (λ e _. finish-Safe rn job start e free)

  pub execute-Safe :
      (rn : Runner) (job : Job)
      → AllSafe x base rn.registry.handlers
      → IsFree base job.id
      → Safe x base (execute rn job) (Any x base)
  unfolding execute
  execute-Safe rn job safe free = λ start s s' i e. (same-Inv x base s s' i e, from start)
    where
      from : (start : Time) → Safe x base (execute_from rn job start) (Any x base)
      from start =
          Keeps-bind x (Inv x base) (mark_claimed job.id rn.worker_id) _ (Any x base) (Any x base)
            (mark_claimed-Safe x base job.id rn.worker_id free)
            (elim [
              | some e ↦ λ _. tt
              | none ↦ λ _.
                  Keeps-bind x (Inv x base) (mark_running job.id) _ (Any x base) (Any x base)
                    (mark_running-Safe x base job.id free)
                    (elim [
                      | some e ↦ λ _. tt
                      | none ↦ λ _.
                          run_handler-Safe rn job start (get rn.registry job.job_type)
                            (λ g. get-All (IsSafe x base) rn.registry job.job_type g safe) free
                    ])
            ])

  -- A message that names a job, which is no template.
  record IsAddressed (msg : DispatchMessage) : Type 0 where
    named : ObjectId
    names : msg.job_id ≡ x.hex_of named
    free : IsFree base named

  abbrev RecordAddressed : Option DispatchMessage → Type 0
  RecordAddressed none = Unit
  RecordAddressed (some msg) = IsAddressed msg

  -- What is fetched was sent.
  fetched-Addressed :
      (s : View) (v : Option DispatchMessage)
      → Inv x base s
      → (m : Message) × Memᴰ m s.produced × (m.value ≡ v)
      → RecordAddressed v
  fetched-Addressed s none i h = tt
  fetched-Addressed s (some msg) i (m, mem, e) =
      let f : NamesFree x base m = members m s.produced mem i.produced_free in
      record { named = f.named; names = f.names msg e; free = f.free }
    where
      members :
          (m : Message) (ms : List Message)
          → Memᴰ m ms
          → All (NamesFree x base) ms
          → NamesFree x base m
      members m ms (Memᴰ.head e) a = rw e a.0
      members m ms (Memᴰ.tail mem) a = members m _ mem a.1

  each_record-Safe :
      (handler : DispatchMessage → Prog (Option Error)) (rs : List (Option DispatchMessage))
      → ((msg : DispatchMessage) → IsAddressed msg → Safe x base (handler msg) (Any x base))
      → All RecordAddressed rs
      → Safe x base (each_record handler rs) (Any x base)
  unfolding each_record
  each_record-Safe handler [] h a = tt
  each_record-Safe handler (none ∷ rs) h a = each_record-Safe handler rs h a.1
  each_record-Safe handler (some msg ∷ rs) h a =
      then-Safe x base (handler msg) (each_record handler rs) (Any x base) (h msg a.0)
        (each_record-Safe handler rs h a.1)

  consume-Safe :
      (n : ℕ) (handler : DispatchMessage → Prog (Option Error))
      → ((msg : DispatchMessage) → IsAddressed msg → Safe x base (handler msg) (Any x base))
      → Safe x base (consume n handler) (Any x base)
  unfolding consume
  consume-Safe zero handler h = tt
  consume-Safe (suc n) handler h = elim [
    | true ↦ λ s s' i e. (same-Inv x base s s' i e, λ _ t t' j e'. (same-Inv x base t t' j e', tt))
    | false ↦ λ s s' i e. (
      same-Inv x base s s' i e,
      λ fetches t t' j e'. (
        same-Inv x base t t' j e'.1,
        test-Safe x base fetches.client_closed _ _ (Any x base) tt (
            then-Safe x base (each_record handler fetches.records) _ (Any x base)
              (each_record-Safe handler fetches.records h
                (All-imp _ RecordAddressed fetches.records (λ v. fetched-Addressed t v j) e'.0))
              (elim [
                | ok _ ↦ λ u u' k e''. (same-Inv x base u u' k e'', consume-Safe n handler h)
                | err _ ↦ λ u u' k e''. (same-Inv x base u u' k e'', consume-Safe n handler h)
              ])),
      ),
    )
  ]

  handle_message-Safe :
      (rn : Runner) (msg : DispatchMessage)
      → AllSafe x base rn.registry.handlers
      → IsAddressed msg
      → Safe x base (handle_message rn msg) (Any x base)
  unfolding handle_message
  handle_message-Safe rn msg safe a = elim [
    | err e ↦ λ s s' i h. (same-Inv x base s s' i h.1, tt)
    | ok id ↦ λ s s' i h. (
      same-Inv x base s s' i h.1,
      Keeps-bind x (Inv x base) (get_by_id id) _ (GotUnder x base id) (Any x base)
          (get_by_id-Safe x base id)
          (elim [
            | err e ↦ λ _. tt
            | ok job ↦ λ got_id.
                then-Safe x base (execute rn job) (ret none) (Any x base)
                  (execute-Safe rn job safe (
                    subst (IsFree base)
                      (sym (got_id ∙ ok_injective id a.named (h.0 a.named a.names))) a.free))
                  tt
          ]),
    )
  ]

  pub work-Safe :
      (n : ℕ) (rn : Runner)
      → AllSafe x base rn.registry.handlers
      → Safe x base (work n rn) (Any x base)
  unfolding work
  work-Safe n rn safe = consume-Safe n (handle_message rn) (λ msg. handle_message-Safe rn msg safe)
