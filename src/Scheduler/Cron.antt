-- ===== src/Scheduler/Cron.antt =====
-- The firing of a recurring template: `handleCronJob`.
use high_scale_job_scheduler.Prelude.{
  ◌≡◌, ◌≢◌, refl, sym, ◌∙◌, subst, ap, ◌⊎◌, inl, inr, arith, Option, none, some, ◌∷◌,
}
use high_scale_job_scheduler.Errors.{Error, Result, ok, err, invalid_cron}
use high_scale_job_scheduler.Models.{Job, ObjectId, Time}
use high_scale_job_scheduler.Effects.Docs.{UniqueIds, FreshId, doc, doc-All, doc-id}
use high_scale_job_scheduler.Effects.World.{View, Codec, World, run, run-bind, stored}
use high_scale_job_scheduler.Store.{
  spawn_cron_instance, reschedule_cron_template, mark_cron_invalid,
}
use high_scale_job_scheduler.Store.Insertion.{
  AddsRun, RunOf, SpawnOutcome, spawn_cron_instance-SpawnOutcome,
}
use high_scale_job_scheduler.Store.Moves.{Moves, MoveOutcome, Rescheduled, Invalidated}
use high_scale_job_scheduler.Store.Transitions.{
  reschedule_cron_template-Moves, mark_cron_invalid-Moves,
}
use high_scale_job_scheduler.Effects.{
  ret, ask, ◌>>=◌, count, time_now, cron_next, go_dispatch, cron_instances_spawned, cron_invalid,
}
use high_scale_job_scheduler.Scheduler.{
  handle_cron_job, after_spawn, after_next, occurrence, next_occurrence,
}

module _ (x : Codec) (template t : Job) where
  -- The template, `t` in the first view, is changed by `R` if the update answers no error; if it answers
  -- one, the template may also be as it was.
  abbrev pub Becomes : (Job → Job → Type 0) → Option Error → View → Type 0
  Becomes R updated s' =
      (t' : Job) × (doc template.id s'.docs ≡ some t')
      × (((updated ≡ none) × R t t')
          ⊎ ((cause : Error) × (updated ≡ some cause) × ((t' ≡ t) ⊎ R t t')))

  -- One run was added, under an id of its own.
  pub record AddsOne (now : Time) (j : Job) (s s' : View) : Type 0 where
    pub run_of : RunOf template now j
    pub fresh : FreshId j.id s.docs
    pub added : doc j.id s'.docs ≡ some (stored x j)
    pub frame : (k : ObjectId) → k ≢ j.id → k ≢ template.id → doc k s'.docs ≡ doc k s.docs

  -- By the answers of the insertion and of the update of the template, and the time that the next
  -- occurrence is asked after: the insertion answered an error and nothing is dispatched; or the run was
  -- added and dispatched, and the template is rescheduled; or the expression has no next occurrence, the
  -- run was added but not dispatched, and the template is dead-lettered.
  pub data CronOutcome (spawned : Result Job) (after : Time) (updated : Option Error) (s s' : View)
      : Type 0 where
    not_spawned :
        (e : Error)
        → spawned ≡ err e
        → s'.dispatched ≡ s.dispatched
        → doc template.id s'.docs ≡ some t
        → (s'.docs ≡ s.docs) ⊎ ((now : Time) × (j : Job) × AddsOne now j s s')
        → CronOutcome spawned after updated s s'
    fired :
        (now next : Time) (j : Job)
        → spawned ≡ ok j
        → x.next_of template.cron after ≡ ok next
        → AddsOne now j s s'
        → s'.dispatched ≡ j ∷ s.dispatched
        → Becomes (Rescheduled x next) updated s'
        → CronOutcome spawned after updated s s'
    invalid :
        (now : Time) (cause : Error) (j : Job)
        → spawned ≡ ok j
        → x.next_of template.cron after ≡ err cause
        → AddsOne now j s s'
        → s'.dispatched ≡ s.dispatched
        → Becomes (Invalidated x (invalid_cron template.cron cause)) updated s'
        → CronOutcome spawned after updated s s'

  module _ (s : View) (u : UniqueIds s.docs) (found : doc template.id s.docs ≡ some t) where
    -- The state after the insertion.
    record Inserted (j : Job) (s1 : View) : Type 0 where
      now : Time
      one : AddsOne now j s s1
      unique : UniqueIds s1.docs
      still : doc template.id s1.docs ≡ some t
      other : j.id ≢ template.id
      same_dispatched : s1.dispatched ≡ s.dispatched

    other_id : (j : Job) → FreshId j.id s.docs → j.id ≢ template.id
    other_id j f e =
        doc-All (λ k. k.id ≢ j.id) template.id t s.docs f found
          (doc-id template.id t s.docs found ∙ sym e)

    inserted : (j : Job) (s1 : View) → AddsRun x template j s s1 → Inserted j s1
    inserted j s1 (now, r, a) =
        let o = other_id j a.fresh_id in
        record {
          now = now;
          one = record {
            run_of = r;
            fresh = a.fresh_id;
            added = rw a.after (ground arith);
            frame = λ k n _. rw a.after (ground (arith, n));
          };
          unique = rw a.after (a.fresh_id, u);
          still = rw a.after (ground (arith, o, found));
          other = o;
          same_dispatched = ground (arith, a.after);
        }

    -- What an update leaves.
    abbrev Left : Job → (Job → Job → Type 0) → Option Error → View → Type 0
    Left j R e s2 =
        (now : Time) × AddsOne now j s s2 × Becomes R e s2 × (s2.dispatched ≡ s.dispatched)

    moves :
        (j : Job) (R : Job → Job → Type 0) (e : Option Error) (s1 s2 : View)
        → Inserted j s1
        → (m : Moves template.id R s1 s2)
        → (R t m.after
            → ((e ≡ none) × R t m.after)
              ⊎ ((cause : Error) × (e ≡ some cause) × ((m.after ≡ t) ⊎ R t m.after)))
        → Left j R e s2
    moves j R e s1 s2 i m answered = (
      i.now,
      record {
        run_of = i.one.run_of;
        fresh = i.one.fresh;
        added = m.puts.frame j.id i.other ∙ i.one.added;
        frame = λ k n o. m.puts.frame k o ∙ i.one.frame k n o;
      },
      (
        m.after,
        m.puts.at,
        answered (subst (λ b. R b m.after) (ground (arith, m.found, i.still)) m.related),
      ),
      ap (λ (v : View). v.dispatched) m.puts.elsewhere ∙ i.same_dispatched,
    )

    moved :
        (j : Job) (R : Job → Job → Type 0) (e : Option Error) (s1 s2 : View)
        → Inserted j s1
        → MoveOutcome template.id R s1 e s2
        → Left j R e s2
    moved j R none s1 s2 i (inl m) = moves j R none s1 s2 i m (λ r. inl (refl, r))
    moved j R none s1 s2 i (inr (missing, same)) = absurd (ground (arith, missing, i.still))
    moved j R (some e) s1 s2 i (inl m) = moves j R (some e) s1 s2 i m (λ r. inr (e, refl, inr r))
    moved j R (some e) s1 s2 i (inr same) =
        rw same (i.now, i.one, (t, i.still, inr (e, refl, inl refl)), i.same_dispatched)

    spawn_failed :
        (e : Error) (spawned : Result Job) (after : Time) (updated : Option Error) (s1 : View)
        → spawned ≡ err e
        → (s1 ≡ s) ⊎ ((j : Job) × AddsRun x template j s s1)
        → CronOutcome spawned after updated s s1
    spawn_failed e spawned after updated s1 q (inl same) =
        rw same (not_spawned e q refl found (inl refl))
    spawn_failed e spawned after updated s1 q (inr (j, a)) =
        let i = inserted j s1 a in not_spawned e q i.same_dispatched i.still (inr (i.now, j, i.one))

    same_moved :
        (j : Job) (s1 s2 : View)
        → s2 ≡ record s1 { counted = s2.counted }
        → Inserted j s1
        → Inserted j s2
    same_moved j s1 s2 e i = rw e (record {
      now = i.now;
      one = record {
        run_of = i.one.run_of;
        fresh = i.one.fresh;
        added = i.one.added;
        frame = i.one.frame;
      };
      unique = i.unique;
      still = i.still;
      other = i.other;
      same_dispatched = i.same_dispatched;
    })

    rescheduled :
        (spawned : Result Job) (j : Job) (after next : Time) (e : Option Error) (s1 s2 s3 : View)
        → spawned ≡ ok j
        → x.next_of template.cron after ≡ ok next
        → Inserted j s1
        → MoveOutcome template.id (Rescheduled x next) s1 e s2
        → s3 ≡ record s2 { dispatched = j ∷ s2.dispatched }
        → CronOutcome spawned after e s s3
    rescheduled spawned j after next e s1 s2 s3 q n i m h =
        let (now, one, b, d) = moved j (Rescheduled x next) e s1 s2 i m in
        rw h (
          fired now next j q n
            (record {
              run_of = one.run_of;
              fresh = one.fresh;
              added = one.added;
              frame = one.frame;
            })
            (ap (λ js. j ∷ js) d) b)

module _ (w : World) (template : Job) (s : w.State) where
  -- The answer of the insertion, and the states from there to the update of the template.
  abbrev pub spawn_answer : Result Job
  spawn_answer = (run w (spawn_cron_instance template) s).0

  abbrev after_count : w.State
  after_count = (w.exec (count cron_instances_spawned) (run w (spawn_cron_instance template) s).1).1

  abbrev pub fire_time : Time
  fire_time = (w.exec time_now after_count).0

  abbrev after_parse : w.State
  after_parse = (w.exec (cron_next template.cron fire_time) (w.exec time_now after_count).1).1

  abbrev after_invalid : w.State
  after_invalid = (w.exec (count cron_invalid) after_parse).1

  -- The answer of the update of the template, whose occurrence or error it is given.
  abbrev pub update_answer : Result Time → Option Error
  update_answer (ok next) = (run w (reschedule_cron_template template.id next) after_parse).0
  update_answer (err cause) =
      (run w (mark_cron_invalid template.id (invalid_cron template.cron cause)) after_invalid).0

  module _ (t : Job) (u : UniqueIds (w.view s).docs)
      (found : doc template.id (w.view s).docs ≡ some t) where
    abbrev Outcome : Result Job → Option Error → w.State → Type 0
    Outcome spawned updated s' =
        CronOutcome w.codec template t spawned fire_time updated (w.view s) (w.view s')

    after_next-Outcome :
        (j : Job) (r : Result Time)
        → spawn_answer ≡ ok j
        → w.codec.next_of template.cron fire_time ≡ r
        → Inserted w.codec template t (w.view s) u found j (w.view after_parse)
        → Outcome spawn_answer
            (update_answer r)
            (run w (after_next template j (occurrence template.cron r)) after_parse).1
    unfolding run
    after_next-Outcome j (ok next) q n i =
        let s5 = (run w (reschedule_cron_template template.id next) after_parse).1 in
        rw
          (run-bind w (reschedule_cron_template template.id next)
            (λ _. ask (go_dispatch j) >>= λ _. ret tt) after_parse)
          (rescheduled w.codec template t (w.view s) u found spawn_answer j fire_time next
            (update_answer (ok next)) (w.view after_parse) (w.view s5)
            (w.view (w.exec (go_dispatch j) s5).1) q n i
            (reschedule_cron_template-Moves w after_parse template.id i.unique next)
            (w.lawful (go_dispatch j) s5))
    after_next-Outcome j (err cause) q n i =
        let reason = invalid_cron template.cron cause in
        let counted = w.lawful (count cron_invalid) after_parse in
        let i' =
          same_moved w.codec template t (w.view s) u found j (w.view after_parse)
            (w.view after_invalid) (ground (arith, counted)) i in
        let (now, one, b, d) =
          moved w.codec template t (w.view s) u found j (Invalidated w.codec reason)
            (update_answer (err cause)) (w.view after_invalid)
            (w.view (run w (mark_cron_invalid template.id reason) after_invalid).1) i'
            (mark_cron_invalid-Moves w after_invalid template.id i'.unique reason) in
        rw (run-bind w (mark_cron_invalid template.id reason) (λ _. ret tt) after_invalid)
          (invalid now cause j q n one d b)

    after_spawn-Outcome :
        (r : Result Job)
        → spawn_answer ≡ r
        → SpawnOutcome w.codec template
            (w.view s)
            r
            (w.view (run w (spawn_cron_instance template) s).1)
        → Outcome spawn_answer
            (update_answer (w.codec.next_of template.cron fire_time))
            (run w (after_spawn template r) (run w (spawn_cron_instance template) s).1).1
    unfolding run next_occurrence
    after_spawn-Outcome (err e) q (_, h) =
        spawn_failed w.codec template t (w.view s) u found e spawn_answer fire_time
          (update_answer (w.codec.next_of template.cron fire_time))
          (w.view (run w (spawn_cron_instance template) s).1) q h
    after_spawn-Outcome (ok j) q h =
        let s1 = (run w (spawn_cron_instance template) s).1 in
        let s3 = (w.exec time_now after_count).1 in
        let e2 = w.lawful (count cron_instances_spawned) s1 in
        let e3 : w.view s3 ≡ w.view after_count = w.lawful time_now after_count in
        let (n, e4) = w.lawful (cron_next template.cron fire_time) s3 in
        let i =
          same_moved w.codec template t (w.view s) u found j (w.view s1) (w.view after_parse)
            (ground (arith, e2, e3, e4))
            (inserted w.codec template t (w.view s) u found j (w.view s1) h) in
        subst
          (λ r.
            Outcome spawn_answer (update_answer (w.codec.next_of template.cron fire_time))
              (run w (after_next template j (occurrence template.cron r)) after_parse).1)
          (sym n) (after_next-Outcome j (w.codec.next_of template.cron fire_time) q refl i)

-- In a collection with unique ids that holds the template, `handleCronJob` does as its insertion and its
-- update of the template answer. If the insertion answers an error, nothing is dispatched and the
-- template stays as it was; a run may have been added all the same. If it answers a run, that run was
-- added under an id of its own, and no document but the template is changed. Then, if the parser gives a
-- next occurrence, the run is dispatched, once, and the template is pending at that occurrence; if the
-- parser refuses the expression, nothing is dispatched and the template is dead-lettered with the
-- reason. Only if the update of the template answers an error, the template may be as it was.
pub handle_cron_job-CronOutcome :
    (w : World) (s : w.State) (template t : Job)
    → UniqueIds (w.view s).docs
    → doc template.id (w.view s).docs ≡ some t
    → let after = fire_time w template s in
      CronOutcome w.codec template t
        (spawn_answer w template s)
        after
        (update_answer w template s (w.codec.next_of template.cron after))
        (w.view s)
        (w.view (run w (handle_cron_job template) s).1)
unfolding handle_cron_job
handle_cron_job-CronOutcome w s template t u found =
    rw (run-bind w (spawn_cron_instance template) (after_spawn template) s) (
      after_spawn-Outcome w template s t u found (spawn_answer w template s) refl
        (spawn_cron_instance-SpawnOutcome w s template))
