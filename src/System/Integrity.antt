-- ===== src/System/Integrity.antt =====
-- The commands that keep the invariant of the shared world.
mod Invariant
pub use Invariant.*
use high_scale_job_scheduler.Prelude.{
  sym, subst, ℕ, ℤ, String, ap, ◌∙◌, All-imp, All-both, All-of, arith, ◌≡◌, ◌≢◌, ◌⊎◌, inl, inr,
  Bool, true, some, ◌≤ℤ◌, pos, List, [], ◌∷◌, refl, Bool-cases, All, ◌||◌,
}
use high_scale_job_scheduler.Errors.{Result, ok, err}
use high_scale_job_scheduler.Models.{
  Job, JobStatus, ObjectId, Payload, failed, pending, queued, dlq,
}
use high_scale_job_scheduler.Topics.{DispatchMessage, dispatch_topic, dlq_topic}
use high_scale_job_scheduler.Effects.{
  Message, IndexModel, create_indexes, insert_one, find_one_and_update, update_one, update_many,
}
use high_scale_job_scheduler.Effects.Docs.{
  Partly, UniqueIds, UniqueKeys, FreshId, doc, doc-id, doc-All, doc-Partly, Partly-UniqueIds,
  Partly-UniqueKeys, Partly-All, Touched-Partly, change_all, Partly-change_all,
}
use high_scale_job_scheduler.Effects.World.{
  View, Codec, Effect, stored, Inserts, Changes, declares_key,
}

-- A part of the documents that one invariant ranges over is replaced.
with_docs :
    (x : Codec) (base : Base) (s s' : View) (ds : List Job)
    → Inv x base s
    → s' ≡ record s { docs = ds }
    → UniqueIds ds
    → (s.key_index ≡ true → UniqueKeys ds)
    → All IsValid ds
    → All (KeptIn ds) base.jobs
    → All (IdleIn ds) base.templates
    → Inv x base s'
with_docs x base s s' ds i e u k v kept idle = rw e (record {
  unique_ids = u;
  unique_keys = k;
  valid = v;
  runs_dispatched = i.runs_dispatched;
  routed = i.routed;
  kept = kept;
  idle = idle;
  dispatched_free = i.dispatched_free;
  produced_free = i.produced_free;
})

-- A job that is kept stays so under a change of some documents, and beside a new one.
part-KeptIn :
    {p : Job → Bool} {g : Job → Job} (keeps : (k : Job) → (g k).id ≡ k.id)
    → ((k : Job) → work_of (g k) ≡ work_of k)
    → {ds es : List Job} (j : Job) → Partly p g ds es
    → KeptIn ds j
    → KeptIn es j
part-KeptIn {p} {g} keeps same j part (k, e, w) = elim (doc-Partly keeps j.id k part e) [
  | inl h ↦ (k, h, w)
  | inr (_, h) ↦ (g k, h, same k ∙ w)
]

-- A template stays idle under a tame change, and beside a new job.
stored-IsIdle : (x : Codec) (b k : Job) → IsIdle b k → IsIdle b (stored x k)
stored-IsIdle x b k i = record {
  waits = i.waits;
  same_attempts = i.same_attempts;
  same_worker = i.same_worker;
}

part-IdleIn :
    (x : Codec) {p : Job → Bool} {f : Job → Job} (keeps : (k : Job) → (f k).id ≡ k.id)
    (same_work : (k : Job) → work_of (f k) ≡ work_of k) {ds es : List Job} (b : Job)
    → Partly p (λ k. stored x (f k)) ds es
    → IdleIn ds b
      × (IsTemplate b → (k : Job) → k.id ≡ b.id → p k ≡ true → IsIdle b k → IsIdle b (f k))
    → IdleIn es b
part-IdleIn x {f} keeps same_work {ds} b part (idle, tame) t =
    let (k, e, w, i) = idle t in
    elim (doc-Partly {g = λ k. stored x (f k)} keeps b.id k part e) [
      | inl h ↦ (k, h, w, i)
      | inr (passed, h) ↦ (
        stored x (f k),
        h,
        same_work k ∙ w,
        stored-IsIdle x b (f k) (tame t k (doc-id b.id k ds e) passed i),
      )
    ]

new-IdleIn : (new b : Job) (ds : List Job) → FreshId new.id ds → IdleIn ds b → IdleIn (new ∷ ds) b
new-IdleIn new b ds fresh idle t =
    let (k, e, w, i) = idle t in
    let other : k.id ≢ new.id = doc-All (λ d. d.id ≢ new.id) b.id k ds fresh e in
    (k, ground (arith, other, doc-id b.id k ds e, e), w, i)

pub same-Inv : (x : Codec) (base : Base) (s s' : View) → Inv x base s → s' ≡ s → Inv x base s'
same-Inv x base s s' i e = rw e i

module _ (x : Codec) (base : Base) (p : Job → Bool) (f : Job → Job) (tame : IsTame base p f)
    (s s' : View) (i : Inv x base s) where
  part-Inv :
      (ds : List Job)
      → Partly p (λ k. stored x (f k)) s.docs ds
      → s' ≡ record s { docs = ds }
      → Inv x base s'
  part-Inv ds part e =
      with_docs x base s s' ds i e (Partly-UniqueIds tame.id part i.unique_ids)
        (λ h.
          Partly-UniqueKeys (λ j. ap (λ w. w.idempotency_key) (tame.same_work j)) part
            (i.unique_keys h))
        (Partly-All IsValid
          (λ j _ v. record {
            some_attempts = rw (ap (λ w. w.max_attempts) (tame.same_work j)) v.some_attempts;
            not_failed = tame.status j v.not_failed;
          })
          part i.valid)
        (All-imp (KeptIn s.docs) (KeptIn ds) base.jobs
          (λ j. part-KeptIn {g = λ k. stored x (f k)} tame.id tame.same_work j part) i.kept)
        (All-imp _ (IdleIn ds) base.templates (λ b. part-IdleIn x tame.id tame.same_work b part)
          (All-both (IdleIn s.docs) _ base.templates i.idle tame.idle))

  Changes-Inv : (j : Job) → Changes x p f j s s' → Inv x base s'
  Changes-Inv j c = part-Inv c.new_docs (Touched-Partly c.touched) c.after

  pub update_one-Inv : (r : Result ℕ) → Effect x (update_one p f) r s s' → Inv x base s'
  update_one-Inv (ok n) (inl (_, _, same)) = same-Inv x base s s' i same
  update_one-Inv (ok n) (inr (j, _, c)) = Changes-Inv j c
  update_one-Inv (err e) (inl same) = same-Inv x base s s' i same
  update_one-Inv (err e) (inr (j, c)) = Changes-Inv j c

  pub update_many-Inv : (r : Result ℕ) → Effect x (update_many p f) r s s' → Inv x base s'
  update_many-Inv (ok n) (e, _) =
      part-Inv (change_all p (λ k. stored x (f k)) s.docs)
        (Partly-change_all p (λ k. stored x (f k)) s.docs) e
  update_many-Inv (err e) c = part-Inv c.new_docs c.part c.after

  pub find_one_and_update-Inv :
      (before : Job → Job → Bool) (r : Result Job)
      → Effect x (find_one_and_update p f before) r s s'
      → Inv x base s'
  find_one_and_update-Inv before (ok k) (j, c, _, _) = Changes-Inv j c
  find_one_and_update-Inv before (err e) (_, inl same) = same-Inv x base s s' i same
  find_one_and_update-Inv before (err e) (_, inr (j, c)) = Changes-Inv j c

module _ (x : Codec) (base : Base) (s s' : View) (i : Inv x base s) where
  Inserts-Inv : (j : Job) (id : ObjectId) → IsValid j → Inserts x j id s s' → Inv x base s'
  Inserts-Inv j id v h =
      with_docs x base s s' (stored x (record j { id = id }) ∷ s.docs) i h.after
        (h.fresh_id, i.unique_ids) (λ on. (h.fresh_key on, i.unique_keys on))
        (record { some_attempts = v.some_attempts; not_failed = v.not_failed }, i.valid)
        (All-imp (KeptIn s.docs) (KeptIn (stored x (record j { id = id }) ∷ s.docs)) base.jobs
          (λ k. new-KeptIn (stored x (record j { id = id })) k s.docs h.fresh_id) i.kept)
        (All-imp (IdleIn s.docs) (IdleIn (stored x (record j { id = id }) ∷ s.docs)) base.templates
          (λ b. new-IdleIn (stored x (record j { id = id })) b s.docs h.fresh_id) i.idle)

  pub insert_one-Inv :
      (j : Job) (r : Result ObjectId) → IsValid j → Effect x (insert_one j) r s s' → Inv x base s'
  insert_one-Inv j (ok id) v h = Inserts-Inv j id v h
  insert_one-Inv j (err e) v (_, inl same) = same-Inv x base s s' i same
  insert_one-Inv j (err e) v (_, inr (id, h)) = Inserts-Inv j id v h

  indexed-Inv :
      (on : Bool)
      → s' ≡ record s { key_index = on || s.key_index }
      → (on ≡ true → UniqueKeys s.docs)
      → Inv x base s'
  indexed-Inv on e h = rw e (record {
    unique_ids = i.unique_ids;
    unique_keys = λ k. elim (Bool-cases on) [ inl t ↦ h t | inr f ↦ i.unique_keys (rw f at k) ];
    valid = i.valid;
    runs_dispatched = i.runs_dispatched;
    routed = i.routed;
    kept = i.kept;
    idle = i.idle;
    dispatched_free = i.dispatched_free;
    produced_free = i.produced_free;
  })

  pub create_indexes-Inv :
      (ixs : List IndexModel) (r : Result (Unit {0}))
      → Effect x (create_indexes ixs) r s s'
      → Inv x base s'
  create_indexes-Inv ixs (ok _) (e, h) = indexed-Inv (declares_key ixs) e h
  create_indexes-Inv ixs (err _) (inl same) = same-Inv x base s s' i same
  create_indexes-Inv ixs (err _) (inr (e, h)) = indexed-Inv (declares_key ixs) e h

-- A document that is no template, and a new one, have an id that is of no template.
module _ (x : Codec) (base : Base) (s : View) (i : Inv x base s) where
  pub doc-IsFree : (j : Job) → doc j.id s.docs ≡ some j → j.cron ≡ "" → IsFree base j.id
  doc-IsFree j found run =
      All-imp (IdleIn s.docs) (λ b. IsTemplate b → b.id ≢ j.id) base.templates
        (λ b idle t same.
          let (k, e, w, _) = idle t in
          let here : doc j.id s.docs ≡ some k = subst (λ n. doc n s.docs ≡ some k) same e in
          let is_j : k ≡ j = ground (arith, here, found) in
          t.0 (sym (ap (λ v. v.cron) w) ∙ ap (λ (d : Job). d.cron) is_j ∙ run))
        i.idle

  pub new-IsFree : (id : ObjectId) → FreshId id s.docs → IsFree base id
  new-IsFree id fresh =
      All-imp (IdleIn s.docs) (λ b. IsTemplate b → b.id ≢ id) base.templates
        (λ b idle t same.
          let (k, e, _, _) = idle t in
          doc-All (λ d. d.id ≢ id) b.id k s.docs fresh e (doc-id b.id k s.docs e ∙ same))
        i.idle
