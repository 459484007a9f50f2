-- ===== src/Store/Update.antt =====
-- An update of one document by its id, in terms of look-ups.
use high_scale_job_scheduler.Prelude.{
  ℕ, ◌≡◌, ◌≢◌, subst, ◌⊎◌, inl, inr, Bool, true, false, arith, some,
}
use high_scale_job_scheduler.Errors.{Result, ok, err}
use high_scale_job_scheduler.Models.{Job, ObjectId}
use high_scale_job_scheduler.Effects.{update_one}
use high_scale_job_scheduler.Effects.Docs.{
  UniqueIds, doc, doc-Touched, doc-Touched_before, Touched-passes, Touched-Partly, Partly-UniqueIds,
  doc-All,
}
use high_scale_job_scheduler.Effects.World.{View, Codec, stored, Changes, Effect}

-- `s'` is `s` with the document `j` under the id `i`, and nothing else is changed.
pub record Puts (i : ObjectId) (j : Job) (s s' : View) : Type 0 where
  pub elsewhere : s' ≡ record s { docs = s'.docs }
  pub at : doc i s'.docs ≡ some j
  pub frame : (k : ObjectId) → k ≢ i → doc k s'.docs ≡ doc k s.docs
  pub unique : UniqueIds s'.docs

-- The document with the id passed, and is replaced by what is stored of its update.
pub record Updates (x : Codec) (i : ObjectId) (p : Job → Bool) (f : Job → Job) (s s' : View)
    : Type 0 where
  pub before : Job
  pub found : doc i s.docs ≡ some before
  pub passed : p before ≡ true
  pub puts : Puts i (stored x (f before)) s s'

-- The document with the id, if any, did not pass.
abbrev pub Misses : ObjectId → (Job → Bool) → View → Type 0
Misses i p s = (j : Job) → doc i s.docs ≡ some j → p j ≡ false

-- What a reply to `update_one` says.
abbrev pub UpdateReply :
    Codec → ObjectId → (Job → Bool) → (Job → Job) → Result ℕ → View → View → Type 0
UpdateReply x i p f (ok n) s s' =
    ((n ≡ 0) × Misses i p s × (s' ≡ s)) ⊎ ((n ≡ 1) × Updates x i p f s s')
UpdateReply x i p f (err e) s s' = (s' ≡ s) ⊎ Updates x i p f s s'

module _ (x : Codec) (p : Job → Bool) (f : Job → Job) (keeps : (k : Job) → (f k).id ≡ k.id) where
  pub Changes-found :
      (j : Job) {s s' : View}
      → UniqueIds s.docs
      → Changes x p f j s s'
      → (doc j.id s.docs ≡ some j) × (p j ≡ true)
  Changes-found j u c = (doc-Touched_before keeps c.touched u, Touched-passes c.touched)

  pub Changes-Puts :
      (j : Job) (s s' : View)
      → UniqueIds s.docs
      → Changes x p f j s s'
      → Puts j.id (stored x (f j)) s s'
  Changes-Puts j s s' u c = record {
    elsewhere = ground (arith, c.after);
    at = rw (c.after, doc-Touched keeps j.id c.touched u) (ground arith);
    frame = λ k h. rw (c.after, doc-Touched keeps k c.touched u) (ground arith);
    unique = rw c.after (Partly-UniqueIds keeps (Touched-Partly c.touched) u);
  }

module _ (x : Codec) (p : Job → Bool) (f : Job → Job) (i : ObjectId)
    (by_id : (k : Job) → p k ≡ true → k.id ≡ i) (keeps : (k : Job) → (f k).id ≡ k.id) where
  pub Changes-Updates :
      (j : Job) (s s' : View) → UniqueIds s.docs → Changes x p f j s s' → Updates x i p f s s'
  Changes-Updates j s s' u c = record {
    before = j;
    found = subst (λ k. doc k s.docs ≡ some j) is_i (Changes-found x p f keeps j u c).0;
    passed = Touched-passes c.touched;
    puts = subst (λ k. Puts k (stored x (f j)) s s') is_i (Changes-Puts x p f keeps j s s' u c);
  }
    where
      is_i : j.id ≡ i
      is_i = by_id j (Touched-passes c.touched)

  pub update_one-reply :
      (r : Result ℕ) (s s' : View)
      → UniqueIds s.docs
      → Effect x (update_one p f) r s s'
      → UpdateReply x i p f r s s'
  update_one-reply (ok n) s s' u (inl (n0, none_of, same)) =
      inl (n0, (λ j h. doc-All (λ k. p k ≡ false) i j s.docs none_of h), same)
  update_one-reply (ok n) s s' u (inr (j, n1, c)) = inr (n1, Changes-Updates j s s' u c)
  update_one-reply (err e) s s' u (inl same) = inl same
  update_one-reply (err e) s s' u (inr (j, c)) = inr (Changes-Updates j s s' u c)
