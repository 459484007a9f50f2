-- ===== src/Api/Fetching.antt =====
-- `GetJob`, and `GetJob` of a job that `CreateJob` answered.
use high_scale_job_scheduler.Prelude.{
  ◌≡◌, refl, sym, ◌∙◌, subst, ◌⊎◌, inl, inr, false, Option, none, some, ==_iff, Bool-cases,
  Option-cases, arith, String, List, ap,
}
use high_scale_job_scheduler.Errors.{Error, Result, ok, err, is_not_found, is_no_documents}
use high_scale_job_scheduler.Models.{Job, CreateJobRequest, ObjectId}
use high_scale_job_scheduler.Effects.{ret, ◌>>=◌, find_one, from_hex}
use high_scale_job_scheduler.Effects.Docs.{UniqueIds, NoneOf, doc, doc-id, doc-Memᴰ, doc-All}
use high_scale_job_scheduler.Effects.World.{View, Codec, Effect, stored, World, run}
use high_scale_job_scheduler.Store.{get_by_id, got, has_id}
use high_scale_job_scheduler.Store.Insertion.{AddsMade}
use high_scale_job_scheduler.Api.{
  Response, job_body, write_json, write_error, fetched_response, create_job, get_job,
}
use high_scale_job_scheduler.Api.Creation.{
  JobCreation, create_job-JobCreation, bad_request, bad_expression, created, conflict, failed,
}

-- The response, by what the text and the database answer and by the document under the id.
pub data Fetches (parsed : Result ObjectId) (read : Result Job) (docs : List Job) (resp : Response)
    : Type 0 where
  bad_id :
      (e : Error)
      → parsed ≡ err e
      → resp ≡ write_error 400 "invalid job id"
      → Fetches parsed read docs resp
  fetched :
      (i : ObjectId) (j : Job)
      → parsed ≡ ok i
      → doc i docs ≡ some j
      → resp ≡ write_json 200 (job_body j)
      → Fetches parsed read docs resp
  missing :
      (i : ObjectId)
      → parsed ≡ ok i
      → doc i docs ≡ none
      → resp ≡ write_error 404 "job not found"
      → Fetches parsed read docs resp
  unread :
      (i : ObjectId) (e : Error)
      → parsed ≡ ok i
      → read ≡ err e
      → is_no_documents e ≡ false
      → resp ≡ write_error 500 "failed to fetch job"
      → Fetches parsed read docs resp

-- No document under an id that none passes the filter of.
doc-NoneOf : (i : ObjectId) (docs : List Job) → NoneOf (has_id i) docs → doc i docs ≡ none
doc-NoneOf i docs none_of = elim (Option-cases (doc i docs)) [
  | inl absent ↦ absent
  | inr (j, here) ↦ absurd (
      ground (arith, doc-All (λ k. has_id i k ≡ false) i j docs none_of here, doc-id i j docs here))
]

read_response :
    (x : Codec) (i : ObjectId) (r : Result Job) (s s' : View)
    → UniqueIds s.docs
    → Effect x (find_one (has_id i)) r s s'
    → (s' ≡ s) × Fetches (ok i) r s.docs (fetched_response (got r))
unfolding is_not_found
read_response x i (ok j) s s' u (mem, passed, same) = (
  same,
  fetched i j refl (subst (λ n. doc n s.docs ≡ some j) ((==_iff j.id i).0 passed) (doc-Memᴰ mem u))
      refl,
)
read_response x i (err e) s s' u ((none_of, foreign), same) =
    elim (Bool-cases (is_no_documents e)) [
      | inl h ↦ (same, missing i refl (doc-NoneOf i s.docs (none_of h)) (rw h refl))
      | inr h ↦ (same, unread i e refl refl h (rw (h, foreign) refl))
    ]

module _ (w : World) (s : w.State) (text : String) where
  abbrev pub parsed : Result ObjectId
  parsed = (w.exec (from_hex text) s).0

  -- The answer of the database, which is asked only if the text is an id.
  abbrev pub read_answer : ObjectId → Result Job
  read_answer i = (w.exec (find_one (has_id i)) (w.exec (from_hex text) s).1).0

  abbrev pub read_after : Result ObjectId → Result Job
  read_after (ok i) = read_answer i
  read_after (err e) = err e

  by_parsed :
      (r : Result ObjectId)
      → UniqueIds (w.view s).docs
      → let (resp, s') =
          run w
            (elim r [
              | err e ↦ ret (write_error 400 "invalid job id")
              | ok id ↦ get_by_id id >>= λ r'. ret (fetched_response r')
            ])
            (w.exec (from_hex text) s).1 in
        (w.view s' ≡ w.view s) × Fetches r (read_after r) (w.view s).docs resp
  unfolding run get_by_id
  by_parsed (err e) u = ((w.lawful (from_hex text) s).1, bad_id e refl refl)
  by_parsed (ok i) u =
      let s1 = (w.exec (from_hex text) s).1 in
      let same : w.view s1 ≡ w.view s = (w.lawful (from_hex text) s).1 in
      let s2 = (w.exec (find_one (has_id i)) s1).1 in
      let (kept, f) : (w.view s2 ≡ w.view s1)
          × Fetches (ok i) (read_answer i) (w.view s1).docs
              (fetched_response (got (read_answer i))) =
        read_response w.codec i (read_answer i) (w.view s1) (w.view s2) (rw same u)
          (w.lawful (find_one (has_id i)) s1) in
      (
        kept ∙ same,
        subst (λ v. Fetches (ok i) (read_answer i) v.docs (fetched_response (got (read_answer i))))
            same f,
      )

-- What `GetJob` answers for a document that `CreateJob` added.
added_found :
    (x : Codec) (req : CreateJobRequest) (j : Job) (s s' : View)
    → AddsMade x req j s s'
    → doc j.id s'.docs ≡ some (stored x j)
added_found x req j s s' (_, _, a) = rw a.after (ground arith)

module _ (w : World) (s : w.State) (body : Option CreateJobRequest) (j : Job)
    (u : UniqueIds (w.view s).docs) where
  abbrev after_create : w.State
  after_create = (run w (create_job body) s).1

  added :
      (resp : Response)
      → resp ≡ write_json 201 (job_body j)
      → JobCreation w.codec body (w.view s) resp (w.view after_create)
      → (req : CreateJobRequest) × AddsMade w.codec req j (w.view s) (w.view after_create)
  added resp e (bad_request _ h _) = absurd (ground (arith, e, h))
  added resp e (bad_expression _ _ _ _ _ h _) = absurd (ground (arith, e, h))
  added resp e (conflict _ _ _ h _) = absurd (ground (arith, e, h))
  added resp e (failed _ _ _ _ h _) = absurd (ground (arith, e, h))
  added resp e (created req at k _ _ _ a h) = (
    record req { scheduled_at = at },
    subst
        (λ d.
          AddsMade w.codec (record req { scheduled_at = at }) d (w.view s) (w.view after_create))
        (cc (sym h ∙ e)) a,
  )

-- In a collection with unique ids, `GetJob` of any text changes nothing, and is answered 400 if the text
-- is no id, else 200 with the document under the id, or 404 if there is none; and 500 only if the
-- database answers an error other than that there is no document.
pub get_job-Fetches :
    (w : World) (s : w.State) (text : String)
    → UniqueIds (w.view s).docs
    → let (resp, s') = run w (get_job text) s in
      (w.view s' ≡ w.view s)
      × Fetches (parsed w s text) (read_after w s text (parsed w s text)) (w.view s).docs resp
unfolding run get_job
get_job-Fetches w s text u = by_parsed w s text (parsed w s text) u

-- In a collection with unique ids, a job that `CreateJob` answers with 201 is what `GetJob` then
-- answers with 200 for the text of its id, its times in whole milliseconds, unless the answer is 500.
pub created_then_fetched :
    (w : World) (s : w.State) (body : Option CreateJobRequest) (j : Job)
    → UniqueIds (w.view s).docs
    → (run w (create_job body) s).0 ≡ write_json 201 (job_body j)
    → let resp = (run w (get_job (w.codec.hex_of j.id)) (run w (create_job body) s).1).0 in
      (resp ≡ write_json 200 (job_body (stored w.codec j))) ⊎ (resp.status ≡ 500)
created_then_fetched w s body j u e =
    let s1 = (run w (create_job body) s).1 in
    let (req, a) = added w s body j u _ e (create_job-JobCreation w s body) in
    let unique : UniqueIds (w.view s1).docs = rw a.2.after (a.2.fresh_id, u) in
    let here = added_found w.codec req j (w.view s) (w.view s1) a in
    let id = (w.lawful (from_hex (w.codec.hex_of j.id)) s1).0 j.id refl in
    elim (get_job-Fetches w s1 (w.codec.hex_of j.id) unique).1 [
      | bad_id c q _ ↦ absurd (ground (arith, q, id))
      | fetched i k q found r ↦
          let same : i ≡ j.id = ground (arith, q, id) in
          let k_is : k ≡ stored w.codec j =
            ground (arith, here, subst (λ n. doc n (w.view s1).docs ≡ some k) same found) in
          inl (r ∙ ap (λ d. write_json 200 (job_body d)) k_is)
      | missing i q absent _ ↦
          let same : i ≡ j.id = ground (arith, q, id) in
          absurd (ground (arith, here, subst (λ n. doc n (w.view s1).docs ≡ none) same absent))
      | unread i c q _ _ r ↦ inr (ap (λ p. p.status) r)
    ]
