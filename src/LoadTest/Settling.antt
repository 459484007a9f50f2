-- ===== src/LoadTest/Settling.antt =====
-- The completion phase of the load test when every job has come to its end: the report is exact.
use high_scale_job_scheduler.Prelude.{
  ℕ, zero, suc, pos, ◌≡◌, ◌≢◌, refl, sym, ◌∙◌, subst, ap, ◌⊎◌, inl, inr, ◌≤◌, ◌+◌, ◌+ℤ◌, ◌-ℤ◌,
  String, Option, Bool, true, false, List, [], ◌∷◌, none, some, All, All-imp, arith, Bool-cases,
  str_eq, str_eq→eq, str_eq_refl, length, sub_pos, ltb_ℤ, ltb, ◌&&◌,
}
use Prim.Native.String.{◌++◌ as ◌<>◌}
use high_scale_job_scheduler.Errors.{ok}
use high_scale_job_scheduler.Models.{Time, Duration}
use high_scale_job_scheduler.Effects.{ret, ask, ◌>>=◌, time_now, time_sleep, http_get, JobRecord}
use high_scale_job_scheduler.Effects.World.{World, run, run-bind}
use high_scale_job_scheduler.LoadTest.{
  CreatedJob, Outcome, Results, has_result, set_result, terminal_status, poll_one, poll_all,
  poll_loop, poll_interval, Summary, summary, completion_phase,
}
use high_scale_job_scheduler.LoadTest.Accounting.{Truthful, Gives, Gives-bind, poll_loop-Gives}
use high_scale_job_scheduler.LoadTest.Counting.{
  IsResults, count_jobs, count_results, count-IsResults, count_all, count_all_results,
  count_completed, count_dlq, ends_in, tally,
}

-- Every request for a job is answered by 200 with its last status, completed or dead-lettered.
abbrev pub AnswersAll : World → String → (String → String) → Type 0
AnswersAll w api_url truth =
    (s : w.State) (id : String)
    → (rec : JobRecord) × ((w.exec (http_get (api_url <> "/jobs/" <> id)) s).0
        ≡ ok (record { status_code = 200; body = ok rec }))
      × (rec.status ≡ truth id)
      × ((rec.status ≡ "completed") ⊎ (rec.status ≡ "dlq"))

abbrev pub DistinctJobs : List CreatedJob → Type 0
DistinctJobs [] = Unit
DistinctJobs (c ∷ cs) = All (λ j. j.id ≢ c.id) cs × DistinctJobs cs

-- The results without that of an id.
abbrev remove : String → Results → Results
remove k [] = []
remove k ((j, o) ∷ rs) =
    let rest = remove k rs in elim (str_eq j k) [ true ↦ rs | false ↦ (j, o) ∷ rest ]

count-remove :
    (q : String → Bool) (k : String) (rs : Results)
    → has_result k rs ≡ true
    → tally (q k) + count_results q (remove k rs) ≡ count_results q rs
unfolding has_result
count-remove q k [] h = absurd (ground (arith, h))
count-remove q k ((j, o) ∷ rs) h = elim (Bool-cases (str_eq j k)) [
  | inl e ↦ rw (e, count_results, str_eq→eq j k e) refl
  | inr e ↦
      let rest = count-remove q k rs (rw (e, has_result) at h) in
      rw (e, count_results) (omega (arith, rest))
]

has_result-remove :
    (j k : String) (rs : Results)
    → j ≢ k
    → has_result j rs ≡ true
    → has_result j (remove k rs) ≡ true
unfolding has_result
has_result-remove j k [] n h = h
has_result-remove j k ((i, o) ∷ rs) n h = elim (Bool-cases (str_eq i k)) [
  | inl e ↦
      let same = str_eq→eq i k e in
      let other : str_eq i j ≡ false = elim (Bool-cases (str_eq i j)) [
        | inr f ↦ f
        | inl f ↦ absurd (n (sym (str_eq→eq i j f) ∙ same))
      ] in
      rw (e, has_result) (rw other at h)
  | inr e ↦ elim (Bool-cases (str_eq i j)) [
    | inl f ↦ rw (e, has_result, f) refl
    | inr f ↦ rw (e, has_result, f) (has_result-remove j k rs n (rw f at h))
  ]
]

-- A result for each of some jobs of different ids.
count-has_result :
    (q : String → Bool) (jobs : List CreatedJob) (rs : Results)
    → DistinctJobs jobs
    → All (λ j. has_result j.id rs ≡ true) jobs
    → count_jobs q jobs ≤ count_results q rs
count-has_result q [] rs d a = omega arith
count-has_result q (c ∷ cs) rs d a =
    let rest = count-has_result q cs (remove c.id rs) d.1 (both cs d.0 a.1) in
    omega (arith, count-remove q c.id rs a.0, rest)
  where
    both :
        (js : List CreatedJob)
        → All (λ j. j.id ≢ c.id) js
        → All (λ j. has_result j.id rs ≡ true) js
        → All (λ j. has_result j.id (remove c.id rs) ≡ true) js
    both [] n h = tt
    both (j ∷ js) n h = (has_result-remove j.id c.id rs n.0 h.0, both js n.1 h.1)

-- No result goes.
abbrev Keeps : Results → Results → Type 0
Keeps rs rs' = (j : String) → has_result j rs ≡ true → has_result j rs' ≡ true

set_result-Keeps : (k : String) (o : Outcome) (rs : Results) → Keeps rs (set_result k o rs)
unfolding set_result has_result
set_result-Keeps k o [] j h = absurd (ground (arith, h))
set_result-Keeps k o ((i, p) ∷ rs) j h = elim (Bool-cases (str_eq i k)) [
  | inl e ↦ rw (e, set_result) (rw (← str_eq→eq i k e) h)
  | inr e ↦ elim (Bool-cases (str_eq i j)) [
    | inl f ↦ rw (e, set_result, f) refl
    | inr f ↦ rw (e, set_result, f) (set_result-Keeps k o rs j (rw f at h))
  ]
]

has_result-set_result :
    (k : String) (o : Outcome) (rs : Results) → has_result k (set_result k o rs) ≡ true
unfolding set_result has_result
has_result-set_result k o [] = rw (str_eq_refl k) refl
has_result-set_result k o ((i, p) ∷ rs) = elim (Bool-cases (str_eq i k)) [
  | inl e ↦ rw (e, set_result, str_eq_refl k) refl
  | inr e ↦ rw (e, set_result, e, has_result-set_result k o rs) refl
]

All-Keeps :
    (jobs : List CreatedJob) (rs rs' : Results)
    → Keeps rs rs'
    → All (λ j. has_result j.id rs ≡ true) jobs
    → All (λ j. has_result j.id rs' ≡ true) jobs
All-Keeps jobs rs rs' k =
    All-imp (λ j. has_result j.id rs ≡ true) (λ j. has_result j.id rs' ≡ true) jobs (λ j. k j.id)

module _ (w : World) (api_url : String) (truth : String → String)
    (answers : AnswersAll w api_url truth) where
  truthful : Truthful w api_url truth
  truthful s id reply rec e code body last =
      let (r, q, told, _) = answers s id in ground (arith, e, q, body, told)

  -- A last status of 200 is the status of the response.
  is_terminal_reply :
      (rec : JobRecord)
      → (rec.status ≡ "completed") ⊎ (rec.status ≡ "dlq")
      → terminal_status (ok (record { status_code = 200; body = ok rec })) ≡ some rec.status
  is_terminal_reply rec (inl e) = rw e refl
  is_terminal_reply rec (inr e) = rw e refl

  poll_one-has :
      (job : CreatedJob) (rs : Results)
      → Gives w (poll_one api_url job rs) (λ rs'. Keeps rs rs' × (has_result job.id rs' ≡ true))
  unfolding poll_one run
  poll_one-has job rs s =
      let (rec, e, _, last) = answers s job.id in
      by_status (terminal_status (w.exec (http_get (api_url <> "/jobs/" <> job.id)) s).0) rec.status
        (ap terminal_status e ∙ is_terminal_reply rec last)
        (w.exec (http_get (api_url <> "/jobs/" <> job.id)) s).1
    where
      by_status :
          (o : Option String) (status : String)
          → o ≡ some status
          → Gives w
              (elim o [
                | none ↦ ret rs
                | some status ↦ ask time_now >>= λ now. ret (
                    set_result job.id
                      (record { status = status; e2e_time = now -ℤ job.created_at })
                      rs)
              ])
              (λ rs'. Keeps rs rs' × (has_result job.id rs' ≡ true))
      by_status none status e s' = absurd (ground (arith, e))
      by_status (some _) status e s' =
          (set_result-Keeps job.id _ rs, has_result-set_result job.id _ rs)

  abbrev Found : List CreatedJob → Results → Results → Type 0
  Found jobs rs rs' = Keeps rs rs' × All (λ j. has_result j.id rs' ≡ true) jobs

  poll_all-has :
      (jobs : List CreatedJob) (rs : Results) → Gives w (poll_all api_url jobs rs) (Found jobs rs)
  unfolding poll_all run
  poll_all-has [] rs s = ((λ j h. h), tt)
  poll_all-has (job ∷ jobs) rs s = by_result (has_result job.id rs) refl (poll_all-has jobs) s
    where
      by_result :
          (b : Bool)
          → has_result job.id rs ≡ b
          → ((rs' : Results) → Gives w (poll_all api_url jobs rs') (Found jobs rs'))
          → Gives w
              (elim b [
                | true ↦ poll_all api_url jobs rs
                | false ↦ poll_one api_url job rs >>= λ rs'. poll_all api_url jobs rs'
              ])
              (Found (job ∷ jobs) rs)
      by_result true e rest s = let (k, a) = rest rs s in (k, (k job.id e, a))
      by_result false e rest s =
          Gives-bind w (poll_one api_url job rs) (poll_all api_url jobs)
            (λ rs'. Keeps rs rs' × (has_result job.id rs' ≡ true)) (Found (job ∷ jobs) rs)
            (poll_one-has job rs)
            (λ rs' h t. let (k', a) = rest rs' t in ((λ j g. k' j (h.0 j g)), (k' job.id h.1, a))) s

  module _ (created : List CreatedJob) (deadline : Time) where
    -- A round of the loop, or its end.
    abbrev round : ℕ → Results → Bool → w.State → Results
    round n rs b s =
        (run w
          (elim b [
            | false ↦ ret rs
            | true ↦ ask (time_sleep poll_interval) >>= λ _.
                poll_all api_url created rs >>= λ rs'. poll_loop n api_url created deadline rs'
          ])
          s).0

    poll_loop-Keeps :
        (n : ℕ) (rs : Results) → Gives w (poll_loop n api_url created deadline rs) (Keeps rs)
    unfolding poll_loop run
    poll_loop-Keeps zero rs s = λ j h. h
    poll_loop-Keeps (suc n) rs s =
        again (ltb_ℤ (w.exec time_now s).0 deadline && ltb (length rs) (length created))
          (w.exec time_now s).1 (poll_loop-Keeps n)
      where
        again :
            (b : Bool) (s : w.State)
            → ((rs' : Results) → Gives w (poll_loop n api_url created deadline rs') (Keeps rs'))
            → Keeps rs (round n rs b s)
        again false s rest = λ j h. h
        again true s rest =
            Gives-bind w (poll_all api_url created rs) (poll_loop n api_url created deadline)
              (Keeps rs) (Keeps rs) (λ t. (poll_all-has created rs t).0)
              (λ rs' k t j h. rest rs' t j (k j h)) (w.exec (time_sleep poll_interval) s).1

    -- A first round finds every job.
    poll_loop-has :
        (n : ℕ) (s : w.State)
        → ltb_ℤ (w.exec time_now s).0 deadline ≡ true
        → ltb 0 (length created) ≡ true
        → All
            (λ j.
              has_result j.id (run w (poll_loop (suc n) api_url created deadline []) s).0 ≡ true)
            created
    unfolding poll_loop run
    poll_loop-has n s early some_job =
        first (ltb_ℤ (w.exec time_now s).0 deadline && ltb 0 (length created)) (w.exec time_now s).1
          (rw (early, some_job) refl)
      where
        HasAll : Results → Type 0
        HasAll rs = All (λ j. has_result j.id rs ≡ true) created

        first : (b : Bool) (s : w.State) → b ≡ true → HasAll (round n [] b s)
        first false s e = absurd (ground (arith, e))
        first true s e =
            Gives-bind w (poll_all api_url created []) (poll_loop n api_url created deadline) HasAll
              HasAll (λ t. (poll_all-has created [] t).1)
              (λ rs a t.
                All-Keeps created rs (run w (poll_loop n api_url created deadline rs) t).0
                  (poll_loop-Keeps n rs t) a)
              (w.exec (time_sleep poll_interval) s).1

-- The report is exact, and nothing is left over.
pub record Settles (truth : String → String) (created : List CreatedJob) (sum : Summary)
    : Type 0 where
  pub completed : length sum.completed ≡ count_jobs (ends_in truth "completed") created
  pub dead : sum.dlq ≡ count_jobs (ends_in truth "dlq") created
  pub nothing_left : sum.leftover ≡ pos 0

summary-Settles :
    (truth : String → String) (created : List CreatedJob) (rs : Results)
    → DistinctJobs created
    → IsResults truth created rs
    → All (λ j. has_result j.id rs ≡ true) created
    → Settles truth created (summary created rs)
summary-Settles truth created rs d h a =
    let few = λ (q : String → Bool). count-IsResults q created rs h.distinct h.listed in
    let many = λ (q : String → Bool). count-has_result q created rs d a in
    let all = λ (k : String). true in
    let same : length rs ≡ length created =
      omega (arith, few all, many all, count_all created, count_all_results rs) in
    let done = ends_in truth "completed" in
    let dead = ends_in truth "dlq" in
    let le : length rs ≤ length created = omega (arith, same) in
    record {
      completed = omega (arith, count_completed truth rs h.last, few done, many done);
      dead = omega (arith, count_dlq truth rs h.last, few dead, many dead);
      nothing_left = sub_pos (length created) (length rs) le ∙ ap pos (omega (arith, same));
    }

-- If there are created jobs, of different ids, and every request for a job is answered by 200 with its
-- last status, then a completion phase of at least one round, whose deadline has not passed when it is
-- first looked at, reports as many completed and as many dead-lettered jobs as there are, and none left
-- over.
pub completion_phase-Settles :
    (w : World) (s : w.State) (rounds : ℕ) (api_url : String) (created : List CreatedJob)
    (max_wait : Duration) (truth : String → String)
    → AnswersAll w api_url truth
    → DistinctJobs created
    → ltb 0 (length created) ≡ true
    → let (now, s1) = w.exec time_now s in
      ltb_ℤ (w.exec time_now s1).0 (now +ℤ max_wait) ≡ true
      → Settles truth created (run w (completion_phase (suc rounds) api_url created max_wait) s).0
unfolding completion_phase run
completion_phase-Settles w s rounds api_url created max_wait truth answers d some_job early =
    let (now, s1) = w.exec time_now s in
    let deadline = now +ℤ max_wait in
    let good =
      poll_loop-Gives w api_url truth (truthful w api_url truth answers) created (suc rounds)
        deadline [] (record { distinct = tt; listed = tt; last = tt }) s1 in
    let found = poll_loop-has w api_url truth answers created deadline rounds s1 early some_job in
    subst (λ r. Settles truth created r.0)
      (sym (
        run-bind w (poll_loop (suc rounds) api_url created deadline [])
          (λ rs. ret (summary created rs)) s1))
      (summary-Settles truth created
        (run w (poll_loop (suc rounds) api_url created deadline []) s1).0 d good found)
