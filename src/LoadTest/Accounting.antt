-- ===== src/LoadTest/Accounting.antt =====
-- The report of the completion phase of the load test, against what became of the created jobs.
use high_scale_job_scheduler.Prelude.{
  ℕ, zero, suc, pos, ◌≡◌, refl, sym, ◌∙◌, subst, ap, ◌⊎◌, inl, inr, ◌≤◌, ◌+◌, ◌+ℤ◌, ◌-ℤ◌, ◌≤ℤ◌,
  String, Bool, true, false, List, [], ◌∷◌, Option, none, some, All, arith, Bool-cases, str_eq,
  str_eq→eq, length, if◌then◌else◌, ==_iff, ◌==◌, add_pos, sub_pos, ◌-◌, ltb_ℤ, ltb, ◌&&◌,
}
use high_scale_job_scheduler.Errors.{Result, ok, err}
use Prim.Native.String.{◌++◌ as ◌<>◌}
use high_scale_job_scheduler.Models.{Time, Duration}
use high_scale_job_scheduler.Effects.{
  ret, ask, ◌>>=◌, time_now, time_sleep, http_get, HttpReply, JobRecord, Prog, Cmd,
}
use high_scale_job_scheduler.Effects.World.{World, run, run-bind}
use high_scale_job_scheduler.LoadTest.{
  CreatedJob, Results, is_terminal, has_result, set_result, terminal_status, poll_one, poll_all,
  poll_loop, poll_interval, completed_latencies, dlq_count, Summary, summary, completion_phase,
}
use high_scale_job_scheduler.LoadTest.Counting.{
  IsListed, IsLast, IsResults, set_result-All, set_result-Distinct, All-IsListed, count_jobs,
  count-IsResults, count_all, count_all_results, length-results, ends_in, count_completed,
  count_dlq,
}

-- The server tells the truth: a last status that it answers for a job, with 200, is that of the job.
abbrev pub Truthful : World → String → (String → String) → Type 0
Truthful w api_url truth =
    (s : w.State) (id : String) (reply : HttpReply) (rec : JobRecord)
    → (w.exec (http_get (api_url <> "/jobs/" <> id)) s).0 ≡ ok reply
    → reply.status_code ≡ 200
    → reply.body ≡ ok rec
    → (rec.status ≡ "completed") ⊎ (rec.status ≡ "dlq")
    → rec.status ≡ truth id

-- What a response with a last status was.
terminal_of :
    (r : Result HttpReply) (status : String)
    → terminal_status r ≡ some status
    → (reply : HttpReply) × (rec : JobRecord) × (r ≡ ok reply)
      × (reply.status_code ≡ 200)
      × (reply.body ≡ ok rec)
      × (rec.status ≡ status)
      × ((rec.status ≡ "completed") ⊎ (rec.status ≡ "dlq"))
terminal_of (err e) status h = absurd (ground (arith, h))
terminal_of (ok reply) status h = elim (Bool-cases (reply.status_code == 200)) [
  | inr n ↦ absurd (ground (arith, rw (n, terminal_status) at h))
  | inl y ↦
      by_body ((==_iff reply.status_code 200).0 y) reply.body refl (rw (y, terminal_status) at h)
]
  where
    by_body :
        reply.status_code ≡ 200
        → (b : Result JobRecord) → reply.body ≡ b
        → elim b [
          | err e ↦ none
          | ok rec ↦ if is_terminal rec.status then some rec.status else none
        ]
          ≡ some status
        → (reply' : HttpReply) × (rec : JobRecord) × (◌≡◌ {A = Result HttpReply}
            (ok reply)
            (ok reply'))
          × (reply'.status_code ≡ 200)
          × (reply'.body ≡ ok rec)
          × (rec.status ≡ status)
          × ((rec.status ≡ "completed") ⊎ (rec.status ≡ "dlq"))
    by_body code (err e) b g = absurd (ground (arith, g))
    by_body code (ok rec) b g = elim (Bool-cases (str_eq rec.status "completed")) [
      | inl c ↦ (
        reply,
        rec,
        refl,
        code,
        b,
        ground (arith, rw c at g),
        inl (str_eq→eq rec.status "completed" c),
      )
      | inr c ↦ elim (Bool-cases (str_eq rec.status "dlq")) [
        | inl d ↦ (
          reply,
          rec,
          refl,
          code,
          b,
          ground (arith, rw (c, d) at g),
          inr (str_eq→eq rec.status "dlq" d),
        )
        | inr d ↦ absurd (ground (arith, rw (c, d) at g))
      ]
    ]

module _ (w : World) where
  -- What a program answers, from any state.
  abbrev pub Gives : {A : Type 0} → Prog A → (A → Type 0) → Type 0
  Gives m post = (s : w.State) → post (run w m s).0

  pub Gives-bind :
      {A B : Type 0} (m : Prog A) (f : A → Prog B) (mid : A → Type 0) (post : B → Type 0)
      → Gives m mid
      → ((a : A) → mid a → Gives (f a) post)
      → Gives (m >>= f) post
  Gives-bind m f mid post h k s =
      subst (λ r. post r.0) (sym (run-bind w m f s)) (k (run w m s).0 (h s) (run w m s).1)

  module _ (api_url : String) (truth : String → String) (tells : Truthful w api_url truth)
      (created : List CreatedJob) where
    abbrev Good : Results → Type 0
    Good rs = IsResults truth created rs

    poll_one-Gives :
        (job : CreatedJob) (rs : Results)
        → IsListed created job.id
        → Good rs
        → Gives (poll_one api_url job rs) Good
    unfolding poll_one run
    poll_one-Gives job rs m h s =
        by_status (terminal_status (w.exec get_job s).0) refl (w.exec get_job s).1
      where
        get_job : Cmd
        get_job = http_get (api_url <> "/jobs/" <> job.id)

        is_last :
            (status : String)
            → terminal_status (w.exec get_job s).0 ≡ some status
            → ((status ≡ "completed") ⊎ (status ≡ "dlq")) × (status ≡ truth job.id)
        is_last status e =
            let (reply, rec, q, code, body, same, last) =
              terminal_of (w.exec get_job s).0 status e in
            let told = tells s job.id reply rec q code body last in
            (subst (λ k. (k ≡ "completed") ⊎ (k ≡ "dlq")) same last, sym same ∙ told)

        by_status :
            (o : Option String)
            → terminal_status (w.exec get_job s).0 ≡ o
            → Gives
                (elim o [
                  | none ↦ ret rs
                  | some status ↦ ask time_now >>= λ now. ret (
                      set_result job.id
                        (record { status = status; e2e_time = now -ℤ job.created_at })
                        rs)
                ])
                Good
        by_status none e s' = h
        by_status (some status) e s' = record {
          distinct = set_result-Distinct job.id _ rs h.distinct;
          listed = set_result-All (λ k _. IsListed created k) job.id _ rs m h.listed;
          last = set_result-All (IsLast truth) job.id _ rs (is_last status e) h.last;
        }

    poll_all-Gives :
        (jobs : List CreatedJob) (rs : Results)
        → All (λ j. IsListed created j.id) jobs
        → Good rs
        → Gives (poll_all api_url jobs rs) Good
    unfolding poll_all run
    poll_all-Gives [] rs m h = λ s. h
    poll_all-Gives (job ∷ jobs) rs m h = elim (Bool-cases (has_result job.id rs)) [
      | inl e ↦ rw (e, poll_all) (poll_all-Gives jobs rs m.1 h)
      | inr e ↦
          rw (e, poll_all)
            (Gives-bind (poll_one api_url job rs) (poll_all api_url jobs) Good Good
              (poll_one-Gives job rs m.0 h) (λ rs' h'. poll_all-Gives jobs rs' m.1 h'))
    ]

    pub poll_loop-Gives :
        (n : ℕ) (deadline : Time) (rs : Results)
        → Good rs
        → Gives (poll_loop n api_url created deadline rs) Good
    unfolding poll_loop run
    poll_loop-Gives zero deadline rs h s = h
    poll_loop-Gives (suc n) deadline rs h s =
        again (ltb_ℤ (w.exec time_now s).0 deadline && ltb (length rs) (length created))
          (w.exec time_now s).1 (poll_loop-Gives n deadline)
      where
        again :
            (b : Bool) (s : w.State)
            → ((rs' : Results) → Good rs' → Gives (poll_loop n api_url created deadline rs') Good)
            → Good
                (run w
                  (elim b [
                    | false ↦ ret rs
                    | true ↦ ask (time_sleep poll_interval) >>= λ _.
                        poll_all api_url created rs >>= λ rs'.
                        poll_loop n api_url created deadline rs'
                  ])
                  s).0
        again false s k = h
        again true s k =
            Gives-bind (poll_all api_url created rs) (poll_loop n api_url created deadline) Good
              Good (poll_all-Gives created rs (All-IsListed created) h) k
              (w.exec (time_sleep poll_interval) s).1

-- The report against the last statuses: no job counts as completed or as dead-lettered that is not, and
-- the three numbers add up to the jobs, of which none is negative.
pub record Accounts (truth : String → String) (created : List CreatedJob) (sum : Summary)
    : Type 0 where
  pub completed : length sum.completed ≤ count_jobs (ends_in truth "completed") created
  pub dead : sum.dlq ≤ count_jobs (ends_in truth "dlq") created
  pub total : pos (length sum.completed + sum.dlq) +ℤ sum.leftover ≡ pos (length created)
  pub not_negative : pos 0 ≤ℤ sum.leftover

summary-Accounts :
    (truth : String → String) (created : List CreatedJob) (rs : Results)
    → IsResults truth created rs
    → Accounts truth created (summary created rs)
summary-Accounts truth created rs h =
    let some_of = λ (q : String → Bool). count-IsResults q created rs h.distinct h.listed in
    let le : length rs ≤ length created =
      omega (arith, some_of (λ _. true), count_all created, count_all_results rs) in
    let parts = length-results rs in
    let left = length created - length rs in
    record {
      completed =
          omega (arith, count_completed truth rs h.last, some_of (ends_in truth "completed"));
      dead = omega (arith, count_dlq truth rs h.last, some_of (ends_in truth "dlq"));
      total = rw (sub_pos (length created) (length rs) le) (
          add_pos (length (completed_latencies rs) + dlq_count rs) left
          ∙ ap pos (omega (arith, le, parts)));
      not_negative = rw (sub_pos (length created) (length rs) le) (omega arith);
    }

-- If the server tells the truth, that is, a last status, completed or dead-lettered, that it answers with
-- 200 for a job is the job's last one, then whatever else it answers, also to jobs of the same id, and
-- however many rounds are polled, the report of the completion phase counts no more jobs as completed,
-- and no more as dead-lettered, than are; the completed ones, the dead-lettered ones and those that are
-- left over add up to the number of created jobs, and the number left over is not negative.
pub completion_phase-Accounts :
    (w : World) (s : w.State) (rounds : ℕ) (api_url : String) (created : List CreatedJob)
    (max_wait : Duration) (truth : String → String)
    → Truthful w api_url truth
    → Accounts truth created (run w (completion_phase rounds api_url created max_wait) s).0
unfolding completion_phase run
completion_phase-Accounts w s rounds api_url created max_wait truth tells =
    let (now, s1) = w.exec time_now s in
    Gives-bind w (poll_loop rounds api_url created (now +ℤ max_wait) [])
      (λ rs. ret (summary created rs)) (IsResults truth created) (Accounts truth created)
      (poll_loop-Gives w api_url truth tells created rounds (now +ℤ max_wait) []
        (record { distinct = tt; listed = tt; last = tt }))
      (λ rs h _. summary-Accounts truth created rs h) s1
