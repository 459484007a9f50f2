-- ===== src/LoadTest/Counting.antt =====
-- The results of the completion phase of the load test, counted by what became of the jobs.
use high_scale_job_scheduler.Prelude.{
  ℕ, ◌≡◌, ◌≢◌, refl, sym, ◌∙◌, subst, ap, ◌⊎◌, inl, inr, ◌≤◌, ◌+◌, String, Bool, true, false, List,
  [], ◌∷◌, All, All-imp, arith, Bool-cases, str_eq, str_eq→eq, str_eq_refl, length, if◌then◌else◌,
}
use high_scale_job_scheduler.LoadTest.{
  CreatedJob, Outcome, Results, set_result, completed_latencies, dlq_count,
}

abbrev pub IsListed : List CreatedJob → String → Type 0
IsListed [] k = ⊥
IsListed (c ∷ cs) k = (c.id ≡ k) ⊎ IsListed cs k

abbrev IsNew : String → Results → Type 0
IsNew k rs = All (λ (e : String × Outcome). e.0 ≢ k) rs

abbrev Distinct : Results → Type 0
Distinct [] = Unit
Distinct (e ∷ rs) = IsNew e.0 rs × Distinct rs

-- A status that is a job's last one, and that of the job under an id.
abbrev pub IsLast : (String → String) → String → Outcome → Type 0
IsLast truth k o = ((o.status ≡ "completed") ⊎ (o.status ≡ "dlq")) × (o.status ≡ truth k)

-- The results are those of jobs that were created, at most one of each, with their last status.
pub record IsResults (truth : String → String) (created : List CreatedJob) (rs : Results)
    : Type 0 where
  pub distinct : Distinct rs
  pub listed : All (λ (e : String × Outcome). IsListed created e.0) rs
  pub last : All (λ (e : String × Outcome). IsLast truth e.0 e.1) rs

pub set_result-All :
    (P : String → Outcome → Type 0) (k : String) (o : Outcome) (rs : Results)
    → P k o
    → All (λ (e : String × Outcome). P e.0 e.1) rs
    → All (λ (e : String × Outcome). P e.0 e.1) (set_result k o rs)
unfolding set_result
set_result-All P k o [] h a = (h, tt)
set_result-All P k o ((j, p) ∷ rs) h a = elim (Bool-cases (str_eq j k)) [
  | inl e ↦ rw (e, set_result) (h, a.1)
  | inr e ↦ rw (e, set_result) (a.0, set_result-All P k o rs h a.1)
]

other_key : (j k : String) → str_eq j k ≡ false → k ≢ j
other_key j k e q = ground (arith, e, str_eq_refl k, ap (λ m. str_eq m k) q)

pub set_result-Distinct :
    (k : String) (o : Outcome) (rs : Results) → Distinct rs → Distinct (set_result k o rs)
unfolding set_result
set_result-Distinct k o [] d = (tt, tt)
set_result-Distinct k o ((j, p) ∷ rs) d = elim (Bool-cases (str_eq j k)) [
  | inl e ↦ rw (e, set_result) (subst (λ m. IsNew m rs) (str_eq→eq j k e) d.0, d.1)
  | inr e ↦
      rw (e, set_result)
        (set_result-All (λ m _. m ≢ j) k o rs (other_key j k e) d.0, set_result-Distinct k o rs d.1)
]

-- The jobs without the first one of an id.
abbrev pub without : String → List CreatedJob → List CreatedJob
without k [] = []
without k (c ∷ cs) =
    let rest = without k cs in elim (str_eq c.id k) [ true ↦ cs | false ↦ c ∷ rest ]

pub All-IsListed : (done : List CreatedJob) → All (λ j. IsListed done j.id) done
All-IsListed [] = tt
All-IsListed (c ∷ cs) =
    (inl refl, All-imp (λ j. IsListed cs j.id) _ cs (λ j m. inr m) (All-IsListed cs))

-- One for true, and the jobs or results whose ids pass.
abbrev pub tally : Bool → ℕ
tally b = if b then 1 else 0

abbrev pub count_jobs : (String → Bool) → List CreatedJob → ℕ
count_jobs q [] = 0
count_jobs q (c ∷ cs) = tally (q c.id) + count_jobs q cs

abbrev pub count_results : (String → Bool) → Results → ℕ
count_results q [] = 0
count_results q ((k, o) ∷ rs) = tally (q k) + count_results q rs

count-without :
    (q : String → Bool) (k : String) (cs : List CreatedJob)
    → IsListed cs k
    → tally (q k) + count_jobs q (without k cs) ≡ count_jobs q cs
count-without q k [] m = elim m [ ]
count-without q k (c ∷ cs) m = elim (Bool-cases (str_eq c.id k)) [
  | inl e ↦ rw (e, count_jobs, str_eq→eq c.id k e) refl
  | inr e ↦
      let rest =
        count-without q k cs (elim m [ inl h ↦ absurd (other_key c.id k e (sym h)) | inr r ↦ r ]) in
      rw (e, count_jobs) (omega (arith, rest))
]

without-IsListed :
    (k j : String) (cs : List CreatedJob) → j ≢ k → IsListed cs j → IsListed (without k cs) j
without-IsListed k j [] n m = elim m [ ]
without-IsListed k j (c ∷ cs) n m = elim (Bool-cases (str_eq c.id k)) [
  | inl e ↦
      rw (e, IsListed) (elim m [ inl q ↦ absurd (n (sym q ∙ str_eq→eq c.id k e)) | inr r ↦ r ])
  | inr e ↦ rw (e, IsListed) (elim m [ inl q ↦ inl q | inr r ↦ inr (without-IsListed k j cs n r) ])
]

-- There are no more results than jobs, of those whose ids pass.
pub count-IsResults :
    (q : String → Bool) (created : List CreatedJob) (rs : Results)
    → Distinct rs
    → All (λ (e : String × Outcome). IsListed created e.0) rs
    → count_results q rs ≤ count_jobs q created
count-IsResults q created [] d l = omega arith
count-IsResults q created ((k, o) ∷ rs) d l =
    let rest = All-zip rs d.0 l.1 in
    omega (arith, count-without q k created l.0, count-IsResults q (without k created) rs d.1 rest)
  where
    All-zip :
        (rs : Results)
        → IsNew k rs
        → All (λ (e : String × Outcome). IsListed created e.0) rs
        → All (λ (e : String × Outcome). IsListed (without k created) e.0) rs
    All-zip [] n l = tt
    All-zip (e ∷ rs) n l = (without-IsListed k e.0 created n.0 l.0, All-zip rs n.1 l.1)

pub count_all : (cs : List CreatedJob) → count_jobs (λ _. true) cs ≡ length cs
count_all [] = refl
count_all (c ∷ cs) = omega (arith, count_all cs)

pub count_all_results : (rs : Results) → count_results (λ _. true) rs ≡ length rs
count_all_results [] = refl
count_all_results ((k, o) ∷ rs) = omega (arith, count_all_results rs)

pub length-results : (rs : Results) → length (completed_latencies rs) + dlq_count rs ≡ length rs
unfolding completed_latencies dlq_count
length-results [] = refl
length-results ((k, o) ∷ rs) = ground (arith, length-results rs)

-- The jobs whose last status is the given one.
abbrev pub ends_in : (String → String) → String → String → Bool
ends_in truth status id = str_eq (truth id) status

pub count_completed :
    (truth : String → String) (rs : Results)
    → All (λ (e : String × Outcome). IsLast truth e.0 e.1) rs
    → length (completed_latencies rs) ≡ count_results (ends_in truth "completed") rs
unfolding completed_latencies
count_completed truth [] a = refl
count_completed truth ((k, o) ∷ rs) a =
    let same : str_eq o.status "completed" ≡ str_eq (truth k) "completed" =
      ap (λ m. str_eq m "completed") a.0.1 in
    ground (arith, same, count_completed truth rs a.1)

pub count_dlq :
    (truth : String → String) (rs : Results)
    → All (λ (e : String × Outcome). IsLast truth e.0 e.1) rs
    → dlq_count rs ≡ count_results (ends_in truth "dlq") rs
unfolding dlq_count
count_dlq truth [] a = refl
count_dlq truth ((k, o) ∷ rs) a = elim a.0.0 [
  | inl c ↦
      let t : truth k ≡ "completed" = sym a.0.1 ∙ c in
      rw (c, t) (omega (arith, count_dlq truth rs a.1))
  | inr d ↦
      let t : truth k ≡ "dlq" = sym a.0.1 ∙ d in rw (d, t) (omega (arith, count_dlq truth rs a.1))
]
