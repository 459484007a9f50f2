-- ===== src/LoadTest/Latency/Statistics.antt =====
-- The numbers that `printLatencyStats` prints, as statistics of the latencies.
use mathlib.Core.List.{Memᴰ}
use high_scale_job_scheduler.Prelude.{
  ℕ, zero, suc, ◌-◌, ◌≤◌, ◌<◌, ◌≡◌, refl, inl, inr, List, [], ◌∷◌, Option, none, some, All, All-imp,
  arith, ◌≤ℤ◌, leb_ℤ, Bool-cases, length,
}
use high_scale_job_scheduler.Models.{Duration}
use high_scale_job_scheduler.LoadTest.Latency.{
  Stats, insert_sorted, sort_durations, at_or_last, percentile, print_latency_stats,
}
use high_scale_job_scheduler.LoadTest.Latency.Rounding.{index_p50_p95, index_p95_p99}

abbrev IsSorted : List Duration → Type 0
IsSorted [] = Unit
IsSorted (d ∷ ds) = All (λ e. d ≤ℤ e) ds × IsSorted ds

module _ (P : Duration → Type 0) where
  All-insert_sorted :
      (d : Duration) (es : List Duration) → P d → All P es → All P (insert_sorted d es)
  unfolding insert_sorted
  All-insert_sorted d [] p a = (p, tt)
  All-insert_sorted d (e ∷ es) p a = elim (Bool-cases (leb_ℤ d e)) [
    | inl h ↦ rw h (p, a)
    | inr h ↦ rw h (a.0, All-insert_sorted d es p a.1)
  ]

  insert_sorted-All :
      (d : Duration) (es : List Duration) → All P (insert_sorted d es) → P d × All P es
  unfolding insert_sorted
  insert_sorted-All d [] a = (a.0, tt)
  insert_sorted-All d (e ∷ es) a = elim (Bool-cases (leb_ℤ d e)) [
    | inl h ↦ let b : P d × (P e × All P es) = rw h at a in b
    | inr h ↦
        let b : P e × All P (insert_sorted d es) = rw h at a in
        let (p, rest) = insert_sorted-All d es b.1 in (p, (b.0, rest))
  ]

  All-sort_durations : (ds : List Duration) → All P ds → All P (sort_durations ds)
  unfolding sort_durations
  All-sort_durations [] a = tt
  All-sort_durations (d ∷ ds) a =
      All-insert_sorted d (sort_durations ds) a.0 (All-sort_durations ds a.1)

  sort_durations-All : (ds : List Duration) → All P (sort_durations ds) → All P ds
  unfolding sort_durations
  sort_durations-All [] a = tt
  sort_durations-All (d ∷ ds) a =
      let (p, rest) = insert_sorted-All d (sort_durations ds) a in (p, sort_durations-All ds rest)

  All-at_or_last :
      (i : ℕ) (d : Duration) (ds : List Duration) → All P (d ∷ ds) → P (at_or_last i (d ∷ ds))
  unfolding at_or_last
  All-at_or_last i d [] a = a.0
  All-at_or_last zero d (e ∷ ds) a = a.0
  All-at_or_last (suc i) d (e ∷ ds) a = All-at_or_last i e ds a.1

insert_sorted-IsSorted :
    (d : Duration) (es : List Duration) → IsSorted es → IsSorted (insert_sorted d es)
unfolding insert_sorted
insert_sorted-IsSorted d [] s = (tt, tt)
insert_sorted-IsSorted d (e ∷ es) s = elim (Bool-cases (leb_ℤ d e)) [
  | inl h ↦
      let le : d ≤ℤ e = ground arith in
      rw h ((le, All-imp (λ f. e ≤ℤ f) (λ f. d ≤ℤ f) es (λ f l. omega arith) s.0), s)
  | inr h ↦
      rw h
        (All-insert_sorted (λ f. e ≤ℤ f) d es (ground arith) s.0, insert_sorted-IsSorted d es s.1)
]

sort_durations-IsSorted : (ds : List Duration) → IsSorted (sort_durations ds)
unfolding sort_durations
sort_durations-IsSorted [] = tt
sort_durations-IsSorted (d ∷ ds) =
    insert_sorted-IsSorted d (sort_durations ds) (sort_durations-IsSorted ds)

length-insert_sorted :
    (d : Duration) (es : List Duration) → length (insert_sorted d es) ≡ suc (length es)
unfolding insert_sorted
length-insert_sorted d [] = refl
length-insert_sorted d (e ∷ es) = ground (arith, length-insert_sorted d es)

length-sort_durations : (ds : List Duration) → length (sort_durations ds) ≡ length ds
unfolding sort_durations
length-sort_durations [] = refl
length-sort_durations (d ∷ ds) =
    omega (arith, length-insert_sorted d (sort_durations ds), length-sort_durations ds)

-- In a sorted list a later place has a greater element, and the first and the last place the least and
-- the greatest.
at_or_last_mono :
    (i j : ℕ) (ds : List Duration) → i ≤ j → IsSorted ds → at_or_last i ds ≤ℤ at_or_last j ds
unfolding at_or_last
at_or_last_mono i j [] h s = omega arith
at_or_last_mono i j (d ∷ []) h s = omega arith
at_or_last_mono zero zero (d ∷ e ∷ ds) h s = omega arith
at_or_last_mono zero (suc j) (d ∷ e ∷ ds) h s = All-at_or_last (λ f. d ≤ℤ f) j e ds s.0
at_or_last_mono (suc i) zero (d ∷ e ∷ ds) h s = absurd (omega arith)
at_or_last_mono (suc i) (suc j) (d ∷ e ∷ ds) h s = at_or_last_mono i j (e ∷ ds) (omega arith) s.1

first_least : (ds : List Duration) → IsSorted ds → All (λ d. at_or_last 0 ds ≤ℤ d) ds
unfolding at_or_last
first_least [] s = tt
first_least (d ∷ []) s = (omega arith, tt)
first_least (d ∷ e ∷ ds) s = (omega arith, s.0)

last_greatest :
    (i : ℕ) (ds : List Duration)
    → length ds ≤ suc i
    → IsSorted ds
    → All (λ d. d ≤ℤ at_or_last i ds) ds
unfolding at_or_last
last_greatest i [] h s = tt
last_greatest i (d ∷ []) h s = (omega arith, tt)
last_greatest zero (d ∷ e ∷ ds) h s = absurd (omega arith)
last_greatest (suc i) (d ∷ e ∷ ds) h s =
    (All-at_or_last (λ f. d ≤ℤ f) i e ds s.0, last_greatest i (e ∷ ds) (omega arith) s.1)

-- The least, the greatest and the percentiles are latencies, and lie in that order.
pub record IsSummary (ls : List Duration) (st : Stats) : Type 0 where
  pub count : st.n ≡ length ls
  pub least : All (λ d. st.min ≤ℤ d) ls
  pub greatest : All (λ d. d ≤ℤ st.max) ls
  pub p50_le_p95 : st.p50 ≤ℤ st.p95
  pub p95_le_p99 : st.p95 ≤ℤ st.p99
  pub taken : Memᴰ st.min ls × Memᴰ st.p50 ls × Memᴰ st.p95 ls × Memᴰ st.p99 ls × Memᴰ st.max ls

-- "No data" for no latencies only.
abbrev pub Reports : List Duration → Option Stats → Type 0
Reports [] o = o ≡ none
Reports (l ∷ ls) none = ⊥
Reports (l ∷ ls) (some st) = IsSummary (l ∷ ls) st

own_members : (ls : List Duration) → All (λ d. Memᴰ d ls) ls
own_members [] = tt
own_members (l ∷ ls) = (
  Memᴰ.head refl,
  All-imp (λ d. Memᴰ d ls) (λ d. Memᴰ d (l ∷ ls)) ls (λ d m. Memᴰ.tail m) (own_members ls),
)

All-at :
    (P : Duration → Type 0) (i : ℕ) (ds : List Duration)
    → 0 < length ds
    → All P ds
    → P (at_or_last i ds)
All-at P i [] h a = absurd (omega arith)
All-at P i (d ∷ ds) h a = All-at_or_last P i d ds a

-- Without latencies there is no data. With some, the numbers that are printed are those of the
-- latencies: their count; the least and the greatest of them, and three of them for the percentiles,
-- of which that of 50 is at most that of 95 and this at most that of 99, although their places are
-- computed in floating point.
pub print_latency_stats-Reports : (ls : List Duration) → Reports ls (print_latency_stats ls)
unfolding print_latency_stats percentile
print_latency_stats-Reports [] = refl
print_latency_stats-Reports (l ∷ ls) =
    let sorted = sort_durations (l ∷ ls) in
    let size = length-sort_durations (l ∷ ls) in
    let s = sort_durations-IsSorted (l ∷ ls) in
    let member = λ (i : ℕ).
      All-at (λ d. Memᴰ d (l ∷ ls)) i sorted (omega (arith, size))
        (All-sort_durations (λ d. Memᴰ d (l ∷ ls)) (l ∷ ls) (own_members (l ∷ ls))) in
    record {
      count = size;
      least = sort_durations-All (λ d. at_or_last 0 sorted ≤ℤ d) (l ∷ ls) (first_least sorted s);
      greatest =
          sort_durations-All (λ d. d ≤ℤ at_or_last (length sorted - 1) sorted) (l ∷ ls)
            (last_greatest (length sorted - 1) sorted (omega arith) s);
      p50_le_p95 = at_or_last_mono _ _ sorted (index_p50_p95 (length sorted)) s;
      p95_le_p99 = at_or_last_mono _ _ sorted (index_p95_p99 (length sorted)) s;
      taken = (member 0, member _, member _, member _, member (length sorted - 1));
    }
