-- ===== src/LoadTest/Latency.antt =====
-- `printLatencyStats` of cmd/loadtest/main.go. A product of a percentile and a number is computed as
-- in IEEE 754 double precision: rounded to 53 bits, ties to even.
pub mod Rounding
pub mod Statistics
use high_scale_job_scheduler.Prelude.{
  ℕ, zero, suc, pos, negsuc, ◌≡◌, refl, List, [], ◌∷◌, Option, none, some, ◌+◌, ◌-◌, ◌*◌, ◌/◌, ◌%◌,
  ◌^◌, ◌==◌, ◌&&◌, ◌||◌, if◌then◌else◌, ltb, leb_ℤ, ◌+ℤ◌, length,
}
use high_scale_job_scheduler.Models.{Duration}
use high_scale_job_scheduler.Executor.Handlers.{wrap_int}

unfoldable pub insert_sorted : Duration → List Duration → List Duration
insert_sorted d [] = d ∷ []
insert_sorted d (e ∷ es) =
    let rest = insert_sorted d es in if leb_ℤ d e then d ∷ e ∷ es else e ∷ rest

-- `sort.Slice` with `<`: of integers, the result is the same for every way of sorting.
unfoldable pub sort_durations : List Duration → List Duration
sort_durations [] = []
sort_durations (d ∷ ds) = insert_sorted d (sort_durations ds)

-- The bits beyond 53; the first argument bounds them.
excess : ℕ → ℕ → ℕ → ℕ
excess zero k x = k
excess (suc n) k x = let more = excess n (suc k) x in if ltb x (2 ^ (53 + k)) then k else more

-- The multiple of 2^k next to a number, ties to the even one.
round_to : ℕ → ℕ → ℕ
round_to zero x = x
round_to (suc k) x =
    let q = x / 2 ^ suc k in
    let r = x % 2 ^ suc k in
    (if ltb (2 ^ k) r || (r == 2 ^ k && q % 2 == 1) then suc q else q) * 2 ^ suc k

-- `int(p * float64(n))` for p = m / 2^53.
unfoldable pub percentile_index : ℕ → ℕ → ℕ
unfolding excess round_to
percentile_index m n = round_to (excess 64 0 (m * n)) (m * n) / 2 ^ 53

-- 0.50, 0.95 and 0.99 times 2^53.
abbrev pub p50 : ℕ
p50 = 4503599627370496

abbrev pub p95 : ℕ
p95 = 8556839292003942

abbrev pub p99 : ℕ
p99 = 8917127262193582

percentile_index_test : percentile_index p99 100 ≡ 99
unfolding percentile_index excess round_to
percentile_index_test = refl

percentile_index_test_half : percentile_index p50 7 ≡ 3
unfolding percentile_index excess round_to
percentile_index_test_half = refl

-- The element at an index, or the last one from the end on; 0 of none.
unfoldable pub at_or_last : ℕ → List Duration → Duration
at_or_last i [] = pos 0
at_or_last i (d ∷ []) = d
at_or_last zero (d ∷ e ∷ es) = d
at_or_last (suc i) (d ∷ e ∷ es) = at_or_last i (e ∷ es)

-- `pct`.
unfoldable pub percentile : ℕ → List Duration → Duration
unfolding percentile_index at_or_last
percentile m sorted = at_or_last (percentile_index m (length sorted)) sorted

-- A sum of 64-bit integers.
unfoldable pub sum_durations : List Duration → Duration
sum_durations [] = pos 0
sum_durations (d ∷ ds) = wrap_int (d +ℤ sum_durations ds)

-- The quotient of Go, towards 0.
abbrev pub quotient : Duration → ℕ → Duration
quotient (pos s) n = pos (s / n)
quotient (negsuc s) n = if suc s / n == 0 then pos 0 else negsuc (suc s / n - 1)

pub record Stats : Type 0 where
  pub n : ℕ
  pub min : Duration
  pub avg : Duration
  pub p50 : Duration
  pub p95 : Duration
  pub p99 : Duration
  pub max : Duration

-- `none` for "no data".
unfoldable pub print_latency_stats : List Duration → Option Stats
unfolding percentile
print_latency_stats [] = none
print_latency_stats (l ∷ ls) =
    let sorted = sort_durations (l ∷ ls) in
    some (record {
      n = length sorted;
      min = at_or_last 0 sorted;
      avg = quotient (sum_durations sorted) (length sorted);
      p50 = percentile p50 sorted;
      p95 = percentile p95 sorted;
      p99 = percentile p99 sorted;
      max = at_or_last (length sorted - 1) sorted;
    })
