-- ===== src/Executor/Backoff.antt =====
-- internal/executor/runner.go: the delay before a retry.
use native.Mathlib.Nat.{pow-suc}
use mathlib.Core.Logic.{inl, inr}
use high_scale_job_scheduler.Prelude.{
  ℕ, zero, suc, ℤ, pos, negsuc, refl, true, false, ltb, ◌+◌, ◌-◌, ◌*◌, ◌^◌, ◌≤◌, ◌≡◌, ap, arith,
  leb, if◌then◌else◌, Bool-cases,
}
use high_scale_job_scheduler.Models.{Duration}
use high_scale_job_scheduler.Float.{shift_right}
use high_scale_job_scheduler.Executor.{exponential_backoff, second}

one_times : (n : ℕ) → 1 * n ≡ n
one_times n = omega arith

pow_pos : (n : ℕ) → 1 ≤ 2 ^ n
pow_pos zero = omega arith
pow_pos (suc n) = rw pow-suc (omega (arith, pow_pos n))

pow_mono : (k n : ℕ) → 2 ^ n ≤ 2 ^ (k + n)
pow_mono zero n = let e : zero + n ≡ n = omega arith in rw e (omega arith)
pow_mono (suc k) n =
    let e : suc k + n ≡ suc (k + n) = omega arith in rw (e, pow-suc) (omega (arith, pow_mono k n))

pow_le : (m n : ℕ) → m ≤ n → 2 ^ m ≤ 2 ^ n
pow_le m n h = let e : n ≡ n - m + m = omega arith in rw e (pow_mono (n - m) m)

-- The delay over the integers: 2^n seconds after n attempts, no more than 300, and none for a negative
-- number of attempts.
abbrev pub integer_backoff : ℤ → Duration
integer_backoff (pos n) = pos ((if leb n 8 then 2 ^ n else 300) * second)
integer_backoff (negsuc n) = pos 0

shifted_out : (n : ℕ) → shift_right n 0 ≡ 0
shifted_out zero = refl
shifted_out (suc n) = shifted_out n

below_cap : (n : ℕ) → n ≤ 8 → ltb (1 * 2 ^ (n + 0)) (300 * 2 ^ (0 + 0)) ≡ true
below_cap n h =
    let e : n + 0 ≡ n = omega arith in
    let le : 2 ^ n ≤ 256 = pow_le n 8 h in rw e (ground (arith, le))

above_cap : (n : ℕ) → 9 ≤ n → ltb (1 * 2 ^ (n + 0)) (300 * 2 ^ (0 + 0)) ≡ false
above_cap n h =
    let e : n + 0 ≡ n = omega arith in
    let le : 512 ≤ 2 ^ n = pow_le 9 n h in rw e (ground (arith, le))

fraction_below : (n : ℕ) → ltb (1 * 2 ^ (0 + 0)) (300 * 2 ^ (0 + suc n)) ≡ true
fraction_below n = let le : 1 ≤ 2 ^ (0 + suc n) = pow_pos (0 + suc n) in ground (arith, le)

-- The delay that is computed in floating point, with its overflow to +Inf and its underflow to 0, is the
-- delay over the integers, for every number of attempts.
pub backoff_exact : (attempt : ℤ) → exponential_backoff attempt ≡ integer_backoff attempt
unfolding exponential_backoff
backoff_exact (negsuc n) = elim (Bool-cases (leb n 1073)) [
  | inl h ↦ rw (h, fraction_below n, shifted_out n) refl
  | inr h ↦ rw h refl
]
backoff_exact (pos n) = elim (Bool-cases (leb n 8)) [
  | inl h ↦
      let small : leb n 1023 ≡ true = ground (arith, h) in
      rw (small, h, below_cap n (ground (arith, h)))
        (ap (λ k. pos (k * second)) (one_times (2 ^ n)))
  | inr h ↦ elim (Bool-cases (leb n 1023)) [
    | inl g ↦ rw (g, h, above_cap n (ground (arith, h))) refl
    | inr g ↦ rw (g, h) refl
  ]
]
