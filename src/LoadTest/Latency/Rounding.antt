-- ===== src/LoadTest/Latency/Rounding.antt =====
-- The product of a percentile and a number of latencies, as `float64` rounds it.
use native.Mathlib.Nat.{pow-suc, div-add-mod, mod-lt}
use high_scale_job_scheduler.Prelude.{
  Bool, true, false, ℕ, zero, suc, ◌+◌, ◌*◌, ◌/◌, ◌%◌, ◌^◌, ◌≤◌, ◌<◌, ◌≡◌, refl, ◌⊎◌, inl, inr,
  arith, ◌&&◌, ◌||◌, ◌==◌, ltb, if◌then◌else◌, Bool-cases, subst,
}
use high_scale_job_scheduler.LoadTest.Latency.{excess, round_to, percentile_index, p50, p95, p99}

-- No bit is dropped, or the number has 53 bits beside those that are.
abbrev Fits : ℕ → ℕ → Type 0
Fits k x = (k ≡ 0) ⊎ (2 ^ (52 + k) ≤ x)

excess-Fits : (n k x : ℕ) → Fits k x → Fits (excess n k x) x
unfolding excess
excess-Fits zero k x h = h
excess-Fits (suc n) k x h = elim (Bool-cases (ltb x (2 ^ (53 + k)))) [
  | inl e ↦ rw e h
  | inr e ↦
      let same : 53 + k ≡ 52 + suc k = omega arith in
      rw e (excess-Fits n (suc k) x (inr (subst (λ m. 2 ^ m ≤ x) same (ground arith))))
]

-- A multiple of `d` next to a number, if it is rounded up from the half `p` on only and down to it
-- only, is off by no more than that half.
near :
    (b : Bool) (p d q r x : ℕ)
    → d ≡ p + p
    → d * q + r ≡ x
    → r < d
    → (b ≡ true → p ≤ r)
    → (b ≡ false → r ≤ p)
    → ((if b then suc q else q) * d ≤ x + p) × (x ≤ (if b then suc q else q) * d + p)
near true p d q r x two e h up down = let l = up refl in (grind arith, grind arith)
near false p d q r x two e h up down = let l = down refl in (grind arith, grind arith)

pow_double : (k : ℕ) → 2 ^ suc k ≡ 2 ^ k + 2 ^ k
pow_double k = omega (arith, pow-suc 2 k)

pow_pos : (k : ℕ) → 0 < 2 ^ k
pow_pos zero = omega arith
pow_pos (suc k) = omega (arith, pow_double k, pow_pos k)

round_to-near : (k x : ℕ) → (round_to (suc k) x ≤ x + 2 ^ k) × (x ≤ round_to (suc k) x + 2 ^ k)
unfolding round_to
round_to-near k x =
    near (ltb (2 ^ k) (x % 2 ^ suc k) || (x % 2 ^ suc k == 2 ^ k && x / 2 ^ suc k % 2 == 1)) (2 ^ k)
      (2 ^ suc k) (x / 2 ^ suc k) (x % 2 ^ suc k) x (pow_double k) (div-add-mod x (2 ^ suc k))
      (mod-lt x (pow_pos (suc k))) (λ h. ground arith) (λ h. ground arith)

pow_split : (k : ℕ) → 2 ^ (52 + suc k) ≡ 2 ^ 53 * 2 ^ k
pow_split zero = refl
pow_split (suc k) =
    let e : 52 + suc (suc k) ≡ suc (52 + suc k) = omega arith in
    rw e (omega (arith, pow_double (52 + suc k), pow_double k, pow_split k))

-- The error of a rounding is less than a sixty-fourth.
round_bound : (k x : ℕ) → Fits k x → (64 * round_to k x ≤ 65 * x) × (63 * x ≤ 64 * round_to k x)
unfolding round_to
round_bound zero x h = (omega arith, omega arith)
round_bound (suc k) x (inl e) = absurd (omega arith)
round_bound (suc k) x (inr h) =
    let (a, b) = round_to-near k x in
    let e = pow_split k in (omega (arith, a, b, e, h), omega (arith, a, b, e, h))

-- The places of the percentiles rise with them.
pub index_p50_p95 : (n : ℕ) → percentile_index p50 n ≤ percentile_index p95 n
unfolding percentile_index
index_p50_p95 n =
    let (a, b) = round_bound _ (p50 * n) (excess-Fits 64 0 (p50 * n) (inl refl)) in
    let (c, d) = round_bound _ (p95 * n) (excess-Fits 64 0 (p95 * n) (inl refl)) in
    omega (arith, a, d)

pub index_p95_p99 : (n : ℕ) → percentile_index p95 n ≤ percentile_index p99 n
unfolding percentile_index
index_p95_p99 n =
    let (a, b) = round_bound _ (p95 * n) (excess-Fits 64 0 (p95 * n) (inl refl)) in
    let (c, d) = round_bound _ (p99 * n) (excess-Fits 64 0 (p99 * n) (inl refl)) in
    omega (arith, a, d)
