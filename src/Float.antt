-- ===== src/Float.antt =====
-- The float64 arithmetic of internal/executor/runner.go, on values that are not negative: Go's `math.Pow`
-- of 2, `math.Min` and the conversion to an integer.
use high_scale_job_scheduler.Prelude.{
  ℕ, zero, suc, ℤ, pos, negsuc, Bool, true, false, ◌+◌, ◌*◌, ◌/◌, ◌^◌, ltb, leb, if◌then◌else◌,
  pos_part, neg_part,
}

-- A mantissa times a power of two, or +Inf.
pub data Float64 : Type 0 where
  finite : ℕ → ℤ → Float64
  infinity : Float64

-- `math.Pow(2, x)` of an integer: exact between the least subnormal number and the greatest power of
-- two, 0 below and +Inf above. A conversion of the exponent to float64 rounds only where these hold.
abbrev pub pow_two : ℤ → Float64
pow_two (pos n) = if leb n 1023 then finite 1 (pos n) else infinity
pow_two (negsuc n) = if leb n 1073 then finite 1 (negsuc n) else finite 0 (pos 0)

-- `x < y`, over a common exponent.
abbrev pub less : Float64 → Float64 → Bool
less infinity y = false
less (finite m e) infinity = true
less (finite m e) (finite n f) =
    ltb (m * 2 ^ (pos_part e + neg_part f)) (n * 2 ^ (pos_part f + neg_part e))

-- `math.Min`
abbrev pub min_float : Float64 → Float64 → Float64
min_float x y = if less x y then x else y

-- A number shifted to the right.
abbrev pub shift_right : ℕ → ℕ → ℕ
shift_right zero m = m
shift_right (suc n) m = shift_right n (m / 2)

-- The conversion to int64, which drops the fraction; of +Inf as amd64 gives it.
abbrev pub to_int : Float64 → ℤ
to_int (finite m (pos n)) = pos (m * 2 ^ n)
to_int (finite m (negsuc n)) = pos (shift_right (suc n) m)
to_int infinity = negsuc 0x7fffffffffffffff
