-- ===== src/Prelude/Text.antt =====
-- Texts are compared whole; a number is printed in decimal, as by `%d`.
use Prim.Native.Nat.{ℕ, zero, suc, ◌/◌, ◌%◌}
use Prim.Native.String.{String, ◌++◌}
use mathlib.Core.Path.{◌≡◌, refl}
use mathlib.Core.Bool.{Bool, true}
use text.Mathlib.Text.{◌==◌ as text_eq}
use text.Mathlib.TextEquality.{eq_iff}
use high_scale_job_scheduler.Prelude.Tests.{ltb, ◌==◌, if◌then◌else◌}
use high_scale_job_scheduler.Prelude.Int.{ℤ, pos, negsuc}

abbrev pub str_eq : String → String → Bool
str_eq = text_eq

pub str_eq→eq : (s t : String) → str_eq s t ≡ true → s ≡ t
str_eq→eq s t = (eq_iff s t).0

pub str_eq_refl : (s : String) → str_eq s s ≡ true
str_eq_refl s = (eq_iff s s).1 refl

digit : ℕ → String
digit d =
    if d == 0
    then "0"
    else if d == 1
    then "1"
    else if d == 2
    then "2"
    else if d == 3
    then "3"
    else if d == 4
    then "4"
    else if d == 5
    then "5"
    else if d == 6
    then "6"
    else if d == 7
    then "7"
    else if d == 8
    then "8"
    else "9"

-- The first argument bounds the digits.
digits : ℕ → ℕ → String
unfolding digit
digits zero n = ""
digits (suc k) n =
    let front = digits k (n / 10) in if ltb n 10 then digit n else front ++ digit (n % 10)

-- A 64-bit number has at most twenty digits.
unfoldable pub print_int : ℤ → String
unfolding digits
print_int (pos n) = digits 20 n
print_int (negsuc n) = "-" ++ digits 20 (suc n)

print_int_test : print_int (negsuc 1304) ≡ "-1305"
unfolding print_int
print_int_test = refl
