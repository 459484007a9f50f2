-- ===== src/Prelude/Strings.antt =====
-- What the program takes from Go's `strings` and `strconv`: `strings.Split` at commas, a prefix cut
-- off, and `strconv.ParseInt` in base 10 with 64 bits.
use Prim.Native.Nat.{ℕ, zero, suc, ◌+◌, ◌*◌, ◌-◌, ◌^◌}
use Prim.Native.Char.{Char, code}
use Prim.Native.String.{String}
use mathlib.Core.Path.{◌≡◌, refl}
use mathlib.Core.Bool.{◌&&◌}
use mathlib.Core.Option.{Option, none, some}
use mathlib.Core.List.{List, [], ◌∷◌}
use high_scale_job_scheduler.Prelude.Tests.{ltb, leb, ◌==◌, if◌then◌else◌}
use high_scale_job_scheduler.Prelude.Int.{ℤ, pos, negsuc}

-- The list is never empty here.
abbrev pub push_char : Char → List String → List String
push_char c [] = String.◌∷◌ c String.[] ∷ []
push_char c (w ∷ ws) = String.◌∷◌ c w ∷ ws

unfoldable pub split_commas : String → List String
split_commas String.[] = String.[] ∷ []
split_commas (String.◌∷◌ c s) =
    let rest = split_commas s in if code c == b',' then String.[] ∷ rest else push_char c rest

-- What is left of a text after a prefix that it has.
unfoldable pub strip_prefix : String → String → Option String
strip_prefix String.[] s = some s
strip_prefix (String.◌∷◌ c p) String.[] = none
strip_prefix (String.◌∷◌ c p) (String.◌∷◌ d s) =
    let rest = strip_prefix p s in if code c == code d then rest else none

-- The digits of a number after those that make up the first argument.
unfoldable pub parse_digits : ℕ → String → Option ℕ
parse_digits acc String.[] = some acc
parse_digits acc (String.◌∷◌ c s) =
    let rest = parse_digits (acc * 10 + (code c - b'0')) s in
    if leb b'0' (code c) && leb (code c) b'9' then rest else none

unfoldable pub parse_nat : String → Option ℕ
parse_nat String.[] = none
parse_nat (String.◌∷◌ c s) = parse_digits 0 (String.◌∷◌ c s)

abbrev pub in_range : Option ℕ → Option ℤ
in_range none = none
in_range (some n) = if ltb n (2 ^ 63) then some (pos n) else none

abbrev pub in_range_negated : Option ℕ → Option ℤ
in_range_negated none = none
in_range_negated (some zero) = some (pos 0)
in_range_negated (some (suc n)) = if ltb n (2 ^ 63) then some (negsuc n) else none

-- An error of `strconv.ParseInt` is `none`.
unfoldable pub parse_int : String → Option ℤ
unfolding parse_nat
parse_int String.[] = none
parse_int (String.◌∷◌ c s) =
    let plain = in_range (parse_nat (String.◌∷◌ c s)) in
    if code c == b'-'
    then in_range_negated (parse_nat s)
    else if code c == b'+'
    then in_range (parse_nat s)
    else plain

split_commas_test : split_commas "a,,bc" ≡ "a" ∷ "" ∷ "bc" ∷ []
unfolding split_commas
split_commas_test = refl

parse_int_test : parse_int "-305" ≡ some (negsuc 304)
unfolding parse_int parse_nat parse_digits
parse_int_test = refl

parse_int_test_range : parse_int "9223372036854775808" ≡ none
unfolding parse_int parse_nat parse_digits
parse_int_test_range = refl

strip_prefix_test : strip_prefix "/jobs/" "/jobs/42" ≡ some "42"
unfolding strip_prefix
strip_prefix_test = refl
