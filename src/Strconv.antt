-- ===== src/Strconv.antt =====
-- `strconv.FormatInt(i, 10)` and `strconv.ParseInt(s, 10, 64)` of Go's standard library, int64 addition,
-- and the durations of package `time`.
pub mod RoundTrip
use Prim.Native.Nat.{◌*◌, ◌/◌, ◌%◌, ◌^◌}
use Prim.Native.Char.{code}
use Prim.Native.String.{◌++◌}
use k8s_operator_libs.Prelude.{
  ℕ, zero, suc, ◌+◌, ◌-◌, String, ◌&&◌, Option, none, some, List, [], ◌∷◌, leb, ltb, ◌≡◌, refl,
  if◌then◌else◌,
}
use k8s_operator_libs.Prelude.Int.{ℤ, pos, negsuc, ◌+ℤ◌}
use k8s_operator_libs.Act.{Error, Result, ok, err}

-- The code points of a text.
codes : String → List ℕ
codes String.[] = []
codes (String.◌∷◌ character text) = code character ∷ codes text

digit_text : ℕ → String
digit_text d =
    if leb d 4
    then (if leb d 1
        then (if leb d 0 then "0" else "1")
        else if leb d 2
        then "2"
        else if leb d 3
        then "3"
        else "4")
    else if leb d 6
    then (if leb d 5 then "5" else "6")
    else if leb d 7
    then "7"
    else if leb d 8
    then "8"
    else "9"

-- The digits of a number; the fuel bounds how many.
format_digits : ℕ → ℕ → String
format_digits zero n = ""
format_digits (suc fuel) n =
    let front = format_digits fuel (n / 10) in
    if ltb n 10 then digit_text n else front ++ digit_text (n % 10)

-- An int64 has at most nineteen digits.
unfoldable pub format_int : ℤ → String
unfolding format_digits digit_text
format_int (pos n) = format_digits 20 n
format_int (negsuc n) = "-" ++ format_digits 20 (n + 1)

-- The value of a text of decimal digits, on the value so far.
parse_digits : ℕ → List ℕ → Option ℕ
parse_digits n [] = some n
parse_digits n (c ∷ cs) =
    let rest = parse_digits (n * 10 + (c - b'0')) cs in
    if leb b'0' c && leb c b'9' then rest else none

parse_natural : List ℕ → Option ℕ
unfolding parse_digits
parse_natural [] = none
parse_natural (c ∷ cs) = parse_digits 0 (c ∷ cs)

abbrev parse_error : Error
parse_error = Error.message "strconv.ParseInt"

of_positive : Option ℕ → Result ℤ
of_positive none = err parse_error
of_positive (some n) = if ltb n (2 ^ 63) then ok (pos n) else err parse_error

of_negative : Option ℕ → Result ℤ
of_negative none = err parse_error
of_negative (some zero) = ok (pos 0)
of_negative (some (suc n)) = if ltb n (2 ^ 63) then ok (negsuc n) else err parse_error

parse_codes : List ℕ → Result ℤ
unfolding parse_natural of_positive of_negative
parse_codes [] = err parse_error
parse_codes (c ∷ cs) =
    if leb c b'+' && leb b'+' c
    then of_positive (parse_natural cs)
    else if leb c b'-' && leb b'-' c
    then of_negative (parse_natural cs)
    else of_positive (parse_natural (c ∷ cs))

unfoldable pub parse_int : String → Result ℤ
unfolding parse_codes codes
parse_int s = parse_codes (codes s)

-- Two's complement: the bit pattern of an integer, and the integer of a bit pattern.
abbrev to_bits : ℤ → ℕ
to_bits (pos n) = n % 2 ^ 64
to_bits (negsuc n) = 2 ^ 64 - 1 - n % 2 ^ 64

abbrev of_bits : ℕ → ℤ
of_bits b = if ltb b (2 ^ 63) then pos b else negsuc (2 ^ 64 - 1 - b)

-- `a + b` on int64.
unfoldable pub add_int64 : ℤ → ℤ → ℤ
add_int64 a b = of_bits (to_bits (a +ℤ b))

-- `time.Duration(n) * time.Second`: the nanoseconds, an int64 product that wraps around.
unfoldable pub seconds : ℤ → ℤ
seconds (pos n) = of_bits (to_bits (pos (n * 1000000000)))
seconds (negsuc n) = of_bits (to_bits (negsuc (n * 1000000000 + 999999999)))

parse_format_tests :
    (parse_int (format_int (pos 1700000000)) ≡ ok (pos 1700000000))
    × (parse_int (format_int (negsuc 41)) ≡ ok (negsuc 41))
    × (parse_int "9223372036854775808" ≡ err parse_error)
    × (parse_int "-9223372036854775808" ≡ ok (negsuc 9223372036854775807))
    × (parse_int "12x" ≡ err parse_error)
    × (parse_int "" ≡ err parse_error)
unfolding parse_int format_int
parse_format_tests = (refl, refl, refl, refl, refl, refl)

add_int64_tests :
    (add_int64 (pos 1700000000) (pos 600) ≡ pos 1700000600)
    × (add_int64 (pos 9223372036854775807) (pos 1) ≡ negsuc 9223372036854775807)
unfolding add_int64 ◌+ℤ◌
add_int64_tests = (refl, refl)

seconds_tests :
    (seconds (pos 300) ≡ pos 300000000000)
    × (seconds (negsuc 0) ≡ negsuc 999999999)
    × (seconds (pos 9223372037) ≡ negsuc 9223372036709551615)
unfolding seconds
seconds_tests = (refl, refl, refl)
