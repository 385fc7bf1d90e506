-- ===== src/Strconv/RoundTrip.antt =====
-- `strconv.ParseInt` reads what `strconv.FormatInt` writes, as far as the timeouts of pod_manager.go
-- and validation_manager.go rest on it.
use Prim.Native.Nat.{◌*◌, ◌/◌, ◌%◌, ◌^◌}
use Prim.Native.String as Text
use mathlib.Core.List.{append_assoc, append-nil}
use text.Mathlib.TextLemmas.{nil-append, cons-append}
use k8s_operator_libs.Prelude.{
  ℕ, zero, suc, ◌+◌, ◌<◌, ◌≤◌, String, ◌≡◌, refl, sym, ap, ◌∙◌, true, Bool-cases, inl, inr, some,
  List, [], ◌∷◌, ◌++◌, arith, ltb,
}
use k8s_operator_libs.Prelude.Int.{ℤ, pos, negsuc, ◌+ℤ◌}
use k8s_operator_libs.Act.{ok}
use k8s_operator_libs.Strconv.{
  codes, digit_text, format_digits, format_int, parse_digits, parse_natural, of_positive,
  of_negative, parse_codes, parse_int, to_bits, of_bits, add_int64,
}

-- The texts' own lists: `++` below is that of code points.
codes-append : (s t : String) → codes (Text.◌++◌ s t) ≡ codes s ++ codes t
unfolding codes
codes-append String.[] t = rw nil-append refl
codes-append (String.◌∷◌ c s) t = rw (cons-append c s t, codes-append s t) refl

digit_codes : (d : ℕ) → d < 10 → codes (digit_text d) ≡ (b'0' + d) ∷ []
unfolding digit_text codes
digit_codes zero h = refl
digit_codes (suc zero) h = refl
digit_codes (suc (suc zero)) h = refl
digit_codes (suc (suc (suc zero))) h = refl
digit_codes (suc (suc (suc (suc zero)))) h = refl
digit_codes (suc (suc (suc (suc (suc zero))))) h = refl
digit_codes (suc (suc (suc (suc (suc (suc zero)))))) h = refl
digit_codes (suc (suc (suc (suc (suc (suc (suc zero))))))) h = refl
digit_codes (suc (suc (suc (suc (suc (suc (suc (suc zero)))))))) h = refl
digit_codes (suc (suc (suc (suc (suc (suc (suc (suc (suc zero))))))))) h = refl
digit_codes (suc (suc (suc (suc (suc (suc (suc (suc (suc (suc d)))))))))) h = absurd (omega arith)

-- So many numbers have no more than so many digits.
limit : ℕ → ℕ
limit zero = 1
limit (suc fuel) = 10 * limit fuel

-- Reading one digit more.
parse_digits-digit :
    (n d : ℕ) (rest : List ℕ)
    → d < 10
    → parse_digits n ((b'0' + d) ∷ rest) ≡ parse_digits (n * 10 + d) rest
unfolding parse_digits
parse_digits-digit n d rest h = ground arith

parse_last :
    (n : ℕ) (rest : List ℕ) → n < 10 → parse_digits 0 ((b'0' + n) ∷ rest) ≡ parse_digits n rest
parse_last n rest h =
    parse_digits-digit 0 n rest h ∙ ap (λ (k : ℕ). parse_digits k rest) (omega arith)

last_digit : (n : ℕ) → n / 10 * 10 + n % 10 ≡ n
last_digit n = omega arith

-- Reading the digits of a number gives the number, whatever follows.
parse_digits-format_digits :
    (fuel n : ℕ) (rest : List ℕ)
    → n < limit (suc fuel)
    → parse_digits 0 (codes (format_digits (suc fuel) n) ++ rest) ≡ parse_digits n rest
unfolding limit format_digits
parse_digits-format_digits zero n rest h =
    let last : ltb n 10 ≡ true = ground arith in
    rw last (rw (digit_codes n (omega arith)) (parse_last n rest (omega arith)))
parse_digits-format_digits (suc fuel) n rest h = elim (Bool-cases (ltb n 10)) [
  | inl last ↦ rw last (rw (digit_codes n (ground arith)) (parse_last n rest (ground arith)))
  | inr more ↦ rw more (
      rw
        (
          codes-append (format_digits (suc fuel) (n / 10)) (digit_text (n % 10)),
          digit_codes (n % 10) (omega arith),
          append_assoc (codes (format_digits (suc fuel) (n / 10))) ((b'0' + n % 10) ∷ []) rest,
        )
        (parse_digits-format_digits fuel (n / 10) ((b'0' + n % 10) ∷ rest) (omega arith)
          ∙ parse_digits-digit (n / 10) (n % 10) rest (omega arith)
          ∙ ap (λ (k : ℕ). parse_digits k rest) (last_digit n)))
]

-- A text of code points that begins with a digit.
record IsNumeral (text : List ℕ) : Type 0 where
  first : ℕ
  rest : List ℕ
  shape : text ≡ first ∷ rest
  is_digit : (b'0' ≤ first) × (first ≤ b'9')

IsNumeral-append : (text more : List ℕ) → IsNumeral text → IsNumeral (text ++ more)
IsNumeral-append text more k = record {
  first = k.first;
  rest = k.rest ++ more;
  shape = ap (λ t. t ++ more) k.shape;
  is_digit = k.is_digit;
}

digit-IsNumeral : (d : ℕ) → d < 10 → IsNumeral (codes (digit_text d))
digit-IsNumeral d h = record {
  first = b'0' + d;
  rest = [];
  shape = digit_codes d h;
  is_digit = omega arith;
}

format_digits-IsNumeral :
    (fuel n : ℕ) → n < limit (suc fuel) → IsNumeral (codes (format_digits (suc fuel) n))
unfolding limit format_digits
format_digits-IsNumeral zero n h =
    let last : ltb n 10 ≡ true = ground arith in rw last (digit-IsNumeral n (omega arith))
format_digits-IsNumeral (suc fuel) n h = elim (Bool-cases (ltb n 10)) [
  | inl last ↦ rw last (digit-IsNumeral n (ground arith))
  | inr more ↦ rw more (
      rw (codes-append (format_digits (suc fuel) (n / 10)) (digit_text (n % 10))) (
        IsNumeral-append (codes (format_digits (suc fuel) (n / 10))) _
          (format_digits-IsNumeral fuel (n / 10) (omega arith))))
]

parse_natural-eq : (text : List ℕ) → IsNumeral text → parse_natural text ≡ parse_digits 0 text
unfolding parse_natural
parse_natural-eq text k = rw k.shape refl

parse_codes-eq :
    (text : List ℕ) → IsNumeral text → parse_codes text ≡ of_positive (parse_natural text)
unfolding parse_codes
parse_codes-eq text k = rw k.shape (let digit = k.is_digit in ground arith)

-- The values of int64.
abbrev pub IsInt64 : ℤ → Type 0
IsInt64 (pos n) = n < 2 ^ 63
IsInt64 (negsuc n) = n < 2 ^ 63

fits : (n : ℕ) → n ≤ 2 ^ 63 → n < limit 20
unfolding limit
fits n h = omega arith

parse_natural-format_digits :
    (n : ℕ) → n ≤ 2 ^ 63 → parse_natural (codes (format_digits 20 n)) ≡ some n
unfolding parse_digits
parse_natural-format_digits n h =
    parse_natural-eq _ (format_digits-IsNumeral 19 n (fits n h))
    ∙ ap (parse_digits 0) (sym (append-nil (codes (format_digits 20 n))))
    ∙ parse_digits-format_digits 19 n [] (fits n h)

of_negative-suc : (n : ℕ) → n < 2 ^ 63 → of_negative (some (suc n)) ≡ ok (negsuc n)
unfolding of_negative
of_negative-suc n h = ground arith

-- A number behind a minus sign.
minus_sign :
    (text : String) (n : ℕ)
    → parse_natural (codes text) ≡ some (n + 1)
    → n < 2 ^ 63
    → parse_int (Text.◌++◌ "-" text) ≡ ok (negsuc n)
unfolding parse_int parse_codes
minus_sign text n e h =
    let next : n + 1 ≡ suc n = omega arith in
    rw (codes-append "-" text)
      (ap of_negative (e ∙ ap (λ (k : ℕ). some k) next) ∙ of_negative-suc n h)

-- Every int64 is read back from its decimal text.
pub parse_int-format_int : (z : ℤ) → IsInt64 z → parse_int (format_int z) ≡ ok z
unfolding parse_int format_int
parse_int-format_int (pos n) h =
    parse_codes-eq _ (format_digits-IsNumeral 19 n (fits n (omega arith)))
    ∙ ap of_positive (parse_natural-format_digits n (omega arith))
    ∙ (unfold of_positive in ground arith)
parse_int-format_int (negsuc n) h =
    minus_sign (format_digits 20 (n + 1)) n (parse_natural-format_digits (n + 1) (omega arith)) h

-- The sum of the code is the sum, as long as it is an int64.
pub add_int64-eq : (a b : ℤ) → IsInt64 (a +ℤ b) → add_int64 a b ≡ a +ℤ b
unfolding add_int64
add_int64-eq a b h = of_sum (a +ℤ b) h
  where
    of_sum : (z : ℤ) → IsInt64 z → of_bits (to_bits z) ≡ z
    of_sum (pos n) h = ground arith
    of_sum (negsuc n) h = ground arith
