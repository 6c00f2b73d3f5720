-- ===== src/Base/Decimal.antt =====
-- strconv.FormatInt and strconv.ParseInt in base 10. An int64 is its bit pattern, below 2 ^ 64.
use Prim.Native.Nat.{ℕ, zero, suc, ◌+◌, ◌-◌, ◌*◌, ◌/◌, ◌%◌, ◌^◌, ◌<◌, ◌≤◌}
use mathlib.Core.Path.{◌≡◌, ◌∙◌, refl}
use mathlib.Core.Logic.{inl, inr}
use mathlib.Core.Bool.{Bool, true, false, ◌&&◌}
use mathlib.Core.List.{[], ◌∷◌}
use mathlib.Core.Option.{Option, none, some}
use native.Mathlib.Omega.{arith}
use opentelemetry_kinesis_st.Base.Tests.{ltb, leb, ◌==◌, if◌then◌else◌, Bool-cases}
use opentelemetry_kinesis_st.Base.Strings.{Str}

abbrev pub word_mod : ℕ
word_mod = 2 ^ 64

abbrev sign_bit : ℕ
sign_bit = 2 ^ 63

-- The digits of a number in front of `out`; one unit of fuel for each.
unfoldable pub digits : ℕ → ℕ → Str → Str
digits zero n out = out
digits (suc f) n out =
    let more = digits f (n / 10) ((48 + n % 10) ∷ out) in if ltb n 10 then (48 + n) ∷ out else more

-- A uint64 has at most twenty digits.
unfoldable pub format_int : ℕ → Str
unfolding digits
format_int w = if ltb w sign_bit then digits 20 w [] else 45 ∷ digits 20 (word_mod - w) []

-- The number that digits spell behind `n`; `none` for another byte.
unfoldable pub scan_digits : Str → ℕ → Option ℕ
scan_digits [] n = some n
scan_digits (c ∷ s) n = if leb 48 c && leb c 57 then scan_digits s (n * 10 + (c - 48)) else none

unfoldable pub parse_digits : Str → Option ℕ
unfolding scan_digits
parse_digits [] = none
parse_digits (c ∷ s) = scan_digits (c ∷ s) 0

-- What fits in an int64, with its sign.
unfoldable pub in_range : Bool → Option ℕ → Option ℕ
in_range negative none = none
in_range true (some v) = if leb v sign_bit then some ((word_mod - v) % word_mod) else none
in_range false (some v) = if ltb v sign_bit then some v else none

unfoldable pub parse_int : Str → Option ℕ
unfolding in_range parse_digits
parse_int [] = none
parse_int (c ∷ s) =
    if c == 45
    then in_range true (parse_digits s)
    else if c == 43
    then in_range false (parse_digits s)
    else in_range false (parse_digits (c ∷ s))

pow10 : ℕ → ℕ
pow10 zero = 1
pow10 (suc f) = 10 * pow10 f

-- Reading the digits back continues behind them with the number.
scan-digits :
    (f n : ℕ) (out : Str) → 0 < f → n < pow10 f → scan_digits (digits f n out) 0 ≡ scan_digits out n
unfolding digits scan_digits pow10
scan-digits zero n out p h = absurd (omega arith)
scan-digits (suc zero) n out p h = ground arith
scan-digits (suc (suc f)) n out p h = elim (Bool-cases (ltb n 10)) [
  | inl small ↦ rw small (ground arith)
  | inr large ↦ rw large (
      scan-digits (suc f) (n / 10) ((48 + n % 10) ∷ out) (omega arith) (ground arith)
      ∙ ground arith)
]

-- A digit stands first, so no sign is read.
StartsWithDigit : Str → Type 0
StartsWithDigit [] = ⊥
StartsWithDigit (c ∷ s) = (48 ≤ c) × (c ≤ 57)

digits-StartsWithDigit :
    (f n : ℕ) (out : Str) → StartsWithDigit out → StartsWithDigit (digits f n out)
unfolding digits StartsWithDigit
digits-StartsWithDigit zero n out h = h
digits-StartsWithDigit (suc f) n out h = elim (Bool-cases (ltb n 10)) [
  | inl small ↦ rw small (ground arith)
  | inr large ↦ rw large (digits-StartsWithDigit f (n / 10) ((48 + n % 10) ∷ out) (omega arith))
]

digits_first : (f n : ℕ) → StartsWithDigit (digits (suc f) n [])
unfolding digits StartsWithDigit
digits_first f n = elim (Bool-cases (ltb n 10)) [
  | inl small ↦ rw small (ground arith)
  | inr large ↦ rw large (digits-StartsWithDigit f (n / 10) ((48 + n % 10) ∷ []) (omega arith))
]

parse_digits-scan : (s : Str) → StartsWithDigit s → parse_digits s ≡ scan_digits s 0
unfolding parse_digits StartsWithDigit
parse_digits-scan [] h = absurd h
parse_digits-scan (c ∷ s) h = refl

parse_int-unsigned : (s : Str) → StartsWithDigit s → parse_int s ≡ in_range false (scan_digits s 0)
unfolding parse_int parse_digits StartsWithDigit
parse_int-unsigned [] h = absurd h
parse_int-unsigned (c ∷ s) h = ground arith

digits_read : (n : ℕ) → n < word_mod → scan_digits (digits 20 n []) 0 ≡ some n
unfolding scan_digits pow10
digits_read n h = scan-digits 20 n [] (omega arith) (omega arith)

-- Every int64 is read back from its decimal print.
pub parse_int-format_int : (w : ℕ) → w < word_mod → parse_int (format_int w) ≡ some w
unfolding format_int parse_int in_range
parse_int-format_int w h = elim (Bool-cases (ltb w sign_bit)) [
  | inl plus ↦ rw plus (
      parse_int-unsigned (digits 20 w []) (digits_first 19 w) ∙ rw (digits_read w h) (ground arith))
  | inr minus ↦ rw minus (
      rw
        (
          parse_digits-scan (digits 20 (word_mod - w) []) (digits_first 19 (word_mod - w)),
          digits_read (word_mod - w) (ground arith),
        )
        (ground arith))
]

range-lt : (b : Bool) (o : Option ℕ) (w : ℕ) → in_range b o ≡ some w → w < word_mod
unfolding in_range
range-lt b none w h = cc
range-lt true (some v) w h = ground arith
range-lt false (some v) w h = ground arith

-- What ParseInt returns is an int64.
pub parse_int-lt : (s : Str) (w : ℕ) → parse_int s ≡ some w → w < word_mod
unfolding parse_int in_range
parse_int-lt [] w h = cc
parse_int-lt (c ∷ s) w h = elim (Bool-cases (c == 45)) [
  | inl minus ↦ range-lt true (parse_digits s) w (rw minus at h)
  | inr other ↦ elim (Bool-cases (c == 43)) [
    | inl plus ↦ range-lt false (parse_digits s) w (rw (other, plus) at h)
    | inr digit ↦ range-lt false (parse_digits (c ∷ s)) w (rw (other, digit) at h)
  ]
]
