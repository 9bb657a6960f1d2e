-- ===== src/Base/Numbers.antt =====
-- `std::from_chars` on an unsigned type, where the caller also wants the whole text read: no sign,
-- no blank, one digit at least, and a value that the type holds.
use Prim.Native.Nat.{ℕ, zero, suc, ◌+◌, ◌-◌, ◌*◌, ◌/◌, ◌%◌, ◌≤◌, ◌<◌}
use mathlib.Core.Path.{◌≡◌, refl, ◌∙◌}
use mathlib.Core.Bool.{Bool, ◌&&◌}
use mathlib.Core.Option.{Option, none, some}
use mathlib.Core.List.{[], ◌∷◌, ◌++◌}
use native.Mathlib.Omega.{arith}
use onboard_autonomy.Base.Tests.{ltb, leb, if◌then◌else◌, Bool-cases}
use mathlib.Core.Logic.{inl, inr}
use onboard_autonomy.Base.Strings.{Text, digits_from, to_string}

abbrev pub is_digit : ℕ → Bool
is_digit c = leb b'0' c && leb c b'9'

unfoldable pub digits_value : ℕ → Text → Option ℕ
digits_value acc [] = some acc
digits_value acc (c ∷ s) = if is_digit c then digits_value (acc * 10 + (c - b'0')) s else none

abbrev pub up_to : ℕ → Option ℕ → Option ℕ
up_to maximum none = none
up_to maximum (some n) = if leb n maximum then some n else none

unfoldable pub parse_unsigned : ℕ → Text → Option ℕ
parse_unsigned maximum [] = none
parse_unsigned maximum (c ∷ s) = up_to maximum (digits_value 0 (c ∷ s))

digits_value-append :
    (s t : Text) (a b : ℕ) → digits_value a s ≡ some b → digits_value a (s ++ t) ≡ digits_value b t
unfolding digits_value
digits_value-append [] t a b h = ground arith
digits_value-append (c ∷ s) t a b h = elim (Bool-cases (is_digit c)) [
  | inl digit ↦ rw digit (digits_value-append s t (a * 10 + (c - b'0')) b (ground arith))
  | inr other ↦ ground arith
]

digits_value-last : (a n : ℕ) → n < 10 → digits_value a ((b'0' + n) ∷ []) ≡ some (a * 10 + n)
unfolding digits_value
digits_value-last a n h = ground arith

digits_value-digits_from : (fuel n : ℕ) → n < fuel → digits_value 0 (digits_from fuel n) ≡ some n
unfolding digits_from
digits_value-digits_from zero n h = elim h [ ]
digits_value-digits_from (suc fuel) n h = elim (Bool-cases (ltb n 10)) [
  | inl small ↦ rw small (digits_value-last 0 n (ground arith) ∙ ground arith)
  | inr big ↦ rw big (
      digits_value-append (digits_from fuel (n / 10)) ((b'0' + n % 10) ∷ []) 0 (n / 10)
        (digits_value-digits_from fuel (n / 10) (ground arith))
      ∙ digits_value-last (n / 10) (n % 10) (omega arith)
      ∙ ground arith)
]

parse_unsigned-value :
    (s : Text) (maximum n : ℕ)
    → digits_value 0 s ≡ some n
    → n ≤ maximum
    → (s ≡ [] → ⊥)
    → parse_unsigned maximum s ≡ some n
unfolding parse_unsigned
parse_unsigned-value [] maximum n e h full = absurd (full refl)
parse_unsigned-value (c ∷ s) maximum n e h full = rw e (ground arith)

not_nil_last : (s : Text) (c : ℕ) → s ++ c ∷ [] ≡ [] → ⊥
not_nil_last [] c e = cc
not_nil_last (d ∷ s) c e = cc

to_string-ne_nil : (n : ℕ) → to_string n ≡ [] → ⊥
unfolding to_string digits_from
to_string-ne_nil n = elim (Bool-cases (ltb n 10)) [
  | inl small ↦ rw small (λ e. cc)
  | inr big ↦ rw big (not_nil_last (digits_from n (n / 10)) (b'0' + n % 10))
]

-- A number within the range is read back from its decimal digits.
pub parse_unsigned-to_string :
    (maximum n : ℕ) → n ≤ maximum → parse_unsigned maximum (to_string n) ≡ some n
unfolding to_string
parse_unsigned-to_string maximum n h =
    parse_unsigned-value (to_string n) maximum n (digits_value-digits_from (suc n) n (omega arith))
      h (to_string-ne_nil n)

-- Only a number within the range is read.
pub parse_unsigned-le :
    (maximum : ℕ) (s : Text) (n : ℕ) → parse_unsigned maximum s ≡ some n → n ≤ maximum
unfolding parse_unsigned
parse_unsigned-le maximum [] n h = cc
parse_unsigned-le maximum (c ∷ s) n h = in_range (digits_value 0 (c ∷ s)) h
  where
    in_range : (o : Option ℕ) → up_to maximum o ≡ some n → n ≤ maximum
    in_range none e = cc
    in_range (some m) e = ground arith
