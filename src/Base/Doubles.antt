-- ===== src/Base/Doubles.antt =====
-- `double` and `float`, which the model does not define. A type `D` of doubles, or `F` of the floats
-- that the detector reckons with, comes with the operations that the program uses; a `float` of the
-- protocol is its 32-bit pattern.
use Prim.Native.Nat.{ℕ, ◌≤◌, ◌^◌}
use mathlib.Core.Path.{◌≡◌}
use mathlib.Core.Bool.{Bool, true}
use mathlib.Core.Option.{Option}
use onboard_autonomy.Base.Tests.{ltb}
use onboard_autonomy.Base.Int.{ℤ, pos}
use onboard_autonomy.Base.Strings.{Text}

pub record Floating (D : Type 0) : Type 0 where
  -- `std::isfinite`
  pub is_finite : D → Bool
  -- the comparisons `<`, `<=` and `==`, false at a NaN
  pub flt : D → D → Bool
  pub fle : D → D → Bool
  pub feq : D → D → Bool
  -- `static_cast<double>` of an integer, of a 32-bit float's pattern
  pub of_int : ℤ → D
  pub widen : ℕ → D
  pub add : D → D → D
  pub div : D → D → D
  pub mul : D → D → D
  -- `std::exp` and `std::round`
  pub exponential : D → D
  pub round : D → D
  -- `std::trunc`
  pub trunc : D → D
  -- `static_cast` to an unsigned type of a value that it holds
  pub to_nat : D → ℕ
  -- `std::from_chars` of a whole text, where that is a number
  pub from_text : Text → Option D
  -- `std::fixed << std::setprecision(1)`
  pub fixed1 : D → Text

-- What IEEE 754 says of doubles that are natural numbers up to 2^53: the conversion is exact.
pub record ExactIntegers (D : Type 0) (fp : Floating D) : Type 0 where
  pub integer_finite : (n : ℕ) → n ≤ 2 ^ 53 → fp.is_finite (fp.of_int (pos n)) ≡ true
  pub integer_flt :
      (m n : ℕ) → m ≤ 2 ^ 53 → n ≤ 2 ^ 53 → fp.flt (fp.of_int (pos m)) (fp.of_int (pos n)) ≡ ltb m n
  pub integer_trunc :
      (n : ℕ) → n ≤ 2 ^ 53 → fp.feq (fp.trunc (fp.of_int (pos n))) (fp.of_int (pos n)) ≡ true
  pub integer_value : (n : ℕ) → n ≤ 2 ^ 53 → fp.to_nat (fp.of_int (pos n)) ≡ n
