-- ===== src/Base/Bits.antt =====
-- Words as bits: `x & mask` at the masks that the program tests, as arithmetic on single bits.
use Prim.Native.Nat.{ℕ, zero, suc, ◌+◌, ◌*◌, ◌/◌, ◌%◌, ◌≤◌, min, bit_and, digits, bit_and-bitwise}
use mathlib.Core.Path.{◌≡◌, refl, ap}
use mathlib.Core.Logic.{◌↔◌}
use mathlib.Core.Bool.{Bool, false, not}
use native.Mathlib.Omega.{arith}
use onboard_autonomy.Base.Tests.{◌==◌}

-- `(x & mask) != 0`
unfoldable pub any_bit : ℕ → ℕ → Bool
any_bit x mask = not (bit_and x mask == 0)

abbrev and_digits : ℕ → ℕ → ℕ → ℕ
and_digits = digits (λ y. 0) min

and_digits-zero : (k y : ℕ) → and_digits k 0 y ≡ 0
and_digits-zero zero y = refl
and_digits-zero (suc k) y = refl

-- Fuel that covers the first word is enough: more of it changes nothing.
and_digits-fuel : (k l x y : ℕ) → x ≤ k → k ≤ l → and_digits l x y ≡ and_digits k x y
and_digits-fuel zero l zero y p q = and_digits-zero l y
and_digits-fuel zero l (suc x) y p q = elim p [ ]
and_digits-fuel (suc k) zero x y p q = elim q [ ]
and_digits-fuel (suc k) (suc l) zero y p q = refl
and_digits-fuel (suc k) (suc l) (suc x) y p q =
    ap (λ (t : ℕ). t * 2 + min (suc x % 2) (y % 2))
      (and_digits-fuel k l (suc x / 2) (y / 2) (omega arith) (omega arith))

-- The lowest bit apart.
bit_and-halves : (x y : ℕ) → bit_and x y ≡ 2 * bit_and (x / 2) (y / 2) + min (x % 2) (y % 2)
bit_and-halves zero y = simp bit_and-bitwise (omega arith)
bit_and-halves (suc x) y =
    simp bit_and-bitwise
      (omega (arith, and_digits-fuel (suc x / 2) x (suc x / 2) (y / 2) (omega arith) (omega arith)))

and_digits-none : (k x : ℕ) → and_digits k x 0 ≡ 0
and_digits-none zero x = refl
and_digits-none (suc k) zero = refl
and_digits-none (suc k) (suc x) = omega (arith, and_digits-none k (suc x / 2))

bit_and-zero : (x : ℕ) → bit_and x 0 ≡ 0
bit_and-zero x = simp bit_and-bitwise (and_digits-none x x)

-- A mask of two bits, the second and the fifth.
bit_and-18 : (x : ℕ) → bit_and x 18 ≡ 2 * (x / 2 % 2) + 16 * (x / 16 % 2)
bit_and-18 x = omega (
  arith,
  bit_and-halves x 18,
  bit_and-halves (x / 2) 9,
  bit_and-halves (x / 2 / 2) 4,
  bit_and-halves (x / 2 / 2 / 2) 2,
  bit_and-halves (x / 2 / 2 / 2 / 2) 1,
  bit_and-zero (x / 2 / 2 / 2 / 2 / 2),
)

-- The mask 18 meets a word exactly when its second or its fifth bit is set.
pub any_bit-18 : (x : ℕ) → (any_bit x 18 ≡ false) ↔ ((x / 2 % 2 ≡ 0) × (x / 16 % 2 ≡ 0))
unfolding any_bit
any_bit-18 x = ground (arith, bit_and-18 x)
