-- ===== src/Base/Checks.antt =====
-- Checks that throw, and the Boolean conditions that they test.
use Prim.Native.Nat.{ℕ, ◌<◌}
use mathlib.Core.Path.{◌≡◌, refl}
use mathlib.Core.Bool.{Bool, true, false, not, ◌&&◌, ◌||◌}
use native.Mathlib.Omega.{arith}
use onboard_autonomy.Base.Tests.{◌==◌}
use onboard_autonomy.Base.Strings.{Text}
use onboard_autonomy.Base.Faults.{Outcome, returned, thrown, ◌>>=◌, ◌>>◌, refuse_if}

pub accepted {ℓ} :
    {B : Type ℓ} (test : Bool) (message : Text) (k : Outcome B) (x : B)
    → (refuse_if test message >> k) ≡ returned x
    → (test ≡ false) × (k ≡ returned x)
accepted true message k x h = cc
accepted false message k x h = (refl, h)

pub accepted_last :
    (test : Bool) (message : Text) (x : Unit {0})
    → refuse_if test message ≡ returned x
    → test ≡ false
accepted_last true message x h = cc
accepted_last false message x h = refl

pub both_returned {ℓ} :
    {B : Type ℓ} (m : Outcome (Unit {0})) (k : Outcome B) (x : B)
    → (m >> k) ≡ returned x
    → (m ≡ returned tt) × (k ≡ returned x)
both_returned (returned tt) k x h = (refl, h)
both_returned (thrown e) k x h = cc

pub neither : (a b : Bool) → (a || b) ≡ false → (a ≡ false) × (b ≡ false)
neither true b h = cc
neither false b h = (refl, h)

pub not_both : (a b : Bool) → (a && b) ≡ false → a ≡ true → b ≡ false
not_both true b h e = h
not_both false b h e = cc

pub none_of : (a b : Bool) → a ≡ false → b ≡ false → (a || b) ≡ false
none_of true b h k = cc
none_of false b h k = k

pub double_negation : (b : Bool) → not b ≡ false → b ≡ true
double_negation true e = refl
double_negation false e = cc

pub contrary {ℓ} : {A : Type ℓ} (b : Bool) → b ≡ true → b ≡ false → A
contrary b p q = absurd cc

pub positive : (n : ℕ) → (n == 0) ≡ false → 0 < n
positive n h = ground arith

pub bind_returned {ℓ} :
    {A B : Type ℓ} (m : Outcome A) (f : A → Outcome B) (b : B)
    → (m >>= f) ≡ returned b
    → (a : A) × (m ≡ returned a) × (f a ≡ returned b)
bind_returned (returned a) f b h = (a, refl, h)
bind_returned (thrown e) f b h = cc

-- A condition that does not hold is no obstacle.
pub refuse_none {ℓ} :
    {B : Type ℓ} (test : Bool) (message : Text) (k : Outcome B)
    → test ≡ false
    → (refuse_if test message >> k) ≡ k
refuse_none true message k h = cc
refuse_none false message k h = refl
