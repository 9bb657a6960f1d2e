-- ===== src/Base/Faults.antt =====
-- The result of code that can throw: a value, or the exception that left it. The program's
-- exceptions all leave `main`, so the state at the throw is not kept.
use Prim.Native.String.{String}
use mathlib.Core.Path.{◌≡◌, refl}
use mathlib.Core.Bool.{Bool, true, false}
use mathlib.Core.Option.{Option, none, some}
use onboard_autonomy.Base.Strings.{Text}

pub data Fault : Type 0 where
  -- `std::out_of_range`, from a checked index
  out_of_range : Fault
  -- `std::invalid_argument`, with its message
  invalid_argument : Text → Fault
  -- `std::runtime_error`, with its message
  runtime_error : Text → Fault
  -- any exception of a component that is a parameter of the model
  external : String → Fault

pub data Outcome {ℓ} (A : Type ℓ) : Type ℓ where
  returned : A → Outcome A
  thrown : Fault → Outcome A

-- A condition under which the code throws `std::invalid_argument`.
abbrev pub refuse_if : Bool → Text → Outcome (Unit {0})
refuse_if true message = thrown (invalid_argument message)
refuse_if false message = returned tt

-- `abbrev`, so that `returned a >>= f` computes wherever it stands.
infixl 5 ◌>>=◌ ◌>>◌
abbrev pub ◌>>=◌ {ℓ κ} : {A : Type ℓ} {B : Type κ} → Outcome A → (A → Outcome B) → Outcome B
returned a >>= f = f a
thrown e >>= f = thrown e

abbrev pub ◌>>◌ {ℓ} : {B : Type ℓ} → Outcome (Unit {0}) → Outcome B → Outcome B
m >> k = m >>= λ _. k

-- The code returns, and its result has the property.
abbrev pub Returns {ℓ} : {A : Type ℓ} → (A → Type 0) → Outcome A → Type 0
Returns P (returned a) = P a
Returns P (thrown e) = ⊥

-- `std::array::at`: the element, or the exception.
abbrev pub checked {ℓ} : {A : Type ℓ} → Option A → Outcome A
checked none = thrown out_of_range
checked (some a) = returned a

pub >>=-Returns {ℓ κ} :
    {A : Type ℓ} {B : Type κ} (P : A → Type 0) (Q : B → Type 0) (m : Outcome A) (f : A → Outcome B)
    → Returns P m
    → ((a : A) → P a → Returns Q (f a))
    → Returns Q (m >>= f)
>>=-Returns P Q (returned a) f h k = k a h
>>=-Returns P Q (thrown e) f h k = absurd h

pub Returns-map {ℓ} :
    {A : Type ℓ} (P Q : A → Type 0) (m : Outcome A)
    → ((a : A) → P a → Q a)
    → Returns P m
    → Returns Q m
Returns-map P Q (returned a) f h = f a h
Returns-map P Q (thrown e) f h = absurd h

pub Returns-value {ℓ} :
    {A : Type ℓ} (P : A → Type 0) (m : Outcome A) → Returns P m → (a : A) × (m ≡ returned a) × P a
Returns-value P (returned a) h = (a, refl, h)
Returns-value P (thrown e) h = absurd h

-- If the code returns, its result has the property.
abbrev pub IfReturns {ℓ} : {A : Type ℓ} → (A → Type 0) → Outcome A → Type 0
IfReturns P (returned a) = P a
IfReturns P (thrown e) = Unit {0}

pub >>=-IfReturns {ℓ κ} :
    {A : Type ℓ} {B : Type κ} (P : A → Type 0) (Q : B → Type 0) (m : Outcome A) (f : A → Outcome B)
    → IfReturns P m
    → ((a : A) → P a → IfReturns Q (f a))
    → IfReturns Q (m >>= f)
>>=-IfReturns P Q (returned a) f h k = k a h
>>=-IfReturns P Q (thrown e) f h k = tt

pub IfReturns-map {ℓ} :
    {A : Type ℓ} (P Q : A → Type 0) (m : Outcome A)
    → ((a : A) → P a → Q a)
    → IfReturns P m
    → IfReturns Q m
IfReturns-map P Q (returned a) f h = f a h
IfReturns-map P Q (thrown e) f h = tt

pub Returns-both {ℓ} :
    {A : Type ℓ} (P Q : A → Type 0) (m : Outcome A)
    → Returns P m
    → Returns Q m
    → Returns (λ a. P a × Q a) m
Returns-both P Q (returned a) h k = (h, k)
Returns-both P Q (thrown e) h k = absurd h

pub returned_inj {ℓ} : {A : Type ℓ} (a b : A) → returned a ≡ returned b → a ≡ b
returned_inj a b e = cc
