-- ===== src/Cli/Fuel.antt =====
-- The loop of `ArgumentParser::parse` as a relation, without fuel.
use onboard_autonomy.Base.{
  ℕ, zero, suc, ◌≤◌, ◌≡◌, refl, List, [], ◌∷◌, Text, length, arith, Floating, Fault, Outcome,
  returned, thrown, ◌>>=◌, IfReturns, returned_inj,
}
use onboard_autonomy.Cli.Parser.{Parser, parse_argument, parse_arguments, fresh_parser}
use mathlib.Core.Path.{subst}
use onboard_autonomy.Cli.Kept.{InRange, Kept, parse_argument-Kept, fresh_parser-InRange}

IfReturns-value {ℓ} :
    {A : Type ℓ} (P : A → Type 0) (m : Outcome A) (a : A) → m ≡ returned a → IfReturns P m → P a
IfReturns-value P (returned b) a h k = subst P (returned_inj b a h) k
IfReturns-value P (thrown e) a h k = cc

module _ {D : Type 0} ⦃fp : Floating D⦄ where
  -- What the loop makes of these arguments, from this parser.
  pub data Reads : List Text → Parser D → Outcome (Parser D) → Type 0 where
    finished : {p : Parser D} → Reads [] p (returned p)
    refused :
        {argument : Text} {rest : List Text} {p : Parser D} {e : Fault}
        → parse_argument argument (record p { arguments = rest }) ≡ thrown e
        → Reads (argument ∷ rest) p (thrown e)
    read :
        {argument : Text} {rest : List Text} {p q : Parser D} {r : Outcome (Parser D)}
        → parse_argument argument (record p { arguments = rest }) ≡ returned q
        → Reads q.arguments q r
        → Reads (argument ∷ rest) p r

  round-Reads :
      (fuel : ℕ) (argument : Text) (rest : List Text) (p : Parser D)
      → ((q : Parser D) → Kept fuel q → Reads q.arguments q (parse_arguments fuel q.arguments q))
      → (m : Outcome (Parser D)) → parse_argument argument (record p { arguments = rest }) ≡ m
      → IfReturns (Kept fuel) m
      → Reads (argument ∷ rest) p (m >>= λ q. parse_arguments fuel q.arguments q)
  round-Reads fuel argument rest p h (thrown e) m k = refused m
  round-Reads fuel argument rest p h (returned q) m k = read m (h q k)

  enough_fuel :
      (fuel : ℕ) (arguments : List Text) (p : Parser D)
      → length arguments ≤ fuel
      → InRange p.draft
      → Reads arguments p (parse_arguments fuel arguments p)
  unfolding parse_arguments
  enough_fuel zero [] p l k = finished
  enough_fuel zero (argument ∷ rest) p l k = elim l [ ]
  enough_fuel (suc fuel) [] p l k = finished
  enough_fuel (suc fuel) (argument ∷ rest) p l k =
      round-Reads fuel argument rest p (λ q kept. enough_fuel fuel q.arguments q kept.0 kept.1)
        (parse_argument argument (record p { arguments = rest })) refl
        (parse_argument-Kept argument fuel (record p { arguments = rest }) (omega arith, k))

  -- With as much fuel as there are arguments, or more, the loop of the parser makes of the
  -- arguments what the loop without fuel makes of them: it ends, at the first exception or when
  -- every argument is read.
  pub parse_arguments-Reads :
      (fuel : ℕ) (arguments : List Text)
      → length arguments ≤ fuel
      → Reads arguments
          (fresh_parser arguments)
          (parse_arguments fuel arguments (fresh_parser arguments))
  parse_arguments-Reads fuel arguments l =
      enough_fuel fuel arguments (fresh_parser arguments) l (fresh_parser-InRange arguments)

  Reads-InRange :
      {arguments : List Text} {p : Parser D} {r : Outcome (Parser D)}
      → Reads arguments p r
      → InRange p.draft
      → IfReturns (λ q. InRange q.draft) r
  Reads-InRange finished k = k
  Reads-InRange (refused h) k = tt
  Reads-InRange (read {argument = argument} {rest = rest} {p = p} {q = q} h next) k =
      Reads-InRange next
        (IfReturns-value (Kept (length rest)) _ q h (
          parse_argument-Kept argument (length rest) (record p { arguments = rest })
            (omega arith, k))).1

pub parse_arguments-InRange :
    (D : Type 0) ⦃fp : Floating D⦄ (arguments : List Text)
    → IfReturns
        (λ (q : Parser D). InRange q.draft)
        (parse_arguments (length arguments) arguments (fresh_parser arguments))
parse_arguments-InRange D arguments =
    Reads-InRange (parse_arguments-Reads (length arguments) arguments (omega arith))
      (fresh_parser-InRange arguments)
