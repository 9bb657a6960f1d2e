-- ===== src/Fixtures.antt =====
-- Concrete stand-ins for the parameters of the model, for the tests.
use mathlib.Core.Option
use onboard_autonomy.Base.{
  parse_unsigned, ℕ, ◌+◌, ◌*◌, ◌/◌, ◌%◌, ◌≤◌, ◌^◌, ◌≡◌, refl, Bool, true, [], ◌∷◌, ◌++◌, arith, ltb,
  leb, ◌==◌, ℤ, pos, negsuc, pos_part, neg_part, sub_ℕ, text, to_string, Floating, ExactIntegers,
}
use onboard_autonomy.Mavlink.Encoder.{Bytes, Outgoing, heartbeat, command_long, param_request_read}

-- A serialiser that writes the message number and the fields, one byte each.
abbrev pub sample_pack : Outgoing → Bytes
sample_pack (heartbeat s c t a b m st) = 0 ∷ s ∷ c ∷ t ∷ a ∷ b ∷ m ∷ st ∷ []
sample_pack (command_long s c ts tc cmd conf ps) = 76 ∷ s ∷ c ∷ ts ∷ tc ∷ cmd ∷ conf ∷ ps
sample_pack (param_request_read s c ts tc id) = 20 ∷ s ∷ c ∷ ts ∷ tc ∷ id

-- Numbers in thousandths in the place of doubles; a float's pattern is read as a whole number.
abbrev thousandths : ℤ → ℤ
thousandths (pos n) = pos (1000 * n)
thousandths (negsuc n) = negsuc (1000 * n + 999)

abbrev whole_part : ℤ → ℤ
whole_part (pos n) = pos (1000 * (n / 1000))
whole_part (negsuc n) = sub_ℕ 0 (1000 * ((n + 1) / 1000))

abbrev sample_lt : ℤ → ℤ → Bool
sample_lt a b = ltb (pos_part a + neg_part b) (pos_part b + neg_part a)

instance abbrev pub sample_doubles : Floating ℤ
sample_doubles = record {
  is_finite = λ a. true;
  flt = sample_lt;
  fle = λ a b. leb (pos_part a + neg_part b) (pos_part b + neg_part a);
  feq = λ a b. pos_part a + neg_part b == pos_part b + neg_part a;
  of_int = thousandths;
  widen = λ bits. pos (1000 * bits);
  add = λ a b. sub_ℕ (pos_part a + pos_part b) (neg_part a + neg_part b);
  div = λ a b. pos (pos_part a * 1000 / pos_part b);
  mul = λ a b.
      sub_ℕ (pos_part a * pos_part b / 1000 + neg_part a * neg_part b / 1000)
        (pos_part a * neg_part b / 1000 + neg_part a * pos_part b / 1000);
  exponential = λ a. sub_ℕ (pos_part a + 1000) (neg_part a);
  round = λ a. pos ((pos_part a + 500) / 1000 * 1000);
  from_text = λ s. Option.map (λ n. pos (1000 * n)) (parse_unsigned 4_294_967_295 s);
  trunc = whole_part;
  to_nat = λ a. pos_part a / 1000;
  fixed1 = λ a. to_string (pos_part a / 1000) ++ (text "." ++ to_string (pos_part a / 100 % 10));
}

sample_finite : (n : ℕ) → n ≤ 2 ^ 53 → sample_doubles.is_finite (thousandths (pos n)) ≡ true
sample_finite n h = refl

sample_flt :
    (m n : ℕ)
    → m ≤ 2 ^ 53
    → n ≤ 2 ^ 53
    → sample_lt (thousandths (pos m)) (thousandths (pos n)) ≡ ltb m n
sample_flt m n h k = ground arith

sample_trunc :
    (n : ℕ)
    → n ≤ 2 ^ 53
    → sample_doubles.feq (whole_part (thousandths (pos n))) (thousandths (pos n)) ≡ true
sample_trunc n h = ground arith

sample_value : (n : ℕ) → n ≤ 2 ^ 53 → pos_part (thousandths (pos n)) / 1000 ≡ n
sample_value n h = omega arith

pub sample_integers : ExactIntegers ℤ sample_doubles
sample_integers = record {
  integer_finite = sample_finite;
  integer_flt = sample_flt;
  integer_trunc = sample_trunc;
  integer_value = sample_value;
}
