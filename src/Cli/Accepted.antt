-- ===== src/Cli/Accepted.antt =====
-- The checks of `validate_options` in CommandLine.cpp, one at a time.
use onboard_autonomy.Base.{
  ℕ, ◌*◌, ◌/◌, ◌%◌, ◌≤◌, ◌<◌, ◌≡◌, ◌≢◌, refl, sym, ap, ◌∙◌, ◌⊎◌, inl, inr, Bool, true, false, not,
  ◌&&◌, ◌||◌, Bool-cases, Option, none, some, [], ◌∷◌, ◌++◌, Text, text, text_eq, text_eq_sound,
  is_empty, any, if◌then◌else◌, ◌==◌, arith, returned, ◌>>=◌, ◌>>◌, refuse_if, returned_inj,
  accepted, accepted_last, bind_returned, neither, not_both, double_negation, positive,
  parse_unsigned,
}
use onboard_autonomy.Cli.Options.{u32_max}
use onboard_autonomy.Cli.Validation.{
  number_or_fault, parse_number, split_colon, prepend, supported_bit_depths, mode_part,
  validate_sensor_mode,
}
use onboard_autonomy.Cli.Launchable.{IsDimension, IsSensorMode}

pub is_empty-ne : (s : Text) → is_empty s ≡ false → s ≢ []
is_empty-ne [] h e = cc
is_empty-ne (c ∷ s) h e = cc

pub even-IsDimension :
    (n : ℕ) → n ≤ u32_max → (n == 0) ≡ false → not (n % 2 == 0) ≡ false → IsDimension n
even-IsDimension n l h k = (l, (n / 2, half_positive, twice))
  where
    even : n % 2 ≡ 0
    even = ground arith

    half_positive : 0 < n / 2
    half_positive = ground arith

    twice : n ≡ 2 * (n / 2)
    twice = omega (arith, even)

split_colon-parts :
    (s front back : Text) → split_colon s ≡ some (front, back) → s ≡ front ++ (b':' ∷ back)
unfolding split_colon
split_colon-parts [] front back h = cc
split_colon-parts (c ∷ s) front back h =
    round (Bool-cases (c == b':')) (split_colon s) (split_colon-parts s) h
  where
    round :
        ((c == b':') ≡ true) ⊎ ((c == b':') ≡ false)
        → (o : Option (Text × Text)) → ((a b : Text) → o ≡ some (a, b) → s ≡ a ++ (b':' ∷ b))
        → if◌then◌else◌ {A = Option (Text × Text)} (c == b':') (some ([], s)) (prepend c o)
          ≡ some (front, back)
        → c ∷ s ≡ front ++ (b':' ∷ back)
    round (inl colon) o k e = ground arith
    round (inr other) none k e = ground arith
    round (inr other) (some (a, b)) k e = ground (arith, k a b refl)

-- A part of a sensor mode that the loop went past.
abbrev pub IsPart : ℕ → Text → Text → Type 0
IsPart part mode back =
    (front : Text) × (value : ℕ) × (mode ≡ front ++ (b':' ∷ back))
    × (parse_unsigned u32_max front ≡ some value)
    × (0 < value)
    × ((part ≡ 2) → any (λ d. d == value) supported_bit_depths ≡ true)

abbrev unfit : ℕ → ℕ → Bool
unfit part value = value == 0 || (part == 2 && not (any (λ d. d == value) supported_bit_depths))

fit_part :
    (part value : ℕ)
    → unfit part value ≡ false
    → (0 < value) × ((part ≡ 2) → any (λ d. d == value) supported_bit_depths ≡ true)
fit_part part value h = (positive value checks.0, λ two. depth two)
  where
    checks :
        ((value == 0) ≡ false)
        × ((part == 2 && not (any (λ d. d == value) supported_bit_depths)) ≡ false)
    checks = neither (value == 0) _ h

    depth : (part ≡ 2) → any (λ d. d == value) supported_bit_depths ≡ true
    depth two = double_negation _ (not_both (part == 2) _ checks.1 (ground arith))

parse_unsigned-IsPart :
    (part : ℕ) (mode front rest back : Text)
    → mode ≡ front ++ (b':' ∷ rest)
    → (o : Option ℕ) → parse_unsigned u32_max front ≡ o
    → (number_or_fault o (text "--camera-sensor-mode") >>= λ value.
        refuse_if (unfit part value) (text "Invalid dimensions or depth for --camera-sensor-mode")
        >> returned rest)
      ≡ returned back
    → IsPart part mode back
unfolding number_or_fault
parse_unsigned-IsPart part mode front rest back parts none read e = cc
parse_unsigned-IsPart part mode front rest back parts (some value) read e =
    (front, value, parts_back, read, fits.0, fits.1)
  where
    past : (unfit part value ≡ false) × (returned rest ≡ returned back)
    past = accepted (unfit part value) _ (returned rest) back e

    fits : (0 < value) × ((part ≡ 2) → any (λ d. d == value) supported_bit_depths ≡ true)
    fits = fit_part part value past.0

    parts_back : mode ≡ front ++ (b':' ∷ back)
    parts_back = rw (sym (returned_inj rest back past.1)) parts

mode_part-IsPart :
    (part : ℕ) (mode back : Text)
    → mode_part part (split_colon mode) ≡ returned back
    → IsPart part mode back
unfolding mode_part parse_number
mode_part-IsPart part mode back h = by_split (split_colon mode) (split_colon-parts mode) h
  where
    by_split :
        (o : Option (Text × Text))
        → ((a b : Text) → o ≡ some (a, b) → mode ≡ a ++ (b':' ∷ b))
        → mode_part part o ≡ returned back
        → IsPart part mode back
    by_split none k e = cc
    by_split (some (front, rest)) k e =
        parse_unsigned-IsPart part mode front rest back (k front rest refl)
          (parse_unsigned u32_max front) refl e

depth-cases :
    (d : ℕ)
    → any (λ s. s == d) supported_bit_depths ≡ true
    → (d ≡ 8) ⊎ ((d ≡ 10) ⊎ ((d ≡ 12) ⊎ ((d ≡ 14) ⊎ (d ≡ 16))))
depth-cases d h = ground arith

packing-cases :
    (packing : Text) (x : Unit {0})
    → refuse_if
        (not (text_eq packing (text "P")) && not (text_eq packing (text "U")))
        (text "--camera-sensor-mode packing must be P or U")
      ≡ returned x
    → (packing ≡ text "P") ⊎ (packing ≡ text "U")
packing-cases packing x h = by_tests (Bool-cases (text_eq packing (text "P")))
  where
    other : (not (text_eq packing (text "P")) && not (text_eq packing (text "U"))) ≡ false
    other = accepted_last _ _ x h

    by_tests :
        (text_eq packing (text "P") ≡ true) ⊎ (text_eq packing (text "P") ≡ false)
        → (packing ≡ text "P") ⊎ (packing ≡ text "U")
    by_tests (inl p) = inl (text_eq_sound packing (text "P") p)
    by_tests (inr p) = inr (
        text_eq_sound packing (text "U")
          (double_negation _ (not_both (not (text_eq packing (text "P"))) _ other (rw p refl))))

-- A sensor mode that passes the check has the parts that it is to have.
pub validate_sensor_mode-IsSensorMode :
    (mode : Text) → validate_sensor_mode mode ≡ returned tt → IsSensorMode mode
unfolding validate_sensor_mode
validate_sensor_mode-IsSensorMode mode h =
    let (after_width, first, h1) =
      bind_returned {B = Unit {0}} (mode_part 0 (split_colon mode)) _ tt h in
    let (after_height, second, h2) =
      bind_returned {B = Unit {0}} (mode_part 1 (split_colon after_width)) _ tt h1 in
    let (packing, third, h3) =
      bind_returned {B = Unit {0}} (mode_part 2 (split_colon after_height)) _ tt h2 in
    let (w, width, parts1, read1, pos1, any1) = mode_part-IsPart 0 mode after_width first in
    let (t, height, parts2, read2, pos2, any2) =
      mode_part-IsPart 1 after_width after_height second in
    let (d, depth, parts3, read3, pos3, any3) = mode_part-IsPart 2 after_height packing third in
    record {
      width_text = w;
      height_text = t;
      depth_text = d;
      packing = packing;
      parts = parts1 ∙ ap (λ s. w ++ (b':' ∷ s)) (parts2 ∙ ap (λ s. t ++ (b':' ∷ s)) parts3);
      width = width;
      height = height;
      depth = depth;
      width_read = read1;
      height_read = read2;
      depth_read = read3;
      width_positive = pos1;
      height_positive = pos2;
      depth_supported = depth-cases depth (any3 refl);
      packed = packing-cases packing tt h3;
    }
