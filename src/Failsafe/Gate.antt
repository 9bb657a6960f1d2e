-- ===== src/Failsafe/Gate.antt =====
-- `validate` of CompanionLinkFailsafe.cpp against a description of safe parameters.
use onboard_autonomy.Base.{
  ℕ, ◌/◌, ◌%◌, ◌<◌, ◌≡◌, refl, ap, pos, true, false, Option, none, some, arith, any_bit, any_bit-18,
  Floating,
}
use onboard_autonomy.Failsafe.{
  accepted, action_value, Failsafe, exact_integer, timeout_in_range, check, judge, u8_max, u32_max,
  continuation_mask,
}

module _ {D : Type 0} ⦃fp : Floating D⦄ where
  -- A raw value that is there, finite, from 0 to the maximum and whole: this number.
  pub record Reads (raw : Option D) (maximum n : ℕ) : Type 0 where
    pub value : D
    pub present : raw ≡ some value
    pub finite : fp.is_finite value ≡ true
    pub not_below : fp.flt value (fp.of_int (pos 0)) ≡ false
    pub not_above : fp.flt (fp.of_int (pos maximum)) value ≡ false
    pub whole : fp.feq (fp.trunc value) value ≡ true
    pub number : fp.to_nat value ≡ n

  -- A raw value that is there, finite, and from 2 to 10.
  pub record IsTimely (raw : Option D) : Type 0 where
    pub seconds : D
    pub given : raw ≡ some seconds
    pub bounded : fp.is_finite seconds ≡ true
    pub not_short : fp.flt seconds (fp.of_int (pos 2)) ≡ false
    pub not_long : fp.flt (fp.of_int (pos 10)) seconds ≡ false

  pub exact_integer-Reads :
      (raw : Option D) (maximum n : ℕ) → exact_integer raw maximum ≡ some n → Reads raw maximum n
  unfolding exact_integer
  exact_integer-Reads none maximum n e = cc
  exact_integer-Reads (some v) maximum n e = record {
    value = v;
    present = refl;
    finite = ground arith;
    not_below = ground arith;
    not_above = ground arith;
    whole = ground arith;
    number = ground arith;
  }

  pub Reads-exact_integer :
      (raw : Option D) (maximum n : ℕ) → Reads raw maximum n → exact_integer raw maximum ≡ some n
  unfolding exact_integer
  Reads-exact_integer raw maximum n r =
      rw (r.present, r.finite, r.not_below, r.not_above, r.whole) (ap (λ k. some k) r.number)

  pub timeout_in_range-IsTimely : (raw : Option D) → timeout_in_range raw ≡ true → IsTimely raw
  unfolding timeout_in_range
  timeout_in_range-IsTimely none e = cc
  timeout_in_range-IsTimely (some t) e = record {
    seconds = t;
    given = refl;
    bounded = ground arith;
    not_short = ground arith;
    not_long = ground arith;
  }

  pub IsTimely-timeout_in_range : (raw : Option D) → IsTimely raw → timeout_in_range raw ≡ true
  unfolding timeout_in_range
  IsTimely-timeout_in_range raw t = rw (t.given, t.bounded, t.not_short, t.not_long) refl

  -- The controller is told to land, in 2 to 10 seconds, in every mode, on the loss of this companion:
  -- the raw parameters, and the system that the companion's heartbeat carries.
  pub record LandsOnLinkLoss (action timeout options gcs : Option D) (heartbeat : Option ℕ)
      : Type 0 where
    pub action_is_land : Reads action u8_max 5
    pub timeout_bounded : IsTimely timeout
    pub mask : ℕ
    pub mask_read : Reads options u32_max mask
    pub not_continued_in_auto : mask / 2 % 2 ≡ 0
    pub not_continued_by_pilot : mask / 16 % 2 ≡ 0
    pub system : ℕ
    pub system_read : Reads gcs u8_max system
    pub system_watched : heartbeat ≡ some system
    pub system_nonzero : 0 < system

  abbrev pub IsSafe : Failsafe D → Type 0
  IsSafe f =
      LandsOnLinkLoss f.raw_action f.raw_timeout_s f.raw_options f.raw_gcs_system_id
        f.snapshot.heartbeat_system_id

  check-accepted :
      (a : Option ℕ) (t : Option D) (o g h : Option ℕ)
      → (check (action_value a) t o g h).0 ≡ accepted
      → (a ≡ some 5)
        × (timeout_in_range t ≡ true)
        × ((m : ℕ) × (o ≡ some m) × (any_bit m continuation_mask ≡ false))
        × ((s : ℕ) × (g ≡ some s) × (h ≡ some s) × (0 < s))
  unfolding check
  check-accepted a t o g h e = ground arith

  accepted-check :
      (t : Option D) (m s : ℕ)
      → timeout_in_range t ≡ true
      → any_bit m continuation_mask ≡ false
      → 0 < s
      → (check (action_value (some 5)) t (some m) (some s) (some s)).0 ≡ accepted
  unfolding check
  accepted-check t m s r b p = ground arith

  pub judge_sound : (f : Failsafe D) → (judge f).snapshot.phase ≡ accepted → IsSafe f
  unfolding judge
  judge_sound f e =
      let (a, r, (m, om, b), (s, gs, hs, p)) =
        check-accepted (exact_integer f.raw_action u8_max) f.raw_timeout_s
          (exact_integer f.raw_options u32_max) (exact_integer f.raw_gcs_system_id u8_max)
          f.snapshot.heartbeat_system_id e in
      record {
        action_is_land = exact_integer-Reads _ _ _ a;
        timeout_bounded = timeout_in_range-IsTimely _ r;
        mask = m;
        mask_read = exact_integer-Reads _ _ _ om;
        not_continued_in_auto = ((any_bit-18 m).0 b).0;
        not_continued_by_pilot = ((any_bit-18 m).0 b).1;
        system = s;
        system_read = exact_integer-Reads _ _ _ gs;
        system_watched = hs;
        system_nonzero = p;
      }

  pub judge_complete : (f : Failsafe D) → IsSafe f → (judge f).snapshot.phase ≡ accepted
  unfolding judge
  judge_complete f l =
      let read_action = Reads-exact_integer f.raw_action u8_max 5 l.action_is_land in
      let read_mask = Reads-exact_integer f.raw_options u32_max l.mask l.mask_read in
      let read_system = Reads-exact_integer f.raw_gcs_system_id u8_max l.system l.system_read in
      rw (read_action, read_mask, read_system, l.system_watched)
        (accepted-check f.raw_timeout_s l.mask l.system
          (IsTimely-timeout_in_range f.raw_timeout_s l.timeout_bounded)
          ((any_bit-18 l.mask).1 (l.not_continued_in_auto, l.not_continued_by_pilot))
          l.system_nonzero)
