-- ===== src/Vehicle/Armable.antt =====
-- `armable` of VehicleState.cpp, and the conditions for arming in terms of the observations.
use Prim.Native.Nat.{bit_and}
use onboard_autonomy.Base.{
  ℕ, ◌-◌, ◌+◌, ◌≤◌, ◌≡◌, refl, ◌↔◌, Bool, true, not, ◌&&◌, Option, none, some, List, [], ◌∷◌, arith,
  ℤ, pos, negsuc, leb, any, All, any_bit, Floating, Bool-cases, inl, inr, ◌⊎◌,
}
use onboard_autonomy.Vehicle.State.{
  VehicleState, WarningEntry, is_fresh, contains_battery, heartbeat_timeout, gps_timeout,
  battery_timeout, system_status_timeout, warning_timeout, blocking_warning_timeout,
  battery_sensor_flag,
}
use onboard_autonomy.Vehicle.Report.{
  snapshot, recent_warnings, is_connected, identity, telemetry, gps_ready_at, battery_ready_at,
  battery_sensor_ok, health_ok, has_blocking_warning, meets_threshold, fix_is_3d, charge_suffices,
  when,
}

-- Observed at some time, no longer ago than the timeout.
abbrev pub Within : ℕ → Option ℕ → ℕ → Type 0
Within timeout observed now = (t : ℕ) × (observed ≡ some t) × (now ≤ t + timeout)

abbrev pub Blocks : ℕ → WarningEntry → Type 0
Blocks now w =
    (now ≤ w.last_seen + blocking_warning_timeout)
    ⊎ ((now ≤ w.last_seen + warning_timeout) × (contains_battery w.body ≡ true))

-- No warning of the last five seconds, and no battery warning of the last thirty.
abbrev pub Quiet : ℕ → List WarningEntry → Type 0
Quiet now = All (λ w. ¬ Blocks now w)

-- At least twenty percent, where a charge is known.
abbrev pub IsCharged : Option ℤ → Type 0
IsCharged charge = (p : ℤ) → charge ≡ some p → (n : ℕ) × (p ≡ pos n) × (20 ≤ n)

charge_suffices-IsCharged : (o : Option ℤ) → charge_suffices o ≡ true → IsCharged o
charge_suffices-IsCharged none h = λ p e. cc
charge_suffices-IsCharged (some (pos n)) h = λ p e. (n, cc, ground arith)
charge_suffices-IsCharged (some (negsuc n)) h = cc

IsCharged-charge_suffices : (o : Option ℤ) → IsCharged o → charge_suffices o ≡ true
IsCharged-charge_suffices none c = refl
IsCharged-charge_suffices (some (pos n)) c = let (m, e, h) = c (pos n) refl in ground arith
IsCharged-charge_suffices (some (negsuc n)) c = let (m, e, h) = c (negsuc n) refl in cc

module _ {D : Type 0} ⦃fp : Floating D⦄ where
  -- A voltage and an arming threshold that are known; the threshold is off, or the voltage reaches
  -- it.
  abbrev pub Reaches : Option D → Option D → Type 0
  Reaches voltage threshold =
      (x : D) × (y : D) × (voltage ≡ some x)
      × (threshold ≡ some y)
      × ((fp.feq y (fp.of_int (pos 0)) ≡ true) ⊎ (fp.fle y x ≡ true))

  meets_threshold-Reaches :
      (voltage threshold : Option D)
      → meets_threshold voltage threshold ≡ true
      → Reaches voltage threshold
  meets_threshold-Reaches none threshold h = cc
  meets_threshold-Reaches (some x) none h = cc
  meets_threshold-Reaches (some x) (some y) h = (
    x,
    y,
    refl,
    refl,
    elim (Bool-cases (fp.feq y (fp.of_int (pos 0)))) [
      | inl off ↦ inl off
      | inr on ↦ inr (ground arith)
    ],
  )

  Reaches-meets_threshold :
      (voltage threshold : Option D)
      → Reaches voltage threshold
      → meets_threshold voltage threshold ≡ true
  Reaches-meets_threshold voltage threshold (x, y, e, f, r) = rw (e, f) (ground arith)

  -- The conditions for arming, in terms of the observations themselves.
  pub record ReadyToArm (now : ℕ) (v : VehicleState D) : Type 0 where
    pub heartbeat : Within heartbeat_timeout v.last_heartbeat now
    pub position : Within gps_timeout v.last_gps now
    pub fix : ℕ
    pub fix_known : v.gps_fix_type ≡ some fix
    pub fix_3d : 3 ≤ fix
    pub voltage : Within battery_timeout v.last_battery_voltage now
    pub threshold : Reaches v.battery_voltage_v v.battery_arming_voltage_v
    pub charge :
        Within battery_timeout v.last_battery_remaining now → IsCharged v.battery_remaining_pct
    pub health : Within system_status_timeout v.last_system_status now
    pub battery_enabled : any_bit v.sensors_enabled battery_sensor_flag ≡ true
    pub battery_healthy : any_bit v.sensors_healthy battery_sensor_flag ≡ true
    pub sensors_ok : bit_and v.sensors_enabled (4_294_967_295 - v.sensors_healthy) ≡ 0
    pub quiet : Quiet now v.warnings

fix_is_3d-some : (o : Option ℕ) → fix_is_3d o ≡ true → (f : ℕ) × (o ≡ some f) × (3 ≤ f)
fix_is_3d-some o h = ground arith

pub is_fresh-Within :
    (timeout now : ℕ) (o : Option ℕ) → is_fresh o now timeout ≡ true → Within timeout o now
is_fresh-Within timeout now none h = cc
is_fresh-Within timeout now (some t) h = (t, refl, ground arith)

Within-is_fresh :
    (timeout now : ℕ) (o : Option ℕ) → Within timeout o now → is_fresh o now timeout ≡ true
Within-is_fresh timeout now o (t, e, h) = rw e (ground arith)

-- The two tests of the snapshot, on the warnings that are left in it.
abbrev quiet_tests : ℕ → List WarningEntry → Bool
quiet_tests now ws =
    not (any (λ w. leb (now - w.last_seen) blocking_warning_timeout) (recent_warnings now ws))
    && not (any (λ w. contains_battery w.body) (recent_warnings now ws))

quiet_tests-Quiet : (now : ℕ) (ws : List WarningEntry) → quiet_tests now ws ≡ true → Quiet now ws
unfolding recent_warnings
quiet_tests-Quiet now [] h = tt
quiet_tests-Quiet now (w ∷ ws) h = ground (arith, quiet_tests-Quiet now ws)

Quiet-quiet_tests : (now : ℕ) (ws : List WarningEntry) → Quiet now ws → quiet_tests now ws ≡ true
unfolding recent_warnings
Quiet-quiet_tests now [] h = refl
Quiet-quiet_tests now (w ∷ ws) (q, h) = ground (arith, Quiet-quiet_tests now ws h, q)

module _ {D : Type 0} ⦃fp : Floating D⦄ where
  -- The snapshot's flag as the tests that it computes.
  abbrev armable_tests : ℕ → VehicleState D → Bool
  armable_tests now v =
      is_fresh v.last_heartbeat now heartbeat_timeout
      && (gps_ready_at now v
          && (is_fresh v.last_battery_voltage now battery_timeout
              && (meets_threshold v.battery_voltage_v v.battery_arming_voltage_v
                  && (battery_sensor_ok now v
                      && (charge_suffices (
                            when (is_fresh v.last_battery_remaining now battery_timeout)
                              v.battery_remaining_pct)
                          && (health_ok now v && quiet_tests now v.warnings))))))

  armable-tests : (now : ℕ) (v : VehicleState D) → (snapshot now v).1.armable ≡ armable_tests now v
  unfolding snapshot telemetry identity is_connected battery_ready_at gps_ready_at battery_sensor_ok
      health_ok has_blocking_warning
  armable-tests now v = ground arith

  tests-ReadyToArm : (now : ℕ) (v : VehicleState D) → armable_tests now v ≡ true → ReadyToArm now v
  unfolding gps_ready_at battery_sensor_ok health_ok
  tests-ReadyToArm now v h =
      let (fix, known, enough) = fix_is_3d-some v.gps_fix_type (ground arith) in
      record {
        heartbeat = is_fresh-Within heartbeat_timeout now v.last_heartbeat (ground arith);
        position = is_fresh-Within gps_timeout now v.last_gps (ground arith);
        fix = fix;
        fix_known = known;
        fix_3d = enough;
        voltage = is_fresh-Within battery_timeout now v.last_battery_voltage (ground arith);
        threshold =
            meets_threshold-Reaches v.battery_voltage_v v.battery_arming_voltage_v (ground arith);
        charge = λ w.
            charge_suffices-IsCharged v.battery_remaining_pct
              (ground (arith, Within-is_fresh battery_timeout now v.last_battery_remaining w));
        health = is_fresh-Within system_status_timeout now v.last_system_status (ground arith);
        battery_enabled = ground arith;
        battery_healthy = ground arith;
        sensors_ok = ground arith;
        quiet = quiet_tests-Quiet now v.warnings (ground arith);
      }

  charge-tests :
      (now : ℕ) (v : VehicleState D)
      → ReadyToArm now v
      → charge_suffices
          (when (is_fresh v.last_battery_remaining now battery_timeout) v.battery_remaining_pct)
        ≡ true
  charge-tests now v r = elim (Bool-cases (is_fresh v.last_battery_remaining now battery_timeout)) [
    | inl fresh ↦ rw fresh (
        IsCharged-charge_suffices v.battery_remaining_pct
          (r.charge (is_fresh-Within battery_timeout now v.last_battery_remaining fresh)))
    | inr old ↦ rw old
  ]

  ReadyToArm-tests : (now : ℕ) (v : VehicleState D) → ReadyToArm now v → armable_tests now v ≡ true
  unfolding gps_ready_at battery_sensor_ok health_ok
  ReadyToArm-tests now v r =
      rw
        (
          Within-is_fresh heartbeat_timeout now v.last_heartbeat r.heartbeat,
          Within-is_fresh gps_timeout now v.last_gps r.position,
          Within-is_fresh battery_timeout now v.last_battery_voltage r.voltage,
          Within-is_fresh system_status_timeout now v.last_system_status r.health,
          charge-tests now v r,
          Quiet-quiet_tests now v.warnings r.quiet,
        )
        (ground (
          arith,
          Reaches-meets_threshold v.battery_voltage_v v.battery_arming_voltage_v r.threshold,
        ))

  -- A snapshot is armable exactly when the heartbeat, a 3D fix, the battery's voltage and the system
  -- status are within their timeouts, the voltage reaches the arming threshold, the charge, if one
  -- was seen in time, is twenty percent at least, the battery sensor is enabled and healthy, no
  -- enabled sensor is unhealthy, and there is no warning of the last five seconds and no battery
  -- warning of the last thirty.
  pub armable_iff :
      (now : ℕ) (v : VehicleState D) → ((snapshot now v).1.armable ≡ true) ↔ ReadyToArm now v
  armable_iff now v = rw armable-tests (tests-ReadyToArm now v, ReadyToArm-tests now v)
