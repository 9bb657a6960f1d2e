-- ===== src/Failsafe.antt =====
-- CompanionLinkFailsafe (include and src/mission/safety): reads four parameters of the flight
-- controller and decides whether losing the companion's heartbeat will make it land.
pub mod Invariant
pub mod Gate
pub mod Order
pub mod Session
mod Tests
use onboard_autonomy.Base.{
  ℕ, zero, suc, ◌+◌, ◌%◌, Bool, true, false, not, ◌&&◌, ◌||◌, Option, none, some, [], Text, text,
  text_eq, to_string, ◌++◌, if◌then◌else◌, ltb, leb, ◌==◌, has_value, holds, same, any_bit, ℤ, pos,
  Floating,
}

pub data Phase : Type 0 where
  waiting_for_vehicle reading_parameters accepted rejected : Phase

unfoldable pub phase_name : Phase → Text
phase_name waiting_for_vehicle = text "waiting_for_vehicle"
phase_name reading_parameters = text "reading_parameters"
phase_name accepted = text "accepted"
phase_name rejected = text "rejected"

pub data Action : Type 0 where
  disabled rtl removed_continue_mission smart_rtl_or_rtl smart_rtl_or_land land : Action
  auto_land_start_or_rtl brake_or_land : Action

unfoldable pub action_name : Action → Text
action_name disabled = text "disabled"
action_name rtl = text "rtl"
action_name removed_continue_mission = text "removed_continue_mission"
action_name smart_rtl_or_rtl = text "smart_rtl_or_rtl"
action_name smart_rtl_or_land = text "smart_rtl_or_land"
action_name land = text "land"
action_name auto_land_start_or_rtl = text "auto_land_start_or_rtl"
action_name brake_or_land = text "brake_or_land"

-- The enumerator of a value, up to the last one; `none` above it.
abbrev pub action_of : ℕ → Option Action
action_of zero = some disabled
action_of (suc zero) = some rtl
action_of (suc (suc zero)) = some removed_continue_mission
action_of (suc (suc (suc zero))) = some smart_rtl_or_rtl
action_of (suc (suc (suc (suc zero)))) = some smart_rtl_or_land
action_of (suc (suc (suc (suc (suc zero))))) = some land
action_of (suc (suc (suc (suc (suc (suc zero)))))) = some auto_land_start_or_rtl
action_of (suc (suc (suc (suc (suc (suc (suc zero))))))) = some brake_or_land
action_of (suc (suc (suc (suc (suc (suc (suc (suc n)))))))) = none

abbrev pub action_value : Option ℕ → Option Action
action_value none = none
action_value (some n) = action_of n

abbrev pub is_land : Action → Bool
is_land land = true
is_land _ = false

pub record Snapshot (D : Type 0) : Type 0 where
  pub phase : Phase
  pub detail : Text
  pub heartbeat_system_id : Option ℕ
  pub configured_gcs_system_id : Option ℕ
  pub action : Option Action
  pub timeout_s : Option D
  pub options : Option ℕ
  pub parameters_received : ℕ
  pub parameters_required : ℕ

abbrev pub is_accepted : Phase → Bool
is_accepted accepted = true
is_accepted _ = false

pub record Failsafe (D : Type 0) : Type 0 where
  pub snapshot : Snapshot D
  pub raw_action : Option D
  pub raw_timeout_s : Option D
  pub raw_options : Option D
  pub raw_gcs_system_id : Option D

-- `(1U << 1U) | (1U << 4U)`
abbrev pub continuation_mask : ℕ
continuation_mask = 18

abbrev pub autopilot_component_id : ℕ
autopilot_component_id = 1

abbrev pub u8_max : ℕ
u8_max = 255

abbrev pub u32_max : ℕ
u32_max = 4_294_967_295

abbrev pub count_value {ℓ} : {A : Type ℓ} → Option A → ℕ
count_value none = 0
count_value (some a) = 1

-- Which of the four parameters an id names, if it names one.
pub data Slot : Type 0 where
  action_slot timeout_slot options_slot gcs_slot other_slot : Slot

unfoldable pub slot_of : Text → Slot
slot_of id =
    if text_eq id (text "FS_GCS_ENABLE")
    then action_slot
    else if text_eq id (text "FS_GCS_TIMEOUT")
    then timeout_slot
    else if text_eq id (text "FS_OPTIONS")
    then options_slot
    else if text_eq id (text "SYSID_MYGCS")
    then gcs_slot
    else other_slot

module _ {D : Type 0} where
  unfoldable pub empty_snapshot : Snapshot D
  empty_snapshot = record {
    phase = waiting_for_vehicle;
    detail = text "Waiting for the flight-controller heartbeat";
    heartbeat_system_id = none;
    configured_gcs_system_id = none;
    action = none;
    timeout_s = none;
    options = none;
    parameters_received = 0;
    parameters_required = 4;
  }

  unfoldable pub initial : Failsafe D
  initial = record {
    snapshot = empty_snapshot;
    raw_action = none;
    raw_timeout_s = none;
    raw_options = none;
    raw_gcs_system_id = none;
  }

  -- The snapshot that `reset` leaves.
  reset_snapshot : Option ℕ → Snapshot D
  reset_snapshot none = empty_snapshot
  reset_snapshot (some id) = record empty_snapshot {
    heartbeat_system_id = some id;
    phase = reading_parameters;
    detail = text "Reading ArduPilot companion-link failsafe parameters";
  }

  unfoldable pub reset : Option ℕ → Failsafe D
  unfolding reset_snapshot empty_snapshot
  reset system_id = record {
    snapshot = reset_snapshot system_id;
    raw_action = none;
    raw_timeout_s = none;
    raw_options = none;
    raw_gcs_system_id = none;
  }

  unfoldable pub observe_vehicle : Bool → Option ℕ → Failsafe D → Failsafe D
  observe_vehicle connected none f =
      if has_value f.snapshot.heartbeat_system_id then reset none else f
  observe_vehicle connected (some id) f =
      if connected
      then if same f.snapshot.heartbeat_system_id (some id) then f else reset (some id)
      else if has_value f.snapshot.heartbeat_system_id
      then reset none
      else f

module _ {D : Type 0} ⦃fp : Floating D⦄ where
  abbrev pub natural : ℕ → D
  natural n = fp.of_int (pos n)

  -- A double that is an integer from 0 to the maximum, as that integer.
  unfoldable pub exact_integer : Option D → ℕ → Option ℕ
  exact_integer none maximum = none
  exact_integer (some v) maximum =
      if not (fp.is_finite v)
        || fp.flt v (natural 0)
        || fp.flt (natural maximum) v
        || not (fp.feq (fp.trunc v) v)
      then none
      else some (fp.to_nat v)

  abbrev pub finite_value : Option D → Option D
  finite_value none = none
  finite_value (some v) = if fp.is_finite v then some v else none

  -- Finite, and from 2 to 10 seconds.
  unfoldable pub timeout_in_range : Option D → Bool
  timeout_in_range none = false
  timeout_in_range (some t) =
      fp.is_finite t && not (fp.flt t (natural 2)) && not (fp.flt (natural 10) t)

  abbrev pub timeout_text : Option D → Text
  timeout_text none = []
  timeout_text (some t) = fp.fixed1 t

  -- The checks at the end of `validate`, in their order: the phase and the detail.
  check_system : Option ℕ → Option ℕ → Option D → Phase × Text
  check_system none heartbeat timeout = (rejected, text "SYSID_MYGCS is invalid")
  check_system (some g) none timeout = (
    rejected,
    if g == 0
        then text "SYSID_MYGCS is invalid"
        else text "SYSID_MYGCS must match companion heartbeat system id " ++ text "unknown",
  )
  check_system (some g) (some h) timeout =
      if g == 0
      then (rejected, text "SYSID_MYGCS is invalid")
      else if not (g == h)
      then (rejected, text "SYSID_MYGCS must match companion heartbeat system id " ++ to_string h)
      else (
        accepted,
        text "ArduPilot will LAND after "
            ++ (timeout_text timeout ++ text " s without the companion heartbeat"),
      )

  check_options : Option ℕ → Option ℕ → Option ℕ → Option D → Phase × Text
  check_options none gcs heartbeat timeout = (rejected, text "FS_OPTIONS is not a valid bitmask")
  check_options (some o) gcs heartbeat timeout =
      if any_bit o continuation_mask
      then (rejected, text "FS_OPTIONS must not bypass GCS failsafe in Auto or pilot modes")
      else check_system gcs heartbeat timeout

  unfoldable pub check : Option Action → Option D → Option ℕ → Option ℕ → Option ℕ → Phase × Text
  unfolding check_options check_system
  check none timeout options gcs heartbeat = (rejected, text "FS_GCS_ENABLE is unsupported")
  check (some action) timeout options gcs heartbeat =
      if not (is_land action)
      then (rejected, text "FS_GCS_ENABLE must be 5 (Always LAND)")
      else if not (timeout_in_range timeout)
      then (rejected, text "FS_GCS_TIMEOUT must be between 2 and 10 seconds")
      else check_options options gcs heartbeat timeout

  -- All four parameters are there: their values, and the verdict.
  unfoldable pub judge : Failsafe D → Failsafe D
  judge f =
      let action = action_value (exact_integer f.raw_action u8_max) in
      let options = exact_integer f.raw_options u32_max in
      let gcs = exact_integer f.raw_gcs_system_id u8_max in
      let verdict = check action f.raw_timeout_s options gcs f.snapshot.heartbeat_system_id in
      record f {
        snapshot = record f.snapshot {
          action = action;
          timeout_s = finite_value f.raw_timeout_s;
          options = options;
          configured_gcs_system_id = gcs;
          phase = verdict.0;
          detail = verdict.1;
        };
      }

  unfoldable pub received : Failsafe D → ℕ
  received f =
      count_value f.raw_action
      + count_value f.raw_timeout_s
      + count_value f.raw_options
      + count_value f.raw_gcs_system_id

  unfoldable pub validate : Failsafe D → Failsafe D
  validate f =
      let g = record f { snapshot = record f.snapshot { parameters_received = received f } } in
      if ltb (received f) f.snapshot.parameters_required
      then record g {
        snapshot = record g.snapshot {
          phase = reading_parameters;
          detail =
              text "Reading ArduPilot failsafe parameters ("
              ++ (to_string (received f)
                  ++ (text "/" ++ (to_string f.snapshot.parameters_required ++ text ")")));
        };
      }
      else judge g

  -- The assignment to the raw value that a slot names.
  unfoldable pub fill : Slot → D → Failsafe D → Failsafe D
  fill action_slot value f = record f { raw_action = some value }
  fill timeout_slot value f = record f { raw_timeout_s = some value }
  fill options_slot value f = record f { raw_options = some value }
  fill gcs_slot value f = record f { raw_gcs_system_id = some value }
  fill other_slot value f = f

  -- After the guards of `on_parameter`: a parameter of no interest returns at once.
  unfoldable pub accept_value : Slot → D → Failsafe D → Failsafe D
  accept_value other_slot value f = f
  accept_value s value f = validate (fill s value f)

  unfoldable pub on_parameter : ℕ → ℕ → Text → D → Failsafe D → Failsafe D
  on_parameter source_system source_component id value f =
      if not (holds f.snapshot.heartbeat_system_id source_system)
        || not (source_component == autopilot_component_id)
      then f
      else accept_value (slot_of id) value f
