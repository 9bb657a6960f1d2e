-- ===== src/App/Events.antt =====
-- The events and activities of CompanionApplication::Impl: `elapsed_at`, `record_event`,
-- `record_activity`, `observe_failsafe_phase` and `observe_vehicle`.
use onboard_autonomy.Base.{
  ℕ, ◌-◌, ◌/◌, Bool, true, false, not, Option, none, some, List, [], ◌∷◌, ◌++◌, Text, text,
  to_string, ℤ, sub_ℕ, length, drop, ltb, if◌then◌else◌, has_value, same, value_or,
}
use onboard_autonomy.Camera.Ports.{add64}
use onboard_autonomy.Vehicle.State.{AutopilotMetadata}
use onboard_autonomy.Vehicle.Report.{VehicleSnapshot}
use onboard_autonomy.App.Names.{
  LinkEventDirection, LinkEventStatus, outbound, inbound, success, warning, flight_mode_name,
}
use onboard_autonomy.App.State.{App, LinkEvent, Observation, link_event, failsafe_transition}
use onboard_autonomy.Failsafe

abbrev pub maximum_link_events : ℕ
maximum_link_events = 8

-- The difference of two times, in milliseconds, truncated towards zero.
abbrev pub milliseconds_between : ℕ → ℕ → ℤ
milliseconds_between start now = sub_ℕ ((now - start) / 1_000_000) ((start - now) / 1_000_000)

unfoldable pub same_phase : Failsafe.Phase → Failsafe.Phase → Bool
same_phase Failsafe.waiting_for_vehicle Failsafe.waiting_for_vehicle = true
same_phase Failsafe.reading_parameters Failsafe.reading_parameters = true
same_phase Failsafe.accepted Failsafe.accepted = true
same_phase Failsafe.rejected Failsafe.rejected = true
same_phase _ _ = false

module _ {D : Type 0} where
  -- Every sink that is not null, in order.
  unfoldable pub tell :
      List (Option ℕ) → Observation D → List (ℕ × Observation D) → List (ℕ × Observation D)
  tell [] o log = log
  tell (none ∷ sinks) o log = tell sinks o log
  tell (some sink ∷ sinks) o log = tell sinks o ((sink, o) ∷ log)

-- The queue with an event at its end, cut to its last eight.
unfoldable pub push_event : LinkEvent → List LinkEvent → List LinkEvent
push_event e events =
    let longer = events ++ (e ∷ []) in
    if ltb maximum_link_events (length longer) then drop 1 longer else longer

abbrev id_text : Text → Option ℕ → Text
id_text prefix none = []
id_text prefix (some id) = prefix ++ to_string id

abbrev pub differ : Bool → Bool → Bool
differ true b = not b
differ false b = b

module _ {C V T P D : Type 0} where
  -- `started_at_` is set by the first call that reads it.
  unfoldable pub start : ℕ → App C V T P D → App C V T P D
  start now app = record app {
    started_at = if has_value app.started_at then app.started_at else some now;
  }

  unfoldable pub elapsed_at : ℕ → App C V T P D → ℤ
  elapsed_at now app = milliseconds_between (value_or app.started_at now) now

  unfoldable pub record_event :
      LinkEventDirection → LinkEventStatus → Text → Text → ℕ → App C V T P D → App C V T P D
  record_event direction status label detail now app =
      let event : LinkEvent = record {
        sequence = add64 app.next_event_sequence 1;
        elapsed = elapsed_at now app;
        direction = direction;
        status = status;
        label = label;
        detail = detail;
      } in
      record (start now app) {
        next_event_sequence = add64 app.next_event_sequence 1;
        link_events = push_event event app.link_events;
        observed = tell app.observation_sinks (link_event event) app.observed;
      }

  unfoldable pub record_activity :
      LinkEventDirection → Text → Text → ℕ → App C V T P D → App C V T P D
  record_activity outbound message_name detail now app = record (start now app) {
    next_activity_sequence = add64 app.next_activity_sequence 1;
    tx_activity = some record {
      sequence = add64 app.next_activity_sequence 1;
      observed_at = elapsed_at now app;
      message_name = message_name;
      detail = detail;
    };
  }
  record_activity inbound message_name detail now app = record (start now app) {
    next_activity_sequence = add64 app.next_activity_sequence 1;
    rx_activity = some record {
      sequence = add64 app.next_activity_sequence 1;
      observed_at = elapsed_at now app;
      message_name = message_name;
      detail = detail;
    };
  }

  -- `elapsed_at` is read only where there is a sink; every poll has set `started_at` by then.
  unfoldable pub observe_failsafe_phase : ℕ → App C V T P D → App C V T P D
  observe_failsafe_phase now app =
      let current = app.companion_link_failsafe.snapshot in
      if same_phase current.phase app.previous_failsafe_phase then app else record app {
        observed =
            tell app.observation_sinks
              (failsafe_transition app.previous_failsafe_phase current (elapsed_at now app))
              app.observed;
        previous_failsafe_phase = current.phase;
      }

  unfoldable pub announce_metadata : Option AutopilotMetadata → ℕ → App C V T P D → App C V T P D
  announce_metadata none now app = app
  announce_metadata (some m) now app =
      if app.autopilot_metadata_was_available
      then app
      else record_event inbound success (text "AUTOPILOT_VERSION")
          (to_string m.firmware_major
            ++ (text "."
                ++ (to_string m.firmware_minor ++ (text "." ++ to_string m.firmware_patch))))
          now app

  unfoldable pub announce_mode : Option ℕ → ℕ → App C V T P D → App C V T P D
  announce_mode none now app = app
  announce_mode (some mode) now app =
      if same (some mode) app.previous_flight_mode
      then app
      else record_event inbound success (text "HEARTBEAT") (text "MODE " ++ flight_mode_name mode)
          now app

  unfoldable pub announce_armed : Bool → Option Bool → ℕ → App C V T P D → App C V T P D
  announce_armed armed none now app = app
  announce_armed armed (some before) now app =
      if differ armed before
      then record_event inbound success (text "HEARTBEAT")
          (if armed then text "ARMED" else text "DISARMED") now app
      else app

  -- The first branch of `observe_vehicle`: no vehicle.
  unfoldable pub lose_vehicle : ℕ → App C V T P D → App C V T P D
  lose_vehicle now app =
      record (if app.vehicle_was_connected
        then record_event inbound warning (text "LINK") (text "HEARTBEAT LOST") now app
        else app) {
          vehicle_was_connected = false;
          previous_flight_mode = none;
          previous_armed = none;
          autopilot_metadata_was_available = false;
        }

  -- The second: a vehicle that was not there.
  unfoldable pub meet_vehicle : VehicleSnapshot D → ℕ → App C V T P D → App C V T P D
  meet_vehicle vehicle now app =
      record (record_event inbound success (text "HEARTBEAT")
        (text "FLIGHT CONTROLLER ONLINE"
          ++ (id_text (text " | SYS ") vehicle.system_id
              ++ id_text (text " COMP ") vehicle.component_id))
        now app) {
          vehicle_was_connected = true;
          previous_flight_mode = vehicle.flight_mode;
          previous_armed = some vehicle.armed;
          autopilot_metadata_was_available = has_value vehicle.autopilot_metadata;
        }

  -- The rest: what changed of a known vehicle.
  unfoldable pub follow_vehicle : VehicleSnapshot D → ℕ → App C V T P D → App C V T P D
  unfolding announce_metadata announce_mode announce_armed
  follow_vehicle vehicle now app =
      let a = record (announce_metadata vehicle.autopilot_metadata now app) {
        autopilot_metadata_was_available = has_value vehicle.autopilot_metadata;
      } in
      let b = record (announce_mode vehicle.flight_mode now a) {
        previous_flight_mode = vehicle.flight_mode;
      } in
      record (announce_armed vehicle.armed b.previous_armed now b) {
        previous_armed = some vehicle.armed;
      }

  unfoldable pub observe_vehicle : VehicleSnapshot D → ℕ → App C V T P D → App C V T P D
  observe_vehicle vehicle now app =
      if not vehicle.connected
      then lose_vehicle now app
      else if not app.vehicle_was_connected
      then meet_vehicle vehicle now app
      else follow_vehicle vehicle now app
