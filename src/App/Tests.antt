-- ===== src/App/Tests.antt =====
-- The application's theorems over a wire that takes five bytes at a time, and a controller that
-- sends one heartbeat.
use onboard_autonomy.Base.{
  ℕ, ◌+◌, ◌-◌, ◌≡◌, refl, Bool, true, false, Option, none, some, List, [], ◌∷◌, ◌++◌, arith, ℤ, pos,
  take, drop, length, ltb, if◌then◌else◌, text, Returns, returned, Floating, Text,
}
use onboard_autonomy.Fixtures.{sample_doubles, sample_pack}
use onboard_autonomy.Mavlink.Encoder.{Bytes}
use onboard_autonomy.Mavlink.Messages.{heartbeat}
use onboard_autonomy.Mavlink.Decoder.{Library}
use onboard_autonomy.Vehicle.Report.{VehicleSnapshot}
use onboard_autonomy.Camera.Ports.{CameraSource, TargetDetector, stopped, detector_threw}
use onboard_autonomy.App.State.{App, initial, set_observation_sinks}
use onboard_autonomy.App.Transport.{Transport, send_bytes}
use onboard_autonomy.App.Frames.{send_bytes-fuel, send_bytes-whole}
use onboard_autonomy.App.Poll.{act, poll}
use onboard_autonomy.App.Invariant.{IsValid, initial-IsValid}
use onboard_autonomy.App.Steps.{poll-IsValid}
use onboard_autonomy.App.Silence.{act-silent}
use onboard_autonomy.Base
use onboard_autonomy.Vehicle
use onboard_autonomy.Telemetry

-- What came in and what went out.
abbrev Wire : Type 0
Wire = Bytes × Bytes

abbrev at_most_five : ℕ → ℕ
at_most_five n = if ltb n 5 then n else 5

abbrev slow_wire : Transport Wire
slow_wire = record {
  read = λ size w. (([], w.1), take size w.0);
  write = λ bytes w.
      ((w.0, w.1 ++ take (at_most_five (length bytes)) bytes), at_most_five (length bytes));
}

send_bytes-fuel_example :
    send_bytes slow_wire 40 (1 ∷ 2 ∷ 3 ∷ 4 ∷ 5 ∷ 6 ∷ 7 ∷ []) ([], [])
    ≡ send_bytes slow_wire 7 (1 ∷ 2 ∷ 3 ∷ 4 ∷ 5 ∷ 6 ∷ 7 ∷ []) ([], [])
send_bytes-fuel_example =
    send_bytes-fuel slow_wire 40 (1 ∷ 2 ∷ 3 ∷ 4 ∷ 5 ∷ 6 ∷ 7 ∷ []) ([], []) (omega arith)

slow_wire-takes :
    (bytes : Bytes) (w : Wire)
    → (slow_wire.write bytes w).0.1 ≡ w.1 ++ take (slow_wire.write bytes w).1 bytes
slow_wire-takes bytes w = refl

send_bytes-whole_example :
    (send_bytes slow_wire 7 (1 ∷ 2 ∷ 3 ∷ 4 ∷ 5 ∷ 6 ∷ 7 ∷ []) ([], 0 ∷ [])).0.1
    ≡ 0 ∷ 1 ∷ 2 ∷ 3 ∷ 4 ∷ 5 ∷ 6 ∷ 7 ∷ []
unfolding send_bytes
send_bytes-whole_example =
    send_bytes-whole slow_wire (λ w. w.1) slow_wire-takes 7 (1 ∷ 2 ∷ 3 ∷ 4 ∷ 5 ∷ 6 ∷ 7 ∷ [])
      ([], 0 ∷ []) refl

-- Every byte is a whole heartbeat of controller 1.
abbrev one_byte_library : Library ℕ
one_byte_library = record {
  frame_char = λ p byte. (
    p + 1,
    some record {
      msgid = 0;
      sysid = 1;
      compid = 1;
      payload = heartbeat record {
        vehicle_type = 2;
        autopilot = 3;
        base_mode = 0;
        custom_mode = byte;
        system_status = 4;
      };
    },
  );
  message_name = λ id. text "HEARTBEAT";
}

abbrev no_camera : CameraSource ℕ
no_camera = record {
  take_latest_frame = λ c. (c, none);
  status = λ c. record {
    phase = stopped;
    description = [];
    error = [];
    produced_frames = 0;
    overwritten_frames = 0;
    restart_count = 0;
  };
}

abbrev no_detector : TargetDetector ℕ ℤ
no_detector = record {
  detect = λ v frame. (v, detector_threw (Base.external "none"));
  description = λ v. [];
}

abbrev fresh : App ℕ ℕ Wire ℕ ℤ
fresh = initial (4 ∷ 4 ∷ [], []) 0 none none

-- With a sink, a null one and another.
abbrev watched : App ℕ ℕ Wire ℕ ℤ
watched = set_observation_sinks (some 1 ∷ none ∷ some 2 ∷ []) fresh

poll-IsValid_example : Returns IsValid (
    poll no_camera no_detector sample_pack slow_wire one_byte_library none 1_000_000_000
      1_000_000_500 watched)
unfolding initial set_observation_sinks
poll-IsValid_example =
    poll-IsValid no_camera no_detector sample_pack slow_wire one_byte_library none 1_000_000_000
      1_000_000_500 watched tt
      (initial-IsValid {C = ℕ} {V = ℕ} {T = Wire} {P = ℕ} (some 1 ∷ none ∷ some 2 ∷ [])
        (4 ∷ 4 ∷ [], []) 0 none none)

abbrev nobody : VehicleSnapshot ℤ
nobody = (Vehicle.Report.snapshot 1_000_000_000 Vehicle.State.initial).1

act-silent_example :
    Returns
      (λ a.
        (a.transport ≡ fresh.transport)
        × (a.companion_heartbeat_active ≡ false)
        × (a.telemetry_configurator ≡ Telemetry.initial))
      (act sample_pack slow_wire nobody 1_000_000_000 fresh)
unfolding Vehicle.Report.snapshot Vehicle.State.initial Vehicle.Report.is_connected
    Vehicle.Report.identity
act-silent_example = act-silent sample_pack slow_wire nobody 1_000_000_000 fresh refl
