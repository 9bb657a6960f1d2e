-- ===== src/Mavlink/Decoder/Tests.antt =====
-- The theorems about the decoder at a concrete host and a concrete library.
use onboard_autonomy.Base.{ℕ, ◌+◌, ◌*◌, ◌<◌, ◌≡◌, refl, none, some, [], arith, ℤ}
use onboard_autonomy.Fixtures.{sample_doubles}
use onboard_autonomy.Mavlink.Messages.{Message, AutopilotVersion, gps_raw_int, other}
use onboard_autonomy.Vehicle.State.{VehicleState, initial, on_heartbeat, starts_over}
use onboard_autonomy.Vehicle.Report.{snapshot, is_connected, identity, telemetry}
use onboard_autonomy.Mavlink.Decoder.{Host, Library, is_from, metadata_of, handle_message}
use onboard_autonomy.Mavlink.Decoder.Filter.{Unmoved, metadata_of-packed, handle_message-foreign}

-- A host that is the vehicle alone, with no handlers.
abbrev bare_host : Host (VehicleState ℤ) ℤ
bare_host = record {
  vehicle = λ v. v;
  set_vehicle = λ v s. v;
  on_ack = none;
  on_message = none;
  on_parameter = none;
}

-- A library whose every byte is a whole message of an unknown id.
abbrev byte_library : Library ℕ
byte_library = record {
  frame_char =
      λ n byte. (n + 1, some record { msgid = byte; sysid = 1; compid = 1; payload = other byte });
  message_name = λ id. [];
}

version : AutopilotVersion
version = record {
  flight_sw_version = 67_502_335;
  capabilities = 0;
  board_version = 0;
  vendor_id = 0;
  product_id = 0;
}

metadata_of-packed_example :
    let m = metadata_of version in
    (m.firmware_major < 256)
    × (m.firmware_minor < 256)
    × (m.firmware_patch < 256)
    × (m.firmware_release_type < 256)
    × (((m.firmware_major * 256 + m.firmware_minor) * 256 + m.firmware_patch) * 256
          + m.firmware_release_type
        ≡ version.flight_sw_version)
unfolding version
metadata_of-packed_example = metadata_of-packed version (omega arith)

abbrev heard : VehicleState ℤ
heard = on_heartbeat 1 1 2 3 0 0 4 1_000 initial

abbrev foreign : Message
foreign = record { msgid = 24; sysid = 9; compid = 1; payload = gps_raw_int 3 10 }

handle_message-foreign_example :
    Unmoved bare_host 2_000 heard (handle_message bare_host foreign 2_000 heard)
unfolding is_from snapshot on_heartbeat starts_over initial is_connected identity telemetry
handle_message-foreign_example = handle_message-foreign bare_host foreign 2_000 heard refl refl
