-- ===== src/Cli/Tests.antt =====
-- Command lines that are accepted and refused.
use onboard_autonomy.Base.{
  ℕ, ◌≤◌, ◌≡◌, refl, Bool, true, false, Option, none, some, List, [], ◌∷◌, Text, text, text_eq,
  to_string, length, arith, ℤ, digits_value, parse_unsigned, invalid_argument, Outcome, returned,
  thrown, IfReturns,
}
use onboard_autonomy.Fixtures.{sample_doubles}
use onboard_autonomy.Cli.Options.{
  CommandLineOptions, hardware_launch, simulation_launch, serial_connection, rpicam_source,
  gstreamer_source, u16_max,
}
use onboard_autonomy.Cli.Parser.{Parser, fresh_parser, parse_arguments, parse_command_line}
use onboard_autonomy.Cli.Validation.{parse_number, validate_sensor_mode}
use onboard_autonomy.Cli.Launchable.{IsLaunchable}
use onboard_autonomy.Cli.Kept.{parse_number-to_string}
use onboard_autonomy.Cli.Fuel.{Reads, parse_arguments-Reads}
use onboard_autonomy.Cli.Sound.{parse_command_line-IsLaunchable}
use onboard_autonomy.Base
use onboard_autonomy.Cli.Options
use onboard_autonomy.Cli.Validation
use onboard_autonomy.Cli.Parser

abbrev serial_arguments : List Text
serial_arguments =
    text "--transport"
    ∷ text "serial"
    ∷ text "--serial-device"
    ∷ text "/dev/ttyAMA0"
    ∷ text "--camera"
    ∷ text "--json"
    ∷ []

abbrev odd_arguments : List Text
odd_arguments = text "--camera" ∷ text "--camera-width" ∷ text "641" ∷ []

serial_run :
    parse_command_line {D = ℤ} serial_arguments
    ≡ returned (
        hardware_launch record {
          connection =
              serial_connection record { device = text "/dev/ttyAMA0"; baud_rate = 115_200 };
          camera = some record {
            source =
                rpicam_source
                  record { frames_per_second = 30; sensor_mode = text "2304:1296:10:P" };
            frame_width = 640;
            frame_height = 480;
          };
          operator_interface = record {
            interactive = false;
            json_output = true;
            snapshot_interval_ms = 1000;
            board_types_file = [];
          };
          diagnostics = record { camera_preview = none; forward_camera = none; log_file = [] };
        })
unfolding Base.text Base.text_eq Base.digits_value Base.parse_unsigned Parser.parse_command_line
    Parser.parse_arguments Parser.parse_argument Parser.by_transport Parser.by_camera
    Parser.by_runtime Parser.find_text Parser.transport_options Parser.camera_options
    Parser.runtime_options Parser.set_transport Parser.set_camera Parser.set_runtime
    Parser.value_after Parser.next_value Parser.fresh_parser Options.default_draft
    Options.none_written Validation.validate_options Validation.validate_wind
    Validation.validate_profile Validation.validate_transport Validation.validate_backend
    Validation.validate_camera Validation.validate_dimensions Validation.validate_primary
    Validation.validate_source Validation.validate_sensor_mode Validation.mode_part
    Validation.split_colon Validation.parse_number Validation.number_or_fault
    Validation.validate_preview Validation.validate_forward Validation.validate_forward_port
    Options.make_command_line_options Options.make_launch Options.make_connection_options
    Options.make_camera_options Options.make_camera_source_options Options.make_operator_interface
    Options.make_diagnostics Options.make_camera_preview Options.make_forward_camera
serial_run = refl

parse_command_line-IsLaunchable_example :
    IfReturns (IsLaunchable {D = ℤ}) (parse_command_line serial_arguments)
parse_command_line-IsLaunchable_example = parse_command_line-IsLaunchable ℤ serial_arguments

parse_arguments-Reads_example :
    Reads {D = ℤ} odd_arguments
      (fresh_parser odd_arguments)
      (parse_arguments 3 odd_arguments (fresh_parser odd_arguments))
parse_arguments-Reads_example = parse_arguments-Reads 3 odd_arguments (omega arith)

parse_number-to_string_example :
    parse_number u16_max (to_string 14_550) (text "--udp-port") ≡ returned 14_550
parse_number-to_string_example =
    parse_number-to_string u16_max 14_550 (text "--udp-port") (omega arith)
