-- ===== src/Cli/Options.antt =====
-- CommandLine.hpp and CommandLineDefaults.hpp: the launch options and their defaults, with the
-- parser's buffer of CommandLine.cpp.
use onboard_autonomy.Base.{ℕ, Bool, true, false, Option, none, some, Text, text}
use onboard_autonomy.App.State.{SimulatedWindProfile}

abbrev pub u16_max : ℕ
u16_max = 65_535

abbrev pub u32_max : ℕ
u32_max = 4_294_967_295

pub record UdpConnectionOptions : Type 0 where
  pub bind_address : Text
  pub port : ℕ

pub record SerialConnectionOptions : Type 0 where
  pub device : Text
  pub baud_rate : ℕ

pub data MavlinkConnectionOptions : Type 0 where
  udp_connection : UdpConnectionOptions → MavlinkConnectionOptions
  serial_connection : SerialConnectionOptions → MavlinkConnectionOptions

pub record RpicamOptions : Type 0 where
  pub frames_per_second : ℕ
  pub sensor_mode : Text

pub record GStreamerCameraOptions : Type 0 where
  pub udp_port : ℕ

pub data CameraSourceOptions : Type 0 where
  rpicam_source : RpicamOptions → CameraSourceOptions
  gstreamer_source : GStreamerCameraOptions → CameraSourceOptions

pub record CameraPreviewOptions : Type 0 where
  pub port : ℕ

pub record ForwardCameraOptions : Type 0 where
  pub udp_port : ℕ
  pub frame_width : ℕ
  pub frame_height : ℕ

pub record CameraOptions : Type 0 where
  pub source : CameraSourceOptions
  pub frame_width : ℕ
  pub frame_height : ℕ

pub record OperatorInterfaceOptions : Type 0 where
  pub interactive : Bool
  pub json_output : Bool
  pub snapshot_interval_ms : ℕ
  pub board_types_file : Text

pub record DiagnosticsOptions : Type 0 where
  pub camera_preview : Option CameraPreviewOptions
  pub forward_camera : Option ForwardCameraOptions
  pub log_file : Text

pub record HardwareLaunchOptions : Type 0 where
  pub connection : MavlinkConnectionOptions
  pub camera : Option CameraOptions
  pub operator_interface : OperatorInterfaceOptions
  pub diagnostics : DiagnosticsOptions

pub record SimulationLaunchOptions (D : Type 0) : Type 0 where
  pub connection : UdpConnectionOptions
  pub camera : Option CameraOptions
  pub wind : Option (SimulatedWindProfile D)
  pub operator_interface : OperatorInterfaceOptions
  pub diagnostics : DiagnosticsOptions

pub data CommandLineOptions (D : Type 0) : Type 0 where
  hardware_launch : HardwareLaunchOptions → CommandLineOptions D
  simulation_launch : SimulationLaunchOptions D → CommandLineOptions D

pub data TransportBackend : Type 0 where
  udp serial : TransportBackend

pub data CameraBackend : Type 0 where
  rpicam gstreamer : CameraBackend

pub record LaunchArgumentsDraft (D : Type 0) : Type 0 where
  pub udp_bind : Text
  pub serial_device : Text
  pub board_types_file : Text
  pub diagnostic_log_file : Text
  pub simulated_wind : Option (SimulatedWindProfile D)
  pub forward_camera_udp_port : Option ℕ
  pub transport : TransportBackend
  pub baud_rate : ℕ
  pub snapshot_interval_ms : ℕ
  pub camera_backend : CameraBackend
  pub camera_width : ℕ
  pub camera_height : ℕ
  pub camera_fps : ℕ
  pub camera_sensor_mode : Text
  pub udp_port : ℕ
  pub camera_udp_port : ℕ
  pub camera_preview_port : ℕ
  pub camera_enabled : Bool
  pub camera_preview_enabled : Bool
  pub json_output : Bool
  pub sitl_mode : Bool
  pub interactive : Bool

unfoldable pub default_draft : {D : Type 0} → LaunchArgumentsDraft D
default_draft = record {
  udp_bind = text "0.0.0.0";
  serial_device = text "";
  board_types_file = text "";
  diagnostic_log_file = text "";
  simulated_wind = none;
  forward_camera_udp_port = none;
  transport = udp;
  baud_rate = 115_200;
  snapshot_interval_ms = 1000;
  camera_backend = rpicam;
  camera_width = 640;
  camera_height = 480;
  camera_fps = 30;
  camera_sensor_mode = text "2304:1296:10:P";
  udp_port = 14_550;
  camera_udp_port = 5601;
  camera_preview_port = 8080;
  camera_enabled = false;
  camera_preview_enabled = false;
  json_output = false;
  sitl_mode = false;
  interactive = false;
}

-- Which options were written.
pub record ExplicitOptions : Type 0 where
  pub udp_bind : Bool
  pub udp_port : Bool
  pub serial_device : Bool
  pub baud_rate : Bool
  pub camera_source : Bool
  pub camera_udp_port : Bool
  pub camera_width : Bool
  pub camera_height : Bool
  pub camera_fps : Bool
  pub camera_sensor_mode : Bool
  pub camera_preview_port : Bool
  pub diagnostic_log_file : Bool

unfoldable pub none_written : ExplicitOptions
none_written = record {
  udp_bind = false;
  udp_port = false;
  serial_device = false;
  baud_rate = false;
  camera_source = false;
  camera_udp_port = false;
  camera_width = false;
  camera_height = false;
  camera_fps = false;
  camera_sensor_mode = false;
  camera_preview_port = false;
  diagnostic_log_file = false;
}

unfoldable pub make_connection_options :
    {D : Type 0} → TransportBackend → LaunchArgumentsDraft D → MavlinkConnectionOptions
make_connection_options udp d =
    udp_connection record { bind_address = d.udp_bind; port = d.udp_port }
make_connection_options serial d =
    serial_connection record { device = d.serial_device; baud_rate = d.baud_rate }

unfoldable pub make_camera_source_options :
    {D : Type 0} → CameraBackend → LaunchArgumentsDraft D → CameraSourceOptions
make_camera_source_options rpicam d =
    rpicam_source record { frames_per_second = d.camera_fps; sensor_mode = d.camera_sensor_mode }
make_camera_source_options gstreamer d = gstreamer_source record { udp_port = d.camera_udp_port }

unfoldable pub make_camera_options :
    {D : Type 0} → Bool → LaunchArgumentsDraft D → Option CameraOptions
unfolding make_camera_source_options
make_camera_options false d = none
make_camera_options true d = some record {
  source = make_camera_source_options d.camera_backend d;
  frame_width = d.camera_width;
  frame_height = d.camera_height;
}

unfoldable pub make_camera_preview : Bool → ℕ → Option CameraPreviewOptions
make_camera_preview false port = none
make_camera_preview true port = some record { port = port }

unfoldable pub make_forward_camera :
    {D : Type 0} → Option ℕ → LaunchArgumentsDraft D → Option ForwardCameraOptions
make_forward_camera none d = none
make_forward_camera (some port) d =
    some record { udp_port = port; frame_width = d.camera_width; frame_height = d.camera_height }

unfoldable pub make_operator_interface :
    {D : Type 0} → LaunchArgumentsDraft D → OperatorInterfaceOptions
make_operator_interface d = record {
  interactive = d.interactive;
  json_output = d.json_output;
  snapshot_interval_ms = d.snapshot_interval_ms;
  board_types_file = d.board_types_file;
}

unfoldable pub make_diagnostics : {D : Type 0} → LaunchArgumentsDraft D → DiagnosticsOptions
unfolding make_camera_preview make_forward_camera
make_diagnostics d = record {
  camera_preview = make_camera_preview d.camera_preview_enabled d.camera_preview_port;
  forward_camera = make_forward_camera d.forward_camera_udp_port d;
  log_file = d.diagnostic_log_file;
}

unfoldable pub make_launch : {D : Type 0} → Bool → LaunchArgumentsDraft D → CommandLineOptions D
unfolding make_connection_options make_camera_options make_operator_interface make_diagnostics
make_launch true d = simulation_launch record {
  connection = record { bind_address = d.udp_bind; port = d.udp_port };
  camera = make_camera_options d.camera_enabled d;
  wind = d.simulated_wind;
  operator_interface = make_operator_interface d;
  diagnostics = make_diagnostics d;
}
make_launch false d = hardware_launch record {
  connection = make_connection_options d.transport d;
  camera = make_camera_options d.camera_enabled d;
  operator_interface = make_operator_interface d;
  diagnostics = make_diagnostics d;
}

unfoldable pub make_command_line_options :
    {D : Type 0} → LaunchArgumentsDraft D → CommandLineOptions D
unfolding make_launch
make_command_line_options d = make_launch d.sitl_mode d
