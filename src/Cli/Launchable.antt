-- ===== src/Cli/Launchable.antt =====
-- What launch options must satisfy for the program to start, described without the parser.
use onboard_autonomy.Base.{
  ℕ, ◌*◌, ◌≤◌, ◌<◌, ◌≡◌, ◌≢◌, ◌⊎◌, true, false, Option, none, some, [], ◌∷◌, ◌++◌, Text, text, pos,
  Floating, parse_unsigned,
}
use onboard_autonomy.App.State.{SimulatedWindProfile}
use onboard_autonomy.Cli.Options.{
  u16_max, u32_max, MavlinkConnectionOptions, udp_connection, serial_connection,
  UdpConnectionOptions, CameraSourceOptions, rpicam_source, gstreamer_source, CameraOptions,
  OperatorInterfaceOptions, DiagnosticsOptions, CameraPreviewOptions, ForwardCameraOptions,
  CommandLineOptions, hardware_launch, simulation_launch,
}

abbrev pub IsPort : ℕ → Type 0
IsPort n = (0 < n) × (n ≤ u16_max)

abbrev pub IsPositive32 : ℕ → Type 0
IsPositive32 n = (0 < n) × (n ≤ u32_max)

-- A positive even number of pixels.
abbrev pub IsDimension : ℕ → Type 0
IsDimension n = (n ≤ u32_max) × ((k : ℕ) × (0 < k) × (n ≡ 2 * k))

abbrev pub IsUdp : UdpConnectionOptions → Type 0
IsUdp c = (c.bind_address ≢ []) × IsPort c.port

abbrev pub IsConnection : MavlinkConnectionOptions → Type 0
IsConnection (udp_connection c) = IsUdp c
IsConnection (serial_connection c) = (c.device ≢ []) × IsPositive32 c.baud_rate

-- WIDTH:HEIGHT:DEPTH:P or :U, with positive numbers and a depth that a sensor has.
pub record IsSensorMode (mode : Text) : Type 0 where
  pub width_text : Text
  pub height_text : Text
  pub depth_text : Text
  pub packing : Text
  pub parts :
      mode ≡ width_text ++ (b':' ∷ (height_text ++ (b':' ∷ (depth_text ++ (b':' ∷ packing)))))
  pub width : ℕ
  pub height : ℕ
  pub depth : ℕ
  pub width_read : parse_unsigned u32_max width_text ≡ some width
  pub height_read : parse_unsigned u32_max height_text ≡ some height
  pub depth_read : parse_unsigned u32_max depth_text ≡ some depth
  pub width_positive : 0 < width
  pub height_positive : 0 < height
  pub depth_supported :
      (depth ≡ 8) ⊎ ((depth ≡ 10) ⊎ ((depth ≡ 12) ⊎ ((depth ≡ 14) ⊎ (depth ≡ 16))))
  pub packed : (packing ≡ text "P") ⊎ (packing ≡ text "U")

abbrev pub IsSource : CameraSourceOptions → Type 0
IsSource (rpicam_source o) = IsPositive32 o.frames_per_second × IsSensorMode o.sensor_mode
IsSource (gstreamer_source o) = IsPort o.udp_port

abbrev pub IsCamera : Option CameraOptions → Type 0
IsCamera none = Unit {0}
IsCamera (some c) = IsSource c.source × (IsDimension c.frame_width × IsDimension c.frame_height)

abbrev pub IsPreview : Option CameraPreviewOptions → Type 0
IsPreview none = Unit {0}
IsPreview (some p) = IsPort p.port

-- The camera does not listen on this port.
abbrev pub IsApart : ℕ → Option CameraOptions → Type 0
IsApart port none = Unit {0}
IsApart port (some c) = c.source ≢ gstreamer_source (record { udp_port = port })

-- The forward camera is shown in the preview, and listens on a port of its own.
abbrev pub IsForward :
    Option ForwardCameraOptions → Option CameraPreviewOptions → Option CameraOptions → Type 0
IsForward none preview camera = Unit {0}
IsForward (some f) preview camera =
    IsPort f.udp_port
    × ((IsDimension f.frame_width × IsDimension f.frame_height)
        × ((preview ≢ none) × IsApart f.udp_port camera))

-- A preview shows some camera.
abbrev pub IsShown :
    Option CameraPreviewOptions → Option CameraOptions → Option ForwardCameraOptions → Type 0
IsShown preview camera forward = preview ≢ none → camera ≡ none → forward ≢ none

abbrev pub IsOperator : OperatorInterfaceOptions → Type 0
IsOperator o =
    IsPositive32 o.snapshot_interval_ms × ((o.interactive ≡ true) → (o.json_output ≡ false))

abbrev pub IsDiagnostics : DiagnosticsOptions → Option CameraOptions → Type 0
IsDiagnostics d camera =
    IsPreview d.camera_preview
    × (IsForward d.forward_camera d.camera_preview camera
        × IsShown d.camera_preview camera d.forward_camera)

module _ {D : Type 0} ⦃fp : Floating D⦄ where
  abbrev pub FiniteFromZero : D → Type 0
  FiniteFromZero x = (fp.is_finite x ≡ true) × (fp.flt x (fp.of_int (pos 0)) ≡ false)

  abbrev pub IsWind : Option (SimulatedWindProfile D) → Type 0
  IsWind none = Unit {0}
  IsWind (some w) =
      FiniteFromZero w.speed_m_s
      × (FiniteFromZero w.direction_from_deg
          × ((fp.fle (fp.of_int (pos 360)) w.direction_from_deg ≡ false)
              × FiniteFromZero w.turbulence_m_s))

  abbrev pub IsLaunchable : CommandLineOptions D → Type 0
  IsLaunchable (hardware_launch o) =
      IsConnection o.connection
      × (IsCamera o.camera
          × (IsOperator o.operator_interface × IsDiagnostics o.diagnostics o.camera))
  IsLaunchable (simulation_launch o) =
      IsUdp o.connection
      × (IsCamera o.camera
          × (IsWind o.wind
              × (IsOperator o.operator_interface × IsDiagnostics o.diagnostics o.camera)))
