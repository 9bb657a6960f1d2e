-- ===== src/Cli/Validation.antt =====
-- `validate_options` of CommandLine.cpp and what it calls.
use onboard_autonomy.Base.{
  ℕ, ◌%◌, Bool, true, false, not, ◌&&◌, ◌||◌, Option, none, some, List, [], ◌∷◌, ◌++◌, Text, text,
  text_eq, is_empty, if◌then◌else◌, ◌==◌, has_value, pos, Floating, invalid_argument, Outcome,
  returned, thrown, ◌>>=◌, ◌>>◌, refuse_if, parse_unsigned, any,
}
use onboard_autonomy.App.State.{SimulatedWindProfile}
use onboard_autonomy.Cli.Options.{
  TransportBackend, CameraBackend, udp, serial, rpicam, gstreamer, LaunchArgumentsDraft,
  ExplicitOptions, u32_max,
}

unfoldable pub number_or_fault : Option ℕ → Text → Outcome ℕ
number_or_fault (some n) option = returned n
number_or_fault none option =
    thrown (invalid_argument (text "Invalid numeric value for " ++ option))

-- `parse_number` on an unsigned type with this maximum.
unfoldable pub parse_number : ℕ → Text → Text → Outcome ℕ
unfolding number_or_fault
parse_number maximum value option = number_or_fault (parse_unsigned maximum value) option

abbrev pub prepend : ℕ → Option (Text × Text) → Option (Text × Text)
prepend c none = none
prepend c (some (front, back)) = some (c ∷ front, back)

-- The text up to a colon and the text after it; `none` without a colon.
unfoldable pub split_colon : Text → Option (Text × Text)
split_colon [] = none
split_colon (c ∷ s) = if c == b':' then some ([], s) else prepend c (split_colon s)

abbrev pub supported_bit_depths : List ℕ
supported_bit_depths = 8 ∷ 10 ∷ 12 ∷ 14 ∷ 16 ∷ []

-- A round of the loop over the parts of a sensor mode.
unfoldable pub mode_part : ℕ → Option (Text × Text) → Outcome Text
mode_part part none =
    thrown (invalid_argument (text "--camera-sensor-mode must be WIDTH:HEIGHT:DEPTH:P or :U"))
mode_part part (some (front, back)) = do
  value ← parse_number u32_max front (text "--camera-sensor-mode")
  refuse_if (value == 0 || (part == 2 && not (any (λ d. d == value) supported_bit_depths)))
      (text "Invalid dimensions or depth for --camera-sensor-mode")
  returned back

unfoldable pub validate_sensor_mode : Text → Outcome (Unit {0})
unfolding mode_part
validate_sensor_mode mode = do
  after_width ← mode_part 0 (split_colon mode)
  after_height ← mode_part 1 (split_colon after_width)
  packing ← mode_part 2 (split_colon after_height)
  refuse_if (not (text_eq packing (text "P")) && not (text_eq packing (text "U")))
      (text "--camera-sensor-mode packing must be P or U")

abbrev pub is_rpicam : CameraBackend → Bool
is_rpicam rpicam = true
is_rpicam gstreamer = false

module _ {D : Type 0} where
  unfoldable pub validate_backend :
      TransportBackend → LaunchArgumentsDraft D → ExplicitOptions → Outcome (Unit {0})
  validate_backend udp o e = do
    refuse_if (e.serial_device || e.baud_rate)
        (text "--serial-device and --baud require --transport serial")
    refuse_if (is_empty o.udp_bind) (text "--udp-bind cannot be empty")
    refuse_if (o.udp_port == 0) (text "--udp-port must be positive")
  validate_backend serial o e = do
    refuse_if (e.udp_bind || e.udp_port) (text "--udp-bind and --udp-port require --transport udp")
    refuse_if (is_empty o.serial_device) (text "--transport serial requires --serial-device DEVICE")
    refuse_if (o.baud_rate == 0) (text "--baud must be positive")
    refuse_if o.sitl_mode (text "--sitl cannot be combined with --transport serial")

  unfoldable pub validate_transport : LaunchArgumentsDraft D → ExplicitOptions → Outcome (Unit {0})
  unfolding validate_backend
  validate_transport o e = validate_backend o.transport o e

  abbrev pub any_camera : LaunchArgumentsDraft D → Bool
  any_camera o = o.camera_enabled || has_value o.forward_camera_udp_port

  -- The checks on the frame dimensions, and on options without a camera.
  unfoldable pub validate_dimensions : LaunchArgumentsDraft D → ExplicitOptions → Outcome (Unit {0})
  validate_dimensions o e = do
    refuse_if
        ((e.camera_source || (e.camera_udp_port || (e.camera_fps || e.camera_sensor_mode)))
          && not o.camera_enabled)
        (text "camera source, UDP port, and FPS options require --camera")
    refuse_if
        (not (any_camera o) && (e.camera_width || (e.camera_height || o.camera_preview_enabled)))
        (text "camera dimensions and preview require --camera or --forward-camera-udp-port")
    refuse_if
        (any_camera o
          && (o.camera_width == 0
              || (o.camera_height == 0
                  || (not (o.camera_width % 2 == 0) || not (o.camera_height % 2 == 0)))))
        (text "camera width and height must be positive even values")

  -- The checks on an enabled primary camera, for each backend.
  unfoldable pub validate_source :
      CameraBackend → LaunchArgumentsDraft D → ExplicitOptions → Outcome (Unit {0})
  validate_source rpicam o e = do
    validate_sensor_mode o.camera_sensor_mode
    refuse_if e.camera_udp_port (text "--camera-udp-port requires --camera-source gstreamer")
    refuse_if (o.camera_fps == 0) (text "--camera-fps must be positive")
  validate_source gstreamer o e = do
    refuse_if e.camera_sensor_mode (text "--camera-sensor-mode requires --camera-source rpicam")
    refuse_if e.camera_fps (text "--camera-fps is available only for --camera-source rpicam")
    refuse_if (o.camera_udp_port == 0) (text "--camera-udp-port must be positive")

  unfoldable pub validate_primary : LaunchArgumentsDraft D → ExplicitOptions → Outcome (Unit {0})
  unfolding validate_source
  validate_primary o e =
      if o.camera_enabled then validate_source o.camera_backend o e else returned tt

  unfoldable pub validate_preview : LaunchArgumentsDraft D → ExplicitOptions → Outcome (Unit {0})
  validate_preview o e = do
    refuse_if (e.camera_preview_port && not o.camera_preview_enabled)
        (text "--camera-preview-port requires --camera-preview")
    refuse_if (o.camera_preview_enabled && o.camera_preview_port == 0)
        (text "--camera-preview-port must be positive")

  unfoldable pub validate_forward_port : Option ℕ → LaunchArgumentsDraft D → Outcome (Unit {0})
  validate_forward_port none o = returned tt
  validate_forward_port (some port) o = do
    refuse_if (not o.camera_preview_enabled)
        (text "--forward-camera-udp-port requires --camera-preview")
    refuse_if (port == 0) (text "--forward-camera-udp-port must be positive")
    refuse_if (o.camera_enabled && (not (is_rpicam o.camera_backend) && port == o.camera_udp_port))
        (text "forward and downward camera UDP ports must differ")

  unfoldable pub validate_forward : LaunchArgumentsDraft D → Outcome (Unit {0})
  unfolding validate_forward_port
  validate_forward o = validate_forward_port o.forward_camera_udp_port o

  unfoldable pub validate_camera : LaunchArgumentsDraft D → ExplicitOptions → Outcome (Unit {0})
  validate_camera o e = do
    validate_dimensions o e
    validate_primary o e
    validate_preview o e
    validate_forward o

module _ {D : Type 0} ⦃fp : Floating D⦄ where
  abbrev pub finite_from_zero : D → Bool
  finite_from_zero x = fp.is_finite x && not (fp.flt x (fp.of_int (pos 0)))

  unfoldable pub validate_profile : Option (SimulatedWindProfile D) → Bool → Outcome (Unit {0})
  validate_profile none sitl = returned tt
  validate_profile (some wind) sitl = do
    refuse_if (not sitl) (text "--sim-wind requires --sitl")
    refuse_if (not (finite_from_zero wind.speed_m_s))
        (text "--sim-wind speed must be finite and non-negative")
    refuse_if
        (not (finite_from_zero wind.direction_from_deg)
          || fp.fle (fp.of_int (pos 360)) wind.direction_from_deg)
        (text "--sim-wind direction must be in [0, 360)")
    refuse_if (not (finite_from_zero wind.turbulence_m_s))
        (text "--sim-wind turbulence must be finite and non-negative")

  unfoldable pub validate_wind : LaunchArgumentsDraft D → Outcome (Unit {0})
  unfolding validate_profile
  validate_wind o = validate_profile o.simulated_wind o.sitl_mode

  unfoldable pub validate_options : LaunchArgumentsDraft D → ExplicitOptions → Outcome (Unit {0})
  validate_options o e = do
    refuse_if (o.snapshot_interval_ms == 0) (text "--snapshot-ms must be positive")
    refuse_if (o.interactive && o.json_output) (text "--interactive cannot be combined with --json")
    refuse_if (is_empty o.diagnostic_log_file && e.diagnostic_log_file)
        (text "--diagnostic-log cannot be empty")
    validate_wind o
    validate_transport o e
    validate_camera o e
