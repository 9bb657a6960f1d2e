-- ===== src/Cli/Parser.antt =====
-- `ArgumentParser` of CommandLine.cpp. The arguments not read yet stand for the index.
use onboard_autonomy.Base.{
  ℕ, zero, suc, true, ◌||◌, Option, none, some, List, [], ◌∷◌, ◌++◌, Text, text, text_eq, length,
  if◌then◌else◌, Floating, Fault, invalid_argument, external, Outcome, returned, thrown, ◌>>=◌,
  ◌>>◌,
}
use onboard_autonomy.Cli.Options.{
  LaunchArgumentsDraft, ExplicitOptions, CommandLineOptions, TransportBackend, CameraBackend, udp,
  serial, rpicam, gstreamer, default_draft, none_written, make_command_line_options, u16_max,
  u32_max,
}
use onboard_autonomy.Cli.Validation.{parse_number, validate_options}

pub record Parser (D : Type 0) : Type 0 where
  pub arguments : List Text
  pub draft : LaunchArgumentsDraft D
  pub explicit : ExplicitOptions

-- The options, in the order of the source's tests.
pub data TransportOption : Type 0 where
  transport_name udp_bind_name udp_port_name serial_device_name baud_name : TransportOption

pub data CameraOption : Type 0 where
  camera_name camera_source_name camera_udp_port_name camera_width_name : CameraOption
  camera_height_name camera_fps_name camera_sensor_mode_name camera_preview_name : CameraOption
  camera_preview_port_name forward_camera_udp_port_name : CameraOption

pub data RuntimeOption : Type 0 where
  snapshot_ms_name board_types_name json_name diagnostic_log_name sitl_name : RuntimeOption
  sim_wind_name interactive_name : RuntimeOption

-- The first entry of a table with this text.
unfoldable pub find_text {ℓ} : {A : Type ℓ} → Text → List (Text × A) → Option A
find_text s [] = none
find_text s ((t, a) ∷ rest) = if text_eq s t then some a else find_text s rest

unfoldable pub transport_options : List (Text × TransportOption)
transport_options =
    (text "--transport", transport_name)
    ∷ (text "--udp-bind", udp_bind_name)
    ∷ (text "--udp-port", udp_port_name)
    ∷ (text "--serial-device", serial_device_name)
    ∷ (text "--baud", baud_name)
    ∷ []

unfoldable pub camera_options : List (Text × CameraOption)
camera_options =
    (text "--camera", camera_name)
    ∷ (text "--camera-source", camera_source_name)
    ∷ (text "--camera-udp-port", camera_udp_port_name)
    ∷ (text "--camera-width", camera_width_name)
    ∷ (text "--camera-height", camera_height_name)
    ∷ (text "--camera-fps", camera_fps_name)
    ∷ (text "--camera-sensor-mode", camera_sensor_mode_name)
    ∷ (text "--camera-preview", camera_preview_name)
    ∷ (text "--camera-preview-port", camera_preview_port_name)
    ∷ (text "--forward-camera-udp-port", forward_camera_udp_port_name)
    ∷ []

unfoldable pub runtime_options : List (Text × RuntimeOption)
runtime_options =
    (text "--snapshot-ms", snapshot_ms_name)
    ∷ (text "--board-types", board_types_name)
    ∷ (text "--json", json_name)
    ∷ (text "--diagnostic-log", diagnostic_log_name)
    ∷ (text "--sitl", sitl_name)
    ∷ (text "--sim-wind", sim_wind_name)
    ∷ (text "--interactive", interactive_name)
    ∷ []

abbrev pub transport_values : List (Text × TransportBackend)
transport_values = (text "udp", udp) ∷ (text "serial", serial) ∷ []

abbrev pub camera_values : List (Text × CameraBackend)
camera_values = (text "rpicam", rpicam) ∷ (text "gstreamer", gstreamer) ∷ []

-- `reject`: the exception for an argument that is no option.
unfoldable pub reject : Text → Fault
reject argument = invalid_argument (
    if text_eq argument (text "--serial")
    then text "--serial was renamed; use --transport serial --serial-device DEVICE"
    else if text_eq argument (text "--scenario")
        || (text_eq argument (text "--demo-flight")
            || text_eq argument (text "--exit-after-scenario"))
    then argument ++ text " was removed; use telemetry and camera observation"
    else text "Unknown argument: " ++ argument)

-- A value of a fixed set, or the exception with this message.
abbrev pub one_of {ℓ} : {A : Type ℓ} → Option A → Text → Outcome A
one_of none message = thrown (invalid_argument message)
one_of (some a) message = returned a

module _ {D : Type 0} where
  unfoldable pub next_value : Text → List Text → Parser D → Outcome (Text × Parser D)
  next_value option [] p = thrown (invalid_argument (text "Missing value after " ++ option))
  next_value option (value ∷ rest) p = returned (value, record p { arguments = rest })

  unfoldable pub value_after : Text → Parser D → Outcome (Text × Parser D)
  unfolding next_value
  value_after option p = next_value option p.arguments p

  unfoldable pub number_after : ℕ → Text → Parser D → Outcome (ℕ × Parser D)
  number_after maximum option p = do
    (value, q) ← value_after option p
    n ← parse_number maximum value option
    returned (n, q)

  -- A branch of `parse_transport`.
  unfoldable pub set_transport : TransportOption → Text → Parser D → Outcome (Parser D)
  set_transport transport_name argument p = do
    (value, q) ← value_after argument p
    backend ← one_of (find_text value transport_values) (text "--transport must be udp or serial")
    returned (record q { draft = record q.draft { transport = backend } })
  set_transport udp_bind_name argument p = do
    (value, q) ← value_after argument p
    returned (record q {
      draft = record q.draft { udp_bind = value };
      explicit = record q.explicit { udp_bind = true };
    })
  set_transport udp_port_name argument p = do
    (n, q) ← number_after u16_max argument p
    returned (record q {
      draft = record q.draft { udp_port = n };
      explicit = record q.explicit { udp_port = true };
    })
  set_transport serial_device_name argument p = do
    (value, q) ← value_after argument p
    returned (record q {
      draft = record q.draft { serial_device = value };
      explicit = record q.explicit { serial_device = true };
    })
  set_transport baud_name argument p = do
    (n, q) ← number_after u32_max argument p
    returned (record q {
      draft = record q.draft { baud_rate = n };
      explicit = record q.explicit { baud_rate = true };
    })

  -- A branch of `parse_camera`.
  unfoldable pub set_camera : CameraOption → Text → Parser D → Outcome (Parser D)
  set_camera camera_name argument p =
      returned (record p { draft = record p.draft { camera_enabled = true } })
  set_camera camera_source_name argument p = do
    (value, q) ← value_after argument p
    backend ←
        one_of (find_text value camera_values) (text "--camera-source must be rpicam or gstreamer")
    returned (record q {
      draft = record q.draft { camera_backend = backend };
      explicit = record q.explicit { camera_source = true };
    })
  set_camera camera_udp_port_name argument p = do
    (n, q) ← number_after u16_max argument p
    returned (record q {
      draft = record q.draft { camera_udp_port = n };
      explicit = record q.explicit { camera_udp_port = true };
    })
  set_camera camera_width_name argument p = do
    (n, q) ← number_after u32_max argument p
    returned (record q {
      draft = record q.draft { camera_width = n };
      explicit = record q.explicit { camera_width = true };
    })
  set_camera camera_height_name argument p = do
    (n, q) ← number_after u32_max argument p
    returned (record q {
      draft = record q.draft { camera_height = n };
      explicit = record q.explicit { camera_height = true };
    })
  set_camera camera_fps_name argument p = do
    (n, q) ← number_after u32_max argument p
    returned (record q {
      draft = record q.draft { camera_fps = n };
      explicit = record q.explicit { camera_fps = true };
    })
  set_camera camera_sensor_mode_name argument p = do
    (value, q) ← value_after argument p
    returned (record q {
      draft = record q.draft { camera_sensor_mode = value };
      explicit = record q.explicit { camera_sensor_mode = true };
    })
  set_camera camera_preview_name argument p =
      returned (record p { draft = record p.draft { camera_preview_enabled = true } })
  set_camera camera_preview_port_name argument p = do
    (n, q) ← number_after u16_max argument p
    returned (record q {
      draft = record q.draft { camera_preview_port = n };
      explicit = record q.explicit { camera_preview_port = true };
    })
  set_camera forward_camera_udp_port_name argument p = do
    (n, q) ← number_after u16_max argument p
    returned (record q { draft = record q.draft { forward_camera_udp_port = some n } })

module _ {D : Type 0} ⦃fp : Floating D⦄ where
  -- `parse_number<double>(value_after(argument), argument)`
  unfoldable pub double_after : Text → Parser D → Outcome (D × Parser D)
  double_after option p = do
    (value, q) ← value_after option p
    x ← one_of (fp.from_text value) (text "Invalid numeric value for " ++ option)
    returned (x, q)

  -- A branch of `parse_runtime`.
  unfoldable pub set_runtime : RuntimeOption → Text → Parser D → Outcome (Parser D)
  set_runtime snapshot_ms_name argument p = do
    (n, q) ← number_after u32_max argument p
    returned (record q { draft = record q.draft { snapshot_interval_ms = n } })
  set_runtime board_types_name argument p = do
    (value, q) ← value_after argument p
    returned (record q { draft = record q.draft { board_types_file = value } })
  set_runtime json_name argument p =
      returned (record p { draft = record p.draft { json_output = true } })
  set_runtime diagnostic_log_name argument p = do
    (value, q) ← value_after argument p
    returned (record q {
      draft = record q.draft { diagnostic_log_file = value };
      explicit = record q.explicit { diagnostic_log_file = true };
    })
  set_runtime sitl_name argument p =
      returned (record p { draft = record p.draft { sitl_mode = true } })
  set_runtime sim_wind_name argument p = do
    (speed, q) ← double_after argument p
    (direction, r) ← double_after argument q
    (turbulence, s) ← double_after argument r
    returned (record s {
      draft = record s.draft {
        simulated_wind = some record {
          speed_m_s = speed;
          direction_from_deg = direction;
          turbulence_m_s = turbulence;
        };
      };
    })
  set_runtime interactive_name argument p =
      returned (record p { draft = record p.draft { interactive = true } })

  unfoldable pub by_runtime : Option RuntimeOption → Text → Parser D → Outcome (Parser D)
  by_runtime none argument p = thrown (reject argument)
  by_runtime (some option) argument p = set_runtime option argument p

  unfoldable pub by_camera : Option CameraOption → Text → Parser D → Outcome (Parser D)
  unfolding by_runtime
  by_camera none argument p = by_runtime (find_text argument runtime_options) argument p
  by_camera (some option) argument p = set_camera option argument p

  unfoldable pub by_transport : Option TransportOption → Text → Parser D → Outcome (Parser D)
  unfolding by_camera
  by_transport none argument p = by_camera (find_text argument camera_options) argument p
  by_transport (some option) argument p = set_transport option argument p

  -- A round of the loop of `parse`: the three groups of options, in their order.
  unfoldable pub parse_argument : Text → Parser D → Outcome (Parser D)
  unfolding by_transport
  parse_argument argument p = by_transport (find_text argument transport_options) argument p

  -- The loop of `parse` on fuel. The number of arguments is enough, since a round reads one.
  unfoldable pub parse_arguments : ℕ → List Text → Parser D → Outcome (Parser D)
  parse_arguments zero [] p = returned p
  parse_arguments zero (argument ∷ rest) p = thrown (external "out of fuel")
  parse_arguments (suc fuel) [] p = returned p
  parse_arguments (suc fuel) (argument ∷ rest) p = do
    q ← parse_argument argument (record p { arguments = rest })
    parse_arguments fuel q.arguments q

  unfoldable pub fresh_parser : List Text → Parser D
  fresh_parser arguments = record {
    arguments = arguments;
    draft = default_draft;
    explicit = none_written;
  }

  unfoldable pub parse_command_line : List Text → Outcome (CommandLineOptions D)
  parse_command_line arguments = do
    p ← parse_arguments (length arguments) arguments (fresh_parser arguments)
    validate_options p.draft p.explicit
    returned (make_command_line_options p.draft)
