-- ===== src/Cli/Sound.antt =====
-- `parse_command_line` of CommandLine.cpp against the description of launchable options.
use onboard_autonomy.Base.{
  ◌≡◌, refl, Bool, true, false, not, ◌&&◌, ◌||◌, Option, none, some, List, Text, is_empty, length,
  ◌==◌, arith, Floating, pos, Outcome, returned, thrown, ◌>>=◌, accepted, accepted_last,
  both_returned, neither, not_both, positive, contrary, IfReturns, >>=-IfReturns,
}
use onboard_autonomy.App.State.{SimulatedWindProfile}
use onboard_autonomy.Cli.Options.{
  TransportBackend, udp, serial, LaunchArgumentsDraft, ExplicitOptions, make_connection_options,
  make_camera_options, make_operator_interface, make_diagnostics, make_launch,
  make_command_line_options,
}
use onboard_autonomy.Cli.Validation.{
  validate_backend, validate_transport, validate_profile, validate_wind, validate_options,
  finite_from_zero,
}
use onboard_autonomy.Cli.Parser.{Parser, parse_arguments, fresh_parser, parse_command_line}
use onboard_autonomy.Cli.Launchable.{
  IsConnection, IsUdp, IsCamera, IsOperator, IsDiagnostics, FiniteFromZero, IsWind, IsLaunchable,
}
use onboard_autonomy.Cli.Kept.{InRange}
use onboard_autonomy.Cli.Fuel.{parse_arguments-InRange}
use onboard_autonomy.Cli.Cameras.{cameras-IsLaunchable}
use onboard_autonomy.Cli.Accepted.{is_empty-ne}

module _ {D : Type 0} (d : LaunchArgumentsDraft D) (e : ExplicitOptions) (range : InRange d) where
  backend-IsConnection :
      (b : TransportBackend)
      → validate_backend b d e ≡ returned tt
      → IsConnection (make_connection_options b d)
  unfolding validate_backend make_connection_options
  backend-IsConnection udp h =
      let (written, h1) = accepted _ _ _ tt h in
      let (bind, h2) = accepted _ _ _ tt h1 in
      (
        is_empty-ne d.udp_bind bind,
        (positive d.udp_port (accepted_last _ _ tt h2), range.udp_port_fits),
      )
  backend-IsConnection serial h =
      let (written, h1) = accepted _ _ _ tt h in
      let (device, h2) = accepted _ _ _ tt h1 in
      let (baud, h3) = accepted _ _ _ tt h2 in
      (is_empty-ne d.serial_device device, (positive d.baud_rate baud, range.baud_fits))

  make_operator_interface-IsOperator :
      (d.snapshot_interval_ms == 0) ≡ false
      → (d.interactive && d.json_output) ≡ false
      → IsOperator (make_operator_interface d)
  unfolding make_operator_interface
  make_operator_interface-IsOperator h k = (
    (positive d.snapshot_interval_ms h, range.snapshot_fits),
    not_both d.interactive d.json_output k,
  )

  -- A simulation connects by UDP.
  simulation-IsUdp :
      (b : TransportBackend)
      → validate_backend b d e ≡ returned tt
      → d.sitl_mode ≡ true
      → IsUdp (record { bind_address = d.udp_bind; port = d.udp_port })
  unfolding validate_backend make_connection_options
  simulation-IsUdp udp h sitl = backend-IsConnection udp h
  simulation-IsUdp serial h sitl =
      let (written, h1) = accepted (e.udp_bind || e.udp_port) _ _ tt h in
      let (device, h2) = accepted (is_empty d.serial_device) _ _ tt h1 in
      let (baud, h3) = accepted (d.baud_rate == 0) _ _ tt h2 in
      contrary d.sitl_mode sitl (accepted_last d.sitl_mode _ tt h3)

module _ {D : Type 0} ⦃fp : Floating D⦄ where
  from_zero-FiniteFromZero : (x : D) → not (finite_from_zero x) ≡ false → FiniteFromZero x
  from_zero-FiniteFromZero x h = ground arith

  profile-IsWind :
      (wind : Option (SimulatedWindProfile D)) (sitl : Bool)
      → validate_profile wind sitl ≡ returned tt
      → IsWind wind
  unfolding validate_profile
  profile-IsWind none sitl h = tt
  profile-IsWind (some wind) sitl h =
      let (simulated, h1) = accepted (not sitl) _ _ tt h in
      let (speed, h2) = accepted (not (finite_from_zero wind.speed_m_s)) _ _ tt h1 in
      let (direction, h3) =
        accepted
          (not (finite_from_zero wind.direction_from_deg)
            || fp.fle (fp.of_int (pos 360)) wind.direction_from_deg)
          _ _ tt h2 in
      let (from_zero, below) = neither _ _ direction in
      (
        from_zero-FiniteFromZero wind.speed_m_s speed,
        (
          from_zero-FiniteFromZero wind.direction_from_deg from_zero,
          (below, from_zero-FiniteFromZero wind.turbulence_m_s (accepted_last _ _ tt h3)),
        ),
      )

  module _ (d : LaunchArgumentsDraft D) (e : ExplicitOptions) (range : InRange d) where
    launch-IsLaunchable :
        (sitl : Bool)
        → d.sitl_mode ≡ sitl
        → validate_options d e ≡ returned tt
        → IsLaunchable (make_launch sitl d)
    unfolding validate_options validate_wind validate_transport make_launch
    launch-IsLaunchable sitl same h =
        let (snapshot, h1) = accepted (d.snapshot_interval_ms == 0) _ _ tt h in
        let (output, h2) = accepted (d.interactive && d.json_output) _ _ tt h1 in
        let (log, h3) =
          accepted (is_empty d.diagnostic_log_file && e.diagnostic_log_file) _ _ tt h2 in
        let (wind, h4) = both_returned _ _ tt h3 in
        let (transport, camera) = both_returned _ _ tt h4 in
        by_mode sitl same (make_operator_interface-IsOperator d e range snapshot output)
          (profile-IsWind d.simulated_wind d.sitl_mode wind) transport
          (cameras-IsLaunchable d e range camera)
      where
        by_mode :
            (sitl : Bool)
            → d.sitl_mode ≡ sitl
            → IsOperator (make_operator_interface d)
            → IsWind d.simulated_wind
            → validate_backend d.transport d e ≡ returned tt
            → IsCamera (make_camera_options d.camera_enabled d)
              × IsDiagnostics (make_diagnostics d) (make_camera_options d.camera_enabled d)
            → IsLaunchable (make_launch sitl d)
        by_mode true same operator wind transport (camera, diagnostics) = (
          simulation-IsUdp d e range d.transport transport same,
          (camera, (wind, (operator, diagnostics))),
        )
        by_mode false same operator wind transport (camera, diagnostics) = (
          backend-IsConnection d e range d.transport transport,
          (camera, (operator, diagnostics)),
        )

-- If the command line is accepted, the launch options are launchable: ports are from 1 to 65535,
-- the baud rate, the frame rate and the snapshot interval are positive, frames have positive even
-- sizes, an rpicam's sensor mode is WIDTH:HEIGHT:DEPTH:P or :U with a depth that a sensor has, a
-- serial device has a name, a preview shows some camera, the forward camera is in a preview and
-- has a port of its own, interactive and JSON output are not both on, a simulation connects by UDP
-- and its wind is finite, from zero, from a direction below 360 degrees.
pub parse_command_line-IsLaunchable :
    (D : Type 0) ⦃fp : Floating D⦄ (arguments : List Text)
    → IfReturns (IsLaunchable {D = D}) (parse_command_line arguments)
unfolding parse_command_line make_command_line_options
parse_command_line-IsLaunchable D arguments =
    >>=-IfReturns (λ (p : Parser D). InRange p.draft) (IsLaunchable {D = D})
      (parse_arguments (length arguments) arguments (fresh_parser arguments)) _
      (parse_arguments-InRange D arguments)
      (λ p range. checked_launch p range (validate_options p.draft p.explicit) refl)
  where
    checked_launch :
        (p : Parser D)
        → InRange p.draft
        → (m : Outcome (Unit {0})) → validate_options p.draft p.explicit ≡ m
        → IfReturns (IsLaunchable {D = D}) (m >>= λ u. returned (make_command_line_options p.draft))
    checked_launch p range (thrown f) h = tt
    checked_launch p range (returned u) h =
        launch-IsLaunchable p.draft p.explicit range p.draft.sitl_mode refl h
