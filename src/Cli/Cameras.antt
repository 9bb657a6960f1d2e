-- ===== src/Cli/Cameras.antt =====
-- The cameras, the preview and the forward camera of CommandLine.cpp.
use onboard_autonomy.Base.{
  ℕ, ◌≤◌, ◌≡◌, ◌≢◌, refl, ap, Bool, true, false, not, ◌&&◌, ◌||◌, Option, none, some, ◌==◌, arith,
  value_or, has_value, returned, accepted, accepted_last, both_returned, neither, not_both,
  double_negation, positive, if◌then◌else◌,
}
use onboard_autonomy.Cli.Options.{
  u16_max, CameraBackend, rpicam, gstreamer, LaunchArgumentsDraft, ExplicitOptions,
  CameraSourceOptions, gstreamer_source, rpicam_source, make_camera_source_options,
  make_camera_options, make_camera_preview, make_forward_camera, make_diagnostics,
}
use onboard_autonomy.Cli.Validation.{
  any_camera, validate_dimensions, validate_source, validate_primary, validate_preview,
  validate_forward_port, validate_forward, validate_camera, validate_sensor_mode, is_rpicam,
}
use onboard_autonomy.Cli.Launchable.{
  IsSource, IsCamera, IsPreview, IsForward, IsApart, IsShown, IsDiagnostics, IsDimension,
}
use onboard_autonomy.Cli.Kept.{InRange}
use onboard_autonomy.Cli.Accepted.{even-IsDimension, validate_sensor_mode-IsSensorMode}

gstreamer_port : CameraSourceOptions → ℕ
gstreamer_port (gstreamer_source o) = o.udp_port
gstreamer_port (rpicam_source o) = 0

module _ {D : Type 0} (d : LaunchArgumentsDraft D) (e : ExplicitOptions) (range : InRange d) where
  make_camera_source_options-IsSource :
      (b : CameraBackend)
      → validate_source b d e ≡ returned tt
      → IsSource (make_camera_source_options b d)
  unfolding validate_source make_camera_source_options
  make_camera_source_options-IsSource rpicam h =
      let (mode, h1) = both_returned (validate_sensor_mode d.camera_sensor_mode) _ tt h in
      let (port, h2) = accepted _ _ _ tt h1 in
      (
        (positive d.camera_fps (accepted_last _ _ tt h2), range.fps_fits),
        validate_sensor_mode-IsSensorMode d.camera_sensor_mode mode,
      )
  make_camera_source_options-IsSource gstreamer h =
      let (mode, h1) = accepted e.camera_sensor_mode _ _ tt h in
      let (fps, h2) = accepted e.camera_fps _ _ tt h1 in
      (positive d.camera_udp_port (accepted_last _ _ tt h2), range.camera_udp_port_fits)

  -- What the checks on the frame dimensions say: of a preview without a camera, and of the sizes.
  dimensions-IsDimension :
      validate_dimensions d e ≡ returned tt
      → ((not (any_camera d) && (e.camera_width || (e.camera_height || d.camera_preview_enabled)))
          ≡ false)
        × (any_camera d ≡ true → IsDimension d.camera_width × IsDimension d.camera_height)
  unfolding validate_dimensions
  dimensions-IsDimension h =
      let (primary, h1) =
        accepted
          ((e.camera_source || (e.camera_udp_port || (e.camera_fps || e.camera_sensor_mode)))
            && not d.camera_enabled)
          _ _ tt h in
      let (lone, h2) =
        accepted
          (not (any_camera d) && (e.camera_width || (e.camera_height || d.camera_preview_enabled)))
          _ _ tt h1 in
      (
        lone,
        λ some_camera.
            let (width, h3) =
              neither _ _ (not_both (any_camera d) _ (accepted_last _ _ tt h2) some_camera) in
            let (height, h4) = neither _ _ h3 in
            let (even_width, even_height) = neither _ _ h4 in
            (
              even-IsDimension d.camera_width range.width_fits width even_width,
              even-IsDimension d.camera_height range.height_fits height even_height,
            ),
      )

  make_camera_options-IsCamera :
      (enabled : Bool)
      → (enabled ≡ true → IsDimension d.camera_width × IsDimension d.camera_height)
      → (if enabled then validate_source d.camera_backend d e else returned tt) ≡ returned tt
      → IsCamera (make_camera_options enabled d)
  unfolding make_camera_options
  make_camera_options-IsCamera false size h = tt
  make_camera_options-IsCamera true size h =
      (make_camera_source_options-IsSource d.camera_backend h, size refl)

  make_camera_preview-IsPreview :
      (enabled : Bool)
      → (enabled && d.camera_preview_port == 0) ≡ false
      → IsPreview (make_camera_preview enabled d.camera_preview_port)
  unfolding make_camera_preview
  make_camera_preview-IsPreview false h = tt
  make_camera_preview-IsPreview true h = (positive d.camera_preview_port h, range.preview_port_fits)

  -- The forward port against the camera options of an enabled camera, for each backend.
  source_apart :
      (b : CameraBackend) (port : ℕ)
      → (not (is_rpicam b) && port == d.camera_udp_port) ≡ false
      → make_camera_source_options b d ≢ gstreamer_source (record { udp_port = port })
  unfolding make_camera_source_options gstreamer_port
  source_apart rpicam port h e = cc
  source_apart gstreamer port h e = own_port (ap gstreamer_port e)
    where
      own_port : d.camera_udp_port ≡ port → ⊥
      own_port p = ground arith

  make_camera_options-IsApart :
      (enabled : Bool) (port : ℕ)
      → (enabled && (not (is_rpicam d.camera_backend) && port == d.camera_udp_port)) ≡ false
      → IsApart port (make_camera_options enabled d)
  unfolding make_camera_options
  make_camera_options-IsApart false port h = tt
  make_camera_options-IsApart true port h = source_apart d.camera_backend port h

  make_camera_preview-ne_none :
      (enabled : Bool) (port : ℕ) → enabled ≡ true → make_camera_preview enabled port ≢ none
  unfolding make_camera_preview
  make_camera_preview-ne_none true port h e = cc
  make_camera_preview-ne_none false port h e = cc

  make_forward_camera-IsForward :
      (o : Option ℕ)
      → value_or o 0 ≤ u16_max
      → (has_value o ≡ true → IsDimension d.camera_width × IsDimension d.camera_height)
      → validate_forward_port o d ≡ returned tt
      → IsForward
          (make_forward_camera o d)
          (make_camera_preview d.camera_preview_enabled d.camera_preview_port)
          (make_camera_options d.camera_enabled d)
  unfolding validate_forward_port make_forward_camera
  make_forward_camera-IsForward none fits size h = tt
  make_forward_camera-IsForward (some port) fits size h =
      let (shown, h1) = accepted _ _ _ tt h in
      let (nonzero, h2) = accepted _ _ _ tt h1 in
      (
        (positive port nonzero, fits),
        (
          size refl,
          (
            make_camera_preview-ne_none d.camera_preview_enabled d.camera_preview_port
                (double_negation d.camera_preview_enabled shown),
            make_camera_options-IsApart d.camera_enabled port (accepted_last _ _ tt h2),
          ),
        ),
      )

  -- A preview without a camera would have been refused.
  cameras-IsShown :
      (preview enabled : Bool) (o : Option ℕ)
      → (not (enabled || has_value o) && (e.camera_width || (e.camera_height || preview))) ≡ false
      → IsShown
          (make_camera_preview preview d.camera_preview_port)
          (make_camera_options enabled d)
          (make_forward_camera o d)
  unfolding make_camera_preview make_camera_options make_forward_camera
  cameras-IsShown false enabled o h shown gone f = absurd (shown refl)
  cameras-IsShown true true o h shown gone f = cc
  cameras-IsShown true false (some port) h shown gone f = cc
  cameras-IsShown true false none h shown gone f = ground arith

  has_forward : (a : Bool) (o : Option ℕ) → has_value o ≡ true → (a || has_value o) ≡ true
  has_forward true o h = refl
  has_forward false o h = h

  has_camera : (b : Bool) → d.camera_enabled ≡ true → (d.camera_enabled || b) ≡ true
  has_camera b h = rw h refl

  pub cameras-IsLaunchable :
      validate_camera d e ≡ returned tt
      → IsCamera (make_camera_options d.camera_enabled d)
        × IsDiagnostics (make_diagnostics d) (make_camera_options d.camera_enabled d)
  unfolding validate_camera validate_primary validate_preview validate_forward make_diagnostics
  cameras-IsLaunchable h =
      let (dimensions, h1) = both_returned (validate_dimensions d e) _ tt h in
      let (primary, h2) = both_returned _ _ tt h1 in
      let (preview, forward) = both_returned _ _ tt h2 in
      let (written, nonzero) =
        accepted (e.camera_preview_port && not d.camera_preview_enabled) _ _ tt preview in
      let (lone, size) = dimensions-IsDimension dimensions in
      (
        make_camera_options-IsCamera d.camera_enabled (λ on. size (has_camera _ on)) primary,
        (
          make_camera_preview-IsPreview d.camera_preview_enabled (accepted_last _ _ tt nonzero),
          (
            make_forward_camera-IsForward d.forward_camera_udp_port range.forward_port_fits
                (λ on. size (has_forward d.camera_enabled _ on)) forward,
            cameras-IsShown d.camera_preview_enabled d.camera_enabled d.forward_camera_udp_port
                lone,
          ),
        ),
      )
