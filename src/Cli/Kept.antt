-- ===== src/Cli/Kept.antt =====
-- The numbers and the arguments that the parser of CommandLine.cpp reads.
use onboard_autonomy.Base.{
  ℕ, ◌≤◌, ◌≡◌, refl, Option, none, some, List, [], ◌∷◌, Text, length, arith, value_or, Floating,
  Outcome, returned, ◌>>=◌, IfReturns, >>=-IfReturns, parse_unsigned, parse_unsigned-le,
  parse_unsigned-to_string, to_string,
}
use onboard_autonomy.Cli.Options.{LaunchArgumentsDraft, default_draft, u16_max, u32_max}
use onboard_autonomy.Cli.Validation.{parse_number, number_or_fault}
use onboard_autonomy.Cli.Parser.{
  Parser, value_after, next_value, number_after, one_of, find_text, transport_values, camera_values,
  TransportOption, CameraOption, RuntimeOption, set_transport, set_camera, set_runtime,
  double_after, by_transport, by_camera, by_runtime, parse_argument, fresh_parser, transport_name,
  udp_bind_name, udp_port_name, serial_device_name, baud_name, camera_name, camera_source_name,
  camera_udp_port_name, camera_width_name, camera_height_name, camera_fps_name,
  camera_sensor_mode_name, camera_preview_name, camera_preview_port_name,
  forward_camera_udp_port_name, snapshot_ms_name, board_types_name, json_name, diagnostic_log_name,
  sitl_name, sim_wind_name, interactive_name,
}

pub record InRange {D : Type 0} (d : LaunchArgumentsDraft D) : Type 0 where
  pub udp_port_fits : d.udp_port ≤ u16_max
  pub camera_udp_port_fits : d.camera_udp_port ≤ u16_max
  pub preview_port_fits : d.camera_preview_port ≤ u16_max
  pub forward_port_fits : value_or d.forward_camera_udp_port 0 ≤ u16_max
  pub baud_fits : d.baud_rate ≤ u32_max
  pub snapshot_fits : d.snapshot_interval_ms ≤ u32_max
  pub width_fits : d.camera_width ≤ u32_max
  pub height_fits : d.camera_height ≤ u32_max
  pub fps_fits : d.camera_fps ≤ u32_max

-- No more than so many arguments are left, and the draft's numbers fit.
abbrev pub Kept : {D : Type 0} → ℕ → Parser D → Type 0
Kept n p = (length p.arguments ≤ n) × InRange p.draft

parse_number-le :
    (maximum : ℕ) (value option : Text)
    → IfReturns (λ n. n ≤ maximum) (parse_number maximum value option)
unfolding parse_number number_or_fault
parse_number-le maximum value option =
    number_or_fault-le (parse_unsigned maximum value) (λ n e. parse_unsigned-le maximum value n e)
  where
    number_or_fault-le :
        (o : Option ℕ)
        → ((n : ℕ) → o ≡ some n → n ≤ maximum)
        → IfReturns (λ n. n ≤ maximum) (number_or_fault o option)
    number_or_fault-le none h = tt
    number_or_fault-le (some n) h = h n refl

number_or_fault-some :
    (o : Option ℕ) (n : ℕ) (option : Text) → o ≡ some n → number_or_fault o option ≡ returned n
unfolding number_or_fault
number_or_fault-some none n option h = cc
number_or_fault-some (some m) n option h = cc

-- A number that the type holds is read back from its decimal digits, as `std::to_string` writes
-- them.
pub parse_number-to_string :
    (maximum n : ℕ) (option : Text)
    → n ≤ maximum
    → parse_number maximum (to_string n) option ≡ returned n
unfolding parse_number
parse_number-to_string maximum n option h =
    number_or_fault-some (parse_unsigned maximum (to_string n)) n option
      (parse_unsigned-to_string maximum n h)

one_of-any {ℓ} :
    {A : Type ℓ} (o : Option A) (message : Text) → IfReturns (λ a. Unit {0}) (one_of o message)
one_of-any none message = tt
one_of-any (some a) message = tt

module _ {D : Type 0} where
  next_value-Kept :
      (option : Text) (arguments : List Text) (n : ℕ) (p : Parser D)
      → length arguments ≤ n
      → InRange p.draft
      → IfReturns (λ r. Kept n r.1) (next_value option arguments p)
  unfolding next_value
  next_value-Kept option [] n p l k = tt
  next_value-Kept option (a ∷ rest) n p l k = (omega arith, k)

  value_after-Kept :
      (option : Text) (n : ℕ) (p : Parser D)
      → Kept n p
      → IfReturns (λ r. Kept n r.1) (value_after option p)
  unfolding value_after next_value
  value_after-Kept option n p (l, k) = next_value-Kept option p.arguments n p l k

  number_after-Kept :
      (maximum : ℕ) (option : Text) (n : ℕ) (p : Parser D)
      → Kept n p
      → IfReturns (λ r. (r.0 ≤ maximum) × Kept n r.1) (number_after maximum option p)
  unfolding number_after
  number_after-Kept maximum option n p k =
      >>=-IfReturns (λ r. Kept n r.1) _ (value_after option p) _ (value_after-Kept option n p k)
        (λ r h.
          >>=-IfReturns (λ m. m ≤ maximum) _ (parse_number maximum r.0 option) _
            (parse_number-le maximum r.0 option) (λ m le. (le, h)))

  -- A branch that reads a value and leaves the numbers alone, or reads a number.
  with_value :
      (option : Text) (n : ℕ) (p : Parser D) (f : Text × Parser D → Outcome (Parser D))
      → Kept n p
      → ((r : Text × Parser D) → Kept n r.1 → IfReturns (Kept n) (f r))
      → IfReturns (Kept n) (value_after option p >>= f)
  with_value option n p f k h =
      >>=-IfReturns (λ r. Kept n r.1) (Kept n) (value_after option p) f
        (value_after-Kept option n p k) h

  with_number :
      (maximum : ℕ) (option : Text) (n : ℕ) (p : Parser D) (f : ℕ × Parser D → Outcome (Parser D))
      → Kept n p
      → ((r : ℕ × Parser D) → r.0 ≤ maximum → Kept n r.1 → IfReturns (Kept n) (f r))
      → IfReturns (Kept n) (number_after maximum option p >>= f)
  with_number maximum option n p f k h =
      >>=-IfReturns (λ r. (r.0 ≤ maximum) × Kept n r.1) (Kept n) (number_after maximum option p) f
        (number_after-Kept maximum option n p k) (λ r (le, kept). h r le kept)

  set_transport-Kept :
      (o : TransportOption) (argument : Text) (n : ℕ) (p : Parser D)
      → Kept n p
      → IfReturns (Kept n) (set_transport o argument p)
  unfolding set_transport
  set_transport-Kept transport_name argument n p k = with_value argument n p _ k (λ r h.
      >>=-IfReturns (λ a. Unit {0}) (Kept n) (one_of (find_text r.0 transport_values) _) _
        (one_of-any (find_text r.0 transport_values) _) (λ b _. ground arith))
  set_transport-Kept udp_bind_name argument n p k =
      with_value argument n p _ k (λ r h. ground arith)
  set_transport-Kept udp_port_name argument n p k =
      with_number u16_max argument n p _ k (λ r le h. ground arith)
  set_transport-Kept serial_device_name argument n p k =
      with_value argument n p _ k (λ r h. ground arith)
  set_transport-Kept baud_name argument n p k =
      with_number u32_max argument n p _ k (λ r le h. ground arith)

  set_camera-Kept :
      (o : CameraOption) (argument : Text) (n : ℕ) (p : Parser D)
      → Kept n p
      → IfReturns (Kept n) (set_camera o argument p)
  unfolding set_camera
  set_camera-Kept camera_name argument n p k = ground arith
  set_camera-Kept camera_source_name argument n p k = with_value argument n p _ k (λ r h.
      >>=-IfReturns (λ a. Unit {0}) (Kept n) (one_of (find_text r.0 camera_values) _) _
        (one_of-any (find_text r.0 camera_values) _) (λ b _. ground arith))
  set_camera-Kept camera_udp_port_name argument n p k =
      with_number u16_max argument n p _ k (λ r le h. ground arith)
  set_camera-Kept camera_width_name argument n p k =
      with_number u32_max argument n p _ k (λ r le h. ground arith)
  set_camera-Kept camera_height_name argument n p k =
      with_number u32_max argument n p _ k (λ r le h. ground arith)
  set_camera-Kept camera_fps_name argument n p k =
      with_number u32_max argument n p _ k (λ r le h. ground arith)
  set_camera-Kept camera_sensor_mode_name argument n p k =
      with_value argument n p _ k (λ r h. ground arith)
  set_camera-Kept camera_preview_name argument n p k = ground arith
  set_camera-Kept camera_preview_port_name argument n p k =
      with_number u16_max argument n p _ k (λ r le h. ground arith)
  set_camera-Kept forward_camera_udp_port_name argument n p k =
      with_number u16_max argument n p _ k (λ r le h. ground arith)

module _ {D : Type 0} ⦃fp : Floating D⦄ where
  double_after-Kept :
      (option : Text) (n : ℕ) (p : Parser D)
      → Kept n p
      → IfReturns (λ r. Kept n r.1) (double_after option p)
  unfolding double_after
  double_after-Kept option n p k =
      >>=-IfReturns (λ r. Kept n r.1) (λ r. Kept n r.1) (value_after option p) _
        (value_after-Kept option n p k)
        (λ r h.
          >>=-IfReturns (λ a. Unit {0}) (λ r. Kept n r.1) (one_of (fp.from_text r.0) _) _
            (one_of-any (fp.from_text r.0) _) (λ x _. h))

  with_double :
      (option : Text) (n : ℕ) (p : Parser D) (f : D × Parser D → Outcome (Parser D))
      → Kept n p
      → ((r : D × Parser D) → Kept n r.1 → IfReturns (Kept n) (f r))
      → IfReturns (Kept n) (double_after option p >>= f)
  with_double option n p f k h =
      >>=-IfReturns (λ r. Kept n r.1) (Kept n) (double_after option p) f
        (double_after-Kept option n p k) h

  set_runtime-Kept :
      (o : RuntimeOption) (argument : Text) (n : ℕ) (p : Parser D)
      → Kept n p
      → IfReturns (Kept n) (set_runtime o argument p)
  unfolding set_runtime
  set_runtime-Kept snapshot_ms_name argument n p k =
      with_number u32_max argument n p _ k (λ r le h. ground arith)
  set_runtime-Kept board_types_name argument n p k =
      with_value argument n p _ k (λ r h. ground arith)
  set_runtime-Kept json_name argument n p k = ground arith
  set_runtime-Kept diagnostic_log_name argument n p k =
      with_value argument n p _ k (λ r h. ground arith)
  set_runtime-Kept sitl_name argument n p k = ground arith
  set_runtime-Kept sim_wind_name argument n p k = with_double argument n p _ k (λ r h.
      with_double argument n r.1 _ h
        (λ r' h'. with_double argument n r'.1 _ h' (λ r'' h''. ground arith)))
  set_runtime-Kept interactive_name argument n p k = ground arith

  by_runtime-Kept :
      (o : Option RuntimeOption) (argument : Text) (n : ℕ) (p : Parser D)
      → Kept n p
      → IfReturns (Kept n) (by_runtime o argument p)
  unfolding by_runtime
  by_runtime-Kept none argument n p k = tt
  by_runtime-Kept (some o) argument n p k = set_runtime-Kept o argument n p k

  by_camera-Kept :
      (o : Option CameraOption) (argument : Text) (n : ℕ) (p : Parser D)
      → Kept n p
      → IfReturns (Kept n) (by_camera o argument p)
  unfolding by_camera
  by_camera-Kept none argument n p k = by_runtime-Kept _ argument n p k
  by_camera-Kept (some o) argument n p k = set_camera-Kept o argument n p k

  by_transport-Kept :
      (o : Option TransportOption) (argument : Text) (n : ℕ) (p : Parser D)
      → Kept n p
      → IfReturns (Kept n) (by_transport o argument p)
  unfolding by_transport
  by_transport-Kept none argument n p k = by_camera-Kept _ argument n p k
  by_transport-Kept (some o) argument n p k = set_transport-Kept o argument n p k

  -- A round of the loop uses arguments up and leaves the numbers within their types.
  pub parse_argument-Kept :
      (argument : Text) (n : ℕ) (p : Parser D)
      → Kept n p
      → IfReturns (Kept n) (parse_argument argument p)
  unfolding parse_argument
  parse_argument-Kept argument n p k = by_transport-Kept _ argument n p k

  pub fresh_parser-InRange :
      (arguments : List Text) → InRange {D = D} (fresh_parser arguments).draft
  unfolding fresh_parser default_draft
  fresh_parser-InRange arguments = ground arith
