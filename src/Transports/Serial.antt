-- ===== src/Transports/Serial.antt =====
-- PosixSerialTransport.cpp. The descriptor -1 of a lost device is `none`.
use onboard_autonomy.Base.{
  ℕ, ◌+◌, Bool, true, false, Option, none, some, [], ◌++◌, Text, text, to_string, ltb,
  if◌then◌else◌, ◌==◌, ℤ, Fault, invalid_argument, runtime_error, Outcome, returned, thrown,
  is_negative, pos_part,
}
use onboard_autonomy.Mavlink.Encoder.{Bytes}
use onboard_autonomy.Transports.Posix.{
  Posix, Errno, eagain, ewouldblock, eintr, other_error, Result, done, failed, clocal, cread,
  cstopb, crtscts, parenb, csize, cs8, PollEvents, PollResult, poll_failed, poll_quiet, poll_ready,
}

pub record SerialTransport : Type 0 where
  pub device : Text
  pub baud_rate : ℕ
  pub reconnect_interval : ℕ
  pub next_reconnect_attempt : ℕ
  pub file_descriptor : Option ℕ

abbrev pub is_supported : ℕ → Bool
is_supported baud_rate =
    if baud_rate == 57_600
    then true
    else if baud_rate == 115_200
    then true
    else if baud_rate == 460_800
    then true
    else baud_rate == 921_600

-- The speed constant stands for itself: B57600 is 57600.
unfoldable pub to_posix_baud : ℕ → Outcome ℕ
to_posix_baud baud_rate =
    if is_supported baud_rate
    then returned baud_rate
    else thrown (invalid_argument (text "Unsupported serial baud rate"))

-- `errno == EAGAIN || errno == EINTR`; EWOULDBLOCK is EAGAIN on Linux.
abbrev pub is_transient : Errno → Bool
is_transient eagain = true
is_transient ewouldblock = true
is_transient eintr = true
is_transient (other_error n) = false

abbrev pub is_interrupt : Errno → Bool
is_interrupt eintr = true
is_interrupt eagain = false
is_interrupt ewouldblock = false
is_interrupt (other_error n) = false

module _ {W O P : Type 0} (sys : Posix W O P) where
  unfoldable pub raw_settings : ℕ → O → O
  raw_settings baud options = sys.set_vtime 0 (
      sys.set_vmin 0 (
        sys.set_flag cs8 (
          sys.clear_flag csize (
            sys.clear_flag parenb (
              sys.clear_flag crtscts (
                sys.clear_flag cstopb (
                  sys.set_flag cread (
                    sys.set_flag clocal
                      (sys.cfsetospeed baud (sys.cfsetispeed baud (sys.cfmakeraw options)))))))))))

  abbrev pub fail_with : Text → Text → Errno → Fault
  fail_with front device e = runtime_error (front ++ (device ++ (text ": " ++ sys.error_message e)))

  unfoldable pub configured : Text → ℕ → W × Result (Unit {0}) → W × Outcome ℕ
  configured device fd (w, done u) = (w, returned fd)
  configured device fd (w, failed e) =
      (sys.close fd w, thrown (fail_with (text "Unable to configure serial device ") device e))

  unfoldable pub configure : Text → ℕ → ℕ → W × Result O → W × Outcome ℕ
  configure device baud fd (w, done options) =
      configured device fd (sys.tcsetattr fd (raw_settings baud options) w)
  configure device baud fd (w, failed e) =
      (sys.close fd w, thrown (fail_with (text "Unable to read serial settings for ") device e))

  unfoldable pub opened : Text → ℕ → W × Result ℕ → W × Outcome ℕ
  opened device baud (w, done fd) = configure device baud fd (sys.tcgetattr fd w)
  opened device baud (w, failed e) =
      (w, thrown (fail_with (text "Unable to open serial device ") device e))

  unfoldable pub open_at_speed : Outcome ℕ → Text → W → W × Outcome ℕ
  open_at_speed (returned baud) device w = opened device baud (sys.open_file device w)
  open_at_speed (thrown f) device w = (w, thrown f)

  -- The world that is left, with the descriptor or the exception.
  unfoldable pub open_serial_device : Text → ℕ → W → W × Outcome ℕ
  open_serial_device device baud_rate w = open_at_speed (to_posix_baud baud_rate) device w

  -- What `catch (const std::runtime_error&)` catches.
  abbrev pub is_runtime : Fault → Bool
  is_runtime (runtime_error message) = true
  is_runtime (invalid_argument message) = false
  is_runtime f = false

  abbrev pub caught : Bool → Fault → ℕ → SerialTransport → Outcome (SerialTransport × Bool)
  caught true f now t =
      returned (record t { next_reconnect_attempt = now + t.reconnect_interval }, false)
  caught false f now t = thrown f

  unfoldable pub reconnected :
      ℕ → SerialTransport → W × Outcome ℕ → W × Outcome (SerialTransport × Bool)
  reconnected now t (w, returned fd) = (w, returned (record t { file_descriptor = some fd }, true))
  reconnected now t (w, thrown f) = (w, caught (is_runtime f) f now t)

  abbrev pub attempt : Bool → SerialTransport → W → W × Outcome (SerialTransport × Bool)
  attempt true t w = (w, returned (t, false))
  attempt false t w = reconnected (sys.now w) t (open_serial_device t.device t.baud_rate w)

  unfoldable pub connect_again :
      Option ℕ → SerialTransport → W → W × Outcome (SerialTransport × Bool)
  connect_again (some fd) t w = (w, returned (t, true))
  connect_again none t w = attempt (ltb (sys.now w) t.next_reconnect_attempt) t w

  unfoldable pub ensure_connected : SerialTransport → W → W × Outcome (SerialTransport × Bool)
  ensure_connected t w = connect_again t.file_descriptor t w

  abbrev pub close_if_open : Option ℕ → W → W
  close_if_open none w = w
  close_if_open (some fd) w = sys.close fd w

  unfoldable pub disconnect : SerialTransport → W → W × SerialTransport
  disconnect t w =
      let w' = close_if_open t.file_descriptor w in
      (
        w',
        record t {
          file_descriptor = none;
          next_reconnect_attempt = sys.now w' + t.reconnect_interval;
        },
      )

  -- A result of the device, or nothing after a failed call, which may lose the device.
  unfoldable pub after_call {ℓ} :
      {A : Type ℓ} → A → SerialTransport → W × Result A → W × (SerialTransport × A)
  after_call nothing t (w, done a) = (w, (t, a))
  after_call nothing t (w, failed e) =
      if◌then◌else◌ {A = W × (SerialTransport × _)} (is_transient e) (w, (t, nothing))
        (let (w', t') = disconnect t w in (w', (t', nothing)))

  unfoldable pub after_events :
      ℕ → ℕ → SerialTransport → PollEvents → W → W × (SerialTransport × Bytes)
  after_events fd size t events w =
      if◌then◌else◌ {A = W × (SerialTransport × Bytes)} events.broken
        (let (w', t') = disconnect t w in (w', (t', [])))
        (if◌then◌else◌ {A = W × (SerialTransport × Bytes)} events.readable
          (after_call [] t (sys.read fd size w)) (w, (t, [])))

  unfoldable pub after_poll :
      ℕ → ℕ → SerialTransport → W × PollResult → W × (SerialTransport × Bytes)
  after_poll fd size t (w, poll_failed e) =
      if◌then◌else◌ {A = W × (SerialTransport × Bytes)} (is_interrupt e) (w, (t, []))
        (let (w', t') = disconnect t w in (w', (t', [])))
  after_poll fd size t (w, poll_quiet) = (w, (t, []))
  after_poll fd size t (w, poll_ready events) = after_events fd size t events w

  -- The descriptor after `ensure_connected` said that there is one.
  unfoldable pub read_from : Option ℕ → ℕ → SerialTransport → W → W × (SerialTransport × Bytes)
  read_from none size t w = (w, (t, []))
  read_from (some fd) size t w = after_poll fd size t (sys.poll fd w)

  unfoldable pub write_to : Option ℕ → Bytes → SerialTransport → W → W × (SerialTransport × ℕ)
  write_to none bytes t w = (w, (t, 0))
  write_to (some fd) bytes t w = after_call 0 t (sys.write fd bytes w)

  -- A method that needs the device: it goes on when `ensure_connected` says so.
  unfoldable pub when_connected {ℓ} :
      {A : Type ℓ}
      → A
      → (Option ℕ → SerialTransport → W → W × (SerialTransport × A))
      → W × Outcome (SerialTransport × Bool)
      → W × Outcome (SerialTransport × A)
  when_connected nothing act (w, thrown f) = (w, thrown f)
  when_connected nothing act (w, returned (t, false)) = (w, returned (t, nothing))
  when_connected nothing act (w, returned (t, true)) =
      let (w', r) = act t.file_descriptor t w in (w', returned r)

  unfoldable pub read : ℕ → SerialTransport → W → W × Outcome (SerialTransport × Bytes)
  read size t w = when_connected [] (λ fd. read_from fd size) (ensure_connected t w)

  unfoldable pub write : Bytes → SerialTransport → W → W × Outcome (SerialTransport × ℕ)
  write bytes t w = when_connected 0 (λ fd. write_to fd bytes) (ensure_connected t w)

  abbrev pub constructed : Text → ℕ → ℕ → W × Outcome ℕ → W × Outcome SerialTransport
  constructed device baud_rate interval (w, thrown f) = (w, thrown f)
  constructed device baud_rate interval (w, returned fd) = (
    w,
    returned (record {
      device = device;
      baud_rate = baud_rate;
      reconnect_interval = interval;
      next_reconnect_attempt = 0;
      file_descriptor = some fd;
    }),
  )

  -- The constructor, with the interval in nanoseconds.
  unfoldable pub make_serial_transport : Text → ℕ → ℤ → W → W × Outcome SerialTransport
  make_serial_transport device baud_rate interval w =
      if◌then◌else◌ {A = W × Outcome SerialTransport} (is_negative interval)
        (w, thrown (invalid_argument (text "Serial reconnect interval cannot be negative")))
        (constructed device baud_rate (pos_part interval) (open_serial_device device baud_rate w))

  -- The destructor.
  unfoldable pub destroy : SerialTransport → W → W
  destroy t w = close_if_open t.file_descriptor w

unfoldable pub description : SerialTransport → Text
description t = text "serial://" ++ (t.device ++ (text "?baud=" ++ to_string t.baud_rate))
