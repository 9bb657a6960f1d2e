-- ===== src/Transports/Tests.antt =====
-- The transports over a system with a clock and a set of descriptors, whose serial device is
-- unplugged from the time 10 to the time 50.

use onboard_autonomy.Base.{
  ℕ, ◌≡◌, refl, Bool, Bool-cases, inl, inr, true, false, none, some, List, [], ◌∷◌, text, text_eq,
  take, length, ltb, not, ◌||◌, if◌then◌else◌, pos, thrown, invalid_argument, IfReturns,
}
use onboard_autonomy.Mavlink.Encoder.{Bytes}
use onboard_autonomy.Transports.Posix.{
  Posix, Descriptors, Opens, with_one, without, Result, done, failed, other_error, poll_ready,
}
use onboard_autonomy.Transports.Serial.{SerialTransport, make_serial_transport, read, write}
use onboard_autonomy.Transports.Session.{
  Call, read_call, write_call, elapse, session, session_closes,
}
use onboard_autonomy.Transports.Steady.{NeverThrows, make_serial_transport-NeverThrows}
use onboard_autonomy.Transports.Reconnect.{WaitsAfter, read_and_write-WaitsAfter}
use onboard_autonomy.Transports.Udp.{make_udp_transport}
use onboard_autonomy.Transports
use onboard_autonomy.Transports.Sockets.{HoldsSocket, make_udp_transport-HoldsSocket}

-- The time, and the open descriptors.
abbrev World : Type 0
World = ℕ × (ℕ → Bool)

abbrev plugged : ℕ → Bool
plugged time = ltb time 10 || not (ltb time 50)

abbrev sample_open : Bool → World → World × Result ℕ
sample_open true w = if w.1 3 then (w, failed (other_error 24)) else ((w.0, with_one 3 w.1), done 3)
sample_open false w = (w, failed (other_error 19))

abbrev sample_socket : World → World × Result ℕ
sample_socket w = if w.1 4 then (w, failed (other_error 24)) else ((w.0, with_one 4 w.1), done 4)

-- The standard streams.
abbrev streams : ℕ → Bool
streams fd = ltb fd 3

abbrev sample_system : Posix World ℕ ℕ
sample_system = record {
  now = λ w. w.0;
  error_message = λ e. text "error";
  close = λ fd w. (w.0, without fd w.1);
  open_file = λ device w. sample_open (plugged w.0) w;
  tcgetattr = λ fd w. (w, done 0);
  tcsetattr = λ fd o w. (w, done tt);
  poll = λ fd w. (w, poll_ready (record { readable = true; broken = not (plugged w.0) }));
  read = λ fd size w. (w, done (take size (1 ∷ 2 ∷ 3 ∷ [])));
  write = λ fd bytes w. (w, done (length bytes));
  cfmakeraw = λ o. o;
  cfsetispeed = λ speed o. speed;
  cfsetospeed = λ speed o. speed;
  set_flag = λ flag o. o;
  clear_flag = λ flag o. o;
  set_vmin = λ n o. o;
  set_vtime = λ n o. o;
  socket = λ w. sample_socket w;
  get_flags = λ fd w. (w, done 0);
  set_non_blocking_flag = λ fd flags w. (w, done tt);
  set_reuse_address = λ fd w. w;
  address_of = λ address port. if text_eq address (text "0.0.0.0") then some port else none;
  bind = λ fd p w. (w, done tt);
  recvfrom = λ fd size w. (w, done (take size (7 ∷ 8 ∷ []), 14_550));
  sendto = λ fd bytes p w. (w, done (length bytes));
}

sample_open-Opens : (b : Bool) (w : World) → Opens (λ w. w.1) w (sample_open b w)
sample_open-Opens false w = refl
sample_open-Opens true w = elim (Bool-cases (w.1 3)) [
  | inl taken ↦ rw taken refl
  | inr free ↦ rw free (free, refl)
]

sample_socket-Opens : (w : World) → Opens (λ w. w.1) w (sample_socket w)
sample_socket-Opens w = elim (Bool-cases (w.1 4)) [
  | inl taken ↦ rw taken refl
  | inr free ↦ rw free (free, refl)
]

abbrev sample_descriptors : Descriptors sample_system
sample_descriptors = record {
  open_set = λ w. w.1;
  open_opens = λ device w. sample_open-Opens (plugged w.0) w;
  socket_opens = λ w. sample_socket-Opens w;
  close_closes = λ fd w. refl;
  tcgetattr_keeps = λ fd w. refl;
  tcsetattr_keeps = λ fd o w. refl;
  poll_keeps = λ fd w. refl;
  read_keeps = λ fd size w. refl;
  write_keeps = λ fd bytes w. refl;
  get_flags_keeps = λ fd w. refl;
  set_non_blocking_keeps = λ fd flags w. refl;
  set_reuse_keeps = λ fd w. refl;
  bind_keeps = λ fd p w. refl;
}

abbrev at_time : ℕ → World → World
at_time time w = (time, w.1)

-- Reads with the device, loses it, writes in vain, and has it again.
abbrev sample_calls : List (Call World)
sample_calls =
    read_call 2 ∷ elapse (at_time 20) ∷ read_call 2 ∷ elapse (at_time 60) ∷ write_call (9 ∷ []) ∷ []

-- A rate that the device does not have is refused at once.
odd_rate :
    make_serial_transport sample_system (text "/dev/ttyAMA0") 9600 (pos 30) (0, streams)
    ≡ ((0, streams), thrown (invalid_argument (text "Unsupported serial baud rate")))
unfolding make_serial_transport Transports.Serial.open_serial_device Transports.Serial.open_at_speed
    Transports.Serial.to_posix_baud
odd_rate = refl

session_closes_example :
    (session sample_system (text "/dev/ttyAMA0") 115_200 (pos 30) sample_calls (0, streams)).1
    ≡ streams
session_closes_example =
    session_closes sample_system sample_descriptors (text "/dev/ttyAMA0") 115_200 (pos 30)
      sample_calls (0, streams) (tt, ((λ w. refl), (tt, ((λ w. refl), (tt, tt)))))

make_serial_transport-NeverThrows_example :
    IfReturns
      (NeverThrows sample_system)
      (make_serial_transport sample_system (text "/dev/ttyAMA0") 115_200 (pos 30) (0, streams)).1
make_serial_transport-NeverThrows_example =
    make_serial_transport-NeverThrows sample_system (text "/dev/ttyAMA0") 115_200 (pos 30)
      (0, streams)

abbrev sample_serial : SerialTransport
sample_serial = record {
  device = text "/dev/ttyAMA0";
  baud_rate = 115_200;
  reconnect_interval = 30;
  next_reconnect_attempt = 0;
  file_descriptor = some 3;
}

sample_serial-alive : sample_serial.file_descriptor ≡ none → ⊥
sample_serial-alive e = cc

read_and_write-WaitsAfter_example :
    ((size : ℕ)
      → WaitsAfter sample_system sample_serial sample_serial-alive
          (read sample_system size sample_serial (20, with_one 3 streams)))
    × ((bytes : Bytes)
        → WaitsAfter sample_system sample_serial sample_serial-alive
            (write sample_system bytes sample_serial (20, with_one 3 streams)))
read_and_write-WaitsAfter_example =
    read_and_write-WaitsAfter sample_system sample_serial sample_serial-alive
      (20, with_one 3 streams)

make_udp_transport-HoldsSocket_example :
    HoldsSocket sample_system sample_descriptors streams
      (make_udp_transport sample_system (text "localhost") 14_550 (0, streams))
make_udp_transport-HoldsSocket_example =
    make_udp_transport-HoldsSocket sample_system sample_descriptors (text "localhost") 14_550
      (0, streams)
