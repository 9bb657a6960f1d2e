-- ===== src/Transports/Udp.antt =====
-- UdpTransport.cpp, as it is built on Linux. An empty peer stands for a `peer_length_` of zero.
use onboard_autonomy.Base.{
  ℕ, Bool, true, false, Option, none, some, [], ◌++◌, Text, text, to_string, if◌then◌else◌, ◌==◌,
  invalid_argument, runtime_error, Outcome, returned, thrown,
}
use onboard_autonomy.Mavlink.Encoder.{Bytes}
use onboard_autonomy.Transports.Posix.{Posix, Errno, Result, done, failed}
use onboard_autonomy.Transports.Serial.{is_transient}

pub record UdpTransport (P : Type 0) : Type 0 where
  pub bind_address : Text
  pub port : ℕ
  pub socket : ℕ
  pub peer : Option P

module _ {W O P : Type 0} (sys : Posix W O P) where
  abbrev pub succeeded {ℓ} : {A : Type ℓ} → W × Result A → W × Bool
  succeeded (w, done a) = (w, true)
  succeeded (w, failed e) = (w, false)

  abbrev pub with_flags : ℕ → W × Result ℕ → W × Bool
  with_flags socket (w, done flags) = succeeded (sys.set_non_blocking_flag socket flags w)
  with_flags socket (w, failed e) = (w, false)

  unfoldable pub set_non_blocking : ℕ → W → W × Bool
  set_non_blocking socket w = with_flags socket (sys.get_flags socket w)

  unfoldable pub bound : Text → ℕ → ℕ → W × Result (Unit {0}) → W × Outcome (UdpTransport P)
  bound address port socket (w, done u) =
      (w, returned (record { bind_address = address; port = port; socket = socket; peer = none }))
  bound address port socket (w, failed e) =
      (sys.close socket w, thrown (runtime_error (text "Unable to bind UDP socket")))

  unfoldable pub bind_to : Option P → Text → ℕ → ℕ → W → W × Outcome (UdpTransport P)
  bind_to none address port socket w =
      (sys.close socket w, thrown (invalid_argument (text "UDP bind address must be IPv4")))
  bind_to (some p) address port socket w = bound address port socket (sys.bind socket p w)

  unfoldable pub prepared : Text → ℕ → ℕ → W × Bool → W × Outcome (UdpTransport P)
  prepared address port socket (w, false) = (
    sys.close socket w,
    thrown (runtime_error (text "Unable to configure non-blocking UDP socket")),
  )
  prepared address port socket (w, true) =
      bind_to (sys.address_of address port) address port socket (sys.set_reuse_address socket w)

  unfoldable pub created : Text → ℕ → W × Result ℕ → W × Outcome (UdpTransport P)
  created address port (w, failed e) =
      (w, thrown (runtime_error (text "Unable to create UDP socket")))
  created address port (w, done socket) = prepared address port socket (set_non_blocking socket w)

  -- The constructor.
  unfoldable pub make_udp_transport : Text → ℕ → W → W × Outcome (UdpTransport P)
  make_udp_transport address port w = created address port (sys.socket w)

  -- A failed call gives nothing where it would be tried again, and throws else.
  abbrev pub refused {ℓ} :
      {A : Type ℓ} → A → Text → UdpTransport P → Errno → Outcome (UdpTransport P × A)
  refused nothing message t e =
      if is_transient e
      then returned (t, nothing)
      else thrown (runtime_error (message ++ sys.error_message e))

  unfoldable pub received :
      UdpTransport P → W × Result (Bytes × P) → W × Outcome (UdpTransport P × Bytes)
  received t (w, failed e) = (w, refused [] (text "UDP receive failed: ") t e)
  received t (w, done (bytes, sender)) = (w, returned (record t { peer = some sender }, bytes))

  unfoldable pub read : ℕ → UdpTransport P → W → W × Outcome (UdpTransport P × Bytes)
  read size t w =
      if◌then◌else◌ {A = W × Outcome (UdpTransport P × Bytes)} (size == 0) (w, returned (t, []))
        (received t (sys.recvfrom t.socket size w))

  unfoldable pub sent : UdpTransport P → W × Result ℕ → W × Outcome (UdpTransport P × ℕ)
  sent t (w, failed e) = (w, refused 0 (text "UDP send failed: ") t e)
  sent t (w, done n) = (w, returned (t, n))

  unfoldable pub send_to : Option P → Bytes → UdpTransport P → W → W × Outcome (UdpTransport P × ℕ)
  send_to none bytes t w = (w, returned (t, 0))
  send_to (some p) bytes t w = sent t (sys.sendto t.socket bytes p w)

  unfoldable pub write : Bytes → UdpTransport P → W → W × Outcome (UdpTransport P × ℕ)
  write bytes t w = send_to t.peer bytes t w

  -- The destructor.
  unfoldable pub destroy : UdpTransport P → W → W
  destroy t w = sys.close t.socket w

unfoldable pub description : {P : Type 0} → UdpTransport P → Text
description t = text "udp://" ++ (t.bind_address ++ (text ":" ++ to_string t.port))
