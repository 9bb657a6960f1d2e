-- ===== src/Transports/Reconnect.antt =====
-- PosixSerialTransport.cpp between the loss of its device and the next attempt to open it.
use onboard_autonomy.Base.{
  ℕ, ◌+◌, ◌<◌, ◌≡◌, refl, ap, Bool, true, false, Option, none, some, [], ltb, if◌then◌else◌, arith,
  Outcome, returned, thrown,
}
use onboard_autonomy.Mavlink.Encoder.{Bytes}
use onboard_autonomy.Transports.Posix.{
  Posix, Result, done, failed, PollEvents, PollResult, poll_failed, poll_quiet, poll_ready,
}
use onboard_autonomy.Transports.Serial.{
  SerialTransport, is_transient, is_interrupt, connect_again, ensure_connected, disconnect,
  after_call, after_events, after_poll, read_from, write_to, when_connected, read, write,
}

module _ {W O P : Type 0} (sys : Posix W O P) where
  -- No call of the system, and nothing read or written.
  abbrev pub Waits : SerialTransport → W → Type 0
  Waits t w =
      ((size : ℕ) → read sys size t w ≡ (w, returned (t, [])))
      × ((bytes : Bytes) → write sys bytes t w ≡ (w, returned (t, 0)))

  connect_again-waits :
      (d : Option ℕ) (t : SerialTransport) (w : W)
      → d ≡ none
      → sys.now w < t.next_reconnect_attempt
      → connect_again sys d t w ≡ (w, returned (t, false))
  unfolding connect_again
  connect_again-waits (some fd) t w e h = cc
  connect_again-waits none t w e h = rw (early (sys.now w) t.next_reconnect_attempt h) refl
    where
      early : (m n : ℕ) → m < n → ltb m n ≡ true
      early m n h = ground arith

  lost-Waits :
      (t : SerialTransport) (w : W)
      → t.file_descriptor ≡ none
      → sys.now w < t.next_reconnect_attempt
      → Waits t w
  unfolding read write ensure_connected when_connected
  lost-Waits t w lost early = (
    λ size.
        ap (when_connected sys [] (λ d. read_from sys d size))
          (connect_again-waits t.file_descriptor t w lost early),
    λ bytes.
        ap (when_connected sys 0 (λ d. write_to sys d bytes))
          (connect_again-waits t.file_descriptor t w lost early),
  )

  module _ (t : SerialTransport) (alive : t.file_descriptor ≡ none → ⊥) where
    -- A device that is lost is opened again an interval later.
    abbrev Paced {ℓ} : {A : Type ℓ} → W × (SerialTransport × A) → Type 0
    Paced (w, (t', a)) =
        t'.file_descriptor ≡ none → t'.next_reconnect_attempt ≡ sys.now w + t.reconnect_interval

    disconnect-Paced {ℓ} :
        {A : Type ℓ} (w : W) (a : A) → Paced ((disconnect sys t w).0, ((disconnect sys t w).1, a))
    unfolding disconnect
    disconnect-Paced w a e = refl

    after_call-Paced {ℓ} :
        {A : Type ℓ} (nothing : A) (r : W × Result A) → Paced (after_call sys nothing t r)
    unfolding after_call
    after_call-Paced nothing (w, done a) e = absurd (alive e)
    after_call-Paced nothing (w, failed e) lost = by_error (is_transient e) lost
      where
        by_error :
            (b : Bool)
            → Paced (
                if◌then◌else◌ {A = W × (SerialTransport × _)} b
                  (w, (t, nothing))
                  ((disconnect sys t w).0, ((disconnect sys t w).1, nothing)))
        by_error true e = absurd (alive e)
        by_error false e = disconnect-Paced w nothing e

    after_events-Paced :
        (fd size : ℕ) (events : PollEvents) (w : W) → Paced (after_events sys fd size t events w)
    unfolding after_events
    after_events-Paced fd size events w = by_events events.broken events.readable
      where
        by_events :
            (b r : Bool)
            → Paced (
                if◌then◌else◌ {A = W × (SerialTransport × Bytes)} b
                  ((disconnect sys t w).0, ((disconnect sys t w).1, []))
                  (if◌then◌else◌ {A = W × (SerialTransport × Bytes)} r
                    (after_call sys [] t (sys.read fd size w))
                    (w, (t, []))))
        by_events true r e = disconnect-Paced {A = Bytes} w [] e
        by_events false true e = after_call-Paced [] (sys.read fd size w) e
        by_events false false e = absurd (alive e)

    after_poll-Paced : (fd size : ℕ) (r : W × PollResult) → Paced (after_poll sys fd size t r)
    unfolding after_poll
    after_poll-Paced fd size (w, poll_failed e) lost = by_error (is_interrupt e) lost
      where
        by_error :
            (b : Bool)
            → Paced (
                if◌then◌else◌ {A = W × (SerialTransport × Bytes)} b
                  (w, (t, []))
                  ((disconnect sys t w).0, ((disconnect sys t w).1, [])))
        by_error true e = absurd (alive e)
        by_error false e = disconnect-Paced {A = Bytes} w [] e
    after_poll-Paced fd size (w, poll_quiet) e = absurd (alive e)
    after_poll-Paced fd size (w, poll_ready events) e = after_events-Paced fd size events w e

    read_from-Paced : (d : Option ℕ) (size : ℕ) (w : W) → Paced (read_from sys d size t w)
    unfolding read_from
    read_from-Paced none size w e = absurd (alive e)
    read_from-Paced (some fd) size w e = after_poll-Paced fd size (sys.poll fd w) e

    write_to-Paced : (d : Option ℕ) (bytes : Bytes) (w : W) → Paced (write_to sys d bytes t w)
    unfolding write_to
    write_to-Paced none bytes w e = absurd (alive e)
    write_to-Paced (some fd) bytes w e = after_call-Paced 0 (sys.write fd bytes w) e

    -- If the call lost the device, then until the interval is over the transport waits.
    abbrev pub WaitsAfter {ℓ} : {A : Type ℓ} → W × Outcome (SerialTransport × A) → Type 0
    WaitsAfter (w, thrown f) = Unit {0}
    WaitsAfter (w, returned (t', a)) =
        t'.file_descriptor ≡ none
        → (later : W) → sys.now later < sys.now w + t.reconnect_interval
        → Waits t' later

    Paced-WaitsAfter {ℓ} :
        {A : Type ℓ} (r : W × (SerialTransport × A)) → Paced r → WaitsAfter (r.0, returned r.1)
    Paced-WaitsAfter (w, (t', a)) paced lost later early =
        lost-Waits t' later lost (on_time (paced lost) early)
      where
        on_time :
            t'.next_reconnect_attempt ≡ sys.now w + t.reconnect_interval
            → sys.now later < sys.now w + t.reconnect_interval
            → sys.now later < t'.next_reconnect_attempt
        on_time e h = omega arith

    connected-WaitsAfter {ℓ} :
        {A : Type ℓ} (nothing : A)
        (act : Option ℕ → SerialTransport → W → W × (SerialTransport × A)) (d : Option ℕ) (w : W)
        → t.file_descriptor ≡ d
        → Paced (act t.file_descriptor t w)
        → WaitsAfter (when_connected sys nothing act (connect_again sys d t w))
    unfolding when_connected connect_again
    connected-WaitsAfter nothing act none w e paced = absurd (alive e)
    connected-WaitsAfter nothing act (some fd) w e paced =
        Paced-WaitsAfter (act t.file_descriptor t w) paced

    -- When a read or a write loses the device, every read and write in the next reconnect interval,
    -- whatever happened to the world in between, reads and writes nothing and makes no call of the
    -- system but to look at the clock.
    pub read_and_write-WaitsAfter :
        (w : W)
        → ((size : ℕ) → WaitsAfter (read sys size t w))
          × ((bytes : Bytes) → WaitsAfter (write sys bytes t w))
    unfolding read write ensure_connected
    read_and_write-WaitsAfter w = (
      λ size.
          connected-WaitsAfter [] (λ d. read_from sys d size) t.file_descriptor w refl
            (read_from-Paced t.file_descriptor size w),
      λ bytes.
          connected-WaitsAfter 0 (λ d. write_to sys d bytes) t.file_descriptor w refl
            (write_to-Paced t.file_descriptor bytes w),
    )
