-- ===== src/Transports/Descriptors.antt =====
-- The descriptors that the calls of PosixSerialTransport.cpp open and close.
use onboard_autonomy.Base.{
  ℕ, ◌≡◌, refl, sym, ◌∙◌, Bool, true, false, Option, none, some, [], Text, ltb, if◌then◌else◌,
  Fault, Outcome, returned, thrown,
}
use mathlib.Core.Path.{subst}
use onboard_autonomy.Mavlink.Encoder.{Bytes}
use onboard_autonomy.Transports.Posix.{
  Posix, Descriptors, Opens, OpenBeside, still_OpenBeside, close_OpenBeside, opened_OpenBeside,
  Result, done, failed, PollEvents, PollResult, poll_failed, poll_quiet, poll_ready,
}
use onboard_autonomy.Transports.Serial.{
  SerialTransport, to_posix_baud, raw_settings, is_transient, is_interrupt, is_runtime, caught,
  configured, configure, opened, open_at_speed, open_serial_device, reconnected, attempt,
  connect_again, ensure_connected, close_if_open, disconnect, after_call, after_events, after_poll,
  read_from, write_to, when_connected, read, write,
}

module _ {W O P : Type 0} (sys : Posix W O P) (laws : Descriptors sys) (others : ℕ → Bool) where
  -- The descriptor that was opened is open beside the others, where it was opened.
  abbrev pub OpensOne : W × Outcome ℕ → Type 0
  OpensOne (w, returned fd) = OpenBeside others (some fd) (laws.open_set w)
  OpensOne (w, thrown f) = laws.open_set w ≡ others

  abbrev pub Held : SerialTransport → W → Type 0
  Held t w = OpenBeside others t.file_descriptor (laws.open_set w)

  configured-OpensOne :
      (device : Text) (fd : ℕ) (r : W × Result (Unit {0}))
      → OpenBeside others (some fd) (laws.open_set r.0)
      → OpensOne (configured sys device fd r)
  unfolding configured
  configured-OpensOne device fd (w, done u) h = h
  configured-OpensOne device fd (w, failed e) h = close_OpenBeside laws others fd w h

  configure-OpensOne :
      (device : Text) (baud fd : ℕ) (r : W × Result O)
      → OpenBeside others (some fd) (laws.open_set r.0)
      → OpensOne (configure sys device baud fd r)
  unfolding configure
  configure-OpensOne device baud fd (w, done options) h = configured-OpensOne device fd _ (
      still_OpenBeside laws others (some fd) _ _
        (laws.tcsetattr_keeps fd (raw_settings sys baud options) w) h)
  configure-OpensOne device baud fd (w, failed e) h = close_OpenBeside laws others fd w h

  opened-OpensOne :
      (device : Text) (baud : ℕ) (w : W) (r : W × Result ℕ)
      → laws.open_set w ≡ others
      → Opens laws.open_set w r
      → OpensOne (opened sys device baud r)
  unfolding opened
  opened-OpensOne device baud w (w', done fd) h k = configure-OpensOne device baud fd _ (
      still_OpenBeside laws others (some fd) _ _ (laws.tcgetattr_keeps fd w')
        (opened_OpenBeside laws others fd w w' h k))
  opened-OpensOne device baud w (w', failed e) h k = k ∙ h

  open_at_speed-OpensOne :
      (m : Outcome ℕ) (device : Text) (w : W)
      → laws.open_set w ≡ others
      → OpensOne (open_at_speed sys m device w)
  unfolding open_at_speed
  open_at_speed-OpensOne (returned baud) device w h =
      opened-OpensOne device baud w (sys.open_file device w) h (laws.open_opens device w)
  open_at_speed-OpensOne (thrown f) device w h = h

  pub open_serial_device-OpensOne :
      (device : Text) (baud_rate : ℕ) (w : W)
      → laws.open_set w ≡ others
      → OpensOne (open_serial_device sys device baud_rate w)
  unfolding open_serial_device
  open_serial_device-OpensOne device baud_rate w h =
      open_at_speed-OpensOne (to_posix_baud baud_rate) device w h

  -- A call leaves the transport with its descriptor; one that throws left none open.
  abbrev pub Kept {ℓ} : {A : Type ℓ} → W × Outcome (SerialTransport × A) → Type 0
  Kept (w, returned (t, a)) = Held t w
  Kept (w, thrown f) = laws.open_set w ≡ others

  abbrev KeptValue {ℓ} : {A : Type ℓ} → W × (SerialTransport × A) → Type 0
  KeptValue (w, (t, a)) = Held t w

  caught-Kept :
      (b : Bool) (f : Fault) (now : ℕ) (t : SerialTransport) (w : W)
      → laws.open_set w ≡ others
      → t.file_descriptor ≡ none
      → Kept (w, caught sys b f now t)
  caught-Kept true f now t w h lost =
      subst (λ d. OpenBeside others d (laws.open_set w)) (sym lost) h
  caught-Kept false f now t w h lost = h

  reconnected-Kept :
      (now : ℕ) (t : SerialTransport) (r : W × Outcome ℕ)
      → OpensOne r
      → t.file_descriptor ≡ none
      → Kept (reconnected sys now t r)
  unfolding reconnected
  reconnected-Kept now t (w, returned fd) h lost = h
  reconnected-Kept now t (w, thrown f) h lost = caught-Kept (is_runtime sys f) f now t w h lost

  attempt-Kept :
      (b : Bool) (t : SerialTransport) (w : W)
      → Held t w
      → t.file_descriptor ≡ none
      → Kept (attempt sys b t w)
  attempt-Kept true t w h lost = h
  attempt-Kept false t w h lost =
      reconnected-Kept (sys.now w) t _
        (open_serial_device-OpensOne t.device t.baud_rate w
          (subst (λ d. OpenBeside others d (laws.open_set w)) lost h))
        lost

  connect_again-Kept :
      (d : Option ℕ) (t : SerialTransport) (w : W)
      → t.file_descriptor ≡ d
      → Held t w
      → Kept (connect_again sys d t w)
  unfolding connect_again
  connect_again-Kept (some fd) t w same h = h
  connect_again-Kept none t w same h =
      attempt-Kept (ltb (sys.now w) t.next_reconnect_attempt) t w h same

  pub close_if_open-closes :
      (d : Option ℕ) (w : W)
      → OpenBeside others d (laws.open_set w)
      → laws.open_set (close_if_open sys d w) ≡ others
  close_if_open-closes none w h = h
  close_if_open-closes (some fd) w h = close_OpenBeside laws others fd w h

  disconnect-Held :
      (t : SerialTransport) (w : W) → Held t w → Held (disconnect sys t w).1 (disconnect sys t w).0
  unfolding disconnect
  disconnect-Held t w h = close_if_open-closes t.file_descriptor w h

  after_call-Kept {ℓ} :
      {A : Type ℓ} (nothing : A) (t : SerialTransport) (r : W × Result A)
      → Held t r.0
      → KeptValue (after_call sys nothing t r)
  unfolding after_call
  after_call-Kept nothing t (w, done a) h = h
  after_call-Kept nothing t (w, failed e) h = by_error (is_transient e)
    where
      by_error :
          (b : Bool)
          → KeptValue (
              if◌then◌else◌ {A = W × (SerialTransport × _)} b
                (w, (t, nothing))
                ((disconnect sys t w).0, ((disconnect sys t w).1, nothing)))
      by_error true = h
      by_error false = disconnect-Held t w h

  after_events-Kept :
      (fd size : ℕ) (t : SerialTransport) (events : PollEvents) (w : W)
      → Held t w
      → KeptValue (after_events sys fd size t events w)
  unfolding after_events
  after_events-Kept fd size t events w h = by_events events.broken events.readable
    where
      by_events :
          (b r : Bool)
          → KeptValue (
              if◌then◌else◌ {A = W × (SerialTransport × Bytes)} b
                ((disconnect sys t w).0, ((disconnect sys t w).1, []))
                (if◌then◌else◌ {A = W × (SerialTransport × Bytes)} r
                  (after_call sys [] t (sys.read fd size w))
                  (w, (t, []))))
      by_events true r = disconnect-Held t w h
      by_events false true =
          after_call-Kept [] t (sys.read fd size w)
            (still_OpenBeside laws others t.file_descriptor _ _ (laws.read_keeps fd size w) h)
      by_events false false = h

  after_poll-Kept :
      (fd size : ℕ) (t : SerialTransport) (r : W × PollResult)
      → Held t r.0
      → KeptValue (after_poll sys fd size t r)
  unfolding after_poll
  after_poll-Kept fd size t (w, poll_failed e) h = by_error (is_interrupt e)
    where
      by_error :
          (b : Bool)
          → KeptValue (
              if◌then◌else◌ {A = W × (SerialTransport × Bytes)} b
                (w, (t, []))
                ((disconnect sys t w).0, ((disconnect sys t w).1, [])))
      by_error true = h
      by_error false = disconnect-Held t w h
  after_poll-Kept fd size t (w, poll_quiet) h = h
  after_poll-Kept fd size t (w, poll_ready events) h = after_events-Kept fd size t events w h

  read_from-Kept :
      (d : Option ℕ) (size : ℕ) (t : SerialTransport) (w : W)
      → Held t w
      → KeptValue (read_from sys d size t w)
  unfolding read_from
  read_from-Kept none size t w h = h
  read_from-Kept (some fd) size t w h =
      after_poll-Kept fd size t (sys.poll fd w)
        (still_OpenBeside laws others t.file_descriptor _ _ (laws.poll_keeps fd w) h)

  write_to-Kept :
      (d : Option ℕ) (bytes : Bytes) (t : SerialTransport) (w : W)
      → Held t w
      → KeptValue (write_to sys d bytes t w)
  unfolding write_to
  write_to-Kept none bytes t w h = h
  write_to-Kept (some fd) bytes t w h =
      after_call-Kept 0 t (sys.write fd bytes w)
        (still_OpenBeside laws others t.file_descriptor _ _ (laws.write_keeps fd bytes w) h)

  when_connected-Kept {ℓ} :
      {A : Type ℓ} (nothing : A) (act : Option ℕ → SerialTransport → W → W × (SerialTransport × A))
      (r : W × Outcome (SerialTransport × Bool))
      → ((d : Option ℕ) (t : SerialTransport) (w : W) → Held t w → KeptValue (act d t w))
      → Kept r
      → Kept (when_connected sys nothing act r)
  unfolding when_connected
  when_connected-Kept nothing act (w, thrown f) k h = h
  when_connected-Kept nothing act (w, returned (t, false)) k h = h
  when_connected-Kept nothing act (w, returned (t, true)) k h = k t.file_descriptor t w h

  pub read-Kept : (size : ℕ) (t : SerialTransport) (w : W) → Held t w → Kept (read sys size t w)
  unfolding read ensure_connected
  read-Kept size t w h =
      when_connected-Kept [] (λ d. read_from sys d size) _ (λ d t w k. read_from-Kept d size t w k)
        (connect_again-Kept t.file_descriptor t w refl h)

  pub write-Kept :
      (bytes : Bytes) (t : SerialTransport) (w : W) → Held t w → Kept (write sys bytes t w)
  unfolding write ensure_connected
  write-Kept bytes t w h =
      when_connected-Kept 0 (λ d. write_to sys d bytes) _ (λ d t w k. write_to-Kept d bytes t w k)
        (connect_again-Kept t.file_descriptor t w refl h)
