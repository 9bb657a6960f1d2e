-- ===== src/Transports/Steady.antt =====
-- The exceptions of PosixSerialTransport.cpp, over sequences of calls.
use onboard_autonomy.Base.{
  ℕ, ◌≡◌, refl, ◌∙◌, ap, Bool, true, false, Bool-cases, inl, inr, Option, none, some, List, [], ◌∷◌,
  Text, ltb, if◌then◌else◌, ℤ, Fault, Outcome, returned, thrown, is_negative, pos_part, Returns,
  IfReturns,
}
use onboard_autonomy.Mavlink.Encoder.{Bytes}
use onboard_autonomy.Transports.Posix.{
  Posix, Result, done, failed, PollResult, poll_failed, poll_quiet, poll_ready,
}
use onboard_autonomy.Transports.Serial.{
  SerialTransport, is_supported, to_posix_baud, is_transient, is_interrupt, is_runtime, caught,
  configured, configure, opened, open_at_speed, open_serial_device, reconnected, attempt,
  connect_again, ensure_connected, disconnect, after_call, after_events, after_poll, read_from,
  write_to, when_connected, read, write, constructed, make_serial_transport,
}
use onboard_autonomy.Transports.Session.{Call, read_call, write_call, elapse, forget, perform, run}

module _ {W O P : Type 0} (sys : Posix W O P) where
  -- At most a `std::runtime_error`.
  abbrev Catchable : W × Outcome ℕ → Type 0
  Catchable (w, returned fd) = Unit {0}
  Catchable (w, thrown f) = is_runtime sys f ≡ true

  configured-Catchable :
      (device : Text) (fd : ℕ) (r : W × Result (Unit {0})) → Catchable (configured sys device fd r)
  unfolding configured
  configured-Catchable device fd (w, done u) = tt
  configured-Catchable device fd (w, failed e) = refl

  configure-Catchable :
      (device : Text) (baud fd : ℕ) (r : W × Result O) → Catchable (configure sys device baud fd r)
  unfolding configure
  configure-Catchable device baud fd (w, done options) = configured-Catchable device fd _
  configure-Catchable device baud fd (w, failed e) = refl

  opened-Catchable :
      (device : Text) (baud : ℕ) (r : W × Result ℕ) → Catchable (opened sys device baud r)
  unfolding opened
  opened-Catchable device baud (w, done fd) =
      configure-Catchable device baud fd (sys.tcgetattr fd w)
  opened-Catchable device baud (w, failed e) = refl

  open_serial_device-Catchable :
      (device : Text) (baud_rate : ℕ) (w : W)
      → is_supported baud_rate ≡ true
      → Catchable (open_serial_device sys device baud_rate w)
  unfolding open_serial_device open_at_speed to_posix_baud
  open_serial_device-Catchable device baud_rate w h =
      rw h (opened-Catchable device baud_rate (sys.open_file device w))

  -- The call returns, with the baud rate as it was.
  abbrev Steady {ℓ} : {A : Type ℓ} → ℕ → W × Outcome (SerialTransport × A) → Type 0
  Steady baud (w, returned (t, a)) = t.baud_rate ≡ baud
  Steady baud (w, thrown f) = ⊥

  abbrev SteadyValue {ℓ} : {A : Type ℓ} → ℕ → W × (SerialTransport × A) → Type 0
  SteadyValue baud (w, (t, a)) = t.baud_rate ≡ baud

  caught-Steady :
      (b : Bool) (f : Fault) (now : ℕ) (t : SerialTransport) (w : W)
      → b ≡ true
      → Steady t.baud_rate (w, caught sys b f now t)
  caught-Steady true f now t w h = refl
  caught-Steady false f now t w h = cc

  reconnected-Steady :
      (now : ℕ) (t : SerialTransport) (r : W × Outcome ℕ)
      → Catchable r
      → Steady t.baud_rate (reconnected sys now t r)
  unfolding reconnected
  reconnected-Steady now t (w, returned fd) h = refl
  reconnected-Steady now t (w, thrown f) h = caught-Steady (is_runtime sys f) f now t w h

  attempt-Steady :
      (b : Bool) (t : SerialTransport) (w : W)
      → is_supported t.baud_rate ≡ true
      → Steady t.baud_rate (attempt sys b t w)
  attempt-Steady true t w h = refl
  attempt-Steady false t w h =
      reconnected-Steady (sys.now w) t _ (open_serial_device-Catchable t.device t.baud_rate w h)

  connect_again-Steady :
      (d : Option ℕ) (t : SerialTransport) (w : W)
      → is_supported t.baud_rate ≡ true
      → Steady t.baud_rate (connect_again sys d t w)
  unfolding connect_again
  connect_again-Steady (some fd) t w h = refl
  connect_again-Steady none t w h = attempt-Steady (ltb (sys.now w) t.next_reconnect_attempt) t w h

  after_call-Steady {ℓ} :
      {A : Type ℓ} (nothing : A) (t : SerialTransport) (r : W × Result A)
      → SteadyValue t.baud_rate (after_call sys nothing t r)
  unfolding after_call disconnect
  after_call-Steady nothing t (w, done a) = refl
  after_call-Steady nothing t (w, failed e) = elim (Bool-cases (is_transient e)) [
    | inl transient ↦ rw transient refl
    | inr lasting ↦ rw lasting refl
  ]

  after_poll-Steady :
      (fd size : ℕ) (t : SerialTransport) (r : W × PollResult)
      → SteadyValue t.baud_rate (after_poll sys fd size t r)
  unfolding after_poll after_events disconnect
  after_poll-Steady fd size t (w, poll_failed e) = elim (Bool-cases (is_interrupt e)) [
    | inl interrupt ↦ rw interrupt refl
    | inr lasting ↦ rw lasting refl
  ]
  after_poll-Steady fd size t (w, poll_quiet) = refl
  after_poll-Steady fd size t (w, poll_ready events) = elim (Bool-cases events.broken) [
    | inl broken ↦ rw broken refl
    | inr whole ↦ elim (Bool-cases events.readable) [
      | inl readable ↦ rw (whole, readable) (after_call-Steady [] t (sys.read fd size w))
      | inr silent ↦ rw (whole, silent) refl
    ]
  ]

  when_connected-Steady {ℓ} :
      {A : Type ℓ} (baud : ℕ) (nothing : A)
      (act : Option ℕ → SerialTransport → W → W × (SerialTransport × A))
      (r : W × Outcome (SerialTransport × Bool))
      → ((d : Option ℕ) (t : SerialTransport) (w : W) → SteadyValue t.baud_rate (act d t w))
      → Steady baud r
      → Steady baud (when_connected sys nothing act r)
  unfolding when_connected
  when_connected-Steady baud nothing act (w, thrown f) k h = h
  when_connected-Steady baud nothing act (w, returned (t, false)) k h = h
  when_connected-Steady baud nothing act (w, returned (t, true)) k h = k t.file_descriptor t w ∙ h

  read_from-Steady :
      (d : Option ℕ) (size : ℕ) (t : SerialTransport) (w : W)
      → SteadyValue t.baud_rate (read_from sys d size t w)
  unfolding read_from
  read_from-Steady none size t w = refl
  read_from-Steady (some fd) size t w = after_poll-Steady fd size t (sys.poll fd w)

  write_to-Steady :
      (d : Option ℕ) (bytes : Bytes) (t : SerialTransport) (w : W)
      → SteadyValue t.baud_rate (write_to sys d bytes t w)
  unfolding write_to
  write_to-Steady none bytes t w = refl
  write_to-Steady (some fd) bytes t w = after_call-Steady 0 t (sys.write fd bytes w)

  abbrev SteadyAlone : ℕ → W × Outcome SerialTransport → Type 0
  SteadyAlone baud (w, returned t) = t.baud_rate ≡ baud
  SteadyAlone baud (w, thrown f) = ⊥

  forget-Steady {ℓ} :
      {A : Type ℓ} (baud : ℕ) (r : W × Outcome (SerialTransport × A))
      → Steady baud r
      → SteadyAlone baud (forget sys r)
  forget-Steady baud (w, returned (t, a)) h = h
  forget-Steady baud (w, thrown f) h = h

  perform-Steady :
      (call : Call W) (t : SerialTransport) (w : W)
      → is_supported t.baud_rate ≡ true
      → SteadyAlone t.baud_rate (perform sys call t w)
  unfolding perform read write ensure_connected
  perform-Steady (read_call size) t w h = forget-Steady t.baud_rate _ (
      when_connected-Steady t.baud_rate [] (λ d. read_from sys d size) _
        (λ d t w. read_from-Steady d size t w) (connect_again-Steady t.file_descriptor t w h))
  perform-Steady (write_call bytes) t w h = forget-Steady t.baud_rate _ (
      when_connected-Steady t.baud_rate 0 (λ d. write_to sys d bytes) _
        (λ d t w. write_to-Steady d bytes t w) (connect_again-Steady t.file_descriptor t w h))
  perform-Steady (elapse f) t w h = refl

  run-Steady :
      (calls : List (Call W)) (baud : ℕ) (r : W × Outcome SerialTransport)
      → is_supported baud ≡ true
      → SteadyAlone baud r
      → SteadyAlone baud (run sys calls r)
  unfolding run
  run-Steady calls baud (w, thrown f) s h = h
  run-Steady [] baud (w, returned t) s h = h
  run-Steady (call ∷ calls) baud (w, returned t) s h =
      run-Steady calls baud (perform sys call t w) s
        (same_baud (perform sys call t w) (perform-Steady call t w (ap is_supported h ∙ s)))
    where
      same_baud : (r : W × Outcome SerialTransport) → SteadyAlone t.baud_rate r → SteadyAlone baud r
      same_baud (w, returned t') e = e ∙ h
      same_baud (w, thrown f) e = e

  -- The transport can go on, whatever is asked of it and whatever happens to the world in between.
  abbrev pub NeverThrows : SerialTransport → Type 0
  NeverThrows t =
      (calls : List (Call W)) (w : W) → Returns (λ t'. Unit {0}) (run sys calls (w, returned t)).1

  SteadyAlone-Returns :
      (baud : ℕ) (r : W × Outcome SerialTransport)
      → SteadyAlone baud r
      → Returns (λ t'. Unit {0}) r.1
  SteadyAlone-Returns baud (w, returned t) h = tt
  SteadyAlone-Returns baud (w, thrown f) h = h

  supported-NeverThrows : (t : SerialTransport) → is_supported t.baud_rate ≡ true → NeverThrows t
  supported-NeverThrows t h calls w =
      SteadyAlone-Returns t.baud_rate (run sys calls (w, returned t))
        (run-Steady calls t.baud_rate (w, returned t) h refl)

  constructed-NeverThrows :
      (device : Text) (baud_rate interval : ℕ) (r : W × Outcome ℕ)
      → is_supported baud_rate ≡ true
      → IfReturns NeverThrows (constructed sys device baud_rate interval r).1
  constructed-NeverThrows device baud_rate interval (w, returned fd) h = supported-NeverThrows _ h
  constructed-NeverThrows device baud_rate interval (w, thrown f) h = tt

  at_rate-NeverThrows :
      (device : Text) (baud_rate interval : ℕ) (w : W) (s : Bool)
      → is_supported baud_rate ≡ s
      → IfReturns NeverThrows
          (constructed sys device baud_rate interval (open_serial_device sys device baud_rate w)).1
  unfolding open_serial_device open_at_speed to_posix_baud
  at_rate-NeverThrows device baud_rate interval w true h =
      constructed-NeverThrows device baud_rate interval _ h
  at_rate-NeverThrows device baud_rate interval w false h = rw h tt

  -- If the constructor of the serial transport returns, no later sequence of reads and writes throws,
  -- whatever the system's calls answer and whatever happens to the world in between: a lost device is
  -- opened again or waited for, and the rate that was accepted once is accepted again.
  pub make_serial_transport-NeverThrows :
      (device : Text) (baud_rate : ℕ) (interval : ℤ) (w : W)
      → IfReturns NeverThrows (make_serial_transport sys device baud_rate interval w).1
  unfolding make_serial_transport
  make_serial_transport-NeverThrows device baud_rate interval w = by_sign (is_negative interval) _
    where
      by_sign :
          (b : Bool) (f : Fault)
          → IfReturns NeverThrows
              (if◌then◌else◌ {A = W × Outcome SerialTransport} b
                (w, thrown f)
                (constructed sys device baud_rate
                  (pos_part interval)
                  (open_serial_device sys device baud_rate w))).1
      by_sign true f = tt
      by_sign false f =
          at_rate-NeverThrows device baud_rate (pos_part interval) w (is_supported baud_rate) refl
