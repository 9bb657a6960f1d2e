-- ===== src/Transports/Session.antt =====
-- A serial transport from its construction to its destruction.
use onboard_autonomy.Base.{
  ℕ, ◌≡◌, refl, Bool, true, false, List, [], ◌∷◌, Text, if◌then◌else◌, ℤ, Fault, Outcome, returned,
  thrown, is_negative, pos_part, All,
}
use onboard_autonomy.Mavlink.Encoder.{Bytes}
use onboard_autonomy.Transports.Posix.{Posix, Descriptors, still_OpenBeside}
use onboard_autonomy.Transports.Serial.{
  SerialTransport, open_serial_device, read, write, constructed, make_serial_transport, destroy,
}
use onboard_autonomy.Transports.Descriptors.{
  OpensOne, Held, Kept, open_serial_device-OpensOne, close_if_open-closes, read-Kept, write-Kept,
}

-- What the owner of a transport does, and what happens in the meantime.
pub data Call (W : Type 0) : Type 0 where
  read_call : ℕ → Call W
  write_call : Bytes → Call W
  elapse : (W → W) → Call W

module _ {W O P : Type 0} (sys : Posix W O P) where
  abbrev pub forget {ℓ} :
      {A : Type ℓ} → W × Outcome (SerialTransport × A) → W × Outcome SerialTransport
  forget (w, returned (t, a)) = (w, returned t)
  forget (w, thrown f) = (w, thrown f)

  unfoldable pub perform : Call W → SerialTransport → W → W × Outcome SerialTransport
  perform (read_call size) t w = forget (read sys size t w)
  perform (write_call bytes) t w = forget (write sys bytes t w)
  perform (elapse f) t w = (f w, returned t)

  -- The calls in their order, up to one that throws.
  unfoldable pub run : List (Call W) → W × Outcome SerialTransport → W × Outcome SerialTransport
  run calls (w, thrown f) = (w, thrown f)
  run [] (w, returned t) = (w, returned t)
  run (call ∷ calls) (w, returned t) = run calls (perform call t w)

  -- The calls in their order, up to one that throws; then the destructor. After an exception there is
  -- nothing for it to close, since only a transport without its device throws.
  unfoldable pub run_then_destroy : List (Call W) → W × Outcome SerialTransport → W
  run_then_destroy calls (w, thrown f) = w
  run_then_destroy [] (w, returned t) = destroy sys t w
  run_then_destroy (call ∷ calls) (w, returned t) = run_then_destroy calls (perform call t w)

  unfoldable pub session : Text → ℕ → ℤ → List (Call W) → W → W
  session device baud_rate interval calls w =
      run_then_destroy calls (make_serial_transport sys device baud_rate interval w)

module _ {W O P : Type 0} (sys : Posix W O P) (laws : Descriptors sys) (others : ℕ → Bool) where
  abbrev KeptAlone : W × Outcome SerialTransport → Type 0
  KeptAlone (w, returned t) = Held sys laws others t w
  KeptAlone (w, thrown f) = laws.open_set w ≡ others

  -- What happens in the meantime opens and closes nothing.
  abbrev pub IsElsewhere : Call W → Type 0
  IsElsewhere (read_call size) = Unit {0}
  IsElsewhere (write_call bytes) = Unit {0}
  IsElsewhere (elapse f) = (w : W) → laws.open_set (f w) ≡ laws.open_set w

  forget-Kept {ℓ} :
      {A : Type ℓ} (r : W × Outcome (SerialTransport × A))
      → Kept sys laws others r
      → KeptAlone (forget sys r)
  forget-Kept (w, returned (t, a)) h = h
  forget-Kept (w, thrown f) h = h

  perform-Kept :
      (call : Call W) (t : SerialTransport) (w : W)
      → IsElsewhere call
      → Held sys laws others t w
      → KeptAlone (perform sys call t w)
  unfolding perform
  perform-Kept (read_call size) t w e h =
      forget-Kept (read sys size t w) (read-Kept sys laws others size t w h)
  perform-Kept (write_call bytes) t w e h =
      forget-Kept (write sys bytes t w) (write-Kept sys laws others bytes t w h)
  perform-Kept (elapse f) t w e h = still_OpenBeside laws others t.file_descriptor _ _ (e w) h

  run_then_destroy-closes :
      (calls : List (Call W)) (r : W × Outcome SerialTransport)
      → All IsElsewhere calls
      → KeptAlone r
      → laws.open_set (run_then_destroy sys calls r) ≡ others
  unfolding run_then_destroy destroy
  run_then_destroy-closes calls (w, thrown f) e h = h
  run_then_destroy-closes [] (w, returned t) e h =
      close_if_open-closes sys laws others t.file_descriptor w h
  run_then_destroy-closes (call ∷ calls) (w, returned t) (e, es) h =
      run_then_destroy-closes calls (perform sys call t w) es (perform-Kept call t w e h)

  constructed-Kept :
      (device : Text) (baud_rate interval : ℕ) (r : W × Outcome ℕ)
      → OpensOne sys laws others r
      → KeptAlone (constructed sys device baud_rate interval r)
  constructed-Kept device baud_rate interval (w, returned fd) h = h
  constructed-Kept device baud_rate interval (w, thrown f) h = h

  make_serial_transport-Kept :
      (device : Text) (baud_rate : ℕ) (interval : ℤ) (w : W)
      → laws.open_set w ≡ others
      → KeptAlone (make_serial_transport sys device baud_rate interval w)
  unfolding make_serial_transport
  make_serial_transport-Kept device baud_rate interval w h = by_sign (is_negative interval) _
    where
      by_sign :
          (b : Bool) (f : Fault)
          → KeptAlone (
              if◌then◌else◌ {A = W × Outcome SerialTransport} b
                (w, thrown f)
                (constructed sys device baud_rate
                  (pos_part interval)
                  (open_serial_device sys device baud_rate w)))
      by_sign true f = h
      by_sign false f =
          constructed-Kept device baud_rate (pos_part interval)
            (open_serial_device sys device baud_rate w)
            (open_serial_device-OpensOne sys laws others device baud_rate w h)

-- From its construction to its destruction, whatever calls succeed, fail or throw on the way, a
-- serial transport leaves those descriptors open that were open before it, and no other; over calls
-- of the system that open and close as `Descriptors` says, and where what happens in between opens
-- and closes nothing.
pub session_closes :
    {W O P : Type 0} (sys : Posix W O P) (laws : Descriptors sys) (device : Text) (baud_rate : ℕ)
    (interval : ℤ) (calls : List (Call W)) (w : W)
    → All (IsElsewhere sys laws (laws.open_set w)) calls
    → laws.open_set (session sys device baud_rate interval calls w) ≡ laws.open_set w
unfolding session
session_closes sys laws device baud_rate interval calls w e =
    run_then_destroy-closes sys laws (laws.open_set w) calls
      (make_serial_transport sys device baud_rate interval w) e
      (make_serial_transport-Kept sys laws (laws.open_set w) device baud_rate interval w refl)
