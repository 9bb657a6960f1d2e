-- ===== src/Failsafe/Session.antt =====
-- The failsafe check over a whole history of connections and parameter reports.
use onboard_autonomy.Base.{
  ℕ, ◌/◌, ◌%◌, ◌^◌, ◌≤◌, ◌<◌, ◌≡◌, refl, ◌∙◌, ◌↔◌, Bool, true, false, Option, none, some, List, [],
  ◌∷◌, Text, text, text_eq, arith, pos, Floating, ExactIntegers, ◌≢◌, ◌⊎◌,
}
use onboard_autonomy.Failsafe.{
  accepted, Failsafe, initial, reset, observe_vehicle, received, on_parameter, exact_integer, Slot,
  accept_value, fill, slot_of, u8_max, u32_max, autopilot_component_id, validate, judge,
  action_slot, timeout_slot, options_slot, gcs_slot, other_slot, empty_snapshot,
}
use onboard_autonomy.Failsafe.Gate.{exact_integer-Reads, IsTimely, IsSafe}
use onboard_autonomy.Failsafe.Invariant.{
  IsValid, initial-IsValid, observe_vehicle-IsValid, on_parameter-IsValid, accepted_iff,
}
use onboard_autonomy.Failsafe.Order.{validate-fill}

enable_slot : slot_of (text "FS_GCS_ENABLE") ≡ action_slot
unfolding slot_of text_eq text
enable_slot = refl

period_slot : slot_of (text "FS_GCS_TIMEOUT") ≡ timeout_slot
unfolding slot_of text_eq text
period_slot = refl

bits_slot : slot_of (text "FS_OPTIONS") ≡ options_slot
unfolding slot_of text_eq text
bits_slot = refl

system_slot : slot_of (text "SYSID_MYGCS") ≡ gcs_slot
unfolding slot_of text_eq text
system_slot = refl

pub data Event (D : Type 0) : Type 0 where
  observed : Bool → Option ℕ → Event D
  -- source system and component, id, value
  reported : ℕ → ℕ → Text → D → Event D

module _ {D : Type 0} ⦃fp : Floating D⦄ where
  unfoldable pub step : Event D → Failsafe D → Failsafe D
  step (observed connected id) f = observe_vehicle connected id f
  step (reported system component id value) f = on_parameter system component id value f

  unfoldable pub run : List (Event D) → Failsafe D → Failsafe D
  run [] f = f
  run (e ∷ es) f = run es (step e f)

  step-IsValid : (e : Event D) (f : Failsafe D) → IsValid f → IsValid (step e f)
  unfolding step
  step-IsValid (observed connected id) f v = observe_vehicle-IsValid connected id f v
  step-IsValid (reported system component id value) f v =
      on_parameter-IsValid system component id value f v

  run-IsValid : (es : List (Event D)) (f : Failsafe D) → IsValid f → IsValid (run es f)
  unfolding run
  run-IsValid [] f v = v
  run-IsValid (e ∷ es) f v = run-IsValid es (step e f) (step-IsValid e f v)

  -- After any history of connections and reports from the start, the phase is `accepted` exactly when
  -- the raw parameters now stored make the controller land on the loss of this companion's heartbeat:
  -- the action is 5, the timeout from 2 to 10 seconds, the two continuation bits are clear, and the
  -- watched system is the one of the heartbeat, and not 0.
  pub run-accepted :
      (es : List (Event D)) → ((run es initial).snapshot.phase ≡ accepted) ↔ IsSafe (run es initial)
  run-accepted es = accepted_iff (run es initial) (run-IsValid es initial initial-IsValid)

  -- In a valid state, losing the controller, or meeting another one, forgets every parameter and any acceptance.
  pub observe_vehicle-forgets :
      (connected : Bool) (id : Option ℕ) (f : Failsafe D)
      → IsValid f
      → (connected ≡ false) ⊎ (id ≢ f.snapshot.heartbeat_system_id)
      → (received (observe_vehicle connected id f) ≡ 0)
        × ((observe_vehicle connected id f).snapshot.phase ≢ accepted)
  unfolding observe_vehicle reset received
  observe_vehicle-forgets connected none f v h = ground (arith, v.unwatched)
  observe_vehicle-forgets connected (some id) f v h = ground (arith, v.unwatched)

  -- Validation leaves the raw parameters and the heartbeat's system as they are.
  validate-IsSafe : (f : Failsafe D) → IsSafe f → IsSafe (validate f)
  unfolding validate judge
  validate-IsSafe f s = ground arith

  on_parameter_own :
      (system : ℕ) (id : Text) (v : D) (f : Failsafe D)
      → f.snapshot.heartbeat_system_id ≡ some system
      → on_parameter system autopilot_component_id id v f ≡ accept_value (slot_of id) v f
  unfolding on_parameter
  on_parameter_own system id v f h = ground arith

  validate-heartbeat :
      (f : Failsafe D) → (validate f).snapshot.heartbeat_system_id ≡ f.snapshot.heartbeat_system_id
  unfolding validate judge
  validate-heartbeat f = ground arith

  -- A report of the watched controller's own fills its slot and validates.
  report_first :
      (system : ℕ) (s : Slot) (id : Text) (v : D) (f : Failsafe D)
      → slot_of id ≡ s
      → s ≢ other_slot
      → f.snapshot.heartbeat_system_id ≡ some system
      → on_parameter system autopilot_component_id id v f ≡ validate (fill s v f)
  unfolding accept_value
  report_first system s id v f e n h = rw (on_parameter_own system id v f h, e) (ground arith)

  report_next :
      (system : ℕ) (s : Slot) (id : Text) (v : D) (f : Failsafe D)
      → slot_of id ≡ s
      → s ≢ other_slot
      → f.snapshot.heartbeat_system_id ≡ some system
      → on_parameter system autopilot_component_id id v (validate f) ≡ validate (fill s v f)
  report_next system s id v f e n h =
      report_first system s id v (validate f) e n (validate-heartbeat f ∙ h) ∙ validate-fill s v f

module _ {D : Type 0} ⦃fp : Floating D⦄ (exact : ExactIntegers D fp) where
  exact_integer-natural :
      (n maximum : ℕ)
      → n ≤ maximum
      → maximum ≤ 2 ^ 53
      → exact_integer (some (fp.of_int (pos n))) maximum ≡ some n
  unfolding exact_integer
  exact_integer-natural n maximum h k = ground (
    arith,
    exact.integer_finite n,
    exact.integer_flt n 0,
    exact.integer_flt maximum n,
    exact.integer_trunc n,
    exact.integer_value n,
  )

  -- The reports of a well configured controller.
  abbrev pub configuration : ℕ → D → ℕ → List (Event D)
  configuration system timeout options =
      observed true (some system)
      ∷ reported system autopilot_component_id (text "FS_GCS_ENABLE") (fp.of_int (pos 5))
      ∷ reported system autopilot_component_id (text "FS_GCS_TIMEOUT") timeout
      ∷ reported system autopilot_component_id (text "FS_OPTIONS") (fp.of_int (pos options))
      ∷ reported system autopilot_component_id (text "SYSID_MYGCS") (fp.of_int (pos system))
      ∷ []

  -- The four values stored at once.
  abbrev loaded : ℕ → D → ℕ → Failsafe D
  loaded system timeout options = record (reset (some system)) {
    raw_action = some (fp.of_int (pos 5));
    raw_timeout_s = some timeout;
    raw_options = some (fp.of_int (pos options));
    raw_gcs_system_id = some (fp.of_int (pos system));
  }

  run-configuration :
      (system : ℕ) (timeout : D) (options : ℕ)
      → run (configuration system timeout options) initial
        ≡ validate (loaded system timeout options)
  unfolding run step observe_vehicle initial empty_snapshot fill reset
  run-configuration system timeout options =
      let f0 = reset (some system) in
      let f1 = fill action_slot (fp.of_int (pos 5)) f0 in
      let f2 = fill timeout_slot timeout f1 in
      let f3 = fill options_slot (fp.of_int (pos options)) f2 in
      rw (
        report_first system action_slot (text "FS_GCS_ENABLE") (fp.of_int (pos 5)) f0 enable_slot
            (λ e. cc) refl,
        report_next system timeout_slot (text "FS_GCS_TIMEOUT") timeout f1 period_slot (λ e. cc)
            refl,
        report_next system options_slot (text "FS_OPTIONS") (fp.of_int (pos options)) f2 bits_slot
            (λ e. cc) refl,
        report_next system gcs_slot (text "SYSID_MYGCS") (fp.of_int (pos system)) f3 system_slot
            (λ e. cc) refl,
      )

  -- A new failsafe meets a connected controller whose system is from 1 to 255. The controller then
  -- reports, in this order, `FS_GCS_ENABLE` 5, a timeout that is a finite double from 2 to 10 seconds, a
  -- natural number of options below 2^32 with the two continuation bits clear, and `SYSID_MYGCS` equal to
  -- its own system: it is accepted.
  pub configuration-accepted :
      (system : ℕ) (timeout : D) (options : ℕ)
      → 0 < system
      → system ≤ 255
      → IsTimely (some timeout)
      → options < 2 ^ 32
      → options / 2 % 2 ≡ 0
      → options / 16 % 2 ≡ 0
      → (run (configuration system timeout options) initial).snapshot.phase ≡ accepted
  unfolding reset
  configuration-accepted system timeout options p q timely o x y =
      (run-accepted (configuration system timeout options)).1 (
        rw run-configuration (
          validate-IsSafe (loaded system timeout options) record {
            action_is_land =
                exact_integer-Reads _ _ _
                  (exact_integer-natural 5 u8_max (omega arith) (omega arith));
            timeout_bounded = timely;
            mask = options;
            mask_read =
                exact_integer-Reads _ _ _
                  (exact_integer-natural options u32_max (omega arith) (omega arith));
            not_continued_in_auto = x;
            not_continued_by_pilot = y;
            system = system;
            system_read =
                exact_integer-Reads _ _ _ (exact_integer-natural system u8_max q (omega arith));
            system_watched = refl;
            system_nonzero = p;
          }))
