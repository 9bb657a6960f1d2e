-- ===== src/App/Kept.antt =====
-- The handlers, the writes and the following of the vehicle, on a valid state of
-- CompanionApplication::Impl.
use onboard_autonomy.Base.{
  sym, ℕ, zero, suc, ◌+◌, ◌<◌, ◌≡◌, refl, inl, inr, Bool, true, false, not, ◌&&◌, ◌||◌, some, arith,
  ltb→lt, ◌==◌, is_empty, Text, text, text_eq, any, length, get_elem?, ltb, if◌then◌else◌, Floating,
  Bool-cases, Returns, Outcome,
}
use onboard_autonomy.Mavlink.Encoder.{Bytes, companion_component_id, maximum_parameter_id_length}
use onboard_autonomy.Mavlink.Messages.{CommandAck, ParameterValue, MessageObservation}
use onboard_autonomy.Vehicle.Report.{VehicleSnapshot}
use onboard_autonomy.App.Names.{outbound, inbound}
use onboard_autonomy.App.State.{App}
use onboard_autonomy.App.Transport.{Transport, send_bytes, write_frame}
use onboard_autonomy.App.Handlers.{
  parameter_names, note_ack, on_ack, on_message, take_parameter, on_parameter,
}
use onboard_autonomy.App.Poll.{update_vehicle_connection, send_noted, schedule_parameter}
use onboard_autonomy.App.Invariant.{
  IsValid, record_event-IsValid, record_activity-IsValid, observe_failsafe_phase-IsValid,
  choose-IsValid, observe_vehicle-IsValid,
}
use onboard_autonomy.App.Told.{Told}
use mathlib.Core.Path.{subst}
use onboard_autonomy.Telemetry
use onboard_autonomy.Failsafe

-- Each of the four names is there, and is one that the encoder takes.
pub parameter_names-get :
    (i : ℕ)
    → i < 4
    → (name : Text) × (get_elem? parameter_names i ≡ some name)
      × ((is_empty name || ltb maximum_parameter_id_length (length name)) ≡ false)
unfolding parameter_names text
parameter_names-get zero h = (_, refl, refl)
parameter_names-get (suc zero) h = (_, refl, refl)
parameter_names-get (suc (suc zero)) h = (_, refl, refl)
parameter_names-get (suc (suc (suc zero))) h = (_, refl, refl)
parameter_names-get (suc (suc (suc (suc n)))) h = absurd (omega arith)

module _ {C V T P D : Type 0} ⦃fp : Floating D⦄ where
  -- Between two changes of the failsafe each sink knows the phase that the application remembers.
  previously :
      (app : App C V T P D)
      → IsValid app
      → Told app.observation_sinks app.observed app.previous_failsafe_phase
  previously app v = subst (Told app.observation_sinks app.observed) (sym v.told.0) v.told.1

  pub write_frame-IsValid :
      (transport : Transport T) (frame : Bytes) (now : ℕ) (name detail : Text) (app : App C V T P D)
      → IsValid app
      → IsValid (write_frame transport frame now name detail app).0
  unfolding write_frame
  write_frame-IsValid transport frame now name detail app v =
      choose-IsValid (send_bytes transport (length frame) frame app.transport).1 _ _
        (record_activity-IsValid outbound name detail now _ v) v

  pub send_noted-IsValid :
      (transport : Transport T) (frame : Bytes) (name activity label detail : Text) (now : ℕ)
      (app : App C V T P D)
      → IsValid app
      → IsValid (send_noted transport frame name activity label detail now app)
  unfolding send_noted
  send_noted-IsValid transport frame name activity label detail now app v =
      record_event-IsValid _ _ _ _ now _
        (write_frame-IsValid transport frame now name activity app v)

  pub on_ack-IsValid :
      (ack : CommandAck) (now : ℕ) (app : App C V T P D)
      → IsValid app
      → IsValid (on_ack ack now app)
  unfolding on_ack note_ack
  on_ack-IsValid ack now app v =
      let noted = note_ack ack (Telemetry.snapshot app.telemetry_configurator) now app in
      let w : IsValid noted =
        choose-IsValid (ack.target_component == 0 || ack.target_component == companion_component_id)
          _ app (record_activity-IsValid inbound _ _ now _ (record_event-IsValid _ _ _ _ now app v))
          v in
      record {
        few = w.few;
        named = w.named;
        setup_valid = Telemetry.Invariant.on_command_ack-IsValid ack now _ w.setup_valid;
        link_valid = w.link_valid;
        told = w.told;
      }

  pub on_message-IsValid :
      (message : MessageObservation) (now : ℕ) (app : App C V T P D)
      → IsValid app
      → IsValid (on_message message now app)
  unfolding on_message
  on_message-IsValid message now app v = record_activity-IsValid inbound _ _ now app v

  pub on_parameter-IsValid :
      (parameter : ParameterValue D) (now : ℕ) (app : App C V T P D)
      → IsValid app
      → IsValid (on_parameter parameter now app)
  unfolding on_parameter take_parameter
  on_parameter-IsValid parameter now app v =
      let w =
        observe_failsafe_phase-IsValid now (take_parameter parameter app) (previously app v)
          (λ phase log e. record {
            few = v.few;
            named = v.named;
            setup_valid = v.setup_valid;
            link_valid =
                Failsafe.Invariant.on_parameter-IsValid parameter.source_system
                  parameter.source_component parameter.id parameter.value
                  app.companion_link_failsafe v.link_valid;
            told = e;
          }) in
      choose-IsValid (any (text_eq parameter.id) parameter_names) _ _
        (record_activity-IsValid inbound _ _ now _ w) w

  pub update_vehicle_connection-IsValid :
      (vehicle : VehicleSnapshot D) (now : ℕ) (app : App C V T P D)
      → IsValid app
      → IsValid (update_vehicle_connection vehicle now app)
  unfolding update_vehicle_connection
  update_vehicle_connection-IsValid vehicle now app v =
      let link =
        Failsafe.observe_vehicle vehicle.connected vehicle.system_id app.companion_link_failsafe in
      let w =
        observe_failsafe_phase-IsValid now (record app { companion_link_failsafe = link })
          (previously app v)
          (λ phase log e. record {
            few = v.few;
            named = v.named;
            setup_valid = v.setup_valid;
            link_valid =
                Failsafe.Invariant.observe_vehicle-IsValid vehicle.connected vehicle.system_id
                  app.companion_link_failsafe v.link_valid;
            told = e;
          }) in
      let r =
        choose-IsValid (vehicle.connected && not app.vehicle_was_connected) _ _
          (record {
            few = w.few;
            named = omega arith;
            setup_valid = w.setup_valid;
            link_valid = w.link_valid;
            told = w.told;
          })
          w in
      let o = observe_vehicle-IsValid vehicle now _ r in choose-IsValid vehicle.connected _ _ o o

  pub schedule_parameter-IsValid :
      (now : ℕ) (app : App C V T P D) → IsValid app → IsValid (schedule_parameter now app)
  unfolding schedule_parameter parameter_names
  schedule_parameter-IsValid now app v =
      elim (Bool-cases (ltb (app.failsafe_parameter_index + 1) 4)) [
        | inl more ↦ rw more (record {
          few = v.few;
          named = omega (arith, ltb→lt _ _ more);
          setup_valid = v.setup_valid;
          link_valid = v.link_valid;
          told = v.told;
        })
        | inr over ↦ rw over (record {
          few = v.few;
          named = omega arith;
          setup_valid = v.setup_valid;
          link_valid = v.link_valid;
          told = v.told;
        })
      ]

  pub choose-Returns :
      (b : Bool) (x y : Outcome (App C V T P D))
      → Returns IsValid x
      → Returns IsValid y
      → Returns IsValid (if b then x else y)
  choose-Returns true x y v w = v
  choose-Returns false x y v w = w
