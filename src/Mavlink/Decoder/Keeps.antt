-- ===== src/Mavlink/Decoder/Keeps.antt =====
-- Predicates of a host's state, through `ingest` of MavlinkDecoder.cpp.
use onboard_autonomy.Base.{
  ℕ, Bool, true, false, Option, none, some, List, [], ◌∷◌, Floating, if◌then◌else◌, text, text_eq,
  up_to_nul,
}
use onboard_autonomy.Mavlink.Messages.{
  Message, Payload, CommandAck, ParameterValue, MessageObservation, heartbeat, gps_raw_int,
  global_position_int, local_position_ned, attitude, battery_status, sys_status, autopilot_version,
  param_value, statustext, command_ack, other,
}
use onboard_autonomy.Vehicle.State.{VehicleState}
use onboard_autonomy.Vehicle.Report.{snapshot}
use onboard_autonomy.Mavlink.Decoder.{
  Host, Library, handle_heartbeat, handle_battery, handle_system_status, handle_autopilot_version,
  handle_parameter_value, handle_command_ack, dispatch, handle_message, receive, ingest,
  notify_parameter, notify_ack, notify_message, framed,
}

-- A handler, where there is one, keeps a property of the state.
abbrev pub Keeps : {A S : Type 0} → (S → Type 0) → Option (A → ℕ → S → S) → Type 0
Keeps I none = Unit {0}
Keeps {A = A} {S = S} I (some f) = (a : A) (now : ℕ) (s : S) → I s → I (f a now s)

module _ {S D : Type 0} ⦃fp : Floating D⦄ (host : Host S D) (I : S → Type 0)
    (on_set : (v : VehicleState D) (s : S) → I s → I (host.set_vehicle v s))
    (on_ack : Keeps I host.on_ack) (on_message : Keeps I host.on_message)
    (on_parameter : Keeps I host.on_parameter) where
  notify_parameter-keeps :
      (f : Option (ParameterValue D → ℕ → S → S))
      → Keeps I f
      → (p : ParameterValue D) (now : ℕ) (s : S) → I s
      → I (notify_parameter host f p now s)
  unfolding notify_parameter
  notify_parameter-keeps none k p now s i = i
  notify_parameter-keeps (some f) k p now s i = k p now s i

  notify_ack-keeps :
      (f : Option (CommandAck → ℕ → S → S))
      → Keeps I f
      → (a : CommandAck) (now : ℕ) (s : S) → I s
      → I (notify_ack host f a now s)
  unfolding notify_ack
  notify_ack-keeps none k a now s i = i
  notify_ack-keeps (some f) k a now s i = k a now s i

  notify_message-keeps :
      (f : Option (MessageObservation → ℕ → S → S))
      → Keeps I f
      → (o : MessageObservation) (now : ℕ) (s : S) → I s
      → I (notify_message host f o now s)
  unfolding notify_message
  notify_message-keeps none k o now s i = i
  notify_message-keeps (some f) k o now s i = k o now s i

  modify_if-keeps :
      (b : Bool) (v : VehicleState D) (s : S) → I s → I (if b then host.set_vehicle v s else s)
  modify_if-keeps true v s i = on_set v s i
  modify_if-keeps false v s i = i

  stay_if-keeps : (b : Bool) (s t : S) → I s → I t → I (if b then s else t)
  stay_if-keeps true s t i j = i
  stay_if-keeps false s t i j = j

  dispatch-keeps : (m : Message) (p : Payload) (now : ℕ) (s : S) → I s → I (dispatch host m p now s)
  unfolding dispatch handle_heartbeat handle_battery handle_system_status handle_autopilot_version
      handle_parameter_value handle_command_ack
  dispatch-keeps m (heartbeat h) now s i =
      let watched = on_set (snapshot now (host.vehicle s)).0 s i in
      stay_if-keeps _ s _ i (stay_if-keeps _ _ _ watched (on_set _ _ watched))
  dispatch-keeps m (gps_raw_int fix satellites) now s i = on_set _ s i
  dispatch-keeps m (global_position_int mm) now s i = on_set _ s i
  dispatch-keeps m (local_position_ned x y z) now s i = on_set _ s i
  dispatch-keeps m (attitude roll pitch yaw rate) now s i = on_set _ s i
  dispatch-keeps m (battery_status b) now s i = on_set _ s i
  dispatch-keeps m (sys_status st) now s i = on_set _ s i
  dispatch-keeps m (autopilot_version a) now s i = stay_if-keeps _ s _ i (on_set _ s i)
  dispatch-keeps m (param_value id value type) now s i =
      notify_parameter-keeps host.on_parameter on_parameter _ now _
        (modify_if-keeps (text_eq (up_to_nul id) (text "BATT_ARM_VOLT")) _ s i)
  dispatch-keeps m (statustext severity body) now s i = on_set _ s i
  dispatch-keeps m (command_ack a) now s i = notify_ack-keeps host.on_ack on_ack _ now s i
  dispatch-keeps m (other id) now s i = i

  receive-keeps :
      {P : Type 0} (library : Library P) (m : Message) (now : ℕ) (s : S)
      → I s
      → I (receive host library m now s)
  unfolding receive handle_message
  receive-keeps library m now s i =
      let noted = notify_message-keeps host.on_message on_message _ now s i in
      let watched = on_set _ _ noted in
      stay_if-keeps _ _ _ (dispatch-keeps m m.payload now _ noted)
        (stay_if-keeps _ _ _ watched (dispatch-keeps m m.payload now _ watched))

  framed-keeps :
      {P : Type 0} (library : Library P) (m : Option Message) (now : ℕ) (s : S)
      → I s
      → I (framed host library m now s)
  unfolding framed
  framed-keeps library none now s i = i
  framed-keeps library (some m) now s i = receive-keeps library m now s i

  -- What the setting of the vehicle and every handler keep, a stream of bytes keeps.
  pub ingest-keeps :
      {P : Type 0} (library : Library P) (bytes : List ℕ) (now : ℕ) (p : P) (s : S)
      → I s
      → I (ingest host library bytes now (p, s)).1
  unfolding ingest
  ingest-keeps library [] now p s i = i
  ingest-keeps library (b ∷ bytes) now p s i =
      let (p', frame) = library.frame_char p b in
      ingest-keeps library bytes now p' _ (framed-keeps library frame now s i)
