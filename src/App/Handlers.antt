-- ===== src/App/Handlers.antt =====
-- The three handlers that CompanionApplication::Impl gives its decoder.
use onboard_autonomy.Base.{
  ℕ, ◌||◌, ◌&&◌, not, some, List, [], ◌∷◌, ◌++◌, Text, text, text_eq, to_string, is_empty, any,
  if◌then◌else◌, ◌==◌, Floating,
}
use onboard_autonomy.Mavlink.Protocol.{mav_cmd_set_message_interval}
use onboard_autonomy.Mavlink.Messages.{CommandAck, ParameterValue, MessageObservation}
use onboard_autonomy.Mavlink.Encoder.{companion_component_id}
use onboard_autonomy.Mavlink.Decoder.{Host}
use onboard_autonomy.App.Names.{
  inbound, map_event_status, mav_command_name, ack_result_name, command_ack_activity_detail,
}
use onboard_autonomy.App.State.{App}
use onboard_autonomy.App.Events.{record_event, record_activity, observe_failsafe_phase}
use onboard_autonomy.Telemetry
use onboard_autonomy.Failsafe

unfoldable pub parameter_names : List Text
parameter_names =
    text "FS_GCS_ENABLE" ∷ text "FS_GCS_TIMEOUT" ∷ text "FS_OPTIONS" ∷ text "SYSID_MYGCS" ∷ []

-- The text of an acknowledgement's event.
unfoldable pub ack_detail : CommandAck → Telemetry.SetupSnapshot → Text
ack_detail ack before =
    let name = ack_result_name ack.result in
    (if ack.command == mav_cmd_set_message_interval
        && (Telemetry.is_configuring before.phase && not (is_empty before.current_stream))
      then before.current_stream ++ (text " | " ++ name)
      else name)
    ++ (text " | SYS " ++ to_string ack.source_system)

module _ {C V T P D : Type 0} where
  unfoldable pub note_ack : CommandAck → Telemetry.SetupSnapshot → ℕ → App C V T P D → App C V T P D
  note_ack ack before now app =
      if ack.target_component == 0 || ack.target_component == companion_component_id
      then record_activity inbound (text "COMMAND_ACK")
          (command_ack_activity_detail ack.command ack.result) now
          (record_event inbound (map_event_status ack.result) (mav_command_name ack.command)
            (ack_detail ack before) now app)
      else app

  unfoldable pub on_ack : CommandAck → ℕ → App C V T P D → App C V T P D
  on_ack ack now app =
      let noted = note_ack ack (Telemetry.snapshot app.telemetry_configurator) now app in
      record noted {
        telemetry_configurator = Telemetry.on_command_ack ack now noted.telemetry_configurator;
      }

  unfoldable pub on_message : MessageObservation → ℕ → App C V T P D → App C V T P D
  on_message message now app =
      record_activity inbound
        (if is_empty message.message_name
          then text "MSG #" ++ to_string message.message_id
          else message.message_name)
        [] now app

module _ {C V T P D : Type 0} ⦃fp : Floating D⦄ where
  unfoldable pub take_parameter : ParameterValue D → App C V T P D → App C V T P D
  take_parameter parameter app = record app {
    companion_link_failsafe =
        Failsafe.on_parameter parameter.source_system parameter.source_component parameter.id
          parameter.value app.companion_link_failsafe;
  }

  unfoldable pub on_parameter : ParameterValue D → ℕ → App C V T P D → App C V T P D
  on_parameter parameter now app =
      let observed = observe_failsafe_phase now (take_parameter parameter app) in
      if any (text_eq parameter.id) parameter_names
      then record_activity inbound (text "PARAM_VALUE") parameter.id now observed
      else observed

  unfoldable pub decoder_host : Host (App C V T P D) D
  decoder_host = record {
    vehicle = λ app. app.vehicle_state;
    set_vehicle = λ v app. record app { vehicle_state = v };
    on_ack = some on_ack;
    on_message = some on_message;
    on_parameter = some on_parameter;
  }
