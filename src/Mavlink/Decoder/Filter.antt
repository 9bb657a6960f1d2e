-- ===== src/Mavlink/Decoder/Filter.antt =====
-- The sender checks of MavlinkDecoder.cpp, and the packed firmware version.
use onboard_autonomy.Base.{
  ℕ, ◌+◌, ◌*◌, ◌^◌, ◌<◌, ◌≡◌, true, false, not, ◌||◌, ◌⊎◌, inl, inr, arith, Bool-cases, Floating,
  ◌==◌,
}
use onboard_autonomy.Mavlink.Protocol.{mav_comp_id_autopilot1, mav_autopilot_invalid}
use onboard_autonomy.Mavlink.Messages.{Heartbeat, Payload, Message, AutopilotVersion, heartbeat}
use onboard_autonomy.Vehicle.Report.{snapshot}
use onboard_autonomy.Mavlink.Decoder.{
  Host, is_heartbeat, is_from, metadata_of, handle_heartbeat, dispatch, handle_message,
}

-- The four bytes of the packed firmware version are a base-256 expansion of it.
pub metadata_of-packed :
    (a : AutopilotVersion)
    → a.flight_sw_version < 2 ^ 32
    → let m = metadata_of a in
      (m.firmware_major < 256)
      × (m.firmware_minor < 256)
      × (m.firmware_patch < 256)
      × (m.firmware_release_type < 256)
      × (((m.firmware_major * 256 + m.firmware_minor) * 256 + m.firmware_patch) * 256
            + m.firmware_release_type
          ≡ a.flight_sw_version)
unfolding metadata_of
metadata_of-packed a h = omega arith

module _ {S D : Type 0} ⦃fp : Floating D⦄ (host : Host S D) where
  abbrev pub Unmoved : ℕ → S → S → Type 0
  Unmoved now s t = (t ≡ s) ⊎ (t ≡ host.set_vehicle (snapshot now (host.vehicle s)).0 s)

  handle_heartbeat-foreign :
      (m : Message) (h : Heartbeat) (now : ℕ) (s : S)
      → (snapshot now (host.vehicle s)).1.connected ≡ true
      → is_from (snapshot now (host.vehicle s)).1 m ≡ false
      → Unmoved now s (handle_heartbeat host m h now s)
  unfolding handle_heartbeat
  handle_heartbeat-foreign m h now s c f =
      elim (Bool-cases
        (h.autopilot == mav_autopilot_invalid || not (m.compid == mav_comp_id_autopilot1))) [
          | inl invalid ↦ inl (rw invalid)
          | inr valid ↦ inr (rw (valid, c, f))
        ]

  dispatch-foreign :
      (m : Message) (p : Payload) (now : ℕ) (s : S)
      → (snapshot now (host.vehicle s)).1.connected ≡ true
      → is_from (snapshot now (host.vehicle s)).1 m ≡ false
      → is_heartbeat p ≡ true
      → Unmoved now s (dispatch host m p now s)
  unfolding dispatch
  dispatch-foreign m (heartbeat h) now s c f e = handle_heartbeat-foreign m h now s c f
  dispatch-foreign m _ now s c f e = cc

  -- While a controller is connected, a message of any other sender changes nothing of the host but
  -- that warnings too old are erased: no telemetry, acknowledgement or parameter is taken from it.
  pub handle_message-foreign :
      (m : Message) (now : ℕ) (s : S)
      → (snapshot now (host.vehicle s)).1.connected ≡ true
      → is_from (snapshot now (host.vehicle s)).1 m ≡ false
      → Unmoved now s (handle_message host m now s)
  unfolding handle_message
  handle_message-foreign m now s c f = elim (Bool-cases (is_heartbeat m.payload)) [
    | inl beat ↦ rw beat (dispatch-foreign m m.payload now s c f beat)
    | inr plain ↦ inr (rw (plain, f))
  ]
