-- ===== src/App/Transport.antt =====
-- The transport (include/onboard_autonomy/mission/flight/Transport.hpp) and `write_frame`.
use onboard_autonomy.Base.{
  ℕ, zero, suc, Bool, true, false, [], ◌∷◌, Text, drop, length, if◌then◌else◌, ◌==◌,
}
use onboard_autonomy.Mavlink.Encoder.{Bytes}
use onboard_autonomy.App.Names.{outbound}
use onboard_autonomy.App.State.{App}
use onboard_autonomy.App.Events.{record_activity}

-- `read` with the size of the destination gives the bytes that it put there; `write` says how many
-- bytes it took.
pub record Transport (T : Type 0) : Type 0 where
  pub read : ℕ → T → T × Bytes
  pub write : Bytes → T → T × ℕ

module _ {T : Type 0} (transport : Transport T) where
  -- The loop of `write_frame` on fuel; a round takes at least one byte, so that the length of the
  -- frame is enough. What is left of the frame stands for the offset.
  unfoldable pub send_bytes : ℕ → Bytes → T → T × Bool
  send_bytes zero [] t = (t, true)
  send_bytes zero (b ∷ bytes) t = (t, false)
  send_bytes (suc fuel) [] t = (t, true)
  send_bytes (suc fuel) (b ∷ bytes) t =
      let (t', written) = transport.write (b ∷ bytes) t in
      let rest = send_bytes fuel (drop written (b ∷ bytes)) t' in
      if written == 0 then (t', false) else rest

  module _ {C V P D : Type 0} where
    unfoldable pub write_frame : Bytes → ℕ → Text → Text → App C V T P D → App C V T P D × Bool
    write_frame frame now message_name detail app =
        let (t, sent) = send_bytes (length frame) frame app.transport in
        let after = record app { transport = t } in
        (if sent then record_activity outbound message_name detail now after else after, sent)
