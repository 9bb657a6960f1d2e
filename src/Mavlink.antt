-- ===== src/Mavlink.antt =====
-- The MAVLink side of the companion: messages, the encoder and the decoder
-- (include/onboard_autonomy/hardware/mavlink, src/hardware/mavlink).
pub mod Protocol
pub mod Messages
pub mod Encoder
pub mod Decoder
