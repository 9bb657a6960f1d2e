-- ===== src/Detection.antt =====
-- The YOLOX detector (src/mission/cv/detection): letterbox geometry, output decoding and the targets.
pub mod Decoder
pub mod Letterbox
pub mod Grid
pub mod Highest
pub mod Detector
pub mod Within
pub mod Decodable
pub mod Decoded
mod Tests
