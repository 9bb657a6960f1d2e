-- ===== src/Camera.antt =====
-- The camera side of the companion (include and src/mission/cv): CameraMonitor, VisionMonitor and
-- the worker of AsyncCameraMonitor. Camera sources and target detectors are interfaces.
pub mod Ports
pub mod Vision
pub mod Monitor
pub mod Worker
pub mod Counters
mod Tests
