-- ===== src/App.antt =====
-- CompanionApplication (include and src/mission/CompanionApplication): one poll reads the camera and
-- the transport, follows the vehicle, and sends what is due.
pub mod Names
pub mod State
pub mod Events
pub mod Transport
pub mod Handlers
pub mod Poll
pub mod Report
pub mod Told
pub mod Frames
pub mod Invariant
pub mod Kept
pub mod Steps
pub mod Silence
mod Tests
