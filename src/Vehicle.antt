-- ===== src/Vehicle.antt =====
-- VehicleState (include/onboard_autonomy/mission/flight, src/mission/flight/VehicleState.cpp): what
-- is known of the flight controller, and how old it may be.
pub mod State
pub mod Report
pub mod Armable
pub mod Reset
pub mod Warnings
pub mod History
mod Tests
