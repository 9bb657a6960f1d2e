-- ===== src/Cli.antt =====
-- The command line (include and src/operator/cli/CommandLine): arguments to launch options.
pub mod Options
pub mod Validation
pub mod Parser
pub mod Launchable
pub mod Kept
pub mod Accepted
pub mod Cameras
pub mod Sound
pub mod Fuel
mod Tests
