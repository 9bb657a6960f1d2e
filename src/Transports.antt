-- ===== src/Transports.antt =====
-- The transports (src/hardware/transport): a serial device that is opened again, and a UDP socket.
pub mod Posix
pub mod Serial
pub mod Udp
pub mod Descriptors
pub mod Session
pub mod Reconnect
pub mod Steady
pub mod Sockets
mod Tests
