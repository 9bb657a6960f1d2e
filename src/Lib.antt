-- ===== src/Lib.antt =====
-- OnboardAutonomy: the companion program of an ArduPilot vehicle. It reads MAVLink bytes from a
-- transport, keeps the state of the vehicle, checks that the flight controller lands when the link is
-- lost, asks for telemetry streams, and watches a camera with an optional target detector.
--
-- The parts and their files (paths of the repository):
-- Vehicle (src/mission/flight/VehicleState.cpp): State.antt has VehicleState and its `on_*` handlers,
--   Report.antt `snapshot`; Armable, Reset, Warnings and History hold what is proved of them.
-- Failsafe (src/mission/safety/CompanionLinkFailsafe.cpp): the four parameters and their verdict.
--   `validate` is split into `received`, `judge`, `check`, `check_options` and `check_system`.
-- Telemetry (src/hardware/mavlink/TelemetryStreamConfigurator.cpp): the set-up of six streams. `update`
--   is split into `continue_setup`, `check_deadline` and `send_request`; it returns the frame to send.
-- Mavlink (src/hardware/mavlink/MavlinkDecoder.cpp, MavlinkEncoder.cpp): Messages.antt has the decoded
--   messages, Decoder.antt `ingest`, `handle_message` and its handlers, Encoder.antt the frames.
-- Camera (src/mission/cv): Monitor.antt is CameraMonitor, Vision.antt VisionMonitor, Worker.antt the
--   thread of AsyncCameraMonitor.
-- App (src/mission/CompanionApplication.cpp): State.antt has the members of Impl, Events.antt what it
--   records and tells its sinks, Told.antt the phase that a sink heard last, Transport.antt `write_frame`, Handlers.antt the handlers that it
--   gives the decoder, Poll.antt `poll` and its steps, Report.antt `snapshot`.
-- Cli (src/operator/cli/CommandLine.cpp): Options.antt has the launch options and the parser's buffer,
--   Validation.antt `validate_options`, Parser.antt ArgumentParser; Launchable describes what a launch
--   needs.
-- Detection (src/mission/cv/detection): Decoder.antt is YoloXOutputDecoder.cpp, Letterbox.antt
--   YoloXImagePreprocessor.cpp, Detector.antt OpenCvDnnTargetDetector.cpp over OpenCV as a record of
--   operations; Grid, Highest, Decodable, Decoded and Within say what they compute.
-- Transports (src/hardware/transport): Posix.antt has the system calls, Serial.antt is
--   PosixSerialTransport.cpp, Udp.antt UdpTransport.cpp as built on Linux. The
--   application is modelled over a transport that does not throw, while the UDP transport's read and
--   write can.
-- Runner (src/bootstrap/CompanionRunner.cpp): the event loop. It is written over the records
--   `Application` and `ForwardMonitor`, which Companion.antt fills with App and Camera.Worker. A round
--   of the loop is given what it meets: signals, commands and clocks.
-- Base has the shared helpers, Fixtures the concrete stand-ins that the tests use.
--
-- How they interact: `App.Poll.poll` reads the camera and the transport, feeds the bytes to the decoder,
-- which writes the vehicle state and calls the application's handlers; it then takes a snapshot of the
-- vehicle, tells the failsafe and the sinks, and sends the heartbeat, the telemetry requests and the
-- parameter requests that are due. The decoder is written over a record `Host`, which the application
-- fills with its state and handlers.
--
-- How it is modelled: stateful code passes its state on. A method under a mutex is one step. Code that
-- can throw gives an `Outcome`; the camera's monitor, which goes on after an exception, gives its state
-- and the exception. Times are nanoseconds of the steady clock, which is never before its epoch. Counters
-- of 64 bits wrap; a `std::uint8_t` of the protocol is a number. Doubles are an interface, `Floating`,
-- and what is assumed of them are the laws `ExactIntegers`, for integers up to 2^53, and `StrictOrder`,
-- for the order of the detector's floats; a `std::size_t` of the detector's shapes wraps. The MAVLink library, OpenCV, the system calls, the application's
-- transport, the camera source and the detector are parameters; `Descriptors` says which
-- descriptors the system calls open and close, `ConvertsSizes` what size OpenCV gives a converted image.
--
-- Bounds and fuel: the loop of `write_frame` runs on the length of the frame, which is enough, since a
-- round takes a byte at least; printing a number runs on one more than the number, which has no more
-- digits than that; the loop on the arguments runs on their number, since a round reads one at least.
--
-- Not modelled: the construction of the parts by Program.cpp and MissionRuntime.cpp, the installation of
-- the signal handlers, the camera sources, the help text, diagnostics, the console and the calibration
-- view; the transports' branches for Windows; the MAVLink and OpenCV libraries; the wall-clock times
-- that the sinks are given; and what is left of the application when an exception ends its poll.
pub mod Base
pub mod Fixtures
pub mod Mavlink
pub mod Vehicle
pub mod Camera
pub mod Telemetry
pub mod Transports
pub mod Failsafe
pub mod App
pub mod Cli
pub mod Detection
pub mod Runner
