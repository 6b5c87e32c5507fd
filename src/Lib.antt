-- ===== src/Lib.antt =====
-- The daemon that stands in for the SystemCore system server on a Raspberry Pi 5 (daemon/src). It
-- publishes the control word that a robot program obeys, drives the GPIO lines that the program asks
-- for over NetworkTables topics, and runs a match.
--
-- The parts and how they interact: every writer of the shared state (the match controller, the
-- ingest of the control topics, the web interface) calls its setters, and the publisher takes a
-- snapshot of it at each tick, packs and encodes it, and hands it to a sink. The publisher records
-- the times between its ticks in the cadence tracker. The SmartIo bridge reads the topics of each
-- channel and drives the channel's state machine, and that the lines of a GPIO backend. The signal
-- light drives a line of its own.
--
--   Prelude       the names, operators, lists, integers and bits that the other modules share
--   ControlData   daemon/src/control_data_encoder.{hpp,cpp}
--   DaemonState   daemon/src/daemon_state.{hpp,cpp}
--   Match         daemon/src/match_controller.{hpp,cpp}
--   Cadence       daemon/src/cadence_tracker.{hpp,cpp}
--   Gpio          IGpioBackend of daemon/src/smartio_state.hpp; daemon/src/libgpiod_backend.{hpp,cpp}
--                 and daemon/src/null_gpio_backend.hpp in its children
--   SmartIo       daemon/src/smartio_state.{hpp,cpp}; daemon/src/smartio_bridge.{hpp,cpp} in Bridge
--   Rsl           daemon/src/rsl_blinker.{hpp,cpp}
--   Gamepad       daemon/src/gamepad_ingest.{hpp,cpp}
--   Publisher     daemon/src/control_data_publisher.{hpp,cpp}
--   Periodic      daemon/src/periodic_task.hpp
--   Web           the forms of daemon/src/web_ui.{hpp,cpp}; the pages and the routes in Page,
--                 the buttons of the HTML page and what its script posts in Buttons
--   Diagnostics   daemon/src/diagnostics_publisher.{hpp,cpp}
--   Runtime       daemon/src/linux_runtime.{hpp,cpp}
--   Threads       the start and stop of the threads of these parts
--   NtServer      daemon/src/nt_server.{hpp,cpp}
--   Topics        daemon/src/nt_topics.hpp, and the topics that the constructors of the parts ask for,
--                 those of daemon/src/imu_publisher.cpp among them
--   Daemon        daemon/src/main.cpp
--   Check         daemon/src/check_server_ready.cpp
--   TestClient    daemon/src/nt_smartio_test.cpp
--   Writers       the writers of the shared state and the publisher together, write by write
--   Tests         the theorems at concrete inputs
--
-- Definitions carry the names of the functions and fields that they model; a member function takes
-- the object's state and returns it changed. A method that holds its mutex throughout is one step.
-- Readings of the clock, what a subscriber returns and what other threads have written are inputs of
-- each tick. A call on a GPIO line returns or throws (`Outcome`).
--
-- Numbers: a word is taken modulo its power of two where it is computed; the calculations on clocks
-- and durations are those of 64-bit integers that do not overflow, and are modelled without a bound.
-- A double of milliseconds in the tracker is the whole number of microseconds that it is a
-- thousandth of. Recursion is on lists, with two exceptions. A number is printed with at most 20
-- digits, which are enough for 64 bits. A wait of the readiness check has fuel for 102 polls, and the
-- timeout is reached before them: the check always has an exit code.
--
-- The daemon as a whole: its start, its main loop and its end are a log of the server's start and
-- stop, the topics, what main publishes and sends to systemd, and the threads (Daemon). The main
-- loop is a list of passes, with the signals that come before each; the daemon goes on if the
-- list ends before a signal, and it is ended by an exception if the request of the signal light's
-- line throws, which main makes before the loop. The bridge and the signal light share one
-- backend; a board is the backend with the state of both, and a step is what the bridge's tick
-- does on one channel for its type or its value, or a start, tick or stop of the light
-- (Daemon.Lines). The backend has no lock: two threads inside such a step at once are not
-- modelled. An exception in a thread ends the daemon with no destructor run (Daemon.Crash). The
-- writers of the shared state take steps of one write each, since the state has a lock (Writers).
-- The publisher, the web server and the diagnostics share the tracker, which has no lock: their
-- calls take turns (Web.Punctual), but for a record inside a refresh (Cadence.Runs).
--
-- Parameters: nanopb's encoder and decoder, libgpiod's calls, the topics of NetworkTables, the
-- route that the HTTP server takes for a request, the text that a double is formatted to, the
-- browser's encoding of a form, the environment, and what the system calls return.
--
-- Not modelled: what is printed, the HTML page but for its buttons, the insides of the HTTP and
-- NetworkTables servers, which are libraries, the build and the sample robot, which carry no
-- logic of the daemon.
pub mod Prelude
pub mod ControlData
pub mod DaemonState
pub mod Gpio
pub mod SmartIo
pub mod Match
pub mod Cadence
pub mod Gamepad
pub mod Rsl
pub mod Publisher
pub mod Periodic
pub mod Web
pub mod Check
pub mod Writers
pub mod TestClient
pub mod Runtime
pub mod Threads
pub mod NtServer
pub mod Topics
pub mod Diagnostics
pub mod Daemon
pub mod Tests
