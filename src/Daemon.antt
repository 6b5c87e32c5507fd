-- ===== src/Daemon.antt =====
-- main.cpp: the daemon, from the lock of its memory to the end of `main`. Inputs are the environment,
-- what the chip's constructor and the system calls return, whether the request of the signal light's
-- line returns or throws, the signals, and the readings of the clock in the loop that feeds systemd's
-- watchdog. The other threads do not throw here; Daemon.Crash has what they leave when they do.
pub mod Watch
pub mod Log
pub mod Orderly
pub mod Typed
pub mod Published
pub mod Lines
pub mod Freed
pub mod Crash
use pi5_system_surrogate.Prelude.{
  ℕ, ◌+◌, Bool, true, false, if◌then◌else◌, leb, Option, none, some, List, [], ◌∷◌, ◌++◌, map,
}
use pi5_system_surrogate.Prelude.Text.{Text, codes}
use pi5_system_surrogate.Gpio.{Outcome, done, threw, ◌>>=◌}
use pi5_system_surrogate.Gpio.Libgpiod.{LibgpiodBackend}
use pi5_system_surrogate.SmartIo.Bridge.{PinMapping}
use pi5_system_surrogate.Runtime.{NotifyKind, ready, watchdog, stopping, notify, lock_all_memory}
use pi5_system_surrogate.Prelude.Int.{ℤ}
use pi5_system_surrogate.Threads.{
  TopicType, boolean, double, locked, advertised, sent, Process, emit, publisher_start,
  publisher_stop, smartio_start, smartio_stop, rsl_start, rsl_stop, gamepad_start, gamepad_stop,
  diagnostics_start, diagnostics_stop, match_start, match_stop, web_start, web_stop,
}
use pi5_system_surrogate.NtServer.{default_server, destroy_server}
use pi5_system_surrogate.Topics.{
  server_ready_topic, control_data_topic, battery_topic, type_proto_control_data, publishes,
  imu_topics, bridge_topics, gamepad_topics, diagnostics_topics,
}

abbrev pub pin : ℕ → ℕ → PinMapping
pin channel gpio = record { channel = channel; gpio = gpio }

-- kPinMap and kRslGpio.
unfoldable pub pin_map : List PinMapping
pin_map = pin 0 17 ∷ pin 1 27 ∷ pin 2 22 ∷ pin 3 23 ∷ []

abbrev pub rsl_gpio : ℕ
rsl_gpio = 26

-- `getenv("PI5_SURROGATE_GPIOCHIP")` is the argument.
unfoldable pub chip_path : Option Text → Text
chip_path none = codes "/dev/gpiochip0"
chip_path (some []) = codes "/dev/gpiochip0"
chip_path (some (c ∷ cs)) = c ∷ cs

-- `backend`: over libgpiod, or the one without lines.
pub data Backend (H : Type 0) : Type 0 where
  on_chip : LibgpiodBackend H → Backend H
  no_chip : Backend H

-- The `try`: `open_chip` is libgpiod's chip of a path, if it opens, and the constructor of
-- `LibgpiodBackend` throws if it does not.
abbrev pub backend_on : {H : Type 0} → Option H → Backend H
backend_on none = no_chip
backend_on (some h) = on_chip (record { chip = h; lines = [] })

unfoldable pub open_backend : {H : Type 0} → (Text → Option H) → Option Text → Backend H
unfolding chip_path
open_backend open_chip override_path = backend_on (open_chip (chip_path override_path))

-- One pass of the loop, in nanoseconds of the clock: what it sends, and the next deadline.
abbrev pub second : ℕ
second = 1000000000

unfoldable pub is_due : ℕ → ℕ → Bool
is_due now next_watchdog = leb next_watchdog now

-- SIGTERM and SIGINT, which `main` gives the handler to.
pub data Signal : Type 0 where
  sigterm sigint : Signal

-- The handler, on `stop_requested`.
abbrev pub on_signal : Signal → Bool → Bool
on_signal signo stop_requested = true

abbrev pub arrive : List Signal → Bool → Bool
arrive [] stop_requested = stop_requested
arrive (signo ∷ more) stop_requested = arrive more (on_signal signo stop_requested)

-- A pass of the loop: the signals that arrive before its look at the flag, and the clock after its
-- sleep.
pub record Pass : Type 0 where
  pub signals : List Signal
  pub now : ℕ

-- What the process finds around it: NOTIFY_SOCKET and whether a socket to it is made, what `mlockall`
-- returns, whether the request of the signal light's line returns, and the name of the build.
pub record Surroundings : Type 0 where
  pub socket : Option Text
  pub opened : Bool
  pub mlockall : ℤ
  pub light_granted : Bool
  pub build_info : Text

-- What comes of `main`, over the passes that are seen of it: it goes on, it is ended by an exception
-- that nothing catches, or it returns.
pub data Course : Type 0 where
  goes_on : Course
  terminated returned : Process → Course

module _ (around : Surroundings) where
  -- `notify`, as an event of the process.
  abbrev pub notified : NotifyKind → Process → Process
  notified kind = emit (sent (notify around.socket around.opened kind) ∷ [])

  -- The loop, over the passes that are seen of it: it ends at the first look that finds the flag set,
  -- and goes on beyond them otherwise.
  unfoldable pub idle : List Pass → Bool → ℕ → Process → Option Process
  unfolding emit is_due
  idle [] stop next_watchdog p = none
  idle (pass ∷ later) stop next_watchdog p =
      let stop' = arrive pass.signals stop in
      let due = is_due pass.now next_watchdog in
      let rest =
        idle later stop' (if due then next_watchdog + second else next_watchdog)
          (if due then notified watchdog p else p) in
      if stop' then some p else rest

  -- Up to the start of the signal light.
  unfoldable pub before_light : Process → Process
  unfolding emit lock_all_memory default_server imu_topics bridge_topics pin_map publisher_start
      smartio_start
  before_light p0 =
      let p1 = default_server (emit (locked (lock_all_memory around.mlockall) ∷ []) p0) in
      let p2 =
        emit
          (publishes server_ready_topic TopicType.boolean (boolean true)
            ++ (publishes battery_topic TopicType.double (double 12)
                ++ (imu_topics
                    ++ advertised control_data_topic (TopicType.raw type_proto_control_data) ∷ [])))
          p1 in
      smartio_start (emit (bridge_topics pin_map) (publisher_start p2))

  -- From there to the message that the daemon is ready.
  unfoldable pub after_light : Process → Process
  unfolding emit gamepad_topics diagnostics_topics gamepad_start diagnostics_start match_start
      web_start
  after_light p3 =
      let p4 = gamepad_start (emit gamepad_topics p3) in
      let p5 = diagnostics_start (emit (diagnostics_topics around.build_info) p4) in
      notified ready (web_start (match_start p5))

  -- Nothing catches what the start of the light throws.
  unfoldable pub start_up : Process → Outcome Process Process
  unfolding before_light after_light rsl_start
  start_up p0 = rsl_start around.light_granted (before_light p0) >>= λ p3. done (after_light p3)

  unfoldable pub shut_down : Process → Process
  unfolding emit publisher_stop smartio_stop rsl_stop gamepad_stop diagnostics_stop match_stop
      web_stop
  shut_down p = publisher_stop (
      smartio_stop
        (rsl_stop (gamepad_stop (diagnostics_stop (match_stop (web_stop (notified stopping p)))))))

  -- The destructors at the end of `main`, in the reverse order of the objects: those of the parts stop
  -- their threads, and the server's comes last.
  unfoldable pub destructors : Process → Process
  unfolding publisher_stop smartio_stop rsl_stop gamepad_stop diagnostics_stop match_stop web_stop
      destroy_server
  destructors p = destroy_server (
      publisher_stop
        (smartio_stop (rsl_stop (gamepad_stop (diagnostics_stop (match_stop (web_stop p)))))))

  -- What follows the loop, if it ends.
  abbrev pub end_main : Option Process → Course
  end_main none = goes_on
  end_main (some p) = returned (destructors (shut_down p))

  -- What follows the start; `began` is the clock before the loop. An exception that nothing catches
  -- runs no destructor.
  abbrev pub after_start : ℕ → List Pass → Outcome Process Process → Course
  after_start began passes (threw p) = terminated p
  after_start began passes (done p) = end_main (idle passes false (began + second) p)

  -- `main`, from a process without threads. A signal that comes before the loop is one of its first
  -- pass.
  unfoldable pub run_daemon : ℕ → List Pass → Process → Course
  unfolding idle start_up shut_down destructors
  run_daemon began passes p = after_start began passes (start_up p)
