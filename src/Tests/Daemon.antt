-- ===== src/Tests/Daemon.antt =====
-- The daemon at concrete inputs.
use pi5_system_surrogate.Prelude.{
  ℕ, ◌-◌, ◌/◌, ◌+◌, ◌≡◌, refl, true, false, if◌then◌else◌, ◌==◌, Option, none, ◌++◌, some, List, [],
  ◌∷◌, arith,
}
use pi5_system_surrogate.Prelude.Int.{pos, to_int32}
use pi5_system_surrogate.Prelude.Text.{Text, codes}
use pi5_system_surrogate.Gpio.{done, LineUse, free, output}
use pi5_system_surrogate.Gpio.Libgpiod.{
  LibgpiodBackend, libgpiod_backend, request_output, claim, release_line, holds, close,
}
use pi5_system_surrogate.Rsl
use pi5_system_surrogate.SmartIo.{
  digital_output, new_channel, requested_mode, request_mode, release_if_held, change_mode,
  on_type_changed,
}
use pi5_system_surrogate.SmartIo.Bridge.{
  sentinel, ChannelGlue, Topics, new_glue, new_bridge, dispatch_type, dispatch_valset,
  publish_input, tick_channel, tick,
}
use pi5_system_surrogate.Threads.{publisher, smartio, launched, Process, emit}
use pi5_system_surrogate.Daemon.{
  second, pin, pin_map, rsl_gpio, open_backend, sigterm, Pass, Surroundings, goes_on, terminated,
  returned, idle, run_daemon,
}
use pi5_system_surrogate.Daemon.Watch.{
  feeds, Steady, steady_end, steady_pass, Calm, times, fed, idle-seconds,
}
use pi5_system_surrogate.Daemon.Log.{new_process, collect, thread_event, message}
use pi5_system_surrogate.Daemon.Orderly.{
  Orderly, started, finish, run_daemon-Orderly, run_daemon-terminated,
}
use pi5_system_surrogate.Daemon.Published.{IsPublished, run_daemon-IsPublished}
use pi5_system_surrogate.Daemon.Lines.{
  Board, board, tick-Reach, light_starts, Reach, wired, later, Shared, Unused, Reach-Shared,
}
use pi5_system_surrogate.Daemon.Freed.{Reach-close}
use pi5_system_surrogate.Tests.Chip.{
  update, chip, line, chip-IsGpiod, quiet_chip, pins, uses, pins-IsFaithful, unused,
}

abbrev around : Surroundings
around = record {
  socket = some (codes "/a");
  opened = true;
  mlockall = pos 0;
  light_granted = true;
  build_info = codes "dev";
}

-- Three passes, and one that SIGTERM comes before.
abbrev quiet_pass : ℕ → Pass
quiet_pass now = record { signals = []; now = now }

abbrev passes : List Pass
passes = quiet_pass 5100000000 ∷ quiet_pass 6050000000 ∷ quiet_pass 7000000000 ∷ []

abbrev last : Pass
last = record { signals = sigterm ∷ []; now = 7100000000 }

passes-Calm : Calm passes
passes-Calm = (refl, (refl, (refl, tt)))

run_daemon-Orderly_example :
    (run_daemon around 5000000000 passes new_process ≡ goes_on)
    × (p : Process) × (run_daemon around 5000000000 (passes ++ last ∷ []) new_process ≡ returned p)
    × Orderly around (feeds (times passes) (5000000000 + second)) p
run_daemon-Orderly_example =
    run_daemon-Orderly around 5000000000 passes last sigterm [] [] refl passes-Calm refl

passes-Steady : Steady 5000000000 (times passes)
passes-Steady =
    steady_pass (omega arith) (omega arith)
      (steady_pass (omega arith) (omega arith) (steady_pass (omega arith) (omega arith) steady_end))

idle-seconds_example :
    idle around (passes ++ last ∷ []) false (5000000000 + second) new_process
    ≡ some (emit (fed around ((7000000000 - 5000000000) / second)) new_process)
idle-seconds_example =
    idle-seconds around 5000000000 passes last sigterm [] [] new_process passes-Calm passes-Steady
      refl

-- A daemon that is stopped at once.
stopped_at_once :
    run_daemon around 5000000000 (last ∷ []) new_process ≡ returned (finish around (started around))
unfolding run_daemon
stopped_at_once = refl

-- A daemon whose light finds its line taken.
abbrev crowded : Surroundings
crowded = record around { light_granted = false }

run_daemon-terminated_example :
    (p : Process) × (run_daemon crowded 5000000000 passes new_process ≡ terminated p)
    × (collect thread_event p.log ≡ launched publisher ∷ launched smartio ∷ [])
    × (collect message p.log ≡ [])
    × (p.joinable publisher ≡ true)
    × (p.joinable smartio ≡ true)
run_daemon-terminated_example = run_daemon-terminated crowded 5000000000 passes refl

run_daemon-IsPublished_example : IsPublished (finish around (started around)).log
run_daemon-IsPublished_example =
    run_daemon-IsPublished around 5000000000 (last ∷ []) (finish around (started around))
      stopped_at_once

-- The light starts, and then a tick of the bridge finds channel 0 asked for as an output.
abbrev lit : LibgpiodBackend (ℕ → LineUse)
lit = record { chip = update (λ _. free) 26 (output true); lines = 26 ∷ [] }

light_run : Rsl.start pins rsl_gpio quiet_chip ≡ done (true, lit)
unfolding Rsl.start libgpiod_backend request_output claim release_line holds
light_run = refl

abbrev topics : Topics
topics = record { type_of = λ ch. if ch == 0 then pos 1 else sentinel; valset_of = λ _. sentinel }

abbrev glues : List ChannelGlue
glues =
    record {
      channel = record (new_channel 0 17) { mode = digital_output };
      last_type = pos 1;
      last_valset = sentinel;
    }
    ∷ new_glue (pin 1 27)
    ∷ new_glue (pin 2 22)
    ∷ new_glue (pin 3 23)
    ∷ []

abbrev both : LibgpiodBackend (ℕ → LineUse)
both = record { chip = update lit.chip 17 (output false); lines = 17 ∷ 26 ∷ [] }

bridge_run : tick pins topics (new_bridge pin_map) lit ≡ done (glues, both, [])
unfolding pin_map new_bridge new_glue new_channel tick tick_channel dispatch_type dispatch_valset
    publish_input on_type_changed change_mode requested_mode request_mode release_if_held
    libgpiod_backend request_output claim release_line holds to_int32
bridge_run = refl

abbrev end_board : Board (LibgpiodBackend (ℕ → LineUse))
end_board = board both glues (some true)

reached : Reach pins quiet_chip end_board
reached =
    tick-Reach pins quiet_chip topics (new_bridge pin_map) lit glues both [] (some true)
      (later wired (light_starts light_run)) bridge_run

quiet_chip-Unused : Unused pins uses pins-IsFaithful quiet_chip
quiet_chip-Unused = record {
  line17 = unused 17;
  line27 = unused 27;
  line22 = unused 22;
  line23 = unused 23;
  line26 = unused 26;
}

Reach-Shared_example : Shared pins uses pins-IsFaithful quiet_chip end_board
Reach-Shared_example = Reach-Shared pins uses pins-IsFaithful quiet_chip quiet_chip-Unused reached

abbrev open_chip : Text → Option (ℕ → LineUse)
open_chip path = some (λ _. free)

Reach-close_example : line (close chip both) 17 ≡ free
unfolding open_backend
Reach-close_example =
    Reach-close chip line chip-IsGpiod open_chip none quiet_chip refl (λ j. refl) reached 17
