-- ===== src/Tests/Crash.antt =====
-- A tick of the bridge that throws, on a chip without one of the daemon's lines.
use pi5_system_surrogate.Prelude.{ℕ, ◌≡◌, refl, ltb, if◌then◌else◌, none, some, [], ◌∷◌, false}
use pi5_system_surrogate.Prelude.Int.{pos, to_int32}
use pi5_system_surrogate.Gpio.{GpioBackend, LineUse, free, output, threw, IsFaithful}
use pi5_system_surrogate.Gpio.Libgpiod.{
  Gpiod, LibgpiodBackend, libgpiod_backend, request_output, claim, release_line, holds,
}
use pi5_system_surrogate.Gpio.LibgpiodLaws.{IsGpiod, line_use, libgpiod_backend-IsFaithful}
use pi5_system_surrogate.SmartIo.{
  new_channel, requested_mode, request_mode, release_if_held, change_mode, on_type_changed,
}
use pi5_system_surrogate.SmartIo.Bridge.{
  sentinel, Topics, new_glue, new_bridge, dispatch_type, dispatch_valset, publish_input,
  tick_channel, tick,
}
use pi5_system_surrogate.Daemon.{pin_map}
use pi5_system_surrogate.Daemon.Lines.{board, wired, Unused}
use pi5_system_surrogate.Daemon.Crash.{bridge_tick, Ends, Fails-Ends}
use pi5_system_surrogate.Tests.Chip.{chip, update, line, chip-IsGpiod, quiet_chip}

-- The lines below 27.
abbrev small : Gpiod (ℕ → LineUse)
small = record chip { get_line = λ gpio h. if ltb gpio 27 then some tt else none }

small-IsGpiod : IsGpiod small line
small-IsGpiod = record {
  in_turns = chip-IsGpiod.in_turns;
  out_turns = chip-IsGpiod.out_turns;
  release_turns = chip-IsGpiod.release_turns;
  set_turns = chip-IsGpiod.set_turns;
}

abbrev pins : GpioBackend (LibgpiodBackend (ℕ → LineUse))
pins = libgpiod_backend small

abbrev uses : LibgpiodBackend (ℕ → LineUse) → ℕ → LineUse
uses = line_use small line small-IsGpiod

pins-IsFaithful : IsFaithful pins uses
pins-IsFaithful = libgpiod_backend-IsFaithful small line small-IsGpiod

-- Every channel is asked for as an output; the second has no line.
abbrev topics : Topics
topics = record { type_of = λ _. pos 1; valset_of = λ _. sentinel }

abbrev half : LibgpiodBackend (ℕ → LineUse)
half = record { chip = update (λ _. free) 17 (output false); lines = 17 ∷ [] }

tick_run : tick pins topics (new_bridge pin_map) quiet_chip ≡ threw half
unfolding pin_map new_bridge new_glue new_channel tick tick_channel dispatch_type dispatch_valset
    publish_input on_type_changed change_mode requested_mode request_mode release_if_held
    libgpiod_backend request_output claim release_line holds to_int32
tick_run = refl

quiet_chip-Unused : Unused pins uses pins-IsFaithful quiet_chip
unfolding holds
quiet_chip-Unused = record {
  line17 = refl;
  line27 = refl;
  line22 = refl;
  line23 = refl;
  line26 = refl;
}

Fails-Ends_example : Ends pins uses pins-IsFaithful quiet_chip none half
Fails-Ends_example =
    Fails-Ends pins uses pins-IsFaithful quiet_chip {b = board quiet_chip (new_bridge pin_map) none}
      quiet_chip-Unused wired (bridge_tick topics tick_run)
