-- ===== src/Tests/Light.antt =====
-- The signal light at concrete inputs.
use pi5_system_surrogate.Prelude.{ℕ, ◌≡◌, refl, true, false, [], ◌∷◌, ◌++◌}
use pi5_system_surrogate.Prelude.Int.{pos, quot}
use pi5_system_surrogate.Gpio.{done, ◌>>=◌, LineUse, free, output, Turns}
use pi5_system_surrogate.Gpio.Libgpiod.{
  LibgpiodBackend, libgpiod_backend, request_output, claim, release_line, holds, set_value,
}
use pi5_system_surrogate.Tests.Chip.{update, quiet_chip, pins, uses, pins-IsFaithful}
use pi5_system_surrogate.Rsl
use pi5_system_surrogate.Rsl.{desired_level}
use pi5_system_surrogate.Rsl.Light.{light-Lit}

-- The light on line 27: disabled, then enabled in the second half of a second.
abbrev reading : Rsl.Reading
reading = record { enabled = true; elapsed = pos 700 }

abbrev lit_chip : LibgpiodBackend (ℕ → LineUse)
lit_chip = record {
  chip = update (update (λ _. free) 27 (output true)) 27 (output false);
  lines = 27 ∷ [];
}

light_run :
    (Rsl.start pins 27 quiet_chip >>= λ (l, s1). Rsl.run pins 27 ([] ++ reading ∷ []) l s1)
    ≡ done (false, lit_chip)
unfolding Rsl.start Rsl.run Rsl.tick desired_level quot libgpiod_backend request_output claim
    release_line holds set_value
light_run = refl

light-Lit_example :
    (false ≡ desired_level true (pos 700))
    × Turns uses 27 (output false) quiet_chip lit_chip
    × Turns uses 27 free quiet_chip (Rsl.stop pins 27 lit_chip)
light-Lit_example =
    light-Lit pins uses pins-IsFaithful 27 [] reading quiet_chip false lit_chip light_run
