-- ===== src/Rsl.antt =====
-- rsl_blinker.hpp and rsl_blinker.cpp: the robot signal light, over any backend. The clock, as the
-- milliseconds since the start, and the state's `enabled` are inputs of each tick.
pub mod Blink
pub mod Light
use pi5_system_surrogate.Prelude.{ℕ, bit_and, Bool, true, not, if◌then◌else◌, ◌==◌, List, [], ◌∷◌}
use pi5_system_surrogate.Prelude.Int.{ℤ, to_word, quot}
use pi5_system_surrogate.Gpio.{Outcome, done, ◌>>=◌, GpioBackend}

-- kBlinkHalfPeriod, in milliseconds.
abbrev pub blink_half_period : ℕ
blink_half_period = 500

-- `(whole_periods & 1) == 0` is taken on the 64 bits of the count.
unfoldable pub desired_level : Bool → ℤ → Bool
desired_level enabled elapsed =
    if enabled then bit_and (to_word 64 (quot elapsed blink_half_period)) 1 == 0 else true

-- What a tick reads.
pub record Reading : Type 0 where
  pub enabled : Bool
  pub elapsed : ℤ

-- `a != b` on truth values.
abbrev pub differ : Bool → Bool → Bool
differ true b = not b
differ _ b = b

module _ {B : Type 0} (g : GpioBackend B) (gpio : ℕ) where
  -- `start`, with the `last` that `run` begins with.
  unfoldable pub start : B → Outcome B (Bool × B)
  start s = g.request_output gpio true s >>= λ s'. done (true, s')

  -- The tick that `run` repeats: `last` is the level last driven.
  unfoldable pub tick : Reading → Bool → B → Outcome B (Bool × B)
  tick r last s =
      let want = desired_level r.enabled r.elapsed in
      if differ want last
      then (g.set_value gpio want s >>= λ s'. done (want, s'))
      else done (last, s)

  -- Ticks in a row.
  unfoldable pub run : List Reading → Bool → B → Outcome B (Bool × B)
  run [] last s = done (last, s)
  run (r ∷ rs) last s = tick r last s >>= λ (last', s'). run rs last' s'

  -- `stop`, once the thread has ended.
  unfoldable pub stop : B → B
  stop s = g.release_line gpio s
