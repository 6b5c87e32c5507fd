-- ===== src/Match/Countdown.antt =====
-- The match time that each call of the controller leaves published.
use pi5_system_surrogate.Prelude.{◌≡◌, refl, false, arith}
use pi5_system_surrogate.Prelude.Int.{ℤ, pos, ◌≤ℤ◌}
use pi5_system_surrogate.Match.{MatchController, is_resting, stop_match}
use pi5_system_surrogate.Match.Phases.{Call, starts, stops, skips, ticks_at, perform}
use pi5_system_surrogate.Match.Time.{
  Fits, Countdown, tick-Countdown, start_match-Countdown, skip_to_teleop-Countdown,
}

-- The clock of a call. A stop reads no clock, and any time will do.
abbrev pub clock_of : Call → ℤ
clock_of (starts now) = now
clock_of stops = pos 0
clock_of (skips now) = now
clock_of (ticks_at now) = now

-- A tick finds a match running whose phase has begun.
abbrev pub InTime : Call → MatchController → Type 0
InTime (ticks_at now) c = (c.phase_start ≤ℤ now) × (is_resting c.phase ≡ false)
InTime k c = Unit {0}

stop_match-Countdown : (c : MatchController) → Countdown (pos 0) (stop_match c)
unfolding stop_match
stop_match-Countdown c = record {
  seconds = 0;
  shown = refl;
  enough = omega arith;
  least = omega arith;
}

-- Every call of the controller leaves published the seconds left in the phase that it leaves the
-- controller in, rounded up, zero in a phase without a clock, for durations of at most 2147483647
-- seconds, where a tick finds a match running whose phase has begun.
pub perform-Countdown :
    (k : Call) (c : MatchController)
    → Fits c.durations
    → InTime k c
    → Countdown (clock_of k) (perform k c)
unfolding perform
perform-Countdown (starts now) c f h = start_match-Countdown now c f
perform-Countdown stops c f h = stop_match-Countdown c
perform-Countdown (skips now) c f h = skip_to_teleop-Countdown now c f
perform-Countdown (ticks_at now) c f (begun, running) = tick-Countdown now c f begun running
