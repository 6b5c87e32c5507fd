-- ===== src/Match/Time.antt =====
-- The match time that the controller publishes: the seconds left in a playing phase, rounded up.
use pi5_system_surrogate.Prelude.{
  ℕ, ◌+◌, ◌*◌, ◌/◌, ◌^◌, ◌≤◌, ◌<◌, false, Bool-cases, ◌≡◌, inl, inr, arith, if◌then◌else◌,
}
use pi5_system_surrogate.Prelude.Int.{
  eq_of_parts, int_laws, parts_apart, ℤ, pos, negsuc, pos_part, ◌+ℤ◌, ◌-ℤ◌, ◌·ℤ◌, ◌≤ℤ◌, quot,
  to_int32_fits,
}
use pi5_system_surrogate.Match.Steps.{tick_cases, advance, advance-durations, advance-phase_start}
use pi5_system_surrogate.Match.{
  auto, teleop, MatchDurations, MatchController, ms_to_ns, duration_for, apply_phase, ceil_seconds,
  is_timed, is_resting, at_least_zero, match_seconds, publish_match_time, start_match,
  skip_to_teleop, tick,
}

-- Rounding up, on a span that is not negative.
ceil_seconds_pos : (n : ℕ) → ceil_seconds (pos n) ≡ pos ((n + 999999999) / 1000000000)
unfolding ceil_seconds quot ◌·ℤ◌ ◌+ℤ◌
ceil_seconds_pos n = ground arith

-- The time left in a playing phase, in nanoseconds: what its end is ahead of `now`, and nothing
-- when the end has passed or in another phase.
abbrev pub phase_end : MatchController → ℤ
phase_end c = c.phase_start +ℤ ms_to_ns (duration_for c.durations c.phase)

abbrev pub time_left : ℤ → MatchController → ℕ
time_left now c = if is_timed c.phase then pos_part (phase_end c -ℤ now) else 0

-- The durations of the playing phases, counted in seconds, fit an int32_t.
pub record Fits (d : MatchDurations) : Type 0 where
  pub auto_period : d.auto_period ≤ℤ pos 2147483647000
  pub teleop_period : d.teleop_period ≤ℤ pos 2147483647000

-- The published number of seconds is the time left, rounded up to whole seconds.
pub record Countdown (now : ℤ) (c : MatchController) : Type 0 where
  pub seconds : ℕ
  pub shown : c.state.match_time_s ≡ pos seconds
  pub enough : time_left now c ≤ seconds * 1000000000
  pub least : seconds * 1000000000 < time_left now c + 1000000000

pub at_least_zero_lem : (d : ℤ) → at_least_zero d ≡ pos (pos_part d)
unfolding at_least_zero
at_least_zero_lem (pos n) = ground arith
at_least_zero_lem (negsuc n) = ground arith

regroup : (d now s : ℤ) → d -ℤ (now -ℤ s) ≡ s +ℤ d -ℤ now
regroup d now s = eq_of_parts _ _ (omega int_laws)

left_is :
    (now : ℤ) (c : MatchController)
    → at_least_zero (ms_to_ns (duration_for c.durations c.phase) -ℤ (now -ℤ c.phase_start))
      ≡ pos (pos_part (phase_end c -ℤ now))
left_is now c = rw (at_least_zero_lem, regroup)

-- What the controller computes, for a time left that fits.
seconds_of : ℕ → ℕ
seconds_of left = (left + 999999999) / 1000000000

seconds_of-fits : (n : ℕ) → n ≤ 2147483647000000000 → (n + 999999999) / 1000000000 < 2 ^ 31
seconds_of-fits n h = omega arith

match_seconds-eq :
    (now : ℤ) (c : MatchController)
    → time_left now c ≤ 2147483647000000000
    → match_seconds now c ≡ pos (seconds_of (time_left now c))
unfolding match_seconds seconds_of
match_seconds-eq now c h = elim (Bool-cases (is_timed c.phase)) [
  | inl timed ↦
      rw (timed, left_is, ceil_seconds_pos) (to_int32_fits _ (seconds_of-fits _ (rw timed at h)))
  | inr rests ↦ rw rests
]

span-fits :
    (d s now : ℤ)
    → d ≤ℤ pos 2147483647000
    → s ≤ℤ now
    → pos_part (s +ℤ ms_to_ns d -ℤ now) ≤ 2147483647000000000
span-fits d s now h k =
    omega (int_laws, parts_apart (s +ℤ ms_to_ns d -ℤ now), parts_apart (ms_to_ns d))

left-Fits :
    (now : ℤ) (c : MatchController)
    → Fits c.durations
    → c.phase_start ≤ℤ now
    → time_left now c ≤ 2147483647000000000
unfolding duration_for
left-Fits now c f h = ground (
  arith,
  span-fits c.durations.auto_period c.phase_start now,
  span-fits c.durations.teleop_period c.phase_start now,
)

-- Publishing shows the time left.
publish-Countdown :
    (now : ℤ) (c : MatchController)
    → Fits c.durations
    → c.phase_start ≤ℤ now
    → Countdown now (publish_match_time now c)
unfolding publish_match_time seconds_of
publish-Countdown now c f h = record {
  seconds = seconds_of (time_left now c);
  shown = match_seconds-eq now c (left-Fits now c f h);
  enough = omega arith;
  least = omega arith;
}

-- While a match runs, a tick publishes the seconds left in the phase that it leaves the controller
-- in, rounded up, for durations of at most 2147483647 seconds and a clock not behind the phase's
-- start.
pub tick-Countdown :
    (now : ℤ) (c : MatchController)
    → Fits c.durations
    → c.phase_start ≤ℤ now
    → is_resting c.phase ≡ false
    → Countdown now (tick now c)
unfolding apply_phase
tick-Countdown now c f h r =
    tick_cases (Countdown now) now c (λ rests. cc)
      (λ _ _. publish-Countdown now (apply_phase c.phase c) f h)
      (λ _ passed.
        publish-Countdown now (advance c) (rw advance-durations f) (rw advance-phase_start passed))

-- Starting a match publishes the seconds left in the autonomous period, rounded up, for durations
-- of at most 2147483647 seconds.
pub start_match-Countdown :
    (now : ℤ) (c : MatchController) → Fits c.durations → Countdown now (start_match now c)
unfolding start_match
start_match-Countdown now c f =
    publish-Countdown now (apply_phase auto (record c { match_start = now; phase_start = now })) f
      (omega arith)

-- Skipping to teleop publishes the seconds left in it, rounded up, for durations of at most
-- 2147483647 seconds.
pub skip_to_teleop-Countdown :
    (now : ℤ) (c : MatchController) → Fits c.durations → Countdown now (skip_to_teleop now c)
unfolding skip_to_teleop
skip_to_teleop-Countdown now c f =
    publish-Countdown now
      (apply_phase teleop (record c {
        match_start =
            now -ℤ ms_to_ns c.durations.auto_period -ℤ ms_to_ns c.durations.auto_teleop_gap;
        phase_start = now;
      }))
      f (omega arith)
