-- ===== src/Tests/Match.antt =====
-- The match controller at concrete inputs.
use pi5_system_surrogate.Prelude.{
  ℕ, suc, ◌*◌, ◌≡◌, refl, ◌≢◌, false, true, List, [], ◌∷◌, replicate, arith,
}
use pi5_system_surrogate.Prelude.Int.{ℤ, pos, ◌-ℤ◌, ◌+ℤ◌, ◌·ℤ◌}
use pi5_system_surrogate.ControlData.{RobotMode}
use pi5_system_surrogate.DaemonState.{fresh}
use pi5_system_surrogate.Match.{
  idle, auto, auto_teleop_gap, match_ended, default_durations, MatchController, tick, ticks,
  match_phase_name,
}
use pi5_system_surrogate.Match.Phases.{Agrees, perform, ticks_at, tick-Agrees}
use pi5_system_surrogate.Match.Countdown.{perform-Countdown}
use pi5_system_surrogate.Match.Time.{Fits, Countdown}
use pi5_system_surrogate.Match.Schedule.{offset, IsAligned, IsNonNeg, phase_at}
use pi5_system_surrogate.Match.CatchUp.{to_come, InMatch, ticks_catch_up}
use pi5_system_surrogate.Match.End.{match_length, AllFrom, ticks_end}

-- Ten seconds into the autonomous period, the robot enabled in it.
abbrev playing : MatchController
playing = record {
  state = record fresh { enabled = true; mode = RobotMode.auto; match_time_s = pos 15 };
  durations = default_durations;
  phase = auto;
  match_start = pos 0;
  phase_start = pos 0;
}

abbrev seconds : ℕ → ℤ
seconds n = pos (n * 1000000000)

playing-Agrees : Agrees playing
playing-Agrees = record { enabled = refl; mode = refl }

playing-IsAligned : IsAligned playing
unfolding offset ◌+ℤ◌
playing-IsAligned = refl

durations-IsNonNeg : IsNonNeg default_durations
durations-IsNonNeg = record {
  auto_period = omega arith;
  auto_teleop_gap = omega arith;
  teleop_period = omega arith;
}

durations-Fits : Fits default_durations
durations-Fits = record { auto_period = omega arith; teleop_period = omega arith }

auto-begun : auto ≢ idle
auto-begun q = cc

playing-InMatch : (n : ℕ) → InMatch (pos n) playing
playing-InMatch n = record {
  aligned = playing-IsAligned;
  begun = auto-begun;
  started = omega arith;
  durations = durations-IsNonNeg;
}

ticks_catch_up_example :
    (ticks (replicate 3 (seconds 40)) playing).phase
    ≡ phase_at default_durations (seconds 40 -ℤ pos 0)
ticks_catch_up_example =
    ticks_catch_up (seconds 40) 3 playing (playing-InMatch 40000000000) (omega arith)

tick-Agrees_example : Agrees (tick (seconds 20) playing)
tick-Agrees_example = tick-Agrees (seconds 20) playing refl

perform-Countdown_example : Countdown (seconds 10) (perform (ticks_at (seconds 10)) playing)
perform-Countdown_example =
    perform-Countdown (ticks_at (seconds 10)) playing durations-Fits (omega arith, refl)

abbrev late_ticks : List ℤ
late_ticks = seconds 160 ∷ seconds 161 ∷ seconds 170 ∷ []

late : AllFrom (pos 0 +ℤ match_length default_durations) late_ticks
unfolding ◌+ℤ◌ ◌·ℤ◌
late = (omega arith, (omega arith, (omega arith, tt)))

ticks_end_example :
    ((ticks late_ticks playing).phase ≡ match_ended)
    × ((ticks late_ticks playing).state.enabled ≡ false)
    × ((ticks late_ticks playing).state.mode ≡ RobotMode.unknown)
ticks_end_example =
    ticks_end late_ticks playing playing-IsAligned playing-Agrees auto-begun durations-IsNonNeg late
      (omega arith)

in_gap : suc (to_come (phase_at default_durations (seconds 16 -ℤ pos 0))) ≡ 3
unfolding phase_at ◌-ℤ◌ ◌+ℤ◌ ◌·ℤ◌
in_gap = refl

names : match_phase_name auto_teleop_gap ≡ "auto_teleop_gap"
unfolding match_phase_name
names = refl
