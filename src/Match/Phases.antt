-- ===== src/Match/Phases.antt =====
-- What the operations of the match controller do to the phase and to the shared state.
use pi5_system_surrogate.Prelude.{false, ◌≡◌, ◌⊎◌, arith}
use pi5_system_surrogate.Prelude.Int.{ℤ}
use pi5_system_surrogate.ControlData.{RobotMode}
use pi5_system_surrogate.Match.{
  MatchPhase, auto, auto_teleop_gap, teleop, match_ended, MatchController, start_match, stop_match,
  skip_to_teleop, tick, is_timed, is_resting,
}

-- The calls of the controller, the ticks of its own thread among them.
pub data Call : Type 0 where
  starts : ℤ → Call
  stops : Call
  skips : ℤ → Call
  ticks_at : ℤ → Call

unfoldable pub perform : Call → MatchController → MatchController
unfolding start_match stop_match skip_to_teleop tick
perform (starts now) c = start_match now c
perform stops c = stop_match c
perform (skips now) c = skip_to_teleop now c
perform (ticks_at now) c = tick now c

-- The mode of the robot that a phase stands for.
abbrev pub mode_of : MatchPhase → RobotMode
mode_of auto = RobotMode.auto
mode_of teleop = RobotMode.teleop
mode_of _ = RobotMode.unknown

-- The shared state shows the phase: the robot is enabled in the two playing phases and in no
-- other, and is in the phase's mode.
pub record Agrees (c : MatchController) : Type 0 where
  pub enabled : c.state.enabled ≡ is_timed c.phase
  pub mode : c.state.mode ≡ mode_of c.phase

-- A tick that finds a match running leaves the robot enabled exactly in the playing phases, and in
-- the phase's mode, whatever other threads have written to the shared state.
pub tick-Agrees : (now : ℤ) (c : MatchController) → is_resting c.phase ≡ false → Agrees (tick now c)
unfolding tick
tick-Agrees now c h = ground arith

pub tick-keeps-Agrees : (now : ℤ) (c : MatchController) → Agrees c → Agrees (tick now c)
unfolding tick
tick-keeps-Agrees now c h = ground arith

-- Every call of the controller keeps the agreement of the enable bit and the mode with the phase.
pub perform-Agrees : (k : Call) (c : MatchController) → Agrees c → Agrees (perform k c)
unfolding perform
perform-Agrees (starts now) c h = ground arith
perform-Agrees k c h = ground arith

-- Starting a match brings the agreement about.
pub start_match-Agrees : (now : ℤ) (c : MatchController) → Agrees (start_match now c)
unfolding start_match
start_match-Agrees now c = ground arith

-- A tick moves the phase along this diagram, or leaves it.
pub data Follows : MatchPhase → MatchPhase → Type 0 where
  auto_ends : Follows auto auto_teleop_gap
  gap_ends : Follows auto_teleop_gap teleop
  teleop_ends : Follows teleop match_ended

-- A tick leaves the phase as it is or moves it one step along auto, gap, teleop, ended.
pub tick-Follows :
    (now : ℤ) (c : MatchController)
    → ((tick now c).phase ≡ c.phase) ⊎ Follows c.phase (tick now c).phase
unfolding tick
tick-Follows now c = grind (arith, auto_ends, gap_ends, teleop_ends)

-- No call touches the emergency stop, the alliance or the durations.
pub record Untouched (c d : MatchController) : Type 0 where
  pub e_stop : d.state.e_stop ≡ c.state.e_stop
  pub alliance : d.state.alliance ≡ c.state.alliance
  pub durations : d.durations ≡ c.durations

-- No call of the controller touches the emergency stop, the alliance or the durations.
pub perform-Untouched : (k : Call) (c : MatchController) → Untouched c (perform k c)
unfolding perform
perform-Untouched (starts now) c = ground arith
perform-Untouched k c = ground arith
