-- ===== src/Match.antt =====
-- match_controller.hpp and match_controller.cpp: the controller that drives the shared state through
-- the phases of a match. Each method holds the controller's mutex throughout, so it is one step;
-- `now` is the reading of the clock. Times are in nanoseconds, durations in milliseconds.
pub mod Phases
pub mod Steps
pub mod Time
pub mod Countdown
pub mod Schedule
pub mod CatchUp
pub mod Timetable
pub mod Clock
pub mod End
pub mod Show
use pi5_system_surrogate.Prelude.{ℕ, Bool, true, false, if◌then◌else◌, List, [], ◌∷◌}
use pi5_system_surrogate.Prelude.Int.{ℤ, pos, ◌+ℤ◌, ◌-ℤ◌, ◌·ℤ◌, quot, ltb_ℤ, to_int32}
use pi5_system_surrogate.ControlData.{RobotMode}
use pi5_system_surrogate.DaemonState.{DaemonState, set_enabled, set_mode, set_match_time}
use Prim.Native.String.{String}

pub data MatchPhase : Type 0 where
  idle auto auto_teleop_gap teleop match_ended : MatchPhase

unfoldable pub match_phase_name : MatchPhase → String
match_phase_name idle = "idle"
match_phase_name auto = "auto"
match_phase_name auto_teleop_gap = "auto_teleop_gap"
match_phase_name teleop = "teleop"
match_phase_name match_ended = "match_ended"

pub record MatchDurations : Type 0 where
  pub auto_period : ℤ
  pub auto_teleop_gap : ℤ
  pub teleop_period : ℤ

-- The default member initialisers.
abbrev pub default_durations : MatchDurations
default_durations = record {
  auto_period = pos 15000;
  auto_teleop_gap = pos 3000;
  teleop_period = pos 135000;
}

-- The fields of the object. `state` is the shared object that `state_` refers to: what other
-- threads write to it between two calls shows there.
pub record MatchController : Type 0 where
  pub state : DaemonState
  pub durations : MatchDurations
  pub phase : MatchPhase
  pub match_start : ℤ
  pub phase_start : ℤ

abbrev pub ns_per_ms : ℕ
ns_per_ms = 1000000

abbrev pub ns_per_s : ℕ
ns_per_s = 1000000000

-- The conversion of a duration to nanoseconds.
abbrev pub ms_to_ns : ℤ → ℤ
ms_to_ns d = d ·ℤ ns_per_ms

unfoldable pub match_controller : DaemonState → MatchDurations → MatchController
match_controller s d = record {
  state = s;
  durations = d;
  phase = idle;
  match_start = pos 0;
  phase_start = pos 0;
}

unfoldable pub duration_for : MatchDurations → MatchPhase → ℤ
duration_for d auto = d.auto_period
duration_for d auto_teleop_gap = d.auto_teleop_gap
duration_for d teleop = d.teleop_period
duration_for d idle = pos 0
duration_for d match_ended = pos 0

-- The writes to the shared state, by phase.
unfoldable pub phase_writes : MatchPhase → DaemonState → DaemonState
unfolding set_enabled set_mode
phase_writes auto s = set_mode RobotMode.auto (set_enabled true s)
phase_writes teleop s = set_mode RobotMode.teleop (set_enabled true s)
phase_writes idle s = set_mode RobotMode.unknown (set_enabled false s)
phase_writes auto_teleop_gap s = set_mode RobotMode.unknown (set_enabled false s)
phase_writes match_ended s = set_mode RobotMode.unknown (set_enabled false s)

unfoldable pub apply_phase : MatchPhase → MatchController → MatchController
unfolding phase_writes
apply_phase p c = record c { state = phase_writes p c.state; phase = p }

-- `std::chrono::ceil<std::chrono::seconds>` of nanoseconds.
unfoldable pub ceil_seconds : ℤ → ℤ
ceil_seconds d = let t = quot d ns_per_s in if ltb_ℤ (t ·ℤ ns_per_s) d then t +ℤ pos 1 else t

-- `phase_ == MatchPhase::Auto || phase_ == MatchPhase::Teleop`
abbrev pub is_timed : MatchPhase → Bool
is_timed auto = true
is_timed teleop = true
is_timed _ = false

-- `if (d < 0) d = 0;`
unfoldable pub at_least_zero : ℤ → ℤ
at_least_zero d = if ltb_ℤ d (pos 0) then pos 0 else d

unfoldable pub match_seconds : ℤ → MatchController → ℤ
match_seconds now c =
    if is_timed c.phase
    then to_int32 (
        ceil_seconds
          (at_least_zero (ms_to_ns (duration_for c.durations c.phase) -ℤ (now -ℤ c.phase_start))))
    else pos 0

unfoldable pub publish_match_time : ℤ → MatchController → MatchController
unfolding match_seconds set_match_time
publish_match_time now c = record c { state = set_match_time (match_seconds now c) c.state }

unfoldable pub start_match : ℤ → MatchController → MatchController
unfolding apply_phase publish_match_time
start_match now c =
    publish_match_time now (apply_phase auto (record c { match_start = now; phase_start = now }))

unfoldable pub stop_match : MatchController → MatchController
unfolding apply_phase set_match_time
stop_match c =
    let c' = record (apply_phase idle c) { match_start = pos 0; phase_start = pos 0 } in
    record c' { state = set_match_time (pos 0) c'.state }

unfoldable pub skip_to_teleop : ℤ → MatchController → MatchController
unfolding apply_phase publish_match_time
skip_to_teleop now c = publish_match_time now (
    apply_phase teleop (record c {
      match_start = now -ℤ ms_to_ns c.durations.auto_period -ℤ ms_to_ns c.durations.auto_teleop_gap;
      phase_start = now;
    }))

-- The second `switch` of `tick`.
unfoldable pub next_phase : MatchPhase → MatchController → MatchController
unfolding apply_phase
next_phase auto c = apply_phase auto_teleop_gap c
next_phase auto_teleop_gap c = apply_phase teleop c
next_phase teleop c = apply_phase match_ended c
next_phase idle c = c
next_phase match_ended c = c

-- `phase_ == MatchPhase::Idle || phase_ == MatchPhase::MatchEnded`
abbrev pub is_resting : MatchPhase → Bool
is_resting idle = true
is_resting match_ended = true
is_resting _ = false

unfoldable pub tick : ℤ → MatchController → MatchController
unfolding apply_phase publish_match_time next_phase
tick now c =
    let elapsed = now -ℤ c.phase_start in
    let duration = ms_to_ns (duration_for c.durations c.phase) in
    if is_resting c.phase
    then c
    else if ltb_ℤ elapsed duration
    then publish_match_time now (apply_phase c.phase c)
    else publish_match_time now
        (next_phase c.phase (record c { phase_start = c.phase_start +ℤ duration }))

pub record Snapshot : Type 0 where
  pub phase : MatchPhase
  pub elapsed_in_phase : ℤ
  pub total_elapsed : ℤ
  pub remaining_in_phase : ℤ

-- `duration_cast` from nanoseconds to milliseconds.
abbrev pub to_ms : ℤ → ℤ
to_ms d = quot d ns_per_ms

abbrev pub is_idle : MatchPhase → Bool
is_idle idle = true
is_idle _ = false

unfoldable pub snapshot : ℤ → MatchController → Snapshot
snapshot now c =
    if is_idle c.phase
    then record {
      phase = c.phase;
      elapsed_in_phase = pos 0;
      total_elapsed = pos 0;
      remaining_in_phase = pos 0;
    }
    else record {
      phase = c.phase;
      elapsed_in_phase = elapsed;
      total_elapsed = to_ms (now -ℤ c.match_start);
      remaining_in_phase = at_least_zero (duration_for c.durations c.phase -ℤ elapsed);
    }
  where
    elapsed : ℤ
    elapsed = to_ms (now -ℤ c.phase_start)

-- Ticks at the given times, in order.
unfoldable pub ticks : List ℤ → MatchController → MatchController
ticks [] c = c
ticks (now ∷ times) c = ticks times (tick now c)
