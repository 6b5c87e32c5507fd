-- ===== src/Gamepad.antt =====
-- gamepad_ingest.hpp and gamepad_ingest.cpp: the control topics into the shared state. What a
-- subscriber returns is an input of the tick, and each write of the state is a step of its own.
pub mod Fields
pub mod Follow
use pi5_system_surrogate.Prelude.{Bool, true, false, not, ◌||◌, if◌then◌else◌}
use pi5_system_surrogate.Prelude.Int.{ℤ, pos, negsuc, eqb_ℤ, to_int32}
use pi5_system_surrogate.ControlData.{RobotMode, unknown, auto, teleop, test}
use pi5_system_surrogate.DaemonState.{DaemonState, set_enabled, set_mode, set_alliance, set_e_stop}

-- What `Get` of the four subscribers returns: false and 0 where nothing was published.
pub record Controls : Type 0 where
  pub enabled : Bool
  pub mode : ℤ
  pub alliance : ℤ
  pub e_stop : Bool

pub record GamepadIngest : Type 0 where
  pub last_enabled_seen : Bool
  pub last_estop_seen : Bool
  pub last_mode_seen : ℤ
  pub last_alliance_seen : ℤ
  pub first_tick : Bool

unfoldable pub gamepad_ingest : GamepadIngest
gamepad_ingest = record {
  last_enabled_seen = false;
  last_estop_seen = false;
  last_mode_seen = negsuc 9998;
  last_alliance_seen = negsuc 9998;
  first_tick = true;
}

unfoldable pub mode_from_int : ℤ → RobotMode
mode_from_int v =
    if eqb_ℤ v (pos 1)
    then auto
    else if eqb_ℤ v (pos 2)
    then teleop
    else if eqb_ℤ v (pos 3)
    then test
    else unknown

-- `a != b` on truth values.
abbrev pub differ : Bool → Bool → Bool
differ true b = not b
differ false b = b

-- The four `if`s of `tick`.
unfoldable pub ingest_enabled : Controls → GamepadIngest × DaemonState → GamepadIngest × DaemonState
ingest_enabled c (g, s) =
    if g.first_tick || differ c.enabled g.last_enabled_seen
    then (record g { last_enabled_seen = c.enabled }, set_enabled c.enabled s)
    else (g, s)

unfoldable pub ingest_mode : Controls → GamepadIngest × DaemonState → GamepadIngest × DaemonState
ingest_mode c (g, s) =
    if g.first_tick || not (eqb_ℤ c.mode g.last_mode_seen)
    then (record g { last_mode_seen = c.mode }, set_mode (mode_from_int c.mode) s)
    else (g, s)

unfoldable pub ingest_alliance :
    Controls → GamepadIngest × DaemonState → GamepadIngest × DaemonState
ingest_alliance c (g, s) =
    if g.first_tick || not (eqb_ℤ c.alliance g.last_alliance_seen)
    then (record g { last_alliance_seen = c.alliance }, set_alliance (to_int32 c.alliance) s)
    else (g, s)

unfoldable pub ingest_e_stop : Controls → GamepadIngest × DaemonState → GamepadIngest × DaemonState
ingest_e_stop c (g, s) =
    if g.first_tick || differ c.e_stop g.last_estop_seen
    then (record g { last_estop_seen = c.e_stop }, set_e_stop c.e_stop s)
    else (g, s)

-- `first_tick_ = false;`
abbrev pub ticked : GamepadIngest × DaemonState → GamepadIngest × DaemonState
ticked (g, s) = (record g { first_tick = false }, s)

-- `tick`, with no other writer between its steps.
unfoldable pub tick : Controls → GamepadIngest × DaemonState → GamepadIngest × DaemonState
tick c x = ticked (ingest_e_stop c (ingest_alliance c (ingest_mode c (ingest_enabled c x))))
