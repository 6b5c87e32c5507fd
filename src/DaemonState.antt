-- ===== src/DaemonState.antt =====
-- daemon_state.hpp and daemon_state.cpp: the state that every part shares. Each method holds the
-- mutex throughout, so it is one step.
use pi5_system_surrogate.Prelude.{Bool, true, false}
use pi5_system_surrogate.Prelude.Int.{ℤ, pos}
use pi5_system_surrogate.ControlData.{RobotMode, unknown, ControlDataView}

pub record DaemonState : Type 0 where
  pub enabled : Bool
  pub mode : RobotMode
  pub alliance : ℤ
  pub e_stop : Bool
  pub match_time_s : ℤ

-- A default-constructed state.
unfoldable pub fresh : DaemonState
fresh = record {
  enabled = false;
  mode = unknown;
  alliance = pos 0;
  e_stop = false;
  match_time_s = pos 0;
}

unfoldable pub set_enabled : Bool → DaemonState → DaemonState
set_enabled v s = record s { enabled = v }

unfoldable pub set_mode : RobotMode → DaemonState → DaemonState
set_mode m s = record s { mode = m }

unfoldable pub set_alliance : ℤ → DaemonState → DaemonState
set_alliance a s = record s { alliance = a }

unfoldable pub set_e_stop : Bool → DaemonState → DaemonState
set_e_stop v s = record s { e_stop = v }

unfoldable pub set_match_time : ℤ → DaemonState → DaemonState
set_match_time t s = record s { match_time_s = t }

unfoldable pub snapshot_control : DaemonState → ControlDataView
snapshot_control s = record {
  enabled = s.enabled;
  ds_connected = true;
  fms_connected = false;
  e_stop = s.e_stop;
  supports_opmodes = false;
  mode = s.mode;
  alliance = s.alliance;
  match_time_s = s.match_time_s;
}
