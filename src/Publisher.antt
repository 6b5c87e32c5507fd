-- ===== src/Publisher.antt =====
-- control_data_publisher.hpp and control_data_publisher.cpp: the tick of the publisher. The clock, in
-- nanoseconds, and the shared state are inputs of each tick, since other threads write the state
-- between the ticks; what the tick passes to the sink is its output.
pub mod Wire
pub mod Punctual
use pi5_system_surrogate.Prelude.{ℕ, List, [], ◌∷◌, ◌++◌}
use pi5_system_surrogate.Prelude.Int.{ℤ, ◌-ℤ◌, quot}
use pi5_system_surrogate.ControlData.{PbEncode, control_data_max_bytes, encode_control_data}
use pi5_system_surrogate.DaemonState.{DaemonState, snapshot_control}
use pi5_system_surrogate.Cadence.{CadenceTracker, new_tracker, record_interval_us}

-- The tracker, and the `last` that `run` keeps.
pub record ControlDataPublisher : Type 0 where
  pub cadence : CadenceTracker
  pub last : ℤ

-- What one tick finds.
pub record Moment : Type 0 where
  pub now : ℤ
  pub state : DaemonState

-- The publisher as `run` begins.
unfoldable pub control_data_publisher : ℤ → ControlDataPublisher
control_data_publisher now = record { cadence = new_tracker; last = now }

-- `if (n == 0) return;`, and the call of the sink.
abbrev pub to_sink : List ℕ → List (List ℕ)
to_sink [] = []
to_sink (b ∷ bs) = (b ∷ bs) ∷ []

-- `duration_cast` of the time since the last tick.
abbrev pub interval_us : ℤ → ℤ → ℤ
interval_us now last = quot (now -ℤ last) 1000

module _ (pb_encode : PbEncode) where
  unfoldable pub tick : Moment → ControlDataPublisher → ControlDataPublisher × List (List ℕ)
  tick m p = (
    record { cadence = record_interval_us (interval_us m.now p.last) p.cadence; last = m.now },
    to_sink (encode_control_data pb_encode (snapshot_control m.state) control_data_max_bytes),
  )

  -- The ticks in a row, and all that went to the sink.
  unfoldable pub run : List Moment → ControlDataPublisher → ControlDataPublisher × List (List ℕ)
  run [] p = (p, [])
  run (m ∷ ms) p = let (p1, sent) = tick m p in let (p2, more) = run ms p1 in (p2, sent ++ more)
