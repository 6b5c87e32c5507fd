-- ===== src/Diagnostics.antt =====
-- diagnostics_publisher.hpp and diagnostics_publisher.cpp: what the diagnostics publish each second.
-- The clock is an input of each tick. The percentiles are whole microseconds, the time since the
-- start is in nanoseconds.
pub mod Heartbeat
use pi5_system_surrogate.Prelude.{List, [], ◌∷◌}
use pi5_system_surrogate.Prelude.Int.{ℤ, pos, ◌+ℤ◌, ◌-ℤ◌, to_int64}
use pi5_system_surrogate.Cadence.{CadenceTracker, record_interval_us, p50_us, p99_us}

-- The fields; the tracker that `cadence_` refers to is kept beside them.
pub record DiagnosticsPublisher : Type 0 where
  pub start_time : ℤ
  pub heartbeat : ℤ

unfoldable pub diagnostics_publisher : ℤ → DiagnosticsPublisher
diagnostics_publisher now = record { start_time = now; heartbeat = pos 0 }

-- What a tick sets on the four topics.
pub record Report : Type 0 where
  pub heartbeat : ℤ
  pub p99 : ℤ
  pub p50 : ℤ
  pub uptime : ℤ

-- `fetch_add` wraps around. So does the sum that is set, here, where its overflow has no meaning in
-- C++.
unfoldable pub tick :
    ℤ → DiagnosticsPublisher → CadenceTracker → Report × DiagnosticsPublisher × CadenceTracker
tick now d t =
    let (p99, t1) = p99_us t in
    let (p50, t2) = p50_us t1 in
    (
      record {
        heartbeat = to_int64 (d.heartbeat +ℤ pos 1);
        p99 = p99;
        p50 = p50;
        uptime = now -ℤ d.start_time;
      },
      record d { heartbeat = to_int64 (d.heartbeat +ℤ pos 1) },
      t2,
    )

-- The intervals that the publisher records before a tick, and the clock at the tick.
pub record Second : Type 0 where
  pub recorded : List ℤ
  pub now : ℤ

unfoldable pub record_all : List ℤ → CadenceTracker → CadenceTracker
record_all [] t = t
record_all (us ∷ rest) t = record_all rest (record_interval_us us t)

-- Ticks in a row.
unfoldable pub run : List Second → DiagnosticsPublisher → CadenceTracker → List Report
unfolding tick record_all
run [] d t = []
run (s ∷ later) d t =
    let (report, d', t') = tick s.now d (record_all s.recorded t) in report ∷ run later d' t'
