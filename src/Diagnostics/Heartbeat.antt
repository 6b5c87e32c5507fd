-- ===== src/Diagnostics/Heartbeat.antt =====
-- The reports against the history of the tracker's intervals.
use mathlib.Core.List.{append-nil, append_assoc}
use pi5_system_surrogate.Prelude.{
  ℕ, ◌+◌, ◌^◌, ◌<◌, ◌≡◌, refl, ap, List, [], ◌∷◌, ◌++◌, length, length-append, arith,
}
use pi5_system_surrogate.Prelude.Int.{ℤ, pos, ◌+ℤ◌, ◌-ℤ◌, to_int64}
use pi5_system_surrogate.Cadence.{CadenceTracker, record_interval_us, percentile_us, p50_us, p99_us}
use pi5_system_surrogate.Cadence.History.{Tracks, record-Tracks}
use pi5_system_surrogate.Cadence.Percentile.{
  percentile_of, percentile_us-Tracks, percentile_us-recent,
}
use pi5_system_surrogate.Diagnostics.{DiagnosticsPublisher, Report, tick, Second, record_all, run}

-- Reports that count from `n`, of a history that grows.
unfoldable pub reports : ℤ → ℤ → List ℤ → List Second → List Report
reports start_time n h [] = []
reports start_time n h (s ∷ later) =
    let h' = h ++ s.recorded in
    record {
      heartbeat = to_int64 (n +ℤ pos 1);
      p99 = percentile_of 99 h';
      p50 = percentile_of 50 h';
      uptime = s.now -ℤ start_time;
    }
    ∷ reports start_time (to_int64 (n +ℤ pos 1)) h' later

-- How many intervals are recorded in all.
abbrev pub recorded_in : List Second → ℕ
recorded_in [] = 0
recorded_in (s ∷ later) = length s.recorded + recorded_in later

record_all-Tracks :
    (xs h : List ℤ) (t : CadenceTracker)
    → Tracks h t
    → length h + length xs < 2 ^ 64
    → Tracks (h ++ xs) (record_all xs t)
unfolding record_all
record_all-Tracks [] h t k small = rw append-nil k
record_all-Tracks (x ∷ xs) h t k small = rw (← append_assoc h (x ∷ []) xs) (
    record_all-Tracks xs (h ++ x ∷ []) (record_interval_us x t)
      (record-Tracks x h t (omega arith) k) (omega (arith, length-append h (x ∷ []))))

-- The reports of the diagnostics count on from the last heartbeat and carry the percentiles of the
-- last 1024 intervals recorded so far, of all where there are fewer, and the time since the start;
-- the heartbeat is a 64-bit integer that wraps around; this holds for a tracker in step with its
-- history and fewer than 2^64 intervals in all.
pub run-reports :
    (later : List Second) (d : DiagnosticsPublisher) (h : List ℤ) (t : CadenceTracker)
    → Tracks h t
    → length h + recorded_in later < 2 ^ 64
    → run later d t ≡ reports d.start_time d.heartbeat h later
unfolding run tick reports p50_us p99_us
run-reports [] d h t k small = refl
run-reports (s ∷ later) d h t k small =
    let h' = h ++ s.recorded in
    let k0 = record_all-Tracks s.recorded h t k (omega arith) in
    let t0 = record_all s.recorded t in
    let k1 = percentile_us-Tracks 99 100 h' t0 k0 in
    let t1 = (percentile_us 99 100 t0).1 in
    let k2 = percentile_us-Tracks 50 100 h' t1 k1 in
    let d' = record d { heartbeat = to_int64 (d.heartbeat +ℤ pos 1) } in
    rw (← percentile_us-recent 99 100 h' t0 k0, ← percentile_us-recent 50 100 h' t1 k1)
      (ap
        (λ rest.
          record {
            heartbeat = to_int64 (d.heartbeat +ℤ pos 1);
            p99 = (percentile_us 99 100 t0).0;
            p50 = (percentile_us 50 100 t1).0;
            uptime = s.now -ℤ d.start_time;
          }
          ∷ rest)
        (run-reports later d' h' (percentile_us 50 100 t1).1 k2
          (omega (arith, length-append h s.recorded))))
