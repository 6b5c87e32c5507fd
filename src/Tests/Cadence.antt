-- ===== src/Tests/Cadence.antt =====
-- The cadence tracker at concrete inputs.
use pi5_system_surrogate.Prelude.{◌≡◌, ◌≢◌, refl, length, get_or, List, [], ◌∷◌, arith}
use pi5_system_surrogate.Prelude.Int.{pos}
use pi5_system_surrogate.Cadence.{
  CadenceTracker, new_tracker, record_interval_us, percentile_index, percentile_us, p50_us, max_us,
  sort, capacity, mark_cached, copy_sorted,
}
use pi5_system_surrogate.Cadence.History.{recent}
use pi5_system_surrogate.Cadence.Runs.{
  Access, records, reads, reads_max, run, run-percentile, recorded, race-max,
}

abbrev accesses : List Access
accesses =
    records (pos 20000) ∷ reads 99 100 ∷ records (pos 31000) ∷ reads_max ∷ records (pos 19000) ∷ []

run-percentile_example :
    let h = recent (pos 20000 ∷ pos 31000 ∷ pos 19000 ∷ []) in
    (percentile_us 50 100 (run accesses new_tracker)).0
    ≡ get_or (sort h) (percentile_index 50 100 (length h)) (pos 0)
run-percentile_example = run-percentile accesses 50 100 (omega arith)

abbrev one_interval : CadenceTracker
one_interval = record_interval_us (pos 20000) new_tracker

race-max_example :
    let t = recorded (pos 20000 ∷ []) in
    (t.count ≢ 0)
    × (t.cached_epoch ≢ t.epoch)
    × ((max_us (mark_cached (record_interval_us (pos 7) (copy_sorted t)))).0 ≡ pos 0)
race-max_example = race-max (pos 20000 ∷ []) (pos 7) (λ q. cc) (omega arith)

median_of_one : (p50_us one_interval).0 ≡ pos 20000
unfolding p50_us percentile_us record_interval_us new_tracker capacity sort
median_of_one = refl
