-- ===== src/Match/Show.antt =====
-- What the controller's `snapshot` shows.
use pi5_system_surrogate.Prelude.{ℕ, ◌+◌, ◌*◌, ◌/◌, ◌≤◌, ◌<◌, false, true, ◌≡◌, refl, arith}
use pi5_system_surrogate.Prelude.Int.{
  int_laws, parts_apart, ℤ, pos, pos_part, neg_part, ◌+ℤ◌, ◌-ℤ◌, ◌≤ℤ◌, quot,
}
use pi5_system_surrogate.Match.{
  MatchPhase, MatchController, ms_to_ns, duration_for, is_timed, is_idle, snapshot, to_ms,
}
use pi5_system_surrogate.Match.Time.{time_left, at_least_zero_lem}

to_ms_parts :
    (d : ℤ) → pos_part (to_ms d) + neg_part d / 1000000 ≡ neg_part (to_ms d) + pos_part d / 1000000
unfolding quot
to_ms_parts d = ground arith

-- The milliseconds left against the nanoseconds left.
remaining-left :
    (d s now : ℤ)
    → s ≤ℤ now
    → (pos_part (s +ℤ ms_to_ns d -ℤ now) ≤ pos_part (d -ℤ to_ms (now -ℤ s)) * 1000000)
      × (pos_part (d -ℤ to_ms (now -ℤ s)) * 1000000 < pos_part (s +ℤ ms_to_ns d -ℤ now) + 1000000)
remaining-left d s now h = omega (
  int_laws,
  to_ms_parts (now -ℤ s),
  parts_apart (now -ℤ s),
  parts_apart (to_ms (now -ℤ s)),
  parts_apart (s +ℤ ms_to_ns d -ℤ now),
  parts_apart (d -ℤ to_ms (now -ℤ s)),
)

timed_not_idle : (p : MatchPhase) → is_timed p ≡ true → is_idle p ≡ false
timed_not_idle p h = ground arith

-- The snapshot shows the phase, and the time left in it, rounded up to whole milliseconds.
pub record Shows (now : ℤ) (c : MatchController) : Type 0 where
  pub phase : (snapshot now c).phase ≡ c.phase
  pub remaining : ℕ
  pub shown : (snapshot now c).remaining_in_phase ≡ pos remaining
  pub enough : time_left now c ≤ remaining * 1000000
  pub least : remaining * 1000000 < time_left now c + 1000000

-- In a playing phase that has started, the snapshot shows the phase and the time left in it,
-- rounded up to whole milliseconds.
pub snapshot-Shows :
    (now : ℤ) (c : MatchController) → c.phase_start ≤ℤ now → is_timed c.phase ≡ true → Shows now c
unfolding snapshot
snapshot-Shows now c h r =
    let idle_not = timed_not_idle c.phase r in
    let left = remaining-left (duration_for c.durations c.phase) c.phase_start now h in
    record {
      phase = rw idle_not refl;
      remaining = pos_part (duration_for c.durations c.phase -ℤ to_ms (now -ℤ c.phase_start));
      shown =
          rw idle_not
            (at_least_zero_lem (duration_for c.durations c.phase -ℤ to_ms (now -ℤ c.phase_start)));
      enough = rw r left.0;
      least = rw r left.1;
    }
