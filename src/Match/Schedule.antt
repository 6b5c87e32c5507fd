-- ===== src/Match/Schedule.antt =====
-- The phases against the clock: a phase starts at its place in the match, however late the tick
-- that enters it, and enough ticks bring the controller to the phase that the time stands in.
use pi5_system_surrogate.Prelude.{false, ◌≡◌, refl, ◌≢◌, ◌⊎◌, arith, if◌then◌else◌}
use pi5_system_surrogate.Prelude.Int.{
  ℤ, pos, ◌+ℤ◌, ◌≤ℤ◌, ◌<ℤ◌, ltb_ℤ, eq_of_parts, int_laws, +ℤ_parts,
}
use pi5_system_surrogate.Match.{
  MatchPhase, idle, auto, auto_teleop_gap, teleop, match_ended, MatchDurations, MatchController,
  ms_to_ns, duration_for, apply_phase, publish_match_time, start_match, stop_match, skip_to_teleop,
  is_resting, tick,
}
use pi5_system_surrogate.Match.Phases.{Call, starts, stops, skips, ticks_at, perform}
use pi5_system_surrogate.Match.Steps.{
  tick_cases, advance, successor, advance-durations, advance-match_start, advance-phase,
  advance-phase_start,
}

-- Where in the match a phase starts.
unfoldable pub offset : MatchDurations → MatchPhase → ℤ
offset d idle = pos 0
offset d auto = pos 0
offset d auto_teleop_gap = ms_to_ns d.auto_period
offset d teleop = ms_to_ns d.auto_period +ℤ ms_to_ns d.auto_teleop_gap
offset d match_ended =
    ms_to_ns d.auto_period +ℤ ms_to_ns d.auto_teleop_gap +ℤ ms_to_ns d.teleop_period

-- The phase started at its place, counted from the start of the match.
abbrev pub IsAligned : MatchController → Type 0
IsAligned c = c.phase_start ≡ c.match_start +ℤ offset c.durations c.phase

pub offset-successor :
    (d : MatchDurations) (p : MatchPhase)
    → is_resting p ≡ false
    → offset d (successor p) ≡ offset d p +ℤ ms_to_ns (duration_for d p)
unfolding offset duration_for
offset-successor d idle h = cc
offset-successor d match_ended h = cc
offset-successor d auto h = eq_of_parts _ _ (omega int_laws)
offset-successor d auto_teleop_gap h = refl
offset-successor d teleop h = refl

pub advance-IsAligned :
    (c : MatchController) → is_resting c.phase ≡ false → IsAligned c → IsAligned (advance c)
advance-IsAligned c running a =
    rw
      (
        advance-phase_start,
        advance-match_start,
        advance-durations,
        advance-phase,
        offset-successor c.durations c.phase running,
        a,
      )
      (eq_of_parts _ _ (omega int_laws))

pub tick-IsAligned : (now : ℤ) (c : MatchController) → IsAligned c → IsAligned (tick now c)
unfolding apply_phase publish_match_time
tick-IsAligned now c a =
    tick_cases (λ d. IsAligned d) now c (λ _. a) (λ _ _. a) (λ runs _. advance-IsAligned c runs a)

-- Every call of the controller keeps the phase's start at its place in the match: a late tick does
-- not shift the phases that follow.
pub perform-IsAligned : (k : Call) (c : MatchController) → IsAligned c → IsAligned (perform k c)
unfolding perform offset start_match stop_match skip_to_teleop
perform-IsAligned (starts now) c a = eq_of_parts _ _ (omega int_laws)
perform-IsAligned stops c a = eq_of_parts _ _ (omega int_laws)
perform-IsAligned (skips now) c a = eq_of_parts _ _ (omega int_laws)
perform-IsAligned (ticks_at now) c a = tick-IsAligned now c a

pub record IsNonNeg (d : MatchDurations) : Type 0 where
  pub auto_period : pos 0 ≤ℤ d.auto_period
  pub auto_teleop_gap : pos 0 ≤ℤ d.auto_teleop_gap
  pub teleop_period : pos 0 ≤ℤ d.teleop_period

-- The phase that a match is in by the clock, `t` after its start.
unfoldable pub phase_at : MatchDurations → ℤ → MatchPhase
phase_at d t =
    if ltb_ℤ t (ms_to_ns d.auto_period)
    then auto
    else if ltb_ℤ t (ms_to_ns d.auto_period +ℤ ms_to_ns d.auto_teleop_gap)
    then auto_teleop_gap
    else if ltb_ℤ t
        (ms_to_ns d.auto_period +ℤ ms_to_ns d.auto_teleop_gap +ℤ ms_to_ns d.teleop_period)
    then teleop
    else match_ended

-- The ends of the phases, as the arithmetic reads them, in order.
pub boundaries :
    (d : MatchDurations)
    → IsNonNeg d
    → (pos 0 ≤ℤ ms_to_ns d.auto_period)
      × (ms_to_ns d.auto_period ≤ℤ ms_to_ns d.auto_period +ℤ ms_to_ns d.auto_teleop_gap)
      × (ms_to_ns d.auto_period +ℤ ms_to_ns d.auto_teleop_gap
          ≤ℤ ms_to_ns d.auto_period +ℤ ms_to_ns d.auto_teleop_gap +ℤ ms_to_ns d.teleop_period)
boundaries d n = omega int_laws

-- A phase is the one by the clock when its start has come and its end has not.
pub phase_at-eq :
    (d : MatchDurations) (t : ℤ) (p : MatchPhase)
    → IsNonNeg d
    → p ≢ idle
    → offset d p ≤ℤ t
    → (p ≡ match_ended) ⊎ (t <ℤ offset d p +ℤ ms_to_ns (duration_for d p))
    → phase_at d t ≡ p
unfolding phase_at offset duration_for
phase_at-eq d t idle n ne lo hi = absurd (ne refl)
phase_at-eq d t auto n ne lo hi =
    ground (arith, boundaries d n, +ℤ_parts (pos 0) (ms_to_ns d.auto_period))
phase_at-eq d t auto_teleop_gap n ne lo hi =
    ground (arith, boundaries d n, +ℤ_parts (pos 0) (ms_to_ns d.auto_period))
phase_at-eq d t teleop n ne lo hi =
    ground (arith, boundaries d n, +ℤ_parts (pos 0) (ms_to_ns d.auto_period))
phase_at-eq d t match_ended n ne lo hi =
    ground (arith, boundaries d n, +ℤ_parts (pos 0) (ms_to_ns d.auto_period))
