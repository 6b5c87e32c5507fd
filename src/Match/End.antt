-- ===== src/Match/End.antt =====
-- How ticks bring a match to its end, whatever their times.
use pi5_system_surrogate.Prelude.{
  ap, subst₂, ◌-◌, ◌≤◌, true, false, ◌≡◌, sym, ◌≢◌, arith, List, [], ◌∷◌, length, subst,
}
use pi5_system_surrogate.Prelude.Int.{pos_part, neg_part, ℤ, ◌+ℤ◌, ◌≤ℤ◌, int_laws}
use pi5_system_surrogate.ControlData.{RobotMode}
use pi5_system_surrogate.Match.{
  MatchPhase, idle, auto, auto_teleop_gap, teleop, match_ended, MatchDurations, MatchController,
  ms_to_ns, duration_for, apply_phase, publish_match_time, is_resting, tick, ticks,
}
use pi5_system_surrogate.Match.Phases.{Agrees, tick-keeps-Agrees}
use pi5_system_surrogate.Match.Steps.{span, tick_cases, advance-phase}
use pi5_system_surrogate.Match.CatchUp.{to_come, to_come-successor, successor-begun, tick-SameMatch}
use pi5_system_surrogate.Match.Schedule.{offset, IsAligned, tick-IsAligned, IsNonNeg}

abbrev pub match_length : MatchDurations → ℤ
match_length d = ms_to_ns d.auto_period +ℤ ms_to_ns d.auto_teleop_gap +ℤ ms_to_ns d.teleop_period

abbrev pub AllFrom : ℤ → List ℤ → Type 0
AllFrom t [] = Unit
AllFrom t (now ∷ times) = (t ≤ℤ now) × AllFrom t times

-- A running phase ends within the match.
phase_end-le :
    (d : MatchDurations) (p : MatchPhase)
    → IsNonNeg d
    → is_resting p ≡ false
    → offset d p +ℤ ms_to_ns (duration_for d p) ≤ℤ match_length d
unfolding offset duration_for
phase_end-le d idle n h = cc
phase_end-le d auto n h = omega int_laws
phase_end-le d auto_teleop_gap n h = omega int_laws
phase_end-le d teleop n h = omega int_laws
phase_end-le d match_ended n h = cc

-- The match is over by the clock at `now`.
record IsOver (now : ℤ) (c : MatchController) : Type 0 where
  aligned : IsAligned c
  agrees : Agrees c
  begun : c.phase ≢ idle
  durations : IsNonNeg c.durations
  over : c.match_start +ℤ match_length c.durations ≤ℤ now

passed_of_over :
    (now : ℤ) (c : MatchController)
    → IsOver now c
    → is_resting c.phase ≡ false
    → c.phase_start +ℤ span c ≤ℤ now
passed_of_over now c o runs = omega (
  int_laws,
  ap pos_part o.aligned,
  ap neg_part o.aligned,
  phase_end-le c.durations c.phase o.durations runs,
)

to_come-rests : (p : MatchPhase) → is_resting p ≡ true → to_come p ≡ 0
to_come-rests p h = ground arith

-- A tick after the end of the match brings the last phase nearer.
over-tick :
    (now : ℤ) (c : MatchController)
    → IsOver now c
    → (to_come (tick now c).phase ≤ to_come c.phase - 1) × ((tick now c).phase ≢ idle)
unfolding apply_phase publish_match_time
over-tick now c o =
    tick_cases (λ d. (to_come d.phase ≤ to_come c.phase - 1) × (d.phase ≢ idle)) now c
      (λ rests. (omega (arith, to_come-rests c.phase rests), o.begun))
      (λ runs ahead. absurd (omega (arith, passed_of_over now c o runs)))
      (λ runs _.
        rw advance-phase
          (omega (arith, to_come-successor c.phase runs), successor-begun c.phase o.begun))

-- Once the match's length has passed, as many ticks as phases were still to come, whatever their
-- times, end the match and leave the robot disabled, in no mode; the match has begun, its phase
-- started at its place, the state agrees with the phase, and the durations are not negative.
pub ticks_end :
    (times : List ℤ) (c : MatchController)
    → IsAligned c
    → Agrees c
    → c.phase ≢ idle
    → IsNonNeg c.durations
    → AllFrom (c.match_start +ℤ match_length c.durations) times
    → to_come c.phase ≤ length times
    → ((ticks times c).phase ≡ match_ended)
      × ((ticks times c).state.enabled ≡ false)
      × ((ticks times c).state.mode ≡ RobotMode.unknown)
unfolding ticks
ticks_end [] c a g b n late enough = ground arith
ticks_end (now ∷ times) c a g b n late enough =
    let o : IsOver now c = record {
      aligned = a;
      agrees = g;
      begun = b;
      durations = n;
      over = late.0;
    } in
    let (nearer, begun) = over-tick now c o in
    let same = tick-SameMatch now c in
    ticks_end times (tick now c) (tick-IsAligned now c a) (tick-keeps-Agrees now c g) begun
      (subst IsNonNeg (sym same.durations) n)
      (subst₂ (λ ds start. AllFrom (start +ℤ match_length ds) times) (sym same.durations)
        (sym same.match_start) late.1)
      (omega arith)
