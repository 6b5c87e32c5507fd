-- ===== src/Match/Clock.antt =====
-- The controller against an abstract clock: no match, or a match with its start and the time of the
-- last call. Every call of the controller is a step of the clock.
use pi5_system_surrogate.Prelude.{
  ◌≡◌, refl, sym, ap, subst, ◌∙◌, true, false, Option, none, some, arith,
}
use pi5_system_surrogate.Prelude.Int.{
  ℤ, pos, ◌+ℤ◌, ◌-ℤ◌, ◌<ℤ◌, ltb_ℤ, <→ltb_ℤ, ≤→ltb_ℤ, eq_of_parts, int_laws,
}
use pi5_system_surrogate.Match.{
  idle, teleop, MatchDurations, MatchController, ms_to_ns, start_match, stop_match, skip_to_teleop,
  is_resting,
}
use pi5_system_surrogate.Match.Phases.{Call, starts, stops, skips, ticks_at, perform, Agrees}
use pi5_system_surrogate.Match.Time.{Fits, skip_to_teleop-Countdown}
use pi5_system_surrogate.Match.Schedule.{offset, IsNonNeg, phase_at}
use pi5_system_surrogate.Match.Steps.{tick-rests}
use pi5_system_surrogate.Match.CatchUp.{tick-SameMatch}
use pi5_system_surrogate.Match.Timetable.{OnTime, Prompt, tick-OnTime, start_match-OnTime}

-- The start of the match, and the time of the last call.
abbrev pub Clock : Type 0
Clock = Option (ℤ × ℤ)

-- A skip starts the match that many durations before.
abbrev pub called : MatchDurations → Call → Clock → Clock
called d (starts now) k = some (now, now)
called d stops k = none
called d (skips now) k = some (now -ℤ ms_to_ns d.auto_period -ℤ ms_to_ns d.auto_teleop_gap, now)
called d (ticks_at now) none = none
called d (ticks_at now) (some (start, t)) = some (start, now)

-- A tick during a match is prompt.
abbrev pub IsPrompt : MatchDurations → Call → Clock → Type 0
IsPrompt d (ticks_at now) (some (start, t)) = Prompt d start t now
IsPrompt d k clock = Unit {0}

-- The controller and the shared state as the clock has them.
abbrev pub OnSchedule : Clock → MatchController → Type 0
OnSchedule none c = (c.phase ≡ idle) × Agrees c × (c.state.match_time_s ≡ pos 0)
OnSchedule (some (start, t)) c = OnTime t c × (c.match_start ≡ start)

-- No duration is negative, and the playing periods are neither empty nor too long for the match time.
pub record Regular (d : MatchDurations) : Type 0 where
  pub fits : Fits d
  pub durations : IsNonNeg d
  pub some_auto : pos 0 <ℤ d.auto_period
  pub some_teleop : pos 0 <ℤ d.teleop_period

skip_to_teleop-Agrees : (now : ℤ) (c : MatchController) → Agrees (skip_to_teleop now c)
unfolding skip_to_teleop
skip_to_teleop-Agrees now c = ground arith

-- What the skip takes off the clock is where the teleop period starts.
skipped :
    (now : ℤ) (d : MatchDurations)
    → Regular d
    → phase_at d (now -ℤ (now -ℤ ms_to_ns d.auto_period -ℤ ms_to_ns d.auto_teleop_gap)) ≡ teleop
unfolding phase_at
skipped now d r =
    let a = ms_to_ns d.auto_period in
    let g = ms_to_ns d.auto_teleop_gap in
    let t = now -ℤ (now -ℤ a -ℤ g) in
    let n = r.durations in
    let later_auto : ltb_ℤ t a ≡ false = ≤→ltb_ℤ t a (omega int_laws) in
    let later_gap : ltb_ℤ t (a +ℤ g) ≡ false = ≤→ltb_ℤ t (a +ℤ g) (omega int_laws) in
    let before_end : ltb_ℤ t (a +ℤ g +ℤ ms_to_ns d.teleop_period) ≡ true =
      <→ltb_ℤ t (a +ℤ g +ℤ ms_to_ns d.teleop_period) (omega int_laws) in
    rw (later_auto, later_gap, before_end) refl

skip_to_teleop-OnTime :
    (now : ℤ) (c : MatchController) → Regular c.durations → OnTime now (skip_to_teleop now c)
unfolding skip_to_teleop offset
skip_to_teleop-OnTime now c r = record {
  in_match = record {
    aligned = eq_of_parts _ _ (omega int_laws);
    begun = λ e. cc;
    started = omega int_laws;
    durations = r.durations;
  };
  phase = sym (skipped now c.durations r);
  agrees = skip_to_teleop-Agrees now c;
  countdown = skip_to_teleop-Countdown now c r.fits;
}

stop_match-OnSchedule : (c : MatchController) → OnSchedule none (stop_match c)
unfolding stop_match
stop_match-OnSchedule c = (refl, record { enabled = refl; mode = refl }, refl)

-- Every call of the controller is the step of the clock.
pub perform-OnSchedule :
    (call : Call) (k : Clock) (c : MatchController)
    → Regular c.durations
    → IsPrompt c.durations call k
    → OnSchedule k c
    → OnSchedule (called c.durations call k) (perform call c)
unfolding perform start_match skip_to_teleop
perform-OnSchedule (starts now) k c r p o =
    (start_match-OnTime now c r.fits r.durations r.some_auto, refl)
perform-OnSchedule stops k c r p o = stop_match-OnSchedule c
perform-OnSchedule (skips now) k c r p o = (skip_to_teleop-OnTime now c r, refl)
perform-OnSchedule (ticks_at now) none c r p o =
    subst (OnSchedule none) (sym (tick-rests now c (ap is_resting o.0))) o
perform-OnSchedule (ticks_at now) (some (start, t)) c r p (o, e) = (
  tick-OnTime t now c r.fits (subst (λ s. Prompt c.durations s t now) (sym e) p) o,
  (tick-SameMatch now c).match_start ∙ e,
)
