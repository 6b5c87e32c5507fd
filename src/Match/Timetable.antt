-- ===== src/Match/Timetable.antt =====
-- What the controller leaves published at each time of a match, by the schedule alone.
use pi5_system_surrogate.Prelude.{
  ℕ, ◌+◌, ◌*◌, ◌/◌, ◌≤◌, ◌<◌, ◌≡◌, refl, sym, ap, ap₂, ◌∙◌, subst, false, true, Bool-cases, inl,
  inr, if◌then◌else◌, suc, arith,
}
use pi5_system_surrogate.Prelude.Int.{
  ℤ, pos, pos_part, ◌+ℤ◌, ◌-ℤ◌, ◌≤ℤ◌, ◌<ℤ◌, ltb_ℤ, <→ltb_ℤ, eq_of_parts, int_laws,
}
use pi5_system_surrogate.Match.{
  MatchPhase, MatchDurations, MatchController, ms_to_ns, duration_for, start_match, tick, is_timed,
  is_resting,
}
use pi5_system_surrogate.Match.Phases.{Agrees, tick-keeps-Agrees, start_match-Agrees}
use pi5_system_surrogate.Match.Time.{
  Fits, Countdown, time_left, tick-Countdown, start_match-Countdown,
}
use pi5_system_surrogate.Match.Schedule.{offset, IsNonNeg, phase_at}
use pi5_system_surrogate.Match.Steps.{tick-rests}
use pi5_system_surrogate.Match.CatchUp.{
  to_come, InMatch, tick-SameMatch, tick-InMatch, tick_on_time,
}

-- The time left in the phase that the clock stands in, `t` after the start of the match.
abbrev pub left_at : MatchDurations → ℤ → ℕ
left_at d t =
    let p = phase_at d t in
    if is_timed p then pos_part (offset d p +ℤ ms_to_ns (duration_for d p) -ℤ t) else 0

-- Rounded up to whole seconds.
unfoldable pub seconds_at : MatchDurations → ℤ → ℕ
seconds_at d t = (left_at d t + 999999999) / 1000000000

-- The controller and the shared state as the schedule has them at the time `t`.
pub record OnTime (t : ℤ) (c : MatchController) : Type 0 where
  pub in_match : InMatch t c
  pub phase : c.phase ≡ phase_at c.durations (t -ℤ c.match_start)
  pub agrees : Agrees c
  pub countdown : Countdown t c

seconds_of_left :
    (k left : ℕ)
    → left ≤ k * 1000000000
    → k * 1000000000 < left + 1000000000
    → k ≡ (left + 999999999) / 1000000000
seconds_of_left k left a b = omega arith

regroup : (s e l t : ℤ) → s +ℤ e +ℤ l -ℤ t ≡ e +ℤ l -ℤ (t -ℤ s)
regroup s e l t = eq_of_parts _ _ (omega int_laws)

left_is :
    (t : ℤ) (c : MatchController)
    → OnTime t c
    → time_left t c ≡ left_at c.durations (t -ℤ c.match_start)
left_is t c o =
    ap (λ n. if is_timed c.phase then pos_part n else 0)
      (ap (λ s. s +ℤ ms_to_ns (duration_for c.durations c.phase) -ℤ t) o.in_match.aligned
        ∙ regroup c.match_start (offset c.durations c.phase)
            (ms_to_ns (duration_for c.durations c.phase)) t)
    ∙ ap
        (λ p.
          if is_timed p
          then pos_part (
              offset c.durations p +ℤ ms_to_ns (duration_for c.durations p) -ℤ (t -ℤ c.match_start))
          else 0)
        o.phase

-- The match time on show.
pub OnTime-seconds :
    (t : ℤ) (c : MatchController)
    → OnTime t c
    → c.state.match_time_s ≡ pos (seconds_at c.durations (t -ℤ c.match_start))
unfolding seconds_at
OnTime-seconds t c o =
    o.countdown.shown
    ∙ ap pos (
        seconds_of_left o.countdown.seconds (time_left t c) o.countdown.enough o.countdown.least
        ∙ ap (λ n. (n + 999999999) / 1000000000) (left_is t c o))

rests_untimed : (p : MatchPhase) → is_resting p ≡ true → is_timed p ≡ false
rests_untimed p h = ground arith

-- At rest nothing is left of a phase, whatever the time.
rest-Countdown :
    (t now : ℤ) (c : MatchController) → is_resting c.phase ≡ true → Countdown t c → Countdown now c
rest-Countdown t now c rests k =
    let untimed = rests_untimed c.phase rests in
    record {
      seconds = k.seconds;
      shown = k.shown;
      enough = rw untimed (omega arith);
      least = rw untimed (rw untimed at (k.least));
    }

later-InMatch : (t now : ℤ) (c : MatchController) → t ≤ℤ now → InMatch t c → InMatch now c
later-InMatch t now c h m = record {
  aligned = m.aligned;
  begun = m.begun;
  started = omega (int_laws, m.started);
  durations = m.durations;
}

-- The clock does not go back to `t`, and is at most one phase further on at `now`.
pub record Prompt (d : MatchDurations) (start t now : ℤ) : Type 0 where
  pub onwards : t ≤ℤ now
  pub one_phase : to_come (phase_at d (t -ℤ start)) ≤ suc (to_come (phase_at d (now -ℤ start)))

-- A prompt tick keeps the controller to the schedule.
pub tick-OnTime :
    (t now : ℤ) (c : MatchController)
    → Fits c.durations
    → Prompt c.durations c.match_start t now
    → OnTime t c
    → OnTime now (tick now c)
tick-OnTime t now c f h o =
    let m = later-InMatch t now c h.onwards o.in_match in
    let same = tick-SameMatch now c in
    record {
      in_match = tick-InMatch now c m;
      phase =
          tick_on_time now c m (
            subst (λ p. to_come p ≤ suc (to_come (phase_at c.durations (now -ℤ c.match_start))))
              (sym o.phase) h.one_phase)
          ∙ ap₂ (λ ds start. phase_at ds (now -ℤ start)) (sym same.durations)
              (sym same.match_start);
      agrees = tick-keeps-Agrees now c o.agrees;
      countdown = elim (Bool-cases (is_resting c.phase)) [
        | inl rests ↦
            subst (Countdown now) (sym (tick-rests now c rests))
              (rest-Countdown t now c rests o.countdown)
        | inr runs ↦ tick-Countdown now c f m.started runs
      ];
    }

-- So does the start of a match with an autonomous period.
pub start_match-OnTime :
    (now : ℤ) (c : MatchController)
    → Fits c.durations
    → IsNonNeg c.durations
    → pos 0 <ℤ c.durations.auto_period
    → OnTime now (start_match now c)
unfolding start_match offset phase_at
start_match-OnTime now c f n h = record {
  in_match = record {
    aligned = eq_of_parts _ _ (omega int_laws);
    begun = λ e. cc;
    started = omega int_laws;
    durations = n;
  };
  phase = rw (begins now c.durations h) refl;
  agrees = start_match-Agrees now c;
  countdown = start_match-Countdown now c f;
}
  where
    begins :
        (s : ℤ) (d : MatchDurations)
        → pos 0 <ℤ d.auto_period
        → ltb_ℤ (s -ℤ s) (ms_to_ns d.auto_period) ≡ true
    begins s d q = <→ltb_ℤ (s -ℤ s) (ms_to_ns d.auto_period) (omega int_laws)
