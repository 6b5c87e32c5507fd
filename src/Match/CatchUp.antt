-- ===== src/Match/CatchUp.antt =====
-- How ticks bring the controller to the phase that the clock stands in, and to the match's end.
use pi5_system_surrogate.Prelude.{
  ap, ap₂, subst₂, ℕ, zero, suc, ◌+◌, ◌≤◌, ◌<◌, true, false, Bool-cases, ◌≡◌, refl, sym, ◌∙◌, ◌≢◌,
  ◌⊎◌, inl, inr, arith, List, [], ◌∷◌, replicate,
}
use pi5_system_surrogate.Prelude.Int.{
  ltb_ℤ, ltb_ℤ→<, ltb_ℤ→≤, pos_part, neg_part, ℤ, pos, ◌+ℤ◌, ◌-ℤ◌, ◌≤ℤ◌, ◌<ℤ◌, int_laws, +ℤ_parts,
}
use pi5_system_surrogate.Match.{
  MatchPhase, idle, auto, auto_teleop_gap, teleop, match_ended, MatchDurations, MatchController,
  ms_to_ns, duration_for, apply_phase, publish_match_time, is_resting, tick, ticks,
}
use pi5_system_surrogate.Match.Steps.{
  span, successor, tick_cases, advance-durations, advance-match_start, advance-phase,
  advance-phase_start,
}
use pi5_system_surrogate.Match.Schedule.{
  offset, IsAligned, advance-IsAligned, IsNonNeg, phase_at, phase_at-eq, boundaries,
}

-- How many phases are still to come.
abbrev pub to_come : MatchPhase → ℕ
to_come auto = 3
to_come auto_teleop_gap = 2
to_come teleop = 1
to_come _ = 0

-- A match has begun by `now`, with durations that are not negative.
pub record InMatch (now : ℤ) (c : MatchController) : Type 0 where
  pub aligned : IsAligned c
  pub begun : c.phase ≢ idle
  pub started : c.phase_start ≤ℤ now
  pub durations : IsNonNeg c.durations

abbrev IsCurrent : ℤ → MatchController → Type 0
IsCurrent now c = (c.phase ≡ match_ended) ⊎ (now <ℤ c.phase_start +ℤ span c)

-- The start of the match and the durations stay as they are.
pub record SameMatch (c d : MatchController) : Type 0 where
  pub match_start : d.match_start ≡ c.match_start
  pub durations : d.durations ≡ c.durations

pub tick-SameMatch : (now : ℤ) (c : MatchController) → SameMatch c (tick now c)
unfolding apply_phase publish_match_time
tick-SameMatch now c =
    tick_cases (SameMatch c) now c (λ _. record { match_start = refl; durations = refl })
      (λ _ _. record { match_start = refl; durations = refl })
      (λ _ _. record { match_start = advance-match_start c; durations = advance-durations c })

pub successor-begun : (p : MatchPhase) → p ≢ idle → successor p ≢ idle
successor-begun p h = ground arith

pub tick-InMatch : (now : ℤ) (c : MatchController) → InMatch now c → InMatch now (tick now c)
unfolding apply_phase publish_match_time
tick-InMatch now c m =
    tick_cases (InMatch now) now c (λ _. m)
      (λ _ _. record {
        aligned = m.aligned;
        begun = m.begun;
        started = m.started;
        durations = m.durations;
      })
      (λ runs passed. record {
        aligned = advance-IsAligned c runs m.aligned;
        begun = rw advance-phase (successor-begun c.phase m.begun);
        started = rw advance-phase_start passed;
        durations = rw advance-durations m.durations;
      })

-- Times counted from the start of the match, and from the start of the phase.
place :
    (now : ℤ) (c : MatchController)
    → InMatch now c
    → (offset c.durations c.phase ≤ℤ now -ℤ c.match_start)
      × (pos_part c.phase_start + neg_part c.match_start + neg_part (offset c.durations c.phase)
          ≡ neg_part c.phase_start + pos_part c.match_start + pos_part (offset c.durations c.phase))
place now c m = omega (int_laws, ap pos_part m.aligned, ap neg_part m.aligned)

-- In a phase that has begun and not ended, the phase is the one by the clock.
phase_of_current :
    (now : ℤ) (c : MatchController)
    → InMatch now c
    → IsCurrent now c
    → c.phase ≡ phase_at c.durations (now -ℤ c.match_start)
phase_of_current now c m cur = sym (
    phase_at-eq c.durations (now -ℤ c.match_start) c.phase m.durations m.begun (place now c m).0
      (elim cur [ inl e ↦ inl e | inr ahead ↦ inr (omega (int_laws, place now c m)) ]))

ended_of_resting : (p : MatchPhase) → p ≢ idle → is_resting p ≡ true → p ≡ match_ended
ended_of_resting p ne h = ground arith

pub to_come-successor :
    (p : MatchPhase) → is_resting p ≡ false → suc (to_come (successor p)) ≡ to_come p
to_come-successor p h = ground arith

-- A tick leaves the phase current, or brings the end one phase nearer.
tick_progress :
    (now : ℤ) (c : MatchController)
    → InMatch now c
    → IsCurrent now (tick now c) ⊎ (suc (to_come (tick now c).phase) ≡ to_come c.phase)
unfolding apply_phase publish_match_time
tick_progress now c m =
    tick_cases (λ d. IsCurrent now d ⊎ (suc (to_come d.phase) ≡ to_come c.phase)) now c
      (λ rests. inl (inl (ended_of_resting c.phase m.begun rests))) (λ _ ahead. inl (inr ahead))
      (λ runs _. inr (rw advance-phase (to_come-successor c.phase runs)))

ended_of_none : (p : MatchPhase) → p ≢ idle → to_come p ≤ 0 → p ≡ match_ended
ended_of_none p ne h = ground arith

tick-IsCurrent : (now : ℤ) (c : MatchController) → IsCurrent now c → IsCurrent now (tick now c)
unfolding apply_phase publish_match_time
tick-IsCurrent now c cur =
    tick_cases (IsCurrent now) now c (λ _. cur) (λ _ ahead. inr ahead)
      (λ runs passed. elim cur [ inl ended ↦ cc | inr ahead ↦ absurd (omega arith) ])

ticks-IsCurrent :
    (now : ℤ) (n : ℕ) (c : MatchController)
    → InMatch now c
    → (to_come c.phase ≤ n) ⊎ IsCurrent now c
    → IsCurrent now (ticks (replicate n now) c)
unfolding ticks
ticks-IsCurrent now zero c m (inl h) = inl (ended_of_none c.phase m.begun h)
ticks-IsCurrent now zero c m (inr cur) = cur
ticks-IsCurrent now (suc n) c m (inl h) =
    ticks-IsCurrent now n (tick now c) (tick-InMatch now c m)
      (elim (tick_progress now c m) [ inl cur ↦ inr cur | inr nearer ↦ inl (omega arith) ])
ticks-IsCurrent now (suc n) c m (inr cur) =
    ticks-IsCurrent now n (tick now c) (tick-InMatch now c m) (inr (tick-IsCurrent now c cur))

ticks-InMatch :
    (now : ℤ) (n : ℕ) (c : MatchController)
    → InMatch now c
    → InMatch now (ticks (replicate n now) c)
unfolding ticks
ticks-InMatch now zero c m = m
ticks-InMatch now (suc n) c m = ticks-InMatch now n (tick now c) (tick-InMatch now c m)

ticks-SameMatch : (times : List ℤ) (c : MatchController) → SameMatch c (ticks times c)
unfolding ticks
ticks-SameMatch [] c = record { match_start = refl; durations = refl }
ticks-SameMatch (now ∷ times) c = record {
  match_start =
      (ticks-SameMatch times (tick now c)).match_start ∙ (tick-SameMatch now c).match_start;
  durations = (ticks-SameMatch times (tick now c)).durations ∙ (tick-SameMatch now c).durations;
}

-- However late the ticks come, as many ticks at one time as phases were still to come bring a match
-- that has begun to the phase that its clock stands in, for durations that are not negative and a
-- phase that started at its place.
pub ticks_catch_up :
    (now : ℤ) (n : ℕ) (c : MatchController)
    → InMatch now c
    → to_come c.phase ≤ n
    → (ticks (replicate n now) c).phase ≡ phase_at c.durations (now -ℤ c.match_start)
ticks_catch_up now n c m h =
    let d = ticks (replicate n now) c in
    let same = ticks-SameMatch (replicate n now) c in
    phase_of_current now d (ticks-InMatch now n c m) (ticks-IsCurrent now n c m (inl h))
    ∙ ap₂ (λ ds start. phase_at ds (now -ℤ start)) same.durations same.match_start

phase_at-passed :
    (d : MatchDurations) (t : ℤ) (p : MatchPhase)
    → IsNonNeg d
    → is_resting p ≡ false
    → offset d p +ℤ ms_to_ns (duration_for d p) ≤ℤ t
    → to_come (phase_at d t) < to_come p
unfolding phase_at offset duration_for
phase_at-passed d t idle n ne lo = cc
phase_at-passed d t auto n ne lo =
    ground (arith, boundaries d n, +ℤ_parts (pos 0) (ms_to_ns d.auto_period))
phase_at-passed d t auto_teleop_gap n ne lo = ground (arith, boundaries d n)
phase_at-passed d t teleop n ne lo = ground (arith, boundaries d n)
phase_at-passed d t match_ended n ne lo = cc

phase_cases :
    (now : ℤ) (c : MatchController)
    → c.phase ≢ idle
    → IsCurrent now c ⊎ ((is_resting c.phase ≡ false) × (c.phase_start +ℤ span c ≤ℤ now))
phase_cases now c ne = elim (Bool-cases (is_resting c.phase)) [
  | inl rests ↦ inl (inl (ended_of_resting c.phase ne rests))
  | inr runs ↦ elim (Bool-cases (ltb_ℤ now (c.phase_start +ℤ span c))) [
    | inl ahead ↦ inl (inr (ltb_ℤ→< now (c.phase_start +ℤ span c) ahead))
    | inr passed ↦ inr (runs, ltb_ℤ→≤ now (c.phase_start +ℤ span c) passed)
  ]
]

-- Once a phase's end has passed, the clock is further on.
behind :
    (now : ℤ) (c : MatchController)
    → InMatch now c
    → is_resting c.phase ≡ false
    → c.phase_start +ℤ span c ≤ℤ now
    → to_come (phase_at c.durations (now -ℤ c.match_start)) < to_come c.phase
behind now c m runs passed =
    phase_at-passed c.durations (now -ℤ c.match_start) c.phase m.durations runs
      (omega (int_laws, place now c m))

behind_tick :
    (now : ℤ) (c : MatchController)
    → InMatch now c
    → is_resting (tick now c).phase ≡ false
    → (tick now c).phase_start +ℤ span (tick now c) ≤ℤ now
    → to_come (phase_at c.durations (now -ℤ c.match_start)) < to_come (tick now c).phase
behind_tick now c m runs passed =
    let same = tick-SameMatch now c in
    subst₂ (λ ds start. to_come (phase_at ds (now -ℤ start)) < to_come (tick now c).phase)
      same.durations same.match_start (behind now (tick now c) (tick-InMatch now c m) runs passed)

phase_after :
    (now : ℤ) (c : MatchController)
    → InMatch now c
    → IsCurrent now (tick now c)
    → (tick now c).phase ≡ phase_at c.durations (now -ℤ c.match_start)
phase_after now c m cur =
    let same = tick-SameMatch now c in
    phase_of_current now (tick now c) (tick-InMatch now c m) cur
    ∙ ap₂ (λ ds start. phase_at ds (now -ℤ start)) same.durations same.match_start

-- A tick that comes at most one phase late brings a match that has begun to the phase that its
-- clock stands in.
pub tick_on_time :
    (now : ℤ) (c : MatchController)
    → InMatch now c
    → to_come c.phase ≤ suc (to_come (phase_at c.durations (now -ℤ c.match_start)))
    → (tick now c).phase ≡ phase_at c.durations (now -ℤ c.match_start)
tick_on_time now c m h = elim (phase_cases now (tick now c) (tick-InMatch now c m).begun) [
  | inl cur ↦ phase_after now c m cur
  | inr (runs, passed) ↦ elim (tick_progress now c m) [
    | inl cur ↦ phase_after now c m cur
    | inr nearer ↦ absurd (omega (arith, behind_tick now c m runs passed))
  ]
]
