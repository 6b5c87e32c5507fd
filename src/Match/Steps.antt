-- ===== src/Match/Steps.antt =====
-- The two branches of `tick` on a running match: the phase goes on, or gives way to the next.
use pi5_system_surrogate.Prelude.{Bool-cases, inl, inr, sym, subst, true, false, ◌≡◌, arith}
use pi5_system_surrogate.Prelude.Int.{ℤ, ◌+ℤ◌, ◌-ℤ◌, ◌≤ℤ◌, ◌<ℤ◌, ltb_ℤ, ltb_ℤ→<, ltb_ℤ→≤, int_laws}
use pi5_system_surrogate.Match.{
  MatchPhase, idle, auto, auto_teleop_gap, teleop, match_ended, MatchController, ms_to_ns,
  duration_for, apply_phase, publish_match_time, next_phase, is_resting, tick,
}

abbrev pub span : MatchController → ℤ
span c = ms_to_ns (duration_for c.durations c.phase)

-- The controller in its next phase, which starts at the deadline of the last one.
unfoldable pub advance : MatchController → MatchController
unfolding next_phase
advance c = next_phase c.phase (record c { phase_start = c.phase_start +ℤ span c })

abbrev pub successor : MatchPhase → MatchPhase
successor auto = auto_teleop_gap
successor auto_teleop_gap = teleop
successor teleop = match_ended
successor idle = idle
successor match_ended = match_ended

pub deadline_passed :
    (now : ℤ) (c : MatchController)
    → ltb_ℤ (now -ℤ c.phase_start) (span c) ≡ false
    → c.phase_start +ℤ span c ≤ℤ now
deadline_passed now c h = omega (int_laws, ltb_ℤ→≤ (now -ℤ c.phase_start) (span c) h)

pub deadline_ahead :
    (now : ℤ) (c : MatchController)
    → ltb_ℤ (now -ℤ c.phase_start) (span c) ≡ true
    → now <ℤ c.phase_start +ℤ span c
deadline_ahead now c h = omega (int_laws, ltb_ℤ→< (now -ℤ c.phase_start) (span c) h)

pub tick-rests : (now : ℤ) (c : MatchController) → is_resting c.phase ≡ true → tick now c ≡ c
unfolding tick
tick-rests now c h = rw h

module _ (now : ℤ) (c : MatchController) (running : is_resting c.phase ≡ false) where
  pub tick-stays :
      ltb_ℤ (now -ℤ c.phase_start) (span c) ≡ true
      → tick now c ≡ publish_match_time now (apply_phase c.phase c)
  unfolding tick
  tick-stays h = rw (running, h)

  pub tick-moves :
      ltb_ℤ (now -ℤ c.phase_start) (span c) ≡ false
      → tick now c ≡ publish_match_time now (advance c)
  unfolding tick advance
  tick-moves h = rw (running, h)

pub advance-durations : (c : MatchController) → (advance c).durations ≡ c.durations
unfolding advance
advance-durations c = ground arith

pub advance-match_start : (c : MatchController) → (advance c).match_start ≡ c.match_start
unfolding advance
advance-match_start c = ground arith

pub advance-phase : (c : MatchController) → (advance c).phase ≡ successor c.phase
unfolding advance
advance-phase c = ground arith

pub advance-phase_start : (c : MatchController) → (advance c).phase_start ≡ c.phase_start +ℤ span c
unfolding advance
advance-phase_start c = ground arith

-- The three ways of a tick: nothing at rest, the phase again, or the next one.
pub tick_cases {ℓ} :
    (P : MatchController → Type ℓ) (now : ℤ) (c : MatchController)
    → (is_resting c.phase ≡ true → P c)
    → (is_resting c.phase ≡ false
        → now <ℤ c.phase_start +ℤ span c
        → P (publish_match_time now (apply_phase c.phase c)))
    → (is_resting c.phase ≡ false
        → c.phase_start +ℤ span c ≤ℤ now
        → P (publish_match_time now (advance c)))
    → P (tick now c)
tick_cases P now c rest stay move = elim (Bool-cases (is_resting c.phase)) [
  | inl rests ↦ subst P (sym (tick-rests now c rests)) (rest rests)
  | inr runs ↦ elim (Bool-cases (ltb_ℤ (now -ℤ c.phase_start) (span c))) [
    | inl stays ↦
        subst P (sym (tick-stays now c runs stays)) (stay runs (deadline_ahead now c stays))
    | inr moves ↦
        subst P (sym (tick-moves now c runs moves)) (move runs (deadline_passed now c moves))
  ]
]
