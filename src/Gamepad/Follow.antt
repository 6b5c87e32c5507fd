-- ===== src/Gamepad/Follow.antt =====
-- The control topics and the shared state, over ticks and the writes of other parts between them.
use pi5_system_surrogate.Prelude.{
  ◌≡◌, refl, sym, ◌∙◌, ap, subst, false, Bool-cases, inl, inr, not, ◌||◌, List, [], ◌∷◌, ◌++◌,
  arith,
}
use pi5_system_surrogate.Prelude.Int.{eqb_ℤ, eqb_ℤ-self, to_int32}
use pi5_system_surrogate.DaemonState.{DaemonState}
use pi5_system_surrogate.Gamepad.{
  Controls, GamepadIngest, gamepad_ingest, mode_from_int, differ, ingest_enabled, ingest_mode,
  ingest_alliance, ingest_e_stop, ticked, tick,
}
use pi5_system_surrogate.Gamepad.Fields.{
  Mirrored, differ_self, differ-false, enabled-asked, not-false, mode-asked, alliance-asked,
  e_stop-asked,
}

-- The values last seen.
abbrev pub seen : Controls → GamepadIngest
seen c = record {
  last_enabled_seen = c.enabled;
  last_estop_seen = c.e_stop;
  last_mode_seen = c.mode;
  last_alliance_seen = c.alliance;
  first_tick = false;
}

-- The state with the four fields as the topics ask, and the match time as it was.
abbrev pub asked : Controls → DaemonState → DaemonState
asked c s = record s {
  enabled = c.enabled;
  mode = mode_from_int c.mode;
  alliance = to_int32 c.alliance;
  e_stop = c.e_stop;
}

-- Nothing was seen yet, or the four fields stand as the values last seen ask for.
pub record IsMirrored (g : GamepadIngest) (s : DaemonState) : Type 0 where
  pub enabled : Mirrored g s.enabled g.last_enabled_seen
  pub mode : Mirrored g s.mode (mode_from_int g.last_mode_seen)
  pub alliance : Mirrored g s.alliance (to_int32 g.last_alliance_seen)
  pub e_stop : Mirrored g s.e_stop g.last_estop_seen

tick-asked :
    (c : Controls) (g : GamepadIngest) (s : DaemonState)
    → IsMirrored g s
    → tick c (g, s) ≡ (seen c, asked c s)
unfolding tick
tick-asked c g s m =
    let g1 = record g { last_enabled_seen = c.enabled } in
    let s1 = record s { enabled = c.enabled } in
    let g2 = record g1 { last_mode_seen = c.mode } in
    let s2 = record s1 { mode = mode_from_int c.mode } in
    let g3 = record g2 { last_alliance_seen = c.alliance } in
    let s3 = record s2 { alliance = to_int32 c.alliance } in
    ap (λ x. ticked (ingest_e_stop c (ingest_alliance c (ingest_mode c x))))
      (enabled-asked c g s m.enabled)
    ∙ ap (λ x. ticked (ingest_e_stop c (ingest_alliance c x))) (mode-asked c g1 s1 m.mode)
    ∙ ap (λ x. ticked (ingest_e_stop c x)) (alliance-asked c g2 s2 m.alliance)
    ∙ ap ticked (e_stop-asked c g3 s3 m.e_stop)

asked-IsMirrored : (c : Controls) (s : DaemonState) → IsMirrored (seen c) (asked c s)
asked-IsMirrored c s = record {
  enabled = inr refl;
  mode = inr refl;
  alliance = inr refl;
  e_stop = inr refl;
}

-- Ticks in a row, with no other writer.
abbrev pub ticks : List Controls → GamepadIngest × DaemonState → GamepadIngest × DaemonState
ticks [] x = x
ticks (c ∷ cs) x = ticks cs (tick c x)

ticks-asked :
    (cs : List Controls) (c : Controls) (s : DaemonState) (c' : Controls)
    → ticks (cs ++ c' ∷ []) (seen c, asked c s) ≡ (seen c', asked c' s)
ticks-asked [] c s c' = tick-asked c' (seen c) (asked c s) (asked-IsMirrored c s)
ticks-asked (c1 ∷ cs) c s c' =
    ap (ticks (cs ++ c' ∷ [])) (tick-asked c1 (seen c) (asked c s) (asked-IsMirrored c s))
    ∙ ticks-asked cs c1 s c'

first-asked : (c : Controls) (s : DaemonState) → tick c (gamepad_ingest, s) ≡ (seen c, asked c s)
unfolding gamepad_ingest
first-asked c s =
    tick-asked c gamepad_ingest s
      (record { enabled = inl refl; mode = inl refl; alliance = inl refl; e_stop = inl refl })

-- From the start of the ingest, after any ticks with no other writer, the enable bit, the mode, the
-- alliance and the emergency stop stand as the topics of the last tick ask, whatever they were
-- before, and the match time is as it was.
pub ticks-follow :
    (cs : List Controls) (c : Controls) (s : DaemonState)
    → ticks (cs ++ c ∷ []) (gamepad_ingest, s) ≡ (seen c, asked c s)
unfolding gamepad_ingest
ticks-follow [] c s = first-asked c s
ticks-follow (c1 ∷ cs) c s = ap (ticks (cs ++ c ∷ [])) (first-asked c1 s) ∙ ticks-asked cs c1 s c

enabled-seen :
    (c : Controls) (x : GamepadIngest × DaemonState)
    → (ingest_enabled c x).0 ≡ record (x.0) { last_enabled_seen = c.enabled }
unfolding ingest_enabled
enabled-seen c (g, s) = elim (Bool-cases (g.first_tick || differ c.enabled g.last_enabled_seen)) [
  | inl news ↦ rw news refl
  | inr old ↦ rw old (
      sym (
        ap (λ a. record g { last_enabled_seen = a })
          (differ-false c.enabled g.last_enabled_seen (ground arith))))
]

mode-seen :
    (c : Controls) (x : GamepadIngest × DaemonState)
    → (ingest_mode c x).0 ≡ record (x.0) { last_mode_seen = c.mode }
unfolding ingest_mode
mode-seen c (g, s) = elim (Bool-cases (g.first_tick || not (eqb_ℤ c.mode g.last_mode_seen))) [
  | inl news ↦ rw news refl
  | inr old ↦ rw old (
      sym (
        ap (λ a. record g { last_mode_seen = a })
          (not-false c.mode g.last_mode_seen (ground arith))))
]

alliance-seen :
    (c : Controls) (x : GamepadIngest × DaemonState)
    → (ingest_alliance c x).0 ≡ record (x.0) { last_alliance_seen = c.alliance }
unfolding ingest_alliance
alliance-seen c (g, s) =
    elim (Bool-cases (g.first_tick || not (eqb_ℤ c.alliance g.last_alliance_seen))) [
      | inl news ↦ rw news refl
      | inr old ↦ rw old (
          sym (
            ap (λ a. record g { last_alliance_seen = a })
              (not-false c.alliance g.last_alliance_seen (ground arith))))
    ]

e_stop-seen :
    (c : Controls) (x : GamepadIngest × DaemonState)
    → (ingest_e_stop c x).0 ≡ record (x.0) { last_estop_seen = c.e_stop }
unfolding ingest_e_stop
e_stop-seen c (g, s) = elim (Bool-cases (g.first_tick || differ c.e_stop g.last_estop_seen)) [
  | inl news ↦ rw news refl
  | inr old ↦ rw old (
      sym (
        ap (λ a. record g { last_estop_seen = a })
          (differ-false c.e_stop g.last_estop_seen (ground arith))))
]

tick-seen : (c : Controls) (x : GamepadIngest × DaemonState) → (tick c x).0 ≡ seen c
unfolding tick
tick-seen c x =
    let x1 = ingest_enabled c x in
    let x2 = ingest_mode c x1 in
    let x3 = ingest_alliance c x2 in
    ap {A = GamepadIngest} (λ g. record g { first_tick = false }) (e_stop-seen c x3)
    ∙ ap {A = GamepadIngest} (λ g. record g { first_tick = false; last_estop_seen = c.e_stop })
        (alliance-seen c x2)
    ∙ ap {A = GamepadIngest}
        (λ g. record g {
          first_tick = false;
          last_estop_seen = c.e_stop;
          last_alliance_seen = c.alliance;
        })
        (mode-seen c x1)
    ∙ ap {A = GamepadIngest}
        (λ g. record g {
          first_tick = false;
          last_estop_seen = c.e_stop;
          last_alliance_seen = c.alliance;
          last_mode_seen = c.mode;
        })
        (enabled-seen c x)

quiet : (c : Controls) (s : DaemonState) → tick c (seen c, s) ≡ (seen c, s)
unfolding tick ingest_enabled ingest_mode ingest_alliance ingest_e_stop
quiet c s =
    rw (differ_self c.enabled, eqb_ℤ-self c.mode, eqb_ℤ-self c.alliance, differ_self c.e_stop) refl

-- A tick with the same topics as the tick before it writes nothing: whatever other parts wrote into
-- the shared state in between stays.
pub tick-repeat :
    (c : Controls) (g : GamepadIngest) (s s' : DaemonState)
    → tick c ((tick c (g, s)).0, s') ≡ ((tick c (g, s)).0, s')
tick-repeat c g s s' =
    subst (λ g'. tick c (g', s') ≡ (g', s')) (sym (tick-seen c (g, s))) (quiet c s')
