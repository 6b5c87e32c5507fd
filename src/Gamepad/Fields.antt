-- ===== src/Gamepad/Fields.antt =====
-- The writes of the ingest, field by field.
use pi5_system_surrogate.Prelude.{
  ◌≡◌, refl, sym, ◌∙◌, ap, ap₂, Bool, true, false, Bool-cases, inl, inr, ◌⊎◌, not, ◌||◌, arith,
}
use pi5_system_surrogate.Prelude.Int.{ℤ, eqb_ℤ, eqb_ℤ→≡, to_int32}
use pi5_system_surrogate.DaemonState.{DaemonState, set_enabled, set_mode, set_alliance, set_e_stop}
use pi5_system_surrogate.Gamepad.{
  Controls, GamepadIngest, mode_from_int, differ, ingest_enabled, ingest_mode, ingest_alliance,
  ingest_e_stop,
}

-- The field stands as the value last seen asks for, or nothing was seen yet.
abbrev pub Mirrored : {A : Type 0} → GamepadIngest → A → A → Type 0
Mirrored g field wanted = (g.first_tick ≡ true) ⊎ (field ≡ wanted)

Mirrored-old :
    {A : Type 0} (g : GamepadIngest) {field wanted : A}
    → Mirrored g field wanted
    → g.first_tick ≡ false
    → field ≡ wanted
Mirrored-old g (inl first) h = absurd (ground arith)
Mirrored-old g (inr q) h = q

pub differ_self : (b : Bool) → differ b b ≡ false
differ_self b = ground arith

pub differ-false : (a b : Bool) → differ a b ≡ false → a ≡ b
differ-false a b h = ground arith

pub enabled-asked :
    (c : Controls) (g : GamepadIngest) (s : DaemonState)
    → Mirrored g s.enabled g.last_enabled_seen
    → ingest_enabled c (g, s)
      ≡ (record g { last_enabled_seen = c.enabled }, record s { enabled = c.enabled })
unfolding ingest_enabled set_enabled
enabled-asked c g s h = elim (Bool-cases (g.first_tick || differ c.enabled g.last_enabled_seen)) [
  | inl news ↦ rw news refl
  | inr old ↦
      let same = differ-false c.enabled g.last_enabled_seen (ground arith) in
      let mirrored = Mirrored-old g h (ground arith) in
      rw old (
        sym (
          ap₂ (λ a b. (record g { last_enabled_seen = a }, record s { enabled = b })) same
            (same ∙ sym mirrored)))
]

pub not-false : (v last : ℤ) → not (eqb_ℤ v last) ≡ false → v ≡ last
not-false v last h = eqb_ℤ→≡ v last (ground arith)

pub mode-asked :
    (c : Controls) (g : GamepadIngest) (s : DaemonState)
    → Mirrored g s.mode (mode_from_int g.last_mode_seen)
    → ingest_mode c (g, s)
      ≡ (record g { last_mode_seen = c.mode }, record s { mode = mode_from_int c.mode })
unfolding ingest_mode set_mode
mode-asked c g s h = elim (Bool-cases (g.first_tick || not (eqb_ℤ c.mode g.last_mode_seen))) [
  | inl news ↦ rw news refl
  | inr old ↦
      let same = not-false c.mode g.last_mode_seen (ground arith) in
      let mirrored = Mirrored-old g h (ground arith) in
      rw old (
        sym (
          ap₂ (λ a b. (record g { last_mode_seen = a }, record s { mode = b })) same
            (ap mode_from_int same ∙ sym mirrored)))
]

pub alliance-asked :
    (c : Controls) (g : GamepadIngest) (s : DaemonState)
    → Mirrored g s.alliance (to_int32 g.last_alliance_seen)
    → ingest_alliance c (g, s)
      ≡ (record g { last_alliance_seen = c.alliance }, record s { alliance = to_int32 c.alliance })
unfolding ingest_alliance set_alliance
alliance-asked c g s h =
    elim (Bool-cases (g.first_tick || not (eqb_ℤ c.alliance g.last_alliance_seen))) [
      | inl news ↦ rw news refl
      | inr old ↦
          let same = not-false c.alliance g.last_alliance_seen (ground arith) in
          let mirrored = Mirrored-old g h (ground arith) in
          rw old (
            sym (
              ap₂ (λ a b. (record g { last_alliance_seen = a }, record s { alliance = b })) same
                (ap to_int32 same ∙ sym mirrored)))
    ]

pub e_stop-asked :
    (c : Controls) (g : GamepadIngest) (s : DaemonState)
    → Mirrored g s.e_stop g.last_estop_seen
    → ingest_e_stop c (g, s)
      ≡ (record g { last_estop_seen = c.e_stop }, record s { e_stop = c.e_stop })
unfolding ingest_e_stop set_e_stop
e_stop-asked c g s h = elim (Bool-cases (g.first_tick || differ c.e_stop g.last_estop_seen)) [
  | inl news ↦ rw news refl
  | inr old ↦
      let same = differ-false c.e_stop g.last_estop_seen (ground arith) in
      let mirrored = Mirrored-old g h (ground arith) in
      rw old (
        sym (
          ap₂ (λ a b. (record g { last_estop_seen = a }, record s { e_stop = b })) same
            (same ∙ sym mirrored)))
]
