-- ===== src/SmartIo/Rounds.antt =====
-- One round of the bridge: a channel against its topics.
use pi5_system_surrogate.Prelude.{
  ℕ, ◌≡◌, refl, sym, ◌∙◌, subst₂, ◌⊎◌, inl, inr, false, Bool-cases, arith,
}
use pi5_system_surrogate.Prelude.Int.{ℤ, eqb_ℤ, eqb_ℤ→≡, to_int32}
use pi5_system_surrogate.Gpio.{done, >>=-done, done-pair, GpioBackend, LineUse, IsFaithful}
use pi5_system_surrogate.SmartIo.{
  SmartIoChannel, requested_mode, is_high, on_type_changed, on_valset,
}
use pi5_system_surrogate.SmartIo.Sync.{InSync, Keeps, Changed, on_type_changed-Changed}
use pi5_system_surrogate.SmartIo.Valset.{Valued, on_valset-Valued}
use pi5_system_surrogate.SmartIo.Bridge.{
  sentinel, ChannelGlue, is_news, saw_type, saw_valset, dispatch_type, dispatch_valset,
}

-- The channel stands as the values last seen ask for.
pub record IsSettled (e : ChannelGlue) : Type 0 where
  pub mode : (e.last_type ≡ sentinel) ⊎ (e.channel.mode ≡ requested_mode (to_int32 e.last_type))
  pub value :
      (e.last_valset ≡ sentinel) ⊎ (e.channel.last_output ≡ is_high (to_int32 e.last_valset))

-- Nothing new, although there is a value: it is the last one seen.
seen_or_none : (v last : ℤ) → is_news v last ≡ false → (v ≡ sentinel) ⊎ (last ≡ v)
seen_or_none v last h = elim (Bool-cases (eqb_ℤ v last)) [
  | inl same ↦ inr (sym (eqb_ℤ→≡ v last same))
  | inr other ↦ inl (eqb_ℤ→≡ v sentinel (ground arith))
]

module _ {B : Type 0} (g : GpioBackend B) (view : B → ℕ → LineUse) (ok : IsFaithful g view) where
  -- A step of the round, on one line: the channel stays in sync and settled, and the last value
  -- seen is the topic's, if that has one.
  pub record Stepped (e : ChannelGlue) (s : B) (e' : ChannelGlue) (s' : B) : Type 0 where
    pub keeps : Keeps g view ok e.channel s e'.channel s'
    pub settled : IsSettled e'

  pub Keeps-trans :
      (a b d : SmartIoChannel) (s t u : B)
      → Keeps g view ok a s b t
      → Keeps g view ok b t d u
      → Keeps g view ok a s d u
  Keeps-trans a b d s t u k l = record {
    channel = l.channel ∙ k.channel;
    gpio = l.gpio ∙ k.gpio;
    in_sync = l.in_sync;
    elsewhere = λ j ne. l.elsewhere j (λ q. ne (q ∙ k.gpio)) ∙ k.elsewhere j ne;
  }

  pub record TypeSeen (t : ℤ) (e : ChannelGlue) (s : B) (e' : ChannelGlue) (s' : B) : Type 0 where
    pub stepped : Stepped e s e' s'
    pub seen : (t ≡ sentinel) ⊎ (e'.last_type ≡ t)
    pub other : e'.last_valset ≡ e.last_valset

  type_seen :
      (t : ℤ) (e : ChannelGlue) (s : B) (c : SmartIoChannel) (s' : B)
      → IsSettled e
      → Changed g view ok (requested_mode (to_int32 t)) e.channel s c s'
      → TypeSeen t e s (record e { channel = c; last_type = t }) s'
  type_seen t e s c s' set k = record {
    stepped = record {
      keeps = k.keeps;
      settled = record {
        mode = inr k.mode;
        value = elim set.value [ inl q ↦ inl q | inr q ↦ inr (k.last_output ∙ q) ];
      };
    };
    seen = inr refl;
    other = refl;
  }

  unchanged :
      (e : ChannelGlue) (s : B) → InSync g view ok e.channel s → IsSettled e → Stepped e s e s
  unchanged e s sync set = record {
    keeps = record { channel = refl; gpio = refl; in_sync = sync; elsewhere = λ _ _. refl };
    settled = set;
  }

  pub dispatch_type-TypeSeen :
      (t : ℤ) (e : ChannelGlue) (s : B) (e' : ChannelGlue) (s' : B)
      → InSync g view ok e.channel s
      → IsSettled e
      → dispatch_type g t e s ≡ done (e', s')
      → TypeSeen t e s e' s'
  unfolding dispatch_type
  dispatch_type-TypeSeen t e s e' s' sync set q = elim (Bool-cases (is_news t e.last_type)) [
    | inl news ↦
        let ((c, s1), changed, rest) =
          >>=-done (on_type_changed g (to_int32 t) e.channel s) (saw_type g t e) (rw news at q) in
        let (ee, es) = done-pair rest in
        subst₂ (TypeSeen t e s) ee es (
          type_seen t e s c s1 set
            (on_type_changed-Changed g view ok (to_int32 t) e.channel s c s1 sync changed))
    | inr old ↦
        let (ee, es) = done-pair (rw old at q) in
        subst₂ (TypeSeen t e s) ee es (record {
          stepped = unchanged e s sync set;
          seen = seen_or_none t e.last_type old;
          other = refl;
        })
  ]

  pub record ValsetSeen (v : ℤ) (e : ChannelGlue) (s : B) (e' : ChannelGlue) (s' : B) : Type 0 where
    pub stepped : Stepped e s e' s'
    pub seen : (v ≡ sentinel) ⊎ (e'.last_valset ≡ v)
    pub other : e'.last_type ≡ e.last_type

  valset_seen :
      (v : ℤ) (e : ChannelGlue) (s : B) (c : SmartIoChannel) (s' : B)
      → IsSettled e
      → Valued g view ok (is_high (to_int32 v)) e.channel s c s'
      → ValsetSeen v e s (record e { channel = c; last_valset = v }) s'
  valset_seen v e s c s' set k = record {
    stepped = record {
      keeps = k.keeps;
      settled = record {
        mode = elim set.mode [ inl q ↦ inl q | inr q ↦ inr (k.mode ∙ q) ];
        value = inr k.last_output;
      };
    };
    seen = inr refl;
    other = refl;
  }

  pub dispatch_valset-ValsetSeen :
      (v : ℤ) (e : ChannelGlue) (s : B) (e' : ChannelGlue) (s' : B)
      → InSync g view ok e.channel s
      → IsSettled e
      → dispatch_valset g v e s ≡ done (e', s')
      → ValsetSeen v e s e' s'
  unfolding dispatch_valset
  dispatch_valset-ValsetSeen v e s e' s' sync set q = elim (Bool-cases (is_news v e.last_valset)) [
    | inl news ↦
        let ((c, s1), changed, rest) =
          >>=-done (on_valset g (to_int32 v) e.channel s) (saw_valset g v e) (rw news at q) in
        let (ee, es) = done-pair rest in
        subst₂ (ValsetSeen v e s) ee es (
          valset_seen v e s c s1 set
            (on_valset-Valued g view ok (to_int32 v) e.channel s c s1 sync changed))
    | inr old ↦
        let (ee, es) = done-pair (rw old at q) in
        subst₂ (ValsetSeen v e s) ee es (record {
          stepped = unchanged e s sync set;
          seen = seen_or_none v e.last_valset old;
          other = refl;
        })
  ]
