-- ===== src/SmartIo/Kept.antt =====
-- What every call on the lines keeps true of a backend, the bridge's calls on a channel keep true.
use pi5_system_surrogate.Prelude.{ℕ, ◌≡◌, ◌∙◌, subst, Bool, Bool-cases, inl, inr}
use pi5_system_surrogate.Prelude.Int.{ℤ, to_int32}
use pi5_system_surrogate.Gpio.{
  done, GpioBackend, LineUse, output, IsFaithful, ◌>>=◌, >>=-done, done-pair,
}
use pi5_system_surrogate.SmartIo.{
  ChannelMode, unconfigured, digital_input, digital_output, SmartIoChannel, requested_mode,
  same_mode, is_unconfigured, is_output, is_high, release_if_held, request_mode, enter, beside,
  change_mode, on_type_changed, on_valset,
}
use pi5_system_surrogate.SmartIo.Sync.{InSync}
use pi5_system_surrogate.SmartIo.Valset.{use_of_output}
use pi5_system_surrogate.SmartIo.Bridge.{
  ChannelGlue, is_news, saw_type, saw_valset, dispatch_type, dispatch_valset,
}

module _ {B : Type 0} (g : GpioBackend B) (view : B → ℕ → LineUse) (ok : IsFaithful g view)
    (P : B → Type 0) where
  -- Each call that returns keeps it; a write need keep it only on an output.
  pub record IsKept : Type 0 where
    pub release : (gpio : ℕ) (s : B) → P s → P (g.release_line gpio s)
    pub requested_in : (gpio : ℕ) (s s' : B) → P s → g.request_input gpio s ≡ done s' → P s'
    pub requested_out :
        (gpio : ℕ) (v : Bool) (s s' : B) → P s → g.request_output gpio v s ≡ done s' → P s'
    pub set :
        (gpio : ℕ) (v w : Bool) (s s' : B)
        → view s gpio ≡ output w
        → P s
        → g.set_value gpio v s ≡ done s'
        → P s'

  module _ (kept : IsKept) where
    release_if_held-kept : (c : SmartIoChannel) (s : B) → P s → P (release_if_held g c s)
    unfolding release_if_held
    release_if_held-kept c s p = elim (Bool-cases (is_unconfigured c.mode)) [
      | inl un ↦ rw un p
      | inr held ↦ rw held (kept.release c.gpio s p)
    ]

    request_mode-kept :
        (m : ChannelMode) (c : SmartIoChannel) (s s' : B)
        → P s
        → request_mode g m c s ≡ done s'
        → P s'
    unfolding request_mode
    request_mode-kept unconfigured c s s' p e = kept.requested_out c.gpio c.last_output s s' p e
    request_mode-kept digital_input c s s' p e = kept.requested_in c.gpio s s' p e
    request_mode-kept digital_output c s s' p e = kept.requested_out c.gpio c.last_output s s' p e

    entered-kept :
        (m : ChannelMode) (c : SmartIoChannel) (s : B) (c' : SmartIoChannel) (s' : B)
        → P s
        → (request_mode g m c (release_if_held g c s) >>= enter g m c) ≡ done (c', s')
        → P s'
    entered-kept m c s c' s' p e =
        let (s1, got, rest) =
          >>=-done (request_mode g m c (release_if_held g c s)) (enter g m c) e in
        let (_, es) = done-pair rest in
        subst P es
          (request_mode-kept m c (release_if_held g c s) s1 (release_if_held-kept c s p) got)

    change_mode-kept :
        (m : ChannelMode) (c : SmartIoChannel) (s : B) (c' : SmartIoChannel) (s' : B)
        → P s
        → change_mode g m c s ≡ done (c', s')
        → P s'
    unfolding change_mode
    change_mode-kept unconfigured c s c' s' p e =
        let (_, es) = done-pair e in subst P es (release_if_held-kept c s p)
    change_mode-kept digital_input c s c' s' p e = entered-kept digital_input c s c' s' p e
    change_mode-kept digital_output c s c' s' p e = entered-kept digital_output c s c' s' p e

    on_type_changed-kept :
        (t : ℤ) (c : SmartIoChannel) (s : B) (c' : SmartIoChannel) (s' : B)
        → P s
        → on_type_changed g t c s ≡ done (c', s')
        → P s'
    unfolding on_type_changed
    on_type_changed-kept t c s c' s' p e = elim (Bool-cases (same_mode (requested_mode t) c.mode)) [
      | inl same ↦ let (_, es) = done-pair (rw same at e) in subst P es p
      | inr other ↦ change_mode-kept (requested_mode t) c s c' s' p (rw other at e)
    ]

    on_valset-kept :
        (v : ℤ) (c : SmartIoChannel) (s : B) (c' : SmartIoChannel) (s' : B)
        → InSync g view ok c s
        → P s
        → on_valset g v c s ≡ done (c', s')
        → P s'
    unfolding on_valset
    on_valset-kept v c s c' s' sync p e = elim (Bool-cases (is_output c.mode)) [
      | inl out ↦
          let (s1, set, rest) =
            >>=-done (g.set_value c.gpio (is_high v) s)
              (beside g (record c { last_output = is_high v })) (rw out at e) in
          let (_, es) = done-pair rest in
          subst P es (
            kept.set c.gpio (is_high v) c.last_output s s1
              (sync ∙ use_of_output c.mode c.last_output out) p set)
      | inr other ↦ let (_, es) = done-pair (rw other at e) in subst P es p
    ]

    pub dispatch_type-kept :
        (t : ℤ) (e : ChannelGlue) (s : B) (e' : ChannelGlue) (s' : B)
        → P s
        → dispatch_type g t e s ≡ done (e', s')
        → P s'
    unfolding dispatch_type
    dispatch_type-kept t e s e' s' p q = elim (Bool-cases (is_news t e.last_type)) [
      | inl news ↦
          let ((c, s1), changed, rest) =
            >>=-done (on_type_changed g (to_int32 t) e.channel s) (saw_type g t e) (rw news at q) in
          let (_, es) = done-pair rest in
          subst P es (on_type_changed-kept (to_int32 t) e.channel s c s1 p changed)
      | inr old ↦ let (_, es) = done-pair (rw old at q) in subst P es p
    ]

    pub dispatch_valset-kept :
        (v : ℤ) (e : ChannelGlue) (s : B) (e' : ChannelGlue) (s' : B)
        → InSync g view ok e.channel s
        → P s
        → dispatch_valset g v e s ≡ done (e', s')
        → P s'
    unfolding dispatch_valset
    dispatch_valset-kept v e s e' s' sync p q = elim (Bool-cases (is_news v e.last_valset)) [
      | inl news ↦
          let ((c, s1), valued, rest) =
            >>=-done (on_valset g (to_int32 v) e.channel s) (saw_valset g v e) (rw news at q) in
          let (_, es) = done-pair rest in
          subst P es (on_valset-kept (to_int32 v) e.channel s c s1 sync p valued)
      | inr old ↦ let (_, es) = done-pair (rw old at q) in subst P es p
    ]
