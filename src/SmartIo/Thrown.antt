-- ===== src/SmartIo/Thrown.antt =====
-- What a call of the bridge on a channel that throws leaves of the lines.
use pi5_system_surrogate.Prelude.{ℕ, ◌≡◌, ◌∙◌, Bool, true, Bool-cases, inl, inr, [], ◌∷◌, arith}
use pi5_system_surrogate.Prelude.Int.{ℤ, to_int32}
use pi5_system_surrogate.Gpio.{
  Outcome, done, threw, GpioBackend, LineUse, input, free, Turns, IsFaithful, >>=-threw,
}
use pi5_system_surrogate.SmartIo.{
  ChannelMode, SmartIoChannel, is_input, is_output, is_high, beside, on_type_changed, on_valset,
  sample_input,
}
use pi5_system_surrogate.SmartIo.Sync.{use_of, InSync, on_type_changed-threw}
use pi5_system_surrogate.SmartIo.Valset.{use_of_output}
use pi5_system_surrogate.SmartIo.Bridge.{
  ChannelGlue, is_news, input_level, saw_type, saw_valset, dispatch_type, dispatch_valset,
  publish_input,
}

pub done_not_threw {ℓ} :
    {P : Type ℓ} {B A : Type 0} {a : A} {b : B} → ◌≡◌ {A = Outcome B A} (done a) (threw b) → P
done_not_threw e = cc

use_of_input : (m : ChannelMode) (v : Bool) → is_input m ≡ true → use_of m v ≡ input
use_of_input m v h = ground arith

module _ {B : Type 0} (g : GpioBackend B) (view : B → ℕ → LineUse) (ok : IsFaithful g view) where
  -- No line changes.
  abbrev pub Same : B → B → Type 0
  Same s s' = (j : ℕ) → view s' j ≡ view s j

  pub dispatch_type-threw :
      (t : ℤ) (e : ChannelGlue) (s s' : B)
      → InSync g view ok e.channel s
      → dispatch_type g t e s ≡ threw s'
      → Turns view e.channel.gpio free s s'
  unfolding dispatch_type
  dispatch_type-threw t e s s' sync q = elim (Bool-cases (is_news t e.last_type)) [
    | inl news ↦
        elim (>>=-threw (on_type_changed g (to_int32 t) e.channel s) (saw_type g t e)
          (rw news at q)) [
            | inl failed ↦ on_type_changed-threw g view ok (to_int32 t) e.channel s s' sync failed
            | inr (_, _, rest) ↦ done_not_threw rest
          ]
    | inr old ↦ done_not_threw (rw old at q)
  ]

  on_valset-threw :
      (v : ℤ) (c : SmartIoChannel) (s s' : B)
      → InSync g view ok c s
      → on_valset g v c s ≡ threw s'
      → Same s s'
  unfolding on_valset
  on_valset-threw v c s s' sync e = elim (Bool-cases (is_output c.mode)) [
    | inl out ↦
        elim (>>=-threw (g.set_value c.gpio (is_high v) s)
          (beside g (record c { last_output = is_high v })) (rw out at e)) [
            | inl failed ↦
                ok.set_threw c.gpio (is_high v) c.last_output s s'
                  (sync ∙ use_of_output c.mode c.last_output out) failed
            | inr (_, _, rest) ↦ done_not_threw rest
          ]
    | inr other ↦ done_not_threw (rw other at e)
  ]

  pub dispatch_valset-threw :
      (v : ℤ) (e : ChannelGlue) (s s' : B)
      → InSync g view ok e.channel s
      → dispatch_valset g v e s ≡ threw s'
      → Same s s'
  unfolding dispatch_valset
  dispatch_valset-threw v e s s' sync q = elim (Bool-cases (is_news v e.last_valset)) [
    | inl news ↦
        elim (>>=-threw (on_valset g (to_int32 v) e.channel s) (saw_valset g v e) (rw news at q)) [
          | inl failed ↦ on_valset-threw (to_int32 v) e.channel s s' sync failed
          | inr (_, _, rest) ↦ done_not_threw rest
        ]
    | inr old ↦ done_not_threw (rw old at q)
  ]

  pub publish_input-threw :
      (e : ChannelGlue) (s s' : B)
      → InSync g view ok e.channel s
      → publish_input g e s ≡ threw s'
      → Same s s'
  unfolding publish_input sample_input
  publish_input-threw e s s' sync q = elim (Bool-cases (is_input e.channel.mode)) [
    | inl used ↦
        elim (>>=-threw (g.get_value e.channel.gpio s)
          (λ hi. done ((e.channel.channel, input_level hi) ∷ [])) (rw used at q)) [
            | inl failed ↦
                ok.get_threw e.channel.gpio s s'
                  (sync ∙ use_of_input e.channel.mode e.channel.last_output used) failed
            | inr (_, _, rest) ↦ done_not_threw rest
          ]
    | inr other ↦ done_not_threw (rw other at q)
  ]
