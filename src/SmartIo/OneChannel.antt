-- ===== src/SmartIo/OneChannel.antt =====
-- A call of the bridge on one channel of several.
use pi5_system_surrogate.Prelude.{ℕ, ◌≡◌, ◌≢◌, sym, ◌∙◌, subst, List, [], ◌∷◌, ◌++◌}
use pi5_system_surrogate.Gpio.{GpioBackend, LineUse, IsFaithful}
use pi5_system_surrogate.SmartIo.Sync.{InSync}
use pi5_system_surrogate.SmartIo.Bridge.{ChannelGlue}
use pi5_system_surrogate.SmartIo.Rounds.{IsSettled, Stepped}
use pi5_system_surrogate.SmartIo.Ticks.{Away, away_cons, Ready, ready_cons, Ready-other}

module _ {B : Type 0} (g : GpioBackend B) (view : B → ℕ → LineUse) (ok : IsFaithful g view) where
  pub Away-mid :
      (j : ℕ) (e : ChannelGlue) (before after : List ChannelGlue)
      → Away g view ok j (before ++ e ∷ after)
      → j ≢ e.channel.gpio
  Away-mid j e [] after (away_cons ne far) = ne
  Away-mid j e (x ∷ before) after (away_cons ne far) = Away-mid j e before after far

  -- A channel in the place of another on the same line.
  pub Away-swap :
      (j : ℕ) (e e' : ChannelGlue) (before after : List ChannelGlue)
      → e'.channel.gpio ≡ e.channel.gpio
      → Away g view ok j (before ++ e ∷ after)
      → Away g view ok j (before ++ e' ∷ after)
  Away-swap j e e' [] after q (away_cons ne far) = away_cons (λ r. ne (r ∙ q)) far
  Away-swap j e e' (x ∷ before) after q (away_cons ne far) =
      away_cons ne (Away-swap j e e' before after q far)

  pub Ready-mid :
      (s : B) (e : ChannelGlue) (before after : List ChannelGlue)
      → Ready g view ok s (before ++ e ∷ after)
      → InSync g view ok e.channel s × IsSettled e
  Ready-mid s e [] after (ready_cons sync set apart ready) = (sync, set)
  Ready-mid s e (x ∷ before) after (ready_cons sync set apart ready) =
      Ready-mid s e before after ready

  pub Stepped-Ready :
      (s : B) (e : ChannelGlue) (s' : B) (e' : ChannelGlue) (before after : List ChannelGlue)
      → Stepped g view ok e s e' s'
      → Ready g view ok s (before ++ e ∷ after)
      → Ready g view ok s' (before ++ e' ∷ after)
  Stepped-Ready s e s' e' [] after k (ready_cons sync set apart ready) =
      ready_cons k.keeps.in_sync k.settled
        (subst (λ n. Away g view ok n after) (sym k.keeps.gpio) apart)
        (Ready-other g view ok e.channel.gpio s s' after apart k.keeps.elsewhere ready)
  Stepped-Ready s e s' e' (x ∷ before) after k (ready_cons sync set apart ready) =
      ready_cons (k.keeps.elsewhere x.channel.gpio (Away-mid _ e before after apart) ∙ sync) set
        (Away-swap _ e e' before after k.keeps.gpio apart)
        (Stepped-Ready s e s' e' before after k ready)
