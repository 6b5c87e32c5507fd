-- ===== src/SmartIo/Published.antt =====
-- What a tick of the bridge publishes for its inputs.
use pi5_system_surrogate.Prelude.{
  ℕ, ◌≡◌, refl, subst, ◌∙◌, inl, inr, Bool, true, Bool-cases, if◌then◌else◌, arith, List, [], ◌∷◌,
  ◌++◌,
}
use pi5_system_surrogate.Prelude.Int.{ℤ, pos}
use pi5_system_surrogate.Gpio.{done-inj, done, >>=-done, GpioBackend, LineUse, input, IsFaithful}
use pi5_system_surrogate.SmartIo.{ChannelMode, is_input, sample_input}
use pi5_system_surrogate.SmartIo.Sync.{InSync, use_of}
use pi5_system_surrogate.SmartIo.Bridge.{
  ChannelGlue, Topics, input_level, publish_input, tick_channel, tick,
}
use pi5_system_surrogate.SmartIo.Ticks.{
  Ready, ready_cons, Ready-other, tick_channel-Served, after_rest, after_channel,
}

-- What the channels in input mode are to publish, in order, from the levels of the lines.
abbrev pub readings : (ℕ → Bool) → List ChannelGlue → List (ℕ × ℤ)
readings level [] = []
readings level (e ∷ es) =
    let rest = readings level es in
    if is_input e.channel.mode
    then (e.channel.channel, if level e.channel.gpio then pos 255 else pos 0) ∷ rest
    else rest

-- A read of a line that is used as an input gives the line's level.
abbrev pub Reads : {B : Type 0} → GpioBackend B → (B → ℕ → LineUse) → (ℕ → Bool) → Type 0
Reads {B} g view level =
    (gpio : ℕ) (s : B) (hi : Bool)
    → view s gpio ≡ input
    → g.get_value gpio s ≡ done hi
    → hi ≡ level gpio

used_as_input : (m : ChannelMode) (v : Bool) → is_input m ≡ true → use_of m v ≡ input
used_as_input m v h = ground arith

module _ {B : Type 0} (g : GpioBackend B) (view : B → ℕ → LineUse) (ok : IsFaithful g view)
    (level : ℕ → Bool) (reads : Reads g view level) where
  publish_input-readings :
      (e : ChannelGlue) (s : B) (out : List (ℕ × ℤ)) (es : List ChannelGlue) (rest : List (ℕ × ℤ))
      → InSync g view ok e.channel s
      → publish_input g e s ≡ done out
      → rest ≡ readings level es
      → out ++ rest ≡ readings level (e ∷ es)
  unfolding publish_input sample_input
  publish_input-readings e s out es rest sync q k = elim (Bool-cases (is_input e.channel.mode)) [
    | inl in_mode ↦
        let (hi, sampled, sent) =
          >>=-done (g.get_value e.channel.gpio s)
            (λ hi. done ((e.channel.channel, input_level hi) ∷ [])) (rw in_mode at q) in
        let used = sync ∙ used_as_input e.channel.mode e.channel.last_output in_mode in
        rw (← done-inj sent, in_mode, reads e.channel.gpio s hi used sampled, k) refl
    | inr other ↦ rw (← done-inj (rw other at q), other) k
  ]

  -- On a backend that keeps its contract, a tick of the bridge whose calls on the lines all return
  -- publishes one value for each channel that it leaves in input mode, in the order of the
  -- channels, 255 where the level of the channel's line is high and 0 where it is low, and none for
  -- the others; the channels are on different lines and agree with their lines and the values last
  -- seen before it, and a read of a line that is used as an input gives the line's level, which
  -- stays as it is during the tick.
  pub tick-Published :
      (topics : Topics) (es : List ChannelGlue) (s : B) (es' : List ChannelGlue) (s' : B)
      (published : List (ℕ × ℤ))
      → Ready g view ok s es
      → tick g topics es s ≡ done (es', s', published)
      → published ≡ readings level es'
  unfolding tick
  tick-Published topics [] s es' s' published ready q =
      subst (λ (x : List ChannelGlue × B × List (ℕ × ℤ)). x.2 ≡ readings level x.0) (done-inj q)
        refl
  tick-Published topics (e ∷ es) s es' s' published (ready_cons sync set away ready) q =
      let ((e1, s1, out), one, rest1) =
        >>=-done (tick_channel g topics e s) (after_channel g view ok topics es) q in
      let ((es2, s2, more), others, rest2) =
        >>=-done (tick g topics es s1) (after_rest g view ok e1 out) rest1 in
      let (k, sampled) = tick_channel-Served g view ok topics e s e1 s1 out sync set one in
      let still =
        Ready-other g view ok e.channel.gpio s s1 es away k.stepped.keeps.elsewhere ready in
      subst (λ (x : List ChannelGlue × B × List (ℕ × ℤ)). x.2 ≡ readings level x.0) (done-inj rest2)
        (publish_input-readings e1 s1 out es2 more k.stepped.keeps.in_sync sampled
          (tick-Published topics es s1 es2 s2 more still others))
