-- ===== src/SmartIo/Always.antt =====
-- The bridge from its start, over any ticks, on a backend that keeps its contract.
use pi5_system_surrogate.Prelude.{ℕ, ◌≡◌, refl, sym, ◌∙◌, subst, inl, List, [], ◌∷◌}
use pi5_system_surrogate.Gpio.{
  done-inj, Outcome, done, ◌>>=◌, >>=-done, GpioBackend, LineUse, free, IsFaithful,
}
use pi5_system_surrogate.SmartIo.{new_channel}
use pi5_system_surrogate.SmartIo.Bridge.{
  PinMapping, ChannelGlue, Topics, new_glue, new_bridge, tick,
}
use pi5_system_surrogate.SmartIo.Ticks.{
  Away, away_nil, away_cons, Ready, ready_nil, ready_cons, AllAnswer, none_left, answers_cons,
  tick-Ticked,
}

-- `tick` with the topics of each time, in a row.
abbrev pub ticks :
    {B : Type 0}
    → GpioBackend B
    → List Topics
    → List ChannelGlue
    → B
    → Outcome B (List ChannelGlue × B)
ticks g [] es s = done (es, s)
ticks g (topics ∷ more) es s = tick g topics es s >>= λ (es', s', published). ticks g more es' s'

module _ {B : Type 0} (g : GpioBackend B) (view : B → ℕ → LineUse) (ok : IsFaithful g view) where
  -- The lines of the table are free, and no two of its entries have the same line.
  pub data Vacant (s : B) : List PinMapping → Type 0 where
    vacant_nil : Vacant s []
    vacant_cons :
        {m : PinMapping} {ms : List PinMapping}
        → view s m.gpio ≡ free
        → Away g view ok m.gpio (new_bridge ms)
        → Vacant s ms
        → Vacant s (m ∷ ms)

  pub new_bridge-Ready :
      (ms : List PinMapping) (s : B) → Vacant s ms → Ready g view ok s (new_bridge ms)
  unfolding new_bridge new_glue new_channel
  new_bridge-Ready [] s vacant_nil = ready_nil
  new_bridge-Ready (m ∷ ms) s (vacant_cons unused apart vacant) =
      ready_cons unused (record { mode = inl refl; value = inl refl }) apart
        (new_bridge-Ready ms s vacant)

  pub Away-answers :
      (n : ℕ) (topics : Topics) (s : B) {es es' : List ChannelGlue}
      → AllAnswer g view ok topics s es es'
      → Away g view ok n es
      → Away g view ok n es'
  Away-answers n topics s none_left away = away_nil
  Away-answers n topics s (answers_cons a more) (away_cons ne away) =
      away_cons (λ q. ne (q ∙ a.gpio)) (Away-answers n topics s more away)

  pub answers-Ready :
      (topics : Topics) (s s' : B) {es es' : List ChannelGlue}
      → AllAnswer g view ok topics s' es es'
      → Ready g view ok s es
      → Ready g view ok s' es'
  answers-Ready topics s s' none_left ready_nil = ready_nil
  answers-Ready topics s s' (answers_cons {e = e} {es' = es'} a more)
        (ready_cons sync set apart ready) =
      ready_cons a.in_sync a.settled
        (subst (λ n. Away g view ok n es') (sym a.gpio)
          (Away-answers e.channel.gpio topics s' more apart))
        (answers-Ready topics s s' more ready)

  ticks-Ready :
      (history : List Topics) (es : List ChannelGlue) (s : B) (es' : List ChannelGlue) (s' : B)
      → Ready g view ok s es
      → ticks g history es s ≡ done (es', s')
      → Ready g view ok s' es'
  ticks-Ready [] es s es' s' ready q =
      subst (λ (x : List ChannelGlue × B). Ready g view ok x.1 x.0) (done-inj q) ready
  ticks-Ready (topics ∷ more) es s es' s' ready q =
      let ((es1, s1, published), one, rest) =
        >>=-done (tick g topics es s) (λ (a, b, p). ticks g more a b) q in
      let ticked = tick-Ticked g view ok topics es s es1 s1 published ready one in
      ticks-Ready more es1 s1 es' s' (answers-Ready topics s s1 ticked.answers ready) rest

  -- On a backend that keeps its contract, from the start of the bridge, with its lines free and no
  -- two the same, after any ticks whose calls on the lines return, every channel agrees with its
  -- line and with the topic values that it last saw, and the channels are on different lines.
  pub bridge-Ready :
      (ms : List PinMapping) (history : List Topics) (s : B) (es' : List ChannelGlue) (s' : B)
      → Vacant s ms
      → ticks g history (new_bridge ms) s ≡ done (es', s')
      → Ready g view ok s' es'
  bridge-Ready ms history s es' s' vacant q =
      ticks-Ready history (new_bridge ms) s es' s' (new_bridge-Ready ms s vacant) q
