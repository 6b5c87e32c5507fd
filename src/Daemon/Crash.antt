-- ===== src/Daemon/Crash.antt =====
-- A call on the lines that throws in the bridge or the light. No thread catches it, so it ends the
-- daemon, without any destructor: what it leaves of the lines.
use mathlib.Core.List.{append_assoc}
use pi5_system_surrogate.Prelude.{
  ℕ, ◌≡◌, refl, Bool, true, Bool-cases, inl, inr, Option, none, some, List, [], ◌∷◌, ◌++◌,
}
use pi5_system_surrogate.Prelude.Int.{ℤ}
use pi5_system_surrogate.Gpio.{
  done, threw, GpioBackend, LineUse, output, free, Turns, IsFaithful, >>=-threw,
}
use pi5_system_surrogate.Rsl
use pi5_system_surrogate.Rsl.{Reading, desired_level, differ}
use pi5_system_surrogate.SmartIo.Bridge.{
  ChannelGlue, Topics, dispatch_type, dispatch_valset, publish_input, tick_channel, tick,
}
use pi5_system_surrogate.SmartIo.OneChannel.{Away-mid, Ready-mid}
use pi5_system_surrogate.SmartIo.Ticks.{Away}
use pi5_system_surrogate.SmartIo.Thrown.{
  done_not_threw, dispatch_type-threw, dispatch_valset-threw, publish_input-threw,
}
use pi5_system_surrogate.Daemon.{rsl_gpio}
use pi5_system_surrogate.Daemon.Lines.{
  Board, board, sees_type, sees_value, Reach, later, tick_channel-Reach, Shared, Unused,
  Reach-Shared,
}

module _ {B : Type 0} (g : GpioBackend B) where
  -- The tick of the bridge, the start of the light or its tick throws, and leaves the backend so.
  pub data Fails : Board B → B → Type 0 where
    bridge_tick :
        {s s' : B} {es : List ChannelGlue} {l : Option Bool} (topics : Topics)
        → tick g topics es s ≡ threw s'
        → Fails (board s es l) s'
    light_start :
        {s s' : B} {es : List ChannelGlue}
        → Rsl.start g rsl_gpio s ≡ threw s'
        → Fails (board s es none) s'
    light_tick :
        {s s' : B} {es : List ChannelGlue} {l : Bool} (r : Reading)
        → Rsl.tick g rsl_gpio r l s ≡ threw s'
        → Fails (board s es (some l)) s'

  -- One call of the bridge on one channel throws.
  data FailsAt : Board B → B → Type 0 where
    at_type :
        {s s' : B} {l : Option Bool} (before : List ChannelGlue) (e : ChannelGlue)
        (after : List ChannelGlue) (t : ℤ)
        → dispatch_type g t e s ≡ threw s'
        → FailsAt (board s (before ++ e ∷ after) l) s'
    at_value :
        {s s' : B} {l : Option Bool} (before : List ChannelGlue) (e : ChannelGlue)
        (after : List ChannelGlue) (v : ℤ)
        → dispatch_valset g v e s ≡ threw s'
        → FailsAt (board s (before ++ e ∷ after) l) s'
    at_sample :
        {s s' : B} {l : Option Bool} (before : List ChannelGlue) (e : ChannelGlue)
        (after : List ChannelGlue)
        → publish_input g e s ≡ threw s'
        → FailsAt (board s (before ++ e ∷ after) l) s'

-- The board that the call which throws finds.
module _ {B : Type 0} (g : GpioBackend B) (s0 : B) where
  record Found (l : Option Bool) (s' : B) : Type 0 where
    last : Board B
    reached : Reach g s0 last
    same_light : last.light ≡ l
    fails : FailsAt g last s'

  found :
      {l : Option Bool} {s' : B} (b : Board B)
      → Reach g s0 b
      → b.light ≡ l
      → FailsAt g b s'
      → Found l s'
  found b r e f = record { last = b; reached = r; same_light = e; fails = f }

  tick_channel-Found :
      (topics : Topics) (before : List ChannelGlue) (e : ChannelGlue) (after : List ChannelGlue)
      (s s' : B) (l : Option Bool)
      → Reach g s0 (board s (before ++ e ∷ after) l)
      → tick_channel g topics e s ≡ threw s'
      → Found l s'
  unfolding tick_channel
  tick_channel-Found topics before e after s s' l r q =
      let t = topics.type_of e.channel.channel in
      let v = topics.valset_of e.channel.channel in
      elim (>>=-threw (dispatch_type g t e s) _ q) [
        | inl failed ↦ found _ r refl (at_type before e after t failed)
        | inr ((e1, s1), typed, rest1) ↦
            let r1 = later r (sees_type before e e1 after t typed) in
            elim (>>=-threw (dispatch_valset g v e1 s1) _ rest1) [
              | inl failed ↦ found _ r1 refl (at_value before e1 after v failed)
              | inr ((e2, s2), valued, rest2) ↦
                  let r2 = later r1 (sees_value before e1 e2 after v valued) in
                  elim (>>=-threw (publish_input g e2 s2) (λ p. done (e2, s2, p)) rest2) [
                    | inl failed ↦ found _ r2 refl (at_sample before e2 after failed)
                    | inr (_, _, rest3) ↦ done_not_threw rest3
                  ]
            ]
      ]

  rest-Found :
      (topics : Topics) (before es : List ChannelGlue) (s s' : B) (l : Option Bool)
      → Reach g s0 (board s (before ++ es) l)
      → tick g topics es s ≡ threw s'
      → Found l s'
  unfolding tick
  rest-Found topics before [] s s' l r q = done_not_threw q
  rest-Found topics before (e ∷ es) s s' l r q = elim (>>=-threw (tick_channel g topics e s) _ q) [
    | inl failed ↦ tick_channel-Found topics before e es s s' l r failed
    | inr ((e1, s1, out), one, rest1) ↦
        let r1 = tick_channel-Reach g s0 topics before e es s e1 s1 out l r one in
        elim (>>=-threw (tick g topics es s1) (λ (a, b, p). done (e1 ∷ a, b, out ++ p)) rest1) [
          | inl failed ↦
              rest-Found topics (before ++ e1 ∷ []) es s1 s' l (rw append_assoc r1) failed
          | inr (_, _, rest2) ↦ done_not_threw rest2
        ]
  ]

module _ {B : Type 0} (g : GpioBackend B) (view : B → ℕ → LineUse) (ok : IsFaithful g view) where
  -- A line of a channel or of the light is freed, or no line changes.
  pub data Spoils (b : Board B) (s' : B) : Type 0 where
    frees :
        (gpio : ℕ)
        → (Away g view ok gpio b.channels → gpio ≡ rsl_gpio)
        → Turns view gpio free b.backend s'
        → Spoils b s'
    spares : ((j : ℕ) → view s' j ≡ view b.backend j) → Spoils b s'

  -- The board that the call found, with the lines as they are wanted, and what has become of them.
  pub record Ends (s0 : B) (l : Option Bool) (s' : B) : Type 0 where
    pub last : Board B
    pub shared : Shared g view ok s0 last
    pub light : last.light ≡ l
    pub spoils : Spoils last s'

  FailsAt-Spoils :
      (s0 : B) {b : Board B} {s' : B} → Shared g view ok s0 b → FailsAt g b s' → Spoils b s'
  FailsAt-Spoils s0 {s' = s'} k (at_type {s} before e after t q) =
      frees e.channel.gpio
        (λ far. absurd (Away-mid g view ok e.channel.gpio e before after far refl))
        (dispatch_type-threw g view ok t e s s' (Ready-mid g view ok s e before after k.channels).0
          q)
  FailsAt-Spoils s0 {s' = s'} k (at_value {s} before e after v q) = spares (
      dispatch_valset-threw g view ok v e s s' (Ready-mid g view ok s e before after k.channels).0
        q)
  FailsAt-Spoils s0 {s' = s'} k (at_sample {s} before e after q) =
      spares
        (publish_input-threw g view ok e s s' (Ready-mid g view ok s e before after k.channels).0 q)

  light_start-Spoils :
      (s s' : B) (es : List ChannelGlue)
      → Rsl.start g rsl_gpio s ≡ threw s'
      → Spoils (board s es none) s'
  unfolding Rsl.start
  light_start-Spoils s s' es e =
      elim (>>=-threw (g.request_output rsl_gpio true s) (λ t. done (true, t)) e) [
        | inl failed ↦ frees rsl_gpio (λ _. refl) (ok.output_threw rsl_gpio true s s' failed)
        | inr (_, _, rest) ↦ done_not_threw rest
      ]

  light_tick-Spoils :
      (r : Reading) (l : Bool) (s s' : B) (es : List ChannelGlue)
      → view s rsl_gpio ≡ output l
      → Rsl.tick g rsl_gpio r l s ≡ threw s'
      → Spoils (board s es (some l)) s'
  unfolding Rsl.tick
  light_tick-Spoils r l s s' es lit e =
      let want = desired_level r.enabled r.elapsed in
      elim (Bool-cases (differ want l)) [
        | inl news ↦
            elim (>>=-threw (g.set_value rsl_gpio want s) (λ t. done (want, t)) (rw news at e)) [
              | inl failed ↦ spares (ok.set_threw rsl_gpio want l s s' lit failed)
              | inr (_, _, rest) ↦ done_not_threw rest
            ]
        | inr old ↦ done_not_threw (rw old at e)
      ]

  -- On a backend that keeps its contract, with the daemon's five lines free at the start, if after
  -- any sequence of dispatches and of steps of the light whose calls return a tick of the bridge or
  -- a start or tick of the light throws, which ends the daemon, then the call that threw found each
  -- channel's line, the light's line and all others as they should be, and it has freed one line,
  -- of a channel or of the light, and changed no other, or it has changed no line.
  pub Fails-Ends :
      (s0 : B) {b : Board B} {s' : B}
      → Unused g view ok s0
      → Reach g s0 b
      → Fails g b s'
      → Ends s0 b.light s'
  Fails-Ends s0 {s' = s'} u r (bridge_tick {s} {es = es} {l} topics e) =
      let f = rest-Found g s0 topics [] es s s' l r e in
      let k = Reach-Shared g view ok s0 u f.reached in
      record {
        last = f.last;
        shared = k;
        light = f.same_light;
        spoils = FailsAt-Spoils s0 k f.fails;
      }
  Fails-Ends s0 {b} {s'} u r (light_start {s} {es = es} e) = record {
    last = b;
    shared = Reach-Shared g view ok s0 u r;
    light = refl;
    spoils = light_start-Spoils s s' es e;
  }
  Fails-Ends s0 {b} {s'} u r (light_tick {s} {es = es} {l} reading e) =
      let k = Reach-Shared g view ok s0 u r in
      record {
        last = b;
        shared = k;
        light = refl;
        spoils = light_tick-Spoils reading l s s' es k.light e;
      }
