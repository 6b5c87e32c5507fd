-- ===== src/Daemon/Lines.antt =====
-- The bridge and the signal light on the one backend that they share. A step is what the bridge's
-- tick does on one channel for its type or for its value, or a start, tick or stop of the light, and
-- the steps of the two threads come in any order. Reading an input changes nothing.
use pi5_system_surrogate.Prelude.{
  ℕ, ◌≡◌, ◌≢◌, refl, sym, ◌∙◌, Bool, Option, none, some, List, [], ◌∷◌, ◌++◌, subst, arith,
}
use mathlib.Core.List.{append_assoc}
use pi5_system_surrogate.Gpio.{
  done, done-inj, >>=-done, GpioBackend, LineUse, output, free, Turns, IsFaithful,
}
use pi5_system_surrogate.Rsl
use pi5_system_surrogate.Rsl.{Reading}
use pi5_system_surrogate.Rsl.Light.{start-Lit, tick-Lit}
use pi5_system_surrogate.SmartIo.{new_channel}
use pi5_system_surrogate.SmartIo.Bridge.{
  ChannelGlue, Topics, new_glue, new_bridge, dispatch_type, dispatch_valset, publish_input,
  tick_channel, tick,
}
use pi5_system_surrogate.SmartIo.Rounds.{
  Stepped, dispatch_type-TypeSeen, dispatch_valset-ValsetSeen,
}
use pi5_system_surrogate.SmartIo.Ticks.{Away, away_nil, away_cons, Ready, Ready-other}
use pi5_system_surrogate.SmartIo.Always.{Vacant, vacant_nil, vacant_cons, new_bridge-Ready}
use pi5_system_surrogate.SmartIo.OneChannel.{Away-mid, Away-swap, Ready-mid, Stepped-Ready}
use pi5_system_surrogate.Prelude.Int.{ℤ}
use pi5_system_surrogate.Daemon.{pin_map, rsl_gpio}

-- The backend, the channels of the bridge, and the level last driven by the light's thread, while
-- there is one.
pub record Board (B : Type 0) : Type 0 where
  pub backend : B
  pub channels : List ChannelGlue
  pub light : Option Bool

abbrev pub board : {B : Type 0} → B → List ChannelGlue → Option Bool → Board B
board s es l = record { backend = s; channels = es; light = l }

module _ {B : Type 0} (g : GpioBackend B) where
  pub data Step : Board B → Board B → Type 0 where
    sees_type :
        {s s' : B} {l : Option Bool} (before : List ChannelGlue) (e e' : ChannelGlue)
        (after : List ChannelGlue) (t : ℤ)
        → dispatch_type g t e s ≡ done (e', s')
        → Step (board s (before ++ e ∷ after) l) (board s' (before ++ e' ∷ after) l)
    sees_value :
        {s s' : B} {l : Option Bool} (before : List ChannelGlue) (e e' : ChannelGlue)
        (after : List ChannelGlue) (v : ℤ)
        → dispatch_valset g v e s ≡ done (e', s')
        → Step (board s (before ++ e ∷ after) l) (board s' (before ++ e' ∷ after) l)
    light_starts :
        {s s' : B} {es : List ChannelGlue} {l : Bool}
        → Rsl.start g rsl_gpio s ≡ done (l, s')
        → Step (board s es none) (board s' es (some l))
    light_ticks :
        {s s' : B} {es : List ChannelGlue} {l l' : Bool} (r : Reading)
        → Rsl.tick g rsl_gpio r l s ≡ done (l', s')
        → Step (board s es (some l)) (board s' es (some l'))
    light_stops :
        {s : B} {es : List ChannelGlue} {l : Bool}
        → Step (board s es (some l)) (board (Rsl.stop g rsl_gpio s) es none)

  -- The boards that the daemon can come to from a backend.
  pub data Reach (s0 : B) : Board B → Type 0 where
    wired : Reach s0 (board s0 (new_bridge pin_map) none)
    later : {b b' : Board B} → Reach s0 b → Step b b' → Reach s0 b'

-- A tick of the bridge is a sequence of steps.
module _ {B : Type 0} (g : GpioBackend B) (s0 : B) where
  pub tick_channel-Reach :
      (topics : Topics) (before : List ChannelGlue) (e : ChannelGlue) (after : List ChannelGlue)
      (s : B) (e' : ChannelGlue) (s' : B) (out : List (ℕ × ℤ)) (l : Option Bool)
      → Reach g s0 (board s (before ++ e ∷ after) l)
      → tick_channel g topics e s ≡ done (e', s', out)
      → Reach g s0 (board s' (before ++ e' ∷ after) l)
  unfolding tick_channel
  tick_channel-Reach topics before e after s e' s' out l r q =
      let t = topics.type_of e.channel.channel in
      let v = topics.valset_of e.channel.channel in
      let ((e1, s1), typed, rest1) = >>=-done (dispatch_type g t e s) _ q in
      let ((e2, s2), valued, rest2) = >>=-done (dispatch_valset g v e1 s1) _ rest1 in
      let (out2, sampled, rest3) = >>=-done (publish_input g e2 s2) (λ p. done (e2, s2, p)) rest2 in
      subst
        (λ (x : ChannelGlue × B × List (ℕ × ℤ)). Reach g s0 (board x.1 (before ++ x.0 ∷ after) l))
        (done-inj rest3)
        (later (later r (sees_type before e e1 after t typed))
          (sees_value before e1 e2 after v valued))

  rest-Reach :
      (topics : Topics) (before es : List ChannelGlue) (s : B) (es' : List ChannelGlue) (s' : B)
      (published : List (ℕ × ℤ)) (l : Option Bool)
      → Reach g s0 (board s (before ++ es) l)
      → tick g topics es s ≡ done (es', s', published)
      → Reach g s0 (board s' (before ++ es') l)
  unfolding tick
  rest-Reach topics before [] s es' s' published l r q =
      subst (λ (x : List ChannelGlue × B × List (ℕ × ℤ)). Reach g s0 (board x.1 (before ++ x.0) l))
        (done-inj q) r
  rest-Reach topics before (e ∷ es) s es' s' published l r q =
      let ((e1, s1, out), one, rest1) = >>=-done (tick_channel g topics e s) _ q in
      let ((es2, s2, more), others, rest2) =
        >>=-done (tick g topics es s1) (λ (a, b, p). done (e1 ∷ a, b, out ++ p)) rest1 in
      let r1 = tick_channel-Reach topics before e es s e1 s1 out l r one in
      let r2 =
        rest-Reach topics (before ++ e1 ∷ []) es s1 es2 s2 more l (rw append_assoc r1) others in
      subst (λ (x : List ChannelGlue × B × List (ℕ × ℤ)). Reach g s0 (board x.1 (before ++ x.0) l))
        (done-inj rest2) (rw append_assoc at r2)

  pub tick-Reach :
      (topics : Topics) (es : List ChannelGlue) (s : B) (es' : List ChannelGlue) (s' : B)
      (published : List (ℕ × ℤ)) (l : Option Bool)
      → Reach g s0 (board s es l)
      → tick g topics es s ≡ done (es', s', published)
      → Reach g s0 (board s' es' l)
  tick-Reach topics = rest-Reach topics []

-- What the light's line is used as.
abbrev pub light_use : Option Bool → LineUse
light_use none = free
light_use (some l) = output l

module _ {B : Type 0} (g : GpioBackend B) (view : B → ℕ → LineUse) (ok : IsFaithful g view) where
  -- The channels and the light each have their own lines as they want them, and every other line is
  -- as it was at the start.
  pub record Shared (s0 : B) (b : Board B) : Type 0 where
    pub channels : Ready g view ok b.backend b.channels
    pub apart : Away g view ok rsl_gpio b.channels
    pub light : view b.backend rsl_gpio ≡ light_use b.light
    pub others : (j : ℕ) → Away g view ok j b.channels → j ≢ rsl_gpio → view b.backend j ≡ view s0 j

  -- A step that turns the light's line alone.
  light-Shared :
      (s0 : B) (l l' : Option Bool) (s s' : B) (es : List ChannelGlue)
      → Shared s0 (board s es l)
      → Turns view rsl_gpio (light_use l') s s'
      → Shared s0 (board s' es l')
  light-Shared s0 l l' s s' es k turns = record {
    channels = Ready-other g view ok rsl_gpio s s' es k.apart turns.elsewhere k.channels;
    apart = k.apart;
    light = turns.here;
    others = λ j far ne. turns.elsewhere j ne ∙ k.others j far ne;
  }

  -- A step on the line of one channel.
  channel-Shared :
      (s0 s : B) (e : ChannelGlue) (s' : B) (e' : ChannelGlue) (before after : List ChannelGlue)
      (l : Option Bool)
      → Stepped g view ok e s e' s'
      → Shared s0 (board s (before ++ e ∷ after) l)
      → Shared s0 (board s' (before ++ e' ∷ after) l)
  channel-Shared s0 s e s' e' before after l stepped k = record {
    channels = Stepped-Ready g view ok s e s' e' before after stepped k.channels;
    apart = Away-swap g view ok rsl_gpio e e' before after stepped.keeps.gpio k.apart;
    light =
        stepped.keeps.elsewhere rsl_gpio (Away-mid g view ok rsl_gpio e before after k.apart)
        ∙ k.light;
    others = λ j far ne.
        let was_far = Away-swap g view ok j e' e before after (sym stepped.keeps.gpio) far in
        stepped.keeps.elsewhere j (Away-mid g view ok j e before after was_far)
        ∙ k.others j was_far ne;
  }

  Step-Shared : (s0 : B) {b b' : Board B} → Step g b b' → Shared s0 b → Shared s0 b'
  unfolding Rsl.stop
  Step-Shared s0 (sees_type {s} {s'} {l} before e e' after t q) k =
      let (sync, set) = Ready-mid g view ok s e before after k.channels in
      channel-Shared s0 s e s' e' before after l
        (dispatch_type-TypeSeen g view ok t e s e' s' sync set q).stepped k
  Step-Shared s0 (sees_value {s} {s'} {l} before e e' after v q) k =
      let (sync, set) = Ready-mid g view ok s e before after k.channels in
      channel-Shared s0 s e s' e' before after l
        (dispatch_valset-ValsetSeen g view ok v e s e' s' sync set q).stepped k
  Step-Shared s0 (light_starts {s} {s'} {es} {l} e) k =
      light-Shared s0 none (some l) s s' es k (start-Lit g view ok rsl_gpio s l s' e)
  Step-Shared s0 (light_ticks {s} {s'} {es} {l} {l'} r e) k =
      light-Shared s0 (some l) (some l') s s' es k
        (tick-Lit g view ok rsl_gpio r s l s l' s'
          (record { here = k.light; elsewhere = λ _ _. refl }) e).1
  Step-Shared s0 (light_stops {s} {es} {l}) k =
      light-Shared s0 (some l) none s (Rsl.stop g rsl_gpio s) es k (ok.release_frees rsl_gpio s)

  -- The five lines of the daemon are free.
  pub record Unused (s : B) : Type 0 where
    pub line17 : view s 17 ≡ free
    pub line27 : view s 27 ≡ free
    pub line22 : view s 22 ≡ free
    pub line23 : view s 23 ≡ free
    pub line26 : view s rsl_gpio ≡ free

  pin_map-Vacant : (s : B) → Unused s → Vacant g view ok s pin_map
  unfolding pin_map new_bridge new_glue new_channel
  pin_map-Vacant s u =
      vacant_cons u.line17
        (away_cons (omega arith) (away_cons (omega arith) (away_cons (omega arith) away_nil)))
        (vacant_cons u.line27 (away_cons (omega arith) (away_cons (omega arith) away_nil)) (
          vacant_cons u.line22 (away_cons (omega arith) away_nil)
            (vacant_cons u.line23 away_nil vacant_nil)))

  wired-Shared : (s : B) → Unused s → Shared s (board s (new_bridge pin_map) none)
  unfolding pin_map new_bridge new_glue new_channel
  wired-Shared s u = record {
    channels = new_bridge-Ready g view ok pin_map s (pin_map-Vacant s u);
    apart =
        away_cons (omega arith)
          (away_cons (omega arith) (away_cons (omega arith) (away_cons (omega arith) away_nil)));
    light = u.line26;
    others = λ j far ne. refl;
  }

  -- On a backend that keeps its contract, with the daemon's five lines free at the start, after any
  -- sequence of the bridge's dispatches of a type or a value to a channel and of starts, ticks and
  -- stops of the signal light, in any order, whose calls on the lines return, the channels are on
  -- different lines, each as its mode and the values last seen ask, the light's line is none of
  -- theirs and is driven as the light last asked, or free when it is stopped, and every other line
  -- is as it was.
  pub Reach-Shared : (s0 : B) {b : Board B} → Unused s0 → Reach g s0 b → Shared s0 b
  Reach-Shared s0 u wired = wired-Shared s0 u
  Reach-Shared s0 u (later r st) = Step-Shared s0 st (Reach-Shared s0 u r)
