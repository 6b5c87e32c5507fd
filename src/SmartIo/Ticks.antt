-- ===== src/SmartIo/Ticks.antt =====
-- A whole tick of the bridge, over a backend that keeps its contract.
use pi5_system_surrogate.Prelude.{
  ℕ, ◌≡◌, ◌≢◌, refl, sym, ◌∙◌, ap, subst, ◌⊎◌, inl, inr, List, [], ◌∷◌, ◌++◌,
}
use pi5_system_surrogate.Prelude.Int.{ℤ, to_int32}
use pi5_system_surrogate.Gpio.{
  done-inj, Outcome, done, ◌>>=◌, >>=-done, GpioBackend, LineUse, IsFaithful,
}
use pi5_system_surrogate.SmartIo.{requested_mode, is_high}
use pi5_system_surrogate.SmartIo.Sync.{InSync}
use pi5_system_surrogate.SmartIo.Bridge.{
  sentinel, ChannelGlue, Topics, dispatch_type, dispatch_valset, publish_input, tick_channel, tick,
}
use pi5_system_surrogate.SmartIo.Rounds.{
  IsSettled, Stepped, Keeps-trans, TypeSeen, dispatch_type-TypeSeen, ValsetSeen,
  dispatch_valset-ValsetSeen,
}

module _ {B : Type 0} (g : GpioBackend B) (view : B → ℕ → LineUse) (ok : IsFaithful g view) where
  -- What one round leaves behind: the channel on the same line, in sync with it, its mode and value
  -- as the topics ask where they were published; the other lines as they were.
  pub record Served (topics : Topics) (e : ChannelGlue) (s : B) (e' : ChannelGlue) (s' : B)
      : Type 0 where
    pub stepped : Stepped g view ok e s e' s'
    pub mode :
        (topics.type_of e.channel.channel ≡ sentinel)
        ⊎ (e'.channel.mode ≡ requested_mode (to_int32 (topics.type_of e.channel.channel)))
    pub value :
        (topics.valset_of e.channel.channel ≡ sentinel)
        ⊎ (e'.channel.last_output ≡ is_high (to_int32 (topics.valset_of e.channel.channel)))

  -- A settled field, once the value last seen is the topic's.
  asked_for :
      {A : Type 0} {last v : ℤ} {field : A} (f : ℤ → A)
      → (last ≡ sentinel) ⊎ (field ≡ f last)
      → (v ≡ sentinel) ⊎ (last ≡ v)
      → (v ≡ sentinel) ⊎ (field ≡ f v)
  asked_for f set (inl none) = inl none
  asked_for f (inl unset) (inr q) = inl (sym q ∙ unset)
  asked_for f (inr q') (inr q) = inr (q' ∙ ap f q)

  served :
      (topics : Topics) (e : ChannelGlue) (s : B) (e1 : ChannelGlue) (s1 : B) (e' : ChannelGlue)
      (s' : B)
      → TypeSeen g view ok (topics.type_of e.channel.channel) e s e1 s1
      → ValsetSeen g view ok (topics.valset_of e.channel.channel) e1 s1 e' s'
      → Served topics e s e' s'
  served topics e s e1 s1 e' s' a b = record {
    stepped = record {
      keeps =
          Keeps-trans g view ok e.channel e1.channel e'.channel s s1 s' a.stepped.keeps
            b.stepped.keeps;
      settled = b.stepped.settled;
    };
    mode =
        asked_for (λ x. requested_mode (to_int32 x)) b.stepped.settled.mode
          (elim a.seen [ inl none ↦ inl none | inr q ↦ inr (b.other ∙ q) ]);
    value = asked_for (λ x. is_high (to_int32 x)) b.stepped.settled.value b.seen;
  }

  -- What is left of the round after the call on the type, and after that on the value.
  abbrev pub after_valset : ChannelGlue × B → Outcome B (ChannelGlue × B × List (ℕ × ℤ))
  after_valset (e2, s2) = publish_input g e2 s2 >>= λ p. done (e2, s2, p)

  abbrev pub after_type : Topics → ℕ → ChannelGlue × B → Outcome B (ChannelGlue × B × List (ℕ × ℤ))
  after_type topics n (e1, s1) = dispatch_valset g (topics.valset_of n) e1 s1 >>= after_valset

  pub tick_channel-Served :
      (topics : Topics) (e : ChannelGlue) (s : B) (e' : ChannelGlue) (s' : B)
      (published : List (ℕ × ℤ))
      → InSync g view ok e.channel s
      → IsSettled e
      → tick_channel g topics e s ≡ done (e', s', published)
      → Served topics e s e' s' × (publish_input g e' s' ≡ done published)
  unfolding tick_channel
  tick_channel-Served topics e s e' s' published sync set q =
      let t = topics.type_of e.channel.channel in
      let v = topics.valset_of e.channel.channel in
      let ((e1, s1), typed, rest1) =
        >>=-done (dispatch_type g t e s) (after_type topics e.channel.channel) q in
      let ((e2, s2), valued, rest2) = >>=-done (dispatch_valset g v e1 s1) after_valset rest1 in
      let (out, sampled, rest3) = >>=-done (publish_input g e2 s2) (λ p. done (e2, s2, p)) rest2 in
      let a = dispatch_type-TypeSeen g view ok t e s e1 s1 sync set typed in
      let b =
        dispatch_valset-ValsetSeen g view ok v e1 s1 e2 s2 a.stepped.keeps.in_sync a.stepped.settled
          valued in
      subst
        (λ (x : ChannelGlue × B × List (ℕ × ℤ)).
          Served topics e s x.0 x.1 × (publish_input g x.0 x.1 ≡ done x.2))
        (done-inj rest3) (served topics e s e1 s1 e2 s2 a b, sampled)

  -- Line `j` belongs to none of the channels.
  pub data Away (j : ℕ) : List ChannelGlue → Type 0 where
    away_nil : Away j []
    away_cons :
        {e : ChannelGlue} {es : List ChannelGlue} → j ≢ e.channel.gpio → Away j es → Away j (e ∷ es)

  Away-head :
      {j : ℕ} {e : ChannelGlue} {es : List ChannelGlue} → Away j (e ∷ es) → j ≢ e.channel.gpio
  Away-head (away_cons ne far) = ne

  Away-tail : {j : ℕ} {e : ChannelGlue} {es : List ChannelGlue} → Away j (e ∷ es) → Away j es
  Away-tail (away_cons ne far) = far

  -- The channels are on different lines, each in sync with its line and as the values last seen ask.
  pub data Ready (s : B) : List ChannelGlue → Type 0 where
    ready_nil : Ready s []
    ready_cons :
        {e : ChannelGlue} {es : List ChannelGlue}
        → InSync g view ok e.channel s
        → IsSettled e
        → Away e.channel.gpio es
        → Ready s es
        → Ready s (e ∷ es)

  -- A channel before and after the tick, which ends in `s'`.
  pub record Answers (topics : Topics) (s' : B) (e e' : ChannelGlue) : Type 0 where
    pub gpio : e'.channel.gpio ≡ e.channel.gpio
    pub in_sync : InSync g view ok e'.channel s'
    pub settled : IsSettled e'
    pub mode :
        (topics.type_of e.channel.channel ≡ sentinel)
        ⊎ (e'.channel.mode ≡ requested_mode (to_int32 (topics.type_of e.channel.channel)))
    pub value :
        (topics.valset_of e.channel.channel ≡ sentinel)
        ⊎ (e'.channel.last_output ≡ is_high (to_int32 (topics.valset_of e.channel.channel)))

  pub data AllAnswer (topics : Topics) (s' : B) : List ChannelGlue → List ChannelGlue → Type 0 where
    none_left : AllAnswer topics s' [] []
    answers_cons :
        {e e' : ChannelGlue} {es es' : List ChannelGlue}
        → Answers topics s' e e'
        → AllAnswer topics s' es es'
        → AllAnswer topics s' (e ∷ es) (e' ∷ es')

  -- What a tick leaves behind.
  pub record Ticked (topics : Topics) (es : List ChannelGlue) (s : B) (es' : List ChannelGlue)
      (s' : B) : Type 0 where
    pub answers : AllAnswer topics s' es es'
    pub elsewhere : (j : ℕ) → Away j es → view s' j ≡ view s j

  -- The other channels stay ready while one is served.
  pub Ready-other :
      (n : ℕ) (s s' : B) (es : List ChannelGlue)
      → Away n es
      → ((j : ℕ) → j ≢ n → view s' j ≡ view s j)
      → Ready s es
      → Ready s' es
  Ready-other n s s' [] away same ready_nil = ready_nil
  Ready-other n s s' (e ∷ es) (away_cons ne away) same (ready_cons sync set apart ready) =
      ready_cons (same e.channel.gpio (λ q. ne (sym q)) ∙ sync) set apart
        (Ready-other n s s' es away same ready)

  Served-Answers :
      (topics : Topics) (e : ChannelGlue) (s : B) (e' : ChannelGlue) (s' s'' : B)
      → Served topics e s e' s'
      → view s'' e.channel.gpio ≡ view s' e.channel.gpio
      → Answers topics s'' e e'
  Served-Answers topics e s e' s' s'' k same = record {
    gpio = k.stepped.keeps.gpio;
    in_sync =
        subst (λ n. view s'' n ≡ view s' n) (sym k.stepped.keeps.gpio) same
        ∙ k.stepped.keeps.in_sync;
    settled = k.stepped.settled;
    mode = k.mode;
    value = k.value;
  }

  abbrev pub after_rest :
      ChannelGlue
      → List (ℕ × ℤ)
      → List ChannelGlue × B × List (ℕ × ℤ)
      → Outcome B (List ChannelGlue × B × List (ℕ × ℤ))
  after_rest e' published (es', s'', more) = done (e' ∷ es', s'', published ++ more)

  abbrev pub after_channel :
      Topics
      → List ChannelGlue
      → ChannelGlue × B × List (ℕ × ℤ)
      → Outcome B (List ChannelGlue × B × List (ℕ × ℤ))
  after_channel topics es (e', s', published) = tick g topics es s' >>= after_rest e' published

  -- On a backend that keeps its contract, a tick of the bridge whose calls on the lines all return
  -- leaves each channel with its line used as its mode says, in the mode of its topic's type and
  -- with the value of its topic's valset where these were published, and every line of no channel
  -- as it was; the channels are on different lines and agree with their lines and the values last
  -- seen before it.
  pub tick-Ticked :
      (topics : Topics) (es : List ChannelGlue) (s : B) (es' : List ChannelGlue) (s' : B)
      (published : List (ℕ × ℤ))
      → Ready s es
      → tick g topics es s ≡ done (es', s', published)
      → Ticked topics es s es' s'
  unfolding tick
  tick-Ticked topics [] s es' s' published ready q =
      subst (λ (x : List ChannelGlue × B × List (ℕ × ℤ)). Ticked topics [] s x.0 x.1) (done-inj q)
        (record { answers = none_left; elsewhere = λ _ _. refl })
  tick-Ticked topics (e ∷ es) s es' s' published (ready_cons sync set away ready) q =
      let ((e1, s1, out), one, rest1) =
        >>=-done (tick_channel g topics e s) (after_channel topics es) q in
      let ((es2, s2, more), others, rest2) =
        >>=-done (tick g topics es s1) (after_rest e1 out) rest1 in
      let (k, _) = tick_channel-Served topics e s e1 s1 out sync set one in
      let still = Ready-other e.channel.gpio s s1 es away k.stepped.keeps.elsewhere ready in
      let rest = tick-Ticked topics es s1 es2 s2 more still others in
      subst (λ (x : List ChannelGlue × B × List (ℕ × ℤ)). Ticked topics (e ∷ es) s x.0 x.1)
        (done-inj rest2)
        (record {
          answers =
              answers_cons
                (Served-Answers topics e s e1 s1 s2 k (rest.elsewhere e.channel.gpio away))
                rest.answers;
          elsewhere = λ j far.
              rest.elsewhere j (Away-tail far) ∙ k.stepped.keeps.elsewhere j (Away-head far);
        })
