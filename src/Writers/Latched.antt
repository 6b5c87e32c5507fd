-- ===== src/Writers/Latched.antt =====
-- An emergency stop, while other parts write.
use pi5_system_surrogate.Prelude.{
  ◌≡◌, refl, ◌∙◌, ◌⊎◌, inl, inr, true, false, some, List, [], ◌∷◌, ◌++◌, ℕ, map, arith,
}
use pi5_system_surrogate.Prelude.Text.{Text}
use pi5_system_surrogate.ControlData.{PbEncode}
use pi5_system_surrogate.DaemonState.{DaemonState, set_enabled, set_e_stop, set_mode, set_alliance}
use pi5_system_surrogate.Gamepad.{ingest_enabled, ingest_mode, ingest_alliance, ingest_e_stop}
use pi5_system_surrogate.Match.Phases.{perform-Untouched}
use pi5_system_surrogate.Publisher.Wire.{IsPb, read, picture, tick-sends}
use pi5_system_surrogate.Check.{PbDecode}
use pi5_system_surrogate.Web.{if_given, is_true}
use pi5_system_surrogate.Writers.{
  Parts, state_of, Step, ingests_enabled, ingests_mode, ingests_alliance, ingests_e_stop, ends_tick,
  calls, posts_enabled, posts_e_stop, posts_mode, posts_alliance, publishes, take_step, sent_by,
}

-- The step does not clear an emergency stop: the topic asks for one or has nothing new to say, and
-- the form gives no value or a true one.
abbrev pub Leaves : Step → Parts → Type 0
Leaves (ingests_e_stop c) x =
    (c.e_stop ≡ true) ⊎ ((x.ingest.first_tick ≡ false) × (c.e_stop ≡ x.ingest.last_estop_seen))
Leaves (posts_e_stop v) x = (v ≡ []) ⊎ (is_true v ≡ true)
Leaves w x = Unit {0}

module _ (pb_encode : PbEncode) (pb_decode : PbDecode) (pb : IsPb pb_encode pb_decode) where
  -- No step clears it.
  abbrev pub AllLeave : List Step → Parts → Type 0
  AllLeave [] x = Unit
  AllLeave (w ∷ ws) x = Leaves w x × AllLeave ws (take_step pb_encode w x).0

  -- The messages that a reader finds the emergency stop in.
  abbrev pub AllStopped : List (List ℕ) → Type 0
  AllStopped [] = Unit
  AllStopped (bytes ∷ more) =
      ((s : DaemonState) × (read (pb_decode bytes) ≡ some (picture s)) × (s.e_stop ≡ true))
      × AllStopped more

  if_given-e_stop :
      (v : Text) (s : DaemonState)
      → s.e_stop ≡ true
      → (v ≡ []) ⊎ (is_true v ≡ true)
      → (if_given v (λ w. set_e_stop (is_true w)) s).e_stop ≡ true
  unfolding set_e_stop
  if_given-e_stop [] s h k = h
  if_given-e_stop (b ∷ bs) s h (inl e) = absurd (ground arith)
  if_given-e_stop (b ∷ bs) s h (inr e) = e

  if_given-other :
      (v : Text) (f : Text → DaemonState → DaemonState) (s : DaemonState)
      → ((w : Text) → (f w s).e_stop ≡ s.e_stop)
      → (if_given v f s).e_stop ≡ s.e_stop
  if_given-other [] f s k = refl
  if_given-other (b ∷ bs) f s k = k (b ∷ bs)

  take_step-e_stop :
      (w : Step) (x : Parts)
      → (state_of x).e_stop ≡ true
      → Leaves w x
      → (state_of (take_step pb_encode w x).0).e_stop ≡ true
  unfolding take_step ingest_enabled ingest_mode ingest_alliance ingest_e_stop set_enabled set_mode
      set_alliance set_e_stop
  take_step-e_stop (ingests_enabled c) x h k = ground arith
  take_step-e_stop (ingests_mode c) x h k = ground arith
  take_step-e_stop (ingests_alliance c) x h k = ground arith
  take_step-e_stop (ingests_e_stop c) x h k = ground arith
  take_step-e_stop ends_tick x h k = h
  take_step-e_stop (calls call) x h k = (perform-Untouched call x.controller).e_stop ∙ h
  take_step-e_stop (posts_enabled v) x h k = if_given-other v _ (state_of x) (λ w. refl) ∙ h
  take_step-e_stop (posts_e_stop v) x h k = if_given-e_stop v (state_of x) h k
  take_step-e_stop (posts_mode v) x h k = if_given-other v _ (state_of x) (λ w. refl) ∙ h
  take_step-e_stop (posts_alliance v) x h k = if_given-other v _ (state_of x) (λ w. refl) ∙ h
  take_step-e_stop (publishes now) x h k = h

  one-AllStopped :
      (l : List (List ℕ)) (s : DaemonState)
      → map (λ bytes. read (pb_decode bytes)) l ≡ some (picture s) ∷ []
      → s.e_stop ≡ true
      → AllStopped l
  one-AllStopped [] s e h = absurd (ground arith)
  one-AllStopped (bytes ∷ []) s e h = ((s, cc, h), tt)
  one-AllStopped (bytes ∷ b ∷ l) s e h = absurd (ground arith)

  AllStopped-append :
      (xs ys : List (List ℕ)) → AllStopped xs → AllStopped ys → AllStopped (xs ++ ys)
  AllStopped-append [] ys h k = k
  AllStopped-append (x ∷ xs) ys (h, hs) k = (h, AllStopped-append xs ys hs k)

  take_step-AllStopped :
      (w : Step) (x : Parts) → (state_of x).e_stop ≡ true → AllStopped (take_step pb_encode w x).1
  unfolding take_step
  take_step-AllStopped (publishes now) x h =
      one-AllStopped _ (state_of x)
        (tick-sends pb_encode pb_decode pb (record { now = now; state = state_of x }) x.publisher) h
  take_step-AllStopped (ingests_enabled c) x h = tt
  take_step-AllStopped (ingests_mode c) x h = tt
  take_step-AllStopped (ingests_alliance c) x h = tt
  take_step-AllStopped (ingests_e_stop c) x h = tt
  take_step-AllStopped ends_tick x h = tt
  take_step-AllStopped (calls call) x h = tt
  take_step-AllStopped (posts_enabled v) x h = tt
  take_step-AllStopped (posts_e_stop v) x h = tt
  take_step-AllStopped (posts_mode v) x h = tt
  take_step-AllStopped (posts_alliance v) x h = tt

  -- From an emergency stop in the shared state, whatever order the writes of the control topics,
  -- the control form and the match controller come in, every message that the publisher sends shows
  -- a state with the emergency stop, as long as the form gives no false value for it and the topic
  -- is true or, after the first tick, the same as the last one seen; nanopb encodes a message with
  -- a control word other than zero in at least one byte, and its decoder inverts its encoder.
  pub sent_by-AllStopped :
      (ws : List Step) (x : Parts)
      → (state_of x).e_stop ≡ true
      → AllLeave ws x
      → AllStopped (sent_by pb_encode ws x)
  unfolding sent_by
  sent_by-AllStopped [] x h k = tt
  sent_by-AllStopped (w ∷ ws) x h (k, ks) =
      AllStopped-append (take_step pb_encode w x).1
        (sent_by pb_encode ws (take_step pb_encode w x).0) (take_step-AllStopped w x h)
        (sent_by-AllStopped ws (take_step pb_encode w x).0 (take_step-e_stop w x h k) ks)
