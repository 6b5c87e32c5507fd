-- ===== src/SmartIo/Sync.antt =====
-- A channel and the use of its line, over a backend that keeps its contract.
use pi5_system_surrogate.Prelude.{
  ℕ, ◌≡◌, ◌≢◌, refl, ◌∙◌, subst₂, sym, Bool, true, Bool-cases, inl, inr, arith,
}
use pi5_system_surrogate.Prelude.Int.{ℤ}
use pi5_system_surrogate.Gpio.{
  Outcome, done, threw, GpioBackend, LineUse, free, input, output, Turns, IsFaithful, ◌>>=◌,
  >>=-done, >>=-threw, done-pair,
}
use pi5_system_surrogate.SmartIo.{
  ChannelMode, unconfigured, digital_input, digital_output, SmartIoChannel, requested_mode,
  same_mode, is_unconfigured, release_if_held, request_mode, enter, change_mode, on_type_changed,
}

-- The use of its line that a channel stands for.
abbrev pub use_of : ChannelMode → Bool → LineUse
use_of unconfigured v = free
use_of digital_input v = input
use_of digital_output v = output v

free_of : (m : ChannelMode) (v : Bool) → is_unconfigured m ≡ true → use_of m v ≡ free
free_of m v h = ground arith

same_mode_eq : (m k : ChannelMode) → same_mode m k ≡ true → m ≡ k
same_mode_eq m k h = ground arith

module _ {B : Type 0} (g : GpioBackend B) (view : B → ℕ → LineUse) (ok : IsFaithful g view) where
  abbrev pub InSync : SmartIoChannel → B → Type 0
  InSync c s = view s c.gpio ≡ use_of c.mode c.last_output

  -- The channel `c'` on the same line, in sync with its line; the other lines as they were.
  pub record Keeps (c : SmartIoChannel) (s : B) (c' : SmartIoChannel) (s' : B) : Type 0 where
    pub channel : c'.channel ≡ c.channel
    pub gpio : c'.gpio ≡ c.gpio
    pub in_sync : InSync c' s'
    pub elsewhere : (j : ℕ) → j ≢ c.gpio → view s' j ≡ view s j

  release-free :
      (c : SmartIoChannel) (s : B) → InSync c s → Turns view c.gpio free s (release_if_held g c s)
  unfolding release_if_held
  release-free c s sync = elim (Bool-cases (is_unconfigured c.mode)) [
    | inl un ↦
        rw un (record { here = sync ∙ free_of c.mode c.last_output un; elsewhere = λ _ _. refl })
    | inr held ↦ rw held (ok.release_frees c.gpio s)
  ]

  Turns-trans :
      (gpio : ℕ) {k l : LineUse} (a b d : B)
      → Turns view gpio k a b
      → Turns view gpio l b d
      → Turns view gpio l a d
  Turns-trans gpio a b d t u = record {
    here = u.here;
    elsewhere = λ j ne. u.elsewhere j ne ∙ t.elsewhere j ne;
  }

  -- What a change to mode `m` leaves behind.
  pub record Changed (m : ChannelMode) (c : SmartIoChannel) (s : B) (c' : SmartIoChannel) (s' : B)
      : Type 0 where
    pub keeps : Keeps c s c' s'
    pub mode : c'.mode ≡ m
    pub last_output : c'.last_output ≡ c.last_output

  Changed-Turns :
      (m : ChannelMode) (c : SmartIoChannel) (s s' : B)
      → Turns view c.gpio (use_of m c.last_output) s s'
      → Changed m c s (record c { mode = m }) s'
  Changed-Turns m c s s' t = record {
    keeps = record { channel = refl; gpio = refl; in_sync = t.here; elsewhere = t.elsewhere };
    mode = refl;
    last_output = refl;
  }

  request-done :
      (m : ChannelMode) (c : SmartIoChannel) (s s' : B)
      → m ≢ unconfigured
      → request_mode g m c s ≡ done s'
      → Turns view c.gpio (use_of m c.last_output) s s'
  unfolding request_mode
  request-done unconfigured c s s' ne e = absurd (ne refl)
  request-done digital_input c s s' ne e = ok.input_done c.gpio s s' e
  request-done digital_output c s s' ne e = ok.output_done c.gpio c.last_output s s' e

  request-threw :
      (m : ChannelMode) (c : SmartIoChannel) (s s' : B)
      → request_mode g m c s ≡ threw s'
      → Turns view c.gpio free s s'
  unfolding request_mode
  request-threw unconfigured c s s' e = ok.output_threw c.gpio c.last_output s s' e
  request-threw digital_input c s s' e = ok.input_threw c.gpio s s' e
  request-threw digital_output c s s' e = ok.output_threw c.gpio c.last_output s s' e

  -- The release and the request of one of the two supported modes.
  requested-Changed :
      (m : ChannelMode) (c : SmartIoChannel) (s : B) (c' : SmartIoChannel) (s' : B)
      → InSync c s
      → m ≢ unconfigured
      → (request_mode g m c (release_if_held g c s) >>= enter g m c) ≡ done (c', s')
      → Changed m c s c' s'
  requested-Changed m c s c' s' sync ne e =
      let held = release_if_held g c s in
      let (s1, got, rest) = >>=-done (request_mode g m c held) (enter g m c) e in
      let (ec, es) = done-pair rest in
      subst₂ (Changed m c s) ec es (
        Changed-Turns m c s s1
          (Turns-trans c.gpio s held s1 (release-free c s sync) (request-done m c held s1 ne got)))

  change_mode-Changed :
      (m : ChannelMode) (c : SmartIoChannel) (s : B) (c' : SmartIoChannel) (s' : B)
      → InSync c s
      → change_mode g m c s ≡ done (c', s')
      → Changed m c s c' s'
  unfolding change_mode
  change_mode-Changed unconfigured c s c' s' sync e =
      let (ec, es) = done-pair e in
      subst₂ (Changed unconfigured c s) ec es
        (Changed-Turns unconfigured c s (release_if_held g c s) (release-free c s sync))
  change_mode-Changed digital_input c s c' s' sync e =
      requested-Changed digital_input c s c' s' sync (λ q. cc) e
  change_mode-Changed digital_output c s c' s' sync e =
      requested-Changed digital_output c s c' s' sync (λ q. cc) e

  -- On a backend that keeps its contract, a change of type that returns leaves a channel that
  -- agreed with its line in the mode that the type asks for, its line used so, an output driven to
  -- the value remembered, and the other lines as they were.
  pub on_type_changed-Changed :
      (t : ℤ) (c : SmartIoChannel) (s : B) (c' : SmartIoChannel) (s' : B)
      → InSync c s
      → on_type_changed g t c s ≡ done (c', s')
      → Changed (requested_mode t) c s c' s'
  unfolding on_type_changed
  on_type_changed-Changed t c s c' s' sync e =
      elim (Bool-cases (same_mode (requested_mode t) c.mode)) [
        | inl same ↦
            let (ec, es) = done-pair (rw same at e) in
            subst₂ (Changed (requested_mode t) c s) ec es
              (unchanged (same_mode_eq (requested_mode t) c.mode same))
        | inr other ↦ change_mode-Changed (requested_mode t) c s c' s' sync (rw other at e)
      ]
    where
      unchanged : requested_mode t ≡ c.mode → Changed (requested_mode t) c s c s
      unchanged q = record {
        keeps = record { channel = refl; gpio = refl; in_sync = sync; elsewhere = λ _ _. refl };
        mode = sym q;
        last_output = refl;
      }

  done_not_threw :
      {c : SmartIoChannel} {s s' : B}
      → ◌≡◌ {A = Outcome B (SmartIoChannel × B)} (done (c, s)) (threw s')
      → ⊥
  done_not_threw e = cc

  requested-threw :
      (m : ChannelMode) (c : SmartIoChannel) (s s' : B)
      → InSync c s
      → (request_mode g m c (release_if_held g c s) >>= enter g m c) ≡ threw s'
      → Turns view c.gpio free s s'
  requested-threw m c s s' sync e =
      let held = release_if_held g c s in
      elim (>>=-threw (request_mode g m c held) (enter g m c) e) [
        | inl failed ↦
            Turns-trans c.gpio s held s' (release-free c s sync) (request-threw m c held s' failed)
        | inr (s1, _, entered) ↦ cc
      ]

  change_mode-threw :
      (m : ChannelMode) (c : SmartIoChannel) (s s' : B)
      → InSync c s
      → change_mode g m c s ≡ threw s'
      → Turns view c.gpio free s s'
  unfolding change_mode
  change_mode-threw unconfigured c s s' sync e = cc
  change_mode-threw digital_input c s s' sync e = requested-threw digital_input c s s' sync e
  change_mode-threw digital_output c s s' sync e = requested-threw digital_output c s s' sync e

  -- A change of type that throws leaves the line of a channel that agreed with it free, and the
  -- other lines as they were, on a backend that keeps its contract.
  pub on_type_changed-threw :
      (t : ℤ) (c : SmartIoChannel) (s s' : B)
      → InSync c s
      → on_type_changed g t c s ≡ threw s'
      → Turns view c.gpio free s s'
  unfolding on_type_changed
  on_type_changed-threw t c s s' sync e = elim (Bool-cases (same_mode (requested_mode t) c.mode)) [
    | inl same ↦ absurd (done_not_threw (rw same at e))
    | inr other ↦ change_mode-threw (requested_mode t) c s s' sync (rw other at e)
  ]
