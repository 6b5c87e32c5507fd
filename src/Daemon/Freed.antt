-- ===== src/Daemon/Freed.antt =====
-- The daemon over libgpiod: its lines when the backend is destroyed at the end of `main`.
use pi5_system_surrogate.Prelude.{
  ℕ, ◌≡◌, ◌≢◌, refl, ◌∙◌, subst, ap, Bool, true, Bool-cases, inl, inr, Option, none, some, List, [],
  arith,
}
use pi5_system_surrogate.Gpio.{
  done, >>=-done, done-pair, GpioBackend, LineUse, output, free, IsFaithful,
}
use pi5_system_surrogate.Gpio.Libgpiod.{
  Gpiod, LibgpiodBackend, holds, set_value, libgpiod_backend, close,
}
use pi5_system_surrogate.Gpio.LibgpiodLaws.{IsGpiod, line_use, libgpiod_backend-IsFaithful}
use pi5_system_surrogate.Gpio.Owned.{Leaves, IsOwned, calls-IsOwned, close-free}
use pi5_system_surrogate.Rsl
use pi5_system_surrogate.Rsl.{Reading, desired_level, differ}
use pi5_system_surrogate.SmartIo.Kept.{IsKept, dispatch_type-kept, dispatch_valset-kept}
use pi5_system_surrogate.SmartIo.OneChannel.{Ready-mid}
use pi5_system_surrogate.Daemon.{
  rsl_gpio, chip_path, Backend, on_chip, no_chip, backend_on, open_backend,
}
use pi5_system_surrogate.Prelude.Text.{Text}
use pi5_system_surrogate.Daemon.Lines.{
  Board, Step, sees_type, sees_value, light_starts, light_ticks, light_stops, Reach, wired, later,
  Shared, Unused, Reach-Shared,
}

module _ {B : Type 0} (g : GpioBackend B) (view : B → ℕ → LineUse) (ok : IsFaithful g view)
    (P : B → Type 0) (kept : IsKept g view ok P) where
  light_tick-kept :
      (r : Reading) (l : Bool) (s : B) (l' : Bool) (s' : B)
      → view s rsl_gpio ≡ output l
      → P s
      → Rsl.tick g rsl_gpio r l s ≡ done (l', s')
      → P s'
  unfolding Rsl.tick
  light_tick-kept r l s l' s' out p e =
      let want = desired_level r.enabled r.elapsed in
      elim (Bool-cases (differ want l)) [
        | inl news ↦
            let (s1, set, rest) =
              >>=-done (g.set_value rsl_gpio want s) (λ t. done (want, t)) (rw news at e) in
            let (_, es) = done-pair rest in subst P es (kept.set rsl_gpio want l s s1 out p set)
        | inr old ↦ let (_, es) = done-pair (rw old at e) in subst P es p
      ]

  Step-kept :
      (s0 : B) {b b' : Board B} → Step g b b' → Shared g view ok s0 b → P b.backend → P b'.backend
  unfolding Rsl.start Rsl.stop
  Step-kept s0 (sees_type {s} {s'} before e e' after t q) k p =
      dispatch_type-kept g view ok P kept t e s e' s' p q
  Step-kept s0 (sees_value {s} {s'} before e e' after v q) k p =
      dispatch_valset-kept g view ok P kept v e s e' s'
        (Ready-mid g view ok s e before after k.channels).0 p q
  Step-kept s0 (light_starts {s} {s'} e) k p =
      let (s1, got, rest) = >>=-done (g.request_output rsl_gpio true s) (λ t. done (true, t)) e in
      let (_, es) = done-pair rest in subst P es (kept.requested_out rsl_gpio true s s1 p got)
  Step-kept s0 (light_ticks {s} {s'} {es} {l} {l'} r e) k p =
      light_tick-kept r l s l' s' k.light p e
  Step-kept s0 (light_stops {s}) k p = kept.release rsl_gpio s p

  Reach-kept : (s0 : B) {b : Board B} → Unused g view ok s0 → P s0 → Reach g s0 b → P b.backend
  Reach-kept s0 u p wired = p
  Reach-kept s0 u p (later r st) =
      Step-kept s0 st (Reach-Shared g view ok s0 u r) (Reach-kept s0 u p r)

module _ {H : Type 0} (d : Gpiod H) (line : H → ℕ → LineUse) (ok : IsGpiod d line) where
  abbrev faithful : IsFaithful (libgpiod_backend d) (line_use d line ok)
  faithful = libgpiod_backend-IsFaithful d line ok

  set_value-IsOwned :
      (gpio : ℕ) (v w : Bool) (s s' : LibgpiodBackend H)
      → line_use d line ok s gpio ≡ output w
      → IsOwned d line ok s
      → set_value d gpio v s ≡ done s'
      → IsOwned d line ok s'
  unfolding set_value
  set_value-IsOwned gpio v w s s' out own e = elim (Bool-cases (holds gpio s.lines)) [
    | inl held ↦ set_held held (d.set_line gpio v s.chip) refl
    | inr not_held ↦ absurd (ground arith)
  ]
    where
      set_held :
          holds gpio s.lines ≡ true
          → (o : Option H) → d.set_line gpio v s.chip ≡ o
          → IsOwned d line ok s'
      set_held held none q = absurd (ground arith)
      set_held held (some h) q =
          let t = ok.set_turns gpio v w s.chip h (ground arith) q in
          subst (IsOwned d line ok) {x = record s { chip = h }} (ground arith)
            (λ j not_held. t.elsewhere j (λ same. ground arith) ∙ own j not_held)

  IsOwned-IsKept : IsKept (libgpiod_backend d) (line_use d line ok) faithful (IsOwned d line ok)
  unfolding libgpiod_backend
  IsOwned-IsKept = record {
    release = λ gpio s own. (calls-IsOwned d line ok gpio true s own).0;
    requested_in = λ gpio s s' own e.
        subst (Leaves (IsOwned d line ok)) e (calls-IsOwned d line ok gpio true s own).1;
    requested_out = λ gpio v s s' own e.
        subst (Leaves (IsOwned d line ok)) e (calls-IsOwned d line ok gpio v s own).2;
    set = set_value-IsOwned;
  }

  opened : (o : Option H) (s0 : LibgpiodBackend H) → backend_on o ≡ on_chip s0 → s0.lines ≡ []
  opened none s0 e = absurd (clash e)
    where
      clash : ◌≢◌ {A = Backend H} no_chip (on_chip s0)
      clash = cc
  opened (some h) s0 e = ap lines_of (on_chip-inj e)
    where
      lines_of : LibgpiodBackend H → List ℕ
      lines_of b = b.lines

      on_chip-inj : {a b : LibgpiodBackend H} → ◌≡◌ {A = Backend H} (on_chip a) (on_chip b) → b ≡ a
      on_chip-inj q = cc

  new-Unused :
      (s0 : LibgpiodBackend H)
      → s0.lines ≡ []
      → Unused (libgpiod_backend d) (line_use d line ok) faithful s0
  unfolding holds
  new-Unused s0 e = record {
    line17 = rw e refl;
    line27 = rw e refl;
    line22 = rw e refl;
    line23 = rw e refl;
    line26 = rw e refl;
  }

  -- If libgpiod opens the chip, with all of its lines free, then after any sequence of the bridge's
  -- dispatches of a type or a value to a channel and of starts, ticks and stops of the signal
  -- light, in any order, whose calls on the lines return, the destructor of the backend leaves
  -- every line of the chip free, for a chip on which each call changes its own line as libgpiod
  -- documents.
  pub Reach-close :
      (open_chip : Text → Option H) (override_path : Option Text) (s0 : LibgpiodBackend H)
      {b : Board (LibgpiodBackend H)}
      → open_backend open_chip override_path ≡ on_chip s0
      → ((j : ℕ) → line s0.chip j ≡ free)
      → Reach (libgpiod_backend d) s0 b
      → (j : ℕ) → line (close d b.backend) j ≡ free
  unfolding open_backend
  Reach-close open_chip override_path s0 {b} e all_free r j =
      close-free d line ok b.backend
        (Reach-kept (libgpiod_backend d) (line_use d line ok) faithful (IsOwned d line ok)
          IsOwned-IsKept s0 (new-Unused s0 (opened (open_chip (chip_path override_path)) s0 e))
          (λ i _. all_free i) r)
        j
