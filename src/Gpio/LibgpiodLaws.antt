-- ===== src/Gpio/LibgpiodLaws.antt =====
-- The backend over libgpiod keeps the contract of `GpioBackend`, from what libgpiod documents.
use pi5_system_surrogate.Prelude.{
  ℕ, ◌≡◌, ◌≢◌, refl, ap, ◌∙◌, subst, Bool, true, false, if◌then◌else◌, List, [], ◌∷◌, some, none,
  Option, Bool-cases, inl, inr, arith,
}
use pi5_system_surrogate.Gpio.{done, threw, LineUse, free, input, output, Turns, IsFaithful}
use pi5_system_surrogate.Gpio.Libgpiod.{
  Gpiod, LibgpiodBackend, holds, erase, release_line, claim, request_input, request_output,
  set_value, get_value, libgpiod_backend,
}

-- What libgpiod documents of its calls: each changes the use of its own line, and of no other.
pub record IsGpiod {H : Type 0} (d : Gpiod H) (line : H → ℕ → LineUse) : Type 0 where
  pub in_turns : (gpio : ℕ) (h h' : H) → d.request_in gpio h ≡ some h' → Turns line gpio input h h'
  pub out_turns :
      (gpio : ℕ) (v : Bool) (h h' : H)
      → d.request_out gpio v h ≡ some h'
      → Turns line gpio (output v) h h'
  pub release_turns : (gpio : ℕ) (h : H) → Turns line gpio free h (d.release gpio h)
  pub set_turns :
      (gpio : ℕ) (v w : Bool) (h h' : H)
      → line h gpio ≡ output w
      → d.set_line gpio v h ≡ some h'
      → Turns line gpio (output v) h h'

holds-erase_self : (gpio : ℕ) (ls : List ℕ) → holds gpio (erase gpio ls) ≡ false
unfolding holds erase
holds-erase_self gpio [] = refl
holds-erase_self gpio (l ∷ ls) = ground (arith, holds-erase_self gpio ls)

pub holds-erase_ne : (gpio j : ℕ) (ls : List ℕ) → j ≢ gpio → holds j (erase gpio ls) ≡ holds j ls
unfolding holds erase
holds-erase_ne gpio j [] ne = refl
holds-erase_ne gpio j (l ∷ ls) ne = ground (arith, holds-erase_ne gpio j ls ne)

module _ {H : Type 0} (d : Gpiod H) (line : H → ℕ → LineUse) (ok : IsGpiod d line) where
  -- The use of a line by the daemon: none if it does not hold the line.
  abbrev pub line_use : LibgpiodBackend H → ℕ → LineUse
  line_use b gpio = if holds gpio b.lines then line b.chip gpio else free

  release_line-Turns :
      (gpio : ℕ) (b : LibgpiodBackend H) → Turns line_use gpio free b (release_line d gpio b)
  unfolding release_line
  release_line-Turns gpio b = record {
    here = ground (arith, holds-erase_self gpio b.lines);
    elsewhere = λ j ne.
        ground
          (arith, holds-erase_ne gpio j b.lines ne, (ok.release_turns gpio b.chip).elsewhere j ne);
  }

  -- A new entry turns the line, after the release of the old one.
  hold-Turns :
      (gpio : ℕ) (l : LineUse) (b : LibgpiodBackend H) (h : H)
      → Turns line gpio l b.chip h
      → Turns line_use gpio l b (record { chip = h; lines = gpio ∷ b.lines })
  unfolding holds
  hold-Turns gpio l b h t = record {
    here = ground (arith, t.here);
    elsewhere = λ j ne. ground (arith, t.elsewhere j ne);
  }

  Turns-trans :
      {gpio : ℕ} {k l : LineUse} (a b c : LibgpiodBackend H)
      → Turns line_use gpio k a b
      → Turns line_use gpio l b c
      → Turns line_use gpio l a c
  Turns-trans a b c t u = record {
    here = u.here;
    elsewhere = λ j ne. u.elsewhere j ne ∙ t.elsewhere j ne;
  }

  claim-done :
      (gpio : ℕ) (l : LineUse) (s b s' : LibgpiodBackend H) (o : Option H)
      → Turns line_use gpio free s b
      → ((h : H) → o ≡ some h → Turns line gpio l b.chip h)
      → claim d gpio b o ≡ done s'
      → Turns line_use gpio l s s'
  unfolding claim
  claim-done gpio l s b s' none t req e = absurd (ground arith)
  claim-done gpio l s b s' (some h) t req e =
      subst (λ u. Turns line_use gpio l s u) (ground arith)
        (Turns-trans s b (record { chip = h; lines = gpio ∷ b.lines }) t
          (hold-Turns gpio l b h (req h refl)))

  claim-threw :
      (gpio : ℕ) (s b s' : LibgpiodBackend H) (o : Option H)
      → Turns line_use gpio free s b
      → claim d gpio b o ≡ threw s'
      → Turns line_use gpio free s s'
  unfolding claim
  claim-threw gpio s b s' o t e = subst (λ u. Turns line_use gpio free s u) (ground arith) t

  set-done :
      (gpio : ℕ) (v w : Bool) (s s' : LibgpiodBackend H)
      → line_use s gpio ≡ output w
      → set_value d gpio v s ≡ done s'
      → Turns line_use gpio (output v) s s'
  unfolding set_value
  set-done gpio v w s s' out e = elim (Bool-cases (holds gpio s.lines)) [
    | inl held ↦ set_held held (d.set_line gpio v s.chip) refl
    | inr not_held ↦ absurd (ground arith)
  ]
    where
      set_held :
          holds gpio s.lines ≡ true
          → (o : Option H) → d.set_line gpio v s.chip ≡ o
          → Turns line_use gpio (output v) s s'
      set_held held none q = absurd (ground arith)
      set_held held (some h) q =
          let t = ok.set_turns gpio v w s.chip h (ground arith) q in
          subst (λ u. Turns line_use gpio (output v) s u) {x = record s { chip = h }} (ground arith)
            (record {
              here = ground (arith, t.here);
              elsewhere = λ j ne. ground (arith, t.elsewhere j ne);
            })

  set-threw :
      (gpio : ℕ) (v : Bool) (s s' : LibgpiodBackend H)
      → set_value d gpio v s ≡ threw s'
      → (j : ℕ) → line_use s' j ≡ line_use s j
  unfolding set_value
  set-threw gpio v s s' e j = elim (Bool-cases (holds gpio s.lines)) [
    | inl held ↦ ap (λ b. line_use b j) (same held (d.set_line gpio v s.chip) refl)
    | inr not_held ↦ absurd (ground arith)
  ]
    where
      same : holds gpio s.lines ≡ true → (o : Option H) → d.set_line gpio v s.chip ≡ o → s' ≡ s
      same held none q = ground arith
      same held (some h) q = absurd (ground arith)

  get-threw :
      (gpio : ℕ) (s s' : LibgpiodBackend H)
      → get_value d gpio s ≡ threw s'
      → (j : ℕ) → line_use s' j ≡ line_use s j
  unfolding get_value
  get-threw gpio s s' e j = elim (Bool-cases (holds gpio s.lines)) [
    | inl held ↦ ap (λ b. line_use b j) (same held (d.get_line_value gpio s.chip) refl)
    | inr not_held ↦ absurd (ground arith)
  ]
    where
      same : holds gpio s.lines ≡ true → (o : Option ℕ) → d.get_line_value gpio s.chip ≡ o → s' ≡ s
      same held none q = ground arith
      same held (some n) q = absurd (ground arith)

  -- The backend over libgpiod keeps the contract of the GPIO interface, on every result of its
  -- requests, for a chip on which each call changes its own line as libgpiod documents.
  pub libgpiod_backend-IsFaithful : IsFaithful (libgpiod_backend d) line_use
  unfolding libgpiod_backend request_input request_output
  libgpiod_backend-IsFaithful = record {
    release_frees = release_line-Turns;
    input_done = λ gpio s s' e.
        let b = release_line d gpio s in
        claim-done gpio input s b s' (d.request_in gpio b.chip) (release_line-Turns gpio s)
          (λ h q. ok.in_turns gpio b.chip h q) e;
    input_threw = λ gpio s s' e.
        let b = release_line d gpio s in
        claim-threw gpio s b s' (d.request_in gpio b.chip) (release_line-Turns gpio s) e;
    output_done = λ gpio v s s' e.
        let b = release_line d gpio s in
        claim-done gpio (output v) s b s' (d.request_out gpio v b.chip) (release_line-Turns gpio s)
          (λ h q. ok.out_turns gpio v b.chip h q) e;
    output_threw = λ gpio v s s' e.
        let b = release_line d gpio s in
        claim-threw gpio s b s' (d.request_out gpio v b.chip) (release_line-Turns gpio s) e;
    set_done = set-done;
    set_threw = λ gpio v w s s' out e. set-threw gpio v s s' e;
    get_threw = λ gpio s s' used e. get-threw gpio s s' e;
  }
