-- ===== src/Gpio/Owned.antt =====
-- The lines that the backend over libgpiod holds, against the chip itself.
use pi5_system_surrogate.Prelude.{
  ℕ, ◌≡◌, ◌≢◌, refl, sym, ◌∙◌, Bool, false, Bool-cases, ◌==◌, ==_iff, inl, inr, Option-cases, List,
  [], ◌∷◌, Option, some, none, arith,
}
use pi5_system_surrogate.Gpio.{Outcome, done, threw, LineUse, free, input, output, Turns}
use pi5_system_surrogate.Gpio.Libgpiod.{
  Gpiod, LibgpiodBackend, holds, erase, release_line, hold, claim, request_input, request_output,
  release_all, close,
}
use pi5_system_surrogate.Gpio.LibgpiodLaws.{IsGpiod, holds-erase_ne}

-- The property holds of the state that a call leaves, whether it returns or throws.
abbrev pub Leaves : {B : Type 0} → (B → Type 0) → Outcome B B → Type 0
Leaves P (done b) = P b
Leaves P (threw b) = P b

module _ {H : Type 0} (d : Gpiod H) (line : H → ℕ → LineUse) (ok : IsGpiod d line) where
  -- The chip's lines that the backend does not hold are free.
  abbrev pub IsOwned : LibgpiodBackend H → Type 0
  IsOwned b = (j : ℕ) → holds j b.lines ≡ false → line b.chip j ≡ free

  release_held-IsOwned :
      (gpio : ℕ) (b : LibgpiodBackend H)
      → IsOwned b
      → IsOwned (record { chip = d.release gpio b.chip; lines = erase gpio b.lines })
  release_held-IsOwned gpio b own j h = elim (Bool-cases (j == gpio)) [
    | inl same ↦ ground (arith, (ok.release_turns gpio b.chip).here, (==_iff j gpio).0 same)
    | inr other ↦
        let ne : j ≢ gpio = λ q. ground arith in
        (ok.release_turns gpio b.chip).elsewhere j ne
        ∙ own j (sym (holds-erase_ne gpio j b.lines ne) ∙ h)
  ]

  release_line-IsOwned :
      (gpio : ℕ) (b : LibgpiodBackend H) → IsOwned b → IsOwned (release_line d gpio b)
  unfolding release_line
  release_line-IsOwned gpio b own = elim (Bool-cases (holds gpio b.lines)) [
    | inl held ↦ rw held (release_held-IsOwned gpio b own)
    | inr not_held ↦ rw not_held own
  ]

  hold-IsOwned :
      (gpio : ℕ) (l : LineUse) (b : LibgpiodBackend H) (o : Option H)
      → IsOwned b
      → ((h : H) → o ≡ some h → Turns line gpio l b.chip h)
      → Leaves IsOwned (hold d gpio b o)
  unfolding holds
  hold-IsOwned gpio l b none own req = own
  hold-IsOwned gpio l b (some h) own req =
      λ j free_j. (req h refl).elsewhere j (λ q. ground arith) ∙ own j (ground arith)

  claim-IsOwned :
      (gpio : ℕ) (l : LineUse) (b : LibgpiodBackend H) (o : Option H)
      → IsOwned b
      → ((h : H) → o ≡ some h → Turns line gpio l b.chip h)
      → Leaves IsOwned (claim d gpio b o)
  unfolding claim
  claim-IsOwned gpio l b o own req = elim (Option-cases (d.get_line gpio b.chip)) [
    | inl e ↦ rw (claim, e) own
    | inr (u, e) ↦ rw (claim, e) (hold-IsOwned gpio l b o own req)
  ]

  -- The release and the requests of any line leave free on the chip every line that the libgpiod
  -- backend does not hold, whether they return or throw, if that was so before, for a chip on which
  -- each call changes its own line as libgpiod documents.
  pub calls-IsOwned :
      (gpio : ℕ) (v : Bool) (b : LibgpiodBackend H)
      → IsOwned b
      → IsOwned (release_line d gpio b)
        × Leaves IsOwned (request_input d gpio b)
        × Leaves IsOwned (request_output d gpio v b)
  unfolding request_input request_output
  calls-IsOwned gpio v b own =
      let released = release_line-IsOwned gpio b own in
      let b' = release_line d gpio b in
      (
        released,
        claim-IsOwned gpio input b' (d.request_in gpio b'.chip) released
            (λ h q. ok.in_turns gpio b'.chip h q),
        claim-IsOwned gpio (output v) b' (d.request_out gpio v b'.chip) released
            (λ h q. ok.out_turns gpio v b'.chip h q),
      )

  -- Releasing a list of lines frees those and leaves the others.
  release_all-free :
      (ls : List ℕ) (h : H) (j : ℕ)
      → ((holds j ls ≡ false) → line h j ≡ free)
      → line (release_all d ls h) j ≡ free
  unfolding release_all holds
  release_all-free [] h j own = own refl
  release_all-free (l ∷ ls) h j own = release_all-free ls (d.release l h) j (λ rest.
      elim (Bool-cases (j == l)) [
        | inl same ↦ ground (arith, (ok.release_turns l h).here, (==_iff j l).0 same)
        | inr other ↦ (ok.release_turns l h).elsewhere j (λ q. ground arith) ∙ own (ground arith)
      ])

  -- The destructor of the libgpiod backend leaves every line of the chip free, if those that the
  -- backend does not hold were, for a chip on which each call changes its own line as libgpiod
  -- documents.
  pub close-free : (b : LibgpiodBackend H) → IsOwned b → (j : ℕ) → line (close d b) j ≡ free
  unfolding close
  close-free b own j = release_all-free b.lines b.chip j (own j)
