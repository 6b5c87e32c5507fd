-- ===== src/Rsl/Light.antt =====
-- The light and its line, over a backend that keeps its contract.
use pi5_system_surrogate.Prelude.{
  ℕ, ◌≡◌, sym, ◌∙◌, subst₂, Bool, true, false, Bool-cases, inl, inr, List, [], ◌∷◌, ◌++◌, arith,
}
use pi5_system_surrogate.Gpio.{
  done, ◌>>=◌, >>=-done, done-pair, GpioBackend, LineUse, output, free, Turns, IsFaithful,
}
use pi5_system_surrogate.Rsl.{desired_level, differ, Reading, start, tick, run, stop}

module _ {B : Type 0} (g : GpioBackend B) (view : B → ℕ → LineUse) (ok : IsFaithful g view)
    (gpio : ℕ) where
  -- The line is driven to the level `v`, and the other lines are as they were in `s`.
  abbrev Lit : B → Bool → B → Type 0
  Lit s v s' = Turns view gpio (output v) s s'

  Lit-trans : (s : B) {v w : Bool} (t u : B) → Lit s v t → Lit t w u → Lit s w u
  Lit-trans s t u a b = record {
    here = b.here;
    elsewhere = λ j ne. b.elsewhere j ne ∙ a.elsewhere j ne;
  }

  pub start-Lit : (s : B) (l : Bool) (s' : B) → start g gpio s ≡ done (l, s') → Lit s l s'
  unfolding start
  start-Lit s l s' e =
      let (s1, got, rest) = >>=-done (g.request_output gpio true s) (λ t. done (true, t)) e in
      let (el, es) = done-pair rest in subst₂ (Lit s) el es (ok.output_done gpio true s s1 got)

  differ-false : (a b : Bool) → differ a b ≡ false → b ≡ a
  differ-false a b h = ground arith

  pub tick-Lit :
      (r : Reading) (s0 : B) (l : Bool) (s : B) (l' : Bool) (s' : B)
      → Lit s0 l s
      → tick g gpio r l s ≡ done (l', s')
      → (l' ≡ desired_level r.enabled r.elapsed) × Lit s0 l' s'
  unfolding tick
  tick-Lit r s0 l s l' s' lit e =
      let want = desired_level r.enabled r.elapsed in
      elim (Bool-cases (differ want l)) [
        | inl news ↦
            let (s1, set, rest) =
              >>=-done (g.set_value gpio want s) (λ t. done (want, t)) (rw news at e) in
            let (el, es) = done-pair rest in
            (
              sym el,
              subst₂ (Lit s0) el es
                  (Lit-trans s0 s s1 lit (ok.set_done gpio want l s s1 lit.here set)),
            )
        | inr old ↦
            let (el, es) = done-pair (rw old at e) in
            (sym el ∙ differ-false want l old, subst₂ (Lit s0) el es lit)
      ]

  run-Lit :
      (rs : List Reading) (r : Reading) (s0 : B) (l : Bool) (s : B) (l' : Bool) (s' : B)
      → Lit s0 l s
      → run g gpio (rs ++ r ∷ []) l s ≡ done (l', s')
      → (l' ≡ desired_level r.enabled r.elapsed) × Lit s0 l' s'
  unfolding run
  run-Lit [] r s0 l s l' s' lit e =
      let ((l1, s1), ticked, rest) = >>=-done (tick g gpio r l s) (λ (a, b). done (a, b)) e in
      tick-Lit r s0 l s l' s' lit (ticked ∙ rest)
  run-Lit (r1 ∷ rs) r s0 l s l' s' lit e =
      let ((l1, s1), ticked, rest) =
        >>=-done (tick g gpio r1 l s) (λ (a, b). run g gpio (rs ++ r ∷ []) a b) e in
      run-Lit rs r s0 l1 s1 l' s' ((tick-Lit r1 s0 l s l1 s1 lit ticked).1) rest

  -- On a backend that keeps its contract, from the start of the signal light, if its calls on the
  -- lines return, its line is driven after any ticks to the level that the last tick asks for, the
  -- stop leaves the line free, and no other line changes.
  pub light-Lit :
      (rs : List Reading) (r : Reading) (s : B) (l' : Bool) (s' : B)
      → (start g gpio s >>= λ (l, s1). run g gpio (rs ++ r ∷ []) l s1) ≡ done (l', s')
      → (l' ≡ desired_level r.enabled r.elapsed)
        × Turns view gpio (output l') s s'
        × Turns view gpio free s (stop g gpio s')
  unfolding stop
  light-Lit rs r s l' s' e =
      let ((l1, s1), started, rest) =
        >>=-done (start g gpio s) (λ (a, b). run g gpio (rs ++ r ∷ []) a b) e in
      let (last, lit) = run-Lit rs r s l1 s1 l' s' (start-Lit s l1 s1 started) rest in
      let freed = ok.release_frees gpio s' in
      (
        last,
        lit,
        record { here = freed.here; elsewhere = λ j ne. freed.elsewhere j ne ∙ lit.elsewhere j ne },
      )
