-- ===== src/Publisher/Punctual.antt =====
-- The publisher on the loop of its thread: how long the intervals between its ticks are, when the
-- thread is woken on time.
use pi5_system_surrogate.Prelude.{Bool-cases, inl, inr, List, [], ◌∷◌, arith}
use pi5_system_surrogate.Prelude.Int.{ℤ, pos, negsuc, ◌+ℤ◌, ◌-ℤ◌, ◌≤ℤ◌, ◌<ℤ◌, quot, int_laws}
use pi5_system_surrogate.Cadence.Below.{AllBelow}
use pi5_system_surrogate.Periodic.{Round, loop}
use pi5_system_surrogate.Publisher.{Moment}
use pi5_system_surrogate.Publisher.Wire.{gaps}

-- Each tick so far comes at its deadline or less than `late` after it.
abbrev pub IsAwake : ℤ → List ℤ → List Moment → Type 0
IsAwake late ds [] = Unit
IsAwake late [] (m ∷ ms) = ⊥
IsAwake late (d ∷ ds) (m ∷ ms) = (d ≤ℤ m.now) × (m.now <ℤ d +ℤ late) × IsAwake late ds ms

quot-lt : (x : ℤ) → x <ℤ pos 25000000 → quot x 1000 <ℤ pos 25000
unfolding quot
quot-lt (pos n) h = ground arith
quot-lt (negsuc n) h = ground arith

pub gaps-AllBelow :
    (period late : ℤ) (rounds : List Round) (d last : ℤ) (ms : List Moment)
    → d +ℤ late ≤ℤ last +ℤ pos 25000000
    → period +ℤ late ≤ℤ pos 25000000
    → IsAwake late (loop period rounds d) ms
    → AllBelow (pos 25000) (gaps last ms)
unfolding loop
gaps-AllBelow period late rounds d last [] h g a = tt
gaps-AllBelow period late [] d last (m ∷ ms) h g a = absurd a
gaps-AllBelow period late (r ∷ rs) d last (m ∷ ms) h g a = elim (Bool-cases r.stop_before) [
  | inl stops ↦ absurd (rw stops at a)
  | inr goes ↦ elim (Bool-cases r.stop_after) [
    | inl stops ↦ absurd (rw (goes, stops) at a)
    | inr on ↦
        let (since, before, others) = rw (goes, on) at a in
        (
          quot-lt (m.now -ℤ last) (omega int_laws),
          gaps-AllBelow period late rs (d +ℤ period) m.now ms (omega int_laws) g others,
        )
  ]
]
