-- ===== src/Periodic.antt =====
-- periodic_task.hpp: the loop of every periodic thread. A round is one pass of the loop: what its two
-- questions for a stop find. The clock is read once, before the loop.
use pi5_system_surrogate.Prelude.{
  ℕ, zero, suc, ◌<◌, ◌≡◌, refl, ◌∙◌, Bool, false, ◌||◌, if◌then◌else◌, length, get_or, List, [],
  ◌∷◌, arith,
}
use pi5_system_surrogate.Prelude.Int.{ℤ, pos, ◌+ℤ◌, ◌·ℤ◌, eq_of_parts, int_laws}

-- `stop_requested` before the sleep and after it.
pub record Round : Type 0 where
  pub stop_before : Bool
  pub stop_after : Bool

-- The loop from a deadline: the deadlines of the ticks that it runs, each slept for before its tick.
unfoldable pub loop : ℤ → List Round → ℤ → List ℤ
loop period [] deadline = []
loop period (r ∷ rs) deadline =
    let later = loop period rs (deadline +ℤ period) in
    if r.stop_before then [] else if r.stop_after then [] else deadline ∷ later

-- The whole of `run_periodic`, called at `now`.
unfoldable pub run_periodic : ℤ → List Round → ℤ → List ℤ
unfolding loop
run_periodic period rounds now = loop period rounds (now +ℤ period)

-- The rounds before the first that finds a stop.
unfoldable pub undisturbed : List Round → ℕ
undisturbed [] = 0
undisturbed (r ∷ rs) = let n = undisturbed rs in if r.stop_before || r.stop_after then 0 else suc n

loop-length :
    (period : ℤ) (rounds : List Round) (d : ℤ) → length (loop period rounds d) ≡ undisturbed rounds
unfolding loop undisturbed
loop-length period [] d = refl
loop-length period (r ∷ rs) d = ground (arith, loop-length period rs (d +ℤ period))

first_deadline : (d p : ℤ) → d ≡ d +ℤ p ·ℤ 0
first_deadline d p = eq_of_parts _ _ (omega int_laws)

next_deadline : (d p : ℤ) (i : ℕ) → d +ℤ p +ℤ p ·ℤ i ≡ d +ℤ p ·ℤ suc i
next_deadline d p i = eq_of_parts _ _ (omega int_laws)

-- A tick is run only in a round that finds no stop.
running :
    (period : ℤ) (r : Round) (rs : List Round) (d : ℤ) (k : ℕ)
    → k < length (loop period (r ∷ rs) d)
    → (r.stop_before ≡ false) × (r.stop_after ≡ false)
unfolding loop
running period r rs d k h = ground arith

behind :
    (period : ℤ) (r : Round) (rs : List Round) (d : ℤ) (k : ℕ)
    → r.stop_before ≡ false
    → r.stop_after ≡ false
    → suc k < length (loop period (r ∷ rs) d)
    → k < length (loop period rs (d +ℤ period))
unfolding loop
behind period r rs d k e1 e2 h = ground arith

loop-at :
    (period : ℤ) (rounds : List Round) (d : ℤ) (k : ℕ)
    → k < length (loop period rounds d)
    → get_or (loop period rounds d) k (pos 0) ≡ d +ℤ period ·ℤ k
unfolding loop
loop-at period [] d k h = absurd (omega arith)
loop-at period (r ∷ rs) d zero h =
    let (e1, e2) = running period r rs d zero h in rw (e1, e2) (first_deadline d period)
loop-at period (r ∷ rs) d (suc k) h =
    let (e1, e2) = running period r rs d (suc k) h in
    rw (e1, e2)
      (loop-at period rs (d +ℤ period) k (behind period r rs d k e1 e2 h)
        ∙ next_deadline d period k)

-- The loop of a periodic thread runs one tick in each round before the first that finds a stop, and
-- the deadline of a tick is a whole number of periods after the start, one for each tick so far:
-- late ticks do not shift the deadlines.
pub run_periodic-deadlines :
    (period now : ℤ) (rounds : List Round) (k : ℕ)
    → k < undisturbed rounds
    → (length (run_periodic period rounds now) ≡ undisturbed rounds)
      × (get_or (run_periodic period rounds now) k (pos 0) ≡ now +ℤ period ·ℤ suc k)
unfolding run_periodic
run_periodic-deadlines period now rounds k h = (
  loop-length period rounds (now +ℤ period),
  loop-at period rounds (now +ℤ period) k (omega (arith, loop-length period rounds (now +ℤ period)))
      ∙ next_deadline now period k,
)
