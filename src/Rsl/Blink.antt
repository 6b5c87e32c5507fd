-- ===== src/Rsl/Blink.antt =====
-- The pattern of the light.
use pi5_system_surrogate.Prelude.{
  ℕ, ◌/◌, ◌%◌, ◌^◌, ◌<◌, bit_and, ◌≡◌, refl, ap, ◌∙◌, Bool, true, false, not, ◌||◌, ◌==◌, ltb,
  arith,
}
use pi5_system_surrogate.Prelude.Bits.{bit_and-low1}
use pi5_system_surrogate.Prelude.Int.{pos, to_word, quot}
use pi5_system_surrogate.Rsl.{desired_level}

small_count : (ms : ℕ) → ms < 2 ^ 63 → ms / 500 % 2 ^ 64 ≡ ms / 500
small_count ms h = omega arith

-- The quotient is never negative here.
whole-pos : (ms : ℕ) → quot (pos ms) 500 ≡ pos (ms / 500)
unfolding quot
whole-pos ms = ground arith

whole-even : (ms : ℕ) → ms < 2 ^ 63 → (ms / 500 % 2 ^ 64 % 2 == 0) ≡ ltb (ms % 1000) 500
whole-even ms h = rw (small_count ms h) (ground arith)

-- While the robot is enabled, for less than 2^63 milliseconds since the start, the light is on in
-- the first half of each second since the start and off in the second half; while it is disabled
-- the light is on.
pub desired_level-pattern :
    (enabled : Bool) (ms : ℕ)
    → ms < 2 ^ 63
    → desired_level enabled (pos ms) ≡ not enabled || ltb (ms % 1000) 500
unfolding desired_level
desired_level-pattern false ms h = refl
desired_level-pattern true ms h =
    ap (λ e. bit_and (to_word 64 e) 1 == 0) (whole-pos ms)
    ∙ ap (λ n. n == 0) (bit_and-low1 (ms / 500 % 2 ^ 64))
    ∙ whole-even ms h
