-- ===== src/Prelude/Bits.antt =====
-- Bitwise operations on numbers that are not numerals: the recursion of `bit_and` on the binary
-- digits, and the check of a Boolean property by evaluation over a small domain.
use Prim.Native.Nat.{
  ℕ, zero, suc, ◌+◌, ◌*◌, ◌/◌, ◌%◌, ◌≤◌, ◌<◌, min, bit_and, digits, bit_and-bitwise,
}
use mathlib.Core.Path.{◌≡◌, refl, ap}
use mathlib.Core.Bool.{Bool, true, false, ◌&&◌}
use native.Mathlib.Omega.{arith}

-- The property holds of every number below the bound.
unfoldable pub for_all_lt : ℕ → (ℕ → Bool) → Bool
for_all_lt zero p = true
for_all_lt (suc n) p = p n && for_all_lt n p

pub for_all_lt_sound : (n : ℕ) (p : ℕ → Bool) (x : ℕ) → x < n → for_all_lt n p ≡ true → p x ≡ true
unfolding for_all_lt
for_all_lt_sound zero p x lt h = absurd (omega arith)
for_all_lt_sound (suc n) p x lt h = ground (arith, for_all_lt_sound n p x)

-- The property holds of both truth values.
unfoldable pub for_both : (Bool → Bool) → Bool
for_both p = p false && p true

pub for_both_sound : (p : Bool → Bool) (b : Bool) → for_both p ≡ true → p b ≡ true
unfolding for_both
for_both_sound p true h = ground arith
for_both_sound p false h = ground arith

-- The digits of a conjunction, with a bound on their number.
abbrev and_upto : ℕ → ℕ → ℕ → ℕ
and_upto k a b = digits (λ _. zero) min k a b

and_upto-bound : (k l a b : ℕ) → a ≤ k → a ≤ l → and_upto k a b ≡ and_upto l a b
and_upto-bound zero zero a b hk hl = refl
and_upto-bound zero (suc l) zero b hk hl = refl
and_upto-bound zero (suc l) (suc a) b hk hl = absurd (omega arith)
and_upto-bound (suc k) zero zero b hk hl = refl
and_upto-bound (suc k) zero (suc a) b hk hl = absurd (omega arith)
and_upto-bound (suc k) (suc l) zero b hk hl = refl
and_upto-bound (suc k) (suc l) (suc a) b hk hl =
    omega (arith, and_upto-bound k l (suc a / 2) (b / 2) (omega arith) (omega arith))

bit_and-zero_left : (b : ℕ) → bit_and 0 b ≡ 0
bit_and-zero_left b = bit_and-bitwise 0 b

-- The lowest digit apart from the others.
pub bit_and-halves : (a b : ℕ) → bit_and a b ≡ 2 * bit_and (a / 2) (b / 2) + min (a % 2) (b % 2)
bit_and-halves zero b = omega (arith, bit_and-zero_left b, bit_and-zero_left (b / 2))
bit_and-halves (suc a) b = omega (
  arith,
  bit_and-bitwise (suc a) b,
  bit_and-bitwise (suc a / 2) (b / 2),
  and_upto-bound a (suc a / 2) (suc a / 2) (b / 2) (omega arith) (omega arith),
)

bit_and-zero_upto : (k a : ℕ) → a ≤ k → bit_and a 0 ≡ 0
bit_and-zero_upto k zero h = refl
bit_and-zero_upto zero (suc a) h = absurd (omega arith)
bit_and-zero_upto (suc k) (suc a) h =
    omega (arith, bit_and-halves (suc a) 0, bit_and-zero_upto k (suc a / 2) (omega arith))

pub bit_and-zero : (a : ℕ) → bit_and a 0 ≡ 0
bit_and-zero a = bit_and-zero_upto a a (omega arith)

pub bit_and-low1 : (a : ℕ) → bit_and a 1 ≡ a % 2
bit_and-low1 a = omega (arith, bit_and-halves a 1, bit_and-zero (a / 2))

-- A mask of four ones keeps the lowest four digits.
pub bit_and-low4 : (a : ℕ) → bit_and a 0xF ≡ a % 16
bit_and-low4 a = omega (
  arith,
  bit_and-halves a 15,
  bit_and-halves (a / 2) 7,
  bit_and-halves (a / 2 / 2) 3,
  bit_and-halves (a / 2 / 2 / 2) 1,
  bit_and-zero (a / 2 / 2 / 2 / 2),
)

half_even : (m : ℕ) → m * 2 / 2 ≡ m
half_even m = omega arith

-- A mask that ends in a zero drops the lowest digit.
bit_and-even : (a m : ℕ) → bit_and a (m * 2) ≡ 2 * bit_and (a / 2) m
bit_and-even a m = omega (arith, bit_and-halves a (m * 2), ap (bit_and (a / 2)) (half_even m))

-- A mask of four ones at the ninth digit keeps that field in its place.
pub bit_and-field8 : (a : ℕ) → bit_and a 0xF00 ≡ 256 * (a / 256 % 16)
bit_and-field8 a = omega (
  arith,
  bit_and-even a 0x780,
  bit_and-even (a / 2) 0x3C0,
  bit_and-even (a / 2 / 2) 0x1E0,
  bit_and-even (a / 2 / 2 / 2) 0xF0,
  bit_and-even (a / 2 / 2 / 2 / 2) 0x78,
  bit_and-even (a / 2 / 2 / 2 / 2 / 2) 0x3C,
  bit_and-even (a / 2 / 2 / 2 / 2 / 2 / 2) 0x1E,
  bit_and-even (a / 2 / 2 / 2 / 2 / 2 / 2 / 2) 0xF,
  bit_and-low4 (a / 2 / 2 / 2 / 2 / 2 / 2 / 2 / 2),
)

-- A mask of one digit, the sixth, keeps that digit in its place.
pub bit_and-digit5 : (a : ℕ) → bit_and a 0x20 ≡ 32 * (a / 32 % 2)
bit_and-digit5 a = omega (
  arith,
  bit_and-even a 0x10,
  bit_and-even (a / 2) 0x8,
  bit_and-even (a / 2 / 2) 0x4,
  bit_and-even (a / 2 / 2 / 2) 0x2,
  bit_and-even (a / 2 / 2 / 2 / 2) 0x1,
  bit_and-low1 (a / 2 / 2 / 2 / 2 / 2),
)
