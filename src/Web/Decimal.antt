-- ===== src/Web/Decimal.antt =====
-- Numbers as the page shows them and as the forms read them.
use native.Mathlib.Nat.{pow-suc}
use pi5_system_surrogate.Prelude.{
  ℕ, zero, suc, ◌+◌, ◌-◌, ◌*◌, ◌/◌, ◌%◌, ◌^◌, ◌<◌, ◌≡◌, refl, ap, ◌∙◌, true, false, Bool-cases, inl,
  inr, ◌&&◌, ltb, leb, ltb→lt, lt→ltb, ◌==◌, [], ◌∷◌, ◌++◌, arith,
}
use pi5_system_surrogate.Prelude.Int.{ℤ, pos, negsuc}
use pi5_system_surrogate.Prelude.Text.{Text}
use pi5_system_surrogate.Web.{digits_value, negated, from_chars}
use pi5_system_surrogate.Prelude.Decimal.{digits, decimal, decimal_ℤ}

abbrev AllDigits : Text → Type 0
AllDigits [] = Unit
AllDigits (b ∷ bs) = ((leb 48 b && leb b 57) ≡ true) × AllDigits bs

is_digit : (d : ℕ) → d < 10 → (leb 48 (d + 48) && leb (d + 48) 57) ≡ true
is_digit d h = ground arith

AllDigits-append : (xs ys : Text) → AllDigits xs → AllDigits ys → AllDigits (xs ++ ys)
AllDigits-append [] ys h k = k
AllDigits-append (x ∷ xs) ys (h, hs) k = (h, AllDigits-append xs ys hs k)

digits_value-append :
    (m d : ℕ) (xs : Text)
    → AllDigits xs
    → d < 10
    → digits_value m (xs ++ (d + 48) ∷ []) ≡ digits_value m xs * 10 + d
digits_value-append m d [] h small = rw (is_digit d small) (omega arith)
digits_value-append m d (x ∷ xs) (h, hs) small =
    rw h (digits_value-append (m * 10 + (x - 48)) d xs hs small)

digits-AllDigits : (k n : ℕ) → AllDigits (digits k n)
unfolding digits
digits-AllDigits zero n = tt
digits-AllDigits (suc k) n = elim (Bool-cases (ltb n 10)) [
  | inl small ↦ rw (digits, small) (is_digit n (ltb→lt n 10 small), tt)
  | inr large ↦
      rw (digits, large)
        (AllDigits-append (digits k (n / 10)) ((n % 10 + 48) ∷ []) (digits-AllDigits k (n / 10))
          (is_digit (n % 10) (omega arith), tt))
]

tenth : (n k : ℕ) → n < 10 ^ suc k → n / 10 < 10 ^ k
tenth n k h = omega (arith, pow-suc 10 k)

digits-value : (k n : ℕ) → n < 10 ^ k → digits_value 0 (digits k n) ≡ n
unfolding digits
digits-value zero n h = omega arith
digits-value (suc k) n h = elim (Bool-cases (ltb n 10)) [
  | inl small ↦ rw (digits, small) (digits_value-append 0 n [] tt (ltb→lt n 10 small) ∙ omega arith)
  | inr large ↦
      rw (digits, large)
        (digits_value-append 0 (n % 10) (digits k (n / 10)) (digits-AllDigits k (n / 10))
            (omega arith)
          ∙ omega (arith, digits-value k (n / 10) (tenth n k h)))
]

from_chars-digits :
    (t : Text) → AllDigits t → digits_value 0 t < 2 ^ 31 → from_chars t ≡ pos (digits_value 0 t)
unfolding from_chars
from_chars-digits [] h small = refl
from_chars-digits (b ∷ bs) (h, hs) small =
    rw (not_minus b h, lt→ltb (digits_value 0 (b ∷ bs)) (2 ^ 31) small) refl
  where
    not_minus : (b : ℕ) → (leb 48 b && leb b 57) ≡ true → (b == 45) ≡ false
    not_minus b h = ground arith

negated-suc : (n : ℕ) → n < 2 ^ 31 → negated (suc n) ≡ negsuc n
negated-suc n h = rw (le→leb n h) refl
  where
    le→leb : (n : ℕ) → n < 2 ^ 31 → leb (suc n) (2 ^ 31) ≡ true
    le→leb n h = ground arith

-- The range of an `int`.
abbrev pub IsInt : ℤ → Type 0
IsInt (pos n) = n < 2 ^ 31
IsInt (negsuc n) = n < 2 ^ 31

-- The two conversions agree.
pub from_chars-decimal_ℤ : (a : ℤ) → IsInt a → from_chars (decimal_ℤ a) ≡ a
unfolding decimal_ℤ decimal from_chars
from_chars-decimal_ℤ (pos n) h =
    let e = digits-value 20 n (omega arith) in
    from_chars-digits (digits 20 n) (digits-AllDigits 20 n) (omega (arith, e)) ∙ ap pos e
from_chars-decimal_ℤ (negsuc n) h =
    ap negated (digits-value 20 (suc n) (omega arith)) ∙ negated-suc n h
