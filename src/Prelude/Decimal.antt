-- ===== src/Prelude/Decimal.antt =====
-- What std::format makes of an integer.
use pi5_system_surrogate.Prelude.{ℕ, zero, suc, ◌+◌, ◌/◌, ◌%◌, true, false, ltb, [], ◌∷◌, ◌++◌}
use pi5_system_surrogate.Prelude.Int.{ℤ, pos, negsuc}
use pi5_system_surrogate.Prelude.Text.{Text}

-- A number in decimal, of at most the given count of digits; 20 are enough for 64 bits.
unfoldable pub digits : ℕ → ℕ → Text
digits zero n = []
digits (suc more) n = elim (ltb n 10) [
  | true ↦ (n + 48) ∷ []
  | false ↦ digits more (n / 10) ++ (n % 10 + 48) ∷ []
]

unfoldable pub decimal : ℕ → Text
unfolding digits
decimal n = digits 20 n

unfoldable pub decimal_ℤ : ℤ → Text
unfolding decimal
decimal_ℤ (pos n) = decimal n
decimal_ℤ (negsuc n) = b'-' ∷ decimal (suc n)
