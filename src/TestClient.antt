-- ===== src/TestClient.antt =====
-- nt_smartio_test.cpp: the client that asks for a channel's type and value over the topics. Its
-- arguments are the input, with the program's name first.
pub mod Drives
use pi5_system_surrogate.Prelude.{ℕ, Option, none, some, List, ◌∷◌}
use pi5_system_surrogate.Prelude.Int.{ℤ}
use pi5_system_surrogate.Prelude.Text.{Text}
use pi5_system_surrogate.Web.{from_chars}

-- What it sets on /io/{channel}/type and /io/{channel}/valset.
pub record Sent : Type 0 where
  pub channel : ℤ
  pub type : ℤ
  pub valset : ℤ

abbrev pub sent : Text → Text → Text → Sent
sent ch type val = record {
  channel = from_chars ch;
  type = from_chars type;
  valset = from_chars val;
}

-- The exit code, and what is sent.
unfoldable pub run_client : List Text → ℕ × Option Sent
run_client (name ∷ ch ∷ type ∷ val ∷ rest) = (0, some (sent ch type val))
run_client _ = (2, none)
