-- ===== src/Gpio/Libgpiod.antt =====
-- libgpiod_backend.hpp and libgpiod_backend.cpp: the backend over libgpiod, which keeps each line
-- that it has requested until the line is released.
use pi5_system_surrogate.Prelude.{
  ℕ, Bool, false, not, if◌then◌else◌, ◌==◌, ◌||◌, List, [], ◌∷◌, Option, none, some,
}
use pi5_system_surrogate.Gpio.{Outcome, done, threw, GpioBackend}

-- The calls of libgpiod, over the states `H` of the chip: a parameter. `none` is a call that throws
-- and changes nothing. A line that `get_line` returns is a valid handle.
pub record Gpiod (H : Type 0) : Type 0 where
  pub get_line : ℕ → H → Option (Unit {0})
  pub request_in : ℕ → H → Option H
  pub request_out : ℕ → Bool → H → Option H
  pub release : ℕ → H → H
  pub set_line : ℕ → Bool → H → Option H
  pub get_line_value : ℕ → H → Option ℕ

-- The keys of `lines_` stand for its entries.
pub record LibgpiodBackend (H : Type 0) : Type 0 where
  pub chip : H
  pub lines : List ℕ

unfoldable pub holds : ℕ → List ℕ → Bool
holds gpio [] = false
holds gpio (l ∷ ls) = l == gpio || holds gpio ls

unfoldable pub erase : ℕ → List ℕ → List ℕ
erase gpio [] = []
erase gpio (l ∷ ls) = let rest = erase gpio ls in if l == gpio then rest else l ∷ rest

module _ {H : Type 0} (d : Gpiod H) where
  unfoldable pub release_line : ℕ → LibgpiodBackend H → LibgpiodBackend H
  release_line gpio b =
      if holds gpio b.lines
      then record { chip = d.release gpio b.chip; lines = erase gpio b.lines }
      else b

  -- The end of a request: an exception, or the new entry.
  abbrev pub hold :
      ℕ → LibgpiodBackend H → Option H → Outcome (LibgpiodBackend H) (LibgpiodBackend H)
  hold gpio b none = threw b
  hold gpio b (some h) = done (record { chip = h; lines = gpio ∷ b.lines })

  -- `get_line`, the request on the line that it returns, and the entry.
  unfoldable pub claim :
      ℕ → LibgpiodBackend H → Option H → Outcome (LibgpiodBackend H) (LibgpiodBackend H)
  claim gpio b requested = elim (d.get_line gpio b.chip) [
    | none ↦ threw b
    | some _ ↦ hold gpio b requested
  ]

  unfoldable pub request_input :
      ℕ → LibgpiodBackend H → Outcome (LibgpiodBackend H) (LibgpiodBackend H)
  unfolding release_line claim
  request_input gpio b = let b' = release_line gpio b in claim gpio b' (d.request_in gpio b'.chip)

  unfoldable pub request_output :
      ℕ → Bool → LibgpiodBackend H → Outcome (LibgpiodBackend H) (LibgpiodBackend H)
  unfolding release_line claim
  request_output gpio v b =
      let b' = release_line gpio b in claim gpio b' (d.request_out gpio v b'.chip)

  unfoldable pub set_value :
      ℕ → Bool → LibgpiodBackend H → Outcome (LibgpiodBackend H) (LibgpiodBackend H)
  set_value gpio v b =
      if holds gpio b.lines
      then elim (d.set_line gpio v b.chip) [
        | none ↦ threw b
        | some h ↦ done (record b { chip = h })
      ]
      else done b

  unfoldable pub get_value : ℕ → LibgpiodBackend H → Outcome (LibgpiodBackend H) Bool
  get_value gpio b =
      if holds gpio b.lines
      then elim (d.get_line_value gpio b.chip) [ none ↦ threw b | some n ↦ done (not (n == 0)) ]
      else done false

  -- The destructor releases every line that is held.
  unfoldable pub release_all : List ℕ → H → H
  release_all [] h = h
  release_all (l ∷ ls) h = release_all ls (d.release l h)

  unfoldable pub close : LibgpiodBackend H → H
  unfolding release_all
  close b = release_all b.lines b.chip

  unfoldable pub libgpiod_backend : GpioBackend (LibgpiodBackend H)
  unfolding request_input request_output set_value get_value
  libgpiod_backend = record {
    release_line = release_line;
    request_input = request_input;
    request_output = request_output;
    set_value = set_value;
    get_value = get_value;
  }
