-- ===== src/Tests/Chip.antt =====
-- A chip that is a function from the lines to their uses, for the other tests.
use pi5_system_surrogate.Prelude.{
  ℕ, ◌≡◌, refl, leb, subst, ◌==◌, if◌then◌else◌, some, none, [], arith,
}
use pi5_system_surrogate.Gpio.{GpioBackend, LineUse, free, input, output, Turns, IsFaithful}
use pi5_system_surrogate.Gpio.Libgpiod.{Gpiod, LibgpiodBackend, libgpiod_backend, holds}
use pi5_system_surrogate.Gpio.LibgpiodLaws.{IsGpiod, line_use, libgpiod_backend-IsFaithful}

-- The chip: 28 lines, and the request of a line above them throws.
abbrev pub update : (ℕ → LineUse) → ℕ → LineUse → ℕ → LineUse
update h gpio l j = if j == gpio then l else h j

abbrev pub chip : Gpiod (ℕ → LineUse)
chip = record {
  get_line = λ gpio h. if leb 28 gpio then none else some tt;
  request_in = λ gpio h. some (update h gpio input);
  request_out = λ gpio v h. some (update h gpio (output v));
  release = λ gpio h. update h gpio free;
  set_line = λ gpio v h. some (update h gpio (output v));
  get_line_value = λ gpio h. some 1;
}

abbrev pub line : (ℕ → LineUse) → ℕ → LineUse
line h j = h j

update-Turns : (gpio : ℕ) (l : LineUse) (h : ℕ → LineUse) → Turns line gpio l h (update h gpio l)
update-Turns gpio l h = record { here = ground arith; elsewhere = λ j ne. ground arith }

update-some :
    (gpio : ℕ) (l : LineUse) (h h' : ℕ → LineUse)
    → some (update h gpio l) ≡ some h'
    → Turns line gpio l h h'
update-some gpio l h h' e =
    subst (λ u. Turns line gpio l h u) {x = update h gpio l} {y = h'} (cc e) (update-Turns gpio l h)

pub chip-IsGpiod : IsGpiod chip line
chip-IsGpiod = record {
  in_turns = λ gpio h h' e. update-some gpio input h h' e;
  out_turns = λ gpio v h h' e. update-some gpio (output v) h h' e;
  release_turns = λ gpio h. update-Turns gpio free h;
  set_turns = λ gpio v w h h' _ e. update-some gpio (output v) h h' e;
}

abbrev pub quiet_chip : LibgpiodBackend (ℕ → LineUse)
quiet_chip = record { chip = λ _. free; lines = [] }

abbrev pub pins : GpioBackend (LibgpiodBackend (ℕ → LineUse))
pins = libgpiod_backend chip

abbrev pub uses : LibgpiodBackend (ℕ → LineUse) → ℕ → LineUse
uses = line_use chip line chip-IsGpiod

pub pins-IsFaithful : IsFaithful pins uses
pins-IsFaithful = libgpiod_backend-IsFaithful chip line chip-IsGpiod

pub unused : (gpio : ℕ) → uses quiet_chip gpio ≡ free
unfolding holds
unused gpio = refl
