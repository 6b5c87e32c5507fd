-- ===== src/Gpio.antt =====
-- smartio_state.hpp, `IGpioBackend`: the interface to the GPIO lines, its contract, and the names of
-- its calls. null_gpio_backend.hpp and libgpiod_backend.cpp implement it in the modules below.
pub mod Null
pub mod Libgpiod
pub mod LibgpiodLaws
pub mod Owned
use pi5_system_surrogate.Prelude.{ℕ, ◌≡◌, ◌≢◌, refl, ◌⊎◌, inl, inr, Bool, arith}

-- A call returns, or throws. What a call throws ends the daemon, since no thread of it catches, so
-- only the state of the backend is kept.
pub data Outcome (B : Type 0) (A : Type 0) : Type 0 where
  done : A → Outcome B A
  threw : B → Outcome B A

infixl 5 ◌>>=◌
abbrev pub ◌>>=◌ : {B A C : Type 0} → Outcome B A → (A → Outcome B C) → Outcome B C
done a >>= f = f a
threw b >>= f = threw b

-- Inversion of a call that goes on after another.
pub >>=-done :
    {B A C : Type 0} (m : Outcome B A) (f : A → Outcome B C) {c : C}
    → (m >>= f) ≡ done c
    → (a : A) × (m ≡ done a) × (f a ≡ done c)
>>=-done (done a) f e = (a, refl, e)
>>=-done (threw b) f e = cc

pub >>=-threw :
    {B A C : Type 0} (m : Outcome B A) (f : A → Outcome B C) {b : B}
    → (m >>= f) ≡ threw b
    → (m ≡ threw b) ⊎ ((a : A) × (m ≡ done a) × (f a ≡ threw b))
>>=-threw (done a) f e = inr (a, refl, e)
>>=-threw (threw b) f e = inl (ground arith)

pub done-inj : {B A : Type 0} {a a' : A} → ◌≡◌ {A = Outcome B A} (done a) (done a') → a ≡ a'
done-inj e = cc

pub done-pair :
    {B A C : Type 0} {a a' : A} {c c' : C}
    → ◌≡◌ {A = Outcome B (A × C)} (done (a, c)) (done (a', c'))
    → (a ≡ a') × (c ≡ c')
done-pair e = (cc, cc)

-- The virtual functions, over the states `B` of a backend. Lines are named by their numbers.
pub record GpioBackend (B : Type 0) : Type 0 where
  pub release_line : ℕ → B → B
  pub request_input : ℕ → B → Outcome B B
  pub request_output : ℕ → Bool → B → Outcome B B
  pub set_value : ℕ → Bool → B → Outcome B B
  pub get_value : ℕ → B → Outcome B Bool

-- What a line is used as.
pub data LineUse : Type 0 where
  free : LineUse
  input : LineUse
  output : Bool → LineUse

-- Line `gpio` is used so after a change from `s` to `s'`, and the other lines are as they were.
pub record Turns {B : Type 0} (view : B → ℕ → LineUse) (gpio : ℕ) (l : LineUse) (s s' : B)
    : Type 0 where
  pub here : view s' gpio ≡ l
  pub elsewhere : (j : ℕ) → j ≢ gpio → view s' j ≡ view s j

-- What a client may rely on: each call changes the use of its own line as it says, and of no other.
-- A request that throws leaves the line free, a write or a read that throws changes no line.
pub record IsFaithful {B : Type 0} (g : GpioBackend B) (view : B → ℕ → LineUse) : Type 0 where
  pub release_frees : (gpio : ℕ) (s : B) → Turns view gpio free s (g.release_line gpio s)
  pub input_done :
      (gpio : ℕ) (s s' : B) → g.request_input gpio s ≡ done s' → Turns view gpio input s s'
  pub input_threw :
      (gpio : ℕ) (s s' : B) → g.request_input gpio s ≡ threw s' → Turns view gpio free s s'
  pub output_done :
      (gpio : ℕ) (v : Bool) (s s' : B)
      → g.request_output gpio v s ≡ done s'
      → Turns view gpio (output v) s s'
  pub output_threw :
      (gpio : ℕ) (v : Bool) (s s' : B)
      → g.request_output gpio v s ≡ threw s'
      → Turns view gpio free s s'
  pub set_done :
      (gpio : ℕ) (v w : Bool) (s s' : B)
      → view s gpio ≡ output w
      → g.set_value gpio v s ≡ done s'
      → Turns view gpio (output v) s s'
  pub set_threw :
      (gpio : ℕ) (v w : Bool) (s s' : B)
      → view s gpio ≡ output w
      → g.set_value gpio v s ≡ threw s'
      → (j : ℕ) → view s' j ≡ view s j
  pub get_threw :
      (gpio : ℕ) (s s' : B)
      → view s gpio ≡ input
      → g.get_value gpio s ≡ threw s'
      → (j : ℕ) → view s' j ≡ view s j
