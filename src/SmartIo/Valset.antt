-- ===== src/SmartIo/Valset.antt =====
-- A value for a channel, over a backend that keeps its contract.
use pi5_system_surrogate.Prelude.{
  ℕ, ◌≡◌, refl, ◌∙◌, subst₂, sym, Bool, true, false, Bool-cases, inl, inr, arith,
}
use pi5_system_surrogate.Prelude.Int.{ℤ}
use pi5_system_surrogate.Gpio.{done, GpioBackend, LineUse, output, IsFaithful, >>=-done, done-pair}
use pi5_system_surrogate.SmartIo.Sync.{use_of, InSync, Keeps}
use pi5_system_surrogate.SmartIo.{
  beside, is_high, ChannelMode, SmartIoChannel, on_valset, is_output,
}

pub use_of_output : (m : ChannelMode) (v : Bool) → is_output m ≡ true → use_of m v ≡ output v
use_of_output m v h = ground arith

use_of_other : (m : ChannelMode) (v w : Bool) → is_output m ≡ false → use_of m v ≡ use_of m w
use_of_other m v w h = ground arith

module _ {B : Type 0} (g : GpioBackend B) (view : B → ℕ → LineUse) (ok : IsFaithful g view) where
  -- What a value leaves behind: the mode as it was, the value remembered in every mode, and the
  -- line of an output driven to it.
  pub record Valued (v : Bool) (c : SmartIoChannel) (s : B) (c' : SmartIoChannel) (s' : B)
      : Type 0 where
    pub keeps : Keeps g view ok c s c' s'
    pub mode : c'.mode ≡ c.mode
    pub last_output : c'.last_output ≡ v

  driven :
      (v : Bool) (c : SmartIoChannel) (s s' : B)
      → InSync g view ok c s
      → is_output c.mode ≡ true
      → g.set_value c.gpio v s ≡ done s'
      → Valued v c s (record c { last_output = v }) s'
  driven v c s s' sync out e =
      let t =
        ok.set_done c.gpio v c.last_output s s' (sync ∙ use_of_output c.mode c.last_output out) e in
      record {
        keeps = record {
          channel = refl;
          gpio = refl;
          in_sync = t.here ∙ sym (use_of_output c.mode v out);
          elsewhere = t.elsewhere;
        };
        mode = refl;
        last_output = refl;
      }

  dropped :
      (v : Bool) (c : SmartIoChannel) (s : B)
      → InSync g view ok c s
      → is_output c.mode ≡ false
      → Valued v c s (record c { last_output = v }) s
  dropped v c s sync out = record {
    keeps = record {
      channel = refl;
      gpio = refl;
      in_sync = sync ∙ use_of_other c.mode c.last_output v out;
      elsewhere = λ _ _. refl;
    };
    mode = refl;
    last_output = refl;
  }

  -- On a backend that keeps its contract and a channel that agrees with its line, a value whose
  -- call returns is remembered in every mode and drives the line of an output, and of an output
  -- alone; the mode and the other lines stay as they were.
  pub on_valset-Valued :
      (v : ℤ) (c : SmartIoChannel) (s : B) (c' : SmartIoChannel) (s' : B)
      → InSync g view ok c s
      → on_valset g v c s ≡ done (c', s')
      → Valued (is_high v) c s c' s'
  unfolding on_valset
  on_valset-Valued v c s c' s' sync e =
      let c1 = record c { last_output = is_high v } in
      elim (Bool-cases (is_output c.mode)) [
        | inl out ↦
            let (s1, set, rest) =
              >>=-done (g.set_value c.gpio (is_high v) s) (beside g c1) (rw out at e) in
            let (ec, es) = done-pair rest in
            subst₂ (Valued (is_high v) c s) ec es (driven (is_high v) c s s1 sync out set)
        | inr other ↦
            let (ec, es) = done-pair (rw other at e) in
            subst₂ (Valued (is_high v) c s) ec es (dropped (is_high v) c s sync other)
      ]
