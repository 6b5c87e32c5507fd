-- ===== src/SmartIo.antt =====
-- smartio_state.hpp and smartio_state.cpp: the state machine of one SmartIo channel, over any
-- backend; smartio_bridge.hpp and smartio_bridge.cpp are modelled in `SmartIo.Bridge`.
pub mod Sync
pub mod Valset
pub mod Bridge
pub mod Rounds
pub mod Ticks
pub mod OneChannel
pub mod Kept
pub mod Published
pub mod Always
pub mod Wraps
pub mod Thrown
use pi5_system_surrogate.Prelude.{ℕ, Bool, false, true, not, if◌then◌else◌}
use pi5_system_surrogate.Prelude.Int.{ℤ, pos, negsuc, eqb_ℤ}
use pi5_system_surrogate.Gpio.{Outcome, done, threw, ◌>>=◌, GpioBackend}

pub data ChannelMode : Type 0 where
  unconfigured digital_input digital_output : ChannelMode

pub record SmartIoChannel : Type 0 where
  pub channel : ℕ
  pub gpio : ℕ
  pub mode : ChannelMode
  pub last_output : Bool

unfoldable pub new_channel : ℕ → ℕ → SmartIoChannel
new_channel channel gpio = record {
  channel = channel;
  gpio = gpio;
  mode = unconfigured;
  last_output = false;
}

-- The `switch` on the HAL's type: the mode that is asked for, `unconfigured` for any other value.
unfoldable pub requested_mode : ℤ → ChannelMode
requested_mode t =
    if eqb_ℤ t (pos 0)
    then digital_input
    else if eqb_ℤ t (pos 1)
    then digital_output
    else unconfigured

abbrev pub same_mode : ChannelMode → ChannelMode → Bool
same_mode unconfigured unconfigured = true
same_mode digital_input digital_input = true
same_mode digital_output digital_output = true
same_mode _ _ = false

abbrev pub is_unconfigured : ChannelMode → Bool
is_unconfigured m = same_mode m unconfigured

abbrev pub is_input : ChannelMode → Bool
is_input m = same_mode m digital_input

abbrev pub is_output : ChannelMode → Bool
is_output m = same_mode m digital_output

-- `hal_value != 0`
abbrev pub is_high : ℤ → Bool
is_high hal_value = not (eqb_ℤ hal_value (pos 0))

module _ {B : Type 0} (g : GpioBackend B) where
  -- `if (mode_ != ChannelMode::Unconfigured) backend_.release_line(gpio_);`
  unfoldable pub release_if_held : SmartIoChannel → B → B
  release_if_held c s = if is_unconfigured c.mode then s else g.release_line c.gpio s

  -- The request of the new mode. It is called for the two supported modes.
  unfoldable pub request_mode : ChannelMode → SmartIoChannel → B → Outcome B B
  request_mode digital_input c s = g.request_input c.gpio s
  request_mode _ c s = g.request_output c.gpio c.last_output s

  -- `mode_ = requested;`
  abbrev pub enter : ChannelMode → SmartIoChannel → B → Outcome B (SmartIoChannel × B)
  enter m c s = done (record c { mode = m }, s)

  -- A type that changes the mode.
  unfoldable pub change_mode : ChannelMode → SmartIoChannel → B → Outcome B (SmartIoChannel × B)
  unfolding release_if_held request_mode
  change_mode unconfigured c s = done (record c { mode = unconfigured }, release_if_held c s)
  change_mode m c s = request_mode m c (release_if_held c s) >>= enter m c

  unfoldable pub on_type_changed : ℤ → SmartIoChannel → B → Outcome B (SmartIoChannel × B)
  unfolding change_mode
  on_type_changed hal_type c s =
      let requested = requested_mode hal_type in
      if same_mode requested c.mode then done (c, s) else change_mode requested c s

  -- The channel after the write to its line.
  abbrev pub beside : SmartIoChannel → B → Outcome B (SmartIoChannel × B)
  beside c s = done (c, s)

  unfoldable pub on_valset : ℤ → SmartIoChannel → B → Outcome B (SmartIoChannel × B)
  on_valset hal_value c s =
      let c' = record c { last_output = is_high hal_value } in
      if is_output c.mode
      then (g.set_value c.gpio (is_high hal_value) s >>= beside c')
      else done (c', s)

  unfoldable pub sample_input : SmartIoChannel → B → Outcome B Bool
  sample_input c s = if is_input c.mode then g.get_value c.gpio s else done false
