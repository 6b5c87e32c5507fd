-- ===== src/SmartIo/Bridge.antt =====
-- smartio_bridge.hpp and smartio_bridge.cpp: the channels against the topics /io/{ch}/type,
-- /io/{ch}/valset and /io/{ch}/valget. What a subscriber returns is an input of the tick.
use pi5_system_surrogate.Prelude.{ℕ, suc, Bool, not, ◌&&◌, if◌then◌else◌, List, [], ◌∷◌, ◌++◌}
use pi5_system_surrogate.Prelude.Int.{ℤ, pos, negsuc, eqb_ℤ, to_int32}
use pi5_system_surrogate.Gpio.{Outcome, done, ◌>>=◌, GpioBackend}
use pi5_system_surrogate.SmartIo.{
  SmartIoChannel, new_channel, is_input, is_unconfigured, on_type_changed, on_valset, sample_input,
}

-- kSentinel
abbrev pub sentinel : ℤ
sentinel = negsuc 9998

pub record PinMapping : Type 0 where
  pub channel : ℕ
  pub gpio : ℕ

pub record ChannelGlue : Type 0 where
  pub channel : SmartIoChannel
  pub last_type : ℤ
  pub last_valset : ℤ

-- What `Get` of the subscribers returns, by channel: the sentinel where nothing was published.
pub record Topics : Type 0 where
  pub type_of : ℕ → ℤ
  pub valset_of : ℕ → ℤ

unfoldable pub new_glue : PinMapping → ChannelGlue
new_glue m = record {
  channel = new_channel m.channel m.gpio;
  last_type = sentinel;
  last_valset = sentinel;
}

unfoldable pub new_bridge : List PinMapping → List ChannelGlue
unfolding new_glue
new_bridge [] = []
new_bridge (m ∷ ms) = new_glue m ∷ new_bridge ms

-- A value that differs from the last one seen, and is one.
abbrev pub is_news : ℤ → ℤ → Bool
is_news v last = not (eqb_ℤ v last) && not (eqb_ℤ v sentinel)

-- The 255 or 0 that stands for an input as it is published.
abbrev pub input_level : Bool → ℤ
input_level hi = if hi then pos 255 else pos 0

module _ {B : Type 0} (g : GpioBackend B) where
  abbrev pub saw_type : ℤ → ChannelGlue → SmartIoChannel × B → Outcome B (ChannelGlue × B)
  saw_type t e (c, s) = done (record e { channel = c; last_type = t }, s)

  abbrev pub saw_valset : ℤ → ChannelGlue → SmartIoChannel × B → Outcome B (ChannelGlue × B)
  saw_valset v e (c, s) = done (record e { channel = c; last_valset = v }, s)

  unfoldable pub dispatch_type : ℤ → ChannelGlue → B → Outcome B (ChannelGlue × B)
  dispatch_type t e s =
      if is_news t e.last_type
      then (on_type_changed g (to_int32 t) e.channel s >>= saw_type t e)
      else done (e, s)

  unfoldable pub dispatch_valset : ℤ → ChannelGlue → B → Outcome B (ChannelGlue × B)
  dispatch_valset v e s =
      if is_news v e.last_valset
      then (on_valset g (to_int32 v) e.channel s >>= saw_valset v e)
      else done (e, s)

  -- The value published on the channel's /valget, if it is an input.
  unfoldable pub publish_input : ChannelGlue → B → Outcome B (List (ℕ × ℤ))
  publish_input e s =
      if is_input e.channel.mode
      then (sample_input g e.channel s >>= λ hi. done ((e.channel.channel, input_level hi) ∷ []))
      else done []

  -- One round of the loop of `tick`.
  unfoldable pub tick_channel :
      Topics → ChannelGlue → B → Outcome B (ChannelGlue × B × List (ℕ × ℤ))
  tick_channel topics e s = dispatch_type (topics.type_of e.channel.channel) e s >>= λ (e1, s1).
      dispatch_valset (topics.valset_of e.channel.channel) e1 s1 >>= λ (e2, s2).
      publish_input e2 s2 >>= λ published. done (e2, s2, published)

  -- `tick`: the channels in order, and what it publishes.
  unfoldable pub tick :
      Topics → List ChannelGlue → B → Outcome B (List ChannelGlue × B × List (ℕ × ℤ))
  tick topics [] s = done ([], s, [])
  tick topics (e ∷ es) s = tick_channel topics e s >>= λ (e', s', published).
      tick topics es s' >>= λ (es', s'', more). done (e' ∷ es', s'', published ++ more)

unfoldable pub channels_configured : List ChannelGlue → ℕ
channels_configured [] = 0
channels_configured (e ∷ es) =
    let n = channels_configured es in if is_unconfigured e.channel.mode then n else suc n
