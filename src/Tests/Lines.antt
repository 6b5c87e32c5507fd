-- ===== src/Tests/Lines.antt =====
-- The GPIO lines and the channels of SmartIo at concrete inputs, on a chip that is a function from the
-- lines to their uses.
use pi5_system_surrogate.Prelude.{
  ap, arith, some, ◌^◌, ℕ, ◌≡◌, ◌≢◌, refl, Bool, true, false, Bool-cases, sym, inl, inr, [], ◌∷◌,
}
use pi5_system_surrogate.Prelude.Int.{pos, negsuc, neg_part, ◌·ℤ◌, to_int32}
use pi5_system_surrogate.Gpio.{input, done, done-inj, ◌>>=◌, LineUse, free, output, IsFaithful}
use pi5_system_surrogate.Gpio.Libgpiod.{
  get_value, LibgpiodBackend, libgpiod_backend, request_output, request_input, claim, release_line,
  holds, set_value,
}
use pi5_system_surrogate.Gpio.LibgpiodLaws.{line_use, libgpiod_backend-IsFaithful}
use pi5_system_surrogate.SmartIo.{
  is_high, digital_input, sample_input, unconfigured, digital_output, SmartIoChannel, new_channel,
  requested_mode, release_if_held, request_mode, change_mode, on_type_changed, on_valset,
}
use pi5_system_surrogate.SmartIo.Bridge.{
  sentinel, PinMapping, ChannelGlue, Topics, new_glue, new_bridge, dispatch_type, dispatch_valset,
  publish_input, tick_channel, tick,
}
use pi5_system_surrogate.SmartIo.Ticks.{Ready, ready_nil, ready_cons, away_nil, Ticked, tick-Ticked}
use pi5_system_surrogate.SmartIo.Published.{Reads, readings, tick-Published}
use pi5_system_surrogate.SmartIo.Sync.{use_of}
use pi5_system_surrogate.Prelude.Text.{codes}
use pi5_system_surrogate.Web.{from_chars}
use pi5_system_surrogate.TestClient.{run_client}
use pi5_system_surrogate.TestClient.Drives.{client-drives}
use pi5_system_surrogate.SmartIo.Wraps.{dispatch_valset-wraps}
use pi5_system_surrogate.SmartIo.Always.{ticks, Vacant, vacant_nil, vacant_cons, bridge-Ready}
use pi5_system_surrogate.Tests.Chip.{
  update, chip, line, chip-IsGpiod, quiet_chip, pins, uses, pins-IsFaithful,
}

libgpiod_backend-IsFaithful_example :
    IsFaithful (libgpiod_backend chip) (line_use chip line chip-IsGpiod)
libgpiod_backend-IsFaithful_example = libgpiod_backend-IsFaithful chip line chip-IsGpiod

-- A channel on line 17, and the chip once it is an output.
abbrev blank : SmartIoChannel
blank = record { channel = 0; gpio = 17; mode = unconfigured; last_output = false }

abbrev as_output : SmartIoChannel
as_output = record blank { mode = digital_output }

abbrev driven_chip : Bool → LibgpiodBackend (ℕ → LineUse)
driven_chip v = record { chip = update (λ _. free) 17 (output v); lines = 17 ∷ [] }

becomes_output : on_type_changed pins (pos 1) blank quiet_chip ≡ done (as_output, driven_chip false)
unfolding on_type_changed change_mode requested_mode request_mode release_if_held libgpiod_backend
    request_output claim release_line holds
becomes_output = refl

abbrev raised : SmartIoChannel
raised = record as_output { last_output = true }

abbrev raised_chip : LibgpiodBackend (ℕ → LineUse)
raised_chip = record {
  chip = update (update (λ _. free) 17 (output false)) 17 (output true);
  lines = 17 ∷ [];
}

goes_high : on_valset pins (pos 255) as_output (driven_chip false) ≡ done (raised, raised_chip)
unfolding on_valset libgpiod_backend set_value holds
goes_high = refl

output-in_sync : uses (driven_chip false) 17 ≡ output false
unfolding holds
output-in_sync = refl

-- One entry of a table, and topics that make the channel an output and drive it high.
abbrev mapping : PinMapping
mapping = record { channel = 0; gpio = 17 }

abbrev topics : Topics
topics = record { type_of = λ _. pos 1; valset_of = λ _. pos 255 }

abbrev first_glue : ChannelGlue
first_glue = record { channel = blank; last_type = sentinel; last_valset = sentinel }

abbrev glue : ChannelGlue
glue = record { channel = raised; last_type = pos 1; last_valset = pos 255 }

tick_run : tick pins topics (first_glue ∷ []) quiet_chip ≡ done (glue ∷ [], raised_chip, [])
unfolding tick tick_channel dispatch_type dispatch_valset publish_input on_type_changed change_mode
    requested_mode request_mode release_if_held on_valset libgpiod_backend request_output claim
    release_line holds set_value to_int32
tick_run = refl

-- The same channel as an input, which reads high.
abbrev topics_in : Topics
topics_in = record { type_of = λ _. pos 0; valset_of = λ _. sentinel }

abbrev input_glue : ChannelGlue
input_glue = record {
  channel = record blank { mode = digital_input };
  last_type = pos 0;
  last_valset = sentinel;
}

abbrev input_chip : LibgpiodBackend (ℕ → LineUse)
input_chip = record { chip = update (λ _. free) 17 input; lines = 17 ∷ [] }

tick_in :
    tick pins topics_in (first_glue ∷ []) quiet_chip
    ≡ done (input_glue ∷ [], input_chip, (0, pos 255) ∷ [])
unfolding tick tick_channel dispatch_type dispatch_valset publish_input on_type_changed change_mode
    requested_mode request_mode release_if_held sample_input libgpiod_backend request_input
    get_value claim release_line holds to_int32
tick_in = refl

first_glue-Ready : Ready pins uses pins-IsFaithful quiet_chip (first_glue ∷ [])
unfolding holds
first_glue-Ready = ready_cons refl (record { mode = inl refl; value = inl refl }) away_nil ready_nil

-- The chip reads every line as high.
high-Reads : Reads pins uses (λ _. true)
unfolding libgpiod_backend get_value
high-Reads gpio s hi used e = elim (Bool-cases (holds gpio s.lines)) [
  | inl held ↦ sym (done-inj (rw held at e))
  | inr loose ↦ absurd (clash (rw loose at used))
]
  where
    clash : free ≢ input
    clash = cc

tick-Published_example : (0, pos 255) ∷ [] ≡ readings (λ _. true) (input_glue ∷ [])
tick-Published_example =
    tick-Published pins uses pins-IsFaithful (λ _. true) high-Reads topics_in (first_glue ∷ [])
      quiet_chip (input_glue ∷ []) input_chip ((0, pos 255) ∷ []) first_glue-Ready tick_in

tick-Ticked_example :
    Ticked pins uses pins-IsFaithful topics (first_glue ∷ []) quiet_chip (glue ∷ []) raised_chip
tick-Ticked_example =
    tick-Ticked pins uses pins-IsFaithful topics (first_glue ∷ []) quiet_chip (glue ∷ [])
      raised_chip [] first_glue-Ready tick_run

-- The client asks for channel 0 as an output that is high.
asked_run :
    run_client (codes "t" ∷ codes "0" ∷ codes "1" ∷ codes "255" ∷ [])
    ≡ (0, some (record { channel = pos 0; type = pos 1; valset = pos 255 }))
unfolding run_client from_chars
asked_run = refl

pos_not_sentinel : (n : ℕ) → pos n ≢ sentinel
pos_not_sentinel n q = cc

client-drives_example : uses raised_chip 17 ≡ use_of (requested_mode (pos 1)) (is_high (pos 255))
client-drives_example =
    client-drives pins uses pins-IsFaithful (codes "t") (codes "0") (codes "1") (codes "255") []
      (record { channel = pos 0; type = pos 1; valset = pos 255 }) topics [] first_glue []
      quiet_chip (glue ∷ []) raised_chip [] asked_run refl (pos_not_sentinel 1)
      (pos_not_sentinel 255) (λ ch to. (refl, refl)) first_glue-Ready tick_run

ticks_run :
    ticks pins (topics ∷ []) (new_bridge (mapping ∷ [])) quiet_chip ≡ done (glue ∷ [], raised_chip)
unfolding new_bridge new_glue new_channel tick tick_channel dispatch_type dispatch_valset
    publish_input on_type_changed change_mode requested_mode request_mode release_if_held on_valset
    libgpiod_backend request_output claim release_line holds set_value to_int32
ticks_run = refl

mapping-Vacant : Vacant pins uses pins-IsFaithful quiet_chip (mapping ∷ [])
unfolding holds new_bridge
mapping-Vacant = vacant_cons refl away_nil vacant_nil

bridge-Ready_example : Ready pins uses pins-IsFaithful raised_chip (glue ∷ [])
bridge-Ready_example =
    bridge-Ready pins uses pins-IsFaithful (mapping ∷ []) (topics ∷ []) quiet_chip (glue ∷ [])
      raised_chip mapping-Vacant ticks_run

abbrev output_glue : ChannelGlue
output_glue = record { channel = as_output; last_type = pos 1; last_valset = sentinel }

not_seen : sentinel ≢ negsuc 0 ·ℤ 2 ^ 32
unfolding ◌·ℤ◌
not_seen q = absurd (omega (arith, ap neg_part q))

-- The value is the least multiple below zero.
dispatch_valset-wraps_example :
    dispatch_valset pins (negsuc 0 ·ℤ 2 ^ 32) output_glue (driven_chip false) ≡ (
      pins.set_value 17 false (driven_chip false) >>= λ s'.
      done
        (record { channel = as_output; last_type = pos 1; last_valset = negsuc 0 ·ℤ 2 ^ 32 }, s'))
dispatch_valset-wraps_example =
    dispatch_valset-wraps pins (negsuc 0) output_glue (driven_chip false) refl not_seen
