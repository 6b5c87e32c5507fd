-- ===== src/ControlData/Layout.antt =====
-- The layout of the ControlWord that `pack_control_word` builds, and how it is read back.
use pi5_system_surrogate.Prelude.{
  ℕ, ◌+◌, ◌*◌, ◌/◌, ◌%◌, ◌^◌, ◌<◌, bit_and, ◌≡◌, refl, ◌∙◌, Bool, true, ◌==◌, ==_iff, if◌then◌else◌,
  arith,
}
use pi5_system_surrogate.Prelude.Bits.{
  for_all_lt, for_all_lt_sound, for_both, for_both_sound, bit_and-field8,
}
use pi5_system_surrogate.Prelude.Int.{pos, to_word}
use pi5_system_surrogate.ControlData.{
  RobotMode, unknown, auto, teleop, test, mode_value, ControlDataView, shl32, alliance_shift,
  alliance_mask, pack_control_word,
}

abbrev pub bit : Bool → ℕ
bit b = if b then 1 else 0

-- The word as a sum of fields, each at its place. The watchdog's bit repeats the enable bit.
abbrev fields : Bool → Bool → Bool → Bool → Bool → RobotMode → ℕ → ℕ
fields enabled e_stop fms ds opmodes mode alliance =
    bit enabled
    + 2 * mode_value mode
    + 8 * bit e_stop
    + 16 * bit fms
    + 32 * bit ds
    + 64 * bit enabled
    + 128 * bit opmodes
    + 256 * alliance

abbrev pub layout : ControlDataView → ℕ
layout v =
    fields v.enabled v.e_stop v.fms_connected v.ds_connected v.supports_opmodes v.mode
      (to_word 32 v.alliance % 16)

abbrev view : Bool → Bool → Bool → Bool → Bool → RobotMode → ℕ → ControlDataView
view enabled e_stop fms ds opmodes mode alliance = record {
  enabled = enabled;
  ds_connected = ds;
  fms_connected = fms;
  e_stop = e_stop;
  supports_opmodes = opmodes;
  mode = mode;
  alliance = pos alliance;
  match_time_s = pos 0;
}

-- The layout over all flags and all alliances that fit the field, checked by evaluation.
has_layout : Bool → Bool → Bool → Bool → Bool → RobotMode → ℕ → Bool
has_layout enabled e_stop fms ds opmodes mode a =
    pack_control_word (view enabled e_stop fms ds opmodes mode a)
    == fields enabled e_stop fms ds opmodes mode a

all_flags : RobotMode → Bool
all_flags m = for_both λ e.
    for_both λ s. for_both λ f. for_both λ d. for_both λ o. for_all_lt 16 (has_layout e s f d o m)

layout_table : (m : RobotMode) → all_flags m ≡ true
unfolding all_flags has_layout pack_control_word mode_value for_both for_all_lt
layout_table unknown = refl
layout_table auto = refl
layout_table teleop = refl
layout_table test = refl

layout_small :
    (e s f d o : Bool) (m : RobotMode) (a : ℕ)
    → a < 16
    → pack_control_word (view e s f d o m a) ≡ fields e s f d o m a
unfolding all_flags has_layout
layout_small e s f d o m a lt = (==_iff _ _).0 (
    for_all_lt_sound 16 (has_layout e s f d o m) a lt (
      for_both_sound _ o (
        for_both_sound _ d
          (for_both_sound _ f (for_both_sound _ s (for_both_sound _ e (layout_table m)))))))

-- Only the lowest four bits of the alliance reach the word.
alliance_field : (x : ℕ) → bit_and (shl32 x alliance_shift) alliance_mask ≡ 256 * (x % 16)
alliance_field x = omega (arith, bit_and-field8 (shl32 x alliance_shift))

same_field :
    (x : ℕ)
    → bit_and (shl32 x alliance_shift) alliance_mask
      ≡ bit_and (shl32 (x % 16 % 2 ^ 32) alliance_shift) alliance_mask
same_field x = omega (arith, alliance_field x, alliance_field (x % 16 % 2 ^ 32))

pack-alliance :
    (v : ControlDataView)
    → pack_control_word v
      ≡ pack_control_word (
          view v.enabled v.e_stop v.fms_connected v.ds_connected v.supports_opmodes v.mode
            (to_word 32 v.alliance % 16))
unfolding pack_control_word
pack-alliance v = cc (same_field (to_word 32 v.alliance))

-- The control word is the sum of its fields, each at its place, for every view, the watchdog's bit
-- equal to the enable bit and the alliance modulo 16.
pub pack_control_word-layout : (v : ControlDataView) → pack_control_word v ≡ layout v
pack_control_word-layout v =
    pack-alliance v
    ∙ layout_small v.enabled v.e_stop v.fms_connected v.ds_connected v.supports_opmodes v.mode
        (to_word 32 v.alliance % 16) (omega arith)

-- The fields of a word, read back by shifts and masks.
pub record Decoded : Type 0 where
  pub enabled : ℕ
  pub mode : ℕ
  pub e_stop : ℕ
  pub fms_connected : ℕ
  pub ds_connected : ℕ
  pub watchdog : ℕ
  pub supports_opmodes : ℕ
  pub alliance : ℕ

unfoldable pub decode : ℕ → Decoded
decode w = record {
  enabled = w % 2;
  mode = w / 2 % 4;
  e_stop = w / 8 % 2;
  fms_connected = w / 16 % 2;
  ds_connected = w / 32 % 2;
  watchdog = w / 64 % 2;
  supports_opmodes = w / 128 % 2;
  alliance = w / 256;
}

bit-lt : (b : Bool) → bit b < 2
bit-lt b = ground arith

pub mode_value-lt : (m : RobotMode) → mode_value m < 4
unfolding mode_value
mode_value-lt m = ground arith

decode_fields :
    (e m s f d o a : ℕ)
    → e < 2
    → m < 4
    → s < 2
    → f < 2
    → d < 2
    → o < 2
    → decode (e + 2 * m + 8 * s + 16 * f + 32 * d + 64 * e + 128 * o + 256 * a) ≡ record {
      enabled = e;
      mode = m;
      e_stop = s;
      fms_connected = f;
      ds_connected = d;
      watchdog = e;
      supports_opmodes = o;
      alliance = a;
    }
unfolding decode
decode_fields e m s f d o a he hm hs hf hd ho = ground arith

-- Reading a packed control word back gives every field of the view: the flags, the mode, the enable
-- bit once more as the watchdog's, and the alliance modulo 16.
pub decode-pack_control_word :
    (v : ControlDataView)
    → decode (pack_control_word v) ≡ record {
      enabled = bit v.enabled;
      mode = mode_value v.mode;
      e_stop = bit v.e_stop;
      fms_connected = bit v.fms_connected;
      ds_connected = bit v.ds_connected;
      watchdog = bit v.enabled;
      supports_opmodes = bit v.supports_opmodes;
      alliance = to_word 32 v.alliance % 16;
    }
unfolding decode
decode-pack_control_word v = rw pack_control_word-layout (
    decode_fields (bit v.enabled) (mode_value v.mode) (bit v.e_stop) (bit v.fms_connected)
      (bit v.ds_connected) (bit v.supports_opmodes) (to_word 32 v.alliance % 16) (bit-lt v.enabled)
      (mode_value-lt v.mode) (bit-lt v.e_stop) (bit-lt v.fms_connected) (bit-lt v.ds_connected)
      (bit-lt v.supports_opmodes))
