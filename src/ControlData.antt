-- ===== src/ControlData.antt =====
-- control_data_encoder.hpp and control_data_encoder.cpp: the view of the driver-station state and
-- its packing into the ControlWord.
pub mod Layout
use pi5_system_surrogate.Prelude.{
  ℕ, ◌*◌, ◌%◌, ◌^◌, bit_and, bit_or, Bool, if◌then◌else◌, List, [], ◌==◌, Option, none, some,
}
use pi5_system_surrogate.Prelude.Int.{ℤ, to_word}

pub data RobotMode : Type 0 where
  unknown auto teleop test : RobotMode

-- The enumerators' values.
unfoldable pub mode_value : RobotMode → ℕ
mode_value unknown = 0
mode_value auto = 1
mode_value teleop = 2
mode_value test = 3

pub record ControlDataView : Type 0 where
  pub enabled : Bool
  pub ds_connected : Bool
  pub fms_connected : Bool
  pub e_stop : Bool
  pub supports_opmodes : Bool
  pub mode : RobotMode
  pub alliance : ℤ
  pub match_time_s : ℤ

-- `x << k` on a uint32_t.
abbrev pub shl32 : ℕ → ℕ → ℕ
shl32 x k = x * 2 ^ k % 2 ^ 32

abbrev pub enabled_bit : ℕ
enabled_bit = shl32 1 0

abbrev pub robot_mode_shift : ℕ
robot_mode_shift = 1

abbrev pub robot_mode_mask : ℕ
robot_mode_mask = shl32 0x3 robot_mode_shift

abbrev pub e_stop_bit : ℕ
e_stop_bit = shl32 1 3

abbrev pub fms_connected_bit : ℕ
fms_connected_bit = shl32 1 4

abbrev pub ds_connected_bit : ℕ
ds_connected_bit = shl32 1 5

abbrev pub watchdog_active_bit : ℕ
watchdog_active_bit = shl32 1 6

abbrev pub supports_opmodes_bit : ℕ
supports_opmodes_bit = shl32 1 7

abbrev pub alliance_shift : ℕ
alliance_shift = 8

abbrev pub alliance_mask : ℕ
alliance_mask = shl32 0xF alliance_shift

-- `if (b) w |= bit;`
abbrev pub or_if : Bool → ℕ → ℕ → ℕ
or_if b bit w = if b then bit_or w bit else w

unfoldable pub pack_control_word : ControlDataView → ℕ
unfolding mode_value
pack_control_word v =
    let w1 : ℕ = or_if v.enabled enabled_bit 0 in
    let w2 : ℕ = bit_or w1 (bit_and (shl32 (mode_value v.mode) robot_mode_shift) robot_mode_mask) in
    let w3 : ℕ = or_if v.e_stop e_stop_bit w2 in
    let w4 : ℕ = or_if v.fms_connected fms_connected_bit w3 in
    let w5 : ℕ = or_if v.ds_connected ds_connected_bit w4 in
    let w6 : ℕ = or_if v.enabled watchdog_active_bit w5 in
    let w7 : ℕ = or_if v.supports_opmodes supports_opmodes_bit w6 in
    bit_or w7 (bit_and (shl32 (to_word 32 v.alliance) alliance_shift) alliance_mask)

-- The fields of mrc_proto_ProtobufControlData that the encoder sets; the others are callbacks,
-- left empty.
pub record ControlMessage : Type 0 where
  pub control_word : ℕ
  pub match_time : ℤ
  pub current_op_mode : ℕ

-- The encoder of nanopb, a parameter: what it writes into a buffer of the given size, or a failure.
abbrev pub PbEncode : Type 0
PbEncode = ℕ → ControlMessage → Option (List ℕ)

abbrev pub control_data_max_bytes : ℕ
control_data_max_bytes = 256

unfoldable pub control_message : ControlDataView → ControlMessage
control_message v = record {
  control_word = pack_control_word v;
  match_time = v.match_time_s;
  current_op_mode = 0;
}

-- The first `n` bytes of `out`, for the returned count `n`: none of them on an error.
unfoldable pub encode_control_data : PbEncode → ControlDataView → ℕ → List ℕ
encode_control_data pb_encode view size =
    if size == 0
    then []
    else elim (pb_encode size (control_message view)) [ none ↦ [] | some bytes ↦ bytes ]
