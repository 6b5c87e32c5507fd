-- ===== src/Publisher/Wire.antt =====
-- What a reader of the wire gets from the publisher, and the times between its ticks.
use pi5_system_surrogate.Prelude.{
  ℕ, ◌≡◌, ◌≢◌, refl, ap, ap₂, ◌∙◌, Option, none, some, ◌%◌, List, [], ◌∷◌, ◌++◌, map, arith,
}
use mathlib.Core.List.{map-append}
use pi5_system_surrogate.Prelude.Int.{ℤ, to_word}
use pi5_system_surrogate.ControlData.{
  PbEncode, ControlMessage, mode_value, control_message, control_data_max_bytes,
  encode_control_data,
}
use pi5_system_surrogate.ControlData.Layout.{
  Decoded, bit, decode, decode-pack_control_word, pack_control_word-layout,
}
use pi5_system_surrogate.DaemonState.{DaemonState, snapshot_control}
use pi5_system_surrogate.Publisher.{ControlDataPublisher, Moment, interval_us, tick, run}

-- What the publisher relies on in nanopb: in the buffer it gives, a message whose first field is not
-- zero is encoded, in at least one byte, and the decoder gives the message back.
pub record IsPb (pb_encode : PbEncode) (pb_decode : List ℕ → Option ControlMessage) : Type 0 where
  pub writes :
      (m : ControlMessage)
      → m.control_word ≢ 0
      → (b : ℕ) × (bs : List ℕ) × (pb_encode control_data_max_bytes m ≡ some (b ∷ bs))
  pub reads :
      (m : ControlMessage) (bytes : List ℕ)
      → pb_encode control_data_max_bytes m ≡ some bytes
      → pb_decode bytes ≡ some m

-- The driver station's bit is always set.
pub word-nonzero : (s : DaemonState) → (control_message (snapshot_control s)).control_word ≢ 0
unfolding control_message snapshot_control
word-nonzero s h = omega (arith, pack_control_word-layout (snapshot_control s))

-- What the state looks like on the wire: the fields of the control word, and the match time.
abbrev pub picture : DaemonState → Decoded × ℤ
picture s = (
  record {
    enabled = bit s.enabled;
    mode = mode_value s.mode;
    e_stop = bit s.e_stop;
    fms_connected = 0;
    ds_connected = 1;
    watchdog = bit s.enabled;
    supports_opmodes = 0;
    alliance = to_word 32 s.alliance % 16;
  },
  s.match_time_s,
)

abbrev pub read : Option ControlMessage → Option (Decoded × ℤ)
read none = none
read (some m) = some (decode m.control_word, m.match_time)

module _ (pb_encode : PbEncode) (pb_decode : List ℕ → Option ControlMessage)
    (pb : IsPb pb_encode pb_decode) where
  read-one :
      (s : DaemonState) (bytes : List ℕ)
      → pb_encode control_data_max_bytes (control_message (snapshot_control s)) ≡ some bytes
      → read (pb_decode bytes) ≡ some (picture s)
  unfolding control_message snapshot_control
  read-one s bytes e =
      ap read (pb.reads (control_message (snapshot_control s)) bytes e)
      ∙ ap (λ d. some (d, s.match_time_s)) (decode-pack_control_word (snapshot_control s))

  pub tick-sends :
      (m : Moment) (p : ControlDataPublisher)
      → map (λ bytes. read (pb_decode bytes)) (tick pb_encode m p).1 ≡ some (picture m.state) ∷ []
  unfolding tick encode_control_data
  tick-sends m p =
      let (b, bs, e) =
        pb.writes (control_message (snapshot_control m.state)) (word-nonzero m.state) in
      rw e (ap (λ x. x ∷ []) (read-one m.state (b ∷ bs) e))

  -- Each tick of the publisher sends one message, whatever the state is at that tick, and a reader
  -- that decodes it finds the fields of that state, the driver station's bit set and the enable bit
  -- once more as the watchdog's; nanopb encodes a message with a control word other than zero in at
  -- least one byte, and its decoder inverts its encoder.
  pub run-pictures :
      (ms : List Moment) (p : ControlDataPublisher)
      → map (λ bytes. read (pb_decode bytes)) (run pb_encode ms p).1
        ≡ map (λ m. some (picture m.state)) ms
  unfolding run
  run-pictures [] p = refl
  run-pictures (m ∷ ms) p =
      let (p1, sent) = tick pb_encode m p in
      map-append (λ bytes. read (pb_decode bytes)) sent (run pb_encode ms p1).1
      ∙ ap₂ (λ a b. a ++ b) (tick-sends m p) (run-pictures ms p1)

-- The times between the ticks.
abbrev pub gaps : ℤ → List Moment → List ℤ
gaps last [] = []
gaps last (m ∷ ms) = interval_us m.now last ∷ gaps m.now ms
