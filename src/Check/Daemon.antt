-- ===== src/Check/Daemon.antt =====
-- The check against the daemon's publisher.
use mathlib.Core.List.Memᴰ.{append_cases}
use pi5_system_surrogate.Prelude.{
  ℕ, ◌*◌, ◌/◌, ◌%◌, ◌≤◌, ◌<◌, ◌≡◌, ◌≢◌, ap, ◌∙◌, inl, inr, Bool, true, some, List, [], ◌∷◌, Memᴰ,
}
use pi5_system_surrogate.ControlData.{
  PbEncode, control_message, control_data_max_bytes, encode_control_data,
}
use pi5_system_surrogate.ControlData.Layout.{Decoded, decode, decode-pack_control_word}
use pi5_system_surrogate.DaemonState.{DaemonState, snapshot_control}
use pi5_system_surrogate.Publisher.{ControlDataPublisher, Moment, tick, run}
use pi5_system_surrogate.Publisher.Wire.{IsPb, word-nonzero}
use pi5_system_surrogate.Check.{PbDecode, poll_ms, timeout_ms, main}
use pi5_system_surrogate.Check.Verdict.{Passes-zero}

-- The driver station's bit of the word of any state.
always_connected :
    (s : DaemonState) → (control_message (snapshot_control s)).control_word / 32 % 2 ≡ 1
unfolding control_message snapshot_control decode
always_connected s =
    ap (λ (d : Decoded). d.ds_connected) (decode-pack_control_word (snapshot_control s))

-- A payload that carries a state.
record Carries (pb_decode : PbDecode) (payload : List ℕ) : Type 0 where
  state : DaemonState
  not_empty : payload ≢ []
  decodes : pb_decode payload ≡ some (control_message (snapshot_control state))

module _ (pb_encode : PbEncode) (pb_decode : PbDecode) (pb : IsPb pb_encode pb_decode) where
  tick-Carries :
      (m : Moment) (p : ControlDataPublisher) (payload : List ℕ)
      → Memᴰ payload (tick pb_encode m p).1
      → Carries pb_decode payload
  unfolding tick encode_control_data
  tick-Carries m p payload h =
      let msg = control_message (snapshot_control m.state) in
      let (b, bs, e) = pb.writes msg (word-nonzero m.state) in of_sent m.state b bs e (rw e at h)
    where
      of_sent :
          (s : DaemonState) (b : ℕ) (bs : List ℕ)
          → pb_encode control_data_max_bytes (control_message (snapshot_control s)) ≡ some (b ∷ bs)
          → Memᴰ payload ((b ∷ bs) ∷ [])
          → Carries pb_decode payload
      of_sent s b bs e (Memᴰ.head q) = record {
        state = s;
        not_empty = λ z. cc;
        decodes = ap pb_decode q ∙ pb.reads (control_message (snapshot_control s)) (b ∷ bs) e;
      }
      of_sent s b bs e (Memᴰ.tail none_left) = elim none_left [ ]

  run-Carries :
      (ms : List Moment) (p : ControlDataPublisher) (payload : List ℕ)
      → Memᴰ payload (run pb_encode ms p).1
      → Carries pb_decode payload
  unfolding run
  run-Carries [] p payload h = elim h [ ]
  run-Carries (m ∷ ms) p payload h = elim (append_cases (tick pb_encode m p).1 h) [
    | inl now ↦ tick-Carries m p payload now
    | inr later ↦ run-Carries ms (tick pb_encode m p).0 payload later
  ]

  -- The readiness check ends with 0 if a poll within the timeout finds the server ready and the
  -- first data that it finds, within the timeout, is a payload that the publisher sent in any run,
  -- for an encoder and a decoder that invert each other as nanopb documents.
  pub main-daemon :
      (ms : List Moment) (p : ControlDataPublisher) (ready : ℕ → Bool) (bytes : ℕ → List ℕ)
      (i n : ℕ)
      → ready i ≡ true
      → i * poll_ms ≤ timeout_ms
      → n * poll_ms ≤ timeout_ms
      → ((k : ℕ) → k < n → bytes k ≡ [])
      → Memᴰ (bytes n) (run pb_encode ms p).1
      → main pb_decode ready bytes ≡ some 0
  main-daemon ms p ready bytes i n is_ready small_i small_n before among =
      let carried = run-Carries ms p (bytes n) among in
      Passes-zero pb_decode ready bytes (record {
        ready_at = i;
        ready_in_time = small_i;
        is_ready = is_ready;
        data_at = n;
        data_in_time = small_n;
        before = before;
        not_empty = carried.not_empty;
        message = control_message (snapshot_control carried.state);
        decodes = carried.decodes;
        ds_connected = always_connected carried.state;
      })
