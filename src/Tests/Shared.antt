-- ===== src/Tests/Shared.antt =====
-- The shared state, its writers and the wire at concrete inputs.
use pi5_system_surrogate.Prelude.{
  Memᴰ, Bool, leb, if◌then◌else◌, ◌⊎◌, ◌↔◌, ◌<◌, length, get_or, ℕ, zero, suc, subst, ◌≡◌, refl,
  true, false, none, some, Option, List, [], ◌∷◌, ◌++◌, map, ◌%◌, arith,
}
use pi5_system_surrogate.Periodic.{Round, undisturbed, run_periodic, run_periodic-deadlines}
use pi5_system_surrogate.Prelude.Int.{◌+ℤ◌, ◌·ℤ◌, ℤ, pos, negsuc, quot, ◌-ℤ◌, to_word}
use pi5_system_surrogate.ControlData.{
  RobotMode, ControlDataView, ControlMessage, PbEncode, mode_value, pack_control_word,
  encode_control_data, control_message,
}
use pi5_system_surrogate.ControlData.Layout.{bit, decode, decode-pack_control_word}
use pi5_system_surrogate.DaemonState.{fresh, snapshot_control}
use pi5_system_surrogate.Gamepad.{Controls, gamepad_ingest, mode_from_int}
use pi5_system_surrogate.Gamepad
use pi5_system_surrogate.Gamepad.Follow.{seen, asked, ticks, ticks-follow, tick-repeat}
use pi5_system_surrogate.Publisher.{tick, Moment, ControlDataPublisher, control_data_publisher, run}
use pi5_system_surrogate.Publisher.Wire.{IsPb, read, picture, gaps, run-pictures}
use pi5_system_surrogate.Prelude.{inr}
use pi5_system_surrogate.Prelude.Text.{codes}
use pi5_system_surrogate.Match.{match_controller, default_durations}
use pi5_system_surrogate.Match.Phases.{starts}
use pi5_system_surrogate.Gamepad.{ingest_enabled, ingest_e_stop}
use pi5_system_surrogate.Writers.{
  Parts, state_of, Step, ingests_enabled, ingests_e_stop, ends_tick, calls, posts_mode, publishes,
  take_step, sent_by,
}
use pi5_system_surrogate.Writers.Latched.{AllLeave, AllStopped, sent_by-AllStopped}
use pi5_system_surrogate.Check.{main}
use pi5_system_surrogate.Check.Verdict.{Passes, main-Passes}
use pi5_system_surrogate.Check.Daemon.{main-daemon}

-- An enabled robot in teleop, with more than four bits of alliance.
abbrev view : ControlDataView
view = record {
  enabled = true;
  ds_connected = true;
  fms_connected = false;
  e_stop = false;
  supports_opmodes = false;
  mode = RobotMode.teleop;
  alliance = pos 18;
  match_time_s = pos 90;
}

decode-pack_control_word_example : decode (pack_control_word view) ≡ record {
  enabled = bit true;
  mode = mode_value RobotMode.teleop;
  e_stop = bit false;
  fms_connected = bit false;
  ds_connected = bit true;
  watchdog = bit true;
  supports_opmodes = bit false;
  alliance = to_word 32 (pos 18) % 16;
}
decode-pack_control_word_example = decode-pack_control_word view

packed : pack_control_word view ≡ 0x265
unfolding pack_control_word mode_value
packed = refl

abbrev controls : Controls
controls = record { enabled = true; mode = pos 2; alliance = pos 1; e_stop = false }

abbrev stopped : Controls
stopped = record controls { e_stop = true }

ticks-follow_example :
    ticks ((controls ∷ []) ++ stopped ∷ []) (gamepad_ingest, fresh)
    ≡ (seen stopped, asked stopped fresh)
ticks-follow_example = ticks-follow (controls ∷ []) stopped fresh

tick-repeat_example :
    Gamepad.tick controls ((Gamepad.tick controls (gamepad_ingest, fresh)).0, fresh)
    ≡ ((Gamepad.tick controls (gamepad_ingest, fresh)).0, fresh)
tick-repeat_example = tick-repeat controls gamepad_ingest fresh fresh

-- An encoding in four numbers, the third of them the sign of the match time.
abbrev pub encoded : ℕ → ℕ → ℤ → List ℕ
encoded w o (pos n) = w ∷ o ∷ zero ∷ n ∷ []
encoded w o (negsuc n) = w ∷ o ∷ suc zero ∷ n ∷ []

abbrev pub pb_encode : PbEncode
pb_encode size m = some (encoded m.control_word m.current_op_mode m.match_time)

abbrev pub message : ℕ → ℕ → ℤ → ControlMessage
message w o t = record { control_word = w; match_time = t; current_op_mode = o }

abbrev pub pb_decode : List ℕ → Option ControlMessage
pb_decode (w ∷ o ∷ zero ∷ n ∷ []) = some (message w o (pos n))
pb_decode (w ∷ o ∷ suc _ ∷ n ∷ []) = some (message w o (negsuc n))
pb_decode _ = none

writes-some : (w o : ℕ) (t : ℤ) → (b : ℕ) × (bs : List ℕ) × (some (encoded w o t) ≡ some (b ∷ bs))
writes-some w o (pos n) = (w, o ∷ zero ∷ n ∷ [], refl)
writes-some w o (negsuc n) = (w, o ∷ suc zero ∷ n ∷ [], refl)

reads_back : (w o : ℕ) (t : ℤ) → pb_decode (encoded w o t) ≡ some (message w o t)
reads_back w o (pos n) = refl
reads_back w o (negsuc n) = refl

some-inj : {a b : List ℕ} → some a ≡ some b → a ≡ b
some-inj e = cc

pub pb_encode-IsPb : IsPb pb_encode pb_decode
pb_encode-IsPb = record {
  writes = λ m _. writes-some m.control_word m.current_op_mode m.match_time;
  reads = λ m bytes e.
      subst (λ bs. pb_decode bs ≡ some m) (some-inj e)
        (reads_back m.control_word m.current_op_mode m.match_time);
}

abbrev moments : List Moment
moments =
    record { now = pos 20000000; state = fresh }
    ∷ record { now = pos 41000000; state = record fresh { enabled = true; mode = RobotMode.auto } }
    ∷ []

pub publisher : ControlDataPublisher
publisher = control_data_publisher (pos 0)

run-pictures_example :
    map (λ bytes. read (pb_decode bytes)) (run pb_encode moments publisher).1
    ≡ map (λ m. some (picture m.state)) moments
run-pictures_example = run-pictures pb_encode pb_decode pb_encode-IsPb moments publisher

gaps_run : gaps (pos 0) moments ≡ pos 20000 ∷ pos 21000 ∷ []
unfolding quot ◌-ℤ◌
gaps_run = refl

-- Two rounds, and one that finds a stop after its sleep.
abbrev rounds : List Round
rounds =
    record { stop_before = false; stop_after = false }
    ∷ record { stop_before = false; stop_after = false }
    ∷ record { stop_before = false; stop_after = true }
    ∷ []

two_rounds : undisturbed rounds ≡ 2
unfolding undisturbed
two_rounds = refl

run_periodic-deadlines_example :
    (length (run_periodic (pos 5000) rounds (pos 100)) ≡ undisturbed rounds)
    × (get_or (run_periodic (pos 5000) rounds (pos 100)) 1 (pos 0) ≡ pos 100 +ℤ pos 5000 ·ℤ 2)
run_periodic-deadlines_example =
    run_periodic-deadlines (pos 5000) (pos 100) rounds 1 (omega (arith, two_rounds))

-- The readiness check against the publisher: the server is ready at the third poll, and the first
-- payload comes at the second poll of the other topic.
abbrev is_ready : ℕ → Bool
is_ready i = leb 2 i

abbrev first_payload : List ℕ
first_payload = 32 ∷ 0 ∷ 0 ∷ 0 ∷ []

abbrev payloads : ℕ → List ℕ
payloads k = if leb 1 k then first_payload else []

main-Passes_example :
    ((main pb_decode is_ready payloads ≡ some 0) ⊎ (main pb_decode is_ready payloads ≡ some 1))
    × ((main pb_decode is_ready payloads ≡ some 0) ↔ Passes pb_decode is_ready payloads)
main-Passes_example = main-Passes pb_decode is_ready payloads

first_payload-Memᴰ : Memᴰ first_payload (run pb_encode moments (control_data_publisher (pos 0))).1
unfolding run tick control_data_publisher encode_control_data control_message snapshot_control fresh
    pack_control_word mode_value
first_payload-Memᴰ = Memᴰ.head refl

silent : (k : ℕ) → k < 1 → payloads k ≡ []
silent k h = ground arith

main-daemon_example : main pb_decode is_ready payloads ≡ some 0
main-daemon_example =
    main-daemon pb_encode pb_decode pb_encode-IsPb moments (control_data_publisher (pos 0)) is_ready
      payloads 2 1 refl (omega arith) (omega arith) silent first_payload-Memᴰ

-- A stop from the form, and then a tick of the ingest whose topic still says false, a tick of the
-- match and one of the publisher.
abbrev stopped_parts : Parts
stopped_parts = record {
  ingest = record gamepad_ingest { first_tick = false };
  controller = match_controller (record fresh { e_stop = true }) default_durations;
  publisher = publisher;
}

abbrev steps : List Step
steps =
    ingests_enabled controls
    ∷ ingests_e_stop controls
    ∷ ends_tick
    ∷ calls (starts (pos 5))
    ∷ posts_mode (codes "2")
    ∷ publishes (pos 20000000)
    ∷ []

stopped_first : (state_of stopped_parts).e_stop ≡ true
unfolding match_controller
stopped_first = refl

steps-leave : AllLeave pb_encode pb_decode pb_encode-IsPb steps stopped_parts
unfolding gamepad_ingest take_step ingest_enabled ingest_e_stop
steps-leave = (tt, (inr (refl, refl), (tt, (tt, (tt, (tt, tt))))))

sent_by-AllStopped_example :
    AllStopped pb_encode pb_decode pb_encode-IsPb (sent_by pb_encode steps stopped_parts)
sent_by-AllStopped_example =
    sent_by-AllStopped pb_encode pb_decode pb_encode-IsPb steps stopped_parts stopped_first
      steps-leave
