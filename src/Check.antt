-- ===== src/Check.antt =====
-- check_server_ready.cpp: a client that polls two topics of the server and says by its exit code
-- whether both came to hold what the HAL needs. What `Get` returns at each poll of a topic, counted
-- from 0, is an input.
pub mod Polls
pub mod Verdict
pub mod Daemon
use pi5_system_surrogate.Prelude.{
  ℕ, zero, suc, ◌+◌, bit_and, Bool, true, false, not, if◌then◌else◌, leb, ◌==◌, Option, none, some,
  List, [], ◌∷◌,
}
use pi5_system_surrogate.ControlData.{ControlMessage, ds_connected_bit}

-- kPollMs
abbrev pub poll_ms : ℕ
poll_ms = 20

-- kTimeoutMs
abbrev pub timeout_ms : ℕ
timeout_ms = 2000

-- The decoder of nanopb, a parameter.
abbrev pub PbDecode : Type 0
PbDecode = List ℕ → Option ControlMessage

-- `return` with an answer, or the rest of the loop.
abbrev pub or_later : Option Bool → Option Bool → Option Bool
or_later (some b) later = some b
or_later none later = later

-- The loop that both functions have: at poll `i`, after `waited` milliseconds, there is an answer to
-- return, or a sleep. `none` is the end of the fuel.
unfoldable pub poll_from : (ℕ → Option Bool) → ℕ → ℕ → ℕ → Option Bool
poll_from answer zero i waited = none
poll_from answer (suc fuel) i waited =
    let later = poll_from answer fuel (suc i) (waited + poll_ms) in
    if leb waited timeout_ms then or_later (answer i) later else some false

-- More than the 101 polls that fit in the timeout.
abbrev pub enough : ℕ
enough = 102

-- The body of the first loop.
abbrev pub ready_answer : (ℕ → Bool) → ℕ → Option Bool
ready_answer ready i = if ready i then some true else none

unfoldable pub wait_for_server_ready : (ℕ → Bool) → Option Bool
unfolding poll_from
wait_for_server_ready ready = poll_from (ready_answer ready) enough 0 0

-- What is made of a decoded message, or of a failure to decode.
abbrev pub connected : Option ControlMessage → Bool
connected none = false
connected (some msg) = not (bit_and msg.control_word ds_connected_bit == 0)

-- What is made of bytes that are not empty.
unfoldable pub judge : PbDecode → List ℕ → Bool
judge pb_decode bytes = connected (pb_decode bytes)

-- The body of the second loop.
unfoldable pub data_answer : PbDecode → List ℕ → Option Bool
unfolding judge
data_answer pb_decode [] = none
data_answer pb_decode (b ∷ bs) = some (judge pb_decode (b ∷ bs))

unfoldable pub wait_for_control_data : PbDecode → (ℕ → List ℕ) → Option Bool
unfolding poll_from data_answer
wait_for_control_data pb_decode bytes = poll_from (λ i. data_answer pb_decode (bytes i)) enough 0 0

-- `ok ? 0 : 1`
abbrev pub exit_code : Option Bool → Option ℕ
exit_code none = none
exit_code (some ok) = some (if ok then 0 else 1)

-- The second wait, which is made only after a first one that succeeds.
abbrev pub and_then : Option Bool → Option Bool → Option Bool
and_then (some true) second = second
and_then first second = first

-- `main`: its exit code.
unfoldable pub main : PbDecode → (ℕ → Bool) → (ℕ → List ℕ) → Option ℕ
unfolding wait_for_server_ready wait_for_control_data
main pb_decode ready bytes =
    exit_code (and_then (wait_for_server_ready ready) (wait_for_control_data pb_decode bytes))
