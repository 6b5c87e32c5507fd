-- ===== src/Check/Verdict.antt =====
-- When the check succeeds.
use pi5_system_surrogate.Prelude.{
  bit_and, not, ◌/◌, ◌%◌, ℕ, ◌*◌, ◌≤◌, ◌<◌, ◌≡◌, ◌≢◌, refl, ap, ◌∙◌, ◌↔◌, ◌⊎◌, inl, inr, Bool, true,
  false, ◌==◌, Option, none, some, List, [], ◌∷◌, arith,
}
use pi5_system_surrogate.Prelude.Bits.{bit_and-digit5}
use pi5_system_surrogate.ControlData.{ControlMessage, ds_connected_bit}
use pi5_system_surrogate.Check.{
  judge, connected, PbDecode, poll_ms, timeout_ms, ready_answer, data_answer, wait_for_server_ready,
  wait_for_control_data, exit_code, and_then, main,
}
use pi5_system_surrogate.Check.Polls.{
  FirstAnswer, Polled, answered, timed_out, poll_from-Polled, FirstAnswer-unique,
}

-- The outcome that the program is to report: the first topic reads true in time, and the first bytes
-- of the second come in time and decode to a message with the driver station's bit.
pub record Passes (pb_decode : PbDecode) (ready : ℕ → Bool) (bytes : ℕ → List ℕ) : Type 0 where
  pub ready_at : ℕ
  pub ready_in_time : ready_at * poll_ms ≤ timeout_ms
  pub is_ready : ready ready_at ≡ true
  pub data_at : ℕ
  pub data_in_time : data_at * poll_ms ≤ timeout_ms
  pub before : (k : ℕ) → k < data_at → bytes k ≡ []
  pub not_empty : bytes data_at ≢ []
  pub message : ControlMessage
  pub decodes : pb_decode (bytes data_at) ≡ some message
  pub ds_connected : message.control_word / 32 % 2 ≡ 1

ready-true :
    (ready : ℕ → Bool) (i : ℕ) (b : Bool)
    → ready_answer ready i ≡ some b
    → (ready i ≡ true) × (b ≡ true)
ready-true ready i b h = ground arith

wait_ready-Polled : (ready : ℕ → Bool) → Polled (ready_answer ready) 0 (wait_for_server_ready ready)
unfolding wait_for_server_ready
wait_ready-Polled ready =
    poll_from-Polled (ready_answer ready) 102 0 0 refl (omega arith) (omega arith)

wait_data-Polled :
    (pb_decode : PbDecode) (bytes : ℕ → List ℕ)
    → Polled (λ i. data_answer pb_decode (bytes i)) 0 (wait_for_control_data pb_decode bytes)
unfolding wait_for_control_data
wait_data-Polled pb_decode bytes =
    poll_from-Polled (λ i. data_answer pb_decode (bytes i)) 102 0 0 refl (omega arith) (omega arith)

-- A topic that reads true at some poll in time is answered with true.
ready-found :
    (ready : ℕ → Bool) (n : ℕ) (o : Option Bool)
    → n * poll_ms ≤ timeout_ms
    → ready n ≡ true
    → Polled (ready_answer ready) 0 o
    → o ≡ some true
ready-found ready n _ small yes_n (answered b f) = ap some (ready-true ready f.at b f.says).1
ready-found ready n _ small yes_n (timed_out never) =
    absurd (ground (arith, never n (omega arith) small))

data_answer-nil : (pb_decode : PbDecode) (bs : List ℕ) → data_answer pb_decode bs ≡ none → bs ≡ []
unfolding data_answer
data_answer-nil pb_decode [] h = refl
data_answer-nil pb_decode (b ∷ bs) h = cc

nil-data_answer : (pb_decode : PbDecode) (bs : List ℕ) → bs ≡ [] → data_answer pb_decode bs ≡ none
unfolding data_answer
nil-data_answer pb_decode [] h = refl
nil-data_answer pb_decode (b ∷ bs) h = cc

connected_bit : (w : ℕ) → (not (bit_and w ds_connected_bit == 0) ≡ true) ↔ (w / 32 % 2 ≡ 1)
connected_bit w = ground (arith, bit_and-digit5 w)

judged :
    (pb_decode : PbDecode) (bs : List ℕ) (m : ControlMessage)
    → bs ≢ []
    → pb_decode bs ≡ some m
    → m.control_word / 32 % 2 ≡ 1
    → data_answer pb_decode bs ≡ some true
unfolding data_answer judge
judged pb_decode [] m ne e c = absurd (ne refl)
judged pb_decode (b ∷ bs) m ne e c = rw e (ap some ((connected_bit m.control_word).1 c))

-- The same from an answer, by cases of what was decoded.
verdict_of :
    (pb_decode : PbDecode) (bs : List ℕ) (o : Option ControlMessage)
    → pb_decode bs ≡ o
    → connected o ≡ true
    → (m : ControlMessage) × (pb_decode bs ≡ some m) × (m.control_word / 32 % 2 ≡ 1)
verdict_of pb_decode bs none e c = cc
verdict_of pb_decode bs (some m) e c = (m, e, (connected_bit m.control_word).0 c)

data_true :
    (pb_decode : PbDecode) (bs : List ℕ)
    → data_answer pb_decode bs ≡ some true
    → (bs ≢ []) × ((m : ControlMessage) × (pb_decode bs ≡ some m) × (m.control_word / 32 % 2 ≡ 1))
unfolding data_answer judge
data_true pb_decode [] h = cc
data_true pb_decode (b ∷ bs) h =
    (λ q. cc, verdict_of pb_decode (b ∷ bs) (pb_decode (b ∷ bs)) refl (some_true h))
  where
    some_true : {x : Bool} → some x ≡ some true → x ≡ true
    some_true q = cc

pub Passes-zero :
    (pb_decode : PbDecode) (ready : ℕ → Bool) (bytes : ℕ → List ℕ)
    → Passes pb_decode ready bytes
    → main pb_decode ready bytes ≡ some 0
unfolding main
Passes-zero pb_decode ready bytes p =
    ap (λ o. exit_code (and_then o (wait_for_control_data pb_decode bytes)))
      (ready-found ready p.ready_at _ p.ready_in_time p.is_ready (wait_ready-Polled ready))
    ∙ ap exit_code (
        FirstAnswer-unique (λ i. data_answer pb_decode (bytes i)) 0 true _ first
          (wait_data-Polled pb_decode bytes))
  where
    first : FirstAnswer (λ i. data_answer pb_decode (bytes i)) 0 true
    first = record {
      at = p.data_at;
      from = omega arith;
      in_time = p.data_in_time;
      silent = λ k lo hi. nil-data_answer pb_decode (bytes k) (p.before k hi);
      says = judged pb_decode (bytes p.data_at) p.message p.not_empty p.decodes p.ds_connected;
    }

-- By what the two loops return.
zero-Passes :
    (pb_decode : PbDecode) (ready : ℕ → Bool) (bytes : ℕ → List ℕ) (o p : Option Bool)
    → Polled (ready_answer ready) 0 o
    → Polled (λ i. data_answer pb_decode (bytes i)) 0 p
    → ((exit_code (and_then o p) ≡ some 0) ⊎ (exit_code (and_then o p) ≡ some 1))
      × (exit_code (and_then o p) ≡ some 0 → Passes pb_decode ready bytes)
zero-Passes pb_decode ready bytes _ p (timed_out never) b = (inr refl, λ q. absurd (ground arith))
zero-Passes pb_decode ready bytes _ p (answered false a) b = (inr refl, λ q. absurd (ground arith))
zero-Passes pb_decode ready bytes _ _ (answered true a) (timed_out never) =
    (inr refl, λ q. absurd (ground arith))
zero-Passes pb_decode ready bytes _ _ (answered true a) (answered false b) =
    (inr refl, λ q. absurd (ground arith))
zero-Passes pb_decode ready bytes _ _ (answered true a) (answered true b) =
    let (ne, (m, e, c)) = data_true pb_decode (bytes b.at) b.says in
    (
      inl refl,
      λ q. record {
        ready_at = a.at;
        ready_in_time = a.in_time;
        is_ready = (ready-true ready a.at true a.says).0;
        data_at = b.at;
        data_in_time = b.in_time;
        before = λ k lt. data_answer-nil pb_decode (bytes k) (b.silent k (omega arith) lt);
        not_empty = ne;
        message = m;
        decodes = e;
        ds_connected = c;
      },
    )

-- The readiness check ends with the exit code 0 or 1, and with 0 exactly when a poll within the
-- timeout finds the server ready and the first poll within the timeout that finds control data
-- finds data that decodes with the driver station's bit set.
pub main-Passes :
    (pb_decode : PbDecode) (ready : ℕ → Bool) (bytes : ℕ → List ℕ)
    → ((main pb_decode ready bytes ≡ some 0) ⊎ (main pb_decode ready bytes ≡ some 1))
      × ((main pb_decode ready bytes ≡ some 0) ↔ Passes pb_decode ready bytes)
unfolding main
main-Passes pb_decode ready bytes =
    let (either, passes) =
      zero-Passes pb_decode ready bytes _ _ (wait_ready-Polled ready)
        (wait_data-Polled pb_decode bytes) in
    (either, (passes, Passes-zero pb_decode ready bytes))
