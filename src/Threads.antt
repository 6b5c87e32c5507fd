-- ===== src/Threads.antt =====
-- The threads that the components own, and what the process does that can be seen from outside: what
-- it publishes, the messages to systemd, and the threads that it launches and joins. The `start` and
-- `stop` of the components of the daemon, whose bodies are one text but for the signal light's and
-- the web interface's.
use pi5_system_surrogate.Prelude.{ℕ, Bool, true, false, if◌then◌else◌, ◌==◌, List, [], ◌∷◌, ◌++◌}
use pi5_system_surrogate.Prelude.Text.{Text}
use pi5_system_surrogate.Gpio.{Outcome, done, threw}
use pi5_system_surrogate.Runtime.{Datagram}

pub data Component : Type 0 where
  publisher smartio rsl gamepad diagnostics match_loop web : Component

abbrev pub index : Component → ℕ
index publisher = 0
index smartio = 1
index rsl = 2
index gamepad = 3
index diagnostics = 4
index match_loop = 5
index web = 6

abbrev pub same : Component → Component → Bool
same a b = index a == index b

-- What a topic carries; a raw topic names the type of its bytes.
pub data TopicType : Type 0 where
  boolean integer double double_array string : TopicType
  raw : Text → TopicType

-- What is published on a topic; the doubles that the program writes out are whole numbers.
pub data Value : Type 0 where
  boolean : Bool → Value
  double : ℕ → Value
  doubles : List ℕ → Value
  text : Text → Value

-- What a NetworkTables server is started with.
pub record Listen : Type 0 where
  pub persist_filename : Text
  pub listen_address : Text
  pub mdns_service : Text
  pub port : ℕ

-- A lock of the process's memory, with whether it is got; the server's start and stop; a topic that
-- is published from here on, or subscribed to; a value on a topic; messages to systemd; threads.
pub data Event : Type 0 where
  locked : Bool → Event
  server_started : Listen → Event
  server_stopped : Event
  advertised subscribed : Text → TopicType → Event
  published : Text → Value → Event
  sent : List Datagram → Event
  launched joined : Component → Event

-- `joinable()` of each component's `thread_`, whether the web interface has a server, and the events
-- so far, in order.
pub record Process : Type 0 where
  pub joinable : Component → Bool
  pub server : Bool
  pub log : List Event

unfoldable pub emit : List Event → Process → Process
emit es p = record p { log = p.log ++ es }

unfoldable pub set_joinable : Component → Bool → Process → Process
set_joinable c b p = record p { joinable = λ k. if same k c then b else p.joinable k }

-- `thread_ = std::jthread{...}`: the new thread is launched, and the old one, if there is one, is
-- asked to stop and joined.
unfoldable pub assign_thread : Component → Process → Process
unfolding emit set_joinable
assign_thread c p =
    set_joinable c true
      (emit (if p.joinable c then launched c ∷ joined c ∷ [] else launched c ∷ []) p)

-- `if (thread_.joinable()) { thread_.request_stop(); thread_.join(); }`
unfoldable pub stop_thread : Component → Process → Process
unfolding emit set_joinable
stop_thread c p = if p.joinable c then set_joinable c false (emit (joined c ∷ []) p) else p

unfoldable pub publisher_start : Process → Process
unfolding assign_thread
publisher_start = assign_thread publisher

unfoldable pub publisher_stop : Process → Process
unfolding stop_thread
publisher_stop = stop_thread publisher

unfoldable pub smartio_start : Process → Process
unfolding assign_thread
smartio_start = assign_thread smartio

unfoldable pub smartio_stop : Process → Process
unfolding stop_thread
smartio_stop = stop_thread smartio

-- The signal light requests its line first (Rsl): `granted` is whether that call returns. If it throws,
-- no thread is launched.
unfoldable pub rsl_start : Bool → Process → Outcome Process Process
unfolding assign_thread
rsl_start granted p = if granted then done (assign_thread rsl p) else threw p

unfoldable pub rsl_stop : Process → Process
unfolding stop_thread
rsl_stop = stop_thread rsl

unfoldable pub gamepad_start : Process → Process
unfolding assign_thread
gamepad_start = assign_thread gamepad

unfoldable pub gamepad_stop : Process → Process
unfolding stop_thread
gamepad_stop = stop_thread gamepad

unfoldable pub diagnostics_start : Process → Process
unfolding assign_thread
diagnostics_start = assign_thread diagnostics

unfoldable pub diagnostics_stop : Process → Process
unfolding stop_thread
diagnostics_stop = stop_thread diagnostics

unfoldable pub match_start : Process → Process
unfolding assign_thread
match_start = assign_thread match_loop

unfoldable pub match_stop : Process → Process
unfolding stop_thread
match_stop = stop_thread match_loop

-- The server and its thread, a plain `std::thread`. A second start without a stop, which would end
-- the process, does not occur in it.
unfoldable pub web_start : Process → Process
unfolding emit set_joinable
web_start p = record (set_joinable web true (emit (launched web ∷ []) p)) { server = true }

unfoldable pub web_stop : Process → Process
unfolding stop_thread
web_stop p = if p.server then record (stop_thread web p) { server = false } else p
