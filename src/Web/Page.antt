-- ===== src/Web/Page.antt =====
-- web_ui.cpp: what the web interface answers, and the routes that `start` registers. Readings of the
-- clock are inputs. `Fixed` is what std::format makes of a double: the digits behind the point, and
-- the whole numbers that the double is the quotient of.
use pi5_system_surrogate.Prelude.{
  ℕ, Bool, if◌then◌else◌, length, Option, none, some, List, [], ◌∷◌, ◌++◌,
}
use pi5_system_surrogate.Prelude.Int.{ℤ, pos, ◌-ℤ◌, quot, ltb_ℤ}
use pi5_system_surrogate.Prelude.Text.{Text, codes}
use pi5_system_surrogate.Prelude.Decimal.{decimal, decimal_ℤ}
use pi5_system_surrogate.ControlData.{RobotMode, unknown, auto, teleop, test, ControlDataView}
use pi5_system_surrogate.DaemonState.{snapshot_control}
use pi5_system_surrogate.Match.{MatchController, match_phase_name, ns_per_s, Snapshot, snapshot}
use pi5_system_surrogate.Cadence.{CadenceTracker, p50_us, p99_us, sample_count}
use pi5_system_surrogate.SmartIo.Bridge.{ChannelGlue, channels_configured}
use pi5_system_surrogate.Web.{handle_match, handle_set_control, healthz_status}

unfoldable pub mode_name : RobotMode → Text
mode_name auto = codes "auto"
mode_name teleop = codes "teleop"
mode_name test = codes "test"
mode_name unknown = codes "unknown"

unfoldable pub uptime : ℤ → ℤ → ℤ
uptime start_time now = quot (now -ℤ start_time) ns_per_s

abbrev pub truth : Bool → Text
truth b = if b then codes "true" else codes "false"

abbrev pub concat : List Text → Text
concat [] = []
concat (t ∷ ts) = t ++ concat ts

abbrev pub Fixed : Type 0
Fixed = ℕ → ℤ → ℕ → Text

-- `channel_count` of the bridge.
unfoldable pub channel_count : List ChannelGlue → ℕ
channel_count es = length es

-- What the page of the state reads, in the order of the code.
pub record Readings : Type 0 where
  pub view : ControlDataView
  pub up : ℤ
  pub shown : Snapshot
  pub configured : ℕ
  pub channels : ℕ
  pub p50 : ℤ
  pub p99 : ℤ
  pub samples : ℕ

-- The `std::format` of `handle_state`; `up` is in nanoseconds.
unfoldable pub format_state : Fixed → Readings → Text
unfolding mode_name decimal
format_state fixed r = concat (
    codes "{\"control\":{\"enabled\":"
    ∷ truth r.view.enabled
    ∷ codes ",\"mode\":\""
    ∷ mode_name r.view.mode
    ∷ codes "\",\"alliance\":"
    ∷ decimal_ℤ r.view.alliance
    ∷ codes ",\"estop\":"
    ∷ truth r.view.e_stop
    ∷ codes "},\"match\":{\"phase\":\""
    ∷ codes (match_phase_name r.shown.phase)
    ∷ codes "\",\"total_elapsed_s\":"
    ∷ fixed 1 r.shown.total_elapsed 1000
    ∷ codes ",\"remaining_s\":"
    ∷ fixed 1 r.shown.remaining_in_phase 1000
    ∷ codes "},\"smartio\":{\"channels_configured\":"
    ∷ decimal r.configured
    ∷ codes ",\"channel_count\":"
    ∷ decimal r.channels
    ∷ codes "},\"cadence\":{\"p50_ms\":"
    ∷ fixed 3 r.p50 1000
    ∷ codes ",\"p99_ms\":"
    ∷ fixed 3 r.p99 1000
    ∷ codes ",\"samples\":"
    ∷ decimal r.samples
    ∷ codes "},\"uptime_s\":"
    ∷ fixed 3 r.up ns_per_s
    ∷ codes "}"
    ∷ [])

-- What the object refers to: the controller with the shared state, the bridge's channels, the
-- tracker, and the time of its construction.
pub record WebUi : Type 0 where
  pub match_controller : MatchController
  pub smartio : List ChannelGlue
  pub cadence : CadenceTracker
  pub start_time : ℤ

-- The arguments of `std::format`, from the values read of the tracker.
abbrev pub readings : ℤ → ℤ → WebUi → ℤ → ℤ → ℕ → Readings
readings now now_match w p50 p99 samples = record {
  view = snapshot_control w.match_controller.state;
  up = now -ℤ w.start_time;
  shown = snapshot now_match w.match_controller;
  configured = channels_configured w.smartio;
  channels = channel_count w.smartio;
  p50 = p50;
  p99 = p99;
  samples = samples;
}

-- The two readings of the clock, in the order of the code. The tracker's cache is refreshed.
unfoldable pub handle_state : Fixed → ℤ → ℤ → WebUi → Text × WebUi
unfolding format_state channel_count
handle_state fixed now now_match w =
    let (p50, t1) = p50_us w.cadence in
    let (p99, t2) = p99_us t1 in
    (
      format_state fixed (readings now now_match w p50 p99 (sample_count t2)),
      record w { cadence = t2 },
    )

abbrev pub health_word : Bool → Text
health_word healthy = if healthy then codes "ok" else codes "degraded"

-- The status and the body; the percentile is read twice.
unfoldable pub handle_healthz : Fixed → ℤ → WebUi → ℕ × Text × WebUi
handle_healthz fixed now w =
    let (first, t1) = p99_us w.cadence in
    let healthy = ltb_ℤ first (pos 25000) in
    let (p99, t2) = p99_us t1 in
    (
      healthz_status w.cadence,
      concat (
          codes "{\"status\":\""
          ∷ health_word healthy
          ∷ codes "\",\"cadence_p99_ms\":"
          ∷ fixed 3 p99 1000
          ∷ codes ",\"uptime_s\":"
          ∷ fixed 3 (now -ℤ w.start_time) ns_per_s
          ∷ codes "}"
          ∷ []),
      record w { cadence = t2 },
    )

pub data Method : Type 0 where
  get post : Method

-- The lambdas that `start` registers.
pub data Handler : Type 0 where
  root_page state_page healthz control_form match_form : Handler

pub record Route : Type 0 where
  pub method : Method
  pub path : Text
  pub handler : Handler

abbrev pub route : Method → Text → Handler → Route
route m p h = record { method = m; path = p; handler = h }

unfoldable pub routes : List Route
routes =
    route get (codes "/") root_page
    ∷ route get (codes "/api/state") state_page
    ∷ route get (codes "/healthz") healthz
    ∷ route post (codes "/api/control") control_form
    ∷ route post (codes "/api/match") match_form
    ∷ []

-- `res`: the status, if the handler sets it, and the content with its type.
pub record Response : Type 0 where
  pub status : Option ℕ
  pub content : Option (Text × Text)

-- `root_html` is the argument `html`; `now` and `now_match` are the clock.
unfoldable pub answer : Text → Fixed → ℤ → ℤ → Handler → Text → WebUi → Response × WebUi
unfolding handle_state handle_healthz
answer html fixed now now_match root_page body w =
    (record { status = none; content = some (html, codes "text/html; charset=utf-8") }, w)
answer html fixed now now_match state_page body w =
    let (t, w') = handle_state fixed now now_match w in
    (record { status = none; content = some (t, codes "application/json") }, w')
answer html fixed now now_match healthz body w =
    let (code, t, w') = handle_healthz fixed now w in
    (record { status = some code; content = some (t, codes "application/json") }, w')
answer html fixed now now_match control_form body w =
    let c = w.match_controller in
    (
      record { status = some 204; content = none },
      record w { match_controller = record c { state = handle_set_control body c.state } },
    )
answer html fixed now now_match match_form body w = (
  record { status = some 204; content = none },
  record w { match_controller = handle_match now_match body w.match_controller },
)
