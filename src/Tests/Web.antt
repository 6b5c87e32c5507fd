-- ===== src/Tests/Web.antt =====
-- The forms and the health check at concrete inputs.
use pi5_system_surrogate.Prelude.{◌≡◌, ◌≢◌, refl, ◌++◌, List, [], ◌∷◌, arith}
use pi5_system_surrogate.Prelude.Int.{ℤ, pos, ◌-ℤ◌}
use pi5_system_surrogate.ControlData.{RobotMode}
use pi5_system_surrogate.DaemonState.{fresh, set_mode, set_alliance}
use pi5_system_surrogate.Match.{MatchController, match_controller, default_durations, start_match}
use pi5_system_surrogate.Cadence.{CadenceTracker, new_tracker, record_interval_us}
use pi5_system_surrogate.Cadence.History.{Tracks, new_tracker-Tracks, record-Tracks}
use pi5_system_surrogate.Prelude.Text.{Text, codes}
use pi5_system_surrogate.Web.{
  ampersand, equals_sign, find, enabled_key, estop_key, alliance_key, bounded, mode_key, action_key,
  start_verb, extract, from_chars, mode_from_form, handle_match, act, handle_set_control,
}
use pi5_system_surrogate.Web.Fields.{Field, join, IsPlain, asked, handle_set_control-asked}
use pi5_system_surrogate.Web.Page.{Fixed, WebUi, handle_healthz}
use pi5_system_surrogate.Web.Health.{Answers, handle_healthz-Answers}

-- "mode=2&x"
abbrev form : Text
form = (mode_key ++ equals_sign ∷ []) ++ ((50 ∷ []) ++ ampersand ∷ 120 ∷ [])

-- "alliance=9&mode=2&e=1"
abbrev fields : List Field
fields = (alliance_key, codes "9") ∷ (mode_key, codes "2") ∷ (codes "e", codes "1") ∷ []

enabled-IsPlain : IsPlain enabled_key fields
unfolding find
enabled-IsPlain = ground arith

estop-IsPlain : IsPlain estop_key fields
unfolding find
estop-IsPlain = ground arith

mode-IsPlain : IsPlain mode_key fields
unfolding find
mode-IsPlain = ground arith

alliance-IsPlain : IsPlain alliance_key fields
unfolding find
alliance-IsPlain = ground arith

handle_set_control-asked_example : handle_set_control (join fields) fresh ≡ asked fields fresh
handle_set_control-asked_example =
    handle_set_control-asked fields fresh enabled-IsPlain estop-IsPlain mode-IsPlain
      alliance-IsPlain

asked_run : asked fields fresh ≡ record fresh { mode = RobotMode.teleop; alliance = pos 3 }
unfolding fresh from_chars mode_from_form bounded set_mode set_alliance
asked_run = refl

abbrev controller : MatchController
controller = match_controller fresh default_durations

starts_on_form :
    handle_match (pos 5) (action_key ++ start_verb) controller ≡ start_match (pos 5) controller
unfolding handle_match find act
starts_on_form = refl

sets_teleop : handle_set_control form fresh ≡ record fresh { mode = RobotMode.teleop }
unfolding handle_set_control extract find from_chars mode_from_form set_mode
sets_teleop = refl

-- A key inside another one hides the field behind it: "xmode=1&mode=2".
hidden_field : extract mode_key ((120 ∷ mode_key) ++ equals_sign ∷ 49 ∷ ampersand ∷ form) ≡ []
unfolding extract find
hidden_field = refl

abbrev one_interval : CadenceTracker
one_interval = record_interval_us (pos 26000) new_tracker

one_interval-Tracks : Tracks (pos 26000 ∷ []) one_interval
one_interval-Tracks = record-Tracks (pos 26000) [] new_tracker (omega arith) new_tracker-Tracks

not_empty : ◌≢◌ {A = List ℤ} (pos 26000 ∷ []) []
not_empty q = cc

-- A page over that tracker, and a formatting of every double.
abbrev fixed : Fixed
fixed digits n d = codes "26.000"

abbrev ui : WebUi
ui = record {
  match_controller = controller;
  smartio = [];
  cadence = one_interval;
  start_time = pos 0;
}

handle_healthz-Answers_example :
    let (code, body, w') = handle_healthz fixed (pos 9) ui in
    Answers fixed (pos 9 -ℤ pos 0) (pos 26000 ∷ []) code body × Tracks (pos 26000 ∷ []) w'.cadence
handle_healthz-Answers_example =
    handle_healthz-Answers fixed (pos 9) (pos 26000 ∷ []) ui one_interval-Tracks not_empty
