-- ===== src/Web/Buttons.antt =====
-- web_ui.cpp: the buttons of the page, whose script posts the two forms. `search_params` is what the
-- browser's URLSearchParams makes of one name and its value, which is printed as text.
use pi5_system_surrogate.Prelude.{
  ℕ, ◌≡◌, refl, Bool, true, false, ◌&&◌, ◌||◌, ◌==◌, leb, some, [], ◌∷◌, ◌++◌, Memᴰ,
}
use pi5_system_surrogate.Prelude.Int.{ℤ}
use pi5_system_surrogate.Prelude.Text.{Text, codes}
use pi5_system_surrogate.ControlData.{RobotMode}
use pi5_system_surrogate.DaemonState.{set_enabled, set_mode, set_e_stop}
use pi5_system_surrogate.Match.{MatchController, start_match, stop_match, skip_to_teleop}
use pi5_system_surrogate.Web.{
  equals_sign, find, extract, from_chars, mode_from_form, handle_set_control, handle_match, act,
}
use pi5_system_surrogate.Web.Page.{Fixed, WebUi, post, Route, routes, answer}
use pi5_system_surrogate.Web.Served.{Request, Choice, serve}

-- By their inscriptions.
pub data Button : Type 0 where
  start_button stop_button skip_button : Button
  enable_button disable_button auto_button teleop_button test_button : Button
  e_stop_button clear_e_stop_button : Button

abbrev pub SearchParams : Type 0
SearchParams = Text → Text → Text

module _ (search_params : SearchParams) where
  -- `setControl({name: value})`
  abbrev pub set_control : Text → Text → ℤ → ℤ → Request
  set_control name value now now_match = record {
    method = post;
    path = codes "/api/control";
    body = search_params name value;
    now = now;
    now_match = now_match;
  }

  abbrev pub post_match : Text → ℤ → ℤ → Request
  post_match action now now_match = record {
    method = post;
    path = codes "/api/match";
    body = search_params (codes "action") action;
    now = now;
    now_match = now_match;
  }

  -- What a click posts, and the clock when the server handles it.
  unfoldable pub onclick : Button → ℤ → ℤ → Request
  onclick start_button = post_match (codes "start")
  onclick stop_button = post_match (codes "stop")
  onclick skip_button = post_match (codes "skip-to-teleop")
  onclick enable_button = set_control (codes "enabled") (codes "true")
  onclick disable_button = set_control (codes "enabled") (codes "false")
  onclick auto_button = set_control (codes "mode") (codes "1")
  onclick teleop_button = set_control (codes "mode") (codes "2")
  onclick test_button = set_control (codes "mode") (codes "3")
  onclick e_stop_button = set_control (codes "estop") (codes "true")
  onclick clear_e_stop_button = set_control (codes "estop") (codes "false")

-- What a button says that it does.
abbrev pub asked_for : Button → ℤ → MatchController → MatchController
asked_for start_button now c = start_match now c
asked_for stop_button now c = stop_match c
asked_for skip_button now c = skip_to_teleop now c
asked_for enable_button now c = record c { state = record c.state { enabled = true } }
asked_for disable_button now c = record c { state = record c.state { enabled = false } }
asked_for auto_button now c = record c { state = record c.state { mode = RobotMode.auto } }
asked_for teleop_button now c = record c { state = record c.state { mode = RobotMode.teleop } }
asked_for test_button now c = record c { state = record c.state { mode = RobotMode.test } }
asked_for e_stop_button now c = record c { state = record c.state { e_stop = true } }
asked_for clear_e_stop_button now c = record c { state = record c.state { e_stop = false } }

-- A letter, a digit or a hyphen, which the encoding of a form leaves as they are.
abbrev pub is_unescaped : ℕ → Bool
is_unescaped b =
    (leb 97 b && leb b 122) || (leb 65 b && leb b 90) || (leb 48 b && leb b 57) || b == b'-'

abbrev pub all_unescaped : Text → Bool
all_unescaped [] = true
all_unescaped (b ∷ bs) = is_unescaped b && all_unescaped bs

abbrev pub KeepsPlain : SearchParams → Type 0
KeepsPlain search_params =
    (name value : Text)
    → all_unescaped name ≡ true
    → all_unescaped value ≡ true
    → search_params name value ≡ name ++ equals_sign ∷ value

-- A request at the path of a registered route, with its method, takes that route.
abbrev pub FindsPath : Choice → Type 0
FindsPath choose = (r : Route) → Memᴰ r routes → choose routes r.method r.path ≡ some r

module _ (html : Text) (fixed : Fixed) (choose : Choice) (search_params : SearchParams) where
  control-served :
      (name value : Text) (now now_match : ℤ) (w : WebUi)
      → FindsPath choose
      → KeepsPlain search_params
      → all_unescaped name ≡ true
      → all_unescaped value ≡ true
      → serve html fixed choose (set_control search_params name value now now_match) w ≡ record w {
        match_controller = record w.match_controller {
          state = handle_set_control (name ++ equals_sign ∷ value) w.match_controller.state;
        };
      }
  unfolding serve answer routes
  control-served name value now now_match w finds keeps plain_name plain_value =
      rw
        (
          finds _ (Memᴰ.tail (Memᴰ.tail (Memᴰ.tail (Memᴰ.head refl)))),
          keeps name value plain_name plain_value,
        )
        refl

  match-served :
      (action : Text) (now now_match : ℤ) (w : WebUi)
      → FindsPath choose
      → KeepsPlain search_params
      → all_unescaped action ≡ true
      → serve html fixed choose (post_match search_params action now now_match) w ≡ record w {
        match_controller = handle_match now_match (codes "action=" ++ action) w.match_controller;
      }
  unfolding serve answer routes
  match-served action now now_match w finds keeps plain =
      rw
        (
          finds _ (Memᴰ.tail (Memᴰ.tail (Memᴰ.tail (Memᴰ.tail (Memᴰ.head refl))))),
          keeps (codes "action") action refl plain,
        )
        refl

  -- A click on any button of the page does to the match controller and the shared state what the
  -- button says, and nothing else changes: start, stop and skip call the controller, the others set
  -- the enable bit, the mode or the emergency stop; the server takes a registered route for its
  -- method and path, and the browser posts a name and a value of letters, digits and hyphens as
  -- they are, with an equals sign between them.
  pub serve-onclick :
      (b : Button) (now now_match : ℤ) (w : WebUi)
      → FindsPath choose
      → KeepsPlain search_params
      → serve html fixed choose (onclick search_params b now now_match) w
        ≡ record w { match_controller = asked_for b now_match w.match_controller }
  unfolding onclick handle_set_control handle_match act extract find from_chars mode_from_form
      set_enabled set_mode set_e_stop
  serve-onclick start_button now now_match w finds keeps =
      match-served (codes "start") now now_match w finds keeps refl
  serve-onclick stop_button now now_match w finds keeps =
      match-served (codes "stop") now now_match w finds keeps refl
  serve-onclick skip_button now now_match w finds keeps =
      match-served (codes "skip-to-teleop") now now_match w finds keeps refl
  serve-onclick enable_button now now_match w finds keeps =
      control-served (codes "enabled") (codes "true") now now_match w finds keeps refl refl
  serve-onclick disable_button now now_match w finds keeps =
      control-served (codes "enabled") (codes "false") now now_match w finds keeps refl refl
  serve-onclick auto_button now now_match w finds keeps =
      control-served (codes "mode") (codes "1") now now_match w finds keeps refl refl
  serve-onclick teleop_button now now_match w finds keeps =
      control-served (codes "mode") (codes "2") now now_match w finds keeps refl refl
  serve-onclick test_button now now_match w finds keeps =
      control-served (codes "mode") (codes "3") now now_match w finds keeps refl refl
  serve-onclick e_stop_button now now_match w finds keeps =
      control-served (codes "estop") (codes "true") now now_match w finds keeps refl refl
  serve-onclick clear_e_stop_button now now_match w finds keeps =
      control-served (codes "estop") (codes "false") now now_match w finds keeps refl refl
