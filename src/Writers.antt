-- ===== src/Writers.antt =====
-- The writers of the shared state, and the publisher that reads it, on their own threads: every
-- write of daemon_state.cpp under its mutex is a step, and the steps come in any order. The ingest of
-- the control topics and the control form each make up to four such writes.
pub mod Latched
pub mod Whole
pub mod Quiet
pub mod Scheduled
use pi5_system_surrogate.Prelude.{Bool, List, [], ◌∷◌, ◌++◌, ℕ}
use pi5_system_surrogate.Prelude.Int.{ℤ}
use pi5_system_surrogate.Prelude.Text.{Text}
use pi5_system_surrogate.ControlData.{PbEncode}
use pi5_system_surrogate.DaemonState.{DaemonState, set_enabled, set_e_stop, set_mode, set_alliance}
use pi5_system_surrogate.Gamepad.{
  Controls, GamepadIngest, ingest_enabled, ingest_mode, ingest_alliance, ingest_e_stop, ticked,
}
use pi5_system_surrogate.Match.{MatchController}
use pi5_system_surrogate.Match.Phases.{Call, perform}
use pi5_system_surrogate.Publisher
use pi5_system_surrogate.Publisher.{ControlDataPublisher}
use pi5_system_surrogate.Web.{if_given, is_true, mode_from_form, from_chars, bounded}

-- The ingest, the controller with the shared state, and the publisher.
pub record Parts : Type 0 where
  pub ingest : GamepadIngest
  pub controller : MatchController
  pub publisher : ControlDataPublisher

abbrev pub state_of : Parts → DaemonState
state_of x = x.controller.state

-- The parts after a change of the shared state alone.
abbrev pub with_state : Parts → DaemonState → Parts
with_state x s = let c = x.controller in record x { controller = record c { state = s } }

-- The four `if`s of the ingest's tick and its end, with what the topics hold; a call of the match
-- controller; the four writes of the form, with the values that it gives; and a tick of the publisher.
pub data Step : Type 0 where
  ingests_enabled ingests_mode ingests_alliance ingests_e_stop : Controls → Step
  ends_tick : Step
  calls : Call → Step
  posts_enabled posts_e_stop posts_mode posts_alliance : Text → Step
  publishes : ℤ → Step

-- A part of the ingest's tick, on the parts.
abbrev pub ingested : Parts → GamepadIngest × DaemonState → Parts
ingested x (g, s) = record (with_state x s) { ingest = g }

module _ (pb_encode : PbEncode) where
  unfoldable pub take_step : Step → Parts → Parts × List (List ℕ)
  take_step (ingests_enabled c) x = (ingested x (ingest_enabled c (x.ingest, state_of x)), [])
  take_step (ingests_mode c) x = (ingested x (ingest_mode c (x.ingest, state_of x)), [])
  take_step (ingests_alliance c) x = (ingested x (ingest_alliance c (x.ingest, state_of x)), [])
  take_step (ingests_e_stop c) x = (ingested x (ingest_e_stop c (x.ingest, state_of x)), [])
  take_step ends_tick x = (ingested x (ticked (x.ingest, state_of x)), [])
  take_step (calls k) x = (record x { controller = perform k x.controller }, [])
  take_step (posts_enabled v) x =
      (with_state x (if_given v (λ w. set_enabled (is_true w)) (state_of x)), [])
  take_step (posts_e_stop v) x =
      (with_state x (if_given v (λ w. set_e_stop (is_true w)) (state_of x)), [])
  take_step (posts_mode v) x =
      (with_state x (if_given v (λ w. set_mode (mode_from_form (from_chars w))) (state_of x)), [])
  take_step (posts_alliance v) x =
      (with_state x (if_given v (λ w. set_alliance (bounded (from_chars w))) (state_of x)), [])
  take_step (publishes now) x =
      let (p, sent) =
        Publisher.tick pb_encode (record { now = now; state = state_of x }) x.publisher in
      (record x { publisher = p }, sent)

  -- The steps in a row, and all that is sent.
  unfoldable pub sent_by : List Step → Parts → List (List ℕ)
  unfolding take_step
  sent_by [] x = []
  sent_by (w ∷ ws) x = let (x', sent) = take_step w x in sent ++ sent_by ws x'
