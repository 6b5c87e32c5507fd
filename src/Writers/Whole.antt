-- ===== src/Writers/Whole.antt =====
-- A tick of the ingest and a control form, as steps with no other step between them.
use pi5_system_surrogate.Prelude.{◌≡◌, refl, List, [], ◌∷◌}
use pi5_system_surrogate.Prelude.Text.{Text}
use pi5_system_surrogate.ControlData.{PbEncode}
use pi5_system_surrogate.Gamepad
use pi5_system_surrogate.Gamepad.{Controls}
use pi5_system_surrogate.Web.{
  enabled_key, estop_key, mode_key, alliance_key, extract, handle_set_control,
}
use pi5_system_surrogate.Writers.{
  Parts, state_of, with_state, ingested, Step, ingests_enabled, ingests_mode, ingests_alliance,
  ingests_e_stop, ends_tick, posts_enabled, posts_e_stop, posts_mode, posts_alliance, take_step,
}

module _ (pb_encode : PbEncode) where
  -- The parts after steps in a row.
  abbrev after : List Step → Parts → Parts
  after [] x = x
  after (w ∷ ws) x = after ws (take_step pb_encode w x).0

  -- The tick of the ingest is its five steps.
  tick-steps :
      (c : Controls) (x : Parts)
      → after
          (ingests_enabled c
            ∷ ingests_mode c
            ∷ ingests_alliance c
            ∷ ingests_e_stop c
            ∷ ends_tick
            ∷ [])
          x
        ≡ ingested x (Gamepad.tick c (x.ingest, state_of x))
  unfolding take_step Gamepad.tick
  tick-steps c x = refl

  -- The form is its four steps.
  handle_set_control-steps :
      (body : Text) (x : Parts)
      → after
          (posts_enabled (extract enabled_key body)
            ∷ posts_e_stop (extract estop_key body)
            ∷ posts_mode (extract mode_key body)
            ∷ posts_alliance (extract alliance_key body)
            ∷ [])
          x
        ≡ with_state x (handle_set_control body (state_of x))
  unfolding take_step handle_set_control
  handle_set_control-steps body x = refl
