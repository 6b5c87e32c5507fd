-- ===== src/Tests/Punctual.antt =====
-- Health checks while the publisher runs, at a concrete run.
use pi5_system_surrogate.Prelude.{◌≡◌, false, List, [], ◌∷◌, arith}
use pi5_system_surrogate.Prelude.Int.{pos, ◌+ℤ◌}
use pi5_system_surrogate.Prelude.Text.{codes}
use pi5_system_surrogate.DaemonState.{fresh}
use pi5_system_surrogate.Match.{match_controller, default_durations}
use pi5_system_surrogate.Cadence.{new_tracker}
use pi5_system_surrogate.Periodic.{Round, loop, run_periodic}
use pi5_system_surrogate.Publisher.{control_data_publisher}
use pi5_system_surrogate.Publisher.Punctual.{IsAwake}
use pi5_system_surrogate.Web.Page.{Fixed, WebUi}
use pi5_system_surrogate.Web.Punctual.{
  Turn, ticks, checks, reads, moments, answers, all_ok, punctual-healthy,
}
use pi5_system_surrogate.Tests.Shared.{pb_encode}

abbrev fixed : Fixed
fixed digits n d = codes "20.000"

abbrev ui : WebUi
ui = record {
  match_controller = match_controller fresh default_durations;
  smartio = [];
  cadence = new_tracker;
  start_time = pos 0;
}

abbrev goes_on : Round
goes_on = record { stop_before = false; stop_after = false }

abbrev rounds : List Round
rounds = goes_on ∷ goes_on ∷ goes_on ∷ []

-- A check before the first tick, one between two ticks, 22 milliseconds apart, and one after both.
abbrev turns : List Turn
turns =
    checks (pos 10000000)
    ∷ ticks (record { now = pos 20001000; state = fresh })
    ∷ reads 50 100
    ∷ checks (pos 30000000)
    ∷ ticks (record { now = pos 42000000; state = fresh })
    ∷ checks (pos 43000000)
    ∷ []

awake : IsAwake (pos 4000000) (run_periodic (pos 20000000) rounds (pos 1000)) (moments turns)
unfolding run_periodic loop ◌+ℤ◌
awake = ground arith

punctual-healthy_example :
    answers pb_encode fixed ui turns (control_data_publisher (pos 0))
    ≡ all_ok pb_encode fixed ui turns (pos 0) []
unfolding ◌+ℤ◌
punctual-healthy_example =
    punctual-healthy pb_encode fixed ui (pos 20000000) (pos 4000000) (pos 0) (pos 1000) rounds turns
      (omega arith) (omega arith) (omega arith) awake
