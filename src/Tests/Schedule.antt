-- ===== src/Tests/Schedule.antt =====
-- The controller on its clock, and what the publisher sends of it, at a concrete run.
use pi5_system_surrogate.Prelude.{false, List, [], ◌∷◌}
use pi5_system_surrogate.Prelude.Int.{pos}
use pi5_system_surrogate.DaemonState.{fresh}
use pi5_system_surrogate.Gamepad.{Controls, gamepad_ingest}
use pi5_system_surrogate.Match.{match_controller, default_durations}
use pi5_system_surrogate.Match.Phases.{starts, stops, skips, ticks_at}
use pi5_system_surrogate.Writers.{Parts, Step, ingests_enabled, calls, posts_alliance, publishes}
use pi5_system_surrogate.Prelude.Text.{codes}
use pi5_system_surrogate.Tests.Shared.{publisher}

abbrev parts : Parts
parts = record {
  ingest = record gamepad_ingest { first_tick = false };
  controller = match_controller fresh default_durations;
  publisher = publisher;
}

abbrev silent : Controls
silent = record { enabled = false; mode = pos 0; alliance = pos 0; e_stop = false }

-- A message before the match and one in the autonomous period, a tick and a message in the pause,
-- with an alliance from the form between them, a skip to the teleop period and a message of it, and
-- one after the stop of the match.
abbrev steps : List Step
steps =
    publishes (pos 0)
    ∷ calls (starts (pos 5))
    ∷ publishes (pos 20000000)
    ∷ ingests_enabled silent
    ∷ calls (ticks_at (pos 16000000000))
    ∷ posts_alliance (codes "2")
    ∷ publishes (pos 16020000000)
    ∷ calls (skips (pos 17000000000))
    ∷ publishes (pos 17020000000)
    ∷ calls stops
    ∷ publishes (pos 18000000000)
    ∷ []
