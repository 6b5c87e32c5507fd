-- ===== src/Writers/Scheduled.antt =====
-- While nobody but the match controller writes the enable bit or the mode: what the publisher sends.
use pi5_system_surrogate.Prelude.{ℕ, false, Option, none, some, List, [], ◌∷◌}
use pi5_system_surrogate.Prelude.Int.{ℤ, pos, ◌-ℤ◌}
use pi5_system_surrogate.ControlData.{PbEncode, mode_value, unknown}
use pi5_system_surrogate.ControlData.Layout.{Decoded, bit}
use pi5_system_surrogate.Match.{MatchDurations, is_timed}
use pi5_system_surrogate.Match.Phases.{mode_of}
use pi5_system_surrogate.Match.Schedule.{phase_at}
use pi5_system_surrogate.Match.Timetable.{seconds_at}
use pi5_system_surrogate.Publisher.Wire.{IsPb, read}
use pi5_system_surrogate.Check.{PbDecode}
use pi5_system_surrogate.Writers.{Step, publishes}
use pi5_system_surrogate.Match.Clock.{Clock}
use pi5_system_surrogate.Writers.Quiet.{after}

-- What a robot program acts on: the enable bit, the watchdog's, the mode and the match time.
abbrev pub Orders : Type 0
Orders = ℕ × ℕ × ℕ × ℤ

abbrev pub orders : Option (Decoded × ℤ) → Option Orders
orders none = none
orders (some (d, t)) = some (d.enabled, d.watchdog, d.mode, t)

-- The orders at a clock: none without a match, and else what the schedule has.
abbrev pub scheduled : MatchDurations → Clock → Orders
scheduled d none = (bit false, bit false, mode_value unknown, pos 0)
scheduled d (some (start, t)) =
    let p = phase_at d (t -ℤ start) in
    (bit (is_timed p), bit (is_timed p), mode_value (mode_of p), pos (seconds_at d (t -ℤ start)))

-- For each tick of the publisher, the orders at the controller's clock.
abbrev pub timetable : MatchDurations → List Step → Clock → List (Option Orders)
timetable d [] k = []
timetable d (publishes now ∷ ws) k = some (scheduled d k) ∷ timetable d ws k
timetable d (w ∷ ws) k = timetable d ws (after d w k)

module _ (pb_encode : PbEncode) (pb_decode : PbDecode) (pb : IsPb pb_encode pb_decode) where
  -- What a reader of a message finds.
  abbrev pub ordered : List ℕ → Option Orders
  ordered bytes = orders (read (pb_decode bytes))
