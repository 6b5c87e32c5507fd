-- ===== src/Writers/Quiet.antt =====
-- While nobody but the match controller writes the enable bit or the mode: it keeps to its clock.
use pi5_system_surrogate.Prelude.{◌≡◌, refl, ◌∙◌, false, none, some, List, [], ◌∷◌, arith}
use pi5_system_surrogate.Prelude.Int.{ℤ}
use pi5_system_surrogate.Prelude.Text.{Text}
use pi5_system_surrogate.ControlData.{PbEncode}
use pi5_system_surrogate.DaemonState.{DaemonState, set_enabled, set_mode, set_alliance, set_e_stop}
use pi5_system_surrogate.Gamepad.{
  Controls, GamepadIngest, ingest_enabled, ingest_mode, ingest_alliance, ingest_e_stop,
}
use pi5_system_surrogate.Match.{MatchDurations, MatchController}
use pi5_system_surrogate.Match.Phases.{perform-Untouched}
use pi5_system_surrogate.Match.Timetable.{OnTime}
use pi5_system_surrogate.Match.Clock.{
  Clock, called, IsPrompt, OnSchedule, Regular, perform-OnSchedule,
}
use pi5_system_surrogate.Web.{if_given}
use pi5_system_surrogate.Writers.{
  Parts, state_of, Step, ingests_enabled, ingests_mode, ingests_alliance, ingests_e_stop, ends_tick,
  calls, posts_enabled, posts_e_stop, posts_mode, posts_alliance, publishes, take_step,
}

-- The clock after a step.
abbrev pub after : MatchDurations → Step → Clock → Clock
after d (calls call) k = called d call k
after d w k = k

-- The step writes neither the enable bit nor the mode but through the controller: the topics have
-- nothing new to say of them, the form gives no value, and a tick during a match is prompt.
abbrev pub IsQuiet : Step → Clock → Parts → Type 0
IsQuiet (ingests_enabled c) k x =
    (x.ingest.first_tick ≡ false) × (c.enabled ≡ x.ingest.last_enabled_seen)
IsQuiet (ingests_mode c) k x = (x.ingest.first_tick ≡ false) × (c.mode ≡ x.ingest.last_mode_seen)
IsQuiet (posts_enabled v) k x = v ≡ []
IsQuiet (posts_mode v) k x = v ≡ []
IsQuiet (calls call) k x = IsPrompt x.controller.durations call k
IsQuiet w k x = Unit {0}

-- A write that leaves what the match shows alone.
record SameShow (s s' : DaemonState) : Type 0 where
  enabled : s'.enabled ≡ s.enabled
  mode : s'.mode ≡ s.mode
  match_time_s : s'.match_time_s ≡ s.match_time_s

same_show : {s : DaemonState} → SameShow s s
same_show = record { enabled = refl; mode = refl; match_time_s = refl }

SameShow-OnTime :
    (t : ℤ) (c : MatchController) (s : DaemonState)
    → SameShow c.state s
    → OnTime t c
    → OnTime t (record c { state = s })
SameShow-OnTime t c s k o = record {
  in_match = record {
    aligned = o.in_match.aligned;
    begun = o.in_match.begun;
    started = o.in_match.started;
    durations = o.in_match.durations;
  };
  phase = o.phase;
  agrees = record { enabled = k.enabled ∙ o.agrees.enabled; mode = k.mode ∙ o.agrees.mode };
  countdown = record {
    seconds = o.countdown.seconds;
    shown = k.match_time_s ∙ o.countdown.shown;
    enough = o.countdown.enough;
    least = o.countdown.least;
  };
}

SameShow-OnSchedule :
    (k : Clock) (c : MatchController) (s : DaemonState)
    → SameShow c.state s
    → OnSchedule k c
    → OnSchedule k (record c { state = s })
SameShow-OnSchedule none c s same (rests, agrees, zero) = (
  rests,
  record { enabled = same.enabled ∙ agrees.enabled; mode = same.mode ∙ agrees.mode },
  same.match_time_s ∙ zero,
)
SameShow-OnSchedule (some (start, t)) c s same (o, e) = (SameShow-OnTime t c s same o, e)

if_given-SameShow :
    (v : Text) (f : Text → DaemonState → DaemonState) (s : DaemonState)
    → ((w : Text) → SameShow s (f w s))
    → SameShow s (if_given v f s)
if_given-SameShow [] f s k = same_show
if_given-SameShow (b ∷ bs) f s k = k (b ∷ bs)

-- The writes of the ingest that are not news, or not of the enable bit and the mode.
module _ (c : Controls) (g : GamepadIngest) (s : DaemonState) where
  ingest_enabled-SameShow :
      g.first_tick ≡ false
      → c.enabled ≡ g.last_enabled_seen
      → SameShow s (ingest_enabled c (g, s)).1
  unfolding ingest_enabled set_enabled
  ingest_enabled-SameShow first old = ground arith

  ingest_mode-SameShow :
      g.first_tick ≡ false → c.mode ≡ g.last_mode_seen → SameShow s (ingest_mode c (g, s)).1
  unfolding ingest_mode set_mode
  ingest_mode-SameShow first old = ground arith

  ingest_alliance-SameShow : SameShow s (ingest_alliance c (g, s)).1
  unfolding ingest_alliance set_alliance
  ingest_alliance-SameShow = ground arith

  ingest_e_stop-SameShow : SameShow s (ingest_e_stop c (g, s)).1
  unfolding ingest_e_stop set_e_stop
  ingest_e_stop-SameShow = ground arith

module _ (pb_encode : PbEncode) where
  abbrev pub AllQuiet : List Step → Clock → Parts → Type 0
  AllQuiet [] k x = Unit
  AllQuiet (w ∷ ws) k x =
      IsQuiet w k x × AllQuiet ws (after x.controller.durations w k) (take_step pb_encode w x).0

  -- The controller keeps to its clock, and its durations.
  pub record Stays (k : Clock) (c d : MatchController) : Type 0 where
    pub on_schedule : OnSchedule k d
    pub durations : d.durations ≡ c.durations

  state_alone :
      (k : Clock) (c : MatchController) (s : DaemonState)
      → SameShow c.state s
      → OnSchedule k c
      → Stays k c (record c { state = s })
  state_alone k c s same o = record {
    on_schedule = SameShow-OnSchedule k c s same o;
    durations = refl;
  }

  pub take_step-Stays :
      (w : Step) (k : Clock) (x : Parts)
      → Regular x.controller.durations
      → IsQuiet w k x
      → OnSchedule k x.controller
      → Stays (after x.controller.durations w k) x.controller (take_step pb_encode w x).0.controller
  unfolding take_step set_alliance set_e_stop
  take_step-Stays (ingests_enabled c) k x r q o =
      state_alone k x.controller (ingest_enabled c (x.ingest, state_of x)).1
        (ingest_enabled-SameShow c x.ingest (state_of x) q.0 q.1) o
  take_step-Stays (ingests_mode c) k x r q o =
      state_alone k x.controller (ingest_mode c (x.ingest, state_of x)).1
        (ingest_mode-SameShow c x.ingest (state_of x) q.0 q.1) o
  take_step-Stays (ingests_alliance c) k x r q o =
      state_alone k x.controller (ingest_alliance c (x.ingest, state_of x)).1
        (ingest_alliance-SameShow c x.ingest (state_of x)) o
  take_step-Stays (ingests_e_stop c) k x r q o =
      state_alone k x.controller (ingest_e_stop c (x.ingest, state_of x)).1
        (ingest_e_stop-SameShow c x.ingest (state_of x)) o
  take_step-Stays ends_tick k x r q o = state_alone k x.controller (state_of x) same_show o
  take_step-Stays (calls call) k x r q o = record {
    on_schedule = perform-OnSchedule call k x.controller r q o;
    durations = (perform-Untouched call x.controller).durations;
  }
  take_step-Stays (posts_enabled v) k x r q o = state_alone k x.controller _ (rw q same_show) o
  take_step-Stays (posts_mode v) k x r q o = state_alone k x.controller _ (rw q same_show) o
  take_step-Stays (posts_e_stop v) k x r q o =
      state_alone k x.controller _
        (if_given-SameShow v _ (state_of x)
          (λ w. record { enabled = refl; mode = refl; match_time_s = refl }))
        o
  take_step-Stays (posts_alliance v) k x r q o =
      state_alone k x.controller _
        (if_given-SameShow v _ (state_of x)
          (λ w. record { enabled = refl; mode = refl; match_time_s = refl }))
        o
  take_step-Stays (publishes now) k x r q o = state_alone k x.controller (state_of x) same_show o
