-- ===== src/Daemon/Published.antt =====
-- The topics of the daemon's main program, and those of the two client programs.
use mathlib.Core.List.{append-nil}
use pi5_system_surrogate.Prelude.{
  ℕ, zero, suc, ◌≡◌, refl, sym, ap, ap₂, subst, ◌∙◌, ◌+◌, Bool, true, false, not, ◌&&◌, Bool-cases,
  inl, inr, Option, none, some, List, [], ◌∷◌, ◌++◌, Memᴰ, replicate,
}
use pi5_system_surrogate.Runtime.{Datagram, watchdog, notify}
use pi5_system_surrogate.SmartIo.Bridge.{PinMapping}
use pi5_system_surrogate.Topics.{check_ready_topic, check_data_topic, client_topics}
use pi5_system_surrogate.Threads.{Event, sent, Process, emit, assign_thread, rsl_start}
use pi5_system_surrogate.Daemon.{
  second, Pass, Surroundings, goes_on, terminated, returned, pin_map, idle, end_main, before_light,
  after_light, start_up, run_daemon,
}
use pi5_system_surrogate.Daemon.Watch.{fed, idle-some}
use pi5_system_surrogate.Daemon.Log.{new_process, collect, collect-replicate}
use pi5_system_surrogate.Daemon.Orderly.{started, finish, last_events, whole_log, collected}
use pi5_system_surrogate.Daemon.Typed.{
  Typed, offered, wanted, Fresh, has, named, has-Memᴰ, named-Fresh, well_typed, WellTyped,
  well_typed-WellTyped, Silent, WellTyped-append, both_true, false_of_not,
}

-- All of the first list are in the second.
abbrev pub Within : List Typed → List Typed → Type 0
Within [] ts = Unit
Within (x ∷ xs) ts = Memᴰ x ts × Within xs ts

-- No name of the first list is one of the second.
abbrev pub Apart : List Typed → List Typed → Type 0
Apart [] ts = Unit
Apart ((n, t) ∷ xs) ts = Fresh n ts × Apart xs ts

-- Each channel's topics are read as the client writes them.
abbrev pub Served : List PinMapping → List Typed → Type 0
Served [] ts = Unit
Served (m ∷ ms) ts = Within (client_topics m.channel) ts × Served ms ts

-- What the log says of the topics.
pub record IsPublished (log : List Event) : Type 0 where
  pub typed : WellTyped [] log
  pub apart : Apart (collect wanted log) (collect offered log)
  pub checks : Within (check_ready_topic ∷ check_data_topic ∷ []) (collect offered log)
  pub serves : Served pin_map (collect wanted log)

-- The same, as tests.
within : List Typed → List Typed → Bool
within [] ts = true
within (x ∷ xs) ts = has x ts && within xs ts

apart : List Typed → List Typed → Bool
apart [] ts = true
apart ((n, t) ∷ xs) ts = not (named n ts) && apart xs ts

served : List PinMapping → List Typed → Bool
unfolding within
served [] ts = true
served (m ∷ ms) ts = within (client_topics m.channel) ts && served ms ts

within-Within : (xs ts : List Typed) → within xs ts ≡ true → Within xs ts
unfolding within
within-Within [] ts h = tt
within-Within ((n, t) ∷ xs) ts h =
    let (one, rest) = both_true (has (n, t) ts) (within xs ts) h in
    (has-Memᴰ n t ts one, within-Within xs ts rest)

apart-Apart : (xs ts : List Typed) → apart xs ts ≡ true → Apart xs ts
unfolding apart
apart-Apart [] ts h = tt
apart-Apart ((n, t) ∷ xs) ts h =
    let (one, rest) = both_true (not (named n ts)) (apart xs ts) h in
    (named-Fresh n ts (false_of_not (named n ts) one), apart-Apart xs ts rest)

served-Served : (ms : List PinMapping) (ts : List Typed) → served ms ts ≡ true → Served ms ts
unfolding served
served-Served [] ts h = tt
served-Served (m ∷ ms) ts h =
    let (one, rest) = both_true (within (client_topics m.channel) ts) (served ms ts) h in
    (within-Within (client_topics m.channel) ts one, served-Served ms ts rest)

fed-Silent :
    (n : ℕ) (d : List Datagram) (ys : List Event) → Silent ys → Silent (replicate n (sent d) ++ ys)
fed-Silent zero d ys h = h
fed-Silent (suc n) d ys h = fed-Silent n d ys h

module _ (around : Surroundings) where
  start : List Event
  start = (started around).log

  started-typed : WellTyped [] start
  unfolding start before_light after_light assign_thread well_typed
  started-typed = well_typed-WellTyped [] (started around).log refl

  started-apart : Apart (collect wanted start) (collect offered start)
  unfolding start before_light after_light assign_thread collect apart named
  started-apart = apart-Apart (collect wanted start) (collect offered start) refl

  started-checks : Within (check_ready_topic ∷ check_data_topic ∷ []) (collect offered start)
  unfolding start before_light after_light assign_thread collect within has
  started-checks =
      within-Within (check_ready_topic ∷ check_data_topic ∷ []) (collect offered start) refl

  started-serves : Served pin_map (collect wanted start)
  unfolding start before_light after_light assign_thread pin_map client_topics collect served has
  started-serves = served-Served pin_map (collect wanted start) refl

  -- Nothing of the topics is said after the start.
  later-nothing :
      (f : Event → List Typed) (n : ℕ)
      → f (sent (notify around.socket around.opened watchdog)) ≡ []
      → collect f (last_events around) ≡ []
      → collect f (finish around (emit (fed around n) (started around))).log ≡ collect f start
  unfolding start
  later-nothing f n none_fed none_last =
      collected around f (fed around n)
      ∙ ap (λ l. collect f (started around).log ++ l)
          (ap₂ (λ a b. a ++ b) (collect-replicate f n _ none_fed) none_last)
      ∙ append-nil (collect f (started around).log)

  fed-IsPublished : (n : ℕ) → IsPublished (finish around (emit (fed around n) (started around))).log
  unfolding start collect
  fed-IsPublished n =
      let wants = later-nothing wanted n refl refl in
      let offers = later-nothing offered n refl refl in
      record {
        typed = subst (WellTyped []) (sym (whole_log around (fed around n))) (
            WellTyped-append [] (started around).log (fed around n ++ last_events around)
              started-typed (fed-Silent n _ (last_events around) tt));
        apart = rw (wants, offers) started-apart;
        checks = rw offers started-checks;
        serves = rw wants started-serves;
      }

  -- Whenever the daemon's main function ends, from a process that had done nothing, it has offered
  -- no topic twice, put each value on a topic offered before it and as a value of its type, and
  -- read no topic that it offers; the topics that the readiness check reads are offered with their
  -- types, and those that the test client writes for a channel of the pin map are read with theirs.
  pub run_daemon-IsPublished :
      (began : ℕ) (passes : List Pass) (p : Process)
      → run_daemon around began passes new_process ≡ returned p
      → IsPublished p.log
  unfolding run_daemon start_up rsl_start
  run_daemon-IsPublished began passes p e = elim (Bool-cases around.light_granted) [
    | inl granted ↦
        ended (idle around passes false (began + second) (started around)) refl (rw granted at e)
    | inr refused ↦ absurd (never (rw refused at e))
  ]
    where
      returned-inj : {a b : Process} → returned a ≡ returned b → a ≡ b
      returned-inj q = cc

      some-inj : {a b : Process} → some a ≡ some b → a ≡ b
      some-inj q = cc

      never : {a b : Process} → terminated a ≡ returned b → ⊥
      never q = cc

      ended :
          (o : Option Process)
          → idle around passes false (began + second) (started around) ≡ o
          → end_main around o ≡ returned p
          → IsPublished p.log
      ended none looped q = absurd (silent q)
        where
          silent : goes_on ≡ returned p → ⊥
          silent r = cc
      ended (some q0) looped q =
          let (n, same) =
            idle-some around passes false (began + second) (started around) q0 looped in
          subst (λ (x : Process). IsPublished x.log) (ap (finish around) same ∙ returned-inj q)
            (fed-IsPublished n)
