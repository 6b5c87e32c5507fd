-- ===== src/Daemon/Orderly.antt =====
-- The order in which the daemon starts and stops its threads and its server, and a start that an
-- exception ends.
use mathlib.Core.List.{append_assoc}
use pi5_system_surrogate.Prelude.{
  ℕ, ◌+◌, ◌≡◌, refl, sym, ap, ◌∙◌, true, false, List, [], ◌∷◌, ◌++◌, drop, map, replicate,
}
use pi5_system_surrogate.Gpio.{done, threw}
use pi5_system_surrogate.Runtime.{ready, watchdog, stopping, notify, lock_all_memory}
use pi5_system_surrogate.NtServer.{default_port, listen_on}
use pi5_system_surrogate.Threads.{
  Component, publisher, smartio, rsl, gamepad, diagnostics, match_loop, web, Process, Event, locked,
  server_started, server_stopped, sent, launched, joined, emit, assign_thread, rsl_start,
}
use pi5_system_surrogate.Daemon.{
  second, Signal, Pass, Surroundings, goes_on, terminated, returned, before_light, after_light,
  start_up, shut_down, destructors, end_main, after_start, run_daemon,
}
use pi5_system_surrogate.Daemon.Watch.{Calm, times, feeds, fed, idle-runs, idle-feeds}
use pi5_system_surrogate.Daemon.Log.{
  new_process, collect, thread_event, message, collect-append, components, components_back,
  push_append, collect-replicate, messages-fed,
}

-- Every thread has ended, each has been launched once and joined once, the last launched first, and
-- systemd has been told of the start, `n` times of life and of the end; the server starts after the
-- lock of the memory, before everything else, and stops at the very end.
pub record Orderly (around : Surroundings) (n : ℕ) (p : Process) : Type 0 where
  pub ended : (c : Component) → p.joinable c ≡ false
  pub no_server : p.server ≡ false
  pub threads : collect thread_event p.log ≡ map launched components ++ map joined components_back
  pub told :
      collect message p.log
      ≡ notify around.socket around.opened ready
        ∷ (replicate n (notify around.socket around.opened watchdog)
            ++ notify around.socket around.opened stopping ∷ [])
  pub meanwhile : List Event
  pub served :
      p.log
      ≡ locked (lock_all_memory around.mlockall)
        ∷ server_started (listen_on default_port)
        ∷ (meanwhile ++ server_stopped ∷ [])

module _ (around : Surroundings) where
  abbrev pub started : Process
  started = after_light around (assign_thread rsl (before_light around new_process))

  -- The start returns, if the light gets its line.
  pub start_up-started : around.light_granted ≡ true → start_up around new_process ≡ done started
  unfolding start_up rsl_start
  start_up-started granted = rw granted refl

  start_up-refused :
      around.light_granted ≡ false
      → start_up around new_process ≡ threw (before_light around new_process)
  unfolding start_up rsl_start
  start_up-refused refused = rw refused refl

  -- What the end of `main` adds.
  abbrev pub ending : List Event
  ending = sent (notify around.socket around.opened stopping) ∷ map joined components_back

  abbrev pub last_events : List Event
  last_events = ending ++ server_stopped ∷ []

  abbrev pub finish : Process → Process
  finish p = destructors around (shut_down around p)

  all_ended : (more : List Event) (c : Component) → (finish (emit more started)).joinable c ≡ false
  unfolding before_light after_light assign_thread shut_down destructors
  all_ended more publisher = refl
  all_ended more smartio = refl
  all_ended more rsl = refl
  all_ended more gamepad = refl
  all_ended more diagnostics = refl
  all_ended more match_loop = refl
  all_ended more web = refl

  no_server_left : (more : List Event) → (finish (emit more started)).server ≡ false
  unfolding before_light after_light assign_thread shut_down destructors
  no_server_left more = refl

  pub whole_log :
      (more : List Event) → (finish (emit more started)).log ≡ started.log ++ (more ++ last_events)
  unfolding before_light after_light assign_thread shut_down destructors
  whole_log more = ap (λ l. started.log ++ l) (push_append more last_events)

  -- What the whole log says of one thing.
  pub collected :
      {A : Type 0} (f : Event → List A) (more : List Event)
      → collect f (finish (emit more started)).log
        ≡ collect f started.log ++ (collect f more ++ collect f last_events)
  collected f more =
      ap (collect f) (whole_log more)
      ∙ collect-append f started.log (more ++ last_events)
      ∙ ap (λ l. collect f started.log ++ l) (collect-append f more last_events)

  whole_threads :
      (n : ℕ)
      → collect thread_event (finish (emit (fed around n) started)).log
        ≡ map launched components ++ map joined components_back
  unfolding before_light after_light assign_thread collect
  whole_threads n =
      collected thread_event (fed around n)
      ∙ ap (λ l. collect thread_event started.log ++ (l ++ collect thread_event last_events))
          (collect-replicate thread_event n (sent (notify around.socket around.opened watchdog))
            refl)

  whole_messages :
      (n : ℕ)
      → collect message (finish (emit (fed around n) started)).log
        ≡ notify around.socket around.opened ready
          ∷ (replicate n (notify around.socket around.opened watchdog)
              ++ notify around.socket around.opened stopping ∷ [])
  unfolding before_light after_light assign_thread collect
  whole_messages n =
      collected message (fed around n)
      ∙ ap (λ l. collect message started.log ++ (l ++ collect message last_events))
          (messages-fed n (notify around.socket around.opened watchdog))

  first_events :
      started.log
      ≡ locked (lock_all_memory around.mlockall)
        ∷ server_started (listen_on default_port)
        ∷ drop 2 started.log
  unfolding before_light after_light assign_thread
  first_events = refl

  whole_served :
      (more : List Event)
      → (finish (emit more started)).log
        ≡ locked (lock_all_memory around.mlockall)
          ∷ server_started (listen_on default_port)
          ∷ ((drop 2 started.log ++ (more ++ ending)) ++ server_stopped ∷ [])
  whole_served more =
      whole_log more
      ∙ ap (λ l. l ++ (more ++ last_events)) first_events
      ∙ ap
          (λ l.
            locked (lock_all_memory around.mlockall) ∷ server_started (listen_on default_port) ∷ l)
          (sym (
            append_assoc (drop 2 started.log) (more ++ ending) (server_stopped ∷ [])
            ∙ ap (λ l. drop 2 started.log ++ l) (append_assoc more ending (server_stopped ∷ []))))

  fed-Orderly : (n : ℕ) → Orderly around n (finish (emit (fed around n) started))
  fed-Orderly n = record {
    ended = all_ended (fed around n);
    no_server = no_server_left (fed around n);
    threads = whole_threads n;
    told = whole_messages n;
    meanwhile = drop 2 started.log ++ (fed around n ++ ending);
    served = whole_served (fed around n);
  }

  -- If the request of the signal light's line returns, and in a run in which no other thread
  -- throws, the daemon's main function, from a process that has done nothing, goes on as long as no
  -- signal comes, and ends after the first pass of its loop that a signal comes before: every
  -- thread has ended and there is no server, each thread was launched once and joined once, the
  -- last launched first; systemd was told of the start, once of the daemon's life for each pass
  -- before that one which found its deadline reached, and of the end; the NetworkTables server
  -- started right after the lock of the memory and stopped at the very end.
  pub run_daemon-Orderly :
      (began : ℕ) (passes : List Pass) (last : Pass) (signo : Signal) (more : List Signal)
      (later : List Pass)
      → around.light_granted ≡ true
      → Calm passes
      → last.signals ≡ signo ∷ more
      → (run_daemon around began passes new_process ≡ goes_on)
        × (p : Process) × (run_daemon around began (passes ++ last ∷ later) new_process
            ≡ returned p)
        × Orderly around (feeds (times passes) (began + second)) p
  unfolding run_daemon
  run_daemon-Orderly began passes last signo more later granted calm e =
      let n = feeds (times passes) (began + second) in
      let begins = start_up-started granted in
      (
        ap (after_start around began passes) begins
            ∙ ap (end_main around) (idle-runs around passes (began + second) started calm),
        finish (emit (fed around n) started),
        ap (after_start around began (passes ++ last ∷ later)) begins
            ∙ ap (end_main around)
                (idle-feeds around passes last signo more later (began + second) started calm e),
        fed-Orderly n,
      )

  -- If the request of the signal light's line throws, the exception ends the daemon's main
  -- function, from a process that has done nothing, whatever signals would come: the publisher and
  -- the bridge were launched and not joined, and systemd was told nothing.
  pub run_daemon-terminated :
      (began : ℕ) (passes : List Pass)
      → around.light_granted ≡ false
      → (p : Process) × (run_daemon around began passes new_process ≡ terminated p)
        × (collect thread_event p.log ≡ launched publisher ∷ launched smartio ∷ [])
        × (collect message p.log ≡ [])
        × (p.joinable publisher ≡ true)
        × (p.joinable smartio ≡ true)
  unfolding run_daemon before_light collect
  run_daemon-terminated began passes refused = (
    before_light around new_process,
    ap (after_start around began passes) (start_up-refused refused),
    refl,
    refl,
    refl,
    refl,
  )
