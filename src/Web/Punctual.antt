-- ===== src/Web/Punctual.antt =====
-- The health check while the publisher runs: the two threads share the tracker.
use pi5_system_surrogate.Prelude.{
  ℕ, ◌+◌, ◌-◌, ◌^◌, ◌<◌, ◌≡◌, refl, ap, ap₂, ◌∙◌, true, List, [], ◌∷◌, ◌++◌, length, length-append,
  arith,
}
use pi5_system_surrogate.Prelude.Int.{ℤ, pos, ◌+ℤ◌, ◌-ℤ◌, ◌≤ℤ◌, ltb_ℤ, <→ltb_ℤ, int_laws}
use pi5_system_surrogate.Prelude.Text.{Text, codes}
use pi5_system_surrogate.ControlData.{PbEncode}
use pi5_system_surrogate.Cadence.{
  CadenceTracker, capacity, sort, percentile_index, percentile_us, p99_us,
}
use pi5_system_surrogate.Cadence.History.{recent, Tracks, new_tracker-Tracks, record-Tracks}
use pi5_system_surrogate.Cadence.Percentile.{
  percentile_of, percentile_us-Tracks, percentile_us-recent,
}
use pi5_system_surrogate.Cadence.Below.{
  AllBelow, append-AllBelow, drop-AllBelow, sort-AllBelow, get_or-below,
}
use pi5_system_surrogate.Periodic.{Round, run_periodic}
use pi5_system_surrogate.Publisher.{
  ControlDataPublisher, Moment, control_data_publisher, interval_us, tick,
}
use pi5_system_surrogate.Publisher.Wire.{gaps}
use pi5_system_surrogate.Publisher.Punctual.{IsAwake, gaps-AllBelow}
use pi5_system_surrogate.Web.{healthz_status}
use pi5_system_surrogate.Web.Page.{Fixed, WebUi, handle_healthz}
use pi5_system_surrogate.Web.Shown.{render}
use pi5_system_surrogate.Web.Health.{health, body-healthy}

-- What happens to the tracker: a tick of the publisher, a health check, or a read of a percentile by
-- another page or the diagnostics.
pub data Turn : Type 0 where
  ticks : Moment → Turn
  checks : ℤ → Turn
  reads : ℕ → ℕ → Turn

-- The ticks among them.
abbrev pub moments : List Turn → List Moment
moments [] = []
moments (ticks m ∷ ts) = m ∷ moments ts
moments (t ∷ ts) = moments ts

-- The page over the publisher's tracker.
abbrev pub page_of : WebUi → ControlDataPublisher → WebUi
page_of w p = record w { cadence = p.cadence }

module _ (pb_encode : PbEncode) (fixed : Fixed) (w : WebUi) where
  -- The answers of the health checks, status and body.
  unfoldable pub answers : List Turn → ControlDataPublisher → List (ℕ × Text)
  answers [] p = []
  answers (ticks m ∷ ts) p = answers ts (tick pb_encode m p).0
  answers (checks now ∷ ts) p =
      let (code, body, w') = handle_healthz fixed now (page_of w p) in
      (code, body) ∷ answers ts (record p { cadence = w'.cadence })
  answers (reads num den ∷ ts) p =
      answers ts (record p { cadence = (percentile_us num den p.cadence).1 })

  -- Each health check finds the daemon healthy and shows the percentile of the intervals so far.
  abbrev pub all_ok : List Turn → ℤ → List ℤ → List (ℕ × Text)
  all_ok [] last h = []
  all_ok (ticks m ∷ ts) last h = all_ok ts m.now (h ++ interval_us m.now last ∷ [])
  all_ok (checks now ∷ ts) last h =
      (200, render (health fixed (codes "ok") (percentile_of 99 h) (now -ℤ w.start_time)) [])
      ∷ all_ok ts last h
  all_ok (reads num den ∷ ts) last h = all_ok ts last h

  -- The percentile that the check reads first.
  below :
      (h : List ℤ) (t : CadenceTracker)
      → Tracks h t
      → AllBelow (pos 25000) h
      → ltb_ℤ (p99_us t).0 (pos 25000) ≡ true
  unfolding p99_us
  below h t k all =
      ap (λ v. ltb_ℤ v (pos 25000)) (percentile_us-recent 99 100 h t k)
      ∙ <→ltb_ℤ (percentile_of 99 h) (pos 25000) (
          get_or-below (pos 25000) (omega arith) (sort (recent h))
            (percentile_index 99 100 (length (recent h)))
            (sort-AllBelow (pos 25000) (recent h)
              (drop-AllBelow (pos 25000) (length h - capacity) h all)))

  check-ok :
      (now : ℤ) (h : List ℤ) (u : WebUi)
      → Tracks h u.cadence
      → AllBelow (pos 25000) h
      → let (code, body, u') = handle_healthz fixed now u in
        (code ≡ 200)
        × (body ≡ render (health fixed (codes "ok") (percentile_of 99 h) (now -ℤ u.start_time)) [])
        × Tracks h u'.cadence
  unfolding handle_healthz healthz_status p99_us
  check-ok now h u k all =
      let k1 = percentile_us-Tracks 99 100 h u.cadence k in
      let t1 = (percentile_us 99 100 u.cadence).1 in
      let short = below h u.cadence k all in
      (
        rw short refl,
        body-healthy fixed now u true short
            ∙ ap (λ v. render (health fixed (codes "ok") v (now -ℤ u.start_time)) [])
                (percentile_us-recent 99 100 h t1 k1),
        percentile_us-Tracks 99 100 h t1 k1,
      )

  answers-ok :
      (ts : List Turn) (h : List ℤ) (p : ControlDataPublisher)
      → length h + length (moments ts) < 2 ^ 64
      → Tracks h p.cadence
      → AllBelow (pos 25000) h
      → AllBelow (pos 25000) (gaps p.last (moments ts))
      → answers ts p ≡ all_ok ts p.last h
  unfolding answers tick
  answers-ok [] h p small k all more = refl
  answers-ok (ticks m ∷ ts) h p small k all (first, more) =
      let us = interval_us m.now p.last in
      answers-ok ts (h ++ us ∷ []) (tick pb_encode m p).0 (omega (arith, length-append h (us ∷ [])))
        (record-Tracks us h p.cadence (omega arith) k)
        (append-AllBelow (pos 25000) h (us ∷ []) all (first, tt)) more
  answers-ok (checks now ∷ ts) h p small k all more =
      let (code, body, k') = check-ok now h (page_of w p) k all in
      ap₂ (λ a b. a ∷ b) (ap₂ (λ c b. (c, b)) code body)
        (answers-ok ts h (record p { cadence = (handle_healthz fixed now (page_of w p)).2.cadence })
          small k' all more)
  answers-ok (reads num den ∷ ts) h p small k all more =
      answers-ok ts h (record p { cadence = (percentile_us num den p.cadence).1 }) small
        (percentile_us-Tracks num den h p.cadence k) all more

  -- While the publisher runs, every health check answers 200 with the JSON document of the word ok,
  -- the 99th percentile of the last 1024 intervals so far, of all where there are fewer, and the
  -- time since the start, also before the first tick, in whatever order ticks, health checks and
  -- reads of percentiles take turns; each tick so far comes at its deadline of the thread's loop or
  -- less than a bound after it, the bound, the period and the time from the thread's first reading
  -- of the clock to the loop's are together at most 25 milliseconds, that clock does not go back,
  -- and there are fewer than 2^64 ticks.
  pub punctual-healthy :
      (period late began looped : ℤ) (rounds : List Round) (ts : List Turn)
      → began ≤ℤ looped
      → looped +ℤ period +ℤ late ≤ℤ began +ℤ pos 25000000
      → length (moments ts) < 2 ^ 64
      → IsAwake late (run_periodic period rounds looped) (moments ts)
      → answers ts (control_data_publisher began) ≡ all_ok ts began []
  unfolding control_data_publisher run_periodic
  punctual-healthy period late began looped rounds ts before together small awake =
      answers-ok ts [] (control_data_publisher began) (omega arith) new_tracker-Tracks tt (
        gaps-AllBelow period late rounds (looped +ℤ period) began (moments ts) (omega int_laws)
          (omega int_laws) awake)
