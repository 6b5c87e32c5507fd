-- ===== src/Web/Health.antt =====
-- The page of the health check, as a status and a JSON document.
use pi5_system_surrogate.Prelude.{
  ◌≡◌, ◌≢◌, ◌≤◌, ◌<◌, refl, ◌⊎◌, inl, inr, Bool, true, false, Bool-cases, [], length, arith, ℕ,
  List,
}
use pi5_system_surrogate.Prelude.Int.{ℤ, pos, ◌-ℤ◌, ltb_ℤ}
use pi5_system_surrogate.Prelude.Text.{Text, codes}
use pi5_system_surrogate.Match.{ns_per_s}
use pi5_system_surrogate.Cadence.{CadenceTracker, percentile_index, percentile_us, p99_us}
use pi5_system_surrogate.Cadence.Sort.{count_below}
use pi5_system_surrogate.Cadence.History.{recent, Tracks}
use pi5_system_surrogate.Cadence.Percentile.{
  percentile_of, percentile_us-Tracks, percentile_us-recent,
}
use pi5_system_surrogate.Web.{healthz_status}
use pi5_system_surrogate.Web.Forms.{healthz_status-rank}
use pi5_system_surrogate.Web.Page.{Fixed, WebUi, health_word, handle_healthz}
use pi5_system_surrogate.Web.Shown.{
  Json, number, word, object, no_members, member, render, render_members, render_more,
}

-- The document, of a word, the percentile and the time since the start.
abbrev pub health : Fixed → Text → ℤ → ℤ → Json
health fixed status p99 up = object (
    member (codes "status") (word status) (
      member (codes "cadence_p99_ms") (number (fixed 3 p99 1000))
        (member (codes "uptime_s") (number (fixed 3 up ns_per_s)) no_members)))

-- How many of the recent intervals the 99th percentile has below it.
abbrev pub rank_of : List ℤ → ℕ
rank_of h = percentile_index 99 100 (length (recent h))

-- The answer, by the intervals that are shorter than 25 milliseconds.
abbrev pub Answers : Fixed → ℤ → List ℤ → ℕ → Text → Type 0
Answers fixed up h code body =
    ((code ≡ 200)
      × (rank_of h < count_below (pos 25000) (recent h))
      × (body ≡ render (health fixed (codes "ok") (percentile_of 99 h) up) []))
    ⊎ ((code ≡ 503)
        × (count_below (pos 25000) (recent h) ≤ rank_of h)
        × (body ≡ render (health fixed (codes "degraded") (percentile_of 99 h) up) []))

-- The body, by the word.
pub body-healthy :
    (fixed : Fixed) (now : ℤ) (w : WebUi) (b : Bool)
    → ltb_ℤ (p99_us w.cadence).0 (pos 25000) ≡ b
    → (handle_healthz fixed now w).1
      ≡ render
          (health fixed (health_word b) (p99_us (p99_us w.cadence).1).0 (now -ℤ w.start_time))
          []
unfolding handle_healthz render render_members render_more
body-healthy fixed now w true e = rw e refl
body-healthy fixed now w false e = rw e refl

status_200 : (t : CadenceTracker) → healthz_status t ≡ 200 → ltb_ℤ (p99_us t).0 (pos 25000) ≡ true
unfolding healthz_status
status_200 t h = elim (Bool-cases (ltb_ℤ (p99_us t).0 (pos 25000))) [
  | inl e ↦ e
  | inr e ↦ absurd (omega (arith, rw e at h))
]

status_503 : (t : CadenceTracker) → healthz_status t ≡ 503 → ltb_ℤ (p99_us t).0 (pos 25000) ≡ false
unfolding healthz_status
status_503 t h = elim (Bool-cases (ltb_ℤ (p99_us t).0 (pos 25000))) [
  | inl e ↦ absurd (omega (arith, rw e at h))
  | inr e ↦ e
]

-- For a tracker in step with its history, which is not empty, the health check answers 200 with the
-- JSON document of the word ok when more of the last 1024 intervals, or of all where there are
-- fewer, than the index that the 99th percentile reads are shorter than 25 milliseconds, and 503
-- with that of the word degraded when not; the document holds the percentile of these intervals and
-- the time since the start, and the tracker stays in step.
pub handle_healthz-Answers :
    (fixed : Fixed) (now : ℤ) (h : List ℤ) (w : WebUi)
    → Tracks h w.cadence
    → h ≢ []
    → let (code, body, w') = handle_healthz fixed now w in
      Answers fixed (now -ℤ w.start_time) h code body × Tracks h w'.cadence
unfolding handle_healthz p99_us
handle_healthz-Answers fixed now h w k ne =
    let k1 = percentile_us-Tracks 99 100 h w.cadence k in
    let t1 = (percentile_us 99 100 w.cadence).1 in
    let k2 = percentile_us-Tracks 99 100 h t1 k1 in
    let second = percentile_us-recent 99 100 h t1 k1 in
    (
      elim (healthz_status-rank h w.cadence k ne) [
        | inl (e, more) ↦
            inl (e, more, rw (← second) (body-healthy fixed now w true (status_200 w.cadence e)))
        | inr (e, fewer) ↦
            inr (e, fewer, rw (← second) (body-healthy fixed now w false (status_503 w.cadence e)))
      ],
      k2,
    )
