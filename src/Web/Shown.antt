-- ===== src/Web/Shown.antt =====
-- The page of the state, as a JSON document.
use pi5_system_surrogate.Prelude.{◌≡◌, refl, sym, ◌∙◌, Bool, List, [], ◌∷◌, ◌++◌, length}
use pi5_system_surrogate.Prelude.Int.{ℤ}
use pi5_system_surrogate.Prelude.Decimal.{decimal, decimal_ℤ}
use pi5_system_surrogate.Prelude.Text.{Text, codes}
use pi5_system_surrogate.Match.{match_phase_name, ns_per_s}
use pi5_system_surrogate.Cadence.{CadenceTracker, percentile_us, p50_us, p99_us, sample_count}
use pi5_system_surrogate.Cadence.History.{recent, Tracks}
use pi5_system_surrogate.Cadence.Percentile.{
  percentile_of, percentile_us-Tracks, percentile_us-recent, length-recent,
}
use pi5_system_surrogate.Web.Page.{
  Fixed, truth, mode_name, Readings, readings, format_state, WebUi, channel_count, handle_state,
}

-- JSON documents of objects, words without escapes, numbers and truth values.
mutual
  pub data Json : Type 0 where
    boolean : Bool → Json
    number : Text → Json
    word : Text → Json
    object : Members → Json

  pub data Members : Type 0 where
    no_members : Members
    member : Text → Json → Members → Members

-- The text of a document, before the text `rest`.
unfoldable mutual
  pub render : Json → Text → Text
  render (boolean b) rest = truth b ++ rest
  render (number t) rest = t ++ rest
  render (word t) rest = b'"' ∷ (t ++ b'"' ∷ rest)
  render (object ms) rest = b'{' ∷ render_members ms (b'}' ∷ rest)

  pub render_members : Members → Text → Text
  render_members no_members rest = rest
  render_members (member name v ms) rest =
      b'"' ∷ (name ++ b'"' ∷ b':' ∷ render v (render_more ms rest))

  pub render_more : Members → Text → Text
  render_more no_members rest = rest
  render_more (member name v ms) rest =
      b',' ∷ b'"' ∷ (name ++ b'"' ∷ b':' ∷ render v (render_more ms rest))

-- The document of what the page reads.
abbrev pub document : Fixed → Readings → Json
document fixed r = object (
    member (codes "control")
      (object (
        member (codes "enabled") (boolean r.view.enabled) (
          member (codes "mode") (word (mode_name r.view.mode)) (
            member (codes "alliance") (number (decimal_ℤ r.view.alliance))
              (member (codes "estop") (boolean r.view.e_stop) no_members)))))
      (member (codes "match")
        (object (
          member (codes "phase") (word (codes (match_phase_name r.shown.phase))) (
            member (codes "total_elapsed_s") (number (fixed 1 r.shown.total_elapsed 1000)) (
              member (codes "remaining_s") (number (fixed 1 r.shown.remaining_in_phase 1000))
                no_members))))
        (member (codes "smartio")
          (object (
            member (codes "channels_configured") (number (decimal r.configured))
              (member (codes "channel_count") (number (decimal r.channels)) no_members)))
          (member (codes "cadence")
            (object (
              member (codes "p50_ms") (number (fixed 3 r.p50 1000)) (
                member (codes "p99_ms") (number (fixed 3 r.p99 1000))
                  (member (codes "samples") (number (decimal r.samples)) no_members))))
            (member (codes "uptime_s") (number (fixed 3 r.up ns_per_s)) no_members)))))

format_state-render :
    (fixed : Fixed) (r : Readings) → format_state fixed r ≡ render (document fixed r) []
unfolding format_state render render_members render_more
format_state-render fixed r = refl

-- The samples that the page counts, as the history of the intervals has them.
sample_count-recent :
    (h : List ℤ) (t : CadenceTracker) → Tracks h t → sample_count t ≡ length (recent h)
unfolding sample_count
sample_count-recent h t k = k.count ∙ sym (length-recent h)

-- For a tracker in step with its history, the page of the state is the text of the JSON document
-- with the fields of the shared state, the match's snapshot, the counts of the channels, the
-- percentiles and the number of the recent intervals and the time since the start, and the tracker
-- stays in step.
pub handle_state-document :
    (fixed : Fixed) (now now_match : ℤ) (h : List ℤ) (w : WebUi)
    → Tracks h w.cadence
    → let (page, w') = handle_state fixed now now_match w in
      (page
        ≡ render
            (document fixed (
              readings now now_match w
                (percentile_of 50 h)
                (percentile_of 99 h)
                (length (recent h))))
            [])
      × Tracks h w'.cadence
unfolding handle_state channel_count p50_us p99_us
handle_state-document fixed now now_match h w k =
    let k1 = percentile_us-Tracks 50 100 h w.cadence k in
    let t1 = (percentile_us 50 100 w.cadence).1 in
    let k2 = percentile_us-Tracks 99 100 h t1 k1 in
    let t2 = (percentile_us 99 100 t1).1 in
    (
      rw
          (
            ← percentile_us-recent 50 100 h w.cadence k,
            ← percentile_us-recent 99 100 h t1 k1,
            ← sample_count-recent h t2 k2,
          )
          (format_state-render fixed (
            readings now now_match w (percentile_us 50 100 w.cadence).0 (percentile_us 99 100 t1).0
              (sample_count t2))),
      k2,
    )
