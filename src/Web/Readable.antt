-- ===== src/Web/Readable.antt =====
-- The page of the state, read back by a reader of JSON.
use pi5_system_surrogate.Prelude.{
  ℕ, zero, suc, ◌+◌, ◌/◌, ◌%◌, ◌<◌, ◌≡◌, refl, ap, ◌∙◌, true, Bool-cases, inl, inr, ltb, ltb→lt,
  some, List, [], ◌∷◌, ◌++◌, length, arith,
}
use pi5_system_surrogate.Prelude.Int.{ℤ, pos, negsuc}
use pi5_system_surrogate.Prelude.Text.{Text, codes}
use pi5_system_surrogate.Prelude.Decimal.{digits, decimal, decimal_ℤ}
use pi5_system_surrogate.ControlData.{RobotMode}
use pi5_system_surrogate.Match.{
  MatchPhase, idle, auto, auto_teleop_gap, teleop, match_ended, match_phase_name,
}
use pi5_system_surrogate.Cadence.History.{recent, Tracks}
use pi5_system_surrogate.Cadence.Percentile.{percentile_of}
use pi5_system_surrogate.Web.Page.{Fixed, Readings, readings, WebUi, mode_name, handle_state}
use pi5_system_surrogate.Web.Shown.{document, handle_state-document}
use pi5_system_surrogate.Web.Reader.{is_numeral, read_document}
use pi5_system_surrogate.Web.Read.{
  no_quote, all_numeral, IsNumber, IsPlain, ArePlain, and_true, read-render,
}

-- A double is formatted to a numeral.
abbrev pub FormatsNumerals : Fixed → Type 0
FormatsNumerals fixed = (places : ℕ) (n : ℤ) (d : ℕ) → IsNumber (fixed places n d)

digit-numeral : (d : ℕ) → d < 10 → is_numeral (d + 48) ≡ true
digit-numeral d h = ground arith

all_numeral-snoc :
    (t : Text) (b : ℕ)
    → all_numeral t ≡ true
    → is_numeral b ≡ true
    → all_numeral (t ++ b ∷ []) ≡ true
all_numeral-snoc [] b h k = rw k refl
all_numeral-snoc (c ∷ cs) b h k =
    let (first, more) = and_true (is_numeral c) (all_numeral cs) h in
    rw (first, all_numeral-snoc cs b more k) refl

snoc-IsNumber :
    (t : Text) (b : ℕ) → all_numeral t ≡ true → is_numeral b ≡ true → IsNumber (t ++ b ∷ [])
snoc-IsNumber [] b h k = all_numeral-snoc [] b h k
snoc-IsNumber (c ∷ cs) b h k = all_numeral-snoc (c ∷ cs) b h k

digits-numeral : (k n : ℕ) → all_numeral (digits k n) ≡ true
unfolding digits
digits-numeral zero n = refl
digits-numeral (suc k) n = elim (Bool-cases (ltb n 10)) [
  | inl small ↦
      rw (digits, small) (all_numeral-snoc [] (n + 48) refl (digit-numeral n (ltb→lt n 10 small)))
  | inr large ↦
      rw (digits, large)
        (all_numeral-snoc (digits k (n / 10)) (n % 10 + 48) (digits-numeral k (n / 10))
          (digit-numeral (n % 10) (omega arith)))
]

digits-IsNumber : (k n : ℕ) → IsNumber (digits (suc k) n)
unfolding digits
digits-IsNumber k n = elim (Bool-cases (ltb n 10)) [
  | inl small ↦
      rw (digits, small) (snoc-IsNumber [] (n + 48) refl (digit-numeral n (ltb→lt n 10 small)))
  | inr large ↦
      rw (digits, large)
        (snoc-IsNumber (digits k (n / 10)) (n % 10 + 48) (digits-numeral k (n / 10))
          (digit-numeral (n % 10) (omega arith)))
]

decimal-IsNumber : (n : ℕ) → IsNumber (decimal n)
unfolding decimal
decimal-IsNumber n = digits-IsNumber 19 n

minus-IsNumber : (t : Text) → IsNumber t → IsNumber (b'-' ∷ t)
minus-IsNumber [] k = absurd k
minus-IsNumber (b ∷ bs) k = k

pub decimal_ℤ-IsNumber : (a : ℤ) → IsNumber (decimal_ℤ a)
unfolding decimal_ℤ
decimal_ℤ-IsNumber (pos n) = decimal-IsNumber n
decimal_ℤ-IsNumber (negsuc n) = minus-IsNumber (decimal (suc n)) (decimal-IsNumber (suc n))

mode_name-quotes : (m : RobotMode) → no_quote (mode_name m) ≡ true
unfolding mode_name
mode_name-quotes m = ground arith

match_phase_name-quotes : (p : MatchPhase) → no_quote (codes (match_phase_name p)) ≡ true
unfolding match_phase_name
match_phase_name-quotes idle = refl
match_phase_name-quotes auto = refl
match_phase_name-quotes auto_teleop_gap = refl
match_phase_name-quotes teleop = refl
match_phase_name-quotes match_ended = refl

document-IsPlain :
    (fixed : Fixed) (r : Readings) → FormatsNumerals fixed → IsPlain (document fixed r)
unfolding IsPlain ArePlain
document-IsPlain fixed r numerals = (
  refl,
  (
    refl,
    tt,
    (
      refl,
      mode_name-quotes r.view.mode,
      (refl, decimal_ℤ-IsNumber r.view.alliance, (refl, tt, tt)),
    ),
  ),
  (
    refl,
    (
      refl,
      match_phase_name-quotes r.shown.phase,
      (refl, numerals 1 _ _, (refl, numerals 1 _ _, tt)),
    ),
    (
      refl,
      (refl, decimal-IsNumber r.configured, (refl, decimal-IsNumber r.channels, tt)),
      (
        refl,
        (refl, numerals 3 _ _, (refl, numerals 3 _ _, (refl, decimal-IsNumber r.samples, tt))),
        (refl, numerals 3 _ _, tt),
      ),
    ),
  ),
)

-- For a tracker in step with its history, a reader of JSON finds in the page of the state the
-- document with the fields of the shared state, the match's snapshot, the counts of the channels,
-- the percentiles and the number of the recent intervals and the time since the start, and nothing
-- behind it, and the tracker stays in step; a double is formatted to digits, minus signs and
-- points, at least one of them.
pub handle_state-reads :
    (fixed : Fixed) (now now_match : ℤ) (h : List ℤ) (w : WebUi)
    → FormatsNumerals fixed
    → Tracks h w.cadence
    → let (page, w') = handle_state fixed now now_match w in
      (read_document page
        ≡ some (
            document fixed (
              readings now now_match w
                (percentile_of 50 h)
                (percentile_of 99 h)
                (length (recent h)))))
      × Tracks h w'.cadence
handle_state-reads fixed now now_match h w numerals k =
    let (text, k') = handle_state-document fixed now now_match h w k in
    let r =
      readings now now_match w (percentile_of 50 h) (percentile_of 99 h) (length (recent h)) in
    (ap read_document text ∙ read-render (document fixed r) (document-IsPlain fixed r numerals), k')
