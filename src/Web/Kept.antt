-- ===== src/Web/Kept.antt =====
-- The alliance as the page shows it, posted by the form.
use pi5_system_surrogate.Prelude.{
  ℕ, ◌≡◌, refl, ap, ◌∙◌, true, false, inl, inr, if◌then◌else◌, leb, ◌==◌, none, [], ◌∷◌, ◌++◌,
  arith,
}
use pi5_system_surrogate.Prelude.Int.{ℤ, pos, negsuc}
use pi5_system_surrogate.Prelude.Text.{Text}
use pi5_system_surrogate.Prelude.Decimal.{decimal_ℤ}
use pi5_system_surrogate.DaemonState.{DaemonState, set_alliance}
use pi5_system_surrogate.Web.{
  enabled_key, estop_key, mode_key, alliance_key, equals_sign, ampersand, bounded, if_given, find,
  from_chars, handle_set_control,
}
use pi5_system_surrogate.Web.Extract.{NoAmpersand}
use pi5_system_surrogate.Web.Fields.{Field, IsPlain, handle_set_control-asked}
use pi5_system_surrogate.Web.Reader.{is_numeral}
use pi5_system_surrogate.Web.Read.{all_numeral, and_true, IsNumber}
use pi5_system_surrogate.Web.Readable.{decimal_ℤ-IsNumber}
use pi5_system_surrogate.Web.Decimal.{IsInt, from_chars-decimal_ℤ}

-- What the form is to make of a number: the nearest one between 0 and 3.
abbrev pub nearest : ℤ → ℤ
nearest (pos n) = if leb n 3 then pos n else pos 3
nearest (negsuc n) = pos 0

bounded-nearest : (a : ℤ) → bounded a ≡ nearest a
unfolding bounded
bounded-nearest (pos n) = ground arith
bounded-nearest (negsuc n) = ground arith

IsNumber-numeral : (t : Text) → IsNumber t → all_numeral t ≡ true
IsNumber-numeral [] k = absurd k
IsNumber-numeral (b ∷ bs) k = k

not_ampersand : (b : ℕ) → is_numeral b ≡ true → (b == ampersand) ≡ false
not_ampersand b h = ground arith

numeral-NoAmpersand : (t : Text) → all_numeral t ≡ true → NoAmpersand t
numeral-NoAmpersand [] h = tt
numeral-NoAmpersand (b ∷ bs) h =
    let (first, more) = and_true (is_numeral b) (all_numeral bs) h in
    (not_ampersand b first, numeral-NoAmpersand bs more)

not_letter : (n b : ℕ) → leb 97 n ≡ true → is_numeral b ≡ true → (n == b) ≡ false
not_letter n b h k = ground arith

-- A text that begins with a letter is nowhere in a numeral.
find-numeral :
    (n : ℕ) (ns t : Text) → leb 97 n ≡ true → all_numeral t ≡ true → find (n ∷ ns) t ≡ none
unfolding find
find-numeral n ns [] letter h = refl
find-numeral n ns (b ∷ bs) letter h =
    let (first, more) = and_true (is_numeral b) (all_numeral bs) h in
    rw (find, not_letter n b letter first, find-numeral n ns bs letter more) refl

-- The form with the alliance alone.
abbrev alliance_field : ℤ → Field
alliance_field a = (alliance_key, decimal_ℤ a)

module _ (a : ℤ) where
  shown : all_numeral (decimal_ℤ a) ≡ true
  shown = IsNumber-numeral (decimal_ℤ a) (decimal_ℤ-IsNumber a)

  enabled-IsPlain : IsPlain enabled_key (alliance_field a ∷ [])
  unfolding find
  enabled-IsPlain = (
    ground arith,
    numeral-NoAmpersand (decimal_ℤ a) shown,
    inr (rw (find-numeral 101 _ (decimal_ℤ a) refl shown) refl),
    tt,
  )

  estop-IsPlain : IsPlain estop_key (alliance_field a ∷ [])
  unfolding find
  estop-IsPlain = (
    ground arith,
    numeral-NoAmpersand (decimal_ℤ a) shown,
    inr (rw (find-numeral 101 _ (decimal_ℤ a) refl shown) refl),
    tt,
  )

  mode-IsPlain : IsPlain mode_key (alliance_field a ∷ [])
  unfolding find
  mode-IsPlain = (
    ground arith,
    numeral-NoAmpersand (decimal_ℤ a) shown,
    inr (rw (find-numeral 109 _ (decimal_ℤ a) refl shown) refl),
    tt,
  )

  alliance-IsPlain : IsPlain alliance_key (alliance_field a ∷ [])
  alliance-IsPlain = (ground arith, numeral-NoAmpersand (decimal_ℤ a) shown, inl refl, tt)

if_given-number :
    (t : Text) (f : Text → DaemonState → DaemonState) (s : DaemonState)
    → IsNumber t
    → if_given t f s ≡ f t s
if_given-number [] f s k = absurd k
if_given-number (b ∷ bs) f s k = refl

-- The control form with nothing but the alliance, as the page of the state writes its number, sets
-- the alliance to the nearest number between 0 and 3, so that one in this range is kept, and
-- changes nothing else; the number fits an int.
pub handle_set_control-nearest :
    (a : ℤ) (s : DaemonState)
    → IsInt a
    → handle_set_control (alliance_key ++ equals_sign ∷ decimal_ℤ a) s
      ≡ record s { alliance = nearest a }
unfolding set_alliance
handle_set_control-nearest a s h =
    handle_set_control-asked (alliance_field a ∷ []) s (enabled-IsPlain a) (estop-IsPlain a)
      (mode-IsPlain a) (alliance-IsPlain a)
    ∙ if_given-number (decimal_ℤ a) (λ v. set_alliance (bounded (from_chars v))) s
        (decimal_ℤ-IsNumber a)
    ∙ ap (λ n. record s { alliance = n })
        (ap bounded (from_chars-decimal_ℤ a h) ∙ bounded-nearest a)
