-- ===== src/Web/Find.antt =====
-- The first place of a needle in a form's body, and what the parser takes from there.
use pi5_system_surrogate.Prelude.{
  ℕ, suc, ◌+◌, ◌-◌, ◌≡◌, refl, sym, ap, ◌∙◌, ◌⊎◌, inl, inr, Bool, true, false, not, ◌&&◌,
  Bool-cases, ◌==◌, Option, none, some, Option-cases, ◌≢◌, [], ◌∷◌, ◌++◌, length, length-append,
  drop, get_or, arith,
}
use mathlib.Core.List.{append_assoc}
use pi5_system_surrogate.Prelude.Text.{Text}
use pi5_system_surrogate.Web.{ampersand, starts_with, find, up_to_ampersand, extract_at}
use pi5_system_surrogate.Web.Extract.{NoAmpersand, drop-append}

-- A needle without '&' that a text does not begin with, it does not begin with behind a '&' either.
starts_with-field :
    (needle f rest : Text)
    → NoAmpersand needle
    → starts_with needle f ≡ false
    → starts_with needle (f ++ ampersand ∷ rest) ≡ false
starts_with-field [] f rest clear h = cc
starts_with-field (n ∷ ns) [] rest clear h = rw (clear.0) refl
starts_with-field (n ∷ ns) (b ∷ bs) rest clear h = elim (Bool-cases (n == b)) [
  | inl same ↦ rw same (starts_with-field ns bs rest clear.1 (rw same at h))
  | inr other ↦ rw other refl
]

abbrev pub shift : ℕ → Option ℕ → Option ℕ
shift n none = none
shift n (some m) = some (n + m)

shift_one : (n : ℕ) (o : Option ℕ) → shift 1 (shift n o) ≡ shift (suc n) o
shift_one n none = refl
shift_one n (some m) = ap some (omega arith)

-- The first place of the needle, from whether the text begins with it.
find-here :
    (needle : Text) (b : ℕ) (bs : Text)
    → starts_with needle (b ∷ bs) ≡ true
    → find needle (b ∷ bs) ≡ some 0
unfolding find
find-here needle b bs h = rw h refl

find-there :
    (needle : Text) (b : ℕ) (bs : Text)
    → starts_with needle (b ∷ bs) ≡ false
    → find needle (b ∷ bs) ≡ shift 1 (find needle bs)
unfolding find
find-there needle b bs h = elim (Option-cases (find needle bs)) [
  | inl e ↦ rw (h, e) refl
  | inr (n, e) ↦ rw (h, e) (ap some (omega arith))
]

shift-none : (n : ℕ) (o : Option ℕ) → shift n o ≡ none → o ≡ none
shift-none n none h = refl
shift-none n (some m) h = cc

-- What a text without the needle says of its first byte and of the others.
find-none :
    (needle : Text) (b : ℕ) (bs : Text)
    → find needle (b ∷ bs) ≡ none
    → (starts_with needle (b ∷ bs) ≡ false) × (find needle bs ≡ none)
find-none needle b bs h = elim (Bool-cases (starts_with needle (b ∷ bs))) [
  | inl here ↦ absurd (some_not_none (sym (find-here needle b bs here) ∙ h))
  | inr there ↦ (there, shift-none 1 (find needle bs) (sym (find-there needle b bs there) ∙ h))
]
  where
    some_not_none : ◌≢◌ {A = Option ℕ} (some 0) none
    some_not_none e = cc

find-nil : (needle : Text) → find needle [] ≡ none → starts_with needle [] ≡ false
unfolding find
find-nil [] h = cc
find-nil (n ∷ ns) h = refl

-- A field without the needle is skipped, whatever comes behind it.
pub find-field :
    (needle f rest : Text)
    → NoAmpersand needle
    → find needle f ≡ none
    → find needle (f ++ ampersand ∷ rest) ≡ shift (suc (length f)) (find needle rest)
find-field needle [] rest clear h =
    find-there needle ampersand rest (starts_with-field needle [] rest clear (find-nil needle h))
find-field needle (b ∷ bs) rest clear h =
    let (front, behind) = find-none needle b bs h in
    find-there needle b (bs ++ ampersand ∷ rest)
      (starts_with-field needle (b ∷ bs) rest clear front)
    ∙ ap (shift 1) (find-field needle bs rest clear behind)
    ∙ shift_one (suc (length bs)) (find needle rest)

-- Nothing, or text that ends with a '&'.
abbrev pub EndsField : Text → Type 0
EndsField pre = (pre ≡ []) ⊎ ((p : Text) × (pre ≡ p ++ ampersand ∷ []))

get_or-mid : (p : Text) (x : ℕ) (q : Text) → get_or (p ++ x ∷ q) (length p) 0 ≡ x
get_or-mid [] x q = refl
get_or-mid (b ∷ bs) x q = get_or-mid bs x q

drop-both :
    (pre needle rest : Text) → drop (length pre + length needle) (pre ++ (needle ++ rest)) ≡ rest
drop-both [] needle rest =
    ap (λ n. drop n (needle ++ rest)) {y = length needle} (omega arith) ∙ drop-append needle rest
drop-both (b ∷ bs) needle rest =
    ap (λ n. drop n (b ∷ (bs ++ (needle ++ rest)))) {y = suc (length bs + length needle)}
      (omega arith)
    ∙ drop-both bs needle rest

-- The parser passes over a place in the middle of a text.
abbrev passes_over : Text → ℕ → Bool
passes_over body place = not (place == 0) && not (get_or body (place - 1) 0 == ampersand)

first_place : (body : Text) (n : ℕ) → n ≡ 0 → passes_over body n ≡ false
first_place body n e = ground arith

marked_place :
    (body : Text) (n k : ℕ)
    → n ≡ suc k
    → (get_or body k 0 == ampersand) ≡ true
    → passes_over body n ≡ false
marked_place body n k e mark =
    let at : n - 1 ≡ k = omega arith in
    let same : (get_or body (n - 1) 0 == ampersand) ≡ true =
      ap (λ i. get_or body i 0 == ampersand) at ∙ mark in
    rw same (ground arith)

stops_at : (pre rest : Text) → EndsField pre → passes_over (pre ++ rest) (length pre) ≡ false
stops_at pre rest (inl e) = first_place (pre ++ rest) (length pre) (ap length e)
stops_at pre rest (inr (p, e)) =
    marked_place (pre ++ rest) (length pre) (length p)
      (ap length e ∙ omega (arith, length-append p (ampersand ∷ [])))
      (ap (λ b. get_or (b ++ rest) (length p) 0 == ampersand) e
        ∙ ap (λ b. get_or b (length p) 0 == ampersand) (append_assoc p (ampersand ∷ []) rest)
        ∙ ap (λ x. x == ampersand) (get_or-mid p ampersand rest))

-- What the parser takes from the place of the needle.
pub taken :
    (needle pre rest : Text)
    → EndsField pre
    → extract_at (length needle) (pre ++ (needle ++ rest)) (some (length pre))
      ≡ up_to_ampersand rest
taken needle pre rest ends =
    rw (stops_at pre (needle ++ rest) ends) (ap up_to_ampersand (drop-both pre needle rest))
