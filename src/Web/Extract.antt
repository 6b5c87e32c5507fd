-- ===== src/Web/Extract.antt =====
-- Texts in forms: their equality, the front of a text, and values without '&'.
use pi5_system_surrogate.Prelude.{
  ◌≡◌, refl, ap, true, false, ◌==◌, [], ◌∷◌, ◌++◌, length, drop, some, arith,
}
use pi5_system_surrogate.Prelude.Text.{Text}
use pi5_system_surrogate.Web.{ampersand, same_text, starts_with, find, up_to_ampersand}

pub same_text_eq : (a b : Text) → same_text a b ≡ true → a ≡ b
same_text_eq [] [] h = refl
same_text_eq [] (y ∷ b) h = cc
same_text_eq (x ∷ a) [] h = cc
same_text_eq (x ∷ a) (y ∷ b) h = ground (arith, same_text_eq a b)

-- No '&' in the text.
abbrev pub NoAmpersand : Text → Type 0
NoAmpersand [] = Unit
NoAmpersand (b ∷ bs) = ((b == ampersand) ≡ false) × NoAmpersand bs

-- What may follow the value of a field: nothing, or '&' and the other fields.
pub data Tail : Text → Type 0 where
  at_end : Tail []
  more_fields : (rest : Text) → Tail (ampersand ∷ rest)

starts_with-append : (needle rest : Text) → starts_with needle (needle ++ rest) ≡ true
starts_with-append [] rest = refl
starts_with-append (n ∷ ns) rest = ground (arith, starts_with-append ns rest)

pub find-front : (needle rest : Text) → find needle (needle ++ rest) ≡ some 0
unfolding find
find-front [] [] = refl
find-front [] (b ∷ bs) = refl
find-front (n ∷ ns) rest = rw (starts_with-append (n ∷ ns) rest) refl

pub drop-append : (xs ys : Text) → drop (length xs) (xs ++ ys) ≡ ys
drop-append [] ys = refl
drop-append (x ∷ xs) ys = drop-append xs ys

pub up_to-value : (v tail : Text) → NoAmpersand v → Tail tail → up_to_ampersand (v ++ tail) ≡ v
up_to-value [] [] clear at_end = refl
up_to-value [] _ clear (more_fields rest) = refl
up_to-value (b ∷ bs) tail clear t = rw (clear.0) (ap (λ x. b ∷ x) (up_to-value bs tail clear.1 t))
