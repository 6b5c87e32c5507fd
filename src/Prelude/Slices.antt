-- ===== src/Prelude/Slices.antt =====
-- Laws of `take`, `drop` and `set` on lists, for buffers that are cut at an index.
use Prim.Native.Nat.{ℕ, zero, suc, ◌+◌, ◌-◌, ◌≤◌, ◌<◌}
use mathlib.Core.Path.{◌≡◌, refl, subst, sym, ◌∙◌, ap}
use mathlib.Core.List.{Perm, perm_append_comm, append-nil, append_assoc, List, [], ◌∷◌, ◌++◌}
use native.Mathlib.Omega.{arith}
use pi5_system_surrogate.Prelude.Lists.{
  length, set, take, drop, get_or, length-drop, take-append-drop,
}

suc-plus : (n m : ℕ) → suc (n + m) ≡ suc n + m
suc-plus n m = omega arith

minus_suc : (n m : ℕ) → n - m ≡ suc n - suc m
minus_suc n m = omega arith

module _ {ℓ} {A : Type ℓ} where
  pub drop-nil : (n : ℕ) → drop {A = A} n [] ≡ []
  drop-nil zero = refl
  drop-nil (suc n) = refl

  pub drop-drop : (m n : ℕ) (xs : List A) → drop m (drop n xs) ≡ drop (n + m) xs
  drop-drop m zero xs = ap (λ k. drop k xs) (omega arith)
  drop-drop m (suc n) [] = drop-nil m ∙ sym (drop-nil (suc n + m))
  drop-drop m (suc n) (x ∷ xs) = drop-drop m n xs ∙ ap (λ k. drop k (x ∷ xs)) (suc-plus n m)

  pub drop-append_le :
      (n : ℕ) (xs ys : List A) → n ≤ length xs → drop n (xs ++ ys) ≡ drop n xs ++ ys
  drop-append_le zero xs ys h = refl
  drop-append_le (suc n) [] ys h = absurd (omega arith)
  drop-append_le (suc n) (x ∷ xs) ys h = drop-append_le n xs ys (omega arith)

  pub drop-append_ge :
      (n : ℕ) (xs ys : List A) → length xs ≤ n → drop n (xs ++ ys) ≡ drop (n - length xs) ys
  drop-append_ge n [] ys h = ap (λ k. drop k ys) (omega arith)
  drop-append_ge zero (x ∷ xs) ys h = absurd (omega arith)
  drop-append_ge (suc n) (x ∷ xs) ys h =
      drop-append_ge n xs ys (omega arith) ∙ ap (λ k. drop k ys) (minus_suc n (length xs))

  pub take_all : (n : ℕ) (xs : List A) → length xs ≤ n → take n xs ≡ xs
  take_all zero [] h = refl
  take_all zero (x ∷ xs) h = absurd (omega arith)
  take_all (suc n) [] h = refl
  take_all (suc n) (x ∷ xs) h = ap (λ ys. x ∷ ys) (take_all n xs (omega arith))

  pub drop_all : (n : ℕ) (xs : List A) → length xs ≤ n → drop n xs ≡ []
  drop_all zero [] h = refl
  drop_all zero (x ∷ xs) h = absurd (omega arith)
  drop_all (suc n) [] h = refl
  drop_all (suc n) (x ∷ xs) h = drop_all n xs (omega arith)

  pub take-append_le : (n : ℕ) (xs ys : List A) → n ≤ length xs → take n (xs ++ ys) ≡ take n xs
  take-append_le zero xs ys h = refl
  take-append_le (suc n) [] ys h = absurd (omega arith)
  take-append_le (suc n) (x ∷ xs) ys h = ap (λ zs. x ∷ zs) (take-append_le n xs ys (omega arith))

  pub get_or-append_left :
      (xs ys : List A) (i : ℕ) (d : A) → i < length xs → get_or (xs ++ ys) i d ≡ get_or xs i d
  get_or-append_left [] ys i d h = absurd (omega arith)
  get_or-append_left (x ∷ xs) ys zero d h = refl
  get_or-append_left (x ∷ xs) ys (suc i) d h = get_or-append_left xs ys i d (omega arith)

  pub get_or-take : (xs : List A) (n i : ℕ) (d : A) → i < n → get_or (take n xs) i d ≡ get_or xs i d
  get_or-take xs zero i d h = absurd (omega arith)
  get_or-take [] (suc n) i d h = refl
  get_or-take (x ∷ xs) (suc n) zero d h = refl
  get_or-take (x ∷ xs) (suc n) (suc i) d h = get_or-take xs n i d (omega arith)

  -- A write at an index is past what stands before it, and is the first of what stands after it.
  pub drop-suc-set : (xs : List A) (n : ℕ) (v : A) → drop (suc n) (set xs n v) ≡ drop (suc n) xs
  drop-suc-set [] n v = refl
  drop-suc-set (x ∷ xs) zero v = refl
  drop-suc-set (x ∷ xs) (suc n) v = drop-suc-set xs n v

  pub take-suc-set :
      (xs : List A) (n : ℕ) (v : A)
      → n < length xs
      → take (suc n) (set xs n v) ≡ take n xs ++ v ∷ []
  take-suc-set [] n v h = absurd (omega arith)
  take-suc-set (x ∷ xs) zero v h = refl
  take-suc-set (x ∷ xs) (suc n) v h = ap (λ ys. x ∷ ys) (take-suc-set xs n v (omega arith))

  pub drop_one-drop : (n : ℕ) (xs : List A) → drop 1 (drop n xs) ≡ drop (suc n) xs
  drop_one-drop n xs = drop-drop 1 n xs ∙ ap (λ k. drop k xs) {y = suc n} (omega arith)

  -- A list cut at an index and put together the other way round.
  abbrev pub rotate : List A → ℕ → List A
  rotate xs n = drop n xs ++ take n xs

  pub rotate-set :
      (xs : List A) (n : ℕ) (v : A)
      → n < length xs
      → rotate (set xs n v) (suc n) ≡ drop 1 (rotate xs n) ++ v ∷ []
  rotate-set xs n v h = rw (
    drop-suc-set,
    take-suc-set xs n v h,
    drop-append_le 1 (drop n xs) (take n xs) (omega (arith, length-drop n xs)),
    drop_one-drop,
    append_assoc,
  )

  -- A cut at the end is a cut at the start.
  pub rotate_end : (xs : List A) (n : ℕ) → length xs ≡ n → rotate xs n ≡ rotate xs 0
  rotate_end xs n h =
      rw (drop_all n xs (omega arith), take_all n xs (omega arith)) (sym (append-nil xs))

  -- What stood before the cut is the end of the rotated list.
  pub drop-rotate : (xs : List A) (n : ℕ) → drop (length xs - n) (rotate xs n) ≡ take n xs
  drop-rotate xs n =
      drop-append_ge (length xs - n) (drop n xs) (take n xs) (omega (arith, length-drop n xs))
      ∙ ap (λ k. drop k (take n xs)) {y = 0} (omega (arith, length-drop n xs))

  pub rotate-perm : (xs : List A) (n : ℕ) → Perm xs (rotate xs n)
  rotate-perm xs n =
      subst (λ ys. Perm ys (rotate xs n)) (take-append-drop n xs)
        (perm_append_comm (take n xs) (drop n xs))
