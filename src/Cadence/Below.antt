-- ===== src/Cadence/Below.antt =====
-- Lists of intervals that are all below a bound.
use pi5_system_surrogate.Prelude.{
  ℕ, zero, suc, Bool-cases, inl, inr, ◌++◌, List, [], ◌∷◌, drop, get_or,
}
use pi5_system_surrogate.Prelude.Int.{ℤ, pos, ◌<ℤ◌, leb_ℤ}
use pi5_system_surrogate.Cadence.{sort, insert}

abbrev pub AllBelow : ℤ → List ℤ → Type 0
AllBelow v [] = Unit
AllBelow v (x ∷ xs) = (x <ℤ v) × AllBelow v xs

module _ (v : ℤ) where
  pub append-AllBelow : (xs ys : List ℤ) → AllBelow v xs → AllBelow v ys → AllBelow v (xs ++ ys)
  append-AllBelow [] ys a b = b
  append-AllBelow (x ∷ xs) ys (s, a) b = (s, append-AllBelow xs ys a b)

  pub drop-AllBelow : (n : ℕ) (xs : List ℤ) → AllBelow v xs → AllBelow v (drop n xs)
  drop-AllBelow zero xs a = a
  drop-AllBelow (suc n) [] a = tt
  drop-AllBelow (suc n) (x ∷ xs) (s, a) = drop-AllBelow n xs a

  insert-AllBelow : (x : ℤ) (xs : List ℤ) → x <ℤ v → AllBelow v xs → AllBelow v (insert x xs)
  unfolding insert
  insert-AllBelow x [] s a = (s, tt)
  insert-AllBelow x (y ∷ ys) s (t, a) = elim (Bool-cases (leb_ℤ x y)) [
    | inl e ↦ rw e (s, (t, a))
    | inr e ↦ rw e (t, insert-AllBelow x ys s a)
  ]

  pub sort-AllBelow : (xs : List ℤ) → AllBelow v xs → AllBelow v (sort xs)
  unfolding sort
  sort-AllBelow [] a = tt
  sort-AllBelow (x ∷ xs) (s, a) = insert-AllBelow x (sort xs) s (sort-AllBelow xs a)

  -- A place of such a list, or zero past its end.
  pub get_or-below : pos 0 <ℤ v → (xs : List ℤ) (i : ℕ) → AllBelow v xs → get_or xs i (pos 0) <ℤ v
  get_or-below h [] i a = h
  get_or-below h (x ∷ xs) zero (s, a) = s
  get_or-below h (x ∷ xs) (suc i) (s, a) = get_or-below h xs i a
