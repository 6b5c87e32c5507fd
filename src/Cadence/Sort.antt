-- ===== src/Cadence/Sort.antt =====
-- `sort` is the ascending permutation of its list, and does not depend on the order of the list.
use pi5_system_surrogate.Prelude.{
  ℕ, zero, suc, ◌≤◌, ◌<◌, ◌≡◌, refl, ap₂, ◌∙◌, Bool, Bool-cases, inl, inr, List, [], ◌∷◌, length,
  get_or, if◌then◌else◌, arith,
}
use pi5_system_surrogate.Prelude.Int.{ℤ, ◌≤ℤ◌, leb_ℤ, ltb_ℤ, eq_of_parts, leb_ℤ→≤, leb_ℤ→≥}
use pi5_system_surrogate.Cadence.{insert, sort}
use mathlib.Core.Logic.{∥∥₁_elim}
use mathlib.Core.List.{Perm, Permᴰ}
use mathlib.Core.List.Perm
use native.Mathlib.Decide.{ℕ_discrete}
use native.Mathlib.Nat.{ℕ_set}

-- `a` is a lower bound.
abbrev pub AllAbove : ℤ → List ℤ → Type 0
AllAbove a [] = Unit
AllAbove a (x ∷ xs) = (a ≤ℤ x) × AllAbove a xs

abbrev pub IsSorted : List ℤ → Type 0
IsSorted [] = Unit
IsSorted (x ∷ xs) = AllAbove x xs × IsSorted xs

AllAbove-le : (a b : ℤ) (xs : List ℤ) → a ≤ℤ b → AllAbove b xs → AllAbove a xs
AllAbove-le a b [] h all = tt
AllAbove-le a b (x ∷ xs) h all = (omega arith, AllAbove-le a b xs h all.1)

AllAbove-insert : (a x : ℤ) (xs : List ℤ) → a ≤ℤ x → AllAbove a xs → AllAbove a (insert x xs)
unfolding insert
AllAbove-insert a x [] h all = (h, tt)
AllAbove-insert a x (y ∷ ys) h all = ground (arith, AllAbove-insert a x ys h all.1)

insert-IsSorted : (x : ℤ) (xs : List ℤ) → IsSorted xs → IsSorted (insert x xs)
unfolding insert
insert-IsSorted x [] s = (tt, tt)
insert-IsSorted x (y ∷ ys) s = elim (Bool-cases (leb_ℤ x y)) [
  | inl below ↦ rw below ((leb_ℤ→≤ x y below, AllAbove-le x y ys (leb_ℤ→≤ x y below) s.0), s)
  | inr above ↦ rw above (AllAbove-insert y x ys (leb_ℤ→≥ x y above) s.0, insert-IsSorted x ys s.1)
]

-- The sorted list ascends.
pub sort-IsSorted : (xs : List ℤ) → IsSorted (sort xs)
unfolding sort
sort-IsSorted [] = tt
sort-IsSorted (x ∷ xs) = insert-IsSorted x (sort xs) (sort-IsSorted xs)

insert_comm : (x y : ℤ) (xs : List ℤ) → insert x (insert y xs) ≡ insert y (insert x xs)
unfolding insert
insert_comm x y [] = ground (arith, eq_of_parts x y)
insert_comm x y (z ∷ zs) = ground (arith, eq_of_parts x y, insert_comm x y zs)

length-insert : (x : ℤ) (xs : List ℤ) → length (insert x xs) ≡ suc (length xs)
unfolding insert
length-insert x [] = refl
length-insert x (y ∷ ys) = ground (arith, length-insert x ys)

pub length-sort : (xs : List ℤ) → length (sort xs) ≡ length xs
unfolding sort
length-sort [] = refl
length-sort (x ∷ xs) = omega (arith, length-insert x (sort xs), length-sort xs)

insert-perm : (x : ℤ) (xs : List ℤ) → Perm (insert x xs) (x ∷ xs)
unfolding insert
insert-perm x [] = Perm.refl (x ∷ [])
insert-perm x (y ∷ ys) = elim (Bool-cases (leb_ℤ x y)) [
  | inl below ↦ rw below (Perm.refl (x ∷ y ∷ ys))
  | inr above ↦ rw above (Perm.trans (Perm.cons y (insert-perm x ys)) (Perm.swap x y ys))
]

-- The sorted list has the same elements, as often.
pub sort-perm : (xs : List ℤ) → Perm (sort xs) xs
unfolding sort
sort-perm [] = Perm.refl []
sort-perm (x ∷ xs) = Perm.trans (insert-perm x (sort xs)) (Perm.cons x (sort-perm xs))

List-set : IsSet (List ℤ)
List-set = hlevel ℕ_discrete

sort-permᴰ : {l r : List ℤ} → Permᴰ l r → sort l ≡ sort r
unfolding sort
sort-permᴰ Permᴰ.nil = refl
sort-permᴰ (Permᴰ.cons e p) = ap₂ insert e (sort-permᴰ p)
sort-permᴰ (Permᴰ.swap {a = a} {b = b} {l = l} e f) =
    insert_comm a b (sort l) ∙ ap₂ (λ u v. insert u (insert v (sort l))) f e
sort-permᴰ (Permᴰ.trans p q) = sort-permᴰ p ∙ sort-permᴰ q

-- Lists with the same elements sort to the same list.
pub sort-eq_of_perm : {l r : List ℤ} → Perm l r → sort l ≡ sort r
sort-eq_of_perm {l} {r} p = ∥∥₁_elim p (List-set (sort l) (sort r)) sort-permᴰ

-- How many elements pass a test.
unfoldable pub count_if : (ℤ → Bool) → List ℤ → ℕ
count_if p [] = 0
count_if p (x ∷ xs) = let rest = count_if p xs in if p x then suc rest else rest

-- How many elements are below a bound, and how many are not above it.
abbrev pub count_below : ℤ → List ℤ → ℕ
count_below v = count_if (λ x. ltb_ℤ x v)

abbrev pub count_upto : ℤ → List ℤ → ℕ
count_upto v = count_if (λ x. leb_ℤ x v)

count_if-permᴰ : {l r : List ℤ} (p : ℤ → Bool) → Permᴰ l r → count_if p l ≡ count_if p r
unfolding count_if
count_if-permᴰ p Permᴰ.nil = refl
count_if-permᴰ p (Permᴰ.cons {l₁ = l} {l₂ = r} e q) =
    ap₂ (λ x n. if p x then suc n else n) e (count_if-permᴰ p q)
count_if-permᴰ p (Permᴰ.swap {l = l} e f) = rw (e, f) (ground arith)
count_if-permᴰ p (Permᴰ.trans q r) = count_if-permᴰ p q ∙ count_if-permᴰ p r

pub count_if-perm : {l r : List ℤ} (p : ℤ → Bool) → Perm l r → count_if p l ≡ count_if p r
count_if-perm {l} {r} p q = ∥∥₁_elim q (ℕ_set (count_if p l) (count_if p r)) (count_if-permᴰ p)

none_below : (v : ℤ) (xs : List ℤ) → AllAbove v xs → count_below v xs ≡ 0
unfolding count_if
none_below v [] all = refl
none_below v (x ∷ xs) all = ground (arith, none_below v xs all.1)

AllAbove-get_or :
    (a : ℤ) (xs : List ℤ) (i : ℕ) (d : ℤ) → AllAbove a xs → i < length xs → a ≤ℤ get_or xs i d
AllAbove-get_or a [] i d all h = absurd (omega arith)
AllAbove-get_or a (x ∷ xs) zero d all h = all.0
AllAbove-get_or a (x ∷ xs) (suc i) d all h = AllAbove-get_or a xs i d all.1 (omega arith)

-- In an ascending list the element at `i` has at most `i` elements below it, and more than `i`
-- that are not above it.
rank_of_IsSorted :
    (xs : List ℤ) (i : ℕ) (d : ℤ)
    → IsSorted xs
    → i < length xs
    → (count_below (get_or xs i d) xs ≤ i) × (i < count_upto (get_or xs i d) xs)
unfolding count_if
rank_of_IsSorted [] i d s h = absurd (omega arith)
rank_of_IsSorted (x ∷ xs) zero d s h = ground (arith, none_below x xs s.0)
rank_of_IsSorted (x ∷ xs) (suc i) d s h =
    ground (arith, rank_of_IsSorted xs i d s.1, AllAbove-get_or x xs i d s.0)

-- The same of any list and its sorted copy.
pub sort-rank :
    (xs : List ℤ) (i : ℕ) (d : ℤ)
    → i < length xs
    → let v = get_or (sort xs) i d in (count_below v xs ≤ i) × (i < count_upto v xs)
sort-rank xs i d h =
    let v = get_or (sort xs) i d in
    let ranks = rank_of_IsSorted (sort xs) i d (sort-IsSorted xs) (omega (arith, length-sort xs)) in
    let p = sort-perm xs in
    (
      omega (arith, count_if-perm (λ x. ltb_ℤ x v) p, ranks.0),
      omega (arith, count_if-perm (λ x. leb_ℤ x v) p, ranks.1),
    )
