-- ===== src/Cadence/Percentile.antt =====
-- What the accessors of the tracker return, as order statistics of the recent intervals.
use pi5_system_surrogate.Prelude.{
  ℕ, ◌-◌, ◌≤◌, ◌<◌, min, ◌≡◌, ◌≢◌, refl, sym, ap, ◌∙◌, ◌⊎◌, inl, inr, false, Bool-cases, ◌==◌,
  ==_iff, List, [], ◌∷◌, length, length-drop, take, get_or, arith, if◌then◌else◌,
}
use pi5_system_surrogate.Prelude.Int.{ℤ, pos}
use pi5_system_surrogate.Prelude.Slices.{get_or-take}
use pi5_system_surrogate.Cadence.{
  capacity, CadenceTracker, sort, mark_cached, refresh_sorted, percentile_index, percentile_us,
  max_us,
}
use pi5_system_surrogate.Cadence.Sort.{
  length-sort, sort-eq_of_perm, sort-rank, count_below, count_upto,
}
use pi5_system_surrogate.Cadence.History.{
  recent, IsCoherent, Tracks, take-copy_sorted, valid-recent, refresh-Tracks,
}
use pi5_system_surrogate.Cadence.Ring.{capacity_bounds, valid, IsRing}

-- After a refresh the sorted copy is that of the samples.
take-refresh :
    (t : CadenceTracker)
    → IsRing t
    → IsCoherent t
    → take t.count (refresh_sorted t).sorted_cache ≡ sort (valid t)
unfolding refresh_sorted mark_cached
take-refresh t r c = elim (Bool-cases (t.cached_epoch == t.epoch)) [
  | inl same ↦ rw same (elim c [
    | inl behind ↦ absurd (omega (arith, (==_iff t.cached_epoch t.epoch).0 same))
    | inr (_, fresh) ↦ fresh
  ])
  | inr stale ↦ rw stale (take-copy_sorted t r)
]

percentile_index-lt : (num den n : ℕ) → n ≢ 0 → percentile_index num den n < n
unfolding percentile_index
percentile_index-lt num den n h = ground arith

pub length-recent : (h : List ℤ) → length (recent h) ≡ min (length h) capacity
length-recent h = omega (arith, length-drop (length h - capacity) h)

-- A place of the sorted copy below the count is that of the sorted recent intervals.
get_or-refresh :
    (h : List ℤ) (t : CadenceTracker) (i : ℕ)
    → Tracks h t
    → i < t.count
    → get_or (refresh_sorted t).sorted_cache i (pos 0) ≡ get_or (sort (recent h)) i (pos 0)
get_or-refresh h t i k lt =
    sym (get_or-take (refresh_sorted t).sorted_cache t.count i (pos 0) lt)
    ∙ ap (λ xs. get_or xs i (pos 0))
        (take-refresh t k.ring k.coherent ∙ sort-eq_of_perm (valid-recent h t k))

get_or_empty : (xs : List ℤ) (i : ℕ) → length xs ≡ 0 → get_or xs i (pos 0) ≡ pos 0
get_or_empty [] i h = refl
get_or_empty (x ∷ xs) i h = absurd (omega arith)

none-recorded :
    (h : List ℤ) (t : CadenceTracker) (i : ℕ)
    → Tracks h t
    → t.count ≡ 0
    → get_or (sort (recent h)) i (pos 0) ≡ pos 0
none-recorded h t i k e =
    get_or_empty (sort (recent h)) i
      (omega (arith, length-sort (recent h), length-recent h, k.count))

ne_zero : (i n : ℕ) → i < n → (n == 0) ≡ false
ne_zero i n h = ground arith

index_cases : (num den n : ℕ) → (n ≡ 0) ⊎ (percentile_index num den n < n)
unfolding percentile_index
index_cases num den n = ground arith

last_cases : (n : ℕ) → (n ≡ 0) ⊎ (n - 1 < n)
last_cases n = omega arith

recent-ne : (h : List ℤ) → h ≢ [] → length (recent h) ≢ 0
recent-ne [] ne = λ _. ne refl
recent-ne (x ∷ xs) ne = λ e. omega (arith, length-recent (x ∷ xs), capacity_bounds, e)

abbrev pub read_at : ℕ → CadenceTracker → ℤ × CadenceTracker
read_at i t =
    if t.count == 0
    then (pos 0, t)
    else (get_or (refresh_sorted t).sorted_cache i (pos 0), refresh_sorted t)

-- Both kinds of accessor, by the place that they read.
read-recent :
    (h : List ℤ) (t : CadenceTracker) (i : ℕ)
    → Tracks h t
    → (t.count ≡ 0) ⊎ (i < t.count)
    → (read_at i t).0 ≡ get_or (sort (recent h)) i (pos 0)
read-recent h t i k (inl none_yet) =
    rw ((==_iff t.count 0).1 none_yet) (sym (none-recorded h t i k none_yet))
read-recent h t i k (inr lt) = rw (ne_zero i t.count lt) (get_or-refresh h t i k lt)

-- A read keeps what the tracker holds.
read_at-Tracks : (h : List ℤ) (t : CadenceTracker) (i : ℕ) → Tracks h t → Tracks h (read_at i t).1
read_at-Tracks h t i k = elim (Bool-cases (t.count == 0)) [
  | inl none_yet ↦ rw none_yet k
  | inr some_yet ↦ rw some_yet (refresh-Tracks h t k)
]

pub percentile_us-Tracks :
    (num den : ℕ) (h : List ℤ) (t : CadenceTracker)
    → Tracks h t
    → Tracks h (percentile_us num den t).1
unfolding percentile_us
percentile_us-Tracks num den h t = read_at-Tracks h t (percentile_index num den t.count)

pub max_us-Tracks : (h : List ℤ) (t : CadenceTracker) → Tracks h t → Tracks h (max_us t).1
unfolding max_us
max_us-Tracks h t = read_at-Tracks h t (t.count - 1)

-- The element of its rank, in hundredths, among the recent intervals.
abbrev pub percentile_of : ℕ → List ℤ → ℤ
percentile_of num h =
    get_or (sort (recent h)) (percentile_index num 100 (length (recent h))) (pos 0)

-- A percentile of the tracker is the element of its rank among the recent intervals, in ascending
-- order, and zero if nothing has been recorded.
pub percentile_us-recent :
    (num den : ℕ) (h : List ℤ) (t : CadenceTracker)
    → Tracks h t
    → (percentile_us num den t).0
      ≡ get_or (sort (recent h)) (percentile_index num den (length (recent h))) (pos 0)
unfolding percentile_us
percentile_us-recent num den h t k =
    rw (length-recent, ← k.count)
      (read-recent h t (percentile_index num den t.count) k (index_cases num den t.count))

-- In a tracker that is in step with its history, the maximum is the last of the recent intervals in
-- ascending order, and zero where there are none.
pub max_us-recent :
    (h : List ℤ) (t : CadenceTracker)
    → Tracks h t
    → (max_us t).0 ≡ get_or (sort (recent h)) (length (recent h) - 1) (pos 0)
unfolding max_us
max_us-recent h t k =
    rw (length-recent, ← k.count) (read-recent h t (t.count - 1) k (last_cases t.count))

-- In a tracker that is in step with its history, which is not empty, at most as many of the recent
-- intervals as the percentile's index are below the percentile, and more than the index are not
-- above it.
pub percentile_us-rank :
    (num den : ℕ) (h : List ℤ) (t : CadenceTracker)
    → Tracks h t
    → h ≢ []
    → let v = (percentile_us num den t).0 in
      let i = percentile_index num den (length (recent h)) in
      (count_below v (recent h) ≤ i) × (i < count_upto v (recent h))
percentile_us-rank num den h t k ne = rw (percentile_us-recent num den h t k) (
    sort-rank (recent h) (percentile_index num den (length (recent h))) (pos 0)
      (percentile_index-lt num den (length (recent h)) (recent-ne h ne)))
