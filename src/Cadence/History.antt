-- ===== src/Cadence/History.antt =====
-- The tracker against the history of all the intervals recorded: what its samples, its sorted copy
-- and its percentiles are, after any sequence of records and reads.
use pi5_system_surrogate.Prelude.{
  suc, ◌+◌, ◌-◌, ◌^◌, ◌≤◌, ◌<◌, min, ◌≡◌, refl, ap, subst, ◌∙◌, ◌⊎◌, inl, inr, Bool-cases, ◌==◌,
  List, [], ◌∷◌, ◌++◌, length, length-append, length-replicate, length-drop, length-take, take,
  drop, replicate, arith,
}
use pi5_system_surrogate.Prelude.Int.{ℤ, pos}
use pi5_system_surrogate.Prelude.Slices.{
  drop-drop, drop-append_le, drop-append_ge, take-append_le, take_all,
}
use pi5_system_surrogate.Cadence.{
  capacity, CadenceTracker, new_tracker, record_interval_us, sort, copy_sorted, mark_cached,
  refresh_sorted,
}
use pi5_system_surrogate.Cadence.Sort.{length-sort}
use pi5_system_surrogate.Cadence.Ring.{
  capacity_bounds, window, valid, IsRing, record-IsRing, window-record, valid-perm,
}
use mathlib.Core.List.{Perm, append_assoc}

-- The intervals recorded last, as many as the ring holds.
abbrev pub recent : List ℤ → List ℤ
recent h = drop (length h - capacity) h

unfoldable pub zeros : List ℤ
zeros = replicate capacity (pos 0)

-- The sorted copy is out of date and known to be, or it is the samples in ascending order.
abbrev pub IsCoherent : CadenceTracker → Type 0
IsCoherent t =
    (t.cached_epoch < t.epoch)
    ⊎ ((t.cached_epoch ≡ t.epoch) × (take t.count t.sorted_cache ≡ sort (valid t)))

-- The tracker after the intervals of a history, the oldest first.
pub record Tracks (h : List ℤ) (t : CadenceTracker) : Type 0 where
  pub ring : IsRing t
  pub oldest_first : window t ≡ drop (length h) (zeros ++ h)
  pub count : t.count ≡ min (length h) capacity
  pub epoch : t.epoch ≡ length h
  pub coherent : IsCoherent t
  pub cache_size : length t.sorted_cache ≡ capacity

pub new_tracker-Tracks : Tracks [] new_tracker
unfolding new_tracker zeros sort
new_tracker-Tracks = record {
  ring = record {
    size = length-replicate capacity (pos 0);
    next_in = capacity_bounds.0;
    count_in = omega arith;
    filled = inr refl;
  };
  oldest_first = refl;
  count = omega arith;
  epoch = refl;
  coherent = inr (refl, refl);
  cache_size = length-replicate capacity (pos 0);
}

length-zeros : length zeros ≡ capacity
unfolding zeros
length-zeros = length-replicate capacity (pos 0)

not_ahead : (t : CadenceTracker) → IsCoherent t → t.cached_epoch ≤ t.epoch
not_ahead t (inl h) = omega arith
not_ahead t (inr h) = omega arith

-- One more interval moves the window by one place.
shift :
    (us : ℤ) (h : List ℤ)
    → drop 1 (drop (length h) (zeros ++ h)) ++ us ∷ []
      ≡ drop (length (h ++ us ∷ [])) (zeros ++ (h ++ us ∷ []))
shift us h = rw (
  drop-drop 1 (length h) (zeros ++ h),
  ← drop-append_le (length h + 1) (zeros ++ h) (us ∷ [])
      (omega (arith, length-append zeros h, length-zeros, capacity_bounds)),
  append_assoc,
  length-append h (us ∷ []),
)

-- A record keeps the tracker in step with the history of all intervals, as long as they are fewer
-- than 2^64.
pub record-Tracks :
    (us : ℤ) (h : List ℤ) (t : CadenceTracker)
    → suc (length h) < 2 ^ 64
    → Tracks h t
    → Tracks (h ++ us ∷ []) (record_interval_us us t)
unfolding record_interval_us
record-Tracks us h t small k = record {
  ring = record-IsRing us t k.ring;
  oldest_first = window-record us t k.ring ∙ rw k.oldest_first (shift us h);
  count = ground (arith, length-append h (us ∷ []), capacity_bounds, k.count);
  epoch = omega (arith, length-append h (us ∷ []), k.epoch);
  coherent = inl (omega (arith, not_ahead t k.coherent, k.epoch));
  cache_size = k.cache_size;
}

pub length-valid : (t : CadenceTracker) → IsRing t → length (valid t) ≡ t.count
length-valid t r = omega (arith, length-take t.count t.samples_us, r.size, r.count_in)

pub take-copy_sorted :
    (t : CadenceTracker) → IsRing t → take t.count (copy_sorted t).sorted_cache ≡ sort (valid t)
unfolding copy_sorted
take-copy_sorted t r = rw (
  take-append_le t.count (sort (valid t)) (drop t.count t.sorted_cache)
      (omega (arith, length-sort (valid t), length-valid t r)),
  take_all t.count (sort (valid t)) (omega (arith, length-sort (valid t), length-valid t r)),
)

size-copy_sorted :
    (h : List ℤ) (t : CadenceTracker) → Tracks h t → length (copy_sorted t).sorted_cache ≡ capacity
unfolding copy_sorted
size-copy_sorted h t k = omega (
  arith,
  length-append (sort (valid t)) (drop t.count t.sorted_cache),
  length-sort (valid t),
  length-valid t k.ring,
  length-drop t.count t.sorted_cache,
  k.cache_size,
  k.ring.count_in,
)

pub refresh-Tracks : (h : List ℤ) (t : CadenceTracker) → Tracks h t → Tracks h (refresh_sorted t)
unfolding refresh_sorted copy_sorted mark_cached
refresh-Tracks h t k = elim (Bool-cases (t.cached_epoch == t.epoch)) [
  | inl same ↦ rw same k
  | inr stale ↦ rw stale (record {
    ring = copied k.ring;
    oldest_first = k.oldest_first;
    count = k.count;
    epoch = k.epoch;
    coherent = inr (refl, take-copy_sorted t k.ring);
    cache_size = size-copy_sorted h t k;
  })
]
  where
    copied : IsRing t → IsRing (mark_cached (copy_sorted t))
    copied r = record {
      size = r.size;
      next_in = r.next_in;
      count_in = r.count_in;
      filled = r.filled;
    }

-- The samples are the recent intervals, in another order.
pub valid-recent : (h : List ℤ) (t : CadenceTracker) → Tracks h t → Perm (valid t) (recent h)
valid-recent h t k = subst (Perm (valid t)) (rw k.oldest_first ends) (valid-perm t k.ring)
  where
    ends : drop (capacity - t.count) (drop (length h) (zeros ++ h)) ≡ recent h
    ends =
        rw
          (
            drop-drop (capacity - t.count) (length h) (zeros ++ h),
            drop-append_ge (length h + (capacity - t.count)) zeros h
                (omega (arith, length-zeros, k.count)),
          )
          (ap (λ n. drop n h) (omega (arith, length-zeros, k.count)))
