-- ===== src/Cadence/Runs.antt =====
-- The tracker over any sequence of records and reads, and the harm of a record between the two
-- halves of a refresh.
use pi5_system_surrogate.Prelude.{
  ℕ, ◌+◌, ◌^◌, ◌<◌, ◌≡◌, refl, ◌≢◌, ap, sym, ◌∙◌, true, false, ◌-◌, take, drop, ltb, lt→ltb, ◌==◌,
  ==_iff, subst, zero, suc, map, replicate, List, [], ◌∷◌, ◌++◌, length, length-append, get_or,
  arith,
}
use pi5_system_surrogate.Prelude.Int.{ℤ, pos}
use pi5_system_surrogate.Cadence.{
  add_size, refresh_sorted, capacity, CadenceTracker, new_tracker, record_interval_us, copy_sorted,
  mark_cached, percentile_us, percentile_index, max_us, sort,
}
use pi5_system_surrogate.Cadence.Sort.{length-sort}
use pi5_system_surrogate.Cadence.Ring.{valid}
use pi5_system_surrogate.Cadence.History.{
  recent, Tracks, new_tracker-Tracks, record-Tracks, length-valid,
}
use pi5_system_surrogate.Cadence.Percentile.{
  percentile_us-recent, percentile_us-Tracks, max_us-Tracks,
}
use mathlib.Core.List.{append-nil, append_assoc}

-- A call of the publisher, or one of a reader, for a percentile or the maximum.
pub data Access : Type 0 where
  records : ℤ → Access
  reads : ℕ → ℕ → Access
  reads_max : Access

unfoldable pub access : Access → CadenceTracker → CadenceTracker
unfolding percentile_us max_us
access (records us) t = record_interval_us us t
access (reads num den) t = (percentile_us num den t).1
access reads_max t = (max_us t).1

unfoldable pub run : List Access → CadenceTracker → CadenceTracker
run [] t = t
run (a ∷ rest) t = run rest (access a t)

abbrev pub intervals : List Access → List ℤ
intervals [] = []
intervals (records us ∷ rest) = us ∷ intervals rest
intervals (reads num den ∷ rest) = intervals rest
intervals (reads_max ∷ rest) = intervals rest

run-Tracks :
    (rest : List Access) (h : List ℤ) (t : CadenceTracker)
    → length h + length (intervals rest) < 2 ^ 64
    → Tracks h t
    → Tracks (h ++ intervals rest) (run rest t)
unfolding run access
run-Tracks [] h t small k = rw append-nil k
run-Tracks (records us ∷ rest) h t small k = rw (← append_assoc h (us ∷ []) (intervals rest)) (
    run-Tracks rest (h ++ us ∷ []) (record_interval_us us t)
      (omega (arith, length-append h (us ∷ []))) (record-Tracks us h t (omega arith) k))
run-Tracks (reads num den ∷ rest) h t small k =
    run-Tracks rest h (percentile_us num den t).1 small (percentile_us-Tracks num den h t k)
run-Tracks (reads_max ∷ rest) h t small k =
    run-Tracks rest h (max_us t).1 small (max_us-Tracks h t k)

-- After any sequence of records and reads of a new tracker, fewer than 2^64 of them records, a
-- percentile is the element of its rank among the intervals recorded last, at most the capacity of
-- them, in ascending order.
pub run-percentile :
    (rest : List Access) (num den : ℕ)
    → length (intervals rest) < 2 ^ 64
    → let h = recent (intervals rest) in
      (percentile_us num den (run rest new_tracker)).0
      ≡ get_or (sort h) (percentile_index num den (length h)) (pos 0)
run-percentile rest num den small =
    percentile_us-recent num den (intervals rest) (run rest new_tracker)
      (run-Tracks rest [] new_tracker (omega arith) new_tracker-Tracks)

-- The records of intervals with no read between them.
abbrev pub recorded : List ℤ → CadenceTracker
recorded xs = run (map records xs) new_tracker

intervals-records : (xs : List ℤ) → intervals (map records xs) ≡ xs
intervals-records [] = refl
intervals-records (x ∷ xs) = ap (λ l. x ∷ l) (intervals-records xs)

recorded-Tracks : (xs : List ℤ) → length xs < 2 ^ 64 → Tracks xs (recorded xs)
recorded-Tracks xs small =
    subst (λ l. Tracks l (recorded xs)) (intervals-records xs)
      (run-Tracks (map records xs) [] new_tracker (rw (intervals-records xs) (omega arith))
        new_tracker-Tracks)

-- Records leave the sorted copy and its epoch as they are.
records-cache :
    (xs : List ℤ) (t : CadenceTracker)
    → ((run (map records xs) t).sorted_cache ≡ t.sorted_cache)
      × ((run (map records xs) t).cached_epoch ≡ t.cached_epoch)
unfolding run access record_interval_us
records-cache [] t = (refl, refl)
records-cache (x ∷ xs) t = records-cache xs (record_interval_us x t)

get_or-zeros : (n i : ℕ) → get_or (replicate n (pos 0)) i (pos 0) ≡ pos 0
get_or-zeros zero i = refl
get_or-zeros (suc n) zero = refl
get_or-zeros (suc n) (suc i) = get_or-zeros n i

same_epoch : (n : ℕ) → (n == n) ≡ true
same_epoch n = (==_iff n n).1 refl

one_more : (n : ℕ) → n < 1024 → add_size n 1 ≡ suc n
one_more n h = omega arith

below_capacity : (n : ℕ) → n < 1024 → ltb n 1024 ≡ true
below_capacity n h = lt→ltb n 1024 h

not_none : (n : ℕ) → (suc n == 0) ≡ false
not_none n = ground arith

last_place : (n : ℕ) → suc n - 1 ≡ n
last_place n = omega arith

-- The read behind the copy's last place.
race-read :
    (us : ℤ) (t : CadenceTracker)
    → t.count < 1024
    → (max_us (mark_cached (record_interval_us us (copy_sorted t)))).0
      ≡ get_or (sort (take t.count t.samples_us) ++ drop t.count t.sorted_cache) t.count (pos 0)
unfolding max_us mark_cached record_interval_us copy_sorted refresh_sorted capacity
race-read us t few =
    rw
      (
        below_capacity t.count few,
        one_more t.count few,
        same_epoch (add_size t.epoch 1),
        not_none t.count,
        last_place t.count,
      )
      refl

-- A place behind the sorted intervals is one of the old copy.
behind-sorted :
    (xs ys : List ℤ) (n : ℕ) → length xs ≡ n → get_or (xs ++ ys) n (pos 0) ≡ get_or ys 0 (pos 0)
behind-sorted [] ys n h = ap (λ k. get_or ys k (pos 0)) (sym h)
behind-sorted (x ∷ xs) ys zero h = absurd (omega arith)
behind-sorted (x ∷ xs) ys (suc n) h = behind-sorted xs ys n (omega arith)

drop-zeros : (n k : ℕ) → get_or (drop n (replicate k (pos 0))) 0 (pos 0) ≡ pos 0
drop-zeros zero k = get_or-zeros k 0
drop-zeros (suc n) zero = refl
drop-zeros (suc n) (suc k) = drop-zeros n k

-- A reader that asks for the maximum for the first time, after some records but fewer than 1024,
-- finds the tracker neither empty nor up to date, and so copies the samples; if the publisher
-- records an interval between the reader's copy and its mark, the maximum is then read as zero,
-- whatever the intervals were.
pub race-max :
    (xs : List ℤ) (us : ℤ)
    → xs ≢ []
    → length xs < 1024
    → let t = recorded xs in
      (t.count ≢ 0)
      × (t.cached_epoch ≢ t.epoch)
      × ((max_us (mark_cached (record_interval_us us (copy_sorted t)))).0 ≡ pos 0)
unfolding new_tracker capacity
race-max xs us some few =
    let t = recorded xs in
    let k = recorded-Tracks xs (omega arith) in
    let (cache, unread) = records-cache xs new_tracker in
    let many = not_empty xs some in
    let sorted : length (sort (valid t)) ≡ t.count =
      omega (arith, length-sort (valid t), length-valid t k.ring) in
    (
      (λ e. many (omega (arith, k.count))),
      (λ e. many (omega (arith, k.epoch, unread))),
      race-read us t (omega (arith, k.count))
          ∙ behind-sorted (sort (valid t)) (drop t.count t.sorted_cache) t.count sorted
          ∙ ap (λ l. get_or (drop t.count l) 0 (pos 0)) cache
          ∙ drop-zeros t.count 1024,
    )
  where
    not_empty : (l : List ℤ) → l ≢ [] → length l ≢ 0
    not_empty [] h e = h refl
    not_empty (x ∷ l) h e = omega arith
