-- ===== src/Cadence.antt =====
-- cadence_tracker.hpp and cadence_tracker.cpp: a ring of the last intervals between two ticks, and
-- percentiles over a sorted copy that is made when it is first read. A `double` of milliseconds is
-- modelled by the whole number of microseconds that it is a thousandth of. A percentile is a
-- fraction `num / den`; for the three that the program uses and all counts up to the capacity, the
-- product in `double` truncates to the same index as the exact one.
pub mod Sort
pub mod Ring
pub mod History
pub mod Percentile
pub mod Runs
pub mod Below
use pi5_system_surrogate.Prelude.{
  ℕ, ◌+◌, ◌-◌, ◌*◌, ◌/◌, ◌%◌, ◌^◌, if◌then◌else◌, ltb, leb, ◌==◌, List, [], ◌∷◌, ◌++◌, set, get_or,
  take, drop, replicate,
}
use pi5_system_surrogate.Prelude.Int.{ℤ, pos, leb_ℤ}

-- kCapacity
unfoldable pub capacity : ℕ
capacity = 1024

-- `size_t` addition.
abbrev pub add_size : ℕ → ℕ → ℕ
add_size a b = (a + b) % 2 ^ 64

pub record CadenceTracker : Type 0 where
  pub samples_us : List ℤ
  pub sorted_cache : List ℤ
  pub cached_epoch : ℕ
  pub epoch : ℕ
  pub next : ℕ
  pub count : ℕ

unfoldable pub new_tracker : CadenceTracker
new_tracker = record {
  samples_us = replicate capacity (pos 0);
  sorted_cache = replicate capacity (pos 0);
  cached_epoch = 0;
  epoch = 0;
  next = 0;
  count = 0;
}

unfoldable pub record_interval_us : ℤ → CadenceTracker → CadenceTracker
record_interval_us us t = record t {
  samples_us = set t.samples_us t.next us;
  next = add_size t.next 1 % capacity;
  count = if ltb t.count capacity then add_size t.count 1 else t.count;
  epoch = add_size t.epoch 1;
}

insert : ℤ → List ℤ → List ℤ
insert x [] = x ∷ []
insert x (y ∷ ys) = if leb_ℤ x y then x ∷ y ∷ ys else y ∷ insert x ys

-- `std::sort`.
unfoldable pub sort : List ℤ → List ℤ
unfolding insert
sort [] = []
sort (x ∷ xs) = insert x (sort xs)

-- The first half of `refresh_sorted`, past its test: the copy and the sort of the first `count_`
-- places.
unfoldable pub copy_sorted : CadenceTracker → CadenceTracker
copy_sorted t = record t {
  sorted_cache = sort (take t.count t.samples_us) ++ drop t.count t.sorted_cache;
}

-- The second half: the copy is marked with the epoch.
unfoldable pub mark_cached : CadenceTracker → CadenceTracker
mark_cached t = record t { cached_epoch = t.epoch }

unfoldable pub refresh_sorted : CadenceTracker → CadenceTracker
unfolding copy_sorted mark_cached
refresh_sorted t = if t.cached_epoch == t.epoch then t else mark_cached (copy_sorted t)

-- The index that a percentile reads.
unfoldable pub percentile_index : ℕ → ℕ → ℕ → ℕ
percentile_index num den count =
    let idx = num * count / den in if leb count idx then count - 1 else idx

-- The accessors are `const` and change the cache: each returns the tracker beside its value.
unfoldable pub percentile_us : ℕ → ℕ → CadenceTracker → ℤ × CadenceTracker
unfolding refresh_sorted percentile_index
percentile_us num den t =
    let t' = refresh_sorted t in
    if t.count == 0
    then (pos 0, t)
    else (get_or t'.sorted_cache (percentile_index num den t.count) (pos 0), t')

unfoldable pub p50_us : CadenceTracker → ℤ × CadenceTracker
unfolding percentile_us
p50_us = percentile_us 50 100

unfoldable pub p99_us : CadenceTracker → ℤ × CadenceTracker
unfolding percentile_us
p99_us = percentile_us 99 100

unfoldable pub p999_us : CadenceTracker → ℤ × CadenceTracker
unfolding percentile_us
p999_us = percentile_us 999 1000

unfoldable pub max_us : CadenceTracker → ℤ × CadenceTracker
unfolding refresh_sorted
max_us t =
    let t' = refresh_sorted t in
    if t.count == 0 then (pos 0, t) else (get_or t'.sorted_cache (t.count - 1) (pos 0), t')

unfoldable pub sample_count : CadenceTracker → ℕ
sample_count t = t.count
