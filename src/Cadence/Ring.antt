-- ===== src/Cadence/Ring.antt =====
-- The ring of the tracker holds the intervals recorded last.
use pi5_system_surrogate.Prelude.{
  ℕ, suc, ◌-◌, ◌%◌, ◌^◌, ◌≤◌, ◌<◌, ◌≡◌, sym, ◌∙◌, ◌⊎◌, inl, inr, false, Bool-cases, List, [], ◌∷◌,
  ◌++◌, length, length-set, set, take, drop, ltb, ltb→lt, arith,
}
use pi5_system_surrogate.Prelude.Int.{ℤ}
use pi5_system_surrogate.Prelude.Slices.{take_all, rotate-set, rotate-perm, drop-rotate, rotate_end}
use pi5_system_surrogate.Cadence.{capacity, add_size, CadenceTracker, record_interval_us}
use mathlib.Core.List.{Perm}
use mathlib.Core.List.Perm
use native.Mathlib.Nat.{sub_self}

pub capacity_bounds : (0 < capacity) × (capacity < 2 ^ 64)
unfolding capacity
capacity_bounds = omega arith

-- The places from the oldest one on, going round at the capacity.
abbrev pub window : CadenceTracker → List ℤ
window t = drop t.next t.samples_us ++ take t.next t.samples_us

-- The samples that are read.
abbrev pub valid : CadenceTracker → List ℤ
valid t = take t.count t.samples_us

pub record IsRing (t : CadenceTracker) : Type 0 where
  pub size : length t.samples_us ≡ capacity
  pub next_in : t.next < capacity
  pub count_in : t.count ≤ capacity
  pub filled : (t.count ≡ capacity) ⊎ (t.count ≡ t.next)

end_of_ltb : (n : ℕ) → n < capacity → ltb (suc n) capacity ≡ false → suc n ≡ capacity
end_of_ltb n h e = ground arith

-- The next place is the one behind, or the first one after the last.
next_cases :
    (n : ℕ)
    → n < capacity
    → ((suc n < capacity) × (add_size n 1 % capacity ≡ suc n))
      ⊎ ((suc n ≡ capacity) × (add_size n 1 % capacity ≡ 0))
unfolding capacity
next_cases n h = elim (Bool-cases (ltb (suc n) capacity)) [
  | inl lt ↦ inl (ltb→lt (suc n) capacity lt, omega (arith, ltb→lt (suc n) capacity lt))
  | inr ge ↦ inr (end_of_ltb n h ge, omega (arith, end_of_ltb n h ge))
]

pub record-IsRing : (us : ℤ) (t : CadenceTracker) → IsRing t → IsRing (record_interval_us us t)
unfolding record_interval_us
record-IsRing us t r =
    ground (arith, length-set t.samples_us t.next us, next_cases t.next r.next_in, capacity_bounds)

-- In a ring whose indices are in range, a record pushes the interval behind the ring's places from
-- the oldest one on, and drops the oldest.
pub window-record :
    (us : ℤ) (t : CadenceTracker)
    → IsRing t
    → window (record_interval_us us t) ≡ drop 1 (window t) ++ us ∷ []
unfolding record_interval_us
window-record us t r =
    let place = rotate-set t.samples_us t.next us (omega arith) in
    elim (next_cases t.next r.next_in) [
      | inl (_, e) ↦ rw e place
      | inr (last, e) ↦ rw e (
          sym (
            rotate_end (set t.samples_us t.next us) (suc t.next)
              (omega (arith, length-set t.samples_us t.next us)))
          ∙ place)
    ]

-- The samples that are read are those of the window's end, in another order.
pub valid-perm :
    (t : CadenceTracker) → IsRing t → Perm (valid t) (drop (capacity - t.count) (window t))
valid-perm t r = elim r.filled [
  | inl full ↦
      rw (full, sub_self, take_all capacity t.samples_us (omega (arith, r.size)))
        (rotate-perm t.samples_us t.next)
  | inr part ↦
      rw (part, ← r.size, drop-rotate t.samples_us t.next) (Perm.refl (take t.next t.samples_us))
]
