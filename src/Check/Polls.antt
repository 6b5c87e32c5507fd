-- ===== src/Check/Polls.antt =====
-- The polling loop: it ends, and with the first answer.
use pi5_system_surrogate.Prelude.{
  ℕ, zero, suc, ◌+◌, ◌*◌, ◌≤◌, ◌<◌, ◌≡◌, sym, ap, ◌∙◌, ◌⊎◌, inl, inr, Bool, false, leb, ◌==◌,
  ==_iff, subst, Option, none, some, Option-cases, Bool-cases, arith,
}
use pi5_system_surrogate.Check.{poll_from, poll_ms, timeout_ms}

-- The first answer comes at a poll from `i` on that is made within the timeout.
pub record FirstAnswer (answer : ℕ → Option Bool) (i : ℕ) (b : Bool) : Type 0 where
  pub at : ℕ
  pub from : i ≤ at
  pub in_time : at * poll_ms ≤ timeout_ms
  pub silent : (k : ℕ) → i ≤ k → k < at → answer k ≡ none
  pub says : answer at ≡ some b

-- The loop ends, and returns the first answer, or false if none comes in time.
pub data Polled (answer : ℕ → Option Bool) (i : ℕ) : Option Bool → Type 0 where
  answered : (b : Bool) → FirstAnswer answer i b → Polled answer i (some b)
  timed_out :
      ((k : ℕ) → i ≤ k → k * poll_ms ≤ timeout_ms → answer k ≡ none) → Polled answer i (some false)

-- What holds from the next poll on, and holds at this one.
from_here :
    (answer : ℕ → Option Bool) (i : ℕ)
    → answer i ≡ none
    → (k : ℕ) → i ≤ k
    → (suc i ≤ k → answer k ≡ none)
    → answer k ≡ none
from_here answer i e k lo later = elim (Bool-cases (i == k)) [
  | inl same ↦ subst (λ n. answer n ≡ none) ((==_iff i k).0 same) e
  | inr other ↦ later (ground arith)
]

none_not_some : {b : Bool} → none ≡ some b → ⊥
none_not_some e = cc

lt_cases : (a b : ℕ) → (a < b) ⊎ ((b < a) ⊎ (a ≡ b))
lt_cases a b = ground arith

later-FirstAnswer :
    (answer : ℕ → Option Bool) (i : ℕ) (b : Bool)
    → answer i ≡ none
    → FirstAnswer answer (suc i) b
    → FirstAnswer answer i b
later-FirstAnswer answer i b none_here f = record {
  at = f.at;
  from = omega (arith, f.from);
  in_time = f.in_time;
  silent = λ k lo hi. from_here answer i none_here k lo (λ above. f.silent k above hi);
  says = f.says;
}

later-Polled :
    (answer : ℕ → Option Bool) (i : ℕ) (o : Option Bool)
    → answer i ≡ none
    → Polled answer (suc i) o
    → Polled answer i o
later-Polled answer i _ e (answered b f) = answered b (later-FirstAnswer answer i b e f)
later-Polled answer i _ e (timed_out never) =
    timed_out (λ k lo hi. from_here answer i e k lo (λ above. never k above hi))

pub poll_from-Polled :
    (answer : ℕ → Option Bool) (fuel i waited : ℕ)
    → waited ≡ i * poll_ms
    → 102 ≤ i + fuel
    → i ≤ 101
    → Polled answer i (poll_from answer fuel i waited)
unfolding poll_from
poll_from-Polled answer zero i waited w enough_fuel small = absurd (omega arith)
poll_from-Polled answer (suc fuel) i waited w enough_fuel small =
    elim (Bool-cases (leb waited timeout_ms)) [
      | inr late ↦ rw late (timed_out (λ k lo hi. absurd (ground arith)))
      | inl in_time ↦ rw in_time (elim (Option-cases (answer i)) [
        | inl e ↦ rw e (
            later-Polled answer i _ e (
              poll_from-Polled answer fuel (suc i) (waited + poll_ms) (omega arith) (omega arith)
                (ground arith)))
        | inr (b, e) ↦ rw e (
            answered b (record {
              at = i;
              from = omega arith;
              in_time = ground arith;
              silent = λ k lo hi. absurd (omega arith);
              says = e;
            }))
      ])
    ]

-- There is one first answer, and the loop returns it.
pub FirstAnswer-unique :
    (answer : ℕ → Option Bool) (i : ℕ) (b : Bool) (o : Option Bool)
    → FirstAnswer answer i b
    → Polled answer i o
    → o ≡ some b
FirstAnswer-unique answer i b _ f (timed_out never) =
    absurd (none_not_some (sym (never f.at f.from f.in_time) ∙ f.says))
FirstAnswer-unique answer i b _ f (answered b' f') = elim (lt_cases f.at f'.at) [
  | inl below ↦ absurd (none_not_some (sym (f'.silent f.at f.from below) ∙ f.says))
  | inr (inl above) ↦ absurd (none_not_some (sym (f.silent f'.at f'.from above) ∙ f'.says))
  | inr (inr same) ↦ sym f'.says ∙ ap answer (sym same) ∙ f.says
]
