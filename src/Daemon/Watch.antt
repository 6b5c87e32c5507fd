-- ===== src/Daemon/Watch.antt =====
-- The messages that feed systemd's watchdog.
use mathlib.Core.List.{append-nil, append_assoc}
use pi5_system_surrogate.Prelude.{
  ℕ, suc, ◌+◌, ◌-◌, ◌*◌, ◌/◌, ◌≤◌, ◌<◌, ◌≡◌, sym, ap, ◌∙◌, Bool-cases, inl, inr, refl, Bool, true,
  false, none, some, if◌then◌else◌, leb, leb→le, List, [], ◌∷◌, ◌++◌, arith, replicate,
}
use pi5_system_surrogate.Runtime.{watchdog, notify}
use pi5_system_surrogate.Threads.{Process, Event, sent, emit}
use pi5_system_surrogate.Daemon.{second, is_due, Signal, Pass, Surroundings, arrive, idle}

-- How many times the loop feeds the watchdog.
unfoldable pub feeds : List ℕ → ℕ → ℕ
unfolding is_due
feeds [] next = 0
feeds (now ∷ later) next =
    let due = is_due now next in
    let n = feeds later (if due then next + second else next) in if due then suc n else n

-- The clock at the last pass.
abbrev pub last_pass : ℕ → List ℕ → ℕ
last_pass t [] = t
last_pass t (now ∷ later) = last_pass now later

-- Passes from the time `t` that come at most a second apart, on a clock that never goes back.
pub data Steady : ℕ → List ℕ → Type 0 where
  steady_end : {t : ℕ} → Steady t []
  steady_pass :
      {t now : ℕ} {later : List ℕ}
      → t ≤ now
      → now ≤ t + second
      → Steady now later
      → Steady t (now ∷ later)

early_pass : (next now : ℕ) → leb next now ≡ false → now < next
early_pass next now h = ground arith

-- The next deadline is the end of the second of the run that `t` lies in, the `k`-th.
feeds-from :
    (began k next t : ℕ) (passes : List ℕ)
    → next ≡ began + suc k * second
    → began + k * second ≤ t
    → t < next
    → Steady t passes
    → k + feeds passes next ≡ (last_pass t passes - began) / second
unfolding feeds is_due
feeds-from began k next t [] e low high steady_end = omega arith
feeds-from began k next t (now ∷ later) e low high (steady_pass a b rest) =
    elim (Bool-cases (leb next now)) [
      | inl due ↦
          let reached = leb→le next now due in
          rw (feeds, due)
            (omega (
              arith,
              feeds-from began (suc k) (next + second) now later (omega arith) (omega arith)
                  (omega arith) rest,
            ))
      | inr early ↦
          rw (feeds, early)
            (feeds-from began k next now later e (omega arith) (early_pass next now early) rest)
    ]

feeds-seconds :
    (began : ℕ) (passes : List ℕ)
    → Steady began passes
    → feeds passes (began + second) ≡ (last_pass began passes - began) / second
feeds-seconds began passes steady = omega (
  arith,
  feeds-from began 0 (began + second) began passes (omega arith) (omega arith) (omega arith) steady,
)

emit-emit : (xs ys : List Event) (p : Process) → emit ys (emit xs p) ≡ emit (xs ++ ys) p
unfolding emit
emit-emit xs ys p = ap (λ l. record p { log = l }) (append_assoc p.log xs ys)

emit-nil : (p : Process) → emit [] p ≡ p
unfolding emit
emit-nil p = ap (λ l. record p { log = l }) (append-nil p.log)

-- Passes that no signal comes before, and their times.
abbrev pub Calm : List Pass → Type 0
Calm [] = Unit
Calm (pass ∷ later) = (pass.signals ≡ []) × Calm later

abbrev pub times : List Pass → List ℕ
times [] = []
times (pass ∷ later) = pass.now ∷ times later

arrive-true : (signals : List Signal) → arrive signals true ≡ true
arrive-true [] = refl
arrive-true (signo ∷ more) = arrive-true more

some-inj : {p q : Process} → some p ≡ some q → p ≡ q
some-inj e = cc

-- The messages of a count, and the process with them.
abbrev pub fed : Surroundings → ℕ → List Event
fed around n = replicate n (sent (notify around.socket around.opened watchdog))

module _ (around : Surroundings) where
  -- Without a signal the loop goes on.
  pub idle-runs :
      (passes : List Pass) (next : ℕ) (p : Process)
      → Calm passes
      → idle around passes false next p ≡ none
  unfolding idle
  idle-runs [] next p calm = refl
  idle-runs (pass ∷ later) next p (quiet, calm) = rw quiet (idle-runs later _ _ calm)

  -- The loop does nothing else, and the first pass that a signal comes before is its last.
  pub idle-feeds :
      (passes : List Pass) (last : Pass) (signo : Signal) (more : List Signal) (later : List Pass)
      (next : ℕ) (p : Process)
      → Calm passes
      → last.signals ≡ signo ∷ more
      → idle around (passes ++ last ∷ later) false next p
        ≡ some (emit (fed around (feeds (times passes) next)) p)
  unfolding idle feeds is_due
  idle-feeds [] last signo more later next p calm e =
      rw (e, arrive-true more) (ap some (sym (emit-nil p)))
  idle-feeds (pass ∷ passes) last signo more later next p (quiet, calm) e =
      let message = sent (notify around.socket around.opened watchdog) in
      elim (Bool-cases (leb next pass.now)) [
        | inl due ↦
            rw (quiet, due)
              (idle-feeds passes last signo more later (next + second) (emit (message ∷ []) p) calm
                  e
                ∙ ap some (
                    emit-emit (message ∷ [])
                      (replicate (feeds (times passes) (next + second)) message) p))
        | inr early ↦ rw (quiet, early) (idle-feeds passes last signo more later next p calm e)
      ]

  -- If it ends at all, it has done nothing but feed the watchdog.
  pub idle-some :
      (passes : List Pass) (stop : Bool) (next : ℕ) (p q : Process)
      → idle around passes stop next p ≡ some q
      → (n : ℕ) × (emit (fed around n) p ≡ q)
  unfolding idle is_due
  idle-some [] stop next p q e = absurd (ground arith)
  idle-some (pass ∷ later) stop next p q e =
      let message = sent (notify around.socket around.opened watchdog) in
      elim (Bool-cases (arrive pass.signals stop)) [
        | inl stops ↦ (0, emit-nil p ∙ some-inj (rw stops at e))
        | inr runs ↦ elim (Bool-cases (leb next pass.now)) [
          | inl due ↦
              let (n, same) =
                idle-some later false (next + second) (emit (message ∷ []) p) q
                  (rw (runs, due) at e) in
              (suc n, sym (emit-emit (message ∷ []) (fed around n) p) ∙ same)
          | inr early ↦ idle-some later false next p q (rw (runs, early) at e)
        ]
      ]

  -- If the passes of the main loop before the first that a signal comes before are at most a second
  -- apart, on a clock that does not go back, the loop ends with that pass, has sent systemd one
  -- message of life for each whole second up to the last of them, and has done nothing else.
  pub idle-seconds :
      (began : ℕ) (passes : List Pass) (last : Pass) (signo : Signal) (more : List Signal)
      (later : List Pass) (p : Process)
      → Calm passes
      → Steady began (times passes)
      → last.signals ≡ signo ∷ more
      → idle around (passes ++ last ∷ later) false (began + second) p
        ≡ some (emit (fed around ((last_pass began (times passes) - began) / second)) p)
  idle-seconds began passes last signo more later p calm steady e =
      idle-feeds passes last signo more later (began + second) p calm e
      ∙ ap (λ n. some (emit (fed around n) p)) (feeds-seconds began (times passes) steady)
