-- ===== src/Web/Forms.antt =====
-- What the forms and the health check can do.
use pi5_system_surrogate.Prelude.{
  ◌≤◌, ◌<◌, ◌≡◌, ◌≢◌, refl, ◌⊎◌, inl, inr, Bool, true, false, Bool-cases, List, [], ◌∷◌, length,
  drop, ◌+◌, Option-cases, arith,
}
use pi5_system_surrogate.Prelude.Int.{ℤ, pos, ◌≤ℤ◌, ltb_ℤ, leb_ℤ}
use pi5_system_surrogate.DaemonState.{DaemonState, set_enabled, set_e_stop, set_mode, set_alliance}
use pi5_system_surrogate.Match.{MatchController}
use pi5_system_surrogate.Match.Phases.{Call, starts, stops, skips, perform}
use pi5_system_surrogate.Cadence.{CadenceTracker, percentile_index, percentile_us, p99_us}
use pi5_system_surrogate.Cadence.Sort.{count_if, count_below}
use pi5_system_surrogate.Cadence.History.{recent, Tracks}
use pi5_system_surrogate.Cadence.Percentile.{percentile_us-rank}
use pi5_system_surrogate.Prelude.Text.{Text}
use pi5_system_surrogate.Web.{
  find, action_key, start_verb, stop_verb, skip_verb, same_text, up_to_ampersand, is_true,
  mode_from_form, enabled_key, estop_key, mode_key, alliance_key, act, handle_match, if_given,
  bounded, from_chars, extract, handle_set_control, healthz_status,
}

act-calls :
    (now : ℤ) (action : Text) (c : MatchController)
    → (act now action c ≡ c) ⊎ ((k : Call) × (act now action c ≡ perform k c))
unfolding act perform
act-calls now action c = elim (Bool-cases (same_text action start_verb)) [
  | inl e ↦ inr (starts now, rw e refl)
  | inr n ↦ elim (Bool-cases (same_text action stop_verb)) [
    | inl e ↦ inr (stops, rw (n, e) refl)
    | inr m ↦ elim (Bool-cases (same_text action skip_verb)) [
      | inl e ↦ inr (skips now, rw (n, m, e) refl)
      | inr o ↦ inl (rw (n, m, o) refl)
    ]
  ]
]

-- Whatever its body, the match form makes at most one call of the controller.
pub handle_match-calls :
    (now : ℤ) (body : Text) (c : MatchController)
    → (handle_match now body c ≡ c) ⊎ ((k : Call) × (handle_match now body c ≡ perform k c))
unfolding handle_match
handle_match-calls now body c = elim (Option-cases (find action_key body)) [
  | inl e ↦ rw (handle_match, e) (inl refl)
  | inr (place, e) ↦
      rw (handle_match, e) (act-calls now (up_to_ampersand (drop (place + 7) body)) c)
]

-- What the control form leaves alone, and the bounds of the alliance that it writes.
pub record Formed (s s' : DaemonState) : Type 0 where
  pub match_time : s'.match_time_s ≡ s.match_time_s
  pub alliance : (s'.alliance ≡ s.alliance) ⊎ ((pos 0 ≤ℤ s'.alliance) × (s'.alliance ≤ℤ pos 3))

bounded-in : (a : ℤ) → (pos 0 ≤ℤ bounded a) × (bounded a ≤ℤ pos 3)
unfolding bounded
bounded-in a = ground arith

-- Each of the four writes keeps the state formed.
Formed-enabled :
    (v : Text) (s s' : DaemonState)
    → Formed s s'
    → Formed s (if_given v (λ w. set_enabled (is_true w)) s')
unfolding set_enabled
Formed-enabled [] s s' k = k
Formed-enabled (b ∷ bs) s s' k = record { match_time = k.match_time; alliance = k.alliance }

Formed-e_stop :
    (v : Text) (s s' : DaemonState)
    → Formed s s'
    → Formed s (if_given v (λ w. set_e_stop (is_true w)) s')
unfolding set_e_stop
Formed-e_stop [] s s' k = k
Formed-e_stop (b ∷ bs) s s' k = record { match_time = k.match_time; alliance = k.alliance }

Formed-mode :
    (v : Text) (s s' : DaemonState)
    → Formed s s'
    → Formed s (if_given v (λ w. set_mode (mode_from_form (from_chars w))) s')
unfolding set_mode
Formed-mode [] s s' k = k
Formed-mode (b ∷ bs) s s' k = record { match_time = k.match_time; alliance = k.alliance }

Formed-alliance :
    (v : Text) (s s' : DaemonState)
    → Formed s s'
    → Formed s (if_given v (λ w. set_alliance (bounded (from_chars w))) s')
unfolding set_alliance
Formed-alliance [] s s' k = k
Formed-alliance (b ∷ bs) s s' k = record {
  match_time = k.match_time;
  alliance = inr (bounded-in (from_chars (b ∷ bs)));
}

-- Whatever its body, the control form leaves the match time alone, and the alliance as it was or
-- between 0 and 3.
pub handle_set_control-Formed :
    (body : Text) (s : DaemonState) → Formed s (handle_set_control body s)
unfolding handle_set_control
handle_set_control-Formed body s = Formed-alliance (extract alliance_key body) s _ (
    Formed-mode (extract mode_key body) s _ (
      Formed-e_stop (extract estop_key body) s _ (
        Formed-enabled (extract enabled_key body) s s
          (record { match_time = refl; alliance = inl refl }))))

-- What passes a test passes a weaker one.
count_if_mono :
    (p q : ℤ → Bool) (xs : List ℤ)
    → ((x : ℤ) → p x ≡ true → q x ≡ true)
    → count_if p xs ≤ count_if q xs
unfolding count_if
count_if_mono p q [] weaker = omega arith
count_if_mono p q (x ∷ xs) weaker = ground (arith, weaker x, count_if_mono p q xs weaker)

upto : (v x : ℤ) → ltb_ℤ v (pos 25000) ≡ true → leb_ℤ x v ≡ true → ltb_ℤ x (pos 25000) ≡ true
upto v x h e = ground arith

below : (v x : ℤ) → ltb_ℤ v (pos 25000) ≡ false → ltb_ℤ x (pos 25000) ≡ true → ltb_ℤ x v ≡ true
below v x h e = ground arith

-- In a tracker that is in step with its history, which is not empty, the health check answers 200
-- when more of the recent intervals than the index that the 99th percentile reads are shorter than
-- 25 milliseconds, and 503 when not.
pub healthz_status-rank :
    (h : List ℤ) (t : CadenceTracker)
    → Tracks h t
    → h ≢ []
    → let i = percentile_index 99 100 (length (recent h)) in
      ((healthz_status t ≡ 200) × (i < count_below (pos 25000) (recent h)))
      ⊎ ((healthz_status t ≡ 503) × (count_below (pos 25000) (recent h) ≤ i))
unfolding healthz_status p99_us
healthz_status-rank h t k ne =
    let v = (percentile_us 99 100 t).0 in
    let ranks = percentile_us-rank 99 100 h t k ne in
    elim (Bool-cases (ltb_ℤ v (pos 25000))) [
      | inl short ↦
          let more =
            count_if_mono (λ x. leb_ℤ x v) (λ x. ltb_ℤ x (pos 25000)) (recent h)
              (λ x e. upto v x short e) in
          inl (rw short refl, omega arith)
      | inr long ↦
          let fewer =
            count_if_mono (λ x. ltb_ℤ x (pos 25000)) (λ x. ltb_ℤ x v) (recent h)
              (λ x e. below v x long e) in
          inr (rw long refl, omega arith)
    ]
