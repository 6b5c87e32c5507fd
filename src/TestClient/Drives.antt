-- ===== src/TestClient/Drives.antt =====
-- From the client's arguments to the line of a channel.
use pi5_system_surrogate.Prelude.{
  ℕ, zero, suc, ◌^◌, ◌<◌, ◌≡◌, ◌≢◌, sym, ap, ap₂, ◌∙◌, subst, ◌⊎◌, inl, inr, Bool-cases, ltb, leb,
  ltb→lt, leb→le, ◌==◌, Option, some, List, [], ◌∷◌, ◌++◌, arith,
}
use pi5_system_surrogate.Prelude.Int.{ℤ, pos, negsuc, to_int32, to_int32_fits}
use pi5_system_surrogate.Prelude.Text.{Text}
use pi5_system_surrogate.Gpio.{done, GpioBackend, LineUse, IsFaithful}
use pi5_system_surrogate.SmartIo.{requested_mode, is_high}
use pi5_system_surrogate.SmartIo.Sync.{use_of}
use pi5_system_surrogate.SmartIo.Bridge.{sentinel, ChannelGlue, Topics, tick}
use pi5_system_surrogate.SmartIo.Ticks.{Ready, Answers, AllAnswer, answers_cons, tick-Ticked}
use pi5_system_surrogate.Web.{from_chars, negated, digits_value}
use pi5_system_surrogate.TestClient.{Sent, run_client}

negsuc_fits : (n : ℕ) → n < 2 ^ 31 → to_int32 (negsuc n) ≡ negsuc n
unfolding to_int32
negsuc_fits n h = ground arith

negated_fits : (n : ℕ) → to_int32 (negated n) ≡ negated n
negated_fits zero = to_int32_fits 0 (omega arith)
negated_fits (suc n) = elim (Bool-cases (leb (suc n) (2 ^ 31))) [
  | inl small ↦ rw small (negsuc_fits n (omega (arith, leb→le (suc n) (2 ^ 31) small)))
  | inr large ↦ rw large (to_int32_fits 0 (omega arith))
]

from_chars-fits : (t : Text) → to_int32 (from_chars t) ≡ from_chars t
unfolding from_chars
from_chars-fits [] = to_int32_fits 0 (omega arith)
from_chars-fits (b ∷ bs) = elim (Bool-cases (b == b'-')) [
  | inl minus ↦ rw minus (negated_fits (digits_value 0 bs))
  | inr plain ↦ elim (Bool-cases (ltb (digits_value 0 (b ∷ bs)) (2 ^ 31))) [
    | inl small ↦ rw (plain, small) (to_int32_fits _ (ltb→lt _ _ small))
    | inr large ↦ rw (plain, large) (to_int32_fits 0 (omega arith))
  ]
]

asked-eq : {a b : Sent} → ◌≡◌ {A = ℕ × Option Sent} (0, some a) (0, some b) → a ≡ b
asked-eq e = cc

-- What an `int` is read from keeps its value in 32 bits.
read-fits : (t : Text) (a : ℤ) → from_chars t ≡ a → to_int32 a ≡ a
read-fits t a e = subst (λ x. to_int32 x ≡ x) e (from_chars-fits t)

-- The topics hold what the client set.
abbrev pub Holds : Topics → Sent → Type 0
Holds topics s =
    (ch : ℕ) → s.channel ≡ pos ch → (topics.type_of ch ≡ s.type) × (topics.valset_of ch ≡ s.valset)

module _ {B : Type 0} (g : GpioBackend B) (view : B → ℕ → LineUse) (ok : IsFaithful g view) where
  answer-mid :
      (topics : Topics) (s' : B) (before : List ChannelGlue) (e : ChannelGlue)
      (after es' : List ChannelGlue)
      → AllAnswer g view ok topics s' (before ++ e ∷ after) es'
      → (e' : ChannelGlue) × Answers g view ok topics s' e e'
  answer-mid topics s' [] e after _ (answers_cons {e' = e'} a more) = (e', a)
  answer-mid topics s' (x ∷ before) e after _ (answers_cons {es' = es'} a more) =
      answer-mid topics s' before e after es' more

  abbrev resolved : {P Q : Type 0} → (P → ⊥) → P ⊎ Q → Q
  resolved never (inl p) = absurd (never p)
  resolved never (inr q) = q

  -- On a backend that keeps its contract, once the test client has run with a channel, a type and a
  -- value that are not the sentinel, a tick of the bridge that finds them on the topics of that
  -- channel, and whose calls on the lines all return, leaves the channel's line used as the type
  -- asks, an output driven high exactly for a value other than zero; the channels are on different
  -- lines and agree with their lines and the values last seen before it.
  pub client-drives :
      (name ch type val : Text) (rest : List Text) (asked : Sent) (topics : Topics)
      (before : List ChannelGlue) (e : ChannelGlue) (after : List ChannelGlue) (s : B)
      (es' : List ChannelGlue) (s' : B) (published : List (ℕ × ℤ))
      → run_client (name ∷ ch ∷ type ∷ val ∷ rest) ≡ (0, some asked)
      → asked.channel ≡ pos e.channel.channel
      → asked.type ≢ sentinel
      → asked.valset ≢ sentinel
      → Holds topics asked
      → Ready g view ok s (before ++ e ∷ after)
      → tick g topics (before ++ e ∷ after) s ≡ done (es', s', published)
      → view s' e.channel.gpio ≡ use_of (requested_mode asked.type) (is_high asked.valset)
  unfolding run_client
  client-drives name ch type val rest asked topics before e after s es' s' published ran to t v
        holds ready q =
      let ticked = tick-Ticked g view ok topics (before ++ e ∷ after) s es' s' published ready q in
      let (e', a) = answer-mid topics s' before e after es' ticked.answers in
      let (ht, hv) = holds e.channel.channel to in
      let eq = asked-eq ran in
      let fits_type = read-fits type asked.type (ap (λ (x : Sent). x.type) eq) in
      let fits_value = read-fits val asked.valset (ap (λ (x : Sent). x.valset) eq) in
      let mode =
        resolved (λ p. t (sym ht ∙ p)) a.mode
        ∙ ap (λ x. requested_mode (to_int32 x)) ht
        ∙ ap requested_mode fits_type in
      let value =
        resolved (λ p. v (sym hv ∙ p)) a.value
        ∙ ap (λ x. is_high (to_int32 x)) hv
        ∙ ap is_high fits_value in
      ap (λ n. view s' n) (sym a.gpio) ∙ a.in_sync ∙ ap₂ use_of mode value
