-- ===== src/SmartIo/Wraps.antt =====
-- The conversion of a topic's 64-bit value to the channel's `int`.
use pi5_system_surrogate.Prelude.{
  ℕ, suc, ◌-◌, ◌*◌, ◌%◌, ◌^◌, ◌≡◌, ◌≢◌, refl, sym, ap, ◌∙◌, true, false, Bool-cases, inl, inr,
  arith,
}
use pi5_system_surrogate.Prelude.Int.{ℤ, pos, negsuc, ◌·ℤ◌, eqb_ℤ, eqb_ℤ→≡, to_int32}
use pi5_system_surrogate.Gpio.{Outcome, done, threw, ◌>>=◌, GpioBackend}
use pi5_system_surrogate.SmartIo.{digital_output, on_valset}
use pi5_system_surrogate.SmartIo.Bridge.{sentinel, ChannelGlue, is_news, dispatch_valset}

wraps : (n : ℤ) → to_int32 (n ·ℤ 2 ^ 32) ≡ pos 0
unfolding to_int32 ◌·ℤ◌
wraps (pos k) = ground (arith, whole k)
  where
    whole : (n : ℕ) → n * 4294967296 % 4294967296 ≡ 0
    whole n = omega arith
wraps (negsuc k) = ground (arith, below k)
  where
    below : (n : ℕ) → (suc n * 4294967296 - 1) % 4294967296 ≡ 4294967295
    below n = omega arith

-- A value that is not the one last seen, nor the sentinel.
fresh-news : (v last : ℤ) → v ≢ last → v ≢ sentinel → is_news v last ≡ true
fresh-news v last ne na = elim (Bool-cases (eqb_ℤ v last)) [
  | inl same ↦ absurd (ne (eqb_ℤ→≡ v last same))
  | inr other ↦ elim (Bool-cases (eqb_ℤ v sentinel)) [
    | inl same ↦ absurd (na (eqb_ℤ→≡ v sentinel same))
    | inr some_value ↦ ground arith
  ]
]

-- The sentinel is not a multiple of 2 ^ 32.
not_sentinel : (n : ℤ) → n ·ℤ 2 ^ 32 ≢ sentinel
unfolding to_int32
not_sentinel n e = clash (sym (wraps n) ∙ ap to_int32 e)
  where
    clash : pos 0 ≢ negsuc 9998
    clash = cc

fuse :
    {B A C D : Type 0} (m : Outcome B A) (f : A → Outcome B C) (h : C → Outcome B D)
    (k : A → Outcome B D)
    → ((a : A) → (f a >>= h) ≡ k a)
    → (m >>= f >>= h) ≡ (m >>= k)
fuse (done a) f h k e = e a
fuse (threw b) f h k e = refl

module _ {B : Type 0} (g : GpioBackend B) where
  -- A value that is a multiple of 2^32, below, at or above zero, and was not the last one seen,
  -- drives an output low and is remembered as seen.
  pub dispatch_valset-wraps :
      (n : ℤ) (e : ChannelGlue) (s : B)
      → e.channel.mode ≡ digital_output
      → e.last_valset ≢ n ·ℤ 2 ^ 32
      → dispatch_valset g (n ·ℤ 2 ^ 32) e s ≡ (
          g.set_value e.channel.gpio false s >>= λ s'. done (
            record e {
              channel = record e.channel { last_output = false };
              last_valset = n ·ℤ 2 ^ 32;
            },
            s',
          ))
  unfolding dispatch_valset on_valset
  dispatch_valset-wraps n e s out ne =
      rw (fresh-news (n ·ℤ 2 ^ 32) e.last_valset (λ q. ne (sym q)) (not_sentinel n), wraps n, out)
        (fuse (g.set_value e.channel.gpio false s) _ _ _ (λ _. refl))
