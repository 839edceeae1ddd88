-- ===== src/Bits/Sum.antt =====
-- `|` of disjoint fields is a sum.
use Prim.Native.Nat.{bit_or-bitwise}
use native.Mathlib.Nat.{pow-suc}
use bbk9588_emulator.Bits.Step.{bit_or_digit}
use bbk9588_emulator.Base.{ℕ, zero, suc, ◌+◌, ◌*◌, ◌/◌, ◌^◌, ◌<◌, ◌≡◌, bit_or, arith, ap}

pub bit_or-field : (k r q : ℕ) → r < 2 ^ k → bit_or r (q * 2 ^ k) ≡ r + q * 2 ^ k
bit_or-field zero zero q h = omega (arith, bit_or-bitwise 0 (q * 1))
bit_or-field zero (suc r) q h = absurd (omega arith)
bit_or-field (suc k) r q h =
    let double : q * 2 ^ suc k ≡ 2 * (q * 2 ^ k) =
      omega (arith, ap (λ (t : ℕ). q * t) (pow-suc 2 k)) in
    ground (
      arith,
      double,
      bit_or_digit r (q * 2 ^ suc k),
      pow-suc 2 k,
      bit_or-field k (r / 2) q (omega (arith, pow-suc 2 k)),
    )
