-- ===== src/Bits/Flags.antt =====
-- Flags of a register: the tests of C with a mask, and what the usual updates do to them.
use bbk9588_emulator.Base.{
  ℕ, ◌^◌, ◌≡◌, arith, bit_and, bit_or, Bool, true, false, not, ◌&&◌, ◌||◌, ◌==◌,
}
use bbk9588_emulator.Bits.Laws.{test_bit, test_bit-bit_and, test_bit-bit_or, bit_and-bit}

-- `(a & m) != 0`
abbrev pub has : ℕ → ℕ → Bool
has a m = not (bit_and a m == 0)

pub has-bit_or : (k a m : ℕ) → has (bit_or a m) (2 ^ k) ≡ (has a (2 ^ k) || test_bit m k)
has-bit_or k a m =
    ground (arith, bit_and-bit k (bit_or a m), bit_and-bit k a, test_bit-bit_or a m k)

pub has-bit_and : (k a m : ℕ) → has (bit_and a m) (2 ^ k) ≡ (has a (2 ^ k) && test_bit m k)
has-bit_and k a m =
    ground (arith, bit_and-bit k (bit_and a m), bit_and-bit k a, test_bit-bit_and a m k)

pub has_set : (k a m : ℕ) → test_bit m k ≡ true → has (bit_or a m) (2 ^ k) ≡ true
has_set k a m h = ground (arith, has-bit_or k a m)

pub has_cleared : (k a m : ℕ) → test_bit m k ≡ false → has (bit_and a m) (2 ^ k) ≡ false
has_cleared k a m h = ground (arith, has-bit_and k a m)
