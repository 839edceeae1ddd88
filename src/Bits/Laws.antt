-- ===== src/Bits/Laws.antt =====
-- The bits of a word: what each operation does to bit `i`, and words with the same bits.
use bbk9588_emulator.Bits.Step.{bit_and_digit, bit_or_digit, bit_xor_digit}
use bbk9588_emulator.Base.{
  ℕ, zero, suc, ◌+◌, ◌-◌, ◌*◌, ◌/◌, ◌%◌, ◌^◌, ◌≤◌, ◌<◌, ◌≡◌, refl, inl, inr, Bool-cases, ◌≢◌, ==→eq,
  bit_and, bit_or, bit_xor, arith, Bool, true, false, not, ◌&&◌, ◌||◌, ◌==◌, ltb, leb, ◌∙◌, ap, sym,
}
use mathlib.Core.Bool.{xor}
use Prim.Native.Nat.{bit_and-bitwise}
use native.Mathlib.Nat.{
  pow-suc, one-le-pow, div-div-eq-div-mul, mod-add-div', div-one, mod-one, zero-add, suc-add,
  mul-one, sub-zero, suc-sub-suc,
}

-- bit `i` of `n`, as `(n >> i) & 1`
abbrev pub test_bit : ℕ → ℕ → Bool
test_bit n zero = n % 2 == 1
test_bit n (suc i) = test_bit (n / 2) i

bit_and_half : (a b : ℕ) → bit_and a b / 2 ≡ bit_and (a / 2) (b / 2)
bit_and_half a b = omega (arith, bit_and_digit a b)

bit_or_half : (a b : ℕ) → bit_or a b / 2 ≡ bit_or (a / 2) (b / 2)
bit_or_half a b = omega (arith, bit_or_digit a b)

bit_xor_half : (a b : ℕ) → bit_xor a b / 2 ≡ bit_xor (a / 2) (b / 2)
bit_xor_half a b = omega (arith, bit_xor_digit a b)

pub test_bit-bit_and : (a b i : ℕ) → test_bit (bit_and a b) i ≡ (test_bit a i && test_bit b i)
test_bit-bit_and a b zero = ground (arith, bit_and_digit a b)
test_bit-bit_and a b (suc i) = rw bit_and_half (test_bit-bit_and (a / 2) (b / 2) i)

pub test_bit-bit_or : (a b i : ℕ) → test_bit (bit_or a b) i ≡ (test_bit a i || test_bit b i)
test_bit-bit_or a b zero = ground (arith, bit_or_digit a b)
test_bit-bit_or a b (suc i) = rw bit_or_half (test_bit-bit_or (a / 2) (b / 2) i)

pub test_bit-bit_xor : (a b i : ℕ) → test_bit (bit_xor a b) i ≡ xor (test_bit a i) (test_bit b i)
unfolding xor
test_bit-bit_xor a b zero = ground (arith, bit_xor_digit a b)
test_bit-bit_xor a b (suc i) = rw bit_xor_half (test_bit-bit_xor (a / 2) (b / 2) i)

pub test_bit-zero : (i : ℕ) → test_bit 0 i ≡ false
test_bit-zero zero = refl
test_bit-zero (suc i) = test_bit-zero i

-- a word of `w` bits
pub ext :
    (w a b : ℕ) → a < 2 ^ w → b < 2 ^ w → ((i : ℕ) → i < w → test_bit a i ≡ test_bit b i) → a ≡ b
ext zero a b p q h = omega arith
ext (suc w) a b p q h =
    let halves : a / 2 ≡ b / 2 =
      ext w (a / 2) (b / 2) (omega (arith, pow-suc 2 w)) (omega (arith, pow-suc 2 w))
        (λ i l. h (suc i) (omega arith)) in
    ground (arith, h 0 (omega arith))

pub bit_and-le : (w a b : ℕ) → a < 2 ^ w → (bit_and a b ≤ a) × (bit_and a b ≤ b)
bit_and-le zero zero b p = omega (arith, bit_and-bitwise 0 b)
bit_and-le zero (suc a) b p = absurd (omega arith)
bit_and-le (suc w) a b p =
    omega (arith, pow-suc 2 w, bit_and_digit a b, bit_and-le w (a / 2) (b / 2))

pub bit_or-lt : (w a b : ℕ) → a < 2 ^ w → b < 2 ^ w → bit_or a b < 2 ^ w
bit_or-lt zero zero zero p q = omega arith
bit_or-lt zero zero (suc b) p q = absurd (omega arith)
bit_or-lt zero (suc a) b p q = absurd (omega arith)
bit_or-lt (suc w) a b p q =
    omega (arith, pow-suc 2 w, bit_or_digit a b, bit_or-lt w (a / 2) (b / 2))

pub bit_xor-lt : (w a b : ℕ) → a < 2 ^ w → b < 2 ^ w → bit_xor a b < 2 ^ w
bit_xor-lt zero zero zero p q = omega arith
bit_xor-lt zero zero (suc b) p q = absurd (omega arith)
bit_xor-lt zero (suc a) b p q = absurd (omega arith)
bit_xor-lt (suc w) a b p q =
    omega (arith, pow-suc 2 w, bit_xor_digit a b, bit_xor-lt w (a / 2) (b / 2))

-- `1u << k`
pub test_bit-pow : (k i : ℕ) → test_bit (2 ^ k) i ≡ (k == i)
test_bit-pow zero zero = refl
test_bit-pow zero (suc i) = test_bit-zero i ∙ ground arith
test_bit-pow (suc k) zero = ground (arith, pow-suc 2 k)
test_bit-pow (suc k) (suc i) =
    let half : 2 ^ suc k / 2 ≡ 2 ^ k = omega (arith, pow-suc 2 k) in
    rw half (test_bit-pow k i ∙ ground arith)

-- Half of a power of two apart from the number that it divides or bounds.
mod_halves : (w a : ℕ) → (a % 2 ^ suc w / 2 ≡ a / 2 % 2 ^ w) × (a % 2 ^ suc w % 2 ≡ a % 2)
mod_halves w a =
    let double : 2 ^ suc w ≡ 2 * 2 ^ w = omega (arith, pow-suc 2 w) in
    rw double (
      omega (
        arith,
        ap (λ (t : ℕ). t * 2 ^ w) (div-div-eq-div-mul a 2 (2 ^ w)),
        mod-add-div' a (2 * 2 ^ w),
        mod-add-div' (a / 2) (2 ^ w),
      ))

div_halves : (k a : ℕ) → a / 2 ^ suc k ≡ a / 2 / 2 ^ k
div_halves k a =
    let double : 2 ^ suc k ≡ 2 * 2 ^ k = omega (arith, pow-suc 2 k) in
    rw double (sym (div-div-eq-div-mul a 2 (2 ^ k)))

-- `a >> k`
pub test_bit-shr : (k a i : ℕ) → test_bit (a / 2 ^ k) i ≡ test_bit a (k + i)
test_bit-shr zero a i = rw (div-one, zero-add)
test_bit-shr (suc k) a i = rw (div_halves, suc-add) (test_bit-shr k (a / 2) i)

-- the low `w` bits
pub test_bit-mod : (w a i : ℕ) → test_bit (a % 2 ^ w) i ≡ (ltb i w && test_bit a i)
test_bit-mod zero a i = rw mod-one (test_bit-zero i ∙ ground arith)
test_bit-mod (suc w) a zero = ground (arith, mod_halves w a)
test_bit-mod (suc w) a (suc i) = rw ((mod_halves w a).0) (test_bit-mod w (a / 2) i ∙ ground arith)

-- `a << k`
pub test_bit-shl : (k a i : ℕ) → test_bit (a * 2 ^ k) i ≡ (leb k i && test_bit a (i - k))
test_bit-shl zero a i = rw (mul-one, sub-zero) (ground arith)
test_bit-shl (suc k) a zero = ground (arith, pow-suc 2 k, ap (λ (t : ℕ). a * t) (pow-suc 2 k))
test_bit-shl (suc k) a (suc i) =
    let half : a * 2 ^ suc k / 2 ≡ a * 2 ^ k =
      omega (arith, pow-suc 2 k, ap (λ (t : ℕ). a * t) (pow-suc 2 k)) in
    rw half (test_bit-shl k a i ∙ rw suc-sub-suc (ground arith))

-- `~m` on 32 bits
abbrev pub not32 : ℕ → ℕ
not32 m = bit_xor m 0xffffffff

-- `(1u << w) - 1`
pub test_bit-ones : (w i : ℕ) → test_bit (2 ^ w - 1) i ≡ ltb i w
test_bit-ones zero i = test_bit-zero i ∙ ground arith
test_bit-ones (suc w) zero = ground (arith, pow-suc 2 w, one-le-pow w 2)
test_bit-ones (suc w) (suc i) =
    let half : (2 ^ suc w - 1) / 2 ≡ 2 ^ w - 1 = omega (arith, pow-suc 2 w, one-le-pow w 2) in
    rw half (test_bit-ones w i ∙ ground arith)

pub test_bit-not32 : (m i : ℕ) → i < 32 → test_bit (not32 m) i ≡ not (test_bit m i)
unfolding xor
test_bit-not32 m i h = ground (arith, test_bit-bit_xor m 0xffffffff i, test_bit-ones 32 i)

-- A word is zero exactly when it has no bit.
pub no_bit : (w a : ℕ) → a < 2 ^ w → ((i : ℕ) → i < w → test_bit a i ≡ false) → a ≡ 0
no_bit w a h f = ext w a 0 h (omega (arith, one-le-pow w 2)) (λ i p. f i p ∙ sym (test_bit-zero i))

-- A word that is not zero has a bit.
pub some_bit : (w a : ℕ) → a < 2 ^ w → a ≢ 0 → (i : ℕ) × (i < w) × (test_bit a i ≡ true)
some_bit zero a h n = absurd (n (omega arith))
some_bit (suc w) a h n = elim (Bool-cases (a % 2 == 1)) [
  | inl e ↦ (0, omega arith, e)
  | inr e ↦
      let (i, p, q) = some_bit w (a / 2) (omega (arith, pow-suc 2 w)) (ground arith) in
      (suc i, omega arith, q)
]

-- `1u << k` is a word.
pub pow-lt : (w k : ℕ) → k < w → 2 ^ k < 2 ^ w
pow-lt zero k h = absurd (omega arith)
pow-lt (suc w) zero h = omega (arith, pow-suc 2 w, one-le-pow w 2)
pow-lt (suc w) (suc k) h = omega (arith, pow-suc 2 w, pow-suc 2 k, pow-lt w k)

-- `a & (1u << k)` as a test
pub bit_and-pow : (w a k : ℕ) → a < 2 ^ w → (bit_and a (2 ^ k) == 0) ≡ not (test_bit a k)
bit_and-pow w a k h = elim (Bool-cases (bit_and a (2 ^ k) == 0)) [
  | inl e ↦
      let bit : test_bit (bit_and a (2 ^ k)) k ≡ false = rw (==→eq _ 0 e) (test_bit-zero k) in
      ground (arith, bit, test_bit-bit_and a (2 ^ k) k, test_bit-pow k k)
  | inr e ↦
      let (i, p, q) =
        some_bit w (bit_and a (2 ^ k)) (omega (arith, bit_and-le w a (2 ^ k))) (ground arith) in
      let k_is_i : k ≡ i = ground (arith, test_bit-bit_and a (2 ^ k) i, test_bit-pow k i) in
      rw (e, k_is_i) (ground (arith, test_bit-bit_and a (2 ^ k) i))
]

bit_and-none : (fuel a : ℕ) → a ≤ fuel → bit_and a 0 ≡ 0
bit_and-none zero zero h = omega (arith, bit_and-bitwise 0 0)
bit_and-none zero (suc a) h = absurd (omega arith)
bit_and-none (suc fuel) zero h = omega (arith, bit_and-bitwise 0 0)
bit_and-none (suc fuel) (suc a) h =
    omega (arith, bit_and_digit (suc a) 0, bit_and-none fuel (suc a / 2) (omega arith))

-- `a & ((1u << w) - 1)`
pub bit_and-ones : (w a : ℕ) → bit_and a (2 ^ w - 1) ≡ a % 2 ^ w
bit_and-ones zero a = bit_and-none a a (omega arith) ∙ omega arith
bit_and-ones (suc w) a =
    let half : (2 ^ suc w - 1) / 2 ≡ 2 ^ w - 1 = omega (arith, pow-suc 2 w, one-le-pow w 2) in
    let odd : (2 ^ suc w - 1) % 2 ≡ 1 = omega (arith, pow-suc 2 w, one-le-pow w 2) in
    bit_and_digit a (2 ^ suc w - 1)
    ∙ rw (half, odd, bit_and-ones w (a / 2)) (omega (arith, mod_halves w a))

-- `a & (1u << k)` as a test, for a word of any width
pub bit_and-bit : (k a : ℕ) → (bit_and a (2 ^ k) == 0) ≡ not (test_bit a k)
bit_and-bit zero a = ground (arith, bit_and-ones 1 a)
bit_and-bit (suc k) a =
    ground (arith, bit_and_digit a (2 ^ suc k), pow-suc 2 k, bit_and-bit k (a / 2))

pub bit_and-le_right : (w a b : ℕ) → b < 2 ^ w → bit_and a b ≤ b
bit_and-le_right zero a zero h = omega (arith, bit_and-none a a (omega arith))
bit_and-le_right zero a (suc b) h = absurd (omega arith)
bit_and-le_right (suc w) a b h = omega (
  arith,
  bit_and_digit a b,
  pow-suc 2 w,
  bit_and-le_right w (a / 2) (b / 2) (omega (arith, pow-suc 2 w)),
)

-- A word that meets a mask meets every mask that covers it.
pub bit_and-covered :
    (a m n : ℕ)
    → m < 2 ^ 32
    → bit_and m n ≡ m
    → (bit_and a m == 0) ≡ false
    → (bit_and a n == 0) ≡ false
bit_and-covered a m n h covered met = elim (Bool-cases (bit_and a n == 0)) [
  | inl none ↦
      let (i, p, q) =
        some_bit 32 (bit_and a m) (omega (arith, bit_and-le_right 32 a m h)) (ground arith) in
      let clear : test_bit (bit_and a n) i ≡ false = rw (==→eq _ 0 none) (test_bit-zero i) in
      let inside : test_bit (bit_and m n) i ≡ test_bit m i = ap (λ (t : ℕ). test_bit t i) covered in
      absurd (
        ground (
          arith,
          clear,
          inside,
          q,
          test_bit-bit_and a m i,
          test_bit-bit_and a n i,
          test_bit-bit_and m n i,
        ))
  | inr met' ↦ met'
]
