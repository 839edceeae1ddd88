-- ===== src/Ecc/Symbols.antt =====
-- The symbols of a block as nine-bit pieces of its bits, and the correction of a symbol.
use native.Mathlib.Nat.{mod-eq_of_lt}
use bbk9588_emulator.Base.{
  ℕ, ◌+◌, ◌*◌, ◌/◌, ◌%◌, ◌^◌, ◌-◌, ◌≤◌, ◌<◌, ◌≡◌, refl, arith, bit_and, bit_or, Bool, true, false,
  ◌&&◌, ltb, if◌then◌else◌, Bool-cases, inl, inr, ◌∙◌, ap, sym,
}
use bbk9588_emulator.Bits.{
  test_bit, bit_and-ones, test_bit-mod, test_bit-shr, test_bit-shl, test_bit-bit_or,
}
use bbk9588_emulator.Ecc.{nn, block_bytes, data_symbol}

-- the bit of a block, counted from the first bit of its first byte
abbrev pub stream : (ℕ → ℕ) → ℕ → Bool
stream block p = test_bit (block (p / 8)) (p % 8)

-- an array of uint8_t
abbrev pub IsBytes : (ℕ → ℕ) → Type 0
IsBytes block = (i : ℕ) → block i < 2 ^ 8

high_bit : (w a i : ℕ) → a < 2 ^ w → w ≤ i → test_bit a i ≡ false
high_bit w a i h k =
    let same : a % 2 ^ w ≡ a = mod-eq_of_lt h in
    sym (ap (λ (n : ℕ). test_bit n i) same) ∙ test_bit-mod w a i ∙ ground arith

masked : (a k : ℕ) → k < 9 → test_bit (bit_and a nn) k ≡ test_bit a k
masked a k h = ap (λ (n : ℕ). test_bit n k) (bit_and-ones 9 a) ∙ test_bit-mod 9 a k ∙ ground arith

at_place :
    (block : ℕ → ℕ) (p q j : ℕ) → p / 8 ≡ q → p % 8 ≡ j → stream block p ≡ test_bit (block q) j
at_place block p q j e f =
    ap (λ (n : ℕ). test_bit (block n) (p % 8)) e ∙ ap (λ (n : ℕ). test_bit (block q) n) f

-- the two bytes that hold a symbol, joined
joined : (low high sh : ℕ) → ℕ
joined low high sh = bit_or (low / 2 ^ sh) (high * 2 ^ (8 - sh)) % 2 ^ 16

test_bit-joined :
    (low high sh k : ℕ)
    → low < 2 ^ 8
    → sh < 8
    → k < 9
    → test_bit (joined low high sh) k
      ≡ (if ltb (sh + k) 8 then test_bit low (sh + k) else test_bit high (sh + k - 8))
unfolding joined
test_bit-joined low high sh k h p q =
    let at : sh + k - 8 ≡ k - (8 - sh) = omega arith in
    let high_at = ap (λ (n : ℕ). test_bit high n) at in
    let cut = test_bit-mod 16 (bit_or (low / 2 ^ sh) (high * 2 ^ (8 - sh))) k in
    let both = test_bit-bit_or (low / 2 ^ sh) (high * 2 ^ (8 - sh)) k in
    let l = test_bit-shr sh low k in
    let r = test_bit-shl (8 - sh) high k in
    elim (Bool-cases (ltb (sh + k) 8)) [
      | inl first ↦ rw first (ground (arith, cut, both, l, r))
      | inr second ↦ rw second (ground (arith, cut, both, l, r, high_at, high_bit 8 low (sh + k) h))
    ]

stream_at :
    (block : ℕ → ℕ) (i k : ℕ)
    → k < 9
    → stream block (i * 9 + k) ≡ (
        if ltb (i * 9 % 8 + k) 8
        then test_bit (block (i * 9 / 8)) (i * 9 % 8 + k)
        else test_bit (block (i * 9 / 8 + 1)) (i * 9 % 8 + k - 8))
stream_at block i k h = elim (Bool-cases (ltb (i * 9 % 8 + k) 8)) [
  | inl first ↦ rw first (
      let less : i * 9 % 8 + k < 8 = ground arith in
      at_place block (i * 9 + k) (i * 9 / 8) (i * 9 % 8 + k) (omega arith) (omega arith))
  | inr second ↦ rw second (
      let more : 8 ≤ i * 9 % 8 + k = ground arith in
      at_place block (i * 9 + k) (i * 9 / 8 + 1) (i * 9 % 8 + k - 8) (omega arith) (omega arith))
]

-- Each of the 456 data symbols of a block of bytes is its nine bits from nine times its number on;
-- bits behind the block are zero.
pub test_bit-data_symbol :
    (block : ℕ → ℕ) (i k : ℕ)
    → IsBytes block
    → k < 9
    → i < 456
    → test_bit (data_symbol block i) k ≡ (ltb (i * 9 + k) 4096 && stream block (i * 9 + k))
unfolding data_symbol joined
test_bit-data_symbol block i k bytes h m =
    let byte = i * 9 / 8 in
    let sh = i * 9 % 8 in
    elim (Bool-cases (ltb (byte + 1) block_bytes)) [
      | inl inner ↦ rw inner (
          masked (joined (block byte) (block (byte + 1)) sh) k h
          ∙ test_bit-joined (block byte) (block (byte + 1)) sh k (bytes byte) (omega arith) h
          ∙ sym (stream_at block i k h)
          ∙ (let inside : ltb (i * 9 + k) 4096 ≡ true = ground arith in rw inside refl))
      | inr last ↦ rw last (
          masked (block byte / 2 ^ sh) k h
          ∙ test_bit-shr sh (block byte) k
          ∙ ground (arith, stream_at block i k h, high_bit 8 (block byte) (sh + k) (bytes byte)))
    ]
