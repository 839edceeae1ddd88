-- ===== src/Ecc/Correct.antt =====
-- The correction of a symbol, jz4740_rs_apply_correction.
use mathlib.Core.Bool.{xor}
use bbk9588_emulator.Base.{
  ℕ, suc, ◌+◌, ◌*◌, ◌/◌, ◌%◌, ◌^◌, ◌-◌, ◌<◌, ◌≡◌, refl, arith, bit_and, bit_xor, Bool, true, false,
  ◌&&◌, ◌==◌, ◌!=◌, ltb, leb, if◌then◌else◌, update, Bool-cases, inl, inr, ◌∙◌, ap, sym, ==→eq,
}
use bbk9588_emulator.Bits.{
  test_bit, bit_and-ones, test_bit-mod, test_bit-shr, test_bit-shl, test_bit-bit_xor, bit_xor-lt,
}
use bbk9588_emulator.Ecc.{nn, block_bytes, data_symbol, apply_correction}
use bbk9588_emulator.Ecc.Symbols.{stream, IsBytes, test_bit-data_symbol}

-- the mask of a correction, moved to the place of the symbol
moved : ℕ → ℕ → ℕ
moved m sh = bit_and m nn * 2 ^ sh % 2 ^ 16

test_bit-moved :
    (m sh j : ℕ)
    → j < 16
    → test_bit (moved m sh) j ≡ (leb sh j && ltb j (sh + 9) && test_bit m (j - sh))
unfolding moved
test_bit-moved m sh j h =
    test_bit-mod 16 (bit_and m nn * 2 ^ sh) j
    ∙ ground (
      arith,
      test_bit-shl sh (bit_and m nn) j,
      ap (λ (n : ℕ). test_bit n (j - sh)) (bit_and-ones 9 m),
      test_bit-mod 9 m (j - sh),
    )

differs : (a b : Bool) → xor a b ≡ (a != b)
unfolding xor
differs true true = refl
differs true false = refl
differs false true = refl
differs false false = refl

first_byte :
    (m sh old j : ℕ)
    → j < 8
    → test_bit (bit_xor old (bit_and (moved m sh) 0xff)) j
      ≡ (test_bit old j != (leb sh j && ltb j (sh + 9) && test_bit m (j - sh)))
first_byte m sh old j h =
    test_bit-bit_xor old (bit_and (moved m sh) 0xff) j
    ∙ differs (test_bit old j) (test_bit (bit_and (moved m sh) 0xff) j)
    ∙ ap (λ (b : Bool). test_bit old j != b)
        (ap (λ (n : ℕ). test_bit n j) (bit_and-ones 8 (moved m sh))
          ∙ test_bit-mod 8 (moved m sh) j
          ∙ ground (arith, test_bit-moved m sh j))

second_byte :
    (m sh old j : ℕ)
    → j < 8
    → test_bit (bit_xor old (moved m sh / 2 ^ 8) % 2 ^ 8) j
      ≡ (test_bit old j != (leb sh (8 + j) && ltb (8 + j) (sh + 9) && test_bit m (8 + j - sh)))
second_byte m sh old j h =
    test_bit-mod 8 (bit_xor old (moved m sh / 2 ^ 8)) j
    ∙ (let inside : ltb j 8 ≡ true = ground arith in rw inside refl)
    ∙ test_bit-bit_xor old (moved m sh / 2 ^ 8) j
    ∙ differs (test_bit old j) (test_bit (moved m sh / 2 ^ 8) j)
    ∙ ap (λ (b : Bool). test_bit old j != b)
        (test_bit-shr 8 (moved m sh) j ∙ test_bit-moved m sh (8 + j) (omega arith))

-- a correction of a symbol that starts in the block
corrected : (ℕ → ℕ) → ℕ → ℕ → ℕ → ℕ → ℕ
corrected block mask byte sh =
    let first = update block byte (bit_xor (block byte) (bit_and (moved mask sh) 0xff)) in
    if ltb (byte + 1) block_bytes
    then update first (byte + 1) (bit_xor (first (byte + 1)) (moved mask sh / 2 ^ 8) % 2 ^ 8)
    else first

correction_cases :
    (block : ℕ → ℕ) (i mask : ℕ)
    → apply_correction block (record { index = suc i; mask = mask })
      ≡ (if leb block_bytes (i + i / 8) then block else corrected block mask (i + i / 8) (i % 8))
unfolding apply_correction corrected moved
correction_cases block i mask =
    let symbol : suc i - 1 ≡ i = omega arith in
    let some : (suc i == 0) ≡ false = ground arith in rw (some, symbol) refl

flipped : (m i p : ℕ) → Bool
flipped m i p = leb (i * 9) p && ltb p (i * 9 + 9) && test_bit m (p - i * 9)

flip_first :
    (m i j : ℕ)
    → j < 8
    → flipped m i ((i + i / 8) * 8 + j)
      ≡ (leb (i % 8) j && ltb j (i % 8 + 9) && test_bit m (j - i % 8))
unfolding flipped
flip_first m i j h =
    let at : (i + i / 8) * 8 + j - i * 9 ≡ j - i % 8 = omega arith in
    ground (arith, ap (λ (n : ℕ). test_bit m n) at)

flip_second :
    (m i j : ℕ)
    → j < 8
    → flipped m i ((i + i / 8 + 1) * 8 + j)
      ≡ (leb (i % 8) (8 + j) && ltb (8 + j) (i % 8 + 9) && test_bit m (8 + j - i % 8))
unfolding flipped
flip_second m i j h =
    let at : (i + i / 8 + 1) * 8 + j - i * 9 ≡ 8 + j - i % 8 = omega arith in
    ground (arith, ap (λ (n : ℕ). test_bit m n) at)

flip_none :
    (m i q j : ℕ)
    → j < 8
    → (i + i / 8 == q) ≡ false
    → (i + i / 8 + 1 == q) ≡ false
    → flipped m i (q * 8 + j) ≡ false
unfolding flipped
flip_none m i q j h a b = ground arith

same_bit : (b : Bool) → b ≡ (b != false)
same_bit true = refl
same_bit false = refl

corrected_bit :
    (block : ℕ → ℕ) (i m q j : ℕ)
    → j < 8
    → q < 512
    → i + i / 8 < 512
    → test_bit (corrected block m (i + i / 8) (i % 8) q) j
      ≡ (test_bit (block q) j != flipped m i (q * 8 + j))
unfolding corrected
corrected_bit block i m q j h inside start =
    let byte = i + i / 8 in
    let sh = i % 8 in
    let kept : (byte + 1 == q) ≡ false
        → (byte == q) ≡ false
        → test_bit (block q) j ≡ (test_bit (block q) j != flipped m i (q * 8 + j)) =
      λ a b. let n = flip_none m i q j h b a in rw n (same_bit (test_bit (block q) j)) in
    let at_first : (byte == q) ≡ true
        → test_bit (bit_xor (block byte) (bit_and (moved m sh) 0xff)) j
          ≡ (test_bit (block q) j != flipped m i (q * 8 + j)) =
      λ b.
        first_byte m sh (block byte) j h
        ∙ ap (λ (f : Bool). test_bit (block byte) j != f) (sym (flip_first m i j h))
        ∙ ap (λ (n : ℕ). test_bit (block n) j != flipped m i (n * 8 + j)) (==→eq byte q b) in
    elim (Bool-cases (ltb (byte + 1) block_bytes)) [
      | inl two ↦ rw two (elim (Bool-cases (byte + 1 == q)) [
        | inl e ↦
            let apart : (byte == byte + 1) ≡ false = ground arith in
            rw (e, apart)
              (second_byte m sh (block (byte + 1)) j h
                ∙ ap (λ (f : Bool). test_bit (block (byte + 1)) j != f) (sym (flip_second m i j h))
                ∙ ap (λ (n : ℕ). test_bit (block n) j != flipped m i (n * 8 + j))
                    (==→eq (byte + 1) q e))
        | inr n ↦
            rw n (elim (Bool-cases (byte == q)) [
              | inl b ↦ rw b (at_first b)
              | inr o ↦ rw o (kept n o)
            ])
      ])
      | inr one ↦ rw one (elim (Bool-cases (byte == q)) [
        | inl b ↦ rw b (at_first b)
        | inr o ↦ rw o (kept (ground arith) o)
      ])
    ]

-- Correcting the symbol `i` flips, in the bits of the block, exactly those of the symbol that the
-- correction's mask has; what would lie behind the block is dropped.
pub stream-apply_correction :
    (block : ℕ → ℕ) (i mask p : ℕ)
    → p < 4096
    → stream (apply_correction block (record { index = suc i; mask = mask })) p
      ≡ (stream block p != (leb (i * 9) p && ltb p (i * 9 + 9) && test_bit mask (p - i * 9)))
unfolding flipped
stream-apply_correction block i mask p h = elim (Bool-cases (leb block_bytes (i + i / 8))) [
  | inl outside ↦
      let none : (leb (i * 9) p && ltb p (i * 9 + 9) && test_bit mask (p - i * 9)) ≡ false =
        ground arith in
      rw (correction_cases block i mask, outside, none) (same_bit (stream block p))
  | inr inside ↦
      let split : p / 8 * 8 + p % 8 ≡ p = omega arith in
      rw (correction_cases block i mask, inside)
        (corrected_bit block i mask (p / 8) (p % 8) (omega arith) (omega arith) (ground arith)
          ∙ ap (λ (n : ℕ). stream block p != flipped mask i n) split)
]

corrected-IsBytes :
    (block : ℕ → ℕ) (m byte sh : ℕ) → IsBytes block → IsBytes (corrected block m byte sh)
unfolding corrected
corrected-IsBytes block m byte sh bytes q =
    let low : bit_and (moved m sh) 0xff < 2 ^ 8 = omega (arith, bit_and-ones 8 (moved m sh)) in
    let front : bit_xor (block byte) (bit_and (moved m sh) 0xff) < 2 ^ 8 =
      bit_xor-lt 8 _ _ (bytes byte) low in
    elim (Bool-cases (ltb (byte + 1) block_bytes)) [
      | inl two ↦ rw two (ground (arith, front, bytes q))
      | inr one ↦ rw one (ground (arith, front, bytes q))
    ]

apply_correction-IsBytes :
    (block : ℕ → ℕ) (i mask : ℕ)
    → IsBytes block
    → IsBytes (apply_correction block (record { index = suc i; mask = mask }))
apply_correction-IsBytes block i mask bytes q = elim (Bool-cases (leb block_bytes (i + i / 8))) [
  | inl outside ↦ rw (correction_cases block i mask, outside) (bytes q)
  | inr inside ↦
      rw (correction_cases block i mask, inside)
        (corrected-IsBytes block mask (i + i / 8) (i % 8) bytes q)
]

own_bits :
    (i o k mask : ℕ)
    → k < 9
    → (leb (i * 9) (o * 9 + k) && ltb (o * 9 + k) (i * 9 + 9) && test_bit mask (o * 9 + k - i * 9))
      ≡ (o == i && test_bit mask k)
own_bits i o k mask h = elim (Bool-cases (o == i)) [
  | inl e ↦
      let same : o ≡ i = ==→eq o i e in
      let at : o * 9 + k - i * 9 ≡ k = omega (arith, same) in
      ground (arith, ap (λ (n : ℕ). test_bit mask n) at)
  | inr n ↦ ground arith
]

-- The correction of the symbol `i` of a block of bytes changes, of its 456 data symbols, that one
-- only: it adds the correction's mask to it, in its bits that lie in the block.
pub data_symbol-apply_correction :
    (block : ℕ → ℕ) (i mask o k : ℕ)
    → IsBytes block
    → o < 456
    → k < 9
    → test_bit (data_symbol (apply_correction block (record { index = suc i; mask = mask })) o) k
      ≡ (test_bit (data_symbol block o) k != (o == i && ltb (o * 9 + k) 4096 && test_bit mask k))
data_symbol-apply_correction block i mask o k bytes h p =
    test_bit-data_symbol (apply_correction block (record { index = suc i; mask = mask })) o k
      (apply_correction-IsBytes block i mask bytes) p h
    ∙ (elim (Bool-cases (ltb (o * 9 + k) 4096)) [
      | inl inside ↦
          let old : test_bit (data_symbol block o) k ≡ stream block (o * 9 + k) =
            test_bit-data_symbol block o k bytes p h ∙ rw inside refl in
          let new =
            stream-apply_correction block i mask (o * 9 + k) (ground arith)
            ∙ ap (λ (f : Bool). stream block (o * 9 + k) != f) (own_bits i o k mask p) in
          rw (inside, old, new) (ground arith)
      | inr behind ↦
          let old : test_bit (data_symbol block o) k ≡ false =
            test_bit-data_symbol block o k bytes p h ∙ rw behind refl in
          rw (behind, old) (ground arith)
    ])
