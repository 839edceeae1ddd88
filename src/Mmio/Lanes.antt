-- ===== src/Mmio/Lanes.antt =====
-- Which bits of a register a sub-word access writes, and what it reads back.
use bbk9588_emulator.Base.{
  ℕ, ◌+◌, ◌-◌, ◌*◌, ◌/◌, ◌%◌, ◌^◌, ◌≤◌, ◌<◌, ◌≡◌, ◌∙◌, refl, bit_and, arith, Bool, true, ◌&&◌, ◌||◌,
  ◌==◌, ltb, leb, if◌then◌else◌, ◌⊎◌, inl, inr,
}
use bbk9588_emulator.Bits.{
  test_bit, ext, test_bit-bit_and, test_bit-bit_or, test_bit-not32, test_bit-shl, test_bit-shr,
  test_bit-mod, test_bit-ones, bit_and-le, bit_or-lt, not32, bit_and-ones,
}
use native.Mathlib.Nat.{add-sub_cancel_left, div-one, sub-zero}
use bbk9588_emulator.Mmio.{byte_shift, lane_mask, lane_shift, lane_value, merge, extract32}

-- the bits that an access of `size` bytes at `offset` covers
abbrev pub in_lane : ℕ → ℕ → ℕ → Bool
in_lane offset size i =
    if size == 4 then true else leb (byte_shift offset) i && ltb i (byte_shift offset + 8 * size)

-- an access that the bus lets through
abbrev pub IsSize : ℕ → Type 0
IsSize size = (size ≡ 1) ⊎ (size ≡ 2) ⊎ (size ≡ 4)

-- `v << k` in 32 bits
test_bit-shl32 :
    (k v i : ℕ) → i < 32 → test_bit (v * 2 ^ k % 2 ^ 32) i ≡ (leb k i && test_bit v (i - k))
test_bit-shl32 k v i p = ground (arith, test_bit-mod 32 (v * 2 ^ k) i, test_bit-shl k v i)

pub test_bit-lane_mask :
    (offset size i : ℕ)
    → IsSize size
    → i < 32
    → test_bit (lane_mask offset size) i ≡ in_lane offset size i
unfolding lane_mask
test_bit-lane_mask offset size i (inl e) p = rw e (
    ground
      (arith, test_bit-shl32 (byte_shift offset) 0xff i, test_bit-ones 8 (i - byte_shift offset)))
test_bit-lane_mask offset size i (inr (inl e)) p = rw e (
    ground (
      arith,
      test_bit-shl32 (byte_shift offset) 0xffff i,
      test_bit-ones 16 (i - byte_shift offset),
    ))
test_bit-lane_mask offset size i (inr (inr e)) p = rw e (ground (arith, test_bit-ones 32 i))

pub test_bit-lane_value :
    (offset size value i : ℕ)
    → IsSize size
    → i < 32
    → test_bit (lane_value offset size value) i
      ≡ (in_lane offset size i && test_bit value (i - lane_shift offset size))
unfolding lane_value lane_shift
test_bit-lane_value offset size value i h p = ground (
  arith,
  test_bit-bit_and (value % 2 ^ 32 * 2 ^ lane_shift offset size % 2 ^ 32) (lane_mask offset size) i,
  test_bit-shl32 (lane_shift offset size) (value % 2 ^ 32) i,
  test_bit-mod 32 value (i - lane_shift offset size),
  test_bit-lane_mask offset size i h p,
)

-- A write of `size` bytes puts the low bits of the value into its lane and leaves every other bit of
-- the register alone.
pub test_bit-merge :
    (old offset size value i : ℕ)
    → IsSize size
    → i < 32
    → test_bit (merge old offset size value) i ≡ (
        if in_lane offset size i
        then test_bit value (i - lane_shift offset size)
        else test_bit old i)
unfolding merge
test_bit-merge old offset size value i h p = ground (
  arith,
  test_bit-bit_or (bit_and old (not32 (lane_mask offset size))) (lane_value offset size value) i,
  test_bit-bit_and old (not32 (lane_mask offset size)) i,
  test_bit-not32 (lane_mask offset size) i p,
  test_bit-lane_mask offset size i h p,
  test_bit-lane_value offset size value i h p,
)

pub lane_value-lt : (offset size value : ℕ) → lane_value offset size value < 2 ^ 32
unfolding lane_value
lane_value-lt offset size value = omega (
  arith,
  bit_and-le 32 (value % 2 ^ 32 * 2 ^ lane_shift offset size % 2 ^ 32) (lane_mask offset size),
)

pub merge-lt : (old offset size value : ℕ) → old < 2 ^ 32 → merge old offset size value < 2 ^ 32
unfolding merge
merge-lt old offset size value h =
    bit_or-lt 32 (bit_and old (not32 (lane_mask offset size))) (lane_value offset size value)
      (omega (arith, bit_and-le 32 old (not32 (lane_mask offset size))))
      (lane_value-lt offset size value)

pub test_bit-extract32 :
    (value offset size i : ℕ)
    → IsSize size
    → test_bit (extract32 value offset size) i
      ≡ ((size == 4 || ltb i (8 * size)) && test_bit value (byte_shift offset + i))
unfolding extract32
test_bit-extract32 value offset size i (inl e) = rw e (
    ground (
      arith,
      test_bit-bit_and (value / 2 ^ byte_shift offset) 0xff i,
      test_bit-ones 8 i,
      test_bit-shr (byte_shift offset) value i,
    ))
test_bit-extract32 value offset size i (inr (inl e)) = rw e (
    ground (
      arith,
      test_bit-bit_and (value / 2 ^ byte_shift offset) 0xffff i,
      test_bit-ones 16 i,
      test_bit-shr (byte_shift offset) value i,
    ))
test_bit-extract32 value offset size i (inr (inr e)) =
    rw e (ground (arith, test_bit-shr (byte_shift offset) value i))

extract32-lt : (value offset size : ℕ) → value < 2 ^ 32 → extract32 value offset size < 2 ^ 32
unfolding extract32
extract32-lt value offset size h =
    let fits : value / 2 ^ byte_shift offset < 2 ^ 32 = omega arith in
    ground (
      arith,
      bit_and-le 32 (value / 2 ^ byte_shift offset) 0xff,
      bit_and-le 32 (value / 2 ^ byte_shift offset) 0xffff,
    )

-- What an access of one, two or four bytes that stays inside its register writes to a word, the
-- same access reads back: the low bytes of the value.
pub extract32-merge :
    (old offset size value : ℕ)
    → IsSize size
    → offset % 4 + size ≤ 4
    → old < 2 ^ 32
    → extract32 (merge old offset size value) offset size ≡ value % 2 ^ (8 * size)
unfolding lane_shift
extract32-merge old offset size value h inside small =
    ext 32 (extract32 (merge old offset size value) offset size) (value % 2 ^ (8 * size))
      (extract32-lt _ offset size (merge-lt old offset size value small)) (bound h)
      λ i p. ground (
        arith,
        test_bit-extract32 (merge old offset size value) offset size i h,
        test_bit-merge old offset size value (byte_shift offset + i) h,
        test_bit-mod (8 * size) value i,
        add-sub_cancel_left (byte_shift offset) i,
      )
  where
    bound : IsSize size → value % 2 ^ (8 * size) < 2 ^ 32
    bound (inl e) = rw e (omega arith)
    bound (inr (inl e)) = rw e (omega arith)
    bound (inr (inr e)) = rw e (omega arith)

-- A byte outside the lane of a write reads back as before.
pub extract32-merge_other :
    (old offset size value other : ℕ)
    → IsSize size
    → offset % 4 + size ≤ 4
    → old < 2 ^ 32
    → (other % 4 < offset % 4) ⊎ (offset % 4 + size ≤ other % 4)
    → extract32 (merge old offset size value) other 1 ≡ extract32 old other 1
extract32-merge_other old offset size value other h inside small away =
    ext 32 (extract32 (merge old offset size value) other 1) (extract32 old other 1)
      (extract32-lt _ other 1 (merge-lt old offset size value small))
      (extract32-lt old other 1 small)
      λ i p. ground (
        arith,
        test_bit-extract32 (merge old offset size value) other 1 i (inl refl),
        test_bit-extract32 old other 1 i (inl refl),
        test_bit-merge old offset size value (byte_shift other + i) h,
      )

-- A whole word is written and read as it is.
pub merge_word : (old offset value : ℕ) → old < 2 ^ 32 → merge old offset 4 value ≡ value % 2 ^ 32
unfolding lane_shift
merge_word old offset value small =
    ext 32 (merge old offset 4 value) (value % 2 ^ 32) (merge-lt old offset 4 value small)
      (omega arith)
      λ i p. ground (
        arith,
        test_bit-merge old offset 4 value i (inr (inr refl)) p,
        test_bit-mod 32 value i,
        sub-zero i,
      )

pub extract32_word : (value offset : ℕ) → offset % 4 ≡ 0 → extract32 value offset 4 ≡ value
unfolding extract32
extract32_word value offset h = rw h (div-one value)

-- The low byte of a word after an access to its start is the low byte of the value.
pub low_byte-merge :
    (old size value : ℕ)
    → IsSize size
    → bit_and (merge old 0 size value / 2 ^ byte_shift 0) 0xff ≡ value % 256
unfolding lane_shift
low_byte-merge old size value h =
    bit_and-ones 8 (merge old 0 size value / 2 ^ byte_shift 0)
    ∙ ext 8 (merge old 0 size value / 2 ^ byte_shift 0 % 2 ^ 8) (value % 2 ^ 8) (omega arith)
        (omega arith)
        λ i p. ground (
          arith,
          test_bit-mod 8 (merge old 0 size value / 2 ^ byte_shift 0) i,
          test_bit-mod 8 value i,
          test_bit-shr 0 (merge old 0 size value) i,
          test_bit-merge old 0 size value i h,
          sub-zero i,
        )
