-- ===== src/Sadc/Samples.antt =====
-- What the driver reads of a sample of the pen: sadc_queue_touch_sample and the case SADC_ADTCH of
-- sadc_read in qemu/overlay/hw/input/jz4740_sadc.c.
use bbk9588_emulator.Base.{
  ℕ, ◌+◌, ◌-◌, ◌*◌, ◌/◌, ◌%◌, ◌^◌, ◌≡◌, refl, ◌∙◌, ap, arith, bit_and, bit_or, Bool, true, false,
  ◌&&◌, ◌||◌, ◌==◌, leb, ltb, if◌then◌else◌, Bool-cases, inl, inr,
}
use native.Mathlib.Nat.{add-sub_cancel_left}
use bbk9588_emulator.Bits.{
  test_bit, ext, test_bit-bit_and, test_bit-bit_or, test_bit-shl, test_bit-mod, test_bit-shr,
  test_bit-ones, test_bit-pow,
}
use bbk9588_emulator.Sadc.State.{
  Sadc, data_mask, pack_touch_pair, touch_xyz_mode, touch_fifo_clear, touch_fifo_push,
  touch_fifo_pop, queue_touch_sample, position, update_irq,
}
use bbk9588_emulator.Sadc.Touch.{queue_next_touch_sample, may_sample, ask_sample}
use bbk9588_emulator.Sadc.Registers.{read_touch, read_reg, read}

module _ (data0 data1 : ℕ) where
  x : ℕ
  x = bit_and data0 data_mask

  y : ℕ
  y = bit_and data1 data_mask * 2 ^ 16

  test_bit-x : (i : ℕ) → test_bit x i ≡ (ltb i 12 && test_bit data0 i)
  unfolding x
  test_bit-x i = ground (arith, test_bit-bit_and data0 data_mask i, test_bit-ones 12 i)

  test_bit-y : (i : ℕ) → test_bit y i ≡ (leb 16 i && ltb i 28 && test_bit data1 (i - 16))
  unfolding y
  test_bit-y i = ground (
    arith,
    test_bit-shl 16 (bit_and data1 data_mask) i,
    test_bit-bit_and data1 data_mask (i - 16),
    test_bit-ones 12 (i - 16),
  )

  -- the word with the types
  test_bit-pack_touch_pair :
      (typed : Bool) (i : ℕ)
      → test_bit (pack_touch_pair data0 data1 typed typed) i
        ≡ (test_bit y i || test_bit x i || (typed && (i == 15 || i == 31)))
  unfolding pack_touch_pair x y
  test_bit-pack_touch_pair false i = ground (arith, test_bit-bit_or y x i)
  test_bit-pack_touch_pair true i = ground (
    arith,
    test_bit-bit_or y x i,
    test_bit-bit_or (bit_or y x) 0x8000 i,
    test_bit-bit_or (bit_or (bit_or y x) 0x8000) 0x80000000 i,
    test_bit-pow 15 i,
    test_bit-pow 31 i,
  )

  -- The coordinates stand in the low twelve bits of the two halves of the word, whatever the types
  -- say.
  pub pack_touch_pair_lem :
      (typed : Bool)
      → (pack_touch_pair data0 data1 typed typed % 2 ^ 12 ≡ data0 % 2 ^ 12)
        × (pack_touch_pair data0 data1 typed typed / 2 ^ 16 % 2 ^ 12 ≡ data1 % 2 ^ 12)
  pack_touch_pair_lem typed =
      let word = pack_touch_pair data0 data1 typed typed in
      (
        ext 12 (word % 2 ^ 12) (data0 % 2 ^ 12) (omega arith) (omega arith) λ i p. ground (
          arith,
          test_bit-mod 12 word i,
          test_bit-mod 12 data0 i,
          test_bit-pack_touch_pair typed i,
          test_bit-x i,
          test_bit-y i,
        ),
        ext 12 (word / 2 ^ 16 % 2 ^ 12) (data1 % 2 ^ 12) (omega arith) (omega arith) λ i p. ground (
          arith,
          test_bit-mod 12 (word / 2 ^ 16) i,
          test_bit-shr 16 word i,
          test_bit-mod 12 data1 i,
          test_bit-pack_touch_pair typed (16 + i),
          test_bit-x (16 + i),
          test_bit-y (16 + i),
          add-sub_cancel_left 16 i,
        ),
      )

-- a read of ADTCH
abbrev pub read_sample : Sadc → ℕ → ℕ × Sadc
read_sample s now = read s now 0x18

-- The words of a sample, as two reads of ADTCH hand them over: the position in the low and the high
-- half of the first, and in the modes that have one (1 and 2) the pressure as the second.
pub record IsSample (s t : Sadc) (now : ℕ) : Type 0 where
  pub x_first : (read_sample t now).0 % 2 ^ 12 ≡ s.touch_raw_x % 2 ^ 12
  pub y_first : (read_sample t now).0 / 2 ^ 16 % 2 ^ 12 ≡ s.touch_raw_y % 2 ^ 12
  pub second :
      (read_sample (read_sample t now).1 now).0
      ≡ (if touch_xyz_mode s == 1 then 0x800 else if touch_xyz_mode s == 2 then 0x8c008400 else 0)

-- A read takes one word, and gives 0 when none waits.
read_sample-count :
    (s : Sadc) (now : ℕ) → (read_sample s now).1.touch_fifo_count ≡ s.touch_fifo_count - 1
unfolding read read_reg read_touch touch_fifo_pop queue_next_touch_sample ask_sample update_irq
read_sample-count s now = ground arith

read_sample_empty : (s : Sadc) (now : ℕ) → s.touch_fifo_count ≡ 0 → (read_sample s now).0 ≡ 0
unfolding read read_reg read_touch touch_fifo_pop
read_sample_empty s now h = ground arith

module _ (s : Sadc) (now : ℕ) where
  second_word :
      (read_sample (read_sample (queue_touch_sample s) now).1 now).0
      ≡ (if touch_xyz_mode s == 1 then 0x800 else if touch_xyz_mode s == 2 then 0x8c008400 else 0)
  unfolding read read_reg queue_touch_sample touch_fifo_push touch_fifo_clear read_touch
      touch_fifo_pop pack_touch_pair
  second_word = elim (Bool-cases (touch_xyz_mode s == 1)) [
    | inl e ↦ rw e refl
    | inr n ↦ elim (Bool-cases (touch_xyz_mode s == 2)) [
      | inl e ↦ rw (n, e) refl
      | inr m ↦
          let t = queue_touch_sample s in
          let one : t.touch_fifo_count ≡ 1 = rw (n, m) refl in
          read_sample_empty (read_sample t now).1 now (omega (arith, read_sample-count t now, one))
          ∙ rw (n, m) refl
    ]
  ]

  first_word : (read_sample (queue_touch_sample s) now).0 ≡ position s (touch_xyz_mode s == 2)
  unfolding read read_reg queue_touch_sample touch_fifo_push touch_fifo_clear read_touch
      touch_fifo_pop queue_next_touch_sample may_sample ask_sample
  first_word = ground arith

  -- A sample that is queued comes back from ADTCH: two reads of that register at the offset 0x18 give
  -- the position of the pen in the low twelve bits of both halves of the first word, and then the
  -- pressure of the mode, or 0 in a mode without one.
  pub queue_touch_sample-IsSample : IsSample s (queue_touch_sample s) now
  queue_touch_sample-IsSample =
      let packed = pack_touch_pair_lem s.touch_raw_x s.touch_raw_y (touch_xyz_mode s == 2) in
      record {
        x_first = ap (λ (w : ℕ). w % 2 ^ 12) first_word ∙ packed.0;
        y_first = ap (λ (w : ℕ). w / 2 ^ 16 % 2 ^ 12) first_word ∙ packed.1;
        second = second_word;
      }
