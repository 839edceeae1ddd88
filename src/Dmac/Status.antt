-- ===== src/Dmac/Status.antt =====
-- What dmac_sync_irq of qemu/overlay/hw/dma/jz4740_dmac.c makes of the channels' status.
use bbk9588_emulator.Base.{
  ℕ, zero, suc, ◌+◌, ◌*◌, ◌/◌, ◌^◌, ◌≤◌, ◌<◌, ◌≡◌, refl, ap, ◌∙◌, arith, Bool, true, false, ◌&&◌,
  ◌||◌, ◌==◌, ltb, inl, inr, Bool-cases, ==→eq, bit_and, bit_or,
}
use bbk9588_emulator.Bits.{
  has, test_bit, test_bit-bit_and, test_bit-bit_or, test_bit-ones, test_bit-pow, test_bit-zero,
  bit_and-bit, bit_and-covered, bit_and-le_right, no_bit,
}
use bbk9588_emulator.Dmac.State.{
  Dmac, num_channels, dcs, dcm, dirqp, dcs_ar, dcs_hlt, dcs_inv, dcs_tt, dcs_ct, dcs_status_mask,
  channel_mask, reg, chan, chan_demands, pending_below, irq_pending, irqp_below, sync_regs,
  sync_irq,
}

module _ {W : Type 0} where
  -- some of the first channels has a status and has its interrupt enabled
  unfoldable pub any_demands : Dmac W → ℕ → Bool
  any_demands s zero = false
  any_demands s (suc channel) = any_demands s channel || chan_demands s channel

  test_bit-irqp_below :
      (s : Dmac W) (n i : ℕ)
      → test_bit (irqp_below s n) i ≡ (ltb i n && has (chan s i dcs) dcs_status_mask)
  unfolding irqp_below
  test_bit-irqp_below s zero i = test_bit-zero i ∙ ground arith
  test_bit-irqp_below s (suc n) i =
      let rest = test_bit-irqp_below s n i in
      elim (Bool-cases (n == i)) [
        | inl e ↦
            ground (
              arith,
              rest,
              ==→eq n i e,
              test_bit-bit_or (irqp_below s n) (2 ^ n) i,
              test_bit-pow n i,
            )
        | inr o ↦ ground (arith, rest, test_bit-bit_or (irqp_below s n) (2 ^ n) i, test_bit-pow n i)
      ]

  -- A channel is marked in DIRQP exactly if its status is not empty.
  pub sync_irq-marks :
      (s : Dmac W) (channel : ℕ)
      → channel < num_channels
      → has (reg (sync_irq s) dirqp) (2 ^ channel) ≡ has (chan s channel dcs) dcs_status_mask
  unfolding sync_irq sync_regs
  sync_irq-marks s channel h = ground (
    arith,
    bit_and-bit channel (bit_and (irqp_below s num_channels) channel_mask),
    test_bit-bit_and (irqp_below s num_channels) channel_mask channel,
    test_bit-ones 6 channel,
    test_bit-irqp_below s num_channels channel,
  )

  -- A channel that asks for the interrupt has a status.
  demands_marked :
      (s : Dmac W) (channel : ℕ)
      → chan_demands s channel ≡ true
      → has (chan s channel dcs) dcs_status_mask ≡ true
  demands_marked s channel h =
      let status = chan s channel dcs in
      ground (
        arith,
        bit_and-covered status (bit_or dcs_ar dcs_hlt) dcs_status_mask,
        bit_and-covered status dcs_inv dcs_status_mask,
        bit_and-covered status (bit_or dcs_tt dcs_ct) dcs_status_mask,
      )

  sync_regs-chan_demands :
      (s : Dmac W) (channel : ℕ)
      → channel < num_channels
      → chan_demands (sync_regs s) channel ≡ chan_demands s channel
  unfolding sync_regs
  sync_regs-chan_demands s channel h =
      let away : (0xc0 == (channel * 0x20 + dcs) / 4) ≡ false = ground arith in
      let apart : (0xc1 == (channel * 0x20 + dcs) / 4) ≡ false = ground arith in
      let away' : (0xc0 == (channel * 0x20 + dcm) / 4) ≡ false = ground arith in
      let apart' : (0xc1 == (channel * 0x20 + dcm) / 4) ≡ false = ground arith in
      rw (away, apart, away', apart') refl

  sync_regs-marks :
      (s : Dmac W) (channel : ℕ)
      → channel < num_channels
      → has (reg (sync_regs s) dirqp) (2 ^ channel) ≡ has (chan s channel dcs) dcs_status_mask
  unfolding sync_irq
  sync_regs-marks s channel h = sync_irq-marks s channel h

  pending_below-sync_regs :
      (s : Dmac W) (n : ℕ) → n ≤ num_channels → pending_below (sync_regs s) n ≡ any_demands s n
  unfolding pending_below any_demands
  pending_below-sync_regs s zero h = refl
  pending_below-sync_regs s (suc channel) h =
      rw
        (
          pending_below-sync_regs s channel (omega arith),
          sync_regs-chan_demands s channel (omega arith),
          sync_regs-marks s channel (omega arith),
        )
        (ground (arith, demands_marked s channel))

  pub sync_irq-demands : (s : Dmac W) → (sync_irq s).irq_level ≡ any_demands s num_channels
  unfolding sync_irq irq_pending
  sync_irq-demands s = pending_below-sync_regs s num_channels (omega arith)

  -- One channel that demands the interrupt is enough.
  pub any_demands-one :
      (s : Dmac W) (channel n : ℕ)
      → channel < n
      → chan_demands s channel ≡ true
      → any_demands s n ≡ true
  unfolding any_demands
  any_demands-one s channel zero h d = absurd (omega arith)
  any_demands-one s channel (suc n) h d = elim (Bool-cases (channel == n)) [
    | inl e ↦ rw (← ==→eq channel n e, d) (ground arith)
    | inr o ↦ rw (any_demands-one s channel n (ground arith) d) refl
  ]

-- A status and a command that call for the interrupt, by the numbers of their bits: AR (4) or HLT (2)
-- always, INV (6) if VIE (2) is set in the command, TT (3) or CT (1) if TIE (1) is.
abbrev pub interrupts : ℕ → ℕ → Bool
interrupts status command =
    test_bit status 4
    || test_bit status 2
    || (test_bit status 6 && test_bit command 2)
    || ((test_bit status 3 || test_bit status 1) && test_bit command 1)

-- two flags at once
has_two :
    (a j k : ℕ)
    → bit_or (2 ^ j) (2 ^ k) < 2 ^ 32
    → 2 ^ j < 2 ^ 32
    → 2 ^ k < 2 ^ 32
    → bit_and (2 ^ j) (bit_or (2 ^ j) (2 ^ k)) ≡ 2 ^ j
    → bit_and (2 ^ k) (bit_or (2 ^ j) (2 ^ k)) ≡ 2 ^ k
    → has a (bit_or (2 ^ j) (2 ^ k)) ≡ (test_bit a j || test_bit a k)
has_two a j k low lj lk cj ck =
    let m : ℕ = bit_or (2 ^ j) (2 ^ k) in
    elim (Bool-cases (test_bit a j)) [
      | inl e ↦
          let met : (bit_and a (2 ^ j) == 0) ≡ false = ground (arith, bit_and-bit j a, e) in
          rw (e, bit_and-covered a (2 ^ j) m lj cj met) refl
      | inr n ↦ elim (Bool-cases (test_bit a k)) [
        | inl e ↦
            let met : (bit_and a (2 ^ k) == 0) ≡ false = ground (arith, bit_and-bit k a, e) in
            rw (n, e, bit_and-covered a (2 ^ k) m lk ck met) refl
        | inr o ↦
            let none : bit_and a m ≡ 0 =
              no_bit 32 (bit_and a m) (omega (arith, bit_and-le_right 32 a m low)) (λ i p.
                elim (Bool-cases (j == i)) [
                  | inl same ↦ ground (
                    arith,
                    test_bit-bit_and a m i,
                    ==→eq j i same,
                    ap (λ (t : ℕ). test_bit a t) (==→eq j i same),
                    n,
                  )
                  | inr apart ↦ elim (Bool-cases (k == i)) [
                    | inl same ↦ ground (
                      arith,
                      test_bit-bit_and a m i,
                      ap (λ (t : ℕ). test_bit a t) (==→eq k i same),
                      o,
                    )
                    | inr apart2 ↦ ground (
                      arith,
                      test_bit-bit_and a m i,
                      test_bit-bit_or (2 ^ j) (2 ^ k) i,
                      test_bit-pow j i,
                      test_bit-pow k i,
                    )
                  ]
                ]) in
            rw (n, o, none) refl
      ]
    ]

module _ {W : Type 0} where
  -- one of the six channels, at the words 4 and 5 of its eight, calls for it
  abbrev pub any_interrupts : Dmac W → Bool
  any_interrupts s =
      interrupts (s.regs 4) (s.regs 5)
      || interrupts (s.regs 12) (s.regs 13)
      || interrupts (s.regs 20) (s.regs 21)
      || interrupts (s.regs 28) (s.regs 29)
      || interrupts (s.regs 36) (s.regs 37)
      || interrupts (s.regs 44) (s.regs 45)

  demands_lem :
      (s : Dmac W) (channel : ℕ)
      → chan_demands s channel ≡ interrupts (chan s channel dcs) (chan s channel dcm)
  demands_lem s channel =
      let status = chan s channel dcs in
      let command = chan s channel dcm in
      ground (
        arith,
        has_two status 4 2 (omega arith) (omega arith) (omega arith) refl refl,
        has_two status 3 1 (omega arith) (omega arith) (omega arith) refl refl,
        bit_and-bit 6 status,
        bit_and-bit 2 command,
        bit_and-bit 1 command,
      )

  -- Once the interrupt is followed, the line is high exactly if some of the six channels has, in DCS and
  -- DCM, an address error or a halt, an invalid descriptor with its interrupt (VIE) enabled, or the end
  -- or the count of a transfer with its interrupt (TIE) enabled.
  pub sync_irq-level : (s : Dmac W) → (sync_irq s).irq_level ≡ any_interrupts s
  unfolding any_demands
  sync_irq-level s =
      sync_irq-demands s
      ∙ rw
          (
            demands_lem s 0,
            demands_lem s 1,
            demands_lem s 2,
            demands_lem s 3,
            demands_lem s 4,
            demands_lem s 5,
          )
          (ground arith)
