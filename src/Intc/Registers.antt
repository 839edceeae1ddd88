-- ===== src/Intc/Registers.antt =====
-- What a source level, a board update and a register write do to each bit of the controller.
use bbk9588_emulator.Base.{
  ℕ, ◌-◌, ◌^◌, ◌<◌, ◌≡◌, bit_and, bit_or, arith, Bool, true, false, not, ◌&&◌, ◌||◌, ◌==◌, leb,
  if◌then◌else◌, ◌∙◌, ap, sym, inl, inr, Bool-cases,
}
use bbk9588_emulator.Bits.{
  test_bit, test_bit-bit_and, test_bit-bit_or, test_bit-not32, test_bit-pow, not32, bit_and-pow,
}
use bbk9588_emulator.Mmio.{aligned, lane_mask, lane_value, lane_shift}
use bbk9588_emulator.Mmio.Lanes.{IsSize, in_lane, test_bit-lane_value, test_bit-lane_mask}
use bbk9588_emulator.Intc.{
  Intc, num_irqs, source_mask, update_line, set_irq, set_pending_mask, write, write_mask, set_level,
}
use bbk9588_emulator.Intc.Coherent.{IsCoherent}

wired_bit :
    {s : Intc}
    → IsCoherent s
    → (i : ℕ) → test_bit s.pending i ≡ (test_bit s.pending i && test_bit source_mask i)
wired_bit {s} h i =
    ap (λ (p : ℕ). test_bit p i) (sym h.wired) ∙ test_bit-bit_and s.pending source_mask i

test_bit-set_level :
    (pending irq : ℕ) (level : Bool) (i : ℕ)
    → irq < 32
    → i < 32
    → test_bit (set_level pending (2 ^ irq) level) i
      ≡ (if irq == i then level else test_bit pending i)
test_bit-set_level pending irq true i h p =
    ground (arith, test_bit-bit_or pending (2 ^ irq) i, test_bit-pow irq i)
test_bit-set_level pending irq false i h p = ground (
  arith,
  test_bit-bit_and pending (not32 (2 ^ irq)) i,
  test_bit-not32 (2 ^ irq) i p,
  test_bit-pow irq i,
)

pending-set_irq :
    (s : Intc) (irq : ℕ) (level : Bool)
    → (set_irq s irq level).pending ≡ (
        if leb num_irqs irq
        then s.pending
        else if bit_and source_mask (2 ^ irq) == 0
        then s.pending
        else bit_and (set_level s.pending (2 ^ irq) level) source_mask)
unfolding set_irq update_line
pending-set_irq s irq level = elim (Bool-cases (leb num_irqs irq)) [
  | inl out ↦ rw out
  | inr inside ↦ rw inside (elim (Bool-cases (bit_and source_mask (2 ^ irq) == 0)) [
    | inl unwired ↦ rw unwired
    | inr wired ↦ rw wired
  ])
]

-- In a coherent controller, a source's level reaches exactly its own pending bit, and only if the
-- source is wired.
pub test_bit-set_irq :
    {s : Intc} (irq : ℕ) (level : Bool) (i : ℕ)
    → IsCoherent s
    → i < 32
    → test_bit (set_irq s irq level).pending i
      ≡ (if irq == i && test_bit source_mask i then level else test_bit s.pending i)
test_bit-set_irq {s} irq level i h p = rw pending-set_irq (
    ground (
      arith,
      test_bit-bit_and (set_level s.pending (2 ^ irq) level) source_mask i,
      test_bit-set_level s.pending irq level i,
      wired_bit h i,
      bit_and-pow 32 source_mask irq,
    ))

-- The board's update replaces the wired bits that its mask selects by the levels, and no others.
pub test_bit-set_pending_mask :
    {s : Intc} (mask levels i : ℕ)
    → IsCoherent s
    → i < 32
    → test_bit (set_pending_mask s mask levels).pending i ≡ (
        if test_bit mask i && test_bit source_mask i
        then test_bit levels i
        else test_bit s.pending i)
unfolding set_pending_mask update_line
test_bit-set_pending_mask {s} mask levels i h p = ground (
  arith,
  wired_bit h i,
  test_bit-bit_and
      (bit_or (bit_and s.pending (not32 (bit_and mask source_mask)))
        (bit_and levels (bit_and mask source_mask)))
      source_mask i,
  test_bit-bit_or (bit_and s.pending (not32 (bit_and mask source_mask)))
      (bit_and levels (bit_and mask source_mask)) i,
  test_bit-bit_and s.pending (not32 (bit_and mask source_mask)) i,
  test_bit-not32 (bit_and mask source_mask) i p,
  test_bit-bit_and levels (bit_and mask source_mask) i,
  test_bit-bit_and mask source_mask i,
)

-- A write of one, two or four bytes to a coherent controller changes the mask as its register says,
-- in the bits that the access covers: ICMR copies the value, ICMSR sets and ICMCR clears the bits
-- that the value has, and a write elsewhere leaves the mask alone. No write changes what is
-- pending.
pub test_bit-write :
    {s : Intc} (offset value size i : ℕ)
    → IsCoherent s
    → IsSize size
    → i < 32
    → let reg = aligned offset in
      let here = in_lane offset size i in
      let v = test_bit value (i - lane_shift offset size) in
      let old = test_bit s.mask i in
      (test_bit (write s offset value size).mask i ≡ (
        if reg == 0x04
        then (if here then v else old)
        else if reg == 0x08
        then old || (here && v)
        else if reg == 0x0c
        then old && not (here && v)
        else old))
      × ((write s offset value size).pending ≡ s.pending)
unfolding write write_mask update_line
test_bit-write {s} offset value size i h z p = (
  ground (
    arith,
    test_bit-bit_or (bit_and s.mask (not32 (lane_mask offset size))) (lane_value offset size value)
        i,
    test_bit-bit_and s.mask (not32 (lane_mask offset size)) i,
    test_bit-not32 (lane_mask offset size) i p,
    test_bit-lane_mask offset size i z p,
    test_bit-lane_value offset size value i z p,
    test_bit-bit_or s.mask (lane_value offset size value) i,
    test_bit-bit_and s.mask (not32 (lane_value offset size value)) i,
    test_bit-not32 (lane_value offset size value) i p,
  ),
  h.wired,
)
