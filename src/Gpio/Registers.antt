-- ===== src/Gpio/Registers.antt =====
-- The register bank of a port, seen through the set and clear registers.
use bbk9588_emulator.Base.{
  ℕ, ◌+◌, ◌-◌, ◌*◌, ◌/◌, ◌%◌, ◌<◌, ◌≡◌, ◌≢◌, refl, arith, bit_or, ◌^◌, Bool, true, false, not, ◌&&◌,
  ◌||◌, ◌==◌, leb, if◌then◌else◌, inl, inr, Bool-cases, update,
}
use native.Mathlib.Nat.{one-le-pow}
use bbk9588_emulator.Bits.{
  test_bit, test_bit-bit_and, test_bit-bit_or, test_bit-not32, test_bit-pow, not32,
}
use bbk9588_emulator.Mmio.{aligned, lane_value, lane_shift, merge}
use bbk9588_emulator.Mmio.Lanes.{IsSize, in_lane, test_bit-lane_value, extract32_word}
use bbk9588_emulator.Gpio.{
  Gpio, num_ports, port_stride, modeled_size, sets, clears, access, canonical_reg, apply_access,
  update_irq, notify_trace, set_input_level, write, read, read_pins,
}

-- The bits that a write puts into the registers, as the bus delivers them.
abbrev pub written : ℕ → ℕ → ℕ → ℕ → Bool
written offset size value i = in_lane offset size i && test_bit value (i - lane_shift offset size)

-- the index of the register that an access at `offset` addresses, and its port and place there
abbrev pub word_of : ℕ → ℕ
word_of offset = aligned offset / 4

abbrev pub port_of : ℕ → ℕ
port_of offset = aligned offset / port_stride

abbrev pub place_of : ℕ → ℕ
place_of offset = aligned offset % port_stride

-- A set register stands one word above its canonical register, a clear register two.
access_sets : (r reg : ℕ) → access r ≡ sets reg → reg + 4 ≡ r
unfolding access
access_sets r reg e = ground arith

access_clears : (r reg : ℕ) → access r ≡ clears reg → reg + 8 ≡ r
unfolding access
access_clears r reg e = ground arith

regs-update_irq : (s : Gpio) (port : ℕ) → (update_irq s port).regs ≡ s.regs
unfolding update_irq
regs-update_irq s port = elim (Bool-cases (leb num_ports port)) [
  | inl e ↦ rw e refl
  | inr e ↦ rw e refl
]

regs-write :
    (s : Gpio) (offset value size : ℕ)
    → offset < modeled_size
    → (write s offset value size).regs
      ≡ apply_access
          (access (place_of offset))
          (update s.regs (word_of offset) (merge (s.regs (word_of offset)) offset size value))
          (port_of offset)
          (word_of offset)
          (lane_value offset size value)
unfolding write
regs-write s offset value size inside =
    let modeled : leb modeled_size (aligned offset) ≡ false = ground arith in
    rw modeled (elim (Bool-cases (place_of offset == 0x14)) [
      | inl e ↦ rw e (regs-update_irq _ _)
      | inr e ↦ rw e refl
    ])

-- A write of one, two or four bytes to a set register of any port sets, in the canonical register
-- of the same port, exactly the bits that it carries; the set register reads as zero afterwards,
-- and every other register `w` keeps its value.
pub write_sets :
    (s : Gpio) (offset value size reg i w : ℕ)
    → IsSize size
    → i < 32
    → offset < modeled_size
    → access (place_of offset) ≡ sets reg
    → w ≢ canonical_reg (port_of offset) reg
    → w ≢ word_of offset
    → let s' = write s offset value size in
      let canonical = canonical_reg (port_of offset) reg in
      (test_bit (s'.regs canonical) i
        ≡ (test_bit (s.regs canonical) i || written offset size value i))
      × (s'.regs (word_of offset) ≡ 0)
      × (s'.regs w ≡ s.regs w)
unfolding apply_access
write_sets s offset value size reg i w z p inside e n m =
    let apart : canonical_reg (port_of offset) reg ≢ word_of offset =
      omega (arith, access_sets (place_of offset) reg e) in
    let lane = lane_value offset size value in
    let old = s.regs (canonical_reg (port_of offset) reg) in
    rw (regs-write s offset value size inside, e)
      (
        ground (arith, test_bit-bit_or old lane i, test_bit-lane_value offset size value i z p),
        ground arith,
        ground arith,
      )

-- A write of one, two or four bytes to a clear register of any port clears, in the canonical
-- register of the same port, exactly the bits that it carries; the clear register reads as zero
-- afterwards, and every other register `w` keeps its value.
pub write_clears :
    (s : Gpio) (offset value size reg i w : ℕ)
    → IsSize size
    → i < 32
    → offset < modeled_size
    → access (place_of offset) ≡ clears reg
    → w ≢ canonical_reg (port_of offset) reg
    → w ≢ word_of offset
    → let s' = write s offset value size in
      let canonical = canonical_reg (port_of offset) reg in
      (test_bit (s'.regs canonical) i
        ≡ (test_bit (s.regs canonical) i && not (written offset size value i)))
      × (s'.regs (word_of offset) ≡ 0)
      × (s'.regs w ≡ s.regs w)
unfolding apply_access
write_clears s offset value size reg i w z p inside e n m =
    let apart : canonical_reg (port_of offset) reg ≢ word_of offset =
      omega (arith, access_clears (place_of offset) reg e) in
    let lane = lane_value offset size value in
    let old = s.regs (canonical_reg (port_of offset) reg) in
    rw (regs-write s offset value size inside, e)
      (
        ground (
          arith,
          test_bit-bit_and old (not32 lane) i,
          test_bit-not32 lane i p,
          test_bit-lane_value offset size value i z p,
        ),
        ground arith,
        ground arith,
      )

-- A write of one, two or four bytes in the modelled window latches no flag: it clears the flags
-- that a write to the flag-clear register carries, which is the set register of the data register,
-- and leaves all others.
pub write_flags :
    (s : Gpio) (offset value size port i : ℕ)
    → IsSize size
    → i < 32
    → offset < modeled_size
    → test_bit ((write s offset value size).flag port) i ≡ (
        if port == port_of offset && place_of offset == 0x14
        then test_bit (s.flag port) i && not (written offset size value i)
        else test_bit (s.flag port) i)
unfolding write
write_flags s offset value size port i z p inside = ground (
  arith,
  test_bit-bit_and (s.flag port) (not32 (lane_value offset size value)) i,
  test_bit-not32 (lane_value offset size value) i p,
  test_bit-lane_value offset size value i z p,
)

pow-positive : (k : ℕ) → (2 ^ k == 0) ≡ false
pow-positive k = ground (arith, one-le-pow k 2)

-- What a change of a pin leaves: the registers, and the level of the pin.
set_input_level-regs :
    (s : Gpio) (port mask : ℕ) (high latch : Bool)
    → (set_input_level s port mask high latch).1.regs ≡ s.regs
unfolding set_input_level update_irq notify_trace
set_input_level-regs s port mask high latch = ground arith

set_input_level-pin :
    (s : Gpio) (port pin : ℕ) (high latch : Bool)
    → port < num_ports
    → pin < 32
    → test_bit ((set_input_level s port (2 ^ pin) high latch).1.input_level port) pin ≡ high
unfolding set_input_level update_irq notify_trace
set_input_level-pin s port pin high latch lt p = ground (
  arith,
  pow-positive pin,
  test_bit-bit_or (s.input_level port) (2 ^ pin) pin,
  test_bit-bit_and (s.input_level port) (not32 (2 ^ pin)) pin,
  test_bit-not32 (2 ^ pin) pin p,
  test_bit-pow pin pin,
)

-- Without a sample callback, and with the bit of a pin clear in the stored register: after the board
-- has set the level of the pin, whether it latches a flag or not, a read of the whole pin register of
-- the port shows that level, but a byte read of its second to its fourth byte is what it was before,
-- whichever pin has changed.
pub read_pins_unaligned :
    (s : Gpio) (port pin byte : ℕ) (high latch : Bool)
    → port < num_ports
    → pin < 32
    → 0 < byte
    → byte < 4
    → test_bit (s.regs (port * 64)) pin ≡ false
    → let t = (set_input_level s port (2 ^ pin) high latch).1 in
      let register = port * port_stride in
      (test_bit (read (λ p v. v) t register 4).0 pin ≡ high)
      × ((read (λ p v. v) t (register + byte) 1).0 ≡ (read (λ p v. v) s (register + byte) 1).0)
unfolding read read_pins
read_pins_unaligned s port pin byte high latch lt p low up clear =
    let t = (set_input_level s port (2 ^ pin) high latch).1 in
    let register = port * port_stride in
    let modeled : leb modeled_size (aligned register) ≡ false = ground arith in
    let is_pin : (register % port_stride == 0x00) ≡ true = ground arith in
    let word : aligned register / 4 ≡ port * 64 = omega arith in
    let at_port : aligned register / port_stride ≡ port = omega arith in
    let shift : register % 4 ≡ 0 = omega arith in
    let offset = register + byte in
    let modeled_byte : leb modeled_size (aligned offset) ≡ false = ground arith in
    let not_pin : (offset % port_stride == 0x00) ≡ false = ground arith in
    let not_flag : (offset % port_stride == 0x80) ≡ false = ground arith in
    let regs = set_input_level-regs s port (2 ^ pin) high latch in
    let pins : (read (λ p v. v) t register 4).0 ≡ bit_or (s.regs (port * 64)) (t.input_level port) =
      rw (modeled, is_pin, word, at_port, regs) (extract32_word _ register shift) in
    let bit : test_bit (bit_or (s.regs (port * 64)) (t.input_level port)) pin ≡ high = ground (
      arith,
      clear,
      test_bit-bit_or (s.regs (port * 64)) (t.input_level port) pin,
      set_input_level-pin s port pin high latch lt p,
    ) in
    (rw pins bit, rw (modeled_byte, not_pin, not_flag, regs) refl)
