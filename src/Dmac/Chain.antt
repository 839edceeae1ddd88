-- ===== src/Dmac/Chain.antt =====
-- Descriptors of qemu/overlay/hw/dma/jz4740_dmac.c in memory: dmac_descriptor_next and what
-- dmac_finish_transfer writes back.
use bbk9588_emulator.Base.{
  ℕ, ◌+◌, ◌-◌, ◌*◌, ◌/◌, ◌%◌, ◌^◌, ◌≤◌, ◌<◌, ◌≡◌, ◌∙◌, arith, true, leb, inl, inr, Bool-cases,
  bit_and, bit_or,
}
use bbk9588_emulator.Bits.{
  has, not32, test_bit, ext, test_bit-bit_and, test_bit-bit_or, bit_or-lt, test_bit-ones,
  test_bit-shl, test_bit-shr, bit_and-ones, bit_or-field, bit_and-le,
}
use mathlib.Core.List.{[], ◌∷◌}
use bbk9588_emulator.Dmac.State.{
  Env, Dmac, dda, chan, load_le32, memory_read, memory_write, memory_read_le32, memory_write_le32,
}
use bbk9588_emulator.Dmac.Channel.{descriptor_next, dcm_v, dcm_vm, dcm_link, finish_descriptor}
use bbk9588_emulator.Dmac.Memory.{Ram, physical, bytes_at}
use bbk9588_emulator.Dmac.Auto.{sync_irq-world}

bit_or_comm : (a b : ℕ) → a < 2 ^ 32 → b < 2 ^ 32 → bit_or a b ≡ bit_or b a
bit_or_comm a b h k =
    ext 32 (bit_or a b) (bit_or b a) (bit_or-lt 32 a b h k) (bit_or-lt 32 b a k h)
      λ i p. ground (arith, test_bit-bit_or a b i, test_bit-bit_or b a i)

-- The page of a descriptor.
page_of : (d : ℕ) → d < 2 ^ 32 → bit_and d 0xfffff000 ≡ d / 2 ^ 12 * 2 ^ 12
page_of d h =
    ext 32 (bit_and d 0xfffff000) (d / 2 ^ 12 * 2 ^ 12) (omega (arith, bit_and-le 32 d 0xfffff000))
      (omega arith)
      λ i p. ground (
        arith,
        test_bit-bit_and d 0xfffff000 i,
        test_bit-shl 12 (d / 2 ^ 12) i,
        test_bit-shr 12 d (i - 12),
        mask i p,
      )
  where
    mask : (i : ℕ) → i < 32 → test_bit 0xfffff000 i ≡ leb 12 i
    mask i p = ground (arith, test_bit-shl 12 0xfffff i, test_bit-ones 20 (i - 12))

-- The next descriptor stands in the page of the last one, at sixteen times the offset in the highest
-- byte of its fourth word.
pub descriptor_next_lem :
    (desc_addr desc_dtc : ℕ)
    → desc_addr < 2 ^ 32
    → descriptor_next desc_addr desc_dtc
      ≡ desc_addr / 2 ^ 12 * 2 ^ 12 + desc_dtc / 2 ^ 24 % 2 ^ 8 * 2 ^ 4
unfolding descriptor_next
descriptor_next_lem desc_addr desc_dtc h =
    let low : bit_and (desc_dtc / 2 ^ 24) 0xff ≡ desc_dtc / 2 ^ 24 % 2 ^ 8 =
      bit_and-ones 8 (desc_dtc / 2 ^ 24) in
    let q = desc_dtc / 2 ^ 24 % 2 ^ 8 in
    let page = desc_addr / 2 ^ 12 * 2 ^ 12 in
    rw (page_of desc_addr h, low)
      (bit_or_comm page (q * 2 ^ 4) (omega arith) (omega arith)
        ∙ bit_or-field 12 (q * 2 ^ 4) (desc_addr / 2 ^ 12) (omega arith)
        ∙ omega arith)

-- Four bytes, the lowest first, make the word that they come from.
load_le32-bytes :
    (v : ℕ)
    → v < 2 ^ 32
    → load_le32 (v % 256 ∷ v / 2 ^ 8 % 256 ∷ v / 2 ^ 16 % 256 ∷ v / 2 ^ 24 % 256 ∷ []) ≡ v
load_le32-bytes v h =
    let b0 = v % 256 in
    let b1 = v / 2 ^ 8 % 256 in
    let b2 = v / 2 ^ 16 % 256 in
    let b3 = v / 2 ^ 24 % 256 in
    let two = bit_or-field 8 b0 b1 (omega arith) in
    let three = bit_or-field 16 (b0 + b1 * 2 ^ 8) b2 (omega arith) in
    let four = bit_or-field 24 (b0 + b1 * 2 ^ 8 + b2 * 2 ^ 16) b3 (omega arith) in
    rw (two, three, four) (omega arith)

module _ (e : Env) (ram : Ram e) where
  -- A word that the controller writes to memory, it reads back.
  pub memory_read_le32-memory_write_le32 :
      (w : e.World) (addr v : ℕ)
      → physical addr + 4 ≤ ram.size
      → v < 2 ^ 32
      → memory_read_le32 e (memory_write_le32 e w addr v) addr ≡ v
  unfolding memory_read_le32 memory_write_le32 memory_read memory_write bytes_at
  memory_read_le32-memory_write_le32 w addr v inside h =
      let a = physical addr in
      let buf = v % 256 ∷ v / 2 ^ 8 % 256 ∷ v / 2 ^ 16 % 256 ∷ v / 2 ^ 24 % 256 ∷ [] in
      let byte = λ (i : ℕ) (p : i < ram.size). ram.write w a buf i inside p in
      let at = ram.peek (e.mem_write w a buf) in
      let first : at a ≡ v % 256 = byte a (omega arith) ∙ ground arith in
      let second : at (a + 1) ≡ v / 2 ^ 8 % 256 = byte (a + 1) (omega arith) ∙ ground arith in
      let third : at (a + 1 + 1) ≡ v / 2 ^ 16 % 256 =
        byte (a + 1 + 1) (omega arith) ∙ ground arith in
      let fourth : at (a + 1 + 1 + 1) ≡ v / 2 ^ 24 % 256 =
        byte (a + 1 + 1 + 1) (omega arith) ∙ ground arith in
      rw (ram.read (e.mem_write w a buf) a 4 inside, first, second, third, fourth)
        (load_le32-bytes v h)

  -- A descriptor that must be valid is marked as used when its transfer ends: the word that the
  -- controller would fetch next is the command with V clear. The other words of memory may be traced.
  pub finish_descriptor-owner :
      (s : Dmac e.World) (channel command : ℕ)
      → command < 2 ^ 32
      → physical (bit_and (chan s channel dda) (not32 0x0f)) + 4 ≤ ram.size
      → has command dcm_vm ≡ true
      → memory_read_le32 e
          (finish_descriptor e s channel command).world
          (bit_and (chan s channel dda) (not32 0x0f))
        ≡ bit_and command (not32 dcm_v)
  unfolding finish_descriptor
  finish_descriptor-owner s channel command c inside vm =
      let desc_addr = bit_and (chan s channel dda) (not32 0x0f) in
      let value = bit_and command (not32 dcm_v) in
      let stored =
        memory_read_le32-memory_write_le32 s.world desc_addr value inside
          (omega (arith, bit_and-le 32 command (not32 dcm_v))) in
      elim (Bool-cases (has command dcm_link)) [
        | inl link ↦ rw (vm, link) (rw (sync_irq-world {W = e.World}) stored)
        | inr last ↦ rw (vm, last) (rw (sync_irq-world {W = e.World}) stored)
      ]
