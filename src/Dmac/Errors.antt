-- ===== src/Dmac/Errors.antt =====
-- Address errors of qemu/overlay/hw/dma/jz4740_dmac.c: dmac_set_address_error and the ranges of
-- dmac_try_auto_transfer.
use bbk9588_emulator.Base.{
  ℕ, ◌+◌, ◌*◌, ◌/◌, ◌<◌, ◌≡◌, refl, ◌∙◌, arith, true, false, not, ◌||◌, ◌==◌, leb, ◌⊎◌, bit_and,
  bit_or,
}
use bbk9588_emulator.Bits.{test_bit-bit_or, bit_and-bit, bit_and-covered}
use bbk9588_emulator.Dmac.State.{
  Env, Dmac, num_channels, dsa, dta, dtc, dcs, dmacr, dcs_ar, dcs_hlt, reg, set_reg, chan, set_chan,
  chan_demands, ram_range_valid,
}
use bbk9588_emulator.Dmac.Channel.{set_address_error}
use bbk9588_emulator.Dmac.Transfer.{try_auto_transfer}
use bbk9588_emulator.Dmac.Auto.{IsReady, bytes_left, sync_irq-regs, sync_irq-world, starts}
use bbk9588_emulator.Dmac.Status.{any_demands-one, sync_irq-demands}

-- An address error on a channel: it is marked and signalled, and otherwise the channel and the
-- machine stand as they were.
pub record IsRejected {W : Type 0} (s t : Dmac W) (channel : ℕ) : Type 0 where
  pub world : t.world ≡ s.world
  pub marked : chan t channel dcs ≡ bit_or (chan s channel dcs) dcs_ar
  pub source : chan t channel dsa ≡ chan s channel dsa
  pub target : chan t channel dta ≡ chan s channel dta
  pub count : chan t channel dtc ≡ chan s channel dtc
  pub signalled : t.irq_level ≡ true

module _ {W : Type 0} where
  pub set_address_error-IsRejected :
      (s : Dmac W) (channel : ℕ)
      → channel < num_channels
      → IsRejected s (set_address_error s channel) channel
  unfolding set_address_error
  set_address_error-IsRejected s channel h =
      let near : leb num_channels channel ≡ false = ground arith in
      let marked = set_chan s channel dcs (bit_or (chan s channel dcs) dcs_ar) in
      let t = set_reg marked dmacr (bit_or (reg marked dmacr) 0x04) in
      let demanded : chan_demands t channel ≡ true =
        let st : ℕ = bit_or (chan s channel dcs) dcs_ar in
        let ar : (bit_and st dcs_ar == 0) ≡ false =
          ground (arith, bit_and-bit 4 st, test_bit-bit_or (chan s channel dcs) dcs_ar 4) in
        let here : chan t channel dcs ≡ st = ground arith in
        ground
          (arith, here, bit_and-covered st dcs_ar (bit_or dcs_ar dcs_hlt) (omega arith) refl ar) in
      rw near record {
        world = sync_irq-world t;
        marked =
            sync_irq-regs t ((channel * 0x20 + dcs) / 4) (omega arith) (omega arith) ∙ ground arith;
        source =
            sync_irq-regs t ((channel * 0x20 + dsa) / 4) (omega arith) (omega arith) ∙ ground arith;
        target =
            sync_irq-regs t ((channel * 0x20 + dta) / 4) (omega arith) (omega arith) ∙ ground arith;
        count =
            sync_irq-regs t ((channel * 0x20 + dtc) / 4) (omega arith) (omega arith) ∙ ground arith;
        signalled = sync_irq-demands t ∙ any_demands-one t channel num_channels h demanded;
      }

-- A channel that is enabled and set up without descriptors for a copy from memory to memory (automatic
-- requests, a known unit, some units left and less than 2 ^ 32 bytes in all), and whose source or
-- target does not lie in memory, does not start: it reports an address error, the line is high, and no
-- byte of memory, no count and no address of the channel has changed.
pub out_of_memory-IsRejected :
    (e : Env) (s : Dmac e.World) (channel : ℕ)
    → IsReady s channel
    → (ram_range_valid s (chan s channel dsa) (bytes_left s channel) ≡ false)
      ⊎ (ram_range_valid s (chan s channel dta) (bytes_left s channel) ≡ false)
    → IsRejected s (try_auto_transfer e s channel) channel
out_of_memory-IsRejected e s channel ready out =
    let outside : (not (ram_range_valid s (chan s channel dsa) (bytes_left s channel))
          || not (ram_range_valid s (chan s channel dta) (bytes_left s channel)))
        ≡ true =
      ground arith in
    rw (starts e s channel ready, outside) (set_address_error-IsRejected s channel ready.exists)
