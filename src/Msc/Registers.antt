-- ===== src/Msc/Registers.antt =====
-- The register window of qemu/overlay/hw/sd/jz4740_msc.c: msc_read, msc_write, msc_reset_hold and
-- msc_post_load.
use bbk9588_emulator.Base.{
  ℕ, ◌-◌, bit_and, bit_or, min, Bool, false, ◌&&◌, ◌||◌, ◌==◌, leb, ltb, if◌then◌else◌, List, [],
  ◌∷◌, update,
}
use bbk9588_emulator.Bits.{has, not32}
use bbk9588_emulator.Mmio.{aligned, lane_value, merge, extract32}
use bbk9588_emulator.Msc.State.{
  Msc, response_bytes, strpcl, stat, imask, ireg, res, data_ready_mask, reg, set_reg,
  interrupt_status, update_irq, prepare_response, read_response, finish_dma,
}

-- `offset >= MSC_MMIO_SIZE || size > MSC_MMIO_SIZE - offset`
abbrev pub outside : ℕ → ℕ → Bool
outside offset size = leb 0x1000 offset || ltb (0x1000 - offset) size

-- `msc_read`
unfoldable pub read : Msc → ℕ → ℕ → ℕ × Msc
read s offset size =
    if outside offset size then (0, s) else if offset == res then read_response s size else (
      extract32 (if aligned offset == ireg then interrupt_status s else reg s (aligned offset))
          offset size,
      s,
    )

-- The case MSC_IREG of `msc_write`: what is written is acknowledged.
unfoldable pub write_ireg : Msc → ℕ → Msc
write_ireg s lane =
    let t = set_reg s ireg (bit_and (reg s ireg) (not32 lane)) in
    update_irq (if has lane data_ready_mask then record t { data_ready = false } else t)

-- The end of `msc_write`: the word is stored, a start bit starts the command.
unfoldable pub write_word : (Msc → Msc) → Msc → ℕ → ℕ → Msc
write_word kick s at word =
    let stored = set_reg s at word in
    let started =
      if at == strpcl && bit_and word 0xffff == 0x06
      then (let t = prepare_response kick stored in
          set_reg t stat (bit_or (bit_and (reg t stat) (not32 0x100)) 0x800))
      else stored in
    if at == imask then update_irq started else started

-- `msc_write`
unfoldable pub write : (Msc → Msc) → Msc → ℕ → ℕ → ℕ → Msc
write kick s offset value size =
    let at = aligned offset in
    if outside offset size
    then s
    else if at == ireg
    then write_ireg s (lane_value offset size value)
    else if at == res
    then s
    else write_word kick s at (merge (reg s at) offset size value)

-- `msc_reset_hold`
unfoldable pub reset_hold : Msc → Msc
reset_hold s = record s {
  output = [];
  regs = update (update (update (update (λ _. 0) 1 0x40) 4 0x40) 5 0xffff) 9 0xff;
  response = λ _. 0;
  response_len = 0;
  response_index = 0;
  read_pending = false;
  write_pending = false;
  data_ready = false;
  irq_level = false;
  read_lba = 0;
  write_lba = 0;
  last_command = 0;
  last_argument = 0;
  last_dma_phys = 0;
  last_dma_words = 0;
  dma_complete_count = 0;
}

-- A restore: the fields that `vmstate_jz4740_msc` lists come from the saved state, the line stands as it
-- is.
abbrev pub restore : Msc → Msc → Msc
restore s saved = record saved { output = s.output; commands = s.commands; irq_level = s.irq_level }

-- `msc_post_load`, after a restore
unfoldable pub post_load : Msc → Msc
post_load s =
    let len = min s.response_len response_bytes in
    update_irq (record s {
      response_len = len;
      response_index = min s.response_index len;
      write_pending = if s.read_pending && s.write_pending then false else s.write_pending;
    })

-- What the bus, the DMA bridge and the loader ask of the controller.
pub data Op : Type 0 where
  mmio_read : ℕ → ℕ → Op
  mmio_write : ℕ → ℕ → ℕ → Op
  finish : Bool → Op
  load : Msc → Op

unfoldable pub step : (Msc → Msc) → Msc → Op → Msc
step kick s (mmio_read offset size) = (read s offset size).1
step kick s (mmio_write offset value size) = write kick s offset value size
step kick s (finish ready) = finish_dma s ready
step kick s (load saved) = post_load (restore s saved)

unfoldable pub run : (Msc → Msc) → Msc → List Op → Msc
run kick s [] = s
run kick s (op ∷ ops) = run kick (step kick s op) ops
