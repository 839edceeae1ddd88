-- ===== src/Emc/Registers.antt =====
-- The register window of qemu/overlay/hw/mem/jz4740_emc.c: emc_read_reg, emc_write_reg, emc_read,
-- emc_write, reset and reload.
use bbk9588_emulator.Base.{
  ℕ, ◌+◌, ◌*◌, ◌/◌, bit_and, bit_or, min, Bool, not, ◌&&◌, ◌==◌, leb, ltb, if◌then◌else◌, List, [],
  ◌∷◌,
}
use bbk9588_emulator.Bits.{has, not32}
use bbk9588_emulator.Mmio.{aligned, merge, extract32}
use bbk9588_emulator.Emc.State.{
  Codec, Emc, block_bytes, nfcsr, nfeccr, nfecc, nfpar2, nfints, nfinte, nferr0, ecce, erst, rse,
  prdy, set, update_irq, begin_block, clear_results, rs_decode_complete, nand_data,
}

-- `EMC_NFERR0 <= offset <= EMC_NFERR3`
abbrev pub is_error : ℕ → Bool
is_error i = leb nferr0 i && ltb i (nferr0 + 4)

module _ (c : Codec) where
  -- `emc_read_reg`, of the register with the index
  unfoldable pub read_reg : Emc → ℕ → ℕ × Emc
  read_reg s i =
      if i == nfcsr
      then (bit_and (s.regs i) 0xff, s)
      else if i == nfeccr
      then (bit_and (s.regs i) 0x0d, s)
      else if i == nfecc
      then (let t =
            if bit_and (s.regs nfeccr) (bit_or ecce rse) == ecce
            then set s nfecc (c.hamming_encode s.ecc_data s.ecc_data_count)
            else s in
          (bit_and (t.regs nfecc) 0xffffff, t))
      else if i == nfpar2
      then (bit_and (s.regs i) 0xff, s)
      else if i == nfinte
      then (bit_and (s.regs i) 0x17, s)
      else if is_error i
      then (bit_and (s.regs i) 0x01ff01ff, s)
      else (s.regs i, s)

  -- The case EMC_NFECCR of `emc_write_reg`.
  unfoldable pub write_eccr : Emc → ℕ → Emc
  write_eccr s value =
      let old_control = s.regs nfeccr in
      let cleared = if has value erst then clear_results s else s in
      let control = bit_and value 0x0d in
      let t = set cleared nfeccr control in
      let begun =
        if has control ecce && not (has old_control ecce) && not (has value erst)
        then begin_block t
        else t in
      if has value prdy && bit_and control 0x0d == bit_or ecce rse
      then rs_decode_complete c begun
      else begun

  -- The switch of `emc_write_reg`.
  unfoldable pub store_reg : Emc → ℕ → ℕ → Emc
  store_reg s i value =
      if i == nfcsr
      then set s i (bit_and value 0xff)
      else if i == nfeccr
      then write_eccr s value
      else if i == nfecc
      then s
      else if i == nfpar2
      then set s i (bit_and value 0xff)
      else if i == nfints
      then update_irq (set s i (bit_and (s.regs i) (bit_or value (not32 0x1f))))
      else if i == nfinte
      then update_irq (set s i (bit_and value 0x17))
      else if is_error i
      then s
      else set s i value

  -- `emc_write_reg`, with the board's callback installed
  unfoldable pub write_reg : Emc → ℕ → ℕ → Emc
  write_reg s i value =
      let t = store_reg s i value in record t { board_writes = (i * 4, t.regs i) ∷ t.board_writes }

  -- `emc_read`
  unfoldable pub read : Emc → ℕ → ℕ → ℕ × Emc
  read s offset size =
      if leb 0x10000 (aligned offset)
      then (0, s)
      else (let (value, t) = read_reg s (aligned offset / 4) in
          (
            extract32 value offset size,
            record t { last_read_offset = offset; last_read_value = value },
          ))

  -- `emc_write`
  unfoldable pub write : Emc → ℕ → ℕ → ℕ → Emc
  write s offset value size =
      let i = aligned offset / 4 in
      let merged = merge (s.regs i) offset size value in
      if leb 0x10000 (aligned offset)
      then s
      else record (write_reg s i merged) { last_write_offset = offset; last_write_value = merged }

-- `emc_reset_hold`
unfoldable pub reset_hold : Emc → Emc
reset_hold s = update_irq (record s {
  regs = λ i. 0;
  last_read_offset = 0;
  last_read_value = 0;
  last_write_offset = 0;
  last_write_value = 0;
  ecc_data = λ i. 0;
  ecc_data_count = 0;
})

-- A restore: the fields that `vmstate_jz4740_emc` lists come from the saved state, the line stands as it
-- is.
abbrev pub restore : Emc → Emc → Emc
restore s saved = record saved {
  output = s.output;
  board_writes = s.board_writes;
  irq_level = s.irq_level;
}

-- `emc_post_load`, after a restore
unfoldable pub post_load : Emc → Emc
post_load s = update_irq (record s { ecc_data_count = min s.ecc_data_count block_bytes })

-- What the bus, the NAND device and the loader ask of the controller.
pub data Op : Type 0 where
  mmio_read : ℕ → ℕ → Op
  mmio_write : ℕ → ℕ → ℕ → Op
  data_access : ℕ → ℕ → Bool → Op
  load : Emc → Op

unfoldable pub step : Codec → Emc → Op → Emc
step c s (mmio_read offset size) = (read c s offset size).1
step c s (mmio_write offset value size) = write c s offset value size
step c s (data_access value size write) = nand_data c s value size write
step c s (load saved) = post_load (restore s saved)

unfoldable pub run : Codec → Emc → List Op → Emc
run c s [] = s
run c s (op ∷ ops) = run c (step c s op) ops
