-- ===== src/Dmac/Registers.antt =====
-- The register window of qemu/overlay/hw/dma/jz4740_dmac.c: dmac_channel_offset, dmac_read,
-- dmac_write, dmac_reset_hold and dmac_post_load.
use bbk9588_emulator.Base.{
  ℕ, ◌/◌, ◌%◌, bit_and, bit_or, true, false, ◌||◌, ◌==◌, leb, ltb, if◌then◌else◌, Option, none,
  some, [],
}
use bbk9588_emulator.Bits.{not32}
use bbk9588_emulator.Mmio.{aligned, merge, extract32}
use bbk9588_emulator.Dmac.State.{
  Env, Dmac, num_channels, dtc, drt, dcs, dda, dmacr, dirqp, ddb, ddbs, dcs_ndes, dcs_cdoa_mask,
  dcs_status_mask, dcs_cte, channel_mask, reg, set_reg, sync_irq,
}
use bbk9588_emulator.Dmac.Channel.{record_audio_rearm, trace}
use bbk9588_emulator.Dmac.Transfer.{try_channel, try_below}

-- `dmac_channel_offset`: the channel and the register of an offset
unfoldable pub channel_offset : ℕ → Option (ℕ × ℕ)
channel_offset offset =
    let channel = offset / 0x20 in
    let register = aligned (offset % 0x20) in
    if leb num_channels channel || ltb dda register then none else some (channel, register)

-- `dmac_read`
unfoldable pub read : {W : Type 0} → Dmac W → ℕ → ℕ → ℕ
read s offset size = extract32 (reg s (aligned offset)) offset size

-- `jz4740_dmac_get_reg`
unfoldable pub get_reg : {W : Type 0} → Dmac W → ℕ → ℕ
get_reg s offset = if leb 0x10000 offset then 0 else reg s (aligned offset)

-- The bits of a channel's register that a write keeps.
unfoldable pub kept_bits : ℕ → ℕ → ℕ
kept_bits register value =
    if register == dcs
    then bit_and value (bit_or (bit_or (bit_or dcs_ndes dcs_cdoa_mask) dcs_status_mask) dcs_cte)
    else if register == dtc
    then bit_and value 0xffffff
    else if register == drt
    then bit_and value 0x1f
    else if register == dda
    then bit_and value (not32 0x0f)
    else value

module _ (e : Env) where
  -- A write to a register of a channel, once `reg` is stored; `old` is what stood there.
  unfoldable pub write_channel : Dmac e.World → ℕ → ℕ → ℕ → ℕ → ℕ → Dmac e.World
  write_channel s offset channel register old value =
      let kept = set_reg s offset (kept_bits register value) in
      let noted =
        if register == dcs then record_audio_rearm e kept channel old (reg kept offset) else kept in
      let traced = trace e noted 1 channel offset (reg noted offset) in
      try_channel e (sync_irq traced) true channel

  -- `dmac_write`
  unfoldable pub write : Dmac e.World → ℕ → ℕ → ℕ → Dmac e.World
  write s offset value size =
      let at = aligned offset in
      let old = reg s at in
      let word = merge old offset size value in
      let stored = set_reg s at word in
      if at == dmacr
      then sync_irq
          (try_below e true num_channels (set_reg stored at (bit_and word (bit_or 0x01 0x300))))
      else if at == dirqp
      then sync_irq stored
      else if at == ddb
      then try_below e false num_channels (set_reg stored ddb (bit_and word channel_mask))
      else if at == ddbs
      then try_below e false num_channels
          (set_reg stored ddb (bit_or (reg stored ddb) (bit_and word channel_mask)))
      else elim (channel_offset at) [
        | none ↦ stored
        | some (channel, register) ↦ write_channel stored at channel register old word
      ]

  -- `dmac_reset_hold`
  unfoldable pub reset_hold : Dmac e.World → Dmac e.World
  reset_hold s = record s {
    output = [];
    regs = λ _. 0;
    request_levels = 0;
    irq_level = false;
    transferring = false;
    audio = record {
      completion_count = 0;
      rearm_count = 0;
      last_completion_ns = 0;
      completion_underruns = 0;
      last_rearm_gap_ns = 0;
      max_rearm_gap_ns = 0;
      total_rearm_gap_ns = 0;
      last_gap_underruns = 0;
      total_gap_underruns = 0;
      last_units = 0;
      completion_fifo = 0;
      rearm_fifo = 0;
    };
  }

  -- `dmac_post_load`
  unfoldable pub post_load : Dmac e.World → Dmac e.World
  post_load s = sync_irq (record s { irq_level = false; transferring = false })
