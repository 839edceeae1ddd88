-- ===== src/Tcu/Registers.antt =====
-- The register window of the timer unit, its reset and its reload: jz4740_tcu.c from tcu_read_word on.
use bbk9588_emulator.Base.{
  ℕ, ◌*◌, ◌/◌, ◌%◌, ◌^◌, bit_and, bit_or, Bool, false, ◌||◌, ◌==◌, if◌then◌else◌, List, [], ◌∷◌,
  update, none, some,
}
use bbk9588_emulator.Bits.{not32}
use bbk9588_emulator.Mmio.{aligned, lane_value, merge, extract32}
use bbk9588_emulator.Tcu.Counter.{HostUtils, Tcu, channel_mask, flag_mask, tcsr_rw_mask}
use bbk9588_emulator.Tcu.Deadline.{sync_irq, schedule, timer_cb}
use bbk9588_emulator.Tcu.Channel.{
  Clock, read_counter, channel_reg, write_channel, enable, disable, stop, start,
}

-- A register of a channel, as `tcu_read_word` reads it.
unfoldable pub channel_value : HostUtils → Tcu → ℕ → ℕ → ℕ → ℕ → ℕ
channel_value host s offset channel reg now_ns =
    if reg == 0x00
    then s.compare channel
    else if reg == 0x04
    then s.half_compare channel
    else if reg == 0x08
    then read_counter host s channel now_ns
    else bit_and (s.regs (offset / 4)) tcsr_rw_mask

-- The offsets TESR, TECR, TFSR, TFCR, TSSR, TMSR, TMCR and TSCR read as 0.
abbrev pub is_write_only : ℕ → Bool
is_write_only offset =
    offset == 0x14
    || offset == 0x18
    || offset == 0x24
    || offset == 0x28
    || offset == 0x2c
    || offset == 0x34
    || offset == 0x38
    || offset == 0x3c

-- The variable `value` of `tcu_read_word`.
unfoldable pub word_value : HostUtils → Tcu → ℕ → ℕ → ℕ
word_value host s offset now_ns =
    if is_write_only offset
    then 0
    else if offset == 0x08
    then read_counter host s 0 now_ns
    else if offset == 0x10
    then s.enabled_mask
    else if offset == 0x1c
    then s.stop_mask
    else if offset == 0x20
    then s.pending_mask
    else if offset == 0x30
    then s.irq_mask
    else elim (channel_reg offset) [
      | some (channel, reg) ↦ channel_value host s offset channel reg now_ns
      | none ↦
          if offset == 0x04 || offset == 0x0c
          then bit_or (s.regs (offset / 4)) 1
          else s.regs (offset / 4)
    ]

-- `tcu_read_word`
unfoldable pub read_word : HostUtils → Tcu → ℕ → ℕ → ℕ × Tcu
read_word host s offset now_ns =
    let value = word_value host s offset now_ns in
    (value, record s { last_read_offset = offset; last_read_value = value })

-- The switch of `tcu_write_word`: TESR, TECR, TFSR, TFCR, TSSR, TMSR, TMCR and TSCR.
unfoldable pub dispatch : HostUtils → Tcu → ℕ → ℕ → Clock → Tcu
dispatch host s offset value clock =
    let channels = bit_and value channel_mask in
    let flags = bit_and value flag_mask in
    if offset == 0x14
    then schedule host (enable host s channels clock.now_ns) clock.schedule_ns
    else if offset == 0x18
    then schedule host (sync_irq (disable host s channels clock.now_ns)) clock.schedule_ns
    else if offset == 0x24
    then sync_irq (record s { pending_mask = bit_or s.pending_mask flags })
    else if offset == 0x28
    then schedule host (sync_irq (record s { pending_mask = bit_and s.pending_mask (not32 flags) }))
        clock.schedule_ns
    else if offset == 0x2c
    then schedule host (stop host s channels clock.now_ns) clock.schedule_ns
    else if offset == 0x34
    then sync_irq (record s { irq_mask = bit_or s.irq_mask flags })
    else if offset == 0x38
    then schedule host (sync_irq (record s { irq_mask = bit_and s.irq_mask (not32 flags) }))
        clock.schedule_ns
    else if offset == 0x3c
    then schedule host (start host s channels clock.now_ns) clock.schedule_ns
    else write_channel host s offset value clock

-- `tcu_write_word`
unfoldable pub write_word : HostUtils → Tcu → ℕ → ℕ → Clock → Tcu
write_word host s offset value clock =
    dispatch host (record s { last_write_offset = offset; last_write_value = value }) offset value
      clock

-- `tcu_read`
unfoldable pub read : HostUtils → Tcu → ℕ → ℕ → ℕ → ℕ × Tcu
read host s offset size now_ns =
    let (value, s') = read_word host s (aligned offset) now_ns in (extract32 value offset size, s')

-- `tcu_write`
unfoldable pub write : HostUtils → Tcu → ℕ → ℕ → ℕ → Clock → Tcu
write host s offset value size clock =
    let merged = merge (s.regs (aligned offset / 4)) offset size value in
    write_word host (record s { regs = update s.regs (aligned offset / 4) merged }) (aligned offset)
      (elim (channel_reg (aligned offset)) [
        | some _ ↦ merged
        | none ↦ lane_value offset size value
      ])
      clock

-- `tcu_reset_hold`. The recorded lines start again after the levels 0 that it drives.
unfoldable pub reset_hold : Tcu → ℕ → Tcu
reset_hold s now_ns = record s {
  regs = λ _. 0;
  counter = λ _. 0;
  enabled_mask = 0;
  stop_mask = 0;
  pending_mask = 0;
  irq_mask = 0;
  last_read_offset = 0;
  last_read_value = 0;
  last_write_offset = 0;
  last_write_value = 0;
  irq_raise_count = 0;
  counter_anchor_ns = λ _. now_ns;
  compare = λ _. s.default_period_ms * 1000 % 2 ^ 32;
  half_compare = λ _. s.default_period_ms * 1000 % 2 ^ 32;
  period_ms = λ _. s.default_period_ms;
  half_period_ms = λ _. s.default_period_ms;
  period_ns = λ _. 0;
  half_period_ns = λ _. 0;
  deadline_ns = λ _. 0;
  half_deadline_ns = λ _. 0;
  output_level = λ _. false;
  lines = λ _. [];
  timer = none;
}

-- `tcu_post_load`. The output levels are forgotten, so that a low line is driven by a change only.
unfoldable pub post_load : HostUtils → Tcu → ℕ → Tcu
post_load host s now_ns = schedule host (sync_irq (record s { output_level = λ _. false })) now_ns

-- What the board and the guest do to the unit between two resets.
pub data Op : Type 0 where
  timer : ℕ → ℕ → Op
  mmio_read : ℕ → ℕ → ℕ → Op
  mmio_write : ℕ → ℕ → ℕ → Clock → Op

unfoldable pub step : HostUtils → Tcu → Op → Tcu
step host s (timer now_ns later_ns) = timer_cb host s now_ns later_ns
step host s (mmio_read offset size now_ns) = (read host s offset size now_ns).1
step host s (mmio_write offset value size clock) = write host s offset value size clock

unfoldable pub run : HostUtils → Tcu → List Op → Tcu
run host s [] = s
run host s (op ∷ ops) = run host (step host s op) ops
