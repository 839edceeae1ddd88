-- ===== src/Tcu/Channel.antt =====
-- What register accesses do to the channels of the timer unit: jz4740_tcu.c from tcu_update_compare to
-- tcu_channel_reg, and the cases of tcu_write_word up to the schedule.
use bbk9588_emulator.Base.{
  ℕ, ◌/◌, ◌%◌, ◌^◌, ◌-◌, bit_and, bit_or, not, ◌&&◌, ◌||◌, ◌==◌, ltb, leb, if◌then◌else◌, update,
  Option, none, some,
}
use bbk9588_emulator.Bits.{not32}
use bbk9588_emulator.Tcu.Counter.{
  HostUtils, Tcu, num_channels, tcsr_rw_mask, low16, for_each, channel_index, channel_or_0,
  current_counter, latch_counter, update_period_cache,
}
use bbk9588_emulator.Tcu.Deadline.{schedule}

-- What `qemu_clock_get_ns` returns in one write: on entry, in the called function, and in `tcu_schedule`.
pub record Clock : Type 0 where
  pub now_ns : ℕ
  pub inner_ns : ℕ
  pub schedule_ns : ℕ

-- The two branches of `tcu_update_compare` after the counter is latched.
unfoldable pub set_compare : Tcu → ℕ → ℕ → ℕ → Tcu
set_compare s channel reg compare =
    if reg == 0x04
    then record s {
      half_compare = update s.half_compare channel compare;
      half_deadline_ns = update s.half_deadline_ns channel 0;
    }
    else record s {
      compare = update s.compare channel compare;
      counter =
          if not (compare == 0) && leb compare (s.counter channel)
          then update s.counter channel (s.counter channel % compare)
          else s.counter;
      deadline_ns = update s.deadline_ns channel 0;
    }

-- `tcu_update_compare`
unfoldable pub update_compare : HostUtils → Tcu → ℕ → ℕ → ℕ → ℕ → Tcu
update_compare host s channel reg compare now_ns =
    if leb num_channels channel
    then s
    else let latched = latch_counter host s channel now_ns in
      let stored : Tcu = record latched {
        regs = update latched.regs (channel_index channel reg) (low16 compare);
      } in
      update_period_cache host (set_compare stored channel reg (low16 compare)) channel

-- `tcu_write_counter`
unfoldable pub write_counter : Tcu → ℕ → ℕ → ℕ → Tcu
write_counter s c value now_ns =
    let channel = channel_or_0 c in
    record s {
      counter = update s.counter channel (low16 value);
      counter_anchor_ns = update s.counter_anchor_ns channel now_ns;
      regs = update s.regs (channel_index channel 0x08) (low16 value);
    }

-- `tcu_read_counter`
unfoldable pub read_counter : HostUtils → Tcu → ℕ → ℕ → ℕ
read_counter host s c now_ns = low16 (current_counter host s (channel_or_0 c) now_ns)

-- `tcu_channel_reg`: the channel and its register, if the offset names one.
unfoldable pub channel_reg : ℕ → Option (ℕ × ℕ)
channel_reg offset =
    if ltb offset 0x40 || leb 0xc0 offset
    then none
    else let channel = (offset - 0x40) / 0x10 in
      let reg = (offset - 0x40) % 0x10 in
      if reg == 0x00 || reg == 0x04 || reg == 0x08 || reg == 0x0c then some (channel, reg) else none

-- One round of the loop `for (ch ...) if (value & (1u << ch)) tcu_latch_counter(s, ch, now_ns)`.
abbrev pub latch_marked : HostUtils → ℕ → ℕ → ℕ → Tcu → Tcu
latch_marked host value now_ns ch t =
    if bit_and value (2 ^ ch) == 0 then t else latch_counter host t ch now_ns

unfoldable pub latch_channels : HostUtils → Tcu → ℕ → ℕ → Tcu
latch_channels host s value now_ns = for_each num_channels (latch_marked host value now_ns) s

-- The same loop where it clears the deadlines too.
abbrev pub clear_deadlines : ℕ → Tcu → Tcu
clear_deadlines ch t = record t {
  deadline_ns = update t.deadline_ns ch 0;
  half_deadline_ns = update t.half_deadline_ns ch 0;
}

abbrev pub halt_marked : HostUtils → ℕ → ℕ → ℕ → Tcu → Tcu
halt_marked host value now_ns ch t =
    if bit_and value (2 ^ ch) == 0 then t else clear_deadlines ch (latch_counter host t ch now_ns)

unfoldable pub halt_channels : HostUtils → Tcu → ℕ → ℕ → Tcu
halt_channels host s value now_ns = for_each num_channels (halt_marked host value now_ns) s

-- A write of TCSR.
unfoldable pub write_control : HostUtils → Tcu → ℕ → ℕ → ℕ → ℕ → Tcu
write_control host s channel reg value now_ns =
    let latched = latch_counter host s channel now_ns in
    update_period_cache host
      (record latched {
        regs = update latched.regs (channel_index channel reg) (bit_and value tcsr_rw_mask);
      })
      channel

-- A write of a register of a channel, before the schedule.
unfoldable pub set_channel : HostUtils → Tcu → ℕ → ℕ → ℕ → Clock → Tcu
set_channel host s channel reg value clock =
    if reg == 0x08
    then write_counter s channel value clock.inner_ns
    else if reg == 0x0c
    then write_control host s channel reg value clock.now_ns
    else update_compare host s channel reg value clock.inner_ns

-- The `default` case of `tcu_write_word`.
unfoldable pub write_channel : HostUtils → Tcu → ℕ → ℕ → Clock → Tcu
write_channel host s offset value clock = elim (channel_reg offset) [
  | none ↦ s
  | some (channel, reg) ↦
      schedule host (set_channel host s channel reg value clock) clock.schedule_ns
]

-- The case TCU_TESR up to the schedule. `fresh` are the channels that were not enabled.
unfoldable pub enable : HostUtils → Tcu → ℕ → ℕ → Tcu
enable host s channels now_ns =
    let fresh = bit_and channels (not32 s.enabled_mask) in
    let latched = latch_channels host s fresh now_ns in
    record latched { enabled_mask = bit_or latched.enabled_mask fresh }

-- The case TCU_TECR up to the calls that follow.
unfoldable pub disable : HostUtils → Tcu → ℕ → ℕ → Tcu
disable host s channels now_ns =
    let halted = halt_channels host s channels now_ns in
    record halted { enabled_mask = bit_and halted.enabled_mask (not32 channels) }

-- The case TCU_TSSR up to the schedule.
unfoldable pub stop : HostUtils → Tcu → ℕ → ℕ → Tcu
stop host s channels now_ns =
    let halted = halt_channels host s channels now_ns in
    record halted { stop_mask = bit_or halted.stop_mask channels }

-- The case TCU_TSCR up to the schedule.
unfoldable pub start : HostUtils → Tcu → ℕ → ℕ → Tcu
start host s channels now_ns =
    latch_channels host (record s { stop_mask = bit_and s.stop_mask (not32 channels) })
      (bit_and channels s.enabled_mask) now_ns
