-- ===== src/Tcu/Counter.antt =====
-- The state of the timer unit and the count of a channel: jz4740_tcu.c up to tcu_update_period_cache.
use bbk9588_emulator.Base.{
  before, ℕ, zero, suc, ◌+◌, ◌*◌, ◌/◌, ◌%◌, ◌^◌, ◌-◌, bit_and, Bool, not, ◌&&◌, ◌||◌, ◌==◌, ltb,
  leb, if◌then◌else◌, List, update, min, max, Option,
}

-- `muldiv64` and `muldiv64_round_up` of QEMU's host-utils.
pub record HostUtils : Type 0 where
  pub muldiv64 : ℕ → ℕ → ℕ → ℕ
  pub muldiv64_round_up : ℕ → ℕ → ℕ → ℕ

-- `JZ4740_TCU_CHANNELS`
abbrev pub num_channels : ℕ
num_channels = 8

-- `TCU_MASK`
abbrev pub channel_mask : ℕ
channel_mask = 0xff

-- `TCU_FLAG_MASK`
abbrev pub flag_mask : ℕ
flag_mask = 0xff00ff

-- `TCU_TCSR_RW_MASK`
abbrev pub tcsr_rw_mask : ℕ
tcsr_rw_mask = 0x3bf

-- `x & 0xffffu`
abbrev pub low16 : ℕ → ℕ
low16 x = x % 2 ^ 16

-- `JZ4740TCUState`. Arrays are functions of the index, and a time is the 64-bit pattern of an int64_t.
-- `lines` lists for each output what `qemu_set_irq` drove on it since the last reset, the latest
-- first; `timer` is the time that the timer is set to, if it is.
pub record Tcu : Type 0 where
  pub lines : ℕ → List Bool
  pub timer : Option ℕ
  pub regs : ℕ → ℕ
  pub counter : ℕ → ℕ
  pub counter_anchor_ns : ℕ → ℕ
  pub enabled_mask : ℕ
  pub stop_mask : ℕ
  pub pending_mask : ℕ
  pub irq_mask : ℕ
  pub default_period_ms : ℕ
  pub compare : ℕ → ℕ
  pub half_compare : ℕ → ℕ
  pub period_ms : ℕ → ℕ
  pub half_period_ms : ℕ → ℕ
  pub period_ns : ℕ → ℕ
  pub half_period_ns : ℕ → ℕ
  pub deadline_ns : ℕ → ℕ
  pub half_deadline_ns : ℕ → ℕ
  pub output_level : ℕ → Bool
  pub last_read_offset : ℕ
  pub last_read_value : ℕ
  pub last_write_offset : ℕ
  pub last_write_value : ℕ
  pub irq_raise_count : ℕ

-- `for (i = 0; i < n; i++)`
abbrev pub for_each {ℓ} : {A : Type ℓ} → ℕ → (ℕ → A → A) → A → A
for_each zero body s = s
for_each (suc n) body s = body n (for_each n body s)

-- `tcu_channel_index`
abbrev pub channel_index : ℕ → ℕ → ℕ
channel_index channel reg = (0x40 + channel * 0x10 + reg) / 4

-- `tcu_channel_tcsr`
unfoldable pub channel_tcsr : Tcu → ℕ → ℕ
channel_tcsr s channel = bit_and (s.regs (channel_index channel 0x0c)) tcsr_rw_mask

-- `tcu_prescale_divisor`
unfoldable pub prescale_divisor : ℕ → ℕ
prescale_divisor tcsr =
    let field = bit_and tcsr 0x38 / 8 in
    if field == 0
    then 1
    else if field == 1
    then 4
    else if field == 2
    then 16
    else if field == 3
    then 64
    else if field == 4
    then 256
    else if field == 5
    then 1024
    else 0

-- `tcu_input_hz`
unfoldable pub input_hz : ℕ → ℕ
input_hz tcsr =
    let source = bit_and tcsr 0x7 in
    if source == 1
    then 84000000
    else if source == 2
    then 32768
    else if source == 4
    then 12000000
    else 0

-- `tcu_tick_hz`
unfoldable pub tick_hz : Tcu → ℕ → ℕ
tick_hz s channel =
    let tcsr = channel_tcsr s channel in
    let hz = input_hz tcsr in
    let divisor = prescale_divisor tcsr in if hz == 0 || divisor == 0 then 0 else hz / divisor

-- `tcu_ticks_to_ns`
unfoldable pub ticks_to_ns : HostUtils → ℕ → ℕ → ℕ
ticks_to_ns host ticks hz =
    if ticks == 0 || hz == 0 then 0 else max (host.muldiv64_round_up ticks 1000000000 hz) 1

-- `tcu_ticks_to_ms`
unfoldable pub ticks_to_ms : HostUtils → ℕ → ℕ → ℕ
ticks_to_ms host ticks hz =
    if ticks == 0 || hz == 0 then 0 else min (host.muldiv64_round_up ticks 1000 hz) (2 ^ 32 - 1)

-- `tcu_counter_running`
unfoldable pub counter_running : Tcu → ℕ → Bool
counter_running s channel =
    ltb channel num_channels
    && not (bit_and s.enabled_mask (2 ^ channel) == 0)
    && bit_and s.stop_mask (2 ^ channel) == 0
    && not (tick_hz s channel == 0)

-- `if (channel >= JZ4740_TCU_CHANNELS) { channel = 0; }`
abbrev pub channel_or_0 : ℕ → ℕ
channel_or_0 channel = if leb num_channels channel then 0 else channel

-- `tcu_current_counter`
unfoldable pub current_counter : HostUtils → Tcu → ℕ → ℕ → ℕ
current_counter host s c now_ns =
    let channel = channel_or_0 c in
    let base = low16 (s.counter channel) in
    let elapsed_ns = (now_ns + 2 ^ 64 - s.counter_anchor_ns channel) % 2 ^ 64 in
    let elapsed_ticks = host.muldiv64 elapsed_ns (tick_hz s channel) 1000000000 in
    let full = low16 (s.compare channel) in
    if not (counter_running s channel) || not (before (s.counter_anchor_ns channel) now_ns)
    then base
    else if full == 0
    then low16 ((base + elapsed_ticks) % 2 ^ 64)
    else (base + elapsed_ticks) % 2 ^ 64 % full

-- `tcu_latch_counter`
unfoldable pub latch_counter : HostUtils → Tcu → ℕ → ℕ → Tcu
latch_counter host s channel now_ns = if leb num_channels channel then s else record s {
  counter = update s.counter channel (low16 (current_counter host s channel now_ns));
  counter_anchor_ns = update s.counter_anchor_ns channel now_ns;
}

-- `tcu_update_period_cache`
unfoldable pub update_period_cache : HostUtils → Tcu → ℕ → Tcu
update_period_cache host s channel =
    let hz = tick_hz s channel in
    let full_ticks = low16 (s.compare channel) in
    let half_ticks = low16 (s.half_compare channel) in
    let reached = not (full_ticks == 0) && leb half_ticks full_ticks in
    if leb num_channels channel then s else record s {
      period_ns = update s.period_ns channel (ticks_to_ns host full_ticks hz);
      period_ms = update s.period_ms channel (ticks_to_ms host full_ticks hz);
      half_period_ns =
          update s.half_period_ns channel (if reached then ticks_to_ns host half_ticks hz else 0);
      half_period_ms =
          update s.half_period_ms channel (if reached then ticks_to_ms host half_ticks hz else 0);
    }
