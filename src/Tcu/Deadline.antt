-- ===== src/Tcu/Deadline.antt =====
-- Deadlines, the timer and the interrupt outputs: jz4740_tcu.c from tcu_ticks_until_match to
-- tcu_timer_cb. `now_ns` is what `qemu_clock_get_ns` returns.
use bbk9588_emulator.Base.{
  before, ℕ, ◌+◌, ◌*◌, ◌%◌, ◌^◌, ◌-◌, bit_and, bit_or, Bool, true, false, not, ◌&&◌, ◌||◌, ◌==◌,
  ltb, if◌then◌else◌, ◌∷◌, update, none, some,
}
use bbk9588_emulator.Bits.{not32}
use bbk9588_emulator.Irq.{drive_change}
use bbk9588_emulator.Tcu.Counter.{
  HostUtils, Tcu, num_channels, low16, for_each, tick_hz, ticks_to_ns, counter_running,
  current_counter,
}

-- `tcu_ticks_until_match`
unfoldable pub ticks_until_match : HostUtils → Tcu → ℕ → ℕ → ℕ → ℕ
ticks_until_match host s channel target now_ns =
    let full = low16 (s.compare channel) in
    let current = current_counter host s channel now_ns in
    if full == 0 || ltb full target
    then 0
    else if target == full
    then (if ltb current full then full - current else full)
    else if ltb current target
    then target - current
    else (full + 2 ^ 64 - current + target) % 2 ^ 64

-- `half ? bit << TCU_HALF_SHIFT : bit`
abbrev pub flag_of : ℕ → Bool → ℕ
flag_of channel half = if half then 2 ^ (channel + 16) else 2 ^ channel

-- `tcu_next_deadline_ns`
unfoldable pub next_deadline_ns : HostUtils → Tcu → ℕ → Bool → ℕ → ℕ
next_deadline_ns host s channel half now_ns =
    let target = if half then low16 (s.half_compare channel) else low16 (s.compare channel) in
    let ticks = ticks_until_match host s channel target now_ns in
    let ns = ticks_to_ns host ticks (tick_hz s channel) in
    if not (counter_running s channel) || not (bit_and s.pending_mask (flag_of channel half) == 0)
    then 0
    else if ns == 0
    then 0
    else (now_ns + ns) % 2 ^ 64

-- `tcu_parent_flags`: channel 0, channel 1, or the channels 2 to 7
abbrev pub parent_flags : ℕ → ℕ
parent_flags output =
    let channels = if output == 0 then 0x01 else if output == 1 then 0x02 else 0xfc in
    bit_or channels (channels * 2 ^ 16)

-- The level that `tcu_sync_irq` computes for an output.
abbrev pub level_of : Tcu → ℕ → Bool
level_of s output =
    not (bit_and (bit_and s.pending_mask (not32 s.irq_mask)) (parent_flags output) == 0)

-- One round of the loop of `tcu_sync_irq`.
abbrev pub sync_output : ℕ → Tcu → Tcu
sync_output output s = record s {
  output_level = update s.output_level output (level_of s output);
  lines =
      update s.lines output
        (drive_change (s.output_level output) (level_of s output) (s.lines output));
}

-- `tcu_sync_irq`
unfoldable pub sync_irq : Tcu → Tcu
sync_irq s = for_each 3 sync_output s

-- `if (t && (!next_deadline || t < next_deadline)) { next_deadline = t; }`
unfoldable pub sooner : ℕ → ℕ → ℕ
sooner t next_deadline =
    if not (t == 0) && (next_deadline == 0 || before t next_deadline) then t else next_deadline

-- One round of the loop of `tcu_schedule`, with the variable `next_deadline`.
unfoldable pub schedule_channel : HostUtils → ℕ → ℕ → Tcu × ℕ → Tcu × ℕ
schedule_channel host now_ns ch (s, next_deadline) =
    let full = next_deadline_ns host s ch false now_ns in
    let half = next_deadline_ns host s ch true now_ns in
    (
      record s {
        deadline_ns = update s.deadline_ns ch full;
        half_deadline_ns = update s.half_deadline_ns ch half;
      },
      sooner half (sooner full next_deadline),
    )

-- `tcu_schedule`
unfoldable pub schedule : HostUtils → Tcu → ℕ → Tcu
schedule host s now_ns =
    let (s', next_deadline) = for_each num_channels (schedule_channel host now_ns) (s, 0) in
    record s' { timer = if next_deadline == 0 then none else some next_deadline }

-- A match whose deadline has come and whose flag is not set yet.
abbrev pub is_due : Tcu → ℕ → ℕ → ℕ → Bool
is_due s flag deadline now_ns =
    bit_and s.pending_mask flag == 0 && not (deadline == 0) && not (before now_ns deadline)

-- One round of the loop of `tcu_raise_pending`, on the variable `newly_pending`.
abbrev pub collect_due : Tcu → ℕ → ℕ → ℕ → ℕ
collect_due s now_ns ch newly_pending =
    let with_full =
      if is_due s (flag_of ch false) (s.deadline_ns ch) now_ns
      then bit_or newly_pending (flag_of ch false)
      else newly_pending in
    if is_due s (flag_of ch true) (s.half_deadline_ns ch) now_ns
    then bit_or with_full (flag_of ch true)
    else with_full

-- The flags that `tcu_raise_pending` finds.
unfoldable pub newly_pending : Tcu → ℕ → ℕ
newly_pending s now_ns = for_each num_channels (collect_due s now_ns) 0

-- `tcu_raise_pending`. The output 3 is JZ4740_TCU_EVENT.
unfoldable pub raise_pending : Tcu → ℕ → Tcu
raise_pending s now_ns = sync_irq (
    if newly_pending s now_ns == 0 then s else record s {
      pending_mask = bit_or s.pending_mask (newly_pending s now_ns);
      irq_raise_count = (s.irq_raise_count + 1) % 2 ^ 32;
      lines = update s.lines 3 (false ∷ true ∷ s.lines 3);
    })

-- `tcu_timer_cb`; the clock is read twice.
unfoldable pub timer_cb : HostUtils → Tcu → ℕ → ℕ → Tcu
timer_cb host s now_ns later_ns = schedule host (raise_pending s now_ns) later_ns
