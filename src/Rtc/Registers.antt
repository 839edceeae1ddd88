-- ===== src/Rtc/Registers.antt =====
-- The register window of the real-time clock, its reset and its reload: jz4740_rtc.c from rtc_read_reg
-- on.
use bbk9588_emulator.Base.{
  ℕ, ◌+◌, ◌%◌, ◌^◌, bit_and, bit_or, false, not, ◌&&◌, ◌==◌, ltb, if◌then◌else◌, List, [], ◌∷◌,
}
use bbk9588_emulator.Bits.{not32}
use bbk9588_emulator.Mmio.{aligned, merge, extract32}
use bbk9588_emulator.Rtc.State.{
  Rtc, has, one_hz, one_hz_ie, alarm_flag, rtc_enable, seconds_at, latch_flags, update_irq,
  schedule, timer_cb,
}

-- What the clock shows in one access: at the register, and in `rtc_update_irq` and `rtc_schedule`.
pub record Clock : Type 0 where
  pub access_ns : ℕ
  pub update_ns : ℕ
  pub schedule_ns : ℕ

-- `rtc_read_reg`: the value, after the flags have been latched if the register is RTCCR.
unfoldable pub reg_value : Rtc → ℕ → ℕ → ℕ
reg_value s offset now_ns =
    if offset == 0x00
    then bit_or s.control 0x80
    else if offset == 0x04
    then seconds_at s now_ns
    else if offset == 0x08
    then s.alarm_seconds
    else if offset == 0x0c
    then bit_and s.regulator 0x83ffffff
    else if offset == 0x20
    then bit_and s.hcr 0x1
    else if offset == 0x24
    then bit_and s.hwfcr 0xffe0
    else if offset == 0x28
    then bit_and s.hrcr 0xfe0
    else if offset == 0x2c
    then bit_and s.hwcr 0x1
    else if offset == 0x30
    then bit_and s.hwrsr 0x33
    else if offset == 0x34
    then s.scratch
    else 0

unfoldable pub read_reg : Rtc → ℕ → ℕ → ℕ × Rtc
read_reg s offset now_ns =
    let s' = if offset == 0x00 then latch_flags s now_ns else s in (reg_value s' offset now_ns, s')

-- `rtc_enter_hibernate`
unfoldable pub enter_hibernate : Rtc → Rtc
enter_hibernate s = record s {
  hcr = bit_or s.hcr 0x1;
  hwrsr = bit_and s.hwrsr (not32 0x3);
  power_downs =
      if not (has s.hcr 0x1) && s.has_power_down_callback then s.power_downs + 1 else s.power_downs;
}

-- `rtc_write_while_hibernating`
unfoldable pub write_while_hibernating : Rtc → ℕ → ℕ → Rtc
write_while_hibernating s offset value =
    let kept = if has value one_hz then s.control else bit_and s.control (not32 one_hz) in
    if offset == 0x00
    then record s { control = bit_or (bit_and kept (not32 one_hz_ie)) (bit_and value one_hz_ie) }
    else s

-- The case RTC_RTCCR of `rtc_write_reg`: the new control. The mask is RTC_RTCCR_RW_MASK.
unfoldable pub new_control : Rtc → ℕ → ℕ
new_control s value =
    let flags = bit_and s.control 0x50 in
    let flags1 = if has value one_hz then flags else bit_and flags (not32 one_hz) in
    let flags2 = if has value alarm_flag then flags1 else bit_and flags1 (not32 alarm_flag) in
    bit_or flags2 (bit_and value 0x2d)

unfoldable pub write_control : Rtc → ℕ → ℕ → Rtc
write_control s value now_ns =
    let control = new_control s value in
    let stored : Rtc = record s { control = control } in
    if not (has s.control rtc_enable) && has control rtc_enable
    then record stored { base_ns = now_ns; one_hz_latched_seconds = s.base_seconds }
    else stored

-- The case RTC_RTCSR.
unfoldable pub write_seconds : Rtc → ℕ → ℕ → Rtc
write_seconds s value now_ns = record s {
  base_seconds = value;
  base_ns = now_ns;
  one_hz_latched_seconds = value;
  alarm_latched = if ltb value s.alarm_seconds then false else s.alarm_latched;
  control = bit_and s.control (not32 one_hz);
}

-- The switch of `rtc_write_reg`.
unfoldable pub store_reg : Rtc → ℕ → ℕ → ℕ → Rtc
store_reg s offset value now_ns =
    if offset == 0x00
    then write_control s value now_ns
    else if offset == 0x04
    then write_seconds s value now_ns
    else if offset == 0x08
    then record s {
      alarm_seconds = value;
      alarm_latched = false;
      control = bit_and s.control (not32 alarm_flag);
    }
    else if offset == 0x0c
    then (if has s.regulator 0x80000000
        then s
        else record s { regulator = bit_and value 0x83ffffff })
    else if offset == 0x20
    then (if has value 0x1 then enter_hibernate s else record s { hcr = 0 })
    else if offset == 0x24
    then record s { hwfcr = bit_and value 0xffe0 }
    else if offset == 0x28
    then record s { hrcr = bit_and value 0xfe0 }
    else if offset == 0x2c
    then record s { hwcr = bit_and value 0x1 }
    else if offset == 0x30
    then record s { hwrsr = bit_and s.hwrsr (bit_and value 0x33) }
    else if offset == 0x34
    then record s { scratch = value }
    else s

-- `rtc_write_reg`
unfoldable pub write_reg : Rtc → ℕ → ℕ → ℕ → Rtc
write_reg s offset value now_ns =
    if has s.hcr 0x1
    then write_while_hibernating s offset value
    else store_reg s offset value now_ns

-- `rtc_read`
unfoldable pub read : Rtc → ℕ → ℕ → Clock → ℕ × Rtc
read s offset size clock =
    let (value, s') = read_reg s (aligned offset) clock.access_ns in
    let noted : Rtc = record s' { last_read_offset = offset % 2 ^ 32; last_read_value = value } in
    (extract32 value offset size, schedule (update_irq noted clock.update_ns) clock.schedule_ns)

-- `rtc_write`
unfoldable pub write : Rtc → ℕ → ℕ → ℕ → Clock → Rtc
write s offset value size clock =
    let (current, s') = read_reg s (aligned offset) clock.access_ns in
    let merged = merge current offset size value in
    let stored = write_reg s' (aligned offset) merged clock.access_ns in
    let noted : Rtc = record stored {
      last_write_offset = offset % 2 ^ 32;
      last_write_value = merged;
    } in
    schedule (update_irq noted clock.update_ns) clock.schedule_ns

-- `rtc_reset_hold`; the seconds are those of the host.
unfoldable pub reset_hold : Rtc → ℕ → ℕ → Rtc
reset_hold s host_seconds now_ns =
    schedule
      (record s {
        control = 0x01;
        base_seconds = host_seconds;
        base_ns = now_ns;
        regulator = 0;
        alarm_seconds = 0xffffffff;
        one_hz_latched_seconds = host_seconds;
        alarm_latched = false;
        hcr = 0;
        hwfcr = 0;
        hrcr = 0;
        hwcr = 0;
        hwrsr = if s.hibernate_wakeup then 0x22 else 0x10;
        scratch = 0x87654321;
        last_read_offset = 0;
        last_read_value = 0;
        last_write_offset = 0;
        last_write_value = 0;
        irq_level = false;
        line = false;
      })
      now_ns

-- `rtc_post_load`
unfoldable pub post_load : Rtc → ℕ → ℕ → Rtc
post_load s update_ns schedule_ns = schedule (update_irq s update_ns) schedule_ns

-- What happens to the clock between two resets.
pub data Op : Type 0 where
  timer : ℕ → ℕ → Op
  mmio_read : ℕ → ℕ → Clock → Op
  mmio_write : ℕ → ℕ → ℕ → Clock → Op

unfoldable pub step : Rtc → Op → Rtc
step s (timer update_ns schedule_ns) = timer_cb s update_ns schedule_ns
step s (mmio_read offset size clock) = (read s offset size clock).1
step s (mmio_write offset value size clock) = write s offset value size clock

unfoldable pub run : Rtc → List Op → Rtc
run s [] = s
run s (op ∷ ops) = run (step s op) ops
