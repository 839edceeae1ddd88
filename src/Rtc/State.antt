-- ===== src/Rtc/State.antt =====
-- The state of the real-time clock, its seconds, its flags, its timer and its line: jz4740_rtc.c up to
-- rtc_timer_cb.
use bbk9588_emulator.Base.{
  before, ℕ, ◌+◌, ◌*◌, ◌/◌, ◌%◌, ◌^◌, ◌-◌, bit_and, bit_or, Bool, true, not, ◌&&◌, ◌||◌, ◌==◌, ltb,
  leb, if◌then◌else◌, Option, none, some,
}
use bbk9588_emulator.Bits.{not32}

-- `JZ4740RTCState`. A time is the 64-bit pattern of an int64_t. `line` is what `qemu_set_irq` drove
-- last, `timer` the time that the timer is set to, if it is, and `power_downs` counts the calls of the
-- power-down callback.
pub record Rtc : Type 0 where
  pub line : Bool
  pub timer : Option ℕ
  pub control : ℕ
  pub base_seconds : ℕ
  pub base_ns : ℕ
  pub regulator : ℕ
  pub alarm_seconds : ℕ
  pub one_hz_latched_seconds : ℕ
  pub alarm_latched : Bool
  pub hcr : ℕ
  pub hwfcr : ℕ
  pub hrcr : ℕ
  pub hwcr : ℕ
  pub hwrsr : ℕ
  pub scratch : ℕ
  pub last_read_offset : ℕ
  pub last_read_value : ℕ
  pub last_write_offset : ℕ
  pub last_write_value : ℕ
  pub irq_level : Bool
  pub hibernate_wakeup : Bool
  pub has_power_down_callback : Bool
  pub power_downs : ℕ

-- `word & bit` as a condition
abbrev pub has : ℕ → ℕ → Bool
has word bit = not (bit_and word bit == 0)

-- the bits of RTCCR
abbrev pub one_hz : ℕ
one_hz = 0x40

abbrev pub one_hz_ie : ℕ
one_hz_ie = 0x20

abbrev pub alarm_flag : ℕ
alarm_flag = 0x10

abbrev pub alarm_ie : ℕ
alarm_ie = 0x08

abbrev pub alarm_enable : ℕ
alarm_enable = 0x04

abbrev pub rtc_enable : ℕ
rtc_enable = 0x01

-- the whole seconds since the base
abbrev pub elapsed_seconds : Rtc → ℕ → ℕ
elapsed_seconds s now_ns =
    if before s.base_ns now_ns then (now_ns + 2 ^ 64 - s.base_ns) % 2 ^ 64 / 1000000000 else 0

-- `jz4740_rtc_seconds`, for a device that is not null
unfoldable pub seconds_at : Rtc → ℕ → ℕ
seconds_at s now_ns =
    if not (has s.control rtc_enable)
    then s.base_seconds
    else (s.base_seconds + elapsed_seconds s now_ns % 2 ^ 32) % 2 ^ 32

-- The two conditions of `rtc_latch_flags`, one after the other.
unfoldable pub latch_one_hz : Rtc → ℕ → Rtc
latch_one_hz s seconds =
    if has s.control rtc_enable && not (seconds == s.one_hz_latched_seconds)
    then record s { control = bit_or s.control one_hz; one_hz_latched_seconds = seconds }
    else s

unfoldable pub latch_alarm : Rtc → ℕ → Rtc
latch_alarm s seconds =
    let wakes = has s.hcr 0x1 && has s.hwcr 0x1 in
    if has s.control rtc_enable
      && has s.control alarm_enable
      && leb s.alarm_seconds seconds
      && not s.alarm_latched
    then record s {
      control = bit_or s.control alarm_flag;
      alarm_latched = true;
      hwrsr = if wakes then bit_or s.hwrsr 0x1 else s.hwrsr;
      hcr = if wakes then bit_and s.hcr (not32 0x1) else s.hcr;
    }
    else s

-- `rtc_latch_flags`
unfoldable pub latch_flags : Rtc → ℕ → Rtc
latch_flags s now_ns =
    let seconds = seconds_at s now_ns in latch_alarm (latch_one_hz s seconds) seconds

-- The condition of `rtc_irq_pending` on the control register.
abbrev pub demands : ℕ → Bool
demands control =
    has control one_hz && has control one_hz_ie || has control alarm_flag && has control alarm_ie

-- `rtc_update_irq`
unfoldable pub update_irq : Rtc → ℕ → Rtc
update_irq s now_ns =
    let latched = latch_flags s now_ns in
    record latched { irq_level = demands latched.control; line = demands latched.control }

-- The variable `next_ns` of `rtc_schedule` after the first condition.
unfoldable pub next_second : Rtc → ℕ → ℕ
next_second s now_ns =
    let next_ns = (s.base_ns + (elapsed_seconds s now_ns + 1) * 1000000000 % 2 ^ 64) % 2 ^ 64 in
    if has s.control one_hz_ie && not (has s.control one_hz)
    then (if not (before now_ns next_ns) then (now_ns + 1000000000) % 2 ^ 64 else next_ns)
    else 0

-- And after the second one.
unfoldable pub next_event : Rtc → ℕ → ℕ
next_event s now_ns =
    let seconds = seconds_at s now_ns in
    let next_ns = next_second s now_ns in
    let alarm_ns =
      if ltb seconds s.alarm_seconds
      then (now_ns + (s.alarm_seconds - seconds) * 1000000000) % 2 ^ 64
      else now_ns in
    if has s.control alarm_enable
      && not s.alarm_latched
      && (next_ns == 0 || before alarm_ns next_ns)
    then alarm_ns
    else next_ns

-- `rtc_schedule`
unfoldable pub schedule : Rtc → ℕ → Rtc
schedule s now_ns =
    let next_ns = next_event s now_ns in
    record s {
      timer = if not (has s.control rtc_enable) || next_ns == 0 then none else some next_ns;
    }

-- `rtc_timer_cb`
unfoldable pub timer_cb : Rtc → ℕ → ℕ → Rtc
timer_cb s update_ns schedule_ns = schedule (update_irq s update_ns) schedule_ns
