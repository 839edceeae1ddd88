-- ===== src/Rtc/Tests.antt =====
-- A running clock, and the theorems on it.
use bbk9588_emulator.Base.{ℕ, ◌≡◌, refl, arith, true, false, ◌&&◌, ◌||◌, List, [], ◌∷◌, none}
use bbk9588_emulator.Rtc.State.{Rtc, has, one_hz, one_hz_ie, alarm_flag, alarm_ie, seconds_at}
use bbk9588_emulator.Rtc.Registers.{Clock, write_reg, reset_hold, Op, timer, mmio_write, run}
use bbk9588_emulator.Rtc.Signal.{run_signalled}
use bbk9588_emulator.Rtc.Seconds.{restart_loses}

-- set to 1000 at the time 0, with a locked regulator
abbrev ticking : Rtc
ticking = record {
  line = false;
  timer = none;
  control = 0x21;
  base_seconds = 1000;
  base_ns = 0;
  regulator = 0x80007fff;
  alarm_seconds = 0xffffffff;
  one_hz_latched_seconds = 1000;
  alarm_latched = false;
  hcr = 0;
  hwfcr = 0;
  hrcr = 0;
  hwcr = 0;
  hwrsr = 0x10;
  scratch = 0x87654321;
  last_read_offset = 0;
  last_read_value = 0;
  last_write_offset = 0;
  last_write_value = 0;
  irq_level = false;
  hibernate_wakeup = false;
  has_power_down_callback = true;
  power_downs = 0;
}

abbrev at : ℕ → Clock
at t = record { access_ns = t; update_ns = t; schedule_ns = t }

-- The regulator is written, the alarm set, and the timer fires.
abbrev alarm_session : List Op
alarm_session =
    mmio_write 0x0c 0x1234 4 (at 1000)
    ∷ mmio_write 0x08 1002 4 (at 2000)
    ∷ mmio_write 0x00 0x0d 4 (at 3000)
    ∷ timer 2500000000 2500000000
    ∷ []

run_signalled_example :
    let t = run (reset_hold ticking 1000 0) alarm_session in
    (t.line ≡ t.irq_level)
    × (t.irq_level ≡ (
        has t.control one_hz && has t.control one_hz_ie
        || has t.control alarm_flag && has t.control alarm_ie))
run_signalled_example = run_signalled ticking 1000 0 alarm_session

-- stopped after 100 seconds, started again at 200 seconds
restart_example :
    let halted = write_reg ticking 0x00 0x20 100000000000 in
    (seconds_at halted 150000000000 ≡ ticking.base_seconds)
    × (seconds_at (write_reg halted 0x00 0x21 200000000000) 200000000000 ≡ ticking.base_seconds)
restart_example =
    restart_loses ticking 0x20 0x21 100000000000 200000000000 150000000000 refl (omega arith)
      (omega arith) refl (omega arith) refl (omega arith) refl
