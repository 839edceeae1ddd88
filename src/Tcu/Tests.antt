-- ===== src/Tcu/Tests.antt =====
-- A channel that counts the 12 MHz clock to 1000, and the theorems on it.
use bbk9588_emulator.Base.{
  before, ℕ, ◌+◌, ◌-◌, ◌*◌, ◌/◌, ◌%◌, ◌^◌, ◌<◌, ◌≡◌, refl, arith, true, false, not, ◌&&◌, ◌||◌,
  ◌==◌, if◌then◌else◌, ◌⊎◌, List, [], ◌∷◌, none, some, update,
}
use bbk9588_emulator.Bits.{test_bit}
use bbk9588_emulator.Irq.{IsDriven}
use bbk9588_emulator.Tcu.Counter.{
  ticks_to_ns, HostUtils, Tcu, num_channels, counter_running, current_counter, tick_hz,
  channel_tcsr, input_hz, prescale_divisor,
}
use bbk9588_emulator.Tcu.Deadline.{level_of, ticks_until_match, schedule, raise_pending}
use bbk9588_emulator.Tcu.Channel.{Clock}
use bbk9588_emulator.Tcu.Registers.{reset_hold, Op, timer, mmio_read, mmio_write, run}
use bbk9588_emulator.Tcu.Outputs.{run_synced}
use bbk9588_emulator.Tcu.Forget.{raise_pending-schedule}
use bbk9588_emulator.Tcu.Flags.{raise_pending_lem}
use bbk9588_emulator.Tcu.Schedule.{covers, schedule_lem}

-- the two functions as QEMU documents them
abbrev host : HostUtils
host = record {
  muldiv64 = λ a b c. a * b / c % 2 ^ 64;
  muldiv64_round_up = λ a b c. (a * b + c - 1) / c % 2 ^ 64;
}

-- Channel 2 runs from 0 on since the time 0, with the half comparator at 300.
abbrev counting : Tcu
counting = record {
  lines = λ _. [];
  timer = none;
  regs = update (λ _. 0) 27 0x0004;
  counter = λ _. 0;
  counter_anchor_ns = λ _. 0;
  enabled_mask = 0x04;
  stop_mask = 0;
  pending_mask = 0;
  irq_mask = 0;
  default_period_ms = 10;
  compare = λ _. 1000;
  half_compare = λ _. 300;
  period_ms = λ _. 0;
  half_period_ms = λ _. 0;
  period_ns = λ _. 0;
  half_period_ns = λ _. 0;
  deadline_ns = update (λ _. 0) 2 83334;
  half_deadline_ns = update (λ _. 0) 2 25000;
  output_level = λ _. false;
  last_read_offset = 0;
  last_read_value = 0;
  last_write_offset = 0;
  last_write_value = 0;
  irq_raise_count = 0;
}

counts_600 : current_counter host counting 2 50000 ≡ 600
unfolding current_counter counter_running tick_hz channel_tcsr input_hz prescale_divisor
counts_600 = refl

-- The half comparator of channel 2 is due at 25000 ns.
raise_example :
    let flag = if true then 2 + 16 else 2 in
    let deadline = if true then counting.half_deadline_ns 2 else counting.deadline_ns 2 in
    test_bit (raise_pending counting 25000).pending_mask flag
    ≡ (test_bit counting.pending_mask flag || (not (deadline == 0) && not (before 25000 deadline)))
raise_example = raise_pending_lem counting 25000 2 true (omega arith) (omega arith)

schedule_example :
    let s' = schedule host counting 50000 in
    (covers s'.timer (s'.deadline_ns 2) ≡ true)
    × (covers s'.timer (s'.half_deadline_ns 2) ≡ true)
    × ((s'.timer ≡ none)
        ⊎ ((c : ℕ) × (c < num_channels)
            × ((s'.timer ≡ some (s'.deadline_ns c)) ⊎ (s'.timer ≡ some (s'.half_deadline_ns c)))))
schedule_example = schedule_lem host counting 50000 2 (omega arith)

abbrev at_once : Clock
at_once = record { now_ns = 1000; inner_ns = 1000; schedule_ns = 1000 }

-- Flags are set from outside, masked, and a timer event comes.
abbrev flag_session : List Op
flag_session =
    mmio_write 0x24 0x04 4 at_once
    ∷ timer 2000 2000
    ∷ mmio_write 0x34 0x04 4 at_once
    ∷ mmio_read 0x20 4 3000
    ∷ []

run_synced_example :
    let t = run host (reset_hold counting 0) flag_session in
    (t.output_level 2 ≡ level_of t 2) × IsDriven (t.lines 2) (t.output_level 2)
run_synced_example = run_synced host counting 0 flag_session 2 (omega arith)

-- At 90000 ns the full match of channel 2, due at 83334 ns, has come.
forgotten_example :
    let flag = if false then 2 + 16 else 2 in
    test_bit (raise_pending (schedule host counting 90000) 90000).pending_mask flag
    ≡ test_bit counting.pending_mask flag
unfolding ticks_to_ns ticks_until_match current_counter counter_running tick_hz channel_tcsr
    input_hz prescale_divisor
forgotten_example =
    raise_pending-schedule host counting 90000 2 false (omega arith) (omega arith) (omega arith)
      (omega arith)
