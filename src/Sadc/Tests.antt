-- ===== src/Sadc/Tests.antt =====
-- The pen is put down, sampled and read.
use bbk9588_emulator.Base.{◌≡◌, refl, arith, true, false, none, List, [], ◌∷◌}
use bbk9588_emulator.Sadc.State.{Sadc, queue_touch_sample}
use bbk9588_emulator.Sadc.Registers.{
  write, reset_hold, Op, mmio_read, mmio_write, pen, timeout, load, run,
}
use bbk9588_emulator.Sadc.Armed.{IsArmed, run-reset_hold-IsArmed}
use bbk9588_emulator.Sadc.Progress.{is_stalled, run_goes_on, emptied_stalls}
use bbk9588_emulator.Sadc.Samples.{IsSample, queue_touch_sample-IsSample}

-- The pen is down, one acknowledged sample waits and four more are due.
abbrev touched : Sadc
touched = record {
  output = [];
  traces = [];
  timer = none;
  touch_down = true;
  touch_move_pending = false;
  touch_raw_x = 0x123;
  touch_raw_y = 0x456;
  enable = 4;
  config = 0x2002c;
  control = 0;
  status_event = 0x10;
  pending_enable = 0;
  same_time = 100;
  wait_time = 100;
  touch_sample_is_move = false;
  battery_data = 0;
  sadcin_data = 0;
  battery_raw = 0xfff;
  sadcin_raw = 0;
  touch_fifo = λ i. i;
  touch_fifo_head = 0;
  touch_fifo_count = 1;
  next_axis = 0;
  conversion_events_remaining = 4;
  last_read_offset = 0;
  last_read_value = 0;
  last_write_offset = 0;
  last_write_value = 0;
  irq_level = true;
}

-- enabled, touched, converted, read and acknowledged
abbrev session : List Op
session =
    mmio_write 0 0x00 4
    ∷ timeout
    ∷ pen 10 0x100 0x200 true
    ∷ timeout
    ∷ mmio_read 20 0x18
    ∷ mmio_write 21 0x0c 4
    ∷ load 30 touched
    ∷ []

run-reset_hold-IsArmed_example : IsArmed (run (reset_hold touched) session)
run-reset_hold-IsArmed_example =
    run-reset_hold-IsArmed touched session
      (tt, (tt, (tt, (tt, (tt, (tt, ((omega arith, omega arith), tt)))))))

run_goes_on_example : is_stalled (run touched session) ≡ false
run_goes_on_example =
    run_goes_on touched session (refl, (refl, (refl, (refl, (refl, (refl, (refl, tt))))))) refl

emptied_stalls_example : is_stalled (write touched 5 0x18 0) ≡ true
emptied_stalls_example = emptied_stalls touched 5 0 refl refl refl refl (omega arith)

queue_touch_sample-IsSample_example : IsSample touched (queue_touch_sample touched) 7
queue_touch_sample-IsSample_example = queue_touch_sample-IsSample touched 7
