-- ===== src/Sadc/Touch.antt =====
-- Conversions of qemu/overlay/hw/input/jz4740_sadc.c: from sadc_touch_delay_ms to
-- jz4740_sadc_set_touch.
use bbk9588_emulator.Base.{
  ℕ, ◌+◌, ◌*◌, ◌/◌, ◌%◌, ◌^◌, bit_and, bit_or, max, Bool, true, false, not, ◌&&◌, ◌||◌, ◌!=◌, ◌==◌,
  ltb, if◌then◌else◌, none, some,
}
use bbk9588_emulator.Bits.{has, not32}
use bbk9588_emulator.Sadc.State.{
  Sadc, data_mask, sadcinen, pbaten, tchen, srdy, drdy, dtch, penu, pend, notify_trace, update_irq,
  queue_touch_sample,
}

-- `sadc_touch_delay_ms`
unfoldable pub touch_delay_ms : Sadc → Bool → ℕ
touch_delay_ms s same_point =
    let ticks = if same_point then s.same_time else s.wait_time in
    max 1 ((ticks * 128 + 11999) / 12000 % 2 ^ 32)

-- `timer_mod` at the time `now` of the host, in milliseconds
abbrev pub timer_mod : Sadc → ℕ → ℕ → Sadc
timer_mod s now delay = record s { timer = some ((now + delay) % 2 ^ 64) }

-- The tests at the start of `sadc_queue_next_touch_sample`.
unfoldable pub may_sample : Sadc → Bool
may_sample s = not (
    not s.touch_down
    || not (has s.enable tchen)
    || has s.status_event dtch
    || not (s.touch_fifo_count == 0)
    || has s.pending_enable tchen)

-- One of the two ends of `sadc_queue_next_touch_sample` that ask for a conversion.
unfoldable pub ask_sample : Sadc → ℕ → Bool → Sadc
ask_sample s now is_move =
    let t = record s {
      touch_sample_is_move = is_move;
      pending_enable = bit_or s.pending_enable tchen;
    } in
    if s.pending_enable == 0 then timer_mod t now (touch_delay_ms t (not is_move)) else t

-- `sadc_queue_next_touch_sample`
unfoldable pub queue_next_touch_sample : Sadc → ℕ → Bool × Sadc
queue_next_touch_sample s now =
    if not (may_sample s)
    then (false, s)
    else if ltb 0 s.conversion_events_remaining
    then (true, ask_sample s now false)
    else if s.touch_move_pending
    then (true, ask_sample s now true)
    else (false, s)

-- `sadc_complete_cpu_samples`
unfoldable pub complete_cpu_samples : Sadc → ℕ → Sadc
complete_cpu_samples s requested =
    let t =
      if has requested sadcinen
      then record s {
        sadcin_data = bit_and s.sadcin_raw data_mask;
        status_event = bit_or s.status_event srdy;
        enable = bit_and s.enable (not32 sadcinen);
      }
      else s in
    if has requested pbaten
    then record t {
      battery_data = bit_and t.battery_raw data_mask;
      status_event = bit_or t.status_event drdy;
      enable = bit_and t.enable (not32 pbaten);
    }
    else t

-- `sadc_schedule_conversion`
unfoldable pub schedule_conversion : Sadc → ℕ → ℕ → Sadc
schedule_conversion s now requested =
    let cpu_channels = bit_or sadcinen pbaten in
    let new_cpu = bit_and (bit_and requested cpu_channels) (not32 s.pending_enable) in
    let t = record s { pending_enable = bit_or s.pending_enable requested } in
    if not (s.pending_enable == 0) && new_cpu == 0
    then t
    else timer_mod t now (if new_cpu == 0 then touch_delay_ms t false else 1)

-- `sadc_timer_cb`. The timer has fired, and waits for nothing when the callback starts.
unfoldable pub timer_cb : Sadc → Sadc
timer_cb s =
    let requested = s.pending_enable in
    let fired = record s { timer = none; pending_enable = 0 } in
    let completed = complete_cpu_samples fired requested in
    let sampled =
      if has requested tchen && completed.touch_down
      then (let t = queue_touch_sample completed in
          if t.touch_sample_is_move then record t { touch_move_pending = false } else t)
      else completed in
    notify_trace (update_irq (record sampled { touch_sample_is_move = false })) 13

-- The part of `jz4740_sadc_set_touch` that follows the pen.
unfoldable pub follow_pen : Sadc → ℕ → Bool → Bool → Bool → Sadc
follow_pen s now was_down position_changed down =
    if down
    then (if not was_down
        then (queue_next_touch_sample
            (record s {
              status_event = bit_or (bit_and s.status_event (not32 penu)) pend;
              touch_move_pending = false;
              conversion_events_remaining = 5;
            })
            now).1
        else if position_changed
        then (queue_next_touch_sample (record s { touch_move_pending = true }) now).1
        else s)
    else if was_down
    then record s {
      touch_move_pending = false;
      pending_enable = bit_and s.pending_enable (not32 tchen);
      touch_sample_is_move = false;
      conversion_events_remaining = 0;
      status_event = bit_or (bit_and s.status_event (not32 pend)) penu;
    }
    else s

-- `jz4740_sadc_set_touch`
unfoldable pub set_touch : Sadc → ℕ → ℕ → ℕ → Bool → Sadc
set_touch s now raw_x raw_y down =
    let changed = not (s.touch_raw_x == raw_x) || not (s.touch_raw_y == raw_y) in
    let moved = record s { touch_raw_x = raw_x; touch_raw_y = raw_y; touch_down = down } in
    let t = follow_pen moved now s.touch_down changed down in
    notify_trace (if s.touch_down != down then update_irq t else t) (if down then 1 else 2)
