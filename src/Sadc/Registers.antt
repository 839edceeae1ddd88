-- ===== src/Sadc/Registers.antt =====
-- The register window of qemu/overlay/hw/input/jz4740_sadc.c: sadc_read, sadc_write, sadc_reset_hold
-- and sadc_post_load.
use bbk9588_emulator.Base.{
  ℕ, ◌-◌, ◌%◌, ◌^◌, bit_and, bit_or, Bool, false, not, ◌&&◌, ◌==◌, ltb, if◌then◌else◌, none, List,
  [], ◌∷◌,
}
use bbk9588_emulator.Bits.{has, not32}
use bbk9588_emulator.Sadc.State.{
  Sadc, data_mask, sadcinen, pbaten, tchen, srdy, drdy, dtch, state_mask, notify_trace, update_irq,
  touch_fifo_clear, touch_fifo_pop,
}
use bbk9588_emulator.Sadc.Touch.{
  queue_next_touch_sample, schedule_conversion, timer_cb, timer_mod, set_touch,
}

-- The case SADC_ADTCH of `sadc_read`: the last sample makes room for the next.
unfoldable pub read_touch : Sadc → ℕ → ℕ × Sadc
read_touch s now =
    let (value, t) = touch_fifo_pop s in
    let (queued, u) = queue_next_touch_sample t now in
    (value, if not (t.touch_fifo_count == 0) then t else if queued then update_irq u else u)

-- The switch of `sadc_read`.
unfoldable pub read_reg : Sadc → ℕ → ℕ → ℕ × Sadc
read_reg s now offset =
    if offset == 0x00
    then (s.enable, s)
    else if offset == 0x04
    then (s.config, s)
    else if offset == 0x08
    then (s.control, s)
    else if offset == 0x0c
    then (s.status_event, s)
    else if offset == 0x10
    then (s.same_time, s)
    else if offset == 0x14
    then (s.wait_time, s)
    else if offset == 0x18
    then read_touch s now
    else if offset == 0x1c
    then (bit_and s.battery_data data_mask, s)
    else if offset == 0x20
    then (bit_and s.sadcin_data data_mask, s)
    else (0, s)

-- `sadc_read`
unfoldable pub read : Sadc → ℕ → ℕ → ℕ × Sadc
read s now offset =
    let (value, t) = read_reg s now offset in
    (
      value,
      notify_trace (record t { last_read_offset = offset % 2 ^ 32; last_read_value = value }) 9,
    )

-- The case SADC_ADENA of `sadc_write`.
unfoldable pub write_enable : Sadc → ℕ → ℕ → Sadc
write_enable s now value =
    let requested = bit_and value (bit_or (bit_or sadcinen pbaten) tchen) in
    let t = record s { enable = requested } in
    let u =
      if not (requested == 0)
      then schedule_conversion t now requested
      else record t { pending_enable = 0; timer = none } in
    notify_trace (update_irq u) 8

-- The case SADC_ADSTATE of `sadc_write`: an acknowledged sample counts, and asks for the next.
unfoldable pub write_state : Sadc → ℕ → ℕ → Sadc
write_state s now value =
    let cleared = has value dtch in
    let t = record s {
      status_event = bit_and s.status_event (not32 (bit_and (value % 256) state_mask));
    } in
    let u =
      if cleared && ltb 0 t.conversion_events_remaining
      then record t { conversion_events_remaining = t.conversion_events_remaining - 1 }
      else t in
    let v = if cleared then (queue_next_touch_sample u now).1 else u in
    notify_trace (update_irq v) 7

-- The switch of `sadc_write`.
unfoldable pub write_reg : Sadc → ℕ → ℕ → ℕ → Sadc
write_reg s now offset value =
    if offset == 0x00
    then write_enable s now value
    else if offset == 0x04
    then notify_trace (record s { config = value % 2 ^ 32 }) 8
    else if offset == 0x08
    then notify_trace (update_irq (record s { control = bit_and value state_mask })) 8
    else if offset == 0x0c
    then write_state s now value
    else if offset == 0x10
    then notify_trace (record s { same_time = value % 2 ^ 16 }) 8
    else if offset == 0x14
    then notify_trace (record s { wait_time = value % 2 ^ 16 }) 8
    else if offset == 0x18
    then notify_trace (update_irq (touch_fifo_clear s)) 7
    else if offset == 0x1c
    then notify_trace
        (update_irq
          (record s { battery_data = 0; status_event = bit_and s.status_event (not32 drdy) }))
        7
    else if offset == 0x20
    then notify_trace
        (update_irq
          (record s { sadcin_data = 0; status_event = bit_and s.status_event (not32 srdy) }))
        7
    else notify_trace s 10

-- `sadc_write`
unfoldable pub write : Sadc → ℕ → ℕ → ℕ → Sadc
write s now offset value =
    write_reg (record s { last_write_offset = offset % 2 ^ 32; last_write_value = value % 2 ^ 32 })
      now offset value

-- `sadc_reset_hold`
unfoldable pub reset_hold : Sadc → Sadc
reset_hold s = record (touch_fifo_clear s) {
  output = false ∷ [];
  timer = none;
  touch_down = false;
  touch_move_pending = false;
  touch_raw_x = 0x0e74;
  touch_raw_y = 0x0dde;
  enable = 0;
  config = 0x0002002c;
  control = 0;
  status_event = 0;
  pending_enable = 0;
  same_time = 0;
  wait_time = 0;
  touch_sample_is_move = false;
  battery_data = 0;
  sadcin_data = 0;
  next_axis = 0;
  conversion_events_remaining = 0;
  last_read_offset = 0;
  last_read_value = 0;
  last_write_offset = 0;
  last_write_value = 0;
  irq_level = false;
}

-- A restore: the fields that `vmstate_jz4740_sadc` lists come from the saved state, the timer and the
-- line stand as they are.
abbrev pub restore : Sadc → Sadc → Sadc
restore s saved = record saved {
  output = s.output;
  traces = s.traces;
  timer = s.timer;
  irq_level = s.irq_level;
}

-- `sadc_post_load`, after a restore
unfoldable pub post_load : Sadc → ℕ → Sadc
post_load s now = update_irq (if not (s.pending_enable == 0) then timer_mod s now 1 else s)

-- What the bus, the host's pointer and the timer ask of the converter, each at the host's time.
pub data Op : Type 0 where
  mmio_read : ℕ → ℕ → Op
  mmio_write : ℕ → ℕ → ℕ → Op
  pen : ℕ → ℕ → ℕ → Bool → Op
  timeout : Op
  load : ℕ → Sadc → Op

unfoldable pub step : Sadc → Op → Sadc
step s (mmio_read now offset) = (read s now offset).1
step s (mmio_write now offset value) = write s now offset value
step s (pen now raw_x raw_y down) = set_touch s now raw_x raw_y down
step s timeout = timer_cb s
step s (load now saved) = post_load (restore s saved) now

unfoldable pub run : Sadc → List Op → Sadc
run s [] = s
run s (op ∷ ops) = run (step s op) ops
