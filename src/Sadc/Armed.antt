-- ===== src/Sadc/Armed.antt =====
-- The interrupt and the timer of qemu/overlay/hw/input/jz4740_sadc.c through every operation.
use bbk9588_emulator.Base.{
  ℕ, ◌%◌, ◌^◌, ◌≤◌, ◌<◌, ◌≡◌, refl, arith, bit_and, Bool, true, false, not, ◌||◌, ◌==◌, ==→eq,
  Option, none, some, List, [], ◌∷◌,
}
use bbk9588_emulator.Bits.{not32, bit_and-le}
use bbk9588_emulator.Sadc.State.{
  Sadc, tchen, update_irq, touch_fifo_clear, touch_fifo_push, touch_fifo_pop, queue_touch_sample,
  fifo_depth,
}
use bbk9588_emulator.Sadc.Touch.{
  ask_sample, queue_next_touch_sample, complete_cpu_samples, schedule_conversion, timer_cb,
  follow_pen, set_touch,
}
use bbk9588_emulator.Sadc.Registers.{
  read_touch, read_reg, read, write_enable, write_state, write_reg, write, reset_hold, post_load,
  Op, mmio_read, mmio_write, pen, timeout, load, step, run,
}

abbrev pub is_armed : Option ℕ → Bool
is_armed none = false
is_armed (some t) = true

-- The queue's indices are in range, and a conversion that is asked for has the timer running.
pub record IsArmed (s : Sadc) : Type 0 where
  pub head : s.touch_fifo_head < fifo_depth
  pub count : s.touch_fifo_count ≤ fifo_depth
  pub armed : (s.pending_enable == 0 || is_armed s.timer) ≡ true

touch_fifo_pop-IsArmed : (s : Sadc) → IsArmed s → IsArmed (touch_fifo_pop s).1
unfolding touch_fifo_pop
touch_fifo_pop-IsArmed s h = ground arith

queue_next-IsArmed : (s : Sadc) (now : ℕ) → IsArmed s → IsArmed (queue_next_touch_sample s now).1
unfolding queue_next_touch_sample ask_sample
queue_next-IsArmed s now h = ground arith

complete-IsArmed :
    (s : Sadc) (requested : ℕ) → IsArmed s → IsArmed (complete_cpu_samples s requested)
unfolding complete_cpu_samples
complete-IsArmed s requested h = ground arith

schedule-IsArmed :
    (s : Sadc) (now requested : ℕ) → IsArmed s → IsArmed (schedule_conversion s now requested)
unfolding schedule_conversion
schedule-IsArmed s now requested h = ground arith

queue_touch-IsArmed : (s : Sadc) → IsArmed s → IsArmed (queue_touch_sample s)
unfolding queue_touch_sample touch_fifo_push touch_fifo_clear
queue_touch-IsArmed s h = ground arith

zero_and : (a b : ℕ) → (a == 0) ≡ true → (bit_and a b == 0) ≡ true
zero_and a b h = rw (==→eq a 0 h) (ground (arith, bit_and-le 0 0 b))

timer_cb-IsArmed : (s : Sadc) → IsArmed s → IsArmed (timer_cb s)
unfolding timer_cb update_irq
timer_cb-IsArmed s h =
    let fired : Sadc = record s { timer = none; pending_enable = 0 } in
    let fired-IsArmed : IsArmed fired = record { head = h.head; count = h.count; armed = refl } in
    let done = complete-IsArmed fired s.pending_enable fired-IsArmed in
    ground (arith, done, queue_touch-IsArmed (complete_cpu_samples fired s.pending_enable) done)

follow_pen-IsArmed :
    (s : Sadc) (now : ℕ) (was_down changed down : Bool)
    → IsArmed s
    → IsArmed (follow_pen s now was_down changed down)
unfolding follow_pen queue_next_touch_sample ask_sample
follow_pen-IsArmed s now was_down changed down h =
    ground (arith, zero_and s.pending_enable (not32 tchen))

set_touch-IsArmed :
    (s : Sadc) (now raw_x raw_y : ℕ) (down : Bool)
    → IsArmed s
    → IsArmed (set_touch s now raw_x raw_y down)
unfolding set_touch update_irq
set_touch-IsArmed s now raw_x raw_y down h =
    let moved : Sadc = record s { touch_raw_x = raw_x; touch_raw_y = raw_y; touch_down = down } in
    let moved-IsArmed : IsArmed moved = record {
      head = h.head;
      count = h.count;
      armed = h.armed;
    } in
    let changed = not (s.touch_raw_x == raw_x) || not (s.touch_raw_y == raw_y) in
    ground (arith, follow_pen-IsArmed moved now s.touch_down changed down moved-IsArmed)

read_touch-IsArmed : (s : Sadc) (now : ℕ) → IsArmed s → IsArmed (read_touch s now).1
unfolding read_touch update_irq
read_touch-IsArmed s now h =
    let popped = touch_fifo_pop-IsArmed s h in
    ground (arith, popped, queue_next-IsArmed (touch_fifo_pop s).1 now popped)

read-IsArmed : (s : Sadc) (now offset : ℕ) → IsArmed s → IsArmed (read s now offset).1
unfolding read read_reg
read-IsArmed s now offset h = ground (arith, read_touch-IsArmed s now h)

write_enable-IsArmed : (s : Sadc) (now value : ℕ) → IsArmed s → IsArmed (write_enable s now value)
unfolding write_enable update_irq schedule_conversion
write_enable-IsArmed s now value h = ground arith

write_state-IsArmed : (s : Sadc) (now value : ℕ) → IsArmed s → IsArmed (write_state s now value)
unfolding write_state update_irq queue_next_touch_sample ask_sample
write_state-IsArmed s now value h = ground arith

write-IsArmed : (s : Sadc) (now offset value : ℕ) → IsArmed s → IsArmed (write s now offset value)
unfolding write write_reg update_irq touch_fifo_clear
write-IsArmed s now offset value h =
    let noted : Sadc = record s {
      last_write_offset = offset % 2 ^ 32;
      last_write_value = value % 2 ^ 32;
    } in
    let noted-IsArmed : IsArmed noted = record {
      head = h.head;
      count = h.count;
      armed = h.armed;
    } in
    ground (
      arith,
      write_enable-IsArmed noted now value noted-IsArmed,
      write_state-IsArmed noted now value noted-IsArmed,
    )

-- The loader does not look at the indices, and arms the timer itself.
post_load-IsArmed :
    (s : Sadc) (now : ℕ)
    → s.touch_fifo_head < fifo_depth
    → s.touch_fifo_count ≤ fifo_depth
    → IsArmed (post_load s now)
unfolding post_load update_irq
post_load-IsArmed s now h c = ground arith

-- The states that are restored have the indices of their queues in range; of the timer nothing is
-- asked.
abbrev pub HasQueue : Op → Type 0
HasQueue (load now saved) =
    (saved.touch_fifo_head < fifo_depth) × (saved.touch_fifo_count ≤ fifo_depth)
HasQueue op = Unit

abbrev pub HaveQueues : List Op → Type 0
HaveQueues [] = Unit
HaveQueues (op ∷ ops) = HasQueue op × HaveQueues ops

step-IsArmed : (s : Sadc) (op : Op) → HasQueue op → IsArmed s → IsArmed (step s op)
unfolding step
step-IsArmed s (mmio_read now offset) q h = read-IsArmed s now offset h
step-IsArmed s (mmio_write now offset value) q h = write-IsArmed s now offset value h
step-IsArmed s (pen now raw_x raw_y down) q h = set_touch-IsArmed s now raw_x raw_y down h
step-IsArmed s timeout q h = timer_cb-IsArmed s h
step-IsArmed s (load now saved) q h = post_load-IsArmed _ now q.0 q.1

run-IsArmed : (s : Sadc) (ops : List Op) → HaveQueues ops → IsArmed s → IsArmed (run s ops)
unfolding run
run-IsArmed s [] q h = h
run-IsArmed s (op ∷ ops) q h = run-IsArmed (step s op) ops q.1 (step-IsArmed s op q.0 h)

reset_hold-IsArmed : (s : Sadc) → IsArmed (reset_hold s)
unfolding reset_hold touch_fifo_clear
reset_hold-IsArmed s = record { head = omega arith; count = omega arith; armed = refl }

-- After a reset, whatever sequence of register accesses, pen events, timeouts and restores of saved
-- states came, if the saved states have the indices of their sample queues in range: the queue's indices
-- are in range, and while a conversion is asked for the timer is running, so that no conversion is
-- forgotten.
pub run-reset_hold-IsArmed :
    (s : Sadc) (ops : List Op) → HaveQueues ops → IsArmed (run (reset_hold s) ops)
run-reset_hold-IsArmed s ops q = run-IsArmed (reset_hold s) ops q (reset_hold-IsArmed s)
