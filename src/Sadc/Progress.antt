-- ===== src/Sadc/Progress.antt =====
-- The pen's samples of qemu/overlay/hw/input/jz4740_sadc.c: sampling goes on while the pen is down,
-- except after a write that empties the queue.
use bbk9588_emulator.Base.{
  ℕ, ◌-◌, ◌%◌, ◌^◌, ◌<◌, ◌≡◌, refl, arith, bit_and, bit_or, Bool, true, false, not, ◌&&◌, ◌||◌,
  ◌==◌, ltb, none, List, [], ◌∷◌,
}
use bbk9588_emulator.Bits.{
  has, has-bit_or, has-bit_and, has_set, not32, test_bit-not32, test_bit-bit_and, test_bit-mod,
  bit_and-bit, bit_and-le,
}
use bbk9588_emulator.Sadc.State.{
  Sadc, sadcinen, pbaten, tchen, dtch, srdy, drdy, penu, pend, state_mask, update_irq,
  touch_fifo_clear, touch_fifo_pop, queue_touch_sample,
}
use bbk9588_emulator.Sadc.Touch.{
  may_sample, ask_sample, queue_next_touch_sample, complete_cpu_samples, schedule_conversion,
  timer_cb, follow_pen, set_touch,
}
use bbk9588_emulator.Sadc.Registers.{
  read_touch, read_reg, read, write_enable, write_state, write_reg, write, post_load, Op, mmio_read,
  mmio_write, pen, timeout, load, step, run,
}

-- The pen is down and sampled, nothing waits to be read or acknowledged and a sample is due, but no
-- conversion is asked for.
abbrev pub is_stalled : Sadc → Bool
is_stalled s =
    s.touch_down
    && has s.enable tchen
    && not (has s.status_event dtch)
    && s.touch_fifo_count == 0
    && (ltb 0 s.conversion_events_remaining || s.touch_move_pending)
    && not (has s.pending_enable tchen)

zero_has : (m : ℕ) → has 0 m ≡ false
zero_has m = ground (arith, bit_and-le 0 0 m)

-- Asking for the next sample ends a stall.
queue_next_lem : (s : Sadc) (now : ℕ) → is_stalled (queue_next_touch_sample s now).1 ≡ false
unfolding queue_next_touch_sample may_sample ask_sample
queue_next_lem s now = ground (arith, has-bit_or 2 s.pending_enable tchen)

complete_lem :
    (s : Sadc) (requested : ℕ)
    → (has (complete_cpu_samples s requested).enable tchen ≡ has s.enable tchen)
      × (has (complete_cpu_samples s requested).status_event dtch ≡ has s.status_event dtch)
unfolding complete_cpu_samples
complete_lem s requested =
    let st = bit_or s.status_event srdy in
    let en = bit_and s.enable (not32 sadcinen) in
    (
      ground (
        arith,
        has-bit_and 2 s.enable (not32 sadcinen),
        has-bit_and 2 en (not32 pbaten),
        has-bit_and 2 s.enable (not32 pbaten),
      ),
      ground (
        arith,
        has-bit_or 2 s.status_event srdy,
        has-bit_or 2 st drdy,
        has-bit_or 2 s.status_event drdy,
      ),
    )

-- The rest of the state stands while samples complete.
complete_rest :
    (s : Sadc) (requested : ℕ)
    → ((complete_cpu_samples s requested).touch_down ≡ s.touch_down)
      × ((complete_cpu_samples s requested).touch_fifo_count ≡ s.touch_fifo_count)
      × ((complete_cpu_samples s requested).conversion_events_remaining
          ≡ s.conversion_events_remaining)
      × ((complete_cpu_samples s requested).touch_move_pending ≡ s.touch_move_pending)
      × ((complete_cpu_samples s requested).pending_enable ≡ s.pending_enable)
unfolding complete_cpu_samples
complete_rest s requested = ground arith

queue_touch-dtch : (s : Sadc) → has (queue_touch_sample s).status_event dtch ≡ true
unfolding queue_touch_sample
queue_touch-dtch s = has_set 2 _ dtch refl

timer_cb_lem : (s : Sadc) → is_stalled s ≡ false → is_stalled (timer_cb s) ≡ false
unfolding timer_cb update_irq
timer_cb_lem s h =
    let fired : Sadc = record s { timer = none; pending_enable = 0 } in
    let done = complete_cpu_samples fired s.pending_enable in
    ground (
      arith,
      h,
      complete_lem fired s.pending_enable,
      complete_rest fired s.pending_enable,
      queue_touch-dtch done,
    )

set_touch_lem :
    (s : Sadc) (now raw_x raw_y : ℕ) (down : Bool)
    → is_stalled s ≡ false
    → is_stalled (set_touch s now raw_x raw_y down) ≡ false
unfolding set_touch follow_pen update_irq
set_touch_lem s now raw_x raw_y down h =
    let moved : Sadc = record s { touch_raw_x = raw_x; touch_raw_y = raw_y; touch_down = down } in
    let started : Sadc = record moved {
      status_event = bit_or (bit_and s.status_event (not32 penu)) pend;
      touch_move_pending = false;
      conversion_events_remaining = 5;
    } in
    ground (
      arith,
      queue_next_lem (record moved { touch_move_pending = true }) now,
      queue_next_lem started now,
    )

read_touch_lem :
    (s : Sadc) (now : ℕ) → is_stalled s ≡ false → is_stalled (read_touch s now).1 ≡ false
unfolding read_touch update_irq
read_touch_lem s now h = ground (arith, queue_next_lem (touch_fifo_pop s).1 now)

read_lem :
    (s : Sadc) (now offset : ℕ) → is_stalled s ≡ false → is_stalled (read s now offset).1 ≡ false
unfolding read read_reg
read_lem s now offset h = ground (arith, read_touch_lem s now h)

write_enable_lem : (s : Sadc) (now value : ℕ) → is_stalled (write_enable s now value) ≡ false
unfolding write_enable update_irq schedule_conversion
write_enable_lem s now value =
    let requested = bit_and value (bit_or (bit_or sadcinen pbaten) tchen) in
    ground (arith, has-bit_or 2 s.pending_enable requested, bit_and-bit 2 requested)

write_state_lem :
    (s : Sadc) (now value : ℕ) → is_stalled s ≡ false → is_stalled (write_state s now value) ≡ false
unfolding write_state update_irq
write_state_lem s now value h =
    let acknowledged = bit_and (value % 256) state_mask in
    let t : Sadc = record s { status_event = bit_and s.status_event (not32 acknowledged) } in
    let counted : Sadc = record t {
      conversion_events_remaining = t.conversion_events_remaining - 1;
    } in
    ground (
      arith,
      queue_next_lem t now,
      queue_next_lem counted now,
      has-bit_and 2 s.status_event (not32 acknowledged),
      test_bit-not32 acknowledged 2,
      test_bit-bit_and (value % 256) state_mask 2,
      test_bit-mod 8 value 2,
      bit_and-bit 2 value,
    )

-- the operations that may stall it: the write that empties the queue of samples, and the restore of a
-- state that is stalled already
abbrev pub may_stall : Op → Bool
may_stall (mmio_write now offset value) = offset == 0x18
may_stall (load now saved) = is_stalled saved
may_stall op = false

write_lem :
    (s : Sadc) (now offset value : ℕ)
    → (offset == 0x18) ≡ false
    → is_stalled s ≡ false
    → is_stalled (write s now offset value) ≡ false
unfolding write write_reg update_irq
write_lem s now offset value other h =
    let noted : Sadc = record s {
      last_write_offset = offset % 2 ^ 32;
      last_write_value = value % 2 ^ 32;
    } in
    ground (
      arith,
      write_enable_lem noted now value,
      write_state_lem noted now value h,
      has-bit_and 2 s.status_event (not32 drdy),
      has-bit_and 2 s.status_event (not32 srdy),
    )

post_load_lem : (s : Sadc) (now : ℕ) → is_stalled s ≡ false → is_stalled (post_load s now) ≡ false
unfolding post_load update_irq
post_load_lem s now h = ground (arith, h)

step_lem :
    (s : Sadc) (op : Op)
    → may_stall op ≡ false
    → is_stalled s ≡ false
    → is_stalled (step s op) ≡ false
unfolding step
step_lem s (mmio_read now offset) e h = read_lem s now offset h
step_lem s (mmio_write now offset value) e h = write_lem s now offset value e h
step_lem s (pen now raw_x raw_y down) e h = set_touch_lem s now raw_x raw_y down h
step_lem s timeout e h = timer_cb_lem s h
step_lem s (load now saved) e h = post_load_lem _ now e

-- None of the operations may stall it.
abbrev pub KeepGoing : List Op → Type 0
KeepGoing [] = Unit
KeepGoing (op ∷ ops) = (may_stall op ≡ false) × KeepGoing ops

-- From a state that is not stalled on, as long as no write empties the queue of samples and no stalled
-- state is restored, sampling does not stall: after any register accesses, pen events, timeouts and
-- restores of saved states, a sample that is due while the pen is down and sampled is waiting, or its
-- conversion is asked for.
pub run_goes_on :
    (s : Sadc) (ops : List Op)
    → KeepGoing ops
    → is_stalled s ≡ false
    → is_stalled (run s ops) ≡ false
unfolding run
run_goes_on s [] k h = h
run_goes_on s (op ∷ ops) k h = run_goes_on (step s op) ops k.1 (step_lem s op k.0 h)

-- Emptying the queue does stall it: if a sample waits that was acknowledged already, no conversion
-- is asked for and another sample is due, then after the write to ADTCH no sample waits and none is
-- asked for.
pub emptied_stalls :
    (s : Sadc) (now value : ℕ)
    → s.touch_down ≡ true
    → has s.enable tchen ≡ true
    → has s.status_event dtch ≡ false
    → s.pending_enable ≡ 0
    → 0 < s.conversion_events_remaining
    → is_stalled (write s now 0x18 value) ≡ true
unfolding write write_reg update_irq touch_fifo_clear
emptied_stalls s now value down on clear idle due = ground (arith, zero_has tchen)
