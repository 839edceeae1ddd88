-- ===== src/Uart/Line.antt =====
-- The interrupt line of qemu/overlay/hw/char/jz4740_uart.c through every operation.
use bbk9588_emulator.Base.{
  ℕ, ◌%◌, ◌≡◌, refl, arith, Bool, false, not, ◌&&◌, ◌||◌, ◌==◌, ltb, leb, if◌then◌else◌, Bool-cases,
  inl, inr, List, [], ◌∷◌, bit_and,
}
use bbk9588_emulator.Irq.{driven}
use bbk9588_emulator.Bits.{has, test_bit-bit_or, bit_and-bit}
use bbk9588_emulator.Mmio.{aligned}
use bbk9588_emulator.Uart.State.{
  Uart, error_mask, dry, ccts, iir_cause, iir_value, rx_data_ready, rx_trigger_level, update_irq,
  update_lsr, update_msr, reset_hold,
}
use bbk9588_emulator.Uart.Fifo.{store_rx, push_rx, receive, take_rx, pop_rx, clear_rx, post_load}
use bbk9588_emulator.Uart.Registers.{
  read, read_reg, read_value, read_iir, read_lsr, read_msr, write_reg, write, Op, mmio_read,
  mmio_write, input, load, step, run, dlab,
}
use bbk9588_emulator.Uart.Queue.{InRange}
use bbk9588_emulator.Uart.Status.{lsr-dry}
use bbk9588_emulator.Uart.Range.{store_reg-InRange}

-- What holds whenever no handler is running.
pub record IsSynced (s : Uart) : Type 0 where
  pub range : InRange s
  pub ready : has s.status dry ≡ not (s.rx_len == 0)
  pub level : s.irq_level ≡ (bit_and (iir_value s) 0x01 == 0)
  pub line : driven s.output ≡ s.irq_level

-- The interrupt follows; the status must be right already.
update_irq-IsSynced :
    (s : Uart) → InRange s → has s.status dry ≡ not (s.rx_len == 0) → IsSynced (update_irq s)
unfolding update_irq iir_value iir_cause rx_data_ready rx_trigger_level
update_irq-IsSynced s r h = record {
  range = record { head = r.head; len = r.len };
  ready = h;
  level = refl;
  line = refl;
}

-- The two calls that end most handlers restore everything but the ring's indices.
synced : (s : Uart) → InRange s → IsSynced (update_irq (update_lsr s))
unfolding update_lsr
synced s r =
    update_irq-IsSynced (update_lsr s) (record { head = r.head; len = r.len })
      (lsr-dry s.status s.rx_len s.fcr)

-- The calls of `qemu_chr_fe_accept_input` and the mirror of the registers have no part in it.
remembered :
    (s : Uart) (accepts : ℕ) (regs : ℕ → ℕ)
    → IsSynced s
    → IsSynced (record s { accepts = accepts; regs = regs })
unfolding iir_value iir_cause rx_data_ready rx_trigger_level
remembered s accepts regs h = record {
  range = record { head = h.range.head; len = h.range.len };
  ready = h.ready;
  level = h.level;
  line = h.line;
}

push_rx-IsSynced : (s : Uart) (value : ℕ) → InRange s → IsSynced (push_rx s value)
unfolding push_rx store_rx
push_rx-IsSynced s value r = synced (store_rx s value) (ground arith)

receive-IsSynced : (s : Uart) (buf : List ℕ) → IsSynced s → IsSynced (receive s buf)
unfolding receive
receive-IsSynced s [] h = h
receive-IsSynced s (value ∷ buf) h =
    receive-IsSynced (push_rx s value) buf (push_rx-IsSynced s value h.range)

take_rx-InRange : (s : Uart) → InRange s → InRange (take_rx s).1
unfolding take_rx
take_rx-InRange s r = ground arith

pop_rx-IsSynced : (s : Uart) → InRange s → IsSynced (pop_rx s).1
unfolding pop_rx
pop_rx-IsSynced s r =
    let t = (take_rx s).1 in
    remembered (update_irq (update_lsr t)) _ _ (synced t (take_rx-InRange s r))

clear_rx-IsSynced : (s : Uart) → IsSynced (clear_rx s)
unfolding clear_rx
clear_rx-IsSynced s = remembered _ _ _ (synced _ (record { head = omega arith; len = omega arith }))

post_load-IsSynced : (s : Uart) → IsSynced (post_load s)
unfolding post_load
post_load-IsSynced s =
    remembered _ _ _ (synced _ (record { head = omega arith; len = omega arith }))

read_iir-IsSynced : (s : Uart) → IsSynced s → IsSynced (read_iir s).1
unfolding read_iir
read_iir-IsSynced s h = elim (Bool-cases (bit_and (iir_value s) 0x0f == 0x02)) [
  | inl e ↦ rw e (
      update_irq-IsSynced (record s { thr_irq_latched = false })
        (record { head = h.range.head; len = h.range.len }) h.ready)
  | inr n ↦ rw n h
]

read_lsr-IsSynced : (s : Uart) → IsSynced s → IsSynced (read_lsr s).1
unfolding read_lsr update_lsr
read_lsr-IsSynced s h = synced _ (record { head = h.range.head; len = h.range.len })

read_msr-IsSynced : (s : Uart) → IsSynced s → IsSynced (read_msr s).1
unfolding read_msr update_msr
read_msr-IsSynced s h =
    update_irq-IsSynced _ (record { head = h.range.head; len = h.range.len }) h.ready

read_value-IsSynced : (s : Uart) (offset : ℕ) → IsSynced s → IsSynced (read_value s offset).1
unfolding read_value
read_value-IsSynced s offset h = elim (Bool-cases (offset == 0x00)) [
  | inl e ↦ rw e (elim (Bool-cases (dlab s)) [
    | inl on ↦ rw on h
    | inr off ↦ rw off (pop_rx-IsSynced s h.range)
  ])
  | inr n ↦ rw n (elim (Bool-cases (offset == 0x04)) [
    | inl e ↦ rw e (h)
    | inr n ↦ rw n (elim (Bool-cases (offset == 0x08)) [
      | inl e ↦ rw e (read_iir-IsSynced s h)
      | inr n ↦ rw n (elim (Bool-cases (offset == 0x0c)) [
        | inl e ↦ rw e (h)
        | inr n ↦ rw n (elim (Bool-cases (offset == 0x10)) [
          | inl e ↦ rw e (h)
          | inr n ↦ rw n (elim (Bool-cases (offset == 0x14)) [
            | inl e ↦ rw e (read_lsr-IsSynced s h)
            | inr n ↦ rw n (elim (Bool-cases (offset == 0x18)) [
              | inl e ↦ rw e (read_msr-IsSynced s h)
              | inr n ↦ rw n (elim (Bool-cases (offset == 0x1c)) [
                | inl e ↦ rw e (h)
                | inr n ↦ rw n (elim (Bool-cases (offset == 0x20)) [
                  | inl e ↦ rw e (h)
                  | inr n ↦ rw n (elim (Bool-cases (offset == 0x24)) [
                    | inl e ↦ rw e (h)
                    | inr n ↦
                        rw n (elim (Bool-cases (offset == 0x28)) [
                          | inl e ↦ rw e (h)
                          | inr n ↦ rw n (h)
                        ])
                  ])
                ])
              ])
            ])
          ])
        ])
      ])
    ])
  ])
]

read-IsSynced : (s : Uart) (offset size : ℕ) → IsSynced s → IsSynced (read s offset size).1
unfolding read read_reg
read-IsSynced s offset size h = remembered _ _ _ (read_value-IsSynced s (aligned offset) h)

write_reg-IsSynced : (s : Uart) (offset reg : ℕ) → IsSynced s → IsSynced (write_reg s offset reg)
unfolding write_reg
write_reg-IsSynced s offset reg h = elim (Bool-cases (offset % 4 == 0)) [
  | inl e ↦ rw e (synced _ (store_reg-InRange s offset reg _ h.range))
  | inr n ↦ rw n h
]

write-IsSynced :
    (s : Uart) (offset value size : ℕ) → IsSynced s → IsSynced (write s offset value size)
unfolding write
write-IsSynced s offset value size h = write_reg-IsSynced _ offset _ (remembered s _ _ h)

step-IsSynced : (s : Uart) (op : Op) → IsSynced s → IsSynced (step s op)
unfolding step
step-IsSynced s (mmio_read offset size) h = read-IsSynced s offset size h
step-IsSynced s (mmio_write offset value size) h = write-IsSynced s offset value size h
step-IsSynced s (input buf) h = receive-IsSynced s buf h
step-IsSynced s load h = post_load-IsSynced s

run-IsSynced : (s : Uart) (ops : List Op) → IsSynced s → IsSynced (run s ops)
unfolding run
run-IsSynced s [] h = h
run-IsSynced s (op ∷ ops) h = run-IsSynced (step s op) ops (step-IsSynced s op h)

reset_hold-IsSynced : (s : Uart) → IsSynced (reset_hold s)
unfolding reset_hold iir_value iir_cause
reset_hold-IsSynced s = record {
  range = record { head = omega arith; len = omega arith };
  ready = refl;
  level = refl;
  line = refl;
}

-- After a reset, whatever sequence of reads, writes, deliveries and restores the port served: the
-- indices of the ring are in range, the data-ready flag tells whether a byte waits, the line is high
-- exactly while the identification register reports an interrupt, and the recorded level is what was
-- driven last.
pub run-reset_hold-IsSynced : (s : Uart) (ops : List Op) → IsSynced (run (reset_hold s) ops)
run-reset_hold-IsSynced s ops = run-IsSynced (reset_hold s) ops (reset_hold-IsSynced s)

-- Interrupts are on, and some cause that is enabled is present.
pub demands : Uart → Bool
demands s =
    has s.fcr 0x10
    && ((has s.ier 0x04 && has s.status error_mask)
        || (has s.ier 0x01 && leb (rx_trigger_level s) s.rx_len)
        || (has s.ier 0x10 && ltb 0 s.rx_len)
        || (s.thr_irq_latched && has s.ier 0x02 && has s.status 0x20)
        || (has s.ier 0x08 && has s.msr ccts))

-- The line is high exactly while interrupts are on and an enabled cause is present: a line error,
-- enough received bytes, any received byte with the timeout enabled, an empty transmitter that was
-- not acknowledged yet, or a change of CTS.
pub irq_level_lem : {s : Uart} → IsSynced s → s.irq_level ≡ demands s
unfolding demands iir_value iir_cause rx_data_ready
irq_level_lem {s} h =
    let fifo : ℕ = if has s.fcr 0x01 then 0xc0 else 0 in
    ground (arith, h.level, bit_and-bit 0 (iir_value s), test_bit-bit_or fifo (iir_cause s) 0)
