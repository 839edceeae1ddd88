-- ===== src/Uart/Range.antt =====
-- The register writes of qemu/overlay/hw/char/jz4740_uart.c keep the ring's indices in range.
use bbk9588_emulator.Base.{ℕ, arith, false, bit_and}
use bbk9588_emulator.Uart.State.{Uart, update_irq, update_lsr, update_msr, latch_thr_irq}
use bbk9588_emulator.Uart.Fifo.{clear_rx}
use bbk9588_emulator.Uart.Registers.{
  transmit, write_thr, write_ier, write_fcr, write_mcr, store_reg, latch_enabled,
}
use bbk9588_emulator.Uart.Queue.{InRange, push_rx-InRange}

latch_thr_irq-InRange : (s : Uart) → InRange s → InRange (latch_thr_irq s)
unfolding latch_thr_irq
latch_thr_irq-InRange s r = ground arith

update_lsr-InRange : (s : Uart) → InRange s → InRange (update_lsr s)
unfolding update_lsr
update_lsr-InRange s r = record { head = r.head; len = r.len }

transmit-InRange : (s : Uart) (value : ℕ) → InRange s → InRange (transmit s value)
unfolding transmit
transmit-InRange s value r = ground (arith, push_rx-InRange s value r)

write_thr-InRange : (s : Uart) (value : ℕ) → InRange s → InRange (write_thr s value)
unfolding write_thr
write_thr-InRange s value r =
    let started : Uart = record s { thr_irq_latched = false } in
    let begun : InRange started = record { head = r.head; len = r.len } in
    ground (
      arith,
      latch_thr_irq-InRange (update_lsr (transmit started value))
          (update_lsr-InRange _ (transmit-InRange started value begun)),
    )

write_ier-InRange : (s : Uart) (value : ℕ) → InRange s → InRange (write_ier s value)
unfolding write_ier latch_enabled
write_ier-InRange s value r =
    ground (arith, latch_thr_irq-InRange (record s { ier = bit_and value 0x1f }))

write_fcr-InRange : (s : Uart) (value : ℕ) → InRange s → InRange (write_fcr s value)
unfolding write_fcr latch_thr_irq clear_rx update_irq update_lsr
write_fcr-InRange s value r = ground arith

write_mcr-InRange : (s : Uart) (value : ℕ) → InRange s → InRange (write_mcr s value)
unfolding write_mcr update_msr
write_mcr-InRange s value r = record { head = r.head; len = r.len }

pub store_reg-InRange :
    (s : Uart) (offset reg value : ℕ) → InRange s → InRange (store_reg s offset reg value)
unfolding store_reg
store_reg-InRange s offset reg value r = ground (
  arith,
  write_thr-InRange s value r,
  write_ier-InRange s value r,
  write_fcr-InRange s value r,
  write_mcr-InRange s value r,
)
