-- ===== src/Uart/Registers.antt =====
-- The register window of qemu/overlay/hw/char/jz4740_uart.c: uart_read_reg, uart_read, uart_write_reg
-- and uart_write.
use bbk9588_emulator.Base.{
  ℕ, ◌/◌, ◌%◌, ◌^◌, bit_and, Bool, false, not, ◌==◌, if◌then◌else◌, List, [], ◌∷◌, update,
}
use bbk9588_emulator.Bits.{has, not32}
use bbk9588_emulator.Mmio.{aligned, byte_shift, merge, extract32}
use bbk9588_emulator.Uart.State.{
  Uart, ccts, tdrie, ume, error_mask, iir_value, latch_thr_irq, update_irq, update_lsr, update_msr,
}
use bbk9588_emulator.Uart.Fifo.{push_rx, receive, pop_rx, clear_rx, post_load}

-- `s->lcr & UART_LCR_DLAB`
abbrev pub dlab : Uart → Bool
dlab s = has s.lcr 0x80

-- The case UART_IIR of `uart_read_reg`: reading the cause "transmit" withdraws it.
unfoldable pub read_iir : Uart → ℕ × Uart
read_iir s =
    let value = iir_value s in
    (
      value,
      if bit_and value 0x0f == 0x02 then update_irq (record s { thr_irq_latched = false }) else s,
    )

-- The case UART_LSR of `uart_read_reg`: reading the errors clears them.
unfoldable pub read_lsr : Uart → ℕ × Uart
read_lsr s =
    let t = update_lsr s in
    (
      t.status % 256,
      update_irq (update_lsr (record t { status = bit_and t.status (not32 error_mask) })),
    )

-- The case UART_MSR of `uart_read_reg`: reading the change of CTS clears it.
unfoldable pub read_msr : Uart → ℕ × Uart
read_msr s =
    let t = update_msr s in (t.msr, update_irq (record t { msr = bit_and t.msr (not32 ccts) }))

-- The switch of `uart_read_reg`. Its variable is a uint8_t.
unfoldable pub read_value : Uart → ℕ → ℕ × Uart
unfolding read_iir read_lsr read_msr
read_value s offset =
    if offset == 0x00
    then (if dlab s then (s.dll, s) else pop_rx s)
    else if offset == 0x04
    then (if dlab s then s.dlh else s.ier, s)
    else if offset == 0x08
    then read_iir s
    else if offset == 0x0c
    then (s.lcr, s)
    else if offset == 0x10
    then (s.mcr, s)
    else if offset == 0x14
    then read_lsr s
    else if offset == 0x18
    then read_msr s
    else if offset == 0x1c
    then (s.spr, s)
    else if offset == 0x20
    then (s.isr, s)
    else if offset == 0x24
    then (s.umr, s)
    else if offset == 0x28
    then (s.uacr % 256, s)
    else (s.regs (offset / 4) % 256, s)

-- `uart_read_reg`
unfoldable pub read_reg : Uart → ℕ → ℕ × Uart
unfolding read_value
read_reg s offset =
    let (value, t) = read_value s offset in
    (value, record t { regs = update t.regs (offset / 4) value })

-- `uart_read`
unfoldable pub read : Uart → ℕ → ℕ → ℕ × Uart
unfolding read_reg
read s offset size =
    let (value, t) = read_reg s (aligned offset) in (extract32 value offset size, t)

-- `qemu_chr_fe_write_all` with one byte, or the loop back to the receiver
unfoldable pub transmit : Uart → ℕ → Uart
transmit s value =
    if has s.mcr 0x10
    then push_rx s value
    else if s.connected
    then record s { sent = value ∷ s.sent }
    else s

-- The case UART_THR of `uart_write_reg`.
unfoldable pub write_thr : Uart → ℕ → Uart
unfolding transmit
write_thr s value =
    if dlab s
    then record s { dll = value; regs = update s.regs 0 value }
    else (let t =
          latch_thr_irq (update_lsr (transmit (record s { thr_irq_latched = false }) value)) in
        record t { regs = update t.regs 0 value })

-- The transmit interrupt when the enable register changes.
unfoldable pub latch_enabled : Uart → Bool → Uart
latch_enabled s was_tdrie =
    if not (has s.ier tdrie)
    then record s { thr_irq_latched = false }
    else if not was_tdrie
    then latch_thr_irq s
    else s

-- The case UART_IER of `uart_write_reg`.
unfoldable pub write_ier : Uart → ℕ → Uart
unfolding latch_enabled
write_ier s value =
    if dlab s
    then record s { dlh = value; regs = update s.regs 1 value }
    else (let t = latch_enabled (record s { ier = bit_and value 0x1f }) (has s.ier tdrie) in
        record t { regs = update t.regs 1 t.ier })

-- The case UART_FCR of `uart_write_reg`: first the two resets, then the control bits.
unfoldable pub write_fcr : Uart → ℕ → Uart
write_fcr s value =
    let cleared = if has value 0x02 then clear_rx s else s in
    let stopped = if has value 0x04 then record cleared { thr_irq_latched = false } else cleared in
    let t = record stopped { fcr = bit_and value 0xd9 } in
    let u = if has t.fcr ume then latch_thr_irq t else record t { thr_irq_latched = false } in
    record u { regs = update u.regs 2 u.fcr }

-- The case UART_MCR of `uart_write_reg`.
unfoldable pub write_mcr : Uart → ℕ → Uart
write_mcr s value =
    let t = update_msr (record s { mcr = bit_and value 0x92 }) in
    record t { regs = update t.regs 4 t.mcr }

-- The switch of `uart_write_reg` at an aligned offset.
unfoldable pub store_reg : Uart → ℕ → ℕ → ℕ → Uart
unfolding write_thr write_ier write_fcr write_mcr
store_reg s offset reg value =
    if offset == 0x00
    then write_thr s value
    else if offset == 0x04
    then write_ier s value
    else if offset == 0x08
    then write_fcr s value
    else if offset == 0x0c
    then record s { lcr = value; regs = update s.regs 3 value }
    else if offset == 0x10
    then write_mcr s value
    else if offset == 0x1c
    then record s { spr = value; regs = update s.regs 7 value }
    else if offset == 0x20
    then record s { isr = bit_and value 0x1f; regs = update s.regs 8 (bit_and value 0x1f) }
    else if offset == 0x24
    then record s { umr = bit_and value 0x3f; regs = update s.regs 9 (bit_and value 0x3f) }
    else if offset == 0x28
    then record s { uacr = bit_and reg 0xfff; regs = update s.regs 10 (bit_and reg 0xfff) }
    else record s { regs = update s.regs (offset / 4) reg }

-- `uart_write_reg`
unfoldable pub write_reg : Uart → ℕ → ℕ → Uart
unfolding store_reg
write_reg s offset reg =
    if not (offset % 4 == 0)
    then s
    else update_irq
        (update_lsr (store_reg s offset reg (bit_and (reg / 2 ^ byte_shift offset) 0xff)))

-- `uart_write`
unfoldable pub write : Uart → ℕ → ℕ → ℕ → Uart
unfolding write_reg
write s offset value size =
    let reg = merge (s.regs (offset / 4)) offset size value in
    write_reg (record s { regs = update s.regs (offset / 4) reg }) offset reg

-- What the bus, the character device and the loader ask of the port.
pub data Op : Type 0 where
  mmio_read : ℕ → ℕ → Op
  mmio_write : ℕ → ℕ → ℕ → Op
  input : List ℕ → Op
  load : Op

unfoldable pub step : Uart → Op → Uart
step s (mmio_read offset size) = (read s offset size).1
step s (mmio_write offset value size) = write s offset value size
step s (input buf) = receive s buf
step s load = post_load s

unfoldable pub run : Uart → List Op → Uart
run s [] = s
run s (op ∷ ops) = run (step s op) ops
