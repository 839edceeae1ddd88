-- ===== src/Uart/Fifo.antt =====
-- The receive queue of qemu/overlay/hw/char/jz4740_uart.c: from uart_push_rx to uart_clear_rx.
use bbk9588_emulator.Base.{
  ℕ, ◌+◌, ◌-◌, ◌%◌, ◌^◌, bit_and, bit_or, not, ◌==◌, ltb, if◌then◌else◌, List, [], ◌∷◌, update, min,
}
use bbk9588_emulator.Bits.{not32}
use bbk9588_emulator.Uart.State.{
  Uart, fifo_size, over, error_mask, update_irq, update_lsr, accept_input,
}

-- the body of `uart_push_rx` before the status and the interrupt follow
unfoldable pub store_rx : Uart → ℕ → Uart
store_rx s value =
    if ltb s.rx_len fifo_size
    then record s {
      rx_fifo = update s.rx_fifo ((s.rx_head + s.rx_len) % fifo_size) value;
      rx_len = s.rx_len + 1;
    }
    else record s { status = bit_or s.status over }

-- `uart_push_rx`
unfoldable pub push_rx : Uart → ℕ → Uart
unfolding store_rx
push_rx s value = update_irq (update_lsr (store_rx s value))

-- `uart_can_receive`. The count is unsigned in the code, and below 2 ^ 31.
unfoldable pub can_receive : Uart → ℕ
can_receive s = (fifo_size + 2 ^ 32 - s.rx_len) % 2 ^ 32

-- `uart_receive`
unfoldable pub receive : Uart → List ℕ → Uart
receive s [] = s
receive s (value ∷ buf) = receive (push_rx s value) buf

-- the body of `uart_pop_rx` before the status and the interrupt follow
unfoldable pub take_rx : Uart → ℕ × Uart
take_rx s =
    if not (s.rx_len == 0)
    then (
      s.rx_fifo s.rx_head,
      record s { rx_head = (s.rx_head + 1) % fifo_size; rx_len = s.rx_len - 1 },
    )
    else (0xff, s)

-- `uart_pop_rx`
unfoldable pub pop_rx : Uart → ℕ × Uart
unfolding take_rx
pop_rx s = let (value, t) = take_rx s in (value, accept_input (update_irq (update_lsr t)))

-- `uart_clear_rx`
unfoldable pub clear_rx : Uart → Uart
clear_rx s = accept_input (
    update_irq (
      update_lsr
        (record s { rx_head = 0; rx_len = 0; status = bit_and s.status (not32 error_mask) })))

-- `uart_post_load`
unfoldable pub post_load : Uart → Uart
post_load s = accept_input (
    update_irq
      (update_lsr (record s { rx_head = s.rx_head % fifo_size; rx_len = min s.rx_len fifo_size })))
