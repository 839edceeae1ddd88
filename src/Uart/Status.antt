-- ===== src/Uart/Status.antt =====
-- The flags that uart_update_lsr of qemu/overlay/hw/char/jz4740_uart.c sets and keeps.
use bbk9588_emulator.Base.{ℕ, ◌≡◌, arith, Bool, true, not, ◌&&◌, ◌||◌, ◌==◌, bit_or, bit_and}
use bbk9588_emulator.Bits.{has, test_bit, test_bit-bit_or, test_bit-bit_and, bit_and-bit}
use bbk9588_emulator.Uart.State.{over, error_mask, lsr_reset, dry, fifoe, lsr_value}

module _ (status rx_len fcr : ℕ) where
  -- the errors that set the flag for an error in the queue
  errors_queued : Bool
  errors_queued = has fcr 0x01 && has (bit_and status error_mask) 0x1e

  test_bit-lsr_value :
      (i : ℕ)
      → test_bit (lsr_value status rx_len fcr) i ≡ (
          (test_bit status i && test_bit error_mask i)
          || test_bit lsr_reset i
          || (not (rx_len == 0) && test_bit dry i)
          || (errors_queued && test_bit fifoe i))
  unfolding lsr_value errors_queued
  test_bit-lsr_value i =
      let sticky = bit_and status error_mask in
      let calm = bit_or sticky lsr_reset in
      ground (
        arith,
        test_bit-bit_and status error_mask i,
        test_bit-bit_or sticky lsr_reset i,
        test_bit-bit_or calm dry i,
        test_bit-bit_or calm fifoe i,
        test_bit-bit_or (bit_or calm dry) fifoe i,
      )

  -- Data is ready exactly when a byte waits.
  pub lsr-dry : has (lsr_value status rx_len fcr) dry ≡ not (rx_len == 0)
  lsr-dry = ground (arith, bit_and-bit 0 (lsr_value status rx_len fcr), test_bit-lsr_value 0)

  -- An overrun stays until it is read.
  pub lsr-over : has (lsr_value status rx_len fcr) over ≡ has status over
  lsr-over = ground (
    arith,
    bit_and-bit 1 (lsr_value status rx_len fcr),
    bit_and-bit 1 status,
    test_bit-lsr_value 1,
  )

  -- The transmitter is always empty.
  pub lsr-tdrq : has (lsr_value status rx_len fcr) 0x20 ≡ true
  lsr-tdrq = ground (arith, bit_and-bit 5 (lsr_value status rx_len fcr), test_bit-lsr_value 5)
