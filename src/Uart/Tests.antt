-- ===== src/Uart/Tests.antt =====
-- Runs of the serial port: bytes delivered and read, and registers written and read.
use bbk9588_emulator.Base.{◌+◌, ◌%◌, ◌^◌, ◌≡◌, refl, arith, true, false, List, [], ◌∷◌, ◌++◌}
use bbk9588_emulator.Uart.State.{Uart, lsr_reset, reset_hold}
use bbk9588_emulator.Uart.Fifo.{receive}
use bbk9588_emulator.Uart.Registers.{read, write, mmio_read, mmio_write, input, load, run, Op}
use bbk9588_emulator.Uart.Queue.{InRange, drain, contents, take, drain-receive}
use bbk9588_emulator.Uart.Line.{IsSynced, run-reset_hold-IsSynced}
use bbk9588_emulator.Uart.Access.{read-write_uacr}

-- interrupts on, FIFOs on with one byte as the trigger, three bytes from place 14 of the ring
abbrev port : Uart
port = record {
  output = false ∷ [];
  sent = [];
  accepts = 0;
  connected = true;
  regs = λ _. 0;
  status = lsr_reset;
  thr_irq_latched = false;
  ier = 1;
  fcr = 0x11;
  lcr = 3;
  mcr = 0x10;
  msr = 0;
  spr = 0;
  isr = 0;
  umr = 0;
  uacr = 0;
  dll = 0;
  dlh = 0;
  rx_fifo = λ i. i + 0x30;
  rx_head = 14;
  rx_len = 3;
  irq_level = false;
}

port-InRange : InRange port
port-InRange = record { head = omega arith; len = omega arith }

drain-receive_example :
    (drain (receive port (0x41 ∷ 0x42 ∷ [])).rx_len (receive port (0x41 ∷ 0x42 ∷ []))).0
    ≡ take 16 (contents port ++ 0x41 ∷ 0x42 ∷ [])
drain-receive_example = drain-receive port (0x41 ∷ 0x42 ∷ []) refl port-InRange

abbrev full_port : Uart
full_port = record port { rx_len = 16 }

read-write_uacr_example :
    ((write port 0x28 0x1abc 4).uacr ≡ 0x1abc % 2 ^ 12)
    × ((read (write port 0x28 0x1abc 4) 0x28 4).0 ≡ 0x1abc % 2 ^ 8)
read-write_uacr_example = read-write_uacr port 0x1abc (omega arith)

-- receive interrupts on, a byte delivered and read, the state restored
abbrev session : List Op
session =
    mmio_write 0x08 0x11 1
    ∷ mmio_write 0x04 0x01 1
    ∷ input (0x41 ∷ [])
    ∷ mmio_read 0x00 1
    ∷ load
    ∷ []

run-reset_hold-IsSynced_example : IsSynced (run (reset_hold port) session)
run-reset_hold-IsSynced_example = run-reset_hold-IsSynced port session

abbrev signalling : Uart
signalling = record port { status = 0x61; irq_level = true; output = true ∷ [] }
