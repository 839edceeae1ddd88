-- ===== src/Lib.antt =====
-- Verification of the device models of the BBK 9588 emulator.
--
-- The emulator is a QEMU machine: the board file qemu/overlay/hw/mips/bbk9588.c joins models of the
-- JZ4740's devices, each a C file under qemu/overlay/hw with a state structure, a register window
-- (a read and a write handler), interrupt lines, a reset and a reload after migration. The devices
-- raise interrupt lines; the lines of the timer unit and the GPIO ports end at the interrupt
-- controller, whose output is a line of the processor. The NAND device holds the system image and
-- writes changes back to a block backend.
--
-- The files, and the code that each is about:
-- - Base (Base/Tests, Base/Memory): comparisons as Boolean tests, arrays as functions of the index.
-- - Bits (Bits/Step, Bits/Laws, Bits/Sum, Bits/Flags): the bit operations of C on the native numbers, by
--   test_bit; has is the test of C with a mask.
-- - Mmio: the byte lanes of register accesses, gpio_write and gpio_extract32 of
--   qemu/overlay/hw/gpio/jz4740_gpio.c, which other devices repeat. Mmio/Lanes has the laws.
-- - Irq: what a device drives on a line with qemu_set_irq.
-- - Intc: qemu/overlay/hw/intc/jz4740_intc.c. update_line is jz4740_intc_update, set_irq and
--   set_pending_mask keep their names, read, write, reset_hold and post_load are the handlers.
--   Proofs: Intc/Coherent, Intc/Registers.
-- - Gpio: qemu/overlay/hw/gpio/jz4740_gpio.c. update_irq, set_input_level, raise_flag, pin_input, read,
--   write, reset_hold and post_load are the functions of these names. Proofs: Gpio/Flags,
--   Gpio/Registers.
-- - Tcu: qemu/overlay/hw/timer/jz4740_tcu.c. Tcu/Counter has the state and the counters, Tcu/Deadline
--   the deadlines, the timer and the outputs, Tcu/Channel and Tcu/Registers the window; a function tcu_x is x.
--   Proofs: Tcu/Latch, Tcu/Match, Tcu/Schedule, Tcu/Flags, Tcu/Frame, Tcu/Outputs,
--   Tcu/Forget.
-- - Nand: qemu/overlay/hw/block/bbk9588_nand.c. Nand/State has the state and the latched addresses,
--   Nand/Read the read buffer, Nand/Program the program and erase commits, Nand/Flush the write-back,
--   Nand/Bus the windows; a function nand_x is x, with run_command, run_address for nand_command and
--   nand_address. Proofs: Nand/Program/Commit, Paths, Erase and Overrun, Nand/Flush/Progress,
--   Nand/Bus/Loaded, Fetch, Windows, Sequence and CopyBack.
-- - Ecc: qemu/overlay/hw/mem/jz4740_ecc.c, the symbols, the packed parity and the correction; a function
--   rs_x is x. Proofs: Ecc/Parity, Ecc/Symbols, Ecc/Correct.
-- - Emc: qemu/overlay/hw/mem/jz4740_emc.c. Emc/State has the state, the interrupt and the data of the NAND
--   device that pass by, Emc/Registers the window; a function emc_x is x. A register is named by its
--   index. Proofs: Emc/Line, Emc/Block.
-- - Rtc: qemu/overlay/hw/rtc/jz4740_rtc.c; a function rtc_x is x, seconds_at is
--   jz4740_rtc_seconds. Rtc/State has the state and the seconds, Rtc/Registers the window.
--   Proofs: Rtc/Signal, Rtc/Seconds, Rtc/Protect.
-- - Uart: qemu/overlay/hw/char/jz4740_uart.c. Uart/State has the state, the status and the interrupt
--   identification, Uart/Fifo the receive queue, Uart/Registers the window; a function uart_x is x.
--   Proofs: Uart/Queue, Uart/Status, Uart/Range, Uart/Line, Uart/Access.
-- - Dmac: qemu/overlay/hw/dma/jz4740_dmac.c. Dmac/State has the state, its Env the rest of the machine,
--   Dmac/Channel the descriptors and the end of a transfer, Dmac/Transfer the transfers, Dmac/Registers
--   the window; a function dmac_x is x, kick and set_request are jz4740_dmac_kick and
--   jz4740_dmac_set_request. Dmac/Memory states what is relied on of the guest's memory. Proofs:
--   Dmac/Copy, Fill, Auto, Moved, Status, Errors, Stream and Chain.
-- - Msc: qemu/overlay/hw/sd/jz4740_msc.c. Msc/State has the state, the commands and the DMA requests,
--   Msc/Registers the window; a function msc_x or jz4740_msc_x is x. Proofs: Msc/Signal.
-- - Bridge: qemu/overlay/hw/dma/bbk9588_dma_bridge.c. In Bridge/Host a function bridge_x or
--   bridge_dmac_x is x or dmac_x; peripheral_ops is the Env of the DMA controller that the bridge
--   makes of the card's controller, memory and the audio controller. Proofs: Bridge/Card,
--   Bridge/Command.
-- - Sadc: qemu/overlay/hw/input/jz4740_sadc.c. Sadc/State has the state and the queue of samples,
--   Sadc/Touch the conversions and the pen, Sadc/Registers the window; a function sadc_x is x. Proofs:
--   Sadc/Armed, Sadc/Progress, Sadc/Samples.
-- - Cpm: qemu/overlay/hw/misc/jz4740_cpm.c. In Cpm/Registers a function jz4740_cpm_x is x, and reset is
--   the two phases of a reset. Proofs: Cpm/Masks.
-- - Cim: qemu/overlay/hw/misc/jz4740_cim.c. In Cim/Registers a function cim_x is x. Proofs: Cim/Idle.
-- - A Tests module in each component applies the theorems to concrete devices.
--
-- How the model stands for the code. A state structure is a record; an unsigned integer is a natural
-- number, and where the code can leave its width the wrap-around is written out. Arrays are functions
-- of the index. A callback or another library's function is a parameter (the refresh callback of the
-- interrupt controller, the sample callback of the GPIO, muldiv64 and muldiv64_round_up of QEMU), or
-- the memory, the clock and the callbacks of the DMA controller in its Env, the kick callback of the
-- card's controller, the codes that the memory controller uses), or its calls are recorded in a list (the events, data accesses and backend writes of the NAND device,
-- the levels driven on lines, the bytes that the serial port sends, the commands for the card), or
-- counted (the update callback of the clock manager). The result of a backend call and the value of the virtual clock are
-- arguments. A handler of the timer unit or the real-time clock that reads the clock more than once gets a
-- record of values; a register access of the real-time clock takes one value.
-- A restore after migration takes the fields that the device's VMStateDescription lists from an arbitrary
-- saved state, keeps the others, and runs the post_load callback (restore and load of Sadc, Msc, Emc, Cim
-- and Cpm). The load of Uart runs the callback alone, which is proved for every state; of the other devices
-- only the callback is modelled, and runs do not contain it.
-- A time is the 64-bit pattern of an int64_t, compared as such. Loops are structural recursion on the
-- rounds left, which the code bounds by a constant or a length. Only the reduction of an exponent in Ecc
-- runs on fuel, the exponent itself: each round takes 511 away, and the two copy loops of a transfer in
-- memory run on as much fuel as there are bytes, since each round moves at least one.
--
-- Not modelled: the other devices (USB, audio, LCD, panel), the tables, the
-- encoder and the decoder of the Reed-Solomon code, the Hamming code, the board file, the setters of
-- callbacks, diagnostics, the registration with QEMU and with its migration, the opening of the image
-- file, and the processor, a changed copy of QEMU's MIPS target. A callback of the DMA controller that
-- starts another transfer while a register write is transferring is left out.
pub mod Base
pub mod Bits
pub mod Mmio
pub mod Intc
pub mod Irq
pub mod Gpio
pub mod Nand
pub mod Tcu
pub mod Ecc
pub mod Rtc
pub mod Uart
pub mod Bridge
pub mod Cpm
pub mod Cim
pub mod Dmac
pub mod Emc
pub mod Sadc
pub mod Msc
