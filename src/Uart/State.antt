-- ===== src/Uart/State.antt =====
-- The state of qemu/overlay/hw/char/jz4740_uart.c, its status register, its modem lines and its
-- interrupt: from uart_rx_trigger_level to uart_update_msr.
use bbk9588_emulator.Base.{
  ℕ, ◌+◌, ◌/◌, bit_and, bit_or, Bool, true, false, not, ◌&&◌, ◌==◌, leb, if◌then◌else◌, List, [],
  ◌∷◌,
}
use bbk9588_emulator.Bits.{has}

-- `JZ4740UARTState`. `output` lists what `qemu_set_irq` drove since the last reset and `sent` the
-- bytes written to the character device, the latest first; `accepts` counts the calls of
-- `qemu_chr_fe_accept_input`. Whether a character device is connected is fixed.
pub record Uart : Type 0 where
  pub output : List Bool
  pub sent : List ℕ
  pub accepts : ℕ
  pub connected : Bool
  pub regs : ℕ → ℕ
  pub status : ℕ
  pub thr_irq_latched : Bool
  pub ier : ℕ
  pub fcr : ℕ
  pub lcr : ℕ
  pub mcr : ℕ
  pub msr : ℕ
  pub spr : ℕ
  pub isr : ℕ
  pub umr : ℕ
  pub uacr : ℕ
  pub dll : ℕ
  pub dlh : ℕ
  pub rx_fifo : ℕ → ℕ
  pub rx_head : ℕ
  pub rx_len : ℕ
  pub irq_level : Bool

-- `UART_FIFO_SIZE`
abbrev pub fifo_size : ℕ
fifo_size = 16

-- `UART_IER_RDRIE`, `UART_IER_TDRIE`, `UART_IER_RLSIE`, `UART_IER_MSIE` and `UART_IER_RTOIE`
abbrev pub rdrie : ℕ
rdrie = 0x01

abbrev pub tdrie : ℕ
tdrie = 0x02

abbrev pub rlsie : ℕ
rlsie = 0x04

abbrev pub msie : ℕ
msie = 0x08

abbrev pub rtoie : ℕ
rtoie = 0x10

-- `UART_FCR_FME` and `UART_FCR_UME`
abbrev pub fme : ℕ
fme = 0x01

abbrev pub ume : ℕ
ume = 0x10

-- `UART_LSR_DRY`, `UART_LSR_OVER`, `UART_LSR_TDRQ`, `UART_LSR_FIFOE`, `UART_LSR_RESET` and
-- `UART_LSR_ERROR_MASK`
abbrev pub dry : ℕ
dry = 0x01

abbrev pub over : ℕ
over = 0x02

abbrev pub tdrq : ℕ
tdrq = 0x20

abbrev pub fifoe : ℕ
fifoe = 0x80

abbrev pub lsr_reset : ℕ
lsr_reset = bit_or tdrq 0x40

abbrev pub error_mask : ℕ
error_mask = bit_or (bit_or (bit_or (bit_or over 0x04) 0x08) 0x10) fifoe

-- `UART_MSR_CCTS` and `UART_MSR_CTS`
abbrev pub ccts : ℕ
ccts = 0x01

abbrev pub cts : ℕ
cts = 0x10

-- `uart_rx_trigger_level`
unfoldable pub rx_trigger_level : Uart → ℕ
rx_trigger_level s =
    let level = bit_and s.fcr 0xc0 / 64 in
    if not (has s.fcr fme)
    then 1
    else if level == 0
    then 1
    else if level == 1
    then 4
    else if level == 2
    then 8
    else 15

-- `uart_rx_data_ready`
unfoldable pub rx_data_ready : Uart → Bool
rx_data_ready s = leb (rx_trigger_level s) s.rx_len

-- `uart_latch_thr_irq`
unfoldable pub latch_thr_irq : Uart → Uart
latch_thr_irq s =
    if has s.fcr ume && has s.ier tdrie && has s.status tdrq
    then record s { thr_irq_latched = true }
    else s

-- The identification that `uart_iir_value` joins to the FIFO bits: a modem interrupt is 0, none is 1.
unfoldable pub iir_cause : Uart → ℕ
iir_cause s =
    if not (has s.fcr ume)
    then 0x01
    else if has s.ier rlsie && has s.status error_mask
    then 0x06
    else if has s.ier rdrie && rx_data_ready s
    then 0x04
    else if has s.ier rtoie && not (s.rx_len == 0)
    then 0x0c
    else if s.thr_irq_latched && (has s.ier tdrie && has s.status tdrq)
    then 0x02
    else if has s.ier msie && has s.msr ccts
    then 0x00
    else 0x01

-- `uart_iir_value`
unfoldable pub iir_value : Uart → ℕ
iir_value s = bit_or (if has s.fcr fme then 0xc0 else 0) (iir_cause s)

-- `uart_update_irq`
unfoldable pub update_irq : Uart → Uart
update_irq s =
    let level = bit_and (iir_value s) 0x01 == 0 in
    record s { irq_level = level; output = level ∷ s.output }

-- The status register after `uart_update_lsr`.
unfoldable pub lsr_value : ℕ → ℕ → ℕ → ℕ
lsr_value status rx_len fcr =
    let sticky = bit_and status error_mask in
    let ready =
      if not (rx_len == 0) then bit_or (bit_or sticky lsr_reset) dry else bit_or sticky lsr_reset in
    if has fcr fme && has sticky (bit_or (bit_or (bit_or over 0x04) 0x08) 0x10)
    then bit_or ready fifoe
    else ready

-- `uart_update_lsr`
unfoldable pub update_lsr : Uart → Uart
update_lsr s = record s { status = lsr_value s.status s.rx_len s.fcr }

-- `uart_update_msr`. The code's `cts` is `line`.
unfoldable pub update_msr : Uart → Uart
update_msr s =
    let old_cts = bit_and s.msr cts in
    let line = if bit_and s.mcr 0x92 == 0x92 then cts else 0 in
    let msr = bit_or (bit_and s.msr ccts) line in
    record s { msr = if old_cts == line then msr else bit_or msr ccts }

-- `qemu_chr_fe_accept_input`: the character device may send more from now on.
abbrev pub accept_input : Uart → Uart
accept_input s = record s { accepts = s.accepts + 1 }

-- `uart_reset_hold`
unfoldable pub reset_hold : Uart → Uart
reset_hold s = record s {
  output = false ∷ [];
  accepts = s.accepts + 1;
  regs = λ _. 0;
  status = lsr_reset;
  thr_irq_latched = false;
  ier = 0;
  fcr = 0;
  lcr = 0;
  mcr = 0;
  msr = 0;
  spr = 0;
  isr = 0;
  umr = 0;
  uacr = 0;
  dll = 0;
  dlh = 0;
  rx_fifo = λ _. 0;
  rx_head = 0;
  rx_len = 0;
  irq_level = false;
}
