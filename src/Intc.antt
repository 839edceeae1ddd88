-- ===== src/Intc.antt =====
-- The interrupt controller, qemu/overlay/hw/intc/jz4740_intc.c: the state, the register window and
-- the interrupt line to the processor.
pub mod Coherent
pub mod Registers
mod Tests
use bbk9588_emulator.Base.{
  ℕ, ◌+◌, ◌%◌, ◌^◌, bit_and, bit_or, Bool, true, false, not, ◌&&◌, ◌==◌, leb, if◌then◌else◌, List,
  [], ◌∷◌,
}
use bbk9588_emulator.Bits.{test_bit, not32}
use bbk9588_emulator.Mmio.{aligned, lane_value, lane_mask, extract32}
use bbk9588_emulator.Irq.{drive_change}

-- `JZ4740INTCState`. `output` lists what `qemu_set_irq` drove on the line to the processor since the
-- last reset, the latest first; the reset itself drives it low. The callback `refresh` is an argument of the read handler.
pub record Intc : Type 0 where
  pub output : List Bool
  pub pending : ℕ
  pub mask : ℕ
  pub unmasked_pending : ℕ
  pub update_count : ℕ
  pub last_read_offset : ℕ
  pub last_read_value : ℕ
  pub last_write_offset : ℕ
  pub last_write_value : ℕ
  pub output_level : Bool

abbrev pub num_irqs : ℕ
num_irqs = 32

-- The numbers of the wired sources: I2C, EMC, UHC, UART0, SADC, MSC, RTC, SSI, CIM, AIC, DMA, TCU2,
-- TCU1, TCU0, UDC, GPIO3, GPIO2, GPIO1, GPIO0, IPU and LCD.
abbrev sources : List ℕ
sources =
    2 ∷ 3 ∷ 4 ∷ 9 ∷ 12 ∷ 14 ∷ 15 ∷ 16 ∷ 17 ∷ 18 ∷ 20 ∷ 21 ∷ 22 ∷ 23 ∷ 24 ∷ 25 ∷ 26 ∷ 27 ∷ 28 ∷ 29
    ∷ 30 ∷ []

abbrev mask_of : List ℕ → ℕ
mask_of [] = 0
mask_of (irq ∷ irqs) = bit_or (2 ^ irq) (mask_of irqs)

-- `JZ4740_INTC_SOURCE_MASK`
abbrev pub source_mask : ℕ
source_mask = mask_of sources

abbrev pub mask_reset : ℕ
mask_reset = 0xffffffff

-- `jz4740_intc_update`
pub update_line : Intc → Intc
update_line s =
    let pending = bit_and s.pending source_mask in
    let unmasked = bit_and pending (not32 s.mask) in
    let level = not (unmasked == 0) in
    record s {
      pending = pending;
      unmasked_pending = unmasked;
      update_count = (s.update_count + 1) % 2 ^ 32;
      output_level = level;
      output = drive_change s.output_level level s.output;
    }

-- `if (level) { pending |= bit; } else { pending &= ~bit; }`
abbrev pub set_level : ℕ → ℕ → Bool → ℕ
set_level pending bit level = if level then bit_or pending bit else bit_and pending (not32 bit)

-- `jz4740_intc_set_irq`
pub set_irq : Intc → ℕ → Bool → Intc
set_irq s irq level =
    if leb num_irqs irq
    then s
    else if bit_and source_mask (2 ^ irq) == 0
    then s
    else update_line (record s { pending = set_level s.pending (2 ^ irq) level })

-- `jz4740_intc_set_pending_mask`
pub set_pending_mask : Intc → ℕ → ℕ → Intc
set_pending_mask s mask levels =
    let wired = bit_and mask source_mask in
    update_line
      (record s { pending = bit_or (bit_and s.pending (not32 wired)) (bit_and levels wired) })

-- the register that a read selects
pub reg_value : Intc → ℕ → ℕ
reg_value s reg =
    if reg == 0x00
    then s.pending
    else if reg == 0x04
    then s.mask
    else if reg == 0x10
    then s.unmasked_pending
    else 0

-- `jz4740_intc_read`. `refresh` is the installed callback, the identity if there is none.
pub read : (Intc → Intc) → Intc → ℕ → ℕ → ℕ × Intc
unfolding reg_value
read refresh s offset size =
    let reg = aligned offset in
    let fresh = update_line (refresh s) in
    let value = reg_value fresh reg in
    (
      extract32 value offset size,
      record fresh { last_read_offset = reg % 2 ^ 32; last_read_value = value },
    )

-- The mask register after a write of `lane` at the register `reg`.
pub write_mask : ℕ → ℕ → ℕ → ℕ → ℕ
write_mask mask reg lanes lane =
    if reg == 0x04
    then bit_or (bit_and mask (not32 lanes)) lane
    else if reg == 0x08
    then bit_or mask lane
    else if reg == 0x0c
    then bit_and mask (not32 lane)
    else mask

-- `jz4740_intc_write`
pub write : Intc → ℕ → ℕ → ℕ → Intc
unfolding write_mask
write s offset value size =
    let reg = aligned offset in
    let lane = lane_value offset size value in
    update_line (record s {
      last_write_offset = reg % 2 ^ 32;
      last_write_value = lane;
      mask = write_mask s.mask reg (lane_mask offset size) lane;
    })

-- `jz4740_intc_reset_hold`
pub reset_hold : Intc
reset_hold = record {
  output = [];
  pending = 0;
  mask = mask_reset;
  unmasked_pending = 0;
  update_count = 0;
  last_read_offset = 0;
  last_read_value = 0;
  last_write_offset = 0;
  last_write_value = 0;
  output_level = false;
}

-- `jz4740_intc_post_load`
pub post_load : Intc → Intc
post_load s = update_line (record s { output_level = false })

-- What the devices, the board and the processor ask of the controller.
pub data Op : Type 0 where
  input : ℕ → Bool → Op
  pending_mask : ℕ → ℕ → Op
  mmio_read : ℕ → ℕ → Op
  mmio_write : ℕ → ℕ → ℕ → Op

-- `jz4740_intc_input` passes a level on to `jz4740_intc_set_irq`. The levels that the board hands
-- over are uint32_t.
pub step : (Intc → Intc) → Intc → Op → Intc
step refresh s (input irq level) = set_irq s irq level
step refresh s (pending_mask mask levels) = set_pending_mask s (mask % 2 ^ 32) (levels % 2 ^ 32)
step refresh s (mmio_read offset size) = (read refresh s offset size).1
step refresh s (mmio_write offset value size) = write s offset value size

pub run : (Intc → Intc) → Intc → List Op → Intc
run refresh s [] = s
run refresh s (op ∷ ops) = run refresh (step refresh s op) ops
