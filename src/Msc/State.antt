-- ===== src/Msc/State.antt =====
-- The state of qemu/overlay/hw/sd/jz4740_msc.c, its commands, its response queue and the DMA requests
-- that it serves.
use bbk9588_emulator.Base.{
  ℕ, zero, suc, ◌+◌, ◌*◌, ◌/◌, ◌%◌, ◌^◌, bit_and, bit_or, Bool, true, false, not, ◌&&◌, ◌||◌, ◌==◌,
  ltb, if◌then◌else◌, Option, none, some, List, ◌∷◌, update,
}
use bbk9588_emulator.Bits.{not32}
use bbk9588_emulator.Irq.{drive_change}

-- `JZ4740MSCState`. `output` lists what `qemu_set_irq` drove since the last reset and `commands` the
-- calls of the command callback, the latest first; the kick callback is an argument.
pub record Msc : Type 0 where
  pub output : List Bool
  pub commands : List (ℕ × ℕ)
  pub regs : ℕ → ℕ
  pub response : ℕ → ℕ
  pub response_len : ℕ
  pub response_index : ℕ
  pub read_pending : Bool
  pub write_pending : Bool
  pub data_ready : Bool
  pub irq_level : Bool
  pub read_lba : ℕ
  pub write_lba : ℕ
  pub last_command : ℕ
  pub last_argument : ℕ
  pub last_dma_phys : ℕ
  pub last_dma_words : ℕ
  pub dma_complete_count : ℕ

-- `JZ4740MSCDMATransfer`
pub record Transfer : Type 0 where
  pub read : Bool
  pub lba : ℕ
  pub dma_phys : ℕ
  pub words : ℕ
  pub bytes : ℕ
  pub sectors : ℕ
  pub command : ℕ
  pub argument : ℕ

-- `MSC_RESPONSE_BYTES`
abbrev pub response_bytes : ℕ
response_bytes = 16

-- `MSC_IMASK`, `MSC_IREG`, `MSC_CMD`, `MSC_ARG`, `MSC_RES`, `MSC_STRPCL` and `MSC_STAT`
abbrev pub strpcl : ℕ
strpcl = 0x00

abbrev pub stat : ℕ
stat = 0x04

abbrev pub imask : ℕ
imask = 0x24

abbrev pub ireg : ℕ
ireg = 0x28

abbrev pub cmd : ℕ
cmd = 0x2c

abbrev pub arg : ℕ
arg = 0x30

abbrev pub res : ℕ
res = 0x34

-- `MSC_DATA_READY_MASK` and `MSC_INTERRUPT_MASK`
abbrev pub data_ready_mask : ℕ
data_ready_mask = 0x03

abbrev pub interrupt_mask : ℕ
interrupt_mask = 0xff

-- `msc_reg`
abbrev pub reg : Msc → ℕ → ℕ
reg s offset = s.regs (offset / 4)

-- `msc_set_reg`
abbrev pub set_reg : Msc → ℕ → ℕ → Msc
set_reg s offset value = record s { regs = update s.regs (offset / 4) value }

-- `msc_interrupt_status`
unfoldable pub interrupt_status : Msc → ℕ
interrupt_status s =
    let status = bit_and (reg s ireg) interrupt_mask in
    if s.data_ready then bit_or status data_ready_mask else status

-- the level that `msc_update_irq` computes
abbrev pub line_level : Msc → Bool
line_level s =
    not (bit_and (interrupt_status s) (not32 (bit_and (reg s imask) interrupt_mask)) == 0)

-- `msc_update_irq`
unfoldable pub update_irq : Msc → Msc
update_irq s = record s {
  irq_level = line_level s;
  output = drive_change s.irq_level (line_level s) s.output;
}

-- the state of `msc_prepare_response` before the switch on the command
unfoldable pub start_command : Msc → Msc
start_command s =
    let command = bit_and (reg s cmd) 0xff in
    record s {
      regs = update s.regs (ireg / 4) (bit_and (reg s ireg) (not32 data_ready_mask));
      response = update (λ _. 0) 0 command;
      response_len = response_bytes;
      response_index = 0;
      last_command = command;
      last_argument = reg s arg;
      read_pending = false;
      write_pending = false;
      data_ready = false;
    }

-- The switch of `msc_prepare_response`.
unfoldable pub select_command : Msc → ℕ → ℕ → Msc
select_command s command argument =
    if command == 0x11 || command == 0x12
    then record s { read_lba = argument / 2 ^ 9; read_pending = true }
    else if command == 0x18 || command == 0x19
    then record s { write_lba = argument / 2 ^ 9; write_pending = true }
    else s

-- `msc_prepare_response`. `kick` is the installed callback, the identity if there is none.
unfoldable pub prepare_response : (Msc → Msc) → Msc → Msc
prepare_response kick s =
    let t = start_command s in
    let u = select_command t t.last_command t.last_argument in
    let v = update_irq (record u { commands = (t.last_command, t.last_argument) ∷ u.commands }) in
    if v.read_pending || v.write_pending then kick v else v

-- one byte of the response, 0 after the last
unfoldable pub next_byte : Msc → ℕ × Msc
next_byte s =
    if ltb s.response_index s.response_len
    then (s.response s.response_index, record s { response_index = s.response_index + 1 })
    else (0, s)

-- The loop of `msc_read_response`: so many pairs, the first byte of each the high one.
unfoldable pub read_pairs : ℕ → ℕ → ℕ → Msc → ℕ × Msc
read_pairs zero i value s = (value, s)
read_pairs (suc pairs) i value s =
    let (hi, t) = next_byte s in
    let (lo, u) = next_byte t in
    read_pairs pairs (i + 2) (bit_or value (bit_or (hi * 2 ^ 8) lo * 2 ^ (i * 8) % 2 ^ 32)) u

-- `msc_read_response`
unfoldable pub read_response : Msc → ℕ → ℕ × Msc
read_response s size = if ltb 1 size then read_pairs ((size + 1) / 2) 0 0 s else next_byte s

-- `jz4740_msc_begin_dma`
unfoldable pub begin_dma : Msc → ℕ → ℕ → ℕ → ℕ → Option Transfer × Msc
begin_dma s channel source target words =
    let read = s.read_pending in
    let phys = bit_and (if read then target else source) 0x1fffffff in
    let bytes = words * 4 % 2 ^ 32 in
    if (not s.read_pending && not s.write_pending)
      || (s.read_pending && not (channel == 0))
      || (s.write_pending && not (channel == 1))
    then (none, s)
    else (
      some record {
        read = read;
        lba = if read then s.read_lba else s.write_lba;
        dma_phys = phys;
        words = words;
        bytes = bytes;
        sectors = (bytes + 511) % 2 ^ 32 / 512;
        command = s.last_command;
        argument = s.last_argument;
      },
      record s {
        last_dma_phys = phys;
        last_dma_words = words;
        dma_complete_count = (s.dma_complete_count + 1) % 2 ^ 32;
      },
    )

-- `jz4740_msc_finish_dma`
unfoldable pub finish_dma : Msc → Bool → Msc
finish_dma s data_ready =
    update_irq (record s { read_pending = false; write_pending = false; data_ready = data_ready })
