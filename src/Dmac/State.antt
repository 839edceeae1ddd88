-- ===== src/Dmac/State.antt =====
-- The state of qemu/overlay/hw/dma/jz4740_dmac.c, what it asks of the rest of the machine, its
-- interrupt and its accesses to memory: from dmac_reg to dmac_memory_write_le32.
use bbk9588_emulator.Base.{
  ℕ, zero, suc, ◌+◌, ◌-◌, ◌*◌, ◌/◌, ◌%◌, ◌^◌, bit_and, bit_or, Bool, false, ◌&&◌, ◌||◌, leb,
  if◌then◌else◌, Option, List, [], ◌∷◌, update,
}
use bbk9588_emulator.Bits.{has, not32}
use bbk9588_emulator.Irq.{drive_change}

-- The machine around the controller. `cpu_physical_memory_read` and `cpu_physical_memory_write` of
-- QEMU, its virtual clock as the pattern of an int64_t, and the callbacks of
-- `JZ4740DMACPeripheralOps`; a callback that may be absent and is tested for is optional, the others
-- do nothing when absent. A transfer to or from a device takes the levels of the request lines and
-- returns what it leaves: these callbacks lower or raise lines, and are taken not to start another
-- transfer.
pub record Env : Type 1 where
  pub World : Type 0
  pub mem_read : World → ℕ → ℕ → List ℕ
  pub mem_write : World → ℕ → List ℕ → World
  pub now : World → ℕ
  pub bulk_transfer : Option (World → ℕ → ℕ → ℕ → ℕ → ℕ → ℕ → Bool × World)
  pub address_valid : Option (World → ℕ → ℕ → Bool)
  pub dev_write : Option (World → ℕ → ℕ → List ℕ → ℕ → ℕ × World × ℕ)
  pub dev_read : Option (World → ℕ → ℕ → ℕ → ℕ → List ℕ × ℕ × World × ℕ)
  pub complete : World → ℕ → World
  pub diagnostics : World → ℕ → ℕ × ℕ
  pub trace : World → ℕ → ℕ → ℕ → ℕ → World

-- The audio statistics of `JZ4740DMACState`.
pub record Audio : Type 0 where
  pub completion_count : ℕ
  pub rearm_count : ℕ
  pub last_completion_ns : ℕ
  pub completion_underruns : ℕ
  pub last_rearm_gap_ns : ℕ
  pub max_rearm_gap_ns : ℕ
  pub total_rearm_gap_ns : ℕ
  pub last_gap_underruns : ℕ
  pub total_gap_underruns : ℕ
  pub last_units : ℕ
  pub completion_fifo : ℕ
  pub rearm_fifo : ℕ

-- `JZ4740DMACState`, and the machine around it. `output` lists what `qemu_set_irq` drove since the
-- last reset, the latest first; the reset itself drives the line low.
pub record Dmac (World : Type 0) : Type 0 where
  pub world : World
  pub output : List Bool
  pub regs : ℕ → ℕ
  pub request_levels : ℕ
  pub ram_size : ℕ
  pub irq_level : Bool
  pub transferring : Bool
  pub audio : Audio

-- `JZ4740_DMAC_CHANNELS` and `JZ4740_DMAC_REQUESTS`
abbrev pub num_channels : ℕ
num_channels = 6

abbrev pub num_requests : ℕ
num_requests = 32

-- The registers of a channel, from its base.
abbrev pub dsa : ℕ
dsa = 0x00

abbrev pub dta : ℕ
dta = 0x04

abbrev pub dtc : ℕ
dtc = 0x08

abbrev pub drt : ℕ
drt = 0x0c

abbrev pub dcs : ℕ
dcs = 0x10

abbrev pub dcm : ℕ
dcm = 0x14

abbrev pub dda : ℕ
dda = 0x18

-- The global registers.
abbrev pub dmacr : ℕ
dmacr = 0x300

abbrev pub dirqp : ℕ
dirqp = 0x304

abbrev pub ddb : ℕ
ddb = 0x308

abbrev pub ddbs : ℕ
ddbs = 0x30c

-- The flags of DCS: `DMAC_DCS_NDES`, `INV`, `AR`, `TT`, `HLT`, `CT`, `CTE` and `STATUS_MASK`.
abbrev pub dcs_ndes : ℕ
dcs_ndes = 0x80000000

abbrev pub dcs_cdoa_mask : ℕ
dcs_cdoa_mask = 0x00ff0000

abbrev pub dcs_inv : ℕ
dcs_inv = 0x40

abbrev pub dcs_ar : ℕ
dcs_ar = 0x10

abbrev pub dcs_tt : ℕ
dcs_tt = 0x08

abbrev pub dcs_hlt : ℕ
dcs_hlt = 0x04

abbrev pub dcs_ct : ℕ
dcs_ct = 0x02

abbrev pub dcs_cte : ℕ
dcs_cte = 0x01

abbrev pub dcs_status_mask : ℕ
dcs_status_mask = bit_or (bit_or (bit_or (bit_or dcs_inv dcs_ar) dcs_tt) dcs_hlt) dcs_ct

-- `DMAC_CHANNEL_MASK`
abbrev pub channel_mask : ℕ
channel_mask = 2 ^ num_channels - 1

module _ {W : Type 0} where
  -- `dmac_reg`
  abbrev pub reg : Dmac W → ℕ → ℕ
  reg s offset = s.regs (offset / 4)

  -- `dmac_set_reg`
  abbrev pub set_reg : Dmac W → ℕ → ℕ → Dmac W
  set_reg s offset value = record s { regs = update s.regs (offset / 4) value }

  -- a register of a channel: `dmac_reg(s, channel * DMAC_CHANNEL_STRIDE + offset)`
  abbrev pub chan : Dmac W → ℕ → ℕ → ℕ
  chan s channel offset = reg s (channel * 0x20 + offset)

  abbrev pub set_chan : Dmac W → ℕ → ℕ → ℕ → Dmac W
  set_chan s channel offset value = set_reg s (channel * 0x20 + offset) value

  -- whether a channel that is marked in DIRQP asks for the interrupt
  abbrev pub chan_demands : Dmac W → ℕ → Bool
  chan_demands s channel =
      let status = chan s channel dcs in
      let command = chan s channel dcm in
      has status (bit_or dcs_ar dcs_hlt)
      || (has status dcs_inv && has command 0x04)
      || (has status (bit_or dcs_tt dcs_ct) && has command 0x02)

  -- the loop of `dmac_irq_pending_internal` over the first channels
  unfoldable pub pending_below : Dmac W → ℕ → Bool
  pending_below s zero = false
  pending_below s (suc channel) =
      pending_below s channel || (has (reg s dirqp) (2 ^ channel) && chan_demands s channel)

  -- `dmac_irq_pending_internal`
  unfoldable pub irq_pending : Dmac W → Bool
  irq_pending s = pending_below s num_channels

  -- the variable `irqp` of `dmac_sync_irq` after the first channels
  unfoldable pub irqp_below : Dmac W → ℕ → ℕ
  irqp_below s zero = 0
  irqp_below s (suc channel) =
      let irqp = irqp_below s channel in
      if has (chan s channel dcs) dcs_status_mask then bit_or irqp (2 ^ channel) else irqp

  -- the variable `global_status` of `dmac_sync_irq` after the first channels
  unfoldable pub global_below : Dmac W → ℕ → ℕ
  global_below s zero = 0
  global_below s (suc channel) =
      let old = global_below s channel in
      let status = chan s channel dcs in
      let halted = if has status dcs_ar then bit_or old 0x04 else old in
      if has status dcs_hlt then bit_or halted 0x08 else halted

  -- the registers after the loop of `dmac_sync_irq`
  unfoldable pub sync_regs : Dmac W → Dmac W
  sync_regs s =
      let marked = set_reg s dirqp (bit_and (irqp_below s num_channels) channel_mask) in
      set_reg marked dmacr (
        bit_or (bit_and (reg marked dmacr) (not32 (bit_or 0x04 0x08)))
          (global_below s num_channels))

  -- `dmac_sync_irq`
  unfoldable pub sync_irq : Dmac W → Dmac W
  sync_irq s =
      let t = sync_regs s in
      let level = irq_pending t in
      record t { irq_level = level; output = drive_change t.irq_level level t.output }

  -- `dmac_ram_range_valid`
  unfoldable pub ram_range_valid : Dmac W → ℕ → ℕ → Bool
  ram_range_valid s addr bytes =
      leb bytes s.ram_size && leb (bit_and addr 0x1fffffff) (s.ram_size - bytes)

-- the word that four bytes make, the lowest first
abbrev pub load_le32 : List ℕ → ℕ
load_le32 (b0 ∷ b1 ∷ b2 ∷ b3 ∷ buf) =
    bit_or (bit_or (bit_or b0 (b1 * 2 ^ 8)) (b2 * 2 ^ 16)) (b3 * 2 ^ 24)
load_le32 buf = 0

module _ (e : Env) where
  -- `dmac_memory_read`
  unfoldable pub memory_read : e.World → ℕ → ℕ → List ℕ
  memory_read w addr bytes = e.mem_read w (bit_and addr 0x1fffffff) bytes

  -- `dmac_memory_write`
  unfoldable pub memory_write : e.World → ℕ → List ℕ → e.World
  memory_write w addr buf = e.mem_write w (bit_and addr 0x1fffffff) buf

  -- `dmac_memory_read_le32`
  unfoldable pub memory_read_le32 : e.World → ℕ → ℕ
  memory_read_le32 w addr = load_le32 (memory_read w addr 4)

  -- `dmac_memory_write_le32`
  unfoldable pub memory_write_le32 : e.World → ℕ → ℕ → e.World
  memory_write_le32 w addr value =
      memory_write w addr
        (value % 256 ∷ value / 2 ^ 8 % 256 ∷ value / 2 ^ 16 % 256 ∷ value / 2 ^ 24 % 256 ∷ [])
