-- ===== src/Cim/Registers.antt =====
-- The registers of qemu/overlay/hw/misc/jz4740_cim.c, its interrupt, reset and reload.
use bbk9588_emulator.Base.{
  ℕ, bit_and, bit_or, Bool, false, ◌&&◌, ◌||◌, ◌==◌, if◌then◌else◌, List, [], ◌∷◌,
}
use bbk9588_emulator.Bits.{has, not32}
use bbk9588_emulator.Irq.{drive_change}

-- `JZ4740CIMState`; `output` lists what `qemu_set_irq` drove since the last reset, the latest first.
pub record Cim : Type 0 where
  pub output : List Bool
  pub config : ℕ
  pub control : ℕ
  pub status : ℕ
  pub interrupt_id : ℕ
  pub descriptor_address : ℕ
  pub framebuffer_address : ℕ
  pub frame_id : ℕ
  pub command : ℕ
  pub irq_level : Bool

-- `CIM_CR_VDDM`, `CIM_CR_RF_RST` and `CIM_CR_ENA`
abbrev pub vddm : ℕ
vddm = 0x2000

abbrev pub rf_rst : ℕ
rf_rst = 0x02

abbrev pub ena : ℕ
ena = 0x01

-- `CIM_ST_RF_EMPTY` and `CIM_ST_VDD`
abbrev pub rf_empty : ℕ
rf_empty = 0x02

abbrev pub vdd : ℕ
vdd = 0x01

-- `cim_irq_pending`
unfoldable pub irq_pending : Cim → Bool
irq_pending s =
    (has s.status 0x40 && has s.control 0x1000)
    || (has s.status 0x20 && has s.control 0x800)
    || (has s.status 0x10 && has s.control 0x400)
    || (has s.status 0x08 && has s.control 0x100)
    || (has s.status 0x04 && has s.control 0x200)
    || (has s.status vdd && has s.control vddm)

-- `cim_update_irq`
unfoldable pub update_irq : Cim → Cim
update_irq s = record s {
  irq_level = irq_pending s;
  output = drive_change s.irq_level (irq_pending s) s.output;
}

-- `cim_read`
unfoldable pub read : Cim → ℕ → ℕ
read s offset =
    if offset == 0x00
    then s.config
    else if offset == 0x04
    then s.control
    else if offset == 0x08
    then s.status
    else if offset == 0x0c
    then s.interrupt_id
    else if offset == 0x20
    then s.descriptor_address
    else if offset == 0x24
    then s.framebuffer_address
    else if offset == 0x28
    then s.frame_id
    else if offset == 0x2c
    then s.command
    else 0

-- the status after a reset of the receive queue
abbrev pub queue_reset : ℕ → ℕ
queue_reset status = bit_or (bit_and status (not32 0x7c)) rf_empty

-- the status after a change of ENA: it goes off when the interface is disabled
abbrev pub follow_enable : ℕ → ℕ → ℕ → ℕ
follow_enable old_control control status =
    if has control ena
    then bit_and status (not32 vdd)
    else if has old_control ena
    then bit_or status vdd
    else status

-- `cim_write_control`
unfoldable pub write_control : Cim → ℕ → Cim
write_control s value =
    let control = bit_and value 0xff0f3f77 in
    record s {
      control = control;
      status =
          follow_enable s.control control
            (if has control rf_rst then queue_reset s.status else s.status);
    }

-- the status after a write to it: the zeros clear
abbrev pub acknowledge : ℕ → ℕ → ℕ
acknowledge status value = bit_or (bit_and status (bit_or value (not32 0x79))) rf_empty

-- The switch of `cim_write`.
unfoldable pub write_reg : Cim → ℕ → ℕ → Cim
write_reg s offset value =
    if offset == 0x00
    then record s { config = bit_and value 0xf373 }
    else if offset == 0x04
    then write_control s value
    else if offset == 0x08
    then record s { status = acknowledge s.status value }
    else if offset == 0x20
    then record s { descriptor_address = bit_and value (not32 0x0f) }
    else s

-- `cim_write`
unfoldable pub write : Cim → ℕ → ℕ → Cim
write s offset value = update_irq (write_reg s offset value)

-- `cim_reset_hold`
unfoldable pub reset_hold : Cim → Cim
reset_hold s = record {
  output = [];
  config = 0;
  control = 0;
  status = rf_empty;
  interrupt_id = 0;
  descriptor_address = 0;
  framebuffer_address = 0;
  frame_id = 0;
  command = 0;
  irq_level = false;
}

-- A restore: the fields that `vmstate_jz4740_cim` lists come from the saved state, the line stands as it
-- is.
abbrev pub restore : Cim → Cim → Cim
restore s saved = record saved { output = s.output; irq_level = s.irq_level }

-- `cim_post_load`, after a restore
unfoldable pub post_load : Cim → Cim
post_load s = update_irq (record s {
  config = bit_and s.config 0xf373;
  control = bit_and s.control 0xff0f3f77;
  status = bit_or (bit_and s.status 0x7f) rf_empty;
  descriptor_address = bit_and s.descriptor_address (not32 0x0f);
})

-- What the bus and the loader ask of the interface; a read changes nothing.
pub data Op : Type 0 where
  mmio_write : ℕ → ℕ → Op
  load : Cim → Op

unfoldable pub step : Cim → Op → Cim
step s (mmio_write offset value) = write s offset value
step s (load saved) = post_load (restore s saved)

unfoldable pub run : Cim → List Op → Cim
run s [] = s
run s (op ∷ ops) = run (step s op) ops
