-- ===== src/Gpio.antt =====
-- The GPIO controller, qemu/overlay/hw/gpio/jz4740_gpio.c: four ports of 32 pins, their register
-- banks, the latched flags and one interrupt line for each port.
pub mod Flags
pub mod Registers
mod Tests
use bbk9588_emulator.Base.{
  ℕ, zero, suc, ◌+◌, ◌*◌, ◌/◌, ◌%◌, ◌^◌, ◌-◌, bit_and, bit_or, bit_xor, Bool, true, false, not,
  ◌&&◌, ◌||◌, ◌==◌, leb, if◌then◌else◌, List, [], ◌∷◌, update,
}
use bbk9588_emulator.Bits.{not32}
use bbk9588_emulator.Mmio.{aligned, lane_value, merge, extract32}

-- `JZ4740GPIOState`. Arrays are functions of the index. `driven` holds for each port what
-- `qemu_set_irq` drove last on its line, `trace` the reasons handed to the trace callback, the latest
-- first, if one is installed. The sample callback is an argument of the read handler.
pub record Gpio : Type 0 where
  pub driven : ℕ → Bool
  pub regs : ℕ → ℕ
  pub input_level : ℕ → ℕ
  pub input_reset : ℕ → ℕ
  pub flag : ℕ → ℕ
  pub irq_level : ℕ → Bool
  pub last_read_offset : ℕ
  pub last_read_value : ℕ
  pub last_flag_offset : ℕ
  pub last_flag_value : ℕ
  pub last_write_offset : ℕ
  pub last_write_value : ℕ
  pub has_trace_callback : Bool
  pub trace : List ℕ

abbrev pub num_ports : ℕ
num_ports = 4

abbrev pub pins_per_port : ℕ
pins_per_port = 32

abbrev pub modeled_size : ℕ
modeled_size = 0x400

abbrev pub port_stride : ℕ
port_stride = 0x100

-- `gpio_notify_trace`
pub notify_trace : Gpio → ℕ → Gpio
notify_trace s reason = record s {
  trace = if s.has_trace_callback then reason ∷ s.trace else s.trace;
}

-- `gpio_update_irq`
pub update_irq : Gpio → ℕ → Gpio
update_irq s port =
    if leb num_ports port
    then s
    else let level = not (s.flag port == 0) in
      record s { irq_level = update s.irq_level port level; driven = update s.driven port level }

-- `jz4740_gpio_set_input_level`
pub set_input_level : Gpio → ℕ → ℕ → Bool → Bool → Bool × Gpio
unfolding update_irq notify_trace
set_input_level s port mask high latch_flag =
    if leb num_ports port || mask == 0
    then (false, s)
    else let previous = s.input_level port in
      let level = if high then bit_or previous mask else bit_and previous (not32 mask) in
      let changed = bit_xor previous level in
      let s1 : Gpio = record s { input_level = update s.input_level port level } in
      let s2 : Gpio =
        if not (changed == 0) && latch_flag
        then update_irq (record s1 { flag = update s1.flag port (bit_or (s1.flag port) changed) })
            port
        else s1 in
      (not (changed == 0), if not (changed == 0) then notify_trace s2 1 else s2)

-- `jz4740_gpio_raise_flag`
pub raise_flag : Gpio → ℕ → ℕ → Gpio
unfolding update_irq notify_trace
raise_flag s port mask =
    if leb num_ports port || mask == 0
    then s
    else notify_trace
        (update_irq (record s { flag = update s.flag port (bit_or (s.flag port) mask) }) port) 2

-- `gpio_pin_input`
pub pin_input : Gpio → ℕ → Bool → Gpio
unfolding set_input_level
pin_input s n level = (set_input_level s (n / pins_per_port) (2 ^ (n % pins_per_port)) level true).1

-- The two branches of `gpio_read` that add live signals to the stored register.
read_pins : (ℕ → ℕ → ℕ) → Gpio → ℕ → ℕ → ℕ × Gpio
read_pins sample s offset size =
    let port = aligned offset / port_stride in
    let pins = sample port (bit_or (s.regs (aligned offset / 4)) (s.input_level port)) in
    (
      extract32 pins offset size,
      notify_trace (record s { last_read_offset = offset % 2 ^ 32; last_read_value = pins }) 11,
    )

read_flags : Gpio → ℕ → ℕ → ℕ × Gpio
read_flags s offset size =
    let flags = bit_or (s.regs (aligned offset / 4)) (s.flag (aligned offset / port_stride)) in
    (
      extract32 flags offset size,
      notify_trace (record s { last_flag_offset = offset % 2 ^ 32; last_flag_value = flags }) 12,
    )

-- `gpio_read`. `sample` is the installed callback, which returns its second argument if there is none.
pub read : (ℕ → ℕ → ℕ) → Gpio → ℕ → ℕ → ℕ × Gpio
unfolding notify_trace read_pins read_flags
read sample s offset size =
    if leb modeled_size (aligned offset)
    then (0, s)
    else if offset % port_stride == 0x00
    then read_pins sample s offset size
    else if offset % port_stride == 0x80
    then read_flags s offset size
    else (extract32 (s.regs (aligned offset / 4)) offset size, s)

-- What a register does with the bits written to it: `sets reg` and `clears reg` act on the canonical
-- register at the offset `reg` of the port.
pub data Access : Type 0 where
  sets : ℕ → Access
  clears : ℕ → Access
  plain : Access

-- The switch of `gpio_write`: DATS, DATC, IMS, IMC, PES, PEC, FUNS, FUNC, SELS, SELC, DIRS, DIRC, TRGS
-- and TRGC.
pub access : ℕ → Access
access reg_offset =
    if reg_offset == 0x14
    then sets 0x10
    else if reg_offset == 0x18
    then clears 0x10
    else if reg_offset == 0x24
    then sets 0x20
    else if reg_offset == 0x28
    then clears 0x20
    else if reg_offset == 0x34
    then sets 0x30
    else if reg_offset == 0x38
    then clears 0x30
    else if reg_offset == 0x44
    then sets 0x40
    else if reg_offset == 0x48
    then clears 0x40
    else if reg_offset == 0x54
    then sets 0x50
    else if reg_offset == 0x58
    then clears 0x50
    else if reg_offset == 0x64
    then sets 0x60
    else if reg_offset == 0x68
    then clears 0x60
    else if reg_offset == 0x74
    then sets 0x70
    else if reg_offset == 0x78
    then clears 0x70
    else plain

-- `gpio_canonical_reg`, as an index
abbrev pub canonical_reg : ℕ → ℕ → ℕ
canonical_reg port reg_offset = (port * port_stride + reg_offset) / 4

-- The registers after the switch; `word` is the index of the written register.
pub apply_access : Access → (ℕ → ℕ) → ℕ → ℕ → ℕ → ℕ → ℕ
apply_access (sets reg) regs port word lane =
    let canonical = canonical_reg port reg in
    update (update regs canonical (bit_or (regs canonical) lane)) word 0
apply_access (clears reg) regs port word lane =
    let canonical = canonical_reg port reg in
    update (update regs canonical (bit_and (regs canonical) (not32 lane))) word 0
apply_access plain regs port word lane = regs

-- `gpio_write`
pub write : Gpio → ℕ → ℕ → ℕ → Gpio
unfolding update_irq notify_trace apply_access
write s offset value size =
    if leb modeled_size (aligned offset)
    then s
    else let word = aligned offset / 4 in
      let port = aligned offset / port_stride in
      let reg_offset = aligned offset % port_stride in
      let lane = lane_value offset size value in
      let stored = update s.regs word (merge (s.regs word) offset size value) in
      let s1 : Gpio = record s { regs = apply_access (access reg_offset) stored port word lane } in
      let s2 : Gpio =
        if reg_offset == 0x14
        then update_irq
            (record s1 { flag = update s1.flag port (bit_and (s1.flag port) (not32 lane)) }) port
        else s1 in
      notify_trace (record s2 { last_write_offset = offset % 2 ^ 32; last_write_value = lane }) 8

-- The loops over the ports run on the ports that are left.
abbrev pub reset_masks : ℕ → (ℕ → ℕ) → ℕ → ℕ
reset_masks zero regs = regs
reset_masks (suc left) regs = update (reset_masks left regs) (canonical_reg left 0x20) 0xffffffff

abbrev pub lower_lines : ℕ → (ℕ → Bool) → ℕ → Bool
lower_lines zero driven = driven
lower_lines (suc left) driven = update (lower_lines left driven) left false

-- `gpio_reset_hold`
pub reset_hold : Gpio → Gpio
reset_hold s = record s {
  regs = reset_masks num_ports (λ _. 0);
  flag = λ _. 0;
  irq_level = λ _. false;
  input_level = s.input_reset;
  last_read_offset = 0;
  last_read_value = 0;
  last_flag_offset = 0;
  last_flag_value = 0;
  last_write_offset = 0;
  last_write_value = 0;
  driven = lower_lines num_ports s.driven;
}

-- `gpio_post_load`
pub post_load : Gpio → Gpio
unfolding update_irq
post_load s = update_irq (update_irq (update_irq (update_irq s 0) 1) 2) 3

-- What the board and the processor ask of the controller.
pub data Op : Type 0 where
  input : ℕ → Bool → Op
  level : ℕ → ℕ → Bool → Bool → Op
  raise : ℕ → ℕ → Op
  mmio_read : ℕ → ℕ → Op
  mmio_write : ℕ → ℕ → ℕ → Op
  reset : Op

pub step : (ℕ → ℕ → ℕ) → Gpio → Op → Gpio
step sample s (input n high) = pin_input s n high
step sample s (level port mask high latch_flag) = (set_input_level s port mask high latch_flag).1
step sample s (raise port mask) = raise_flag s port mask
step sample s (mmio_read offset size) = (read sample s offset size).1
step sample s (mmio_write offset value size) = write s offset value size
step sample s reset = reset_hold s

pub run : (ℕ → ℕ → ℕ) → Gpio → List Op → Gpio
run sample s [] = s
run sample s (op ∷ ops) = run sample (step sample s op) ops
