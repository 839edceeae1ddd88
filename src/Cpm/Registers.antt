-- ===== src/Cpm/Registers.antt =====
-- The registers of qemu/overlay/hw/misc/jz4740_cpm.c: what a write leaves of its value, the window,
-- the wake masks, reset and reload.
use bbk9588_emulator.Base.{
  ℕ, ◌+◌, ◌/◌, ◌%◌, bit_and, bit_or, Bool, not, ◌&&◌, ◌||◌, ◌==◌, if◌then◌else◌, List, [], ◌∷◌,
  update,
}
use bbk9588_emulator.Bits.{has}
use bbk9588_emulator.Mmio.{aligned, merge, extract32}

-- `JZ4740CPMState`: the callback that follows the wake masks is installed or not, and was called so
-- many times.
pub record Cpm : Type 0 where
  pub regs : ℕ → ℕ
  pub has_update : Bool
  pub updates : ℕ

-- `JZ4740_CPM_CPCCR` to `JZ4740_CPM_SSICDR`
abbrev pub cpccr : ℕ
cpccr = 0x00

abbrev pub lcr : ℕ
lcr = 0x04

abbrev pub cppcr : ℕ
cppcr = 0x10

abbrev pub clkgr : ℕ
clkgr = 0x20

abbrev pub scr : ℕ
scr = 0x24

abbrev pub i2scdr : ℕ
i2scdr = 0x60

abbrev pub lpcdr : ℕ
lpcdr = 0x64

abbrev pub msccdr : ℕ
msccdr = 0x68

abbrev pub uhccdr : ℕ
uhccdr = 0x6c

abbrev pub ssicdr : ℕ
ssicdr = 0x74

-- `JZ4740_CPM_CPPCR_RW_MASK`, `JZ4740_CPM_CPPCR_PLLS` and `JZ4740_CPM_CPPCR_PLLEN`
abbrev pub cppcr_rw_mask : ℕ
cppcr_rw_mask = 0xffff03ff

abbrev pub plls : ℕ
plls = 0x400

abbrev pub pllen : ℕ
pllen = 0x100

-- `jz4740_cpm_word_only_reg`
unfoldable pub word_only_reg : ℕ → Bool
word_only_reg reg =
    reg == cpccr
    || reg == cppcr
    || reg == i2scdr
    || reg == lpcdr
    || reg == msccdr
    || reg == uhccdr
    || reg == ssicdr

-- the case JZ4740_CPM_CPPCR of `jz4740_cpm_mask_write`: an enabled PLL is stable
abbrev pub lock_pll : ℕ → ℕ
lock_pll value = if has value pllen then bit_or value plls else value

-- `jz4740_cpm_mask_write`
unfoldable pub mask_write : ℕ → ℕ → ℕ
mask_write reg value =
    if reg == cpccr
    then value
    else if reg == lcr
    then bit_and value 0xff
    else if reg == cppcr
    then lock_pll (bit_and value cppcr_rw_mask)
    else if reg == clkgr
    then bit_and value 0xffff
    else if reg == scr
    then bit_and value 0xffd0
    else if reg == i2scdr
    then bit_and value 0x1ff
    else if reg == lpcdr
    then bit_and value 0x800007ff
    else if reg == msccdr
    then bit_and value 0x1f
    else if reg == uhccdr
    then bit_and value 0x0f
    else if reg == ssicdr
    then bit_and value 0x8000000f
    else value

-- `jz4740_cpm_notify`
abbrev pub notify : Cpm → Cpm
notify s = if s.has_update then record s { updates = s.updates + 1 } else s

-- `jz4740_cpm_clkgr_wake_mask`
unfoldable pub clkgr_wake_mask : Cpm → ℕ
clkgr_wake_mask s = bit_and (s.regs (clkgr / 4)) 0x4a80

-- `jz4740_cpm_scr_wake_mask`
unfoldable pub scr_wake_mask : Cpm → ℕ
scr_wake_mask s = bit_and (s.regs (scr / 4)) 0x80

-- `jz4740_cpm_wake_enabled`
unfoldable pub wake_enabled : Cpm → Bool
wake_enabled s = not (clkgr_wake_mask s == 0) || not (scr_wake_mask s == 0)

-- `jz4740_cpm_read`
unfoldable pub read : Cpm → ℕ → ℕ → ℕ
read s offset size = extract32 (s.regs (aligned offset / 4)) offset size

-- the end of `jz4740_cpm_write`
unfoldable pub write_word : Cpm → ℕ → ℕ → Cpm
write_word s reg merged =
    let stored = record s { regs = update s.regs (reg / 4) (mask_write reg merged) } in
    if reg == clkgr || reg == scr then notify stored else stored

-- `jz4740_cpm_write`
unfoldable pub write : Cpm → ℕ → ℕ → ℕ → Cpm
write s offset value size =
    let reg = aligned offset in
    if word_only_reg reg && (not (offset % 4 == 0) || not (size == 4))
    then s
    else write_word s reg (merge (s.regs (reg / 4)) offset size value)

-- the word that `jz4740_cpm_reset_hold` leaves in a register
unfoldable pub reset_value : ℕ → ℕ
reset_value i =
    if i == cpccr / 4
    then 0x08
    else if i == lcr / 4
    then 0xf8
    else if i == cppcr / 4
    then 0x28080011
    else if i == clkgr / 4
    then 0
    else if i == scr / 4
    then 0x1500
    else if i == i2scdr / 4
        || i == lpcdr / 4
        || i == msccdr / 4
        || i == uhccdr / 4
        || i == ssicdr / 4
    then 0x04
    else 0

-- `jz4740_cpm_reset_hold`, and `jz4740_cpm_reset_exit` after it
unfoldable pub reset : Cpm → Cpm
reset s = notify (record s { regs = reset_value })

-- A restore: the registers, which are all that `vmstate_jz4740_cpm` lists, come from the saved state.
abbrev pub restore : Cpm → Cpm → Cpm
restore s saved = record s { regs = saved.regs }

-- `jz4740_cpm_post_load`, after a restore
abbrev pub post_load : Cpm → Cpm
post_load s = notify s

-- What the bus and the loader ask of the manager; a read changes nothing.
pub data Op : Type 0 where
  mmio_write : ℕ → ℕ → ℕ → Op
  load : Cpm → Op

unfoldable pub step : Cpm → Op → Cpm
step s (mmio_write offset value size) = write s offset value size
step s (load saved) = post_load (restore s saved)

unfoldable pub run : Cpm → List Op → Cpm
run s [] = s
run s (op ∷ ops) = run (step s op) ops
