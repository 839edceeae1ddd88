-- ===== src/Mmio.antt =====
-- Byte lanes of a 32-bit register under accesses of one, two or four bytes. The devices share this
-- code word for word: gpio_write and gpio_extract32 of qemu/overlay/hw/gpio/jz4740_gpio.c stand for
-- the copies in the interrupt controller, the timer unit, the clock and the memory controller.
pub mod Lanes
use bbk9588_emulator.Base.{
  ℕ, ◌+◌, ◌*◌, ◌/◌, ◌%◌, ◌^◌, ◌-◌, bit_and, bit_or, ◌==◌, if◌then◌else◌, ◌||◌,
}
use bbk9588_emulator.Bits.{not32}

-- `offset & ~3u`
abbrev pub aligned : ℕ → ℕ
aligned offset = offset - offset % 4

-- `(offset & 3u) * 8u`
abbrev pub byte_shift : ℕ → ℕ
byte_shift offset = offset % 4 * 8

-- The variable `mask` after the switch on the size. A mask is an unsigned int: what is shifted out
-- of 32 bits is lost.
pub lane_mask : ℕ → ℕ → ℕ
lane_mask offset size =
    if size == 1
    then 0xff * 2 ^ byte_shift offset % 2 ^ 32
    else if size == 2
    then 0xffff * 2 ^ byte_shift offset % 2 ^ 32
    else 0xffffffff

-- The variable `shift` after the switch: an access of a whole word sets it to 0.
pub lane_shift : ℕ → ℕ → ℕ
lane_shift offset size = if size == 1 || size == 2 then byte_shift offset else 0

-- `((uint32_t)value << shift) & mask`
pub lane_value : ℕ → ℕ → ℕ → ℕ
lane_value offset size value =
    bit_and (value % 2 ^ 32 * 2 ^ lane_shift offset size % 2 ^ 32) (lane_mask offset size)

-- `(old & ~mask) | lane_value`
pub merge : ℕ → ℕ → ℕ → ℕ → ℕ
merge old offset size value =
    bit_or (bit_and old (not32 (lane_mask offset size))) (lane_value offset size value)

-- `gpio_extract32`
pub extract32 : ℕ → ℕ → ℕ → ℕ
extract32 value offset size =
    let shifted = value / 2 ^ byte_shift offset in
    if size == 1
    then bit_and shifted 0xff
    else if size == 2
    then bit_and shifted 0xffff
    else shifted
