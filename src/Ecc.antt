-- ===== src/Ecc.antt =====
-- The NAND error correction helpers, qemu/overlay/hw/mem/jz4740_ecc.c: the symbols of a block, the
-- packed parity, the correction of a symbol, and the exponents of the codec.
pub mod Parity
pub mod Symbols
pub mod Correct
mod Tests
use bbk9588_emulator.Base.{
  ℕ, zero, suc, ◌+◌, ◌*◌, ◌/◌, ◌%◌, ◌^◌, ◌-◌, bit_and, bit_or, bit_xor, Bool, true, false, not,
  ◌&&◌, ◌||◌, ◌==◌, ltb, leb, if◌then◌else◌, update,
}

-- `JZ4740_ECC_BLOCK_BYTES`
abbrev pub block_bytes : ℕ
block_bytes = 512

-- `JZ4740_RS_NN`, which is also the mask of a symbol
abbrev pub nn : ℕ
nn = 511

-- `rs_modnn`, on the rounds that may be left
unfoldable pub modnn_loop : ℕ → ℕ → ℕ
modnn_loop zero value = value
modnn_loop (suc left) value =
    let rest = modnn_loop left (value - nn) in if leb nn value then rest else value

-- Each round takes something away, so that `value` rounds are enough.
unfoldable pub rs_modnn : ℕ → ℕ
rs_modnn value = modnn_loop value value

-- One round of `rs_data_symbols`. The variable `value` is a uint16_t.
unfoldable pub data_symbol : (ℕ → ℕ) → ℕ → ℕ
data_symbol block i =
    let byte = i * 9 / 8 in
    let shift = i * 9 % 8 in
    let low = block byte / 2 ^ shift in
    let value =
      if ltb (byte + 1) block_bytes
      then bit_or low (block (byte + 1) * 2 ^ (8 - shift)) % 2 ^ 16
      else low in
    bit_and value nn

-- `rs_data_symbols`
unfoldable pub data_symbols : (ℕ → ℕ) → ℕ → ℕ
data_symbols block i = if ltb i 456 then data_symbol block i else 0

-- The array `par` of `rs_pack_parity`.
abbrev pub par_of : (ℕ → ℕ) → ℕ → ℕ
par_of parity i = bit_and (parity (7 - i)) nn

-- The words `par0` and `par1`.
unfoldable pub pack_low : (ℕ → ℕ) → ℕ
pack_low par =
    bit_or (bit_or (bit_or (par 7) (par 6 * 2 ^ 9)) (par 5 * 2 ^ 18))
      (bit_and (par 4) 0x1f * 2 ^ 27)

unfoldable pub pack_high : (ℕ → ℕ) → ℕ
pack_high par =
    bit_or
      (bit_or (bit_or (bit_or (bit_and (par 4 / 2 ^ 5) 0x0f) (par 3 * 2 ^ 4)) (par 2 * 2 ^ 13))
        (par 1 * 2 ^ 22))
      (bit_and (par 0) 1 * 2 ^ 31)

-- `rs_pack_parity`, with `stl_le_p` written out
unfoldable pub pack_parity : (ℕ → ℕ) → ℕ → ℕ
pack_parity parity i =
    let par = par_of parity in
    if ltb i 4
    then pack_low par / 2 ^ (8 * i) % 2 ^ 8
    else if ltb i 8
    then pack_high par / 2 ^ (8 * (i - 4)) % 2 ^ 8
    else par 0 / 2

-- `ldl_le_p`
abbrev pub load_le : (ℕ → ℕ) → ℕ → ℕ
load_le packed i =
    bit_or (bit_or (bit_or (packed i) (packed (i + 1) * 2 ^ 8)) (packed (i + 2) * 2 ^ 16))
      (packed (i + 3) * 2 ^ 24)

-- The array `par` of `rs_unpack_parity`, from the two words and the last byte.
unfoldable pub unpack_field : ℕ → ℕ → ℕ → ℕ → ℕ
unpack_field par0 par1 last i =
    if i == 7
    then bit_and par0 nn
    else if i == 6
    then bit_and (par0 / 2 ^ 9) nn
    else if i == 5
    then bit_and (par0 / 2 ^ 18) nn
    else if i == 4
    then bit_or (bit_and (par0 / 2 ^ 27) 0x1f) (bit_and par1 0x0f * 2 ^ 5)
    else if i == 3
    then bit_and (par1 / 2 ^ 4) nn
    else if i == 2
    then bit_and (par1 / 2 ^ 13) nn
    else if i == 1
    then bit_and (par1 / 2 ^ 22) nn
    else bit_or (bit_and (par1 / 2 ^ 31) 1) (last * 2)

-- `rs_unpack_parity`
unfoldable pub unpack_parity : (ℕ → ℕ) → ℕ → ℕ
unpack_parity packed i = unpack_field (load_le packed 0) (load_le packed 4) (packed 8) (7 - i)

-- `JZ4740RSCorrection`
pub record Correction : Type 0 where
  pub index : ℕ
  pub mask : ℕ

-- `jz4740_rs_apply_correction`, for a correction that is not null
unfoldable pub apply_correction : (ℕ → ℕ) → Correction → ℕ → ℕ
apply_correction block correction =
    let symbol = correction.index - 1 in
    let byte = symbol + symbol / 8 in
    let mask = bit_and correction.mask nn * 2 ^ (symbol % 8) % 2 ^ 16 in
    if correction.index == 0
    then block
    else if leb block_bytes byte
    then block
    else let first = update block byte (bit_xor (block byte) (bit_and mask 0xff)) in
      if ltb (byte + 1) block_bytes
      then update first (byte + 1) (bit_xor (first (byte + 1)) (mask / 2 ^ 8) % 2 ^ 8)
      else first
