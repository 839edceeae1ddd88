-- ===== src/Nand/Read.antt =====
-- Filling and draining the read buffer.
use bbk9588_emulator.Base.{
  ℕ, zero, suc, ◌+◌, ◌*◌, ◌%◌, ◌^◌, ◌-◌, bit_and, bit_or, Bool, true, false, not, ◌&&◌, ◌||◌, ◌==◌,
  ltb, leb, if◌then◌else◌, min,
}
use bbk9588_emulator.Bits.{not32}
use bbk9588_emulator.Nand.State.{
  Nand, read_trace, read_detail, debug_byte, emit, stride_of, page_from_address,
  column_from_address, page_size, read_buffer_size,
}

-- an array of 0xff with the first `n` bytes of `bytes`, from `offset` on, in front
abbrev pub blank_then_copy : (ℕ → ℕ) → ℕ → ℕ → ℕ → ℕ
blank_then_copy bytes offset n i = if ltb i n then bytes (offset + i) else 0xff

-- `nand_fill_read`; `bytes` holds at least `length` bytes.
unfoldable pub fill_read : Nand → (ℕ → ℕ) → ℕ → Nand
fill_read s bytes length = record s {
  read_buffer = blank_then_copy bytes 0 (min length read_buffer_size);
  read_index = 0;
}

abbrev pub id_bytes : ℕ → ℕ → ℕ
id_bytes id_code i =
    if i == 0
    then 0xec
    else if i == 1
    then bit_and id_code 0xff
    else if i == 2
    then 0x10
    else if i == 3
    then 0x95
    else 0x44

-- `nand_fill_read_id`
unfoldable pub fill_read_id : Nand → Nand
unfolding fill_read
fill_read_id s = fill_read s (id_bytes s.id_code) 5

-- `nand_prepare_erased_page`
unfoldable pub prepare_erased_page : Nand → Nand
prepare_erased_page s = record s { read_buffer = λ _. 0xff; read_index = 0 }

-- The loop of `nand_data_region_is_blank`, with the rounds left.
unfoldable pub blank_loop : ℕ → (ℕ → ℕ) → ℕ → Bool
blank_loop zero bytes at = true
blank_loop (suc left) bytes at =
    let rest = blank_loop left bytes (at + 1) in if bytes at == 0xff then rest else false

-- `nand_data_region_is_blank`
unfoldable pub region_is_blank : Nand → ℕ → ℕ → ℕ → Bool
unfolding blank_loop stride_of
region_is_blank s page column length =
    let offset = page * stride_of s + column in
    if not s.has_data || leb page_size column || ltb s.size (offset + length)
    then true
    else blank_loop length s.bytes offset

-- `ldl_le_p`
abbrev pub load32 : (ℕ → ℕ) → ℕ → ℕ
load32 bytes at =
    bytes at + bytes (at + 1) * 2 ^ 8 + bytes (at + 2) * 2 ^ 16 + bytes (at + 3) * 2 ^ 24

-- the bytes that `nand_prepare_page_read` copies
unfoldable pub copy_length : Nand → ℕ → ℕ → ℕ
copy_length s page column =
    let offset = page * stride_of s + column in
    if s.has_data && ltb column (stride_of s) && ltb offset s.size
    then min read_buffer_size (s.size - offset)
    else 0

-- the variable `flags` at the end of `nand_prepare_page_read`
unfoldable pub read_flags : Nand → ℕ → ℕ → ℕ
unfolding region_is_blank
read_flags s page column =
    let blank = region_is_blank s page column (page_size - column) in
    let request = if ltb column page_size && blank then bit_or 1 8 else 1 in
    if leb page_size column || blank then bit_or request 16 else request

-- `nand_prepare_page_read`
unfoldable pub prepare_page_read : Nand → Nand
unfolding copy_length read_flags prepare_erased_page emit
prepare_page_read s =
    if ltb s.address_count 5
    then prepare_erased_page s
    else let column = column_from_address s in
      let page = page_from_address s in
      let n = copy_length s page column in
      let flags = read_flags s page column in
      let s1 : Nand = record s {
        read_page = page;
        read_column = column;
        read_buffer = blank_then_copy s.bytes (page * stride_of s + column) n;
        read_index = 0;
      } in
      let first_word = if leb 4 n then load32 s1.read_buffer 0 else 0xffffffff in
      if s.trace_enabled && ltb column (stride_of s)
      then emit (emit s1 read_trace page column n first_word flags 0 false) read_detail page column
          0 0 flags 0 false
      else s1

-- the byte at `read_index`
abbrev pub next_byte : Nand → ℕ
next_byte s = if ltb s.read_index read_buffer_size then s.read_buffer s.read_index else 0xff

-- the two places that the trace watches
abbrev pub watched : Nand → Bool
watched s =
    s.trace_enabled
    && ((s.read_page == 0x2c30c && leb 0x6b8 s.read_index && ltb s.read_index 0x6c0)
        || (s.read_page == 0x2c30f && leb 0x598 s.read_index && ltb s.read_index 0x5a0))

-- One round of `nand_read_data`: the event, and the index moved on.
unfoldable pub read_byte : Nand → Nand
unfolding emit
read_byte s =
    let s1 =
      if watched s
      then emit s debug_byte s.read_page s.read_column 1 (next_byte s) 0 s.read_index false
      else s in
    record s1 { read_index = (s.read_index + 1) % 2 ^ 32 }

-- The loop of `nand_read_data`, with the rounds left, the round and the value so far.
unfoldable pub read_loop : ℕ → ℕ → Nand → ℕ → ℕ × Nand
unfolding read_byte
read_loop zero i s value = (value, s)
read_loop (suc left) i s value =
    read_loop left (i + 1) (read_byte s)
      (bit_or (bit_and value (not32 (0xff * 2 ^ (i * 8)))) (next_byte s * 2 ^ (i * 8)))

-- `nand_read_data`
unfoldable pub read_data : Nand → ℕ → ℕ × Nand
unfolding read_loop
read_data s size = read_loop (min size 4) 0 s 0xffffffff
